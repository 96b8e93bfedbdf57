-- ===== src/Driver/Fragments/Silence.antt =====
-- enhancements/0001-zigbee-ember/src/homey-ember.cjs: fragments that come again, and the messages
-- that a fragment is not about.
use homey_shs_enhanced.Driver.Fragments.Entries.{
  on_incoming_message-absent, on_incoming_message-found, fresh_message, key_of, find-delete,
  find-set, find-expire-some,
}
use homey_shs_enhanced.Driver.Fragments.{
  set_message, expire, fragment_ttl_ms, find_message, acknowledgement, Message, key_eq, is_fragment,
  Fragments, on_fragment, Key, on_incoming_message, take_block, Incoming,
}
use homey_shs_enhanced.Prelude.{
  length, Option-cases, inl, inr, ◌++◌, [], ◌∷◌, arith, ℕ, true, false, none, some, if◌then◌else◌,
  ◌%◌, ◌==◌, ◌<◌, ◌≡◌, ◌+◌,
}

module _ (fragment : ℕ) where
  take_block_complete :
      (es : Fragments) (key : Key) (m : Message) (index : ℕ) (i : Incoming)
      → length m.blocks ≡ m.total
      → let e = take_block fragment es key m index i in
        (e.fragments ≡ es)
        × (e.delivered ≡ none)
        × (e.reply ≡ (if index + 1 == m.total then some (acknowledgement i.frame index) else none))
  unfolding take_block
  take_block_complete es key m index i h = ground arith

  -- Until its entry expires, a message that is complete is never delivered again, whichever of its
  -- fragments is retransmitted; its entry stays, and the last block, and that alone, is
  -- acknowledged again.
  pub complete-once :
      (es : Fragments) (now : ℕ) (i : Incoming) (m : Message)
      → is_fragment fragment i.frame.options ≡ true
      → find_message (key_of i) es ≡ some m
      → length m.blocks ≡ m.total
      → now < m.started_at + fragment_ttl_ms
      → let e = on_incoming_message fragment es now i in
        (e.delivered ≡ none)
        × (find_message (key_of i) e.fragments ≡ some m)
        × (e.reply ≡ (
            if i.frame.group_id % 256 + 1 == m.total
            then some (acknowledgement i.frame (i.frame.group_id % 256))
            else none))
  complete-once es now i m f e c y =
      let k = find-expire-some (key_of i) now es m e y in
      let t = take_block_complete (expire now es) (key_of i) m (i.frame.group_id % 256) i c in
      rw (on_incoming_message-found fragment es now i f k) (t.1, rw t.0 k, t.2)

  -- A message handed to herdsman was acknowledged by the same call, unless it came whole.
  pub delivered-acknowledged :
      (es : Fragments) (now : ℕ) (i : Incoming) (d : Incoming)
      → (on_incoming_message fragment es now i).delivered ≡ some d
      → (is_fragment fragment i.frame.options ≡ true)
      → ((on_incoming_message fragment es now i).reply
          ≡ some (acknowledgement i.frame (i.frame.group_id % 256)))
  unfolding on_incoming_message on_fragment take_block
  delivered-acknowledged es now i d h f = ground arith

  take_block-other :
      (es : Fragments) (k : Key) (m : Message) (index : ℕ) (i : Incoming) (key : Key)
      → key_eq k key ≡ false
      → find_message key (take_block fragment es k m index i).fragments ≡ find_message key es
  unfolding take_block
  take_block-other es k m index i key other = ground (
    arith,
    find-delete key k es,
    find-set key k (record m { blocks = m.blocks ++ i.contents ∷ [] }) es,
  )

  -- A fragment leaves every other message as it was, but for those that have expired.
  pub on_incoming_message-other :
      (es : Fragments) (now : ℕ) (i : Incoming) (key : Key)
      → key_eq (key_of i) key ≡ false
      → is_fragment fragment i.frame.options ≡ true
      → find_message key (on_incoming_message fragment es now i).fragments
        ≡ find_message key (expire now es)
  on_incoming_message-other es now i key other f =
      let old = expire now es in
      let fresh = fresh_message now i in
      elim (Option-cases (find_message (key_of i) old)) [
        | inr (m, e) ↦
            rw (on_incoming_message-found fragment es now i f e)
              (take_block-other old (key_of i) m _ i key other)
        | inl e ↦ rw (on_incoming_message-absent fragment es now i f e) (
            ground (
              arith,
              take_block-other (set_message (key_of i) fresh old) (key_of i) fresh
                  (i.frame.group_id % 256) i key other,
              find-set key (key_of i) fresh old,
            ))
      ]
