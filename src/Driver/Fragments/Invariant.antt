-- ===== src/Driver/Fragments/Invariant.antt =====
-- enhancements/0001-zigbee-ember/src/homey-ember.cjs: the map of fragmented messages between two
-- calls of `onIncomingMessage`.
use homey_shs_enhanced.Driver.Fragments.Entries.{
  Each-expire, length-expire, Each-delete, Each-set, length-set_old, length-delete, length-set_le,
  Each-find, set-set, Each,
}
use homey_shs_enhanced.Driver.Fragments.{
  expire, is_fragment, on_incoming_message, find_message, set_message, on_fragment, take_block,
  Incoming, Key, max_fragmented_messages, Message, first_length, Fragments,
}
use homey_shs_enhanced.Prelude.{
  leb, not, length, Bool-cases, ◌||◌, ◌==◌, ◌/◌, Option-cases, length-append, some, inl, inr, ◌%◌,
  arith, All, ℕ, List, [], refl, zero, suc, ◌-◌, ◌+◌, ◌≤◌, ◌≡◌, ◌<◌, ◌++◌, ◌∷◌,
}

abbrev pub take : {A : Type 0} → ℕ → List A → List A
take zero xs = []
take (suc n) [] = []
take (suc n) (x ∷ xs) = x ∷ take n xs

-- A message has at least one block and no more than it announced, and all blocks but the last one
-- that it announced are as long as the first.
pub record IsSound (m : Message) : Type 0 where
  pub begun : 1 ≤ length m.blocks
  pub fits : length m.blocks ≤ m.total
  pub even : All (λ b. length b ≡ first_length m.blocks) (take (m.total - 1) m.blocks)

pub record IsValid (es : Fragments) : Type 0 where
  pub bounded : length es ≤ max_fragmented_messages
  pub sound : Each IsSound es

All-take-nil : (P : List ℕ → Type 0) (n : ℕ) → All P (take n [])
All-take-nil P zero = tt
All-take-nil P (suc n) = tt

All-take-append :
    (P : List ℕ → Type 0) (n : ℕ) (bs : List (List ℕ)) (b : List ℕ)
    → All P (take n bs)
    → (length bs < n → P b)
    → All P (take n (bs ++ b ∷ []))
All-take-append P zero bs b h k = tt
All-take-append P (suc n) [] b h k = (k (omega arith), All-take-nil P n)
All-take-append P (suc n) (c ∷ bs) b h k =
    (h.0, All-take-append P n bs b h.1 (λ l. k (omega arith)))

push-even :
    (bs : List (List ℕ)) (total : ℕ) (b : List ℕ)
    → All (λ c. length c ≡ first_length bs) (take (total - 1) bs)
    → (0 < length bs → length bs + 1 < total → length b ≡ first_length bs)
    → All (λ c. length c ≡ first_length (bs ++ b ∷ [])) (take (total - 1) (bs ++ b ∷ []))
push-even [] total b h k =
    All-take-append (λ c. length c ≡ length b) (total - 1) [] b (All-take-nil _ (total - 1))
      (λ l. refl)
push-even (c ∷ bs) total b h k =
    All-take-append (λ d. length d ≡ length c) (total - 1) (c ∷ bs) b h
      (λ l. k (omega arith) (omega arith))

push-IsSound :
    (m : Message) (b : List ℕ)
    → All (λ c. length c ≡ first_length m.blocks) (take (m.total - 1) m.blocks)
    → length m.blocks < m.total
    → (0 < length m.blocks → length m.blocks + 1 < m.total → length b ≡ first_length m.blocks)
    → IsSound (record m { blocks = m.blocks ++ b ∷ [] })
push-IsSound m b h l k = record {
  begun = omega (arith, length-append m.blocks (b ∷ []));
  fits = omega (arith, length-append m.blocks (b ∷ []));
  even = push-even m.blocks m.total b h k;
}

module _ (fragment : ℕ) where
  -- One more block in its place, a block of another size, the newest block again, or any other.
  take_block-IsValid :
      (es : Fragments) (key : Key) (m : Message) (index : ℕ) (i : Incoming)
      → IsValid es
      → find_message key es ≡ some m
      → IsValid (take_block fragment es key m index i).fragments
  unfolding take_block
  take_block-IsValid es key m index i v e =
      let s = Each-find IsSound key es m e v.sound in
      let pushed = push-IsSound m i.contents s.even in
      let m' : Message = record m { blocks = m.blocks ++ i.contents ∷ [] } in
      record {
        bounded = ground (arith, v.bounded, length-delete key es, length-set_old key m' m es e);
        sound = ground (
          arith,
          v.sound,
          Each-delete IsSound key es v.sound,
          Each-set IsSound key m' es,
          pushed,
        );
      }

  -- The first block of a message.
  take_block-new :
      (es : Fragments) (key : Key) (total now index : ℕ) (i : Incoming)
      → IsValid es
      → index ≡ 0
      → 0 < total
      → length es < max_fragmented_messages
      → let m : Message = record { total = total; blocks = []; started_at = now } in
        IsValid (take_block fragment (set_message key m es) key m index i).fragments
  unfolding take_block
  take_block-new es key total now index i v zeroth pos room =
      let m : Message = record { total = total; blocks = []; started_at = now } in
      let m' : Message = record m { blocks = i.contents ∷ [] } in
      let s =
        push-IsSound m i.contents (All-take-nil _ (total - 1)) pos (λ l. absurd (omega arith)) in
      record {
        bounded = ground (arith, set-set key m' m es, length-set_le key m' es);
        sound = ground (arith, set-set key m' m es, Each-set IsSound key m' es s v.sound);
      }

  on_fragment-IsValid :
      (es : Fragments) (now : ℕ) (i : Incoming)
      → IsValid es
      → IsValid (on_fragment fragment es now i).fragments
  unfolding on_fragment
  on_fragment-IsValid es now i v =
      let key : Key = (i.sender, i.frame.sequence) in
      elim (Option-cases (find_message key es)) [
        | inl e ↦
            elim (Bool-cases (
              not (i.frame.group_id % 256 == 0)
              || i.frame.group_id / 256 == 0
              || leb max_fragmented_messages (length es))) [
                | inl refused ↦ rw (e, on_fragment, refused) v
                | inr begun ↦
                    rw (e, on_fragment, begun)
                      (take_block-new es key (i.frame.group_id / 256) now (i.frame.group_id % 256) i
                        v (ground arith) (ground arith) (ground arith))
              ]
        | inr (m, e) ↦
            rw (e, on_fragment) (take_block-IsValid es key m (i.frame.group_id % 256) i v e)
      ]

  -- Every message, at any time, keeps the map valid: at most sixteen messages, each begun, no longer
  -- than announced, and with even blocks.
  pub on_incoming_message-IsValid :
      (es : Fragments) (now : ℕ) (i : Incoming)
      → IsValid es
      → IsValid (on_incoming_message fragment es now i).fragments
  unfolding on_incoming_message
  on_incoming_message-IsValid es now i v =
      elim (Bool-cases (is_fragment fragment i.frame.options)) [
        | inl yes_fragment ↦ rw yes_fragment (
            on_fragment-IsValid (expire now es) now i (record {
              bounded = omega (arith, v.bounded, length-expire now es);
              sound = Each-expire IsSound now es v.sound;
            }))
        | inr whole ↦ rw whole v
      ]
