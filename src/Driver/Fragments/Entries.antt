-- ===== src/Driver/Fragments/Entries.antt =====
-- enhancements/0001-zigbee-ember/src/homey-ember.cjs: the map of fragmented messages, by lookups
-- after each change and by predicates of its entries.
use homey_shs_enhanced.Driver.Fragments.{
  silent, max_fragmented_messages, take_block, on_fragment, on_incoming_message, is_fragment,
  Incoming, fragment_ttl_ms, key_eq, Fragments, Message, Key, delete_message, set_message, expire,
  find_message,
}
use homey_shs_enhanced.Prelude.{
  leb, not, length, ℕ, true, ◌==◌, ◌/◌, ◌||◌, ◌%◌, subst, Bool-cases, arith, [], refl, none, some,
  inl, inr, ◌+◌, ◌≤◌, if◌then◌else◌, ◌≡◌, ◌<◌, ◌∷◌,
}

module _ (k : Key) where
  pub find-set :
      (key : Key) (m : Message) (es : Fragments)
      → find_message k (set_message key m es) ≡ (if key_eq key k then some m else find_message k es)
  unfolding find_message set_message
  find-set key m [] = refl
  find-set key m ((j, n) ∷ es) = ground (arith, find-set key m es)

  pub find-delete :
      (key : Key) (es : Fragments)
      → find_message k (delete_message key es) ≡ (if key_eq key k then none else find_message k es)
  unfolding find_message delete_message
  find-delete key [] = ground arith
  find-delete key ((j, n) ∷ es) = ground (arith, find-delete key es)

  pub find-expire-none :
      (now : ℕ) (es : Fragments) → find_message k es ≡ none → find_message k (expire now es) ≡ none
  unfolding find_message expire
  find-expire-none now [] h = refl
  find-expire-none now ((j, n) ∷ es) h = ground (arith, find-expire-none now es)

  -- A message that is young enough stays.
  pub find-expire-some :
      (now : ℕ) (es : Fragments) (m : Message)
      → find_message k es ≡ some m
      → now < m.started_at + fragment_ttl_ms
      → find_message k (expire now es) ≡ some m
  unfolding find_message expire
  find-expire-some now [] m h y = cc
  find-expire-some now ((j, n) ∷ es) m h y = ground (arith, find-expire-some now es m)

  pub find-set_self : (m : Message) (es : Fragments) → find_message k (set_message k m es) ≡ some m
  find-set_self m es = ground (arith, find-set k m es)

pub set-set :
    (k : Key) (m n : Message) (es : Fragments)
    → set_message k m (set_message k n es) ≡ set_message k m es
unfolding set_message
set-set k m n [] = ground arith
set-set k m n ((j, o) ∷ es) = ground (arith, set-set k m n es)

pub length-expire : (now : ℕ) (es : Fragments) → length (expire now es) ≤ length es
unfolding expire
length-expire now [] = omega arith
length-expire now ((j, n) ∷ es) = ground (arith, length-expire now es)

pub length-delete : (key : Key) (es : Fragments) → length (delete_message key es) ≤ length es
unfolding delete_message
length-delete key [] = omega arith
length-delete key ((j, n) ∷ es) = ground (arith, length-delete key es)

pub length-set_old :
    (key : Key) (m n : Message) (es : Fragments)
    → find_message key es ≡ some n
    → length (set_message key m es) ≡ length es
unfolding find_message set_message
length-set_old key m n [] h = cc
length-set_old key m n ((j, o) ∷ es) h = ground (arith, length-set_old key m n es)

pub length-set_le :
    (key : Key) (m : Message) (es : Fragments) → length (set_message key m es) ≤ length es + 1
unfolding set_message
length-set_le key m [] = omega arith
length-set_le key m ((j, o) ∷ es) = ground (arith, length-set_le key m es)

-- A predicate of the messages.
module _ (P : Message → Type 0) where
  abbrev pub Each : Fragments → Type 0
  Each [] = Unit {0}
  Each ((k, m) ∷ es) = P m × Each es

  pub Each-expire : (now : ℕ) (es : Fragments) → Each es → Each (expire now es)
  unfolding expire
  Each-expire now [] h = tt
  Each-expire now ((j, n) ∷ es) h = ground (arith, Each-expire now es)

  pub Each-delete : (key : Key) (es : Fragments) → Each es → Each (delete_message key es)
  unfolding delete_message
  Each-delete key [] h = tt
  Each-delete key ((j, n) ∷ es) h = ground (arith, Each-delete key es)

  pub Each-set :
      (key : Key) (m : Message) (es : Fragments) → P m → Each es → Each (set_message key m es)
  unfolding set_message
  Each-set key m [] p h = (p, tt)
  Each-set key m ((j, n) ∷ es) p h = ground (arith, Each-set key m es p)

  pub Each-find :
      (key : Key) (es : Fragments) (m : Message) → find_message key es ≡ some m → Each es → P m
  unfolding find_message
  Each-find key [] m e h = cc
  Each-find key ((j, n) ∷ es) m e h = elim (Bool-cases (key_eq j key)) [
    | inl same ↦ let e' : n ≡ m = ground arith in subst P e' h.0
    | inr other ↦ Each-find key es m (ground arith) h.1
  ]

abbrev pub key_of : Incoming → Key
key_of i = (i.sender, i.frame.sequence)

abbrev pub fresh_message : ℕ → Incoming → Message
fresh_message now i = record { total = i.frame.group_id / 256; blocks = []; started_at = now }

-- A call, by what the map holds for its key once the expired messages are gone.
module _ (fragment : ℕ) (es : Fragments) (now : ℕ) (i : Incoming)
    (f : is_fragment fragment i.frame.options ≡ true) where
  pub on_incoming_message-found :
      {m : Message}
      → find_message (key_of i) (expire now es) ≡ some m
      → on_incoming_message fragment es now i
        ≡ take_block fragment (expire now es) (key_of i) m (i.frame.group_id % 256) i
  unfolding on_incoming_message on_fragment
  on_incoming_message-found e = rw (f, e, on_fragment)

  pub on_incoming_message-absent :
      find_message (key_of i) (expire now es) ≡ none
      → on_incoming_message fragment es now i ≡ (
          if not (i.frame.group_id % 256 == 0)
            || i.frame.group_id / 256 == 0
            || leb max_fragmented_messages (length (expire now es))
          then silent (expire now es)
          else take_block fragment
              (set_message (key_of i) (fresh_message now i) (expire now es))
              (key_of i)
              (fresh_message now i)
              (i.frame.group_id % 256)
              i)
  unfolding on_incoming_message on_fragment
  on_incoming_message-absent e = rw (f, e, on_fragment)
