-- ===== src/Driver/Fragments.antt =====
-- enhancements/0001-zigbee-ember/src/homey-ember.cjs: `onIncomingMessage`, which joins the blocks of
-- a fragmented APS message and acknowledges each. The clock's reading and the bit
-- `EmberApsOption.FRAGMENT` are parameters.
pub mod Entries
pub mod Invariant
pub mod Reassembly
pub mod Silence
use homey_shs_enhanced.Prelude.{
  length, leb, not, ltb, List, Option, Bool, [], none, some, ◌&&◌, ◌∷◌, ◌-◌, if◌then◌else◌, ◌+◌,
  ◌%◌, ◌++◌, ◌/◌, ◌==◌, ◌||◌,
}
use Prim.Native.Nat.{ℕ, bit_and}

abbrev pub fragment_ttl_ms : ℕ
fragment_ttl_ms = 10_000

abbrev pub max_fragmented_messages : ℕ
max_fragmented_messages = 16

pub record ApsFrame : Type 0 where
  pub profile_id : ℕ
  pub cluster_id : ℕ
  pub source_endpoint : ℕ
  pub destination_endpoint : ℕ
  pub options : ℕ
  pub group_id : ℕ
  pub sequence : ℕ

-- The arguments of `onIncomingMessage`; a buffer is its list of bytes.
pub record Incoming : Type 0 where
  pub kind : ℕ
  pub frame : ApsFrame
  pub last_hop_lqi : ℕ
  pub sender : ℕ
  pub contents : List ℕ

pub record Message : Type 0 where
  pub total : ℕ
  pub blocks : List (List ℕ)
  pub started_at : ℕ

-- The key `${sender}:${sequence}`.
abbrev pub Key : Type 0
Key = ℕ × ℕ

abbrev pub key_eq : Key → Key → Bool
key_eq a b = a.0 == b.0 && a.1 == b.1

-- `homeyFragments`, in the order of insertion.
abbrev pub Fragments : Type 0
Fragments = List (Key × Message)

unfoldable pub find_message : Key → Fragments → Option Message
find_message key [] = none
find_message key ((k, m) ∷ es) = if key_eq k key then some m else find_message key es

-- `map.set(key, message)`.
unfoldable pub set_message : Key → Message → Fragments → Fragments
set_message key message [] = (key, message) ∷ []
set_message key message ((k, m) ∷ es) =
    if key_eq k key then (key, message) ∷ es else (k, m) ∷ set_message key message es

unfoldable pub delete_message : Key → Fragments → Fragments
delete_message key [] = []
delete_message key ((k, m) ∷ es) =
    if key_eq k key then delete_message key es else (k, m) ∷ delete_message key es

-- `now - message.startedAt >= FRAGMENT_TTL_MS`.
abbrev pub is_expired : ℕ → Message → Bool
is_expired now m = leb (m.started_at + fragment_ttl_ms) now

unfoldable pub expire : ℕ → Fragments → Fragments
expire now [] = []
expire now ((k, m) ∷ es) = if is_expired now m then expire now es else (k, m) ∷ expire now es

abbrev pub first_length : List (List ℕ) → ℕ
first_length [] = 0
first_length (b ∷ bs) = length b

-- `Buffer.concat`.
abbrev pub concat : List (List ℕ) → List ℕ
concat [] = []
concat (b ∷ bs) = b ++ concat bs

-- What a call does besides changing the map: the frame of the reply that it sends, and the message
-- that it hands to herdsman.
pub record Effects : Type 0 where
  pub fragments : Fragments
  pub reply : Option ApsFrame
  pub delivered : Option Incoming

abbrev pub silent : Fragments → Effects
silent es = record { fragments = es; reply = none; delivered = none }

-- The reply for block `index`; `0xff00 | index`, for an index below 256.
unfoldable pub acknowledgement : ApsFrame → ℕ → ApsFrame
acknowledgement frame index = record frame { group_id = 0xff00 + index }

-- `(apsFrame.options & FRAGMENT) !== 0`, and `options & ~FRAGMENT`.
module _ (fragment : ℕ) where
  unfoldable pub is_fragment : ℕ → Bool
  is_fragment options = ltb 0 (bit_and options fragment)

  unfoldable pub clear_fragment : ℕ → ℕ
  clear_fragment options = options - bit_and options fragment

  -- The message that herdsman gets when the last block has come.
  unfoldable pub joined : Incoming → List (List ℕ) → Incoming
  joined i blocks = record i {
    frame = record i.frame { options = clear_fragment i.frame.options; group_id = 0 };
    contents = concat blocks;
  }

  -- From the search of the message on: the in-order block, the odd-sized block, the duplicate of
  -- the newest block, and what lies outside the window.
  unfoldable pub take_block : Fragments → Key → Message → ℕ → Incoming → Effects
  take_block es key m index i =
      if index == length m.blocks && ltb index m.total
      then (if ltb 0 index
            && ltb (index + 1) m.total
            && not (length i.contents == first_length m.blocks)
          then silent (delete_message key es)
          else (let blocks = m.blocks ++ i.contents ∷ [] in
              record {
                fragments = set_message key (record m { blocks = blocks }) es;
                reply = some (acknowledgement i.frame index);
                delivered = if length blocks == m.total then some (joined i blocks) else none;
              }))
      else if not (index + 1 == length m.blocks)
      then silent es
      else record { fragments = es; reply = some (acknowledgement i.frame index); delivered = none }

  unfoldable pub on_fragment : Fragments → ℕ → Incoming → Effects
  on_fragment es now i =
      let index = i.frame.group_id % 256 in
      let total = i.frame.group_id / 256 in
      let key : Key = (i.sender, i.frame.sequence) in
      elim (find_message key es) [
        | some m ↦ take_block es key m index i
        | none ↦
            if not (index == 0) || total == 0 || leb max_fragmented_messages (length es)
            then silent es
            else (let m : Message = record { total = total; blocks = []; started_at = now } in
                take_block (set_message key m es) key m index i)
      ]

  unfoldable pub on_incoming_message : Fragments → ℕ → Incoming → Effects
  on_incoming_message es now i =
      if not (is_fragment i.frame.options)
      then record { fragments = es; reply = none; delivered = some i }
      else on_fragment (expire now es) now i
