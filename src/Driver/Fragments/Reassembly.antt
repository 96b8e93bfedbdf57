-- ===== src/Driver/Fragments/Reassembly.antt =====
-- enhancements/0001-zigbee-ember/src/homey-ember.cjs: a sender's blocks, received in order.

use homey_shs_enhanced.Driver.Fragments.{
  on_incoming_message, acknowledgement, ApsFrame, Fragments, Incoming,
}
use homey_shs_enhanced.Prelude.{List, ℕ, Option, [], suc, none, some, ◌∷◌, ◌==◌, if◌then◌else◌, ◌*◌}

-- Block `index` of a message of `total` blocks, sent as the message `i` with other contents.
unfoldable pub block_frame : Incoming → ℕ → ℕ → List ℕ → Incoming
block_frame i total index block = record i {
  frame = record i.frame { group_id = if index == 0 then total * 256 else index };
  contents = block;
}

-- The blocks from `index` on, block j received at the time `clock j`.
unfoldable pub transmission : Incoming → ℕ → (ℕ → ℕ) → ℕ → List (List ℕ) → List (ℕ × Incoming)
unfolding block_frame
transmission i total clock index [] = []
transmission i total clock index (b ∷ bs) =
    (clock index, block_frame i total index b) ∷ transmission i total clock (suc index) bs

-- The replies for the blocks from `index` on.
unfoldable pub acknowledgements : Incoming → ℕ → ℕ → List (List ℕ) → List ApsFrame
acknowledgements i total index [] = []
acknowledgements i total index (b ∷ bs) =
    acknowledgement (block_frame i total index b).frame index
    ∷ acknowledgements i total (suc index) bs

abbrev pub cons_option : {A : Type 0} → Option A → List A → List A
cons_option none xs = xs
cons_option (some x) xs = x ∷ xs

-- The replies and the messages delivered over a sequence of calls.
unfoldable pub receive :
    ℕ → Fragments → List (ℕ × Incoming) → Fragments × List ApsFrame × List Incoming
receive fragment es [] = (es, [], [])
receive fragment es ((now, i) ∷ is) =
    let e = on_incoming_message fragment es now i in
    let (es', replies, delivered) = receive fragment e.fragments is in
    (es', cons_option e.reply replies, cons_option e.delivered delivered)

-- All blocks but the last.
abbrev pub front : List (List ℕ) → List (List ℕ)
front [] = []
front (b ∷ []) = []
front (b ∷ c ∷ bs) = b ∷ front (c ∷ bs)
