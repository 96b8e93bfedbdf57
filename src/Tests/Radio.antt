-- ===== src/Tests/Radio.antt =====
-- Fragmented messages and multicast groups at concrete inputs.
use homey_shs_enhanced.Driver.Multicast.Sequences.{removes, adds, GroupCall}
use homey_shs_enhanced.Driver.Fragments.Silence.{complete-once}
use homey_shs_enhanced.Driver.Fragments.Invariant.{on_incoming_message-IsValid, IsValid}
use homey_shs_enhanced.Driver.Multicast.{Groups, Ncp}
use homey_shs_enhanced.Driver.Fragments.{
  is_fragment, Incoming, Message, acknowledgement, find_message, on_incoming_message, Fragments,
}
use homey_shs_enhanced.Prelude.{
  Bool, arith, text, List, ℕ, [], refl, none, some, ◌+◌, if◌then◌else◌, ◌≡◌, ◌%◌, ◌∷◌, ◌==◌,
}

-- `EmberApsOption.FRAGMENT`.
abbrev fragment_bit : ℕ
fragment_bit = 0x8000

-- A message of two blocks; `group` is the group id of the block's frame.
abbrev block_message : ℕ → List ℕ → Incoming
block_message group contents = record {
  kind = 0;
  frame = record {
    profile_id = 0x0104;
    cluster_id = 6;
    source_endpoint = 1;
    destination_endpoint = 1;
    options = 0x8040;
    group_id = group;
    sequence = 42;
  };
  last_hop_lqi = 255;
  sender = 0x1234;
  contents = contents;
}

abbrev one_of_two : Message
one_of_two = record { total = 2; blocks = (1 ∷ 2 ∷ []) ∷ []; started_at = 5_000 }

abbrev two_of_two : Message
two_of_two = record { total = 2; blocks = (1 ∷ 2 ∷ []) ∷ (3 ∷ []) ∷ []; started_at = 5_000 }

abbrev started : Fragments
started = ((0x1234, 42), one_of_two) ∷ []

abbrev finished : Fragments
finished = ((0x1234, 42), two_of_two) ∷ []

started-IsValid : IsValid started
started-IsValid = record {
  bounded = omega arith;
  sound = (record { begun = omega arith; fits = omega arith; even = (refl, tt) }, tt);
}

on_incoming_message-IsValid_example :
    IsValid (on_incoming_message fragment_bit started 6_000 (block_message 1 (3 ∷ []))).fragments
on_incoming_message-IsValid_example =
    on_incoming_message-IsValid fragment_bit started 6_000 (block_message 1 (3 ∷ []))
      started-IsValid

complete-once_example :
    let i = block_message 1 (3 ∷ []) in
    let e = on_incoming_message fragment_bit finished 7_000 i in
    (e.delivered ≡ none)
    × (find_message (0x1234, 42) e.fragments ≡ some two_of_two)
    × (e.reply ≡ (if 1 % 256 + 1 == 2 then some (acknowledgement i.frame (1 % 256)) else none))
unfolding is_fragment find_message
complete-once_example =
    complete-once fragment_bit finished 7_000 (block_message 1 (3 ∷ [])) two_of_two refl refl refl
      (omega arith)

-- A coordinator that accepts every write.
abbrev willing : Ncp
willing = record {
  State = ℕ → ℕ;
  entry = λ s j. s j;
  set_entry = λ s index group. (λ j. if j == index then group else s j, 0);
  ok_status = 0;
  status_name = λ status. text "OK";
  written = λ s index group j e. refl;
  refused = λ s index group j e. absurd (e refl);
}

abbrev two_groups : Groups willing
two_groups = record { table = 0 ∷ 9 ∷ []; radio = λ j. if j == 1 then 9 else 0 }

-- Group 0 is fixed.
abbrev fixes_zero : ℕ → Bool
fixes_zero group = group == 0

abbrev group_calls : List GroupCall
group_calls = adds none none 4 ∷ removes none none 9 ∷ removes none none 0 ∷ adds none none 4 ∷ []
