-- ===== src/Driver/Multicast.antt =====
-- enhancements/0001-zigbee-ember/src/homey-ember.cjs: `addMulticastGroup` and
-- `removeMulticastGroup`, which keep the host's list of groups and the coordinator's table alike.
-- `withMulticastLock` and the queue run one such operation at a time, so each is one step.
pub mod Table
pub mod Mirror
pub mod Removal
pub mod Sequences
use homey_shs_enhanced.Json.{decimal}
use homey_shs_enhanced.Prelude.{
  text, range_error, set, leb, status_error, Bool, Thrown, not, Text, length, String, List, ℕ,
  Result, Option, [], suc, false, none, some, ok, err, ◌-◌, ◌∷◌, if◌then◌else◌, ◌≢◌, ◌==◌, ◌++◌,
  ◌≡◌, ◌||◌,
}

-- The coordinator's multicast table, behind `ezspSetMulticastTableEntry`: a write that returns
-- `SLStatus.OK` sets one entry, and one that does not changes none.
pub record Ncp : Type 1 where
  pub State : Type 0
  pub entry : State → ℕ → ℕ
  pub set_entry : State → ℕ → ℕ → State × ℕ
  pub ok_status : ℕ
  pub status_name : ℕ → Text
  pub written :
      (s : State) (index group j : ℕ)
      → (set_entry s index group).1 ≡ ok_status
      → entry (set_entry s index group).0 j ≡ (if j == index then group else entry s j)
  pub refused :
      (s : State) (index group j : ℕ)
      → (set_entry s index group).1 ≢ ok_status
      → entry (set_entry s index group).0 j ≡ entry s j

-- `EMPTY_MULTICAST_ENTRY.multicastId`.
abbrev pub empty_group : ℕ
empty_group = 0xffff

abbrev pub includes : List ℕ → ℕ → Bool
includes [] group = false
includes (g ∷ gs) group = g == group || includes gs group

-- `indexOf`, with `none` for -1.
abbrev pub index_of : List ℕ → ℕ → Option ℕ
index_of [] group = none
index_of (g ∷ gs) group =
    if g == group then some 0 else elim (index_of gs group) [ none ↦ none | some i ↦ some (suc i) ]

abbrev pub last_or : ℕ → List ℕ → ℕ
last_or d [] = d
last_or d (g ∷ gs) = last_or g gs

-- `pop()`.
abbrev pub drop_last : List ℕ → List ℕ
drop_last [] = []
drop_last (g ∷ []) = []
drop_last (g ∷ h ∷ gs) = g ∷ drop_last (h ∷ gs)

module _ (ncp : Ncp) where
  open ncp use {State, entry, set_entry, ok_status, status_name}

  pub record Groups : Type 0 where
    pub table : List ℕ
    pub radio : State

  unfoldable pub multicast_error : String → ℕ → Thrown
  multicast_error operation status = status_error (record {
    operation = text operation;
    status = status;
    status_name = status_name status;
    layer = text "sl";
    message = text operation ++ text " failed with status=" ++ status_name status;
  })

  abbrev pub Outcome : Type 0
  Outcome = Groups × Result (Unit {0})

  -- What runs in the queue, once the lock is held.
  unfoldable pub add_entry : ℕ → Groups → Outcome
  add_entry group s =
      if includes s.table group
      then (s, ok tt)
      else (let (radio, status) = set_entry s.radio (length s.table) group in
          if not (status == ok_status)
          then (record s { radio = radio }, err (multicast_error "Add multicast group" status))
          else (record { table = s.table ++ group ∷ []; radio = radio }, ok tt))

  -- A signal's abort reason when the call is made, and when it leaves the queue.
  unfoldable pub add_multicast_group : Option Thrown → Option Thrown → List ℕ → ℕ → Groups → Outcome
  add_multicast_group aborted aborted_later table group s =
      if leb 0xfff8 group
      then (s, err (range_error (text "Invalid multicast group: " ++ decimal group)))
      else elim aborted [
        | some reason ↦ (s, err reason)
        | none ↦
            if includes table group
            then (s, ok tt)
            else elim aborted_later [ some reason ↦ (s, err reason) | none ↦ add_entry group s ]
      ]

  -- Writing the empty entry over the last one, with the way back if that fails.
  unfoldable pub clear_last : ℕ → ℕ → ℕ → ℕ → Groups → State → Outcome
  clear_last group index last_index last_group s radio =
      let (cleared, clear_status) = set_entry radio last_index empty_group in
      if not (clear_status == ok_status)
      then (
        record s {
          radio = if index == last_index then cleared else (set_entry cleared index group).0;
        },
        err (multicast_error "Remove multicast group" clear_status),
      )
      else (
        record {
          table = drop_last (if index == last_index then s.table else set s.table index last_group);
          radio = cleared;
        },
        ok tt,
      )

  unfoldable pub remove_entry : ℕ → Groups → Outcome
  remove_entry group s = elim (index_of s.table group) [
    | none ↦ (s, ok tt)
    | some index ↦
        let last_index = length s.table - 1 in
        let last_group = last_or 0 s.table in
        if index == last_index
        then clear_last group index last_index last_group s s.radio
        else (let (moved, move_status) = set_entry s.radio index last_group in
            if not (move_status == ok_status)
            then (
              record s { radio = moved },
              err (multicast_error "Compact multicast table" move_status),
            )
            else clear_last group index last_index last_group s moved)
  ]

  unfoldable pub remove_multicast_group :
      (ℕ → Bool) → Option Thrown → Option Thrown → ℕ → Groups → Outcome
  remove_multicast_group protected aborted aborted_later group s = elim aborted [
    | some reason ↦ (s, err reason)
    | none ↦
        if protected group
        then (s, ok tt)
        else elim aborted_later [ some reason ↦ (s, err reason) | none ↦ remove_entry group s ]
  ]
