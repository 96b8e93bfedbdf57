-- ===== src/Driver/Multicast/Removal.antt =====
-- enhancements/0001-zigbee-ember/src/homey-ember.cjs: the host's list of groups beside the
-- coordinator's table, before and after a removal.
use homey_shs_enhanced.Driver.Multicast.Mirror.{
  IsMirror, IsDistinct, refused-IsMirror, clear-IsMirror, move-IsMirror, back-IsMirror,
}
use homey_shs_enhanced.Driver.Multicast.Table.{
  last_or-eq, last_or-set, count-set, index_of-none, length-set, count-drop_last_pos,
  get_elem?-index_of, count, get_elem?-lt,
}
use homey_shs_enhanced.Driver.Multicast.{
  multicast_error, remove_entry, drop_last, last_or, index_of, Outcome, clear_last, empty_group,
  Groups, Ncp,
}
use homey_shs_enhanced.Prelude.{
  set, Thrown, length, ℕ, none, Option-cases, ◌+◌, ==-refl, true, ◌-◌, ◌⊎◌, refl, subst, arith,
  Bool-cases, get_elem?, false, some, ok, err, inl, inr, ◌≡◌, ◌<◌, ◌==◌, ◌≢◌, if◌then◌else◌,
}

module _ (ncp : Ncp) where
  open ncp use {State, entry, set_entry, ok_status, written, refused}

  -- After a move that worked, either the last entry can be cleared or the moved one restored.
  abbrev pub Recovers : ℕ → Groups ncp → Type 0
  Recovers group s =
      (index : ℕ)
      → index_of s.table group ≡ some index
      → let moved = (set_entry s.radio index (last_or 0 s.table)).0 in
        let cleared = set_entry moved (length s.table - 1) empty_group in
        (cleared.1 ≡ ok_status) ⊎ ((set_entry cleared.0 index group).1 ≡ ok_status)

  abbrev Removed : ℕ → Groups ncp → Outcome ncp → Type 0
  Removed group s o =
      (Recovers group s → IsMirror ncp o.0)
      × IsDistinct ncp o.0
      × (o.1 ≡ ok tt → (a : ℕ) → count a o.0.table ≡ (if a == group then 0 else count a s.table))
      × ((e : Thrown) → o.1 ≡ err e → o.0.table ≡ s.table)

  clear_only :
      (group : ℕ) (s : Groups ncp)
      → IsMirror ncp s
      → IsDistinct ncp s
      → 0 < length s.table
      → last_or 0 s.table ≡ group
      → (last_group : ℕ)
      → Removed group s
          (clear_last ncp group (length s.table - 1) (length s.table - 1) last_group s s.radio)
  unfolding clear_last
  clear_only group s m d pos last last_group =
      let at_end : (length s.table - 1 == length s.table - 1) ≡ true = ==-refl _ in
      elim (Bool-cases ((set_entry s.radio (length s.table - 1) empty_group).1 == ok_status)) [
        | inl okay ↦
            rw (at_end, okay)
              (
                λ k. clear-IsMirror ncp s _ m refl (ground arith),
                λ a. ground (arith, d a, count-drop_last_pos a s.table pos),
                λ e a. ground (arith, d a, count-drop_last_pos a s.table pos),
                λ x e. cc,
              )
        | inr failed ↦
            rw (at_end, failed)
              (λ k. refused-IsMirror ncp s _ empty_group m (ground arith), d, λ e. cc, λ x e. refl)
      ]

  move_and_clear :
      (group index : ℕ) (s : Groups ncp)
      → IsMirror ncp s
      → IsDistinct ncp s
      → index_of s.table group ≡ some index
      → index + 1 < length s.table
      → (set_entry s.radio index (last_or 0 s.table)).1 ≡ ok_status
      → Removed group s (
          clear_last ncp group index
            (length s.table - 1)
            (last_or 0 s.table)
            s
            (set_entry s.radio index (last_or 0 s.table)).0)
  unfolding clear_last
  move_and_clear group index s m d found inside okay =
      let last = last_or 0 s.table in
      let moved = (set_entry s.radio index last).0 in
      let here = get_elem?-index_of s.table group index found in
      let apart : (index == length s.table - 1) ≡ false = ground arith in
      let s' : Groups ncp = record { table = set s.table index last; radio = moved } in
      let size = length-set s.table index last in
      let counted : (a : ℕ)
          → count a (drop_last (set s.table index last)) + (if group == a then 1 else 0)
            ≡ count a s.table =
        λ a. ground (
          arith,
          count-drop_last_pos a (set s.table index last) (omega (arith, size)),
          count-set a s.table index group last here,
          last_or-set 0 s.table index last inside,
        ) in
      elim (Bool-cases ((set_entry moved (length s.table - 1) empty_group).1 == ok_status)) [
        | inl clear ↦
            rw (apart, clear)
              (
                λ k.
                    clear-IsMirror ncp s' (length s.table - 1)
                      (move-IsMirror ncp s index last m (omega arith) okay) (omega (arith, size))
                      (ground arith),
                λ a. ground (arith, d a, counted a),
                λ e a. ground (arith, d a, counted a),
                λ x e. cc,
              )
        | inr failed ↦
            rw (apart, failed)
              (
                λ k.
                    let no_clear : (set_entry moved (length s.table - 1) empty_group).1
                        ≢ ok_status =
                      ground arith in
                    back-IsMirror ncp s index group last m here okay no_clear
                      (elim (k index found) [ inl e ↦ absurd (no_clear e) | inr b ↦ b ]),
                d,
                λ e. cc,
                λ x e. refl,
              )
      ]

  -- The branches of a removal.
  module _ (group : ℕ) (s : Groups ncp) where
    removed_absent : index_of s.table group ≡ none → remove_entry ncp group s ≡ (s, ok tt)
    unfolding remove_entry
    removed_absent e = rw (e, remove_entry)

    removed_last :
        {index : ℕ}
        → index_of s.table group ≡ some index
        → (index == length s.table - 1) ≡ true
        → remove_entry ncp group s
          ≡ clear_last ncp group index (length s.table - 1) (last_or 0 s.table) s s.radio
    unfolding remove_entry
    removed_last e l = rw (e, remove_entry, l)

    removed_refused :
        {index : ℕ}
        → index_of s.table group ≡ some index
        → (index == length s.table - 1) ≡ false
        → ((set_entry s.radio index (last_or 0 s.table)).1 == ok_status) ≡ false
        → remove_entry ncp group s ≡ (
          record s { radio = (set_entry s.radio index (last_or 0 s.table)).0 },
          err (
              multicast_error ncp "Compact multicast table"
                (set_entry s.radio index (last_or 0 s.table)).1),
        )
    unfolding remove_entry
    removed_refused e l f = rw (e, remove_entry, l, f)

    removed_moved :
        {index : ℕ}
        → index_of s.table group ≡ some index
        → (index == length s.table - 1) ≡ false
        → ((set_entry s.radio index (last_or 0 s.table)).1 == ok_status) ≡ true
        → remove_entry ncp group s
          ≡ clear_last ncp group index
              (length s.table - 1)
              (last_or 0 s.table)
              s
              (set_entry s.radio index (last_or 0 s.table)).0
    unfolding remove_entry
    removed_moved e l f = rw (e, remove_entry, l, f)

  -- What a removal that has reached the queue leaves: no group is listed twice, and list and table
  -- still agree, unless the last entry could neither be cleared nor the moved one restored. If it
  -- does not throw, the group is gone and the others are listed as before; if it throws, the list
  -- is as it was.
  pub remove_entry_lem :
      (group : ℕ) (s : Groups ncp)
      → IsMirror ncp s
      → IsDistinct ncp s
      → let (s', r) = remove_entry ncp group s in
        (Recovers group s → IsMirror ncp s')
        × IsDistinct ncp s'
        × (r ≡ ok tt → (a : ℕ) → count a s'.table ≡ (if a == group then 0 else count a s.table))
        × ((e : Thrown) → r ≡ err e → s'.table ≡ s.table)
  remove_entry_lem group s m d = elim (Option-cases (index_of s.table group)) [
    | inl absent ↦
        rw (removed_absent group s absent)
          (λ k. m, d, λ e a. ground (arith, index_of-none s.table group absent), λ x e. refl)
    | inr (index, found) ↦
        let here = get_elem?-index_of s.table group index found in
        let l = get_elem?-lt s.table index group here in
        elim (Bool-cases (index == length s.table - 1)) [
          | inl last ↦
              let place : index ≡ length s.table - 1 = ground arith in
              rw (removed_last group s found last, place)
                (clear_only group s m d (omega arith)
                  (last_or-eq s.table group
                    (subst (λ k. get_elem? s.table k ≡ some group) place here))
                  _)
          | inr before ↦
              elim (Bool-cases ((set_entry s.radio index (last_or 0 s.table)).1 == ok_status)) [
                | inl okay ↦
                    rw (removed_moved group s found before okay)
                      (move_and_clear group index s m d found (ground arith) (ground arith))
                | inr failed ↦ rw (removed_refused group s found before failed) (
                  λ k. refused-IsMirror ncp s index (last_or 0 s.table) m (ground arith),
                  d,
                  λ e. cc,
                  λ x e. refl,
                )
              ]
        ]
  ]
