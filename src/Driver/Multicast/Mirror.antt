-- ===== src/Driver/Multicast/Mirror.antt =====
-- enhancements/0001-zigbee-ember/src/homey-ember.cjs: the host's list of groups beside the
-- coordinator's table, before and after a write and an addition.
use homey_shs_enhanced.Driver.Multicast.Table.{
  get_elem?-drop_last, length-drop_last, get_elem?-set, count-includes, count-append,
  includes-count, count, get_elem?-append_lt, get_elem?-lt, get_elem?-append_last,
}
use homey_shs_enhanced.Driver.Multicast.{drop_last, empty_group, includes, Groups, add_entry, Ncp}
use homey_shs_enhanced.Prelude.{
  set, Thrown, length, ℕ, ◌-◌, refl, length-append, subst, arith, Bool-cases, get_elem?, [], false,
  some, ok, err, inl, inr, ◌∷◌, ◌++◌, ◌≡◌, ◌<◌, ◌≤◌, ◌==◌, ◌≢◌, ◌∙◌, if◌then◌else◌,
}

module _ (ncp : Ncp) where
  open ncp use {State, entry, set_entry, ok_status, written, refused}

  -- Each group of the list stands at its place in the coordinator's table.
  abbrev pub IsMirror : Groups ncp → Type 0
  IsMirror s = (i g : ℕ) → get_elem? s.table i ≡ some g → entry s.radio i ≡ g

  abbrev pub IsDistinct : Groups ncp → Type 0
  IsDistinct s = (a : ℕ) → count a s.table ≤ 1

  add-IsMirror :
      (group : ℕ) (s : Groups ncp)
      → IsMirror s
      → includes s.table group ≡ false
      → (set_entry s.radio (length s.table) group).1 ≡ ok_status
      → IsMirror (record {
        table = s.table ++ group ∷ [];
        radio = (set_entry s.radio (length s.table) group).0;
      })
  add-IsMirror group s m new okay i g e = elim (Bool-cases (i == length s.table)) [
    | inl last ↦
        let here : i ≡ length s.table = ground arith in
        ground (
          arith,
          written s.radio (length s.table) group i okay,
          get_elem?-append_last s.table group,
          subst (λ k. get_elem? (s.table ++ group ∷ []) k ≡ some g) here e,
        )
    | inr before ↦
        let l = get_elem?-lt (s.table ++ group ∷ []) i g e in
        let l' : i < length s.table = ground (arith, l, length-append s.table (group ∷ [])) in
        ground (
          arith,
          written s.radio (length s.table) group i okay,
          get_elem?-append_lt s.table group i l',
          m i g,
        )
  ]

  -- A write that fails changes nothing in the coordinator.
  pub refused-IsMirror :
      (s : Groups ncp) (index group : ℕ)
      → IsMirror s
      → (set_entry s.radio index group).1 ≢ ok_status
      → IsMirror (record s { radio = (set_entry s.radio index group).0 })
  refused-IsMirror s index group m no_write i g e = refused s.radio index group i no_write ∙ m i g e

  -- What an addition that has reached the queue leaves: list and table still agree, and no group
  -- is listed twice. If it does not throw, the group is listed once and the others are as they
  -- were; if it throws, the list is as it was.
  pub add_entry_lem :
      (group : ℕ) (s : Groups ncp)
      → IsMirror s
      → IsDistinct s
      → let (s', r) = add_entry ncp group s in
        IsMirror s'
        × IsDistinct s'
        × (r ≡ ok tt → (a : ℕ) → count a s'.table ≡ (if a == group then 1 else count a s.table))
        × ((e : Thrown) → r ≡ err e → s'.table ≡ s.table)
  unfolding add_entry
  add_entry_lem group s m d = elim (Bool-cases (includes s.table group)) [
    | inl old ↦ rw old (m, d, λ e a. ground (arith, d a, includes-count a s.table), λ x e. refl)
    | inr new ↦ elim (Bool-cases ((set_entry s.radio (length s.table) group).1 == ok_status)) [
      | inl okay ↦
          rw (new, okay)
            (
              add-IsMirror group s m new (ground arith),
              λ a.
                  ground
                    (arith, d a, count-append a s.table (group ∷ []), count-includes a s.table),
              λ e a. ground (arith, count-append a s.table (group ∷ []), count-includes a s.table),
              λ x e. cc,
            )
      | inr failed ↦
          rw (new, failed)
            (refused-IsMirror s (length s.table) group m (ground arith), d, λ e. cc, λ x e. refl)
    ]
  ]

  -- Clearing the last entry and dropping it from the list.
  pub clear-IsMirror :
      (s : Groups ncp) (last : ℕ)
      → IsMirror s
      → last ≡ length s.table - 1
      → (set_entry s.radio last empty_group).1 ≡ ok_status
      → IsMirror
          (record { table = drop_last s.table; radio = (set_entry s.radio last empty_group).0 })
  clear-IsMirror s last m place okay i g e =
      let l = get_elem?-lt (drop_last s.table) i g e in
      let l' : i < length s.table - 1 = omega (arith, l, length-drop_last s.table) in
      ground
        (arith, written s.radio last empty_group i okay, get_elem?-drop_last s.table i l', m i g)

  -- Overwriting one entry on both sides.
  pub move-IsMirror :
      (s : Groups ncp) (index group : ℕ)
      → IsMirror s
      → index < length s.table
      → (set_entry s.radio index group).1 ≡ ok_status
      → IsMirror
          (record { table = set s.table index group; radio = (set_entry s.radio index group).0 })
  move-IsMirror s index group m inside okay i g e =
      ground (
        arith,
        written s.radio index group i okay,
        get_elem?-set s.table index group i inside,
        m i g,
      )

  -- The way back: the moved entry gets its group again.
  pub back-IsMirror :
      (s : Groups ncp) (index group other : ℕ)
      → IsMirror s
      → get_elem? s.table index ≡ some group
      → (set_entry s.radio index other).1 ≡ ok_status
      → let moved = (set_entry s.radio index other).0 in
        (set_entry moved (length s.table - 1) empty_group).1 ≢ ok_status
        → let cleared = (set_entry moved (length s.table - 1) empty_group).0 in
          (set_entry cleared index group).1 ≡ ok_status
          → IsMirror (record s { radio = (set_entry cleared index group).0 })
  back-IsMirror s index group other m found okay failed back i g e =
      let moved = (set_entry s.radio index other).0 in
      let cleared = (set_entry moved (length s.table - 1) empty_group).0 in
      elim (Bool-cases (i == index)) [
        | inl same ↦
            let here : i ≡ index = ground arith in
            let e' : get_elem? s.table index ≡ some g =
              subst (λ k. get_elem? s.table k ≡ some g) here e in
            ground (arith, written cleared index group i back)
        | inr other_place ↦ ground (
          arith,
          written cleared index group i back,
          refused moved (length s.table - 1) empty_group i failed,
          written s.radio index other i okay,
          m i g,
        )
      ]
