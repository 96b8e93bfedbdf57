-- ===== src/Driver/Closing/Plan.antt =====
-- enhancements/0001-zigbee-ember/src/homey-ember.cjs: the order of the commands of `permitJoin`.
use homey_shs_enhanced.Driver.Closing.{
  close_node, broadcast_close, close_at, close_coordinator, adapter_permit_join, done_joining,
  set_join_policy, give, Commands, JoinCommand,
}
use homey_shs_enhanced.Prelude.{
  All, Thrown, Bool-cases, ap, Result-cases, Result, ℕ, Option, List, [], refl, none, some, ok, err,
  inl, inr, ◌⊎◌, ◌++◌, ◌==◌, ◌≡◌, ◌∷◌, if◌then◌else◌,
}

-- The commands that close the network.
abbrev pub plan : Option ℕ → List JoinCommand
plan none = set_join_policy ∷ close_coordinator ∷ broadcast_close ∷ []
plan (some address) =
    set_join_policy ∷ (if address == 0 then close_coordinator else close_node address) ∷ []

module _ (outcome : JoinCommand → Result (Unit {0})) where
  abbrev pub Succeeds : JoinCommand → Type 0
  Succeeds c = outcome c ≡ ok tt

  -- All commands were given and succeeded, and so did the call; or those before one that fails
  -- succeeded, that one was the last to be given, and the call throws its error.
  abbrev pub Follows : List JoinCommand → Commands → Type 0
  Follows cs o =
      ((o.0 ≡ cs) × (o.1 ≡ ok tt) × All Succeeds cs)
      ⊎ ((before : List JoinCommand) × (c : JoinCommand) × (rest : List JoinCommand) × (e : Thrown)
          × (cs ≡ before ++ c ∷ rest)
          × All Succeeds before
          × (outcome c ≡ err e)
          × (o.0 ≡ before ++ c ∷ [])
          × (o.1 ≡ err e))

  give-Follows :
      (c : JoinCommand) (cs : List JoinCommand) (o : Commands)
      → Follows cs o
      → Follows (c ∷ cs) (give outcome c o)
  give-Follows c cs o f = elim (Result-cases (outcome c)) [
    | inl (u, e) ↦ elim f [
      | inl (given, fine, all) ↦ rw e (inl (ap (λ ds. c ∷ ds) given, fine, (refl, all)))
      | inr (before, d, rest, x, split, all, failed, given, thrown) ↦ rw e (
          inr (
            c ∷ before,
            d,
            rest,
            x,
            ap (λ ds. c ∷ ds) split,
            (e, all),
            failed,
            ap (λ ds. c ∷ ds) given,
            thrown,
          ))
    ]
    | inr (x, e) ↦ rw e (inr ([], c, cs, x, refl, tt, e, refl, refl))
  ]

  done-Follows : Follows [] (done_joining outcome)
  done-Follows = inl (refl, refl, tt)

  -- Closing the network gives no command if the interpan lock is held, and throws its error.
  -- Otherwise it gives the commands of the plan for its address in their order: all of them, and
  -- succeeds, if each of them does, and else those up to the first that fails, whose error it
  -- throws. Herdsman's own `permitJoin`, which clears the transient link keys, is in no plan.
  pub adapter_permit_join-closes :
      (locked : Result (Unit {0})) (address : Option ℕ)
      → let o = adapter_permit_join outcome locked 0 address in
        ((e : Thrown) × (locked ≡ err e) × (o ≡ ([], err e)))
        ⊎ ((locked ≡ ok tt) × Follows (plan address) o)
  unfolding adapter_permit_join close_at
  adapter_permit_join-closes (err e) address = inl (e, refl, refl)
  adapter_permit_join-closes (ok _) none = inr (
    refl,
    give-Follows set_join_policy _ _
        (give-Follows close_coordinator _ _ (give-Follows broadcast_close _ _ done-Follows)),
  )
  adapter_permit_join-closes (ok _) (some address) = elim (Bool-cases (address == 0)) [
    | inl here ↦ inr (
      refl,
      rw here (give-Follows set_join_policy _ _ (give-Follows close_coordinator _ _ done-Follows)),
    )
    | inr there ↦ inr (
      refl,
      rw there
          (give-Follows set_join_policy _ _ (give-Follows (close_node address) _ _ done-Follows)),
    )
  ]
