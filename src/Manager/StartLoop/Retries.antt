-- ===== src/Manager/StartLoop/Retries.antt =====
-- enhancements/0001-zigbee-ember/src/ManagerZigbeeEmber.mts: `runStartLoop` over failing attempts
-- and a successful one.
use homey_shs_enhanced.Backoff.Schedule.{backoff_after}
use homey_shs_enhanced.Manager.State.{parse_controller_state, Manager}
use homey_shs_enhanced.Json.{Value}
use homey_shs_enhanced.Backoff.{retry_initial_ms, jitter_backoff_ms, resolved, Doubles}
use homey_shs_enhanced.Manager.StartLoop.{
  after, Ended, run_start_loop, waits, announces, returned, retries, destroys, catch_block,
  suppresses, resolves, creates, try_block, starts, attempt, Effect, Attempt,
}
use homey_shs_enhanced.Prelude.{
  sym, subst, arith, ◌+◌, ◌<◌, List, Text, Result, Thrown, ℕ, [], refl, zero, suc, false, none,
  some, ok, err, inl, inr, ◌≡◌, ◌∷◌, ◌⊎◌, ◌++◌,
}

-- A turn that fails and is followed by another.
pub record IsFailure {Double : Type 0} (a : Attempt Double) : Type 0 where
  pub running : a.stopped ≡ false
  pub cause : Thrown
  pub failed :
      (a.nodes_set ≡ err cause)
      ⊎ ((a.nodes_set ≡ ok tt) × (a.started ≡ err cause))
      ⊎ ((a.nodes_set ≡ ok tt)
          × (a.started ≡ ok tt)
          × (a.stopped_after_start ≡ false)
          × (a.made_ready ≡ err cause))
  pub running_still : a.stopped_after_failure ≡ false
  pub waited_out : a.waited ≡ resolved

-- A turn that succeeds.
pub record IsSuccess {Double : Type 0} (a : Attempt Double) : Type 0 where
  pub running : a.stopped ≡ false
  pub nodes : a.nodes_set ≡ ok tt
  pub start : a.started ≡ ok tt
  pub running_then : a.stopped_after_start ≡ false
  pub ready : a.made_ready ≡ ok tt
  pub running_still : a.stopped_after_ready ≡ false

abbrev pub start_effects : ℕ → Result (Unit {0}) → List Effect
start_effects k (ok _) = starts k ∷ []
start_effects k (err _) = []

after_retries :
    (turn : Manager × List Effect × Ended) (next : Manager → Manager × List Effect × Ended)
    → turn.2 ≡ retries
    → after turn next ≡ ((next turn.0).0, turn.1 ++ (next turn.0).1, (next turn.0).2)
after_retries (m, effects, retries) next e = refl
after_retries (m, effects, returned) next e = cc

module _ (d : Doubles) (assert_network_configuration : Value → Result (Unit {0}))
    (device : Text) where
  open d use {Double}

  -- What failed turn `k` does.
  abbrev pub failure_effects : ℕ → Attempt Double → List Effect
  failure_effects k a =
      creates k ∷ start_effects k a.nodes_set
      ++ (suppresses k
          ∷ destroys k
          ∷ announces
          ∷ waits (jitter_backoff_ms d (backoff_after k) a.random)
          ∷ [])

  -- What `n` failed turns from `k` on and the successful one after them do.
  abbrev pub connection_effects : ℕ → (ℕ → Attempt Double) → ℕ → List Effect
  connection_effects zero attempts k = creates k ∷ starts k ∷ resolves k ∷ []
  connection_effects (suc n) attempts k =
      failure_effects k (attempts k) ++ connection_effects n attempts (suc k)

  attempt-IsFailure :
      (k : ℕ) (a : Attempt Double) (m : Manager)
      → IsFailure a
      → let (m', effects, end) =
          attempt d assert_network_configuration device k (backoff_after k) a m in
        (effects ≡ failure_effects k a) × (end ≡ retries)
  unfolding attempt try_block catch_block
  attempt-IsFailure k a m f = elim f.failed [
    | inl e ↦ rw (e, f.running_still, f.waited_out) (refl, refl)
    | inr (inl (n, e)) ↦ rw (n, e, f.running_still, f.waited_out) (refl, refl)
    | inr (inr (n, s, r, e)) ↦ rw (n, s, r, e, f.running_still, f.waited_out) (refl, refl)
  ]

  attempt-IsSuccess :
      (k retry_ms : ℕ) (a : Attempt Double) (m : Manager)
      → IsSuccess a
      → attempt d assert_network_configuration device k retry_ms a m ≡ (
        record {
          controller = some k;
          zigbee_ready = a.ready_then;
          zigbee_error = none;
          controller_state = parse_controller_state assert_network_configuration a.network_settings;
        },
        creates k ∷ starts k ∷ resolves k ∷ [],
        returned,
      )
  unfolding attempt try_block
  attempt-IsSuccess k retry_ms a m s =
      rw (s.nodes, s.start, s.running_then, s.ready, s.running_still) refl

  turn-IsFailure :
      (fuel k : ℕ) (attempts : ℕ → Attempt Double) (m : Manager)
      → IsFailure (attempts k)
      → (m' : Manager) × (let (end_m, later, end) =
            run_start_loop d assert_network_configuration device fuel attempts
              (suc k)
              (backoff_after (suc k))
              m' in
          run_start_loop d assert_network_configuration device
            (suc fuel)
            attempts
            k
            (backoff_after k)
            m
          ≡ (end_m, failure_effects k (attempts k) ++ later, end))
  unfolding run_start_loop backoff_after
  turn-IsFailure fuel k attempts m f =
      let turn = attempt d assert_network_configuration device k (backoff_after k) (attempts k) m in
      let same = attempt-IsFailure k (attempts k) m f in
      (turn.0, simp (f.running, after_retries turn _ same.1, same.0))

  -- The manager once controller `k` has started.
  abbrev pub connected : ℕ → Attempt Double → Manager
  connected k a = record {
    controller = some k;
    zigbee_ready = a.ready_then;
    zigbee_error = none;
    controller_state = parse_controller_state assert_network_configuration a.network_settings;
  }

  turn-IsSuccess :
      (fuel k retry_ms : ℕ) (attempts : ℕ → Attempt Double) (m : Manager)
      → IsSuccess (attempts k)
      → run_start_loop d assert_network_configuration device (suc fuel) attempts k retry_ms m
        ≡ (connected k (attempts k), creates k ∷ starts k ∷ resolves k ∷ [], returned)
  unfolding run_start_loop
  turn-IsSuccess fuel k retry_ms attempts m s =
      simp (s.running, attempt-IsSuccess k retry_ms (attempts k) m s)

  -- The same from any turn on.
  connects_from :
      (n fuel k last : ℕ) (attempts : ℕ → Attempt Double) (m : Manager)
      → n < fuel
      → k + n ≡ last
      → ((j : ℕ) → j < last → IsFailure (attempts j))
      → IsSuccess (attempts last)
      → run_start_loop d assert_network_configuration device fuel attempts k (backoff_after k) m
        ≡ (connected last (attempts last), connection_effects n attempts k, returned)
  connects_from n zero k last attempts m enough e failures success = absurd (omega arith)
  connects_from zero (suc fuel) k last attempts m enough e failures success =
      let here : last ≡ k = omega arith in
      subst
        (λ c.
          run_start_loop d assert_network_configuration device (suc fuel) attempts k
            (backoff_after k) m
          ≡ (connected c (attempts c), creates k ∷ starts k ∷ resolves k ∷ [], returned))
        (sym here)
        (turn-IsSuccess fuel k (backoff_after k) attempts m
          (subst (λ c. IsSuccess (attempts c)) here success))
  connects_from (suc n) (suc fuel) k last attempts m enough e failures success =
      let (m', turn) = turn-IsFailure fuel k attempts m (failures k (omega arith)) in
      rw
        (
          turn,
          connects_from n fuel (suc k) last attempts m' (omega arith) (omega arith) failures
              success,
        )
        refl

-- If the first `n` attempts to start the coordinator fail, while nobody stops the loop, and the
-- next succeeds, then more than `n` turns are enough for the loop to return, whatever the
-- manager's state was. It has destroyed the controller of every failed attempt before making the
-- next, has waited after each failure for the jittered delay of its place in the schedule, and has
-- resolved the promise of a started controller with the last one, which the manager keeps, with no
-- error shown.
pub run_start_loop-connects :
    (d : Doubles) (assert_network_configuration : Value → Result (Unit {0})) (device : Text)
    (n fuel : ℕ) (attempts : ℕ → Attempt d.Double) (m : Manager)
    → n < fuel
    → ((j : ℕ) → j < n → IsFailure (attempts j))
    → IsSuccess (attempts n)
    → run_start_loop d assert_network_configuration device fuel attempts 0 retry_initial_ms m ≡ (
      connected d assert_network_configuration device n (attempts n),
      connection_effects d assert_network_configuration device n attempts 0,
      returned,
    )
unfolding backoff_after
run_start_loop-connects d assert_network_configuration device n fuel attempts m enough failures
      success =
    connects_from d assert_network_configuration device n fuel 0 n attempts m enough (omega arith)
      failures success
