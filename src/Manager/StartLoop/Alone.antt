-- ===== src/Manager/StartLoop/Alone.antt =====
-- enhancements/0001-zigbee-ember/src/ManagerZigbeeEmber.mts: the controllers that `runStartLoop`
-- makes and destroys.
use homey_shs_enhanced.Manager.State.{Manager}
use homey_shs_enhanced.Manager.StartLoop.{
  returned, after, Ended, announces, waits, suppresses, resolves, retries, starts, destroys,
  catch_block, Attempt, try_block, creates, run_start_loop, attempt, Effect,
}
use homey_shs_enhanced.Json.{Value}
use homey_shs_enhanced.Backoff.{next_backoff_ms, Doubles}
use homey_shs_enhanced.Prelude.{
  Bool-cases, inl, inr, ==-refl, arith, Bool, Text, Result, List, ℕ, Option, [], refl, zero, suc,
  true, false, none, some, ◌++◌, ◌∷◌, ◌≡◌, ◌&&◌, ◌==◌,
}

-- `live`: the controller that exists. None is made while another one exists, and only the one that
-- exists is started, destroyed or handed out; one may be destroyed twice.
unfoldable pub is_alone : Option ℕ → List Effect → Bool
is_alone live [] = true
is_alone none (creates k ∷ es) = is_alone (some k) es
is_alone (some c) (creates k ∷ es) = false
is_alone none (destroys k ∷ es) = is_alone none es
is_alone (some c) (destroys k ∷ es) = c == k && is_alone none es
is_alone none (starts k ∷ es) = false
is_alone (some c) (starts k ∷ es) = c == k && is_alone (some c) es
is_alone none (resolves k ∷ es) = false
is_alone (some c) (resolves k ∷ es) = c == k && is_alone (some c) es
is_alone live (suppresses k ∷ es) = is_alone live es
is_alone live (waits ms ∷ es) = is_alone live es
is_alone live (announces ∷ es) = is_alone live es

is_alone-nil : is_alone none [] ≡ true
unfolding is_alone
is_alone-nil = refl

after-is_alone :
    (turn : Manager × List Effect × Ended) (next : Manager → Manager × List Effect × Ended)
    → is_alone none turn.1 ≡ true
    → (turn.2 ≡ retries → is_alone none (turn.1 ++ (next turn.0).1) ≡ true)
    → is_alone none (after turn next).1 ≡ true
after-is_alone (m, effects, returned) next h more = h
after-is_alone (m, effects, retries) next h more = more refl

module _ (d : Doubles) (assert_network_configuration : Value → Result (Unit {0}))
    (device : Text) where
  open d use {Double}

  attempt-is_alone :
      (k retry_ms : ℕ) (a : Attempt Double) (m : Manager) (later : List Effect)
      → is_alone none later ≡ true
      → let (m', effects, end) = attempt d assert_network_configuration device k retry_ms a m in
        (is_alone none effects ≡ true) × (end ≡ retries → is_alone none (effects ++ later) ≡ true)
  unfolding attempt try_block catch_block is_alone
  attempt-is_alone k retry_ms a m later h = ground (arith, ==-refl k)

  -- However its attempts end and whoever stops it when, the start loop has one controller at most
  -- at any time: it makes none before it has destroyed the one before, and starts and hands out
  -- none but the one that exists.
  pub run_start_loop-is_alone :
      (fuel : ℕ) (attempts : ℕ → Attempt Double) (k retry_ms : ℕ) (m : Manager)
      → let (m', effects, end) =
          run_start_loop d assert_network_configuration device fuel attempts k retry_ms m in
        is_alone none effects ≡ true
  unfolding run_start_loop
  run_start_loop-is_alone zero attempts k retry_ms m = is_alone-nil
  run_start_loop-is_alone (suc fuel) attempts k retry_ms m =
      elim (Bool-cases (attempts k).stopped) [
        | inl stopped ↦ simp stopped is_alone-nil
        | inr runs ↦
            let turn = attempt d assert_network_configuration device k retry_ms (attempts k) m in
            let later =
              run_start_loop-is_alone fuel attempts (suc k) (next_backoff_ms retry_ms) turn.0 in
            let one = attempt-is_alone k retry_ms (attempts k) m _ later in
            simp runs (after-is_alone turn _ one.0 one.1)
      ]
