-- ===== src/Promises/Races.antt =====
-- enhancements/0001-zigbee-ember/src/HomeyEmberController.mts and ManagerZigbeeEmber.mts: the end
-- of a race of promises.
use homey_shs_enhanced.Backoff.{live_signal}
use homey_shs_enhanced.Promises.{
  settle_within, with_timeout, expires, abort_error, with_abort, settle_within_step, aborts,
  timeout_step, run_race, settles, RaceEvent, abort_step, Race,
}
use homey_shs_enhanced.Prelude.{
  text, Option-cases, timeout_error, List, Text, Result, Option, ℕ, [], refl, true, false, none,
  some, ok, err, inl, inr, ◌∷◌, ◌≡◌, ◌++◌,
}

-- A race that is decided: neither timer nor listener is left.
abbrev pub decided : {A : Type 0} → Result A → Race A
decided r = record { watching = false; outcome = some r }

-- The first event that counts, and what it decides.
abbrev pub abort_verdict : {A : Type 0} → RaceEvent A → Option (Result A)
abort_verdict (settles r) = some r
abort_verdict (aborts reason) = some (err (abort_error reason))
abort_verdict expires = none

abbrev pub timeout_verdict : {A : Type 0} → ℕ → Text → RaceEvent A → Option (Result A)
timeout_verdict ms operation (settles r) = some r
timeout_verdict ms operation expires =
    some (err (timeout_error ms (operation ++ text " timed out")))
timeout_verdict ms operation (aborts _) = none

abbrev pub within_verdict : RaceEvent (Unit {0}) → Option (Result (Unit {0}))
within_verdict (settles r) = some (ok tt)
within_verdict expires = some (ok tt)
within_verdict (aborts _) = none

abbrev pub first_verdict :
    {A : Type 0} → (RaceEvent A → Option (Result A)) → List (RaceEvent A) → Option (Result A)
first_verdict verdict [] = none
first_verdict verdict (e ∷ es) = elim (verdict e) [
  | some r ↦ some r
  | none ↦ first_verdict verdict es
]

-- `some`: decided and cleaned up; `none`: still on, with what it waits on in place.
abbrev pub race_after : {A : Type 0} → Option (Result A) → Race A
race_after (some r) = decided r
race_after none = record { watching = true; outcome = none }

first_verdict-skips :
    {A : Type 0} (verdict : RaceEvent A → Option (Result A)) (e : RaceEvent A)
    (es : List (RaceEvent A))
    → verdict e ≡ none
    → first_verdict verdict (e ∷ es) ≡ first_verdict verdict es
first_verdict-skips verdict e es more = rw (more, first_verdict) refl

first_verdict-takes :
    {A : Type 0} (verdict : RaceEvent A → Option (Result A)) (e : RaceEvent A)
    (es : List (RaceEvent A)) (r : Result A)
    → verdict e ≡ some r
    → first_verdict verdict (e ∷ es) ≡ some r
first_verdict-takes verdict e es r more = rw (more, first_verdict) refl

module _ {A : Type 0} (step : Race A → RaceEvent A → Race A)
    (verdict : RaceEvent A → Option (Result A))
    (begin_lem : (e : RaceEvent A) → step (race_after none) e ≡ race_after (verdict e))
    (stay : (r : Result A) (e : RaceEvent A) → step (decided r) e ≡ decided r) where
  run-decided : (r : Result A) (es : List (RaceEvent A)) → run_race step (decided r) es ≡ decided r
  unfolding run_race
  run-decided r [] = refl
  run-decided r (e ∷ es) = rw (stay r e) (run-decided r es)

  run-first :
      (es : List (RaceEvent A))
      → run_race step (race_after none) es ≡ race_after (first_verdict verdict es)
  unfolding run_race
  run-first [] = refl
  run-first (e ∷ es) = elim (Option-cases (verdict e)) [
    | inl more ↦ rw (first_verdict-skips verdict e es more, begin_lem e, more) (run-first es)
    | inr (r, done) ↦
        rw (first_verdict-takes verdict e es r done, begin_lem e, done) (run-decided r es)
  ]

-- Over any sequence of events the three races end as their first deciding event says, with neither
-- timer nor listener left, and are still on with them in place if there was none. An abort decides
-- `withAbort` alone, the timer the other two, and `settleWithin` turns every end into a success.
pub races_first :
    {A : Type 0} (ms : ℕ) (operation : Text) (es : List (RaceEvent A))
    (fs : List (RaceEvent (Unit {0})))
    → (run_race abort_step (with_abort live_signal) es
        ≡ race_after (first_verdict abort_verdict es))
      × (run_race (timeout_step ms operation) with_timeout es
          ≡ race_after (first_verdict (timeout_verdict ms operation) es))
      × (run_race settle_within_step (settle_within true) fs
          ≡ race_after (first_verdict within_verdict fs))
unfolding abort_step timeout_step settle_within_step with_abort with_timeout settle_within
races_first ms operation es fs = (
  run-first abort_step abort_verdict (elim [ settles r ↦ refl | expires ↦ refl | aborts x ↦ refl ])
      (λ r. elim [ settles q ↦ refl | expires ↦ refl | aborts x ↦ refl ]) es,
  run-first (timeout_step ms operation) (timeout_verdict ms operation)
      (elim [ settles r ↦ refl | expires ↦ refl | aborts x ↦ refl ])
      (λ r. elim [ settles q ↦ refl | expires ↦ refl | aborts x ↦ refl ]) es,
  run-first settle_within_step within_verdict
      (elim [ settles r ↦ refl | expires ↦ refl | aborts x ↦ refl ])
      (λ r. elim [ settles q ↦ refl | expires ↦ refl | aborts x ↦ refl ]) fs,
)
