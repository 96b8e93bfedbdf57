-- ===== src/Manager/Lifecycle/Steps.antt =====
-- enhancements/0001-zigbee-ember/src/ManagerZigbeeEmber.mts: the invariant of recovery, reset and
-- shutdown, step by step.
use homey_shs_enhanced.Manager.Lifecycle.Supervised.{
  fresh-renew, live, IsCurrent, live-abort_le, is_aborted, initialised-IsSupervised,
  IsCurrent-remove_at, live-remove_at, IsCurrent-abort, live-abort_current, IsCurrent-renew,
  live_loops, IsRecovery, IsSupervised,
}
use homey_shs_enhanced.Manager.Lifecycle.{
  announcing, tearing_down, resume_teardown, resume_announcement, on_uninit, reset_fails,
  reset_ends, reset_begins, shuts_down, loop_ends, announced, torn_down, readiness, end_recovery,
  remove_at, phase_at, initialised, disconnected, run, Event, Lifecycle, Phase, step, on_torn_down,
  recover_from_disconnect, on_announced, on_disconnected,
}
use homey_shs_enhanced.Prelude.{
  All, Option, none, ==-refl, subst, length, not, arith, Bool-cases, ℕ, Bool, List, [], refl, zero,
  suc, true, false, some, inl, inr, ◌||◌, ◌≤◌, ◌≡◌, if◌then◌else◌, ◌∷◌,
}

IsRecovery-le :
    (recovering : Bool) (phases : List Phase) (m n : ℕ)
    → m ≤ n
    → IsRecovery recovering phases n
    → IsRecovery recovering phases m
IsRecovery-le false [] m n l h = omega arith
IsRecovery-le true (p ∷ []) m n l h = omega arith
IsRecovery-le false (p ∷ ps) m n l h = h
IsRecovery-le true [] m n l h = h
IsRecovery-le true (p ∷ q ∷ ps) m n l h = h

-- One that waits is the only one.
waiting :
    (recovering : Bool) (phases : List Phase) (n i : ℕ) (p : Phase)
    → IsRecovery recovering phases n
    → phase_at i phases ≡ some p
    → (recovering ≡ true) × (n ≡ 0) × (remove_at i phases ≡ [])
waiting false [] n i p h e = cc
waiting true (q ∷ []) n zero p h e = (refl, h, refl)
waiting true (q ∷ []) n (suc i) p h e = cc
waiting false (q ∷ ps) n i p h e = absurd h
waiting true [] n i p h e = absurd h
waiting true (q ∷ r ∷ ps) n i p h e = absurd h

-- A recovery that begins has no other beside it.
pub none_waiting : (phases : List Phase) (n : ℕ) → IsRecovery false phases n → phases ≡ []
none_waiting [] n h = refl
none_waiting (p ∷ ps) n h = absurd h

recover_from_disconnect-IsSupervised :
    (s : Lifecycle) → IsSupervised s → IsSupervised (recover_from_disconnect s)
unfolding recover_from_disconnect
recover_from_disconnect-IsSupervised s v =
    elim (Bool-cases (s.recovering || s.stopping || s.resetting)) [
      | inl busy ↦ simp busy v
      | inr free ↦
          let alone : s.recoveries ≡ [] = none_waiting s.recoveries (live_loops s) (
            subst (λ b. IsRecovery b s.recoveries (live_loops s)) {y = false} (ground arith)
              v.recovery) in
          simp free (record {
            recovery = rw alone (live-abort_current s.generation s.aborted s.loops v.current);
            current = IsCurrent-abort s.generation s.generation s.aborted s.loops v.current;
            fresh = (omega arith, v.fresh);
            stopped = λ e. ground (arith, ==-refl s.generation);
          })
    ]

on_disconnected-IsSupervised :
    (current : Bool) (s : Lifecycle) → IsSupervised s → IsSupervised (on_disconnected current s)
unfolding on_disconnected
on_disconnected-IsSupervised current s v =
    elim (Bool-cases (s.stopping || s.resetting || not s.zigbee_ready || not current)) [
      | inl ignored ↦ simp ignored v
      | inr heard ↦ simp heard (recover_from_disconnect-IsSupervised s v)
    ]

end_recovery-IsSupervised :
    (i : ℕ) (p : Phase) (s : Lifecycle)
    → IsSupervised s
    → phase_at i s.recoveries ≡ some p
    → IsSupervised (end_recovery i s)
end_recovery-IsSupervised i p s v e =
    let (_, still, last) = waiting s.recovering s.recoveries (live_loops s) i p v.recovery e in
    record {
      recovery = rw last (omega arith);
      current = v.current;
      fresh = v.fresh;
      stopped = v.stopped;
    }

resume_teardown-IsSupervised :
    (phase : Option Phase) (i : ℕ) (succeeds : Bool) (s : Lifecycle)
    → IsSupervised s
    → phase_at i s.recoveries ≡ phase
    → IsSupervised (resume_teardown phase i succeeds s)
resume_teardown-IsSupervised none i succeeds s v e = v
resume_teardown-IsSupervised (some announcing) i succeeds s v e = v
resume_teardown-IsSupervised (some tearing_down) i succeeds s v e =
    let (active, still, last) =
      waiting s.recovering s.recoveries (live_loops s) i tearing_down v.recovery e in
    elim (Bool-cases (not succeeds || s.stopping)) [
      | inl ends ↦ simp ends (end_recovery-IsSupervised i tearing_down s v e)
      | inr goes_on ↦ simp goes_on (record {
        recovery = rw (last, active) still;
        current = IsCurrent-renew (suc s.generation) s.aborted s.loops still;
        fresh = fresh-renew s.generation s.aborted v.fresh;
        stopped = λ stops. absurd (ground arith);
      })
    ]

resume_announcement-IsSupervised :
    (phase : Option Phase) (i : ℕ) (succeeds : Bool) (s : Lifecycle)
    → IsSupervised s
    → phase_at i s.recoveries ≡ phase
    → IsSupervised (resume_announcement phase i succeeds s)
resume_announcement-IsSupervised none i succeeds s v e = v
resume_announcement-IsSupervised (some tearing_down) i succeeds s v e = v
resume_announcement-IsSupervised (some announcing) i false s v e =
    end_recovery-IsSupervised i announcing s v e
resume_announcement-IsSupervised (some announcing) i true s v e =
    let (active, still, last) =
      waiting s.recovering s.recoveries (live_loops s) i announcing v.recovery e in
    record {
      recovery = rw last (ground (arith, still));
      current = (inr refl, v.current);
      fresh = v.fresh;
      stopped = v.stopped;
    }

pub step-IsSupervised : (s : Lifecycle) (e : Event) → IsSupervised s → IsSupervised (step s e)
unfolding step on_torn_down on_announced on_uninit
step-IsSupervised s (disconnected current) v = on_disconnected-IsSupervised current s v
step-IsSupervised s (readiness ready) v = record {
  recovery = v.recovery;
  current = v.current;
  fresh = v.fresh;
  stopped = v.stopped;
}
step-IsSupervised s (torn_down i succeeds) v = resume_teardown-IsSupervised _ i succeeds s v refl
step-IsSupervised s (announced i succeeds) v =
    resume_announcement-IsSupervised _ i succeeds s v refl
step-IsSupervised s (loop_ends i) v = record {
  recovery =
      IsRecovery-le s.recovering s.recoveries _ (live_loops s) (live-remove_at i s.aborted s.loops)
        v.recovery;
  current = IsCurrent-remove_at s.generation s.aborted i s.loops v.current;
  fresh = v.fresh;
  stopped = v.stopped;
}
step-IsSupervised s shuts_down v = record {
  recovery =
      IsRecovery-le s.recovering s.recoveries _ (live_loops s)
        (live-abort_le s.generation s.aborted s.loops) v.recovery;
  current = IsCurrent-abort s.generation s.generation s.aborted s.loops v.current;
  fresh = (omega arith, v.fresh);
  stopped = λ e. ground (arith, ==-refl s.generation);
}
step-IsSupervised s reset_begins v = record {
  recovery = v.recovery;
  current = v.current;
  fresh = v.fresh;
  stopped = v.stopped;
}
step-IsSupervised s reset_ends v = record {
  recovery = v.recovery;
  current = v.current;
  fresh = v.fresh;
  stopped = v.stopped;
}
step-IsSupervised s reset_fails v =
    recover_from_disconnect-IsSupervised (record s { resetting = false })
      (record { recovery = v.recovery; current = v.current; fresh = v.fresh; stopped = v.stopped })

pub run-IsSupervised : (s : Lifecycle) (es : List Event) → IsSupervised s → IsSupervised (run s es)
unfolding run
run-IsSupervised s [] v = v
run-IsSupervised s (e ∷ es) v = run-IsSupervised (step s e) es (step-IsSupervised s e v)

recovery_counts :
    (recovering : Bool) (phases : List Phase) (n : ℕ)
    → IsRecovery recovering phases n
    → (n ≤ 1) × (recovering ≡ true → n ≡ 0) × (length phases ≡ (if recovering then 1 else 0))
recovery_counts false [] n h = (h, λ e. cc, refl)
recovery_counts true (p ∷ []) n h = (omega arith, λ e. h, refl)
recovery_counts false (p ∷ ps) n h = absurd h
recovery_counts true [] n h = absurd h
recovery_counts true (p ∷ q ∷ ps) n h = absurd h

-- If the current signal is aborted too, no loop is live.
live-stopped :
    (generation : ℕ) (aborted loops : List ℕ)
    → is_aborted aborted generation ≡ true
    → All (IsCurrent generation aborted) loops
    → live aborted loops ≡ 0
live-stopped generation aborted [] stops h = refl
live-stopped generation aborted (g ∷ gs) stops (inl c, h) =
    ground (arith, c, live-stopped generation aborted gs stops h)
live-stopped generation aborted (g ∷ gs) stops (inr c, h) =
    let gone : is_aborted aborted g ≡ true = rw c stops in
    ground (arith, gone, live-stopped generation aborted gs stops h)

-- From the end of `onInit` on, whatever disconnects, fails, ends, is reset or shut down in whatever
-- order: the manager runs one start loop at most whose signal is not aborted, none while it
-- recovers, and none once it shuts down; and `recovering` is set exactly while a recovery is under
-- way, of which there is one at most.
pub run-one_loop :
    (es : List Event)
    → let s = run initialised es in
      (live_loops s ≤ 1)
      × (s.recovering ≡ true → live_loops s ≡ 0)
      × (s.stopping ≡ true → live_loops s ≡ 0)
      × (length s.recoveries ≡ (if s.recovering then 1 else 0))
run-one_loop es =
    let v = run-IsSupervised initialised es initialised-IsSupervised in
    let s = run initialised es in
    let (few, idle, counted) =
      recovery_counts s.recovering s.recoveries (live_loops s) v.recovery in
    (
      few,
      idle,
      λ stops. live-stopped s.generation s.aborted s.loops (v.stopped stops) v.current,
      counted,
    )
