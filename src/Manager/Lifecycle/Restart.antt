-- ===== src/Manager/Lifecycle/Restart.antt =====
-- enhancements/0001-zigbee-ember/src/ManagerZigbeeEmber.mts: a recovery from a disconnect that
-- nothing else disturbs.
use homey_shs_enhanced.Manager.Lifecycle.Steps.{run-IsSupervised, none_waiting}
use homey_shs_enhanced.Manager.Lifecycle.Supervised.{
  live-abort_current, fresh-is_aborted, initialised-IsSupervised, IsRecovery, live_loops,
  IsSupervised,
}
use homey_shs_enhanced.Manager.Lifecycle.{
  on_announced, on_torn_down, announced, torn_down, disconnected, initialised,
  recover_from_disconnect, Event, on_disconnected, tearing_down, Lifecycle, step, run,
}
use homey_shs_enhanced.Prelude.{
  sym, ap, ◌∙◌, arith, not, ◌||◌, subst, map, Bool, List, [], refl, suc, true, false, ◌∷◌, ◌++◌,
  ◌≡◌,
}

-- A manager whose coordinator runs.
pub record IsHealthy (s : Lifecycle) : Type 0 where
  pub ready : s.zigbee_ready ≡ true
  pub not_recovering : s.recovering ≡ false
  pub not_resetting : s.resetting ≡ false
  pub not_stopping : s.stopping ≡ false

-- After the first await of its recovery.
abbrev pub recovering_from : Lifecycle → Lifecycle
recovering_from s = record s {
  aborted = s.generation ∷ s.aborted;
  recoveries = tearing_down ∷ [];
  recovering = true;
  zigbee_ready = false;
  start_promise = false;
}

disconnected-IsHealthy :
    (s : Lifecycle) → IsSupervised s → IsHealthy s → step s (disconnected true) ≡ recovering_from s
unfolding step on_disconnected recover_from_disconnect
disconnected-IsHealthy s v h =
    let alone : s.recoveries ≡ [] =
      none_waiting s.recoveries (live_loops s)
        (subst (λ b. IsRecovery b s.recoveries (live_loops s)) h.not_recovering v.recovery) in
    simp (h.ready, h.not_recovering, h.not_resetting, h.not_stopping, alone)

unheard : (s : Lifecycle) (current : Bool) → s.zigbee_ready ≡ false → on_disconnected current s ≡ s
unfolding on_disconnected
unheard s current h =
    let ignored : (s.stopping || s.resetting || not s.zigbee_ready || not current) ≡ true =
      ground arith in
    simp ignored

-- Until the manager is ready again, it hears no disconnect.
run-disconnected :
    (s : Lifecycle) (flags : List Bool) (es : List Event)
    → s.zigbee_ready ≡ false
    → run s (map disconnected flags ++ es) ≡ run s es
unfolding run step
run-disconnected s [] es h = refl
run-disconnected s (current ∷ flags) es h =
    ap (λ t. run t (map disconnected flags ++ es)) (unheard s current h)
    ∙ run-disconnected s flags es h

-- After the recovery.
abbrev pub recovered_from : Lifecycle → Lifecycle
recovered_from s = record s {
  generation = suc s.generation;
  aborted = s.generation ∷ s.aborted;
  loops = suc s.generation ∷ s.loops;
  recoveries = [];
  recovering = false;
  zigbee_ready = false;
  start_promise = true;
}

run-recovering :
    (s : Lifecycle)
    → s.stopping ≡ false
    → run (recovering_from s) (torn_down 0 true ∷ announced 0 true ∷ []) ≡ recovered_from s
unfolding run step on_torn_down on_announced
run-recovering s h = simp h

-- One loop is live, under the next signal, and callers have a promise to wait for.
abbrev pub IsRestarted : Lifecycle → Lifecycle → Type 0
IsRestarted s s' =
    (live_loops s' ≡ 1)
    × (s'.generation ≡ suc s.generation)
    × (s'.start_promise ≡ true)
    × (s'.recovering ≡ false)
    × (s'.recoveries ≡ [])

-- If the coordinator of a running manager disconnects, any number of further disconnects starts no
-- second recovery; and once the teardown and the announcement succeed, with nothing else in
-- between, exactly one start loop is live, under a new signal, callers have a promise to wait for,
-- and the next disconnect can be recovered from.
pub run-restarts :
    (es : List Event) (flags : List Bool)
    → IsHealthy (run initialised es)
    → let s = run initialised es in
      IsRestarted s (
        run s (
          disconnected true ∷ map disconnected flags ++ (torn_down 0 true ∷ announced 0 true ∷ [])))
unfolding run
run-restarts es flags h =
    let s = run initialised es in
    let v = run-IsSupervised initialised es initialised-IsSupervised in
    let rest : List Event = torn_down 0 true ∷ announced 0 true ∷ [] in
    let whole : run s (disconnected true ∷ map disconnected flags ++ rest) ≡ recovered_from s =
      ap (λ t. run t (map disconnected flags ++ rest)) (disconnected-IsHealthy s v h)
      ∙ run-disconnected (recovering_from s) flags rest refl
      ∙ run-recovering s h.not_stopping in
    subst (λ t. IsRestarted s t) (sym whole)
      (
        ground (
          arith,
          fresh-is_aborted s.generation s.aborted v.fresh,
          live-abort_current s.generation s.aborted s.loops v.current,
        ),
        refl,
        refl,
        refl,
        refl,
      )
