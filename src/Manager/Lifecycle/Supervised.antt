-- ===== src/Manager/Lifecycle/Supervised.antt =====
-- enhancements/0001-zigbee-ember/src/ManagerZigbeeEmber.mts: the invariant of recovery, reset and
-- shutdown.
use homey_shs_enhanced.Manager.Lifecycle.{remove_at, Phase, initialised, Lifecycle}
use homey_shs_enhanced.Prelude.{
  ==-refl, zero, suc, inl, ℕ, All, arith, List, Bool, [], refl, true, false, inr, ◌⊎◌, ◌||◌, ◌==◌,
  if◌then◌else◌, ◌+◌, ◌≤◌, ◌≡◌, ◌∷◌,
}

abbrev pub is_aborted : List ℕ → ℕ → Bool
is_aborted [] g = false
is_aborted (a ∷ gs) g = a == g || is_aborted gs g

-- The loops whose signal is not aborted.
abbrev pub live : List ℕ → List ℕ → ℕ
live aborted [] = 0
live aborted (g ∷ gs) = (if is_aborted aborted g then 0 else 1) + live aborted gs

abbrev pub live_loops : Lifecycle → ℕ
live_loops s = live s.aborted s.loops

-- `recovering` says that one recovery is under way, and then no loop is live.
abbrev pub IsRecovery : Bool → List Phase → ℕ → Type 0
IsRecovery false [] n = n ≤ 1
IsRecovery false (p ∷ ps) n = ⊥
IsRecovery true [] n = ⊥
IsRecovery true (p ∷ []) n = n ≡ 0
IsRecovery true (p ∷ q ∷ ps) n = ⊥

abbrev pub IsCurrent : ℕ → List ℕ → ℕ → Type 0
IsCurrent generation aborted g = (is_aborted aborted g ≡ true) ⊎ (g ≡ generation)

pub record IsSupervised (s : Lifecycle) : Type 0 where
  pub recovery : IsRecovery s.recovering s.recoveries (live_loops s)
  -- Every live loop has the current signal.
  pub current : All (IsCurrent s.generation s.aborted) s.loops
  -- No signal is aborted before it exists.
  pub fresh : All (λ a. a ≤ s.generation) s.aborted
  -- A manager that stops has aborted its signal.
  pub stopped : s.stopping ≡ true → is_aborted s.aborted s.generation ≡ true

pub initialised-IsSupervised : IsSupervised initialised
initialised-IsSupervised = record {
  recovery = omega arith;
  current = (inr refl, tt);
  fresh = tt;
  stopped = λ e. cc;
}

pub live-abort_current :
    (generation : ℕ) (aborted loops : List ℕ)
    → All (IsCurrent generation aborted) loops
    → live (generation ∷ aborted) loops ≡ 0
live-abort_current generation aborted [] h = refl
live-abort_current generation aborted (g ∷ gs) (c, h) =
    ground (arith, c, live-abort_current generation aborted gs h, ==-refl g)

pub live-abort_le : (a : ℕ) (aborted loops : List ℕ) → live (a ∷ aborted) loops ≤ live aborted loops
live-abort_le a aborted [] = omega arith
live-abort_le a aborted (g ∷ gs) = ground (arith, live-abort_le a aborted gs)

pub live-remove_at :
    (i : ℕ) (aborted loops : List ℕ) → live aborted (remove_at i loops) ≤ live aborted loops
live-remove_at i aborted [] = omega arith
live-remove_at zero aborted (g ∷ gs) = omega arith
live-remove_at (suc i) aborted (g ∷ gs) = ground (arith, live-remove_at i aborted gs)

pub IsCurrent-remove_at :
    (generation : ℕ) (aborted : List ℕ) (i : ℕ) (loops : List ℕ)
    → All (IsCurrent generation aborted) loops
    → All (IsCurrent generation aborted) (remove_at i loops)
IsCurrent-remove_at generation aborted i [] h = h
IsCurrent-remove_at generation aborted zero (g ∷ gs) h = h.1
IsCurrent-remove_at generation aborted (suc i) (g ∷ gs) h =
    (h.0, IsCurrent-remove_at generation aborted i gs h.1)

pub IsCurrent-abort :
    (generation a : ℕ) (aborted loops : List ℕ)
    → All (IsCurrent generation aborted) loops
    → All (IsCurrent generation (a ∷ aborted)) loops
IsCurrent-abort generation a aborted [] h = h
IsCurrent-abort generation a aborted (g ∷ gs) (inl c, h) =
    (inl (ground arith), IsCurrent-abort generation a aborted gs h)
IsCurrent-abort generation a aborted (g ∷ gs) (inr c, h) =
    (inr c, IsCurrent-abort generation a aborted gs h)

-- If no loop is live, another signal may become the current one.
pub IsCurrent-renew :
    (generation : ℕ) (aborted loops : List ℕ)
    → live aborted loops ≡ 0
    → All (IsCurrent generation aborted) loops
IsCurrent-renew generation aborted [] h = tt
IsCurrent-renew generation aborted (g ∷ gs) h =
    (inl (ground arith), IsCurrent-renew generation aborted gs (ground arith))

pub fresh-renew :
    (n : ℕ) (aborted : List ℕ) → All (λ a. a ≤ n) aborted → All (λ a. a ≤ suc n) aborted
fresh-renew n [] h = tt
fresh-renew n (a ∷ gs) (l, h) = (omega arith, fresh-renew n gs h)

pub fresh-is_aborted :
    (n : ℕ) (aborted : List ℕ) → All (λ a. a ≤ n) aborted → is_aborted aborted (suc n) ≡ false
fresh-is_aborted n [] h = refl
fresh-is_aborted n (a ∷ gs) (l, h) = ground (arith, l, fresh-is_aborted n gs h)
