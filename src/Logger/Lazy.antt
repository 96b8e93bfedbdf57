-- ===== src/Logger/Lazy.antt =====
-- enhancements/0001-zigbee-ember/src/herdsman.mts: what the logger makes and builds.
use homey_shs_enhanced.Prelude.{
  ◌≤◌, text_eq_sound, subst, Bool-cases, refl, inl, inr, text_eq, arith, ℕ, Bool, Text, List, [],
  suc, true, false, ◌∷◌, ◌+◌, if◌then◌else◌, ◌&&◌, ◌++◌, ◌≡◌,
}
use homey_shs_enhanced.Logger.{
  log, log_run, error_level, warning_level, info_level, debug_level, built, print_built, log_debug,
  write_built, Level, builds, prints, writes, plain_message, has_debugger, makes_debugger,
  lazy_message, LogEffect, Debuggers, LogMessage, LogCall,
}

-- How often a namespace's debugger is made, and how often a message is built.
abbrev pub made_for : Text → List LogEffect → ℕ
made_for n [] = 0
made_for n (makes_debugger m ∷ es) = (if text_eq m n then 1 else 0) + made_for n es
made_for n (builds ∷ es) = made_for n es
made_for n (writes m t ∷ es) = made_for n es
made_for n (prints l t ∷ es) = made_for n es

abbrev pub built_in : List LogEffect → ℕ
built_in [] = 0
built_in (builds ∷ es) = suc (built_in es)
built_in (makes_debugger m ∷ es) = built_in es
built_in (writes m t ∷ es) = built_in es
built_in (prints l t ∷ es) = built_in es

made_for-append :
    (n : Text) (es fs : List LogEffect) → made_for n (es ++ fs) ≡ made_for n es + made_for n fs
made_for-append n [] fs = omega arith
made_for-append n (makes_debugger m ∷ es) fs = omega (arith, made_for-append n es fs)
made_for-append n (builds ∷ es) fs = made_for-append n es fs
made_for-append n (writes m t ∷ es) fs = made_for-append n es fs
made_for-append n (prints l t ∷ es) fs = made_for-append n es fs

built_in-append : (es fs : List LogEffect) → built_in (es ++ fs) ≡ built_in es + built_in fs
built_in-append [] fs = omega arith
built_in-append (makes_debugger m ∷ es) fs = built_in-append es fs
built_in-append (builds ∷ es) fs = omega (arith, built_in-append es fs)
built_in-append (writes m t ∷ es) fs = built_in-append es fs
built_in-append (prints l t ∷ es) fs = built_in-append es fs

abbrev pub is_on : Level → Bool → Bool
is_on debug_level enabled = enabled
is_on info_level enabled = true
is_on warning_level enabled = true
is_on error_level enabled = true

-- The lazy messages of calls whose level is on: `debug` only where its namespace is enabled.
abbrev pub is_heard : LogCall → Bool
is_heard c = is_on c.level (c.enabled c.namespace)

abbrev pub is_lazy : LogMessage → Bool
is_lazy (lazy_message t) = true
is_lazy (plain_message t) = false

abbrev pub heard_lazy : List LogCall → ℕ
heard_lazy [] = 0
heard_lazy (c ∷ cs) = (if is_heard c && is_lazy c.message then 1 else 0) + heard_lazy cs

-- The debuggers that are there: the map's entry counts as made before.
abbrev pub known : Debuggers → Text → ℕ
known ds n = if has_debugger ds n then 1 else 0

written-made :
    (n namespace : Text) (message : LogMessage)
    → made_for n (write_built namespace (built message)) ≡ 0
written-made n namespace (plain_message t) = refl
written-made n namespace (lazy_message t) = refl

printed-made :
    (n namespace : Text) (level : Level) (message : LogMessage)
    → made_for n (print_built level namespace (built message)) ≡ 0
printed-made n namespace level (plain_message t) = refl
printed-made n namespace level (lazy_message t) = refl

written-built :
    (namespace : Text) (message : LogMessage)
    → built_in (write_built namespace (built message)) ≡ (if is_lazy message then 1 else 0)
written-built namespace (plain_message t) = refl
written-built namespace (lazy_message t) = refl

printed-built :
    (namespace : Text) (level : Level) (message : LogMessage)
    → built_in (print_built level namespace (built message)) ≡ (if is_lazy message then 1 else 0)
printed-built namespace level (plain_message t) = refl
printed-built namespace level (lazy_message t) = refl

known-new :
    (ds : Debuggers) (namespace n : Text)
    → has_debugger ds namespace ≡ false
    → (if text_eq namespace n then 1 else 0) + known ds n ≡ known (namespace ∷ ds) n
known-new ds namespace n new = elim (Bool-cases (text_eq namespace n)) [
  | inr other ↦ rw other (omega arith)
  | inl same ↦
      let gone : has_debugger ds n ≡ false =
        subst (λ t. has_debugger ds t ≡ false) (text_eq_sound namespace n same) new in
      rw (same, gone) refl
]

-- What a call adds to the debuggers made and to the messages built.
Adds : Text → ℕ → Debuggers → Debuggers × List LogEffect → Type 0
Adds n lazy ds (ds', es) = (made_for n es + known ds n ≡ known ds' n) × (built_in es ≡ lazy)

log_debug-Adds :
    (enabled : Text → Bool) (message : LogMessage) (namespace n : Text) (ds : Debuggers)
    → Adds n
        (if enabled namespace && is_lazy message then 1 else 0)
        ds
        (log_debug enabled message namespace ds)
unfolding log_debug Adds
log_debug-Adds enabled message namespace n ds = elim (Bool-cases (enabled namespace)) [
  | inl on ↦ elim (Bool-cases (has_debugger ds namespace)) [
    | inl old ↦
        rw (on, old)
          (omega (arith, written-made n namespace message), written-built namespace message)
    | inr new ↦
        rw (on, new)
          (
            omega (arith, written-made n namespace message, known-new ds namespace n new),
            written-built namespace message,
          )
  ]
  | inr off ↦ elim (Bool-cases (has_debugger ds namespace)) [
    | inl old ↦ rw (off, old) (omega arith, refl)
    | inr new ↦ rw (off, new) (omega (arith, known-new ds namespace n new), refl)
  ]
]

log-Adds :
    (enabled : Text → Bool) (level : Level) (message : LogMessage) (namespace n : Text)
    (ds : Debuggers)
    → Adds n
        (if is_on level (enabled namespace) && is_lazy message then 1 else 0)
        ds
        (log enabled level message namespace ds)
unfolding log Adds
log-Adds enabled debug_level message namespace n ds = log_debug-Adds enabled message namespace n ds
log-Adds enabled info_level message namespace n ds = (
  omega (arith, printed-made n namespace info_level message),
  printed-built namespace info_level message,
)
log-Adds enabled warning_level message namespace n ds = (
  omega (arith, printed-made n namespace warning_level message),
  printed-built namespace warning_level message,
)
log-Adds enabled error_level message namespace n ds = (
  omega (arith, printed-made n namespace error_level message),
  printed-built namespace error_level message,
)

log_run-Adds :
    (cs : List LogCall) (n : Text) (ds : Debuggers) → Adds n (heard_lazy cs) ds (log_run cs ds)
unfolding log_run Adds
log_run-Adds [] n ds = (omega arith, refl)
log_run-Adds (c ∷ cs) n ds =
    let first = log c.enabled c.level c.message c.namespace ds in
    let rest = log_run cs first.0 in
    let (made, lazy) = log-Adds c.enabled c.level c.message c.namespace n ds in
    let (made_later, lazy_later) = log_run-Adds cs n first.0 in
    (
      omega (arith, made, made_later, made_for-append n first.1 rest.1),
      omega (arith, lazy, lazy_later, built_in-append first.1 rest.1),
    )

-- Over any sequence of calls, under namespaces that are enabled and disabled at will, a debugger is
-- made once at most for each namespace, and a lazy message is built exactly for the calls whose
-- level is heard: `debug` only where its namespace is enabled, the other levels always.
pub log_run-lazy :
    (cs : List LogCall) (n : Text)
    → let (ds, es) = log_run cs [] in (made_for n es ≤ 1) × (built_in es ≡ heard_lazy cs)
unfolding Adds
log_run-lazy cs n =
    let (ds, es) = log_run cs [] in
    let (made, lazy) = log_run-Adds cs n [] in (ground (arith, made), lazy)
