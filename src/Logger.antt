-- ===== src/Logger.antt =====
-- enhancements/0001-zigbee-ember/src/herdsman.mts: the logger that herdsman is given. The `debug`
-- package, and which of its namespaces are enabled, are parameters.
pub mod Lazy
use homey_shs_enhanced.Prelude.{
  text_eq, Bool, text, Text, List, [], false, ◌∷◌, if◌then◌else◌, ◌++◌, ◌||◌,
}

-- A message, or a function that builds it.
pub data LogMessage : Type 0 where
  plain_message lazy_message : Text → LogMessage

pub data Level : Type 0 where
  debug_level info_level warning_level error_level : Level

-- `makes_debugger`: `homeyDebug` is called for `zigbee:` and the namespace. `builds`: a lazy message
-- is built. `writes`: to that namespace's debugger. `prints`: to the console.
pub data LogEffect : Type 0 where
  makes_debugger : Text → LogEffect
  builds : LogEffect
  writes : Text → Text → LogEffect
  prints : Level → Text → LogEffect

-- The namespaces in the map of debuggers.
abbrev pub Debuggers : Type 0
Debuggers = List Text

abbrev pub has_debugger : Debuggers → Text → Bool
has_debugger [] namespace = false
has_debugger (d ∷ ds) namespace = text_eq d namespace || has_debugger ds namespace

-- `text(message)`, with what is done on the way.
abbrev pub built : LogMessage → List LogEffect × Text
built (plain_message t) = ([], t)
built (lazy_message t) = (builds ∷ [], t)

abbrev pub write_built : Text → List LogEffect × Text → List LogEffect
write_built namespace (effects, t) = effects ++ writes namespace t ∷ []

abbrev pub print_built : Level → Text → List LogEffect × Text → List LogEffect
print_built level namespace (effects, t) =
    effects ++ prints level (namespace ++ (text ": " ++ t)) ∷ []

-- `enabled`: what the debugger of a namespace says when it is asked.
unfoldable pub log_debug :
    (Text → Bool) → LogMessage → Text → Debuggers → Debuggers × List LogEffect
log_debug enabled message namespace ds =
    let written = if enabled namespace then write_built namespace (built message) else [] in
    if has_debugger ds namespace
    then (ds, written)
    else (namespace ∷ ds, makes_debugger namespace ∷ written)

unfoldable pub log :
    (Text → Bool) → Level → LogMessage → Text → Debuggers → Debuggers × List LogEffect
log enabled debug_level message namespace ds = log_debug enabled message namespace ds
log enabled info_level message namespace ds = (ds, print_built info_level namespace (built message))
log enabled warning_level message namespace ds =
    (ds, print_built warning_level namespace (built message))
log enabled error_level message namespace ds =
    (ds, print_built error_level namespace (built message))

-- A call of the logger, with what is enabled then.
pub record LogCall : Type 0 where
  pub enabled : Text → Bool
  pub level : Level
  pub message : LogMessage
  pub namespace : Text

unfoldable pub log_run : List LogCall → Debuggers → Debuggers × List LogEffect
log_run [] ds = (ds, [])
log_run (c ∷ cs) ds =
    let (ds', now) = log c.enabled c.level c.message c.namespace ds in
    let (ds'', later) = log_run cs ds' in (ds'', now ++ later)
