-- ===== src/Manager/Backend.antt =====
-- enhancements/0001-zigbee-ember/overlay/ManagerZigbee.mts and apply.mjs: the backend that a
-- configuration selects, and the `hasZigbee` that the script writes into Homey's System.mts.
use homey_shs_enhanced.Prelude.{
  text, Bool-cases, Bool, text_eq, Text, refl, true, inl, inr, ◌↔◌, if◌then◌else◌, ◌≡◌,
}

pub data Backend : Type 0 where
  ember_backend bridge_backend : Backend

-- `backend` is `config.HOMEY_ZIGBEE_BACKEND`.
unfoldable pub manager_zigbee : Text → Backend
manager_zigbee backend = if text_eq backend (text "ember") then ember_backend else bridge_backend

unfoldable pub has_zigbee : Text → Bool
has_zigbee backend = text_eq backend (text "ember")

-- Homey takes itself to have Zigbee exactly if the Ember manager is the one that is loaded.
pub has_zigbee_iff :
    (backend : Text) → (has_zigbee backend ≡ true) ↔ (manager_zigbee backend ≡ ember_backend)
unfolding has_zigbee manager_zigbee
has_zigbee_iff backend = elim (Bool-cases (text_eq backend (text "ember"))) [
  | inl b ↦ rw b (λ e. refl, λ e. refl)
  | inr b ↦ rw b (λ e. cc, λ e. cc)
]
