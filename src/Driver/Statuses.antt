-- ===== src/Driver/Statuses.antt =====
-- enhancements/0001-zigbee-ember/src/homey-ember.cjs: the errors that carry a status of the radio
-- (`HomeyEmberStatusError`, `normalizeDispatchError`). herdsman's tables of names are parameters.
-- `SLStatus[status]` and `EzspStatus[status]`.
use homey_shs_enhanced.Json.{decimal}
use homey_shs_enhanced.Prelude.{
  text, Option, status_error, or_default, Thrown, ℕ, Text, none, some, ◌++◌,
}

pub record StatusNames : Type 0 where
  pub sl : ℕ → Option Text
  pub ezsp : ℕ → Option Text

module _ (names : StatusNames) where
  unfoldable pub status_name : ℕ → Text
  status_name status = or_default (names.sl status) (decimal status)

  unfoldable pub ezsp_status_name : ℕ → Text
  ezsp_status_name status = or_default (names.ezsp status) (decimal status)

  status_error_of : Text → ℕ → Text → Text → Thrown
  status_error_of operation status layer name = status_error (record {
    operation = operation;
    status = status;
    status_name = name;
    layer = layer;
    message = operation ++ text " failed with status=" ++ name;
  })

  -- `new HomeyEmberStatusError(operation, status)`, whose layer is that of the stack.
  unfoldable pub sl_error : Text → ℕ → Thrown
  unfolding status_error_of
  sl_error operation status = status_error_of operation status (text "sl") (status_name status)

  -- The same with `{ layer: 'ezsp' }`.
  unfoldable pub ezsp_error : Text → ℕ → Thrown
  unfolding status_error_of
  ezsp_error operation status =
      status_error_of operation status (text "ezsp") (ezsp_status_name status)

  -- `numeric_code`: the error's `code`, if that is a number, as it is of herdsman's `EzspError`.
  unfoldable pub normalize_dispatch_error : (Thrown → Option ℕ) → Text → Thrown → Thrown
  normalize_dispatch_error numeric_code operation error = elim (numeric_code error) [
    | none ↦ error
    | some code ↦ ezsp_error operation code
  ]
