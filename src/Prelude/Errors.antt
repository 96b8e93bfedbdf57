-- ===== src/Prelude/Errors.antt =====
-- What the program throws, and computations that may throw.
use Prim.Native.Nat.{ℕ}
use mathlib.Core.Path.{◌≡◌, refl}
use mathlib.Core.Logic.{◌⊎◌, inl, inr}
use mathlib.Core.Option.{Option, none, some}
use homey_shs_enhanced.Prelude.Texts.{Text}

-- A `HomeyEmberStatusError`, which carries the layer that refused a radio operation.
pub record StatusError : Type 0 where
  pub operation : Text
  pub status : ℕ
  pub status_name : Text
  pub layer : Text
  pub message : Text

-- A thrown value. `value_thrown` is one that is no `Error`, by its `String(...)`.
pub data Thrown : Type 0 where
  type_error range_error plain_error value_thrown : Text → Thrown
  system_error : Text → Text → Thrown
  status_error : StatusError → Thrown
  timeout_error : ℕ → Text → Thrown
  unreachable_error : Text → Thrown → Thrown
  binding_table_full_error : Text → Thrown

-- `error instanceof Error ? error.message : String(error)`.
abbrev pub message_of : Thrown → Text
message_of (type_error m) = m
message_of (range_error m) = m
message_of (plain_error m) = m
message_of (value_thrown m) = m
message_of (system_error c m) = m
message_of (status_error e) = e.message
message_of (timeout_error ms m) = m
message_of (unreachable_error m cause) = m
message_of (binding_table_full_error m) = m

-- `error.code`, which only the errors of the system calls have.
abbrev pub code_of : Thrown → Option Text
code_of (system_error c m) = some c
code_of (type_error _) = none
code_of _ = none

pub data Result {ℓ} (A : Type ℓ) : Type ℓ where
  err : Thrown → Result A
  ok : A → Result A

pub Result-cases {ℓ} :
    {A : Type ℓ} (r : Result A) → ((a : A) × (r ≡ ok a)) ⊎ ((e : Thrown) × (r ≡ err e))
Result-cases (ok a) = inl (a, refl)
Result-cases (err e) = inr (e, refl)

infixl 5 ◌>>=◌ ◌>>◌
-- The next step runs on the value; what is thrown skips it.
abbrev pub ◌>>=◌ {ℓ κ} :
    {Value : Type ℓ} {Next : Type κ} → Result Value → (Value → Result Next) → Result Next
err thrown >>= next = err thrown
ok value >>= next = next value

pub >>=-eq-ok {ℓ κ} :
    {Value : Type ℓ} {Next : Type κ} (first : Result Value) (next : Value → Result Next)
    {last : Next}
    → (first >>= next) ≡ ok last
    → (value : Value) × (first ≡ ok value) × (next value ≡ ok last)
>>=-eq-ok (err thrown) next h = cc
>>=-eq-ok (ok value) next h = (value, refl, h)

abbrev pub ◌>>◌ {ℓ} : {Next : Type ℓ} → Result (Unit {0}) → Result Next → Result Next
first >> last = first >>= λ done. last
