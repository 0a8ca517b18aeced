-- ===== src/Errors.antt =====
-- The library's errors, `TelemetryError` of src/lib.rs, and `TelemetryResult`.
use sedsnet.Base.{◌≡◌, ℕ, Option}
use Prim.Native.String.{String}

-- A message is the `&'static str` that the source gives.
pub data TelemetryError : Type 0 where
  generic_error : Option String → TelemetryError
  invalid_type : TelemetryError
  size_mismatch : ℕ → ℕ → TelemetryError
  size_mismatch_error : TelemetryError
  empty_endpoints : TelemetryError
  timestamp_invalid : TelemetryError
  missing_payload : TelemetryError
  handler_error : String → TelemetryError
  bad_arg : TelemetryError
  permission_denied : TelemetryError
  pack : String → TelemetryError
  unpack : String → TelemetryError
  io : String → TelemetryError
  invalid_utf8 : TelemetryError
  type_mismatch : ℕ → ℕ → TelemetryError
  invalid_link_id : String → TelemetryError
  packet_too_large : String → TelemetryError

-- `TelemetryResult<A>`.
pub data Result {ℓ} (A : Type ℓ) : Type ℓ where
  ok : A → Result A
  err : TelemetryError → Result A

infixl 5 ◌>>=◌
abbrev pub ◌>>=◌ {ℓ κ} : {A : Type ℓ} {B : Type κ} → Result A → (A → Result B) → Result B
ok a >>= f = f a
err e >>= f = err e

pub ok-injective {ℓ} : {A : Type ℓ} {x y : A} → ok x ≡ ok y → x ≡ y
ok-injective e = cc
