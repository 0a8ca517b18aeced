-- ===== src/ErrorCodes.antt =====
-- The numeric codes of the errors, `TelemetryErrorCode` of src/lib.rs, which the FFI layers give out.
mod Tests
use sedsnet.Base.{
  none, false, true, not, Option, ltb_ℤ, negsuc, List, ℤ, ℕ, Bool, if◌then◌else◌, ◌||◌, ◌&&◌, ◌-◌,
  ◌≡◌, refl, ◌∷◌, [], some,
}
use sedsnet.Errors.{
  invalid_utf8, permission_denied, bad_arg, missing_payload, timestamp_invalid, empty_endpoints,
  size_mismatch_error, invalid_type, packet_too_large, invalid_link_id, type_mismatch, io, unpack,
  pack, handler_error, size_mismatch, generic_error, TelemetryError,
}

-- `repr(i32)`.
pub data TelemetryErrorCode : Type 0 where
  generic_code : TelemetryErrorCode
  invalid_type_code : TelemetryErrorCode
  size_mismatch_code : TelemetryErrorCode
  size_mismatch_error_code : TelemetryErrorCode
  empty_endpoints_code : TelemetryErrorCode
  timestamp_invalid_code : TelemetryErrorCode
  missing_payload_code : TelemetryErrorCode
  handler_error_code : TelemetryErrorCode
  bad_arg_code : TelemetryErrorCode
  permission_denied_code : TelemetryErrorCode
  pack_code : TelemetryErrorCode
  unpack_code : TelemetryErrorCode
  io_code : TelemetryErrorCode
  invalid_utf8_code : TelemetryErrorCode
  type_mismatch_code : TelemetryErrorCode
  invalid_link_id_code : TelemetryErrorCode
  packet_too_large_code : TelemetryErrorCode

-- `-n` for a positive n.
abbrev pub minus : ℕ → ℤ
minus n = negsuc (n - 1)

unfoldable pub to_i32 : TelemetryErrorCode → ℤ
to_i32 generic_code = minus 2
to_i32 invalid_type_code = minus 3
to_i32 size_mismatch_code = minus 4
to_i32 size_mismatch_error_code = minus 5
to_i32 empty_endpoints_code = minus 6
to_i32 timestamp_invalid_code = minus 7
to_i32 missing_payload_code = minus 8
to_i32 handler_error_code = minus 9
to_i32 bad_arg_code = minus 10
to_i32 permission_denied_code = minus 11
to_i32 pack_code = minus 12
to_i32 unpack_code = minus 13
to_i32 io_code = minus 14
to_i32 invalid_utf8_code = minus 15
to_i32 type_mismatch_code = minus 16
to_i32 invalid_link_id_code = minus 17
to_i32 packet_too_large_code = minus 18

unfoldable pub max_code : ℤ
unfolding to_i32
max_code = to_i32 invalid_type_code

unfoldable pub min_code : ℤ
unfolding to_i32
min_code = to_i32 packet_too_large_code

unfoldable pub to_error_code : TelemetryError → TelemetryErrorCode
to_error_code (generic_error what) = generic_code
to_error_code invalid_type = invalid_type_code
to_error_code (size_mismatch m n) = size_mismatch_code
to_error_code size_mismatch_error = size_mismatch_error_code
to_error_code empty_endpoints = empty_endpoints_code
to_error_code timestamp_invalid = timestamp_invalid_code
to_error_code missing_payload = missing_payload_code
to_error_code (handler_error what) = handler_error_code
to_error_code bad_arg = bad_arg_code
to_error_code permission_denied = permission_denied_code
to_error_code (pack what) = pack_code
to_error_code (unpack what) = unpack_code
to_error_code (io what) = io_code
to_error_code invalid_utf8 = invalid_utf8_code
to_error_code (type_mismatch m n) = type_mismatch_code
to_error_code (invalid_link_id what) = invalid_link_id_code
to_error_code (packet_too_large what) = packet_too_large_code

abbrev pub variants : List TelemetryErrorCode
variants =
    generic_code ∷ invalid_type_code ∷ size_mismatch_code ∷ size_mismatch_error_code
    ∷ empty_endpoints_code ∷ timestamp_invalid_code ∷ missing_payload_code ∷ handler_error_code
    ∷ bad_arg_code ∷ permission_denied_code ∷ pack_code ∷ unpack_code ∷ io_code ∷ invalid_utf8_code
    ∷ type_mismatch_code ∷ invalid_link_id_code ∷ packet_too_large_code ∷ []

-- The variant that has the bits of a number; `none` where the read would not be one.
unfoldable pub read_code : ℤ → List TelemetryErrorCode → Option TelemetryErrorCode
unfolding to_i32
read_code x [] = none
read_code x (c ∷ cs) =
    if not (ltb_ℤ x (to_i32 c)) && not (ltb_ℤ (to_i32 c) x) then some c else read_code x cs

-- `try_enum_from_i32`.
unfoldable pub try_from_i32 : ℤ → Option TelemetryErrorCode
unfolding read_code min_code max_code
try_from_i32 x = if ltb_ℤ x min_code || ltb_ℤ max_code x then none else read_code x variants

abbrev pub is_generic : TelemetryErrorCode → Bool
is_generic generic_code = true
is_generic c = false

-- The number of the code of an error converts back to the code, except that of a generic error, which
-- is above the largest that is accepted and converts to nothing.
pub try_from_i32-to_error_code :
    (e : TelemetryError)
    → try_from_i32 (to_i32 (to_error_code e))
      ≡ (if is_generic (to_error_code e) then none else some (to_error_code e))
unfolding try_from_i32 to_error_code
try_from_i32-to_error_code (generic_error what) = refl
try_from_i32-to_error_code invalid_type = refl
try_from_i32-to_error_code (size_mismatch m n) = refl
try_from_i32-to_error_code size_mismatch_error = refl
try_from_i32-to_error_code empty_endpoints = refl
try_from_i32-to_error_code timestamp_invalid = refl
try_from_i32-to_error_code missing_payload = refl
try_from_i32-to_error_code (handler_error what) = refl
try_from_i32-to_error_code bad_arg = refl
try_from_i32-to_error_code permission_denied = refl
try_from_i32-to_error_code (pack what) = refl
try_from_i32-to_error_code (unpack what) = refl
try_from_i32-to_error_code (io what) = refl
try_from_i32-to_error_code invalid_utf8 = refl
try_from_i32-to_error_code (type_mismatch m n) = refl
try_from_i32-to_error_code (invalid_link_id what) = refl
try_from_i32-to_error_code (packet_too_large what) = refl
