-- ===== src/ErrorCodes/Tests.antt =====
-- Tests of the error codes.
use sedsnet.ErrorCodes.{
  try_from_i32-to_error_code, is_generic, io, to_error_code, minus, to_i32, try_from_i32,
}
use sedsnet.Base.{if◌then◌else◌, ◌≡◌, refl, some, none}

-- The code of a generic error is not accepted, and that of a failed device is.
generic_refused : try_from_i32 (minus 2) ≡ none
unfolding try_from_i32
generic_refused = refl

try_from_i32-to_error_code_example :
    try_from_i32 (to_i32 (to_error_code (io "busy")))
    ≡ (if is_generic (to_error_code (io "busy")) then none else some (to_error_code (io "busy")))
try_from_i32-to_error_code_example = try_from_i32-to_error_code (io "busy")
