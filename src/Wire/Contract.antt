-- ===== src/Wire/Contract.antt =====
-- The frozen delivery contract of src/wire_format.rs.
use sedsnet.Wire.Shape.{decode_wire_shape, dynamic, static, write_wire_shape, MessageElement}
use sedsnet.Wire.Reader.{
  within, read_bytes, remaining, has_bit, read_uleb128, to_le_bytes, pure, read_byte, bit_if,
  Parser, from_le_bytes, ◌>>=◌, ◌>>◌,
}
use sedsnet.Base.{
  is_some, length, not, ltb, List, Option, ℕ, Bool, if◌then◌else◌, ◌==◌, ◌/◌, ◌*◌, ◌++◌, ◌+◌, false,
  true, suc, zero, ◌∷◌, [], some, none,
}
use sedsnet.Varint.Codec.{uleb128_size, write_uleb128}
use sedsnet.Errors.{unpack, TelemetryError, err, ok}

pub record WireContract : Type 0 where
  pub shape : Option MessageElement
  pub target_senders : Option (List ℕ)
  pub has_reliable_header : Bool

abbrev pub no_contract : WireContract
no_contract = record { shape = none; target_senders = none; has_reliable_header = false }

abbrev pub not_empty : {A : Type 0} → List A → Bool
not_empty [] = false
not_empty (x ∷ xs) = true

unfoldable pub write_hashes : List ℕ → List ℕ
write_hashes [] = []
write_hashes (h ∷ hs) = to_le_bytes 8 h ++ write_hashes hs

abbrev pub write_shape_if : Option MessageElement → List ℕ
write_shape_if none = []
write_shape_if (some shape) = write_wire_shape shape

abbrev pub write_targets_if : List ℕ → List ℕ
write_targets_if targets =
    if not_empty targets then (write_uleb128 (length targets) ++ write_hashes targets) else []

abbrev pub contract_flags : Bool → Bool → Bool → ℕ
contract_flags targets shape reliable = bit_if targets 1 + bit_if shape 2 + bit_if reliable 4

unfoldable pub write_wire_contract : Option MessageElement → List ℕ → Bool → List ℕ
unfolding write_hashes
write_wire_contract shape target_senders has_reliable_header =
    (contract_flags (not_empty target_senders) (is_some shape) has_reliable_header ∷ [])
    ++ (write_shape_if shape ++ write_targets_if target_senders)

abbrev pub shape_size : Option MessageElement → ℕ
shape_size none = 0
shape_size (some (static count dt class)) = 1 + uleb128_size count
shape_size (some (dynamic dt class)) = 1

unfoldable pub wire_contract_size : Option MessageElement → List ℕ → ℕ
wire_contract_size shape target_senders =
    1
    + shape_size shape
    + (if not_empty target_senders
        then uleb128_size (length target_senders) + length target_senders * 8
        else 0)

-- The slots of the target storage, filled one after the other.
unfoldable pub read_hashes : ℕ → Parser (List ℕ)
unfolding from_le_bytes
read_hashes zero = pure []
read_hashes (suc n) = do
  bytes ← read_bytes 8
  rest ← read_hashes n
  pure (from_le_bytes bytes ∷ rest)

abbrev pub target_count_error : TelemetryError
target_count_error = unpack "wire contract target count"

unfoldable pub check_target_count : ℕ → Parser (Unit {0})
check_target_count count r =
    if ltb (remaining r / 8) count then err target_count_error else ok (tt, r)

unfoldable pub read_targets : Parser (Option (List ℕ))
unfolding read_hashes check_target_count
read_targets = do
  count ← read_uleb128
  check_target_count count
  if count == 0 then pure none else (read_hashes count >>= λ targets. pure (some targets))

-- The part of the contract behind its length.
unfoldable pub read_contract : Parser WireContract
unfolding read_targets
read_contract = do
  flags ← read_byte
  shape ← if has_bit flags 2 then (decode_wire_shape >>= λ s. pure (some s)) else pure none
  target_senders ← if has_bit flags 1 then read_targets else pure none
  pure (record {
    shape = shape;
    target_senders = target_senders;
    has_reliable_header = has_bit flags 4;
  })

unfoldable pub decode_wire_contract : Bool → Parser WireContract
unfolding read_contract
decode_wire_contract has_contract = if not has_contract then pure no_contract else do
  contract_len ← read_uleb128
  contract_bytes ← read_bytes contract_len
  within (unpack "wire contract trailing bytes") contract_bytes read_contract
