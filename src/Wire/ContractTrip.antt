-- ===== src/Wire/ContractTrip.antt =====
-- The frozen delivery contract of src/wire_format.rs is read back as it was written.
use sedsnet.Wire.ShapeTrip.{
  uleb128_size_bound, shape_size_bound, decode_wire_shape-Parses, FitsShape,
  length-write_wire_shape,
}
use sedsnet.Wire.Parses.{last-Parses, within-Parses, map-Parses, pure-Parses, bind-Parses, Parses}
use sedsnet.Errors.{unpack}
use sedsnet.Wire.Reader.{within, pure, to_le_bytes, has_bit, remaining, Parser, ◌>>=◌, ◌>>◌}
use sedsnet.Base.{
  if_ind, ◌==◌, is_some, if◌then◌else◌, none, u64_max, ltb, All, length-append, length, List, Bool,
  ◌-◌, ◌++◌, false, true, ◌∷◌, usize_max, arith, Option, ℕ, ◌/◌, ◌*◌, ◌≤◌, ◌+◌, ◌≡◌, refl, [], some,
}
use sedsnet.Wire.Contract.{
  decode_wire_contract, wire_contract_size, write_targets_if, write_shape_if, WireContract,
  contract_flags, not_empty, read_contract, write_wire_contract, read_targets, shape_size,
  check_target_count, read_hashes, write_hashes,
}
use sedsnet.Varint.Codec.{write_uleb128, uleb128_size}
use sedsnet.Wire.Bytes.{
  length-to_le_bytes, length-write_uleb128, read_bytes-Parses, from_le_bytes-to_le_bytes,
  read_uleb128-Parses, read_byte-Parses,
}
use sedsnet.Wire.Shape.{MessageElement, decode_wire_shape}

-- Hashes are `u64`.
abbrev pub AreWords : List ℕ → Type 0
AreWords hs = All (λ h. h ≤ u64_max) hs

pub length-write_hashes : (hs : List ℕ) → length (write_hashes hs) ≡ length hs * 8
unfolding write_hashes
length-write_hashes [] = refl
length-write_hashes (h ∷ hs) = omega (
  arith,
  length-append (to_le_bytes 8 h) (write_hashes hs),
  length-to_le_bytes 8 h,
  length-write_hashes hs,
)

read_hashes-Parses :
    (hs : List ℕ) → AreWords hs → Parses (read_hashes (length hs)) (write_hashes hs) hs
unfolding read_hashes write_hashes
read_hashes-Parses [] w = pure-Parses []
read_hashes-Parses (h ∷ hs) w =
    let back = from_le_bytes-to_le_bytes 8 h (omega (arith, w.0)) in
    bind-Parses _ (read_bytes-Parses 8 (to_le_bytes 8 h) (length-to_le_bytes 8 h))
      (rw back (map-Parses (λ rest. h ∷ rest) (read_hashes-Parses hs w.1)))

-- The check passes where the bytes of the hashes follow.
check_target_count-Parses :
    {B : Type 0} (count : ℕ) (q : Parser B) (ys : List ℕ) (b : B)
    → count * 8 ≤ length ys
    → Parses q ys b
    → Parses (check_target_count count >> q) ys b
unfolding check_target_count remaining
check_target_count-Parses count q ys b room hq = record {
  reads = λ pre post.
      let enough : ltb ((length (pre ++ (ys ++ post)) - length pre) / 8) count ≡ false =
        ground (arith, length-append pre (ys ++ post), length-append ys post) in
      rw (◌>>=◌, enough) (hq.reads pre post);
}

abbrev pub targets_of : List ℕ → Option (List ℕ)
targets_of hs = if not_empty hs then some hs else none

abbrev pub read_targets_if : Bool → Parser (Option (List ℕ))
read_targets_if present = if present then read_targets else pure none

read_targets-Parses :
    (hs : List ℕ)
    → length hs ≤ usize_max
    → AreWords hs
    → Parses (read_targets_if (not_empty hs)) (write_targets_if hs) (targets_of hs)
unfolding read_targets
read_targets-Parses [] h w = pure-Parses none
read_targets-Parses (x ∷ xs) h w =
    let hs = x ∷ xs in
    bind-Parses _ (read_uleb128-Parses (length hs) h) (
      check_target_count-Parses (length hs) _ (write_hashes hs) _
        (omega (arith, length-write_hashes hs))
        (let some_left : (length hs == 0) ≡ false = ground arith in
          rw some_left (map-Parses some (read_hashes-Parses hs w))))

abbrev pub FitsShapeIf : Option MessageElement → Type 0
FitsShapeIf none = Unit
FitsShapeIf (some shape) = FitsShape shape

abbrev pub read_shape_if : Bool → Parser (Option MessageElement)
read_shape_if present = if present then (decode_wire_shape >>= λ s. pure (some s)) else pure none

pub read_shape-Parses :
    (shape : Option MessageElement)
    → FitsShapeIf shape
    → Parses (read_shape_if (is_some shape)) (write_shape_if shape) shape
read_shape-Parses none h = pure-Parses none
read_shape-Parses (some shape) h = map-Parses some (decode_wire_shape-Parses shape h)

pub contract_bits :
    (a b c : Bool)
    → (has_bit (contract_flags a b c) 1 ≡ a)
      × (has_bit (contract_flags a b c) 2 ≡ b)
      × (has_bit (contract_flags a b c) 4 ≡ c)
contract_bits true true true = (refl, refl, refl)
contract_bits true true false = (refl, refl, refl)
contract_bits true false true = (refl, refl, refl)
contract_bits true false false = (refl, refl, refl)
contract_bits false true true = (refl, refl, refl)
contract_bits false true false = (refl, refl, refl)
contract_bits false false true = (refl, refl, refl)
contract_bits false false false = (refl, refl, refl)

-- What a contract is made from is of the types of the source.
pub record FitsContract (shape : Option MessageElement) (hs : List ℕ) : Type 0 where
  pub shape_fits : FitsShapeIf shape
  pub count_fits : length hs * 8 + 64 ≤ usize_max
  pub words : AreWords hs

-- The contract that is read back: no targets are as an empty list of them.
abbrev pub contract_of : Option MessageElement → List ℕ → Bool → WireContract
contract_of shape hs reliable = record {
  shape = shape;
  target_senders = targets_of hs;
  has_reliable_header = reliable;
}

read_contract-Parses :
    (shape : Option MessageElement) (hs : List ℕ) (reliable : Bool)
    → FitsContract shape hs
    → Parses read_contract (write_wire_contract shape hs reliable) (contract_of shape hs reliable)
unfolding read_contract write_wire_contract
read_contract-Parses shape hs reliable v =
    let (targets, shaped, with_header) = contract_bits (not_empty hs) (is_some shape) reliable in
    bind-Parses _ (read_byte-Parses (contract_flags (not_empty hs) (is_some shape) reliable)) (
      rw (targets, shaped, with_header)
        (bind-Parses _ (read_shape-Parses shape v.shape_fits)
          (map-Parses _ (read_targets-Parses hs (omega (arith, v.count_fits)) v.words))))

pub length-write_wire_contract :
    (shape : Option MessageElement) (hs : List ℕ) (reliable : Bool)
    → FitsContract shape hs
    → length (write_wire_contract shape hs reliable) ≡ wire_contract_size shape hs
unfolding write_wire_contract wire_contract_size
length-write_wire_contract shape hs reliable v = omega (
  arith,
  length-append (write_shape_if shape) (write_targets_if hs),
  shape_len shape v.shape_fits,
  targets_len hs (omega (arith, v.count_fits)),
)
  where
    shape_len :
        (s : Option MessageElement) → FitsShapeIf s → length (write_shape_if s) ≡ shape_size s
    shape_len none h = refl
    shape_len (some s) h = length-write_wire_shape s h

    targets_len :
        (l : List ℕ)
        → length l ≤ usize_max
        → length (write_targets_if l)
          ≡ (if not_empty l then uleb128_size (length l) + length l * 8 else 0)
    targets_len [] h = refl
    targets_len (x ∷ xs) h = omega (
      arith,
      length-append (write_uleb128 (length (x ∷ xs))) (write_hashes (x ∷ xs)),
      length-write_uleb128 (length (x ∷ xs)) h,
      length-write_hashes (x ∷ xs),
    )

pub wire_contract_size_bound :
    (shape : Option MessageElement) (hs : List ℕ) → wire_contract_size shape hs ≤ length hs * 8 + 22
unfolding wire_contract_size
wire_contract_size_bound shape hs =
    if_ind (λ r. 1 + shape_size shape + r ≤ length hs * 8 + 22) (not_empty hs)
      (λ t. omega (arith, shape_size_bound shape, uleb128_size_bound (length hs)))
      (λ f. omega (arith, shape_size_bound shape))

-- A contract is read back from behind its length, whatever stands around it, with the shape, the
-- targets and the reliable bit that it was made from; an empty list of targets is none.
pub decode_wire_contract-Parses :
    (shape : Option MessageElement) (hs : List ℕ) (reliable : Bool)
    → FitsContract shape hs
    → Parses
        (decode_wire_contract true)
        (write_uleb128 (wire_contract_size shape hs) ++ write_wire_contract shape hs reliable)
        (contract_of shape hs reliable)
unfolding decode_wire_contract
decode_wire_contract-Parses shape hs reliable v =
    let small = wire_contract_size_bound shape hs in
    bind-Parses _
      (read_uleb128-Parses (wire_contract_size shape hs) (omega (arith, small, v.count_fits)))
      (last-Parses (λ bs. within (unpack "wire contract trailing bytes") bs read_contract)
        (read_bytes-Parses _ (write_wire_contract shape hs reliable)
          (length-write_wire_contract shape hs reliable v))
        (within-Parses _ (read_contract-Parses shape hs reliable v)))
