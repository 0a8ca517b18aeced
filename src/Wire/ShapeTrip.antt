-- ===== src/Wire/ShapeTrip.antt =====
-- The payload shape of src/wire_format.rs is read back as it was written.
use sedsnet.Wire.Parses.{map-Parses, skip-Parses, pure-Parses, bind-Parses, Parses}
use sedsnet.Errors.{TelemetryError}
use sedsnet.Wire.Reader.{has_bit, bit_if}
use sedsnet.Base.{
  leb, if_ind, suc, zero, none, length, Bool, false, true, ap, usize_max, arith, Option, ℕ, ◌∙◌,
  ◌%◌, ◌/◌, ◌*◌, ◌≤◌, ◌+◌, ◌≡◌, refl, [], some,
}
use sedsnet.Wire.Contract.{shape_size}
use sedsnet.Varint.Codec.{size_loop, uleb128_size}
use sedsnet.Wire.Bytes.{length-write_uleb128, read_uleb128-Parses, read_byte-Parses}
use sedsnet.Wire.Shape.{
  shape_count, message_type, is_static, read_shape_count, data_type, boolean, text, binary, no_data,
  informational, error, warning, int128, int64, int32, int16, int8, uint128, uint64, uint32, uint16,
  shape_byte, uint8, float32, float64, or_fail, dynamic, MessageDataType, MessageClass, static,
  message_class_code, write_wire_shape, message_data_type_code, message_class_from_code,
  MessageElement, decode_wire_shape, message_data_type_from_code,
}

-- Every code stands for its type, and the codes fit their bits.
data_type_code-Inverts :
    (dt : MessageDataType)
    → (message_data_type_from_code (message_data_type_code dt) ≡ some dt)
      × (message_data_type_code dt ≤ 15)
unfolding message_data_type_from_code message_data_type_code
data_type_code-Inverts float64 = (refl, omega arith)
data_type_code-Inverts float32 = (refl, omega arith)
data_type_code-Inverts uint8 = (refl, omega arith)
data_type_code-Inverts uint16 = (refl, omega arith)
data_type_code-Inverts uint32 = (refl, omega arith)
data_type_code-Inverts uint64 = (refl, omega arith)
data_type_code-Inverts uint128 = (refl, omega arith)
data_type_code-Inverts int8 = (refl, omega arith)
data_type_code-Inverts int16 = (refl, omega arith)
data_type_code-Inverts int32 = (refl, omega arith)
data_type_code-Inverts int64 = (refl, omega arith)
data_type_code-Inverts int128 = (refl, omega arith)
data_type_code-Inverts boolean = (refl, omega arith)
data_type_code-Inverts text = (refl, omega arith)
data_type_code-Inverts binary = (refl, omega arith)
data_type_code-Inverts no_data = (refl, omega arith)

class_code-Inverts :
    (class : MessageClass)
    → (message_class_from_code (message_class_code class) ≡ some class)
      × (message_class_code class ≤ 2)
unfolding message_class_from_code message_class_code
class_code-Inverts informational = (refl, omega arith)
class_code-Inverts error = (refl, omega arith)
class_code-Inverts warning = (refl, omega arith)

abbrev pub FitsShape : MessageElement → Type 0
FitsShape (static count dt class) = count ≤ usize_max
FitsShape (dynamic dt class) = Unit

pub or_fail-Parses :
    {A : Type 0} (e : TelemetryError) (o : Option A) (a : A)
    → o ≡ some a
    → Parses (or_fail e o) [] a
or_fail-Parses e o a h = rw h (pure-Parses a)

packed_bits :
    (d c : ℕ) (b : Bool)
    → d ≤ 15
    → c ≤ 2
    → ((d + c * 16 + bit_if b 64) % 16 ≡ d)
      × ((d + c * 16 + bit_if b 64) / 16 % 4 ≡ c)
      × (has_bit (d + c * 16 + bit_if b 64) 64 ≡ b)
packed_bits d c true p q = (omega arith, omega arith, ground arith)
packed_bits d c false p q = (omega arith, omega arith, ground arith)

read_shape_count-Parses :
    (shape : MessageElement)
    → FitsShape shape
    → Parses
        (read_shape_count (is_static shape) (data_type shape) (message_type shape))
        (shape_count shape)
        shape
read_shape_count-Parses (static count dt class) h = map-Parses _ (read_uleb128-Parses count h)
read_shape_count-Parses (dynamic dt class) h = pure-Parses (dynamic dt class)

pub decode_wire_shape-Parses :
    (shape : MessageElement)
    → FitsShape shape
    → Parses decode_wire_shape (write_wire_shape shape) shape
unfolding decode_wire_shape write_wire_shape
decode_wire_shape-Parses shape h =
    let dt = data_type shape in
    let class = message_type shape in
    let (dt_back, dt_small) = data_type_code-Inverts dt in
    let (class_back, class_small) = class_code-Inverts class in
    let (low, mid, high) =
      packed_bits (message_data_type_code dt) (message_class_code class) (is_static shape) dt_small
        class_small in
    bind-Parses _ (read_byte-Parses (shape_byte shape)) (
      skip-Parses _ (or_fail-Parses _ _ dt (ap message_data_type_from_code low ∙ dt_back)) (
        skip-Parses _ (or_fail-Parses _ _ class (ap message_class_from_code mid ∙ class_back))
          (rw high (read_shape_count-Parses shape h))))

pub length-write_wire_shape :
    (shape : MessageElement)
    → FitsShape shape
    → length (write_wire_shape shape) ≡ shape_size (some shape)
unfolding write_wire_shape
length-write_wire_shape (static count dt class) h = omega (arith, length-write_uleb128 count h)
length-write_wire_shape (dynamic dt class) h = refl

size_loop_bound : (n v : ℕ) → size_loop n v ≤ suc n
unfolding size_loop
size_loop_bound zero v = omega arith
size_loop_bound (suc n) v =
    if_ind (λ r. r ≤ suc (suc n)) (leb 128 v) (λ t. omega (arith, size_loop_bound n (v / 128)))
      (λ f. omega arith)

pub uleb128_size_bound : (v : ℕ) → uleb128_size v ≤ 10
unfolding uleb128_size
uleb128_size_bound v = size_loop_bound 9 v

pub shape_size_bound : (shape : Option MessageElement) → shape_size shape ≤ 11
shape_size_bound none = omega arith
shape_size_bound (some (static count dt class)) = omega (arith, uleb128_size_bound count)
shape_size_bound (some (dynamic dt class)) = omega arith
