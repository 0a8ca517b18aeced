-- ===== src/Wire/Shape.antt =====
-- The shape of a payload, src/lib.rs, its codes, src/config.rs, and its form on the wire,
-- src/wire_format.rs. A count is a `usize` of 64 bits, so that its conversions to and from `u64` do not
-- fail.
use sedsnet.Wire.Reader.{bit_if, ◌>>=◌, read_uleb128, has_bit, pure, fail, read_byte, Parser}
use sedsnet.Base.{
  Bool, false, true, get_elem?, Option, ℕ, List, if◌then◌else◌, ◌%◌, ◌/◌, ◌*◌, ◌++◌, ◌+◌, ◌∷◌, [],
  some, none,
}
use sedsnet.Errors.{unpack, TelemetryError}
use sedsnet.Varint.Codec.{write_uleb128}

pub data MessageDataType : Type 0 where
  float64 float32 uint8 uint16 uint32 uint64 uint128 int8 : MessageDataType
  int16 int32 int64 int128 boolean text binary no_data : MessageDataType

pub data MessageClass : Type 0 where
  informational error warning : MessageClass

pub data MessageElement : Type 0 where
  static : ℕ → MessageDataType → MessageClass → MessageElement
  dynamic : MessageDataType → MessageClass → MessageElement

abbrev pub data_type : MessageElement → MessageDataType
data_type (static count dt class) = dt
data_type (dynamic dt class) = dt

abbrev pub message_type : MessageElement → MessageClass
message_type (static count dt class) = class
message_type (dynamic dt class) = class

unfoldable pub message_data_type_code : MessageDataType → ℕ
message_data_type_code float64 = 0
message_data_type_code float32 = 1
message_data_type_code uint8 = 2
message_data_type_code uint16 = 3
message_data_type_code uint32 = 4
message_data_type_code uint64 = 5
message_data_type_code uint128 = 6
message_data_type_code int8 = 7
message_data_type_code int16 = 8
message_data_type_code int32 = 9
message_data_type_code int64 = 10
message_data_type_code int128 = 11
message_data_type_code boolean = 12
message_data_type_code text = 13
message_data_type_code binary = 14
message_data_type_code no_data = 15

-- The arms of the match, by the code.
abbrev pub types_by_code : List MessageDataType
types_by_code =
    float64 ∷ float32 ∷ uint8 ∷ uint16 ∷ uint32 ∷ uint64 ∷ uint128 ∷ int8 ∷ int16 ∷ int32 ∷ int64
    ∷ int128 ∷ boolean ∷ text ∷ binary ∷ no_data ∷ []

unfoldable pub message_data_type_from_code : ℕ → Option MessageDataType
message_data_type_from_code code = get_elem? types_by_code code

unfoldable pub message_class_code : MessageClass → ℕ
message_class_code informational = 0
message_class_code error = 1
message_class_code warning = 2

abbrev pub classes_by_code : List MessageClass
classes_by_code = informational ∷ error ∷ warning ∷ []

unfoldable pub message_class_from_code : ℕ → Option MessageClass
message_class_from_code code = get_elem? classes_by_code code

abbrev pub or_fail : {A : Type 0} → TelemetryError → Option A → Parser A
or_fail e none = fail e
or_fail e (some a) = pure a

abbrev pub is_static : MessageElement → Bool
is_static (static count dt class) = true
is_static (dynamic dt class) = false

abbrev pub shape_byte : MessageElement → ℕ
shape_byte shape =
    message_data_type_code (data_type shape)
    + message_class_code (message_type shape) * 16
    + bit_if (is_static shape) 64

abbrev pub shape_count : MessageElement → List ℕ
shape_count (static count dt class) = write_uleb128 count
shape_count (dynamic dt class) = []

unfoldable pub write_wire_shape : MessageElement → List ℕ
write_wire_shape shape = (shape_byte shape ∷ []) ++ shape_count shape

abbrev pub read_shape_count : Bool → MessageDataType → MessageClass → Parser MessageElement
read_shape_count counted dt class =
    if counted
    then (read_uleb128 >>= λ count. pure (static count dt class))
    else pure (dynamic dt class)

unfoldable pub decode_wire_shape : Parser MessageElement
decode_wire_shape = do
  packed ← read_byte
  dt ← or_fail (unpack "wire shape type") (message_data_type_from_code (packed % 16))
  class ← or_fail (unpack "wire shape class") (message_class_from_code (packed / 16 % 4))
  read_shape_count (has_bit packed 64) dt class
