-- ===== src/Wire/Receiver.antt =====
-- What the unpacking of packets asks other parts for, the endpoints of a frame in src/wire_format.rs,
-- and the packet that is made, src/packet.rs.
use sedsnet.Wire.Sender.{AddressBook}
use sedsnet.Base.{
  Name, ◌^◌, not, length, ltb, if◌then◌else◌, ◌==◌, ◌&&◌, ◌%◌, ◌*◌, ◌∷◌, [], List, ℕ, Bool, Option,
  none, some, true,
}
use sedsnet.Wire.Shape.{
  no_data, binary, text, boolean, int128, int64, int32, int16, int8, uint128, uint64, uint32,
  uint16, uint8, dynamic, float32, static, float64, MessageElement, MessageDataType,
}
use sedsnet.Errors.{ok, err, unpack, invalid_type, empty_endpoints, size_mismatch, Result}
use sedsnet.Wire.Contract.{WireContract}
use sedsnet.Wire.Pack.{Packet}
use sedsnet.Wire.Endpoints.{
  unique_sorted_endpoints, bitmap_bytes, endpoint_list_iter, read_endpoint_list,
}
use sedsnet.Wire.Envelope.{words_of, all_exist, bitmap_endpoints, ambiguous, count_mismatch}
use sedsnet.Wire.Reader.{Parser, ◌>>=◌, ◌>>◌, pure, fail, guard, remaining, read_bytes}

-- What the unpacking asks other parts for: the address book, the schema, the decompression, the check of payloads whose
-- size is not fixed, and the admission of memory, with its classes of protected frames.
pub record Receiver : Type 0 where
  pub address_book : AddressBook
  pub data_type_exists : ℕ → Bool
  pub endpoint_exists : ℕ → Bool
  pub endpoints_of : ℕ → List ℕ
  pub element_of : ℕ → MessageElement
  pub static_string_length : ℕ
  pub static_hex_length : ℕ
  pub validate_dynamic : MessageElement → List ℕ → Result (Unit {0})
  pub decompress : List ℕ → ℕ → Result (List ℕ)
  pub supports_work_kinds : Bool
  pub protected_discovery_request_shape : ℕ → Bool → Bool → ℕ → Option MessageElement → Bool
  pub protected_control_shape : ℕ → ℕ → ℕ → Option MessageElement → Bool → Bool → Bool
  pub check_small_protected_decode : ℕ → Result (Unit {0})
  pub check : ℕ → ℕ → Result (Unit {0})

abbrev pub lift : {A : Type 0} → Result A → Parser A
lift (err e) r = err e
lift (ok a) r = ok (a, r)

unfoldable pub remaining_bytes : Parser ℕ
remaining_bytes r = ok (remaining r, r)

unfoldable pub data_type_size : Receiver → MessageDataType → ℕ
data_type_size u float64 = 8
data_type_size u float32 = 4
data_type_size u uint8 = 1
data_type_size u uint16 = 2
data_type_size u uint32 = 4
data_type_size u uint64 = 8
data_type_size u uint128 = 16
data_type_size u int8 = 1
data_type_size u int16 = 2
data_type_size u int32 = 4
data_type_size u int64 = 8
data_type_size u int128 = 16
data_type_size u boolean = 1
data_type_size u text = u.static_string_length
data_type_size u binary = u.static_hex_length
data_type_size u no_data = 0

unfoldable pub validate_payload_against_element :
    Receiver → MessageElement → List ℕ → Result (Unit {0})
unfolding data_type_size
validate_payload_against_element u (static count dt class) payload =
    let need = count * data_type_size u dt % 2 ^ 64 in
    if not (length payload == need) then err (size_mismatch need (length payload)) else ok tt
validate_payload_against_element u (dynamic dt class) payload =
    u.validate_dynamic (dynamic dt class) payload

unfoldable pub endpoint_arc_from_iter : ℕ → List ℕ → Result (List ℕ)
endpoint_arc_from_iter count eps = if length eps == count then ok eps else err count_mismatch

-- `windows(2).all(|pair| pair[0] < pair[1])`
abbrev pub ascends : List ℕ → Bool
ascends [] = true
ascends (x ∷ []) = true
ascends (x ∷ y ∷ xs) = ltb x y && ascends (y ∷ xs)

unfoldable pub schema_endpoints_from_type : Receiver → ℕ → ℕ → Result (List ℕ)
unfolding endpoint_arc_from_iter
schema_endpoints_from_type u ty nep =
    let schema = u.endpoints_of ty in
    if (length schema == nep) && ascends schema && all_exist u.endpoint_exists schema
    then ok schema
    else endpoint_arc_from_iter nep (unique_sorted_endpoints schema)

unfoldable pub expand_endpoint_bitmap : Receiver → List ℕ → Result (List ℕ)
expand_endpoint_bitmap u bm =
    let eps = bitmap_endpoints 0 (words_of 4 bm) in
    if not (length bm == bitmap_bytes)
    then err (unpack "bad endpoint bitmap size")
    else if all_exist u.endpoint_exists eps
    then ok eps
    else err (unpack "bad endpoint bit set")

-- A list that is the schema's own is shared with the schema.
unfoldable pub endpoints_from_wire_or_schema : Receiver → Bool → Bool → ℕ → ℕ → Parser (List ℕ)
unfolding schema_endpoints_from_type expand_endpoint_bitmap endpoint_arc_from_iter
endpoints_from_wire_or_schema u bitmap_present list_present ty nep =
    if list_present
    then (if bitmap_present then fail ambiguous else do
      bytes ← read_endpoint_list nep
      lift (endpoint_arc_from_iter nep (endpoint_list_iter bytes)))
    else if bitmap_present
    then (do
      bm ← read_bytes bitmap_bytes
      endpoints ← lift (expand_endpoint_bitmap u bm)
      guard (length endpoints == nep) count_mismatch
      pure endpoints)
    else if u.data_type_exists ty
    then lift (schema_endpoints_from_type u ty nep)
    else fail invalid_type

abbrev pub owners_of : WireContract → List ℕ
owners_of c = elim c.target_senders [ none ↦ [] | some owners ↦ owners ]

unfoldable pub new_with_owned_wire_contract :
    Receiver → ℕ → List ℕ → Name → ℕ → ℕ → List ℕ → WireContract → Result Packet
unfolding validate_payload_against_element
new_with_owned_wire_contract u ty eps sender timestamp nonce payload contract =
    let element : MessageElement = elim contract.shape [
      | none ↦ u.element_of ty
      | some shape ↦ shape
    ] in
    if length eps == 0
    then err empty_endpoints
    else elim (validate_payload_against_element u element payload) [
      | err e ↦ err e
      | ok done ↦ ok (record {
        data_type = ty;
        data_size = length payload;
        timestamp = timestamp;
        nonce = nonce;
        sender = sender;
        endpoints = eps;
        payload = payload;
        wire_shape = contract.shape;
        wire_target_senders = owners_of contract;
      })
    ]
