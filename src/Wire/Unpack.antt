-- ===== src/Wire/Unpack.antt =====
-- `unpack_packet` of src/wire_format.rs in the build without seals, with the packet that it makes,
-- src/packet.rs.
use sedsnet.Wire.Sender.{sender_name_for_address}
use sedsnet.Wire.Receiver.{
  owners_of, new_with_owned_wire_contract, lift, Receiver, remaining_bytes,
  endpoints_from_wire_or_schema,
}
use sedsnet.Errors.{ok, err, unpack, invalid_type, Result}
use sedsnet.Base.{
  is_some, sat_mul, ◌^◌, usize_max, not, sat_add, leb, length, if◌then◌else◌, ◌==◌, ◌||◌, ◌&&◌, ◌%◌,
  ◌+◌, false, ◌∷◌, [], List, ℕ, Bool, true,
}
use sedsnet.Wire.Contract.{decode_wire_contract, WireContract}
use sedsnet.Wire.Rewrite.{short_buffer, check_room}
use sedsnet.Wire.Pack.{eq_list, reliable_partial_ack, reliable_ack, Packet}
use sedsnet.Wire.Endpoints.{bitmap_bytes}
use sedsnet.Wire.Reliable.{ack_only, read_reliable_header_encoded}
use sedsnet.Wire.Envelope.{source_too_large, verify_crc32}
use sedsnet.Wire.Reader.{
  Parser, ◌>>=◌, ◌>>◌, pure, guard, has_bit, bit_if, reader_of, read_byte, read_bytes, read_uleb128,
  to_u32,
}

-- Whether there is a reliable header, which must not be a mere acknowledgement.
unfoldable pub read_data_header : Bool → Bool → Parser Bool
read_data_header compact present =
    if present
    then (do
      hdr ← read_reliable_header_encoded compact
      guard (not (ack_only hdr.flags)) (unpack "reliable control frame")
      pure true)
    else pure false

abbrev pub discovery : ℕ
discovery = 201

abbrev pub is_small_ack : ℕ → ℕ → Bool → Bool
is_small_ack ty dsz compressed =
    ((ty == reliable_ack) || (ty == reliable_partial_ack)) && leb dsz 32 && not compressed

-- Whether the payload may use the reserve for small protected frames. The last number is the bytes that
-- are left.
unfoldable pub uses_reserve :
    Receiver → Bool → ℕ → Bool → ℕ → ℕ → ℕ → List ℕ → WireContract → Bool → ℕ → Bool
uses_reserve u managed frame_len compressed ty dsz nep eps contract has_header left =
    let owners = length (owners_of contract) in
    u.supports_work_kinds
    && not (is_small_ack ty dsz compressed)
    && leb frame_len 128
    && not compressed
    && (u.protected_discovery_request_shape ty ((dsz == 0) && (left == 0))
          (eq_list eps (discovery ∷ [])) owners contract.shape
        || u.protected_control_shape ty nep owners contract.shape has_header managed)

-- The memory for the payload is admitted before it is allocated.
unfoldable pub admit_payload :
    Receiver → Bool → ℕ → Bool → ℕ → ℕ → ℕ → List ℕ → WireContract → Bool → ℕ → Result (Unit {0})
unfolding uses_reserve
admit_payload u managed frame_len compressed ty dsz nep eps contract has_header left =
    let copies = if compressed then 3 else 1 in
    if uses_reserve u managed frame_len compressed ty dsz nep eps contract has_header left
    then u.check_small_protected_decode frame_len
    else u.check
        (if is_small_ack ty dsz compressed
          then 512
          else sat_add usize_max (sat_mul usize_max dsz copies) 512)
        (sat_add usize_max dsz 32)

abbrev pub read_compressed : Receiver → ℕ → ℕ → Parser (List ℕ)
read_compressed u dsz n = do
  bytes ← read_bytes n
  payload ← lift (u.decompress bytes dsz)
  granted ← lift (u.check (sat_add usize_max dsz 512) (sat_add usize_max dsz 32))
  pure payload

-- A compressed payload has all the bytes that are left.
unfoldable pub read_payload : Receiver → Bool → ℕ → Parser (List ℕ)
unfolding remaining_bytes
read_payload u compressed dsz =
    if compressed then (remaining_bytes >>= read_compressed u dsz) else read_bytes dsz

abbrev pub admitted_payload :
    Receiver → Bool → ℕ → Bool → ℕ → ℕ → ℕ → List ℕ → WireContract → Bool → ℕ → Parser (List ℕ)
admitted_payload u managed frame_len compressed ty dsz nep eps contract has_header left = do
  granted ←
      lift (admit_payload u managed frame_len compressed ty dsz nep eps contract has_header left)
  read_payload u compressed dsz

-- What is behind the header fields, with the values read from them.
-- The name of the sender, which the source looks up as soon as it has read the address, is looked up
-- where it is used; the lookup cannot fail.
unfoldable pub unpack_rest : Receiver → Bool → ℕ → ℕ → ℕ → ℕ → ℕ → ℕ → ℕ → ℕ → Parser Packet
unfolding endpoints_from_wire_or_schema read_data_header admit_payload read_payload
    new_with_owned_wire_contract
unpack_rest u managed frame_len flags nep ty dsz timestamp nonce source = do
  check_room
      ((bit_if (has_bit flags 32) bitmap_bytes + (if has_bit flags 1 then 1 else dsz)) % 2 ^ 64)
      short_buffer
  eps ← endpoints_from_wire_or_schema u (has_bit flags 32) (has_bit flags 128) ty nep
  contract ← decode_wire_contract (has_bit flags 4)
  guard (u.data_type_exists ty || is_some contract.shape) invalid_type
  has_header ← read_data_header (has_bit flags 64) (has_bit flags 2 || contract.has_reliable_header)
  payload ←
      remaining_bytes
      >>= admitted_payload u managed frame_len (has_bit flags 1) ty dsz nep eps contract has_header
  lift (
      new_with_owned_wire_contract u ty eps (sender_name_for_address u.address_book source)
        timestamp nonce payload contract)

unfoldable pub read_packet_nonce : Parser ℕ
read_packet_nonce = do
  nonce ← read_uleb128
  guard (leb nonce 0xffff) (unpack "packet nonce too large")
  pure nonce

unfoldable pub unpack_body : Receiver → Bool → ℕ → Parser Packet
unfolding unpack_rest
unpack_body u managed frame_len = do
  flags ← read_byte
  guard (not (has_bit flags 16)) (unpack "e2e crypto unsupported")
  nep ← read_byte
  ty_v ← read_uleb128
  dsz ← read_uleb128
  timestamp ← read_uleb128
  nonce ← if has_bit flags 8 then read_packet_nonce else pure 0
  source ← read_uleb128 >>= to_u32 source_too_large
  ty ← to_u32 (unpack "type too large") ty_v
  unpack_rest u managed frame_len flags nep ty dsz timestamp nonce source

unfoldable pub unpack_packet_with_role : (List ℕ → ℕ) → Receiver → Bool → List ℕ → Result Packet
unfolding unpack_body
unpack_packet_with_role crc32 u managed buf = elim (verify_crc32 crc32 buf) [
  | err e ↦ err e
  | ok body ↦
      if length body == 0
      then err (unpack "short prelude")
      else elim (unpack_body u managed (length buf) (reader_of body)) [
        | err e ↦ err e
        | ok (packet, r) ↦ ok packet
      ]
]
