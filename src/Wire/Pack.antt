-- ===== src/Wire/Pack.antt =====
-- The packing of packets in src/wire_format.rs, without a seal. The checksum, the compression and the
-- schema registry are parameters. What the packing puts into the address book is
-- `source_address_for_sender` of Wire.Sender; the bytes do not depend on the book.
use sedsnet.Wire.Sender.{sender_address_u32}
use sedsnet.Base.{
  Name, set, u8_max, get_elem?, leb, ◌^◌, is_some, length, not, ltb, List, ℕ, Bool, Option,
  if◌then◌else◌, ◌==◌, ◌||◌, ◌&&◌, ◌%◌, ◌/◌, ◌++◌, ◌+◌, false, true, suc, zero, ◌∷◌, [], some, none,
}
use sedsnet.Varint.Codec.{uleb128_size, write_uleb128}
use sedsnet.Wire.Endpoints.{
  endpoint_list_size, explicit_endpoint_list, bitmap_bits, bitmap_bytes, write_ids,
  unique_sorted_endpoints,
}
use sedsnet.Wire.Reliable.{
  reliable_wire_size, write_reliable_header_encoded, should_compact_reliable_header, ReliableHeader,
}
use sedsnet.Wire.Contract.{write_wire_contract, wire_contract_size, not_empty}
use sedsnet.Wire.Shape.{MessageElement}
use sedsnet.Wire.Reader.{bit_if, to_le_bytes, has_bit}

-- What the packing asks other parts for.
pub record Services : Type 0 where
  pub crc32 : List ℕ → ℕ
  pub compress_if_beneficial : List ℕ → Bool × List ℕ
  pub is_discovery_type : ℕ → Bool
  -- The endpoints of a type of the schema, and whether an endpoint is registered.
  pub endpoints_of : ℕ → Option (List ℕ)
  pub endpoint_exists : ℕ → Bool
  pub is_reliable_type : ℕ → Bool

pub record Packet : Type 0 where
  pub data_type : ℕ
  pub data_size : ℕ
  pub timestamp : ℕ
  pub nonce : ℕ
  pub sender : Name
  pub endpoints : List ℕ
  pub payload : List ℕ
  pub wire_shape : Option MessageElement
  pub wire_target_senders : List ℕ

-- `DataType::ReliableAck`, `ReliablePacketRequest`, `ReliablePartialAck` and `P2pMessage`.
abbrev pub reliable_ack : ℕ
reliable_ack = 1

abbrev pub reliable_packet_request : ℕ
reliable_packet_request = 2

abbrev pub reliable_partial_ack : ℕ
reliable_partial_ack = 3

abbrev pub p2p_message : ℕ
p2p_message = 18

unfoldable pub join_frame_with_crc : (List ℕ → ℕ) → List ℕ → List ℕ → List ℕ
join_frame_with_crc crc32 header payload =
    header ++ (payload ++ to_le_bytes 4 (crc32 (header ++ payload)))

abbrev pub meta_endpoints : Services → ℕ → List ℕ
meta_endpoints s ty = elim (s.endpoints_of ty) [ none ↦ [] | some eps ↦ eps ]

abbrev pub eq_list : List ℕ → List ℕ → Bool
eq_list [] [] = true
eq_list [] (y ∷ ys) = false
eq_list (x ∷ xs) [] = false
eq_list (x ∷ xs) (y ∷ ys) = (x == y) && eq_list xs ys

unfoldable pub endpoints_match_schema : Services → ℕ → List ℕ → Bool
endpoints_match_schema s ty eps =
    eq_list (unique_sorted_endpoints eps) (unique_sorted_endpoints (meta_endpoints s ty))

abbrev pub carries_contract : Option MessageElement → List ℕ → Bool
carries_contract shape targets = is_some shape || not_empty targets

unfoldable pub packet_endpoint_bitmap_present :
    Services → Packet → Option MessageElement → List ℕ → Bool
unfolding endpoints_match_schema
packet_endpoint_bitmap_present s pkt shape targets =
    let fixed_control_endpoints =
      (pkt.data_type == reliable_ack)
      || (pkt.data_type == reliable_partial_ack)
      || (pkt.data_type == reliable_packet_request) in
    ltb p2p_message pkt.data_type
    || not (endpoints_match_schema s pkt.data_type pkt.endpoints)
    || (carries_contract shape targets && not fixed_control_endpoints)

unfoldable pub payload_for_encoding : Services → Packet → Bool → Bool × List ℕ
payload_for_encoding s pkt compression_allowed =
    if not compression_allowed || s.is_discovery_type pkt.data_type
    then (false, pkt.payload)
    else s.compress_if_beneficial pkt.payload

-- `bm[byte] |= 1 << bit`.
abbrev pub set_bit : ℕ → ℕ → ℕ
set_bit byte bit = if has_bit byte (2 ^ bit) then byte else byte + 2 ^ bit

abbrev pub mark : ℕ → List ℕ → List ℕ
mark e bm =
    if ltb e bitmap_bits
    then elim (get_elem? bm (e / 8)) [
      | none ↦ bm
      | some byte ↦ set bm (e / 8) (set_bit byte (e % 8))
    ]
    else bm

unfoldable pub mark_endpoints : List ℕ → List ℕ → List ℕ
mark_endpoints [] bm = bm
mark_endpoints (e ∷ eps) bm = mark_endpoints eps (mark e bm)

unfoldable pub zeros : ℕ → List ℕ
zeros zero = []
zeros (suc n) = 0 ∷ zeros n

unfoldable pub build_endpoint_bitmap : List ℕ → List ℕ
unfolding mark_endpoints zeros
build_endpoint_bitmap eps = mark_endpoints eps (zeros bitmap_bytes)

-- How the destinations of a frame are written.
pub data EndpointField : Type 0 where
  by_schema by_bitmap by_list : EndpointField

unfoldable pub endpoint_field : Services → Packet → Option MessageElement → List ℕ → EndpointField
endpoint_field s pkt shape targets =
    if packet_endpoint_bitmap_present s pkt shape targets
    then (if explicit_endpoint_list pkt.endpoints then by_list else by_bitmap)
    else by_schema

abbrev pub endpoint_flag : EndpointField → ℕ
endpoint_flag by_schema = 0
endpoint_flag by_bitmap = 32
endpoint_flag by_list = 128

abbrev pub write_endpoints : EndpointField → List ℕ → List ℕ
write_endpoints by_schema eps = []
write_endpoints by_bitmap eps = build_endpoint_bitmap eps
write_endpoints by_list eps = write_ids (unique_sorted_endpoints eps)

-- The bits of the first byte, which never overlap.
abbrev pub frame_flags : Bool → Bool → Bool → Bool → Bool → EndpointField → ℕ
frame_flags compressed reliable contract nonce compact field =
    bit_if compressed 1
    + bit_if reliable 2
    + bit_if contract 4
    + bit_if nonce 8
    + bit_if compact 64
    + endpoint_flag field

abbrev pub is_compact : Option ReliableHeader → Bool
is_compact none = false
is_compact (some h) = should_compact_reliable_header h

abbrev pub write_reliable_if : Option ReliableHeader → List ℕ
write_reliable_if none = []
write_reliable_if (some h) = write_reliable_header_encoded h (should_compact_reliable_header h)

abbrev pub has_nonce : Packet → Bool
has_nonce pkt = not (pkt.nonce == 0)

abbrev pub write_contract_if : Option MessageElement → List ℕ → Bool → List ℕ
write_contract_if shape targets reliable =
    if carries_contract shape targets
    then write_uleb128 (wire_contract_size shape targets)
      ++ write_wire_contract shape targets reliable
    else []

-- The header up to the reliable header, from the byte behind the flags on.
unfoldable pub header_fields :
    EndpointField → Packet → Option MessageElement → List ℕ → Bool → List ℕ
header_fields field pkt shape targets reliable =
    (length (unique_sorted_endpoints pkt.endpoints) ∷ [])
    ++ (write_uleb128 pkt.data_type
        ++ (write_uleb128 pkt.data_size
            ++ (write_uleb128 pkt.timestamp
                ++ ((if has_nonce pkt then write_uleb128 pkt.nonce else [])
                    ++ (write_uleb128 (sender_address_u32 pkt.sender)
                        ++ (write_endpoints field pkt.endpoints
                            ++ write_contract_if shape targets reliable))))))

unfoldable pub frame_header :
    EndpointField → Bool → Packet → Option ReliableHeader → Option MessageElement → List ℕ → List ℕ
unfolding header_fields
frame_header field compressed pkt reliable shape targets =
    (frame_flags compressed (is_some reliable) (carries_contract shape targets) (has_nonce pkt)
        (is_compact reliable) field
      ∷ [])
    ++ (header_fields field pkt shape targets (is_some reliable) ++ write_reliable_if reliable)

-- The parts that `consume` gets; `none` is the failed assertion on the number of endpoints.
unfoldable pub with_packet_frame_parts :
    Services
    → Packet
    → Option ReliableHeader
    → Option MessageElement
    → List ℕ
    → Bool
    → Option (List ℕ × List ℕ)
unfolding endpoint_field frame_header
with_packet_frame_parts s pkt reliable shape targets compression_allowed =
    let field = endpoint_field s pkt shape targets in
    let (compressed, payload_wire) = payload_for_encoding s pkt compression_allowed in
    if leb (length (unique_sorted_endpoints pkt.endpoints)) u8_max
    then some (frame_header field compressed pkt reliable shape targets, payload_wire)
    else none

unfoldable pub pack_packet_inner_with_contract :
    Services → Packet → Option ReliableHeader → Option MessageElement → List ℕ → Option (List ℕ)
unfolding with_packet_frame_parts join_frame_with_crc
pack_packet_inner_with_contract s pkt reliable shape targets =
    elim (with_packet_frame_parts s pkt reliable shape targets true) [
      | none ↦ none
      | some (header, payload) ↦ some (join_frame_with_crc s.crc32 header payload)
    ]

abbrev pub unsequenced : ReliableHeader
unsequenced = record { flags = 128; seq = 0; ack = 0 }

abbrev pub default_reliable : Services → Packet → Option ReliableHeader
default_reliable s pkt = if s.is_reliable_type pkt.data_type then some unsequenced else none

unfoldable pub pack_packet : Services → Packet → Option (List ℕ)
unfolding pack_packet_inner_with_contract
pack_packet s pkt =
    pack_packet_inner_with_contract s pkt (default_reliable s pkt) pkt.wire_shape
      pkt.wire_target_senders

-- The sizes, without a frame being built.
unfoldable pub header_size_bytes : Packet → ℕ
header_size_bytes pkt =
    2
    + uleb128_size pkt.data_type
    + uleb128_size pkt.data_size
    + uleb128_size pkt.timestamp
    + (if has_nonce pkt then uleb128_size pkt.nonce else 0)
    + uleb128_size (sender_address_u32 pkt.sender)

abbrev pub endpoint_len : EndpointField → List ℕ → ℕ
endpoint_len by_schema eps = 0
endpoint_len by_bitmap eps = bitmap_bytes
endpoint_len by_list eps = endpoint_list_size eps

abbrev pub contract_len : Option MessageElement → List ℕ → ℕ
contract_len shape targets =
    if carries_contract shape targets
    then uleb128_size (wire_contract_size shape targets) + wire_contract_size shape targets
    else 0

abbrev pub reliable_len : Option ReliableHeader → ℕ
reliable_len none = 0
reliable_len (some h) = reliable_wire_size h (should_compact_reliable_header h)

unfoldable pub packet_wire_size : Services → Packet → ℕ
unfolding header_size_bytes endpoint_field
packet_wire_size s pkt =
    let shape = pkt.wire_shape in
    let targets = pkt.wire_target_senders in
    header_size_bytes pkt
    + endpoint_len (endpoint_field s pkt shape targets) pkt.endpoints
    + contract_len shape targets
    + reliable_len (default_reliable s pkt)
    + length (payload_for_encoding s pkt true).1
    + 4
