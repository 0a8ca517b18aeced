-- ===== src/Wire/UnpackTrip.antt =====
-- What is packed is unpacked again, src/wire_format.rs.
use sedsnet.Wire.Sender.{sender_name_for_address, sender_address_u32, AddressBook}
use sedsnet.Wire.Unpack.{read_payload, admitted_payload, unpack_rest, read_packet_nonce}
use sedsnet.Wire.Receiver.{
  owners_of, new_with_owned_wire_contract, validate_payload_against_element, Receiver,
}
use sedsnet.Base.{
  length-append, ◌^◌, ◌||◌, ◌%◌, ◌+◌, is_some, leb, subst, Bool-cases, append_assoc, if◌then◌else◌,
  ◌==◌, inr, inl, List, ℕ, Bool, Option, some, none, true, false, ◌≡◌, ◌≢◌, ◌<◌, ◌≤◌, ◌∙◌, ◌++◌, ap,
  length, refl, arith, [],
}
use sedsnet.Wire.Endpoints.{bitmap_bytes, unique_sorted_endpoints}
use sedsnet.Wire.Reader.{bit_if, has_bit, pure}
use sedsnet.Wire.Received.{
  filled_as, read_data_header-Parses, contract_fields, contract_from, SendsData, read_schema,
  read_list, AreRead,
}
use sedsnet.Wire.Payload.{admit_payload-AdmitsAll, IsPayload, AdmitsAll}
use sedsnet.Wire.Ends.{last-Ends, lift-Parses, left-Ends, skip-Ends, bind-Ends, room-Ends, Ends}
use sedsnet.Errors.{invalid_type, ok, unpack}
use sedsnet.Wire.SpanTrip.{decode_if-Parses}
use sedsnet.Wire.Rewrite.{short_buffer}
use sedsnet.Wire.Pack.{
  write_reliable_if, write_contract_if, is_compact, carries_contract, by_schema, by_list,
  endpoints_match_schema, payload_for_encoding, write_endpoints, by_bitmap, endpoint_field,
  EndpointField, meta_endpoints, has_nonce, Packet, Services,
}
use sedsnet.Wire.Flags.{FlagBits, listed_field, bitmap_field}
use sedsnet.Wire.Found.{schema_matches}
use sedsnet.Wire.ContractTrip.{FitsContract}
use sedsnet.Wire.Destination.{eq_list→eq}
use sedsnet.Wire.Shape.{MessageElement}
use sedsnet.Wire.Reliable.{ReliableHeader}
use sedsnet.Wire.Contract.{WireContract}
use sedsnet.Wire.EndpointTrip.{guard-Parses}
use sedsnet.Wire.Parses.{skip-Parses, last-Parses, pure-Parses, Parses}
use sedsnet.Wire.Bytes.{read_uleb128-Parses}
use sedsnet.Varint.Codec.{write_uleb128}
use sedsnet.Wire.PackTrip.{IsPacket}
use sedsnet.Wire.Unique.{contains}

-- The receiver knows the type with the sender's endpoints, and the payload is of the type.
pub record Accepts (s : Services) (u : Receiver) (pkt : Packet) : Type 0 where
  pub known : u.data_type_exists pkt.data_type ≡ true
  pub endpoints_agree : meta_endpoints s pkt.data_type ≡ u.endpoints_of pkt.data_type
  pub size_same : pkt.data_size ≡ length pkt.payload
  pub payload_fits :
      validate_payload_against_element u
        (elim pkt.wire_shape [ none ↦ u.element_of pkt.data_type | some shape ↦ shape ])
        pkt.payload
      ≡ ok tt

-- A packet as it was, with the same endpoints in whatever order, and with the name that the book has
-- for the address of its sender.
pub record IsSamePacket (book : AddressBook) (pkt q : Packet) : Type 0 where
  pub type_same : q.data_type ≡ pkt.data_type
  pub size_same : q.data_size ≡ pkt.data_size
  pub timestamp_same : q.timestamp ≡ pkt.timestamp
  pub nonce_same : q.nonce ≡ pkt.nonce
  pub sender_named : q.sender ≡ sender_name_for_address book (sender_address_u32 pkt.sender)
  pub address_same : sender_address_u32 q.sender ≡ sender_address_u32 pkt.sender
  pub payload_same : q.payload ≡ pkt.payload
  pub shape_same : q.wire_shape ≡ pkt.wire_shape
  pub targets_same : q.wire_target_senders ≡ pkt.wire_target_senders
  pub endpoints_same : (x : ℕ) → contains x q.endpoints ≡ contains x pkt.endpoints

pub endpoints_read :
    (s : Services) (u : Receiver) (pkt : Packet) (field : EndpointField)
    → IsPacket pkt
    → Accepts s u pkt
    → endpoint_field s pkt pkt.wire_shape pkt.wire_target_senders ≡ field
    → field ≢ by_bitmap
    → AreRead u pkt (bitmap_field field) (listed_field field) (write_endpoints field pkt.endpoints)
endpoints_read s u pkt by_list v a e n = read_list u pkt v
endpoints_read s u pkt by_bitmap v a e n = absurd (n refl)
endpoints_read s u pkt by_schema v a e n = read_schema u pkt a.known (
    eq_list→eq (unique_sorted_endpoints pkt.endpoints)
      (unique_sorted_endpoints (meta_endpoints s pkt.data_type))
      (unfold endpoints_match_schema in
        schema_matches s pkt pkt.wire_shape pkt.wire_target_senders e)
    ∙ ap unique_sorted_endpoints a.endpoints_agree)

pub packet_nonce :
    (pkt : Packet)
    → pkt.nonce ≤ 0xffff
    → Parses
        (if has_nonce pkt then read_packet_nonce else pure 0)
        (if has_nonce pkt then write_uleb128 pkt.nonce else [])
        pkt.nonce
unfolding read_packet_nonce
packet_nonce pkt h = elim (Bool-cases (pkt.nonce == 0)) [
  | inl e ↦
      let nothing : 0 ≡ pkt.nonce = ground arith in
      rw (e, has_nonce) (subst (Parses (pure 0) []) nothing (pure-Parses 0))
  | inr e ↦
      let half : leb pkt.nonce 0xffff ≡ true = ground arith in
      rw (e, has_nonce)
        (last-Parses _ (read_uleb128-Parses pkt.nonce (omega arith)) (
          skip-Parses (λ u. pure pkt.nonce)
            (guard-Parses (leb pkt.nonce 0xffff) (unpack "packet nonce too large") half)
            (pure-Parses pkt.nonce)))
]

pub regroup :
    (a b c d e f g h z : List ℕ)
    → (a ++ (b ++ (c ++ (d ++ (e ++ (f ++ (g ++ h))))))) ++ z
      ≡ a ++ (b ++ (c ++ (d ++ (e ++ (f ++ (g ++ (h ++ z)))))))
regroup a b c d e f g h z = simp append_assoc refl

-- The packet that is made of what was read.
abbrev pub packet_of : Receiver → Packet → List ℕ → WireContract → Packet
packet_of u pkt eps contract = record {
  data_type = pkt.data_type;
  data_size = length pkt.payload;
  timestamp = pkt.timestamp;
  nonce = pkt.nonce;
  sender = sender_name_for_address u.address_book (sender_address_u32 pkt.sender);
  endpoints = eps;
  payload = pkt.payload;
  wire_shape = contract.shape;
  wire_target_senders = owners_of contract;
}

made :
    (s : Services) (u : Receiver) (pkt : Packet) (eps : List ℕ) (contract : WireContract)
    → Accepts s u pkt
    → contract.shape ≡ pkt.wire_shape
    → (length eps == 0) ≡ false
    → new_with_owned_wire_contract u pkt.data_type eps
        (sender_name_for_address u.address_book (sender_address_u32 pkt.sender))
        pkt.timestamp
        pkt.nonce
        pkt.payload
        contract
      ≡ ok (packet_of u pkt eps contract)
unfolding new_with_owned_wire_contract
made s u pkt eps contract a shape some_eps =
    let element : Option MessageElement → MessageElement =
      λ o. elim o [ none ↦ u.element_of pkt.data_type | some e ↦ e ] in
    let fits : validate_payload_against_element u (element contract.shape) pkt.payload ≡ ok tt =
      ap (λ o. validate_payload_against_element u (element o) pkt.payload) shape ∙ a.payload_fits in
    rw (some_eps, new_with_owned_wire_contract) (rw fits refl)

not_bitmap : (field : EndpointField) → field ≢ by_bitmap → bitmap_field field ≡ false
not_bitmap by_schema n = refl
not_bitmap by_list n = refl
not_bitmap by_bitmap n = absurd (n refl)

room_left :
    (field : EndpointField) (need : ℕ) (a b c wire : List ℕ)
    → field ≢ by_bitmap
    → need ≤ length wire
    → (bit_if (bitmap_field field) bitmap_bytes + need) % 2 ^ 64 ≤ length (a ++ (b ++ (c ++ wire)))
room_left field need a b c wire n h = rw (not_bitmap field n) (
    omega (
      arith,
      h,
      length-append a (b ++ (c ++ wire)),
      length-append b (c ++ wire),
      length-append c wire,
    ))

pub unpack_rest-Ends :
    (s : Services) (u : Receiver) (pkt : Packet) (reliable : Option ReliableHeader) (managed : Bool)
    (frame_len flags : ℕ)
    → let field = endpoint_field s pkt pkt.wire_shape pkt.wire_target_senders in
      let (compressed, wire) = payload_for_encoding s pkt true in
      (r : AreRead u pkt
        (bitmap_field field)
        (listed_field field)
        (write_endpoints field pkt.endpoints))
      → FitsContract pkt.wire_shape pkt.wire_target_senders
      → 0 < length pkt.endpoints
      → SendsData reliable
      → Accepts s u pkt
      → AdmitsAll u
      → IsPayload u pkt.payload (compressed, wire)
      → field ≢ by_bitmap
      → FlagBits flags
          (is_some reliable)
          (carries_contract pkt.wire_shape pkt.wire_target_senders)
          (has_nonce pkt)
          (is_compact reliable)
          field
      → has_bit flags 1 ≡ compressed
      → Ends
          (unpack_rest u managed frame_len flags
            (length (unique_sorted_endpoints pkt.endpoints))
            pkt.data_type
            (length pkt.payload)
            pkt.timestamp
            pkt.nonce
            (sender_address_u32 pkt.sender))
          (write_endpoints field pkt.endpoints
            ++ (write_contract_if pkt.wire_shape pkt.wire_target_senders (is_some reliable)
                ++ (write_reliable_if reliable ++ wire)))
          (packet_of u pkt r.endpoints
            (contract_from pkt.wire_shape pkt.wire_target_senders (is_some reliable)))
unfolding unpack_rest
unpack_rest-Ends s u pkt reliable managed frame_len flags r w some_ends sends a g payload no_bitmap
      bits compressed_bit =
    let field = endpoint_field s pkt pkt.wire_shape pkt.wire_target_senders in
    let (compressed, wire) = payload_for_encoding s pkt true in
    let contract = contract_from pkt.wire_shape pkt.wire_target_senders (is_some reliable) in
    let allowed : (u.data_type_exists pkt.data_type || is_some contract.shape) ≡ true =
      rw a.known refl in
    let (shape_same, owners_same, present) =
      contract_fields pkt.wire_shape pkt.wire_target_senders (is_some reliable) in
    let eps_bytes = write_endpoints field pkt.endpoints in
    let contract_bytes =
      write_contract_if pkt.wire_shape pkt.wire_target_senders (is_some reliable) in
    let nep = length (unique_sorted_endpoints pkt.endpoints) in
    let dsz = length pkt.payload in
    rw
      (
        bits.bitmap_bit, bits.list_bit, bits.contract_bit, bits.reliable_bit, bits.compact_bit,
        compressed_bit,
      )
      (room-Ends _ short_buffer _ _ _
        (room_left field _ eps_bytes contract_bytes (write_reliable_if reliable) wire no_bitmap
          payload.1)
        (bind-Ends _ r.read (
          bind-Ends _ (decode_if-Parses pkt.wire_shape pkt.wire_target_senders (is_some reliable) w)
            (skip-Ends _ (guard-Parses _ invalid_type allowed) (
              bind-Ends _ (read_data_header-Parses reliable _ sends present) (
                last-Ends _
                  (left-Ends
                    (admitted_payload u managed frame_len compressed pkt.data_type dsz nep
                      r.endpoints contract (is_some reliable))
                    (skip-Ends (λ granted. read_payload u compressed dsz)
                      (lift-Parses (
                        admit_payload-AdmitsAll u managed frame_len compressed pkt.data_type dsz nep
                          r.endpoints contract (is_some reliable) (length wire) g))
                      payload.0))
                  (made s u pkt r.endpoints contract a shape_same
                    (filled_as r.endpoints pkt.endpoints r.members some_ends))))))))
