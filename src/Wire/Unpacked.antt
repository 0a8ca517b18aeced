-- ===== src/Wire/Unpacked.antt =====
-- `unpack_packet` on packed frames, src/wire_format.rs.
use sedsnet.Errors.{ok}
use sedsnet.Wire.Alias.{sender_address_u32-word, sender_address_u32-sender_name_for_address, IsBook}
use sedsnet.Wire.Sender.{sender_address_u32}
use sedsnet.Wire.Shape.{MessageElement}
use sedsnet.Wire.Pack.{
  EndpointField, write_reliable_if, write_contract_if, write_endpoints, is_compact, frame_flags,
  frame_header, carries_contract, payload_for_encoding, pack_packet_inner_with_contract, by_bitmap,
  endpoint_field, has_nonce, Services, Packet, header_fields,
}
use sedsnet.Wire.UnpackTrip.{
  regroup, unpack_rest-Ends, endpoints_read, packet_nonce, IsSamePacket, Accepts,
}
use sedsnet.Wire.EnvelopeTrip.{header_whole}
use sedsnet.Wire.Crc.{verify_crc32-join_frame_with_crc}
use sedsnet.Wire.Received.{contract_fields, SendsData}
use sedsnet.Wire.Payload.{payload_for_encoding-IsPayload, AdmitsAll, Inverts}
use sedsnet.Wire.Bytes.{to_u32-Parses, read_small-Parses, read_uleb128-Parses, read_byte-Parses}
use sedsnet.Wire.Envelope.{source_too_large, verify_crc32}
use sedsnet.Wire.Flags.{frame_flags-payload, frame_flags-FlagBits}
use sedsnet.Base.{
  is_some, not, if◌then◌else◌, ◌==◌, List, ℕ, Bool, Option, some, true, false, ◌≡◌, ◌≢◌, ◌<◌, ◌≤◌,
  ◌∙◌, ◌++◌, sym, ap, length, refl, arith, ◌∷◌, [], subst, u32_max,
}
use sedsnet.Wire.PackTrip.{frame_parts, IsPacket}
use sedsnet.Wire.EndpointTrip.{guard-Parses}
use sedsnet.Wire.Ends.{skip-Ends, bind-Ends, Ends}
use sedsnet.Wire.Unpack.{unpack_rest, unpack_packet_with_role, unpack_body}
use sedsnet.Wire.Receiver.{Receiver}
use sedsnet.Wire.Reader.{has_bit}
use sedsnet.Wire.ContractTrip.{FitsContract}
use sedsnet.Wire.Reliable.{ReliableHeader}
use sedsnet.Varint.Codec.{write_uleb128}
use sedsnet.Wire.Endpoints.{unique_sorted_endpoints}

-- The fields of the header, in the order in which they are read.
abbrev fields_then : ℕ → Packet → List ℕ → List ℕ
fields_then flags pkt rest =
    (flags ∷ [])
    ++ ((length (unique_sorted_endpoints pkt.endpoints) ∷ [])
        ++ (write_uleb128 pkt.data_type
            ++ (write_uleb128 pkt.data_size
                ++ (write_uleb128 pkt.timestamp
                    ++ ((if has_nonce pkt then write_uleb128 pkt.nonce else [])
                        ++ (write_uleb128 (sender_address_u32 pkt.sender) ++ rest))))))

unpack_body-Ends :
    (s : Services) (u : Receiver) (pkt q : Packet) (managed : Bool) (frame_len flags : ℕ)
    (rest : List ℕ)
    → IsPacket pkt
    → Accepts s u pkt
    → has_bit flags 16 ≡ false
    → has_bit flags 8 ≡ has_nonce pkt
    → Ends
        (unpack_rest u managed frame_len flags
          (length (unique_sorted_endpoints pkt.endpoints))
          pkt.data_type
          (length pkt.payload)
          pkt.timestamp
          pkt.nonce
          (sender_address_u32 pkt.sender))
        rest
        q
    → Ends (unpack_body u managed frame_len) (fields_then flags pkt rest) q
unfolding unpack_body
unpack_body-Ends s u pkt q managed frame_len flags rest v a no_seal nonce_bit behind =
    let nep = length (unique_sorted_endpoints pkt.endpoints) in
    let plain : not (has_bit flags 16) ≡ true = rw no_seal refl in
    bind-Ends _ (read_byte-Parses flags) (
      skip-Ends _ (guard-Parses _ _ plain) (
        bind-Ends _ (read_byte-Parses nep) (
          bind-Ends _ (read_uleb128-Parses pkt.data_type (omega (arith, v.type_word))) (
            bind-Ends _ (read_uleb128-Parses pkt.data_size v.size_word) (
              bind-Ends _ (read_uleb128-Parses pkt.timestamp v.timestamp_word) (
                rw nonce_bit (
                  bind-Ends _ (packet_nonce pkt v.nonce_half) (
                    bind-Ends _
                      (read_small-Parses source_too_large (sender_address_u32 pkt.sender)
                        (sender_address_u32-word pkt.sender))
                      (skip-Ends _ (to_u32-Parses _ pkt.data_type v.type_word) (
                        subst
                          (λ n.
                            Ends
                              (unpack_rest u managed frame_len flags nep pkt.data_type n
                                pkt.timestamp pkt.nonce (sender_address_u32 pkt.sender))
                              rest q)
                          (sym a.size_same) behind))))))))))

unpacked_body :
    (crc32 : List ℕ → ℕ) (u : Receiver) (managed : Bool) (frame body : List ℕ) (flags : ℕ)
    (bytes : List ℕ) (q : Packet)
    → verify_crc32 crc32 frame ≡ ok body
    → body ≡ flags ∷ bytes
    → Ends (unpack_body u managed (length frame)) (flags ∷ bytes) q
    → unpack_packet_with_role crc32 u managed frame ≡ ok q
unfolding unpack_packet_with_role
unpacked_body crc32 u managed frame body flags bytes q checked parts h =
    let filled : (length (flags ∷ bytes) == 0) ≡ false = ground arith in
    rw (unpack_packet_with_role, checked) (rw parts (rw (filled, h.reads []) refl))

-- A frame without its checksum, as its fields.
body_fields :
    (field : EndpointField) (compressed : Bool) (pkt : Packet) (reliable : Option ReliableHeader)
    (shape : Option MessageElement) (targets wire : List ℕ)
    → frame_header field compressed pkt reliable shape targets ++ wire
      ≡ fields_then
          (frame_flags compressed
            (is_some reliable)
            (carries_contract shape targets)
            (has_nonce pkt)
            (is_compact reliable)
            field)
          pkt
          (write_endpoints field pkt.endpoints
            ++ (write_contract_if shape targets (is_some reliable)
                ++ (write_reliable_if reliable ++ wire)))
unfolding header_fields
body_fields field compressed pkt reliable shape targets wire =
    header_whole field compressed pkt reliable shape targets wire
    ∙ ap
        (λ l.
          frame_flags compressed (is_some reliable) (carries_contract shape targets) (has_nonce pkt)
            (is_compact reliable) field
          ∷ l)
        (regroup (length (unique_sorted_endpoints pkt.endpoints) ∷ []) (write_uleb128 pkt.data_type)
          (write_uleb128 pkt.data_size) (write_uleb128 pkt.timestamp)
          (if has_nonce pkt then write_uleb128 pkt.nonce else [])
          (write_uleb128 (sender_address_u32 pkt.sender)) (write_endpoints field pkt.endpoints)
          (write_contract_if shape targets (is_some reliable)) (write_reliable_if reliable ++ wire))

-- What is packed is unpacked again: the type, the sizes, the time, the nonce, the payload, its shape
-- and the targets are those of the packet, and so are the endpoints, but for their order and
-- repetitions. The sender has the name that the receiver's address book has for the address of the
-- packet's sender, or `@addr:` with the address if there is none, and has this address again. Each
-- name of the book is kept under its own address. The reliable header, if there is one, is not that of a mere
-- acknowledgement. The receiver knows the type with the sender's endpoints, the payload is of the
-- type, the decompression undoes the compression, memory is granted, the packet has a destination, it
-- is not sent with an endpoint bitmap, and the sizes fit their words.
pub unpack_packet-pack :
    (s : Services) (u : Receiver) (pkt : Packet) (reliable : Option ReliableHeader) (managed : Bool)
    (frame : List ℕ)
    → ((bytes : List ℕ) → s.crc32 bytes ≤ u32_max)
    → IsPacket pkt
    → FitsContract pkt.wire_shape pkt.wire_target_senders
    → 0 < length pkt.endpoints
    → endpoint_field s pkt pkt.wire_shape pkt.wire_target_senders ≢ by_bitmap
    → SendsData reliable
    → Accepts s u pkt
    → Inverts s u
    → AdmitsAll u
    → IsBook u.address_book
    → pack_packet_inner_with_contract s pkt reliable pkt.wire_shape pkt.wire_target_senders
      ≡ some frame
    → (q : Packet) × (unpack_packet_with_role s.crc32 u managed frame ≡ ok q)
      × IsSamePacket u.address_book pkt q
unpack_packet-pack s u pkt reliable managed frame crc_word v w some_ends no_bitmap sends a i g book
      packed =
    let shape = pkt.wire_shape in
    let targets = pkt.wire_target_senders in
    let field = endpoint_field s pkt shape targets in
    let (compressed, wire) = payload_for_encoding s pkt true in
    let carries = carries_contract shape targets in
    let header = frame_header field compressed pkt reliable shape targets in
    let (few, whole) = frame_parts s pkt reliable shape targets frame packed in
    let bits =
      frame_flags-FlagBits compressed (is_some reliable) carries (has_nonce pkt)
        (is_compact reliable) field in
    let (compressed_bit, no_seal) =
      frame_flags-payload compressed (is_some reliable) carries (has_nonce pkt)
        (is_compact reliable) field in
    let r = endpoints_read s u pkt field v a refl no_bitmap in
    let (shape_same, owners_same, present) = contract_fields shape targets (is_some reliable) in
    (
      _,
      unpacked_body s.crc32 u managed frame (header ++ wire) _ _ _
          (ap (verify_crc32 s.crc32) whole
            ∙ verify_crc32-join_frame_with_crc s.crc32 header wire (crc_word _))
          (body_fields field compressed pkt reliable shape targets wire)
          (unpack_body-Ends s u pkt _ managed (length frame) _ _ v a no_seal bits.nonce_bit (
            unpack_rest-Ends s u pkt reliable managed (length frame) _ r w some_ends sends a g
              (payload_for_encoding-IsPayload s u pkt i g) no_bitmap bits compressed_bit)),
      record {
        type_same = refl;
        size_same = sym a.size_same;
        timestamp_same = refl;
        nonce_same = refl;
        sender_named = refl;
        address_same =
            sender_address_u32-sender_name_for_address u.address_book
              (sender_address_u32 pkt.sender) book (sender_address_u32-word pkt.sender);
        payload_same = refl;
        shape_same = shape_same;
        targets_same = owners_same;
        endpoints_same = r.members;
      },
    )
