-- ===== src/Wire/EnvelopeTrip.antt =====
-- The routing envelope of a packed frame, src/wire_format.rs, is the one of its packet.
use sedsnet.Errors.{ok}
use sedsnet.Base.{
  ◌∷◌, [], append_assoc, is_some, u32_max, some, if◌then◌else◌, ◌&&◌, ◌≢◌, ◌++◌, ◌<◌, ◌≤◌, ap,
  arith, length, Option, List, ℕ, Bool, ◌==◌, ◌∙◌, ◌≡◌, refl, false, true,
}
use sedsnet.Wire.Alias.{sender_address_u32-word}
use sedsnet.Wire.Sender.{sender_address_u32}
use sedsnet.Wire.ContractTrip.{length-write_hashes, FitsContract}
use sedsnet.Wire.Found.{unique_nonzero, find_destinations, IsFound}
use sedsnet.Wire.Destination.{words_of-write_hashes, read_routing_contract_if-Parses}
use sedsnet.Wire.Crc.{verify_crc32-join_frame_with_crc}
use sedsnet.Wire.Flags.{frame_flags-FlagBits, FlagBits}
use sedsnet.Wire.PackTrip.{frame_parts, IsPacket}
use sedsnet.Wire.Pack.{
  write_reliable_if, payload_for_encoding, is_compact, pack_packet_inner_with_contract, frame_flags,
  frame_header, write_endpoints, by_bitmap, header_fields, carries_contract, EndpointField,
  has_nonce, endpoint_field, Packet, Services,
}
use sedsnet.Wire.Envelope.{
  verify_crc32, peek_routing_envelope, source_too_large, read_routing_envelope, target_senders,
  RoutingEnvelope, Destinations, envelope_endpoints,
}
use sedsnet.Wire.Reliable.{ReliableHeader}
use sedsnet.Wire.Endpoints.{unique_sorted_endpoints}
use sedsnet.Wire.Parses.{last-Parses, skip-Parses, bind-Parses, pure-Parses, Parses}
use sedsnet.Wire.Bytes.{to_u32-Parses, read_small-Parses, read_byte-Parses, read_uleb128-Parses}
use sedsnet.Varint.Codec.{write_uleb128}
use sedsnet.Wire.Reader.{pure, read_uleb128}
use sedsnet.Wire.Contract.{write_hashes}
use sedsnet.Wire.Shape.{MessageElement}

-- What an envelope says of the packet that it stands in front of.
pub record Describes (pkt : Packet) (reliable : Bool) (shape : Option MessageElement)
    (targets : List ℕ) (e : RoutingEnvelope) : Type 0 where
  pub ty_same : e.ty ≡ pkt.data_type
  pub timestamp_same : e.timestamp_ms ≡ pkt.timestamp
  pub source_same : e.source_address ≡ sender_address_u32 pkt.sender
  pub shape_same : e.wire_shape ≡ shape
  pub targets_same : target_senders e ≡ targets
  pub endpoints_same : envelope_endpoints e ≡ unique_sorted_endpoints pkt.endpoints
  pub reliable_same : e.is_reliable ≡ reliable
  pub empty_same : e.payload_is_empty ≡ (pkt.data_size == 0)

pub read_nonce-Parses :
    (pkt : Packet) (test : Bool)
    → pkt.nonce ≤ 0xffff
    → Parses
        (if test then read_uleb128 else pure 0)
        (if test then write_uleb128 pkt.nonce else [])
        (if test then pkt.nonce else 0)
read_nonce-Parses pkt true h = read_uleb128-Parses pkt.nonce (omega arith)
read_nonce-Parses pkt false h = pure-Parses 0

-- The envelope that is read from a header.
abbrev envelope_of : Packet → Option MessageElement → List ℕ → Bool → Destinations → RoutingEnvelope
envelope_of pkt shape targets reliable d = record {
  ty = pkt.data_type;
  bitmap = d.words;
  endpoint_list = d.listed;
  schema_endpoints = d.shared;
  source_address = sender_address_u32 pkt.sender;
  timestamp_ms = pkt.timestamp;
  wire_shape = shape;
  is_reliable = reliable;
  payload_is_empty = pkt.data_size == 0;
  targets = write_hashes targets;
  has_reliable_header = carries_contract shape targets && reliable;
}

read_routing_envelope-Parses :
    (s : Services) (pkt : Packet) (flags : ℕ) (field : EndpointField)
    (shape : Option MessageElement) (targets : List ℕ) (reliable compact : Bool)
    → IsPacket pkt
    → FitsContract shape targets
    → 0 < length pkt.endpoints
    → FlagBits flags reliable (carries_contract shape targets) (has_nonce pkt) compact field
    → (f : IsFound s pkt flags (write_endpoints field pkt.endpoints))
    → Parses
        (read_routing_envelope s)
        ((flags ∷ []) ++ header_fields field pkt shape targets reliable)
        (envelope_of pkt shape targets reliable f.destinations)
unfolding read_routing_envelope header_fields
read_routing_envelope-Parses s pkt flags field shape targets reliable compact v w some_ends bits f =
    bind-Parses _ (read_byte-Parses flags) (
      bind-Parses _ (read_byte-Parses (length (unique_sorted_endpoints pkt.endpoints))) (
        bind-Parses _ (read_uleb128-Parses pkt.data_type (omega (arith, v.type_word))) (
          bind-Parses _ (read_uleb128-Parses pkt.data_size v.size_word) (
            bind-Parses _ (read_uleb128-Parses pkt.timestamp v.timestamp_word) (
              rw
                (
                  bits.nonce_bit,
                  bits.contract_bit,
                  bits.reliable_bit,
                  unique_nonzero pkt.endpoints some_ends,
                )
                (bind-Parses _ (read_nonce-Parses pkt (has_nonce pkt) v.nonce_half) (
                  bind-Parses _
                    (read_small-Parses source_too_large (sender_address_u32 pkt.sender)
                      (sender_address_u32-word pkt.sender))
                    (skip-Parses _ (to_u32-Parses _ pkt.data_type v.type_word) (
                      bind-Parses _ f.read (
                        last-Parses _ (read_routing_contract_if-Parses shape targets reliable w) (
                          skip-Parses
                            (λ u. pure (envelope_of pkt shape targets reliable f.destinations))
                            (pure-Parses tt) (pure-Parses _))))))))))))

-- The header in front of the reliable header.
abbrev pub front_of :
    EndpointField → Bool → Packet → Option ReliableHeader → Option MessageElement → List ℕ → List ℕ
front_of field compressed pkt reliable shape targets =
    (frame_flags compressed (is_some reliable) (carries_contract shape targets) (has_nonce pkt)
        (is_compact reliable) field
      ∷ [])
    ++ header_fields field pkt shape targets (is_some reliable)

pub header_whole :
    (field : EndpointField) (compressed : Bool) (pkt : Packet) (reliable : Option ReliableHeader)
    (shape : Option MessageElement) (targets payload : List ℕ)
    → frame_header field compressed pkt reliable shape targets ++ payload
      ≡ front_of field compressed pkt reliable shape targets
        ++ (write_reliable_if reliable ++ payload)
unfolding frame_header
header_whole field compressed pkt reliable shape targets payload =
    append_assoc (front_of field compressed pkt reliable shape targets) (write_reliable_if reliable)
      payload

parsed-peek :
    (s : Services) (frame body : List ℕ) (xs post : List ℕ) (e : RoutingEnvelope)
    → verify_crc32 s.crc32 frame ≡ ok body
    → body ≡ xs ++ post
    → Parses (read_routing_envelope s) xs e
    → peek_routing_envelope s frame ≡ ok e
unfolding peek_routing_envelope
parsed-peek s frame body xs post e checked parts h =
    rw (peek_routing_envelope, checked) (rw (parts, h.reads [] post) refl)

-- The envelope that is read from the front of a packed frame.
pub record IsRead (s : Services) (pkt : Packet) (compressed : Bool)
    (reliable : Option ReliableHeader) (shape : Option MessageElement) (targets : List ℕ)
    : Type 0 where
  pub envelope : RoutingEnvelope
  pub read :
      Parses
        (read_routing_envelope s)
        (front_of (endpoint_field s pkt shape targets) compressed pkt reliable shape targets)
        envelope
  pub describes : Describes pkt (is_some reliable) shape targets envelope
  pub header_there :
      envelope.has_reliable_header ≡ (carries_contract shape targets && is_some reliable)

pub frame_header-IsRead :
    (s : Services) (pkt : Packet) (compressed : Bool) (reliable : Option ReliableHeader)
    (shape : Option MessageElement) (targets : List ℕ)
    → IsPacket pkt
    → FitsContract shape targets
    → 0 < length pkt.endpoints
    → endpoint_field s pkt shape targets ≢ by_bitmap
    → IsRead s pkt compressed reliable shape targets
unfolding target_senders
frame_header-IsRead s pkt compressed reliable shape targets v w some_ends no_bitmap =
    let field = endpoint_field s pkt shape targets in
    let flags =
      frame_flags compressed (is_some reliable) (carries_contract shape targets) (has_nonce pkt)
        (is_compact reliable) field in
    let bits =
      frame_flags-FlagBits compressed (is_some reliable) (carries_contract shape targets)
        (has_nonce pkt) (is_compact reliable) field in
    let f : IsFound s pkt flags (write_endpoints field pkt.endpoints) =
      find_destinations s pkt shape targets flags field v some_ends refl no_bitmap bits.list_bit
        bits.bitmap_bit in
    let e = envelope_of pkt shape targets (is_some reliable) f.destinations in
    record {
      envelope = e;
      read =
          read_routing_envelope-Parses s pkt flags field shape targets (is_some reliable)
            (is_compact reliable) v w some_ends bits f;
      describes = record {
        ty_same = refl;
        timestamp_same = refl;
        source_same = refl;
        shape_same = refl;
        targets_same =
            words_of-write_hashes _ targets (omega (arith, length-write_hashes targets)) w.words;
        endpoints_same = f.named e refl refl refl;
        reliable_same = refl;
        empty_same = refl;
      };
      header_there = refl;
    }

-- Whatever is packed can be inspected by the next router: the checksum of the frame passes, and the
-- envelope has the type, the stamp, the source, the shape, the targets and the reliability of the
-- packet, and as destinations those of the packet in ascending order, each once. The packet has a
-- destination, it is not sent with an endpoint bitmap, and the sizes fit their words.
pub peek_routing_envelope-pack :
    (s : Services) (pkt : Packet) (reliable : Option ReliableHeader) (shape : Option MessageElement)
    (targets frame : List ℕ)
    → ((bytes : List ℕ) → s.crc32 bytes ≤ u32_max)
    → IsPacket pkt
    → FitsContract shape targets
    → 0 < length pkt.endpoints
    → endpoint_field s pkt shape targets ≢ by_bitmap
    → pack_packet_inner_with_contract s pkt reliable shape targets ≡ some frame
    → (e : RoutingEnvelope) × (peek_routing_envelope s frame ≡ ok e)
      × Describes pkt (is_some reliable) shape targets e
peek_routing_envelope-pack s pkt reliable shape targets frame crc_word v w some_ends no_bitmap
      packed =
    let field = endpoint_field s pkt shape targets in
    let (compressed, payload) = payload_for_encoding s pkt true in
    let header = frame_header field compressed pkt reliable shape targets in
    let (few, whole) = frame_parts s pkt reliable shape targets frame packed in
    let r = frame_header-IsRead s pkt compressed reliable shape targets v w some_ends no_bitmap in
    (
      r.envelope,
      parsed-peek s frame (header ++ payload) _ (write_reliable_if reliable ++ payload) r.envelope
          (ap (verify_crc32 s.crc32) whole
            ∙ verify_crc32-join_frame_with_crc s.crc32 header payload (crc_word _))
          (header_whole field compressed pkt reliable shape targets payload) r.read,
      r.describes,
    )
