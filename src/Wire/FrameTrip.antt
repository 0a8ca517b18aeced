-- ===== src/Wire/FrameTrip.antt =====
-- A packed frame shows its packet, src/wire_format.rs.
use sedsnet.Errors.{ok}
use sedsnet.Wire.Pack.{
  has_nonce, frame_header, carries_contract, pack_packet_inner_with_contract, by_bitmap,
  endpoint_field, payload_for_encoding, write_reliable_if, is_compact, Packet, Services,
}
use sedsnet.Wire.Reader.{has_bit, remaining}
use sedsnet.Base.{
  append_assoc, sym, length-append, arith, ◌||◌, ◌-◌, [], false, Option, List, ℕ, Bool, some, none,
  true, ◌≡◌, ◌≢◌, ◌≤◌, ◌<◌, ◌&&◌, ◌==◌, ◌++◌, ◌∙◌, ap, refl, length, is_some, u32_max,
  if◌then◌else◌,
}
use sedsnet.Wire.FrameInfo.{
  first_byte, read_frame_info, peek_routing_frame_info, RoutingFrameInfo, read_reliable_if,
}
use sedsnet.Wire.EnvelopeTrip.{front_of, header_whole, frame_header-IsRead, IsRead, Describes}
use sedsnet.Wire.Crc.{verify_crc32-join_frame_with_crc}
use sedsnet.Wire.Flags.{frame_flags-FlagBits}
use sedsnet.Wire.Parses.{bind-Parses, map-Parses, pure-Parses, Parses}
use sedsnet.Wire.PackTrip.{frame_parts, IsPacket}
use sedsnet.Wire.Envelope.{verify_crc32, RoutingEnvelope}
use sedsnet.Wire.ReliableTrip.{read_reliable_header_encoded-Parses, IsHeader}
use sedsnet.Wire.ContractTrip.{FitsContract}
use sedsnet.Wire.Shape.{MessageElement}
use sedsnet.Wire.Reliable.{public_flags, should_compact_reliable_header, ReliableHeader}

-- The reliable header that the receiver sees: without the private flags when it is compact.
abbrev pub seen : Option ReliableHeader → Option ReliableHeader
seen none = none
seen (some h) =
    some (if should_compact_reliable_header h then record h { flags = public_flags h.flags } else h)

-- The fields of the reliable header are of their types.
abbrev pub FitsHeader : Option ReliableHeader → Type 0
FitsHeader none = Unit {0}
FitsHeader (some h) = IsHeader h

read_reliable_if-Parses :
    (reliable : Option ReliableHeader) (present : Bool)
    → FitsHeader reliable
    → present ≡ is_some reliable
    → Parses
        (read_reliable_if (is_compact reliable) present)
        (write_reliable_if reliable)
        (seen reliable)
unfolding read_reliable_if
read_reliable_if-Parses none present v e = rw (e, read_reliable_if) (pure-Parses none)
read_reliable_if-Parses (some h) present v e =
    rw (e, read_reliable_if) (map-Parses some (read_reliable_header_encoded-Parses h _ v))

-- What the inspection of a packed frame shows.
pub record Shows (s : Services) (pkt : Packet) (reliable : Option ReliableHeader)
    (shape : Option MessageElement) (targets : List ℕ) (info : RoutingFrameInfo) : Type 0 where
  pub describes : Describes pkt (is_some reliable) shape targets info.envelope
  pub header_seen : info.reliable ≡ seen reliable
  pub empty_seen :
      info.empty_payload
      ≡ ((pkt.data_size == 0) && (length (payload_for_encoding s pkt true).1 == 0))

or_both : (c r : Bool) → (r || (c && r)) ≡ r
or_both c true = refl
or_both true false = refl
or_both false false = refl

parsed-frame_info :
    (s : Services) (frame body xs post : List ℕ) (compact : Bool) (e : RoutingEnvelope)
    (reliable : Option ReliableHeader)
    → verify_crc32 s.crc32 frame ≡ ok body
    → has_bit (first_byte body) 64 ≡ compact
    → body ≡ xs ++ post
    → Parses (read_frame_info s compact) xs (e, reliable)
    → peek_routing_frame_info s frame
      ≡ ok (record {
        envelope = e;
        reliable = reliable;
        empty_payload = e.payload_is_empty && (length post == 0);
      })
unfolding peek_routing_frame_info remaining
parsed-frame_info s frame body xs post compact e reliable checked bit parts h =
    let left : length (xs ++ post) - length xs ≡ length post =
      omega (arith, length-append xs post) in
    rw (peek_routing_frame_info, checked) (rw bit (rw (parts, h.reads [] post) (rw left refl)))

frame_info-Parses :
    (s : Services) (pkt : Packet) (compressed : Bool) (reliable : Option ReliableHeader)
    (shape : Option MessageElement) (targets : List ℕ)
    → FitsHeader reliable
    → (r : IsRead s pkt compressed reliable shape targets)
    → Parses
        (read_frame_info s (is_compact reliable))
        (front_of (endpoint_field s pkt shape targets) compressed pkt reliable shape targets
          ++ write_reliable_if reliable)
        (r.envelope, seen reliable)
unfolding read_frame_info
frame_info-Parses s pkt compressed reliable shape targets h r =
    let e = r.envelope in
    let there : (e.is_reliable || e.has_reliable_header) ≡ is_some reliable =
      rw (r.describes.reliable_same, r.header_there)
        (or_both (carries_contract shape targets) (is_some reliable)) in
    bind-Parses _ r.read (map-Parses (λ x. (e, x)) (read_reliable_if-Parses reliable _ h there))

-- The inspection of a packed frame gives the envelope of its packet and the reliable header that it
-- was sent with, without the private flags where it is written in the compact form, and says that the
-- frame is empty exactly if the packet is and nothing is written as its payload. The fields of the
-- header are of their types, the packet has a destination, it is not sent with an endpoint bitmap, and
-- the sizes fit their words.
pub peek_routing_frame_info-pack :
    (s : Services) (pkt : Packet) (reliable : Option ReliableHeader) (shape : Option MessageElement)
    (targets frame : List ℕ)
    → ((bytes : List ℕ) → s.crc32 bytes ≤ u32_max)
    → IsPacket pkt
    → FitsHeader reliable
    → FitsContract shape targets
    → 0 < length pkt.endpoints
    → endpoint_field s pkt shape targets ≢ by_bitmap
    → pack_packet_inner_with_contract s pkt reliable shape targets ≡ some frame
    → (info : RoutingFrameInfo) × (peek_routing_frame_info s frame ≡ ok info)
      × Shows s pkt reliable shape targets info
peek_routing_frame_info-pack s pkt reliable shape targets frame crc_word v h w some_ends no_bitmap
      packed =
    let field = endpoint_field s pkt shape targets in
    let (compressed, payload) = payload_for_encoding s pkt true in
    let header = frame_header field compressed pkt reliable shape targets in
    let (few, whole) = frame_parts s pkt reliable shape targets frame packed in
    let r = frame_header-IsRead s pkt compressed reliable shape targets v w some_ends no_bitmap in
    let front = front_of field compressed pkt reliable shape targets in
    let bits =
      frame_flags-FlagBits compressed (is_some reliable) (carries_contract shape targets)
        (has_nonce pkt) (is_compact reliable) field in
    (
      _,
      parsed-frame_info s frame (header ++ payload) (front ++ write_reliable_if reliable) payload
          (is_compact reliable) r.envelope (seen reliable)
          (ap (verify_crc32 s.crc32) whole
            ∙ verify_crc32-join_frame_with_crc s.crc32 header payload (crc_word _))
          (unfold frame_header in bits.compact_bit)
          (header_whole field compressed pkt reliable shape targets payload
            ∙ sym (append_assoc front (write_reliable_if reliable) payload))
          (frame_info-Parses s pkt compressed reliable shape targets h r),
      record {
        describes = r.describes;
        header_seen = refl;
        empty_seen = ap (λ b. b && (length payload == 0)) r.describes.empty_same;
      },
    )
