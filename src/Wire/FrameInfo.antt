-- ===== src/Wire/FrameInfo.antt =====
-- The inspection of a packed frame with its reliable header, and of its type alone, in
-- src/wire_format.rs.
use sedsnet.Base.{
  if◌then◌else◌, some, none, ◌∷◌, [], min, take, length, Bool, Option, List, ℕ, ◌==◌, ◌&&◌, ◌||◌,
  false,
}
use sedsnet.Errors.{ok, err, unpack, Result}
use sedsnet.Wire.Envelope.{verify_crc32, read_routing_envelope, RoutingEnvelope}
use sedsnet.Wire.Reliable.{read_reliable_header_encoded, ReliableHeader, ack_only}
use sedsnet.Wire.Reader.{
  Reader, Parser, ◌>>=◌, pure, has_bit, reader_of, remaining, read_bytes, read_uleb128, to_u32,
}
use sedsnet.Wire.Pack.{Services}

pub record RoutingFrameInfo : Type 0 where
  pub envelope : RoutingEnvelope
  pub reliable : Option ReliableHeader
  pub empty_payload : Bool

-- `ack_only` of a frame.
unfoldable pub frame_ack_only : RoutingFrameInfo → Bool
frame_ack_only info = elim info.reliable [ none ↦ false | some header ↦ ack_only header.flags ]

unfoldable pub read_reliable_if : Bool → Bool → Parser (Option ReliableHeader)
read_reliable_if compact present =
    if present then (read_reliable_header_encoded compact >>= λ h. pure (some h)) else pure none

-- The envelope and the reliable header behind it.
unfoldable pub read_frame_info : Services → Bool → Parser (RoutingEnvelope × Option ReliableHeader)
unfolding read_reliable_if
read_frame_info s compact = do
  envelope ← read_routing_envelope s
  reliable ← read_reliable_if compact (envelope.is_reliable || envelope.has_reliable_header)
  pure (envelope, reliable)

-- `data[0]`, of a frame that an envelope has been read from.
abbrev pub first_byte : List ℕ → ℕ
first_byte [] = 0
first_byte (b ∷ bs) = b

abbrev pub frame_info_of :
    Result ((RoutingEnvelope × Option ReliableHeader) × Reader) → Result RoutingFrameInfo
frame_info_of (err e) = err e
frame_info_of (ok ((envelope, reliable), r)) = ok (record {
  envelope = envelope;
  reliable = reliable;
  empty_payload = envelope.payload_is_empty && (remaining r == 0);
})

unfoldable pub peek_routing_frame_info : Services → List ℕ → Result RoutingFrameInfo
unfolding read_frame_info
peek_routing_frame_info s buf = elim (verify_crc32 s.crc32 buf) [
  | err e ↦ err e
  | ok body ↦ frame_info_of (read_frame_info s (has_bit (first_byte body) 64) (reader_of body))
]

-- The type in the first bytes, by which a queue is scheduled.
unfoldable pub read_type : Parser ℕ
read_type = do skipped ← read_bytes 2; ty ← read_uleb128; to_u32 (unpack "type too large") ty

unfoldable pub scheduling_type : List ℕ → Option ℕ
unfolding read_type
scheduling_type buf = elim (read_type (reader_of (take (min (length buf) 12) buf))) [
  | err e ↦ none
  | ok (ty, r) ↦ some ty
]
