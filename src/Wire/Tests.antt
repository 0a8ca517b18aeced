-- ===== src/Wire/Tests.antt =====
-- Tests of the wire format, and the theorems at concrete inputs.
use sedsnet.Errors.{ok}
use sedsnet.Base.{◌≡◌, refl, true, ◌∷◌, length, ◌≢◌, [], none, some, arith, ℕ, List}
use sedsnet.Wire.Sender.{
  alias_address, source_address_for_sender, sender_name_for_address, parse_u32, sender_address_u32,
}
use sedsnet.Wire.Samples.{
  packed_names-IsBook, packed_names, counted_packs, knowing-AdmitsAll, plain-Inverts,
  counted-Accepts, counted_listed, counted-Fits, counted-IsPacket, toy_crc_word,
  unsequenced-IsHeader, counted, holders, contract-Fits, three_floats, counted_frame,
  frozen-IsPacket, sample, knowing, frozen, toy_crc, plain,
}
use sedsnet.Side.Hash.{hash_bytes_u64}
use sedsnet.Wire.Unpacked.{unpack_packet-pack}
use sedsnet.Wire.UnpackTrip.{IsSamePacket}
use sedsnet.Wire.Unpack.{unpack_packet_with_role}
use sedsnet.Wire.FrameTrip.{peek_routing_frame_info-pack, Shows}
use sedsnet.Wire.FrameInfo.{peek_routing_frame_info, RoutingFrameInfo}
use sedsnet.Wire.RewriteTrip.{rewrite_reliable_header_owned-pack}
use sedsnet.Wire.Rewrite.{rewrite_reliable_header_owned}
use sedsnet.Wire.EnvelopeTrip.{peek_routing_envelope-pack, Describes}
use sedsnet.Wire.Pack.{
  by_bitmap, join_frame_with_crc, unsequenced, payload_for_encoding, packet_endpoint_bitmap_present,
  pack_packet_inner_with_contract, packet_wire_size, Packet, endpoint_field, pack_packet,
}
use sedsnet.Wire.Unique.{unique_sorted_endpoints_lem, contains, Chain}
use sedsnet.Wire.Reader.{to_le_bytes}
use sedsnet.Wire.PackTrip.{length-pack_packet}
use sedsnet.Wire.Endpoints.{explicit_endpoint_list, unique_sorted_endpoints}
use sedsnet.Wire.Envelope.{peek_routing_envelope, RoutingEnvelope}
use sedsnet.Varint.Codec.{write_uleb128}
use sedsnet.Wire.ReliableTrip.{read_reliable_header_encoded-Parses, IsHeader}
use sedsnet.Wire.Reliable.{
  read_reliable_header_encoded, write_reliable_header_encoded, ReliableHeader,
}
use sedsnet.Wire.Parses.{Parses}

abbrev acknowledgement : ReliableHeader
acknowledgement = record { flags = 1; seq = 0; ack = 300 }

acknowledgement-IsHeader : IsHeader acknowledgement
acknowledgement-IsHeader = record {
  flags_byte = omega arith;
  seq_word = omega arith;
  ack_word = omega arith;
}

-- The sequence number of an acknowledgement is left out.
compact_acknowledgement : write_reliable_header_encoded acknowledgement true ≡ 9 ∷ 172 ∷ 2 ∷ []
unfolding write_reliable_header_encoded write_uleb128
compact_acknowledgement = refl

read_reliable_header_encoded-Parses_example :
    Parses
      (read_reliable_header_encoded true)
      (write_reliable_header_encoded acknowledgement true)
      acknowledgement
read_reliable_header_encoded-Parses_example =
    read_reliable_header_encoded-Parses acknowledgement true acknowledgement-IsHeader

abbrev sample_frame : List ℕ
sample_frame = 8 ∷ 2 ∷ 7 ∷ 2 ∷ 232 ∷ 7 ∷ 5 ∷ 77 ∷ 10 ∷ 11 ∷ 10 ∷ 0 ∷ 0 ∷ 0 ∷ []

packed_sample : pack_packet plain sample ≡ some sample_frame
unfolding pack_packet payload_for_encoding packet_endpoint_bitmap_present unique_sorted_endpoints
    write_uleb128 to_le_bytes join_frame_with_crc sender_address_u32
packed_sample = refl

abbrev frozen_frame : List ℕ
frozen_frame = elim (pack_packet plain frozen) [ none ↦ [] | some frame ↦ frame ]

frozen_packs : pack_packet plain frozen ≡ some frozen_frame
unfolding pack_packet payload_for_encoding packet_endpoint_bitmap_present unique_sorted_endpoints
    write_uleb128 to_le_bytes join_frame_with_crc
frozen_packs = refl

unique_sorted_endpoints_lem_example :
    Chain none (unique_sorted_endpoints (300 ∷ 4 ∷ 300 ∷ []))
    × ((x : ℕ)
        → contains x (unique_sorted_endpoints (300 ∷ 4 ∷ 300 ∷ []))
          ≡ contains x (300 ∷ 4 ∷ 300 ∷ []))
unique_sorted_endpoints_lem_example = unique_sorted_endpoints_lem (300 ∷ 4 ∷ 300 ∷ [])

length-pack_packet_example : length frozen_frame ≡ packet_wire_size plain frozen
length-pack_packet_example =
    length-pack_packet plain frozen frozen_frame frozen-IsPacket contract-Fits frozen_packs

frozen_listed : endpoint_field plain frozen three_floats holders ≢ by_bitmap
unfolding endpoint_field packet_endpoint_bitmap_present explicit_endpoint_list
frozen_listed = cc

frozen_inner :
    pack_packet_inner_with_contract plain frozen (some unsequenced) three_floats holders
    ≡ some frozen_frame
unfolding pack_packet
frozen_inner = frozen_packs

peek_routing_envelope-pack_example :
    (e : RoutingEnvelope) × (peek_routing_envelope plain frozen_frame ≡ ok e)
    × Describes frozen true three_floats holders e
peek_routing_envelope-pack_example =
    peek_routing_envelope-pack plain frozen (some unsequenced) three_floats holders frozen_frame
      toy_crc_word frozen-IsPacket contract-Fits (omega arith) frozen_listed frozen_inner

abbrev sequenced : ReliableHeader
sequenced = record { flags = 0; seq = 300; ack = 0x1000_0000 }

rewrite_reliable_header_owned-pack_example :
    rewrite_reliable_header_owned toy_crc frozen_frame sequenced
    ≡ ok (pack_packet_inner_with_contract plain frozen (some sequenced) three_floats holders)
rewrite_reliable_header_owned-pack_example =
    rewrite_reliable_header_owned-pack plain frozen unsequenced sequenced three_floats holders
      frozen_frame frozen-IsPacket contract-Fits unsequenced-IsHeader frozen_inner

peek_routing_frame_info-pack_example :
    (info : RoutingFrameInfo) × (peek_routing_frame_info plain frozen_frame ≡ ok info)
    × Shows plain frozen (some unsequenced) three_floats holders info
peek_routing_frame_info-pack_example =
    peek_routing_frame_info-pack plain frozen (some unsequenced) three_floats holders frozen_frame
      toy_crc_word frozen-IsPacket unsequenced-IsHeader contract-Fits (omega arith) frozen_listed
      frozen_inner

unpack_packet-pack_example :
    (q : Packet) × (unpack_packet_with_role toy_crc knowing true counted_frame ≡ ok q)
    × IsSamePacket packed_names counted q
unpack_packet-pack_example =
    unpack_packet-pack plain knowing counted (some unsequenced) true counted_frame toy_crc_word
      counted-IsPacket counted-Fits (omega arith) counted_listed (unsequenced-IsHeader, refl)
      counted-Accepts plain-Inverts knowing-AdmitsAll packed_names-IsBook counted_packs

-- The address of `identity-collision-51666`, as src/tests/sender_identity_match.rs has it.
hashed_name :
    sender_address_u32 (
      105 ∷ 100 ∷ 101 ∷ 110 ∷ 116 ∷ 105 ∷ 116 ∷ 121 ∷ 45 ∷ 99 ∷ 111 ∷ 108 ∷ 108 ∷ 105 ∷ 115 ∷ 105
      ∷ 111 ∷ 110 ∷ 45 ∷ 53 ∷ 49 ∷ 54 ∷ 54 ∷ 54 ∷ [])
    ≡ 2711038533
unfolding sender_address_u32 hash_bytes_u64
hashed_name = refl

-- A name that has been packed is found again, and an address without a name is written out.
named_again :
    sender_name_for_address packed_names (sender_address_u32 counted.sender) ≡ counted.sender
unfolding sender_name_for_address source_address_for_sender sender_address_u32 hash_bytes_u64
named_again = refl

written_out :
    sender_name_for_address packed_names 4294967295
    ≡ 64 ∷ 97 ∷ 100 ∷ 100 ∷ 114 ∷ 58 ∷ 52 ∷ 50 ∷ 57 ∷ 52 ∷ 57 ∷ 54 ∷ 55 ∷ 50 ∷ 57 ∷ 53 ∷ []
unfolding sender_name_for_address source_address_for_sender sender_address_u32 hash_bytes_u64
written_out = refl

-- What is past the last `u32` is no alias, and one sign may be in front of the number.
no_alias :
    (alias_address
        (64 ∷ 97 ∷ 100 ∷ 100 ∷ 114 ∷ 58 ∷ 52 ∷ 50 ∷ 57 ∷ 52 ∷ 57 ∷ 54 ∷ 55 ∷ 50 ∷ 57 ∷ 54 ∷ [])
      ≡ none)
    × (alias_address (64 ∷ 97 ∷ 100 ∷ 100 ∷ 114 ∷ 58 ∷ 43 ∷ 55 ∷ []) ≡ some 7)
    × (alias_address (64 ∷ 97 ∷ 100 ∷ 100 ∷ 114 ∷ 58 ∷ 43 ∷ []) ≡ none)
unfolding parse_u32
no_alias = (refl, refl, refl)
