-- ===== src/Wire/Samples.antt =====
-- Packets, a sender and a receiver to try the wire format with, and what holds of them.
use sedsnet.Errors.{ok}
use sedsnet.Wire.Alias.{source_address_for_sender-IsBook, IsBook}
use sedsnet.Wire.Sender.{source_address_for_sender, AddressBook}
use sedsnet.Wire.UnpackTrip.{Accepts}
use sedsnet.Wire.Receiver.{data_type_size, validate_payload_against_element, Receiver}
use sedsnet.Wire.Payload.{AdmitsAll, Inverts}
use sedsnet.Wire.Shape.{uint8, informational, float32, static, MessageElement}
use sedsnet.Wire.ContractTrip.{FitsContract}
use sedsnet.Wire.Pack.{
  by_bitmap, join_frame_with_crc, unsequenced, payload_for_encoding, packet_endpoint_bitmap_present,
  pack_packet_inner_with_contract, Packet, Services, endpoint_field, pack_packet,
}
use sedsnet.Wire.Reader.{to_le_bytes}
use sedsnet.Wire.PackTrip.{IsPacket}
use sedsnet.Wire.Endpoints.{explicit_endpoint_list, unique_sorted_endpoints}
use sedsnet.Base.{
  ◌^◌, length, u32_max, if◌then◌else◌, ◌==◌, ◌≢◌, ◌%◌, ◌≤◌, false, [], none, some, arith, ℕ, List,
  Option, ◌≡◌, refl, true, ◌∷◌,
}
use sedsnet.Varint.Codec.{write_uleb128}
use sedsnet.Wire.ReliableTrip.{IsHeader}

abbrev pub three_floats : Option MessageElement
three_floats = some (static 3 float32 informational)

abbrev pub holders : List ℕ
holders = 7 ∷ 0x1234_5678_9abc_def0 ∷ []

pub contract-Fits : FitsContract three_floats holders
contract-Fits = record {
  shape_fits = omega arith;
  count_fits = omega arith;
  words = (omega arith, (omega arith, tt));
}

-- A checksum to try with, and a build without compression whose schema knows one type.
abbrev pub toy_crc : List ℕ → ℕ
toy_crc bytes = length bytes % 2 ^ 32

pub toy_crc_word : (bytes : List ℕ) → toy_crc bytes ≤ u32_max
toy_crc_word bytes = omega arith

abbrev pub plain : Services
plain = record {
  crc32 = toy_crc;
  compress_if_beneficial = λ bytes. (false, bytes);
  is_discovery_type = λ ty. false;
  endpoints_of = λ ty. if ty == 7 then some (4 ∷ 2 ∷ []) else none;
  endpoint_exists = λ e. true;
  is_reliable_type = λ ty. ty == 9;
}

-- One packet for the endpoints of its type, and one for endpoints of its own.
abbrev pub sample : Packet
sample = record {
  data_type = 7;
  data_size = 2;
  timestamp = 1000;
  nonce = 5;
  sender = b'@' ∷ b'a' ∷ b'd' ∷ b'd' ∷ b'r' ∷ b':' ∷ b'7' ∷ b'7' ∷ [];
  endpoints = 2 ∷ 4 ∷ [];
  payload = 10 ∷ 11 ∷ [];
  wire_shape = none;
  wire_target_senders = [];
}

abbrev pub frozen : Packet
frozen = record sample {
  data_type = 9;
  endpoints = 300 ∷ 4 ∷ 300 ∷ [];
  wire_shape = three_floats;
  wire_target_senders = holders;
}

pub frozen-IsPacket : IsPacket frozen
frozen-IsPacket = record {
  type_word = omega arith;
  size_word = omega arith;
  timestamp_word = omega arith;
  nonce_half = omega arith;
  endpoint_words = (omega arith, (omega arith, (omega arith, tt)));
}

pub unsequenced-IsHeader : IsHeader unsequenced
unsequenced-IsHeader = record {
  flags_byte = omega arith;
  seq_word = omega arith;
  ack_word = omega arith;
}

-- A packet of two bytes for named targets, and a receiver that knows its type.
abbrev pub two_bytes : Option MessageElement
two_bytes = some (static 2 uint8 informational)

abbrev pub counted : Packet
counted = record frozen { wire_shape = two_bytes; sender = b'G' ∷ b'B' ∷ [] }

pub counted-IsPacket : IsPacket counted
counted-IsPacket = record {
  type_word = omega arith;
  size_word = omega arith;
  timestamp_word = omega arith;
  nonce_half = omega arith;
  endpoint_words = (omega arith, (omega arith, (omega arith, tt)));
}

pub counted-Fits : FitsContract two_bytes holders
counted-Fits = record {
  shape_fits = omega arith;
  count_fits = omega arith;
  words = (omega arith, (omega arith, tt));
}

-- The book of a node that has itself packed a packet of the sender.
abbrev pub packed_names : AddressBook
packed_names = (source_address_for_sender counted.sender []).1

pub packed_names-IsBook : IsBook packed_names
packed_names-IsBook = source_address_for_sender-IsBook counted.sender [] tt

abbrev pub knowing : Receiver
knowing = record {
  address_book = packed_names;
  data_type_exists = λ ty. ty == 9;
  endpoint_exists = λ e. true;
  endpoints_of = λ ty. [];
  element_of = λ ty. static 4 uint8 informational;
  static_string_length = 1024;
  static_hex_length = 1024;
  validate_dynamic = λ e payload. ok tt;
  decompress = λ wire size. ok wire;
  supports_work_kinds = true;
  protected_discovery_request_shape = λ ty empty discovery_only owners shape. false;
  protected_control_shape = λ ty nep owners shape reliable managed. managed;
  check_small_protected_decode = λ bytes. ok tt;
  check = λ bytes largest. ok tt;
}

pub counted-Accepts : Accepts plain knowing counted
unfolding validate_payload_against_element data_type_size
counted-Accepts = record {
  known = refl;
  endpoints_agree = refl;
  size_same = refl;
  payload_fits = refl;
}

pub plain-Inverts : Inverts plain knowing
plain-Inverts = record {
  plain = λ bytes e. refl;
  filled = λ bytes (e : false ≡ true). absurd (cc);
  back = λ bytes e. refl;
}

pub knowing-AdmitsAll : AdmitsAll knowing
knowing-AdmitsAll = record { general = λ bytes largest. refl; small = λ bytes. refl }

abbrev pub counted_frame : List ℕ
counted_frame = elim (pack_packet plain counted) [ none ↦ [] | some frame ↦ frame ]

pub counted_packs :
    pack_packet_inner_with_contract plain counted (some unsequenced) two_bytes holders
    ≡ some counted_frame
unfolding pack_packet payload_for_encoding packet_endpoint_bitmap_present unique_sorted_endpoints
    write_uleb128 to_le_bytes join_frame_with_crc
counted_packs = refl

pub counted_listed : endpoint_field plain counted two_bytes holders ≢ by_bitmap
unfolding endpoint_field packet_endpoint_bitmap_present explicit_endpoint_list
counted_listed = cc
