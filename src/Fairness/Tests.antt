-- ===== src/Fairness/Tests.antt =====
-- Runs of the arbitration (src/admission_fairness.rs), and the theorems at those runs.
use sedsnet.Wire.Sender.{sender_address_u32}
use sedsnet.Fairness.Victim.{OwnerChosen, queue_victim-Yields, Yields}
use sedsnet.Delivery.{transport_priority, scheduler_priority, mode_none, Registry, is_reliable_type}
use sedsnet.Wire.Pack.{
  join_frame_with_crc, by_bitmap, packet_endpoint_bitmap_present, payload_for_encoding, Services,
  Packet, pack_packet, endpoint_field,
}
use sedsnet.Wire.Reader.{to_le_bytes}
use sedsnet.Varint.Codec.{write_uleb128}
use sedsnet.Fairness.Composed.{packed_owner-pack_packet}
use sedsnet.Wire.Endpoints.{explicit_endpoint_list, unique_sorted_endpoints}
use sedsnet.Base.{
  ◌^◌, length, arith, List, if◌then◌else◌, ◌==◌, ◌≢◌, ◌%◌, Option, ℕ, ◌≡◌, refl, false, true, ◌∷◌,
  [], some, none,
}
use sedsnet.Fairness.Owners.{incoming, packed_owner, packet_owner}
use sedsnet.Wire.ContractTrip.{FitsContract}
use sedsnet.Wire.PackTrip.{IsPacket}
use sedsnet.TimeSync.Rank.{best_of}
use sedsnet.Fairness.Loads.{
  no_loads, record_load, record_all, heaviest, victim_of_owner, Loads, dominant, queue_victim,
}
use sedsnet.Queue.Ring.{no_flags, ByteCost, Deque}
use mathlib.Core.Option.{map}

-- A queued report: its sender, its type and its size.
record Report : Type 0 where
  sender : ℕ
  ty : ℕ
  size : ℕ

instance abbrev report_cost : ByteCost Report
report_cost = record { byte_cost = λ r. r.size; size_of = 16 }

abbrev owner_of : Report → Option ℕ
owner_of r = some r.sender

abbrev stream_of : Report → Option ℕ
stream_of r = some r.ty

abbrev same_priority : Report → ℕ
same_priority r = 7

abbrev slow : Report
slow = record { sender = 1; ty = 4; size = 50 }

abbrev fast : Report
fast = record { sender = 2; ty = 5; size = 100 }

abbrev busy : Deque Report
busy = record {
  q = slow ∷ fast ∷ fast ∷ [];
  capacity = 3;
  max_bytes = 250;
  cur_bytes = 250;
  max_elems = 3;
  grow_num = 1034;
  grow_den = 1024;
  fixed_capacity = true;
  fair_priority_cursor = 255;
  fair_owed_priority = 0;
  fair_owed_flags = no_flags;
}

abbrev busy_loads : Loads
busy_loads = record {
  peers =
      record { sender = 1; bytes = 50; count = 1 }
      ∷ record { sender = 2; bytes = 200; count = 2 }
      ∷ [];
  overflow = false;
}

loads_of_busy :
    record_all owner_of stream_of same_priority owner_of (λ _. true) busy.q no_loads ≡ busy_loads
unfolding record_all record_load
loads_of_busy = refl

dominant_of_busy : dominant (some 3) busy_loads ≡ some 2
unfolding dominant heaviest
dominant_of_busy = refl

-- The faster sender's first report gives way, also to its own next one.
victim_of_busy : (queue_victim owner_of stream_of same_priority fast none busy).0 ≡ some 1
unfolding queue_victim victim_of_owner record_all record_load dominant heaviest best_of
victim_of_busy = refl

queue_victim-Yields_example :
    (victim : ℕ) × ((queue_victim owner_of stream_of same_priority fast none busy).1 ≡ some victim)
    × OwnerChosen owner_of stream_of same_priority fast none busy 2 victim
    × Yields owner_of stream_of same_priority fast busy 2 victim 1
queue_victim-Yields_example =
    queue_victim-Yields owner_of stream_of same_priority fast none busy 2 refl victim_of_busy

-- A registry with one ordinary type, and a packet of it for two endpoints.
abbrev one_type : Registry
one_type ty = if ty == 21 then some (record { reliable = mode_none; priority = 40 }) else none

abbrev by_registry : Services
by_registry = record {
  crc32 = λ bytes. length bytes % 2 ^ 32;
  compress_if_beneficial = λ bytes. (false, bytes);
  is_discovery_type = λ ty. false;
  endpoints_of = λ ty. none;
  endpoint_exists = λ e. true;
  is_reliable_type = is_reliable_type one_type;
}

abbrev report : Packet
report = record {
  data_type = 21;
  data_size = 2;
  timestamp = 1000;
  nonce = 5;
  sender = b'@' ∷ b'a' ∷ b'd' ∷ b'd' ∷ b'r' ∷ b':' ∷ b'7' ∷ b'7' ∷ [];
  endpoints = 300 ∷ 4 ∷ [];
  payload = 10 ∷ 11 ∷ [];
  wire_shape = none;
  wire_target_senders = [];
}

report-IsPacket : IsPacket report
report-IsPacket = record {
  type_word = omega arith;
  size_word = omega arith;
  timestamp_word = omega arith;
  nonce_half = omega arith;
  endpoint_words = (omega arith, (omega arith, tt));
}

report-FitsContract : FitsContract none []
report-FitsContract = record { shape_fits = tt; count_fits = omega arith; words = tt }

report_listed : endpoint_field by_registry report none [] ≢ by_bitmap
unfolding endpoint_field packet_endpoint_bitmap_present explicit_endpoint_list
report_listed = cc

abbrev report_frame : List ℕ
report_frame = elim (pack_packet by_registry report) [ none ↦ [] | some frame ↦ frame ]

report_packs : pack_packet by_registry report ≡ some report_frame
unfolding pack_packet payload_for_encoding packet_endpoint_bitmap_present unique_sorted_endpoints
    write_uleb128 to_le_bytes join_frame_with_crc is_reliable_type
report_packs = refl

-- An ordinary report belongs to its sender.
report_owned : packet_owner one_type report 40 ≡ some 77
unfolding packet_owner transport_priority sender_address_u32
report_owned = refl

packed_owner-pack_packet_example :
    (packed_owner by_registry one_type report_frame 40 ≡ packet_owner one_type report 40)
    × (incoming by_registry one_type report_frame
        ≡ map
            (λ owner. (owner, scheduler_priority one_type 21))
            (packet_owner one_type report (scheduler_priority one_type 21)))
packed_owner-pack_packet_example =
    packed_owner-pack_packet by_registry one_type report report_frame 40 (λ bytes. omega arith)
      (λ ty. refl) report-IsPacket report-FitsContract (omega arith) report_listed report_packs
