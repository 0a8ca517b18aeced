-- ===== src/Side/Tests.antt =====
-- Tests of the side transport, and the theorems at concrete inputs.
use sedsnet.Wire.Samples.{
  packed_names-IsBook, packed_names, counted_packs, knowing-AdmitsAll, plain-Inverts,
  counted-Accepts, unsequenced-IsHeader, counted_listed, counted-Fits, counted-IsPacket,
  toy_crc_word, plain, counted, knowing, toy_crc, counted_frame,
}
use sedsnet.Errors.{err, ok, io, ◌>>=◌}
use sedsnet.Wire.Sender.{sender_address_u32}
use sedsnet.Side.Resumes.{finish-begin_classified, begin_classified-finish}
use sedsnet.Side.Cursors.{
  SideTxCursor, available_slots, find_cursor, SideTxProgress, finish, begin_classified,
}
use sedsnet.Wire.Reliable.{should_compact_reliable_header, write_reliable_header_encoded}
use sedsnet.Wire.Shape.{write_wire_shape}
use sedsnet.Wire.Contract.{write_wire_contract, wire_contract_size}
use sedsnet.Varint.Codec.{uleb128_size, write_uleb128}
use sedsnet.Wire.Endpoints.{write_ids, explicit_endpoint_list, unique_sorted_endpoints}
use sedsnet.Base.{
  usize_max, ◌≤◌, ◌^◌, length, if◌then◌else◌, ◌==◌, ◌%◌, false, zero, some-injective, arith, ℕ,
  List, ◌<◌, ◌+◌, ◌≡◌, refl, true, suc, ◌∷◌, [], some, none,
}
use sedsnet.Wire.Pack.{
  unsequenced, join_frame_with_crc, packet_endpoint_bitmap_present, payload_for_encoding, Packet,
  Services, pack_packet,
}
use sedsnet.Side.Journey.{unpack_packet-assemble}
use sedsnet.Wire.UnpackTrip.{IsSamePacket}
use sedsnet.Wire.Unpack.{unpack_packet_with_role}
use sedsnet.Wire.Reader.{to_le_bytes}
use sedsnet.Side.Sends.{send_resuming-Sends, first_frames, logged, Sends}
use sedsnet.Side.Canonical.{send_packet_chunks-pack_packet}
use sedsnet.Side.Sending.{admits_next, Link, send_packet_chunks, send_resuming}
use sedsnet.Side.Streamed.{sent_by_chunks}
use sedsnet.Side.Frames.{next_frame, chunk_payload, SideTransportFrames, split}
use sedsnet.Side.Hash.{transfer_seed, hash_bytes_u64, narrow}
use sedsnet.Side.Assembly.{contains_index, no_assembly, byte_cost, SideChunkAssembly}
use sedsnet.Side.Whole.{assemble-deliver}
use sedsnet.Side.Counted.{IsCounted, IsKeyed, total_cost}
use sedsnet.Side.Delivered.{deliver, Grants}
use sedsnet.Side.Assemble.{assemble}
use sedsnet.Side.Expired.{expire-Expires, Expires}
use sedsnet.Side.RoomMade.{make_room-RoomMade, RoomMade}
use sedsnet.Side.Chunks.{payloads}
use sedsnet.Wire.Unique.{contains}
use sedsnet.Side.Room.{make_room, expire, Retained}
use sedsnet.Queue.Room.{Allocator}

-- Grants every request, to the slot.
abbrev plenty : Allocator
plenty = record {
  check = λ _ _. true;
  reserve = λ len add. some (len + add);
  reserve_fits = λ len add e. omega (arith, some-injective _ _ e);
}

plenty-Grants : Grants plenty
plenty-Grants = record { admits = λ _ _. refl; reserves = λ len add. (len + add, refl) }

-- Five bytes in chunks of two.
abbrev five : List ℕ
five = 10 ∷ 11 ∷ 12 ∷ 13 ∷ 14 ∷ []

abbrev ground_station : List ℕ
ground_station = 71 ∷ 83 ∷ []

abbrev three_chunks : SideTransportFrames
three_chunks = record {
  frame = five;
  payload_budget = 2;
  transfer_id = narrow (hash_bytes_u64 (hash_bytes_u64 transfer_seed ground_station) five);
  index = 0;
  total = 3;
}

five_cut : payloads three_chunks ≡ (10 ∷ 11 ∷ []) ∷ (12 ∷ 13 ∷ []) ∷ (14 ∷ []) ∷ []
unfolding payloads chunk_payload
five_cut = refl

three_arrive : (j : ℕ) → j < 3 → contains j (2 ∷ 0 ∷ 2 ∷ 1 ∷ 7 ∷ []) ≡ true
unfolding contains
three_arrive zero h = refl
three_arrive (suc zero) h = refl
three_arrive (suc (suc zero)) h = refl
three_arrive (suc (suc (suc j))) h = absurd (omega (arith, h))

assemble-deliver_example :
    assemble plenty (
      deliver plenty 9
        (payloads three_chunks)
        (2 ∷ 0 ∷ 2 ∷ 1 ∷ 7 ∷ [])
        (record no_assembly { total = 3 }))
    ≡ ok five
unfolding split
assemble-deliver_example =
    assemble-deliver plenty 9 five 18 ground_station three_chunks (2 ∷ 0 ∷ 2 ∷ 1 ∷ 7 ∷ [])
      plenty-Grants refl (omega arith) three_arrive

abbrev partial_at : ℕ → SideChunkAssembly
partial_at seen = record {
  last_seen_ms = seen;
  total = 2;
  received = some (1 ∷ 2 ∷ []) ∷ none ∷ [];
  received_count = 1;
  capacity = 2;
}

-- A transfer that has stopped and one that goes on.
abbrev stopped_and_live : Retained
stopped_and_live = record {
  chunks = (1, partial_at 100) ∷ (5, partial_at 5000) ∷ [];
  buffered = 164;
}

both-IsCounted : IsCounted stopped_and_live
unfolding total_cost byte_cost
both-IsCounted = refl

both-IsKeyed : IsKeyed stopped_and_live.chunks
both-IsKeyed = ((omega arith, tt), (tt, tt))

one_expires : (expire 6000 stopped_and_live).0 ≡ 1
unfolding expire byte_cost
one_expires = refl

expire-Expires_example : Expires 6000 stopped_and_live (expire 6000 stopped_and_live).1
expire-Expires_example = expire-Expires 6000 stopped_and_live both-IsCounted both-IsKeyed

-- A fragment of 40 bytes for the second transfer makes the first go.
room_for_forty : (make_room 5 1 2 40 192 stopped_and_live).0 ≡ ok 88
unfolding make_room byte_cost contains_index
room_for_forty = refl

make_room-RoomMade_example :
    RoomMade 5 1 2 40 192 stopped_and_live (make_room 5 1 2 40 192 stopped_and_live)
make_room-RoomMade_example =
    make_room-RoomMade 5 1 2 40 192 stopped_and_live (omega arith) both-IsCounted both-IsKeyed

-- Takes two frames, and then fails.
abbrev two_frames : Link ℕ
two_frames = record {
  admits = λ _ _ _. true;
  send = λ left bytes. elim left [ zero ↦ (err (io "busy"), 0) | suc n ↦ (ok tt, n) ];
}

-- The first attempt stops after two chunks, and the second goes on from there.
stops_after_two : (send_resuming length (logged two_frames) 0 three_chunks ([], 2)).next ≡ 2
unfolding send_resuming next_frame admits_next
stops_after_two = refl

send_resuming-Sends_example : Sends length three_chunks 2 (
    send_resuming length (logged two_frames) 2 three_chunks (first_frames length three_chunks 2, 5))
send_resuming-Sends_example =
    send_resuming-Sends length two_frames 2 three_chunks (first_frames length three_chunks 2) 5
      (omega arith) refl

-- A schema of one type, whose packets are not compressed.
abbrev one_type : Services
one_type = record {
  crc32 = λ bytes. length bytes % 2 ^ 32;
  compress_if_beneficial = λ bytes. (false, bytes);
  is_discovery_type = λ ty. false;
  endpoints_of = λ ty. if ty == 7 then some (4 ∷ 2 ∷ []) else none;
  endpoint_exists = λ e. true;
  is_reliable_type = λ ty. false;
}

abbrev reading : Packet
reading = record {
  data_type = 7;
  data_size = 2;
  timestamp = 1000;
  nonce = 5;
  sender = b'@' ∷ b'a' ∷ b'd' ∷ b'd' ∷ b'r' ∷ b':' ∷ b'7' ∷ b'7' ∷ [];
  endpoints = 2 ∷ 4 ∷ [];
  payload = 10 ∷ 11 ∷ [];
  wire_shape = none;
  wire_target_senders = [];
}

abbrev reading_frame : List ℕ
reading_frame = 8 ∷ 2 ∷ 7 ∷ 2 ∷ 232 ∷ 7 ∷ 5 ∷ 77 ∷ 10 ∷ 11 ∷ 10 ∷ 0 ∷ 0 ∷ 0 ∷ []

reading_packs : pack_packet one_type reading ≡ some reading_frame
unfolding pack_packet payload_for_encoding packet_endpoint_bitmap_present unique_sorted_endpoints
    write_uleb128 to_le_bytes join_frame_with_crc sender_address_u32
reading_packs = refl

send_packet_chunks-pack_packet_example :
    send_packet_chunks one_type two_frames reading 21 ground_station 1 9
    ≡ some (sent_by_chunks one_type.crc32 two_frames (split reading_frame 21 ground_station) 1 9)
send_packet_chunks-pack_packet_example =
    send_packet_chunks-pack_packet one_type two_frames reading 21 ground_station 1 9 reading_frame
      (λ _ _ _. refl) reading_packs

-- One transfer that has stopped for good, and one that goes on.
abbrev two_cursors : SideTxProgress
two_cursors =
    some (record {
      history_dependent = false;
      latest_owner = false;
      key = 5;
      next = 1;
      last_progress_ms = 100;
    })
    ∷ none
    ∷ some (record {
      history_dependent = true;
      latest_owner = false;
      key = 8;
      next = 3;
      last_progress_ms = 9000;
    })
    ∷ none
    ∷ []

-- The transfer that has stopped starts from its first chunk.
starts_over : (begin_classified 5 9500 false false two_cursors).0 ≡ ok 0
unfolding begin_classified
starts_over = refl

-- A transfer that is done leaves its slot.
done_leaves : available_slots 9500 (finish {A = Unit {0}} 8 7 9400 (ok tt) two_cursors) ≡ 4
unfolding finish available_slots
done_leaves = refl

begin_classified-finish_example :
    let p = (begin_classified 8 9500 false true two_cursors).1 in
    (begin_classified 8 11500 false false (finish {A = Unit {0}} 8 4 9600 (err (io "busy")) p)).0
    ≡ ok 4
begin_classified-finish_example =
    begin_classified-finish 8 9500 9600 11500 3 4 false true false false "busy" two_cursors
      (begin_classified 8 9500 false true two_cursors).1 (unfold begin_classified in refl)
      (omega arith) (omega arith)

-- The transfer that goes on, at its first chunk.
abbrev live_cursor : SideTxCursor
live_cursor = record {
  history_dependent = true;
  latest_owner = false;
  key = 8;
  next = 0;
  last_progress_ms = 9000;
}

-- The transfer that has stopped ends, and the other one has kept its cursor.
finish-begin_classified_example :
    find_cursor 8 (
      finish {A = Unit {0}} 5 2 9600
        (ok tt)
        (begin_classified 5 9500 false false (none ∷ some live_cursor ∷ [])).1)
    ≡ some live_cursor
finish-begin_classified_example =
    finish-begin_classified {A = Unit {0}} 5 9500 9600 2 8 false false (ok tt)
      (none ∷ some live_cursor ∷ []) live_cursor (omega arith) (unfold find_cursor in refl)
      (omega arith)

-- The frame of a sample packet in three chunks.
abbrev counted_chunks : SideTransportFrames
counted_chunks = record {
  frame = counted_frame;
  payload_budget = 15;
  transfer_id = narrow (hash_bytes_u64 (hash_bytes_u64 transfer_seed ground_station) counted_frame);
  index = 0;
  total = 3;
}

counted_cut :
    (split counted_frame 31 ground_station ≡ ok counted_chunks) × (length counted_frame ≤ usize_max)
unfolding split hash_bytes_u64 pack_packet unique_sorted_endpoints write_uleb128
    packet_endpoint_bitmap_present explicit_endpoint_list write_ids wire_contract_size uleb128_size
    write_wire_contract write_wire_shape to_le_bytes write_reliable_header_encoded
    should_compact_reliable_header payload_for_encoding sender_address_u32
counted_cut = (refl, omega arith)

unpack_packet-assemble_example :
    (q : Packet) × ((assemble plenty (
          deliver plenty 9
            (payloads counted_chunks)
            (2 ∷ 0 ∷ 2 ∷ 1 ∷ 7 ∷ [])
            (record no_assembly { total = 3 }))
        >>= unpack_packet_with_role toy_crc knowing true)
      ≡ ok q)
    × IsSamePacket packed_names counted q
unpack_packet-assemble_example =
    unpack_packet-assemble plain knowing counted (some unsequenced) true counted_frame plenty 9 31
      ground_station counted_chunks (2 ∷ 0 ∷ 2 ∷ 1 ∷ 7 ∷ []) toy_crc_word counted-IsPacket
      counted-Fits (omega arith) counted_listed (unsequenced-IsHeader, refl) counted-Accepts
      plain-Inverts knowing-AdmitsAll packed_names-IsBook plenty-Grants counted_packs counted_cut.0
      counted_cut.1 three_arrive
