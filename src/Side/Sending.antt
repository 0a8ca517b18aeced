-- ===== src/Side/Sending.antt =====
-- `SideTransportFrames::send_resuming` and `send_packet_chunks` of src/side_transport.rs, which send the
-- chunks that have not been sent yet. The memory probe and the callback are a link with its own state.
use sedsnet.Wire.Pack.{default_reliable, Packet, Services, with_packet_frame_parts}
use sedsnet.Base.{
  Option, leb, drop, not, ◌^◌, take, usize_max, Bool, sat_add, min, ltb, length, List, ℕ,
  if◌then◌else◌, ◌==◌, ◌&&◌, ◌%◌, ◌*◌, ◌-◌, ◌++◌, ◌+◌, true, suc, zero, ◌∷◌, [], some, none,
}
use sedsnet.Errors.{packet_too_large, bad_arg, Result, err, ok, ◌>>=◌}
use sedsnet.Side.Hash.{transfer_seed, narrow, hash_bytes_u64}
use sedsnet.Side.Frames.{
  div_ceil, chunk_overhead, kind_chunk, wrap_side_transport_frame_parts, SideTransportFrames,
  next_frame,
}
use sedsnet.Side.Assembly.{memory_pressure}
use sedsnet.Wire.Reader.{to_le_bytes}

-- `memory_admission::check(..).is_ok()` and the callback that sends a frame.
pub record Link (S : Type 0) : Type 0 where
  pub admits : S → ℕ → ℕ → Bool
  pub send : S → List ℕ → Result (Unit {0}) × S

unfoldable pub admits_next : {S : Type 0} → Link S → S → SideTransportFrames → Bool
admits_next l s f =
    let remaining = length f.frame - f.index * f.payload_budget in
    let bytes = sat_add usize_max (min remaining f.payload_budget) chunk_overhead in
    if ltb f.index f.total && not (f.payload_budget == 0)
    then l.admits s (sat_add usize_max bytes 256) (sat_add usize_max bytes 32)
    else true

-- What an attempt leaves: its result, the next chunk, and the link.
pub record Sent (S R : Type 0) : Type 0 where
  pub result : Result R
  pub next : ℕ
  pub link : S

-- The loop runs a round for each chunk left, and one more.
unfoldable pub send_loop :
    {S : Type 0} → ℕ → (List ℕ → ℕ) → Link S → ℕ → SideTransportFrames → S → Sent S Unit
unfolding admits_next next_frame
send_loop zero crc32 l next f s = record { result = ok tt; next = next; link = s }
send_loop (suc fuel) crc32 l next f s =
    let sent : Sent _ Unit = elim (next_frame crc32 f) [
      | none ↦ record { result = ok tt; next = next; link = s }
      | some (bytes, moved) ↦ elim ((l.send s bytes).0) [
        | ok u ↦ send_loop fuel crc32 l moved.index moved (l.send s bytes).1
        | err e ↦ record { result = err e; next = next; link = (l.send s bytes).1 }
      ]
    ] in
    if admits_next l s f
    then sent
    else record { result = err memory_pressure; next = next; link = s }

unfoldable pub send_resuming :
    {S : Type 0} → (List ℕ → ℕ) → Link S → ℕ → SideTransportFrames → S → Sent S Unit
unfolding send_loop
send_resuming crc32 l next f s =
    if ltb f.total next
    then record { result = err bad_arg; next = next; link = s }
    else send_loop (suc (f.total - next)) crc32 l next (record f { index = next }) s

-- `&part[low..high]` of one of the parts.
abbrev pub part_slice : ℕ → ℕ → ℕ → List ℕ → List ℕ
part_slice start end offset part =
    let low = min (start - offset) (length part) in
    let high = min (end - offset) (length part) in take (high - low) (drop low part)

unfoldable pub part_slices : ℕ → ℕ → ℕ → List (List ℕ) → List (List ℕ)
part_slices start end offset [] = []
part_slices start end offset (p ∷ ps) =
    part_slice start end offset p ∷ part_slices start end (offset + length p) ps

-- What the chunks of a packet are made of.
pub record Stream : Type 0 where
  pub parts : List (List ℕ)
  pub len : ℕ
  pub max_frame_bytes : ℕ
  pub budget : ℕ
  pub total : ℕ
  pub transfer : ℕ

unfoldable pub stream_chunk : (List ℕ → ℕ) → Stream → ℕ → List ℕ
unfolding part_slices wrap_side_transport_frame_parts
stream_chunk crc32 m index =
    let start = index * m.budget in
    wrap_side_transport_frame_parts crc32 kind_chunk (
      to_le_bytes 4 m.transfer
      ∷ to_le_bytes 2 (index % 2 ^ 16)
      ∷ to_le_bytes 2 m.total
      ∷ part_slices start (min (start + m.budget) m.len) 0 m.parts)

-- The loop over the indices from the next chunk on, `left` of them.
unfoldable pub stream_loop : {S : Type 0} → ℕ → (List ℕ → ℕ) → Link S → ℕ → Stream → S → Sent S Unit
unfolding stream_chunk
stream_loop zero crc32 l index m s = record { result = ok tt; next = index; link = s }
stream_loop (suc left) crc32 l index m s =
    let bytes = stream_chunk crc32 m index in
    let sent : Sent _ Unit = elim ((l.send s bytes).0) [
      | ok u ↦ stream_loop left crc32 l (index + 1) m (l.send s bytes).1
      | err e ↦ record { result = err e; next = index; link = (l.send s bytes).1 }
    ] in
    if l.admits s (sat_add usize_max m.max_frame_bytes 256) (sat_add usize_max m.max_frame_bytes 32)
    then sent
    else record { result = err memory_pressure; next = index; link = s }

unfoldable pub hash_parts : ℕ → List (List ℕ) → ℕ
unfolding hash_bytes_u64
hash_parts hash [] = hash
hash_parts hash (p ∷ ps) = hash_parts (hash_bytes_u64 hash p) ps

unfoldable pub send_stream :
    {S : Type 0} → (List ℕ → ℕ) → Link S → Stream → ℕ → S → Sent S (ℕ × ℕ × ℕ)
unfolding stream_loop
send_stream crc32 l m next s =
    let sent = stream_loop (m.total - next) crc32 l next m s in
    if ltb 0xffff m.total
    then record { result = err (packet_too_large "too many chunks"); next = next; link = s }
    else if ltb m.total next
    then record { result = err bad_arg; next = next; link = s }
    else record {
      result = sent.result >>= λ u. ok (m.len, m.len + m.total * chunk_overhead, m.total);
      next = sent.next;
      link = sent.link;
    }

-- The closure that has the header and the payload.
unfoldable pub send_parts :
    {S : Type 0} → (List ℕ → ℕ) → Link S → List ℕ → List ℕ → ℕ → List ℕ → ℕ → S → Sent S (ℕ × ℕ × ℕ)
unfolding send_stream hash_parts
send_parts crc32 l header payload max_frame_bytes sender next s =
    let crc = to_le_bytes 4 (crc32 (header ++ payload)) in
    let parts = header ∷ payload ∷ crc ∷ [] in
    let len = length header + length payload + length crc in
    let budget = max_frame_bytes - chunk_overhead in
    send_stream crc32 l
      (record {
        parts = parts;
        len = len;
        max_frame_bytes = max_frame_bytes;
        budget = budget;
        total = div_ceil len budget;
        transfer = narrow (hash_parts (hash_bytes_u64 transfer_seed sender) parts);
      })
      next s

-- `none` when the packet cannot be packed.
unfoldable pub send_packet_chunks :
    {S : Type 0} → Services → Link S → Packet → ℕ → List ℕ → ℕ → S → Option (Sent S (ℕ × ℕ × ℕ))
unfolding send_parts with_packet_frame_parts
send_packet_chunks v l pkt max_frame_bytes sender next s =
    if leb max_frame_bytes chunk_overhead
    then some (record { result = err bad_arg; next = next; link = s })
    else elim (with_packet_frame_parts v pkt (default_reliable v pkt) pkt.wire_shape
        pkt.wire_target_senders true) [
          | none ↦ none
          | some (header, payload) ↦
              some (send_parts v.crc32 l header payload max_frame_bytes sender next s)
        ]
