-- ===== src/Side/Frames.antt =====
-- `SideTransportFrames` of src/side_transport.rs, and the wrapper around its chunks. The checksum is a
-- parameter.
use sedsnet.Errors.{err, ok, unpack, packet_too_large, bad_arg, Result}
use sedsnet.Side.Hash.{transfer_seed, hash_bytes_u64, narrow}
use sedsnet.Base.{
  get_elem?, not, drop, ltb, ◌^◌, leb, take, min, length, Option, ℕ, List, if◌then◌else◌, ◌==◌,
  ◌||◌, ◌%◌, ◌/◌, ◌*◌, ◌-◌, ◌++◌, ◌+◌, ◌∷◌, [], some, none,
}
use sedsnet.Wire.Reader.{from_le_bytes, to_le_bytes}
use sedsnet.Wire.Pack.{eq_list}

abbrev pub chunk_overhead : ℕ
chunk_overhead = 16

-- The bytes of "SDT".
abbrev pub magic : List ℕ
magic = 83 ∷ 68 ∷ 84 ∷ []

abbrev pub kind_chunk : ℕ
kind_chunk = 3

unfoldable pub concat_parts : List (List ℕ) → List ℕ
concat_parts [] = []
concat_parts (p ∷ ps) = p ++ concat_parts ps

unfoldable pub wrap_side_transport_frame_parts : (List ℕ → ℕ) → ℕ → List (List ℕ) → List ℕ
unfolding concat_parts
wrap_side_transport_frame_parts crc32 kind parts =
    let body = (magic ++ kind ∷ []) ++ concat_parts parts in body ++ to_le_bytes 4 (crc32 body)

unfoldable pub parse_side_transport_wrapper : (List ℕ → ℕ) → List ℕ → Result (Option (ℕ × List ℕ))
parse_side_transport_wrapper crc32 bytes =
    let data_len = length bytes - 4 in
    let body = take data_len bytes in
    if ltb (length bytes) 8 || not (eq_list (take 3 bytes) magic)
    then ok none
    else if not (crc32 body == from_le_bytes (drop data_len bytes))
    then err (unpack "side transport crc32 mismatch")
    else elim (get_elem? body 3) [ none ↦ ok none | some kind ↦ ok (some (kind, drop 4 body)) ]

pub record SideTransportFrames : Type 0 where
  pub frame : List ℕ
  pub payload_budget : ℕ
  pub transfer_id : ℕ
  pub index : ℕ
  pub total : ℕ

abbrev pub single : List ℕ → SideTransportFrames
single frame = record { frame = frame; payload_budget = 0; transfer_id = 0; index = 0; total = 1 }

abbrev pub div_ceil : ℕ → ℕ → ℕ
div_ceil a b = (a + (b - 1)) / b

unfoldable pub split : List ℕ → ℕ → List ℕ → Result SideTransportFrames
split frame max_frame_bytes sender =
    let payload_budget = max_frame_bytes - chunk_overhead in
    let total = div_ceil (length frame) payload_budget in
    if leb max_frame_bytes chunk_overhead
    then err bad_arg
    else if ltb 0xffff total
    then err (packet_too_large "too many chunks")
    else ok (record {
      frame = frame;
      payload_budget = payload_budget;
      transfer_id = narrow (hash_bytes_u64 (hash_bytes_u64 transfer_seed sender) frame);
      index = 0;
      total = total;
    })

-- `&self.frame[start..end]`.
unfoldable pub chunk_payload : SideTransportFrames → ℕ → List ℕ
chunk_payload f index =
    let start = index * f.payload_budget in
    let end = min (start + f.payload_budget) (length f.frame) in
    take (end - start) (drop start f.frame)

-- `Iterator::next`.
unfoldable pub next_frame :
    (List ℕ → ℕ) → SideTransportFrames → Option (List ℕ × SideTransportFrames)
unfolding chunk_payload wrap_side_transport_frame_parts
next_frame crc32 f =
    let moved = record f { index = f.index + 1 } in
    if f.index == f.total
    then none
    else if f.payload_budget == 0
    then some (f.frame, moved)
    else some (
      wrap_side_transport_frame_parts crc32 kind_chunk (
          to_le_bytes 4 f.transfer_id
          ∷ to_le_bytes 2 (f.index % 2 ^ 16)
          ∷ to_le_bytes 2 (f.total % 2 ^ 16)
          ∷ chunk_payload f f.index
          ∷ []),
      moved,
    )

unfoldable pub wire_len : SideTransportFrames → ℕ
wire_len f = length f.frame + (if f.payload_budget == 0 then 0 else f.total * chunk_overhead)
