-- ===== src/Side/Room.antt =====
-- The assemblies of one side in src/side_transport.rs, a `BTreeMap` by the transfer, and the bytes that
-- they are counted with.
use sedsnet.Side.Assembly.{
  descriptor_bytes, fragment_overhead, no_slots, contains_index, SideChunkAssembly, byte_cost,
}
use sedsnet.Base.{
  not, u32_max, usize_max, Bool, sat_add, length, ltb, List, ℕ, Option, if◌then◌else◌, ◌==◌, ◌||◌,
  ◌&&◌, ◌/◌, ◌-◌, false, true, suc, zero, ◌∷◌, [], some, none,
}
use sedsnet.Errors.{packet_too_large, Result, TelemetryError, err, ok}

abbrev pub Chunks : Type 0
Chunks = List (ℕ × SideChunkAssembly)

abbrev pub chunk_at : ℕ → Chunks → Option SideChunkAssembly
chunk_at id [] = none
chunk_at id ((i, a) ∷ cs) = if id == i then some a else chunk_at id cs

unfoldable pub without : ℕ → Chunks → Chunks
without id [] = []
without id ((i, a) ∷ cs) = let rest = without id cs in if id == i then cs else (i, a) ∷ rest

-- The map with the bytes in `rx_chunk_bytes`.
pub record Retained : Type 0 where
  pub chunks : Chunks
  pub buffered : ℕ

abbrev pub skipped : Option ℕ → ℕ → Bool
skipped none id = false
skipped (some keep) id = keep == id

-- The first of the assemblies that were seen longest ago.
unfoldable pub oldest_from : Option (ℕ × ℕ) → Chunks → Option ℕ → Option (ℕ × ℕ)
oldest_from victim [] keep = victim
oldest_from victim ((id, a) ∷ cs) keep =
    let older : Bool = elim victim [ none ↦ true | some (v, time) ↦ ltb a.last_seen_ms time ] in
    oldest_from (if not (skipped keep id) && older then some (id, a.last_seen_ms) else victim) cs
      keep

unfoldable pub oldest : Chunks → Option ℕ → Option (ℕ × ℕ)
unfolding oldest_from
oldest chunks keep = oldest_from none chunks keep

unfoldable pub remove_chunk : ℕ → Retained → Option SideChunkAssembly × Retained
unfolding without byte_cost
remove_chunk id r = elim (chunk_at id r.chunks) [
  | none ↦ (none, r)
  | some a ↦ (some a, record { chunks = without id r.chunks; buffered = r.buffered - byte_cost a })
]

abbrev pub progress_timeout : ℕ
progress_timeout = 2000

-- The first transfer without progress for too long.
unfoldable pub first_stale : ℕ → Chunks → Option ℕ
first_stale now [] = none
first_stale now ((id, a) ∷ cs) =
    if ltb progress_timeout (now - a.last_seen_ms) then some id else first_stale now cs

-- Each round removes an assembly.
unfoldable pub expire_loop : ℕ → ℕ → ℕ → Retained → ℕ × Retained
unfolding first_stale remove_chunk
expire_loop zero now reclaimed r = (reclaimed, r)
expire_loop (suc fuel) now reclaimed r = elim (first_stale now r.chunks) [
  | none ↦ (reclaimed, r)
  | some id ↦ expire_loop fuel now (sat_add u32_max reclaimed 1) (remove_chunk id r).1
]

unfoldable pub expire : ℕ → Retained → ℕ × Retained
unfolding expire_loop
expire now r = expire_loop (length r.chunks) now 0 r

abbrev pub receive_budget : TelemetryError
receive_budget = packet_too_large "side chunk receive budget"

-- The rounds that make room; one more than there are assemblies.
unfoldable pub room_loop : ℕ → ℕ → ℕ → ℕ → Retained → Result ℕ × Retained
unfolding oldest remove_chunk
room_loop zero id cost budget r = (ok cost, r)
room_loop (suc fuel) id cost budget r =
    let given_up : Result ℕ × Retained = (err receive_budget, (remove_chunk id r).1) in
    let next : Result ℕ × Retained = elim (oldest r.chunks (some id)) [
      | none ↦ given_up
      | some (victim, time) ↦ room_loop fuel id cost budget (remove_chunk victim r).1
    ] in
    if ltb budget (sat_add usize_max r.buffered cost) then next else (ok cost, r)

abbrev pub lacks_slots : Option SideChunkAssembly → Bool
lacks_slots none = true
lacks_slots (some a) = no_slots a.received

abbrev pub holds_index : ℕ → Option SideChunkAssembly → Bool
holds_index index none = false
holds_index index (some a) = contains_index index a

unfoldable pub make_room : ℕ → ℕ → ℕ → ℕ → ℕ → Retained → Result ℕ × Retained
unfolding room_loop
make_room id index total payload_len budget r =
    let fresh = lacks_slots (chunk_at id r.chunks) in
    let cost =
      sat_add usize_max (sat_add usize_max payload_len fragment_overhead)
        (if fresh then descriptor_bytes total else 0) in
    let made = room_loop (suc (length r.chunks)) id cost budget r in
    if ltb (budget / 64) total || ltb budget cost
    then (err receive_budget, (remove_chunk id r).1)
    else if holds_index index (chunk_at id r.chunks)
    then (ok 0, r)
    else made
