-- ===== src/Side/Assemble.antt =====
-- `assemble` of src/side_transport.rs. The last fragments are moved to a fixed array before they are
-- copied, which keeps their order and is not modelled.
use sedsnet.Side.Assembly.{memory_pressure, SideChunkAssembly}
use sedsnet.Side.Frames.{div_ceil}
use sedsnet.Base.{
  sat_mul, max, min, ltb, usize_max, sat_add, leb, not, length, Bool, Option, List, ℕ,
  if◌then◌else◌, ◌==◌, ◌&&◌, ◌-◌, ◌++◌, ◌+◌, ◌∷◌, [], some, none,
}
use sedsnet.Errors.{packet_too_large, Result, unpack, TelemetryError, err, ok, ◌>>=◌}
use sedsnet.Queue.Room.{Allocator}

abbrev pub gap : TelemetryError
gap = unpack "side chunk gap"

-- `try_fold` over the lengths.
unfoldable pub total_len : ℕ → List (Option (List ℕ)) → Result ℕ
total_len n [] = ok n
total_len n (none ∷ fs) = total_len n fs
total_len n (some bytes ∷ fs) =
    let rest = total_len (n + length bytes) fs in
    if ltb usize_max (n + length bytes)
    then err (packet_too_large "side chunk size overflow")
    else rest

-- The output with its capacity.
pub record Output : Type 0 where
  pub bytes : List ℕ
  pub capacity : ℕ

abbrev pub no_allocation : TelemetryError
no_allocation = unpack "side chunk assembly allocation failed"

-- The closure `append`, with the step and the length of the whole.
unfoldable pub append_bytes : Allocator → ℕ → ℕ → List ℕ → Output → Result Output
append_bytes mem step len bytes out =
    let end = sat_add usize_max (length out.bytes) (length bytes) in
    let target = min (sat_mul usize_max (div_ceil end step) step) len in
    let joined = out.bytes ++ bytes in
    if leb end out.capacity
    then ok (record { bytes = joined; capacity = out.capacity })
    else if not (mem.check (max (sat_add usize_max target 128) 1024) (sat_add usize_max target 32))
    then err memory_pressure
    else elim (mem.reserve (length out.bytes) (target - length out.bytes)) [
      | none ↦ err no_allocation
      | some cap ↦ ok (record { bytes = joined; capacity = cap })
    ]

abbrev pub scratch_len : ℕ
scratch_len = 256

abbrev pub fits_behind : ℕ → List ℕ → Bool
fits_behind used next = leb (length next) (scratch_len - used)

-- The loop over the fragments. Two small fragments are copied at once.
unfoldable pub copy_fragments : Allocator → ℕ → ℕ → List (Option (List ℕ)) → Output → Result Output
unfolding append_bytes
copy_fragments mem step len [] out = ok out
copy_fragments mem step len (none ∷ fs) out = err gap
copy_fragments mem step len (some chunk ∷ []) out = append_bytes mem step len chunk out
copy_fragments mem step len (some chunk ∷ none ∷ fs) out =
    append_bytes mem step len chunk out >>= λ o. err gap
copy_fragments mem step len (some chunk ∷ some next ∷ fs) out =
    if leb (length chunk) scratch_len && fits_behind (length chunk) next
    then append_bytes mem step len (chunk ++ next) out >>= copy_fragments mem step len fs
    else (append_bytes mem step len chunk out >>= copy_fragments mem step len (some next ∷ fs))

unfoldable pub assemble : Allocator → SideChunkAssembly → Result (List ℕ)
unfolding copy_fragments total_len
assemble mem a =
    if not (a.received_count == a.total)
    then err gap
    else total_len 0 a.received >>= λ len.
        (if mem.check (sat_add usize_max len 512) (sat_add usize_max len 32)
          then elim (mem.reserve 0 len) [
            | none ↦ err no_allocation
            | some cap ↦ ok (record { bytes = []; capacity = cap })
          ]
          else ok (record { bytes = []; capacity = 0 }))
        >>= λ out. copy_fragments mem (max (div_ceil len 8) 128) len a.received out >>= λ done.
            ok done.bytes
