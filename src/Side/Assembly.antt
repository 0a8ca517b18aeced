-- ===== src/Side/Assembly.antt =====
-- `SideChunkAssembly` of src/side_transport.rs: the fragments of one transfer. A fragment is its bytes;
-- a descriptor, `Option<Arc<[u8]>>`, has 16 bytes.
use sedsnet.Errors.{unpack, io, Result, TelemetryError, err, ok}
use sedsnet.Base.{
  leb, usize_max, not, get_elem?, Bool, sat_add, set, length, sat_mul, List, ℕ, Option,
  if◌then◌else◌, ◌==◌, ◌&&◌, ◌+◌, false, true, suc, zero, ◌∷◌, [], some, none,
}
use sedsnet.Queue.Room.{Allocator}

pub record SideChunkAssembly : Type 0 where
  pub last_seen_ms : ℕ
  pub total : ℕ
  pub received : List (Option (List ℕ))
  pub received_count : ℕ
  -- `received.capacity()`.
  pub capacity : ℕ

abbrev pub no_assembly : SideChunkAssembly
no_assembly = record {
  last_seen_ms = 0;
  total = 0;
  received = [];
  received_count = 0;
  capacity = 0;
}

abbrev pub fragment_overhead : ℕ
fragment_overhead = 48

abbrev pub descriptor_size : ℕ
descriptor_size = 16

abbrev pub descriptor_bytes : ℕ → ℕ
descriptor_bytes total = sat_mul usize_max total descriptor_size

abbrev pub fragment_len : Option (List ℕ) → ℕ
fragment_len none = 0
fragment_len (some bytes) = length bytes

unfoldable pub fragment_bytes : List (Option (List ℕ)) → ℕ
fragment_bytes [] = 0
fragment_bytes (f ∷ fs) = fragment_len f + fragment_bytes fs

abbrev pub is_filled : Option (Option (List ℕ)) → Bool
is_filled none = false
is_filled (some none) = false
is_filled (some (some bytes)) = true

unfoldable pub contains_index : ℕ → SideChunkAssembly → Bool
contains_index index a = is_filled (get_elem? a.received index)

unfoldable pub byte_cost : SideChunkAssembly → ℕ
unfolding fragment_bytes
byte_cost a =
    sat_add usize_max
      (sat_add usize_max (fragment_bytes a.received)
        (sat_mul usize_max a.received_count fragment_overhead))
      (sat_mul usize_max a.capacity descriptor_size)

unfoldable pub empty_slots : ℕ → List (Option (List ℕ))
empty_slots zero = []
empty_slots (suc n) = none ∷ empty_slots n

abbrev pub memory_pressure : TelemetryError
memory_pressure = io "memory pressure"

abbrev pub no_slots : List (Option (List ℕ)) → Bool
no_slots [] = true
no_slots (f ∷ fs) = false

-- The descriptors of all fragments are made with the first fragment.
unfoldable pub make_slots : Allocator → SideChunkAssembly → Result SideChunkAssembly
unfolding empty_slots
make_slots mem a =
    let cost = descriptor_bytes a.total in
    if not (no_slots a.received)
    then ok a
    else if not (mem.check (sat_add usize_max cost 128) (sat_add usize_max cost 32))
    then err memory_pressure
    else elim (mem.reserve 0 a.total) [
      | none ↦ err (unpack "side chunk descriptors allocation failed")
      | some cap ↦ ok (record a { received = empty_slots a.total; capacity = cap })
    ]

abbrev pub store : ℕ → ℕ → List ℕ → SideChunkAssembly → SideChunkAssembly
store index now_ms bytes a = record a {
  received = set a.received index (some bytes);
  received_count = a.received_count + 1;
  last_seen_ms = now_ms;
}

abbrev pub added_cost : List ℕ → Bool → ℕ → ℕ
added_cost bytes fresh total =
    sat_add usize_max (sat_add usize_max (length bytes) fragment_overhead)
      (if fresh then descriptor_bytes total else 0)

-- The bytes that the fragment adds, or the error, with the assembly that it leaves.
unfoldable pub insert_with :
    Allocator → ℕ → ℕ → List ℕ → SideChunkAssembly → Result ℕ × SideChunkAssembly
unfolding make_slots
insert_with mem index now_ms bytes a =
    if leb a.total index
    then (err (unpack "invalid side chunk index"), a)
    else if not (no_slots a.received) && not (length a.received == a.total)
    then (err (unpack "side chunk total changed"), a)
    else if contains_index index a
    then (ok 0, a)
    else elim (make_slots mem a) [
      | err e ↦ (err e, a)
      | ok b ↦ (ok (added_cost bytes (no_slots a.received) a.total), store index now_ms bytes b)
    ]
