-- ===== src/Queue/Room.antt =====
-- Growth, admission and construction of `BoundedDeque` (src/queue.rs), and the FIFO push.
-- The allocator and the application's memory probe answer through `Allocator`.
use sedsnet.Base.{
  ℕ, zero, suc, ◌+◌, ◌-◌, ◌*◌, ◌/◌, ◌%◌, ◌≤◌, ◌≡◌, ◌^◌, Bool, true, false, not, ◌&&◌, ◌||◌, [], ◌∷◌,
  ◌++◌, Option, none, some, if◌then◌else◌, length, min, max, sat_add, sat_mul, usize_max, ltb, leb,
  ◌==◌, u8_max, wrapping_add_size,
}
use sedsnet.Errors.{Result, ok, err, io, packet_too_large}
use sedsnet.Queue.Ring.{ByteCost, Deque, no_flags, is_empty, pop_front}

-- `memory_admission::check` and `VecDeque::try_reserve_exact`. The latter is given the length and
-- the additional slots, and answers the new capacity, which holds them.
pub record Allocator : Type 0 where
  pub check : ℕ → ℕ → Bool
  pub reserve : ℕ → ℕ → Option ℕ
  pub reserve_fits : (len add : ℕ) {cap : ℕ} → reserve len add ≡ some cap → len + add ≤ cap

-- The bit patterns of 1.0, 1.01, 16.0 and infinity as `f64`.
abbrev pub one_bits : ℕ
one_bits = 0x3ff0_0000_0000_0000

abbrev pub min_growth_bits : ℕ
min_growth_bits = 0x3ff0_28f5_c28f_5c29

abbrev pub max_growth_bits : ℕ
max_growth_bits = 0x4030_0000_0000_0000

abbrev pub infinity_bits : ℕ
infinity_bits = 0x7ff0_0000_0000_0000

abbrev pub sign_bit : ℕ
sign_bit = 0x8000_0000_0000_0000

-- A `f64` is its bit pattern.
abbrev pub is_nan : ℕ → Bool
is_nan bits = ltb infinity_bits (bits % sign_bit)

-- `significand >> (42 - exponent)`.
abbrev pub scaled_significand : ℕ → ℕ
scaled_significand bits =
    let exponent = bits / 2 ^ 52 % 2048 - 1023 in (bits % 2 ^ 52 + 2 ^ 52) / 2 ^ (42 - exponent)

-- The numerator over 1024. Between the clamps the pattern has sign 0 and exponent 1023 to 1026.
unfoldable pub float_to_ratio : ℕ → ℕ × ℕ
float_to_ratio bits =
    if is_nan bits
    then (1025, 1024)
    else (if leb sign_bit bits || ltb bits min_growth_bits
        then (1034, 1024)
        else (if leb max_growth_bits bits then (16384, 1024) else (scaled_significand bits, 1024)))

-- `target_cap` of the multiplicative growth.
abbrev pub grown_capacity : ℕ → ℕ → ℕ → ℕ → ℕ
grown_capacity cap grow_num grow_den max_elems =
    let scaled = sat_add usize_max (sat_mul usize_max cap grow_num) (grow_den - 1) in
    min (max (scaled / grow_den) (cap + 1)) max_elems

-- The loops of `admitted_initial_capacity` and `allocate_initial_ring`; each round halves the
-- request, which has 64 bits.
unfoldable pub admitted_initial_capacity : Allocator → ℕ → ℕ → ℕ → ℕ
admitted_initial_capacity a zero capacity item_bytes = 0
admitted_initial_capacity a (suc n) capacity item_bytes =
    let bytes = sat_add usize_max (capacity * item_bytes) 64 in
    let rest = admitted_initial_capacity a n (capacity / 2) item_bytes in
    if capacity == 0 then 0 else (if a.check bytes bytes then capacity else rest)

unfoldable pub allocate_initial_ring : Allocator → ℕ → ℕ → ℕ → ℕ
unfolding admitted_initial_capacity
allocate_initial_ring a zero capacity item_bytes = 0
allocate_initial_ring a (suc n) capacity item_bytes =
    let admitted = admitted_initial_capacity a 64 capacity item_bytes in
    let rest = allocate_initial_ring a n (admitted / 2) item_bytes in
    if admitted == 0 then 0 else elim (a.reserve 0 admitted) [ none ↦ rest | some slots ↦ slots ]

module _ {ℓ} {T : Type ℓ} ⦃b : ByteCost T⦄ where
  -- `while !q.is_empty() && cur_bytes + cost > max_bytes { pop_front }`; every round takes an entry.
  unfoldable pub evict_front : ℕ → ℕ → Deque T → Deque T
  evict_front zero cost d = d
  evict_front (suc n) cost d =
      let rest = evict_front n cost (pop_front d).0 in
      if not (is_empty d) && ltb d.max_bytes (wrapping_add_size d.cur_bytes cost) then rest else d

  abbrev pub pop_if : Bool → Deque T → Deque T
  pop_if test d = if test then (pop_front d).0 else d

  -- What `push_back` does once there is room.
  abbrev pub append_entry : T → ℕ → Deque T → Deque T
  append_entry v cost d = record d {
    q = d.q ++ v ∷ [];
    cur_bytes = sat_add usize_max d.cur_bytes cost;
  }

  -- The end of `push_back`: `prepare_push_fifo(cost)?` and the append.
  abbrev pub append_prepared : T → ℕ → Deque T × Result (Unit {0}) → Deque T × Result (Unit {0})
  append_prepared v cost (ready, err e) = (ready, err e)
  append_prepared v cost (ready, ok _) = (append_entry v cost ready, ok tt)

module _ {ℓ} {T : Type ℓ} ⦃b : ByteCost T⦄ (a : Allocator) where
  -- The growth at the end of `ensure_room_for_one`. `cap < max_elems` here, so that `add` is not 0,
  -- but for a capacity that cannot be counted past.
  unfoldable pub grow : Deque T → Deque T × Bool
  unfolding pop_front
  grow d =
      let target = grown_capacity d.capacity d.grow_num d.grow_den d.max_elems in
      let add = target - d.capacity in
      let bytes = sat_add usize_max (sat_mul usize_max target b.size_of) 32 in
      if ltb 0 add
      then (if a.check bytes bytes
          then elim (a.reserve (length d.q) add) [
            | none ↦ (d, false)
            | some slots ↦ (record d { capacity = slots }, true)
          ]
          else (d, false))
      else ((pop_front d).0, true)

  unfoldable pub ensure_room_for_one : Deque T → Deque T × Bool
  unfolding grow pop_front
  ensure_room_for_one d =
      if ltb (length d.q) d.capacity
      then (d, true)
      else (if d.fixed_capacity
          then ((pop_front d).0, true)
          else (if leb d.max_elems (length d.q)
              then ((pop_front d).0, true)
              else (if leb d.max_elems d.capacity then ((pop_front d).0, true) else grow d)))

  -- The two steps behind the loop of `prepare_push_fifo`.
  unfoldable pub make_slot : Deque T → Deque T
  unfolding ensure_room_for_one
  make_slot d =
      let bounded = pop_if (leb d.max_elems (length d.q)) d in
      let (roomy, found) = ensure_room_for_one bounded in pop_if (not found) roomy

  unfoldable pub prepare_push_fifo : ℕ → Deque T → Deque T × Result (Unit {0})
  unfolding evict_front make_slot
  prepare_push_fifo cost d =
      if d.capacity == 0
      then (d, err (io "queue unavailable"))
      else (if ltb d.max_bytes cost
          then (d, err (packet_too_large "Item exceeds maximum byte budget"))
          else (make_slot (evict_front (length d.q) cost d), ok tt))

  unfoldable pub push_back : T → Deque T → Deque T × Result (Unit {0})
  unfolding prepare_push_fifo
  push_back v d = let cost = b.byte_cost v in append_prepared v cost (prepare_push_fifo cost d)

  -- The value that `new` builds once its arguments have passed.
  unfoldable pub fresh : ℕ → ℕ → ℕ → Deque T
  unfolding float_to_ratio allocate_initial_ring
  fresh max_bytes starting_bytes grow_mult =
      let min_cost = max b.size_of 1 in
      let max_elems = max (max_bytes / min_cost) 1 in
      let start_cap = min (max (starting_bytes / min_cost) 1) max_elems in
      let (grow_num, grow_den) = float_to_ratio grow_mult in
      record {
        q = [];
        capacity = allocate_initial_ring a 65 start_cap min_cost;
        max_bytes = max_bytes;
        cur_bytes = 0;
        max_elems = max_elems;
        grow_num = grow_num;
        grow_den = grow_den;
        fixed_capacity = grow_mult == one_bits;
        fair_priority_cursor = u8_max;
        fair_owed_priority = 0;
        fair_owed_flags = no_flags;
      }

  -- `none` is a panic. The build is without the packet store.
  unfoldable pub new : ℕ → ℕ → ℕ → Option (Deque T)
  unfolding fresh
  new max_bytes starting_bytes grow_mult =
      if ltb max_bytes starting_bytes
        || max_bytes == 0
        || (not (is_nan grow_mult) && (leb sign_bit grow_mult || ltb grow_mult one_bits))
      then none
      else some (fresh max_bytes starting_bytes grow_mult)
