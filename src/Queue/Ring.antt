-- ===== src/Queue/Ring.antt =====
-- The state of `BoundedDeque` (src/queue.rs) and the operations that take entries out of it.
-- The ring is the list of its entries from front to back, beside its capacity. `size_of::<T>()`
-- and `ByteCost::byte_cost` are those of the item type.
use sedsnet.Base.{
  ℕ, zero, suc, ◌+◌, ◌-◌, Bool, true, false, not, List, [], ◌∷◌, Option, none, some, if◌then◌else◌,
  length, get_elem?, set, head?, last?, tail, init, remove_at, position, any, sat_add, usize_max,
  ltb, u8_max,
}
use sedsnet.Errors.{Result, ok, err, bad_arg, io}

-- `trait ByteCost`, with the size of the implementing type.
pub record ByteCost {ℓ} (T : Type ℓ) : Type ℓ where
  pub byte_cost : T → ℕ
  pub size_of : ℕ

-- The bits of `fair_owed_flags`.
pub record Flags : Type 0 where
  pub pending : Bool
  pub active : Bool
  pub nested_admission : Bool

pub record Deque {ℓ} (T : Type ℓ) : Type ℓ where
  pub q : List T
  pub capacity : ℕ
  pub max_bytes : ℕ
  pub cur_bytes : ℕ
  pub max_elems : ℕ
  pub grow_num : ℕ
  pub grow_den : ℕ
  pub fixed_capacity : Bool
  pub fair_priority_cursor : ℕ
  pub fair_owed_priority : ℕ
  pub fair_owed_flags : Flags

abbrev pub no_flags : Flags
no_flags = record { pending = false; active = false; nested_admission = false }

-- Only the active bit is kept: `flags &= PRIORITY_TURN_ACTIVE`.
abbrev pub only_active : Flags → Flags
only_active f = record { pending = false; active = f.active; nested_admission = false }

module _ {ℓ} {T : Type ℓ} where
  abbrev pub is_empty : Deque T → Bool
  is_empty d = not (any (λ _. true) d.q)

  unfoldable pub clear : Deque T → Deque T
  clear d = record d {
    q = [];
    cur_bytes = 0;
    fair_priority_cursor = u8_max;
    fair_owed_flags = only_active d.fair_owed_flags;
  }

  -- The cost is not looked at: the caller's update leaves it as it was.
  unfoldable pub update_metadata : Deque T → ℕ → (T → T) → Deque T
  update_metadata d index update = elim (get_elem? d.q index) [
    | none ↦ d
    | some item ↦ record d { q = set d.q index (update item) }
  ]

  unfoldable pub lowest_priority : Deque T → (T → ℕ) → Option ℕ
  lowest_priority d priority_of = elim (last? d.q) [
    | none ↦ none
    | some item ↦ some (priority_of item)
  ]

module _ {ℓ} {T : Type ℓ} ⦃b : ByteCost T⦄ where
  unfoldable pub pop_front : Deque T → Deque T × Option T
  pop_front d = elim (head? d.q) [
    | none ↦ (d, none)
    | some v ↦ (record d { q = tail d.q; cur_bytes = d.cur_bytes - b.byte_cost v }, some v)
  ]

  unfoldable pub pop_back : Deque T → Deque T × Option T
  pop_back d = elim (last? d.q) [
    | none ↦ (d, none)
    | some v ↦ (record d { q = init d.q; cur_bytes = d.cur_bytes - b.byte_cost v }, some v)
  ]

  -- The entries descend by priority, so that the last one is of the lowest.
  unfoldable pub pop_lowest_priority : Deque T → Deque T × Option T
  unfolding pop_back
  pop_lowest_priority d = pop_back d

  unfoldable pub remove_pos : Deque T → ℕ → Deque T × Option T
  remove_pos d idx = elim (get_elem? d.q idx) [
    | none ↦ (d, none)
    | some v ↦ (record d { q = remove_at d.q idx; cur_bytes = d.cur_bytes - b.byte_cost v }, some v)
  ]

  -- `needle == x` is the item type's own test.
  unfoldable pub remove_value : Deque T → (T → Bool) → Deque T
  unfolding remove_pos
  remove_value d is_needle = elim (position is_needle d.q) [
    | none ↦ d
    | some idx ↦ (remove_pos d idx).0
  ]

  -- The loop of `retain_observed` from index `idx` on, over the `n` entries that are left, with the
  -- entries that `evicted` has seen, the latest first.
  unfoldable pub retain_loop : ℕ → Deque T → (T → Bool) → ℕ → List T → Deque T × List T
  retain_loop zero d keep idx seen = (d, seen)
  retain_loop (suc n) d keep idx seen = elim (get_elem? d.q idx) [
    | none ↦ (d, seen)
    | some v ↦
        let (next, removed) = remove_pos d idx in
        let kept = retain_loop n d keep (idx + 1) seen in
        let dropped =
          retain_loop n next keep idx (elim removed [ none ↦ seen | some old ↦ old ∷ seen ]) in
        if keep v then kept else dropped
  ]

  unfoldable pub retain_observed : Deque T → (T → Bool) → Deque T × List T
  unfolding retain_loop
  retain_observed d keep = retain_loop (length d.q) d keep 0 []

  unfoldable pub retain : Deque T → (T → Bool) → Deque T
  unfolding retain_observed
  retain d keep = (retain_observed d keep).0

  unfoldable pub update_admitted : Deque T → ℕ → ℕ → (T → T) → Deque T × Result (Unit {0})
  update_admitted d index new_cost update = elim (get_elem? d.q index) [
    | none ↦ (d, err bad_arg)
    | some item ↦
        let used = sat_add usize_max (d.cur_bytes - b.byte_cost item) new_cost in
        if ltb d.max_bytes used
        then (d, err (io "queue full"))
        else (record d { q = set d.q index (update item); cur_bytes = used }, ok tt)
  ]
