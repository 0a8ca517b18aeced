-- ===== src/Queue/Push.antt =====
-- The prioritized pushes of `BoundedDeque` (src/queue.rs). Priorities are `u8`; the closures
-- `priority_of` and `victim` are functions, and `evicted` is the list of what it is called with, the
-- latest first.
use sedsnet.Base.{
  ℕ, zero, suc, Bool, true, false, ◌&&◌, ◌||◌, List, [], ◌∷◌, ◌++◌, Option, none, some,
  if◌then◌else◌, length, get_elem?, head?, last?, insert_at, partition_point, sat_add, usize_max,
  ltb, leb, ◌==◌,
}
use sedsnet.Errors.{Result, ok, err, io, packet_too_large}
use sedsnet.Queue.Ring.{ByteCost, Deque, pop_back, remove_pos}
use sedsnet.Queue.Room.{Allocator, ensure_room_for_one}

pub record Pushed {ℓ} (T : Type ℓ) : Type ℓ where
  pub deque : Deque T
  pub evicted : List T
  pub result : Result (Unit {0})

-- The entry of priority `old` may not give way to one of priority `priority`.
abbrev pub is_protected : ℕ → ℕ → Bool
is_protected old priority = ltb priority old || (priority == 254 && old == priority)

module _ {ℓ} {T : Type ℓ} where
  -- `self.q.back().is_none_or(test)` and `self.q.front().is_some_and(test)`.
  abbrev pub is_none_or : Option T → (T → Bool) → Bool
  is_none_or none test = true
  is_none_or (some v) test = test v

  abbrev pub is_some_and : Option T → (T → Bool) → Bool
  is_some_and none test = false
  is_some_and (some v) test = test v

  -- Where the new entry goes.
  unfoldable pub insert_ordered : T → ℕ → (T → ℕ) → List T → List T
  insert_ordered v priority priority_of q =
      if is_none_or (last? q) (λ back. leb priority (priority_of back))
      then q ++ v ∷ []
      else (if is_some_and (head? q) (λ front. ltb (priority_of front) priority)
          then v ∷ q
          else insert_at q (partition_point (λ x. leb priority (priority_of x)) q) v)

  unfoldable pub insert_prioritized_prepared : T → ℕ → ℕ → (T → ℕ) → Deque T → Deque T
  unfolding insert_ordered
  insert_prioritized_prepared v cost priority priority_of d = record d {
    q = insert_ordered v priority priority_of d.q;
    cur_bytes = sat_add usize_max d.cur_bytes cost;
  }

  -- The admission limits that the loop of each push tests.
  abbrev pub over_limit : ℕ → Deque T → Bool
  over_limit cost d =
      ltb d.max_bytes (sat_add usize_max d.cur_bytes cost)
      || leb d.max_elems (length d.q)
      || (d.fixed_capacity && leb d.capacity (length d.q))

  -- What the push does once its loop has ended.
  unfoldable pub finish_push : T → ℕ → ℕ → (T → ℕ) → Pushed T → Pushed T
  unfolding insert_prioritized_prepared
  finish_push v cost priority priority_of p = elim p.result [
    | err e ↦ p
    | ok _ ↦ record p { deque = insert_prioritized_prepared v cost priority priority_of p.deque }
  ]

module _ {ℓ} {T : Type ℓ} ⦃b : ByteCost T⦄ (a : Allocator) where
  -- `!limit && ensure_room_for_one()`
  unfoldable pub find_room : ℕ → Deque T → Deque T × Bool
  unfolding ensure_room_for_one
  find_room cost d = if over_limit cost d then (d, false) else ensure_room_for_one a d

  -- The loop of `push_back_prioritized_observed`. Each round but the last takes an entry from the
  -- back, so one more round than there are entries is enough.
  unfoldable pub push_loop : ℕ → ℕ → ℕ → (T → ℕ) → Deque T → List T → Pushed T
  push_loop zero cost priority priority_of d seen = record {
    deque = d;
    evicted = seen;
    result = err (io "queue unavailable");
  }
  push_loop (suc n) cost priority priority_of d seen =
      let (roomy, found) = find_room cost d in
      let rest : Pushed T = elim (last? roomy.q) [
        | none ↦ record { deque = roomy; evicted = seen; result = err (io "queue unavailable") }
        | some old ↦ push_loop n cost priority priority_of (pop_back roomy).0 (old ∷ seen)
      ] in
      let tail_priority : ℕ = elim (last? roomy.q) [ none ↦ 0 | some back ↦ priority_of back ] in
      if found
      then record { deque = roomy; evicted = seen; result = ok tt }
      else (if is_protected tail_priority priority
          then record {
            deque = roomy;
            evicted = seen;
            result = err (io "priority queue saturated");
          }
          else rest)

  unfoldable pub push_back_prioritized : T → (T → ℕ) → Deque T → Pushed T
  unfolding push_loop finish_push
  push_back_prioritized v priority_of d =
      let cost = b.byte_cost v in
      let priority = priority_of v in
      if d.capacity == 0
      then record { deque = d; evicted = []; result = err (io "queue unavailable") }
      else (if ltb d.max_bytes cost
          then record {
            deque = d;
            evicted = [];
            result = err (packet_too_large "Item exceeds maximum byte budget");
          }
          else finish_push v cost priority priority_of
              (push_loop (suc (length d.q)) cost priority priority_of d []))

  -- The loop of `push_back_prioritized_select`, where `victim` picks the entry that gives way.
  unfoldable pub select_loop :
      ℕ → T → ℕ → ℕ → (T → ℕ) → (Deque T → T → Option ℕ) → Deque T → List T → Pushed T
  select_loop zero v cost priority priority_of victim d seen = record {
    deque = d;
    evicted = seen;
    result = err (io "priority queue saturated");
  }
  select_loop (suc n) v cost priority priority_of victim d seen =
      let (roomy, found) = find_room cost d in
      let refused : Pushed T = record {
        deque = roomy;
        evicted = seen;
        result = err (io "priority queue saturated");
      } in
      let rest : Pushed T = elim (victim roomy v) [
        | none ↦ refused
        | some index ↦ elim (get_elem? roomy.q index) [
          | none ↦ refused
          | some old ↦
              let gone =
                select_loop n v cost priority priority_of victim (remove_pos roomy index).0
                  (old ∷ seen) in
              if is_protected (priority_of old) priority then refused else gone
        ]
      ] in
      if found then record { deque = roomy; evicted = seen; result = ok tt } else rest

  unfoldable pub push_back_prioritized_select :
      T → (T → ℕ) → (Deque T → T → Option ℕ) → Deque T → Pushed T
  unfolding select_loop finish_push
  push_back_prioritized_select v priority_of victim d =
      let cost = b.byte_cost v in
      let priority = priority_of v in
      if d.capacity == 0
      then record { deque = d; evicted = []; result = err (io "queue unavailable") }
      else (if ltb d.max_bytes cost
          then record {
            deque = d;
            evicted = [];
            result = err (packet_too_large "Item exceeds maximum byte budget");
          }
          else finish_push v cost priority priority_of
              (select_loop (suc (length d.q)) v cost priority priority_of victim d []))
