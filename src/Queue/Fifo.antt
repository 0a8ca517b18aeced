-- ===== src/Queue/Fifo.antt =====
-- `push_back` of `BoundedDeque` (src/queue.rs): what it evicts, and that it keeps the accounting.
use sedsnet.Errors.{ok}
use sedsnet.Queue.Room.{
  append_entry, prepare_push_fifo, push_back, pop_if, make_slot, grow, grown_capacity,
  ensure_room_for_one, Allocator, evict_front,
}
use sedsnet.Base.{
  length-append, ◌==◌, if_ind, leb, some, ltb→lt, sat_mul, lt→ltb, sat_add, Bool, ◌<◌, false, true,
  ltb, not, refl, Bool-cases, inr, ◌-◌, usize_max, ◌++◌, ◌≤◌, inl, ◌∷◌, ◌≡◌, ◌+◌, arith,
  Option-cases, [], length, ℕ, List,
}
use sedsnet.Queue.Valid.{total-append, IsValid}
use sedsnet.Queue.Trims.{
  evict_front-Trims, IsSuffix, Trims-trans, length-IsSuffix, IsRoomy, length-pop_front,
  pop_front-Room, pop_front-Trims, wider-Trims, Trims-refl, Room, Trims,
}
use sedsnet.Queue.Ring.{Deque, ByteCost}

module _ {ℓ} {T : Type ℓ} ⦃b : ByteCost T⦄ (a : Allocator) where
  pub grows :
      (d : Deque T)
      → d.capacity < d.max_elems
      → let target = grown_capacity d.capacity d.grow_num d.grow_den d.max_elems in
        ltb 0 (target - d.capacity) ≡ true
  grows d h = lt→ltb _ _ (omega arith)

  grow-Room :
      {d : Deque T}
      → IsValid d
      → d.capacity ≤ length d.q
      → d.capacity < d.max_elems
      → Room d (grow a d)
  unfolding grow
  grow-Room {d} v full h =
      let target = grown_capacity d.capacity d.grow_num d.grow_den d.max_elems in
      let bytes = sat_add usize_max (sat_mul usize_max target b.size_of) 32 in
      rw (grows d h) (elim (Bool-cases (a.check bytes bytes)) [
        | inl admitted ↦ elim (Option-cases (a.reserve (length d.q) (target - d.capacity))) [
          | inl none_free ↦
              rw (admitted, none_free)
                (record { trims = Trims-refl v; found = λ e. cc; refused = λ _. refl })
          | inr (slots, e) ↦
              rw (admitted, e)
                (record {
                  trims = wider-Trims slots v (omega (arith, wide slots e));
                  found = λ _. omega (arith, wide slots e);
                  refused = λ e. cc;
                })
        ]
        | inr denied ↦
            rw denied (record { trims = Trims-refl v; found = λ e. cc; refused = λ _. refl })
      ])
    where
      wide :
          (slots : ℕ)
          → a.reserve
              (length d.q)
              (grown_capacity d.capacity d.grow_num d.grow_den d.max_elems - d.capacity)
            ≡ some slots
          → length d.q < slots
      wide slots e = omega (arith, a.reserve_fits (length d.q) _ e, ltb→lt _ _ (grows d h))

  pub ensure_room_for_one-Room :
      {d : Deque T}
      → IsValid d
      → 0 < d.capacity
      → length d.q < d.max_elems
      → Room d (ensure_room_for_one a d)
  unfolding ensure_room_for_one
  ensure_room_for_one-Room {d} v c m =
      if_ind (Room d) (ltb (length d.q) d.capacity)
        (λ free. record { trims = Trims-refl v; found = λ _. ltb→lt _ _ free; refused = λ e. cc })
        λ full.
          if_ind (Room d) d.fixed_capacity (λ _. pop_front-Room v c)
            λ _.
              if_ind (Room d) (leb d.max_elems (length d.q)) (λ _. pop_front-Room v c)
                λ _.
                  if_ind (Room d) (leb d.max_elems d.capacity) (λ _. pop_front-Room v c)
                    λ narrow. grow-Room v (ground arith) (ground arith)

  make_slot-Trims :
      {d : Deque T}
      → IsValid d
      → 0 < d.capacity
      → let e = make_slot a d in Trims d e × (length e.q < e.capacity) × (length e.q < e.max_elems)
  unfolding make_slot
  make_slot-Trims {d} v c =
      settle (ensure_room_for_one-Room bounded.0.valid (omega (arith, bounded.0.ring)) bounded.1)
    where
      e : Deque T
      e = pop_if (leb d.max_elems (length d.q)) d

      bounded : Trims d e × (length e.q < e.max_elems)
      bounded =
          if_ind (λ x. Trims d x × (length x.q < x.max_elems)) (leb d.max_elems (length d.q))
            (λ _. (pop_front-Trims v, omega (arith, length-pop_front d, (pop_front-Trims v).limit)))
            λ few. (Trims-refl v, ground arith)

      settle :
          {r : Deque T × Bool}
          → Room e r
          → let f = pop_if (not r.1) r.0 in
            Trims d f × (length f.q < f.capacity) × (length f.q < f.max_elems)
      settle {r} room =
          let p = pop_front-Trims room.trims.valid in
          let fewer = length-IsSuffix e.q r.0.q room.trims.suffix in
          let whole = Trims-trans bounded.0 room.trims in
          if_ind (λ f. Trims d f × (length f.q < f.capacity) × (length f.q < f.max_elems)) (not r.1)
            (λ _. (
              Trims-trans whole p,
              omega (arith, length-pop_front r.0, p.ring, room.trims.valid.slots, whole.ring),
              omega (arith, length-pop_front r.0, p.limit, room.trims.limit, fewer, bounded.1),
            ))
            λ found.
              (whole, room.found (ground arith), omega (arith, room.trims.limit, fewer, bounded.1))

  prepared :
      (d : Deque T) (cost : ℕ)
      → 0 < d.capacity
      → cost ≤ d.max_bytes
      → prepare_push_fifo a cost d ≡ (make_slot a (evict_front (length d.q) cost d), ok tt)
  unfolding prepare_push_fifo
  prepared d cost c m =
      let some_slots : (d.capacity == 0) ≡ false = ground arith in
      let fits : ltb d.max_bytes cost ≡ false = ground arith in rw (some_slots, fits)

  append_entry-IsValid :
      {d : Deque T} (v : T)
      → IsValid d
      → length d.q < d.capacity
      → length d.q < d.max_elems
      → d.cur_bytes + b.byte_cost v ≤ d.max_bytes
      → IsValid (append_entry v (b.byte_cost v) d)
  append_entry-IsValid {d} v h slots elems fits =
      omega (arith, total-append d.q (v ∷ []), length-append d.q (v ∷ []))

  -- On a valid queue whose budget fits a `usize` twice and whose ring has storage, an item within
  -- the budget is always accepted: it is the last one, behind what is left of the queue after
  -- entries have left at the front only, and the queue is valid again.
  pub push_back_keeps :
      {d : Deque T} (v : T)
      → IsValid d
      → IsRoomy d
      → 0 < d.capacity
      → b.byte_cost v ≤ d.max_bytes
      → let (e, res) = push_back a v d in
        (res ≡ ok tt) × ((rest : List T) × IsSuffix d.q rest × (e.q ≡ rest ++ v ∷ [])) × IsValid e
  unfolding push_back
  push_back_keeps {d} v h r c m =
      let evicted = evict_front-Trims (length d.q) (b.byte_cost v) h r m (omega arith) in
      let slot = make_slot-Trims evicted.0.valid (omega (arith, evicted.0.ring)) in
      rw (prepared d (b.byte_cost v) c m, push_back)
        (
          refl,
          (_, (Trims-trans evicted.0 slot.0).suffix, refl),
          append_entry-IsValid v slot.0.valid slot.1 slot.2
              (omega (arith, evicted.1, slot.0.used, slot.0.budget)),
        )
