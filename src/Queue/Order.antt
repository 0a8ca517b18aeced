-- ===== src/Queue/Order.antt =====
-- The loop of `push_back_prioritized` of `BoundedDeque` (src/queue.rs).
use sedsnet.Errors.{ok, io, err}
use sedsnet.Base.{
  ◌-◌, init-append_last, init, length-init, ◌∷◌, inr, Option-cases, inl, last?-eq-none, ◌∙◌, sym,
  none, zero, some, ◌⊎◌, last?, All, ◌++◌, suc, List, refl, ap, ◌≤◌, ◌+◌, [], arith, true, ltb,
  opt_ind, if_ind, Bool, false, ◌≡◌, leb, ℕ, ◌&&◌, ◌<◌, length,
}
use sedsnet.Queue.Ring.{pop_back, Deque, ByteCost}
use sedsnet.Queue.Valid.{pop_back-IsValid, total, IsValid}
use sedsnet.Queue.Push.{is_protected, Pushed, push_loop, over_limit, find_room}
use sedsnet.Queue.Fifo.{ensure_room_for_one-Room, grows}
use sedsnet.Queue.Room.{grow, ensure_room_for_one, Allocator}

module _ {ℓ} {T : Type ℓ} ⦃b : ByteCost T⦄ where
  pub pop_back_shape :
      (d : Deque T) {v : T}
      → last? d.q ≡ some v
      → (pop_back d).0 ≡ record d { q = init d.q; cur_bytes = d.cur_bytes - b.byte_cost v }
  unfolding pop_back
  pop_back_shape d e = rw (e, pop_back)

  -- What the loop leaves. The entries that it has evicted are the last ones of the queue, each of
  -- which may give way to the new one; it ends with room under every limit, or at an entry that may
  -- not give way.
  pub record Drained (cost priority : ℕ) (priority_of : T → ℕ) (d : Deque T) (seen : List T)
      (r : Pushed T) : Type ℓ where
    pub valid : IsValid r.deque
    pub budget : r.deque.max_bytes ≡ d.max_bytes
    pub limit : r.deque.max_elems ≡ d.max_elems
    pub order : r.deque.q ++ r.evicted ≡ d.q ++ seen
    pub yielded :
        All (λ x. is_protected (priority_of x) priority ≡ false) seen
        → All (λ x. is_protected (priority_of x) priority ≡ false) r.evicted
    pub outcome :
        ((r.result ≡ ok tt)
          × (r.deque.cur_bytes + cost ≤ r.deque.max_bytes)
          × (length r.deque.q < r.deque.capacity)
          × (length r.deque.q < r.deque.max_elems))
        ⊎ ((r.result ≡ err (io "priority queue saturated"))
            × ((x : T) × (last? r.deque.q ≡ some x)
                × (is_protected (priority_of x) priority ≡ true)))

module _ {ℓ} {T : Type ℓ} ⦃b : ByteCost T⦄ (a : Allocator) where
  grow_shape :
      (d : Deque T)
      → d.capacity < d.max_elems
      → (slots : ℕ) × ((grow a d).0 ≡ record d { capacity = slots })
  unfolding grow
  grow_shape d h =
      let P : Deque T × Bool → Type ℓ = λ r. (slots : ℕ) × (r.0 ≡ record d { capacity = slots }) in
      rw (grows a d h) (
        if_ind P (a.check _ _)
          (λ _. opt_ind P (a.reserve _ _) (λ _. (d.capacity, refl)) λ slots _. (slots, refl))
          λ _. (d.capacity, refl))

  ensure_shape :
      (d : Deque T)
      → length d.q < d.max_elems
      → d.fixed_capacity && leb d.capacity (length d.q) ≡ false
      → (slots : ℕ) × ((ensure_room_for_one a d).0 ≡ record d { capacity = slots })
  unfolding ensure_room_for_one
  ensure_shape d h f =
      let P : Deque T × Bool → Type ℓ = λ r. (slots : ℕ) × (r.0 ≡ record d { capacity = slots }) in
      if_ind P (ltb (length d.q) d.capacity) (λ _. (d.capacity, refl))
        λ full.
          if_ind P d.fixed_capacity (λ fixed. absurd (ground arith))
            λ _.
              if_ind P (leb d.max_elems (length d.q)) (λ many. absurd (ground arith))
                λ _.
                  if_ind P (leb d.max_elems d.capacity) (λ wide. absurd (ground arith))
                    λ narrow. grow_shape d (ground arith)

  -- The outcome of one search for room at the back: the entries and their bytes are untouched; found,
  -- the new entry fits every limit; an empty queue with storage always has room.
  pub record Space (cost : ℕ) (d : Deque T) (r : Deque T × Bool) : Type ℓ where
    pub valid : IsValid r.0
    pub entries : r.0.q ≡ d.q
    pub used : r.0.cur_bytes ≡ d.cur_bytes
    pub budget : r.0.max_bytes ≡ d.max_bytes
    pub limit : r.0.max_elems ≡ d.max_elems
    pub ring : d.capacity ≤ r.0.capacity
    pub bytes : r.1 ≡ true → d.cur_bytes + cost ≤ d.max_bytes
    pub slot : r.1 ≡ true → length r.0.q < r.0.capacity
    pub elem : r.1 ≡ true → length d.q < d.max_elems
    pub free : d.q ≡ [] → cost ≤ d.max_bytes → 0 < d.capacity → r.1 ≡ true

  pub find_room-Space :
      (cost : ℕ) {d : Deque T} → IsValid d → 0 < d.capacity → Space cost d (find_room a cost d)
  unfolding find_room
  find_room-Space cost {d} v c =
      if_ind (Space cost d) (over_limit cost d)
        (λ over. record {
          valid = v;
          entries = refl;
          used = refl;
          budget = refl;
          limit = refl;
          ring = omega arith;
          bytes = λ e. cc;
          slot = λ e. cc;
          elem = λ e. cc;
          free = λ e m p. absurd (never_over over e m);
        })
        λ under.
          let room = ensure_room_for_one-Room a v c (ground arith) in
          let shape = ensure_shape d (ground arith) (ground arith) in
          record {
            valid = room.trims.valid;
            entries = ap (λ e. e.q) shape.1;
            used = ap (λ e. e.cur_bytes) shape.1;
            budget = room.trims.budget;
            limit = room.trims.limit;
            ring = room.trims.ring;
            bytes = λ _. ground arith;
            slot = room.found;
            elem = λ _. ground arith;
            free = λ e m p.
                if_ind {A = Deque T × Bool} (λ r. r.1 ≡ true) (ltb (length d.q) d.capacity)
                  (λ _. refl) λ full. absurd (ground (arith, ap length e));
          }
    where
      never_over : over_limit cost d ≡ true → d.q ≡ [] → cost ≤ d.max_bytes → ⊥
      never_over over e m = ground (arith, ap length e, ap total e, v.counted, v.some_elems, v.word)

  -- On a valid queue with storage, the loop of the prioritized push with at least one round more
  -- than there are entries ends with room for the new entry under every limit, or at a last entry
  -- that may not give way; what it has evicted are the last entries, each of which may give way.
  pub push_loop-Drained :
      (n cost priority : ℕ) (priority_of : T → ℕ) {d : Deque T} (seen : List T)
      → IsValid d
      → 0 < d.capacity
      → cost ≤ d.max_bytes
      → length d.q < n
      → Drained cost priority priority_of d seen (push_loop a n cost priority priority_of d seen)
  unfolding push_loop
  push_loop-Drained zero cost priority priority_of seen v c m h = absurd (omega arith)
  push_loop-Drained (suc n) cost priority priority_of {d} seen v c m h =
      let space = find_room-Space cost v c in
      let r = find_room a cost d in
      let empty : last? r.0.q ≡ none → r.1 ≡ true =
        λ e. space.free (sym space.entries ∙ last?-eq-none r.0.q e) m c in
      if_ind (Drained cost priority priority_of d seen) r.1
        (λ found. record {
          valid = space.valid;
          budget = space.budget;
          limit = space.limit;
          order = ap (λ q. q ++ seen) space.entries;
          yielded = λ y. y;
          outcome = inl (
            refl,
            omega (arith, space.bytes found, space.used, space.budget),
            space.slot found,
            omega (arith, space.elem found, ap length space.entries, space.limit),
          );
        })
        λ full.
          if_ind (Drained cost priority priority_of d seen) (is_protected _ priority)
            (λ held. elim (Option-cases (last? r.0.q)) [
              | inl e ↦ cc (empty e)
              | inr (x, e) ↦ record {
                valid = space.valid;
                budget = space.budget;
                limit = space.limit;
                order = ap (λ q. q ++ seen) space.entries;
                yielded = λ y. y;
                outcome = inr (refl, (x, e, rw e at held));
              }
            ])
            λ yields.
              opt_ind (Drained cost priority priority_of d seen) (last? r.0.q) (λ e. cc (empty e))
                λ old e.
                  let p = pop_back_shape r.0 e in
                  let rest =
                    push_loop-Drained n cost priority priority_of {d = (pop_back r.0).0}
                      (old ∷ seen) (pop_back-IsValid space.valid)
                      (omega (arith, ap (λ (x : Deque T). x.capacity) p, space.ring))
                      (omega (arith, ap (λ (x : Deque T). x.max_bytes) p, space.budget))
                      (omega (
                        arith,
                        ap (λ (x : Deque T). length x.q) p,
                        length-init r.0.q,
                        some_entry r.0.q e,
                        ap length space.entries,
                      )) in
                  record {
                    valid = rest.valid;
                    budget = rest.budget ∙ ap (λ (x : Deque T). x.max_bytes) p ∙ space.budget;
                    limit = rest.limit ∙ ap (λ (x : Deque T). x.max_elems) p ∙ space.limit;
                    order =
                        rest.order
                        ∙ ap (λ (x : Deque T). x.q ++ old ∷ seen) p
                        ∙ init-append_last r.0.q seen e
                        ∙ ap (λ q. q ++ seen) space.entries;
                    yielded = λ y. rest.yielded (rw e at yields, y);
                    outcome = rest.outcome;
                  }
    where
      some_entry : (xs : List T) {x : T} → last? xs ≡ some x → 0 < length xs
      some_entry [] e = cc
      some_entry (x ∷ xs) e = omega arith
