-- ===== src/Queue/Select.antt =====
-- `push_back_prioritized_select` of `BoundedDeque` (src/queue.rs), for any function that picks the
-- entry that gives way.
use sedsnet.Errors.{err, ok, io}
use sedsnet.Queue.Valid.{total-remove_at, remove_pos-IsValid, length-remove_at, total, IsValid}
use sedsnet.Base.{
  some-injective, opt_ind, if_ind, ap, sym, subst, arith, length, remove_at, Option, All, get_elem?,
  List, ℕ, ◌⊎◌, ◌∙◌, ◌-◌, ◌<◌, ◌≤◌, ◌+◌, ◌≡◌, refl, false, true, suc, zero, ◌∷◌, [], inr, inl, some,
}
use sedsnet.Queue.Priority.{IsOrdered}
use sedsnet.Queue.Push.{find_room, is_protected, select_loop, Pushed}
use sedsnet.Queue.Order.{find_room-Space}
use sedsnet.Queue.Room.{Allocator}
use sedsnet.Queue.Ring.{Deque, remove_pos, ByteCost}

module _ {ℓ} {T : Type ℓ} (priority_of : T → ℕ) where
  All-remove_at {κ} : (P : T → Type κ) (xs : List T) (i : ℕ) → All P xs → All P (remove_at xs i)
  All-remove_at P [] i h = tt
  All-remove_at P (x ∷ xs) zero h = h.1
  All-remove_at P (x ∷ xs) (suc i) h = (h.0, All-remove_at P xs i h.1)

  pub remove_at-IsOrdered :
      (xs : List T) (i : ℕ) → IsOrdered priority_of xs → IsOrdered priority_of (remove_at xs i)
  remove_at-IsOrdered [] i o = tt
  remove_at-IsOrdered (x ∷ xs) zero o = o.1
  remove_at-IsOrdered (x ∷ xs) (suc i) o = (All-remove_at _ xs i o.0, remove_at-IsOrdered xs i o.1)

module _ {ℓ} {T : Type ℓ} ⦃b : ByteCost T⦄ where
  remove_pos_shape :
      (d : Deque T) (i : ℕ) {x : T}
      → get_elem? d.q i ≡ some x
      → (remove_pos d i).0
        ≡ record d { q = remove_at d.q i; cur_bytes = d.cur_bytes - b.byte_cost x }
  unfolding remove_pos
  remove_pos_shape d i e = rw (e, remove_pos)

  same_pick :
      (picked : Option ℕ) (q : List T) {i j : ℕ} {x y : T}
      → picked ≡ some i
      → picked ≡ some j
      → get_elem? q i ≡ some x
      → get_elem? q j ≡ some y
      → x ≡ y
  same_pick picked q {i} {j} e f g h =
      let same : i ≡ j = some-injective _ _ (sym e ∙ f) in
      some-injective _ _ (sym g ∙ ap (get_elem? q) same ∙ h)

  -- What the loop leaves, however its victims are picked: a valid queue in the same order, without the
  -- bytes of what it has evicted, each of which may give way. It ends with room under every limit, or
  -- at a pick that may not give way.
  pub record Reclaimed (cost : ℕ) (v : T) (priority_of : T → ℕ) (victim : Deque T → T → Option ℕ)
      (d : Deque T) (seen : List T) (r : Pushed T) : Type ℓ where
    pub valid : IsValid r.deque
    pub budget : r.deque.max_bytes ≡ d.max_bytes
    pub ordered : IsOrdered priority_of d.q → IsOrdered priority_of r.deque.q
    pub bytes : total r.deque.q + total r.evicted ≡ total d.q + total seen
    pub yielded :
        All (λ x. is_protected (priority_of x) (priority_of v) ≡ false) seen
        → All (λ x. is_protected (priority_of x) (priority_of v) ≡ false) r.evicted
    pub outcome :
        ((r.result ≡ ok tt)
          × (r.deque.cur_bytes + cost ≤ r.deque.max_bytes)
          × (length r.deque.q < r.deque.capacity)
          × (length r.deque.q < r.deque.max_elems))
        ⊎ ((r.result ≡ err (io "priority queue saturated"))
            × ((i : ℕ) (x : T)
                → victim r.deque v ≡ some i
                → get_elem? r.deque.q i ≡ some x
                → is_protected (priority_of x) (priority_of v) ≡ true))

module _ {ℓ} {T : Type ℓ} ⦃b : ByteCost T⦄ (a : Allocator) (priority_of : T → ℕ)
    (victim : Deque T → T → Option ℕ) where
  pub select_loop-Reclaimed :
      (n : ℕ) (v : T) {d : Deque T} (seen : List T)
      → IsValid d
      → 0 < d.capacity
      → length d.q < n
      → Reclaimed
          (b.byte_cost v)
          v
          priority_of
          victim
          d
          seen
          (select_loop a n v (b.byte_cost v) (priority_of v) priority_of victim d seen)
  unfolding select_loop
  select_loop-Reclaimed zero v seen h c m = absurd (omega arith)
  select_loop-Reclaimed (suc n) v {d} seen h c m =
      let cost = b.byte_cost v in
      let r = find_room a cost d in
      let space = find_room-Space a cost h c in
      let Goal : Pushed T → Type ℓ = Reclaimed cost v priority_of victim d seen in
      let order : IsOrdered priority_of d.q → IsOrdered priority_of r.0.q =
        subst (IsOrdered priority_of) (sym space.entries) in
      let held : ((i : ℕ) (x : T)
            → victim r.0 v ≡ some i
            → get_elem? r.0.q i ≡ some x
            → is_protected (priority_of x) (priority_of v) ≡ true)
          → Goal (record {
            deque = r.0;
            evicted = seen;
            result = err (io "priority queue saturated");
          }) =
        λ stuck. record {
          valid = space.valid;
          budget = space.budget;
          ordered = order;
          bytes = omega (arith, ap total space.entries);
          yielded = λ y. y;
          outcome = inr (refl, stuck);
        } in
      if_ind Goal r.1
        (λ found. record {
          valid = space.valid;
          budget = space.budget;
          ordered = order;
          bytes = omega (arith, ap total space.entries);
          yielded = λ y. y;
          outcome = inl (
            refl,
            omega (arith, space.bytes found, space.used, space.budget),
            space.slot found,
            omega (arith, space.elem found, ap length space.entries, space.limit),
          );
        })
        λ full.
          opt_ind Goal (victim r.0 v) (λ nobody. held (λ i x picked. absurd (cc)))
            λ index picked.
              opt_ind Goal (get_elem? r.0.q index)
                (λ outside. held (λ i x p at_i. absurd (cc (some-injective _ _ (sym picked ∙ p)))))
                λ old at_old.
                  if_ind Goal (is_protected (priority_of old) (priority_of v))
                    (λ strong. held λ i x p at_i.
                      subst (λ y. is_protected (priority_of y) (priority_of v) ≡ true)
                        (same_pick (victim r.0 v) r.0.q picked p at_old at_i) strong)
                    λ weak.
                      let p = remove_pos_shape r.0 index at_old in
                      let ring : 0 < (remove_pos r.0 index).0.capacity =
                        omega (arith, ap (λ (x : Deque T). x.capacity) p, space.ring) in
                      let fewer : length (remove_pos r.0 index).0.q < n = omega (
                        arith,
                        ap (λ (x : Deque T). length x.q) p,
                        length-remove_at r.0.q index at_old,
                        ap length space.entries,
                      ) in
                      let rest =
                        select_loop-Reclaimed n v (old ∷ seen)
                          (remove_pos-IsValid index space.valid) ring fewer in
                      record {
                        valid = rest.valid;
                        budget = rest.budget ∙ ap (λ (x : Deque T). x.max_bytes) p ∙ space.budget;
                        ordered = λ o. rest.ordered (
                            subst (λ (x : Deque T). IsOrdered priority_of x.q) (sym p)
                              (remove_at-IsOrdered priority_of r.0.q index (order o)));
                        bytes = omega (
                          arith,
                          rest.bytes,
                          ap (λ (x : Deque T). total x.q) p,
                          total-remove_at r.0.q index at_old,
                          ap total space.entries,
                        );
                        yielded = λ y. rest.yielded (weak, y);
                        outcome = rest.outcome;
                      }
