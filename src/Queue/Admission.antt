-- ===== src/Queue/Admission.antt =====
-- `push_back_prioritized` of `BoundedDeque` (src/queue.rs) as a whole.
use sedsnet.Errors.{ok, io, err}
use sedsnet.Base.{
  true, some, last?, inr, inl, sym, ◌⊎◌, subst, ap, append-nil, refl, ltb, suc, arith, false, ◌==◌,
  ◌∙◌, ◌≡◌, [], ◌∷◌, ◌≤◌, ◌++◌, ◌<◌, All, ◌+◌, length, List, ℕ,
}
use sedsnet.Queue.Priority.{
  insert_spec-IsOrdered, insert_ordered-insert_spec, insert_spec, IsOrdered,
}
use sedsnet.Queue.Order.{push_loop-Drained, Drained}
use sedsnet.Queue.Push.{
  is_protected, push_back_prioritized, Pushed, finish_push, insert_prioritized_prepared,
}
use sedsnet.Queue.Valid.{IsValid, total}
use sedsnet.Queue.Room.{Allocator}
use sedsnet.Queue.Ring.{Deque, ByteCost}

module _ {ℓ} {T : Type ℓ} (priority_of : T → ℕ) where
  pub IsOrdered-prefix :
      (xs ys : List T) → IsOrdered priority_of (xs ++ ys) → IsOrdered priority_of xs
  IsOrdered-prefix [] ys o = tt
  IsOrdered-prefix (x ∷ xs) ys o = (All-prefix _ xs ys o.0, IsOrdered-prefix xs ys o.1)
    where
      All-prefix : (P : T → Type 0) (xs ys : List T) → All P (xs ++ ys) → All P xs
      All-prefix P [] ys h = tt
      All-prefix P (x ∷ xs) ys h = (h.0, All-prefix P xs ys h.1)

module _ {ℓ} {T : Type ℓ} ⦃b : ByteCost T⦄ (priority_of : T → ℕ) where
  pub total-insert_spec :
      (v : T) (p : ℕ) (xs : List T)
      → total (insert_spec priority_of v p xs) ≡ b.byte_cost v + total xs
  total-insert_spec v p [] = refl
  total-insert_spec v p (x ∷ xs) = ground (arith, total-insert_spec v p xs)

  pub length-insert_spec :
      (v : T) (p : ℕ) (xs : List T) → length (insert_spec priority_of v p xs) ≡ suc (length xs)
  length-insert_spec v p [] = refl
  length-insert_spec v p (x ∷ xs) = ground (arith, length-insert_spec v p xs)

  -- The insertion into a valid, descending queue with room for the item keeps the accounting and the
  -- order, and puts the item where the reference insertion does.
  pub insert_prioritized_prepared-IsValid :
      {d : Deque T} (v : T)
      → IsValid d
      → IsOrdered priority_of d.q
      → d.cur_bytes + b.byte_cost v ≤ d.max_bytes
      → length d.q < d.capacity
      → length d.q < d.max_elems
      → let e = insert_prioritized_prepared v (b.byte_cost v) (priority_of v) priority_of d in
        IsValid e
        × IsOrdered priority_of e.q
        × (e.q ≡ insert_spec priority_of v (priority_of v) d.q)
  unfolding insert_prioritized_prepared
  insert_prioritized_prepared-IsValid {d} v h o fits slots elems =
      let e = insert_ordered-insert_spec priority_of v (priority_of v) d.q o in
      (
        omega (
          arith,
          ap total e,
          ap length e,
          total-insert_spec v (priority_of v) d.q,
          length-insert_spec v (priority_of v) d.q,
        ),
        subst (IsOrdered priority_of) (sym e) (insert_spec-IsOrdered priority_of v d.q o),
        e,
      )

  -- What a prioritized push of `v` leaves of the queue `d`: accepted, `v` stands in order among the
  -- entries that stay; refused, the queue ends with an entry that may not give way. What was evicted
  -- stood last, and each of it may give way to `v`.
  pub record Admits (d : Deque T) (v : T) (r : Pushed T) : Type ℓ where
    pub valid : IsValid r.deque
    pub ordered : IsOrdered priority_of r.deque.q
    pub yielded : All (λ x. is_protected (priority_of x) (priority_of v) ≡ false) r.evicted
    pub outcome :
        ((r.result ≡ ok tt)
          × ((kept : List T) × (kept ++ r.evicted ≡ d.q)
              × (r.deque.q ≡ insert_spec priority_of v (priority_of v) kept)))
        ⊎ ((r.result ≡ err (io "priority queue saturated"))
            × (r.deque.q ++ r.evicted ≡ d.q)
            × ((x : T) × (last? r.deque.q ≡ some x)
                × (is_protected (priority_of x) (priority_of v) ≡ true)))

  finish_push-Admits :
      {d : Deque T} (v : T) (r : Pushed T)
      → IsOrdered priority_of d.q
      → Drained (b.byte_cost v) (priority_of v) priority_of d [] r
      → Admits d v (finish_push v (b.byte_cost v) (priority_of v) priority_of r)
  unfolding finish_push
  finish_push-Admits {d} v r o h = elim h.outcome [
    | inl (e, fits, slot, elem) ↦
        let i = insert_prioritized_prepared-IsValid v h.valid kept_order fits slot elem in
        rw (e, finish_push)
          (record {
            valid = i.0;
            ordered = i.1;
            yielded = h.yielded tt;
            outcome = inl (e, (r.deque.q, whole, i.2));
          })
    | inr (e, held) ↦
        rw (e, finish_push)
          (record {
            valid = h.valid;
            ordered = kept_order;
            yielded = h.yielded tt;
            outcome = inr (e, whole, held);
          })
  ]
    where
      whole : r.deque.q ++ r.evicted ≡ d.q
      whole = h.order ∙ append-nil d.q

      kept_order : IsOrdered priority_of r.deque.q
      kept_order =
          IsOrdered-prefix priority_of r.deque.q r.evicted
            (subst (IsOrdered priority_of) (sym whole) o)

module _ {ℓ} {T : Type ℓ} ⦃b : ByteCost T⦄ (a : Allocator) (priority_of : T → ℕ) where
  -- On a valid queue in descending order, whose ring has storage, an item within the byte budget is
  -- pushed so that the accounting and the order are kept; only entries at the back that may give way
  -- to the item are evicted; and the item is then inserted in order among the rest, or the push
  -- stops at an entry that may not give way and reports saturation.
  pub push_back_prioritized-Admits :
      {d : Deque T} (v : T)
      → IsValid d
      → IsOrdered priority_of d.q
      → 0 < d.capacity
      → b.byte_cost v ≤ d.max_bytes
      → Admits priority_of d v (push_back_prioritized a v priority_of d)
  unfolding push_back_prioritized
  push_back_prioritized-Admits {d} v h o c m =
      let some_slots : (d.capacity == 0) ≡ false = ground arith in
      let fits : ltb d.max_bytes (b.byte_cost v) ≡ false = ground arith in
      rw (some_slots, fits)
        (finish_push-Admits priority_of v _ o (
          push_loop-Drained a (suc (length d.q)) (b.byte_cost v) (priority_of v) priority_of [] h c
            m (omega arith)))
