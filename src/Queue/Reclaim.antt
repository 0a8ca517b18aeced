-- ===== src/Queue/Reclaim.antt =====
-- `push_back_prioritized_select` of `BoundedDeque` (src/queue.rs) as a whole.
use sedsnet.Base.{
  get_elem?, List, length, ap, ltb, All, arith, Option, ℕ, ◌==◌, ◌⊎◌, ◌<◌, ◌≤◌, ◌+◌, ◌≡◌, false,
  true, suc, [], inr, inl, some,
}
use sedsnet.Errors.{io, err, ok}
use sedsnet.Queue.Priority.{insert_spec, IsOrdered}
use sedsnet.Queue.Admission.{total-insert_spec, insert_prioritized_prepared-IsValid}
use sedsnet.Queue.Select.{select_loop-Reclaimed, Reclaimed}
use sedsnet.Queue.Valid.{total, IsValid}
use sedsnet.Queue.Push.{is_protected, Pushed, push_back_prioritized_select, finish_push}
use sedsnet.Queue.Ring.{Deque, ByteCost}
use sedsnet.Queue.Room.{Allocator}

module _ {ℓ} {T : Type ℓ} ⦃b : ByteCost T⦄ (a : Allocator) (priority_of : T → ℕ)
    (victim : Deque T → T → Option ℕ) where
  -- What the whole push leaves: the accounting and the order of a valid queue, and only entries that
  -- may give way evicted. The item is among the rest, in order, or the pick at the end is absent or may
  -- not give way.
  pub record Selects (d : Deque T) (v : T) (r : Pushed T) : Type ℓ where
    pub valid : IsValid r.deque
    pub ordered : IsOrdered priority_of r.deque.q
    pub yielded : All (λ x. is_protected (priority_of x) (priority_of v) ≡ false) r.evicted
    pub outcome :
        ((r.result ≡ ok tt)
          × (total r.deque.q + total r.evicted ≡ total d.q + b.byte_cost v)
          × ((kept : List T) × (r.deque.q ≡ insert_spec priority_of v (priority_of v) kept)))
        ⊎ ((r.result ≡ err (io "priority queue saturated"))
            × (total r.deque.q + total r.evicted ≡ total d.q)
            × ((i : ℕ) (x : T)
                → victim r.deque v ≡ some i
                → get_elem? r.deque.q i ≡ some x
                → is_protected (priority_of x) (priority_of v) ≡ true))

  finish_push-Selects :
      {d : Deque T} (v : T) (r : Pushed T)
      → IsOrdered priority_of d.q
      → Reclaimed (b.byte_cost v) v priority_of victim d [] r
      → Selects d v (finish_push v (b.byte_cost v) (priority_of v) priority_of r)
  unfolding finish_push
  finish_push-Selects {d} v r o h = elim h.outcome [
    | inl (e, fits, slot, elem) ↦
        let i =
          insert_prioritized_prepared-IsValid priority_of v h.valid (h.ordered o) fits slot elem in
        rw (e, finish_push)
          (record {
            valid = i.0;
            ordered = i.1;
            yielded = h.yielded tt;
            outcome = inl (
              e,
              omega (
                arith,
                h.bytes,
                ap total i.2,
                total-insert_spec priority_of v (priority_of v) r.deque.q,
              ),
              (r.deque.q, i.2),
            );
          })
    | inr (e, held) ↦
        rw (e, finish_push)
          (record {
            valid = h.valid;
            ordered = h.ordered o;
            yielded = h.yielded tt;
            outcome = inr (e, omega (arith, h.bytes), held);
          })
  ]

  -- On a valid queue in descending order, whose ring has storage, a push of an item within the byte
  -- budget that lets any function pick the victims cannot override priorities: the accounting and the
  -- order are kept, only entries that may give way to the item are evicted, and the item is inserted in
  -- order, or the push ends as saturated, with no pick left that may give way.
  pub push_back_prioritized_select-Selects :
      {d : Deque T} (v : T)
      → IsValid d
      → IsOrdered priority_of d.q
      → 0 < d.capacity
      → b.byte_cost v ≤ d.max_bytes
      → Selects d v (push_back_prioritized_select a v priority_of victim d)
  unfolding push_back_prioritized_select
  push_back_prioritized_select-Selects {d} v h o c m =
      let some_slots : (d.capacity == 0) ≡ false = ground arith in
      let fits : ltb d.max_bytes (b.byte_cost v) ≡ false = ground arith in
      rw (some_slots, fits)
        (finish_push-Selects v _ o
          (select_loop-Reclaimed a priority_of victim (suc (length d.q)) v [] h c (omega arith)))
