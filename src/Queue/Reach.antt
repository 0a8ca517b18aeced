-- ===== src/Queue/Reach.antt =====
-- The life of a `BoundedDeque` (src/queue.rs) that is used by priorities: any operations, one after the
-- other, on a queue that `new` has built.
use sedsnet.Queue.Ring.{
  update_metadata, remove_value, clear, update_admitted, retain_observed, remove_pos, pop_back,
  pop_front, Deque, ByteCost,
}
use sedsnet.Queue.TurnKept.{
  cancel_deferred_turn-IsKept, finish_deferred_turn-IsKept, select_front_fair_deferred-IsKept,
}
use sedsnet.Queue.Kept.{
  update_metadata-IsKept, remove_value-IsKept, pop_front_bulk_fair-IsKept, clear-IsKept,
  update_admitted-IsKept, retain_observed-IsKept, remove_pos-IsKept, pop_back-IsKept,
  pop_front-IsKept, IsKept,
}
use sedsnet.Queue.Turn.{
  pop_front_bulk_fair, cancel_deferred_turn, finish_deferred_turn, select_front_fair_deferred,
}
use sedsnet.Base.{
  some-injective, sym, subst, usize_max, Bool-cases, ◌∙◌, inr, inl, Bool, get_elem?, arith, List,
  ltb, Option, ℕ, ◌==◌, ◌<◌, ◌≡◌, true, ◌∷◌, some,
}
use sedsnet.Queue.Growth.{new-IsValid}
use sedsnet.Queue.Priority.{IsOrdered}
use sedsnet.Queue.Admission.{push_back_prioritized-Admits}
use sedsnet.Queue.Reclaim.{push_back_prioritized_select-Selects}
use sedsnet.Queue.Room.{new, Allocator}
use sedsnet.Queue.GroupFits.{replace_prepared_group-Holds, group_of}
use sedsnet.Queue.Valid.{IsValid}
use sedsnet.Queue.BatchFits.{push_batch-succeeds, push_batch, costs_of}
use sedsnet.Queue.Batch.{replace_prepared_group, fits_replacement_group, fits_prepared_batch}
use sedsnet.Queue.Push.{push_back_prioritized_select, push_back_prioritized}

module _ {ℓ} {T : Type ℓ} ⦃b : ByteCost T⦄ (priority_of : T → ℕ) where
  -- One operation. Each has its own allocator, since the memory that is free changes between them.
  pub data Step : Deque T → Deque T → Type ℓ where
    push :
        (d : Deque T) (a : Allocator) (v : T)
        → Step d (push_back_prioritized a v priority_of d).deque
    push_select :
        (d : Deque T) (a : Allocator) (v : T) (victim : Deque T → T → Option ℕ)
        → Step d (push_back_prioritized_select a v priority_of victim d).deque
    push_all :
        (d e : Deque T) (xs : List T)
        → fits_prepared_batch d (costs_of priority_of xs) ≡ true
        → push_batch priority_of xs d ≡ some e
        → Step d e
    replace_all :
        (d e : Deque T) (index : ℕ) (first : T) (rest : List T) (old : T)
        → get_elem? d.q index ≡ some old
        → priority_of first ≡ priority_of old
        → fits_replacement_group d index (costs_of priority_of (first ∷ rest)) ≡ true
        → replace_prepared_group index (group_of priority_of (first ∷ rest)) priority_of d ≡ some e
        → Step d e
    take_front : (d : Deque T) → Step d (pop_front d).0
    take_back : (d : Deque T) → Step d (pop_back d).0
    take_pos : (d : Deque T) (i : ℕ) → Step d (remove_pos d i).0
    keep_some : (d : Deque T) (keep : T → Bool) → Step d (retain_observed d keep).0
    update :
        (d : Deque T) (i cost : ℕ) (f : T → T)
        → ((x : T) → b.byte_cost (f x) ≡ cost)
        → ((x : T) → priority_of (f x) ≡ priority_of x)
        → Step d (update_admitted d i cost f).0
    take_bulk :
        (d : Deque T) (burst max_burst : ℕ)
        → Step d (pop_front_bulk_fair priority_of burst max_burst d).0.0
    take_value : (d : Deque T) (is_needle : T → Bool) → Step d (remove_value d is_needle)
    mark :
        (d : Deque T) (i : ℕ) (f : T → T)
        → ((x : T) → b.byte_cost (f x) ≡ b.byte_cost x)
        → ((x : T) → priority_of (f x) ≡ priority_of x)
        → Step d (update_metadata d i f)
    empty_out : (d : Deque T) → Step d (clear d)
    select :
        (d : Deque T) (eligible : List T → T → Bool) (burst max_burst : ℕ)
        → Step d (select_front_fair_deferred priority_of eligible burst max_burst d).deque
    finish_turn :
        (d : Deque T) (priority : ℕ) (owns admitted retained : Bool) (burst : ℕ)
        → Step d (finish_deferred_turn priority owns admitted retained burst d).0
    cancel_turn : (d : Deque T) → Step d (cancel_deferred_turn d)

  pub data Reach (s : Deque T) : Deque T → Type ℓ where
    here : Reach s s
    next : {d e : Deque T} → Reach s d → Step d e → Reach s e

  -- A push that is refused at once leaves the queue.
  push-IsKept :
      {d : Deque T} (a : Allocator) (v : T)
      → IsKept priority_of d
      → IsKept priority_of (push_back_prioritized a v priority_of d).deque
  unfolding push_back_prioritized
  push-IsKept {d} a v k = elim (Bool-cases (d.capacity == 0)) [
    | inl e ↦ rw (e, push_back_prioritized) k
    | inr e ↦ elim (Bool-cases (ltb d.max_bytes (b.byte_cost v))) [
      | inl g ↦ rw (e, g, push_back_prioritized) k
      | inr g ↦
          let r =
            push_back_prioritized-Admits a priority_of v k.valid k.ordered (ground arith)
              (ground arith) in
          record { valid = r.valid; ordered = r.ordered }
    ]
  ]

  push_select-IsKept :
      {d : Deque T} (a : Allocator) (v : T) (victim : Deque T → T → Option ℕ)
      → IsKept priority_of d
      → IsKept priority_of (push_back_prioritized_select a v priority_of victim d).deque
  unfolding push_back_prioritized_select
  push_select-IsKept {d} a v victim k = elim (Bool-cases (d.capacity == 0)) [
    | inl e ↦ rw (e, push_back_prioritized_select) k
    | inr e ↦ elim (Bool-cases (ltb d.max_bytes (b.byte_cost v))) [
      | inl g ↦ rw (e, g, push_back_prioritized_select) k
      | inr g ↦
          let r =
            push_back_prioritized_select-Selects a priority_of victim v k.valid k.ordered
              (ground arith) (ground arith) in
          record { valid = r.valid; ordered = r.ordered }
    ]
  ]

  -- What a prepared change answers is what it has been shown to answer.
  answered :
      (o : Option (Deque T)) {e f : Deque T}
      → o ≡ some e
      → o ≡ some f
      → IsValid f
      → IsOrdered priority_of f.q
      → IsKept priority_of e
  answered o p q v s =
      subst (IsKept priority_of) (some-injective _ _ (sym q ∙ p))
        (record { valid = v; ordered = s })

  step-IsKept : {d e : Deque T} → Step d e → IsKept priority_of d → IsKept priority_of e
  step-IsKept (push d a v) k = push-IsKept a v k
  step-IsKept (push_select d a v victim) k = push_select-IsKept a v victim k
  step-IsKept (push_all d e xs fits done) k =
      let (f, same, valid, ordered, grown, paid) =
        push_batch-succeeds priority_of xs k.valid k.ordered fits in
      answered _ done same valid ordered
  step-IsKept (replace_all d e index first rest old at_index p fits done) k =
      let (f, same, held) =
        replace_prepared_group-Holds priority_of index first rest d old k.valid k.ordered at_index p
          fits in
      answered _ done same held.0 held.1
  step-IsKept (take_front d) k = pop_front-IsKept priority_of k
  step-IsKept (take_back d) k = pop_back-IsKept priority_of k
  step-IsKept (take_pos d i) k = remove_pos-IsKept priority_of i k
  step-IsKept (keep_some d keep) k = retain_observed-IsKept priority_of keep k
  step-IsKept (update d i cost f c p) k = update_admitted-IsKept priority_of i cost f c p k
  step-IsKept (take_bulk d burst max_burst) k =
      pop_front_bulk_fair-IsKept priority_of burst max_burst k
  step-IsKept (take_value d is_needle) k = remove_value-IsKept priority_of is_needle k
  step-IsKept (mark d i f c p) k = update_metadata-IsKept priority_of i f c p k
  step-IsKept (empty_out d) k = clear-IsKept priority_of k
  step-IsKept (select d eligible burst max_burst) k =
      select_front_fair_deferred-IsKept priority_of eligible burst max_burst k
  step-IsKept (finish_turn d priority owns admitted retained burst) k =
      finish_deferred_turn-IsKept priority_of priority owns admitted retained burst k
  step-IsKept (cancel_turn d) k = cancel_deferred_turn-IsKept priority_of k

  Reach-IsKept : {s d : Deque T} → Reach s d → IsKept priority_of s → IsKept priority_of d
  Reach-IsKept here k = k
  Reach-IsKept (next r st) k = step-IsKept st (Reach-IsKept r k)

  -- However a queue from `new` is used by priorities, with whatever memory at each operation, its byte
  -- count stays exact and within the budget, its entries fit the ring and the element cap, and they
  -- descend by priority. The budget is below the largest `usize`. Updates keep the priority of an entry;
  -- those that are checked have the cost that they announce and the others keep the cost; a group
  -- replaces an entry of its own priority.
  pub Reach-new-IsKept :
      (a : Allocator) (max_bytes starting_bytes grow_mult : ℕ) {s d : Deque T}
      → max_bytes < usize_max
      → new a max_bytes starting_bytes grow_mult ≡ some s
      → Reach s d
      → IsKept priority_of d
  Reach-new-IsKept a max_bytes starting_bytes grow_mult {s} h made r =
      let fresh = new-IsValid a max_bytes starting_bytes grow_mult h made in
      Reach-IsKept r
        (record { valid = fresh.0; ordered = subst (IsOrdered priority_of) (sym fresh.1) tt })
