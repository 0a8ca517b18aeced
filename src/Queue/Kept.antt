-- ===== src/Queue/Kept.antt =====
-- The operations of `BoundedDeque` (src/queue.rs) on a queue that is kept by priorities.
use sedsnet.Base.{
  length-set, leb, position, ◌==◌, usize_max, sat_add, head?, last?, ltb, Option, get_elem?,
  opt_ind, if_ind, init, tail, length, arith, All, Bool, List, ℕ, ◌||◌, ◌-◌, ◌+◌, ◌≡◌, suc, zero,
  ◌∷◌, [],
}
use sedsnet.Queue.Valid.{
  total-remove_at, total-set, pop_back-IsValid, IsValid, clear-IsValid, update_admitted-IsValid,
  remove_pos-IsValid, pop_front-IsValid,
}
use sedsnet.Queue.Turn.{pop_front_bulk_fair}
use sedsnet.Queue.Ring.{
  update_metadata, remove_value, Deque, remove_pos, update_admitted, retain_loop, retain_observed,
  clear, pop_back, pop_front, ByteCost,
}
use sedsnet.Queue.GroupFits.{set-IsOrdered}
use sedsnet.Queue.Select.{remove_at-IsOrdered}
use sedsnet.Errors.{Result}
use sedsnet.Queue.Priority.{IsOrdered}

module _ {ℓ} {T : Type ℓ} ⦃b : ByteCost T⦄ (priority_of : T → ℕ) where
  -- A valid queue whose entries descend by priority.
  pub record IsKept (d : Deque T) : Type ℓ where
    pub valid : IsValid d
    pub ordered : IsOrdered priority_of d.q

  tail-IsOrdered : (xs : List T) → IsOrdered priority_of xs → IsOrdered priority_of (tail xs)
  tail-IsOrdered [] o = tt
  tail-IsOrdered (x ∷ xs) o = o.1

  All-init : (P : T → Type 0) (xs : List T) → All P xs → All P (init xs)
  All-init P [] h = tt
  All-init P (x ∷ []) h = tt
  All-init P (x ∷ y ∷ xs) h = (h.0, All-init P (y ∷ xs) h.1)

  init-IsOrdered : (xs : List T) → IsOrdered priority_of xs → IsOrdered priority_of (init xs)
  init-IsOrdered [] o = tt
  init-IsOrdered (x ∷ []) o = tt
  init-IsOrdered (x ∷ y ∷ xs) o = (All-init _ (y ∷ xs) o.0, init-IsOrdered (y ∷ xs) o.1)

  pub clear-IsKept : {d : Deque T} → IsKept d → IsKept (clear d)
  unfolding clear
  clear-IsKept k = record { valid = unfold clear in clear-IsValid k.valid; ordered = tt }

  pub pop_front-IsKept : {d : Deque T} → IsKept d → IsKept (pop_front d).0
  unfolding pop_front
  pop_front-IsKept {d} k = record {
    valid = pop_front-IsValid k.valid;
    ordered =
        opt_ind (λ (r : Deque T × Option T). IsOrdered priority_of r.0.q) (head? d.q)
          (λ e. k.ordered) (λ x e. tail-IsOrdered d.q k.ordered);
  }

  pub pop_back-IsKept : {d : Deque T} → IsKept d → IsKept (pop_back d).0
  unfolding pop_back
  pop_back-IsKept {d} k = record {
    valid = pop_back-IsValid k.valid;
    ordered =
        opt_ind (λ (r : Deque T × Option T). IsOrdered priority_of r.0.q) (last? d.q)
          (λ e. k.ordered) (λ x e. init-IsOrdered d.q k.ordered);
  }

  pub remove_pos-IsKept : {d : Deque T} (i : ℕ) → IsKept d → IsKept (remove_pos d i).0
  unfolding remove_pos
  remove_pos-IsKept {d} i k = record {
    valid = remove_pos-IsValid i k.valid;
    ordered =
        opt_ind (λ (r : Deque T × Option T). IsOrdered priority_of r.0.q) (get_elem? d.q i)
          (λ e. k.ordered) (λ x e. remove_at-IsOrdered priority_of d.q i k.ordered);
  }

  retain_loop-IsKept :
      (n : ℕ) (d : Deque T) (keep : T → Bool) (i : ℕ) (seen : List T)
      → IsKept d
      → IsKept (retain_loop n d keep i seen).0
  unfolding retain_loop
  retain_loop-IsKept zero d keep i seen k = k
  retain_loop-IsKept (suc n) d keep i seen k =
      opt_ind (λ (r : Deque T × List T). IsKept r.0) (get_elem? d.q i) (λ e. k)
        (λ x e.
          if_ind (λ (r : Deque T × List T). IsKept r.0) (keep x)
            (λ t. retain_loop-IsKept n d keep (i + 1) seen k)
            (λ f. retain_loop-IsKept n (remove_pos d i).0 keep i _ (remove_pos-IsKept i k)))

  pub retain_observed-IsKept :
      {d : Deque T} (keep : T → Bool) → IsKept d → IsKept (retain_observed d keep).0
  unfolding retain_observed
  retain_observed-IsKept {d} keep k = retain_loop-IsKept (length d.q) d keep 0 [] k

  -- An update that has the announced cost and keeps the priority of the entry.
  pub update_admitted-IsKept :
      {d : Deque T} (i cost : ℕ) (f : T → T)
      → ((x : T) → b.byte_cost (f x) ≡ cost)
      → ((x : T) → priority_of (f x) ≡ priority_of x)
      → IsKept d
      → IsKept (update_admitted d i cost f).0
  unfolding update_admitted
  update_admitted-IsKept {d} i cost f c p k = record {
    valid = update_admitted-IsValid i cost f (λ x e. c x) k.valid;
    ordered =
        opt_ind (λ (r : Deque T × Result (Unit {0})). IsOrdered priority_of r.0.q) (get_elem? d.q i)
          (λ e. k.ordered)
          (λ x e.
            if_ind (λ (r : Deque T × Result (Unit {0})). IsOrdered priority_of r.0.q)
              (ltb d.max_bytes (sat_add usize_max (d.cur_bytes - b.byte_cost x) cost))
              (λ t. k.ordered) (λ g. set-IsOrdered priority_of d.q i (f x) e (p x) k.ordered));
  }

  pub remove_value-IsKept :
      {d : Deque T} (is_needle : T → Bool) → IsKept d → IsKept (remove_value d is_needle)
  unfolding remove_value
  remove_value-IsKept {d} is_needle k =
      opt_ind IsKept (position is_needle d.q) (λ e. k) (λ i e. remove_pos-IsKept i k)

  pub pop_front_bulk_fair-IsKept :
      {d : Deque T} (burst max_burst : ℕ)
      → IsKept d
      → IsKept (pop_front_bulk_fair priority_of burst max_burst d).0.0
  unfolding pop_front_bulk_fair
  pop_front_bulk_fair-IsKept {d} burst max_burst k =
      let P : (Deque T × Option T) × ℕ → Type ℓ = λ r. IsKept r.0.0 in
      opt_ind P (head? d.q) (λ e. k)
        (λ first e.
          if_ind P (leb 200 (priority_of first) || _ == _) (λ t. pop_front-IsKept k)
            (λ f.
              if_ind P (ltb burst max_burst) (λ t. pop_front-IsKept k)
                (λ g. remove_pos-IsKept _ k)))

  -- An update that changes neither the cost nor the priority of the entry.
  pub update_metadata-IsKept :
      {d : Deque T} (i : ℕ) (f : T → T)
      → ((x : T) → b.byte_cost (f x) ≡ b.byte_cost x)
      → ((x : T) → priority_of (f x) ≡ priority_of x)
      → IsKept d
      → IsKept (update_metadata d i f)
  unfolding update_metadata
  update_metadata-IsKept {d} i f c p k =
      opt_ind IsKept (get_elem? d.q i) (λ e. k)
        (λ x e. record {
          valid = omega (
            arith,
            c x,
            total-set d.q i (f x) e,
            total-remove_at d.q i e,
            length-set d.q i (f x),
            k.valid,
          );
          ordered = set-IsOrdered priority_of d.q i (f x) e (p x) k.ordered;
        })
