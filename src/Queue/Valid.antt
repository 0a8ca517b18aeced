-- ===== src/Queue/Valid.antt =====
-- The accounting invariant of `BoundedDeque` (src/queue.rs), and the removals that keep it.
use sedsnet.Queue.Ring.{ByteCost, Deque, clear, pop_front, pop_back, remove_pos, update_admitted}
use sedsnet.Base.{
  ℕ, zero, suc, ◌+◌, ◌≤◌, ◌<◌, ◌≡◌, refl, ap, inl, inr, List, [], ◌∷◌, ◌++◌, some, arith, length,
  get_elem?, set, head?, last?, tail, init, remove_at, length-tail, length-init, length-set,
  usize_max, Option-cases,
}

module _ {ℓ} {T : Type ℓ} ⦃b : ByteCost T⦄ where
  abbrev pub total : List T → ℕ
  total [] = 0
  total (x ∷ xs) = b.byte_cost x + total xs

  pub total-append : (xs ys : List T) → total (xs ++ ys) ≡ total xs + total ys
  total-append [] ys = omega arith
  total-append (x ∷ xs) ys = omega (arith, total-append xs ys)

  pub total-tail :
      (xs : List T) {v : T} → head? xs ≡ some v → total xs ≡ b.byte_cost v + total (tail xs)
  total-tail [] e = cc
  total-tail (x ∷ xs) e = ground arith

  pub total-init :
      (xs : List T) {v : T} → last? xs ≡ some v → total xs ≡ b.byte_cost v + total (init xs)
  total-init [] e = cc
  total-init (x ∷ []) e = ground arith
  total-init (x ∷ y ∷ xs) e = omega (arith, total-init (y ∷ xs) e)

  pub total-remove_at :
      (xs : List T) (i : ℕ) {v : T}
      → get_elem? xs i ≡ some v
      → total xs ≡ b.byte_cost v + total (remove_at xs i)
  total-remove_at [] i e = cc
  total-remove_at (x ∷ xs) zero e = ground arith
  total-remove_at (x ∷ xs) (suc i) e = omega (arith, total-remove_at xs i e)

  pub length-remove_at :
      (xs : List T) (i : ℕ) {v : T}
      → get_elem? xs i ≡ some v
      → length xs ≡ suc (length (remove_at xs i))
  length-remove_at [] i e = cc
  length-remove_at (x ∷ xs) zero e = refl
  length-remove_at (x ∷ xs) (suc i) e = ap suc (length-remove_at xs i e)

  pub total-set :
      (xs : List T) (i : ℕ) {v : T} (w : T)
      → get_elem? xs i ≡ some v
      → total (set xs i w) + b.byte_cost v ≡ total xs + b.byte_cost w
  total-set [] i w e = cc
  total-set (x ∷ xs) zero w e = ground arith
  total-set (x ∷ xs) (suc i) w e = omega (arith, total-set xs i w e)

  -- `cur_bytes` counts exactly the entries, within the budget, and the entries fit the ring and the
  -- element cap.
  pub record IsValid (d : Deque T) : Type 0 where
    pub counted : d.cur_bytes ≡ total d.q
    pub within : d.cur_bytes ≤ d.max_bytes
    pub slots : length d.q ≤ d.capacity
    pub elems : length d.q ≤ d.max_elems
    pub some_elems : 0 < d.max_elems
    pub word : d.max_bytes < usize_max

  pub clear-IsValid : {d : Deque T} → IsValid d → IsValid (clear d)
  unfolding clear
  clear-IsValid v = ground arith

  pub pop_front-IsValid : {d : Deque T} → IsValid d → IsValid (pop_front d).0
  unfolding pop_front
  pop_front-IsValid {d} v = elim (Option-cases (head? d.q)) [
    | inl e ↦ rw (e, pop_front) v
    | inr (x, e) ↦ rw (e, pop_front) (omega (arith, total-tail d.q e, length-tail d.q))
  ]

  pub pop_back-IsValid : {d : Deque T} → IsValid d → IsValid (pop_back d).0
  unfolding pop_back
  pop_back-IsValid {d} v = elim (Option-cases (last? d.q)) [
    | inl e ↦ rw (e, pop_back) v
    | inr (x, e) ↦ rw (e, pop_back) (omega (arith, total-init d.q e, length-init d.q))
  ]

  pub remove_pos-IsValid : {d : Deque T} (i : ℕ) → IsValid d → IsValid (remove_pos d i).0
  unfolding remove_pos
  remove_pos-IsValid {d} i v = elim (Option-cases (get_elem? d.q i)) [
    | inl e ↦ rw (e, remove_pos) v
    | inr (x, e) ↦
        rw (e, remove_pos) (omega (arith, total-remove_at d.q i e, length-remove_at d.q i e))
  ]

  -- An admission-checked update keeps the invariant, if the cost that the caller announces is the
  -- updated entry's.
  pub update_admitted-IsValid :
      {d : Deque T} (i cost : ℕ) (f : T → T)
      → ((x : T) → get_elem? d.q i ≡ some x → b.byte_cost (f x) ≡ cost)
      → IsValid d
      → IsValid (update_admitted d i cost f).0
  unfolding update_admitted
  update_admitted-IsValid {d} i cost f h v = elim (Option-cases (get_elem? d.q i)) [
    | inl e ↦ rw (e, update_admitted) v
    | inr (x, e) ↦
        rw (e, update_admitted)
          (ground (
            arith,
            h x e,
            total-set d.q i (f x) e,
            total-remove_at d.q i e,
            length-set d.q i (f x),
          ))
  ]
