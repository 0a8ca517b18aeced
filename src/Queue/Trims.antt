-- ===== src/Queue/Trims.antt =====
-- States of `BoundedDeque` (src/queue.rs) that entries have left at the front, and the eviction loop
-- of `prepare_push_fifo`.
use sedsnet.Base.{
  length-append, Bool, ◌<◌, false, true, any, zero, wrapping_add_size, ltb, ◌&&◌, not, refl,
  Bool-cases, length-tail, none, ap, suc, inr, ◌-◌, append_assoc, usize_max, ◌++◌, ◌≤◌, inl, ◌∷◌,
  ◌∙◌, ◌≡◌, ◌+◌, head?, arith, Option-cases, [], length, ℕ, tail, List,
}
use sedsnet.Queue.Room.{evict_front}
use sedsnet.Queue.Ring.{is_empty, Deque, pop_front, ByteCost}
use sedsnet.Queue.Valid.{total-tail, total, IsValid}

module _ {ℓ} {T : Type ℓ} where
  -- `ys` is what is left of `xs` once some entries have left at the front.
  abbrev pub IsSuffix : List T → List T → Type ℓ
  IsSuffix xs ys = (front : List T) × (front ++ ys ≡ xs)

  pub IsSuffix-trans : (xs ys zs : List T) → IsSuffix xs ys → IsSuffix ys zs → IsSuffix xs zs
  IsSuffix-trans xs ys zs (f, p) (g, q) = (f ++ g, append_assoc f g zs ∙ ap (◌++◌ f) q ∙ p)

  pub IsSuffix-tail : (xs : List T) → IsSuffix xs (tail xs)
  IsSuffix-tail [] = ([], refl)
  IsSuffix-tail (x ∷ xs) = (x ∷ [], refl)

  pub length-IsSuffix : (xs ys : List T) → IsSuffix xs ys → length ys ≤ length xs
  length-IsSuffix xs ys (front, e) = omega (arith, length-append front ys, ap length e)

module _ {ℓ} {T : Type ℓ} ⦃b : ByteCost T⦄ where
  -- `e` is a later state of `d`: entries have left at the front and the ring may have grown.
  pub record Trims (d e : Deque T) : Type ℓ where
    pub valid : IsValid e
    pub suffix : IsSuffix d.q e.q
    pub budget : e.max_bytes ≡ d.max_bytes
    pub limit : e.max_elems ≡ d.max_elems
    pub ring : d.capacity ≤ e.capacity
    pub used : e.cur_bytes ≤ d.cur_bytes

  pub Trims-refl : {d : Deque T} → IsValid d → Trims d d
  Trims-refl v = record {
    valid = v;
    suffix = ([], refl);
    budget = refl;
    limit = refl;
    ring = omega arith;
    used = omega arith;
  }

  pub Trims-trans : {c d e : Deque T} → Trims c d → Trims d e → Trims c e
  Trims-trans {c} {d} {e} s t = record {
    valid = t.valid;
    suffix = IsSuffix-trans c.q d.q e.q s.suffix t.suffix;
    budget = t.budget ∙ s.budget;
    limit = t.limit ∙ s.limit;
    ring = omega arith;
    used = omega arith;
  }

  pub pop_front-Trims : {d : Deque T} → IsValid d → Trims d (pop_front d).0
  unfolding pop_front
  pop_front-Trims {d} v = elim (Option-cases (head? d.q)) [
    | inl e ↦ rw (e, pop_front) (Trims-refl v)
    | inr (x, e) ↦
        rw (e, pop_front)
          (record {
            valid = omega (arith, total-tail d.q e, length-tail d.q);
            suffix = IsSuffix-tail d.q;
            budget = refl;
            limit = refl;
            ring = omega arith;
            used = omega arith;
          })
  ]

  pub length-pop_front : (d : Deque T) → length (pop_front d).0.q ≡ length d.q - 1
  unfolding pop_front
  length-pop_front d = elim (Option-cases (head? d.q)) [
    | inl e ↦ rw (e, pop_front) (empty d.q e)
    | inr (x, e) ↦ rw (e, pop_front) (length-tail d.q)
  ]
    where
      empty : (xs : List T) → head? xs ≡ none → length xs ≡ length xs - 1
      empty [] h = refl
      empty (x ∷ xs) h = cc

  -- Twice the budget fits `usize`, so that `cur_bytes + cost` does not wrap.
  abbrev pub IsRoomy : Deque T → Type 0
  IsRoomy d = d.max_bytes + d.max_bytes ≤ usize_max

  -- After the eviction loop the new cost fits the budget.
  pub evict_front-Trims :
      (n cost : ℕ) {d : Deque T}
      → IsValid d
      → IsRoomy d
      → cost ≤ d.max_bytes
      → length d.q ≤ n
      → Trims d (evict_front n cost d)
        × ((evict_front n cost d).cur_bytes + cost ≤ (evict_front n cost d).max_bytes)
  unfolding evict_front
  evict_front-Trims zero cost {d} v r h m = (Trims-refl v, omega (arith, none_left d.q m v.counted))
    where
      none_left : (xs : List T) → length xs ≤ 0 → d.cur_bytes ≡ total xs → d.cur_bytes ≡ 0
      none_left [] p e = e
      none_left (x ∷ xs) p e = absurd (omega arith)
  evict_front-Trims (suc n) cost {d} v r h m =
      let t = pop_front-Trims v in
      let rest =
        evict_front-Trims n cost t.valid (omega (arith, t.budget)) (omega (arith, t.budget))
          (omega (arith, length-pop_front d)) in
      elim (Bool-cases (not (is_empty d) && ltb d.max_bytes (wrapping_add_size d.cur_bytes cost))) [
        | inl e ↦ rw e (Trims-trans t rest.0, rest.1)
        | inr e ↦ rw e (Trims-refl v, loop_end d.q v.counted e)
      ]
    where
      -- The loop stops at an empty ring, whose bytes are none, or where the cost fits.
      loop_end :
          (xs : List T)
          → d.cur_bytes ≡ total xs
          → (not (not (any (λ _. true) xs)) && ltb d.max_bytes (wrapping_add_size d.cur_bytes cost))
            ≡ false
          → d.cur_bytes + cost ≤ d.max_bytes
      loop_end [] c e = omega arith
      loop_end (x ∷ xs) c e = ground (arith, v.within)

  -- The outcome of a search for one slot: found, the ring has a free slot; refused, nothing changed.
  pub record Room (d : Deque T) (r : Deque T × Bool) : Type ℓ where
    pub trims : Trims d r.0
    pub found : r.1 ≡ true → length r.0.q < r.0.capacity
    pub refused : r.1 ≡ false → r.0 ≡ d

  pub wider-Trims :
      {d : Deque T} (slots : ℕ)
      → IsValid d
      → d.capacity ≤ slots
      → Trims d (record d { capacity = slots })
  wider-Trims slots v h = record {
    valid = omega arith;
    suffix = ([], refl);
    budget = refl;
    limit = refl;
    ring = h;
    used = omega arith;
  }

  pub capacity-pop_front : (d : Deque T) → (pop_front d).0.capacity ≡ d.capacity
  unfolding pop_front
  capacity-pop_front d = ground arith

  pub pop_front-Room : {d : Deque T} → IsValid d → 0 < d.capacity → Room d ((pop_front d).0, true)
  pop_front-Room {d} v c = record {
    trims = pop_front-Trims v;
    found = λ _. omega (arith, length-pop_front d, capacity-pop_front d, v.slots);
    refused = λ e. cc;
  }
