-- ===== src/SmallMap/Search.antt =====
-- The binary search of `SmallMap` finds the place of a key in ascending entries.
use sedsnet.Base.{
  ap, sym, ltb→lt, some-injective, ltb, if_ind, Bool-cases, subst, get_elem?, length, arith, ℕ, All,
  if◌then◌else◌, ◌==◌, ◌⊎◌, ◌∙◌, ◌/◌, ◌-◌, ◌<◌, ◌≤◌, ◌+◌, ◌≡◌, refl, false, true, suc, zero, ◌∷◌,
  [], inr, inl, some, none,
}
use sedsnet.SmallMap.{search_loop, SmallMap, KeyOrder}

module _ {K V : Type 0} (o : KeyOrder K) where
  -- The keys ascend.
  abbrev pub IsAscending : SmallMap K V → Type 0
  IsAscending [] = Unit
  IsAscending (e ∷ m) = All (λ f. o.lt e.0 f.0 ≡ true) m × IsAscending m

  -- The entry at an index under `base + size` that is not above the key, and those from
  -- `base + size` on above it.
  pub record Window (m : SmallMap K V) (k : K) (base size : ℕ) : Type 0 where
    pub inside : base + size ≤ length m
    pub low : (base ≡ 0) ⊎ ((e : K × V) × (get_elem? m base ≡ some e) × (o.lt k e.0 ≡ false))
    pub high : (i : ℕ) {e : K × V} → base + size ≤ i → get_elem? m i ≡ some e → o.lt k e.0 ≡ true

  pub All-at :
      (P : K × V → Type 0) (m : SmallMap K V) (i : ℕ) {e : K × V}
      → All P m
      → get_elem? m i ≡ some e
      → P e
  All-at P [] i a g = absurd (cc)
  All-at P (f ∷ m) zero a g = subst P (some-injective _ _ g) a.0
  All-at P (f ∷ m) (suc i) a g = All-at P m i a.1 g

  sorted_at :
      (m : SmallMap K V) (i j : ℕ) {e f : K × V}
      → IsAscending m
      → i < j
      → get_elem? m i ≡ some e
      → get_elem? m j ≡ some f
      → o.lt e.0 f.0 ≡ true
  sorted_at [] i j s h g k = absurd (cc)
  sorted_at (d ∷ m) i zero s h g k = absurd (omega arith)
  sorted_at (d ∷ m) zero (suc j) {e} {f} s h g k =
      subst (λ x. o.lt x.0 f.0 ≡ true) (some-injective _ _ g) (All-at _ m j s.0 k)
  sorted_at (d ∷ m) (suc i) (suc j) s h g k = sorted_at m i j s.1 (omega arith) g k

  pub entry_at : (m : SmallMap K V) (i : ℕ) → i < length m → (e : K × V) × (get_elem? m i ≡ some e)
  entry_at [] i h = absurd (omega arith)
  entry_at (e ∷ m) zero h = (e, refl)
  entry_at (e ∷ m) (suc i) h = entry_at m i (omega arith)

  -- An entry above the key takes those behind it along.
  pub above :
      (m : SmallMap K V) (k : K) (i j : ℕ) {e f : K × V}
      → IsAscending m
      → i ≤ j
      → get_elem? m i ≡ some e
      → get_elem? m j ≡ some f
      → o.lt k e.0 ≡ true
      → o.lt k f.0 ≡ true
  above m k i j {e} {f} s h g q lt = elim (Bool-cases (i == j)) [
    | inl same ↦
        let p : e ≡ f = some-injective _ _ (sym g ∙ ap (get_elem? m) (ground arith) ∙ q) in
        subst (λ x. o.lt k x.0 ≡ true) p lt
    | inr other ↦ o.lt_trans k e.0 f.0 lt (sorted_at m i j s (ground arith) g q)
  ]

  search_step :
      (m : SmallMap K V) (k : K) (base size half : ℕ)
      → IsAscending m
      → 1 < size
      → half ≡ size / 2
      → Window m k base size
      → Window m k
          (elim (get_elem? m (base + half)) [
            | none ↦ base
            | some e ↦ if o.lt k e.0 then base else base + half
          ])
          (size - half)
  search_step m k base size half s big e w =
      let (d, at_mid) = entry_at m (base + half) (omega (arith, w.inside)) in
      rw at_mid (
        if_ind (λ b. Window m k b (size - half)) (o.lt k d.0)
          (λ lt. record {
            inside = omega (arith, w.inside);
            low = w.low;
            high = λ i h g. above m k (base + half) i s (omega arith) at_mid g lt;
          })
          (λ not_lt. record {
            inside = omega (arith, w.inside);
            low = inr (d, at_mid, not_lt);
            high = λ i h g. w.high i (omega arith) g;
          }))

  pub search_loop_narrows :
      (fuel base size : ℕ) (m : SmallMap K V) (k : K)
      → IsAscending m
      → 0 < size
      → size ≤ suc fuel
      → Window m k base size
      → Window m k (search_loop o fuel base size m k) 1
  unfolding search_loop
  search_loop_narrows zero base size m k s pos enough w =
      let one : size ≡ 1 = omega arith in subst (Window m k base) one w
  search_loop_narrows (suc fuel) base size m k s pos enough w =
      if_ind (λ b. Window m k b 1) (ltb 1 size)
        (λ big.
          search_loop_narrows fuel _ (size - size / 2) m k s (omega (arith, ltb→lt 1 size big))
            (omega (arith, ltb→lt 1 size big))
            (search_step m k base size (size / 2) s (ltb→lt 1 size big) refl w))
        (λ small. let one : size ≡ 1 = ground arith in subst (Window m k base) one w)
