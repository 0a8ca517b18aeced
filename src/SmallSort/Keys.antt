-- ===== src/SmallSort/Keys.antt =====
-- Ranks by index, for src/small_sort.rs, and what a swap does to them.
use sedsnet.Base.{
  ◌∙◌, set, get_elem?, length, length-set, List, subst, some-injective, ap, ltb, arith, ℕ, Option,
  if◌then◌else◌, ◌==◌, ◌<◌, ◌≡◌, refl, suc, zero, ◌∷◌, [], some,
}
use mathlib.Core.List.{Perm}
use sedsnet.SmallSort.{less, and_then, swap}
use mathlib.Core.List.Perm

-- The call does not panic, and its result satisfies the predicate.
pub data Yields {ℓ κ} {A : Type ℓ} (P : A → Type κ) : Option A → Type (ℓ ⊔ κ) where
  yields : {a : A} → P a → Yields P (some a)

module _ {ℓ κ} {A : Type ℓ} {P : A → Type κ} where
  pub Yields-and_then {ℓ' κ'} :
      {B : Type ℓ'} {Q : B → Type κ'} {o : Option A} {f : A → Option B}
      → Yields P o
      → ((a : A) → P a → Yields Q (f a))
      → Yields Q (and_then o f)
  Yields-and_then (yields p) k = k _ p

  pub Yields-map {κ'} :
      {Q : A → Type κ'} {o : Option A} → Yields P o → ((a : A) → P a → Q a) → Yields Q o
  Yields-map (yields p) k = yields (k _ p)

module _ {ℓ} {T : Type ℓ} where
  -- A write trades the old item for the new one.
  set-perm :
      (xs : List T) (i : ℕ) (v : T) {x : T}
      → get_elem? xs i ≡ some x
      → Perm (x ∷ set xs i v) (v ∷ xs)
  set-perm [] i v e = absurd (cc)
  set-perm (y ∷ xs) zero v {x} e =
      subst (λ z. Perm (z ∷ v ∷ xs) (v ∷ y ∷ xs)) (some-injective _ _ e) (Perm.swap v y xs)
  set-perm (y ∷ xs) (suc i) v {x} e =
      Perm.trans (Perm.swap y x _) (Perm.trans (Perm.cons y (set-perm xs i v e)) (Perm.swap v y xs))

  get_elem?-set_kept :
      (xs : List T) (i j : ℕ) (y : T) → get_elem? xs j ≡ some y → get_elem? (set xs i y) j ≡ some y
  get_elem?-set_kept [] i j y e = e
  get_elem?-set_kept (x ∷ xs) zero zero y e = refl
  get_elem?-set_kept (x ∷ xs) zero (suc j) y e = e
  get_elem?-set_kept (x ∷ xs) (suc i) zero y e = e
  get_elem?-set_kept (x ∷ xs) (suc i) (suc j) y e = get_elem?-set_kept xs i j y e

  get_elem?-inside : (xs : List T) (i : ℕ) → i < length xs → (x : T) × (get_elem? xs i ≡ some x)
  get_elem?-inside [] i h = absurd (omega arith)
  get_elem?-inside (x ∷ xs) zero h = (x, refl)
  get_elem?-inside (x ∷ xs) (suc i) h = get_elem?-inside xs i (omega arith)

module _ {ℓ} {T : Type ℓ} (rank : T → ℕ) where
  -- The rank at an index; 0 out of bounds.
  abbrev pub key : List T → ℕ → ℕ
  key [] i = 0
  key (x ∷ xs) zero = rank x
  key (x ∷ xs) (suc i) = key xs i

  key-at : (xs : List T) (i : ℕ) {x : T} → get_elem? xs i ≡ some x → key xs i ≡ rank x
  key-at [] i e = absurd (cc)
  key-at (y ∷ xs) zero e = ap rank (some-injective _ _ e)
  key-at (y ∷ xs) (suc i) e = key-at xs i e

  key-set :
      (xs : List T) (i j : ℕ) (v : T)
      → i < length xs
      → key (set xs i v) j ≡ (if i == j then rank v else key xs j)
  key-set [] i j v h = absurd (omega arith)
  key-set (x ∷ xs) zero zero v h = refl
  key-set (x ∷ xs) zero (suc j) v h = ground arith
  key-set (x ∷ xs) (suc i) zero v h = ground arith
  key-set (x ∷ xs) (suc i) (suc j) v h = ground (arith, key-set xs i j v)

  pub record Swapped (xs : List T) (i j : ℕ) (ys : List T) : Type ℓ where
    pub size : length ys ≡ length xs
    pub keys :
        (c : ℕ) → key ys c ≡ (if j == c then key xs i else if i == c then key xs j else key xs c)
    pub perm : Perm ys xs

  pub swap-Swapped :
      (xs : List T) (i j : ℕ)
      → i < length xs
      → j < length xs
      → Yields (Swapped xs i j) (swap xs i j)
  unfolding swap
  swap-Swapped xs i j hi hj =
      let (x, e) = get_elem?-inside xs i hi in
      let (y, f) = get_elem?-inside xs j hj in
      let once = set xs i y in
      let hj_once : j < length once = omega (arith, length-set xs i y, hj) in
      let twice = set-perm once j x (get_elem?-set_kept xs i j y f) in
      rw (e, f, swap)
        (yields (record {
          size = length-set once j x ∙ length-set xs i y;
          keys = λ c.
              rw (key-set once j c x hj_once, key-set xs i c y hi, key-at xs i e, key-at xs j f)
                refl;
          perm = Perm.cons_inv (Perm.trans twice (set-perm xs i y e));
        }))

  pub less-eq :
      (xs : List T) (i j : ℕ)
      → i < length xs
      → j < length xs
      → less rank xs i j ≡ some (ltb (key xs i) (key xs j))
  unfolding less
  less-eq xs i j hi hj =
      let (x, e) = get_elem?-inside xs i hi in
      let (y, f) = get_elem?-inside xs j hj in rw (e, f, key-at xs i e, key-at xs j f) refl
