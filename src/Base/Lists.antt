-- ===== src/Base/Lists.antt =====
-- Vectors and rings of the source as lists that native numbers index.
use Prim.Native.Nat.{ℕ, zero, suc, ◌+◌, ◌-◌}
use mathlib.Core.Path.{◌≡◌, refl, ap}
use mathlib.Core.Bool.{Bool, true, false, ◌||◌}
use mathlib.Core.List.{List, [], ◌∷◌, ◌++◌}
use mathlib.Core.Option.{Option, none, some}
use native.Mathlib.Omega.{arith}
use sedsnet.Base.Tests.{if◌then◌else◌, Bool-cases, Option-cases}
use mathlib.Core.Logic.{inl, inr}

module _ {ℓ} {A : Type ℓ} where
  abbrev pub length : List A → ℕ
  length [] = 0
  length (x ∷ xs) = suc (length xs)

  abbrev pub get_elem? : List A → ℕ → Option A
  get_elem? [] i = none
  get_elem? (x ∷ xs) zero = some x
  get_elem? (x ∷ xs) (suc i) = get_elem? xs i

  -- A write out of bounds changes nothing.
  abbrev pub set : List A → ℕ → A → List A
  set [] i v = []
  set (x ∷ xs) zero v = v ∷ xs
  set (x ∷ xs) (suc i) v = x ∷ set xs i v

  abbrev pub drop : ℕ → List A → List A
  drop zero xs = xs
  drop (suc n) [] = []
  drop (suc n) (x ∷ xs) = drop n xs

  abbrev pub take : ℕ → List A → List A
  take zero xs = []
  take (suc n) [] = []
  take (suc n) (x ∷ xs) = x ∷ take n xs

  abbrev pub head? : List A → Option A
  head? [] = none
  head? (x ∷ xs) = some x

  abbrev pub last? : List A → Option A
  last? [] = none
  last? (x ∷ []) = some x
  last? (x ∷ y ∷ xs) = last? (y ∷ xs)

  -- All but the last.
  abbrev pub init : List A → List A
  init [] = []
  init (x ∷ []) = []
  init (x ∷ y ∷ xs) = x ∷ init (y ∷ xs)

  abbrev pub tail : List A → List A
  tail [] = []
  tail (x ∷ xs) = xs

  -- Out of bounds nothing is removed.
  abbrev pub remove_at : List A → ℕ → List A
  remove_at [] i = []
  remove_at (x ∷ xs) zero = xs
  remove_at (x ∷ xs) (suc i) = x ∷ remove_at xs i

  abbrev pub insert_at : List A → ℕ → A → List A
  insert_at xs zero v = v ∷ xs
  insert_at [] (suc i) v = v ∷ []
  insert_at (x ∷ xs) (suc i) v = x ∷ insert_at xs i v

  -- How many items at the front satisfy the test: on a list that is partitioned by it, the
  -- partition point.
  abbrev pub partition_point : (A → Bool) → List A → ℕ
  partition_point p [] = 0
  partition_point p (x ∷ xs) = if p x then suc (partition_point p xs) else 0

  -- The index of the first item that satisfies the test.
  abbrev pub position : (A → Bool) → List A → Option ℕ
  position p [] = none
  position p (x ∷ xs) =
      if p x then some 0 else elim (position p xs) [ none ↦ none | some i ↦ some (suc i) ]

  abbrev pub any : (A → Bool) → List A → Bool
  any p [] = false
  any p (x ∷ xs) = p x || any p xs

  abbrev pub All {κ} : (A → Type κ) → List A → Type κ
  All P [] = Unit {κ}
  All P (x ∷ xs) = P x × All P xs

module _ {ℓ} {A : Type ℓ} where
  pub length-append : (xs ys : List A) → length (xs ++ ys) ≡ length xs + length ys
  length-append [] ys = omega arith
  length-append (x ∷ xs) ys = omega (arith, length-append xs ys)

  pub length-set : (xs : List A) (i : ℕ) (v : A) → length (set xs i v) ≡ length xs
  length-set [] i v = refl
  length-set (x ∷ xs) zero v = refl
  length-set (x ∷ xs) (suc i) v = ap suc (length-set xs i v)

  pub length-init : (xs : List A) → length (init xs) ≡ length xs - 1
  length-init [] = refl
  length-init (x ∷ []) = refl
  length-init (x ∷ y ∷ xs) = omega (arith, length-init (y ∷ xs))

  pub length-tail : (xs : List A) → length (tail xs) ≡ length xs - 1
  length-tail [] = refl
  length-tail (x ∷ xs) = omega arith

module _ {ℓ} {A : Type ℓ} where
  pub init-append_last : (xs ys : List A) {x : A} → last? xs ≡ some x → init xs ++ x ∷ ys ≡ xs ++ ys
  init-append_last [] ys e = absurd (cc)
  init-append_last (x ∷ []) ys e = ap (λ o. o ∷ ys) (ground arith)
  init-append_last (x ∷ y ∷ xs) ys e = ap (λ r. x ∷ r) (init-append_last (y ∷ xs) ys e)

  pub last?-eq-none : (xs : List A) → last? xs ≡ none → xs ≡ []
  last?-eq-none [] e = refl
  last?-eq-none (x ∷ []) e = absurd (cc)
  last?-eq-none (x ∷ y ∷ xs) e = absurd (cc (last?-eq-none (y ∷ xs) e))

module _ {ℓ} {A : Type ℓ} where
  -- The position that a search reports holds an item that passes the test.
  pub position-get_elem? :
      (p : A → Bool) (xs : List A) {i : ℕ}
      → position p xs ≡ some i
      → (x : A) × (get_elem? xs i ≡ some x) × (p x ≡ true)
  position-get_elem? p [] e = absurd (cc)
  position-get_elem? p (x ∷ xs) {i} e = elim (Bool-cases (p x)) [
    | inl t ↦ (x, here t e, t)
    | inr f ↦ elim (Option-cases (position p xs)) [
      | inl n ↦ absurd (cc (rw (f, n) at e))
      | inr (j, s) ↦
          let (y, at_j, ok_y) = position-get_elem? p xs s in (y, there j s f e at_j, ok_y)
    ]
  ]
    where
      here : p x ≡ true → position p (x ∷ xs) ≡ some i → get_elem? (x ∷ xs) i ≡ some x
      here t e = ground (arith, rw t at e)

      there :
          (j : ℕ) {y : A}
          → position p xs ≡ some j
          → p x ≡ false
          → position p (x ∷ xs) ≡ some i
          → get_elem? xs j ≡ some y
          → get_elem? (x ∷ xs) i ≡ some y
      there j s f e g = ground (arith, rw (f, s) at e)

  pub get_elem?-drop : (n j : ℕ) (xs : List A) → get_elem? (drop n xs) j ≡ get_elem? xs (n + j)
  get_elem?-drop zero j xs = ap (λ k. get_elem? xs k) (omega arith)
  get_elem?-drop (suc n) j [] = refl
  get_elem?-drop (suc n) j (x ∷ xs) =
      let next : suc n + j ≡ suc (n + j) = omega arith in rw next (get_elem?-drop n j xs)

  pub get_elem?-append :
      (xs ys : List A) (i : ℕ) → get_elem? (xs ++ ys) (length xs + i) ≡ get_elem? ys i
  get_elem?-append [] ys i = ap (λ k. get_elem? ys k) (omega arith)
  get_elem?-append (x ∷ xs) ys i =
      let next : suc (length xs) + i ≡ suc (length xs + i) = omega arith in
      rw next (get_elem?-append xs ys i)

  pub set-append : (xs ys : List A) (x v : A) → set (xs ++ x ∷ ys) (length xs) v ≡ xs ++ v ∷ ys
  set-append [] ys x v = refl
  set-append (y ∷ xs) ys x v = ap (λ r. y ∷ r) (set-append xs ys x v)

  pub insert_at-append :
      (xs ys : List A) (v : A) → insert_at (xs ++ ys) (length xs) v ≡ xs ++ v ∷ ys
  insert_at-append [] ys v = refl
  insert_at-append (y ∷ xs) ys v = ap (λ r. y ∷ r) (insert_at-append xs ys v)

  pub remove_at-append : (xs ys : List A) (x : A) → remove_at (xs ++ x ∷ ys) (length xs) ≡ xs ++ ys
  remove_at-append [] ys x = refl
  remove_at-append (y ∷ xs) ys x = ap (λ r. y ∷ r) (remove_at-append xs ys x)

module _ {ℓ} {A : Type ℓ} where
  pub All-append {κ} : (P : A → Type κ) (xs ys : List A) → All P xs → All P ys → All P (xs ++ ys)
  All-append P [] ys a b = b
  All-append P (x ∷ xs) ys a b = (a.0, All-append P xs ys a.1 b)

  pub All-parts {κ} : (P : A → Type κ) (xs ys : List A) → All P (xs ++ ys) → All P xs × All P ys
  All-parts P [] ys a = (tt, a)
  All-parts P (x ∷ xs) ys a = let (b, c) = All-parts P xs ys a.1 in ((a.0, b), c)
