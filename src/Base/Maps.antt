-- ===== src/Base/Maps.antt =====
-- `BTreeMap` with strings as keys: the list of its entries in ascending order of the keys.
use mathlib.Core.Path.{◌≡◌, ap, subst, sym}
use mathlib.Core.Bool.{Bool, true, false}
use mathlib.Core.List.{List, [], ◌∷◌}
use mathlib.Core.Option.{Option, none, some, some-injective}
use native.Mathlib.Omega.{arith}
use sedsnet.Base.Tests.{if◌then◌else◌, if_ind}
use sedsnet.Base.Lists.{All}
use sedsnet.Base.Names.{
  Name, name_lt, name_eq, name_eq→eq, name_eq_refl, name_lt_trans, name_lt_total,
}

module _ {ℓ} {V : Type ℓ} where
  abbrev pub get : List (Name × V) → Name → Option V
  get [] k = none
  get ((j, v) ∷ m) k = if name_eq k j then some v else get m k

  unfoldable pub insert : List (Name × V) → Name → V → List (Name × V)
  insert [] k v = (k, v) ∷ []
  insert ((j, w) ∷ m) k v =
      let rest = insert m k v in
      if name_lt k j
      then (k, v) ∷ (j, w) ∷ m
      else (if name_eq k j then (k, v) ∷ m else (j, w) ∷ rest)

  unfoldable pub remove : List (Name × V) → Name → List (Name × V)
  remove [] k = []
  remove ((j, w) ∷ m) k = let rest = remove m k in if name_eq k j then rest else (j, w) ∷ rest

  unfoldable pub retain : List (Name × V) → (V → Bool) → List (Name × V)
  retain [] keep = []
  retain ((j, w) ∷ m) keep = let rest = retain m keep in if keep w then (j, w) ∷ rest else rest

  -- The keys ascend.
  abbrev pub IsSorted : List (Name × V) → Type ℓ
  IsSorted [] = Unit
  IsSorted ((k, v) ∷ m) = All (λ (e : Name × V). name_lt k e.0 ≡ true) m × IsSorted m

  pub get-insert_same : (m : List (Name × V)) (k : Name) (v : V) → get (insert m k v) k ≡ some v
  unfolding insert
  get-insert_same [] k v = ground (arith, name_eq_refl k)
  get-insert_same ((j, w) ∷ m) k v =
      if_ind (λ r. get r k ≡ some v) (name_lt k j) (λ _. ground (arith, name_eq_refl k))
        λ _.
          if_ind (λ r. get r k ≡ some v) (name_eq k j) (λ _. ground (arith, name_eq_refl k))
            λ other. rw other (get-insert_same m k v)

  pub get-insert_other :
      (m : List (Name × V)) (k j : Name) (v : V)
      → name_eq j k ≡ false
      → get (insert m k v) j ≡ get m j
  unfolding insert
  get-insert_other [] k j v h = rw h
  get-insert_other ((i, w) ∷ m) k j v h =
      let P : List (Name × V) → Type ℓ = λ r. get r j ≡ get ((i, w) ∷ m) j in
      if_ind P (name_lt k i) (λ _. rw h)
        λ _.
          if_ind P (name_eq k i) (λ same. ground (arith, h, name_eq→eq k i same))
            λ _. ap (λ r. if name_eq j i then some w else r) (get-insert_other m k j v h)

  pub All-insert {κ} :
      (P : Name × V → Type κ) (m : List (Name × V)) (k : Name) (v : V)
      → P (k, v)
      → All P m
      → All P (insert m k v)
  unfolding insert
  All-insert P [] k v h a = (h, tt)
  All-insert P ((j, w) ∷ m) k v h a =
      if_ind (All P) (name_lt k j) (λ _. (h, a))
        λ _. if_ind (All P) (name_eq k j) (λ _. (h, a.1)) (λ _. (a.0, All-insert P m k v h a.1))

  lt_chain :
      (k j : Name) (m : List (Name × V))
      → name_lt k j ≡ true
      → All (λ (e : Name × V). name_lt j e.0 ≡ true) m
      → All (λ (e : Name × V). name_lt k e.0 ≡ true) m
  lt_chain k j [] h a = tt
  lt_chain k j (e ∷ m) h a = (name_lt_trans k j e.0 h a.0, lt_chain k j m h a.1)

  pub insert-IsSorted :
      (m : List (Name × V)) (k : Name) (v : V) → IsSorted m → IsSorted (insert m k v)
  unfolding insert
  insert-IsSorted [] k v s = (tt, tt)
  insert-IsSorted ((j, w) ∷ m) k v s =
      if_ind IsSorted (name_lt k j) (λ lt. ((lt, lt_chain k j m lt s.0), s))
        λ not_lt.
          if_ind IsSorted (name_eq k j) (λ same. let e = name_eq→eq k j same in (rw e s.0, s.1))
            λ other.
              (All-insert _ m k v (name_lt_total k j not_lt other) s.0, insert-IsSorted m k v s.1)

  pub All-get {κ} :
      (P : Name × V → Type κ) (m : List (Name × V)) (k : Name) {v : V}
      → All P m
      → get m k ≡ some v
      → P (k, v)
  All-get P [] k a = λ e. absurd (cc)
  All-get P ((j, w) ∷ m) k {v} a =
      if_ind (λ o. o ≡ some v → P (k, v)) (name_eq k j)
        (λ same e.
          subst (λ x. P (k, x)) (some-injective _ _ e)
            (subst (λ i. P (i, w)) (sym (name_eq→eq k j same)) a.0))
        λ _ e. All-get P m k a.1 e
