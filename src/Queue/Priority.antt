-- ===== src/Queue/Priority.antt =====
-- Descending priority order in `BoundedDeque` (src/queue.rs): the insertion and the prioritized push.
use sedsnet.Base.{
  false, ltb, last?-eq-none, Option-cases, leb→le, inr, ap, inl, Bool-cases, true, leb, refl, arith,
  some, partition_point, if_ind, ◌≤◌, [], if◌then◌else◌, ◌++◌, last?, All, ◌≡◌, insert_at, ◌∷◌,
  List, ℕ,
}
use sedsnet.Queue.Push.{is_none_or, insert_ordered}

module _ {ℓ} {T : Type ℓ} (priority_of : T → ℕ) where
  -- No entry has a higher priority than one before it.
  abbrev pub IsOrdered : List T → Type 0
  IsOrdered [] = Unit {0}
  IsOrdered (x ∷ xs) = All (λ y. priority_of y ≤ priority_of x) xs × IsOrdered xs

  -- The reference insertion: behind the last entry of the same or a higher priority.
  abbrev pub insert_spec : T → ℕ → List T → List T
  insert_spec v p [] = v ∷ []
  insert_spec v p (x ∷ xs) =
      let rest = insert_spec v p xs in if leb p (priority_of x) then x ∷ rest else v ∷ x ∷ xs

  insert_at-insert_spec :
      (v : T) (p : ℕ) (xs : List T)
      → insert_at xs (partition_point (λ x. leb p (priority_of x)) xs) v ≡ insert_spec v p xs
  insert_at-insert_spec v p [] = refl
  insert_at-insert_spec v p (x ∷ xs) = elim (Bool-cases (leb p (priority_of x))) [
    | inl e ↦ rw e (ap (λ r. x ∷ r) (insert_at-insert_spec v p xs))
    | inr e ↦ rw e
  ]

  bounded_by_last :
      (p : ℕ) (xs : List T) {y : T}
      → IsOrdered xs
      → last? xs ≡ some y
      → p ≤ priority_of y
      → All (λ x. p ≤ priority_of x) xs
  bounded_by_last p [] o e h = tt
  bounded_by_last p (x ∷ []) {y} o e h = (ground arith, tt)
  bounded_by_last p (x ∷ z ∷ xs) o e h =
      let rest = bounded_by_last p (z ∷ xs) o.1 e h in (omega (arith, rest.0, o.0.0), rest)

  append-insert_spec :
      (v : T) (p : ℕ) (xs : List T)
      → All (λ x. p ≤ priority_of x) xs
      → xs ++ v ∷ [] ≡ insert_spec v p xs
  append-insert_spec v p [] h = refl
  append-insert_spec v p (x ∷ xs) h =
      let here : leb p (priority_of x) ≡ true = ground arith in
      rw here (ap (λ r. x ∷ r) (append-insert_spec v p xs h.1))

  -- On a queue in descending order each of the three ways in which the code inserts puts the entry
  -- behind the last one of the same or a higher priority.
  pub insert_ordered-insert_spec :
      (v : T) (p : ℕ) (xs : List T)
      → IsOrdered xs
      → insert_ordered v p priority_of xs ≡ insert_spec v p xs
  unfolding insert_ordered
  insert_ordered-insert_spec v p [] o = refl
  insert_ordered-insert_spec v p (x ∷ xs) o =
      let spec = insert_spec v p (x ∷ xs) in
      if_ind (λ r. r ≡ spec) (is_none_or (last? (x ∷ xs)) (λ back. leb p (priority_of back)))
        (λ e. append-insert_spec v p (x ∷ xs) (high e))
        λ _.
          if_ind (λ r. r ≡ spec) (ltb (priority_of x) p)
            (λ lower. let higher : leb p (priority_of x) ≡ false = ground arith in rw higher)
            λ _. insert_at-insert_spec v p (x ∷ xs)
    where
      high :
          is_none_or (last? (x ∷ xs)) (λ back. leb p (priority_of back)) ≡ true
          → All (λ y. p ≤ priority_of y) (x ∷ xs)
      high e = elim (Option-cases (last? (x ∷ xs))) [
        | inl n ↦ cc (last?-eq-none (x ∷ xs) n)
        | inr (y, l) ↦ bounded_by_last p (x ∷ xs) o l (leb→le _ _ (rw l at e))
      ]

  All-insert_spec {μ} :
      (P : T → Type μ) (v : T) (p : ℕ) (xs : List T) → P v → All P xs → All P (insert_spec v p xs)
  All-insert_spec P v p [] h a = (h, tt)
  All-insert_spec P v p (x ∷ xs) h a =
      if_ind (All P) (leb p (priority_of x)) (λ _. (a.0, All-insert_spec P v p xs h a.1))
        (λ _. (h, a))

  All-mono {μ ν} :
      {P : T → Type μ} {Q : T → Type ν} (xs : List T) → ((x : T) → P x → Q x) → All P xs → All Q xs
  All-mono [] f a = tt
  All-mono (x ∷ xs) f a = (f x a.0, All-mono xs f a.1)

  pub insert_spec-IsOrdered :
      (v : T) (xs : List T) → IsOrdered xs → IsOrdered (insert_spec v (priority_of v) xs)
  insert_spec-IsOrdered v [] o = (tt, tt)
  insert_spec-IsOrdered v (x ∷ xs) o =
      if_ind IsOrdered (leb (priority_of v) (priority_of x))
        (λ le. (
          All-insert_spec _ v (priority_of v) xs (ground arith) o.0,
          insert_spec-IsOrdered v xs o.1,
        ))
        λ gt. ((ground arith, All-mono xs (λ y h. ground arith) o.0), o)
