-- ===== src/TimeSync/Rank.antt =====
-- The order of time sources in src/timesync.rs: the lower priority number first, then the name; and
-- the search for the first one.
use sedsnet.Base.{
  sym, some-injective, name_lt_asym, name_lt_negtrans, if_ind, Bool-cases, subst, ◌≢◌, ◌∙◌, refl,
  suc, inr, name_lt, name_lt_total, get_elem?, name_eq, All, ltb, arith, not, Name, List, Option, ℕ,
  Bool, if◌then◌else◌, ◌==◌, ◌||◌, ◌&&◌, ◌⊎◌, ◌≡◌, false, true, ◌∷◌, [], inl, some, none,
}

-- `a.priority < b.priority || (a.priority == b.priority && a.name < b.name)`.
abbrev pub ahead : ℕ → Name → ℕ → Name → Bool
ahead p a q b = ltb p q || ((p == q) && name_lt a b)

pub ahead_asym : (p q : ℕ) (a b : Name) → ahead p a q b ≡ true → ahead q b p a ≡ false
ahead_asym p q a b h = ground (arith, name_lt_asym a b)

pub ahead_negtrans :
    (p q r : ℕ) (a b c : Name)
    → ahead p a q b ≡ false
    → ahead q b r c ≡ false
    → ahead p a r c ≡ false
ahead_negtrans p q r a b c h k = ground (arith, name_lt_negtrans a b c)

pub ahead_total :
    (p q : ℕ) (a b : Name) → name_eq a b ≡ false → ahead p a q b ≡ false → ahead q b p a ≡ true
ahead_total p q a b n h = ground (arith, name_lt_total a b, n)

module _ {ℓ} {A : Type ℓ} where
  -- The loop that keeps the best entry so far among those that pass the test.
  unfoldable pub best_of : (A → A → Bool) → (A → Bool) → Option A → List A → Option A
  best_of better fits best [] = best
  best_of better fits best (x ∷ xs) =
      best_of better fits
        (if not (fits x)
          then best
          else elim best [ none ↦ some x | some b ↦ if better x b then some x else some b ])
        xs

  -- The entry `b` of the list passes the test, and no entry that passes it is better.
  pub record IsBest (better : A → A → Bool) (fits : A → Bool) (xs : List A) (b : A) : Type ℓ where
    pub passes : fits b ≡ true
    pub member : (i : ℕ) × (get_elem? xs i ≡ some b)
    pub least : All (λ x. fits x ≡ true → better x b ≡ false) xs

module _ {ℓ} {A : Type ℓ} (better : A → A → Bool) (fits : A → Bool)
    (asym : (x y : A) → better x y ≡ true → better y x ≡ false)
    (negtrans : (x y z : A) → better x y ≡ false → better y z ≡ false → better x z ≡ false) where
  -- What the loop answers, from what it has kept so far.
  Kept : Option A → List A → A → Type ℓ
  Kept best xs b =
      ((best ≡ some b) ⊎ ((fits b ≡ true) × ((i : ℕ) × (get_elem? xs i ≡ some b))))
      × ((c : A) → best ≡ some c → better c b ≡ false)
      × All (λ x. fits x ≡ true → better x b ≡ false) xs

  not_better : (b : A) → better b b ≡ false
  not_better b = elim (Bool-cases (better b b)) [ inl t ↦ asym b b t | inr f ↦ f ]

  skipped :
      (best : Option A) {x : A} (xs : List A) (b : A)
      → fits x ≡ false
      → Kept best xs b
      → Kept best (x ∷ xs) b
  unfolding Kept
  skipped best xs b f (source, others, rest) = (
    elim source [ inl e ↦ inl e | inr (ok_b, (i, e)) ↦ inr (ok_b, (suc i, e)) ],
    others,
    (λ t. absurd (cc), rest),
  )

  -- The new entry replaces whatever has been kept.
  replaced :
      (best : Option A) {x : A} (xs : List A) (b : A)
      → fits x ≡ true
      → ((c : A) → best ≡ some c → better c x ≡ false)
      → Kept (some x) xs b
      → Kept best (x ∷ xs) b
  unfolding Kept
  replaced best {x} xs b t worse (source, others, rest) = (
    elim source [
      | inl e ↦ inr (subst (λ y. fits y ≡ true) (some-injective _ _ e) t, (0, e))
      | inr (ok_b, (i, e)) ↦ inr (ok_b, (suc i, e))
    ],
    λ c e. negtrans c x b (worse c e) (others x refl),
    (λ _. others x refl, rest),
  )

  unmoved :
      {c x : A} (xs : List A) (b : A)
      → better x c ≡ false
      → Kept (some c) xs b
      → Kept (some c) (x ∷ xs) b
  unfolding Kept
  unmoved {c} {x} xs b worse (source, others, rest) = (
    elim source [ inl e ↦ inl e | inr (ok_b, (i, e)) ↦ inr (ok_b, (suc i, e)) ],
    others,
    (λ _. negtrans x c b worse (others c refl), rest),
  )

  best_of-Kept :
      (best : Option A) (xs : List A) {b : A}
      → best_of better fits best xs ≡ some b
      → Kept best xs b
  unfolding best_of Kept
  best_of-Kept best [] {b} = λ e. (
    inl e,
    λ c h. subst (λ y. better y b ≡ false) (some-injective _ _ (sym e ∙ h)) (not_better b),
    tt,
  )
  best_of-Kept none (x ∷ xs) {b} =
      if_ind (λ next. best_of better fits next xs ≡ some b → Kept none (x ∷ xs) b) (not (fits x))
        (λ f e. skipped none xs b (ground arith) (best_of-Kept none xs e))
        λ t e. replaced none xs b (ground arith) (λ c n. absurd (cc)) (best_of-Kept (some x) xs e)
  best_of-Kept (some c) (x ∷ xs) {b} =
      let Goal : Option A → Type ℓ =
        λ next. best_of better fits next xs ≡ some b → Kept (some c) (x ∷ xs) b in
      if_ind Goal (not (fits x))
        (λ f e. skipped (some c) xs b (ground arith) (best_of-Kept (some c) xs e))
        λ t.
          if_ind Goal (better x c)
            (λ first e.
              replaced (some c) xs b (ground arith) (worse first) (best_of-Kept (some x) xs e))
            λ behind e. unmoved xs b behind (best_of-Kept (some c) xs e)
    where
      worse : better x c ≡ true → (d : A) → some c ≡ some d → better d x ≡ false
      worse first d n = subst (λ y. better y x ≡ false) (some-injective _ _ n) (asym x c first)

  pub best_of-IsBest :
      (xs : List A) {b : A} → best_of better fits none xs ≡ some b → IsBest better fits xs b
  unfolding Kept
  best_of-IsBest xs e =
      let (source, _, rest) = best_of-Kept none xs e in
      elim source [
        | inl n ↦ absurd (cc)
        | inr (ok_b, at_b) ↦ record { passes = ok_b; member = at_b; least = rest }
      ]

module _ {ℓ} {A : Type ℓ} (better : A → A → Bool) (fits : A → Bool) where
  best_of_found : (xs : List A) (c : A) → best_of better fits (some c) xs ≢ none
  unfolding best_of
  best_of_found [] c = λ e. cc
  best_of_found (x ∷ xs) c =
      if_ind (λ next. best_of better fits next xs ≢ none) (not (fits x)) (λ _. best_of_found xs c)
        λ _.
          if_ind (λ next. best_of better fits next xs ≢ none) (better x c) (λ _. best_of_found xs x)
            (λ _. best_of_found xs c)

  pub best_of_missing :
      (xs : List A) → best_of better fits none xs ≡ none → All (λ x. fits x ≡ false) xs
  unfolding best_of
  best_of_missing [] = λ e. tt
  best_of_missing (x ∷ xs) =
      if_ind (λ next. best_of better fits next xs ≡ none → All (λ x. fits x ≡ false) (x ∷ xs))
        (not (fits x)) (λ f e. (ground arith, best_of_missing xs e))
        λ _ e. absurd (best_of_found xs x e)
