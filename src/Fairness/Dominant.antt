-- ===== src/Fairness/Dominant.antt =====
-- The dominant producer in src/admission_fairness.rs.
use sedsnet.Base.{
  leb→le, leb, sym, opt_ind, some-injective, not, ap, All, get_elem?, if_ind, arith, subst, any,
  List, Bool, ℕ, Option, if◌then◌else◌, ◌==◌, ◌≢◌, ◌⊎◌, ◌∙◌, ◌≤◌, ◌≡◌, refl, false, true, suc, ◌∷◌,
  [], inr, inl, some, none,
}
use sedsnet.Fairness.Loads.{repeated, Loads, heaviest, dominant, Load}

-- `b` is an entry that passes the test, and none that passes it has more bytes.
pub record IsHeaviest (fits : Load → Bool) (ps : List Load) (b : Load) : Type 0 where
  pub passes : fits b ≡ true
  pub member : (i : ℕ) × (get_elem? ps i ≡ some b)
  pub most : All (λ p. fits p ≡ true → p.bytes ≤ b.bytes) ps

module _ (fits : Load → Bool) where
  -- What the loop answers, from the best entry so far.
  Heaviest : Option Load → List Load → Load → Type 0
  Heaviest best ps b =
      ((best ≡ some b) ⊎ ((fits b ≡ true) × ((i : ℕ) × (get_elem? ps i ≡ some b))))
      × ((c : Load) → best ≡ some c → c.bytes ≤ b.bytes)
      × All (λ p. fits p ≡ true → p.bytes ≤ b.bytes) ps

  later :
      (ps : List Load) (p : Load) (b : Load)
      → (fits b ≡ true) × ((i : ℕ) × (get_elem? ps i ≡ some b))
      → (fits b ≡ true) × ((i : ℕ) × (get_elem? (p ∷ ps) i ≡ some b))
  later ps p b (ok_b, (i, e)) = (ok_b, (suc i, e))

  skipped :
      (best : Option Load) (p : Load) (ps : List Load) (b : Load)
      → fits p ≡ false
      → Heaviest best ps b
      → Heaviest best (p ∷ ps) b
  unfolding Heaviest
  skipped best p ps b f (source, others, rest) = (
    elim source [ inl e ↦ inl e | inr m ↦ inr (later ps p b m) ],
    others,
    (λ t. absurd (cc), rest),
  )

  replaced :
      (best : Option Load) (p : Load) (ps : List Load) (b : Load)
      → fits p ≡ true
      → ((c : Load) → best ≡ some c → c.bytes ≤ p.bytes)
      → Heaviest (some p) ps b
      → Heaviest best (p ∷ ps) b
  unfolding Heaviest
  replaced best p ps b t lighter (source, others, rest) = (
    elim source [
      | inl e ↦ inr (subst (λ y. fits y ≡ true) (some-injective _ _ e) t, (0, e))
      | inr m ↦ inr (later ps p b m)
    ],
    λ c e. omega (arith, lighter c e, others p refl),
    (λ _. others p refl, rest),
  )

  kept :
      (c p : Load) (ps : List Load) (b : Load)
      → p.bytes ≤ c.bytes
      → Heaviest (some c) ps b
      → Heaviest (some c) (p ∷ ps) b
  unfolding Heaviest
  kept c p ps b lighter (source, others, rest) = (
    elim source [ inl e ↦ inl e | inr m ↦ inr (later ps p b m) ],
    others,
    (λ _. omega (arith, lighter, others c refl), rest),
  )

  heaviest-Heaviest :
      (best : Option Load) (ps : List Load) {b : Load}
      → heaviest fits best ps ≡ some b
      → Heaviest best ps b
  unfolding heaviest Heaviest
  heaviest-Heaviest best [] {b} = λ e.
      (inl e, λ c h. omega (arith, ap (λ (x : Load). x.bytes) (some-injective _ _ (sym e ∙ h))), tt)
  heaviest-Heaviest none (p ∷ ps) {b} =
      if_ind (λ next. heaviest fits next ps ≡ some b → Heaviest none (p ∷ ps) b) (not (fits p))
        (λ f e. skipped none p ps b (ground arith) (heaviest-Heaviest none ps e))
        λ t e.
          replaced none p ps b (ground arith) (λ c n. absurd (cc)) (heaviest-Heaviest (some p) ps e)
  heaviest-Heaviest (some c) (p ∷ ps) {b} =
      let Goal : Option Load → Type 0 =
        λ next. heaviest fits next ps ≡ some b → Heaviest (some c) (p ∷ ps) b in
      if_ind Goal (not (fits p))
        (λ f e. skipped (some c) p ps b (ground arith) (heaviest-Heaviest (some c) ps e))
        λ t.
          if_ind Goal (leb c.bytes p.bytes)
            (λ more e.
              replaced (some c) p ps b (ground arith) (lighter more)
                (heaviest-Heaviest (some p) ps e))
            λ less e. kept c p ps b (ground arith) (heaviest-Heaviest (some c) ps e)
    where
      lighter : leb c.bytes p.bytes ≡ true → (d : Load) → some c ≡ some d → d.bytes ≤ p.bytes
      lighter more d n =
          subst (λ (y : Load). y.bytes ≤ p.bytes) (some-injective _ _ n) (leb→le _ _ more)

  heaviest-IsHeaviest :
      (ps : List Load) {b : Load} → heaviest fits none ps ≡ some b → IsHeaviest fits ps b
  unfolding Heaviest
  heaviest-IsHeaviest ps e =
      let (source, _, rest) = heaviest-Heaviest none ps e in
      elim source [
        | inl n ↦ absurd (cc)
        | inr (ok_b, at_b) ↦ record { passes = ok_b; member = at_b; most = rest }
      ]

  heaviest_found : (ps : List Load) (c : Load) → heaviest fits (some c) ps ≢ none
  unfolding heaviest
  heaviest_found [] c = λ e. cc
  heaviest_found (p ∷ ps) c =
      if_ind (λ next. heaviest fits next ps ≢ none) (not (fits p)) (λ _. heaviest_found ps c)
        λ _.
          if_ind (λ next. heaviest fits next ps ≢ none) (leb c.bytes p.bytes)
            (λ _. heaviest_found ps p) (λ _. heaviest_found ps c)

  heaviest_missing : (ps : List Load) → heaviest fits none ps ≡ none → All (λ p. fits p ≡ false) ps
  unfolding heaviest
  heaviest_missing [] = λ e. tt
  heaviest_missing (p ∷ ps) =
      if_ind (λ next. heaviest fits next ps ≡ none → All (λ q. fits q ≡ false) (p ∷ ps))
        (not (fits p)) (λ f e. (ground arith, heaviest_missing ps e))
        λ _ e. absurd (heaviest_found ps p e)

-- Why a sender gives way: it has several entries, and no other such sender has more bytes; or nobody
-- has several entries, and it is the incoming sender with an entry of its own.
abbrev pub GivesWay : Option ℕ → Loads → ℕ → Type 0
GivesWay incoming l s =
    ((p : Load) × (p.sender ≡ s) × IsHeaviest repeated l.peers p)
    ⊎ (All (λ p. repeated p ≡ false) l.peers
        × (incoming ≡ some s)
        × (any (λ p. p.sender == s) l.peers ≡ true))

-- The sender that is chosen is the dominant one, or the incoming one where nobody has several entries;
-- beyond the catalog nobody is chosen.
dominant-GivesWay :
    (incoming : Option ℕ) (l : Loads) {s : ℕ}
    → dominant incoming l ≡ some s
    → (l.overflow ≡ false) × GivesWay incoming l s
unfolding dominant
dominant-GivesWay incoming l {s} =
    if_ind (λ o. o ≡ some s → (l.overflow ≡ false) × GivesWay incoming l s) l.overflow
      (λ _ (e : none ≡ some s). absurd (cc))
      λ room.
        opt_ind (λ o. o ≡ some s → (l.overflow ≡ false) × GivesWay incoming l s)
          (heaviest repeated none l.peers)
          (λ none_repeated e.
            let (arrives, present) = own incoming e in
            (room, inr (heaviest_missing repeated l.peers none_repeated, arrives, present)))
          λ p found e.
            (room, inl (p, some-injective _ _ e, heaviest-IsHeaviest repeated l.peers found))
  where
    own :
        (incoming : Option ℕ)
        → elim incoming [
          | none ↦ none
          | some source ↦ if any (λ p. p.sender == source) l.peers then some source else none
        ]
          ≡ some s
        → (incoming ≡ some s) × (any (λ p. p.sender == s) l.peers ≡ true)
    own none = λ e. absurd (cc)
    own (some source) =
        if_ind
          (λ o. o ≡ some s → (some source ≡ some s) × (any (λ p. p.sender == s) l.peers ≡ true))
          (any (λ p. p.sender == source) l.peers)
          (λ present e. (
            e,
            subst (λ n. any (λ p. p.sender == n) l.peers ≡ true) (some-injective _ _ e) present,
          ))
          λ _ (e : none ≡ some s). absurd (cc)

-- Why nobody gives way: there are more senders than the catalog holds; or nobody has several entries,
-- and there is no incoming sender, or it has no entry of its own.
abbrev pub IsAbsent : Option ℕ → Loads → Type 0
IsAbsent none l = Unit
IsAbsent (some s) l = any (λ p. p.sender == s) l.peers ≡ false

abbrev pub Chooses : Option ℕ → Loads → Option ℕ → Type 0
Chooses incoming l none =
    (l.overflow ≡ true) ⊎ (All (λ p. repeated p ≡ false) l.peers × IsAbsent incoming l)
Chooses incoming l (some s) = (l.overflow ≡ false) × GivesWay incoming l s

dominant_missing :
    (incoming : Option ℕ) (l : Loads) → dominant incoming l ≡ none → Chooses incoming l none
unfolding dominant
dominant_missing incoming l =
    if_ind (λ o. o ≡ none → Chooses incoming l none) l.overflow (λ full e. inl full)
      λ room.
        opt_ind (λ o. o ≡ none → Chooses incoming l none) (heaviest repeated none l.peers)
          (λ none_repeated e.
            inr (heaviest_missing repeated l.peers none_repeated, absent incoming e))
          λ p found (e : some p.sender ≡ none). absurd (cc)
  where
    absent :
        (incoming : Option ℕ)
        → elim incoming [
          | none ↦ none
          | some source ↦ if any (λ p. p.sender == source) l.peers then some source else none
        ]
          ≡ none
        → IsAbsent incoming l
    absent none = λ e. tt
    absent (some source) =
        if_ind (λ o. o ≡ none → any (λ p. p.sender == source) l.peers ≡ false)
          (any (λ p. p.sender == source) l.peers) (λ t (e : some source ≡ none). absurd (cc))
          λ f e. f

pub dominant-Chooses : (incoming : Option ℕ) (l : Loads) → Chooses incoming l (dominant incoming l)
dominant-Chooses incoming l = for_answer (dominant incoming l) refl
  where
    for_answer : (o : Option ℕ) → dominant incoming l ≡ o → Chooses incoming l o
    for_answer none e = dominant_missing incoming l e
    for_answer (some s) e = dominant-GivesWay incoming l e
