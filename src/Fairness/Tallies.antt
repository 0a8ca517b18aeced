-- ===== src/Fairness/Tallies.antt =====
-- What `Loads` of src/admission_fairness.rs has recorded of the entries of a queue.
use sedsnet.Base.{
  opt_ind, Option, subst, some-injective, sym, set, ap, usize_max, arith, get_elem?, any, position,
  min, if_ind, List, ℕ, if◌then◌else◌, ◌==◌, ◌||◌, ◌∙◌, ◌+◌, ◌≡◌, refl, false, true, suc, zero, ◌∷◌,
  [], some, none,
}
use sedsnet.Fairness.Loads.{grown, Load, Loads}

-- How often the senders have been recorded, and with how many bytes, once `key` has been with `n`.
abbrev pub plus : ℕ → ℕ → (ℕ → ℕ) → ℕ → ℕ
plus key n f k = (if key == k then n else 0) + f k

-- Each sender stands once, with its number of entries and their bytes.
abbrev pub Tally : (ℕ → ℕ) → (ℕ → ℕ) → List Load → Type 0
Tally counts sums [] = Unit
Tally counts sums (p ∷ ps) =
    ((p.count ≡ counts p.sender) × (p.bytes ≡ min usize_max (sums p.sender)))
    × (any (λ q. q.sender == p.sender) ps ≡ false)
    × Tally counts sums ps

abbrev pub IsComplete : (ℕ → ℕ) → (ℕ → ℕ) → List Load → Type 0
IsComplete counts sums ps =
    (k : ℕ) → any (λ p. p.sender == k) ps ≡ false → (counts k ≡ 0) × (sums k ≡ 0)

-- Where the catalog has had room for every sender, it has them all.
abbrev pub Recorded : (ℕ → ℕ) → (ℕ → ℕ) → Loads → Type 0
Recorded counts sums l =
    l.overflow ≡ false → Tally counts sums l.peers × IsComplete counts sums l.peers

pub grow_first : ℕ → ℕ → List Load → List Load
grow_first sender bytes [] = []
grow_first sender bytes (p ∷ ps) =
    let rest = grow_first sender bytes ps in
    if p.sender == sender then grown bytes p ∷ ps else p ∷ rest

pub set-grow_first :
    (sender bytes : ℕ) (ps : List Load) (i : ℕ) (p : Load)
    → position (λ q. q.sender == sender) ps ≡ some i
    → get_elem? ps i ≡ some p
    → set ps i (grown bytes p) ≡ grow_first sender bytes ps
unfolding grow_first
set-grow_first sender bytes [] i p = λ (e : none ≡ some i). absurd (cc)
set-grow_first sender bytes (q ∷ ps) i p =
    if_ind
      (λ (o : Option ℕ).
        o ≡ some i
        → get_elem? (q ∷ ps) i ≡ some p
        → set (q ∷ ps) i (grown bytes p) ≡ grow_first sender bytes (q ∷ ps))
      (q.sender == sender) (λ same e. here i same (some-injective _ _ e))
      (λ other.
        opt_ind
          (λ (o : Option ℕ).
            o ≡ some i
            → get_elem? (q ∷ ps) i ≡ some p
            → set (q ∷ ps) i (grown bytes p) ≡ grow_first sender bytes (q ∷ ps))
          (position (λ r. r.sender == sender) ps) (λ _ (e : none ≡ some i). absurd (cc))
          (λ j found e.
            there i j other (set-grow_first sender bytes ps j p found) (some-injective _ _ e)))
  where
    here :
        (i : ℕ)
        → (q.sender == sender) ≡ true
        → 0 ≡ i
        → get_elem? (q ∷ ps) i ≡ some p
        → set (q ∷ ps) i (grown bytes p) ≡ grow_first sender bytes (q ∷ ps)
    here zero same e at_i = rw same (ap (λ r. grown bytes r ∷ ps) (sym (some-injective _ _ at_i)))
    here (suc i) same e at_i = absurd (omega (arith, e))

    there :
        (i j : ℕ)
        → (q.sender == sender) ≡ false
        → (get_elem? ps j ≡ some p → set ps j (grown bytes p) ≡ grow_first sender bytes ps)
        → suc j ≡ i
        → get_elem? (q ∷ ps) i ≡ some p
        → set (q ∷ ps) i (grown bytes p) ≡ grow_first sender bytes (q ∷ ps)
    there zero j other ih e at_i = absurd (omega (arith, e))
    there (suc i) j other ih e at_i =
        let same : j ≡ i = omega (arith, e) in
        rw other (
          ap (λ r. q ∷ r)
            (subst
              (λ k. get_elem? ps k ≡ some p → set ps k (grown bytes p) ≡ grow_first sender bytes ps)
              same ih at_i))

pub any-grow_first :
    (sender bytes k : ℕ) (ps : List Load)
    → any (λ q. q.sender == k) (grow_first sender bytes ps) ≡ any (λ q. q.sender == k) ps
unfolding grow_first
any-grow_first sender bytes k [] = refl
any-grow_first sender bytes k (p ∷ ps) =
    if_ind (λ (l : List Load). any (λ q. q.sender == k) l ≡ any (λ q. q.sender == k) (p ∷ ps))
      (p.sender == sender) (λ _. refl)
      (λ _. ap (λ t. (p.sender == k) || t) (any-grow_first sender bytes k ps))

pub elsewhere :
    (sender bytes : ℕ) (counts sums : ℕ → ℕ) (ps : List Load)
    → any (λ q. q.sender == sender) ps ≡ false
    → Tally counts sums ps
    → Tally (plus sender 1 counts) (plus sender bytes sums) ps
elsewhere sender bytes counts sums [] far t = tt
elsewhere sender bytes counts sums (p ∷ ps) far ((c, s), alone, t) =
    let other : (sender == p.sender) ≡ false = ground (arith, far) in
    (
      (rw other (omega (arith, c)), rw other (omega (arith, s))),
      alone,
      elsewhere sender bytes counts sums ps (ground (arith, far)) t,
    )

pub grow_first-Tally :
    (sender bytes : ℕ) (counts sums : ℕ → ℕ) (ps : List Load)
    → Tally counts sums ps
    → Tally (plus sender 1 counts) (plus sender bytes sums) (grow_first sender bytes ps)
unfolding grow_first
grow_first-Tally sender bytes counts sums [] t = tt
grow_first-Tally sender bytes counts sums (p ∷ ps) ((c, s), alone, t) =
    if_ind (Tally (plus sender 1 counts) (plus sender bytes sums)) (p.sender == sender)
      (λ same.
        let own : sender ≡ p.sender = ground (arith, same) in
        let hit : (sender == p.sender) ≡ true = ground (arith, same) in
        (
          (rw hit (omega (arith, c)), rw hit (omega (arith, s))),
          alone,
          elsewhere sender bytes counts sums ps (ap (λ k. any (λ q. q.sender == k) ps) own ∙ alone)
              t,
        ))
      (λ differs.
        let other : (sender == p.sender) ≡ false = ground (arith, differs) in
        (
          (rw other (omega (arith, c)), rw other (omega (arith, s))),
          any-grow_first sender bytes p.sender ps ∙ alone,
          grow_first-Tally sender bytes counts sums ps t,
        ))
