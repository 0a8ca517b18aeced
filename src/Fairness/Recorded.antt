-- ===== src/Fairness/Recorded.antt =====
-- What one record adds to `Loads` of src/admission_fairness.rs.
use sedsnet.Base.{
  subst, position-get_elem?, length, Bool-cases, ◌||◌, ◌++◌, inr, inl, sym, arith, opt_ind,
  some-injective, Option, ap, if_ind, any, get_elem?, position, List, ℕ, ◌==◌, ◌∙◌, ◌≡◌, refl,
  false, true, suc, zero, ◌∷◌, [], some, none,
}
use sedsnet.Fairness.Loads.{catalog_len, Loads, grown, record_load, Load}
use sedsnet.Fairness.Tallies.{
  grow_first-Tally, set-grow_first, Recorded, Tally, any-grow_first, grow_first, plus, IsComplete,
}

absent :
    (sender : ℕ) (ps : List Load)
    → position (λ p. p.sender == sender) ps ≡ none
    → any (λ p. p.sender == sender) ps ≡ false
absent sender [] = λ e. refl
absent sender (p ∷ ps) =
    if_ind (λ (o : Option ℕ). o ≡ none → any (λ q. q.sender == sender) (p ∷ ps) ≡ false)
      (p.sender == sender) (λ _ (e : some 0 ≡ none). absurd (cc))
      (λ other.
        opt_ind (λ (o : Option ℕ). o ≡ none → any (λ q. q.sender == sender) (p ∷ ps) ≡ false)
          (position (λ q. q.sender == sender) ps) (λ e _. rw other (absent sender ps e))
          (λ j _ (e : some (suc j) ≡ none). absurd (cc)))

any_at :
    (k : ℕ) (ps : List Load) (i : ℕ) (p : Load)
    → get_elem? ps i ≡ some p
    → (p.sender == k) ≡ true
    → any (λ q. q.sender == k) ps ≡ true
any_at k [] i p e t = absurd (cc)
any_at k (q ∷ ps) zero p e t =
    let here : (q.sender == k) ≡ true =
      ap (λ (r : Load). r.sender == k) (some-injective _ _ e) ∙ t in
    rw here refl
any_at k (q ∷ ps) (suc i) p e t = ground (arith, any_at k ps i p e t)

apart :
    (sender k : ℕ) (ps : List Load)
    → any (λ p. p.sender == sender) ps ≡ true
    → any (λ p. p.sender == k) ps ≡ false
    → (sender == k) ≡ false
apart sender k ps present missing = elim (Bool-cases (sender == k)) [
  | inl same ↦
      let this : sender ≡ k = ground (arith, same) in
      let both : true ≡ false =
        sym present ∙ ap (λ n. any (λ p. p.sender == n) ps) this ∙ missing in
      absurd (cc)
  | inr other ↦ other
]

not_counted :
    (sender bytes k : ℕ) (counts sums : ℕ → ℕ)
    → (sender == k) ≡ false
    → (counts k ≡ 0) × (sums k ≡ 0)
    → (plus sender 1 counts k ≡ 0) × (plus sender bytes sums k ≡ 0)
not_counted sender bytes k counts sums other (c, s) =
    (rw other (omega (arith, c)), rw other (omega (arith, s)))

grow_first-IsComplete :
    (sender bytes : ℕ) (counts sums : ℕ → ℕ) (ps : List Load)
    → any (λ p. p.sender == sender) ps ≡ true
    → IsComplete counts sums ps
    → IsComplete (plus sender 1 counts) (plus sender bytes sums) (grow_first sender bytes ps)
grow_first-IsComplete sender bytes counts sums ps present c k far =
    let missing = sym (any-grow_first sender bytes k ps) ∙ far in
    not_counted sender bytes k counts sums (apart sender k ps present missing) (c k missing)

abbrev first_load : ℕ → ℕ → Load
first_load sender bytes = grown bytes (record { sender = sender; bytes = 0; count = 0 })

any-append :
    (k : ℕ) (ps : List Load) (p : Load)
    → any (λ q. q.sender == k) (ps ++ p ∷ []) ≡ any (λ q. q.sender == k) ps || (p.sender == k)
any-append k [] p = ground arith
any-append k (q ∷ ps) p = ground (arith, any-append k ps p)

append-Tally :
    (sender bytes : ℕ) (counts sums : ℕ → ℕ) (ps : List Load)
    → any (λ p. p.sender == sender) ps ≡ false
    → (counts sender ≡ 0) × (sums sender ≡ 0)
    → Tally counts sums ps
    → Tally (plus sender 1 counts) (plus sender bytes sums) (ps ++ first_load sender bytes ∷ [])
append-Tally sender bytes counts sums [] far (c, s) t =
    let own : (sender == sender) ≡ true = ground arith in
    ((rw own (omega (arith, c)), rw own (omega (arith, s))), refl, tt)
append-Tally sender bytes counts sums (p ∷ ps) far unseen ((c, s), alone, t) =
    let other : (sender == p.sender) ≡ false = ground (arith, far) in
    (
      (rw other (omega (arith, c)), rw other (omega (arith, s))),
      ground (arith, any-append p.sender ps (first_load sender bytes), alone, other),
      append-Tally sender bytes counts sums ps (ground (arith, far)) unseen t,
    )

append-IsComplete :
    (sender bytes : ℕ) (counts sums : ℕ → ℕ) (ps : List Load)
    → IsComplete counts sums ps
    → IsComplete
        (plus sender 1 counts)
        (plus sender bytes sums)
        (ps ++ first_load sender bytes ∷ [])
append-IsComplete sender bytes counts sums ps c k far =
    let both = sym (any-append k ps (first_load sender bytes)) ∙ far in
    not_counted sender bytes k counts sums (ground (arith, both)) (c k (ground (arith, both)))

pub record_load-Recorded :
    (sender bytes : ℕ) (counts sums : ℕ → ℕ) (l : Loads)
    → Recorded counts sums l
    → Recorded (plus sender 1 counts) (plus sender bytes sums) (record_load sender bytes l)
unfolding record_load
record_load-Recorded sender bytes counts sums l h =
    let Goal = Recorded (plus sender 1 counts) (plus sender bytes sums) in
    opt_ind Goal (position (λ p. p.sender == sender) l.peers)
      (λ e.
        let far = absent sender l.peers e in
        if_ind Goal (length l.peers == catalog_len) (λ full. λ (no : true ≡ false). absurd (cc))
          (λ room fits.
            let (t, whole) = h fits in
            (
              append-Tally sender bytes counts sums l.peers far (whole sender far) t,
              append-IsComplete sender bytes counts sums l.peers whole,
            )))
      (λ i e.
        let (p, at_i, own) = position-get_elem? _ l.peers e in
        let same = set-grow_first sender bytes l.peers i p e at_i in
        rw at_i (λ fits.
          let (t, whole) = h fits in
          (
            subst (Tally (plus sender 1 counts) (plus sender bytes sums)) (sym same)
                (grow_first-Tally sender bytes counts sums l.peers t),
            subst (IsComplete (plus sender 1 counts) (plus sender bytes sums)) (sym same) (
                grow_first-IsComplete sender bytes counts sums l.peers
                  (any_at sender l.peers i p at_i own) whole),
          )))

pub same_counts :
    (counts sums counts' sums' : ℕ → ℕ) (l : Loads)
    → ((k : ℕ) → counts k ≡ counts' k)
    → ((k : ℕ) → sums k ≡ sums' k)
    → Recorded counts sums l
    → Recorded counts' sums' l
same_counts counts sums counts' sums' l c s h =
    subst (λ f. Recorded f sums' l) (λ i k. c k i)
      (subst (λ f. Recorded counts f l) (λ i k. s k i) h)
