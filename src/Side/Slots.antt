-- ===== src/Side/Slots.antt =====
-- The slots of `SideTxProgress`, src/side_transport.rs: what is found in them after a change.
use sedsnet.Base.{
  ap, opt_ind, some-injective, sym, subst, arith, if_ind, Bool-cases, ℕ, Option, if◌then◌else◌,
  ◌==◌, ◌≢◌, ◌∙◌, ◌≡◌, refl, false, true, ◌∷◌, [], inr, inl, some, none,
}
use sedsnet.Side.Cursors.{
  paused, SideTxProgress, clear_paused, fill_slot, change_slot, find_cursor, SideTxCursor,
}

-- A cursor of the key with its next chunk is found, and the others are what they are.
pub find_cursor-change_slot :
    (key : ℕ) (f : SideTxCursor → Option SideTxCursor) (slots : SideTxProgress) (c d : SideTxCursor)
    → find_cursor key slots ≡ some c
    → f c ≡ some d
    → d.key ≡ key
    → find_cursor key (change_slot key f slots) ≡ some d
unfolding find_cursor change_slot
find_cursor-change_slot key f [] c d e g k = absurd (cc)
find_cursor-change_slot key f (none ∷ slots) c d e g k =
    find_cursor-change_slot key f slots c d e g k
find_cursor-change_slot key f (some a ∷ slots) c d e g k = elim (Bool-cases (a.key == key)) [
  | inl same ↦
      let this : a ≡ c = some-injective _ _ (rw same at e) in
      let at_key : (d.key == key) ≡ true = ground (arith, k) in
      rw same (rw (ap f this ∙ g) (rw at_key refl))
  | inr other ↦ rw other (rw other (find_cursor-change_slot key f slots c d (rw other at e) g k))
]

unfoldable pub KeepsKey : (SideTxCursor → Option SideTxCursor) → Type 0
KeepsKey f = (c d : SideTxCursor) → f c ≡ some d → d.key ≡ c.key

passes_over :
    (other : ℕ) (s : Option SideTxCursor) (slots : SideTxProgress)
    → ((d : SideTxCursor) → s ≡ some d → d.key ≢ other)
    → find_cursor other (s ∷ slots) ≡ find_cursor other slots
unfolding find_cursor
passes_over other none slots h = refl
passes_over other (some d) slots h =
    let far : (d.key == other) ≡ false = ground (arith, h d refl) in rw far refl

pub find_cursor-change_slot_other :
    (key other : ℕ) (f : SideTxCursor → Option SideTxCursor) (slots : SideTxProgress)
    → KeepsKey f
    → key ≢ other
    → find_cursor other (change_slot key f slots) ≡ find_cursor other slots
unfolding find_cursor change_slot KeepsKey
find_cursor-change_slot_other key other f [] h n = refl
find_cursor-change_slot_other key other f (none ∷ slots) h n =
    find_cursor-change_slot_other key other f slots h n
find_cursor-change_slot_other key other f (some a ∷ slots) h n =
    if_ind (λ (l : SideTxProgress). find_cursor other l ≡ find_cursor other (some a ∷ slots))
      (a.key == key)
      (λ same.
        let away : a.key ≢ other = ground (arith, same, n) in
        passes_over other (f a) slots (λ d e. subst (λ k. k ≢ other) (sym (h a d e)) away)
        ∙ sym (
            passes_over other (some a) slots
              (λ d e. subst (λ x. x.key ≢ other) (some-injective _ _ e) away)))
      (λ differs.
        ap (λ r. if a.key == other then some a else r)
          (find_cursor-change_slot_other key other f slots h n))

pub find_cursor-clear_paused :
    (key now : ℕ) (slots : SideTxProgress) (c : SideTxCursor)
    → find_cursor key slots ≡ some c
    → paused now c ≡ false
    → find_cursor key (clear_paused now slots) ≡ some c
unfolding find_cursor clear_paused
find_cursor-clear_paused key now [] c e h = absurd (cc)
find_cursor-clear_paused key now (none ∷ slots) c e h = find_cursor-clear_paused key now slots c e h
find_cursor-clear_paused key now (some a ∷ slots) c e h = elim (Bool-cases (a.key == key)) [
  | inl same ↦
      let this : a ≡ c = some-injective _ _ (rw same at e) in
      let live : paused now a ≡ false = ap (paused now) this ∙ h in rw live (rw same (ap some this))
  | inr other ↦
      let rest = find_cursor-clear_paused key now slots c (rw other at e) h in
      if_ind (λ (s : Option SideTxCursor). find_cursor key (s ∷ clear_paused now slots) ≡ some c)
        (paused now a) (λ t. rest) (λ f. rw other rest)
]

pub find_cursor-fill_slot :
    (c : SideTxCursor) (slots more : SideTxProgress)
    → find_cursor c.key slots ≡ none
    → fill_slot c slots ≡ some more
    → find_cursor c.key more ≡ some c
unfolding find_cursor fill_slot
find_cursor-fill_slot c [] more e = λ (f : none ≡ some more). absurd (cc)
find_cursor-fill_slot c (none ∷ slots) more e = λ (f : some (some c ∷ slots) ≡ some more).
    let mine : (c.key == c.key) ≡ true = ground arith in
    subst (λ m. find_cursor c.key m ≡ some c) (some-injective _ _ f) (rw mine refl)
find_cursor-fill_slot c (some d ∷ slots) more e = elim (Bool-cases (d.key == c.key)) [
  | inl same ↦ λ f. let no : some d ≡ none = rw same at e in absurd (cc)
  | inr far ↦
      opt_ind (λ (o : Option SideTxProgress). o ≡ some more → find_cursor c.key more ≡ some c)
        (fill_slot c slots) (λ n (f : none ≡ some more). absurd (cc))
        (λ rest r f.
          subst (λ m. find_cursor c.key m ≡ some c) (some-injective _ _ f)
            (rw far (find_cursor-fill_slot c slots rest (rw far at e) r)))
]

pub find_cursor-fill_slot_other :
    (other : ℕ) (c : SideTxCursor) (slots more : SideTxProgress)
    → c.key ≢ other
    → fill_slot c slots ≡ some more
    → find_cursor other more ≡ find_cursor other slots
unfolding find_cursor fill_slot
find_cursor-fill_slot_other other c [] more n = λ (f : none ≡ some more). absurd (cc)
find_cursor-fill_slot_other other c (none ∷ slots) more n =
    λ (f : some (some c ∷ slots) ≡ some more).
      subst (λ m. find_cursor other m ≡ find_cursor other slots) (some-injective _ _ f)
        (passes_over other (some c) slots
          (λ d e. subst (λ x. x.key ≢ other) (some-injective _ _ e) n))
find_cursor-fill_slot_other other c (some d ∷ slots) more n =
    opt_ind
      (λ (o : Option SideTxProgress).
        o ≡ some more → find_cursor other more ≡ find_cursor other (some d ∷ slots))
      (fill_slot c slots) (λ e (f : none ≡ some more). absurd (cc))
      (λ rest r f.
        subst (λ m. find_cursor other m ≡ find_cursor other (some d ∷ slots)) (some-injective _ _ f)
          (ap (λ q. if d.key == other then some d else q)
            (find_cursor-fill_slot_other other c slots rest n r)))

pub find_cursor-key :
    (key : ℕ) (slots : SideTxProgress) (c : SideTxCursor)
    → find_cursor key slots ≡ some c
    → c.key ≡ key
unfolding find_cursor
find_cursor-key key [] c = λ (e : none ≡ some c). absurd (cc)
find_cursor-key key (none ∷ slots) c = find_cursor-key key slots c
find_cursor-key key (some a ∷ slots) c =
    if_ind (λ (o : Option SideTxCursor). o ≡ some c → c.key ≡ key) (a.key == key)
      (λ same e. subst (λ x. x.key ≡ key) (some-injective _ _ e) (ground (arith, same)))
      (λ far e. find_cursor-key key slots c e)
