-- ===== src/Fairness/Tallied.antt =====
-- What the loops over a queue in src/admission_fairness.rs record.
use sedsnet.Base.{
  usize_max, min, All, Bool, if◌then◌else◌, ◌&&◌, arith, Option, any, List, ℕ, ◌==◌, ◌+◌, ◌≡◌, refl,
  false, true, ◌∷◌, [], some, none,
}
use sedsnet.Fairness.Loads.{no_loads, record_all, is_owner, Loads, record_load, Load}
use sedsnet.Queue.Ring.{ByteCost}
use sedsnet.Fairness.Tallies.{Recorded, Tally}
use sedsnet.Fairness.Recorded.{record_load-Recorded, same_counts}

all_counted :
    (counts sums : ℕ → ℕ) (ps : List Load)
    → Tally counts sums ps
    → All (λ p. (p.count ≡ counts p.sender) × (p.bytes ≡ min usize_max (sums p.sender))) ps
all_counted counts sums [] t = tt
all_counted counts sums (p ∷ ps) (own, alone, t) = (own, all_counted counts sums ps t)

-- How many of the entries that pass the test are of a key, and their bytes.
module _ {ℓ} {T : Type ℓ} ⦃b : ByteCost T⦄ where
  abbrev pub is_counted : (T → Option ℕ) → (T → Bool) → ℕ → T → Bool
  is_counted of passes k x = passes x && is_owner (of x) k

  abbrev pub entries : (T → Option ℕ) → (T → Bool) → List T → ℕ → ℕ
  entries of passes [] k = 0
  entries of passes (x ∷ xs) k =
      (if is_counted of passes k x then 1 else 0) + entries of passes xs k

  abbrev pub bytes_in : (T → Option ℕ) → (T → Bool) → List T → ℕ → ℕ
  bytes_in of passes [] k = 0
  bytes_in of passes (x ∷ xs) k =
      (if is_counted of passes k x then b.byte_cost x else 0) + bytes_in of passes xs k

  -- Each sender of the loads has the number of its entries among those that pass the test, and their
  -- bytes, cut at the largest `usize`; and every sender with such an entry is there.
  pub record IsTallied (of : T → Option ℕ) (passes : T → Bool) (xs : List T) (l : Loads)
      : Type 0 where
    pub counted :
        All
          (λ p.
            (p.count ≡ entries of passes xs p.sender)
            × (p.bytes ≡ min usize_max (bytes_in of passes xs p.sender)))
          l.peers
    pub complete : (k : ℕ) → any (λ p. p.sender == k) l.peers ≡ false → entries of passes xs k ≡ 0

module _ {ℓ} {T : Type ℓ} ⦃b : ByteCost T⦄ (owner stream : T → Option ℕ) (priority : T → ℕ) where
  step :
      (t : Bool) (o : Option ℕ) (bytes : ℕ) (counts sums : ℕ → ℕ) (l : Loads)
      → Recorded counts sums l
      → Recorded
          (λ k. (if t && is_owner o k then 1 else 0) + counts k)
          (λ k. (if t && is_owner o k then bytes else 0) + sums k)
          (if t then elim o [ none ↦ l | some key ↦ record_load key bytes l ] else l)
  step true (some key) bytes counts sums l h = record_load-Recorded key bytes counts sums l h
  step true none bytes counts sums l h =
      same_counts _ _ _ _ l (λ k. omega arith) (λ k. omega arith) h
  step false o bytes counts sums l h = same_counts _ _ _ _ l (λ k. omega arith) (λ k. omega arith) h

  record_all-Recorded :
      (of : T → Option ℕ) (passes : T → Bool) (xs : List T) (counts sums : ℕ → ℕ) (l : Loads)
      → Recorded counts sums l
      → Recorded
          (λ k. entries of passes xs k + counts k)
          (λ k. bytes_in of passes xs k + sums k)
          (record_all owner stream priority of passes xs l)
  unfolding record_all
  record_all-Recorded of passes [] counts sums l h =
      same_counts _ _ _ _ l (λ k. omega arith) (λ k. omega arith) h
  record_all-Recorded of passes (x ∷ xs) counts sums l h =
      same_counts _ _ _ _ _ (λ k. omega arith) (λ k. omega arith)
        (record_all-Recorded of passes xs _ _ _
          (step (passes x) (of x) (b.byte_cost x) counts sums l h))

  pub record_all-IsTallied :
      (of : T → Option ℕ) (passes : T → Bool) (xs : List T)
      → (record_all owner stream priority of passes xs no_loads).overflow ≡ false
      → IsTallied of passes xs (record_all owner stream priority of passes xs no_loads)
  record_all-IsTallied of passes xs room =
      let (t, whole) =
        same_counts _ _ (entries of passes xs) (bytes_in of passes xs) _ (λ k. omega arith)
          (λ k. omega arith)
          (record_all-Recorded of passes xs (λ _. 0) (λ _. 0) no_loads
            (λ _. (tt, λ k far. (refl, refl))))
          room in
      record { counted = all_counted _ _ _ t; complete = λ k far. (whole k far).0 }
