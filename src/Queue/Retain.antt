-- ===== src/Queue/Retain.antt =====
-- `retain_observed` of `BoundedDeque` (src/queue.rs) against a filter.
use sedsnet.Base.{
  sym, Bool-cases, append_assoc, length-append, ◌∙◌, ◌+◌, suc, inr, inl, ap, length, get_elem?,
  remove_at, ℕ, List, Bool, if◌then◌else◌, ◌++◌, ◌≡◌, refl, ◌∷◌, [], some,
}
use sedsnet.Queue.Ring.{Deque, retain_loop, remove_pos, retain_observed, ByteCost}

module _ {ℓ} {T : Type ℓ} where
  get_elem?-middle :
      (pre : List T) (x : T) (rest : List T) → get_elem? (pre ++ x ∷ rest) (length pre) ≡ some x
  get_elem?-middle [] x rest = refl
  get_elem?-middle (y ∷ pre) x rest = get_elem?-middle pre x rest

  remove_at-middle :
      (pre : List T) (x : T) (rest : List T)
      → remove_at (pre ++ x ∷ rest) (length pre) ≡ pre ++ rest
  remove_at-middle [] x rest = refl
  remove_at-middle (y ∷ pre) x rest = ap (λ r. y ∷ r) (remove_at-middle pre x rest)

  -- The entries that pass the test, in their order.
  abbrev pub kept_of : (T → Bool) → List T → List T
  kept_of keep [] = []
  kept_of keep (x ∷ xs) = let rest = kept_of keep xs in if keep x then x ∷ rest else rest

  -- The entries that do not, the latest first, in front of those seen before.
  abbrev pub evicted_of : (T → Bool) → List T → List T → List T
  evicted_of keep [] seen = seen
  evicted_of keep (x ∷ xs) seen = evicted_of keep xs (if keep x then seen else x ∷ seen)

module _ {ℓ} {T : Type ℓ} ⦃b : ByteCost T⦄ where
  removed :
      (d : Deque T) (i : ℕ) {x : T}
      → get_elem? d.q i ≡ some x
      → ((remove_pos d i).0.q ≡ remove_at d.q i) × ((remove_pos d i).1 ≡ some x)
  unfolding remove_pos
  removed d i e = (rw (e, remove_pos), rw (e, remove_pos))

  -- The rounds of the loop over what is left behind the entries that have been kept.
  Retains : (T → Bool) → ℕ → List T → List T → Deque T → List T → Type ℓ
  Retains keep n pre rest d seen =
      let r = retain_loop n d keep (length pre) seen in
      (r.0.q ≡ pre ++ kept_of keep rest) × (r.1 ≡ evicted_of keep rest seen)

  retain_round :
      (n i : ℕ) (d : Deque T) (keep : T → Bool) (seen : List T) {x : T}
      → get_elem? d.q i ≡ some x
      → retain_loop (suc n) d keep i seen ≡ (
          if keep x
          then retain_loop n d keep (i + 1) seen
          else retain_loop n (remove_pos d i).0 keep i (x ∷ seen))
  unfolding retain_loop
  retain_round n i d keep seen e = rw (e, retain_loop) (rw ((removed d i e).1))

  retain_loop-Retains :
      (keep : T → Bool) (rest pre : List T) (d : Deque T) (seen : List T)
      → d.q ≡ pre ++ rest
      → Retains keep (length rest) pre rest d seen
  unfolding Retains retain_loop
  retain_loop-Retains keep [] pre d seen e = (e, refl)
  retain_loop-Retains keep (x ∷ rest) pre d seen e =
      let n = length rest in
      let here : get_elem? d.q (length pre) ≡ some x =
        ap (λ q. get_elem? q (length pre)) e ∙ get_elem?-middle pre x rest in
      let shorter : (remove_pos d (length pre)).0.q ≡ pre ++ rest =
        (removed d (length pre) here).0
        ∙ ap (λ q. remove_at q (length pre)) e
        ∙ remove_at-middle pre x rest in
      let longer : length (pre ++ x ∷ []) ≡ length pre + 1 = length-append pre (x ∷ []) in
      let assoc : (ys : List T) → (pre ++ x ∷ []) ++ ys ≡ pre ++ x ∷ ys =
        append_assoc pre (x ∷ []) in
      let round = retain_round n (length pre) d keep seen here in
      elim (Bool-cases (keep x)) [
        | inl k ↦
            let ih = retain_loop-Retains keep rest (pre ++ x ∷ []) d seen (e ∙ sym (assoc rest)) in
            let same : retain_loop (suc n) d keep (length pre) seen
                ≡ retain_loop n d keep (length (pre ++ x ∷ [])) seen =
              round ∙ rw k (ap (λ i. retain_loop n d keep i seen) (sym longer)) in
            rw k (
              ap (λ (r : Deque T × List T). r.0.q) same ∙ ih.0 ∙ assoc (kept_of keep rest),
              ap (λ (r : Deque T × List T). r.1) same ∙ ih.1,
            )
        | inr k ↦
            let ih =
              retain_loop-Retains keep rest pre (remove_pos d (length pre)).0 (x ∷ seen) shorter in
            let same : retain_loop (suc n) d keep (length pre) seen
                ≡ retain_loop n (remove_pos d (length pre)).0 keep (length pre) (x ∷ seen) =
              round ∙ rw k in
            rw k (
              ap (λ (r : Deque T × List T). r.0.q) same ∙ ih.0,
              ap (λ (r : Deque T × List T). r.1) same ∙ ih.1,
            )
      ]

  -- Retention leaves exactly the entries that pass the test, in their order, and reports the others.
  pub retain_observed_lem :
      (d : Deque T) (keep : T → Bool)
      → ((retain_observed d keep).0.q ≡ kept_of keep d.q)
        × ((retain_observed d keep).1 ≡ evicted_of keep d.q [])
  unfolding retain_observed Retains
  retain_observed_lem d keep = retain_loop-Retains keep d.q [] d [] refl
