-- ===== src/SmallMap/Split.antt =====
-- What the search answers, as a partition of the entries of `SmallMap`, and what the operations on
-- places do to it.
use sedsnet.Base.{
  All-append, opt_ind, get_elem?-append, length-append, append_assoc, if_ind, sym, if◌then◌else◌,
  ◌∙◌, ◌+◌, false, inr, arith, ap, subst, some-injective, get_elem?, length, ℕ, All, ◌≢◌, ◌++◌, ◌<◌,
  ◌≤◌, ◌≡◌, refl, true, suc, zero, ◌∷◌, [], inl, some,
}
use sedsnet.SmallMap.Search.{above, entry_at, search_loop_narrows, Window, All-at, IsAscending}
use sedsnet.SmallMap.{absent, search_loop, found, Slot, binary_search, SmallMap, KeyOrder}

module _ {K V : Type 0} (o : KeyOrder K) where
  abbrev pub Below : K → SmallMap K V → Type 0
  Below k m = All (λ (e : K × V). o.lt e.0 k ≡ true) m

  abbrev pub Above : K → SmallMap K V → Type 0
  Above k m = All (λ (e : K × V). o.lt k e.0 ≡ true) m

  -- The entries around the place of a key.
  pub record Around (m : SmallMap K V) (k : K) (mid : SmallMap K V) (i : ℕ) : Type 0 where
    pub pre : SmallMap K V
    pub post : SmallMap K V
    pub whole : m ≡ pre ++ (mid ++ post)
    pub place : i ≡ length pre
    pub below : Below k pre
    pub above : Above k post

  abbrev pub Located : SmallMap K V → K → Slot → Type 0
  Located m k (found i) = (v : V) × Around m k ((k, v) ∷ []) i
  Located m k (absent i) = Around m k [] i

  pub Above-trans : (k j : K) (m : SmallMap K V) → o.lt k j ≡ true → Above j m → Above k m
  Above-trans k j [] h a = tt
  Above-trans k j (e ∷ m) h a = (o.lt_trans k j e.0 h a.0, Above-trans k j m h a.1)

  Below-trans : (k j : K) (m : SmallMap K V) → o.lt j k ≡ true → Below j m → Below k m
  Below-trans k j [] h a = tt
  Below-trans k j (e ∷ m) h a = (o.lt_trans e.0 j k a.0 h, Below-trans k j m h a.1)

  at_index :
      (m : SmallMap K V) (i : ℕ) {e : K × V}
      → IsAscending o m
      → get_elem? m i ≡ some e
      → Around m e.0 (e ∷ []) i
  at_index [] i s g = absurd (cc)
  at_index (d ∷ m) zero {e} s g =
      let p : d ≡ e = some-injective _ _ g in
      record {
        pre = [];
        post = m;
        whole = ap (λ x. x ∷ m) p;
        place = refl;
        below = tt;
        above = subst (λ x. Above x.0 m) p s.0;
      }
  at_index (d ∷ m) (suc i) {e} s g =
      let r = at_index m i s.1 g in
      record {
        pre = d ∷ r.pre;
        post = r.post;
        whole = ap (λ x. d ∷ x) r.whole;
        place = ap suc r.place;
        below = (All-at o _ m i s.0 g, r.below);
        above = r.above;
      }

  behind_key :
      (k : K) (m : SmallMap K V)
      → ((i : ℕ) (e : K × V) → get_elem? m i ≡ some e → o.lt k e.0 ≡ true)
      → Above k m
  behind_key k [] h = tt
  behind_key k (e ∷ m) h = (h 0 e refl, behind_key k m (λ i f g. h (suc i) f g))

  start : (m : SmallMap K V) (k : K) → 0 < length m → Window o m k 0 (length m)
  start m k h = record {
    inside = omega arith;
    low = inl refl;
    high = λ i p g. absurd (past m i (omega (arith, p)) g);
  }
    where
      past : (l : SmallMap K V) (i : ℕ) {e : K × V} → length l ≤ i → get_elem? l i ≢ some e
      past [] i p g = cc
      past (e ∷ l) zero p g = omega arith
      past (e ∷ l) (suc i) p g = past l i (omega arith) g

  settled :
      (m : SmallMap K V) (k : K) (base : ℕ) {e : K × V}
      → IsAscending o m
      → Window o m k base 1
      → get_elem? m base ≡ some e
      → Located m k
          (if o.lt k e.0 then absent base else if o.lt e.0 k then absent (base + 1) else found base)
  settled m k base {e} s w g =
      let r : Around m e.0 (e ∷ []) base = at_index m base s g in
      if_ind (Located m k) (o.lt k e.0) (λ lt. first r lt (start_of lt))
        (λ not_lt.
          if_ind (Located m k) (o.lt e.0 k)
            (λ gt. record {
              pre = r.pre ++ e ∷ [];
              post = r.post;
              whole = r.whole ∙ sym (append_assoc r.pre (e ∷ []) r.post);
              place = omega (arith, r.place, length-append r.pre (e ∷ []));
              below = All-append _ r.pre (e ∷ []) (Below-trans k e.0 r.pre gt r.below) (gt, tt);
              above = behind_key k r.post λ i f h.
                  w.high (length r.pre + suc i) (omega (arith, r.place)) (
                    ap (λ l. get_elem? l (length r.pre + suc i)) r.whole
                    ∙ get_elem?-append r.pre (e ∷ r.post) (suc i)
                    ∙ h);
            })
            (λ not_gt.
              let same : e.0 ≡ k = o.lt_total e.0 k not_gt not_lt in
              (e.1, subst (λ j. Around m j ((j, e.1) ∷ []) base) same r)))
    where
      start_of : o.lt k e.0 ≡ true → base ≡ 0
      start_of lt = elim w.low [
        | inl z ↦ z
        | inr (f, at_f, not_lt) ↦
            let p : f ≡ e = some-injective _ _ (sym at_f ∙ g) in
            absurd (cc (subst (λ x. o.lt k x.0 ≡ false) p not_lt))
      ]

      first : Around m e.0 (e ∷ []) base → o.lt k e.0 ≡ true → base ≡ 0 → Around m k [] base
      first r lt z = record {
        pre = [];
        post = m;
        whole = refl;
        place = z;
        below = tt;
        above = behind_key k m (λ i f h. above o m k base i s (omega (arith, z)) g h lt);
      }

  pub binary_search-Located :
      (m : SmallMap K V) (k : K) → IsAscending o m → Located m k (binary_search o m k)
  unfolding binary_search
  binary_search-Located [] k s = record {
    pre = [];
    post = [];
    whole = refl;
    place = refl;
    below = tt;
    above = tt;
  }
  binary_search-Located (d ∷ l) k s =
      let m : SmallMap K V = d ∷ l in
      let base = search_loop o (length m) 0 (length m) m k in
      let w : Window o m k base 1 =
        search_loop_narrows o (length m) 0 (length m) m k s (omega arith) (omega arith)
          (start m k (omega arith)) in
      let (e, g) = entry_at o m base (omega (arith, w.inside)) in
      opt_ind (Located m k) (get_elem? m base) (λ n. absurd (cc (sym n ∙ g)))
        (λ f h. settled m k base s w h)
