-- ===== src/SmallMap/Filter.antt =====
-- What `retain` and `pop_first` of `SmallMap` do to the finite map.
use sedsnet.Base.{
  true, if_ind, Bool-cases, Bool, Option, if◌then◌else◌, ◌≢◌, ◌≡◌, refl, false, ◌∷◌, [], inr, inl,
  some, none,
}
use sedsnet.SmallMap.Places.{drop_found, assign}
use sedsnet.SmallMap.Split.{Around, Above-trans, Above}
use sedsnet.SmallMap.Lookup.{same_key-eq, lookup_gap, lookup_here, same_key, lookup}
use mathlib.Core.Path.{subst, fun_ext}
use sedsnet.SmallMap.{pop_first, retain_mut, SmallMap, retain, KeyOrder}
use sedsnet.SmallMap.Refine.{settle-eq}
use sedsnet.SmallMap.Calls.{filtering, Expects, kept, expected}
use sedsnet.SmallMap.Search.{IsAscending}

module _ {K V : Type 0} (o : KeyOrder K) where
  Above-retain :
      (k : K) (f : K → V → Bool × V) (m : SmallMap K V) → Above o k m → Above o k (retain_mut f m)
  unfolding retain_mut
  Above-retain k f [] a = tt
  Above-retain k f (e ∷ m) a =
      if_ind (Above o k) (f e.0 e.1).0 (λ t. (a.0, Above-retain k f m a.1))
        (λ n. Above-retain k f m a.1)

  retain-IsAscending :
      (f : K → V → Bool × V) (m : SmallMap K V) → IsAscending o m → IsAscending o (retain_mut f m)
  unfolding retain_mut
  retain-IsAscending f [] s = tt
  retain-IsAscending f (e ∷ m) s =
      if_ind (IsAscending o) (f e.0 e.1).0
        (λ t. (Above-retain e.0 f m s.0, retain-IsAscending f m s.1))
        (λ n. retain-IsAscending f m s.1)

  kept_here :
      (f : K → V → Bool × V) (e : K × V) (rest : SmallMap K V) (out : Bool × V)
      → lookup o rest e.0 ≡ none
      → lookup o (if out.0 then (e.0, out.1) ∷ rest else rest) e.0
        ≡ (if out.0 then some out.1 else none)
  kept_here f e rest (true, w) h = lookup_here o [] rest e.0 w tt
  kept_here f e rest (false, w) h = h

  kept_at :
      (f : K → V → Bool × V) (m : SmallMap K V)
      → IsAscending o m
      → (j : K) → lookup o (retain_mut f m) j ≡ kept f (lookup o m) j
  unfolding retain_mut lookup kept
  kept_at f [] s j = refl
  kept_at f (e ∷ m) s j =
      if_ind (λ r. lookup o (retain_mut f (e ∷ m)) j ≡ kept f (λ i. r) j) (same_key o e.0 j)
        (λ same.
          subst (λ i. lookup o (retain_mut f (e ∷ m)) i ≡ kept f (λ h. some e.1) i)
            (same_key-eq o e.0 j same)
            (kept_here f e (retain_mut f m) (f e.0 e.1)
              (lookup_gap o [] (retain_mut f m) e.0 tt (Above-retain e.0 f m s.0))))
        (λ other.
          if_ind (λ l. lookup o l j ≡ kept f (lookup o m) j) (f e.0 e.1).0
            (λ t. rw other (kept_at f m s.1 j)) (λ n. kept_at f m s.1 j))

  pub retain_lem :
      (m : SmallMap K V) (f : K → V → Bool × V)
      → IsAscending o m
      → Expects o (none, retain f m) (expected o (filtering f) (lookup o m))
  unfolding retain expected
  retain_lem m f s = rw (settle-eq o (retain_mut f m)) (record {
    answer = refl;
    ascending = retain-IsAscending f m s;
    stands_for = fun_ext (kept_at f m s);
  })

  -- An entry with the least key there is, and the map without it; or there is none.
  pub LeastOut : SmallMap K V → Option (K × V) × SmallMap K V → Type 0
  LeastOut m (none, rest) = (lookup o m ≡ λ j. none) × (rest ≡ m)
  LeastOut m (some e, rest) =
      (lookup o m e.0 ≡ some e.1)
      × ((j : K) → lookup o m j ≢ none → o.lt j e.0 ≡ false)
      × IsAscending o rest
      × (lookup o rest ≡ assign o e.0 none (lookup o m))

  least :
      (e : K × V) (m : SmallMap K V)
      → Above o e.0 m
      → (j : K) → lookup o (e ∷ m) j ≢ none
      → o.lt j e.0 ≡ false
  least e m a j h = elim (Bool-cases (o.lt j e.0)) [
    | inl lt ↦ absurd (h (lookup_gap o [] (e ∷ m) j tt (lt, Above-trans o j e.0 m lt a)))
    | inr n ↦ n
  ]

  -- `pop_first` of ascending entries takes out the least key with its value, or nothing if there
  -- is none, and keeps the others.
  pub pop_first-LeastOut : (m : SmallMap K V) → IsAscending o m → LeastOut m (pop_first m)
  unfolding pop_first LeastOut lookup
  pop_first-LeastOut [] s = (refl, refl)
  pop_first-LeastOut (e ∷ m) s =
      let r : Around o (e ∷ m) e.0 (e ∷ []) 0 = record {
        pre = [];
        post = m;
        whole = refl;
        place = refl;
        below = tt;
        above = s.0;
      } in
      let out = drop_found o (e ∷ m) e.0 0 e.1 (some e.1) s r in
      rw (settle-eq o m)
        (lookup_here o [] m e.0 e.1 tt, least e m s.0, out.ascending, out.stands_for)
