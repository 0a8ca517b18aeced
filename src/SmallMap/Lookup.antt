-- ===== src/SmallMap/Lookup.antt =====
-- The finite map that the entries of a `SmallMap` stand for, around the place of a key.
use sedsnet.Base.{
  All-append, All-parts, not, ap, Option, Bool, arith, if◌then◌else◌, ◌||◌, ◌++◌, ◌≡◌, refl, false,
  true, ◌∷◌, [], some, none,
}
use sedsnet.SmallMap.Split.{Above, Below}
use sedsnet.SmallMap.Search.{IsAscending}
use sedsnet.SmallMap.{SmallMap, KeyOrder}

module _ {K : Type 0} (o : KeyOrder K) where
  abbrev pub same_key : K → K → Bool
  same_key j k = not (o.lt j k || o.lt k j)

  pub same_key-eq : (k j : K) → same_key k j ≡ true → k ≡ j
  same_key-eq k j h = o.lt_total k j (ground arith) (ground arith)

module _ {K V : Type 0} (o : KeyOrder K) where
  -- The value under a key, by a look at every entry.
  unfoldable pub lookup : SmallMap K V → K → Option V
  lookup [] k = none
  lookup (e ∷ m) k = if same_key o e.0 k then some e.1 else lookup m k

  pub lookup_here :
      (pre post : SmallMap K V) (k : K) (v : V)
      → Below o k pre
      → lookup (pre ++ (k, v) ∷ post) k ≡ some v
  unfolding lookup
  lookup_here [] post k v b = rw (o.lt_irrefl k) refl
  lookup_here (e ∷ pre) post k v b = rw b.0 (lookup_here pre post k v b.1)

  pub lookup_gap :
      (pre post : SmallMap K V) (k : K)
      → Below o k pre
      → Above o k post
      → lookup (pre ++ post) k ≡ none
  unfolding lookup
  lookup_gap [] [] k b a = refl
  lookup_gap [] (e ∷ post) k b a = ground (arith, a.0, lookup_gap [] post k b a.1)
  lookup_gap (e ∷ pre) post k b a = rw b.0 (lookup_gap pre post k b.1 a)

  pub lookup_elsewhere :
      (pre post : SmallMap K V) (k j : K) (v : V)
      → same_key o k j ≡ false
      → lookup (pre ++ (k, v) ∷ post) j ≡ lookup (pre ++ post) j
  unfolding lookup
  lookup_elsewhere [] post k j v d = rw d refl
  lookup_elsewhere (e ∷ pre) post k j v d =
      ap (λ r. if same_key o e.0 j then some e.1 else r) (lookup_elsewhere pre post k j v d)

  pub replace-IsAscending :
      (pre post : SmallMap K V) (k : K) (v w : V)
      → IsAscending o (pre ++ (k, v) ∷ post)
      → IsAscending o (pre ++ (k, w) ∷ post)
  replace-IsAscending [] post k v w s = s
  replace-IsAscending (e ∷ pre) post k v w s =
      let (a, b) = All-parts _ pre ((k, v) ∷ post) s.0 in
      (All-append _ pre ((k, w) ∷ post) a b, replace-IsAscending pre post k v w s.1)

  pub delete-IsAscending :
      (pre post : SmallMap K V) (e : K × V)
      → IsAscending o (pre ++ e ∷ post)
      → IsAscending o (pre ++ post)
  delete-IsAscending [] post e s = s.1
  delete-IsAscending (d ∷ pre) post e s =
      let (a, b) = All-parts _ pre (e ∷ post) s.0 in
      (All-append _ pre post a b.1, delete-IsAscending pre post e s.1)

  pub place-IsAscending :
      (pre post : SmallMap K V) (k : K) (v : V)
      → IsAscending o (pre ++ post)
      → Below o k pre
      → Above o k post
      → IsAscending o (pre ++ (k, v) ∷ post)
  place-IsAscending [] post k v s b a = (a, s)
  place-IsAscending (e ∷ pre) post k v s b a =
      let (c, d) = All-parts _ pre post s.0 in
      (All-append _ pre ((k, v) ∷ post) c (b.0, d), place-IsAscending pre post k v s.1 b.1 a)
