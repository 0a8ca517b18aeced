-- ===== src/SmallMap/Refine.antt =====
-- Each operation of `SmallMap` answers as the finite map does.
use sedsnet.Base.{ap, is_some, [], some, none, subst, remove_at, sym, ℕ, ◌≡◌, refl, ◌∷◌}
use sedsnet.SmallMap.{
  contains_key, insert, remove, get, found, absent, binary_search, settle, or_insert_with, get_mut,
  SmallMap, KeyOrder,
}
use sedsnet.SmallMap.Calls.{update, entry_or, Expects, expected}
use sedsnet.SmallMap.Split.{Located, binary_search-Located, Around}
use sedsnet.SmallMap.Places.{
  slot_ind, drop_found, put_found, get_inserted, put_absent, keep_absent, get_found, lookup_found,
  lookup_absent, Answers, assign,
}
use sedsnet.SmallMap.Lookup.{lookup}
use sedsnet.SmallMap.Search.{IsAscending}

module _ {K V : Type 0} (o : KeyOrder K) where
  pub settle-eq : (m : SmallMap K V) → settle m ≡ m
  settle-eq [] = refl
  settle-eq (e ∷ m) = refl

  -- To prove a claim of what is done at the place of a key, prove it for a found and an absent key.
  at_place :
      {B : Type 0} (P : B → Type 0) (m : SmallMap K V) (k : K) {a : ℕ → B} {f : ℕ → B}
      → IsAscending o m
      → ((i : ℕ) → Around o m k [] i → P (a i))
      → ((i : ℕ) (w : V) → Around o m k ((k, w) ∷ []) i → P (f i))
      → P (elim (binary_search o m k) [ absent i ↦ a i | found i ↦ f i ])
  at_place P m k s g h =
      let located = binary_search-Located o m k s in
      slot_ind P (binary_search o m k) (λ i e. g i (subst (Located o m k) e located))
        (λ i e. let (w, r) = subst (Located o m k) e located in h i w r)

  pub insert_lem :
      (m : SmallMap K V) (k : K) (v : V)
      → IsAscending o m
      → Expects o (insert o m k v) (lookup o m k, assign o k (some v) (lookup o m))
  unfolding insert
  insert_lem m k v s =
      at_place (λ r. Answers o r (lookup o m k) (assign o k (some v) (lookup o m))) m k s
        (λ i r. rw (lookup_absent o m k i r) (put_absent o m k i v none s r))
        (λ i w r.
          rw (lookup_found o m k i w r, get_found o m k i w r) (put_found o m k i w v (some w) s r))

  pub remove_lem :
      (m : SmallMap K V) (k : K)
      → IsAscending o m
      → Expects o (remove o m k) (lookup o m k, assign o k none (lookup o m))
  unfolding remove
  remove_lem m k s =
      at_place (λ r. Answers o r (lookup o m k) (assign o k none (lookup o m))) m k s
        (λ i r. rw (lookup_absent o m k i r) (keep_absent o m k i none s r))
        (λ i w r.
          rw (lookup_found o m k i w r, get_found o m k i w r, settle-eq (remove_at m i))
            (drop_found o m k i w (some w) s r))

  pub or_insert_with_lem :
      (m : SmallMap K V) (k : K) (v : V)
      → IsAscending o m
      → Expects o (or_insert_with o m k v) (expected o (entry_or k v) (lookup o m))
  unfolding or_insert_with expected
  or_insert_with_lem m k v s =
      at_place (λ r. Expects o r (expected o (entry_or k v) (lookup o m))) m k s
        (λ i r.
          rw (expected, lookup_absent o m k i r, get_inserted o m k i v r)
            (put_absent o m k i v (some v) s r))
        (λ i w r.
          rw (expected, lookup_found o m k i w r, get_found o m k i w r)
            (record { answer = refl; ascending = s; stands_for = refl }))

  pub get_mut_lem :
      (m : SmallMap K V) (k : K) (f : V → V)
      → IsAscending o m
      → Expects o (none, get_mut o m k f) (expected o (update k f) (lookup o m))
  unfolding get_mut expected
  get_mut_lem m k f s =
      at_place (λ l. Expects o (none, l) (expected o (update k f) (lookup o m))) m k s
        (λ i r.
          rw (expected, lookup_absent o m k i r)
            (record { answer = refl; ascending = s; stands_for = refl }))
        (λ i w r.
          rw (expected, lookup_found o m k i w r, get_found o m k i w r)
            (put_found o m k i w (f w) none s r))

  pub get_lem : (m : SmallMap K V) (k : K) → IsAscending o m → get o m k ≡ lookup o m k
  unfolding get
  get_lem m k s =
      at_place (λ r. r ≡ lookup o m k) m k s (λ i r. sym (lookup_absent o m k i r))
        (λ i w r. rw (get_found o m k i w r) (sym (lookup_found o m k i w r)))

  -- `contains_key` tells whether the finite map has the key.
  pub contains_key_lem :
      (m : SmallMap K V) (k : K) → IsAscending o m → contains_key o m k ≡ is_some (lookup o m k)
  unfolding contains_key
  contains_key_lem m k s =
      at_place (λ r. r ≡ is_some (lookup o m k)) m k s
        (λ i r. sym (ap is_some (lookup_absent o m k i r)))
        (λ i w r. sym (ap is_some (lookup_found o m k i w r)))
