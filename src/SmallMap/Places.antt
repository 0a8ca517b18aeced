-- ===== src/SmallMap/Places.antt =====
-- The finite map that a `SmallMap` stands for, and what a change at the place of a key makes of it.
use sedsnet.SmallMap.Lookup.{
  same_key-eq, place-IsAscending, replace-IsAscending, delete-IsAscending, lookup_gap, lookup_here,
  lookup_elsewhere, lookup, same_key,
}
use sedsnet.Base.{
  if_ind, get_elem?-append, insert_at-append, remove_at-append, set-append, sym, length, arith,
  subst, ap, insert_at, set, remove_at, get_elem?, ℕ, Option, if◌then◌else◌, ◌∙◌, ◌++◌, ◌+◌, ◌≡◌,
  refl, false, ◌∷◌, [], some, none,
}
use mathlib.Core.Path.{fun_ext}
use sedsnet.SmallMap.{found, absent, SmallMap, KeyOrder, Slot}
use sedsnet.SmallMap.Split.{Above, Below, Around}
use sedsnet.SmallMap.Search.{IsAscending}

pub slot_ind {ℓ κ} :
    {B : Type ℓ} (P : B → Type κ) (s : Slot) {a f : ℕ → B}
    → ((i : ℕ) → s ≡ absent i → P (a i))
    → ((i : ℕ) → s ≡ found i → P (f i))
    → P (elim s [ absent i ↦ a i | found i ↦ f i ])
slot_ind P (absent i) g h = g i refl
slot_ind P (found i) g h = h i refl

-- The abstract map.
abbrev pub Finite : Type 0 → Type 0 → Type 0
Finite K V = K → Option V

module _ {K V : Type 0} (o : KeyOrder K) where
  unfoldable pub assign : K → Option V → Finite K V → Finite K V
  assign k x f j = if same_key o k j then x else f j

  -- The operation answers as the abstract map does, and goes on to stand for the one that follows.
  pub record Answers (r : Option V × SmallMap K V) (out : Option V) (f : Finite K V) : Type 0 where
    pub answer : r.0 ≡ out
    pub ascending : IsAscending o r.1
    pub stands_for : lookup o r.1 ≡ f

  module _ (m : SmallMap K V) (k : K) (i : ℕ) where
    pub get_found : (w : V) → Around o m k ((k, w) ∷ []) i → get_elem? m i ≡ some (k, w)
    get_found w r =
        ap (λ n. get_elem? m n) (r.place ∙ omega arith)
        ∙ ap (λ l. get_elem? l (length r.pre + 0)) r.whole
        ∙ get_elem?-append r.pre ((k, w) ∷ r.post) 0

    set_found :
        (w x : V) (r : Around o m k ((k, w) ∷ []) i) → set m i (k, x) ≡ r.pre ++ (k, x) ∷ r.post
    set_found w x r =
        ap (λ n. set m n (k, x)) r.place
        ∙ ap (λ l. set l (length r.pre) (k, x)) r.whole
        ∙ set-append r.pre r.post (k, w) (k, x)

    remove_found : (w : V) (r : Around o m k ((k, w) ∷ []) i) → remove_at m i ≡ r.pre ++ r.post
    remove_found w r =
        ap (remove_at m) r.place
        ∙ ap (λ l. remove_at l (length r.pre)) r.whole
        ∙ remove_at-append r.pre r.post (k, w)

    insert_absent :
        (x : V) (r : Around o m k [] i) → insert_at m i (k, x) ≡ r.pre ++ (k, x) ∷ r.post
    insert_absent x r =
        ap (λ n. insert_at m n (k, x)) r.place
        ∙ ap (λ l. insert_at l (length r.pre) (k, x)) r.whole
        ∙ insert_at-append r.pre r.post (k, x)

    pub get_inserted :
        (x : V) → Around o m k [] i → get_elem? (insert_at m i (k, x)) i ≡ some (k, x)
    get_inserted x r =
        ap (λ l. get_elem? l i) (insert_absent x r)
        ∙ ap (λ n. get_elem? (r.pre ++ (k, x) ∷ r.post) n) (r.place ∙ omega arith)
        ∙ get_elem?-append r.pre ((k, x) ∷ r.post) 0

    pub lookup_found : (w : V) → Around o m k ((k, w) ∷ []) i → lookup o m k ≡ some w
    lookup_found w r = ap (λ l. lookup o l k) r.whole ∙ lookup_here o r.pre r.post k w r.below

    pub lookup_absent : Around o m k [] i → lookup o m k ≡ none
    lookup_absent r = ap (λ l. lookup o l k) r.whole ∙ lookup_gap o r.pre r.post k r.below r.above

    lookup_put :
        (pre post : SmallMap K V) (x : V)
        → Below o k pre
        → ((j : K) → same_key o k j ≡ false → lookup o m j ≡ lookup o (pre ++ post) j)
        → lookup o (pre ++ (k, x) ∷ post) ≡ assign k (some x) (lookup o m)
    unfolding assign
    lookup_put pre post x b h = fun_ext λ j.
        if_ind (λ r. lookup o (pre ++ (k, x) ∷ post) j ≡ r) (same_key o k j)
          (λ same.
            subst (λ i. lookup o (pre ++ (k, x) ∷ post) i ≡ some x) (same_key-eq o k j same)
              (lookup_here o pre post k x b))
          (λ other. lookup_elsewhere o pre post k j x other ∙ sym (h j other))

    lookup_dropped :
        (pre post : SmallMap K V)
        → Below o k pre
        → Above o k post
        → ((j : K) → same_key o k j ≡ false → lookup o m j ≡ lookup o (pre ++ post) j)
        → lookup o (pre ++ post) ≡ assign k none (lookup o m)
    unfolding assign
    lookup_dropped pre post b a h = fun_ext λ j.
        if_ind (λ r. lookup o (pre ++ post) j ≡ r) (same_key o k j)
          (λ same.
            subst (λ i. lookup o (pre ++ post) i ≡ none) (same_key-eq o k j same)
              (lookup_gap o pre post k b a))
          (λ other. sym (h j other))

    others_found :
        (w : V) (r : Around o m k ((k, w) ∷ []) i) (j : K)
        → same_key o k j ≡ false
        → lookup o m j ≡ lookup o (r.pre ++ r.post) j
    others_found w r j d = ap (λ l. lookup o l j) r.whole ∙ lookup_elsewhere o r.pre r.post k j w d

    -- The entry that was found takes another value.
    pub put_found :
        (w x : V) (out : Option V)
        → IsAscending o m
        → Around o m k ((k, w) ∷ []) i
        → Answers (out, set m i (k, x)) out (assign k (some x) (lookup o m))
    put_found w x out s r = record {
      answer = refl;
      ascending =
          subst (IsAscending o) (sym (set_found w x r))
            (replace-IsAscending o r.pre r.post k w x (subst (IsAscending o) r.whole s));
      stands_for =
          ap (lookup o) (set_found w x r) ∙ lookup_put r.pre r.post x r.below (others_found w r);
    }

    pub put_absent :
        (x : V) (out : Option V)
        → IsAscending o m
        → Around o m k [] i
        → Answers (out, insert_at m i (k, x)) out (assign k (some x) (lookup o m))
    put_absent x out s r = record {
      answer = refl;
      ascending =
          subst (IsAscending o) (sym (insert_absent x r)) (
            place-IsAscending o r.pre r.post k x (subst (IsAscending o) r.whole s) r.below r.above);
      stands_for =
          ap (lookup o) (insert_absent x r)
          ∙ lookup_put r.pre r.post x r.below (λ j d. ap (λ l. lookup o l j) r.whole);
    }

    -- What is absent is as it would be after its removal.
    pub keep_absent :
        (out : Option V)
        → IsAscending o m
        → Around o m k [] i
        → Answers (out, m) out (assign k none (lookup o m))
    keep_absent out s r = record {
      answer = refl;
      ascending = s;
      stands_for =
          ap (lookup o) r.whole
          ∙ lookup_dropped r.pre r.post r.below r.above (λ j d. ap (λ l. lookup o l j) r.whole);
    }

    pub drop_found :
        (w : V) (out : Option V)
        → IsAscending o m
        → Around o m k ((k, w) ∷ []) i
        → Answers (out, remove_at m i) out (assign k none (lookup o m))
    drop_found w out s r = record {
      answer = refl;
      ascending =
          subst (IsAscending o) (sym (remove_found w r))
            (delete-IsAscending o r.pre r.post (k, w) (subst (IsAscending o) r.whole s));
      stands_for =
          ap (lookup o) (remove_found w r)
          ∙ lookup_dropped r.pre r.post r.below r.above (others_found w r);
    }
