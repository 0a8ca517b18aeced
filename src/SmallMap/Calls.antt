-- ===== src/SmallMap/Calls.antt =====
-- The calls of `SmallMap` as data, and what the finite map that it refines answers to them.
use sedsnet.SmallMap.{get_mut, or_insert_with, SmallMap, insert, remove, get, retain, KeyOrder}
use sedsnet.SmallMap.Places.{Answers, assign, Finite}
use sedsnet.Base.{Bool, Option, List, if◌then◌else◌, ◌∷◌, [], some, none}

-- The calls of the table, with what they are given.
pub data Call (K V : Type 0) : Type 0 where
  insertion : K → V → Call K V
  removal : K → Call K V
  entry_or : K → V → Call K V
  update : K → (V → V) → Call K V
  query : K → Call K V
  filtering : (K → V → Bool × V) → Call K V

module _ {K V : Type 0} where
  unfoldable pub kept : (K → V → Bool × V) → Finite K V → Finite K V
  kept f g j = elim (g j) [
    | none ↦ none
    | some v ↦ let (keep, w) = f j v in if keep then some w else none
  ]

module _ {K V : Type 0} (o : KeyOrder K) where
  unfoldable pub perform : Call K V → SmallMap K V → Option V × SmallMap K V
  perform (insertion k v) m = insert o m k v
  perform (removal k) m = remove o m k
  perform (entry_or k v) m = or_insert_with o m k v
  perform (update k f) m = (none, get_mut o m k f)
  perform (query k) m = (get o m k, m)
  perform (filtering f) m = (none, retain f m)

  -- The same calls of the abstract map.
  unfoldable pub expected : Call K V → Finite K V → Option V × Finite K V
  expected (insertion k v) f = (f k, assign o k (some v) f)
  expected (removal k) f = (f k, assign o k none f)
  expected (entry_or k v) f = elim (f k) [
    | none ↦ (some v, assign o k (some v) f)
    | some w ↦ (some w, f)
  ]
  expected (update k g) f = (none, elim (f k) [ none ↦ f | some w ↦ assign o k (some (g w)) f ])
  expected (query k) f = (f k, f)
  expected (filtering g) f = (none, kept g f)

  unfoldable pub answers : List (Call K V) → SmallMap K V → List (Option V)
  unfolding perform
  answers [] m = []
  answers (c ∷ cs) m = let (out, next) = perform c m in out ∷ answers cs next

  unfoldable pub expected_answers : List (Call K V) → Finite K V → List (Option V)
  unfolding expected
  expected_answers [] f = []
  expected_answers (c ∷ cs) f = let (out, next) = expected c f in out ∷ expected_answers cs next

  -- The result is the one that the abstract map gives.
  abbrev pub Expects : Option V × SmallMap K V → Option V × Finite K V → Type 0
  Expects r e = Answers o r e.0 e.1
