-- ===== src/SmallMap.antt =====
-- `SmallMap` of src/small_map.rs: a map in a vector of entries, which binary search keeps in the
-- order of the keys. The search is the one of the standard library's slices.
mod Search
mod Split
mod Lookup
mod Places
mod Calls
mod Refine
mod Filter
mod Run
mod Tests
use sedsnet.Base.{
  insert_at, map, set, head?, remove_at, ltb, Bool, ℕ, List, length, get_elem?, Option,
  if◌then◌else◌, ◌/◌, ◌-◌, ◌+◌, ◌≡◌, false, true, suc, zero, ◌∷◌, [], some, none,
}

-- `Ord` of the keys: a strict total order.
pub record KeyOrder (K : Type 0) : Type 0 where
  pub lt : K → K → Bool
  pub lt_irrefl : (a : K) → lt a a ≡ false
  pub lt_trans : (a b c : K) → lt a b ≡ true → lt b c ≡ true → lt a c ≡ true
  pub lt_total : (a b : K) → lt a b ≡ false → lt b a ≡ false → a ≡ b

-- The answer of a search: where the key is, or where it would be inserted.
pub data Slot : Type 0 where
  found : ℕ → Slot
  absent : ℕ → Slot

abbrev pub SmallMap : Type 0 → Type 0 → Type 0
SmallMap K V = List (K × V)

-- A retired allocation is not observed: an emptied table is a new one.
abbrev pub clear : {K V : Type 0} → SmallMap K V → SmallMap K V
clear m = []

abbrev pub is_empty : {K V : Type 0} → SmallMap K V → Bool
is_empty [] = true
is_empty (e ∷ m) = false

abbrev pub settle : {K V : Type 0} → SmallMap K V → SmallMap K V
settle m = if is_empty m then clear m else m

module _ {K V : Type 0} (o : KeyOrder K) where
  -- Each round halves the window [base, base + size) that the key can be in.
  unfoldable pub search_loop : ℕ → ℕ → ℕ → SmallMap K V → K → ℕ
  search_loop zero base size m k = base
  search_loop (suc fuel) base size m k =
      let half = size / 2 in
      let next : ℕ = elim (get_elem? m (base + half)) [
        | none ↦ base
        | some e ↦ if o.lt k e.0 then base else base + half
      ] in
      let rest = search_loop fuel next (size - half) m k in if ltb 1 size then rest else base

  unfoldable pub binary_search : SmallMap K V → K → Slot
  unfolding search_loop
  binary_search m k =
      let base = search_loop (length m) 0 (length m) m k in
      elim (get_elem? m base) [
        | none ↦ absent 0
        | some e ↦
            if o.lt k e.0 then absent base else if o.lt e.0 k then absent (base + 1) else found base
      ]

  unfoldable pub get : SmallMap K V → K → Option V
  unfolding binary_search
  get m k = elim (binary_search m k) [
    | absent i ↦ none
    | found i ↦ elim (get_elem? m i) [ none ↦ none | some e ↦ some e.1 ]
  ]

  unfoldable pub contains_key : SmallMap K V → K → Bool
  unfolding binary_search
  contains_key m k = elim (binary_search m k) [ absent i ↦ false | found i ↦ true ]

  -- `get_mut` with what the caller writes through it.
  unfoldable pub get_mut : SmallMap K V → K → (V → V) → SmallMap K V
  unfolding binary_search
  get_mut m k f = elim (binary_search m k) [
    | absent i ↦ m
    | found i ↦ elim (get_elem? m i) [ none ↦ m | some e ↦ set m i (e.0, f e.1) ]
  ]

  unfoldable pub insert : SmallMap K V → K → V → Option V × SmallMap K V
  unfolding binary_search
  insert m k v = elim (binary_search m k) [
    | absent i ↦ (none, insert_at m i (k, v))
    | found i ↦ elim (get_elem? m i) [ none ↦ (none, m) | some e ↦ (some e.1, set m i (e.0, v)) ]
  ]

  unfoldable pub remove : SmallMap K V → K → Option V × SmallMap K V
  unfolding binary_search
  remove m k = elim (binary_search m k) [
    | absent i ↦ (none, m)
    | found i ↦ elim (get_elem? m i) [
      | none ↦ (none, m)
      | some e ↦ (some e.1, settle (remove_at m i))
    ]
  ]

  -- `entry` and `or_insert_with`: the value that the reference is to, and the table.
  unfoldable pub or_insert_with : SmallMap K V → K → V → Option V × SmallMap K V
  unfolding binary_search
  or_insert_with m k v = elim (binary_search m k) [
    | absent i ↦
        let grown = insert_at m i (k, v) in
        elim (get_elem? grown i) [ none ↦ (none, grown) | some e ↦ (some e.1, grown) ]
    | found i ↦ elim (get_elem? m i) [ none ↦ (none, m) | some e ↦ (some e.1, m) ]
  ]

module _ {K V : Type 0} where
  unfoldable pub first_key_value : SmallMap K V → Option (K × V)
  first_key_value m = head? m

  unfoldable pub pop_first : SmallMap K V → Option (K × V) × SmallMap K V
  pop_first m = elim (head? m) [ none ↦ (none, m) | some e ↦ (some e, settle (remove_at m 0)) ]

  -- `retain_mut`: the test sees every entry in order and may change its value.
  unfoldable pub retain_mut : (K → V → Bool × V) → SmallMap K V → SmallMap K V
  retain_mut f [] = []
  retain_mut f ((k, v) ∷ m) =
      let (keep, w) = f k v in let rest = retain_mut f m in if keep then (k, w) ∷ rest else rest

  unfoldable pub retain : (K → V → Bool × V) → SmallMap K V → SmallMap K V
  unfolding retain_mut
  retain f m = settle (retain_mut f m)

  unfoldable pub keys : SmallMap K V → List K
  keys m = map (λ e. e.0) m

  unfoldable pub values : SmallMap K V → List V
  values m = map (λ e. e.1) m
