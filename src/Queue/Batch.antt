-- ===== src/Queue/Batch.antt =====
-- Prepared batches and replacements of `BoundedDeque` (src/queue.rs): pure checks, and the
-- commits that follow them. `none` is a failed `assert!`, `expect` or `unwrap`.
use sedsnet.Base.{
  ℕ, ◌+◌, ◌-◌, Bool, false, ◌&&◌, List, [], ◌∷◌, Option, none, some, if◌then◌else◌, length,
  get_elem?, set, usize_max, leb,
}
use sedsnet.Queue.Ring.{ByteCost, Deque}
use sedsnet.Queue.Push.{insert_prioritized_prepared}

abbrev pub checked_add : ℕ → ℕ → Option ℕ
checked_add x y = if leb (x + y) usize_max then some (x + y) else none

abbrev pub checked_sub : ℕ → ℕ → Option ℕ
checked_sub x y = if leb y x then some (x - y) else none

-- `costs.iter().try_fold(start, checked_add)`
unfoldable pub try_sum : ℕ → List ℕ → Option ℕ
try_sum start [] = some start
try_sum start (cost ∷ costs) = elim (checked_add start cost) [
  | none ↦ none
  | some n ↦ try_sum n costs
]

module _ {ℓ} {T : Type ℓ} where
  -- The test on the totals that both checks end with.
  abbrev pub fits_totals : Deque T → Option ℕ → Option ℕ → Bool
  fits_totals d none bytes = false
  fits_totals d (some len) none = false
  fits_totals d (some len) (some bytes) =
      leb len d.max_elems && leb len d.capacity && leb bytes d.max_bytes

  unfoldable pub fits_prepared_batch : Deque T → List ℕ → Bool
  unfolding try_sum
  fits_prepared_batch d costs =
      fits_totals d (checked_add (length d.q) (length costs)) (try_sum d.cur_bytes costs)

  unfoldable pub push_prepared_batch_item : T → ℕ → ℕ → (T → ℕ) → Deque T → Option (Deque T)
  unfolding fits_prepared_batch insert_prioritized_prepared
  push_prepared_batch_item v cost priority priority_of d =
      if fits_prepared_batch d (cost ∷ [])
      then some (insert_prioritized_prepared v cost priority priority_of d)
      else none

module _ {ℓ} {T : Type ℓ} ⦃b : ByteCost T⦄ where
  unfoldable pub fits_replacement_group : Deque T → ℕ → List ℕ → Bool
  unfolding try_sum
  fits_replacement_group d index costs = elim (get_elem? d.q index) [
    | none ↦ false
    | some old ↦ elim (checked_sub (length costs) 1) [
      | none ↦ false
      | some extra ↦
          fits_totals d (checked_add (length d.q) extra)
            (elim (checked_sub d.cur_bytes (b.byte_cost old)) [
              | none ↦ none
              | some used ↦ try_sum used costs
            ])
    ]
  ]

  unfoldable pub replace_prepared_item : ℕ → T → ℕ → Deque T → Option (Deque T)
  replace_prepared_item index item cost d = elim (get_elem? d.q index) [
    | none ↦ none
    | some old ↦ elim (checked_sub d.cur_bytes (b.byte_cost old)) [
      | none ↦ none
      | some used ↦ elim (checked_add used cost) [
        | none ↦ none
        | some total ↦ some (record d { q = set d.q index item; cur_bytes = total })
      ]
    ]
  ]

  -- The loop of `replace_prepared_group` over the values behind the first.
  unfoldable pub insert_group : List (T × ℕ) → (T → ℕ) → Deque T → Deque T
  unfolding insert_prioritized_prepared
  insert_group [] priority_of d = d
  insert_group ((item, cost) ∷ rest) priority_of d =
      insert_group rest priority_of
        (insert_prioritized_prepared item cost (priority_of item) priority_of d)

  unfoldable pub replace_prepared_group : ℕ → List (T × ℕ) → (T → ℕ) → Deque T → Option (Deque T)
  unfolding replace_prepared_item insert_group
  replace_prepared_group index [] priority_of d = none
  replace_prepared_group index ((first, cost) ∷ rest) priority_of d =
      elim (replace_prepared_item index first cost d) [
        | none ↦ none
        | some replaced ↦ some (insert_group rest priority_of replaced)
      ]
