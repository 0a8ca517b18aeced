-- ===== src/SmallSort/Tests.antt =====
-- Tests of the heap sort.
use sedsnet.Base.{◌≡◌, refl, ◌∷◌, [], some, ℕ, List}
use sedsnet.SmallSort.Sorted.{heap_sort-IsAscending, IsAscending}
use sedsnet.SmallSort.{heap_sort}
use mathlib.Core.List.{Perm}

sorted_ties : heap_sort (λ x. x) (5 ∷ 1 ∷ 4 ∷ 1 ∷ 3 ∷ []) ≡ some (1 ∷ 1 ∷ 3 ∷ 4 ∷ 5 ∷ [])
unfolding heap_sort
sorted_ties = refl

heap_sort-IsAscending_example :
    (ys : List ℕ) × (heap_sort (λ x. x) (5 ∷ 1 ∷ 4 ∷ 1 ∷ 3 ∷ []) ≡ some ys)
    × IsAscending (λ x. x) ys
    × Perm ys (5 ∷ 1 ∷ 4 ∷ 1 ∷ 3 ∷ [])
heap_sort-IsAscending_example = heap_sort-IsAscending (λ x. x) (5 ∷ 1 ∷ 4 ∷ 1 ∷ 3 ∷ [])
