-- ===== src/SmallSort.antt =====
-- `sort` of src/small_sort.rs in the embedded build: a heap sort in place. The order of the items is
-- given by a rank; `none` is an index out of bounds.
mod Keys
mod Sift
mod Sorted
mod Tests
use sedsnet.Base.{
  set, length, ltb, Bool, get_elem?, List, ℕ, Option, if◌then◌else◌, ◌/◌, ◌*◌, ◌-◌, ◌<◌, ◌+◌, suc,
  zero, some, none,
}

-- `Option::and_then`
abbrev pub and_then {ℓ κ} : {A : Type ℓ} {B : Type κ} → Option A → (A → Option B) → Option B
and_then none f = none
and_then (some a) f = f a

module _ {ℓ} {T : Type ℓ} where
  unfoldable pub swap : List T → ℕ → ℕ → Option (List T)
  swap xs i j =
      and_then (get_elem? xs i) (λ x. and_then (get_elem? xs j) (λ y. some (set (set xs i y) j x)))

module _ {ℓ} {T : Type ℓ} (rank : T → ℕ) where
  -- `values[i] < values[j]`
  unfoldable pub less : List T → ℕ → ℕ → Option Bool
  less xs i j =
      and_then (get_elem? xs i) (λ x. and_then (get_elem? xs j) (λ y. some (ltb (rank x) (rank y))))

  -- The second child is looked at only if it exists.
  unfoldable pub larger_child : List T → ℕ → ℕ → Option ℕ
  unfolding less
  larger_child xs root end =
      let child = root * 2 + 1 in
      if ltb (child + 1) end
      then and_then (less xs child (child + 1)) (λ b. some (if b then child + 1 else child))
      else some child

  -- A round moves the root down.
  unfoldable pub sift : ℕ → List T → ℕ → ℕ → Option (List T)
  unfolding larger_child less swap
  sift zero xs root end = some xs
  sift (suc fuel) xs root end =
      let step = and_then (larger_child xs root end) (λ child.
        let sink = and_then (swap xs root child) (λ ys. sift fuel ys child end) in
        and_then (less xs root child) (λ below. if below then sink else some xs)) in
      if ltb root (end / 2) then step else some xs

  -- `for root in (0..n).rev()`
  unfoldable pub build : ℕ → List T → Option (List T)
  unfolding sift
  build zero xs = some xs
  build (suc root) xs = and_then (sift (length xs) xs root (length xs)) (build root)

  -- `for end in (1..n + 1).rev()`
  unfoldable pub drain : ℕ → List T → Option (List T)
  unfolding sift swap
  drain zero xs = some xs
  drain (suc n) xs =
      and_then (swap xs 0 (suc n)) (λ ys. and_then (sift (suc n) ys 0 (suc n)) (drain n))

  unfoldable pub heap_sort : List T → Option (List T)
  unfolding build drain
  heap_sort xs = and_then (build (length xs / 2) xs) (drain (length xs - 1))
