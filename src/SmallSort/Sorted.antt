-- ===== src/SmallSort/Sorted.antt =====
-- `heap_sort` of src/small_sort.rs sorts.
use sedsnet.Base.{
  none, Option, ◌/◌, ◌-◌, arith, All, ℕ, ◌<◌, ◌≤◌, ◌≡◌, refl, suc, zero, ◌∷◌, [], some, length,
  List,
}
use sedsnet.SmallSort.{and_then, heap_sort, build, drain}
use sedsnet.SmallSort.Keys.{Yields-map, swap-Swapped, Yields-and_then, yields, Yields, key, Swapped}
use sedsnet.SmallSort.Sift.{sift-Sifted, Sifted, parent, IsHeap}
use mathlib.Core.List.{Perm}
use mathlib.Core.List.Perm

module _ {ℓ} {T : Type ℓ} (rank : T → ℕ) where
  -- Every item is at most as high as those behind it.
  abbrev pub IsAscending : List T → Type 0
  IsAscending [] = Unit {0}
  IsAscending (x ∷ xs) = All (λ y. rank x ≤ rank y) xs × IsAscending xs

  AscendsByKey : List T → Type 0
  AscendsByKey xs = (i j : ℕ) → i ≤ j → j < length xs → key rank xs i ≤ key rank xs j

  All-keys :
      (low : ℕ) (xs : List T)
      → ((j : ℕ) → j < length xs → low ≤ key rank xs j)
      → All (λ y. low ≤ rank y) xs
  All-keys low [] h = tt
  All-keys low (x ∷ xs) h =
      (h 0 (omega arith), All-keys low xs (λ j k. h (suc j) (omega (arith, k))))

  keys-IsAscending : (xs : List T) → AscendsByKey xs → IsAscending xs
  unfolding AscendsByKey
  keys-IsAscending [] h = tt
  keys-IsAscending (x ∷ xs) h = (
    All-keys (rank x) xs (λ j k. h 0 (suc j) (omega arith) (omega (arith, k))),
    keys-IsAscending xs (λ i j k l. h (suc i) (suc j) (omega (arith, k)) (omega (arith, l))),
  )

  root_greatest :
      (k end : ℕ) (xs : List T) (c : ℕ)
      → IsHeap rank 0 end xs
      → c < k
      → c < end
      → key rank xs c ≤ key rank xs 0
  root_greatest zero end xs c h f p = absurd (omega arith)
  root_greatest (suc k) end xs c h f p = ground (arith, h c, root_greatest k end xs (parent c) h)

  build-IsHeap :
      (n : ℕ) (xs : List T)
      → IsHeap rank n (length xs) xs
      → Yields
          (λ ys. IsHeap rank 0 (length xs) ys × (length ys ≡ length xs) × Perm ys xs)
          (build rank n xs)
  unfolding build
  build-IsHeap zero xs h = yields (h, refl, Perm.rfl)
  build-IsHeap (suc root) xs h =
      Yields-and_then
        (sift-Sifted rank (length xs) root (length xs) xs root (omega arith) (omega arith) (record {
          edges = λ c p q r t. h c p q (omega (arith, r, t));
          bridged = λ c p q r t u. absurd (omega (arith, t, u));
        }))
        (λ ys s.
          Yields-map (build-IsHeap root ys (λ c p q r. s.heap c p (omega (arith, q, s.size)) r))
            (λ zs (heap, size, perm). (
              (λ c p q r. heap c p (omega (arith, q, s.size)) r),
              omega (arith, size, s.size),
              Perm.trans perm s.perm,
            )))

  -- What is behind the heap is sorted, and not below anything in the heap.
  record IsDrained (n : ℕ) (xs : List T) : Type 0 where
    heap : IsHeap rank 0 (suc n) xs
    sorted : (i j : ℕ) → n < i → i ≤ j → j < length xs → key rank xs i ≤ key rank xs j
    above : (c j : ℕ) → c ≤ n → n < j → j < length xs → key rank xs c ≤ key rank xs j

  sift-IsDrained :
      (n : ℕ) (xs ys zs : List T)
      → IsDrained (suc n) xs
      → Swapped rank xs 0 (suc n) ys
      → Sifted rank 0 (suc n) ys zs
      → IsDrained n zs
  sift-IsDrained n xs ys zs d w s =
      let top = root_greatest (suc (suc n)) (suc (suc n)) xs in
      let low =
        s.bounded (key rank xs 0)
          (λ c h. ground (arith, w.keys c, top c d.heap, top (suc n) d.heap)) in
      record {
        heap = s.heap;
        sorted = λ i j p q r. ground (
          arith,
          s.behind i,
          s.behind j,
          w.keys i,
          w.keys j,
          d.above 0 j,
          d.sorted i j,
          s.size,
          w.size,
        );
        above =
            λ c j p q r. ground (arith, low c, s.behind j, w.keys j, d.above 0 j, s.size, w.size);
      }

  drain-sorts :
      (n : ℕ) (xs : List T)
      → n < length xs
      → IsDrained n xs
      → Yields (λ ys. AscendsByKey ys × Perm ys xs) (drain rank n xs)
  unfolding drain AscendsByKey
  drain-sorts zero xs h d =
      yields ((λ i j p q. ground (arith, d.above i j, d.sorted i j)), Perm.rfl)
  drain-sorts (suc n) xs h d =
      Yields-and_then (swap-Swapped rank xs 0 (suc n) (omega arith) h) (λ ys w.
        Yields-and_then
          (sift-Sifted rank (suc n) 0 (suc n) ys 0 (omega arith) (omega (arith, w.size)) (record {
            edges = λ c p q r t. ground (arith, w.keys c, w.keys (parent c), d.heap c);
            bridged = λ c p q r t u. absurd (omega (arith, t));
          }))
          (λ zs s.
            Yields-map
              (drain-sorts n zs (omega (arith, h, s.size, w.size))
                (sift-IsDrained n xs ys zs d w s))
              (λ vs (sorted, perm). (sorted, Perm.trans perm (Perm.trans s.perm w.perm)))))

  sorts :
      (xs : List T)
      → 0 < length xs
      → Yields
          (λ ys. AscendsByKey ys × Perm ys xs)
          (and_then (build rank (length xs / 2) xs) (drain rank (length xs - 1)))
  sorts xs some_items =
      Yields-and_then (build-IsHeap (length xs / 2) xs (λ c p q r. absurd (omega arith)))
        (λ ys (heap, size, perm).
          Yields-map
            (drain-sorts (length xs - 1) ys (omega arith) (record {
              heap = λ c p q r. heap c p (omega arith) r;
              sorted = λ i j p q r. absurd (omega arith);
              above = λ c j p q r. absurd (omega arith);
            }))
            (λ zs (sorted, same). (sorted, Perm.trans same perm)))

  yielded :
      (xs : List T) (o : Option (List T))
      → Yields (λ ys. AscendsByKey ys × Perm ys xs) o
      → (ys : List T) × (o ≡ some ys) × IsAscending ys × Perm ys xs
  yielded xs none y = elim y [ ]
  yielded xs (some ys) (yields (sorted, same)) = (ys, refl, keys-IsAscending ys sorted, same)

  -- The heap sort ends without an index out of bounds, and gives the same items in ascending order.
  pub heap_sort-IsAscending :
      (xs : List T) → (ys : List T) × (heap_sort rank xs ≡ some ys) × IsAscending ys × Perm ys xs
  unfolding heap_sort
  heap_sort-IsAscending [] = ([], refl, tt, Perm.rfl)
  heap_sort-IsAscending (x ∷ xs) = yielded (x ∷ xs) _ (sorts (x ∷ xs) (omega arith))
