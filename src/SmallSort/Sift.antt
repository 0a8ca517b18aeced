-- ===== src/SmallSort/Sift.antt =====
-- `sift` of src/small_sort.rs: a root that is out of order sinks to its place in the heap.
use sedsnet.Base.{
  suc, zero, length, List, ltb, arith, if_ind, ℕ, ◌≢◌, ◌⊎◌, ◌/◌, ◌*◌, ◌-◌, ◌<◌, ◌≤◌, ◌+◌, ◌≡◌, refl,
  inr, inl,
}
use sedsnet.SmallSort.Keys.{
  Yields-map, swap-Swapped, Yields-and_then, yields, less-eq, Swapped, Yields, key,
}
use sedsnet.SmallSort.{sift, larger_child}
use mathlib.Core.List.{Perm}
use mathlib.Core.List.Perm

abbrev pub parent : ℕ → ℕ
parent c = (c - 1) / 2

module _ {ℓ} {T : Type ℓ} (rank : T → ℕ) where
  -- No child below `end` is above its parent, where the parent is at `lo` or later.
  abbrev pub IsHeap : ℕ → ℕ → List T → Type 0
  IsHeap lo end xs =
      (c : ℕ) → 0 < c → c < end → lo ≤ parent c → key rank xs c ≤ key rank xs (parent c)

  -- Only the root may be below its children, and these are not above its parent.
  pub record IsSinking (lo end : ℕ) (xs : List T) (root : ℕ) : Type 0 where
    pub edges :
        (c : ℕ)
        → 0 < c
        → c < end
        → lo ≤ parent c
        → parent c ≢ root
        → key rank xs c ≤ key rank xs (parent c)
    pub bridged :
        (c : ℕ)
        → 0 < c
        → c < end
        → parent c ≡ root
        → 0 < root
        → lo ≤ parent root
        → key rank xs c ≤ key rank xs (parent root)

  -- What sifting leaves: a heap below `end` of the same items, and what is behind as it was.
  pub record Sifted (lo end : ℕ) (xs ys : List T) : Type ℓ where
    pub heap : IsHeap lo end ys
    pub size : length ys ≡ length xs
    pub behind : (c : ℕ) → end ≤ c → key rank ys c ≡ key rank xs c
    pub bounded :
        (bound : ℕ)
        → ((c : ℕ) → c < end → key rank xs c ≤ bound)
        → (c : ℕ) → c < end
        → key rank ys c ≤ bound
    pub perm : Perm ys xs

  -- The child of the root that no other child is above.
  record IsLarger (end : ℕ) (xs : List T) (root m : ℕ) : Type 0 where
    inside : m < end
    is_child : (m ≡ root * 2 + 1) ⊎ (m ≡ root * 2 + 2)
    largest : (c : ℕ) → 0 < c → c < end → parent c ≡ root → key rank xs c ≤ key rank xs m

  larger_child-IsLarger :
      (xs : List T) (root end : ℕ)
      → end ≤ length xs
      → root < end / 2
      → Yields (IsLarger end xs root) (larger_child rank xs root end)
  unfolding larger_child
  larger_child-IsLarger xs root end h r =
      let child = root * 2 + 1 in
      if_ind (Yields (IsLarger end xs root)) (ltb (child + 1) end)
        (λ both.
          rw (less-eq rank xs child (child + 1) (ground (arith, both)) (ground (arith, both))) (
            yields (
              if_ind (IsLarger end xs root) (ltb (key rank xs child) (key rank xs (child + 1)))
                (λ up. record {
                  inside = ground (arith, both);
                  is_child = inr (omega arith);
                  largest = λ c p q t. ground (arith, up);
                })
                (λ left. record {
                  inside = omega arith;
                  is_child = inl refl;
                  largest = λ c p q t. ground (arith, left);
                }))))
        (λ one. yields (record {
          inside = omega arith;
          is_child = inl refl;
          largest = λ c p q t. ground (arith, one);
        }))

  swap-IsSinking :
      (lo end : ℕ) (xs ys : List T) (root m : ℕ)
      → IsSinking lo end xs root
      → IsLarger end xs root m
      → key rank xs root < key rank xs m
      → Swapped rank xs root m ys
      → IsSinking lo end ys m
  swap-IsSinking lo end xs ys root m v s below w = record {
    edges = λ c p q r t. ground (
      arith,
      w.keys c,
      w.keys (parent c),
      v.edges c,
      v.bridged m,
      s.largest c,
      s.inside,
      s.is_child,
    );
    bridged =
        λ c p q r t u. ground (arith, w.keys c, w.keys (parent m), v.edges c, s.inside, s.is_child);
  }

  -- A swap within the heap part is undone by nothing that is asked of the result.
  Sifted-Swapped :
      {lo end : ℕ} {xs ys zs : List T} {i j : ℕ}
      → i < end
      → j < end
      → Swapped rank xs i j ys
      → Sifted lo end ys zs
      → Sifted lo end xs zs
  Sifted-Swapped {end = end} {i = i} {j = j} hi hj w s = record {
    heap = s.heap;
    size = omega (arith, s.size, w.size);
    behind = λ c h. ground (arith, s.behind c, w.keys c, hi, hj);
    bounded = λ bound below.
        s.bounded bound (λ c h. ground (arith, w.keys c, below c, below i, below j, hi, hj));
    perm = Perm.trans s.perm w.perm;
  }

  settled : {lo end : ℕ} {xs : List T} → IsHeap lo end xs → Sifted lo end xs xs
  settled h = record {
    heap = h;
    size = refl;
    behind = λ c b. refl;
    bounded = λ bound below. below;
    perm = Perm.rfl;
  }

  -- Sifting does not leave the list, and it restores the heap; there are rounds enough.
  pub sift-Sifted :
      (fuel lo end : ℕ) (xs : List T) (root : ℕ)
      → end ≤ root + fuel
      → end ≤ length xs
      → IsSinking lo end xs root
      → Yields (Sifted lo end xs) (sift rank fuel xs root end)
  unfolding sift
  sift-Sifted zero lo end xs root f h v =
      yields (settled (λ c p q r. v.edges c p q r (omega arith)))
  sift-Sifted (suc fuel) lo end xs root f h v =
      if_ind (Yields (Sifted lo end xs)) (ltb root (end / 2))
        (λ inner.
          let within : root < end / 2 = ground (arith, inner) in
          Yields-and_then (larger_child-IsLarger xs root end h within) (λ m s.
            rw (less-eq rank xs root m (omega arith) (omega (arith, s.inside))) (
              if_ind (Yields (Sifted lo end xs)) (ltb (key rank xs root) (key rank xs m))
                (λ below.
                  Yields-and_then
                    (swap-Swapped rank xs root m (omega arith) (omega (arith, s.inside)))
                    (λ ys w.
                      Yields-map
                        (sift-Sifted fuel lo end ys m (omega (arith, s.is_child))
                          (omega (arith, w.size))
                          (swap-IsSinking lo end xs ys root m v s (ground (arith, below)) w))
                        (λ zs. Sifted-Swapped (omega arith) s.inside w)))
                (λ above.
                  yields (settled (λ c p q r. ground (arith, v.edges c, s.largest c, above)))))))
        (λ leaf. yields (settled (λ c p q r. v.edges c p q r (ground (arith, leaf)))))
