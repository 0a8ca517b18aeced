-- ===== src/Varint/RoundTrip.antt =====
-- What is written as ULEB128 (src/wire_format.rs) is read back (src/varint.rs).
use sedsnet.Errors.{ok}
use sedsnet.Base.{
  append_assoc, sym, length-append, leb→le, leb, if_ind, ltb→lt, Bool-cases, ◌∙◌, inr, inl, ap, ltb,
  u64_max, length, arith, ◌^◌, get_elem?, ℕ, List, ◌==◌, ◌&&◌, ◌%◌, ◌/◌, ◌*◌, ◌++◌, ◌<◌, ◌≤◌, ◌+◌,
  ◌≡◌, refl, false, true, suc, zero, ◌∷◌, [], some,
}
use sedsnet.Varint.Codec.{uleb128_size, write_uleb128, read_u64, size_loop, write_loop, read_loop}
use native.Mathlib.Numerals.{towards_suc}
use native.Mathlib.Nat.{div-add-mod, pow-suc}

get_elem?-append :
    (pre : List ℕ) (x : ℕ) (post : List ℕ) → get_elem? (pre ++ x ∷ post) (length pre) ≡ some x
get_elem?-append [] x post = refl
get_elem?-append (y ∷ pre) x post = get_elem?-append pre x post

-- One round on a last byte, and on a byte with a continuation.
pub read_last :
    (n : ℕ) (buf : List ℕ) (off value shift w : ℕ)
    → get_elem? buf off ≡ some w
    → w < 128
    → value + w * 2 ^ shift ≤ u64_max
    → read_loop (suc n) buf off value shift ≡ (ok (value + w * 2 ^ shift), off + 1)
unfolding read_loop
read_last n buf off value shift w e h fits =
    let same : w % 128 ≡ w = omega arith in
    let whole : w * 2 ^ shift % 2 ^ 64 ≡ w * 2 ^ shift = omega arith in
    let last : ltb w 128 ≡ true = ground arith in
    let short : (shift == 63) && ltb 1 w ≡ false = ground arith in
    rw (e, read_loop) (rw (same, whole, last, short))

read_more :
    (n : ℕ) (buf : List ℕ) (off value shift g : ℕ)
    → get_elem? buf off ≡ some (g + 128)
    → g < 128
    → value + g * 2 ^ shift ≤ u64_max
    → read_loop (suc n) buf off value shift
      ≡ read_loop n buf (off + 1) (value + g * 2 ^ shift) (shift + 7)
unfolding read_loop
read_more n buf off value shift g e h fits =
    let same : (g + 128) % 128 ≡ g = omega arith in
    let whole : g * 2 ^ shift % 2 ^ 64 ≡ g * 2 ^ shift = omega arith in
    let more : ltb (g + 128) 128 ≡ false = ground arith in
    rw (e, read_loop) (rw (same, whole, more))

next_place : (s : ℕ) → 2 ^ (s + 7) ≡ 128 * 2 ^ s
next_place s = simp towards_suc (omega arith)

-- The lowest seven bits of `v` and the others, from the place of `s` on.
lowest_group : (v s : ℕ) → v % 128 * 2 ^ s + v / 128 * 2 ^ (s + 7) ≡ v * 2 ^ s
lowest_group v s = omega (
  arith,
  ap (λ (t : ℕ). t * 2 ^ s) (div-add-mod v 128),
  ap (λ (t : ℕ). v / 128 * t) (next_place s),
)

write_last : (n v : ℕ) → v < 128 → write_loop (suc n) v ≡ v ∷ []
unfolding write_loop
write_last n v h =
    let last : (v / 128 == 0) ≡ true = ground arith in
    let same : v % 128 ≡ v = omega arith in rw (last, same)

write_more : (n v : ℕ) → 128 ≤ v → write_loop (suc n) v ≡ (v % 128 + 128) ∷ write_loop n (v / 128)
unfolding write_loop
write_more n v h = let more : (v / 128 == 0) ≡ false = ground arith in rw more

read_written_last :
    (n : ℕ) (pre post : List ℕ) (value v shift : ℕ)
    → v < 128
    → value + v * 2 ^ shift ≤ u64_max
    → read_loop (suc n) (pre ++ (write_loop (suc n) v ++ post)) (length pre) value shift
      ≡ (ok (value + v * 2 ^ shift), length pre + length (write_loop (suc n) v))
read_written_last n pre post value v shift h fits =
    rw (write_last n v h)
      (read_last n _ (length pre) value shift v (get_elem?-append pre v post) h fits)

-- With `suc n` rounds left any number of at most as many bytes is read from where it was written.
Reads : ℕ → Type 0
Reads n =
    (pre post : List ℕ) (value v shift : ℕ)
    → v < 128 ^ suc n
    → value + v * 2 ^ shift ≤ u64_max
    → read_loop (suc n) (pre ++ (write_loop (suc n) v ++ post)) (length pre) value shift
      ≡ (ok (value + v * 2 ^ shift), length pre + length (write_loop (suc n) v))

more_rounds : (n : ℕ) → Reads n → Reads (suc n)
unfolding Reads
more_rounds n ih pre post value v shift h fits = elim (Bool-cases (ltb v 128)) [
  | inl small ↦ read_written_last (suc n) pre post value v shift (ltb→lt _ _ small) fits
  | inr large ↦ more (ground arith)
]
  where
    g : ℕ
    g = v % 128

    rest : List ℕ
    rest = write_loop (suc n) (v / 128)

    groups : g * 2 ^ shift + v / 128 * 2 ^ (shift + 7) ≡ v * 2 ^ shift
    groups = lowest_group v shift

    below : 128 ^ suc (suc n) ≡ 128 ^ suc n * 128
    below = pow-suc 128 (suc n)

    next :
        read_loop
          (suc n)
          ((pre ++ (g + 128) ∷ []) ++ (rest ++ post))
          (length (pre ++ (g + 128) ∷ []))
          (value + g * 2 ^ shift)
          (shift + 7)
        ≡ (
          ok (value + g * 2 ^ shift + v / 128 * 2 ^ (shift + 7)),
          length (pre ++ (g + 128) ∷ []) + length rest,
        )
    next =
        ih (pre ++ (g + 128) ∷ []) post (value + g * 2 ^ shift) (v / 128) (shift + 7)
          (omega (arith, below)) (omega (arith, groups))

    longer : length (pre ++ (g + 128) ∷ []) ≡ length pre + 1
    longer = length-append pre ((g + 128) ∷ [])

    more :
        128 ≤ v
        → read_loop
            (suc (suc n))
            (pre ++ (write_loop (suc (suc n)) v ++ post))
            (length pre)
            value
            shift
          ≡ (ok (value + v * 2 ^ shift), length pre + length (write_loop (suc (suc n)) v))
    more large = rw (write_more (suc n) v large) (
        read_more (suc n) (pre ++ (g + 128) ∷ (rest ++ post)) (length pre) value shift g
          (get_elem?-append pre (g + 128) (rest ++ post)) (omega arith) (omega (arith, groups))
        ∙ ap (λ b. read_loop (suc n) b (length pre + 1) (value + g * 2 ^ shift) (shift + 7))
            (sym (append_assoc pre ((g + 128) ∷ []) (rest ++ post)))
        ∙ ap
            (λ o.
              read_loop (suc n) ((pre ++ (g + 128) ∷ []) ++ (rest ++ post)) o
                (value + g * 2 ^ shift) (shift + 7))
            (sym longer)
        ∙ next
        ∙ ap (λ (x : ℕ). (ok x, length (pre ++ (g + 128) ∷ []) + length rest))
            (omega (arith, groups))
        ∙ ap (λ (x : ℕ). (ok (value + v * 2 ^ shift), x)) (omega (arith, longer)))

reads : (n : ℕ) → Reads n
unfolding Reads
reads zero = λ pre post value v shift h fits. read_written_last 0 pre post value v shift h fits
reads (suc n) = more_rounds n (reads n)

pub length-write_loop : (n v : ℕ) → v < 128 ^ suc n → length (write_loop (suc n) v) ≡ size_loop n v
unfolding size_loop
length-write_loop zero v h = ap length (write_last 0 v (omega arith))
length-write_loop (suc n) v h =
    if_ind (λ r. length (write_loop (suc (suc n)) v) ≡ r) (leb 128 v)
      (λ large.
        ap length (write_more (suc n) v (leb→le _ _ large))
        ∙ ap suc (length-write_loop n (v / 128) (omega (arith, pow-suc 128 (suc n)))))
      λ small. ap length (write_last (suc n) v (ground arith))

-- Every `u64`, wherever its encoding stands in a buffer, is read back exactly, and the offset moves
-- past the encoding, by the size that `uleb128_size` announces.
pub read_u64-write_uleb128 :
    (v : ℕ) (pre post : List ℕ)
    → v ≤ u64_max
    → read_u64 (pre ++ (write_uleb128 v ++ post)) (length pre) ≡ (ok v, length pre + uleb128_size v)
unfolding read_u64 write_uleb128 uleb128_size Reads
read_u64-write_uleb128 v pre post h =
    reads 9 pre post 0 v 0 (omega arith) (omega arith)
    ∙ ap (λ (x : ℕ). (ok x, length pre + length (write_loop 10 v))) (omega arith)
    ∙ ap (λ (x : ℕ). (ok v, length pre + x)) (length-write_loop 9 v (omega arith))
