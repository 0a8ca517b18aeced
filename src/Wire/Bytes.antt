-- ===== src/Wire/Bytes.antt =====
-- The readings of bytes, words and ULEB128 numbers in src/wire_format.rs undo the writings.
use sedsnet.Wire.Reader.{
  ◌>>=◌, fail, read_byte, to_u32, moved, pure, remaining, from_le_bytes, write_u32_le, read_uleb128,
  read_u32_le, to_le_bytes, read_bytes,
}
use sedsnet.Errors.{ok, unpack, TelemetryError}
use sedsnet.Base.{
  leb, head?, true, some, none, append_assoc, sym, ◌-◌, subst, ltb, length-append, append-nil,
  arith, ap, u32_max, length, drop, ◌^◌, u64_max, take, ℕ, List, ◌∙◌, ◌/◌, ◌++◌, ◌<◌, ◌≤◌, ◌+◌, ◌≡◌,
  refl, false, suc, zero, ◌∷◌, [],
}
use sedsnet.Varint.RoundTrip.{length-write_loop, read_u64-write_uleb128}
use sedsnet.Varint.Codec.{uleb128_size, write_uleb128}
use sedsnet.Wire.Parses.{pure-Parses, between, bind-Parses, Parses}
use native.Mathlib.Nat.{pow-suc}

pub drop-append : (xs ys : List ℕ) → drop (length xs) (xs ++ ys) ≡ ys
drop-append [] ys = refl
drop-append (x ∷ xs) ys = drop-append xs ys

pub take-append : (xs ys : List ℕ) → take (length xs) (xs ++ ys) ≡ xs
take-append [] ys = refl
take-append (x ∷ xs) ys = ap (λ l. x ∷ l) (take-append xs ys)

-- Exactly the bytes that stand at the offset.
exact :
    (n : ℕ) (xs pre post : List ℕ)
    → length xs ≡ n
    → read_bytes n (between pre (xs ++ post))
      ≡ ok (
        take n (drop (length pre) (pre ++ (xs ++ post))),
        record { buf = pre ++ (xs ++ post); off = length pre + n },
      )
unfolding read_bytes remaining
exact n xs pre post e =
    let enough : ltb (length (pre ++ (xs ++ post)) - length pre) n ≡ false =
      ground (arith, length-append pre (xs ++ post), length-append xs post) in
    rw enough refl

pub read_bytes-Parses : (n : ℕ) (xs : List ℕ) → length xs ≡ n → Parses (read_bytes n) xs xs
read_bytes-Parses n xs e = record {
  reads = λ pre post.
      exact n xs pre post e
      ∙ ap
          (λ k. ok (
            take k (drop (length pre) (pre ++ (xs ++ post))),
            record { buf = pre ++ (xs ++ post); off = length pre + k },
          ))
          (sym e)
      ∙ rw (drop-append pre (xs ++ post), take-append xs post)
          (rw (sym (append_assoc pre xs post), sym (length-append pre xs)) refl);
}

pub length-to_le_bytes : (n v : ℕ) → length (to_le_bytes n v) ≡ n
unfolding to_le_bytes
length-to_le_bytes zero v = refl
length-to_le_bytes (suc n) v = ap suc (length-to_le_bytes n (v / 256))

pub from_le_bytes-to_le_bytes : (n v : ℕ) → v < 256 ^ n → from_le_bytes (to_le_bytes n v) ≡ v
unfolding to_le_bytes from_le_bytes
from_le_bytes-to_le_bytes zero v h = omega arith
from_le_bytes-to_le_bytes (suc n) v h =
    omega (arith, from_le_bytes-to_le_bytes n (v / 256) (omega (arith, pow-suc 256 n)))

pub read_u32_le-Parses : (v : ℕ) → v ≤ u32_max → Parses read_u32_le (write_u32_le v) v
unfolding read_u32_le write_u32_le
read_u32_le-Parses v h =
    let whole = from_le_bytes-to_le_bytes 4 v (omega arith) in
    rw (append-nil (to_le_bytes 4 v)) at (
      bind-Parses (λ b. pure (from_le_bytes b))
        (read_bytes-Parses 4 (to_le_bytes 4 v) (length-to_le_bytes 4 v))
        (subst (λ x. Parses (pure (from_le_bytes (to_le_bytes 4 v))) [] x) whole (pure-Parses _)))

pub length-write_uleb128 : (v : ℕ) → v ≤ u64_max → length (write_uleb128 v) ≡ uleb128_size v
unfolding write_uleb128 uleb128_size
length-write_uleb128 v h = length-write_loop 9 v (omega arith)

pub read_uleb128-Parses : (v : ℕ) → v ≤ u64_max → Parses read_uleb128 (write_uleb128 v) v
unfolding read_uleb128
read_uleb128-Parses v h = record {
  reads = λ pre post.
      ap (moved (pre ++ (write_uleb128 v ++ post))) (read_u64-write_uleb128 v pre post h)
      ∙ rw
          (
            sym (append_assoc pre (write_uleb128 v) post),
            sym (length-write_uleb128 v h),
            sym (length-append pre (write_uleb128 v)),
          )
          refl;
}

pub read_byte-Parses : (b : ℕ) → Parses read_byte (b ∷ []) b
unfolding read_byte
read_byte-Parses b =
    bind-Parses (λ bs. elim (head? bs) [ none ↦ fail (unpack "short read") | some x ↦ pure x ])
      (read_bytes-Parses 1 (b ∷ []) refl) (pure-Parses b)

pub to_u32-Parses : (e : TelemetryError) (v : ℕ) → v ≤ u32_max → Parses (to_u32 e v) [] v
unfolding to_u32
to_u32-Parses e v h =
    let fits : leb v u32_max ≡ true = ground arith in rw (fits, to_u32) (pure-Parses v)

-- A `u32` written as ULEB128.
pub read_small-Parses :
    (e : TelemetryError) (v : ℕ)
    → v ≤ u32_max
    → Parses (read_uleb128 >>= to_u32 e) (write_uleb128 v) v
read_small-Parses e v h =
    rw (append-nil (write_uleb128 v)) at
      (bind-Parses (to_u32 e) (read_uleb128-Parses v (omega arith)) (to_u32-Parses e v h))
