-- ===== src/Varint/Codec.antt =====
-- The decoders of src/varint.rs and the encoder of src/wire_format.rs. Buffers are lists of bytes
-- below 256; a decoder answers its result with the offset that it leaves in `*off`. The bits that `|=`
-- joins never overlap, so that it is a sum; `<<` on `u64` drops what leaves the word.
use sedsnet.Base.{
  ltb, ◌^◌, get_elem?, leb, List, ℕ, if◌then◌else◌, ◌==◌, ◌&&◌, ◌%◌, ◌/◌, ◌*◌, ◌+◌, suc, zero, ◌∷◌,
  [], some, none,
}
use sedsnet.Errors.{Result, unpack, TelemetryError, err, ok}

abbrev pub short_read : TelemetryError
short_read = unpack "short read"

abbrev pub too_long : TelemetryError
too_long = unpack "uleb128 too long"

-- The rounds of `read_u64` that are left, from the offset, the value and the shift so far.
unfoldable pub read_loop : ℕ → List ℕ → ℕ → ℕ → ℕ → Result ℕ × ℕ
read_loop zero buf off value shift = (err too_long, off)
read_loop (suc n) buf off value shift = elim (get_elem? buf off) [
  | none ↦ (err short_read, off)
  | some byte ↦
      let joined = value + byte % 128 * 2 ^ shift % 2 ^ 64 in
      let rest = read_loop n buf (off + 1) joined (shift + 7) in
      if ltb byte 128
      then (if (shift == 63) && ltb 1 byte then (err too_long, off + 1) else (ok joined, off + 1))
      else rest
]

unfoldable pub read_u64 : List ℕ → ℕ → Result ℕ × ℕ
unfolding read_loop
read_u64 buf off = read_loop 10 buf off 0 0

-- `write_uleb128`, as the bytes that it appends. A round takes seven bits off, so that ten rounds are
-- enough for a `u64`.
unfoldable pub write_loop : ℕ → ℕ → List ℕ
write_loop zero v = []
write_loop (suc n) v =
    let rest = write_loop n (v / 128) in
    if (v / 128) == 0 then ((v % 128) ∷ []) else ((v % 128 + 128) ∷ rest)

unfoldable pub write_uleb128 : ℕ → List ℕ
unfolding write_loop
write_uleb128 v = write_loop 10 v

unfoldable pub size_loop : ℕ → ℕ → ℕ
size_loop zero v = 1
size_loop (suc n) v = let rest = suc (size_loop n (v / 128)) in if leb 128 v then rest else 1

unfoldable pub uleb128_size : ℕ → ℕ
unfolding size_loop
uleb128_size v = size_loop 9 v

-- `read_u64_32` keeps the low and the high half of the value apart; `<<` on `u32` drops what leaves
-- the word.
abbrev pub shl32 : ℕ → ℕ → ℕ
shl32 x places = x * 2 ^ places % 2 ^ 32

abbrev pub join_halves : ℕ × ℕ → ℕ
join_halves (low, high) = high * 2 ^ 32 + low

-- The macro `byte!`: its body makes the halves, and the code behind it goes on with them.
unfoldable pub byte_step : List ℕ → ℕ → (ℕ → ℕ × ℕ) → (ℕ → ℕ × ℕ → Result ℕ × ℕ) → Result ℕ × ℕ
byte_step buf off body next = elim (get_elem? buf off) [
  | none ↦ (err short_read, off)
  | some byte ↦
      let halves = body byte in
      let rest = next (off + 1) halves in
      if ltb byte 128 then (ok (join_halves halves), off + 1) else rest
]

-- The tenth byte.
unfoldable pub last_step : List ℕ → ℕ → ℕ × ℕ → Result ℕ × ℕ
last_step buf off (low, high) = elim (get_elem? buf off) [
  | none ↦ (err short_read, off)
  | some last ↦
      if ltb 1 last
      then (err too_long, off + 1)
      else (ok (join_halves (low, high + shl32 last 31)), off + 1)
]

abbrev pub low_or : ℕ → ℕ × ℕ → ℕ → ℕ × ℕ
low_or places (low, high) b = (low + shl32 (b % 128) places, high)

abbrev pub high_or : ℕ → ℕ × ℕ → ℕ → ℕ × ℕ
high_or places (low, high) b = (low, high + shl32 (b % 128) places)

abbrev pub across : ℕ × ℕ → ℕ → ℕ × ℕ
across (low, high) b = (low + shl32 (b % 128) 28, b % 128 / 16)

-- The code from the second to the tenth byte on, last first.
abbrev pub tenth : List ℕ → ℕ → ℕ × ℕ → Result ℕ × ℕ
tenth buf off halves = last_step buf off halves

abbrev pub ninth : List ℕ → ℕ → ℕ × ℕ → Result ℕ × ℕ
ninth buf off halves = byte_step buf off (high_or 24 halves) (tenth buf)

abbrev pub eighth : List ℕ → ℕ → ℕ × ℕ → Result ℕ × ℕ
eighth buf off halves = byte_step buf off (high_or 17 halves) (ninth buf)

abbrev pub seventh : List ℕ → ℕ → ℕ × ℕ → Result ℕ × ℕ
seventh buf off halves = byte_step buf off (high_or 10 halves) (eighth buf)

abbrev pub sixth : List ℕ → ℕ → ℕ × ℕ → Result ℕ × ℕ
sixth buf off halves = byte_step buf off (high_or 3 halves) (seventh buf)

abbrev pub fifth : List ℕ → ℕ → ℕ × ℕ → Result ℕ × ℕ
fifth buf off halves = byte_step buf off (across halves) (sixth buf)

abbrev pub fourth : List ℕ → ℕ → ℕ × ℕ → Result ℕ × ℕ
fourth buf off halves = byte_step buf off (low_or 21 halves) (fifth buf)

abbrev pub third : List ℕ → ℕ → ℕ × ℕ → Result ℕ × ℕ
third buf off halves = byte_step buf off (low_or 14 halves) (fourth buf)

abbrev pub second : List ℕ → ℕ → ℕ × ℕ → Result ℕ × ℕ
second buf off halves = byte_step buf off (low_or 7 halves) (third buf)

unfoldable pub read_u64_32_slow : List ℕ → ℕ → Result ℕ × ℕ
unfolding byte_step last_step
read_u64_32_slow buf off = byte_step buf off (λ b. (b % 128, 0)) (second buf)

unfoldable pub read_u64_32 : List ℕ → ℕ → Result ℕ × ℕ
unfolding read_u64_32_slow
read_u64_32 buf off =
    let slow = read_u64_32_slow buf off in
    elim (get_elem? buf off) [
      | none ↦ slow
      | some byte ↦ if ltb byte 128 then (ok byte, off + 1) else slow
    ]
