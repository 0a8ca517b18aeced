-- ===== src/Wire/Reader.antt =====
-- `ByteReader` of src/wire_format.rs. A parser moves the reader on or fails; what it leaves of a reader
-- when it fails is not observed, since every caller gives it up.
use sedsnet.Errors.{err, ok, unpack, TelemetryError, Result}
use sedsnet.Base.{
  drop, take, u32_max, length, ltb, leb, head?, ℕ, List, Bool, if◌then◌else◌, ◌==◌, ◌%◌, ◌/◌, ◌*◌,
  ◌-◌, ◌+◌, suc, zero, ◌∷◌, [], some, none,
}
use sedsnet.Varint.Codec.{read_u64}

pub record Reader : Type 0 where
  pub buf : List ℕ
  pub off : ℕ

-- `ByteReader::new`.
abbrev pub reader_of : List ℕ → Reader
reader_of bytes = record { buf = bytes; off = 0 }

abbrev pub Parser : Type 0 → Type 0
Parser A = Reader → Result (A × Reader)

infixl 5 ◌>>=◌ ◌>>◌
abbrev pub ◌>>=◌ : {A B : Type 0} → Parser A → (A → Parser B) → Parser B
◌>>=◌ p f r = elim (p r) [ err e ↦ err e | ok (a, s) ↦ f a s ]

abbrev pub ◌>>◌ : {B : Type 0} → Parser (Unit {0}) → Parser B → Parser B
p >> q = p >>= λ u. q

abbrev pub pure : {A : Type 0} → A → Parser A
pure a r = ok (a, r)

abbrev pub fail : {A : Type 0} → TelemetryError → Parser A
fail e r = err e

abbrev pub guard : Bool → TelemetryError → Parser (Unit {0})
guard test e = if test then pure tt else fail e

unfoldable pub remaining : Reader → ℕ
remaining r = length r.buf - r.off

unfoldable pub read_bytes : ℕ → Parser (List ℕ)
unfolding remaining
read_bytes n r =
    if ltb (remaining r) n
    then err (unpack "short read")
    else ok (take n (drop r.off r.buf), record r { off = r.off + n })

-- `read_bytes(1)?[0]`.
unfoldable pub read_byte : Parser ℕ
unfolding read_bytes
read_byte = do
  b ← read_bytes 1
  elim (head? b) [ none ↦ fail (unpack "short read") | some x ↦ pure x ]

-- Integers from and to little-endian bytes.
unfoldable pub from_le_bytes : List ℕ → ℕ
from_le_bytes [] = 0
from_le_bytes (b ∷ bs) = b + 256 * from_le_bytes bs

unfoldable pub to_le_bytes : ℕ → ℕ → List ℕ
to_le_bytes zero v = []
to_le_bytes (suc n) v = v % 256 ∷ to_le_bytes n (v / 256)

unfoldable pub write_u32_le : ℕ → List ℕ
unfolding to_le_bytes
write_u32_le v = to_le_bytes 4 v

unfoldable pub read_u32_le : Parser ℕ
unfolding read_bytes from_le_bytes
read_u32_le = do b ← read_bytes 4; pure (from_le_bytes b)

abbrev pub moved : List ℕ → Result ℕ × ℕ → Result (ℕ × Reader)
moved buf (ok v, next) = ok (v, record { buf = buf; off = next })
moved buf (err e, next) = err e

unfoldable pub read_uleb128 : Parser ℕ
read_uleb128 r = moved r.buf (read_u64 r.buf r.off)

-- `u32::try_from(…).map_err(…)`.
unfoldable pub to_u32 : TelemetryError → ℕ → Parser ℕ
to_u32 e v = if leb v u32_max then pure v else fail e

-- A parser on a reader of its own, which has to read all of it.
unfoldable pub within : {A : Type 0} → TelemetryError → List ℕ → Parser A → Parser A
unfolding remaining
within trailing bytes p r = elim (p (reader_of bytes)) [
  | err e ↦ err e
  | ok (a, rest) ↦ if remaining rest == 0 then ok (a, r) else err trailing
]

-- Whether the flags have the bit of a power of two.
abbrev pub has_bit : ℕ → ℕ → Bool
has_bit flags bit = flags / bit % 2 == 1

abbrev pub bit_if : Bool → ℕ → ℕ
bit_if test bit = if test then bit else 0
