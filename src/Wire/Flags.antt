-- ===== src/Wire/Flags.antt =====
-- The bits of the first byte of a frame, src/wire_format.rs.
use sedsnet.Wire.Pack.{by_list, by_bitmap, endpoint_flag, by_schema, frame_flags, EndpointField}
use sedsnet.Base.{
  arith, ℕ, Bool, if◌then◌else◌, ◌==◌, ◌%◌, ◌/◌, ◌*◌, ◌≤◌, ◌+◌, ◌≡◌, refl, false, true,
}
use sedsnet.Wire.Reader.{has_bit, bit_if}

-- The bits of the first byte as its parts.
abbrev one_if : Bool → ℕ
one_if b = if b then 1 else 0

one_if_le : (b : Bool) → one_if b ≤ 1
one_if_le true = omega arith
one_if_le false = omega arith

bit_if-eq : (b : Bool) (w : ℕ) → bit_if b w ≡ one_if b * w
bit_if-eq true w = omega arith
bit_if-eq false w = omega arith

one_if-back : (b : Bool) (n : ℕ) → n ≡ one_if b → (n == 1) ≡ b
one_if-back true n h = ground arith
one_if-back false n h = ground arith

abbrev pub listed_field : EndpointField → Bool
listed_field by_schema = false
listed_field by_bitmap = false
listed_field by_list = true

abbrev pub bitmap_field : EndpointField → Bool
bitmap_field by_schema = false
bitmap_field by_bitmap = true
bitmap_field by_list = false

endpoint_flag-eq :
    (f : EndpointField)
    → endpoint_flag f ≡ one_if (bitmap_field f) * 32 + one_if (listed_field f) * 128
endpoint_flag-eq by_schema = refl
endpoint_flag-eq by_bitmap = refl
endpoint_flag-eq by_list = refl

byte_bits :
    (c r k n b m l x : ℕ)
    → c ≤ 1
    → r ≤ 1
    → k ≤ 1
    → n ≤ 1
    → b ≤ 1
    → m ≤ 1
    → l ≤ 1
    → x ≡ c + r * 2 + k * 4 + n * 8 + m * 64 + (b * 32 + l * 128)
    → (x / 2 % 2 ≡ r)
      × (x / 4 % 2 ≡ k)
      × (x / 8 % 2 ≡ n)
      × (x / 32 % 2 ≡ b)
      × (x / 64 % 2 ≡ m)
      × (x / 128 % 2 ≡ l)
byte_bits c r k n b m l x h1 h2 h3 h4 h5 h6 h7 e =
    (omega arith, omega arith, omega arith, omega arith, omega arith, omega arith)

-- The bits that a reader tests.
pub record FlagBits (flags : ℕ) (reliable contract nonce compact : Bool) (field : EndpointField)
    : Type 0 where
  pub reliable_bit : has_bit flags 2 ≡ reliable
  pub contract_bit : has_bit flags 4 ≡ contract
  pub nonce_bit : has_bit flags 8 ≡ nonce
  pub bitmap_bit : has_bit flags 32 ≡ bitmap_field field
  pub compact_bit : has_bit flags 64 ≡ compact
  pub list_bit : has_bit flags 128 ≡ listed_field field

frame_flags-parts :
    (c r k n m : Bool) (field : EndpointField)
    → frame_flags c r k n m field
      ≡ one_if c
        + one_if r * 2
        + one_if k * 4
        + one_if n * 8
        + one_if m * 64
        + (one_if (bitmap_field field) * 32 + one_if (listed_field field) * 128)
frame_flags-parts c r k n m field = omega (
  arith,
  bit_if-eq c 1,
  bit_if-eq r 2,
  bit_if-eq k 4,
  bit_if-eq n 8,
  bit_if-eq m 64,
  endpoint_flag-eq field,
)

pub frame_flags-FlagBits :
    (c r k n m : Bool) (field : EndpointField)
    → FlagBits (frame_flags c r k n m field) r k n m field
frame_flags-FlagBits c r k n m field =
    let whole = frame_flags-parts c r k n m field in
    let (e2, e4, e8, e32, e64, e128) =
      byte_bits (one_if c) (one_if r) (one_if k) (one_if n) (one_if (bitmap_field field)) (one_if m)
        (one_if (listed_field field)) _ (one_if_le c) (one_if_le r) (one_if_le k) (one_if_le n)
        (one_if_le (bitmap_field field)) (one_if_le m) (one_if_le (listed_field field)) whole in
    record {
      reliable_bit = one_if-back r _ e2;
      contract_bit = one_if-back k _ e4;
      nonce_bit = one_if-back n _ e8;
      bitmap_bit = one_if-back (bitmap_field field) _ e32;
      compact_bit = one_if-back m _ e64;
      list_bit = one_if-back (listed_field field) _ e128;
    }

-- The bit of a compressed payload, and the one of a seal.
pub frame_flags-payload :
    (c r k n m : Bool) (field : EndpointField)
    → (has_bit (frame_flags c r k n m field) 1 ≡ c)
      × (has_bit (frame_flags c r k n m field) 16 ≡ false)
frame_flags-payload c r k n m field =
    let whole = frame_flags-parts c r k n m field in
    let b = one_if_le (bitmap_field field) in
    let l = one_if_le (listed_field field) in
    (
      one_if-back c _ (
          omega
            (arith, whole, one_if_le c, one_if_le r, one_if_le k, one_if_le n, one_if_le m, b, l)),
      one_if-back false _ (
          omega
            (arith, whole, one_if_le c, one_if_le r, one_if_le k, one_if_le n, one_if_le m, b, l)),
    )
