-- ===== src/Varint/Tests.antt =====
-- The ULEB128 theorems (src/varint.rs, src/wire_format.rs) at concrete buffers.
use sedsnet.Base.{arith, ◌++◌, ◌+◌, ◌≡◌, refl, ◌∷◌, []}
use sedsnet.Varint.RoundTrip.{read_u64-write_uleb128}
use sedsnet.Varint.Halves.{read_u64-read_u64_32}
use sedsnet.Varint.Codec.{read_u64_32, uleb128_size, write_uleb128, read_u64}
use sedsnet.Errors.{ok}

-- 300 is written as two bytes.
two_bytes : write_uleb128 300 ≡ 172 ∷ 2 ∷ []
unfolding write_uleb128
two_bytes = refl

read_u64-write_uleb128_example :
    read_u64 ((85 ∷ []) ++ (write_uleb128 300 ++ 170 ∷ [])) 1 ≡ (ok 300, 1 + uleb128_size 300)
read_u64-write_uleb128_example = read_u64-write_uleb128 300 (85 ∷ []) (170 ∷ []) (omega arith)

read_u64-read_u64_32_example : read_u64 (255 ∷ 172 ∷ 2 ∷ []) 1 ≡ read_u64_32 (255 ∷ 172 ∷ 2 ∷ []) 1
read_u64-read_u64_32_example = read_u64-read_u64_32 (255 ∷ 172 ∷ 2 ∷ []) 1
