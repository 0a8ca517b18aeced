-- ===== src/Side/Hash.antt =====
-- `hash_bytes_u64` of src/packet.rs, which names the transfers of src/side_transport.rs.
use sedsnet.Base.{
  List, max, ◌^◌, ℕ, if◌then◌else◌, ◌==◌, ◌%◌, ◌/◌, ◌*◌, ◌++◌, ◌+◌, ◌≡◌, refl, suc, zero, ◌∷◌, [],
}

-- `^` on words of some bits.
unfoldable pub xor : ℕ → ℕ → ℕ → ℕ
xor zero a b = 0
xor (suc bits) a b = (if a % 2 == b % 2 then 0 else 1) + 2 * xor bits (a / 2) (b / 2)

abbrev pub prime : ℕ
prime = 0x9E37_79B1

abbrev pub mix_byte : ℕ → ℕ → ℕ
mix_byte h b = let m = xor 64 h b * prime % 2 ^ 64 in xor 64 m (m / 2 ^ 27)

unfoldable pub hash_bytes_u64 : ℕ → List ℕ → ℕ
unfolding xor
hash_bytes_u64 h [] = h
hash_bytes_u64 h (b ∷ bs) = hash_bytes_u64 (mix_byte h b) bs

abbrev pub transfer_seed : ℕ
transfer_seed = 0x517C_C1B7_2722_0A95

abbrev pub narrow : ℕ → ℕ
narrow hash = max (xor 32 (hash / 2 ^ 32) (hash % 2 ^ 32)) 1

pub hash_bytes_u64-append :
    (h : ℕ) (xs ys : List ℕ) → hash_bytes_u64 (hash_bytes_u64 h xs) ys ≡ hash_bytes_u64 h (xs ++ ys)
unfolding hash_bytes_u64
hash_bytes_u64-append h [] ys = refl
hash_bytes_u64-append h (x ∷ xs) ys = hash_bytes_u64-append (mix_byte h x) xs ys
