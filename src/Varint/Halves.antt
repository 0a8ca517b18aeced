-- ===== src/Varint/Halves.antt =====
-- The two decoders of src/varint.rs agree.
use sedsnet.Varint.Codec.{
  tenth, ninth, eighth, seventh, sixth, fifth, fourth, third, second, high_or, across, low_or,
  shl32, too_long, read_u64_32_slow, read_u64_32, join_halves, last_step, byte_step, read_u64,
  read_loop,
}
use sedsnet.Base.{
  ltb→lt, sym, ◌∙◌, if_ind, Bool-cases, ap, arith, ltb, get_elem?, ◌^◌, List, ℕ, Option,
  if◌then◌else◌, ◌==◌, ◌&&◌, ◌≢◌, ◌%◌, ◌*◌, ◌+◌, ◌≡◌, refl, false, true, suc, inr, inl, some, none,
}
use sedsnet.Varint.RoundTrip.{read_last}
use sedsnet.Errors.{Result, err, ok}

opt_same {ℓ κ} :
    {A : Type ℓ} {B : Type κ} (o : Option A) (n : B) {f g : A → B}
    → ((a : A) → f a ≡ g a)
    → elim o [ none ↦ n | some a ↦ f a ] ≡ elim o [ none ↦ n | some a ↦ g a ]
opt_same none n h = refl
opt_same (some a) n h = h a

-- One round of the loop is one `byte!`, if the halves make up the same value.
round_same :
    (n : ℕ) (buf : List ℕ) (off value shift : ℕ) (body : ℕ → ℕ × ℕ)
    (next : ℕ → ℕ × ℕ → Result ℕ × ℕ)
    → shift ≢ 63
    → ((b : ℕ) → value + b % 128 * 2 ^ shift % 2 ^ 64 ≡ join_halves (body b))
    → ((b : ℕ)
        → read_loop n buf (off + 1) (value + b % 128 * 2 ^ shift % 2 ^ 64) (shift + 7)
          ≡ next (off + 1) (body b))
    → read_loop (suc n) buf off value shift ≡ byte_step buf off body next
unfolding read_loop byte_step
round_same n buf off value shift body next other same rest = opt_same (get_elem? buf off) _ λ b.
    let no : (shift == 63) && ltb 1 b ≡ false = ground arith in
    rw (no, rest b)
      (ap (λ (x : ℕ). if ltb b 128 then (ok x, off + 1) else next (off + 1) (body b)) (same b))

last_byte_same :
    (off value b : ℕ) (halves : ℕ × ℕ)
    → value ≡ join_halves halves
    → (let joined = value + b % 128 * 2 ^ 63 % 2 ^ 64 in
        let refused : Result ℕ × ℕ = (err too_long, off + 1) in
        let read : Result ℕ × ℕ = (ok joined, off + 1) in
        if ltb b 128 then (if ltb 1 b then refused else read) else refused)
      ≡ (let refused : Result ℕ × ℕ = (err too_long, off + 1) in
          let read : Result ℕ × ℕ = (ok (join_halves (halves.0, halves.1 + shl32 b 31)), off + 1) in
          if ltb 1 b then refused else read)
last_byte_same off value b halves same = elim (Bool-cases (ltb 1 b)) [
  | inl large ↦ rw large (
      if_ind (λ (r : Result ℕ × ℕ). r ≡ (err too_long, off + 1)) (ltb b 128) (λ _. refl)
        (λ _. refl))
  | inr small ↦
      let short : ltb b 128 ≡ true = ground arith in
      rw (short, small) (ap (λ (x : ℕ). (ok x, off + 1)) (ground (arith, same)))
]

last_same :
    (buf : List ℕ) (off value : ℕ) (halves : ℕ × ℕ)
    → value ≡ join_halves halves
    → read_loop 1 buf off value 63 ≡ last_step buf off halves
unfolding read_loop last_step
last_same buf off value halves same =
    opt_same (get_elem? buf off) _ λ b. last_byte_same off value b halves same

slow_same : (buf : List ℕ) (off : ℕ) → read_loop 10 buf off 0 0 ≡ read_u64_32_slow buf off
unfolding read_u64_32_slow
slow_same buf off =
    round_same 9 buf _ _ 0 (λ b. (b % 128, 0)) (second buf) (omega arith) (λ b. omega arith)
      λ b0.
        let h0 : ℕ × ℕ = (b0 % 128, 0) in
        round_same 8 buf _ _ 7 (low_or 7 h0) (third buf) (omega arith) (λ b. omega arith)
          λ b1.
            let h1 : ℕ × ℕ = low_or 7 h0 b1 in
            round_same 7 buf _ _ 14 (low_or 14 h1) (fourth buf) (omega arith) (λ b. omega arith)
              λ b2.
                let h2 : ℕ × ℕ = low_or 14 h1 b2 in
                round_same 6 buf _ _ 21 (low_or 21 h2) (fifth buf) (omega arith) (λ b. omega arith)
                  λ b3.
                    let h3 : ℕ × ℕ = low_or 21 h2 b3 in
                    round_same 5 buf _ _ 28 (across h3) (sixth buf) (omega arith) (λ b. omega arith)
                      λ b4.
                        let h4 : ℕ × ℕ = across h3 b4 in
                        round_same 4 buf _ _ 35 (high_or 3 h4) (seventh buf) (omega arith)
                          (λ b. omega arith)
                          λ b5.
                            let h5 : ℕ × ℕ = high_or 3 h4 b5 in
                            round_same 3 buf _ _ 42 (high_or 10 h5) (eighth buf) (omega arith)
                              (λ b. omega arith)
                              λ b6.
                                let h6 : ℕ × ℕ = high_or 10 h5 b6 in
                                round_same 2 buf _ _ 49 (high_or 17 h6) (ninth buf) (omega arith)
                                  (λ b. omega arith)
                                  λ b7.
                                    let h7 : ℕ × ℕ = high_or 17 h6 b7 in
                                    round_same 1 buf _ _ 56 (high_or 24 h7) (tenth buf)
                                      (omega arith) (λ b. omega arith)
                                      λ b8.
                                        let h8 : ℕ × ℕ = high_or 24 h7 b8 in
                                        last_same buf _ _ h8 (omega arith)

-- The decoder for 32-bit targets answers what the other one answers, on every buffer and from every
-- offset: the same value, the same refusal, and the same offset behind it.
pub read_u64-read_u64_32 : (buf : List ℕ) (off : ℕ) → read_u64 buf off ≡ read_u64_32 buf off
unfolding read_u64 read_u64_32
read_u64-read_u64_32 buf off = slow_same buf off ∙ fast (get_elem? buf off) refl
  where
    one_byte :
        (b : ℕ)
        → get_elem? buf off ≡ some b
        → ltb b 128 ≡ true
        → read_u64_32_slow buf off ≡ (ok b, off + 1)
    one_byte b e small =
        sym (slow_same buf off)
        ∙ read_last 9 buf off 0 0 b e (ltb→lt _ _ small) (ground arith)
        ∙ ap (λ (x : ℕ). (ok x, off + 1)) (omega arith)

    fast :
        (o : Option ℕ)
        → get_elem? buf off ≡ o
        → read_u64_32_slow buf off ≡ elim o [
          | none ↦ read_u64_32_slow buf off
          | some byte ↦ if ltb byte 128 then (ok byte, off + 1) else read_u64_32_slow buf off
        ]
    fast none e = refl
    fast (some b) e =
        if_ind (λ r. read_u64_32_slow buf off ≡ r) (ltb b 128) (λ small. one_byte b e small)
          (λ _. refl)
