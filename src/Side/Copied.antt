-- ===== src/Side/Copied.antt =====
-- The copying of fragments in `assemble`, src/side_transport.rs, with memory to spare.
use sedsnet.Base.{
  append_assoc, leb, sat_mul, max, length-append, if_ind, ltb, append-nil, arith, min, sat_add,
  usize_max, sym, length, Option, ap, ℕ, List, ◌==◌, ◌&&◌, ◌∙◌, ◌-◌, ◌++◌, ◌≤◌, ◌+◌, ◌≡◌, refl,
  false, true, ◌∷◌, [], some,
}
use sedsnet.Side.Assemble.{
  fits_behind, scratch_len, Output, total_len, copy_fragments, assemble, append_bytes,
}
use sedsnet.Side.Frames.{div_ceil, concat_parts}
use sedsnet.Side.Delivered.{Grants}
use sedsnet.Side.Assembly.{SideChunkAssembly}
use sedsnet.Queue.Room.{Allocator}
use sedsnet.Errors.{Result, ok, ◌>>=◌}

-- An output that has the bytes.
HasBytes : List ℕ → Result Output → Type 0
HasBytes bytes r = (o : Output) × (r ≡ ok o) × (o.bytes ≡ bytes)

append_bytes-HasBytes :
    (mem : Allocator) (step len : ℕ) (bytes : List ℕ) (out : Output)
    → Grants mem
    → HasBytes (out.bytes ++ bytes) (append_bytes mem step len bytes out)
unfolding append_bytes HasBytes
append_bytes-HasBytes mem step len bytes out g =
    let end = sat_add usize_max (length out.bytes) (length bytes) in
    let target = min (sat_mul usize_max (div_ceil end step) step) len in
    let (cap, made) = g.reserves (length out.bytes) (target - length out.bytes) in
    if_ind (λ (r : Result Output). (o : Output) × (r ≡ ok o) × (o.bytes ≡ out.bytes ++ bytes))
      (leb end out.capacity)
      (λ t. (record { bytes = out.bytes ++ bytes; capacity = out.capacity }, refl, refl))
      (λ f. (
        record { bytes = out.bytes ++ bytes; capacity = cap },
        rw (g.admits (max (sat_add usize_max target 128) 1024) (sat_add usize_max target 32), made)
            refl,
        refl,
      ))

then_copied :
    (r : Result Output) (f : Output → Result Output) (mid bytes : List ℕ)
    → HasBytes mid r
    → ((o : Output) → o.bytes ≡ mid → HasBytes bytes (f o))
    → HasBytes bytes (r >>= f)
unfolding HasBytes
then_copied r f mid bytes (o, e, b) h = let (p, d, c) = h o b in (p, ap (λ x. x >>= f) e ∙ d, c)

abbrev pub all_there : List (List ℕ) → List (Option (List ℕ))
all_there [] = []
all_there (s ∷ ss) = some s ∷ all_there ss

copy_fragments-HasBytes :
    (mem : Allocator) (step len : ℕ) (ss : List (List ℕ)) (out : Output)
    → Grants mem
    → HasBytes (out.bytes ++ concat_parts ss) (copy_fragments mem step len (all_there ss) out)
unfolding copy_fragments concat_parts HasBytes
copy_fragments-HasBytes mem step len [] out g = (out, refl, sym (append-nil out.bytes))
copy_fragments-HasBytes mem step len (s ∷ []) out g =
    let (o, e, b) = append_bytes-HasBytes mem step len s out g in
    (o, e, b ∙ ap (λ l. out.bytes ++ l) (sym (append-nil s)))
copy_fragments-HasBytes mem step len (s ∷ t ∷ ss) out g =
    if_ind
      (λ (r : Result Output).
        (o : Output) × (r ≡ ok o) × (o.bytes ≡ out.bytes ++ (s ++ (t ++ concat_parts ss))))
      (leb (length s) scratch_len && fits_behind (length s) t)
      (λ both.
        then_copied _ _ (out.bytes ++ (s ++ t)) _
          (append_bytes-HasBytes mem step len (s ++ t) out g)
          (λ o b.
            let (p, d, c) = copy_fragments-HasBytes mem step len ss o g in
            (
              p,
              d,
              c
                  ∙ ap (λ l. l ++ concat_parts ss) b
                  ∙ append_assoc out.bytes (s ++ t) (concat_parts ss)
                  ∙ ap (λ l. out.bytes ++ l) (append_assoc s t (concat_parts ss)),
            )))
      (λ one.
        then_copied _ _ (out.bytes ++ s) _ (append_bytes-HasBytes mem step len s out g) (λ o b.
          let (p, d, c) = copy_fragments-HasBytes mem step len (t ∷ ss) o g in
          (
            p,
            d,
            c
                ∙ ap (λ l. l ++ (t ++ concat_parts ss)) b
                ∙ append_assoc out.bytes s (t ++ concat_parts ss),
          )))

total_len-ok :
    (n : ℕ) (ss : List (List ℕ))
    → n + length (concat_parts ss) ≤ usize_max
    → (len : ℕ) × (total_len n (all_there ss) ≡ ok len)
unfolding total_len concat_parts
total_len-ok n [] h = (n, refl)
total_len-ok n (s ∷ ss) h =
    let small : ltb usize_max (n + length s) ≡ false =
      ground (arith, length-append s (concat_parts ss)) in
    let (len, e) =
      total_len-ok (n + length s) ss (omega (arith, length-append s (concat_parts ss))) in
    (len, rw small e)

-- Complete fragments are assembled to their bytes.
pub assemble-all_there :
    (mem : Allocator) (ss : List (List ℕ)) (a : SideChunkAssembly)
    → Grants mem
    → a.received ≡ all_there ss
    → a.received_count ≡ a.total
    → length (concat_parts ss) ≤ usize_max
    → assemble mem a ≡ ok (concat_parts ss)
unfolding assemble HasBytes
assemble-all_there mem ss a g there count h =
    let complete : (a.received_count == a.total) ≡ true = ground arith in
    let (len, e) = total_len-ok 0 ss (omega (arith, h)) in
    let (cap, made) = g.reserves 0 len in
    let (o, d, b) =
      copy_fragments-HasBytes mem (max (div_ceil len 8) 128) len ss
        (record { bytes = []; capacity = cap }) g in
    rw (complete, assemble)
      (rw (there, e)
        (rw (g.admits (sat_add usize_max len 512) (sat_add usize_max len 32), made)
          (rw d (ap ok b))))
