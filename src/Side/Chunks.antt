-- ===== src/Side/Chunks.antt =====
-- The chunks of a frame, src/side_transport.rs, are the frame cut into pieces.
use sedsnet.Errors.{err, ok, ok-injective, packet_too_large, bad_arg, Result}
use sedsnet.Base.{
  subst, ltb, leb, if_ind, ◌%◌, ◌/◌, ◌<◌, sym, min, arith, ap, drop, take, length, List, ℕ, ◌∙◌,
  ◌*◌, ◌-◌, ◌++◌, ◌≤◌, ◌+◌, ◌≡◌, refl, suc, zero, ◌∷◌, [],
}
use sedsnet.Side.Frames.{
  chunk_overhead, split, div_ceil, chunk_payload, concat_parts, SideTransportFrames,
}
use native.Mathlib.Nat.{div-add-mod', mod-lt}

-- The payloads of the chunks from an index on.
unfoldable pub payloads_from : ℕ → ℕ → SideTransportFrames → List (List ℕ)
payloads_from zero index f = []
payloads_from (suc n) index f = chunk_payload f index ∷ payloads_from n (index + 1) f

unfoldable pub payloads : SideTransportFrames → List (List ℕ)
unfolding payloads_from
payloads f = payloads_from f.total 0 f

pub length-payloads_from :
    (n index : ℕ) (f : SideTransportFrames) → length (payloads_from n index f) ≡ n
unfolding payloads_from
length-payloads_from zero index f = refl
length-payloads_from (suc n) index f = ap suc (length-payloads_from n (index + 1) f)

length-drop : (n : ℕ) (xs : List ℕ) → length (drop n xs) ≡ length xs - n
length-drop zero xs = omega arith
length-drop (suc n) [] = omega arith
length-drop (suc n) (x ∷ xs) = omega (arith, length-drop n xs)

drop_nil : (n : ℕ) → drop {A = ℕ} n [] ≡ []
drop_nil zero = refl
drop_nil (suc n) = refl

drop-drop : (m n : ℕ) (xs : List ℕ) → drop n (drop m xs) ≡ drop (m + n) xs
drop-drop zero n xs = ap (λ k. drop k xs) (omega arith)
drop-drop (suc m) n [] = drop_nil n ∙ sym (drop_nil (suc m + n))
drop-drop (suc m) n (x ∷ xs) =
    let shifted : suc (m + n) ≡ suc m + n = omega arith in
    drop-drop m n xs ∙ ap (λ k. drop k (x ∷ xs)) shifted

cut : (b : ℕ) (xs : List ℕ) → take (min b (length xs)) xs ++ drop b xs ≡ xs
cut zero xs = let none_taken : min 0 (length xs) ≡ 0 = omega arith in rw none_taken refl
cut (suc b) [] = let none_taken : min (suc b) 0 ≡ 0 = omega arith in rw none_taken refl
cut (suc b) (x ∷ xs) =
    let one : min (suc b) (suc (length xs)) ≡ suc (min b (length xs)) = omega arith in
    rw one (ap (λ l. x ∷ l) (cut b xs))

drop_past : (n : ℕ) (xs : List ℕ) → length xs ≤ n → drop n xs ≡ []
drop_past zero [] h = refl
drop_past zero (x ∷ xs) h = absurd (omega arith)
drop_past (suc n) [] h = refl
drop_past (suc n) (x ∷ xs) h = drop_past n xs (omega arith)

concat_from :
    (n index : ℕ) (f : SideTransportFrames)
    → length f.frame ≤ (index + n) * f.payload_budget
    → concat_parts (payloads_from n index f) ≡ drop (index * f.payload_budget) f.frame
unfolding payloads_from concat_parts chunk_payload
concat_from zero index f h =
    let all : index + 0 ≡ index = omega arith in
    sym (drop_past (index * f.payload_budget) f.frame (rw all at h))
concat_from (suc n) index f h =
    let start = index * f.payload_budget in
    let whole = drop start f.frame in
    let size : min (start + f.payload_budget) (length f.frame) - start
        ≡ min f.payload_budget (length whole) =
      omega (arith, length-drop start f.frame) in
    let one_more : index + suc n ≡ index + 1 + n = omega arith in
    let next : (index + 1) * f.payload_budget ≡ start + f.payload_budget = grind arith in
    let rest = concat_from n (index + 1) f (rw one_more at h) in
    ap (λ k. take k whole ++ concat_parts (payloads_from n (index + 1) f)) size
    ∙ ap (λ l. take (min f.payload_budget (length whole)) whole ++ l)
        (rest ∙ ap (λ k. drop k f.frame) next ∙ sym (drop-drop start f.payload_budget f.frame))
    ∙ cut f.payload_budget whole

-- What a frame that was split is cut into.
pub record IsSplit (frame : List ℕ) (f : SideTransportFrames) : Type 0 where
  pub same_frame : f.frame ≡ frame
  pub positive : 0 < f.payload_budget
  pub few : f.total ≤ 0xffff
  pub enough : length f.frame ≤ f.total * f.payload_budget

-- The payloads of the chunks together are the frame.
pub concat-payloads :
    (frame : List ℕ) (f : SideTransportFrames) → IsSplit frame f → concat_parts (payloads f) ≡ frame
unfolding payloads
concat-payloads frame f s =
    let zero_start : 0 * f.payload_budget ≡ 0 = omega arith in
    let from_start : 0 + f.total ≡ f.total = omega arith in
    concat_from f.total 0 f (rw from_start s.enough)
    ∙ ap (λ k. drop k f.frame) zero_start
    ∙ s.same_frame

ceil_enough : (n b : ℕ) → 0 < b → n ≤ div_ceil n b * b
ceil_enough n b h =
    let whole : (n + (b - 1)) / b * b + (n + (b - 1)) % b ≡ n + (b - 1) =
      div-add-mod' (n + (b - 1)) b in
    let rest : (n + (b - 1)) % b < b = mod-lt (n + (b - 1)) h in omega (arith, whole, rest)

pub split-IsSplit :
    (frame : List ℕ) (max_bytes : ℕ) (sender : List ℕ) (f : SideTransportFrames)
    → split frame max_bytes sender ≡ ok f
    → IsSplit frame f
unfolding split
split-IsSplit frame max_bytes sender f =
    if_ind (λ (o : Result SideTransportFrames). o ≡ ok f → IsSplit frame f)
      (leb max_bytes chunk_overhead) (λ t (e : err bad_arg ≡ ok f). absurd (cc))
      (λ large.
        if_ind (λ (o : Result SideTransportFrames). o ≡ ok f → IsSplit frame f)
          (ltb 0xffff (div_ceil (length frame) (max_bytes - chunk_overhead)))
          (λ t (e : err (packet_too_large "too many chunks") ≡ ok f). absurd (cc))
          (λ small e. subst (IsSplit frame) (ok-injective e) (record {
            same_frame = refl;
            positive = ground arith;
            few = ground arith;
            enough = ceil_enough (length frame) (max_bytes - chunk_overhead) (ground arith);
          })))
