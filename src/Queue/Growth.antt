-- ===== src/Queue/Growth.antt =====
-- The construction of `BoundedDeque` (src/queue.rs) and its growth ratio.
-- The exponent `e` over 1023 and the fraction of a `f64` between 1.01 and 16.
use sedsnet.Base.{
  none, some-injective, subst, usize_max, ltb, leb, ◌||◌, [], some, arith, if_ind, ◌^◌, ℕ, ◌%◌, ◌/◌,
  ◌*◌, ◌-◌, ◌<◌, ◌≤◌, ◌+◌, ◌≡◌, refl, suc, zero,
}
use sedsnet.Queue.Room.{
  fresh, max_growth_bits, Allocator, sign_bit, new, is_nan, min_growth_bits, float_to_ratio,
}
use sedsnet.Queue.Valid.{IsValid}
use sedsnet.Queue.Ring.{Deque, ByteCost}

scaled_bounds :
    (e fraction : ℕ)
    → e < 4
    → fraction < 2 ^ 52
    → min_growth_bits ≤ (1023 + e) * 2 ^ 52 + fraction
    → (1034 ≤ (fraction + 2 ^ 52) / 2 ^ (42 - e)) × ((fraction + 2 ^ 52) / 2 ^ (42 - e) < 16384)
scaled_bounds zero fraction h f m = omega arith
scaled_bounds (suc zero) fraction h f m = omega arith
scaled_bounds (suc (suc zero)) fraction h f m = omega arith
scaled_bounds (suc (suc (suc zero))) fraction h f m = omega arith
scaled_bounds (suc (suc (suc (suc e)))) fraction h f m = absurd (omega arith)

-- Every multiplier, also NaN, an infinity or a negative one, gives a ratio over 1024 that is above 1
-- and at most 16.
pub float_to_ratio_bounds :
    (bits : ℕ)
    → let (num, den) = float_to_ratio bits in (den ≡ 1024) × (den < num) × (num ≤ 16 * den)
unfolding float_to_ratio
float_to_ratio_bounds bits =
    let P : ℕ × ℕ → Type 0 = λ r. (r.1 ≡ 1024) × (r.1 < r.0) × (r.0 ≤ 16 * r.1) in
    if_ind P (is_nan bits) (λ _. (refl, omega arith, omega arith))
      λ _.
        if_ind P (leb sign_bit bits || ltb bits min_growth_bits)
          (λ _. (refl, omega arith, omega arith))
          λ above.
            if_ind P (leb max_growth_bits bits) (λ _. (refl, omega arith, omega arith))
              λ below.
                let small : bits < max_growth_bits = ground arith in
                let large : min_growth_bits ≤ bits = ground (arith, small) in
                let e = bits / 2 ^ 52 % 2048 - 1023 in
                let n = scaled_bounds e (bits % 2 ^ 52) (omega arith) (omega arith) (omega arith) in
                (refl, omega (arith, n), omega (arith, n))

module _ {ℓ} {T : Type ℓ} ⦃b : ByteCost T⦄ (a : Allocator)
    (max_bytes starting_bytes grow_mult : ℕ) where
  fresh-IsValid :
      max_bytes < usize_max → IsValid (fresh {T = T} a max_bytes starting_bytes grow_mult)
  unfolding fresh
  fresh-IsValid h = record {
    counted = refl;
    within = omega arith;
    slots = omega arith;
    elems = omega arith;
    some_elems = omega arith;
    word = h;
  }

  abbrev pub IsFresh : Deque T → Type ℓ
  IsFresh d =
      IsValid d
      × (d.q ≡ [])
      × (d.max_bytes ≡ max_bytes)
      × (d.grow_den < d.grow_num)
      × (d.grow_num ≤ 16 * d.grow_den)

  -- A queue that `new` builds with a budget below the largest `usize` is empty and valid, with the
  -- budget that was asked for; its growth ratio is above 1 and at most 16.
  pub new-IsValid :
      {d : Deque T}
      → max_bytes < usize_max
      → new a max_bytes starting_bytes grow_mult ≡ some d
      → IsFresh d
  unfolding new
  new-IsValid {d} h =
      if_ind (λ o. o ≡ some d → IsFresh d) _ (λ _ (e : none ≡ some d). absurd (cc))
        λ _ e. subst IsFresh (some-injective _ _ e) (
          fresh-IsValid h,
          unfold fresh in refl,
          unfold fresh in refl,
          unfold fresh in (float_to_ratio_bounds grow_mult).1,
          unfold fresh in (float_to_ratio_bounds grow_mult).2,
        )
