-- ===== src/TimeSync/Exchange.antt =====
-- What the samples of src/timesync.rs say of an exchange: the request takes `go` milliseconds, the
-- responder `work`, and the response `back`; the responder's clock is `plus - minus` ahead.
use sedsnet.Base.{
  int_laws, ap, neg_part, eq_of_parts, low_bits, div_trunc, as_i64, ltb_ℤ, sym, pos, pos_part,
  if◌then◌else◌, ◌∙◌, ◌≡◌, sub_ℕ, min, ◌^◌, arith, ◌-ℤ◌, u64_max, ℕ, ◌+ℤ◌, ◌*◌, ◌-◌, ◌<◌, ◌≤◌, ◌+◌,
}
use sedsnet.TimeSync.Samples.{compute_network_time_sample, compute_offset_delay}

delay_of :
    (t1 t2 go work back : ℕ)
    → pos (t1 + go + work + back) -ℤ pos t1 -ℤ (pos (t2 + work) -ℤ pos t2) ≡ pos (go + back)
delay_of t1 t2 go work back = eq_of_parts _ _ (omega int_laws)

sub_parts : (a b : ℕ) → pos_part (sub_ℕ a b) + b ≡ neg_part (sub_ℕ a b) + a
sub_parts a b = ground arith

offset_of :
    (t1 t2 go work plus minus : ℕ)
    → t2 + minus ≡ t1 + go + plus
    → pos t2 -ℤ pos t1 +ℤ (pos (t2 + work) -ℤ pos (t1 + go + work + go))
      ≡ sub_ℕ (2 * plus) (2 * minus)
offset_of t1 t2 go work plus minus e =
    eq_of_parts _ _ (omega (int_laws, sub_parts (2 * plus) (2 * minus)))

half_of : (a b : ℕ) → div_trunc (sub_ℕ (2 * a) (2 * b)) 2 ≡ sub_ℕ a b
half_of a b = ground arith

small_i64 : (a b : ℕ) → a < 2 ^ 62 → b < 2 ^ 62 → as_i64 (sub_ℕ a b) ≡ sub_ℕ a b
small_i64 a b h k = ground arith

small_delay : (n : ℕ) → n < 2 ^ 64 → (if ltb_ℤ (pos n) (pos 0) then 0 else low_bits (pos n)) ≡ n
small_delay n h = ground arith

-- For stamps below 2^62, the delay is the time that the two messages took, and on a symmetric path
-- the offset is exactly how far the clock of the responder is ahead.
pub compute_offset_delay_exact :
    (t1 t2 go work back plus minus : ℕ)
    → t2 + minus ≡ t1 + go + plus
    → t1 + go + work + back < 2 ^ 62
    → t2 + work < 2 ^ 62
    → plus < 2 ^ 62
    → minus < 2 ^ 62
    → let s = compute_offset_delay t1 t2 (t2 + work) (t1 + go + work + back) in
      (s.delay_ms ≡ go + back) × (go ≡ back → s.offset_ms ≡ sub_ℕ plus minus)
unfolding compute_offset_delay
compute_offset_delay_exact t1 t2 go work back plus minus e a b c d = (
  rw (delay_of t1 t2 go work back) (small_delay (go + back) (omega arith)),
  λ even. rw (sym even) (
      ap (λ x. as_i64 (div_trunc x 2)) (offset_of t1 t2 go work plus minus e)
      ∙ ap as_i64 (half_of plus minus)
      ∙ small_i64 plus minus c d),
)

-- The estimate of the responder's clock at the arrival of the response fits a `u64`. It is above that
-- clock by at most half of what the way there takes longer than the way back, and below it by at most
-- half of what the way back takes longer, rounded up; a clock past the last `u64` counts there as the
-- last `u64`.
pub compute_network_time_sample_error :
    (t1 t2 go work back : ℕ)
    → let estimate = (compute_network_time_sample t1 t2 (t2 + work) (t1 + go + work + back)).0 in
      let true_time = t2 + work + back in
      (estimate ≤ u64_max)
      × (2 * estimate ≤ 2 * true_time + (go - back))
      × (2 * min true_time u64_max ≤ 2 * estimate + (back - go) + 1)
unfolding compute_network_time_sample
compute_network_time_sample_error t1 t2 go work back = omega arith
