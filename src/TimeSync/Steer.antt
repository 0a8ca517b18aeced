-- ===== src/TimeSync/Steer.antt =====
-- Steering of `SlewedNetworkClock` (src/timesync.rs): no jump, no overshoot, and the target in the end.
use sedsnet.Base.{
  sym, difference_parts, sign_of_difference, if_ind, int_laws, pos, ◌^◌, ap, saturate, neg_part,
  ◌-ℤ◌, ◌≤ℤ◌, u64_max, arith, ◌+ℤ◌, eq_of_parts, not, pos_part, ℤ, ℕ, Bool, ◌==◌, ◌&&◌, ◌∙◌, ◌-◌,
  ◌<◌, ◌≤◌, ◌+◌, ◌≡◌, refl, false, true, some,
}
use sedsnet.TimeSync.Clock.{
  anchored, far_ahead, applied_adjust, max_adjust, steer_verified_response_ms, read_unix_ns,
  target_ns, SlewedNetworkClock, steer_unix_ms,
}
use sedsnet.TimeSync.Slew.{
  read_exact, saturate_id, applied_parts, read_initialized, IsSound, exact_reading,
}

-- A stamp far from the ends of `i128`: they are 2^127 away from 0.
abbrev pub IsFar : ℤ → Type 0
IsFar a = (pos_part a ≤ 2 ^ 126) × (neg_part a ≤ 2 ^ 126)

-- The clock that steers from the reading `r`.
abbrev steered : ℕ → ℕ → ℤ → SlewedNetworkClock → SlewedNetworkClock
steered now target r c = record c {
  anchor_mono_ns = now;
  anchor_unix_ns = r;
  pending_adjust_ns = target_ns target -ℤ r;
  initialized = true;
}

steer_shape :
    (c : SlewedNetworkClock) (now target : ℕ) (r : ℤ)
    → read_unix_ns c now ≡ some r
    → IsFar r
    → target ≤ u64_max
    → steer_unix_ms now target c ≡ steered now target r c
unfolding steer_unix_ms
steer_shape c now target r e far h =
    let i = read_initialized c now e in
    let exact : saturate (target_ns target -ℤ r) ≡ target_ns target -ℤ r =
      saturate_id _ (omega (int_laws, far)) (omega (int_laws, far)) in
    if_ind (λ x. x ≡ steered now target r c) (not c.initialized) (λ f. absurd (ground arith))
      λ _. rw (e, exact)

-- Where the reading stands `e` nanoseconds after a steering from `r` to `t`: it started at `r`, lies
-- between the two lines from `r` and from `t`, and is on the line of `t` once the slew rate has had
-- time for the whole distance.
pub record Steers (c : SlewedNetworkClock) (ppm now e : ℕ) (r t : ℤ) : Type 0 where
  pub start : read_unix_ns c now ≡ some r
  pub reading : ℤ
  pub reads : read_unix_ns c (now + e) ≡ some reading
  pub forward : r ≤ℤ t → (r +ℤ pos e ≤ℤ reading) × (reading ≤ℤ t +ℤ pos e)
  pub backward : t ≤ℤ r → (t +ℤ pos e ≤ℤ reading) × (reading ≤ℤ r +ℤ pos e)
  pub settled :
      pos_part (t -ℤ r) ≤ max_adjust e ppm
      → neg_part (t -ℤ r) ≤ max_adjust e ppm
      → reading ≡ t +ℤ pos e

-- A reading that leaves the line of `r` for the line of `t` by at most `m`.
abbrev glide : ℤ → ℤ → ℕ → ℕ → ℤ
glide r t e m = r +ℤ pos e +ℤ applied_adjust (t -ℤ r) m

glide_start : (r t : ℤ) (m : ℕ) → m ≡ 0 → glide r t 0 m ≡ r
glide_start r t m h = eq_of_parts _ _ (omega (int_laws, applied_parts (t -ℤ r) m))

glide_forward :
    (r t : ℤ) (e m : ℕ) → r ≤ℤ t → (r +ℤ pos e ≤ℤ glide r t e m) × (glide r t e m ≤ℤ t +ℤ pos e)
glide_forward r t e m h = omega (int_laws, applied_parts (t -ℤ r) m, (sign_of_difference t r).0 h)

glide_backward :
    (r t : ℤ) (e m : ℕ) → t ≤ℤ r → (t +ℤ pos e ≤ℤ glide r t e m) × (glide r t e m ≤ℤ r +ℤ pos e)
glide_backward r t e m h = omega (int_laws, applied_parts (t -ℤ r) m, (sign_of_difference t r).1 h)

glide_settled :
    (r t : ℤ) (e m : ℕ) → pos_part (t -ℤ r) ≤ m → neg_part (t -ℤ r) ≤ m → glide r t e m ≡ t +ℤ pos e
glide_settled r t e m h k = eq_of_parts _ _ (omega (int_laws, applied_parts (t -ℤ r) m))

steered-Steers :
    (c : SlewedNetworkClock) (now target e : ℕ) (r : ℤ)
    → c.max_slew_ppm ≤ 999_999
    → IsFar r
    → now + e ≤ u64_max
    → Steers (steered now target r c) c.max_slew_ppm now e r (target_ns target)
unfolding exact_reading
steered-Steers c now target e r rate far h =
    let d = steered now target r c in
    let t = target_ns target in
    let s : IsSound d = record { rate = rate; below = far.0; above = far.1 } in
    let none_passed : now - now ≡ 0 = omega arith in
    let passed : now + e - now ≡ e = omega arith in
    record {
      start =
          read_exact d now s refl (omega arith)
          ∙ ap some (rw none_passed (glide_start r t _ (omega arith)));
      reading = glide r t e (max_adjust e c.max_slew_ppm);
      reads = read_exact d (now + e) s refl h ∙ rw passed;
      forward = glide_forward r t e _;
      backward = glide_backward r t e _;
      settled = glide_settled r t e _;
    }

pub steer_unix_ms-Steers :
    (c : SlewedNetworkClock) (now target e : ℕ) {r : ℤ}
    → c.max_slew_ppm ≤ 999_999
    → read_unix_ns c now ≡ some r
    → IsFar r
    → target ≤ u64_max
    → now + e ≤ u64_max
    → Steers (steer_unix_ms now target c) c.max_slew_ppm now e r (target_ns target)
steer_unix_ms-Steers c now target e {r} rate reads far h k =
    rw (steer_shape c now target r reads far h) (steered-Steers c now target e r rate far k)

anchored_reads :
    (c : SlewedNetworkClock) (now target : ℕ)
    → c.max_slew_ppm ≤ 999_999
    → c.initialized ≡ true
    → target ≤ u64_max
    → now ≤ u64_max
    → read_unix_ns (anchored now (target_ns target) c) now ≡ some (target_ns target)
unfolding exact_reading
anchored_reads c now target rate i h k =
    let s : IsSound (anchored now (target_ns target) c) = record {
      rate = rate;
      below = omega arith;
      above = omega arith;
    } in
    let none_passed : now - now ≡ 0 = omega arith in
    read_exact (anchored now (target_ns target) c) now s i k
    ∙ ap some (rw none_passed (eq_of_parts _ _ (omega int_laws)))

far_ahead_test :
    (t r : ℤ) (target : ℕ)
    → t ≡ target_ns target
    → IsFar r
    → target ≤ u64_max
    → (far_ahead t (some r) ≡ true → pos_part r + 5_000_000_000 < pos_part t + neg_part r)
      × (far_ahead t (some r) ≡ false → pos_part t + neg_part r ≤ pos_part r + 5_000_000_000)
far_ahead_test t r target e far h =
    let exact : saturate (t -ℤ r) ≡ t -ℤ r =
      saturate_id _ (omega (int_laws, far, ap pos_part e))
        (omega (int_laws, far, ap pos_part e, ap neg_part e)) in
    let parts = difference_parts t r in
    let non_negative = ap neg_part e in
    rw exact ((λ e. ground (arith, parts, non_negative)), λ e. ground (arith, parts, non_negative))

and_right : (x y : Bool) → x && y ≡ true → y ≡ true
and_right x y h = ground arith

and_false : {n : ℕ} {y : Bool} → 0 < n → not (n == 0) && y ≡ false → y ≡ false
and_false {n} {y} h k = ground arith

-- A verified response puts a running clock, whose rate is positive and below the real time, on the
-- target at once if the target is more than five seconds ahead of the reading; otherwise the reading
-- at that moment stays.
pub steer_verified_response_ms_lem :
    (c : SlewedNetworkClock) (now target : ℕ) {r : ℤ}
    → c.max_slew_ppm ≤ 999_999
    → 0 < c.max_slew_ppm
    → read_unix_ns c now ≡ some r
    → IsFar r
    → target ≤ u64_max
    → now ≤ u64_max
    → let d = steer_verified_response_ms now target c in
      (r +ℤ pos 5_000_000_001 ≤ℤ target_ns target → read_unix_ns d now ≡ some (target_ns target))
      × (target_ns target ≤ℤ r +ℤ pos 5_000_000_000 → read_unix_ns d now ≡ some r)
unfolding steer_verified_response_ms
steer_verified_response_ms_lem c now target {r} rate turning reads far h k =
    let t = target_ns target in
    let i = read_initialized c now reads in
    let tests = far_ahead_test t r target refl far h in
    let ahead : far_ahead t (read_unix_ns c now) ≡ far_ahead t (some r) = ap (far_ahead t) reads in
    if_ind
      (λ d.
        (r +ℤ pos 5_000_000_001 ≤ℤ t → read_unix_ns d now ≡ some t)
        × (t ≤ℤ r +ℤ pos 5_000_000_000 → read_unix_ns d now ≡ some r))
      (not (c.max_slew_ppm == 0) && far_ahead t (read_unix_ns c now))
      (λ jump. (
        λ _. anchored_reads c now target rate i h k,
        λ near. absurd (omega (int_laws, tests.0 (sym ahead ∙ and_right _ _ jump), near)),
      ))
      λ stay. (
        λ beyond. absurd (omega (int_laws, tests.1 (sym ahead ∙ and_false turning stay), beyond)),
        λ _. (steer_unix_ms-Steers c now target 0 rate reads far h (omega arith)).start,
      )
