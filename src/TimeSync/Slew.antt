-- ===== src/TimeSync/Slew.antt =====
-- How `SlewedNetworkClock` of src/timesync.rs reads and steers.
use sedsnet.Base.{
  subst, sym, some-injective, none, not, if_ind, ◌≤ℤ◌, ◌∙◌, ap, int_laws, negsuc, min, pos,
  i128_max, ◌+ℤ◌, ℤ, saturate, ◌-◌, ◌≤◌, ◌≡◌, true, some, arith, ◌+◌, neg_part, ◌^◌, u64_max,
  pos_part, ℕ,
}
use sedsnet.TimeSync.Clock.{applied_adjust, read_unix_ns, max_adjust, SlewedNetworkClock}

-- The slew rate that `new` allows, and an anchor that is far from the ends of `i128`.
pub record IsSound (c : SlewedNetworkClock) : Type 0 where
  pub rate : c.max_slew_ppm ≤ 999_999
  pub below : pos_part c.anchor_unix_ns ≤ 2 ^ 126
  pub above : neg_part c.anchor_unix_ns ≤ 2 ^ 126

pub max_adjust_bound : (e ppm : ℕ) → e ≤ u64_max → ppm ≤ 999_999 → max_adjust e ppm ≤ e
max_adjust_bound e ppm h r = grind arith

max_adjust_step :
    (e k ppm : ℕ)
    → e + k ≤ u64_max
    → ppm ≤ 999_999
    → (max_adjust e ppm ≤ max_adjust (e + k) ppm) × (max_adjust (e + k) ppm ≤ max_adjust e ppm + k)
max_adjust_step e k ppm h r = grind arith

pub saturate_id : (a : ℤ) → pos_part a ≤ i128_max → neg_part a ≤ i128_max → saturate a ≡ a
unfolding saturate
saturate_id (pos n) h k = ground arith
saturate_id (negsuc n) h k = ground arith

-- What an adjustment adds, by its sign.
pub applied_parts :
    (p : ℤ) (most : ℕ)
    → (pos_part (applied_adjust p most) ≡ min (pos_part p) most)
      × (neg_part (applied_adjust p most) ≡ min (neg_part p) most)
applied_parts (pos p) most = ground arith
applied_parts (negsuc p) most = ground arith

-- A sound clock's reading saturates nowhere.
unfoldable pub exact_reading : (c : SlewedNetworkClock) (now : ℕ) → ℤ
exact_reading c now =
    let elapsed = now - c.anchor_mono_ns in
    c.anchor_unix_ns
    +ℤ pos elapsed
    +ℤ applied_adjust c.pending_adjust_ns (max_adjust elapsed c.max_slew_ppm)

pub read_exact :
    (c : SlewedNetworkClock) (now : ℕ)
    → IsSound c
    → c.initialized ≡ true
    → now ≤ u64_max
    → read_unix_ns c now ≡ some (exact_reading c now)
unfolding read_unix_ns exact_reading
read_exact c now s i h =
    let elapsed = now - c.anchor_mono_ns in
    let most = max_adjust elapsed c.max_slew_ppm in
    let bound = max_adjust_bound elapsed c.max_slew_ppm (omega arith) s.rate in
    let parts = applied_parts c.pending_adjust_ns most in
    let first : saturate (c.anchor_unix_ns +ℤ pos elapsed) ≡ c.anchor_unix_ns +ℤ pos elapsed =
      saturate_id _ (omega (int_laws, s.below, s.above)) (omega (int_laws, s.below, s.above)) in
    if_ind (λ o. o ≡ some (exact_reading c now)) (not c.initialized) (λ f. absurd (ground arith))
      λ _.
        ap (λ a. some (saturate (a +ℤ applied_adjust c.pending_adjust_ns most))) first
        ∙ ap some (
            saturate_id _ (omega (int_laws, s.below, s.above, parts, bound))
              (omega (int_laws, s.below, s.above, parts, bound)))

pub read_initialized :
    (c : SlewedNetworkClock) (now : ℕ) {a : ℤ} → read_unix_ns c now ≡ some a → c.initialized ≡ true
unfolding read_unix_ns
read_initialized c now {a} =
    if_ind (λ o. o ≡ some a → c.initialized ≡ true) (not c.initialized)
      (λ _ (e : none ≡ some a). absurd (cc)) (λ i _. ground arith)

exact_mono :
    (c : SlewedNetworkClock) (now later : ℕ)
    → IsSound c
    → now ≤ later
    → later ≤ u64_max
    → exact_reading c now ≤ℤ exact_reading c later
unfolding exact_reading
exact_mono c now later s h k =
    let elapsed = now - c.anchor_mono_ns in
    let more = later - c.anchor_mono_ns - elapsed in
    let step = max_adjust_step elapsed more c.max_slew_ppm (omega arith) s.rate in
    let same : later - c.anchor_mono_ns ≡ elapsed + more = omega arith in
    let before = applied_parts c.pending_adjust_ns (max_adjust elapsed c.max_slew_ppm) in
    let after = applied_parts c.pending_adjust_ns (max_adjust (elapsed + more) c.max_slew_ppm) in
    rw same (omega (int_laws, step, before, after))

-- Between two readings of a sound clock that is not steered meanwhile time goes forward: the later
-- reading is not below the earlier one.
pub read_unix_ns_mono :
    (c : SlewedNetworkClock) (now later : ℕ) {a b : ℤ}
    → IsSound c
    → now ≤ later
    → later ≤ u64_max
    → read_unix_ns c now ≡ some a
    → read_unix_ns c later ≡ some b
    → a ≤ℤ b
read_unix_ns_mono c now later {a} {b} s h k e f =
    let i = read_initialized c now e in
    let x : exact_reading c now ≡ a =
      some-injective _ _ (sym (read_exact c now s i (omega arith)) ∙ e) in
    let y : exact_reading c later ≡ b = some-injective _ _ (sym (read_exact c later s i k) ∙ f) in
    subst (λ z. z ≤ℤ b) x (subst (λ z. exact_reading c now ≤ℤ z) y (exact_mono c now later s h k))
