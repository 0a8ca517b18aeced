-- ===== src/TimeSync/Clock.antt =====
-- `SlewedNetworkClock` of src/timesync.rs. Monotonic stamps are `u64`, Unix stamps `i128`.
use sedsnet.Base.{
  sub_ℕ, ltb_ℤ, i128_max, negsuc, ◌+ℤ◌, ◌-ℤ◌, pos, not, Bool, min, Option, ℕ, ℤ, saturate,
  if◌then◌else◌, ◌==◌, ◌&&◌, ◌/◌, ◌*◌, ◌-◌, false, true, suc, some, none,
}
use sedsnet.TimeSync.Calendar.{millis_of, or_else}

pub record SlewedNetworkClock : Type 0 where
  pub anchor_mono_ns : ℕ
  pub anchor_unix_ns : ℤ
  pub pending_adjust_ns : ℤ
  pub max_slew_ppm : ℕ
  pub initialized : Bool

unfoldable pub new : ℕ → SlewedNetworkClock
new max_slew_ppm = record {
  anchor_mono_ns = 0;
  anchor_unix_ns = pos 0;
  pending_adjust_ns = pos 0;
  max_slew_ppm = min max_slew_ppm 999_999;
  initialized = false;
}

-- `max_adjust_ns`.
abbrev pub max_adjust : ℕ → ℕ → ℕ
max_adjust elapsed_ns ppm = min (elapsed_ns * ppm) i128_max / 1_000_000

-- `applied_adjust_ns`. A pending adjustment is above `i128::MIN`, so that `-` has no overflow.
abbrev pub applied_adjust : ℤ → ℕ → ℤ
applied_adjust (pos p) most = pos (min p most)
applied_adjust (negsuc p) most = sub_ℕ 0 (min (suc p) most)

unfoldable pub read_unix_ns : SlewedNetworkClock → ℕ → Option ℤ
read_unix_ns c now_mono_ns =
    let elapsed_ns = now_mono_ns - c.anchor_mono_ns in
    let applied = applied_adjust c.pending_adjust_ns (max_adjust elapsed_ns c.max_slew_ppm) in
    if not c.initialized
    then none
    else some (saturate (saturate (c.anchor_unix_ns +ℤ pos elapsed_ns) +ℤ applied))

unfoldable pub read_unix_ms : SlewedNetworkClock → ℕ → Option ℕ
unfolding read_unix_ns
read_unix_ms c now_mono_ns = elim (read_unix_ns c now_mono_ns) [
  | none ↦ none
  | some unix_ns ↦ millis_of unix_ns
]

abbrev pub target_ns : ℕ → ℤ
target_ns target_unix_ms = pos (target_unix_ms * 1_000_000)

-- The clock restarted at a stamp, without a pending adjustment.
abbrev pub anchored : ℕ → ℤ → SlewedNetworkClock → SlewedNetworkClock
anchored now_mono_ns unix_ns c = record c {
  anchor_mono_ns = now_mono_ns;
  anchor_unix_ns = unix_ns;
  pending_adjust_ns = pos 0;
}

unfoldable pub steer_unix_ms : ℕ → ℕ → SlewedNetworkClock → SlewedNetworkClock
steer_unix_ms now_mono_ns target_unix_ms c =
    let target = target_ns target_unix_ms in
    let current = or_else (read_unix_ns c now_mono_ns) target in
    if not c.initialized
    then record (anchored now_mono_ns target c) { initialized = true }
    else record c {
      anchor_mono_ns = now_mono_ns;
      anchor_unix_ns = current;
      pending_adjust_ns = saturate (target -ℤ current);
      initialized = true;
    }

-- More than five seconds from the reading to the target.
abbrev pub far_ahead : ℤ → Option ℤ → Bool
far_ahead target none = false
far_ahead target (some current) = ltb_ℤ (pos 5_000_000_000) (saturate (target -ℤ current))

unfoldable pub steer_verified_response_ms : ℕ → ℕ → SlewedNetworkClock → SlewedNetworkClock
unfolding steer_unix_ms
steer_verified_response_ms now_mono_ns target_unix_ms c =
    let target = target_ns target_unix_ms in
    if not (c.max_slew_ppm == 0) && far_ahead target (read_unix_ns c now_mono_ns)
    then anchored now_mono_ns target c
    else steer_unix_ms now_mono_ns target_unix_ms c
