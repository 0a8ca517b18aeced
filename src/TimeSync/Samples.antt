-- ===== src/TimeSync/Samples.antt =====
-- The four-timestamp computations of src/timesync.rs on `u64` stamps.
use sedsnet.Base.{
  low_bits, ltb_ℤ, as_i64, ◌+ℤ◌, ◌-ℤ◌, pos, u64_max, sat_add, div_trunc, ℕ, ℤ, if◌then◌else◌, ◌/◌,
  ◌-◌,
}

pub record TimeSyncSample : Type 0 where
  pub offset_ms : ℤ
  pub delay_ms : ℕ

unfoldable pub compute_offset_delay : ℕ → ℕ → ℕ → ℕ → TimeSyncSample
compute_offset_delay t1_ms t2_ms t3_ms t4_ms =
    let offset = div_trunc (pos t2_ms -ℤ pos t1_ms +ℤ (pos t3_ms -ℤ pos t4_ms)) 2 in
    let delay = pos t4_ms -ℤ pos t1_ms -ℤ (pos t3_ms -ℤ pos t2_ms) in
    record {
      offset_ms = as_i64 offset;
      delay_ms = if ltb_ℤ delay (pos 0) then 0 else low_bits delay;
    }

unfoldable pub compute_network_time_sample : ℕ → ℕ → ℕ → ℕ → ℕ × ℕ
compute_network_time_sample t1_monotonic_ms t2_network_ms t3_network_ms t4_monotonic_ms =
    let round_trip = t4_monotonic_ms - t1_monotonic_ms in
    let server_processing = t3_network_ms - t2_network_ms in
    let one_way_delay = (round_trip - server_processing) / 2 in
    (sat_add u64_max t3_network_ms one_way_delay, one_way_delay)
