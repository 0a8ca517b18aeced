-- ===== src/TimeSync/Tests.antt =====
-- Runs of the time synchronization (src/timesync.rs), and the theorems at those runs.
use sedsnet.Base.{
  min, ◌^◌, ℕ, u64_max, ◌-◌, not, ◌≢◌, ◌*◌, ◌≤◌, ◌+◌, name_eq, arith, get, Name, saturate, ◌+ℤ◌,
  ◌≤ℤ◌, negsuc, IsSorted, pos, ◌⊎◌, ◌≡◌, refl, false, true, ◌∷◌, [], some, none,
}
use sedsnet.Errors.{err, ok, io, Result}
use sedsnet.TimeSync.Learned.{handle_announce-Learned, Learned, IsTracked}
use sedsnet.TimeSync.Tracker.{
  best_active_source, source, TimeSyncUpdate, leader, default_config, TimeSyncConfig,
  TimeSyncAnnounceFields, TimeSyncTracker,
}
use sedsnet.TimeSync.Election.{one_leader, leader-IsElected, is_local, IsElected}
use sedsnet.TimeSync.Announce.{handle_announce, heard}
use sedsnet.TimeSync.Exchange.{compute_network_time_sample_error}
use sedsnet.TimeSync.Reading.{current_time_some, try_update_source_lem}
use sedsnet.TimeSync.Samples.{compute_network_time_sample}
use sedsnet.TimeSync.Sources.{current_time, try_update_source, NetworkClock, NetworkTimeSourceState}
use sedsnet.PeerRecord.{Memory}
use sedsnet.TimeSync.Rank.{best_of}
use sedsnet.TimeSync.RoundTrip.{as_unix_ms-from_unix_ms}
use sedsnet.TimeSync.Calendar.{as_unix_ms, from_unix_ms, partial_of, to_network_time, NetworkTime}
use sedsnet.TimeSync.Slew.{read_unix_ns_mono}
use sedsnet.TimeSync.Clock.{read_unix_ns, SlewedNetworkClock}

-- One millisecond after the epoch.
abbrev first_ms : NetworkTime
first_ms = record {
  year = pos 1970;
  month = 1;
  day = 1;
  hour = 0;
  minute = 0;
  second = 0;
  nanosecond = 1_000_000;
}

as_unix_ms-from_unix_ms_example :
    (t : NetworkTime) × (to_network_time (from_unix_ms 1_709_164_800_000) ≡ some t)
    × (as_unix_ms t ≡ some 1_709_164_800_000)
as_unix_ms-from_unix_ms_example = as_unix_ms-from_unix_ms 1_709_164_800_000 (omega arith)

-- A clock at 2000 ms, anchored at 1 ms.
abbrev ticking : SlewedNetworkClock
ticking = record {
  anchor_mono_ns = 1_000_000;
  anchor_unix_ns = pos 2_000_000_000;
  pending_adjust_ns = negsuc 999;
  max_slew_ppm = 50_000;
  initialized = true;
}

reads_start : read_unix_ns ticking 1_000_000 ≡ some (pos 2_000_000_000)
unfolding read_unix_ns ◌+ℤ◌ saturate
reads_start = refl

reads_later : read_unix_ns ticking 1_000_100 ≡ some (pos 2_000_000_095)
unfolding read_unix_ns ◌+ℤ◌ saturate
reads_later = refl

read_unix_ns_mono_example : pos 2_000_000_000 ≤ℤ pos 2_000_000_095
read_unix_ns_mono_example =
    read_unix_ns_mono ticking 1_000_000 1_000_100
      (record { rate = omega arith; below = omega arith; above = omega arith }) (omega arith)
      (omega arith) reads_start reads_later

abbrev roomy : Memory
roomy = record { try_box = true; try_string = λ _. true }

-- Two sources of complete time, and one that knows the hour only.
abbrev alpha : NetworkTimeSourceState
alpha = record {
  priority = 10;
  updated_mono_ms = 0;
  anchor_mono_ns = 0;
  ttl_ms = none;
  time = partial_of first_ms;
}

abbrev two_sources : NetworkClock
two_sources = (97 ∷ [], alpha) ∷ (98 ∷ [], record alpha { priority = 5 }) ∷ []

two_sources-IsSorted : IsSorted two_sources
two_sources-IsSorted = ((refl, tt), (tt, tt))

current_time_some_example : current_time 0 two_sources ≢ none
current_time_some_example =
    current_time_some 0 (97 ∷ [], alpha) ((98 ∷ [], record alpha { priority = 5 }) ∷ [])

try_update_source_lem_example :
    (after : NetworkClock) × (res : Result (Unit {0})) × (try_update_source roomy
        (99 ∷ [])
        alpha
        two_sources
      ≡ some (after, res))
    × IsSorted after
    × ((res ≡ ok tt)
          × (get after (99 ∷ []) ≡ some alpha)
          × ((other : Name)
              → name_eq other (99 ∷ []) ≡ false
              → get after other ≡ get two_sources other)
        ⊎ ((res ≡ err (io "memory pressure"))
            × (after ≡ two_sources)
            × (get two_sources (99 ∷ []) ≡ none)))
try_update_source_lem_example =
    try_update_source_lem roomy (99 ∷ []) alpha two_sources two_sources-IsSorted

abbrev offers : TimeSyncConfig
offers = record default_config { role = source }

-- Two nodes with the same priority that have heard of each other.
abbrev announced : TimeSyncAnnounceFields
announced = record { priority = 100; time_ms = 7 }

abbrev node_a : TimeSyncTracker
node_a = record {
  cfg = offers;
  local_id = 97 ∷ [];
  sources = (98 ∷ [], heard (98 ∷ []) announced 0) ∷ [];
  current_source_id = none;
}

abbrev node_b : TimeSyncTracker
node_b = record {
  cfg = offers;
  local_id = 98 ∷ [];
  sources = (97 ∷ [], heard (97 ∷ []) announced 0) ∷ [];
  current_source_id = none;
}

node_a-IsTracked : IsTracked node_a
node_a-IsTracked = record { sorted = (tt, tt); keyed = (refl, tt); foreign = (refl, tt) }

leader-IsElected_example : IsElected 0 true node_a (leader 0 true node_a)
leader-IsElected_example = leader-IsElected 0 true node_a

a_hears : best_active_source 0 node_a ≡ some (heard (98 ∷ []) announced 0)
unfolding best_active_source best_of
a_hears = refl

b_hears : best_active_source 0 node_b ≡ some (heard (97 ∷ []) announced 0)
unfolding best_active_source best_of
b_hears = refl

one_leader_example : is_local (leader 0 true node_a) ≡ not (is_local (leader 0 false node_b))
one_leader_example =
    one_leader 0 true false node_a node_b refl refl refl a_hears b_hears (refl, refl) (refl, refl)

handle_announce-Learned_example :
    (after : TimeSyncTracker) × (res : Result TimeSyncUpdate) × (handle_announce roomy
        (99 ∷ [])
        (ok announced)
        3
        node_a
      ≡ some (after, res))
    × IsTracked after
    × Learned (99 ∷ []) announced 3 node_a after res
handle_announce-Learned_example =
    handle_announce-Learned roomy (99 ∷ []) announced 3 node_a node_a-IsTracked refl

-- The server's clock stands ten milliseconds before the last `u64`, and half of the way there is past it.
abbrev late_answer : ℕ × ℕ
late_answer = compute_network_time_sample 0 (2 ^ 64 - 10) (2 ^ 64 - 10) 100

compute_network_time_sample_error_example :
    (late_answer.0 ≤ u64_max)
    × (2 * late_answer.0 ≤ 2 * (2 ^ 64 - 10) + 100)
    × (2 * min (2 ^ 64 - 10) u64_max ≤ 2 * late_answer.0 + 0 + 1)
compute_network_time_sample_error_example =
    compute_network_time_sample_error 0 (2 ^ 64 - 10) 100 0 0
