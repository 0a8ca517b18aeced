-- ===== src/TimeSync/Tracker.antt =====
-- `TimeSyncTracker` of src/timesync.rs. The device's identifier and the decoded packet are given;
-- `none` is a failed `expect`.
use sedsnet.Base.{
  name_eq, retain, leb, get, any, is_some, not, map, ℕ, Bool, List, Name, Option, if◌then◌else◌,
  ◌==◌, ◌&&◌, ◌-◌, false, true, [], some, none,
}
use sedsnet.TimeSync.Rank.{best_of, ahead}

pub data TimeSyncRole : Type 0 where
  consumer : TimeSyncRole
  source : TimeSyncRole
  auto : TimeSyncRole

pub record TimeSyncConfig : Type 0 where
  pub role : TimeSyncRole
  pub priority : ℕ
  pub source_timeout_ms : ℕ
  pub announce_interval_ms : ℕ
  pub request_interval_ms : ℕ
  pub consumer_promotion_enabled : Bool
  pub max_slew_ppm : ℕ

abbrev pub default_config : TimeSyncConfig
default_config = record {
  role = consumer;
  priority = 100;
  source_timeout_ms = 5000;
  announce_interval_ms = 1000;
  request_interval_ms = 1000;
  consumer_promotion_enabled = true;
  max_slew_ppm = 50_000;
}

pub record TimeSyncSource : Type 0 where
  pub sender : Name
  pub priority : ℕ
  pub last_announce_ms : ℕ
  pub last_time_ms : ℕ

pub data TimeSyncLeader : Type 0 where
  local : ℕ → TimeSyncLeader
  remote : TimeSyncSource → TimeSyncLeader

pub data TimeSyncUpdate : Type 0 where
  no_change : TimeSyncUpdate
  source_changed : TimeSyncUpdate

pub record TimeSyncAnnounceFields : Type 0 where
  pub priority : ℕ
  pub time_ms : ℕ

pub record TimeSyncTracker : Type 0 where
  pub cfg : TimeSyncConfig
  pub local_id : Name
  pub sources : List (Name × TimeSyncSource)
  pub current_source_id : Option Name

abbrev pub new : TimeSyncConfig → Name → TimeSyncTracker
new cfg local_id = record { cfg = cfg; local_id = local_id; sources = []; current_source_id = none }

abbrev pub source_is_active : ℕ → ℕ → TimeSyncSource → Bool
source_is_active now_ms timeout_ms src = leb (now_ms - src.last_announce_ms) timeout_ms

abbrev pub remote_ahead : TimeSyncSource → TimeSyncSource → Bool
remote_ahead a b = ahead a.priority a.sender b.priority b.sender

abbrev pub values : List (Name × TimeSyncSource) → List TimeSyncSource
values m = map (λ e. e.1) m

abbrev pub current_source : TimeSyncTracker → Option TimeSyncSource
current_source t = elim t.current_source_id [ none ↦ none | some id ↦ get t.sources id ]

unfoldable pub best_active_source : ℕ → TimeSyncTracker → Option TimeSyncSource
best_active_source now_ms t =
    best_of remote_ahead (source_is_active now_ms t.cfg.source_timeout_ms) none (values t.sources)

unfoldable pub local_candidate_priority : ℕ → Bool → TimeSyncTracker → Option ℕ
local_candidate_priority now_ms has_usable_time t =
    let alone = not (is_some (best_active_source now_ms t)) in
    elim t.cfg.role [
      | consumer ↦
          if has_usable_time && t.cfg.consumer_promotion_enabled && alone
          then some t.cfg.priority
          else none
      | source ↦ some t.cfg.priority
      | auto ↦ if has_usable_time && alone then some t.cfg.priority else none
    ]

-- The two candidates' election.
abbrev pub elect : Name → Option ℕ → Option TimeSyncSource → Option TimeSyncLeader
elect local_id (some priority) (some r) =
    if ahead priority local_id r.priority r.sender then some (local priority) else some (remote r)
elect local_id (some priority) none = some (local priority)
elect local_id none (some r) = some (remote r)
elect local_id none none = none

unfoldable pub leader : ℕ → Bool → TimeSyncTracker → Option TimeSyncLeader
leader now_ms has_usable_time t =
    elect t.local_id (local_candidate_priority now_ms has_usable_time t)
      (best_active_source now_ms t)

-- The tie test of `local_announce_priority`.
abbrev pub tie_exists : ℕ → ℕ → TimeSyncTracker → Bool
tie_exists now_ms priority t =
    any (λ s. source_is_active now_ms t.cfg.source_timeout_ms s && (s.priority == priority))
      (values t.sources)

unfoldable pub local_announce_priority : ℕ → Bool → TimeSyncTracker → Option ℕ
local_announce_priority now_ms has_usable_time t = elim (leader now_ms has_usable_time t) [
  | none ↦ none
  | some (remote _) ↦ none
  | some (local priority) ↦ some (if tie_exists now_ms priority t then priority - 1 else priority)
]

abbrev pub should_announce : ℕ → Bool → TimeSyncTracker → Bool
should_announce now_ms has_usable_time t =
    is_some (local_announce_priority now_ms has_usable_time t)

abbrev pub should_serve : ℕ → Bool → TimeSyncTracker → Bool
should_serve now_ms has_usable_time t = should_announce now_ms has_usable_time t

abbrev pub is_source_active : ℕ → TimeSyncTracker → Bool
is_source_active now_ms t = elim (current_source t) [
  | none ↦ false
  | some s ↦ source_is_active now_ms t.cfg.source_timeout_ms s
]

abbrev pub same_id : Option Name → Option Name → Bool
same_id none none = true
same_id none (some b) = false
same_id (some a) none = false
same_id (some a) (some b) = name_eq a b

unfoldable pub reselect_source : ℕ → TimeSyncTracker → TimeSyncTracker × TimeSyncUpdate
reselect_source now_ms t =
    let next : Option Name = elim (best_active_source now_ms t) [
      | none ↦ none
      | some s ↦ some s.sender
    ] in
    (
      record t { current_source_id = next },
      if same_id next t.current_source_id then no_change else source_changed,
    )

unfoldable pub refresh : ℕ → TimeSyncTracker → TimeSyncTracker × TimeSyncUpdate
unfolding reselect_source
refresh now_ms t =
    reselect_source now_ms
      (record t { sources = retain t.sources (source_is_active now_ms t.cfg.source_timeout_ms) })
