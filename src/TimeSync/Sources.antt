-- ===== src/TimeSync/Sources.antt =====
-- `NetworkClock` of src/timesync.rs: the named sources and the reading that they make up. A source
-- update goes through src/peer_record.rs; `none` is a failed `expect` there.
use sedsnet.PeerRecord.{commit, prepare, Memory}
use sedsnet.TimeSync.Calendar.{
  advance_network_time, to_network_time, as_unix_ms, is_complete_time, partial_of, is_complete_date,
  PartialNetworkTime, NetworkTime,
}
use sedsnet.TimeSync.Rank.{ahead, best_of}
use sedsnet.Base.{
  is_some, retain, remove, leb, ℕ, Name, Option, List, Bool, if◌then◌else◌, ◌&&◌, ◌-◌, true, ◌∷◌,
  [], some, none,
}
use sedsnet.Errors.{Result, err, ok}

pub record NetworkTimeSourceState : Type 0 where
  pub priority : ℕ
  pub updated_mono_ms : ℕ
  pub anchor_mono_ns : ℕ
  pub ttl_ms : Option ℕ
  pub time : PartialNetworkTime

-- The sources in the order of their names.
abbrev pub NetworkClock : Type 0
NetworkClock = List (Name × NetworkTimeSourceState)

pub record NetworkTimeReading : Type 0 where
  pub time : PartialNetworkTime
  pub unix_time_ms : Option ℕ

unfoldable pub try_update_source :
    Memory
    → Name
    → NetworkTimeSourceState
    → NetworkClock
    → Option (NetworkClock × Result (Unit {0}))
try_update_source mem source state sources = elim (prepare mem sources source state) [
  | err e ↦ some (sources, err e)
  | ok update ↦ elim (commit update sources) [ none ↦ none | some after ↦ some (after, ok tt) ]
]

-- The result is dropped.
unfoldable pub update_source :
    Memory → Name → NetworkTimeSourceState → NetworkClock → Option NetworkClock
unfolding try_update_source
update_source mem source state sources = elim (try_update_source mem source state sources) [
  | none ↦ none
  | some (after, _) ↦ some after
]

unfoldable pub remove_source : Name → NetworkClock → NetworkClock
remove_source source sources = remove sources source

abbrev pub is_live : ℕ → NetworkTimeSourceState → Bool
is_live now_mono_ms src = elim src.ttl_ms [
  | none ↦ true
  | some ttl ↦ leb (now_mono_ms - src.updated_mono_ms) ttl
]

unfoldable pub prune_expired : ℕ → NetworkClock → NetworkClock
prune_expired now_mono_ms sources = retain sources (is_live now_mono_ms)

abbrev pub source_ahead : Name × NetworkTimeSourceState → Name × NetworkTimeSourceState → Bool
source_ahead (name, src) (best_name, best_src) = ahead src.priority name best_src.priority best_name

unfoldable pub best_source :
    (NetworkTimeSourceState → Bool) → NetworkClock → Option (Name × NetworkTimeSourceState)
best_source predicate sources = best_of source_ahead (λ e. predicate e.1) none sources

-- A field of the best source that has it, and that source's anchor.
abbrev pub field_of {ℓ} : {A : Type ℓ} → (PartialNetworkTime → Option A) → NetworkClock → Option A
field_of field sources = elim (best_source (λ s. is_some (field s.time)) sources) [
  | none ↦ none
  | some (_, src) ↦ field src.time
]

abbrev pub anchor_of {ℓ} : {A : Type ℓ} → (PartialNetworkTime → Option A) → NetworkClock → Option ℕ
anchor_of field sources = elim (best_source (λ s. is_some (field s.time)) sources) [
  | none ↦ none
  | some (_, src) ↦ some src.anchor_mono_ns
]

abbrev pub or_option {ℓ} : {A : Type ℓ} → Option A → Option A → Option A
or_option none o = o
or_option (some a) o = some a

abbrev pub complete_reading : NetworkTime → NetworkTimeReading
complete_reading advanced = record {
  time = partial_of advanced;
  unix_time_ms = as_unix_ms advanced;
}

-- The reading of the best source that is complete on its own.
unfoldable pub full_reading : ℕ → NetworkClock → Option NetworkTimeReading
full_reading now_mono_ns sources =
    elim (best_source (λ s. is_some (to_network_time s.time)) sources) [
      | none ↦ none
      | some (_, src) ↦ elim (to_network_time src.time) [
        | none ↦ none
        | some base ↦ elim (advance_network_time base (now_mono_ns - src.anchor_mono_ns)) [
          | none ↦ none
          | some advanced ↦ some (complete_reading advanced)
        ]
      ]
    ]

unfoldable pub merged_time : NetworkClock → PartialNetworkTime
merged_time sources = record {
  year = field_of (λ p. p.year) sources;
  month = field_of (λ p. p.month) sources;
  day = field_of (λ p. p.day) sources;
  hour = field_of (λ p. p.hour) sources;
  minute = field_of (λ p. p.minute) sources;
  second = field_of (λ p. p.second) sources;
  nanosecond = field_of (λ p. p.nanosecond) sources;
}

-- `second.or(minute).or(hour)`, of which only the anchor is used.
unfoldable pub time_anchor : NetworkClock → Option ℕ
time_anchor sources =
    or_option (or_option (anchor_of (λ p. p.second) sources) (anchor_of (λ p. p.minute) sources))
      (anchor_of (λ p. p.hour) sources)

-- The reading that is put together from the fields. The inner `none` is the `?` on the conversion.
unfoldable pub merged_reading : ℕ → PartialNetworkTime → Option ℕ → Option NetworkTimeReading
merged_reading now_mono_ns merged none = some (record { time = merged; unix_time_ms = none })
merged_reading now_mono_ns merged (some anchor) =
    let completed : PartialNetworkTime = record merged {
      nanosecond = or_option merged.nanosecond (some 0);
    } in
    if is_complete_date merged && is_complete_time merged
    then elim (to_network_time completed) [
      | none ↦ none
      | some base ↦ elim (advance_network_time base (now_mono_ns - anchor)) [
        | none ↦ some (record { time = completed; unix_time_ms = none })
        | some advanced ↦ some (complete_reading advanced)
      ]
    ]
    else some (record { time = merged; unix_time_ms = none })

unfoldable pub current_time : ℕ → NetworkClock → Option NetworkTimeReading
unfolding full_reading merged_time time_anchor merged_reading
current_time now_mono_ns [] = none
current_time now_mono_ns (s ∷ rest) = elim (full_reading now_mono_ns (s ∷ rest)) [
  | some reading ↦ some reading
  | none ↦ merged_reading now_mono_ns (merged_time (s ∷ rest)) (time_anchor (s ∷ rest))
]
