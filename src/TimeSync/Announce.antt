-- ===== src/TimeSync/Announce.antt =====
-- How `TimeSyncTracker` of src/timesync.rs takes in an announcement. The change is staged
-- (src/peer_record.rs); `none` is a failed `expect`.
use sedsnet.Errors.{io, Result, err, ok}
use sedsnet.TimeSync.Tracker.{
  reselect_source, no_change, TimeSyncUpdate, TimeSyncSource, TimeSyncAnnounceFields,
  TimeSyncTracker,
}
use sedsnet.PeerRecord.{prepare, Prepared, commit, Memory}
use sedsnet.Base.{
  insert, is_some, get, name_eq, Option, ℕ, List, Name, Bool, if◌then◌else◌, ◌||◌, some, none,
}

pub record PreparedTrackerSource : Type 0 where
  pub ignore : Bool
  pub sender : Name
  pub priority : ℕ
  pub recv_ms : ℕ
  pub time_ms : ℕ
  pub insertion : Option (Prepared TimeSyncSource)

abbrev pub heard : Name → TimeSyncAnnounceFields → ℕ → TimeSyncSource
heard sender ann recv_ms = record {
  sender = sender;
  priority = ann.priority;
  last_announce_ms = recv_ms;
  last_time_ms = ann.time_ms;
}

-- `insert` of `prepare_source`.
unfoldable pub prepare_insert :
    Memory
    → Name
    → TimeSyncAnnounceFields
    → ℕ
    → TimeSyncTracker
    → Result (Option (Prepared TimeSyncSource))
prepare_insert mem sender ann recv_ms t =
    if name_eq sender t.local_id || is_some (get t.sources sender)
    then ok none
    else (if mem.try_string sender
        then elim (prepare mem t.sources sender (heard sender ann recv_ms)) [
          | err e ↦ err e
          | ok p ↦ ok (some p)
        ]
        else err (io "memory pressure"))

unfoldable pub prepare_source :
    Memory → Name → TimeSyncAnnounceFields → ℕ → TimeSyncTracker → Result PreparedTrackerSource
prepare_source mem sender ann recv_ms t = elim (prepare_insert mem sender ann recv_ms t) [
  | err e ↦ err e
  | ok insertion ↦ ok (record {
    ignore = name_eq sender t.local_id;
    sender = sender;
    priority = ann.priority;
    recv_ms = recv_ms;
    time_ms = ann.time_ms;
    insertion = insertion;
  })
]

-- The sources after the commit.
unfoldable pub commit_insert :
    PreparedTrackerSource → List (Name × TimeSyncSource) → Option (List (Name × TimeSyncSource))
commit_insert update sources = elim update.insertion [
  | some insertion ↦ commit insertion sources
  | none ↦ elim (get sources update.sender) [
    | none ↦ none
    | some src ↦ some (
        insert sources update.sender (record src {
          priority = update.priority;
          last_announce_ms = update.recv_ms;
          last_time_ms = update.time_ms;
        }))
  ]
]

unfoldable pub commit_source :
    PreparedTrackerSource → TimeSyncTracker → Option (TimeSyncTracker × TimeSyncUpdate)
commit_source update t =
    if update.ignore then some (t, no_change) else elim (commit_insert update t.sources) [
      | none ↦ none
      | some after ↦ some (reselect_source update.recv_ms (record t { sources = after }))
    ]

-- `decoded` is what `decode_timesync_announce` answers for the packet, and `sender` the packet's.
unfoldable pub handle_announce :
    Memory
    → Name
    → Result TimeSyncAnnounceFields
    → ℕ
    → TimeSyncTracker
    → Option (TimeSyncTracker × Result TimeSyncUpdate)
handle_announce mem sender decoded recv_ms t = elim decoded [
  | err e ↦ some (t, err e)
  | ok ann ↦
      if name_eq sender t.local_id
      then some (t, ok no_change)
      else elim (prepare_source mem sender ann recv_ms t) [
        | err e ↦ some (t, err e)
        | ok update ↦ elim (commit_source update t) [
          | none ↦ none
          | some (after, change) ↦ some (after, ok change)
        ]
      ]
]
