-- ===== src/TimeSync/Learned.antt =====
-- What an announcement changes in `TimeSyncTracker` (src/timesync.rs), and the tracker's invariant.
use sedsnet.Errors.{err, ok, TelemetryError, io, Result}
use sedsnet.Base.{
  Bool-cases, Option-cases, ap, get-insert_other, arith, is_some, get-insert_same, All-insert,
  if_ind, All-get, insert-IsSorted, insert, ◌||◌, ◌&&◌, inr, inl, Option, refl, get, List, name_eq,
  All, IsSorted, Name, ℕ, ◌⊎◌, ◌≡◌, false, some, none,
}
use sedsnet.PeerRecord.{commit, prepare, Memory, Prepared}
use sedsnet.TimeSync.Announce.{
  commit_insert, prepare_insert, commit_source, PreparedTrackerSource, prepare_source,
  handle_announce, heard,
}
use sedsnet.TimeSync.Tracker.{
  TimeSyncUpdate, TimeSyncSource, best_active_source, TimeSyncAnnounceFields, reselect_source,
  TimeSyncTracker,
}

-- The sources are in the order of their names, each is filed under its sender, and none is the node
-- itself.
pub record IsTracked (t : TimeSyncTracker) : Type 0 where
  pub sorted : IsSorted t.sources
  pub keyed : All (λ (e : Name × TimeSyncSource). e.1.sender ≡ e.0) t.sources
  pub foreign : All (λ (e : Name × TimeSyncSource). name_eq e.0 t.local_id ≡ false) t.sources

-- The selection at the time `now` is the best source that is active then.
abbrev pub IsSelected : ℕ → TimeSyncTracker → Type 0
IsSelected now t =
    t.current_source_id ≡ elim (best_active_source now t) [ none ↦ none | some s ↦ some s.sender ]

-- How an announcement of another node ends: refused for want of memory, with the tracker as it was,
-- which happens to a new source only; or learned, with every other source as it was and the best
-- active source selected.
abbrev pub Learned :
    Name
    → TimeSyncAnnounceFields
    → ℕ
    → TimeSyncTracker
    → TimeSyncTracker
    → Result TimeSyncUpdate
    → Type 0
Learned sender ann recv t after res =
    ((res ≡ err (io "memory pressure")) × (after ≡ t) × (get t.sources sender ≡ none))
    ⊎ ((change : TimeSyncUpdate) × (res ≡ ok change)
        × (get after.sources sender ≡ some (heard sender ann recv))
        × ((other : Name)
            → name_eq other sender ≡ false
            → get after.sources other ≡ get t.sources other)
        × IsSelected recv after)

-- What the two steps of `handle_announce` come to.
staged :
    Name → TimeSyncAnnounceFields → ℕ → Option (Prepared TimeSyncSource) → PreparedTrackerSource
staged sender ann recv insertion = record {
  ignore = false;
  sender = sender;
  priority = ann.priority;
  recv_ms = recv;
  time_ms = ann.time_ms;
  insertion = insertion;
}

handle_committed :
    (mem : Memory) (sender : Name) (ann : TimeSyncAnnounceFields) (recv : ℕ) (t : TimeSyncTracker)
    (insertion : Option (Prepared TimeSyncSource)) (sources : List (Name × TimeSyncSource))
    → name_eq sender t.local_id ≡ false
    → prepare_insert mem sender ann recv t ≡ ok insertion
    → commit_insert (staged sender ann recv insertion) t.sources ≡ some sources
    → let (after, change) = reselect_source recv (record t { sources = sources }) in
      handle_announce mem sender (ok ann) recv t ≡ some (after, ok change)
unfolding handle_announce prepare_source commit_source staged
handle_committed mem sender ann recv t insertion sources other e f =
    rw (other, handle_announce) (rw (e, handle_announce) (rw (other) (rw f)))

handle_refused :
    (mem : Memory) (sender : Name) (ann : TimeSyncAnnounceFields) (recv : ℕ) (t : TimeSyncTracker)
    (x : TelemetryError)
    → name_eq sender t.local_id ≡ false
    → prepare_insert mem sender ann recv t ≡ err x
    → handle_announce mem sender (ok ann) recv t ≡ some (t, err x)
unfolding handle_announce prepare_source
handle_refused mem sender ann recv t x other e = rw (other, handle_announce) (rw e)

insert_known :
    (mem : Memory) (sender : Name) (ann : TimeSyncAnnounceFields) (recv : ℕ) (t : TimeSyncTracker)
    {v : TimeSyncSource}
    → IsTracked t
    → get t.sources sender ≡ some v
    → (prepare_insert mem sender ann recv t ≡ ok none)
      × (commit_insert (staged sender ann recv none) t.sources
          ≡ some (insert t.sources sender (heard sender ann recv)))
unfolding prepare_insert commit_insert staged
insert_known mem sender ann recv t {v} tracked e =
    let own : v.sender ≡ sender = All-get _ t.sources sender tracked.keyed e in
    (
      if_ind (λ r. r ≡ ok none) (name_eq sender t.local_id || is_some (get t.sources sender))
          (λ _. refl) (λ f. absurd (ground (arith, ap is_some e))),
      rw (e, commit_insert)
          (ap
            (λ n. some (
              insert t.sources sender (record {
                sender = n;
                priority = ann.priority;
                last_announce_ms = recv;
                last_time_ms = ann.time_ms;
              })))
            own),
    )

insert_new :
    (mem : Memory) (sender : Name) (ann : TimeSyncAnnounceFields) (recv : ℕ) (t : TimeSyncTracker)
    → name_eq sender t.local_id ≡ false
    → get t.sources sender ≡ none
    → (prepare_insert mem sender ann recv t ≡ err (io "memory pressure"))
      ⊎ ((p : Prepared TimeSyncSource) × (prepare_insert mem sender ann recv t ≡ ok (some p))
          × (commit_insert (staged sender ann recv (some p)) t.sources
              ≡ some (insert t.sources sender (heard sender ann recv))))
unfolding prepare_insert commit_insert staged prepare commit
insert_new mem sender ann recv t other e =
    let Goal : Result (Option (Prepared TimeSyncSource)) → Type 0 = λ r.
      (r ≡ err (io "memory pressure"))
      ⊎ ((p : Prepared TimeSyncSource) × (r ≡ ok (some p))
          × (commit_insert (staged sender ann recv (some p)) t.sources
              ≡ some (insert t.sources sender (heard sender ann recv)))) in
    if_ind Goal (name_eq sender t.local_id || is_some (get t.sources sender))
      (λ f. absurd (ground (arith, ap is_some e)))
      λ _.
        if_ind Goal (mem.try_string sender)
          (λ name. rw e (elim (Bool-cases (mem.try_box && mem.try_string sender)) [
            | inl room ↦ rw room (inr (_, refl, refl))
            | inr full ↦ rw full (inl refl)
          ]))
          λ _. inl refl

-- After the announcement of another node a valid tracker is valid again, and it has either learned
-- the announcement, with every other source as it was and the best active source selected, or
-- refused it whole for want of memory, which happens to new sources only. No assertion fails.
pub handle_announce-Learned :
    (mem : Memory) (sender : Name) (ann : TimeSyncAnnounceFields) (recv : ℕ) (t : TimeSyncTracker)
    → IsTracked t
    → name_eq sender t.local_id ≡ false
    → (after : TimeSyncTracker) × (res : Result TimeSyncUpdate) × (handle_announce mem sender
          (ok ann)
          recv
          t
        ≡ some (after, res))
      × IsTracked after
      × Learned sender ann recv t after res
unfolding reselect_source best_active_source
handle_announce-Learned mem sender ann recv t v other = elim (Option-cases (get t.sources sender)) [
  | inl e ↦ elim (insert_new mem sender ann recv t other e) [
    | inl refused ↦ (
      t,
      err (io "memory pressure"),
      handle_refused mem sender ann recv t _ other refused,
      v,
      inl (refl, refl, e),
    )
    | inr (p, prepared, committed) ↦ learned (some p) prepared committed
  ]
  | inr (x, e) ↦
      let (prepared, committed) = insert_known mem sender ann recv t v e in
      learned none prepared committed
]
  where
    news : TimeSyncSource
    news = heard sender ann recv

    learned :
        (insertion : Option (Prepared TimeSyncSource))
        → prepare_insert mem sender ann recv t ≡ ok insertion
        → commit_insert (staged sender ann recv insertion) t.sources
          ≡ some (insert t.sources sender news)
        → (after : TimeSyncTracker) × (res : Result TimeSyncUpdate) × (handle_announce mem sender
              (ok ann)
              recv
              t
            ≡ some (after, res))
          × IsTracked after
          × Learned sender ann recv t after res
    learned insertion prepared committed = (
      _,
      _,
      handle_committed mem sender ann recv t insertion _ other prepared committed,
      record {
        sorted = insert-IsSorted t.sources sender news v.sorted;
        keyed = All-insert _ t.sources sender news refl v.keyed;
        foreign = All-insert _ t.sources sender news other v.foreign;
      },
      inr (
        _,
        refl,
        get-insert_same t.sources sender news,
        (λ n apart. get-insert_other t.sources sender n news apart),
        refl,
      ),
    )
