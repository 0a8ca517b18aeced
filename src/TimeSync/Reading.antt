-- ===== src/TimeSync/Reading.antt =====
-- `NetworkClock` of src/timesync.rs: which source is used, what an update changes, and that there is
-- always a reading.
use sedsnet.Errors.{err, ok, io, Result}
use sedsnet.PeerRecord.{commit-prepare, prepare_refuses, commit, prepare, Prepared, Memory}
use sedsnet.TimeSync.Calendar.{
  advance_network_time, is_complete_time, all_three, is_complete_date, PartialNetworkTime,
  to_network_time,
}
use sedsnet.Base.{
  ap, arith, if_ind, is_some, Option, opt_ind, ◌&&◌, ◌≢◌, ◌-◌, true, inr, inl, none, name_eq, get,
  IsSorted, Bool, Name, ℕ, ◌⊎◌, ◌≡◌, refl, false, ◌∷◌, some,
}
use sedsnet.TimeSync.Sources.{
  time_anchor, merged_time, or_option, full_reading, merged_reading, source_ahead, NetworkClock,
  NetworkTimeSourceState, current_time, best_source, try_update_source,
}
use sedsnet.TimeSync.Rank.{ahead_negtrans, ahead_asym, best_of-IsBest, IsBest}

-- The chosen source passes the test, and no other that does has a lower priority number, or the same
-- number and a smaller name.
pub best_source-IsBest :
    (predicate : NetworkTimeSourceState → Bool) (sources : NetworkClock)
    {b : Name × NetworkTimeSourceState}
    → best_source predicate sources ≡ some b
    → IsBest source_ahead (λ e. predicate e.1) sources b
unfolding best_source
best_source-IsBest predicate sources e =
    best_of-IsBest source_ahead (λ e. predicate e.1)
      (λ x y h. ahead_asym x.1.priority y.1.priority x.0 y.0 h)
      (λ x y z h k. ahead_negtrans x.1.priority y.1.priority z.1.priority x.0 y.0 z.0 h k) sources e

all_three_some {ℓ κ μ} :
    {A : Type ℓ} {B : Type κ} {C : Type μ} (a : Option A) (b : Option B) (c : Option C)
    → is_some a && is_some b && is_some c ≡ true
    → all_three a b c ≢ none
all_three_some (some a) (some b) (some c) h = λ e. cc
all_three_some (some a) (some b) none h = absurd (cc)
all_three_some (some a) none c h = absurd (cc)
all_three_some none b c h = absurd (cc)

to_network_time_some :
    (p : PartialNetworkTime)
    → is_complete_date p ≡ true
    → is_complete_time p ≡ true
    → to_network_time p ≢ none
unfolding to_network_time
to_network_time_some p d t =
    opt_ind (λ o. o ≢ none) (all_three p.year p.month p.day)
      (λ e. absurd (all_three_some p.year p.month p.day d e))
      λ date _.
        opt_ind (λ o. o ≢ none) (all_three p.hour p.minute p.second)
          (λ e. absurd (all_three_some p.hour p.minute p.second t e)) λ time _ e. cc

merged_reading_some :
    (now : ℕ) (p : PartialNetworkTime) (anchor : Option ℕ) → merged_reading now p anchor ≢ none
unfolding merged_reading
merged_reading_some now p none = λ e. cc
merged_reading_some now p (some anchor) =
    let completed : PartialNetworkTime = record p {
      nanosecond = or_option p.nanosecond (some 0);
    } in
    if_ind (λ o. o ≢ none) (is_complete_date p && is_complete_time p)
      (λ complete.
        opt_ind (λ o. o ≢ none) (to_network_time completed)
          (λ e. absurd (to_network_time_some completed (ground arith) (ground arith) e))
          λ base _.
            opt_ind (λ o. o ≢ none) (advance_network_time base (now - anchor)) (λ _ e. cc)
              λ _ _ e. cc)
      λ _ e. cc

-- A clock with sources always has a reading, complete or partial.
pub current_time_some :
    (now : ℕ) (s : Name × NetworkTimeSourceState) (rest : NetworkClock)
    → current_time now (s ∷ rest) ≢ none
unfolding current_time
current_time_some now s rest =
    opt_ind (λ o. o ≢ none) (full_reading now (s ∷ rest))
      (λ _ e. merged_reading_some now (merged_time (s ∷ rest)) (time_anchor (s ∷ rest)) e)
      λ r _ e. cc

-- On a clock in the order of its names an update commits or leaves the clock as it was, and no
-- assertion fails. After a commit the source has the new state and the others their own; only a new
-- source can be refused.
pub try_update_source_lem :
    (mem : Memory) (source : Name) (state : NetworkTimeSourceState) (sources : NetworkClock)
    → IsSorted sources
    → (after : NetworkClock) × (res : Result (Unit {0})) × (try_update_source mem source state
          sources
        ≡ some (after, res))
      × IsSorted after
      × ((res ≡ ok tt)
            × (get after source ≡ some state)
            × ((other : Name) → name_eq other source ≡ false → get after other ≡ get sources other)
          ⊎ ((res ≡ err (io "memory pressure")) × (after ≡ sources) × (get sources source ≡ none)))
unfolding try_update_source
try_update_source_lem mem source state sources s = decide (prepare mem sources source state) refl
  where
    Done : Option (NetworkClock × Result (Unit {0})) → Type 0
    Done r =
        (after : NetworkClock) × (res : Result (Unit {0})) × (r ≡ some (after, res))
        × IsSorted after
        × ((res ≡ ok tt)
              × (get after source ≡ some state)
              × ((other : Name)
                  → name_eq other source ≡ false
                  → get after other ≡ get sources other)
            ⊎ ((res ≡ err (io "memory pressure"))
                × (after ≡ sources)
                × (get sources source ≡ none)))

    decide :
        (p : Result (Prepared NetworkTimeSourceState))
        → prepare mem sources source state ≡ p
        → Done (elim p [
          | err e ↦ some (sources, err e)
          | ok update ↦ elim (commit update sources) [
            | none ↦ none
            | some after ↦ some (after, ok tt)
          ]
        ])
    decide (err x) e =
        let (absent, pressure) = prepare_refuses mem sources source state x e in
        (sources, err x, refl, s, inr (ap err pressure, refl, absent))
    decide (ok update) e =
        let (after, whole, here, others, sorted) = commit-prepare mem sources source state s e in
        (after, ok tt, rw whole, sorted, inl (refl, here, others))
