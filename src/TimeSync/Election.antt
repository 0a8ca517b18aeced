-- ===== src/TimeSync/Election.antt =====
-- The election of `TimeSyncTracker` (src/timesync.rs).
use sedsnet.TimeSync.Rank.{
  ahead_total, ahead_asym, ahead_negtrans, best_of-IsBest, ahead, best_of_missing, IsBest,
}
use sedsnet.Base.{
  arith, Bool-cases, Name, ap, inr, inl, sym, some-injective, subst, not, name_eq, if_ind, Bool,
  All, Option, ℕ, List, ◌∙◌, ◌≡◌, refl, false, true, ◌∷◌, [], some, none,
}
use sedsnet.TimeSync.Tracker.{
  remote_ahead, remote, values, source, elect, TimeSyncSource, local, source_is_active,
  TimeSyncLeader, local_candidate_priority, TimeSyncTracker, leader, best_active_source,
}

-- The best active source is active, and no other active one comes before it.
pub best_active_source-IsBest :
    (now : ℕ) (t : TimeSyncTracker) {b : TimeSyncSource}
    → best_active_source now t ≡ some b
    → IsBest remote_ahead (source_is_active now t.cfg.source_timeout_ms) (values t.sources) b
unfolding best_active_source
best_active_source-IsBest now t e =
    best_of-IsBest remote_ahead (source_is_active now t.cfg.source_timeout_ms)
      (λ x y h. ahead_asym x.priority y.priority x.sender y.sender h)
      (λ x y z h k. ahead_negtrans x.priority y.priority z.priority x.sender y.sender z.sender h k)
      (values t.sources) e

best_active_source_missing :
    (now : ℕ) (t : TimeSyncTracker)
    → best_active_source now t ≡ none
    → All (λ s. source_is_active now t.cfg.source_timeout_ms s ≡ false) (values t.sources)
unfolding best_active_source
best_active_source_missing now t e = best_of_missing remote_ahead _ (values t.sources) e

-- What an election's outcome means. A local leader is a candidate that every active source comes
-- after; a remote leader is the best active source, and a local candidate is not before it; without a
-- leader there is neither a candidate nor an active source.
abbrev pub IsElected : ℕ → Bool → TimeSyncTracker → Option TimeSyncLeader → Type 0
IsElected now h t none =
    (local_candidate_priority now h t ≡ none)
    × All (λ s. source_is_active now t.cfg.source_timeout_ms s ≡ false) (values t.sources)
IsElected now h t (some (local p)) =
    (local_candidate_priority now h t ≡ some p)
    × All
        (λ s.
          source_is_active now t.cfg.source_timeout_ms s ≡ true
          → ahead s.priority s.sender p t.local_id ≡ false)
        (values t.sources)
IsElected now h t (some (remote r)) =
    IsBest remote_ahead (source_is_active now t.cfg.source_timeout_ms) (values t.sources) r
    × ((p : ℕ)
        → local_candidate_priority now h t ≡ some p
        → ahead p t.local_id r.priority r.sender ≡ false)

All-imp {ℓ κ} :
    {A : Type ℓ} {P Q : A → Type κ} (xs : List A) → ((x : A) → P x → Q x) → All P xs → All Q xs
All-imp [] f a = tt
All-imp (x ∷ xs) f a = (f x a.0, All-imp xs f a.1)

-- The election is right in every case: a local leader is a candidate that no active source comes
-- before; a remote leader is the best active source, and a local candidate does not come before it;
-- without a leader there is neither a candidate nor an active source.
pub leader-IsElected :
    (now : ℕ) (h : Bool) (t : TimeSyncTracker) → IsElected now h t (leader now h t)
unfolding leader
leader-IsElected now h t =
    decide (local_candidate_priority now h t) (best_active_source now t) refl refl
  where
    decide :
        (c : Option ℕ) (r : Option TimeSyncSource)
        → local_candidate_priority now h t ≡ c
        → best_active_source now t ≡ r
        → IsElected now h t (elect t.local_id c r)
    decide none none c r = (c, best_active_source_missing now t r)
    decide none (some s) c r = (best_active_source-IsBest now t r, λ p e. absurd (cc))
    decide (some p) none c r =
        (c, All-imp (values t.sources) (λ s f a. absurd (cc)) (best_active_source_missing now t r))
    decide (some p) (some s) c r =
        let best = best_active_source-IsBest now t r in
        if_ind (IsElected now h t) (ahead p t.local_id s.priority s.sender)
          (λ first. (
            c,
            All-imp (values t.sources)
                (λ x behind a.
                  ahead_negtrans x.priority s.priority p x.sender s.sender t.local_id (behind a)
                    (ahead_asym p s.priority t.local_id s.sender first))
                best.least,
          ))
          λ second. (
            best,
            λ q e.
                subst (λ n. ahead n t.local_id s.priority s.sender ≡ false)
                  (some-injective _ _ (sym c ∙ e)) second,
          )

-- The leader that a tracker sees is the local node.
abbrev pub is_local : Option TimeSyncLeader → Bool
is_local none = false
is_local (some (local p)) = true
is_local (some (remote r)) = false

candidate :
    (now : ℕ) (h : Bool) (t : TimeSyncTracker)
    → t.cfg.role ≡ source
    → local_candidate_priority now h t ≡ some t.cfg.priority
unfolding local_candidate_priority
candidate now h t a = rw (a, local_candidate_priority)

leads :
    (now : ℕ) (h : Bool) (t : TimeSyncTracker) {r : TimeSyncSource}
    → t.cfg.role ≡ source
    → best_active_source now t ≡ some r
    → is_local (leader now h t) ≡ ahead t.cfg.priority t.local_id r.priority r.sender
unfolding leader
leads now h t {r} a e =
    rw (candidate now h t a, leader)
      (rw (e, leader)
        (if_ind (λ o. is_local o ≡ ahead t.cfg.priority t.local_id r.priority r.sender)
          (ahead t.cfg.priority t.local_id r.priority r.sender) (λ f. sym f) (λ f. sym f)))

one_first : (p q : ℕ) (a b : Name) → name_eq a b ≡ false → ahead p a q b ≡ not (ahead q b p a)
one_first p q a b apart = elim (Bool-cases (ahead p a q b)) [
  | inl e ↦ ground (arith, e, ahead_asym p q a b e)
  | inr e ↦ ground (arith, e, ahead_total p q a b apart e)
]

-- Two nodes with different names that both offer their time, and whose best source is the other one
-- with the priority that it has, agree: exactly one of them leads.
pub one_leader :
    (now : ℕ) (h k : Bool) (t u : TimeSyncTracker) {r s : TimeSyncSource}
    → t.cfg.role ≡ source
    → u.cfg.role ≡ source
    → name_eq t.local_id u.local_id ≡ false
    → best_active_source now t ≡ some r
    → best_active_source now u ≡ some s
    → (r.sender ≡ u.local_id) × (r.priority ≡ u.cfg.priority)
    → (s.sender ≡ t.local_id) × (s.priority ≡ t.cfg.priority)
    → is_local (leader now h t) ≡ not (is_local (leader now k u))
one_leader now h k t u {r} {s} a b apart e f hears heard =
    leads now h t a e
    ∙ ap (λ n. ahead t.cfg.priority t.local_id r.priority n) hears.0
    ∙ ap (λ q. ahead t.cfg.priority t.local_id q u.local_id) hears.1
    ∙ one_first t.cfg.priority u.cfg.priority t.local_id u.local_id apart
    ∙ ap not (
        sym (
          leads now k u b f
          ∙ ap (λ n. ahead u.cfg.priority u.local_id s.priority n) heard.0
          ∙ ap (λ q. ahead u.cfg.priority u.local_id q t.local_id) heard.1))
