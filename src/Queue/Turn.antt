-- ===== src/Queue/Turn.antt =====
-- Fair selection in `BoundedDeque` (src/queue.rs). The caller's `priority_burst` goes in and comes
-- back; `eligible` may look at the whole ring.
use sedsnet.Base.{
  ℕ, suc, ◌+◌, min, max, Bool, true, false, not, ◌&&◌, ◌||◌, List, [], ◌∷◌, Option, none, some,
  if◌then◌else◌, get_elem?, head?, last?, drop, position, any, sat_add, ltb, leb, ◌==◌, u8_max,
  wrapping_sub8,
}
use sedsnet.Queue.Ring.{ByteCost, Flags, no_flags, only_active, Deque, pop_front, remove_pos}

-- `lower`, `lower_priority` and `best_distance` of the scan behind the first ready entry.
pub record Scan : Type 0 where
  pub lower : ℕ
  pub lower_priority : ℕ
  pub best_distance : ℕ

-- What a selection leaves: the ring, the burst and the chosen index with its ownership of a turn.
pub record Selected {ℓ} (T : Type ℓ) : Type ℓ where
  pub deque : Deque T
  pub burst : ℕ
  pub choice : Option (ℕ × Bool)

module _ {ℓ} {T : Type ℓ} (priority_of : T → ℕ) (eligible : T → Bool) where
  -- The loop over the entries behind the first ready one, whose index is `front`. `cursor` is
  -- `fair_priority_cursor`.
  unfoldable pub scan_lower : ℕ → ℕ → ℕ → ℕ → List T → Scan → Scan
  scan_lower cursor front front_priority index [] s = s
  scan_lower cursor front front_priority index (item ∷ items) s =
      let priority = priority_of item in
      let distance = wrapping_sub8 (wrapping_sub8 cursor priority) 1 in
      scan_lower cursor front front_priority (index + 1) items (
        if not (eligible item) || leb front_priority priority
        then s
        else (if (s.lower == front) || ltb distance s.best_distance
            then record { lower = index; lower_priority = priority; best_distance = distance }
            else s))

module _ {ℓ} {T : Type ℓ} (priority_of : T → ℕ) (eligible : List T → T → Bool) where
  -- The choice once the scan has ended.
  abbrev pub choose : ℕ → ℕ → ℕ → Scan → Deque T → Selected T
  choose burst max_burst front s d =
      if s.lower == front
      then record { deque = d; burst = 0; choice = some (front, false) }
      else (if leb max_burst burst
          then record {
            deque = record d { fair_priority_cursor = s.lower_priority };
            burst = 0;
            choice = some (s.lower, false);
          }
          else record { deque = d; burst = sat_add u8_max burst 1; choice = some (front, false) })

  unfoldable pub select_front_fair_with_context : ℕ → ℕ → Deque T → Selected T
  unfolding scan_lower
  select_front_fair_with_context burst max_burst d = elim (position (eligible d.q) d.q) [
    | none ↦ record { deque = d; burst = burst; choice = none }
    | some front ↦
        let front_priority : ℕ = elim (get_elem? d.q front) [
          | none ↦ 0
          | some item ↦ priority_of item
        ] in
        choose burst max_burst front
          (scan_lower priority_of (eligible d.q) d.fair_priority_cursor front front_priority
            (front + 1) (drop (front + 1) d.q)
            (record { lower = front; lower_priority = front_priority; best_distance = u8_max }))
          d
  ]

  -- The selection behind the owed turn in `select_front_fair_deferred`. A selection below a waiting
  -- priority opens a debt, unless one is open.
  unfoldable pub select_ordinary : ℕ → ℕ → Deque T → Selected T
  unfolding select_front_fair_with_context
  select_ordinary burst max_burst d =
      let s = select_front_fair_with_context burst max_burst d in
      elim s.choice [
        | none ↦ s
        | some (index, _) ↦
            let priority : ℕ = elim (get_elem? d.q index) [
              | none ↦ 0
              | some item ↦ priority_of item
            ] in
            let flags = d.fair_owed_flags in
            let kept = if flags.pending then min (max burst s.burst) max_burst else s.burst in
            if not (flags.pending || flags.active || flags.nested_admission)
              && any (λ item. ltb priority (priority_of item)) d.q
            then record {
              deque = record d {
                fair_owed_priority = priority;
                fair_owed_flags = record {
                  pending = true;
                  active = true;
                  nested_admission = false;
                };
              };
              burst = burst;
              choice = some (index, true);
            }
            else record { deque = s.deque; burst = kept; choice = some (index, false) }
      ]

  abbrev pub is_control : List T → T → Bool
  is_control q item = (priority_of item == u8_max) && eligible q item

  abbrev pub is_owed : ℕ → List T → T → Bool
  is_owed owed q item = (priority_of item == owed) && eligible q item

  -- The owed band, or, if it has left the queue, the ordinary selection with the debt cancelled.
  unfoldable pub serve_owed : ℕ → ℕ → Deque T → Selected T
  unfolding select_ordinary
  serve_owed burst max_burst d = elim (position (is_owed d.fair_owed_priority d.q) d.q) [
    | none ↦
        if any (λ item. priority_of item == d.fair_owed_priority) d.q
        then select_ordinary burst max_burst d
        else select_ordinary burst max_burst (record d { fair_owed_flags = no_flags })
    | some index ↦ record {
      deque = record d { fair_owed_flags = record d.fair_owed_flags { active = true } };
      burst = burst;
      choice = some (index, true);
    }
  ]

  -- The owed turn: a bounded control burst comes first.
  unfoldable pub select_owed : ℕ → ℕ → Deque T → Selected T
  unfolding serve_owed
  select_owed burst max_burst d =
      if ltb burst max_burst
      then elim (position (is_control d.q) d.q) [
        | none ↦ serve_owed burst max_burst d
        | some index ↦ record {
          deque = d;
          burst = sat_add u8_max burst 1;
          choice = some (index, false);
        }
      ]
      else serve_owed burst max_burst d

  unfoldable pub select_front_fair_deferred : ℕ → ℕ → Deque T → Selected T
  unfolding select_owed
  select_front_fair_deferred burst max_burst d =
      if d.fair_owed_flags.pending && not d.fair_owed_flags.active
      then select_owed burst max_burst d
      else select_ordinary burst max_burst d

-- The flags once a callback that does not own the turn has admitted work meanwhile.
abbrev pub note_nested : Bool → Bool → Flags → Flags
note_nested owns admitted f =
    if not owns && admitted && f.active then record f { nested_admission = true } else f

module _ {ℓ} {T : Type ℓ} where
  unfoldable pub cancel_deferred_turn : Deque T → Deque T
  cancel_deferred_turn d = record d { fair_owed_flags = only_active d.fair_owed_flags }

  unfoldable pub finish_deferred_turn : ℕ → Bool → Bool → Bool → ℕ → Deque T → Deque T × ℕ
  finish_deferred_turn priority owns admitted retained burst d =
      let flags = note_nested owns admitted d.fair_owed_flags in
      if not owns || not flags.active || not (d.fair_owed_priority == priority)
      then (record d { fair_owed_flags = flags }, burst)
      else (if admitted || not retained
          then (
            record d {
              fair_owed_flags = no_flags;
              fair_priority_cursor = if flags.pending then priority else d.fair_priority_cursor;
            },
            if flags.pending then 0 else burst,
          )
          else (
            record d {
              fair_owed_flags = record {
                pending = flags.pending;
                active = false;
                nested_admission = false;
              };
            },
            if flags.nested_admission then burst else 0,
          ))

module _ {ℓ} {T : Type ℓ} ⦃b : ByteCost T⦄ (priority_of : T → ℕ) where
  -- The index that the `while` loop of `pop_front_bulk_fair` stops at: the length, where no entry has
  -- the priority `lowest`.
  unfoldable pub first_at : ℕ → List T → ℕ
  first_at lowest [] = 0
  first_at lowest (item ∷ items) =
      if priority_of item == lowest then 0 else suc (first_at lowest items)

  unfoldable pub pop_front_bulk_fair : ℕ → ℕ → Deque T → (Deque T × Option T) × ℕ
  unfolding pop_front remove_pos first_at
  pop_front_bulk_fair burst max_burst d = elim (head? d.q) [
    | none ↦ ((d, none), 0)
    | some first ↦
        let front = priority_of first in
        let lowest : ℕ = elim (last? d.q) [ none ↦ front | some back ↦ priority_of back ] in
        if leb 200 front || front == lowest
        then (pop_front d, 0)
        else (if ltb burst max_burst
            then (pop_front d, burst + 1)
            else (remove_pos d (first_at lowest d.q), 0))
  ]
