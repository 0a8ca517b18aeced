-- ===== src/Queue/TurnFair.antt =====
-- What the fair selections of `BoundedDeque` (src/queue.rs) choose.
use sedsnet.Queue.Turn.{choose, Selected, select_front_fair_with_context, scan_lower, Scan}
use sedsnet.Base.{
  Option, sat_add, false, get_elem?-drop, drop, position-get_elem?, position, opt_ind, u8_max, ◌≤◌,
  none, sym, ltb, leb, if_ind, not, arith, wrapping_sub8, ap, get_elem?, List, Bool, ℕ,
  if◌then◌else◌, ◌==◌, ◌||◌, ◌≢◌, ◌⊎◌, ◌∙◌, ◌<◌, ◌+◌, ◌≡◌, refl, true, suc, zero, ◌∷◌, [], inr, inl,
  some,
}
use sedsnet.Queue.Ring.{Deque}

module _ {ℓ} {T : Type ℓ} (priority_of : T → ℕ) (eligible : T → Bool) (q : List T) where
  -- The scan has found nothing yet, or a ready entry below the front's priority.
  abbrev Found : ℕ → ℕ → Scan → Type ℓ
  Found front front_priority s =
      (s.lower ≡ front)
      ⊎ ((x : T) × (get_elem? q s.lower ≡ some x)
          × (eligible x ≡ true)
          × (priority_of x < front_priority)
          × (s.lower_priority ≡ priority_of x))

  scan_lower-Found :
      (cursor front front_priority index : ℕ) (items : List T) (s : Scan)
      → ((j : ℕ) → get_elem? items j ≡ get_elem? q (index + j))
      → Found front front_priority s
      → Found front front_priority
          (scan_lower priority_of eligible cursor front front_priority index items s)
  unfolding scan_lower
  scan_lower-Found cursor front front_priority index [] s h f = f
  scan_lower-Found cursor front front_priority index (item ∷ items) s h f =
      scan_lower-Found cursor front front_priority (index + 1) items _
        (λ j. h (suc j) ∙ ap (λ k. get_elem? q k) (omega arith))
        (if_ind (Found front front_priority)
          (not (eligible item) || leb front_priority (priority_of item)) (λ _. f)
          λ ready.
            if_ind (Found front front_priority) ((s.lower == front) || ltb _ s.best_distance)
              (λ _. inr (
                item,
                ap (λ k. get_elem? q k) (omega arith) ∙ sym (h 0),
                ground arith,
                ground arith,
                refl,
              ))
              λ _. f)

  -- Once a ready entry below the front's priority has been scanned, the scan keeps one.
  scan_lower-keeps :
      (cursor front front_priority index : ℕ) (items : List T) (s : Scan)
      → front < index
      → (s.lower ≢ front)
        ⊎ ((j : ℕ) × (x : T) × (get_elem? items j ≡ some x)
            × (eligible x ≡ true)
            × (priority_of x < front_priority))
      → (scan_lower priority_of eligible cursor front front_priority index items s).lower ≢ front
  unfolding scan_lower
  scan_lower-keeps cursor front front_priority index [] s h (inl n) = n
  scan_lower-keeps cursor front front_priority index [] s h (inr (j, x, e, ready, below)) =
      absurd (cc)
  scan_lower-keeps cursor front front_priority index (item ∷ items) s h f =
      scan_lower-keeps cursor front front_priority (index + 1) items _ (omega arith) (next f)
    where
      distance : ℕ
      distance = wrapping_sub8 (wrapping_sub8 cursor (priority_of item)) 1

      after : Scan
      after =
          if not (eligible item) || leb front_priority (priority_of item)
          then s
          else (if (s.lower == front) || ltb distance s.best_distance
              then record {
                lower = index;
                lower_priority = priority_of item;
                best_distance = distance;
              }
              else s)

      next :
          (s.lower ≢ front)
            ⊎ ((j : ℕ) × (x : T) × (get_elem? (item ∷ items) j ≡ some x)
                × (eligible x ≡ true)
                × (priority_of x < front_priority))
          → (after.lower ≢ front)
            ⊎ ((j : ℕ) × (x : T) × (get_elem? items j ≡ some x)
                × (eligible x ≡ true)
                × (priority_of x < front_priority))
      next (inl n) = inl (ground (arith, h))
      next (inr (zero, x, e, ready, below)) = inl (ground (arith, h))
      next (inr (suc j, x, e, ready, below)) = inr (j, x, e, ready, below)

module _ {ℓ} {T : Type ℓ} (priority_of : T → ℕ) (eligible : List T → T → Bool) where
  -- What a selection from `d` with burst `burst` may answer: nothing, if no entry is ready; or an
  -- entry that is ready. The queue's entries and bytes stay, and the burst stays within its bound.
  pub record Picks (d : Deque T) (max_burst : ℕ) (r : Selected T) : Type ℓ where
    pub entries : r.deque.q ≡ d.q
    pub bytes : r.deque.cur_bytes ≡ d.cur_bytes
    pub bounded : r.burst ≤ max_burst
    pub none_ready : r.choice ≡ none → position (eligible d.q) d.q ≡ none
    pub ready :
        (i : ℕ) (owns : Bool)
        → r.choice ≡ some (i, owns)
        → (x : T) × (get_elem? d.q i ≡ some x) × (eligible d.q x ≡ true)

  abbrev pub index_of : Option (ℕ × Bool) → ℕ
  index_of none = 0
  index_of (some c) = c.0

  -- A choice of a ready entry over the same entries.
  pub chosen-Picks :
      {d e : Deque T} {x : T} (max_burst burst i : ℕ) (owns : Bool)
      → e.q ≡ d.q
      → e.cur_bytes ≡ d.cur_bytes
      → burst ≤ max_burst
      → get_elem? d.q i ≡ some x
      → eligible d.q x ≡ true
      → Picks d max_burst (record { deque = e; burst = burst; choice = some (i, owns) })
  chosen-Picks {d} {e} {x} max_burst burst i owns q u h at_i ready = record {
    entries = q;
    bytes = u;
    bounded = h;
    none_ready = λ c. absurd (cc);
    ready = λ j o c. (x, ap (λ k. get_elem? d.q k) (sym (ap index_of c)) ∙ at_i, ready);
  }

  -- With a burst within its bound, the fair selection answers an index of a ready entry, unless none
  -- is ready; it keeps the entries and bytes of the queue, and the burst within its bound.
  pub select_front_fair_with_context-Picks :
      (burst max_burst : ℕ) (d : Deque T)
      → burst ≤ max_burst
      → max_burst ≤ u8_max
      → Picks d max_burst (select_front_fair_with_context priority_of eligible burst max_burst d)
  unfolding select_front_fair_with_context
  select_front_fair_with_context-Picks burst max_burst d h m =
      opt_ind (Picks d max_burst) (position (eligible d.q) d.q)
        (λ e. record {
          entries = refl;
          bytes = refl;
          bounded = h;
          none_ready = λ _. e;
          ready = λ i owns c. absurd (cc);
        })
        λ front e.
          let at_front = position-get_elem? (eligible d.q) d.q e in
          let front_priority : ℕ = elim (get_elem? d.q front) [
            | none ↦ 0
            | some item ↦ priority_of item
          ] in
          let s =
            scan_lower priority_of (eligible d.q) d.fair_priority_cursor front front_priority
              (front + 1) (drop (front + 1) d.q)
              (record { lower = front; lower_priority = front_priority; best_distance = u8_max }) in
          let found : Found priority_of (eligible d.q) d.q front front_priority s =
            scan_lower-Found priority_of (eligible d.q) d.q d.fair_priority_cursor front
              front_priority (front + 1) (drop (front + 1) d.q) _
              (λ j. get_elem?-drop (front + 1) j d.q) (inl refl) in
          if_ind (Picks d max_burst) (s.lower == front)
            (λ _.
              chosen-Picks max_burst 0 front false refl refl (omega arith) at_front.1 at_front.2)
            λ other.
              if_ind (Picks d max_burst) (leb max_burst burst)
                (λ _. elim found [
                  | inl same ↦ absurd (ground (arith, other))
                  | inr (x, at_lower, ready, below, priority) ↦
                      chosen-Picks max_burst 0 s.lower false refl refl (omega arith) at_lower ready
                ])
                λ under.
                  chosen-Picks max_burst (sat_add u8_max burst 1) front false refl refl
                    (ground arith) at_front.1 at_front.2

  abbrev scanned : ℕ → T → Deque T → Scan
  scanned front first d =
      scan_lower priority_of (eligible d.q) d.fair_priority_cursor front (priority_of first)
        (front + 1) (drop (front + 1) d.q)
        (record { lower = front; lower_priority = priority_of first; best_distance = u8_max })

  select_front_fair_with_context-choose :
      (burst max_burst front : ℕ) (d : Deque T) (first : T)
      → position (eligible d.q) d.q ≡ some front
      → get_elem? d.q front ≡ some first
      → select_front_fair_with_context priority_of eligible burst max_burst d
        ≡ choose priority_of eligible burst max_burst front (scanned front first d) d
  unfolding select_front_fair_with_context
  select_front_fair_with_context-choose burst max_burst front d first e f =
      rw (e, select_front_fair_with_context) (rw f)

  -- Once the burst is spent, a ready entry of lower priority behind the first ready one gets the
  -- turn: the chosen entry is ready and below the priority of the first ready one, the cursor
  -- records its priority, and the burst starts again.
  pub select_front_fair_with_context_yields :
      (burst max_burst front j : ℕ) (d : Deque T) (first lower : T)
      → max_burst ≤ burst
      → position (eligible d.q) d.q ≡ some front
      → get_elem? d.q front ≡ some first
      → get_elem? d.q (front + 1 + j) ≡ some lower
      → eligible d.q lower ≡ true
      → priority_of lower < priority_of first
      → let r = select_front_fair_with_context priority_of eligible burst max_burst d in
        (i : ℕ) × (x : T) × (r.choice ≡ some (i, false))
        × (get_elem? d.q i ≡ some x)
        × (eligible d.q x ≡ true)
        × (priority_of x < priority_of first)
        × (r.deque.fair_priority_cursor ≡ priority_of x)
        × (r.burst ≡ 0)
  select_front_fair_with_context_yields burst max_burst front j d first lower h e f l ready below =
      let s = scanned front first d in
      let q_front = priority_of first in
      let found : Found priority_of (eligible d.q) d.q front q_front s =
        scan_lower-Found priority_of (eligible d.q) d.q d.fair_priority_cursor front q_front
          (front + 1) (drop (front + 1) d.q) _ (λ k. get_elem?-drop (front + 1) k d.q) (inl refl) in
      let moved : s.lower ≢ front =
        scan_lower-keeps priority_of (eligible d.q) d.q d.fair_priority_cursor front q_front
          (front + 1) (drop (front + 1) d.q) _ (omega arith)
          (inr (j, lower, get_elem?-drop (front + 1) j d.q ∙ l, ready, below)) in
      let other : (s.lower == front) ≡ false = ground (arith, moved) in
      let spent : leb max_burst burst ≡ true = ground arith in
      elim found [
        | inl same ↦ absurd (moved same)
        | inr (x, at_x, ready_x, below_x, cursor) ↦ (
          s.lower,
          x,
          rw (
            select_front_fair_with_context-choose burst max_burst front d first e f,
            other,
            spent,
          ),
          at_x,
          ready_x,
          below_x,
          rw (select_front_fair_with_context-choose burst max_burst front d first e f, other, spent)
              cursor,
          rw (
            select_front_fair_with_context-choose burst max_burst front d first e f,
            other,
            spent,
          ),
        )
      ]
