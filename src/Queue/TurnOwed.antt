-- ===== src/Queue/TurnOwed.antt =====
-- Deferred turns of `BoundedDeque` (src/queue.rs): who owns one, and how it ends.
use sedsnet.Queue.Turn.{
  is_owed, is_control, select_front_fair_deferred, serve_owed, select_owed, Selected,
  select_ordinary, select_front_fair_with_context,
}
use sedsnet.Base.{
  position-get_elem?, arith, ltb, sym, any, not, ◌||◌, ◌&&◌, ◌∙◌, leb, if_ind, position, ap,
  opt_ind, get_elem?, u8_max, Option, Bool, List, ℕ, ◌==◌, ◌≤◌, ◌≡◌, refl, false, true, some, none,
}
use sedsnet.Queue.Ring.{no_flags, Deque}
use sedsnet.Queue.TurnFair.{index_of, chosen-Picks, Picks, select_front_fair_with_context-Picks}

module _ {ℓ} {T : Type ℓ} (priority_of : T → ℕ) (eligible : List T → T → Bool) where
  -- A selection that owns its turn: nobody owned one before, now the ring records the debt as being
  -- served, and the chosen entry has the owed priority.
  pub record Owns (d : Deque T) (r : Selected T) (i : ℕ) : Type ℓ where
    pub idle_before : d.fair_owed_flags.active ≡ false
    pub active : r.deque.fair_owed_flags.active ≡ true
    pub pending : r.deque.fair_owed_flags.pending ≡ true
    pub owed : (x : T) × (get_elem? d.q i ≡ some x) × (r.deque.fair_owed_priority ≡ priority_of x)

  -- A sound selection, and the owner of its turn.
  abbrev pub Fair : Deque T → ℕ → Selected T → Type ℓ
  Fair d max_burst r =
      Picks priority_of eligible d max_burst r × ((i : ℕ) → r.choice ≡ some (i, true) → Owns d r i)

  abbrev owns_of : Option (ℕ × Bool) → Bool
  owns_of none = false
  owns_of (some c) = c.1

  unowned-Fair :
      {d : Deque T} {max_burst : ℕ} {r : Selected T}
      → Picks priority_of eligible d max_burst r
      → owns_of r.choice ≡ false
      → Fair d max_burst r
  unowned-Fair p e = (p, λ i c. absurd (cc (ap owns_of c)))

  owned-Fair :
      {d e : Deque T} {x : T} (max_burst burst j : ℕ)
      → e.q ≡ d.q
      → e.cur_bytes ≡ d.cur_bytes
      → burst ≤ max_burst
      → get_elem? d.q j ≡ some x
      → eligible d.q x ≡ true
      → d.fair_owed_flags.active ≡ false
      → (e.fair_owed_flags.active ≡ true) × (e.fair_owed_flags.pending ≡ true)
      → e.fair_owed_priority ≡ priority_of x
      → Fair d max_burst (record { deque = e; burst = burst; choice = some (j, true) })
  owned-Fair {d} {e} {x} max_burst burst j q u h at_j ready idle on owed = (
    chosen-Picks priority_of eligible max_burst burst j true q u h at_j ready,
    λ i c. record {
      idle_before = idle;
      active = on.0;
      pending = on.1;
      owed =
          (x, ap (λ k. get_elem? d.q k) (sym (ap (index_of priority_of eligible) c)) ∙ at_j, owed);
    },
  )

  context_unowned :
      (burst max_burst : ℕ) (d : Deque T)
      → owns_of (select_front_fair_with_context priority_of eligible burst max_burst d).choice
        ≡ false
  unfolding select_front_fair_with_context
  context_unowned burst max_burst d =
      let P : Selected T → Type 0 = λ r. owns_of r.choice ≡ false in
      opt_ind P (position (eligible d.q) d.q) (λ _. refl)
        λ front _.
          if_ind P (_ == front) (λ _. refl)
            λ _. if_ind P (leb max_burst burst) (λ _. refl) (λ _. refl)

  select_ordinary-Fair :
      (burst max_burst : ℕ) (d : Deque T)
      → burst ≤ max_burst
      → max_burst ≤ u8_max
      → Fair d max_burst (select_ordinary priority_of eligible burst max_burst d)
  unfolding select_ordinary
  select_ordinary-Fair burst max_burst d h m =
      let s = select_front_fair_with_context priority_of eligible burst max_burst d in
      let p = select_front_fair_with_context-Picks priority_of eligible burst max_burst d h m in
      opt_ind (Fair d max_burst) s.choice (λ e. unowned-Fair p (context_unowned burst max_burst d))
        λ c e.
          let (x, at_c, ready) = p.ready c.0 c.1 e in
          if_ind (Fair d max_burst)
            (not (
                d.fair_owed_flags.pending || d.fair_owed_flags.active
                || d.fair_owed_flags.nested_admission)
              && any (λ item. ltb _ (priority_of item)) d.q)
            (λ opens.
              owned-Fair max_burst burst c.0 refl refl h at_c ready (ground (arith, opens))
                (refl, refl) (rw at_c))
            λ _.
              unowned-Fair
                (chosen-Picks priority_of eligible max_burst _ c.0 false p.entries p.bytes
                  (if_ind (λ n. n ≤ max_burst) d.fair_owed_flags.pending (λ _. omega arith)
                    (λ _. p.bounded))
                  at_c ready)
                refl

  -- A cancelled debt changes nothing that a selection is judged by.
  cancelled-Fair :
      {d : Deque T} {max_burst : ℕ} (r : Selected T)
      → d.fair_owed_flags.active ≡ false
      → Fair (record d { fair_owed_flags = no_flags }) max_burst r
      → Fair d max_burst r
  cancelled-Fair r idle (p, own) = (
    record {
      entries = p.entries;
      bytes = p.bytes;
      bounded = p.bounded;
      none_ready = p.none_ready;
      ready = p.ready;
    },
    λ i c.
        let o = own i c in
        record { idle_before = idle; active = o.active; pending = o.pending; owed = o.owed },
  )

  eligible_of : (x y : Bool) → x && y ≡ true → y ≡ true
  eligible_of x y h = ground arith

  serve_owed-Fair :
      (burst max_burst : ℕ) (d : Deque T)
      → burst ≤ max_burst
      → max_burst ≤ u8_max
      → d.fair_owed_flags.pending ≡ true
      → d.fair_owed_flags.active ≡ false
      → Fair d max_burst (serve_owed priority_of eligible burst max_burst d)
  unfolding serve_owed
  serve_owed-Fair burst max_burst d h m pending idle =
      opt_ind (Fair d max_burst)
        (position (is_owed priority_of eligible d.fair_owed_priority d.q) d.q)
        (λ _.
          if_ind (Fair d max_burst) (any (λ item. priority_of item == d.fair_owed_priority) d.q)
            (λ _. select_ordinary-Fair burst max_burst d h m)
            λ _. cancelled-Fair _ idle (select_ordinary-Fair burst max_burst _ h m))
        λ i e.
          let (x, at_i, t) = position-get_elem? _ d.q e in
          owned-Fair max_burst burst i refl refl h at_i (eligible_of _ _ t) idle (refl, pending)
            (ground arith)

  select_owed-Fair :
      (burst max_burst : ℕ) (d : Deque T)
      → burst ≤ max_burst
      → max_burst ≤ u8_max
      → d.fair_owed_flags.pending ≡ true
      → d.fair_owed_flags.active ≡ false
      → Fair d max_burst (select_owed priority_of eligible burst max_burst d)
  unfolding select_owed
  select_owed-Fair burst max_burst d h m pending idle =
      let owed = serve_owed-Fair burst max_burst d h m pending idle in
      if_ind (Fair d max_burst) (ltb burst max_burst)
        (λ under.
          opt_ind (Fair d max_burst) (position (is_control priority_of eligible d.q) d.q)
            (λ _. owed)
            λ i e.
              let (x, at_i, t) = position-get_elem? _ d.q e in
              unowned-Fair
                (chosen-Picks priority_of eligible max_burst _ i false refl refl (ground arith) at_i
                  (eligible_of _ _ t))
                refl)
        (λ _. owed)

  -- With a burst within its bound, the deferred selection answers a ready entry whenever there is
  -- one, keeps the entries and bytes of the queue and the bound of the burst, and hands out
  -- ownership of a turn only while nobody owns one and for an entry of the owed priority.
  pub select_front_fair_deferred-Fair :
      (burst max_burst : ℕ) (d : Deque T)
      → burst ≤ max_burst
      → max_burst ≤ u8_max
      → Fair d max_burst (select_front_fair_deferred priority_of eligible burst max_burst d)
  unfolding select_front_fair_deferred
  select_front_fair_deferred-Fair burst max_burst d h m =
      if_ind (Fair d max_burst) (d.fair_owed_flags.pending && not d.fair_owed_flags.active)
        (λ owed. select_owed-Fair burst max_burst d h m (ground arith) (ground arith))
        λ _. select_ordinary-Fair burst max_burst d h m
