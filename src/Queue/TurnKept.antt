-- ===== src/Queue/TurnKept.antt =====
-- The fair selection and the deferred turns of `BoundedDeque` (src/queue.rs) on a queue that is kept
-- by priorities.
use sedsnet.Queue.Turn.{
  is_control, is_owed, select_owed, Selected, note_nested, serve_owed,
  select_front_fair_with_context, select_front_fair_deferred, select_ordinary, cancel_deferred_turn,
  finish_deferred_turn,
}
use sedsnet.Base.{
  leb, position, any, ◌==◌, ◌&&◌, sym, subst, ltb, not, opt_ind, if_ind, ap, length, arith, Bool,
  List, ℕ, ◌||◌, ◌≡◌, refl,
}
use sedsnet.Queue.Ring.{Flags, Deque, ByteCost}
use sedsnet.Queue.Kept.{IsKept}
use sedsnet.Queue.Valid.{total}
use sedsnet.Queue.Priority.{IsOrdered}

module _ {ℓ} {T : Type ℓ} ⦃b : ByteCost T⦄ (priority_of : T → ℕ) where
  restated :
      {d e : Deque T}
      → e.q ≡ d.q
      → (e.cur_bytes ≡ d.cur_bytes)
        × (e.max_bytes ≡ d.max_bytes)
        × (e.capacity ≡ d.capacity)
        × (e.max_elems ≡ d.max_elems)
      → IsKept priority_of d
      → IsKept priority_of e
  restated {d} {e} same limits k = record {
    valid = omega (arith, ap total same, ap length same, limits, k.valid);
    ordered = subst (IsOrdered priority_of) (sym same) k.ordered;
  }

  -- Whose turn it is does not matter.
  turned :
      {d : Deque T} (cursor owed : ℕ) (flags : Flags)
      → IsKept priority_of d
      → IsKept priority_of (record d {
        fair_priority_cursor = cursor;
        fair_owed_priority = owed;
        fair_owed_flags = flags;
      })
  turned cursor owed flags k = restated refl (refl, refl, refl, refl) k

  pub cancel_deferred_turn-IsKept :
      {d : Deque T} → IsKept priority_of d → IsKept priority_of (cancel_deferred_turn d)
  unfolding cancel_deferred_turn
  cancel_deferred_turn-IsKept k = turned _ _ _ k

  pub finish_deferred_turn-IsKept :
      {d : Deque T} (priority : ℕ) (owns admitted retained : Bool) (burst : ℕ)
      → IsKept priority_of d
      → IsKept priority_of (finish_deferred_turn priority owns admitted retained burst d).0
  unfolding finish_deferred_turn
  finish_deferred_turn-IsKept {d} priority owns admitted retained burst k =
      let P : Deque T × ℕ → Type ℓ = λ r. IsKept priority_of r.0 in
      let flags = note_nested owns admitted d.fair_owed_flags in
      if_ind P (not owns || not flags.active || not (d.fair_owed_priority == priority))
        (λ t. turned _ _ _ k)
        (λ f. if_ind P (admitted || not retained) (λ t. turned _ _ _ k) (λ g. turned _ _ _ k))

  select_front_fair_with_context-IsKept :
      (eligible : List T → T → Bool) (burst max_burst : ℕ) {d : Deque T}
      → IsKept priority_of d
      → IsKept priority_of
          (select_front_fair_with_context priority_of eligible burst max_burst d).deque
  unfolding select_front_fair_with_context
  select_front_fair_with_context-IsKept eligible burst max_burst {d} k =
      let P : Selected T → Type ℓ = λ r. IsKept priority_of r.deque in
      opt_ind P (position (eligible d.q) d.q) (λ e. k)
        (λ front e.
          if_ind P (_ == front) (λ t. k)
            (λ f. if_ind P (leb max_burst burst) (λ t. turned _ _ _ k) (λ g. k)))

  select_ordinary-IsKept :
      (eligible : List T → T → Bool) (burst max_burst : ℕ) {d : Deque T}
      → IsKept priority_of d
      → IsKept priority_of (select_ordinary priority_of eligible burst max_burst d).deque
  unfolding select_ordinary
  select_ordinary-IsKept eligible burst max_burst {d} k =
      let P : Selected T → Type ℓ = λ r. IsKept priority_of r.deque in
      let s = select_front_fair_with_context priority_of eligible burst max_burst d in
      let after = select_front_fair_with_context-IsKept eligible burst max_burst k in
      opt_ind P s.choice (λ e. after)
        (λ c e.
          if_ind P
            (not (
                d.fair_owed_flags.pending || d.fair_owed_flags.active
                || d.fair_owed_flags.nested_admission)
              && any (λ item. ltb _ (priority_of item)) d.q)
            (λ t. turned _ _ _ k) (λ f. after))

  serve_owed-IsKept :
      (eligible : List T → T → Bool) (burst max_burst : ℕ) {d : Deque T}
      → IsKept priority_of d
      → IsKept priority_of (serve_owed priority_of eligible burst max_burst d).deque
  unfolding serve_owed
  serve_owed-IsKept eligible burst max_burst {d} k =
      let P : Selected T → Type ℓ = λ r. IsKept priority_of r.deque in
      opt_ind P (position (is_owed priority_of eligible d.fair_owed_priority d.q) d.q)
        (λ e.
          if_ind P (any (λ item. priority_of item == d.fair_owed_priority) d.q)
            (λ t. select_ordinary-IsKept eligible burst max_burst k)
            (λ f. select_ordinary-IsKept eligible burst max_burst (turned _ _ _ k)))
        (λ i e. turned _ _ _ k)

  pub select_front_fair_deferred-IsKept :
      (eligible : List T → T → Bool) (burst max_burst : ℕ) {d : Deque T}
      → IsKept priority_of d
      → IsKept priority_of (select_front_fair_deferred priority_of eligible burst max_burst d).deque
  unfolding select_front_fair_deferred select_owed
  select_front_fair_deferred-IsKept eligible burst max_burst {d} k =
      let P : Selected T → Type ℓ = λ r. IsKept priority_of r.deque in
      if_ind P (d.fair_owed_flags.pending && not d.fair_owed_flags.active)
        (λ t.
          if_ind P (ltb burst max_burst)
            (λ u.
              opt_ind P (position (is_control priority_of eligible d.q) d.q)
                (λ e. serve_owed-IsKept eligible burst max_burst k) (λ i e. k))
            (λ u. serve_owed-IsKept eligible burst max_burst k))
        (λ f. select_ordinary-IsKept eligible burst max_burst k)
