-- ===== src/Queue/BatchFits.antt =====
-- The two-step batches of `BoundedDeque` (src/queue.rs): after the check the commit cannot fail.
use sedsnet.Queue.Admission.{length-insert_spec, insert_prioritized_prepared-IsValid}
use sedsnet.Queue.Push.{insert_prioritized_prepared}
use sedsnet.Queue.Priority.{IsOrdered}
use sedsnet.Queue.Valid.{IsValid, total}
use sedsnet.Queue.Batch.{
  checked_add, fits_totals, fits_prepared_batch, push_prepared_batch_item, try_sum,
}
use sedsnet.Base.{
  Option-cases, false, true, none, inr, inl, usize_max, leb, Bool-cases, refl, arith, suc, ◌≤◌,
  some, ◌+◌, [], ap, length, ◌∷◌, ◌≡◌, Option, List, ℕ,
}
use sedsnet.Queue.Ring.{Deque, ByteCost}

module _ {ℓ} {T : Type ℓ} ⦃b : ByteCost T⦄ (priority_of : T → ℕ) where
  abbrev pub costs_of : List T → List ℕ
  costs_of [] = []
  costs_of (x ∷ xs) = b.byte_cost x ∷ costs_of xs

  pub length-costs_of : (xs : List T) → length (costs_of xs) ≡ length xs
  length-costs_of [] = refl
  length-costs_of (x ∷ xs) = ap suc (length-costs_of xs)

  -- The commits of a batch, one after the other.
  pub push_batch : List T → Deque T → Option (Deque T)
  push_batch [] d = some d
  push_batch (x ∷ xs) d =
      elim (push_prepared_batch_item x (b.byte_cost x) (priority_of x) priority_of d) [
        | none ↦ none
        | some e ↦ push_batch xs e
      ]

  -- What the check says: the totals after the whole batch are within every limit.
  record Fits (d : Deque T) (xs : List T) : Type 0 where
    slots : length d.q + length xs ≤ d.capacity
    elems : length d.q + length xs ≤ d.max_elems
    bytes : d.cur_bytes + total xs ≤ d.max_bytes
    word : length d.q + length xs ≤ usize_max

  pub try_sum-total :
      (start : ℕ) (xs : List T) {n : ℕ}
      → try_sum start (costs_of xs) ≡ some n
      → n ≡ start + total xs
  unfolding try_sum
  try_sum-total start [] e = ground arith
  try_sum-total start (x ∷ xs) e = elim (Bool-cases (leb (start + b.byte_cost x) usize_max)) [
    | inl t ↦ omega (arith, try_sum-total (start + b.byte_cost x) xs (rw (t, try_sum) at e))
    | inr f ↦ cc (rw (f, try_sum) at e)
  ]

  fits_prepared_batch-Fits :
      {d : Deque T} (xs : List T) → fits_prepared_batch d (costs_of xs) ≡ true → Fits d xs
  unfolding fits_prepared_batch
  fits_prepared_batch-Fits {d} xs e = elim (Option-cases (try_sum d.cur_bytes (costs_of xs))) [
    | inl n ↦ cc (never (checked_add (length d.q) (length (costs_of xs))), rw n at e)
    | inr (bytes, s) ↦ ground (arith, rw s at e, try_sum-total d.cur_bytes xs s, length-costs_of xs)
  ]
    where
      never : (o : Option ℕ) → fits_totals d o none ≡ false
      never none = refl
      never (some n) = refl

  -- One commit of a batch that fits.
  commit :
      {d : Deque T} (x : T) (xs : List T)
      → IsValid d
      → IsOrdered priority_of d.q
      → Fits d (x ∷ xs)
      → (e : Deque T) × (push_prepared_batch_item x (b.byte_cost x) (priority_of x) priority_of d
          ≡ some e)
        × (IsValid e × IsOrdered priority_of e.q × Fits e xs)
        × (length e.q ≡ suc (length d.q))
        × (e.cur_bytes ≡ d.cur_bytes + b.byte_cost x)
  unfolding push_prepared_batch_item
  commit {d} x xs v o f =
      let e = insert_prioritized_prepared x (b.byte_cost x) (priority_of x) priority_of d in
      let i =
        insert_prioritized_prepared-IsValid priority_of x v o (omega (arith, f.bytes))
          (omega (arith, f.slots)) (omega (arith, f.elems)) in
      let longer : length e.q ≡ suc (length d.q) =
        omega (arith, ap length i.2, length-insert_spec priority_of x (priority_of x) d.q) in
      (
        e,
        rw (one, push_prepared_batch_item),
        (i.0, i.1, omega (arith, longer)),
        longer,
        omega (arith, f.bytes, v.word),
      )
    where
      one : fits_prepared_batch d (b.byte_cost x ∷ []) ≡ true
      one =
          unfold fits_prepared_batch try_sum in
          ground (arith, v.word, f.bytes, f.slots, f.elems, f.word)

  push_batch-Fits :
      (xs : List T) {d : Deque T}
      → IsValid d
      → IsOrdered priority_of d.q
      → Fits d xs
      → (e : Deque T) × (push_batch xs d ≡ some e)
        × IsValid e
        × IsOrdered priority_of e.q
        × (length e.q ≡ length d.q + length xs)
        × (e.cur_bytes ≡ d.cur_bytes + total xs)
  unfolding push_batch
  push_batch-Fits [] {d} v o f = (d, refl, v, o, omega arith, omega arith)
  push_batch-Fits (x ∷ xs) {d} v o f =
      let (e, pushed, valid, longer, more) = commit x xs v o f in
      let (last, whole, lv, lo, len, used) = push_batch-Fits xs valid.0 valid.1 valid.2 in
      (
        last,
        rw (pushed, push_batch) whole,
        lv,
        lo,
        omega (arith, longer, len),
        omega (arith, more, used),
      )

  -- On a valid queue in descending order, after `fits_prepared_batch` has accepted the costs of a
  -- batch, every commit of the batch succeeds: no assertion fails, nothing is evicted, the counters
  -- grow by the batch exactly, and the accounting and the order are kept.
  pub push_batch-succeeds :
      (xs : List T) {d : Deque T}
      → IsValid d
      → IsOrdered priority_of d.q
      → fits_prepared_batch d (costs_of xs) ≡ true
      → (e : Deque T) × (push_batch xs d ≡ some e)
        × IsValid e
        × IsOrdered priority_of e.q
        × (length e.q ≡ length d.q + length xs)
        × (e.cur_bytes ≡ d.cur_bytes + total xs)
  push_batch-succeeds xs v o e = push_batch-Fits xs v o (fits_prepared_batch-Fits xs e)
