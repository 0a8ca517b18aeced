-- ===== src/Queue/GroupFits.antt =====
-- The replacement of an entry by a group in `BoundedDeque` (src/queue.rs): after the check it cannot
-- fail.
use sedsnet.Base.{
  leb, length-set, usize_max, refl, opt_ind, Bool, Option, ◌-◌, false, none, arith, ap, length, sym,
  some-injective, subst, set, All, get_elem?, List, ℕ, ◌∙◌, ◌≤◌, ◌+◌, ◌≡◌, true, suc, zero, ◌∷◌, [],
  some,
}
use sedsnet.Queue.Valid.{total-set, total-remove_at, total, IsValid}
use sedsnet.Queue.Batch.{
  replace_prepared_item, try_sum, checked_add, checked_sub, fits_totals, replace_prepared_group,
  fits_replacement_group, insert_group,
}
use sedsnet.Queue.BatchFits.{length-costs_of, try_sum-total, costs_of}
use sedsnet.Queue.Admission.{
  total-insert_spec, length-insert_spec, insert_prioritized_prepared-IsValid,
}
use sedsnet.Queue.Push.{insert_prioritized_prepared}
use sedsnet.Queue.Priority.{IsOrdered}
use sedsnet.Queue.Ring.{Deque, ByteCost}

module _ {ℓ} {T : Type ℓ} (priority_of : T → ℕ) where
  All-set {κ} : (P : T → Type κ) (xs : List T) (i : ℕ) (w : T) → P w → All P xs → All P (set xs i w)
  All-set P [] i w h a = tt
  All-set P (x ∷ xs) zero w h a = (h, a.1)
  All-set P (x ∷ xs) (suc i) w h a = (a.0, All-set P xs i w h a.1)

  All-at {κ} :
      (P : T → Type κ) (xs : List T) (i : ℕ) {v : T} → get_elem? xs i ≡ some v → All P xs → P v
  All-at P [] i e a = absurd (cc)
  All-at P (x ∷ xs) zero e a = subst P (some-injective _ _ e) a.0
  All-at P (x ∷ xs) (suc i) e a = All-at P xs i e a.1

  -- An entry of the same priority takes the place.
  pub set-IsOrdered :
      (xs : List T) (i : ℕ) (w : T) {v : T}
      → get_elem? xs i ≡ some v
      → priority_of w ≡ priority_of v
      → IsOrdered priority_of xs
      → IsOrdered priority_of (set xs i w)
  set-IsOrdered [] i w e p o = tt
  set-IsOrdered (x ∷ xs) zero w {v} e p o =
      let same : priority_of w ≡ priority_of x = p ∙ sym (ap priority_of (some-injective _ _ e)) in
      (rw same o.0, o.1)
  set-IsOrdered (x ∷ xs) (suc i) w {v} e p o = (
    All-set _ xs i w (subst (λ n. n ≤ priority_of x) (sym p) (All-at _ xs i e o.0)) o.0,
    set-IsOrdered xs i w e p o.1,
  )

module _ {ℓ} {T : Type ℓ} ⦃b : ByteCost T⦄ (priority_of : T → ℕ) where
  -- The items with their costs.
  abbrev pub group_of : List T → List (T × ℕ)
  group_of [] = []
  group_of (x ∷ xs) = (x, b.byte_cost x) ∷ group_of xs

  -- What is true of the queue that a group of items has gone into.
  abbrev pub Holds : ℕ → ℕ → Deque T → Type 0
  Holds len bytes e =
      IsValid e × IsOrdered priority_of e.q × (length e.q ≡ len) × (e.cur_bytes ≡ bytes)

  insert_group-Holds :
      (xs : List T) (d : Deque T)
      → IsValid d
      → IsOrdered priority_of d.q
      → length d.q + length xs ≤ d.capacity
      → length d.q + length xs ≤ d.max_elems
      → d.cur_bytes + total xs ≤ d.max_bytes
      → Holds
          (length d.q + length xs)
          (d.cur_bytes + total xs)
          (insert_group (group_of xs) priority_of d)
  unfolding insert_group
  insert_group-Holds [] d v o s m f = (v, o, omega arith, omega arith)
  insert_group-Holds (x ∷ xs) d v o s m f =
      let e = insert_prioritized_prepared x (b.byte_cost x) (priority_of x) priority_of d in
      let i =
        insert_prioritized_prepared-IsValid priority_of x v o (omega arith) (omega arith)
          (omega arith) in
      let longer : length e.q ≡ suc (length d.q) =
        omega (arith, ap length i.2, length-insert_spec priority_of x (priority_of x) d.q) in
      let more : e.cur_bytes ≡ d.cur_bytes + b.byte_cost x = omega (
        arith,
        i.0.counted,
        v.counted,
        ap total i.2,
        total-insert_spec priority_of x (priority_of x) d.q,
      ) in
      let rest =
        insert_group-Holds xs e i.0 i.1 (omega (arith, longer)) (omega (arith, longer))
          (omega (arith, more)) in
      (rest.0, rest.1, omega (arith, rest.2, longer), omega (arith, rest.3, more))

  -- What the check says: after the replacement and the insertions the totals are within every limit.
  record Replaces (d : Deque T) (old first : T) (rest : List T) : Type 0 where
    slots : length d.q + length rest ≤ d.capacity
    elems : length d.q + length rest ≤ d.max_elems
    bytes : d.cur_bytes + total (first ∷ rest) ≤ d.max_bytes + b.byte_cost old

  fits_replacement_group-Replaces :
      {d : Deque T} (index : ℕ) (first : T) (rest : List T) {old : T}
      → IsValid d
      → b.byte_cost old ≤ d.cur_bytes
      → get_elem? d.q index ≡ some old
      → fits_replacement_group d index (costs_of priority_of (first ∷ rest)) ≡ true
      → Replaces d old first rest
  unfolding fits_replacement_group
  fits_replacement_group-Replaces {d} index first rest {old} v paid at_index =
      let costs = costs_of priority_of (first ∷ rest) in
      let Goal : Bool → Type 0 = λ t. t ≡ true → Replaces d old first rest in
      opt_ind Goal (get_elem? d.q index) (λ absent. absurd (cc))
        λ o at_o.
          opt_ind Goal (checked_sub (length costs) 1) (λ _ (f : false ≡ true). absurd (cc))
            λ extra x.
              let Total : Option ℕ → Type 0 =
                λ bytes. Goal (fits_totals d (checked_add (length d.q) extra) bytes) in
              opt_ind Total (checked_sub d.cur_bytes (b.byte_cost o)) (λ _ f. absurd (never _ f))
                λ used u.
                  let same : b.byte_cost o ≡ b.byte_cost old =
                    ap (λ y. b.byte_cost y) (some-injective _ _ (sym at_o ∙ at_index)) in
                  let many = length-costs_of priority_of rest in
                  settle extra used (ground (arith, x, many)) (ground (arith, u, same, paid))
                    (try_sum used costs) refl
    where
      never : (o : Option ℕ) → fits_totals d o none ≡ true → ⊥
      never none = λ e. cc
      never (some n) = λ e. cc

      settle :
          (extra used : ℕ)
          → extra ≡ length rest
          → used + b.byte_cost old ≡ d.cur_bytes
          → (o : Option ℕ) → try_sum used (costs_of priority_of (first ∷ rest)) ≡ o
          → fits_totals d (checked_add (length d.q) extra) o ≡ true
          → Replaces d old first rest
      settle extra used others left none s fits = absurd (never _ fits)
      settle extra used others left (some bytes) s fits =
          ground (arith, try_sum-total priority_of used (first ∷ rest) s)

  swapped :
      (index : ℕ) (first : T) (d : Deque T) (old : T)
      → get_elem? d.q index ≡ some old
      → b.byte_cost old ≤ d.cur_bytes
      → d.cur_bytes - b.byte_cost old + b.byte_cost first ≤ usize_max
      → replace_prepared_item index first (b.byte_cost first) d
        ≡ some (record d {
          q = set d.q index first;
          cur_bytes = d.cur_bytes - b.byte_cost old + b.byte_cost first;
        })
  unfolding replace_prepared_item
  swapped index first d old at_index paid word =
      let enough : leb (b.byte_cost old) d.cur_bytes ≡ true = ground arith in
      let whole : leb (d.cur_bytes - b.byte_cost old + b.byte_cost first) usize_max ≡ true =
        ground arith in
      rw (at_index, replace_prepared_item, enough, whole)

  -- On a valid queue in descending order, after `fits_replacement_group` has accepted the costs of a
  -- group for the place of an entry whose priority its first item has, the replacement succeeds: no
  -- assertion fails, the counters change by the group and the old entry exactly, and the accounting
  -- and the order are kept.
  pub replace_prepared_group-Holds :
      (index : ℕ) (first : T) (rest : List T) (d : Deque T) (old : T)
      → IsValid d
      → IsOrdered priority_of d.q
      → get_elem? d.q index ≡ some old
      → priority_of first ≡ priority_of old
      → fits_replacement_group d index (costs_of priority_of (first ∷ rest)) ≡ true
      → (e : Deque T) × (replace_prepared_group index (group_of (first ∷ rest)) priority_of d
          ≡ some e)
        × Holds (length d.q + length rest) (d.cur_bytes + total (first ∷ rest) - b.byte_cost old) e
  unfolding replace_prepared_group
  replace_prepared_group-Holds index first rest d old v o at_index p fits =
      let paid : b.byte_cost old ≤ d.cur_bytes =
        omega (arith, total-remove_at d.q index at_index, v.counted) in
      let room = fits_replacement_group-Replaces index first rest v paid at_index fits in
      let bytes = total-set d.q index first at_index in
      let size = length-set d.q index first in
      let replaced : Deque T = record d {
        q = set d.q index first;
        cur_bytes = d.cur_bytes - b.byte_cost old + b.byte_cost first;
      } in
      let valid : IsValid replaced = omega (arith, bytes, size, paid, room.bytes) in
      let rest_in =
        insert_group-Holds rest replaced valid
          (set-IsOrdered priority_of d.q index first at_index p o) (omega (arith, size, room.slots))
          (omega (arith, size, room.elems)) (omega (arith, paid, room.bytes)) in
      (
        insert_group (group_of rest) priority_of replaced,
        rw (
          swapped index first d old at_index paid (omega (arith, v.word, room.bytes, paid)),
          replace_prepared_group,
        ),
        (rest_in.0, rest_in.1, omega (arith, rest_in.2, size), omega (arith, rest_in.3, paid)),
      )
