-- ===== src/Queue/Tests.antt =====
-- Runs of `BoundedDeque` (src/queue.rs) on small rings, and the theorems at those runs.
use sedsnet.Errors.{ok}
use sedsnet.Queue.Reach.{take_front, push, here, next, Reach-new-IsKept}
use sedsnet.Queue.Room.{new, max_growth_bits, fresh, push_back, Allocator}
use sedsnet.Queue.Ring.{pop_front, retain_observed, ByteCost, Deque, no_flags}
use sedsnet.Queue.Kept.{IsKept}
use sedsnet.Queue.Batch.{
  fits_replacement_group, replace_prepared_group, checked_sub, try_sum, fits_prepared_batch,
}
use sedsnet.Queue.GroupFits.{replace_prepared_group-Holds, Holds, group_of}
use sedsnet.Queue.Retain.{retain_observed_lem, evicted_of, kept_of}
use sedsnet.Queue.Reclaim.{push_back_prioritized_select-Selects, Selects}
use sedsnet.Queue.Push.{push_back_prioritized_select, push_back_prioritized}
use sedsnet.Base.{
  Option, get_elem?, ltb, length, ◌<◌, refl, some-injective, Bool, arith, List, ℕ, ◌++◌, ◌+◌, ◌≡◌,
  false, true, ◌∷◌, [], some,
}
use sedsnet.Queue.Valid.{IsValid}
use sedsnet.Queue.Admission.{push_back_prioritized-Admits, Admits}
use sedsnet.Queue.TurnOwed.{select_front_fair_deferred-Fair, Fair}
use sedsnet.Queue.Priority.{IsOrdered}
use sedsnet.Queue.TurnFair.{select_front_fair_with_context_yields}
use sedsnet.Queue.BatchFits.{push_batch-succeeds, push_batch}
use sedsnet.Queue.Turn.{select_front_fair_deferred, select_front_fair_with_context}
use sedsnet.Queue.Fifo.{push_back_keeps}
use sedsnet.Queue.Trims.{IsSuffix}

record Item : Type 0 where
  priority : ℕ
  cost : ℕ

instance abbrev item_cost : ByteCost Item
item_cost = record { byte_cost = λ x. x.cost; size_of = 16 }

abbrev priority_of : Item → ℕ
priority_of x = x.priority

abbrev low : Item
low = record { priority = 1; cost = 10 }

abbrev middle : Item
middle = record { priority = 3; cost = 10 }

abbrev high : Item
high = record { priority = 5; cost = 10 }

-- Grants every request, to the slot.
abbrev generous : Allocator
generous = record {
  check = λ _ _. true;
  reserve = λ len add. some (len + add);
  reserve_fits = λ len add e. omega (arith, some-injective _ _ e);
}

-- A full budget of two entries in a ring of two slots.
abbrev two : Deque Item
two = record {
  q = middle ∷ low ∷ [];
  capacity = 2;
  max_bytes = 25;
  cur_bytes = 20;
  max_elems = 4;
  grow_num = 1034;
  grow_den = 1024;
  fixed_capacity = false;
  fair_priority_cursor = 255;
  fair_owed_priority = 0;
  fair_owed_flags = no_flags;
}

two-IsValid : IsValid two
two-IsValid = omega arith

two-IsOrdered : IsOrdered priority_of two.q
two-IsOrdered = omega arith

-- The same with room for two more entries.
abbrev wide : Deque Item
wide = record two { capacity = 4; max_bytes = 60 }

wide-IsValid : IsValid wide
wide-IsValid = omega arith

abbrev all_ready : List Item → Item → Bool
all_ready q x = true

push_back_keeps_example :
    let (e, res) = push_back generous high two in
    (res ≡ ok tt)
    × ((rest : List Item) × IsSuffix two.q rest × (e.q ≡ rest ++ high ∷ []))
    × IsValid e
push_back_keeps_example =
    push_back_keeps generous high two-IsValid (omega arith) (omega arith) (omega arith)

push_back_prioritized-Admits_example :
    Admits priority_of two high (push_back_prioritized generous high priority_of two)
push_back_prioritized-Admits_example =
    push_back_prioritized-Admits generous priority_of high two-IsValid two-IsOrdered (omega arith)
      (omega arith)

push_batch-succeeds_example :
    (e : Deque Item) × (push_batch priority_of (high ∷ low ∷ []) wide ≡ some e)
    × IsValid e
    × IsOrdered priority_of e.q
    × (length e.q ≡ 4)
    × (e.cur_bytes ≡ 40)
push_batch-succeeds_example =
    push_batch-succeeds priority_of (high ∷ low ∷ []) wide-IsValid two-IsOrdered
      (unfold fits_prepared_batch try_sum in refl)

select_front_fair_with_context_yields_example :
    let r = select_front_fair_with_context priority_of all_ready 1 1 two in
    (i : ℕ) × (x : Item) × (r.choice ≡ some (i, false))
    × (get_elem? two.q i ≡ some x)
    × (true ≡ true)
    × (priority_of x < 3)
    × (r.deque.fair_priority_cursor ≡ priority_of x)
    × (r.burst ≡ 0)
select_front_fair_with_context_yields_example =
    select_front_fair_with_context_yields priority_of all_ready 1 1 0 0 two middle low (omega arith)
      refl refl refl refl (omega arith)

select_front_fair_deferred-Fair_example :
    Fair priority_of all_ready two 1 (select_front_fair_deferred priority_of all_ready 1 1 two)
select_front_fair_deferred-Fair_example =
    select_front_fair_deferred-Fair priority_of all_ready 1 1 two (omega arith) (omega arith)

abbrev pick_last : Deque Item → Item → Option ℕ
pick_last d v = checked_sub (length d.q) 1

push_back_prioritized_select-Selects_example :
    Selects generous priority_of pick_last two high
      (push_back_prioritized_select generous high priority_of pick_last two)
push_back_prioritized_select-Selects_example =
    push_back_prioritized_select-Selects generous priority_of pick_last high two-IsValid
      two-IsOrdered (omega arith) (omega arith)

retain_observed_lem_example :
    ((retain_observed two (λ x. ltb 1 x.priority)).0.q ≡ kept_of (λ x. ltb 1 x.priority) two.q)
    × ((retain_observed two (λ x. ltb 1 x.priority)).1
        ≡ evicted_of (λ x. ltb 1 x.priority) two.q [])
retain_observed_lem_example = retain_observed_lem two (λ x. ltb 1 x.priority)

-- The entry of priority 1 is replaced by one of its priority and another item.
replace_prepared_group-Holds_example :
    (e : Deque Item) × (replace_prepared_group 1
        (group_of priority_of (low ∷ high ∷ []))
        priority_of
        wide
      ≡ some e)
    × Holds priority_of 3 30 e
replace_prepared_group-Holds_example =
    replace_prepared_group-Holds priority_of 1 low (high ∷ []) wide low wide-IsValid two-IsOrdered
      refl refl (unfold fits_replacement_group try_sum in refl)

abbrev built : Deque Item
built = fresh {T = Item} generous 1024 64 max_growth_bits

Reach-new-IsKept_example :
    IsKept priority_of (pop_front (push_back_prioritized generous high priority_of built).deque).0
Reach-new-IsKept_example =
    Reach-new-IsKept priority_of generous 1024 64 max_growth_bits {s = built} (omega arith)
      (unfold new in refl)
      (next (next here (push built generous high))
        (take_front (push_back_prioritized generous high priority_of built).deque))
