-- ===== src/Side/Inserted.antt =====
-- One fragment inserted into an assembly, src/side_transport.rs.
use sedsnet.Base.{
  ◌∙◌, if_ind, subst, sym, ap, Bool, suc, zero, inr, inl, usize_max, sat_add, arith, leb, get_elem?,
  length, Option, List, ℕ, if◌then◌else◌, ◌==◌, ◌<◌, ◌≡◌, refl, false, true, ◌∷◌, [], some,
}
use sedsnet.Errors.{ok, Result}
use sedsnet.Side.Delivered.{
  filled-empty, is_filled-set, Agrees-length, set-Agrees, empty-Agrees, Ready, filled, Holds,
  Grants, IsPartial, Agrees,
}
use sedsnet.Side.Assembly.{
  added_cost, descriptor_bytes, is_filled, empty_slots, store, SideChunkAssembly, contains_index,
  make_slots, insert_with,
}
use sedsnet.Queue.Room.{Allocator}

abbrev parts : ℕ → ℕ → ℕ → ℕ → List (Option (List ℕ)) → SideChunkAssembly
parts seen total count capacity fs = record {
  last_seen_ms = seen;
  total = total;
  received = fs;
  received_count = count;
  capacity = capacity;
}

second_if :
    (b : Bool) (x y : Result ℕ × SideChunkAssembly)
    → (if b then x else y).1 ≡ (if b then x.1 else y.1)
second_if true x y = refl
second_if false x y = refl

-- The first fragment makes the slots.
first_fragment :
    (mem : Allocator) (i now : ℕ) (s : List ℕ) (seen total count capacity cap : ℕ)
    → i < total
    → ((bytes largest : ℕ) → mem.check bytes largest ≡ true)
    → mem.reserve 0 total ≡ some cap
    → (insert_with mem i now s (parts seen total count capacity [])).1
      ≡ store i now s (parts seen total count cap (empty_slots total))
unfolding insert_with make_slots contains_index
first_fragment mem i now s seen total count capacity cap h admits made =
    let inside : leb total i ≡ false = ground arith in
    rw (inside, insert_with)
      (rw
        (
          admits (sat_add usize_max (descriptor_bytes total) 128)
              (sat_add usize_max (descriptor_bytes total) 32),
          make_slots,
        )
        (rw (made, make_slots) refl))

-- A fragment for an empty slot is stored, and one for a filled slot changes nothing.
next_fragment :
    (mem : Allocator) (i now : ℕ) (s : List ℕ) (seen total count capacity : ℕ) (f : Option (List ℕ))
    (fs : List (Option (List ℕ)))
    → i < total
    → length (f ∷ fs) ≡ total
    → (let a = parts seen total count capacity (f ∷ fs) in
        (insert_with mem i now s a).1
        ≡ (if is_filled (get_elem? (f ∷ fs) i) then a else store i now s a))
unfolding insert_with make_slots contains_index
next_fragment mem i now s seen total count capacity f fs h e =
    let inside : leb total i ≡ false = ground arith in
    let same : (length (f ∷ fs) == total) ≡ true = ground arith in
    rw (inside, same, insert_with)
      (second_if (is_filled (get_elem? (f ∷ fs) i)) (ok 0, parts seen total count capacity (f ∷ fs))
        (ok (added_cost s false total), store i now s (parts seen total count capacity (f ∷ fs))))

-- What an insertion makes of an assembly.
pub record Takes (slices : List (List ℕ)) (i : ℕ) (a b : SideChunkAssembly) : Type 0 where
  pub partial : IsPartial slices b
  pub has : Holds i b
  pub keeps : (j : ℕ) → Holds j a → Holds j b

no_slot_filled : (n i : ℕ) → is_filled (get_elem? (empty_slots n) i) ≡ false
unfolding empty_slots
no_slot_filled zero i = refl
no_slot_filled (suc n) zero = refl
no_slot_filled (suc n) (suc i) = no_slot_filled n i

pub get_elem?-inside :
    (ss : List (List ℕ)) (i : ℕ) (s : List ℕ) → get_elem? ss i ≡ some s → i < length ss
get_elem?-inside [] i s e = absurd (cc)
get_elem?-inside (t ∷ ss) zero s e = omega arith
get_elem?-inside (t ∷ ss) (suc i) s e = omega (arith, get_elem?-inside ss i s e)

stored :
    (slices : List (List ℕ)) (i now : ℕ) (s : List ℕ) (seen count capacity : ℕ)
    (fs : List (Option (List ℕ)))
    → get_elem? slices i ≡ some s
    → is_filled (get_elem? fs i) ≡ false
    → Agrees fs slices
    → count ≡ filled fs
    → Takes slices i
        (parts seen (length slices) count capacity fs)
        (store i now s (parts seen (length slices) count capacity fs))
stored slices i now s seen count capacity fs e n a c =
    let (b, more) = set-Agrees fs slices i s e n a in
    let inside : i < length fs =
      omega (arith, get_elem?-inside slices i s e, Agrees-length fs slices a) in
    record {
      partial = record { whole = refl; agrees = b; counts = omega (arith, more, c) };
      has = is_filled-set fs i i s (inr (refl, inside));
      keeps = λ j h. is_filled-set fs i j s (inl h);
    }

insert_next :
    (mem : Allocator) (slices : List (List ℕ)) (i now : ℕ) (s : List ℕ) (seen count capacity : ℕ)
    (fs : List (Option (List ℕ)))
    → get_elem? slices i ≡ some s
    → Agrees fs slices
    → count ≡ filled fs
    → Takes slices i
        (parts seen (length slices) count capacity fs)
        (insert_with mem i now s (parts seen (length slices) count capacity fs)).1
insert_next mem slices i now s seen count capacity [] e a c =
    absurd (omega (arith, get_elem?-inside slices i s e, Agrees-length [] slices a))
insert_next mem slices i now s seen count capacity (f ∷ fs) e a c =
    subst (Takes slices i (parts seen (length slices) count capacity (f ∷ fs)))
      (sym (
        next_fragment mem i now s seen (length slices) count capacity f fs
          (get_elem?-inside slices i s e) (Agrees-length (f ∷ fs) slices a)))
      (if_ind (Takes slices i (parts seen (length slices) count capacity (f ∷ fs)))
        (is_filled (get_elem? (f ∷ fs) i))
        (λ there. record {
          partial = record { whole = refl; agrees = a; counts = c };
          has = there;
          keeps = λ j h. h;
        })
        (λ new. stored slices i now s seen count capacity (f ∷ fs) e new a c))

insert_first :
    (mem : Allocator) (slices : List (List ℕ)) (i now : ℕ) (s : List ℕ) (seen capacity : ℕ)
    → Grants mem
    → get_elem? slices i ≡ some s
    → Takes slices i
        (parts seen (length slices) 0 capacity [])
        (insert_with mem i now s (parts seen (length slices) 0 capacity [])).1
insert_first mem slices i now s seen capacity g e =
    let (cap, made) = g.reserves 0 (length slices) in
    let t =
      stored slices i now s seen 0 cap (empty_slots (length slices)) e
        (no_slot_filled (length slices) i) (empty-Agrees slices)
        (sym (filled-empty (length slices))) in
    subst (Takes slices i (parts seen (length slices) 0 capacity []))
      (sym (
        first_fragment mem i now s seen (length slices) 0 capacity cap
          (get_elem?-inside slices i s e) g.admits made))
      (record { partial = t.partial; has = t.has; keeps = λ j (h : false ≡ true). absurd (cc) })

-- Every fragment is taken, and what was there before stays.
pub insert_with-Takes :
    (mem : Allocator) (slices : List (List ℕ)) (i now : ℕ) (s : List ℕ) (a : SideChunkAssembly)
    → Grants mem
    → get_elem? slices i ≡ some s
    → Ready slices a
    → Takes slices i a (insert_with mem i now s a).1
insert_with-Takes mem slices i now s a g e (inl (empty, zero_count, whole)) =
    subst (λ x. Takes slices i x (insert_with mem i now s x).1)
      (ap (λ t. record a { total = t; received = []; received_count = 0 }) (sym whole)
        ∙ ap (λ n. record a { received = []; received_count = n }) (sym zero_count)
        ∙ ap (λ f. record a { received = f }) (sym empty))
      (insert_first mem slices i now s a.last_seen_ms a.capacity g e)
insert_with-Takes mem slices i now s a g e (inr p) =
    subst (λ x. Takes slices i x (insert_with mem i now s x).1)
      (ap (λ t. record a { total = t }) (sym p.whole))
      (insert_next mem slices i now s a.last_seen_ms a.received_count a.capacity a.received e
        p.agrees p.counts)
