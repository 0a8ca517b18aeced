-- ===== src/Side/Whole.antt =====
-- A frame that was cut into chunks, delivered and assembled again, src/side_transport.rs.
use sedsnet.Errors.{ok}
use sedsnet.Side.Copied.{assemble-all_there, all_there}
use sedsnet.Side.Chunks.{split-IsSplit, concat-payloads, length-payloads_from, payloads}
use sedsnet.Side.Frames.{concat_parts, split, SideTransportFrames}
use sedsnet.Base.{
  sym, subst, ap, usize_max, opt_ind, arith, get_elem?, Bool-cases, length, ℕ, Option, List, ◌==◌,
  ◌∙◌, ◌<◌, ◌≤◌, ◌≡◌, refl, false, true, suc, zero, ◌∷◌, [], inr, inl, some, none,
}
use sedsnet.Side.Assembly.{no_assembly, insert_with, is_filled, SideChunkAssembly}
use sedsnet.Side.Assemble.{assemble}
use sedsnet.Side.Inserted.{insert_with-Takes}
use sedsnet.Side.Delivered.{Holds, Grants, Ready, Agrees, filled, deliver}
use sedsnet.Queue.Room.{Allocator}
use sedsnet.Wire.Unique.{contains}

slot_inside : (ss : List (List ℕ)) (i : ℕ) → i < length ss → ¬ (get_elem? ss i ≡ none)
slot_inside [] i h e = absurd (omega (arith, h))
slot_inside (s ∷ ss) zero h e = absurd (cc)
slot_inside (s ∷ ss) (suc i) h e = slot_inside ss i (omega (arith, h)) e

-- What has arrived with the chunks of an order.
record Arrived (slices : List (List ℕ)) (order : List ℕ) (a b : SideChunkAssembly) : Type 0 where
  ready : Ready slices b
  keeps : (j : ℕ) → Holds j a → Holds j b
  has : (j : ℕ) → j < length slices → contains j order ≡ true → Holds j b

head_or_tail :
    (P : Type 0) (j i : ℕ) (order : List ℕ)
    → contains j (i ∷ order) ≡ true
    → (j ≡ i → P)
    → (contains j order ≡ true → P)
    → P
unfolding contains
head_or_tail P j i order c h t = elim (Bool-cases (j == i)) [
  | inl e ↦ h (ground (arith, e))
  | inr n ↦ t (ground (arith, n, c))
]

deliver-Arrived :
    (mem : Allocator) (now : ℕ) (slices : List (List ℕ)) (order : List ℕ) (a : SideChunkAssembly)
    → Grants mem
    → Ready slices a
    → Arrived slices order a (deliver mem now slices order a)
unfolding deliver contains
deliver-Arrived mem now slices [] a g r = record {
  ready = r;
  keeps = λ j h. h;
  has = λ j h (c : false ≡ true). absurd (cc);
}
deliver-Arrived mem now slices (i ∷ order) a g r =
    opt_ind (Arrived slices (i ∷ order) a) (get_elem? slices i)
      (λ n.
        let d = deliver-Arrived mem now slices order a g r in
        record {
          ready = d.ready;
          keeps = d.keeps;
          has = λ j h c.
              head_or_tail _ j i order c
                (λ e. absurd (slot_inside slices i (omega (arith, h, e)) n)) (d.has j h);
        })
      (λ s e.
        let t = insert_with-Takes mem slices i now s a g e r in
        let d =
          deliver-Arrived mem now slices order (insert_with mem i now s a).1 g (inr t.partial) in
        record {
          ready = d.ready;
          keeps = λ j h. d.keeps j (t.keeps j h);
          has = λ j h c.
              head_or_tail _ j i order c
                (λ e. d.keeps j (subst (λ k. Holds k (insert_with mem i now s a).1) (sym e) t.has))
                (d.has j h);
        })

full :
    (fs : List (Option (List ℕ))) (ss : List (List ℕ))
    → Agrees fs ss
    → ((j : ℕ) → j < length ss → is_filled (get_elem? fs j) ≡ true)
    → (fs ≡ all_there ss) × (filled fs ≡ length ss)
unfolding filled
full [] [] a h = (refl, refl)
full [] (s ∷ ss) a h = absurd a
full (f ∷ fs) [] a h = absurd a
full (none ∷ fs) (s ∷ ss) a h = let no : false ≡ true = h 0 (omega arith) in absurd (cc)
full (some f ∷ fs) (s ∷ ss) a h =
    let (e, n) = full fs ss a.1 (λ j k. h (suc j) (omega (arith, k))) in
    (ap (λ x. some x ∷ fs) a.0 ∙ ap (λ l. some s ∷ l) e, ap suc n)

nothing_missing :
    (slices : List (List ℕ)) (a : SideChunkAssembly)
    → Ready slices a
    → ((j : ℕ) → j < length slices → Holds j a)
    → (a.received ≡ all_there slices) × (a.received_count ≡ a.total)
nothing_missing [] a (inl (empty, none_there, whole)) h = (empty, omega (arith, none_there, whole))
nothing_missing (s ∷ ss) a (inl (empty, none_there, whole)) h =
    let no : false ≡ true =
      subst (λ fs. is_filled (get_elem? fs 0) ≡ true) empty (h 0 (omega arith)) in
    absurd (cc)
nothing_missing slices a (inr p) h =
    let (e, n) = full a.received slices p.agrees h in (e, omega (arith, n, p.counts, p.whole))

-- A frame that `split` cuts into chunks is assembled again, byte for byte, from the chunks that are
-- inserted in any order and however often, when each has arrived at least once, the frame is within
-- `usize`, and no allocation is refused.
pub assemble-deliver :
    (mem : Allocator) (now : ℕ) (frame : List ℕ) (max_bytes : ℕ) (sender : List ℕ)
    (f : SideTransportFrames) (order : List ℕ)
    → Grants mem
    → split frame max_bytes sender ≡ ok f
    → length frame ≤ usize_max
    → ((j : ℕ) → j < f.total → contains j order ≡ true)
    → assemble mem (deliver mem now (payloads f) order (record no_assembly { total = f.total }))
      ≡ ok frame
unfolding payloads
assemble-deliver mem now frame max_bytes sender f order g e h covers =
    let start = record no_assembly { total = f.total } in
    let count : length (payloads f) ≡ f.total = length-payloads_from f.total 0 f in
    let whole : concat_parts (payloads f) ≡ frame =
      concat-payloads frame f (split-IsSplit frame max_bytes sender f e) in
    let d = deliver-Arrived mem now (payloads f) order start g (inl (refl, refl, sym count)) in
    let (there, complete) =
      nothing_missing (payloads f) (deliver mem now (payloads f) order start) d.ready
        (λ j k. d.has j k (covers j (omega (arith, k, count)))) in
    assemble-all_there mem (payloads f) (deliver mem now (payloads f) order start) g there complete
      (omega (arith, h, ap length whole))
    ∙ ap ok whole
