-- ===== src/Side/Delivered.antt =====
-- Fragments that are inserted into an assembly, src/side_transport.rs, in whatever order and however
-- often.
use sedsnet.Base.{
  some-injective, arith, sym, set, get_elem?, ap, length, Option, List, ℕ, ◌⊎◌, ◌<◌, ◌≡◌, refl,
  false, true, suc, zero, ◌∷◌, [], inr, inl, some, none,
}
use sedsnet.Side.Assembly.{is_filled, SideChunkAssembly, insert_with, empty_slots}
use sedsnet.Queue.Room.{Allocator}

-- An allocator that grants everything it is asked for.
pub record Grants (mem : Allocator) : Type 0 where
  pub admits : (bytes largest : ℕ) → mem.check bytes largest ≡ true
  pub reserves : (len add : ℕ) → (cap : ℕ) × (mem.reserve len add ≡ some cap)

-- The chunks that arrive, by their index; `slices` are the payloads they carry.
unfoldable pub deliver :
    Allocator → ℕ → List (List ℕ) → List ℕ → SideChunkAssembly → SideChunkAssembly
unfolding insert_with
deliver mem now slices [] a = a
deliver mem now slices (i ∷ order) a = elim (get_elem? slices i) [
  | none ↦ deliver mem now slices order a
  | some s ↦ deliver mem now slices order (insert_with mem i now s a).1
]

unfoldable pub filled : List (Option (List ℕ)) → ℕ
filled [] = 0
filled (none ∷ fs) = filled fs
filled (some f ∷ fs) = suc (filled fs)

-- Every slot is empty or has its slice.
abbrev pub Agrees : List (Option (List ℕ)) → List (List ℕ) → Type 0
Agrees [] [] = Unit
Agrees [] (s ∷ ss) = ⊥
Agrees (f ∷ fs) [] = ⊥
Agrees (none ∷ fs) (s ∷ ss) = Agrees fs ss
Agrees (some f ∷ fs) (s ∷ ss) = (f ≡ s) × Agrees fs ss

pub empty-Agrees : (ss : List (List ℕ)) → Agrees (empty_slots (length ss)) ss
unfolding empty_slots
empty-Agrees [] = tt
empty-Agrees (s ∷ ss) = empty-Agrees ss

pub filled-empty : (n : ℕ) → filled (empty_slots n) ≡ 0
unfolding filled empty_slots
filled-empty zero = refl
filled-empty (suc n) = filled-empty n

pub Agrees-length :
    (fs : List (Option (List ℕ))) (ss : List (List ℕ)) → Agrees fs ss → length fs ≡ length ss
Agrees-length [] [] a = refl
Agrees-length [] (s ∷ ss) a = absurd a
Agrees-length (f ∷ fs) [] a = absurd a
Agrees-length (none ∷ fs) (s ∷ ss) a = ap suc (Agrees-length fs ss a)
Agrees-length (some f ∷ fs) (s ∷ ss) a = ap suc (Agrees-length fs ss a.1)

-- A slot that is empty takes its slice.
pub set-Agrees :
    (fs : List (Option (List ℕ))) (ss : List (List ℕ)) (i : ℕ) (s : List ℕ)
    → get_elem? ss i ≡ some s
    → is_filled (get_elem? fs i) ≡ false
    → Agrees fs ss
    → Agrees (set fs i (some s)) ss × (filled (set fs i (some s)) ≡ suc (filled fs))
unfolding filled
set-Agrees [] [] i s e n a = absurd (cc)
set-Agrees [] (t ∷ ss) i s e n a = absurd a
set-Agrees (f ∷ fs) [] i s e n a = absurd a
set-Agrees (none ∷ fs) (t ∷ ss) zero s e n a = ((sym (some-injective _ _ e), a), refl)
set-Agrees (some f ∷ fs) (t ∷ ss) zero s e n a = absurd (cc)
set-Agrees (none ∷ fs) (t ∷ ss) (suc i) s e n a = set-Agrees fs ss i s e n a
set-Agrees (some f ∷ fs) (t ∷ ss) (suc i) s e n a =
    let (b, c) = set-Agrees fs ss i s e n a.1 in ((a.0, b), ap suc c)

pub is_filled-set :
    (fs : List (Option (List ℕ))) (i j : ℕ) (s : List ℕ)
    → (is_filled (get_elem? fs j) ≡ true) ⊎ ((i ≡ j) × (i < length fs))
    → is_filled (get_elem? (set fs i (some s)) j) ≡ true
is_filled-set [] i j s (inl h) = h
is_filled-set [] i j s (inr h) = absurd (omega (arith, h.1))
is_filled-set (f ∷ fs) zero zero s h = refl
is_filled-set (f ∷ fs) zero (suc j) s (inl h) = h
is_filled-set (f ∷ fs) zero (suc j) s (inr h) = absurd (omega (arith, h.0))
is_filled-set (f ∷ fs) (suc i) zero s (inl h) = h
is_filled-set (f ∷ fs) (suc i) zero s (inr h) = absurd (omega (arith, h.0))
is_filled-set (f ∷ fs) (suc i) (suc j) s (inl h) = is_filled-set fs i j s (inl h)
is_filled-set (f ∷ fs) (suc i) (suc j) s (inr h) =
    is_filled-set fs i j s (inr (omega (arith, h.0), omega (arith, h.1)))

-- An assembly that has some of the slices.
pub record IsPartial (slices : List (List ℕ)) (a : SideChunkAssembly) : Type 0 where
  pub whole : a.total ≡ length slices
  pub agrees : Agrees a.received slices
  pub counts : a.received_count ≡ filled a.received

abbrev pub Holds : ℕ → SideChunkAssembly → Type 0
Holds j a = is_filled (get_elem? a.received j) ≡ true

-- The assembly before its first fragment, and one that has some.
abbrev pub Ready : List (List ℕ) → SideChunkAssembly → Type 0
Ready slices a =
    ((a.received ≡ []) × (a.received_count ≡ 0) × (a.total ≡ length slices)) ⊎ IsPartial slices a
