-- ===== src/Base/Names.antt =====
-- Strings as lists of their UTF-8 bytes, with the order of `str`.
use Prim.Native.Nat.{ℕ}
use mathlib.Core.Path.{◌≡◌, refl}
use mathlib.Core.Bool.{Bool, true, false, ◌&&◌, ◌||◌}
use mathlib.Core.List.{List, [], ◌∷◌}
use native.Mathlib.Omega.{arith}
use sedsnet.Base.Tests.{ltb, ◌==◌}

abbrev pub Name : Type 0
Name = List ℕ

abbrev pub name_lt : Name → Name → Bool
name_lt [] [] = false
name_lt [] (y ∷ ys) = true
name_lt (x ∷ xs) [] = false
name_lt (x ∷ xs) (y ∷ ys) = ltb x y || ((x == y) && name_lt xs ys)

abbrev pub name_eq : Name → Name → Bool
name_eq [] [] = true
name_eq [] (y ∷ ys) = false
name_eq (x ∷ xs) [] = false
name_eq (x ∷ xs) (y ∷ ys) = (x == y) && name_eq xs ys

pub name_eq→eq : (a b : Name) → name_eq a b ≡ true → a ≡ b
name_eq→eq [] [] h = refl
name_eq→eq [] (y ∷ ys) h = absurd (cc)
name_eq→eq (x ∷ xs) [] h = absurd (cc)
name_eq→eq (x ∷ xs) (y ∷ ys) h = ground (arith, name_eq→eq xs ys)

pub name_eq_refl : (a : Name) → name_eq a a ≡ true
name_eq_refl [] = refl
name_eq_refl (x ∷ xs) = ground (arith, name_eq_refl xs)

pub name_lt_trans : (a b c : Name) → name_lt a b ≡ true → name_lt b c ≡ true → name_lt a c ≡ true
name_lt_trans [] [] c h k = absurd (cc)
name_lt_trans [] (y ∷ ys) [] h k = absurd (cc)
name_lt_trans [] (y ∷ ys) (z ∷ zs) h k = refl
name_lt_trans (x ∷ xs) [] c h k = absurd (cc)
name_lt_trans (x ∷ xs) (y ∷ ys) [] h k = absurd (cc)
name_lt_trans (x ∷ xs) (y ∷ ys) (z ∷ zs) h k = ground (arith, name_lt_trans xs ys zs)

pub name_lt_total : (a b : Name) → name_lt a b ≡ false → name_eq a b ≡ false → name_lt b a ≡ true
name_lt_total [] [] h k = absurd (cc)
name_lt_total [] (y ∷ ys) h k = absurd (cc)
name_lt_total (x ∷ xs) [] h k = refl
name_lt_total (x ∷ xs) (y ∷ ys) h k = ground (arith, name_lt_total xs ys)

pub name_lt_negtrans :
    (a b c : Name) → name_lt a b ≡ false → name_lt b c ≡ false → name_lt a c ≡ false
name_lt_negtrans [] [] c h k = k
name_lt_negtrans [] (y ∷ ys) c h k = absurd (cc)
name_lt_negtrans (x ∷ xs) [] [] h k = refl
name_lt_negtrans (x ∷ xs) [] (z ∷ zs) h k = absurd (cc)
name_lt_negtrans (x ∷ xs) (y ∷ ys) [] h k = refl
name_lt_negtrans (x ∷ xs) (y ∷ ys) (z ∷ zs) h k = ground (arith, name_lt_negtrans xs ys zs)

pub name_lt_asym : (a b : Name) → name_lt a b ≡ true → name_lt b a ≡ false
name_lt_asym [] [] h = absurd (cc)
name_lt_asym [] (y ∷ ys) h = refl
name_lt_asym (x ∷ xs) [] h = absurd (cc)
name_lt_asym (x ∷ xs) (y ∷ ys) h = ground (arith, name_lt_asym xs ys)
