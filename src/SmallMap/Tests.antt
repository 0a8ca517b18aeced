-- ===== src/SmallMap/Tests.antt =====
-- Tests of `SmallMap`, and the theorems at concrete inputs.
use sedsnet.Base.{◌∷◌, [], false, true, some, arith, ltb, ℕ, List, ◌+◌, ◌≡◌, refl}
use sedsnet.SmallMap.Calls.{
  filtering, update, entry_or, removal, query, insertion, expected_answers, Call, answers,
}
use sedsnet.SmallMap.Run.{answers-Refines}
use sedsnet.SmallMap.{insert, remove, SmallMap, KeyOrder}
use sedsnet.SmallMap.Lookup.{lookup}
use sedsnet.SmallMap.Search.{IsAscending}

ltb_irrefl : (a : ℕ) → ltb a a ≡ false
ltb_irrefl a = ground arith

ltb_trans : (a b c : ℕ) → ltb a b ≡ true → ltb b c ≡ true → ltb a c ≡ true
ltb_trans a b c p q = ground arith

ltb_total : (a b : ℕ) → ltb a b ≡ false → ltb b a ≡ false → a ≡ b
ltb_total a b p q = ground arith

abbrev by_number : KeyOrder ℕ
by_number = record { lt = ltb; lt_irrefl = ltb_irrefl; lt_trans = ltb_trans; lt_total = ltb_total }

abbrev sides : SmallMap ℕ ℕ
sides = (2, 20) ∷ (5, 50) ∷ (9, 90) ∷ []

sides-IsAscending : IsAscending by_number sides
sides-IsAscending = ((refl, (refl, tt)), ((refl, tt), (tt, tt)))

inserted : (insert by_number sides 7 70).1 ≡ (2, 20) ∷ (5, 50) ∷ (7, 70) ∷ (9, 90) ∷ []
unfolding insert
inserted = refl

replaced : insert by_number sides 5 51 ≡ (some 50, (2, 20) ∷ (5, 51) ∷ (9, 90) ∷ [])
unfolding insert
replaced = refl

removed : remove by_number sides 9 ≡ (some 90, (2, 20) ∷ (5, 50) ∷ [])
unfolding remove
removed = refl

abbrev calls : List (Call ℕ ℕ)
calls =
    insertion 7 70
    ∷ query 7
    ∷ removal 2
    ∷ entry_or 5 0
    ∷ update 9 (λ v. v + 1)
    ∷ filtering (λ k v. (ltb 60 v, v))
    ∷ query 9
    ∷ query 5
    ∷ []

answers-Refines_example :
    answers by_number calls sides ≡ expected_answers by_number calls (lookup by_number sides)
answers-Refines_example = answers-Refines by_number calls sides sides-IsAscending
