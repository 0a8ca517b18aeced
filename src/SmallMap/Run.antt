-- ===== src/SmallMap/Run.antt =====
-- Sequences of calls of `SmallMap` against the finite map.
use sedsnet.SmallMap.Filter.{retain_lem}
use sedsnet.SmallMap.Calls.{
  filtering, query, update, entry_or, removal, insertion, Expects, Call, expected, expected_answers,
  answers, perform,
}
use sedsnet.SmallMap.Refine.{get_lem, get_mut_lem, or_insert_with_lem, remove_lem, insert_lem}
use mathlib.Core.Path.{ap, ap₂}
use sedsnet.SmallMap.Lookup.{lookup}
use sedsnet.SmallMap.Search.{IsAscending}
use sedsnet.SmallMap.{SmallMap, KeyOrder}
use sedsnet.Base.{List, ◌∙◌, ◌≡◌, refl, ◌∷◌, []}

module _ {K V : Type 0} (o : KeyOrder K) where
  pub perform-Answers :
      (c : Call K V) (m : SmallMap K V)
      → IsAscending o m
      → Expects o (perform o c m) (expected o c (lookup o m))
  unfolding perform expected
  perform-Answers (insertion k v) m s = insert_lem o m k v s
  perform-Answers (removal k) m s = remove_lem o m k s
  perform-Answers (entry_or k v) m s = or_insert_with_lem o m k v s
  perform-Answers (update k f) m s = get_mut_lem o m k f s
  perform-Answers (query k) m s = record {
    answer = get_lem o m k s;
    ascending = s;
    stands_for = refl;
  }
  perform-Answers (filtering f) m s = retain_lem o m f s

  -- Whatever calls are made of a table with ascending keys, one after the other, it answers each of
  -- them as the finite map does that it stands for at the start.
  pub answers-Refines :
      (cs : List (Call K V)) (m : SmallMap K V)
      → IsAscending o m
      → answers o cs m ≡ expected_answers o cs (lookup o m)
  unfolding answers expected_answers
  answers-Refines [] m s = refl
  answers-Refines (c ∷ cs) m s =
      let r = perform-Answers c m s in
      let rest = answers-Refines cs (perform o c m).1 r.ascending in
      ap₂ (λ x xs. x ∷ xs) r.answer (rest ∙ ap (expected_answers o cs) r.stands_for)
