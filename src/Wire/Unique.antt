-- ===== src/Wire/Unique.antt =====
-- `unique_sorted_endpoints` of src/wire_format.rs gives the endpoints of a list in strictly ascending
-- order, each once.
use sedsnet.Base.{
  Bool-cases, ==_iff, ◌∙◌, inr, inl, leb, ltb, if_ind, sym, subst, arith, length, Bool, opt_ind,
  List, ℕ, Option, if◌then◌else◌, ◌==◌, ◌||◌, ◌&&◌, ◌<◌, ◌≤◌, ◌+◌, ◌≡◌, refl, false, true, suc,
  zero, ◌∷◌, [], some, none,
}
use sedsnet.Wire.Endpoints.{
  unique_sorted_endpoints, smaller_of, comes_behind, unique_from, next_endpoint,
}

-- Each number is behind the one before it.
abbrev pub Chain : Option ℕ → List ℕ → Type 0
Chain previous [] = Unit
Chain previous (x ∷ xs) = (comes_behind previous x ≡ true) × Chain (some x) xs

unfoldable pub contains : ℕ → List ℕ → Bool
contains x [] = false
contains x (e ∷ es) = (x == e) || contains x es

behind : Option ℕ → List ℕ → ℕ
behind previous [] = 0
behind previous (e ∷ es) = (if comes_behind previous e then 1 else 0) + behind previous es

-- What a next endpoint is: none behind the last one, or the least of them.
record IsNext (previous : Option ℕ) (es : List ℕ) (n : ℕ) : Type 0 where
  is_behind : comes_behind previous n ≡ true
  member : contains n es ≡ true
  least : (x : ℕ) → contains x es ≡ true → comes_behind previous x ≡ true → n ≤ x

Next : Option ℕ → List ℕ → Option ℕ → Type 0
Next previous es none = (x : ℕ) → contains x es ≡ true → comes_behind previous x ≡ false
Next previous es (some n) = IsNext previous es n

one_more :
    (previous : Option ℕ) (e : ℕ) (es : List ℕ) (rest : Option ℕ)
    → Next previous es rest
    → Next previous (e ∷ es) (if comes_behind previous e then smaller_of e rest else rest)
unfolding Next contains
one_more none e es none h = record {
  is_behind = refl;
  member = ground arith;
  least = λ x m b. ground (arith, h x);
}
one_more (some p) e es none h =
    if_ind (λ r. Next (some p) (e ∷ es) r) (ltb p e)
      (λ t. record { is_behind = t; member = ground arith; least = λ x m b. ground (arith, h x) })
      (λ f x m. ground (arith, h x))
one_more none e es (some n) h =
    if_ind (λ r. IsNext none (e ∷ es) r) (leb e n)
      (λ t. record {
        is_behind = refl;
        member = ground arith;
        least = λ x m b. ground (arith, h.least x);
      })
      (λ f. record {
        is_behind = refl;
        member = ground (arith, h.member);
        least = λ x m b. ground (arith, h.least x);
      })
one_more (some p) e es (some n) h =
    if_ind (λ r. Next (some p) (e ∷ es) r) (ltb p e)
      (λ t.
        if_ind (λ r. IsNext (some p) (e ∷ es) r) (leb e n)
          (λ u. record {
            is_behind = t;
            member = ground arith;
            least = λ x m b. ground (arith, h.least x);
          })
          (λ u. record {
            is_behind = h.is_behind;
            member = ground (arith, h.member);
            least = λ x m b. ground (arith, h.least x);
          }))
      (λ f. record {
        is_behind = h.is_behind;
        member = ground (arith, h.member);
        least = λ x m b. ground (arith, h.least x);
      })

next_endpoint-Next :
    (previous : Option ℕ) (es : List ℕ) → Next previous es (next_endpoint previous es)
unfolding Next contains next_endpoint
next_endpoint-Next previous [] = λ x m. absurd (cc)
next_endpoint-Next previous (e ∷ es) =
    one_more previous e es (next_endpoint previous es) (next_endpoint-Next previous es)

-- The next endpoint is behind the last one, so that fewer are behind it.
behind_le :
    (previous : Option ℕ) (n : ℕ) (es : List ℕ)
    → comes_behind previous n ≡ true
    → behind (some n) es ≤ behind previous es
unfolding behind
behind_le previous n [] h = omega arith
behind_le none n (e ∷ es) h = ground (arith, behind_le none n es h)
behind_le (some p) n (e ∷ es) h = ground (arith, behind_le (some p) n es h)

behind_lt :
    (previous : Option ℕ) (n : ℕ) (es : List ℕ)
    → comes_behind previous n ≡ true
    → contains n es ≡ true
    → behind (some n) es < behind previous es
unfolding behind contains
behind_lt previous n [] h m = absurd (cc)
behind_lt none n (e ∷ es) h m = ground (arith, behind_lt none n es h, behind_le none n es h)
behind_lt (some p) n (e ∷ es) h m =
    ground (arith, behind_lt (some p) n es h, behind_le (some p) n es h)

behind_zero :
    (previous : Option ℕ) (x : ℕ) (es : List ℕ)
    → behind previous es ≡ 0
    → contains x es && comes_behind previous x ≡ false
unfolding behind contains
behind_zero previous x [] h = refl
behind_zero none x (e ∷ es) h = ground (arith, behind_zero none x es)
behind_zero (some p) x (e ∷ es) h = ground (arith, behind_zero (some p) x es)

behind_bound : (previous : Option ℕ) (es : List ℕ) → behind previous es ≤ length es
unfolding behind
behind_bound previous [] = omega arith
behind_bound previous (e ∷ es) = ground (arith, behind_bound previous es)

pub unique_from-Chain :
    (fuel : ℕ) (previous : Option ℕ) (es : List ℕ) → Chain previous (unique_from fuel previous es)
unfolding unique_from Next
unique_from-Chain zero previous es = tt
unique_from-Chain (suc fuel) previous es =
    opt_ind (Chain previous) (next_endpoint previous es) (λ n. tt)
      (λ next e.
        let k : IsNext previous es next =
          subst (Next previous es) e (next_endpoint-Next previous es) in
        (k.is_behind, unique_from-Chain fuel (some next) es))

member_step :
    (previous : Option ℕ) (es : List ℕ) (next x : ℕ) (rest : Bool)
    → IsNext previous es next
    → rest ≡ contains x es && comes_behind (some next) x
    → (x == next) || rest ≡ contains x es && comes_behind previous x
member_step none es next x rest k h = ground (arith, k.member, k.least x, ==_iff x next)
member_step (some p) es next x rest k h =
    ground (arith, k.member, k.least x, k.is_behind, ==_iff x next)

members :
    (fuel : ℕ) (previous : Option ℕ) (es : List ℕ) (x : ℕ)
    → behind previous es ≤ fuel
    → contains x (unique_from fuel previous es) ≡ contains x es && comes_behind previous x
unfolding unique_from contains Next
members zero previous es x h = sym (behind_zero previous x es (omega arith))
members (suc fuel) previous es x h =
    opt_ind (λ l. contains x l ≡ contains x es && comes_behind previous x)
      (next_endpoint previous es)
      (λ n. none_left (subst (Next previous es) n (next_endpoint-Next previous es)))
      (λ next e.
        let k : IsNext previous es next =
          subst (Next previous es) e (next_endpoint-Next previous es) in
        member_step previous es next x _ k (
          members fuel (some next) es x
            (omega (arith, behind_lt previous next es k.is_behind k.member))))
  where
    none_left :
        ((y : ℕ) → contains y es ≡ true → comes_behind previous y ≡ false)
        → false ≡ contains x es && comes_behind previous x
    none_left f = elim (Bool-cases (contains x es)) [
      | inl t ↦ rw (t, f x t) refl
      | inr n ↦ rw n refl
    ]

-- The endpoints of a list are given in strictly ascending order, and they are exactly those of the
-- list, however many times they stand in it.
pub unique_sorted_endpoints_lem :
    (es : List ℕ)
    → Chain none (unique_sorted_endpoints es)
      × ((x : ℕ) → contains x (unique_sorted_endpoints es) ≡ contains x es)
unfolding unique_sorted_endpoints
unique_sorted_endpoints_lem es = (
  unique_from-Chain (length es) none es,
  λ x. members (length es) none es x (behind_bound none es) ∙ and_true (contains x es),
)
  where
    and_true : (b : Bool) → b && true ≡ b
    and_true true = refl
    and_true false = refl
