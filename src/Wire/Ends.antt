-- ===== src/Wire/Ends.antt =====
-- What it means that a parser reads a buffer to its end, where it looks at how many bytes are left.
use sedsnet.Base.{
  List, ℕ, ltb, length, ◌++◌, ◌≤◌, ◌≡◌, ◌∙◌, ◌-◌, ap, sym, append_assoc, append-nil, arith, [],
  false, refl, length-append,
}
use sedsnet.Wire.Parses.{Parses, between}
use sedsnet.Wire.Reader.{Parser, ◌>>=◌, ◌>>◌, remaining}
use sedsnet.Wire.Receiver.{lift, remaining_bytes}
use sedsnet.Wire.Rewrite.{check_room}
use sedsnet.Errors.{Result, ok, TelemetryError}

pub record Ends {A : Type 0} (p : Parser A) (xs : List ℕ) (a : A) : Type 0 where
  pub reads : (pre : List ℕ) → p (between pre xs) ≡ ok (a, between (pre ++ xs) [])

pub Parses-Ends : {A : Type 0} {p : Parser A} {xs : List ℕ} {a : A} → Parses p xs a → Ends p xs a
Parses-Ends {p = p} {xs} hp = record {
  reads = λ pre. ap (λ l. p (between pre l)) (sym (append-nil xs)) ∙ hp.reads pre [];
}

pub bind-Ends :
    {A B : Type 0} {p : Parser A} (f : A → Parser B) {xs ys : List ℕ} {a : A} {b : B}
    → Parses p xs a
    → Ends (f a) ys b
    → Ends (p >>= f) (xs ++ ys) b
bind-Ends f {xs} {ys} {a} {b} hp hf = record {
  reads = λ pre.
      rw (hp.reads pre ys, ◌>>=◌) (hf.reads (pre ++ xs))
      ∙ ap (λ l. ok (b, between l [])) (append_assoc pre xs ys);
}

-- A step that reads nothing.
pub skip-Ends :
    {A B : Type 0} {p : Parser A} (f : A → Parser B) {ys : List ℕ} {a : A} {b : B}
    → Parses p [] a
    → Ends (f a) ys b
    → Ends (p >>= f) ys b
skip-Ends f hp hf = bind-Ends f hp hf

pub lift-Parses : {A : Type 0} {r : Result A} {a : A} → r ≡ ok a → Parses (lift r) [] a
lift-Parses {a = a} e = record {
  reads = λ pre post. rw (e, lift) (ap (λ l. ok (a, between l post)) (sym (append-nil pre)));
}

-- A last step that computes.
pub last-Ends :
    {A B : Type 0} {p : Parser A} (f : A → Result B) {xs : List ℕ} {a : A} {b : B}
    → Ends p xs a
    → f a ≡ ok b
    → Ends (p >>= λ x. lift (f x)) xs b
last-Ends f hp e = record { reads = λ pre. rw (hp.reads pre, ◌>>=◌) (rw (e, lift) refl) }

pub room-Ends :
    {B : Type 0} (n : ℕ) (e : TelemetryError) (q : Parser B) (ys : List ℕ) (b : B)
    → n ≤ length ys
    → Ends q ys b
    → Ends (check_room n e >> q) ys b
unfolding check_room remaining
room-Ends n e q ys b room hq = record {
  reads = λ pre.
      let enough : ltb (length (pre ++ ys) - length pre) n ≡ false =
        ground (arith, length-append pre ys) in
      rw (◌>>=◌, enough) (hq.reads pre);
}

pub left-Ends :
    {B : Type 0} (f : ℕ → Parser B) {ys : List ℕ} {b : B}
    → Ends (f (length ys)) ys b
    → Ends (remaining_bytes >>= f) ys b
unfolding remaining_bytes remaining
left-Ends f {ys} hf = record {
  reads = λ pre.
      let same : length (pre ++ ys) - length pre ≡ length ys =
        omega (arith, length-append pre ys) in
      rw (◌>>=◌, same) (hf.reads pre);
}
