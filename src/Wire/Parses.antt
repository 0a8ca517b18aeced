-- ===== src/Wire/Parses.antt =====
-- What it means that a parser reads bytes back, wherever they stand in a buffer, and how parsers
-- that do are joined.
use sedsnet.Base.{
  subst, length-append, arith, ◌==◌, ◌-◌, ◌≡◌, refl, true, append_assoc, [], length, append-nil,
  sym, ap, ℕ, List, ◌∙◌, ◌++◌,
}
use sedsnet.Wire.Reader.{◌>>=◌, reader_of, remaining, within, Reader, Parser, pure}
use sedsnet.Errors.{TelemetryError, ok}

-- A reader between what it has read and what is left.
abbrev pub between : List ℕ → List ℕ → Reader
between pre post = record { buf = pre ++ post; off = length pre }

pub record Parses {A : Type 0} (p : Parser A) (xs : List ℕ) (a : A) : Type 0 where
  pub reads : (pre post : List ℕ) → p (between pre (xs ++ post)) ≡ ok (a, between (pre ++ xs) post)

pub pure-Parses : {A : Type 0} (a : A) → Parses (pure a) [] a
pure-Parses a = record {
  reads = λ pre post. ap (λ l. ok (a, between l post)) (sym (append-nil pre));
}

pub bind-Parses :
    {A B : Type 0} {p : Parser A} (f : A → Parser B) {xs ys : List ℕ} {a : A} {b : B}
    → Parses p xs a
    → Parses (f a) ys b
    → Parses (p >>= f) (xs ++ ys) b
bind-Parses {p = p} f {xs} {ys} {a} {b} hp hf = record {
  reads = λ pre post.
      ap (λ l. (p >>= f) (between pre l)) (append_assoc xs ys post)
      ∙ rw (hp.reads pre (ys ++ post), ◌>>=◌) (hf.reads (pre ++ xs) post)
      ∙ ap (λ l. ok (b, between l post)) (append_assoc pre xs ys);
}

-- A last step that computes.
pub map-Parses :
    {A B : Type 0} {p : Parser A} (f : A → B) {xs : List ℕ} {a : A}
    → Parses p xs a
    → Parses (p >>= λ x. pure (f x)) xs (f a)
map-Parses {p = p} f {xs} {a} hp = record { reads = λ pre post. rw (hp.reads pre post, ◌>>=◌) refl }

-- A first step that reads nothing.
pub skip-Parses :
    {A B : Type 0} {p : Parser A} (f : A → Parser B) {ys : List ℕ} {a : A} {b : B}
    → Parses p [] a
    → Parses (f a) ys b
    → Parses (p >>= f) ys b
skip-Parses f hp hf = bind-Parses f hp hf

-- What stands in a part of its own is read there to its end.
pub within-Parses :
    {A : Type 0} (e : TelemetryError) {p : Parser A} {xs : List ℕ} {a : A}
    → Parses p xs a
    → Parses (within e xs p) [] a
unfolding within remaining
within-Parses e {p} {xs} {a} hp =
    let whole : p (reader_of xs) ≡ ok (a, between xs []) =
      ap (λ l. p (reader_of l)) (sym (append-nil xs)) ∙ hp.reads [] [] in
    let none_left : (length (xs ++ []) - length xs == 0) ≡ true =
      ground (arith, length-append xs []) in
    record {
      reads = λ pre post.
          rw (whole, within)
            (rw none_left (ap (λ l. ok (a, between l post)) (sym (append-nil pre))));
    }

-- A last step that reads nothing.
pub last-Parses :
    {A B : Type 0} {p : Parser A} (f : A → Parser B) {xs : List ℕ} {a : A} {b : B}
    → Parses p xs a
    → Parses (f a) [] b
    → Parses (p >>= f) xs b
last-Parses {p = p} f {xs} {a} {b} hp hf =
    subst (λ l. Parses (p >>= f) l b) (append-nil xs) (bind-Parses f hp hf)
