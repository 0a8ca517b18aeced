-- ===== src/Wire/EndpointTrip.antt =====
-- The explicit endpoint list of src/wire_format.rs is read back as it was written.
use sedsnet.Wire.Reader.{Reader, guard, remaining, Parser}
use sedsnet.Errors.{Result, err, ok, TelemetryError}
use sedsnet.Wire.Bytes.{take-append, drop-append, length-write_uleb128, read_small-Parses}
use sedsnet.Base.{
  ap, ◌∙◌, length-append, u32_max, length, arith, All, ℕ, Option, Bool, List, ◌==◌, ◌-◌, ◌++◌, ◌<◌,
  ◌≤◌, ◌≡◌, refl, false, true, suc, zero, ◌∷◌, [], some, none,
}
use sedsnet.Wire.Endpoints.{
  endpoint_list_iter, not_sorted, comes_behind, too_large, read_endpoint_list, read_ids, write_ids,
  iterate_ids, sliced,
}
use sedsnet.Wire.Parses.{skip-Parses, bind-Parses, pure-Parses, between, Parses}
use sedsnet.Varint.Codec.{write_uleb128, size_loop, uleb128_size}
use sedsnet.Wire.Unique.{Chain}

abbrev pub AreSmall : List ℕ → Type 0
AreSmall es = All (λ e. e ≤ u32_max) es

pub guard-Parses : (test : Bool) (e : TelemetryError) → test ≡ true → Parses (guard test e) [] tt
guard-Parses test e h = rw h (pure-Parses tt)

read_ids-Parses :
    (previous : Option ℕ) (es : List ℕ)
    → Chain previous es
    → AreSmall es
    → Parses (read_ids (length es) previous) (write_ids es) tt
unfolding read_ids write_ids
read_ids-Parses previous [] c s = pure-Parses tt
read_ids-Parses previous (e ∷ es) c s = bind-Parses _ (read_small-Parses too_large e s.0) (
    skip-Parses _ (guard-Parses (comes_behind previous e) not_sorted c.0)
      (read_ids-Parses (some e) es c.1 s.1))

sliced-Parses : (p : Parser (Unit {0})) (xs : List ℕ) → Parses p xs tt → Parses (sliced p) xs xs
unfolding sliced
sliced-Parses p xs h = record {
  reads = λ pre post.
      let size : length (pre ++ xs) - length pre ≡ length xs =
        omega (arith, length-append pre xs) in
      rw (sliced, h.reads pre post)
        (rw (size, drop-append pre (xs ++ post), take-append xs post) refl);
}

-- Ascending endpoints of type `u32` are read as the bytes they were written to, wherever these stand.
pub read_endpoint_list-Parses :
    (es : List ℕ)
    → Chain none es
    → AreSmall es
    → Parses (read_endpoint_list (length es)) (write_ids es) (write_ids es)
unfolding read_endpoint_list
read_endpoint_list-Parses es c s = sliced-Parses _ (write_ids es) (read_ids-Parses none es c s)

uleb128_size_pos : (v : ℕ) → 0 < uleb128_size v
unfolding uleb128_size size_loop
uleb128_size_pos v = ground arith

length-write_ids : (es : List ℕ) → AreSmall es → length es ≤ length (write_ids es)
unfolding write_ids
length-write_ids [] s = omega arith
length-write_ids (e ∷ es) s = omega (
  arith,
  length-append (write_uleb128 e) (write_ids es),
  length-write_uleb128 e (omega (arith, s.0)),
  uleb128_size_pos e,
  length-write_ids es s.1,
)

iterate_ids-write_ids :
    (fuel : ℕ) (pre es : List ℕ)
    → length es ≤ fuel
    → AreSmall es
    → iterate_ids fuel (between pre (write_ids es)) ≡ es
unfolding iterate_ids write_ids remaining
iterate_ids-write_ids zero pre [] h s = refl
iterate_ids-write_ids zero pre (e ∷ es) h s = absurd (omega arith)
iterate_ids-write_ids (suc fuel) pre [] h s =
    let ended : (length (pre ++ []) - length pre == 0) ≡ true =
      ground (arith, length-append pre []) in
    rw ended refl
iterate_ids-write_ids (suc fuel) pre (e ∷ es) h s =
    let more : (length (pre ++ (write_uleb128 e ++ write_ids es)) - length pre == 0) ≡ false =
      ground (
        arith,
        length-append pre (write_uleb128 e ++ write_ids es),
        length-append (write_uleb128 e) (write_ids es),
        length-write_uleb128 e (omega (arith, s.0)),
        uleb128_size_pos e,
      ) in
    rw more (
      ap (λ (r : Result (ℕ × Reader)). elim r [ err f ↦ [] | ok (id, t) ↦ id ∷ iterate_ids fuel t ])
        ((read_small-Parses too_large e s.0).reads pre (write_ids es))
      ∙ ap (λ l. e ∷ l) (iterate_ids-write_ids fuel (pre ++ write_uleb128 e) es (omega arith) s.1))

-- The bytes of a written list are iterated over as the endpoints of the list.
pub endpoint_list_iter-write_ids :
    (es : List ℕ) → AreSmall es → endpoint_list_iter (write_ids es) ≡ es
unfolding endpoint_list_iter
endpoint_list_iter-write_ids es s =
    iterate_ids-write_ids (length (write_ids es)) [] es (length-write_ids es s) s
