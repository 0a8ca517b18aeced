-- ===== src/Wire/Endpoints.antt =====
-- The endpoint fields of src/wire_format.rs. An endpoint is its number, a `u32`.
use sedsnet.Wire.Reader.{
  guard, to_u32, reader_of, read_uleb128, pure, Reader, remaining, Parser, ◌>>=◌, ◌>>◌,
}
use sedsnet.Base.{
  any, drop, ltb, leb, Bool, take, length, ℕ, List, Option, if◌then◌else◌, ◌==◌, ◌||◌, ◌-◌, ◌++◌,
  ◌+◌, true, suc, zero, ◌∷◌, [], some, none,
}
use sedsnet.Varint.Codec.{write_uleb128, uleb128_size}
use sedsnet.Errors.{unpack, TelemetryError, err, ok}

abbrev pub bitmap_bits : ℕ
bitmap_bits = 256

abbrev pub bitmap_bytes : ℕ
bitmap_bytes = 32

-- Whether an endpoint comes behind the last one, and the smaller of two.
abbrev pub comes_behind : Option ℕ → ℕ → Bool
comes_behind none endpoint = true
comes_behind (some previous) endpoint = ltb previous endpoint

abbrev pub smaller_of : ℕ → Option ℕ → Option ℕ
smaller_of endpoint none = some endpoint
smaller_of endpoint (some least) = some (if leb endpoint least then endpoint else least)

-- The least endpoint behind the last one.
unfoldable pub next_endpoint : Option ℕ → List ℕ → Option ℕ
next_endpoint previous [] = none
next_endpoint previous (e ∷ es) =
    let rest = next_endpoint previous es in
    if comes_behind previous e then smaller_of e rest else rest

-- What the iterator still gives; each round leaves one number behind.
unfoldable pub unique_from : ℕ → Option ℕ → List ℕ → List ℕ
unfolding next_endpoint
unique_from zero previous endpoints = []
unique_from (suc fuel) previous endpoints = elim (next_endpoint previous endpoints) [
  | none ↦ []
  | some next ↦ next ∷ unique_from fuel (some next) endpoints
]

unfoldable pub unique_sorted_endpoints : List ℕ → List ℕ
unfolding unique_from
unique_sorted_endpoints endpoints = unique_from (length endpoints) none endpoints

unfoldable pub sizes : List ℕ → ℕ
sizes [] = 0
sizes (e ∷ es) = uleb128_size e + sizes es

unfoldable pub endpoint_list_size : List ℕ → ℕ
unfolding unique_sorted_endpoints sizes
endpoint_list_size eps = sizes (unique_sorted_endpoints eps)

unfoldable pub explicit_endpoint_list : List ℕ → Bool
unfolding endpoint_list_size
explicit_endpoint_list eps =
    any (λ e. leb bitmap_bits e) eps || ltb (endpoint_list_size eps) bitmap_bytes

-- The loop of `with_packet_frame_parts` that writes the list.
unfoldable pub write_ids : List ℕ → List ℕ
write_ids [] = []
write_ids (e ∷ es) = write_uleb128 e ++ write_ids es

abbrev pub too_large : TelemetryError
too_large = unpack "endpoint too large"

abbrev pub not_sorted : TelemetryError
not_sorted = unpack "endpoint list is not unique and sorted"

-- The rounds of `read_endpoint_list`.
unfoldable pub read_ids : ℕ → Option ℕ → Parser (Unit {0})
read_ids zero previous = pure tt
read_ids (suc n) previous = do
  id ← read_uleb128 >>= to_u32 too_large
  guard (comes_behind previous id) not_sorted
  read_ids n (some id)

-- A parser, with the bytes that it went over.
unfoldable pub sliced : Parser (Unit {0}) → Parser (List ℕ)
sliced p r = elim (p r) [
  | err e ↦ err e
  | ok (u, s) ↦ ok (take (s.off - r.off) (drop r.off r.buf), s)
]

unfoldable pub read_endpoint_list : ℕ → Parser (List ℕ)
unfolding read_ids sliced
read_endpoint_list count = sliced (read_ids count none)

-- What `endpoint_list_iter` gives: it ends where the bytes end or are no endpoint.
unfoldable pub iterate_ids : ℕ → Reader → List ℕ
unfolding remaining
iterate_ids zero r = []
iterate_ids (suc fuel) r =
    if remaining r == 0 then [] else elim ((read_uleb128 >>= to_u32 too_large) r) [
      | err e ↦ []
      | ok (id, s) ↦ id ∷ iterate_ids fuel s
    ]

-- Every endpoint takes at least a byte.
unfoldable pub endpoint_list_iter : List ℕ → List ℕ
unfolding iterate_ids
endpoint_list_iter bytes = iterate_ids (length bytes) (reader_of bytes)
