-- ===== src/Wire/Found.antt =====
-- The destinations of a frame are found again in its envelope, src/wire_format.rs.
use sedsnet.Wire.Destination.{list-Parses, listed, schema-Parses, shared_with, eq_list→eq}
use sedsnet.Wire.Flags.{bitmap_field, listed_field}
use sedsnet.Base.{
  ltb, not, if_ind, ◌||◌, some, if◌then◌else◌, ◌≢◌, ◌<◌, sym, Option-cases, ap, arith, length,
  Option, List, ℕ, Bool, ◌==◌, ◌∙◌, ◌≡◌, refl, false, true, ◌∷◌, [], inr, inl,
}
use sedsnet.Wire.PackTrip.{unique-AreSmall, IsPacket}
use sedsnet.Wire.Pack.{
  p2p_message, by_list, write_endpoints, by_schema, packet_endpoint_bitmap_present, by_bitmap,
  EndpointField, endpoint_field, meta_endpoints, Packet, Services, endpoints_match_schema,
}
use sedsnet.Wire.Envelope.{read_destinations, RoutingEnvelope, Destinations, envelope_endpoints}
use sedsnet.Wire.Endpoints.{explicit_endpoint_list, write_ids, unique_from, unique_sorted_endpoints}
use sedsnet.Wire.Parses.{Parses}
use sedsnet.Wire.Reader.{has_bit}
use sedsnet.Wire.EndpointTrip.{endpoint_list_iter-write_ids}
use sedsnet.Wire.Unique.{unique_sorted_endpoints_lem, contains}
use sedsnet.Wire.Shape.{MessageElement}

-- How the destinations are found again.
pub record IsFound (s : Services) (pkt : Packet) (flags : ℕ) (xs : List ℕ) : Type 0 where
  pub destinations : Destinations
  pub read :
      Parses
        (read_destinations s flags (length (unique_sorted_endpoints pkt.endpoints)) pkt.data_type)
        xs
        destinations
  pub named :
      (e : RoutingEnvelope)
      → e.bitmap ≡ destinations.words
      → e.endpoint_list ≡ destinations.listed
      → e.schema_endpoints ≡ destinations.shared
      → envelope_endpoints e ≡ unique_sorted_endpoints pkt.endpoints

by_bytes :
    (s : Services) (pkt : Packet) (flags : ℕ)
    → has_bit flags 128 ≡ true
    → has_bit flags 32 ≡ false
    → IsPacket pkt
    → IsFound s pkt flags (write_ids (unique_sorted_endpoints pkt.endpoints))
unfolding envelope_endpoints
by_bytes s pkt flags l b v =
    let eps = unique_sorted_endpoints pkt.endpoints in
    let small = unique-AreSmall pkt.endpoints v.endpoint_words in
    record {
      destinations = listed (write_ids eps);
      read =
          list-Parses s flags pkt.data_type eps l b (unique_sorted_endpoints_lem pkt.endpoints).0
            small;
      named = λ e w p q. rw (envelope_endpoints, p) (endpoint_list_iter-write_ids eps small);
    }

by_type :
    (s : Services) (pkt : Packet) (flags : ℕ) (meta : List ℕ)
    → has_bit flags 128 ≡ false
    → has_bit flags 32 ≡ false
    → s.endpoints_of pkt.data_type ≡ some meta
    → unique_sorted_endpoints pkt.endpoints ≡ unique_sorted_endpoints meta
    → IsFound s pkt flags []
unfolding envelope_endpoints
by_type s pkt flags meta l b known same = record {
  destinations = shared_with meta;
  read = schema-Parses s flags _ pkt.data_type meta l b known (ap length (sym same));
  named = λ e w p q. rw (envelope_endpoints, p, q) (sym same);
}

-- A list with a number has a unique one.
some_unique : (x : ℕ) (xs : List ℕ) → (length (unique_sorted_endpoints (x ∷ xs)) == 0) ≡ false
unfolding contains
some_unique x xs =
    let member : contains x (unique_sorted_endpoints (x ∷ xs)) ≡ true =
      (unique_sorted_endpoints_lem (x ∷ xs)).1 x ∙ ground arith in
    filled (unique_sorted_endpoints (x ∷ xs)) member
  where
    filled : (l : List ℕ) → contains x l ≡ true → (length l == 0) ≡ false
    filled [] m = absurd (cc)
    filled (y ∷ ys) m = ground arith

unique-nil : unique_sorted_endpoints [] ≡ []
unfolding unique_sorted_endpoints unique_from
unique-nil = refl

-- Endpoints that match the schema are the schema's, and the schema has the type unless there are none.
matching :
    (s : Services) (ty x : ℕ) (xs : List ℕ)
    → endpoints_match_schema s ty (x ∷ xs) ≡ true
    → (meta : List ℕ) × (s.endpoints_of ty ≡ some meta)
      × (unique_sorted_endpoints (x ∷ xs) ≡ unique_sorted_endpoints meta)
unfolding endpoints_match_schema
matching s ty x xs h =
    let same =
      eq_list→eq (unique_sorted_endpoints (x ∷ xs)) (unique_sorted_endpoints (meta_endpoints s ty))
        h in
    elim (Option-cases (s.endpoints_of ty)) [
      | inl n ↦
          let none_there : unique_sorted_endpoints (meta_endpoints s ty) ≡ [] =
            rw (n, meta_endpoints) unique-nil in
          absurd (cc (ap (λ l. length l == 0) (same ∙ none_there), some_unique x xs))
      | inr (meta, k) ↦ (meta, k, same ∙ ap unique_sorted_endpoints (rw (k, meta_endpoints) refl))
    ]

or_parts : (a m c : Bool) → (a || not m) || c ≡ false → m ≡ true
or_parts true true c h = refl
or_parts true false c h = absurd (cc)
or_parts false true c h = refl
or_parts false false c h = absurd (cc)

not_by_schema : (test : Bool) → (if test then by_list else by_bitmap) ≡ by_schema → ¬ (Unit {0})
not_by_schema true e = cc
not_by_schema false e = cc

pub schema_matches :
    (s : Services) (pkt : Packet) (shape : Option MessageElement) (targets : List ℕ)
    → endpoint_field s pkt shape targets ≡ by_schema
    → endpoints_match_schema s pkt.data_type pkt.endpoints ≡ true
unfolding endpoint_field packet_endpoint_bitmap_present
schema_matches s pkt shape targets =
    if_ind (λ r. r ≡ by_schema → endpoints_match_schema s pkt.data_type pkt.endpoints ≡ true)
      (packet_endpoint_bitmap_present s pkt shape targets)
      (λ t e. absurd (not_by_schema (explicit_endpoint_list pkt.endpoints) e tt))
      (λ f e.
        or_parts (ltb p2p_message pkt.data_type)
          (endpoints_match_schema s pkt.data_type pkt.endpoints) _ f)

pub find_destinations :
    (s : Services) (pkt : Packet) (shape : Option MessageElement) (targets : List ℕ) (flags : ℕ)
    (field : EndpointField)
    → IsPacket pkt
    → 0 < length pkt.endpoints
    → endpoint_field s pkt shape targets ≡ field
    → field ≢ by_bitmap
    → has_bit flags 128 ≡ listed_field field
    → has_bit flags 32 ≡ bitmap_field field
    → IsFound s pkt flags (write_endpoints field pkt.endpoints)
find_destinations s pkt shape targets flags by_list v some_ends e n l b = by_bytes s pkt flags l b v
find_destinations s pkt shape targets flags by_bitmap v some_ends e n l b = absurd (n refl)
find_destinations s pkt shape targets flags by_schema v some_ends e n l b =
    let (meta, known, same) =
      matching_of pkt.endpoints some_ends (schema_matches s pkt shape targets e) in
    by_type s pkt flags meta l b known same
  where
    matching_of :
        (eps : List ℕ)
        → 0 < length eps
        → endpoints_match_schema s pkt.data_type eps ≡ true
        → (meta : List ℕ) × (s.endpoints_of pkt.data_type ≡ some meta)
          × (unique_sorted_endpoints eps ≡ unique_sorted_endpoints meta)
    matching_of [] h m = absurd (omega arith)
    matching_of (x ∷ xs) h m = matching s pkt.data_type x xs m

pub unique_nonzero :
    (eps : List ℕ) → 0 < length eps → (length (unique_sorted_endpoints eps) == 0) ≡ false
unique_nonzero [] h = absurd (omega arith)
unique_nonzero (x ∷ xs) h = some_unique x xs
