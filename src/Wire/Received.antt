-- ===== src/Wire/Received.antt =====
-- The parts that `unpack_packet` reads back, src/wire_format.rs: the endpoints, the contract, the
-- reliable header and the payload.
use sedsnet.Errors.{ok}
use sedsnet.Wire.Unpack.{read_data_header}
use sedsnet.Wire.Receiver.{
  owners_of, ascends, schema_endpoints_from_type, endpoint_arc_from_iter, Receiver,
  endpoints_from_wire_or_schema,
}
use sedsnet.Wire.Ends.{lift-Parses}
use sedsnet.Wire.EndpointTrip.{
  guard-Parses, endpoint_list_iter-write_ids, read_endpoint_list-Parses,
}
use sedsnet.Wire.Parses.{skip-Parses, pure-Parses, last-Parses, Parses}
use sedsnet.Wire.Reliable.{
  should_compact_reliable_header, write_reliable_header_encoded, public_flags, ReliableHeader,
  ack_only,
}
use sedsnet.Wire.ReliableTrip.{read_reliable_header_encoded-Parses, IsHeader}
use sedsnet.Wire.Pack.{write_reliable_if, is_compact, carries_contract, Packet}
use sedsnet.Base.{
  not, subst, is_some, Option, if◌then◌else◌, ◌||◌, some, none, Bool-cases, ◌==◌, ◌&&◌, inr, inl,
  List, ℕ, Bool, true, false, ◌≡◌, ◌<◌, ◌∙◌, sym, ap, length, refl, arith, ◌∷◌, [],
}
use sedsnet.Wire.Contract.{no_contract, WireContract}
use sedsnet.Wire.ContractTrip.{contract_of}
use sedsnet.Wire.Shape.{MessageElement}
use sedsnet.Wire.Envelope.{all_exist}
use sedsnet.Wire.PackTrip.{unique-AreSmall, IsPacket}
use sedsnet.Wire.Endpoints.{write_ids, unique_sorted_endpoints}
use sedsnet.Wire.Unique.{unique_sorted_endpoints_lem, contains}

pub filled_as :
    (xs ys : List ℕ)
    → ((x : ℕ) → contains x xs ≡ contains x ys)
    → 0 < length ys
    → (length xs == 0) ≡ false
unfolding contains
filled_as (x ∷ xs) ys s h = ground arith
filled_as [] [] s h = absurd (omega arith)
filled_as [] (y ∷ ys) s h =
    let member : contains y (y ∷ ys) ≡ true = ground arith in absurd (cc (s y, member))

-- Endpoints that are read back.
pub record AreRead (u : Receiver) (pkt : Packet) (bitmap_present list_present : Bool)
    (bytes : List ℕ) : Type 0 where
  pub endpoints : List ℕ
  pub read :
      Parses
        (endpoints_from_wire_or_schema u bitmap_present list_present pkt.data_type
          (length (unique_sorted_endpoints pkt.endpoints)))
        bytes
        endpoints
  pub members : (x : ℕ) → contains x endpoints ≡ contains x pkt.endpoints

endpoint_arc_from_iter_same :
    (eps : List ℕ) (n : ℕ) → length eps ≡ n → endpoint_arc_from_iter n eps ≡ ok eps
unfolding endpoint_arc_from_iter
endpoint_arc_from_iter_same eps n e =
    let same : (length eps == n) ≡ true = ground arith in rw (same, endpoint_arc_from_iter) refl

pub read_list :
    (u : Receiver) (pkt : Packet)
    → IsPacket pkt
    → AreRead u pkt false true (write_ids (unique_sorted_endpoints pkt.endpoints))
unfolding endpoints_from_wire_or_schema
read_list u pkt v =
    let eps = unique_sorted_endpoints pkt.endpoints in
    let small = unique-AreSmall pkt.endpoints v.endpoint_words in
    let (chain, members) = unique_sorted_endpoints_lem pkt.endpoints in
    record {
      endpoints = eps;
      read = last-Parses _ (read_endpoint_list-Parses eps chain small) (
          lift-Parses (
            ap (endpoint_arc_from_iter (length eps)) (endpoint_list_iter-write_ids eps small)
            ∙ endpoint_arc_from_iter_same eps _ refl));
      members = members;
    }

pub read_schema :
    (u : Receiver) (pkt : Packet)
    → u.data_type_exists pkt.data_type ≡ true
    → unique_sorted_endpoints pkt.endpoints ≡ unique_sorted_endpoints (u.endpoints_of pkt.data_type)
    → AreRead u pkt false false []
unfolding endpoints_from_wire_or_schema schema_endpoints_from_type
read_schema u pkt known same =
    let schema = u.endpoints_of pkt.data_type in
    let nep = length (unique_sorted_endpoints pkt.endpoints) in
    let back : (x : ℕ) → contains x (unique_sorted_endpoints schema) ≡ contains x pkt.endpoints =
      λ x. ap (contains x) (sym same) ∙ (unique_sorted_endpoints_lem pkt.endpoints).1 x in
    elim (Bool-cases
      ((length schema == nep) && ascends schema && all_exist u.endpoint_exists schema)) [
        | inl e ↦ record {
          endpoints = schema;
          read = rw (known, e, endpoints_from_wire_or_schema) (pure-Parses schema);
          members = λ x. sym ((unique_sorted_endpoints_lem schema).1 x) ∙ back x;
        }
        | inr e ↦ record {
          endpoints = unique_sorted_endpoints schema;
          read =
              rw (known, e, endpoints_from_wire_or_schema)
                (lift-Parses (endpoint_arc_from_iter_same _ nep (ap length (sym same))));
          members = back;
        }
      ]

-- The contract that is read from a frame, or the empty one.
abbrev pub contract_from : Option MessageElement → List ℕ → Bool → WireContract
contract_from shape targets reliable =
    if carries_contract shape targets then contract_of shape targets reliable else no_contract

pub contract_fields :
    (shape : Option MessageElement) (targets : List ℕ) (reliable : Bool)
    → let c = contract_from shape targets reliable in
      (c.shape ≡ shape) × (owners_of c ≡ targets) × (reliable || c.has_reliable_header ≡ reliable)
contract_fields none [] true = (refl, refl, refl)
contract_fields none [] false = (refl, refl, refl)
contract_fields none (x ∷ xs) true = (refl, refl, refl)
contract_fields none (x ∷ xs) false = (refl, refl, refl)
contract_fields (some e) [] true = (refl, refl, refl)
contract_fields (some e) [] false = (refl, refl, refl)
contract_fields (some e) (x ∷ xs) true = (refl, refl, refl)
contract_fields (some e) (x ∷ xs) false = (refl, refl, refl)

-- A reliable header that is not a mere acknowledgement.
abbrev pub SendsData : Option ReliableHeader → Type 0
SendsData none = Unit {0}
SendsData (some h) = IsHeader h × (ack_only h.flags ≡ false)

ack_only-public : (f : ℕ) → ack_only f ≡ false → ack_only (public_flags f) ≡ false
ack_only-public f h = ground arith

read_header :
    (h : ReliableHeader) (compact : Bool)
    → IsHeader h
    → ack_only h.flags ≡ false
    → Parses (read_data_header compact true) (write_reliable_header_encoded h compact) true
unfolding read_data_header
read_header h true v a =
    let data_sent : not (ack_only (public_flags h.flags)) ≡ true =
      rw (ack_only-public h.flags a) refl in
    last-Parses _ (read_reliable_header_encoded-Parses h true v)
      (skip-Parses _ (guard-Parses _ _ data_sent) (pure-Parses true))
read_header h false v a =
    let data_sent : not (ack_only h.flags) ≡ true = rw a refl in
    last-Parses _ (read_reliable_header_encoded-Parses h false v)
      (skip-Parses _ (guard-Parses _ _ data_sent) (pure-Parses true))

pub read_data_header-Parses :
    (reliable : Option ReliableHeader) (present : Bool)
    → SendsData reliable
    → present ≡ is_some reliable
    → Parses
        (read_data_header (is_compact reliable) present)
        (write_reliable_if reliable)
        (is_some reliable)
unfolding read_data_header
read_data_header-Parses none present v e = rw (e, read_data_header) (pure-Parses false)
read_data_header-Parses (some h) present v e =
    subst
      (λ p.
        Parses (read_data_header (should_compact_reliable_header h) p)
          (write_reliable_header_encoded h (should_compact_reliable_header h)) true)
      (sym e) (read_header h _ v.0 v.1)
