-- ===== src/Wire/Destination.antt =====
-- The destinations and the contract of a routing envelope, src/wire_format.rs, are read back.
use sedsnet.Wire.Parses.{
  within-Parses, last-Parses, pure-Parses, bind-Parses, map-Parses, skip-Parses, Parses,
}
use sedsnet.Wire.ContractTrip.{
  length-write_wire_contract, length-write_hashes, read_shape-Parses, wire_contract_size_bound,
  contract_bits, FitsContract, AreWords,
}
use sedsnet.Errors.{unpack, invalid_type}
use sedsnet.Wire.Bytes.{
  from_le_bytes-to_le_bytes, drop-append, read_bytes-Parses, take-append, read_byte-Parses,
  read_uleb128-Parses, length-to_le_bytes,
}
use sedsnet.Wire.Reader.{within, pure, to_le_bytes, has_bit}
use sedsnet.Base.{
  drop, leb, sym, take, length-append, is_some, ltb, ap, usize_max, arith, Bool, length, u64_max, ℕ,
  Option, List, if◌then◌else◌, ◌==◌, ◌&&◌, ◌∙◌, ◌*◌, ◌++◌, ◌≤◌, ◌+◌, ◌≡◌, refl, false, true, suc,
  zero, ◌∷◌, [], some, none,
}
use sedsnet.Wire.Contract.{
  target_count_error, contract_flags, write_targets_if, wire_contract_size, not_empty,
  write_wire_contract, write_hashes,
}
use sedsnet.Wire.Envelope.{
  count_mismatch, without_contract, no_words, RoutingContract, Destinations, read_routing_contract,
  read_routing_contract_if, read_destinations, words_of, read_target_bytes,
}
use sedsnet.Wire.EndpointTrip.{guard-Parses, read_endpoint_list-Parses, AreSmall}
use sedsnet.Wire.ShapeTrip.{or_fail-Parses}
use sedsnet.Wire.Pack.{write_contract_if, carries_contract, eq_list, Services}
use sedsnet.Varint.Codec.{write_uleb128}
use sedsnet.Wire.Endpoints.{write_ids, unique_sorted_endpoints}
use sedsnet.Wire.Unique.{Chain}
use sedsnet.Wire.Shape.{MessageElement}

pub eq_list→eq : (xs ys : List ℕ) → eq_list xs ys ≡ true → xs ≡ ys
eq_list→eq [] [] h = refl
eq_list→eq [] (y ∷ ys) h = absurd (cc)
eq_list→eq (x ∷ xs) [] h = absurd (cc)
eq_list→eq (x ∷ xs) (y ∷ ys) h = ground (arith, eq_list→eq xs ys)

abbrev pub listed : List ℕ → Destinations
listed bytes = record { words = no_words; listed = some bytes; shared = none }

abbrev pub shared_with : List ℕ → Destinations
shared_with meta = record { words = no_words; listed = none; shared = some meta }

pub list-Parses :
    (s : Services) (flags ty : ℕ) (eps : List ℕ)
    → has_bit flags 128 ≡ true
    → has_bit flags 32 ≡ false
    → Chain none eps
    → AreSmall eps
    → Parses (read_destinations s flags (length eps) ty) (write_ids eps) (listed (write_ids eps))
unfolding read_destinations
list-Parses s flags ty eps l b c h =
    rw (l, b, read_destinations) (map-Parses listed (read_endpoint_list-Parses eps c h))

pub schema-Parses :
    (s : Services) (flags nep ty : ℕ) (meta : List ℕ)
    → has_bit flags 128 ≡ false
    → has_bit flags 32 ≡ false
    → s.endpoints_of ty ≡ some meta
    → length (unique_sorted_endpoints meta) ≡ nep
    → Parses (read_destinations s flags nep ty) [] (shared_with meta)
unfolding read_destinations
schema-Parses s flags nep ty meta l b known count =
    let same : (length (unique_sorted_endpoints meta) == nep) ≡ true = ground arith in
    rw (l, b, read_destinations)
      (skip-Parses _ (or_fail-Parses invalid_type (s.endpoints_of ty) meta known)
        (skip-Parses _ (guard-Parses _ count_mismatch same) (pure-Parses (shared_with meta))))

words_step :
    (n h : ℕ) (rest : List ℕ)
    → h ≤ u64_max
    → words_of (suc n) (to_le_bytes 8 h ++ rest) ≡ h ∷ words_of n rest
unfolding words_of
words_step n h rest w =
    let size = length-to_le_bytes 8 h in
    let long : ltb (length (to_le_bytes 8 h ++ rest)) 8 ≡ false =
      ground (arith, length-append (to_le_bytes 8 h) rest) in
    let first : take 8 (to_le_bytes 8 h ++ rest) ≡ to_le_bytes 8 h =
      ap (λ n. take n (to_le_bytes 8 h ++ rest)) (sym size) ∙ take-append (to_le_bytes 8 h) rest in
    let others : drop 8 (to_le_bytes 8 h ++ rest) ≡ rest =
      ap (λ n. drop n (to_le_bytes 8 h ++ rest)) (sym size) ∙ drop-append (to_le_bytes 8 h) rest in
    rw long (
      rw (first, others)
        (ap (λ x. x ∷ words_of n rest) (from_le_bytes-to_le_bytes 8 h (omega (arith, w)))))

words_of-nil : (n : ℕ) → words_of n [] ≡ []
unfolding words_of
words_of-nil zero = refl
words_of-nil (suc n) = refl

pub words_of-write_hashes :
    (n : ℕ) (hs : List ℕ) → length hs ≤ n → AreWords hs → words_of n (write_hashes hs) ≡ hs
unfolding write_hashes
words_of-write_hashes n [] h w = words_of-nil n
words_of-write_hashes zero (x ∷ xs) h w = absurd (omega arith)
words_of-write_hashes (suc n) (x ∷ xs) h w =
    words_step n x (write_hashes xs) w.0
    ∙ ap (λ l. x ∷ l) (words_of-write_hashes n xs (omega arith) w.1)

read_target_bytes-Parses :
    (hs : List ℕ)
    → length hs * 8 + 64 ≤ usize_max
    → Parses
        (if not_empty hs then read_target_bytes else pure [])
        (write_targets_if hs)
        (write_hashes hs)
unfolding read_target_bytes write_hashes
read_target_bytes-Parses [] h = pure-Parses []
read_target_bytes-Parses (x ∷ xs) h =
    let fits : leb (length (x ∷ xs) * 8) usize_max ≡ true = ground arith in
    bind-Parses _ (read_uleb128-Parses (length (x ∷ xs)) (omega arith)) (
      skip-Parses _ (guard-Parses _ target_count_error fits)
        (read_bytes-Parses _ (write_hashes (x ∷ xs)) (length-write_hashes (x ∷ xs))))

abbrev pub routing_contract : Option MessageElement → List ℕ → Bool → RoutingContract
routing_contract shape hs reliable = record {
  wire_shape = shape;
  target_bytes = write_hashes hs;
  with_header = reliable;
}

read_routing_contract-Parses :
    (shape : Option MessageElement) (hs : List ℕ) (reliable : Bool)
    → FitsContract shape hs
    → Parses read_routing_contract
        (write_wire_contract shape hs reliable)
        (routing_contract shape hs reliable)
unfolding read_routing_contract write_wire_contract
read_routing_contract-Parses shape hs reliable v =
    let (targets, shaped, with_header) = contract_bits (not_empty hs) (is_some shape) reliable in
    bind-Parses _ (read_byte-Parses (contract_flags (not_empty hs) (is_some shape) reliable)) (
      rw (targets, shaped, with_header)
        (bind-Parses _ (read_shape-Parses shape v.shape_fits)
          (map-Parses _ (read_target_bytes-Parses hs v.count_fits))))

carried :
    (shape : Option MessageElement) (hs : List ℕ) (reliable : Bool)
    → FitsContract shape hs
    → Parses
        (read_routing_contract_if true)
        (write_uleb128 (wire_contract_size shape hs) ++ write_wire_contract shape hs reliable)
        (routing_contract shape hs reliable)
unfolding read_routing_contract_if
carried shape hs reliable v =
    bind-Parses _
      (read_uleb128-Parses (wire_contract_size shape hs)
        (omega (arith, wire_contract_size_bound shape hs, v.count_fits)))
      (last-Parses (λ bs. within (unpack "wire contract trailing bytes") bs read_routing_contract)
        (read_bytes-Parses _ (write_wire_contract shape hs reliable)
          (length-write_wire_contract shape hs reliable v))
        (within-Parses _ (read_routing_contract-Parses shape hs reliable v)))

-- Whether there is a contract or not, its parts are read back.
pub read_routing_contract_if-Parses :
    (shape : Option MessageElement) (hs : List ℕ) (reliable : Bool)
    → FitsContract shape hs
    → Parses
        (read_routing_contract_if (carries_contract shape hs))
        (write_contract_if shape hs reliable)
        (routing_contract shape hs (carries_contract shape hs && reliable))
unfolding read_routing_contract_if write_hashes
read_routing_contract_if-Parses none [] reliable v = pure-Parses without_contract
read_routing_contract_if-Parses none (x ∷ xs) reliable v = carried none (x ∷ xs) reliable v
read_routing_contract_if-Parses (some shape) hs reliable v = carried (some shape) hs reliable v
