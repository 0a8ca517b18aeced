-- ===== src/Wire/Envelope.antt =====
-- The inspection of packed frames in src/wire_format.rs: the checksum, the routing envelope, and the
-- place of the reliable header.
use sedsnet.Errors.{invalid_type, empty_endpoints, Result, unpack, TelemetryError, ok, err}
use sedsnet.Wire.Contract.{target_count_error}
use sedsnet.Wire.Reliable.{ack_only, read_reliable_header_encoded}
use sedsnet.Wire.Shape.{or_fail, decode_wire_shape, MessageElement}
use sedsnet.Wire.Reader.{
  within, to_u32, read_bytes, fail, guard, reader_of, pure, read_byte, has_bit, read_uleb128,
  from_le_bytes, Parser, ◌>>=◌, ◌>>◌,
}
use sedsnet.Base.{
  usize_max, drop, leb, take, length, ltb, not, Option, Bool, List, ℕ, if◌then◌else◌, none, ◌==◌,
  ◌&&◌, ◌%◌, ◌/◌, ◌*◌, ◌-◌, ◌++◌, ◌+◌, false, true, suc, zero, ◌∷◌, [], some,
}
use sedsnet.Wire.Endpoints.{
  bitmap_bytes, read_endpoint_list, unique_sorted_endpoints, endpoint_list_iter,
}
use sedsnet.Wire.Pack.{Services}

unfoldable pub split_crc32 : List ℕ → Result (List ℕ × ℕ)
unfolding from_le_bytes
split_crc32 buf =
    if ltb (length buf) 4
    then err (unpack "short buffer")
    else ok (take (length buf - 4) buf, from_le_bytes (drop (length buf - 4) buf))

unfoldable pub verify_crc32 : (List ℕ → ℕ) → List ℕ → Result (List ℕ)
unfolding split_crc32
verify_crc32 crc32 buf = elim (split_crc32 buf) [
  | err e ↦ err e
  | ok (body, expected) ↦ if crc32 body == expected then ok body else err (unpack "crc32 mismatch")
]

-- The schema's endpoints are shared, the others are slices of the frame. `bitmap` has its words.
pub record RoutingEnvelope : Type 0 where
  pub ty : ℕ
  pub bitmap : List ℕ
  pub endpoint_list : Option (List ℕ)
  pub schema_endpoints : Option (List ℕ)
  pub source_address : ℕ
  pub timestamp_ms : ℕ
  pub wire_shape : Option MessageElement
  pub is_reliable : Bool
  pub payload_is_empty : Bool
  pub targets : List ℕ
  pub has_reliable_header : Bool

-- The destinations, as one of their three forms.
pub record Destinations : Type 0 where
  pub words : List ℕ
  pub listed : Option (List ℕ)
  pub shared : Option (List ℕ)

abbrev pub no_words : List ℕ
no_words = 0 ∷ 0 ∷ 0 ∷ 0 ∷ []

-- `as_chunks::<8>` and the words of the chunks.
unfoldable pub words_of : ℕ → List ℕ → List ℕ
unfolding from_le_bytes
words_of zero bytes = []
words_of (suc n) bytes =
    if ltb (length bytes) 8 then [] else (from_le_bytes (take 8 bytes) ∷ words_of n (drop 8 bytes))

-- The set bits of a word from a place on, the lowest first; a word has 64.
unfoldable pub set_bits : ℕ → ℕ → ℕ → List ℕ
set_bits zero place bits = []
set_bits (suc n) place bits =
    let rest = set_bits n (place + 1) (bits / 2) in if bits % 2 == 1 then (place ∷ rest) else rest

unfoldable pub bitmap_endpoints : ℕ → List ℕ → List ℕ
unfolding set_bits
bitmap_endpoints index [] = []
bitmap_endpoints index (word ∷ words) =
    set_bits 64 (index * 64) word ++ bitmap_endpoints (index + 1) words

abbrev pub all_exist : (ℕ → Bool) → List ℕ → Bool
all_exist known [] = true
all_exist known (e ∷ es) = known e && all_exist known es

abbrev pub count_mismatch : TelemetryError
count_mismatch = unpack "endpoint count mismatch"

abbrev pub ambiguous : TelemetryError
ambiguous = unpack "ambiguous endpoint encoding"

unfoldable pub read_destinations : Services → ℕ → ℕ → ℕ → Parser Destinations
unfolding words_of bitmap_endpoints
read_destinations s flags nep ty =
    if has_bit flags 128
    then (if has_bit flags 32 then fail ambiguous else do
      bytes ← read_endpoint_list nep
      pure (record { words = no_words; listed = some bytes; shared = none }))
    else if has_bit flags 32
    then (do
      bytes ← read_bytes bitmap_bytes
      let words = words_of 4 bytes
      guard (length (bitmap_endpoints 0 words) == nep) count_mismatch
      guard (all_exist s.endpoint_exists (bitmap_endpoints 0 words)) (unpack "bad endpoint bit set")
      pure (record { words = words; listed = none; shared = none }))
    else (do
      meta ← or_fail invalid_type (s.endpoints_of ty)
      guard (length (unique_sorted_endpoints meta) == nep) count_mismatch
      pure (record { words = no_words; listed = none; shared = some meta }))

-- The contract of a routing envelope keeps the bytes of the targets.
pub record RoutingContract : Type 0 where
  pub wire_shape : Option MessageElement
  pub target_bytes : List ℕ
  pub with_header : Bool

unfoldable pub read_target_bytes : Parser (List ℕ)
read_target_bytes = do
  count ← read_uleb128
  guard (leb (count * 8) usize_max) target_count_error
  read_bytes (count * 8)

unfoldable pub read_routing_contract : Parser RoutingContract
unfolding read_target_bytes
read_routing_contract = do
  flags ← read_byte
  shape ← if has_bit flags 2 then (decode_wire_shape >>= λ s. pure (some s)) else pure none
  targets ← if has_bit flags 1 then read_target_bytes else pure []
  pure (record { wire_shape = shape; target_bytes = targets; with_header = has_bit flags 4 })

abbrev pub without_contract : RoutingContract
without_contract = record { wire_shape = none; target_bytes = []; with_header = false }

unfoldable pub read_routing_contract_if : Bool → Parser RoutingContract
unfolding read_routing_contract
read_routing_contract_if present = if not present then pure without_contract else do
  len ← read_uleb128
  bytes ← read_bytes len
  within (unpack "wire contract trailing bytes") bytes read_routing_contract

-- A parser on a reader of its own from the same place on.
abbrev pub ahead : {A : Type 0} → Parser A → Parser A
ahead p r = elim (p r) [ err e ↦ err e | ok (a, s) ↦ ok (a, r) ]

-- Without endpoints a frame has to be an acknowledgement.
unfoldable pub check_no_endpoints : ℕ → Bool → Bool → Parser (Unit {0})
check_no_endpoints flags is_reliable has_reliable_header =
    if not is_reliable && not has_reliable_header then fail empty_endpoints else do
      reliable ← ahead (read_reliable_header_encoded (has_bit flags 64))
      guard (ack_only reliable.flags) empty_endpoints

abbrev pub source_too_large : TelemetryError
source_too_large = unpack "source address too large"

unfoldable pub read_routing_envelope : Services → Parser RoutingEnvelope
unfolding read_destinations read_routing_contract_if check_no_endpoints
read_routing_envelope s = do
  flags ← read_byte
  nep ← read_byte
  ty_v ← read_uleb128
  size ← read_uleb128
  timestamp_ms ← read_uleb128
  nonce ← if has_bit flags 8 then read_uleb128 else pure 0
  source_address ← read_uleb128 >>= to_u32 source_too_large
  ty ← to_u32 (unpack "type too large") ty_v
  destinations ← read_destinations s flags nep ty
  contract ← read_routing_contract_if (has_bit flags 4)
  if nep == 0 then check_no_endpoints flags (has_bit flags 2) contract.with_header else pure tt
  pure (record {
    ty = ty;
    bitmap = destinations.words;
    endpoint_list = destinations.listed;
    schema_endpoints = destinations.shared;
    source_address = source_address;
    timestamp_ms = timestamp_ms;
    wire_shape = contract.wire_shape;
    is_reliable = has_bit flags 2;
    payload_is_empty = size == 0;
    targets = contract.target_bytes;
    has_reliable_header = contract.with_header;
  })

unfoldable pub peek_routing_envelope : Services → List ℕ → Result RoutingEnvelope
unfolding verify_crc32 read_routing_envelope
peek_routing_envelope s buf = elim (verify_crc32 s.crc32 buf) [
  | err e ↦ err e
  | ok body ↦ elim (read_routing_envelope s (reader_of body)) [
    | err e ↦ err e
    | ok (envelope, rest) ↦ ok envelope
  ]
]

-- `endpoints` and `target_senders` of an envelope.
unfoldable pub envelope_endpoints : RoutingEnvelope → List ℕ
envelope_endpoints e = elim e.endpoint_list [
  | some bytes ↦ endpoint_list_iter bytes
  | none ↦ elim e.schema_endpoints [
    | some meta ↦ unique_sorted_endpoints meta
    | none ↦ bitmap_endpoints 0 e.bitmap
  ]
]

unfoldable pub target_senders : RoutingEnvelope → List ℕ
target_senders e = words_of (length e.targets) e.targets
