-- ===== src/Wire/PackTrip.antt =====
-- The announced size of a packed packet, src/wire_format.rs, is the size it has.
use sedsnet.Wire.Alias.{sender_address_u32-word}
use sedsnet.Wire.Sender.{sender_address_u32}
use sedsnet.Wire.Bytes.{length-to_le_bytes, length-write_uleb128}
use sedsnet.Base.{
  ap, leb→le, is_some, leb, some-injective, u8_max, subst, ◌++◌, ◌+◌, suc, some, none, length-set,
  get_elem?, opt_ind, ==_iff, ltb, length-append, sym, arith, if_ind, u64_max, usize_max, length,
  u32_max, ℕ, List, Option, Bool, if◌then◌else◌, ◌∙◌, ◌%◌, ◌/◌, ◌≤◌, ◌≡◌, refl, false, true, ◌∷◌,
  [],
}
use sedsnet.Wire.Reader.{to_le_bytes}
use sedsnet.Wire.Pack.{
  payload_for_encoding, frame_header, default_reliable, endpoint_field, Services,
  join_frame_with_crc, reliable_len, packet_wire_size, has_nonce, write_reliable_if,
  with_packet_frame_parts, header_size_bytes, pack_packet_inner_with_contract, pack_packet,
  header_fields, mark, set_bit, by_list, by_bitmap, carries_contract, by_schema, contract_len,
  endpoint_len, write_endpoints, write_contract_if, EndpointField, zeros, mark_endpoints, Packet,
  build_endpoint_bitmap,
}
use sedsnet.Wire.Reliable.{should_compact_reliable_header, ReliableHeader}
use sedsnet.Wire.ReliableTrip.{length-write_reliable_header_encoded, IsHeader}
use sedsnet.Wire.ContractTrip.{length-write_wire_contract, wire_contract_size_bound, FitsContract}
use sedsnet.Wire.Contract.{write_wire_contract, wire_contract_size}
use sedsnet.Varint.Codec.{write_uleb128}
use sedsnet.Wire.Unique.{unique_sorted_endpoints_lem, contains}
use sedsnet.Wire.Endpoints.{
  bitmap_bits, unique_sorted_endpoints, bitmap_bytes, sizes, endpoint_list_size, write_ids,
}
use sedsnet.Wire.EndpointTrip.{AreSmall}
use sedsnet.Wire.Shape.{MessageElement}

-- The fields are of the types of the source.
pub record IsPacket (pkt : Packet) : Type 0 where
  pub type_word : pkt.data_type ≤ u32_max
  pub size_word : pkt.data_size ≤ usize_max
  pub timestamp_word : pkt.timestamp ≤ u64_max
  pub nonce_half : pkt.nonce ≤ 0xffff
  pub endpoint_words : AreSmall pkt.endpoints

pub length-if :
    (test : Bool) (xs : List ℕ) (n : ℕ)
    → (test ≡ true → length xs ≡ n)
    → length (if test then xs else []) ≡ (if test then n else 0)
length-if true xs n h = h refl
length-if false xs n h = refl

length-mark : (e : ℕ) (bm : List ℕ) → length (mark e bm) ≡ length bm
length-mark e bm =
    if_ind (λ (l : List ℕ). length l ≡ length bm) (ltb e bitmap_bits)
      (λ t.
        opt_ind (λ (l : List ℕ). length l ≡ length bm) (get_elem? bm (e / 8)) (λ n. refl)
          (λ byte g. length-set bm (e / 8) (set_bit byte (e % 8))))
      (λ f. refl)

length-mark_endpoints : (eps bm : List ℕ) → length (mark_endpoints eps bm) ≡ length bm
unfolding mark_endpoints
length-mark_endpoints [] bm = refl
length-mark_endpoints (e ∷ eps) bm = length-mark_endpoints eps (mark e bm) ∙ length-mark e bm

pub length-build_endpoint_bitmap :
    (eps : List ℕ) → length (build_endpoint_bitmap eps) ≡ bitmap_bytes
unfolding build_endpoint_bitmap zeros
length-build_endpoint_bitmap eps = length-mark_endpoints eps (zeros bitmap_bytes)

contains-AreSmall : (es : List ℕ) → ((x : ℕ) → contains x es ≡ true → x ≤ u32_max) → AreSmall es
unfolding contains
contains-AreSmall [] h = tt
contains-AreSmall (e ∷ es) h =
    (h e (ground arith), contains-AreSmall es (λ x m. h x (ground arith)))

AreSmall-contains : (es : List ℕ) (x : ℕ) → AreSmall es → contains x es ≡ true → x ≤ u32_max
unfolding contains
AreSmall-contains [] x s m = absurd (cc)
AreSmall-contains (e ∷ es) x s m = ground (arith, AreSmall-contains es x s.1, s.0, ==_iff x e)

pub unique-AreSmall : (es : List ℕ) → AreSmall es → AreSmall (unique_sorted_endpoints es)
unique-AreSmall es s =
    contains-AreSmall (unique_sorted_endpoints es)
      (λ x m. AreSmall-contains es x s (sym ((unique_sorted_endpoints_lem es).1 x) ∙ m))

length-write_ids-eq : (es : List ℕ) → AreSmall es → length (write_ids es) ≡ sizes es
unfolding write_ids sizes
length-write_ids-eq [] s = refl
length-write_ids-eq (e ∷ es) s = omega (
  arith,
  length-append (write_uleb128 e) (write_ids es),
  length-write_uleb128 e (omega (arith, s.0)),
  length-write_ids-eq es s.1,
)

length-write_endpoints :
    (field : EndpointField) (eps : List ℕ)
    → AreSmall eps
    → length (write_endpoints field eps) ≡ endpoint_len field eps
unfolding endpoint_list_size
length-write_endpoints by_schema eps s = refl
length-write_endpoints by_bitmap eps s = length-build_endpoint_bitmap eps
length-write_endpoints by_list eps s =
    length-write_ids-eq (unique_sorted_endpoints eps) (unique-AreSmall eps s)

length-write_contract_if :
    (shape : Option MessageElement) (targets : List ℕ) (reliable : Bool)
    → FitsContract shape targets
    → length (write_contract_if shape targets reliable) ≡ contract_len shape targets
length-write_contract_if shape targets reliable v =
    length-if (carries_contract shape targets) _ _ (λ t. omega (
      arith,
      length-append (write_uleb128 (wire_contract_size shape targets))
          (write_wire_contract shape targets reliable),
      length-write_uleb128 (wire_contract_size shape targets)
          (omega (arith, wire_contract_size_bound shape targets, v.count_fits)),
      length-write_wire_contract shape targets reliable v,
    ))

length-write_reliable_if :
    (reliable : Option ReliableHeader)
    → ((h : ReliableHeader) → reliable ≡ some h → IsHeader h)
    → length (write_reliable_if reliable) ≡ reliable_len reliable
length-write_reliable_if none v = refl
length-write_reliable_if (some h) v =
    length-write_reliable_header_encoded h (should_compact_reliable_header h) (v h refl)

length-header_fields :
    (field : EndpointField) (pkt : Packet) (shape : Option MessageElement) (targets : List ℕ)
    (reliable : Bool)
    → IsPacket pkt
    → FitsContract shape targets
    → suc (length (header_fields field pkt shape targets reliable))
      ≡ header_size_bytes pkt + endpoint_len field pkt.endpoints + contract_len shape targets
unfolding header_fields header_size_bytes
length-header_fields field pkt shape targets reliable v w =
    let nonce = if has_nonce pkt then write_uleb128 pkt.nonce else [] in
    let eps = write_endpoints field pkt.endpoints in
    let contract = write_contract_if shape targets reliable in
    let source = write_uleb128 (sender_address_u32 pkt.sender) in
    let time = write_uleb128 pkt.timestamp in
    let size = write_uleb128 pkt.data_size in
    omega (
      arith,
      length-append (write_uleb128 pkt.data_type)
          (size ++ (time ++ (nonce ++ (source ++ (eps ++ contract))))),
      length-append size (time ++ (nonce ++ (source ++ (eps ++ contract)))),
      length-append time (nonce ++ (source ++ (eps ++ contract))),
      length-append nonce (source ++ (eps ++ contract)),
      length-append source (eps ++ contract),
      length-append eps contract,
      length-write_uleb128 pkt.data_type (omega (arith, v.type_word)),
      length-write_uleb128 pkt.data_size v.size_word,
      length-write_uleb128 pkt.timestamp v.timestamp_word,
      length-write_uleb128 (sender_address_u32 pkt.sender)
          (omega (arith, sender_address_u32-word pkt.sender)),
      length-if (has_nonce pkt) _ _
          (λ t. length-write_uleb128 pkt.nonce (omega (arith, v.nonce_half))),
      length-write_endpoints field pkt.endpoints v.endpoint_words,
      length-write_contract_if shape targets reliable w,
    )

-- What a frame that was packed is made of.
pub frame_parts :
    (s : Services) (pkt : Packet) (reliable : Option ReliableHeader) (shape : Option MessageElement)
    (targets frame : List ℕ)
    → pack_packet_inner_with_contract s pkt reliable shape targets ≡ some frame
    → (length (unique_sorted_endpoints pkt.endpoints) ≤ u8_max)
      × (frame
          ≡ join_frame_with_crc s.crc32
              (frame_header
                (endpoint_field s pkt shape targets)
                (payload_for_encoding s pkt true).0
                pkt
                reliable
                shape
                targets)
              (payload_for_encoding s pkt true).1)
unfolding pack_packet_inner_with_contract with_packet_frame_parts
frame_parts s pkt reliable shape targets frame =
    if_ind
      (λ (o : Option (List ℕ × List ℕ)).
        elim o [
          | none ↦ none
          | some (header, payload) ↦ some (join_frame_with_crc s.crc32 header payload)
        ]
          ≡ some frame
        → (length (unique_sorted_endpoints pkt.endpoints) ≤ u8_max)
          × (frame
              ≡ join_frame_with_crc s.crc32
                  (frame_header (endpoint_field s pkt shape targets)
                    (payload_for_encoding s pkt true).0 pkt reliable shape targets)
                  (payload_for_encoding s pkt true).1))
      (leb (length (unique_sorted_endpoints pkt.endpoints)) u8_max)
      (λ t e. (leb→le _ _ t, sym (some-injective _ _ e))) (λ f (e : none ≡ some frame). absurd (cc))

length-frame_header :
    (field : EndpointField) (compressed : Bool) (pkt : Packet) (reliable : Option ReliableHeader)
    (shape : Option MessageElement) (targets : List ℕ)
    → IsPacket pkt
    → FitsContract shape targets
    → ((h : ReliableHeader) → reliable ≡ some h → IsHeader h)
    → length (frame_header field compressed pkt reliable shape targets)
      ≡ header_size_bytes pkt
        + endpoint_len field pkt.endpoints
        + contract_len shape targets
        + reliable_len reliable
unfolding frame_header
length-frame_header field compressed pkt reliable shape targets v w u = omega (
  arith,
  length-append (header_fields field pkt shape targets (is_some reliable))
      (write_reliable_if reliable),
  length-header_fields field pkt shape targets (is_some reliable) v w,
  length-write_reliable_if reliable u,
)

default_reliable-IsHeader :
    (s : Services) (pkt : Packet) (h : ReliableHeader)
    → default_reliable s pkt ≡ some h
    → IsHeader h
default_reliable-IsHeader s pkt h =
    if_ind (λ (o : Option ReliableHeader). o ≡ some h → IsHeader h)
      (s.is_reliable_type pkt.data_type)
      (λ t e.
        subst IsHeader (some-injective _ _ e)
          (record { flags_byte = omega arith; seq_word = omega arith; ack_word = omega arith }))
      (λ f (e : none ≡ some h). absurd (cc))

-- A packet that is packed takes exactly the bytes that are announced for it, whatever the schema, the
-- compression and the checksum.
pub length-pack_packet :
    (s : Services) (pkt : Packet) (frame : List ℕ)
    → IsPacket pkt
    → FitsContract pkt.wire_shape pkt.wire_target_senders
    → pack_packet s pkt ≡ some frame
    → length frame ≡ packet_wire_size s pkt
unfolding pack_packet packet_wire_size join_frame_with_crc
length-pack_packet s pkt frame v w e =
    let reliable = default_reliable s pkt in
    let field = endpoint_field s pkt pkt.wire_shape pkt.wire_target_senders in
    let (compressed, payload) = payload_for_encoding s pkt true in
    let header =
      frame_header field compressed pkt reliable pkt.wire_shape pkt.wire_target_senders in
    let crc = to_le_bytes 4 (s.crc32 (header ++ payload)) in
    let (few, whole) = frame_parts s pkt reliable pkt.wire_shape pkt.wire_target_senders frame e in
    omega (
      arith,
      ap length whole,
      length-append header (payload ++ crc),
      length-append payload crc,
      length-to_le_bytes 4 (s.crc32 (header ++ payload)),
      length-frame_header field compressed pkt reliable pkt.wire_shape pkt.wire_target_senders v w
          (default_reliable-IsHeader s pkt),
    )
