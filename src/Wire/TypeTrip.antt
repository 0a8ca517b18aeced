-- ===== src/Wire/TypeTrip.antt =====
-- The type of a packed frame is found in its first bytes, src/wire_format.rs.
use sedsnet.Wire.Sender.{sender_address_u32}
use sedsnet.Wire.Pack.{
  frame_flags, header_fields, join_frame_with_crc, write_contract_if, write_endpoints,
  EndpointField, has_nonce, frame_header, carries_contract, pack_packet_inner_with_contract,
  endpoint_field, payload_for_encoding, write_reliable_if, is_compact, Packet, Services,
}
use sedsnet.Wire.Endpoints.{unique_sorted_endpoints}
use sedsnet.Wire.ShapeTrip.{uleb128_size_bound}
use sedsnet.Wire.Bytes.{length-write_uleb128, read_small-Parses, read_bytes-Parses}
use sedsnet.Wire.Reader.{to_le_bytes}
use sedsnet.Base.{
  min, take, suc, zero, ◌∷◌, append_assoc, length-append, arith, [], Option, List, ℕ, Bool, some,
  true, ◌≡◌, ◌≤◌, ◌++◌, ◌∙◌, ap, refl, length, is_some, u32_max, if◌then◌else◌,
}
use sedsnet.Varint.Codec.{write_uleb128}
use sedsnet.Wire.FrameInfo.{scheduling_type, read_type}
use sedsnet.Wire.Parses.{bind-Parses, Parses}
use sedsnet.Wire.PackTrip.{frame_parts, IsPacket}
use sedsnet.Wire.Shape.{MessageElement}
use sedsnet.Wire.Reliable.{ReliableHeader}

take-front :
    (n : ℕ) (xs ys : List ℕ) → length xs ≤ n → (zs : List ℕ) × (take n (xs ++ ys) ≡ xs ++ zs)
take-front n [] ys h = (take n ys, refl)
take-front zero (x ∷ xs) ys h = absurd (omega arith)
take-front (suc n) (x ∷ xs) ys h =
    let (zs, e) = take-front n xs ys (omega arith) in (zs, ap (λ l. x ∷ l) e)

-- What is behind the type in the header.
abbrev behind_type : EndpointField → Packet → Option MessageElement → List ℕ → Bool → List ℕ
behind_type field pkt shape targets reliable =
    write_uleb128 pkt.data_size
    ++ (write_uleb128 pkt.timestamp
        ++ ((if has_nonce pkt then write_uleb128 pkt.nonce else [])
            ++ (write_uleb128 (sender_address_u32 pkt.sender)
                ++ (write_endpoints field pkt.endpoints
                    ++ write_contract_if shape targets reliable))))

read_type-Parses :
    (flags nep ty : ℕ) → ty ≤ u32_max → Parses read_type ((flags ∷ nep ∷ []) ++ write_uleb128 ty) ty
unfolding read_type
read_type-Parses flags nep ty h =
    bind-Parses _ (read_bytes-Parses 2 (flags ∷ nep ∷ []) refl) (read_small-Parses _ ty h)

scheduling_front :
    (flags nep ty : ℕ) (rest : List ℕ)
    → ty ≤ u32_max
    → scheduling_type (((flags ∷ nep ∷ []) ++ write_uleb128 ty) ++ rest) ≡ some ty
unfolding scheduling_type
scheduling_front flags nep ty rest h =
    let front = (flags ∷ nep ∷ []) ++ write_uleb128 ty in
    let room : length front ≤ min (length (front ++ rest)) 12 = omega (
      arith,
      length-append front rest,
      length-append (flags ∷ nep ∷ []) (write_uleb128 ty),
      length-write_uleb128 ty (omega arith),
      uleb128_size_bound ty,
    ) in
    let (zs, e) = take-front (min (length (front ++ rest)) 12) front rest room in
    rw (scheduling_type, e) (rw ((read_type-Parses flags nep ty h).reads [] zs) refl)

-- The type by which a packed frame is scheduled, from its first bytes, is that of its packet.
pub scheduling_type-pack :
    (s : Services) (pkt : Packet) (reliable : Option ReliableHeader) (shape : Option MessageElement)
    (targets frame : List ℕ)
    → IsPacket pkt
    → pack_packet_inner_with_contract s pkt reliable shape targets ≡ some frame
    → scheduling_type frame ≡ some pkt.data_type
unfolding join_frame_with_crc frame_header header_fields
scheduling_type-pack s pkt reliable shape targets frame v packed =
    let field = endpoint_field s pkt shape targets in
    let (compressed, payload) = payload_for_encoding s pkt true in
    let (few, whole) = frame_parts s pkt reliable shape targets frame packed in
    let flags =
      frame_flags compressed (is_some reliable) (carries_contract shape targets) (has_nonce pkt)
        (is_compact reliable) field in
    let nep = length (unique_sorted_endpoints pkt.endpoints) in
    let uleb = write_uleb128 pkt.data_type in
    let behind = behind_type field pkt shape targets (is_some reliable) in
    let header = frame_header field compressed pkt reliable shape targets in
    let sum = to_le_bytes 4 (s.crc32 (header ++ payload)) in
    let tail = payload ++ sum in
    let apart : ((uleb ++ behind) ++ write_reliable_if reliable) ++ tail
        ≡ uleb ++ ((behind ++ write_reliable_if reliable) ++ tail) =
      ap (λ l. l ++ tail) (append_assoc uleb behind (write_reliable_if reliable))
      ∙ append_assoc uleb (behind ++ write_reliable_if reliable) tail in
    ap scheduling_type whole
    ∙ ap (λ l. scheduling_type (flags ∷ nep ∷ l)) apart
    ∙ scheduling_front flags nep pkt.data_type ((behind ++ write_reliable_if reliable) ++ tail)
        v.type_word
