-- ===== src/Wire/SpanTrip.antt =====
-- The reliable header of a packed frame, src/wire_format.rs, is found where it was written.
use sedsnet.Wire.Alias.{sender_address_u32-word}
use sedsnet.Wire.Sender.{sender_address_u32}
use sedsnet.Wire.Bytes.{
  to_u32-Parses, read_small-Parses, read_uleb128-Parses, read_byte-Parses, read_bytes-Parses,
}
use sedsnet.Wire.Reader.{pure, Parser, has_bit, bit_if, remaining, ◌>>=◌, ◌>>◌}
use sedsnet.Wire.Parses.{skip-Parses, last-Parses, bind-Parses, pure-Parses, Parses}
use sedsnet.Wire.Rewrite.{short_buffer, check_room, skip_endpoints, read_up_to_reliable}
use sedsnet.Wire.Envelope.{source_too_large}
use sedsnet.Wire.PackTrip.{unique-AreSmall, length-build_endpoint_bitmap, IsPacket}
use sedsnet.Wire.Pack.{
  by_bitmap, by_list, by_schema, build_endpoint_bitmap, has_nonce, write_contract_if,
  carries_contract, write_endpoints, Packet, header_fields, EndpointField,
}
use sedsnet.Wire.EnvelopeTrip.{read_nonce-Parses}
use sedsnet.Wire.Unique.{unique_sorted_endpoints_lem}
use sedsnet.Wire.EndpointTrip.{read_endpoint_list-Parses, AreSmall}
use sedsnet.Wire.ContractTrip.{decode_wire_contract-Parses, contract_of, FitsContract}
use sedsnet.Wire.Contract.{no_contract, decode_wire_contract}
use sedsnet.Base.{
  length-append, ltb, arith, length, Bool, List, Option, ℕ, if◌then◌else◌, ◌-◌, ◌++◌, ◌≤◌, ◌≡◌,
  false, true, ◌∷◌, [], some, none,
}
use sedsnet.Wire.Endpoints.{unique_sorted_endpoints, bitmap_bytes}
use sedsnet.Wire.Flags.{FlagBits, listed_field, bitmap_field}
use sedsnet.Errors.{TelemetryError}
use sedsnet.Wire.Shape.{MessageElement}

check_room-Parses :
    {B : Type 0} (n : ℕ) (e : TelemetryError) (q : Parser B) (ys : List ℕ) (b : B)
    → n ≤ length ys
    → Parses q ys b
    → Parses (check_room n e >> q) ys b
unfolding check_room remaining
check_room-Parses n e q ys b room hq = record {
  reads = λ pre post.
      let enough : ltb (length (pre ++ (ys ++ post)) - length pre) n ≡ false =
        ground (arith, length-append pre (ys ++ post), length-append ys post) in
      rw (◌>>=◌, enough) (hq.reads pre post);
}

skip_endpoints-Parses :
    (flags : ℕ) (field : EndpointField) (eps : List ℕ)
    → AreSmall eps
    → has_bit flags 128 ≡ listed_field field
    → has_bit flags 32 ≡ bitmap_field field
    → Parses
        (skip_endpoints flags (length (unique_sorted_endpoints eps)))
        (write_endpoints field eps)
        (write_endpoints field eps)
unfolding skip_endpoints
skip_endpoints-Parses flags by_schema eps s l b = rw (l, b, skip_endpoints) (pure-Parses [])
skip_endpoints-Parses flags by_bitmap eps s l b =
    rw (l, b, skip_endpoints)
      (read_bytes-Parses bitmap_bytes (build_endpoint_bitmap eps)
        (length-build_endpoint_bitmap eps))
skip_endpoints-Parses flags by_list eps s l b =
    rw (l, b, skip_endpoints)
      (read_endpoint_list-Parses (unique_sorted_endpoints eps) (unique_sorted_endpoints_lem eps).0
        (unique-AreSmall eps s))

-- The bitmap has its bytes.
room_of :
    (field : EndpointField) (eps rest : List ℕ)
    → bit_if (bitmap_field field) bitmap_bytes ≤ length (write_endpoints field eps ++ rest)
room_of by_schema eps rest = omega arith
room_of by_list eps rest = omega arith
room_of by_bitmap eps rest =
    omega (arith, length-append (build_endpoint_bitmap eps) rest, length-build_endpoint_bitmap eps)

pub decode_if-Parses :
    (shape : Option MessageElement) (hs : List ℕ) (reliable : Bool)
    → FitsContract shape hs
    → Parses
        (decode_wire_contract (carries_contract shape hs))
        (write_contract_if shape hs reliable)
        (if carries_contract shape hs then contract_of shape hs reliable else no_contract)
unfolding decode_wire_contract
decode_if-Parses none [] reliable v = pure-Parses no_contract
decode_if-Parses none (x ∷ xs) reliable v = decode_wire_contract-Parses none (x ∷ xs) reliable v
decode_if-Parses (some shape) hs reliable v = decode_wire_contract-Parses (some shape) hs reliable v

pub read_up_to_reliable-Parses :
    (pkt : Packet) (flags : ℕ) (field : EndpointField) (shape : Option MessageElement)
    (targets : List ℕ) (compact : Bool)
    → IsPacket pkt
    → FitsContract shape targets
    → FlagBits flags true (carries_contract shape targets) (has_nonce pkt) compact field
    → Parses read_up_to_reliable
        ((flags ∷ []) ++ header_fields field pkt shape targets true)
        (flags, true)
unfolding read_up_to_reliable header_fields
read_up_to_reliable-Parses pkt flags field shape targets compact v w bits =
    bind-Parses _ (read_byte-Parses flags) (
      bind-Parses _ (read_byte-Parses (length (unique_sorted_endpoints pkt.endpoints))) (
        bind-Parses _ (read_uleb128-Parses pkt.data_type (omega (arith, v.type_word))) (
          bind-Parses _ (read_uleb128-Parses pkt.data_size v.size_word) (
            bind-Parses _ (read_uleb128-Parses pkt.timestamp v.timestamp_word) (
              rw (bits.nonce_bit, bits.contract_bit, bits.reliable_bit, bits.bitmap_bit)
                (bind-Parses _ (read_nonce-Parses pkt (has_nonce pkt) v.nonce_half) (
                  bind-Parses _
                    (read_small-Parses source_too_large (sender_address_u32 pkt.sender)
                      (sender_address_u32-word pkt.sender))
                    (check_room-Parses _ short_buffer _ _ _
                      (room_of field pkt.endpoints (write_contract_if shape targets true))
                      (bind-Parses _
                        (skip_endpoints-Parses flags field pkt.endpoints v.endpoint_words
                          bits.list_bit bits.bitmap_bit)
                        (last-Parses _ (decode_if-Parses shape targets true w) (
                          skip-Parses (λ t. pure (flags, true))
                            (to_u32-Parses _ pkt.data_type v.type_word) (pure-Parses _))))))))))))
