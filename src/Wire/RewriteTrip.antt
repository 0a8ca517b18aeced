-- ===== src/Wire/RewriteTrip.antt =====
-- Rewriting the reliable header of a packed frame, src/wire_format.rs, is packing with another one.
use sedsnet.Errors.{ok}
use sedsnet.Base.{
  le→leb, subst, if_ind, if◌then◌else◌, none, leb, u8_max, Option, Bool, ◌≤◌, ◌∷◌, drop, take, ltb,
  length-append, append_assoc, arith, sym, length, ap, ℕ, List, ◌∙◌, ◌-◌, ◌++◌, ◌<◌, ◌+◌, ◌≡◌, refl,
  false, true, [], some,
}
use sedsnet.Wire.Reliable.{
  public_flags, write_reliable_header_encoded, read_reliable_header_encoded,
  should_compact_reliable_header, ReliableHeader,
}
use sedsnet.Wire.ReliableTrip.{read_reliable_header_encoded-Parses, IsHeader}
use sedsnet.Wire.SpanTrip.{read_up_to_reliable-Parses}
use sedsnet.Wire.PackTrip.{frame_parts, IsPacket}
use sedsnet.Wire.Bytes.{length-to_le_bytes, drop-append, take-append}
use sedsnet.Wire.Pack.{
  header_fields, has_nonce, carries_contract, payload_for_encoding, endpoint_field, frame_flags,
  Packet, Services, with_packet_frame_parts, frame_header, EndpointField,
  pack_packet_inner_with_contract, join_frame_with_crc,
}
use sedsnet.Wire.ContractTrip.{FitsContract}
use sedsnet.Wire.Endpoints.{unique_sorted_endpoints}
use sedsnet.Wire.Shape.{MessageElement}
use sedsnet.Wire.Flags.{frame_flags-FlagBits}
use sedsnet.Wire.Rewrite.{
  with_compact_bit, rewrite_reliable_header_owned, span_from, span_behind, read_up_to_reliable,
  mark_first, reliable_header_span, replace_header,
}
use sedsnet.Wire.Parses.{between, Parses}
use sedsnet.Wire.Crc.{take_all}
use sedsnet.Wire.Reader.{has_bit, to_le_bytes}

-- A frame in its parts: what is in front of the reliable header, the header, the payload and the
-- checksum.
abbrev frame_of : List ℕ → List ℕ → List ℕ → List ℕ → List ℕ
frame_of front header payload crc = front ++ (header ++ (payload ++ crc))

regroup :
    (front header payload crc : List ℕ)
    → frame_of front header payload crc ≡ (front ++ (header ++ payload)) ++ crc
regroup front header payload crc =
    ap (λ l. front ++ l) (sym (append_assoc header payload crc))
    ∙ sym (append_assoc front (header ++ payload) crc)

length-frame_of :
    (front header payload crc : List ℕ)
    → length (frame_of front header payload crc)
      ≡ length front + (length header + (length payload + length crc))
length-frame_of front header payload crc = omega (
  arith,
  length-append front (header ++ (payload ++ crc)),
  length-append header (payload ++ crc),
  length-append payload crc,
)

span_found :
    (front header payload crc : List ℕ) (flags : ℕ) (hdr : ReliableHeader)
    → length crc ≡ 4
    → 0 < length front
    → Parses read_up_to_reliable front (flags, true)
    → Parses (read_reliable_header_encoded (has_bit flags 64)) header hdr
    → reliable_header_span (frame_of front header payload crc)
      ≡ ok (some (record { offset = length front; size = length header; header = hdr }))
unfolding reliable_header_span
span_found front header payload crc flags hdr four filled up_to at =
    let frame = frame_of front header payload crc in
    let size = length-frame_of front header payload crc in
    let long : ltb (length frame) 5 ≡ false = ground arith in
    let body : take (length frame - 4) frame ≡ front ++ (header ++ payload) =
      ap (λ n. take (length frame - n) frame) (sym four)
      ∙ ap (λ l. take (length l - length crc) l) (regroup front header payload crc)
      ∙ take_all (front ++ (header ++ payload)) crc in
    rw (long, reliable_header_span)
      (rw body (
        ap span_behind (up_to.reads [] (header ++ payload))
        ∙ ap (span_from (between front (header ++ payload))) (at.reads front payload)
        ∙ ap (λ n. ok (some (record { offset = length front; size = n; header = hdr })))
            (omega (arith, length-append front header))))

replace_header-eq :
    (crc32 : List ℕ → ℕ) (front header payload crc : List ℕ) (old hdr : ReliableHeader)
    → length crc ≡ 4
    → replace_header crc32
        (frame_of front header payload crc)
        (record { offset = length front; size = length header; header = old })
        hdr
      ≡ (let body =
            mark_first (should_compact_reliable_header hdr) front
            ++ (write_reliable_header_encoded hdr (should_compact_reliable_header hdr)
                ++ payload) in
          body ++ to_le_bytes 4 (crc32 body))
unfolding replace_header
replace_header-eq crc32 front header payload crc old hdr four =
    let frame = frame_of front header payload crc in
    let first : take (length front) frame ≡ front =
      take-append front (header ++ (payload ++ crc)) in
    let behind : drop (length front + length header) frame ≡ payload ++ crc =
      ap (λ n. drop n frame) (sym (length-append front header))
      ∙ ap (drop (length (front ++ header))) (sym (append_assoc front header (payload ++ crc)))
      ∙ drop-append (front ++ header) (payload ++ crc) in
    let left : length frame - 4 - (length front + length header) ≡ length payload =
      omega (arith, length-frame_of front header payload crc) in
    rw (replace_header, first, behind, left) (rw (take-append payload crc) refl)

compact_bit-set :
    (c r k n m m' : Bool) (field : EndpointField)
    → with_compact_bit m' (frame_flags c r k n m field) ≡ frame_flags c r k n m' field
compact_bit-set c r k n m m' field =
    let bit = (frame_flags-FlagBits c r k n m field).compact_bit in set m m' bit
  where
    set :
        (a b : Bool)
        → has_bit (frame_flags c r k n a field) 64 ≡ a
        → with_compact_bit b (frame_flags c r k n a field) ≡ frame_flags c r k n b field
    set true true bit = rw bit refl
    set true false bit = rw bit (omega arith)
    set false true bit = rw bit (omega arith)
    set false false bit = rw bit refl

packed_with :
    (s : Services) (pkt : Packet) (reliable : Option ReliableHeader) (shape : Option MessageElement)
    (targets : List ℕ)
    → length (unique_sorted_endpoints pkt.endpoints) ≤ u8_max
    → pack_packet_inner_with_contract s pkt reliable shape targets
      ≡ some (
          join_frame_with_crc s.crc32
            (frame_header
              (endpoint_field s pkt shape targets)
              (payload_for_encoding s pkt true).0
              pkt
              reliable
              shape
              targets)
            (payload_for_encoding s pkt true).1)
unfolding pack_packet_inner_with_contract with_packet_frame_parts
packed_with s pkt reliable shape targets few =
    if_ind
      (λ (o : Option (List ℕ × List ℕ)).
        elim o [
          | none ↦ none
          | some (header, payload) ↦ some (join_frame_with_crc s.crc32 header payload)
        ]
        ≡ some (
            join_frame_with_crc s.crc32
              (frame_header (endpoint_field s pkt shape targets) (payload_for_encoding s pkt true).0
                pkt reliable shape targets)
              (payload_for_encoding s pkt true).1))
      (leb (length (unique_sorted_endpoints pkt.endpoints)) u8_max) (λ t. refl)
      (λ f. absurd (cc (le→leb _ _ few)))

joined :
    (crc32 : List ℕ → ℕ) (flags : ℕ) (fields header payload : List ℕ)
    → join_frame_with_crc crc32 ((flags ∷ []) ++ (fields ++ header)) payload
      ≡ frame_of
          (flags ∷ fields)
          header
          payload
          (to_le_bytes 4 (crc32 ((flags ∷ fields) ++ (header ++ payload))))
unfolding join_frame_with_crc
joined crc32 flags fields header payload =
    let whole : ((flags ∷ fields) ++ header) ++ payload ≡ (flags ∷ fields) ++ (header ++ payload) =
      append_assoc (flags ∷ fields) header payload in
    append_assoc (flags ∷ fields) header
      (payload ++ to_le_bytes 4 (crc32 (((flags ∷ fields) ++ header) ++ payload)))
    ∙ ap (λ l. frame_of (flags ∷ fields) header payload (to_le_bytes 4 (crc32 l))) whole

-- Rewriting the reliable header of a packed frame gives exactly the frame that packing the same packet
-- with the other header gives: the flags, the size of the header and the checksum follow, and nothing
-- else of the frame changes.
pub rewrite_reliable_header_owned-pack :
    (s : Services) (pkt : Packet) (old hdr : ReliableHeader) (shape : Option MessageElement)
    (targets frame : List ℕ)
    → IsPacket pkt
    → FitsContract shape targets
    → IsHeader old
    → pack_packet_inner_with_contract s pkt (some old) shape targets ≡ some frame
    → rewrite_reliable_header_owned s.crc32 frame hdr
      ≡ ok (pack_packet_inner_with_contract s pkt (some hdr) shape targets)
unfolding rewrite_reliable_header_owned frame_header
rewrite_reliable_header_owned-pack s pkt old hdr shape targets frame v w u packed =
    let field = endpoint_field s pkt shape targets in
    let (compressed, payload) = payload_for_encoding s pkt true in
    let contract = carries_contract shape targets in
    let compact = should_compact_reliable_header old in
    let next = should_compact_reliable_header hdr in
    let flags = frame_flags compressed true contract (has_nonce pkt) compact field in
    let fields = header_fields field pkt shape targets true in
    let header = write_reliable_header_encoded old compact in
    let crc = to_le_bytes 4 (s.crc32 ((flags ∷ fields) ++ (header ++ payload))) in
    let four = length-to_le_bytes 4 (s.crc32 ((flags ∷ fields) ++ (header ++ payload))) in
    let (few, whole) = frame_parts s pkt (some old) shape targets frame packed in
    let bits = frame_flags-FlagBits compressed true contract (has_nonce pkt) compact field in
    let parts : frame ≡ frame_of (flags ∷ fields) header payload crc =
      whole ∙ joined s.crc32 flags fields header payload in
    let back : ReliableHeader =
      if compact then record old { flags = public_flags old.flags } else old in
    let read : Parses (read_reliable_header_encoded (has_bit flags 64)) header back =
      subst (λ b. Parses (read_reliable_header_encoded b) header back) (sym bits.compact_bit)
        (read_reliable_header_encoded-Parses old compact u) in
    let span =
      span_found (flags ∷ fields) header payload crc flags back four (omega arith)
        (read_up_to_reliable-Parses pkt flags field shape targets compact v w bits) read in
    let inside : ltb (length (frame_of (flags ∷ fields) header payload crc) - 4)
          (length (flags ∷ fields) + length header)
        ≡ false =
      ground (arith, length-frame_of (flags ∷ fields) header payload crc) in
    let front = mark_first next (flags ∷ fields) in
    let encoded = write_reliable_header_encoded hdr next in
    let flags_next = frame_flags compressed true contract (has_nonce pkt) next field in
    let marked : front ≡ flags_next ∷ fields =
      ap (λ b. b ∷ fields)
        (compact_bit-set compressed true contract (has_nonce pkt) compact next field) in
    let owned : rewrite_reliable_header_owned s.crc32 (frame_of (flags ∷ fields) header payload crc)
          hdr
        ≡ ok (
            some (
              frame_of front encoded payload
                (to_le_bytes 4 (s.crc32 (front ++ (encoded ++ payload)))))) =
      rw (rewrite_reliable_header_owned, span)
        (rw inside (
          ap (λ l. ok (some l))
            (replace_header-eq s.crc32 (flags ∷ fields) header payload crc back hdr four
              ∙ sym (regroup front encoded payload _)))) in
    rw parts owned
    ∙ ap
        (λ l.
          ok (
            some
              (frame_of l encoded payload (to_le_bytes 4 (s.crc32 (l ++ (encoded ++ payload)))))))
        marked
    ∙ ap (λ l. ok (some l)) (sym (joined s.crc32 flags_next fields encoded payload))
    ∙ ap ok (sym (packed_with s pkt (some hdr) shape targets few))
