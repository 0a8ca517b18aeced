-- ===== src/Wire/ReliableTrip.antt =====
-- The reliable header is read back as it was written.
use sedsnet.Wire.Bytes.{
  length-to_le_bytes, length-write_uleb128, read_small-Parses, read_u32_le-Parses, read_byte-Parses,
}
use sedsnet.Wire.Reader.{to_le_bytes, write_u32_le, pure, bit_if, has_bit}
use sedsnet.Base.{
  length-append, sym, subst, length, arith, u32_max, u8_max, ℕ, Bool, if◌then◌else◌, ◌≤◌, ◌+◌, ◌≡◌,
  refl, false, true, [],
}
use sedsnet.Varint.Codec.{uleb128_size, write_uleb128}
use sedsnet.Wire.Parses.{pure-Parses, map-Parses, bind-Parses, Parses}
use sedsnet.Wire.Reliable.{
  reliable_wire_flags, ack_present, read_number_if, reliable_compact_size, seq_present,
  public_flags, reliable_wire_size, write_reliable_header, write_reliable_header_encoded,
  read_reliable_header_encoded, ReliableHeader, read_reliable_header, read_reliable_header_compact,
}
use sedsnet.Errors.{TelemetryError}

-- The fields are of their types: `u8` and `u32`.
pub record IsHeader (h : ReliableHeader) : Type 0 where
  pub flags_byte : h.flags ≤ u8_max
  pub seq_word : h.seq ≤ u32_max
  pub ack_word : h.ack ≤ u32_max

read_number_if-Parses :
    (present : Bool) (e : TelemetryError) (v : ℕ)
    → v ≤ u32_max
    → (present ≡ false → v ≡ 0)
    → Parses (read_number_if present e) (if present then write_uleb128 v else []) v
read_number_if-Parses true e v h z = read_small-Parses e v h
read_number_if-Parses false e v h z = subst (Parses (pure 0) []) (sym (z refl)) (pure-Parses 0)

fixed : (h : ReliableHeader) → IsHeader h → Parses read_reliable_header (write_reliable_header h) h
unfolding read_reliable_header write_reliable_header
fixed h v = bind-Parses _ (read_byte-Parses h.flags) (
    bind-Parses _ (read_u32_le-Parses h.seq v.seq_word)
      (map-Parses _ (read_u32_le-Parses h.ack v.ack_word)))

flag_bits :
    (a b : Bool) (f : ℕ)
    → f ≤ u8_max
    → (has_bit (public_flags f + bit_if a 4 + bit_if b 8) 4 ≡ a)
      × (has_bit (public_flags f + bit_if a 4 + bit_if b 8) 8 ≡ b)
      × (public_flags (public_flags f + bit_if a 4 + bit_if b 8) ≡ public_flags f)
flag_bits true true f h = (ground arith, ground arith, omega arith)
flag_bits true false f h = (ground arith, ground arith, omega arith)
flag_bits false true f h = (ground arith, ground arith, omega arith)
flag_bits false false f h = (ground arith, ground arith, omega arith)

compact :
    (h : ReliableHeader)
    → IsHeader h
    → Parses read_reliable_header_compact
        (write_reliable_header_encoded h true)
        (record h { flags = public_flags h.flags })
unfolding read_reliable_header_compact write_reliable_header_encoded
compact h v =
    let (seq_bit, ack_bit, public) =
      flag_bits (seq_present h) (ack_present h) h.flags v.flags_byte in
    bind-Parses _ (read_byte-Parses (reliable_wire_flags h)) (
      rw (seq_bit, ack_bit, public)
        (bind-Parses _
          (read_number_if-Parses (seq_present h) _ h.seq v.seq_word (λ n. ground arith))
          (map-Parses _
            (read_number_if-Parses (ack_present h) _ h.ack v.ack_word (λ n. ground arith)))))

-- A reliable header is read back, whatever stands around it in the frame: in the fixed form as it is,
-- in the compact form with the public flags, and without the numbers that are left out because they
-- are zero.
pub read_reliable_header_encoded-Parses :
    (h : ReliableHeader) (is_compact : Bool)
    → IsHeader h
    → Parses
        (read_reliable_header_encoded is_compact)
        (write_reliable_header_encoded h is_compact)
        (if is_compact then record h { flags = public_flags h.flags } else h)
unfolding read_reliable_header_encoded write_reliable_header_encoded
read_reliable_header_encoded-Parses h true v = compact h v
read_reliable_header_encoded-Parses h false v = fixed h v

length-number_if :
    (present : Bool) (v : ℕ)
    → v ≤ u32_max
    → length (if present then write_uleb128 v else []) ≡ (if present then uleb128_size v else 0)
length-number_if true v h = length-write_uleb128 v (omega arith)
length-number_if false v h = refl

-- The written header has the announced size.
pub length-write_reliable_header_encoded :
    (h : ReliableHeader) (is_compact : Bool)
    → IsHeader h
    → length (write_reliable_header_encoded h is_compact) ≡ reliable_wire_size h is_compact
unfolding write_reliable_header_encoded write_reliable_header reliable_wire_size
    reliable_compact_size write_u32_le
length-write_reliable_header_encoded h false v = omega (
  arith,
  length-append (to_le_bytes 4 h.seq) (to_le_bytes 4 h.ack),
  length-to_le_bytes 4 h.seq,
  length-to_le_bytes 4 h.ack,
)
length-write_reliable_header_encoded h true v = omega (
  arith,
  length-append (if seq_present h then write_uleb128 h.seq else [])
      (if ack_present h then write_uleb128 h.ack else []),
  length-number_if (seq_present h) h.seq v.seq_word,
  length-number_if (ack_present h) h.ack v.ack_word,
)
