-- ===== src/Wire/Reliable.antt =====
-- The reliable header of src/wire_format.rs, in its fixed and its compact form.
use sedsnet.Wire.Reader.{
  pure, to_u32, read_u32_le, read_uleb128, write_u32_le, read_byte, has_bit, bit_if, Parser, ◌>>=◌,
}
use sedsnet.Varint.Codec.{write_uleb128, uleb128_size}
use sedsnet.Errors.{unpack, TelemetryError}
use sedsnet.Base.{
  ltb, not, List, Bool, ℕ, if◌then◌else◌, ◌==◌, ◌||◌, ◌%◌, ◌/◌, ◌*◌, ◌++◌, ◌+◌, ◌∷◌, [],
}

pub record ReliableHeader : Type 0 where
  pub flags : ℕ
  pub seq : ℕ
  pub ack : ℕ

abbrev pub reliable_header_bytes : ℕ
reliable_header_bytes = 9

-- `flags & RELIABLE_FLAG_ACK_ONLY != 0`.
abbrev pub ack_only : ℕ → Bool
ack_only flags = has_bit flags 1

-- `flags & RELIABLE_PUBLIC_FLAGS_MASK`, the bits 0, 1 and 7.
abbrev pub public_flags : ℕ → ℕ
public_flags flags = flags % 4 + flags / 128 % 2 * 128

abbrev pub seq_present : ReliableHeader → Bool
seq_present h = not (ack_only h.flags) || not (h.seq == 0)

abbrev pub ack_present : ReliableHeader → Bool
ack_present h = not (h.ack == 0) || ack_only h.flags

unfoldable pub write_reliable_header : ReliableHeader → List ℕ
write_reliable_header h = (h.flags ∷ []) ++ (write_u32_le h.seq ++ write_u32_le h.ack)

unfoldable pub reliable_compact_size : ReliableHeader → ℕ
reliable_compact_size h =
    1
    + (if seq_present h then uleb128_size h.seq else 0)
    + (if ack_present h then uleb128_size h.ack else 0)

unfoldable pub should_compact_reliable_header : ReliableHeader → Bool
unfolding reliable_compact_size
should_compact_reliable_header h = ltb (reliable_compact_size h) reliable_header_bytes

unfoldable pub reliable_wire_size : ReliableHeader → Bool → ℕ
reliable_wire_size h compact = if compact then reliable_compact_size h else reliable_header_bytes

abbrev pub reliable_wire_flags : ReliableHeader → ℕ
reliable_wire_flags h = public_flags h.flags + bit_if (seq_present h) 4 + bit_if (ack_present h) 8

unfoldable pub write_reliable_header_encoded : ReliableHeader → Bool → List ℕ
unfolding write_reliable_header
write_reliable_header_encoded h compact =
    if not compact
    then write_reliable_header h
    else ((reliable_wire_flags h ∷ [])
        ++ ((if seq_present h then write_uleb128 h.seq else [])
            ++ (if ack_present h then write_uleb128 h.ack else [])))

unfoldable pub read_reliable_header : Parser ReliableHeader
read_reliable_header = do
  flags ← read_byte
  seq ← read_u32_le
  ack ← read_u32_le
  pure (record { flags = flags; seq = seq; ack = ack })

abbrev pub read_number_if : Bool → TelemetryError → Parser ℕ
read_number_if present e = if present then (read_uleb128 >>= to_u32 e) else pure 0

unfoldable pub read_reliable_header_compact : Parser ReliableHeader
read_reliable_header_compact = do
  wire_flags ← read_byte
  seq ← read_number_if (has_bit wire_flags 4) (unpack "reliable seq too large")
  ack ← read_number_if (has_bit wire_flags 8) (unpack "reliable ack too large")
  pure (record { flags = public_flags wire_flags; seq = seq; ack = ack })

unfoldable pub read_reliable_header_encoded : Bool → Parser ReliableHeader
unfolding read_reliable_header read_reliable_header_compact
read_reliable_header_encoded compact =
    if compact then read_reliable_header_compact else read_reliable_header
