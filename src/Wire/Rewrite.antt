-- ===== src/Wire/Rewrite.antt =====
-- The reliable header of a packed frame, found and rewritten, src/wire_format.rs.
use sedsnet.Wire.Contract.{decode_wire_contract}
use sedsnet.Wire.Endpoints.{bitmap_bytes, read_endpoint_list}
use sedsnet.Wire.Reader.{
  to_le_bytes, bit_if, read_bytes, to_u32, reader_of, pure, fail, read_uleb128, read_byte, has_bit,
  Parser, Reader, remaining, ◌>>=◌, ◌>>◌,
}
use sedsnet.Wire.Envelope.{source_too_large, ambiguous}
use sedsnet.Base.{
  drop, take, length, not, Option, ltb, ℕ, Bool, List, if◌then◌else◌, ◌==◌, ◌||◌, ◌-◌, ◌++◌, ◌+◌,
  false, true, ◌∷◌, [], some, none,
}
use sedsnet.Wire.Reliable.{
  write_reliable_header_encoded, read_reliable_header_encoded, should_compact_reliable_header,
  reliable_wire_size, ReliableHeader,
}
use sedsnet.Errors.{unpack, Result, TelemetryError, err, ok}

unfoldable pub check_room : ℕ → TelemetryError → Parser (Unit {0})
unfolding remaining
check_room bytes e r = if ltb (remaining r) bytes then err e else ok (tt, r)

abbrev pub short_buffer : TelemetryError
short_buffer = unpack "short buffer"

-- The bytes of the endpoints are passed over.
unfoldable pub skip_endpoints : ℕ → ℕ → Parser (List ℕ)
skip_endpoints flags nep =
    if has_bit flags 128
    then (if has_bit flags 32 then fail ambiguous else read_endpoint_list nep)
    else if has_bit flags 32
    then read_bytes bitmap_bytes
    else pure []

-- What is in front of the reliable header: the flags, and whether a reliable header follows.
unfoldable pub read_up_to_reliable : Parser (ℕ × Bool)
read_up_to_reliable = do
  flags ← read_byte
  nep ← read_byte
  ty_v ← read_uleb128
  size ← read_uleb128
  timestamp ← read_uleb128
  nonce ← if has_bit flags 8 then read_uleb128 else pure 0
  source ← read_uleb128 >>= to_u32 source_too_large
  check_room (bit_if (has_bit flags 32) bitmap_bytes) short_buffer
  endpoints ← skip_endpoints flags nep
  contract ← decode_wire_contract (has_bit flags 4)
  ty ← to_u32 (unpack "type too large") ty_v
  pure (flags, has_bit flags 2 || contract.has_reliable_header)

-- Where the reliable header stands, how many bytes it has, and what it says.
pub record Span : Type 0 where
  pub offset : ℕ
  pub size : ℕ
  pub header : ReliableHeader

abbrev pub span_from : Reader → Result (ReliableHeader × Reader) → Result (Option Span)
span_from start (err e) = err e
span_from start (ok (hdr, r)) =
    ok (some (record { offset = start.off; size = r.off - start.off; header = hdr }))

abbrev pub span_behind : Result ((ℕ × Bool) × Reader) → Result (Option Span)
span_behind (err e) = err e
span_behind (ok ((flags, present), r)) =
    if not present then ok none else span_from r (read_reliable_header_encoded (has_bit flags 64) r)

unfoldable pub reliable_header_span : List ℕ → Result (Option Span)
unfolding read_up_to_reliable
reliable_header_span buf =
    if ltb (length buf) 5
    then err (unpack "short prelude")
    else span_behind (read_up_to_reliable (reader_of (take (length buf - 4) buf)))

-- `buf[0] |= FLAG_COMPACT_RELIABLE_HEADER`, or `&= !` of it.
abbrev pub with_compact_bit : Bool → ℕ → ℕ
with_compact_bit true byte = if has_bit byte 64 then byte else byte + 64
with_compact_bit false byte = if has_bit byte 64 then byte - 64 else byte

abbrev pub mark_first : Bool → List ℕ → List ℕ
mark_first compact [] = []
mark_first compact (b ∷ bs) = with_compact_bit compact b ∷ bs

unfoldable pub replace_header : (List ℕ → ℕ) → List ℕ → Span → ReliableHeader → List ℕ
replace_header crc32 buf span hdr =
    let data_len = length buf - 4 in
    let compact = should_compact_reliable_header hdr in
    let encoded = write_reliable_header_encoded hdr compact in
    let tail = take (data_len - (span.offset + span.size)) (drop (span.offset + span.size) buf) in
    let out = mark_first compact (take span.offset buf) ++ (encoded ++ tail) in
    out ++ to_le_bytes 4 (crc32 out)

unfoldable pub rewrite_reliable_header_owned :
    (List ℕ → ℕ) → List ℕ → ReliableHeader → Result (Option (List ℕ))
unfolding reliable_header_span replace_header
rewrite_reliable_header_owned crc32 buf hdr = elim (reliable_header_span buf) [
  | err e ↦ err e
  | ok found ↦ elim found [
    | none ↦ ok none
    | some span ↦
        if ltb (length buf - 4) (span.offset + span.size)
        then err short_buffer
        else ok (some (replace_header crc32 buf span hdr))
  ]
]

-- In place, where the size has to stay: whether a header was rewritten, with the buffer.
unfoldable pub rewrite_reliable_header :
    (List ℕ → ℕ) → List ℕ → ReliableHeader → Result (Bool × List ℕ)
unfolding reliable_header_span replace_header
rewrite_reliable_header crc32 buf hdr = elim (reliable_header_span buf) [
  | err e ↦ err e
  | ok found ↦ elim found [
    | none ↦ ok (false, buf)
    | some span ↦
        if not (reliable_wire_size hdr (should_compact_reliable_header hdr) == span.size)
        then err (unpack "reliable header rewrite changes wire size")
        else if ltb (length buf - 4 - span.offset) span.size
        then err short_buffer
        else ok (true, replace_header crc32 buf span hdr)
  ]
]
