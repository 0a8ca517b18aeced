-- ===== src/Wire/Crc.antt =====
-- The checksum at the end of a frame, src/wire_format.rs.
use sedsnet.Errors.{ok}
use sedsnet.Wire.Bytes.{from_le_bytes-to_le_bytes, drop-append, take-append, length-to_le_bytes}
use sedsnet.Wire.Reader.{from_le_bytes, to_le_bytes}
use sedsnet.Base.{
  ap, ltb, append_assoc, length-append, sym, length, arith, u32_max, drop, take, ℕ, List, ◌==◌, ◌∙◌,
  ◌-◌, ◌++◌, ◌≤◌, ◌≡◌, refl, false, true,
}
use sedsnet.Wire.Pack.{join_frame_with_crc}
use sedsnet.Wire.Envelope.{verify_crc32, split_crc32}

drop_all : (xs ys : List ℕ) → drop (length (xs ++ ys) - length ys) (xs ++ ys) ≡ ys
drop_all xs ys =
    let at_end : length (xs ++ ys) - length ys ≡ length xs = omega (arith, length-append xs ys) in
    rw at_end (drop-append xs ys)

pub take_all : (xs ys : List ℕ) → take (length (xs ++ ys) - length ys) (xs ++ ys) ≡ xs
take_all xs ys =
    let at_end : length (xs ++ ys) - length ys ≡ length xs = omega (arith, length-append xs ys) in
    rw at_end (take-append xs ys)

split_crc32-append :
    (body : List ℕ) (crc : ℕ)
    → crc ≤ u32_max
    → split_crc32 (body ++ to_le_bytes 4 crc) ≡ ok (body, crc)
unfolding split_crc32
split_crc32-append body crc h =
    let size = length-to_le_bytes 4 crc in
    let long : ltb (length (body ++ to_le_bytes 4 crc)) 4 ≡ false =
      ground (arith, length-append body (to_le_bytes 4 crc)) in
    rw long (
      ap
        (λ n. ok (
          take (length (body ++ to_le_bytes 4 crc) - n) (body ++ to_le_bytes 4 crc),
          from_le_bytes (drop (length (body ++ to_le_bytes 4 crc) - n) (body ++ to_le_bytes 4 crc)),
        ))
        (sym size)
      ∙ rw
          (
            take_all body (to_le_bytes 4 crc),
            drop_all body (to_le_bytes 4 crc),
            from_le_bytes-to_le_bytes 4 crc (omega arith),
          )
          refl)

-- A joined frame passes its check, which gives back the header with the payload.
pub verify_crc32-join_frame_with_crc :
    (crc32 : List ℕ → ℕ) (header payload : List ℕ)
    → crc32 (header ++ payload) ≤ u32_max
    → verify_crc32 crc32 (join_frame_with_crc crc32 header payload) ≡ ok (header ++ payload)
unfolding verify_crc32 join_frame_with_crc
verify_crc32-join_frame_with_crc crc32 header payload h =
    let body = header ++ payload in
    let same : (crc32 body == crc32 body) ≡ true = ground arith in
    rw (sym (append_assoc header payload (to_le_bytes 4 (crc32 (header ++ payload)))))
      (rw (verify_crc32, split_crc32-append body (crc32 body) h) (rw same refl))
