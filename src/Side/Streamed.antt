-- ===== src/Side/Streamed.antt =====
-- The chunks that `send_packet_chunks` of src/side_transport.rs makes of the parts of a packet are those
-- of the joined frame.
use sedsnet.Side.Sending.{
  send_resuming, Sent, Link, send_loop, stream_loop, admits_next, part_slice, Stream, part_slices,
  stream_chunk,
}
use sedsnet.Errors.{Result, err, ok, ◌>>=◌}
use sedsnet.Side.Frames.{
  wire_len, magic, kind_chunk, wrap_side_transport_frame_parts, chunk_payload, SideTransportFrames,
  concat_parts,
}
use sedsnet.Base.{
  usize_max, sat_add, not, ltb, if_ind, append-nil, ◌&&◌, true, ◌^◌, ◌==◌, ◌%◌, ◌*◌, false, sym, ap,
  arith, length, min, drop, take, List, ℕ, ◌∙◌, ◌-◌, ◌++◌, ◌<◌, ◌+◌, ◌≡◌, refl, suc, zero, ◌∷◌, [],
}
use sedsnet.Side.Sends.{next_frame-some, next_frame-none, frame_at}
use sedsnet.Wire.Reader.{to_le_bytes}
use sedsnet.Side.Chunks.{IsSplit}

-- A slice of two lists that stand behind each other.
slice-append :
    (a b : ℕ) (p q : List ℕ)
    → take (b - a) (drop a (p ++ q))
      ≡ take (min b (length p) - min a (length p)) (drop (min a (length p)) p)
        ++ take (b - length p - (a - length p)) (drop (a - length p) q)
slice-append a b [] q =
    let x : min b 0 - min a 0 ≡ 0 = omega arith in
    let y : b - 0 - (a - 0) ≡ b - a = omega arith in
    let z : a - 0 ≡ a = omega arith in rw (x, y, z) refl
slice-append zero zero (x ∷ p) q =
    let y : min 0 (suc (length p)) - min 0 (suc (length p)) ≡ 0 = omega arith in
    let z : 0 - suc (length p) - (0 - suc (length p)) ≡ 0 = omega arith in rw (y, z) refl
slice-append zero (suc b) (x ∷ p) q =
    let y : min (suc b) (suc (length p)) - min 0 (suc (length p)) ≡ suc (min b (length p) - 0) =
      omega arith in
    let start : min 0 (suc (length p)) ≡ 0 = omega arith in
    let same_start : min 0 (length p) ≡ 0 = omega arith in
    let z : suc b - suc (length p) ≡ b - length p = omega arith in
    let w : 0 - suc (length p) ≡ 0 - length p = omega arith in
    let rest = slice-append 0 b p q in
    let whole : suc b - 0 ≡ suc (b - 0) = omega arith in
    rw (y, z, w, start, whole) (ap (λ l. x ∷ l) (rw same_start at rest))
slice-append (suc a) zero (x ∷ p) q =
    let x : 0 - suc a ≡ 0 = omega arith in
    let y : min 0 (suc (length p)) - min (suc a) (suc (length p)) ≡ 0 = omega arith in
    let z : 0 - suc (length p) - (suc a - suc (length p)) ≡ 0 = omega arith in rw (x, y, z) refl
slice-append (suc a) (suc b) (x ∷ p) q =
    let y : min (suc b) (suc (length p)) - min (suc a) (suc (length p))
        ≡ min b (length p) - min a (length p) =
      omega arith in
    let start : min (suc a) (suc (length p)) ≡ suc (min a (length p)) = omega arith in
    let z : suc b - suc (length p) ≡ b - length p = omega arith in
    let w : suc a - suc (length p) ≡ a - length p = omega arith in
    let both : suc b - suc a ≡ b - a = omega arith in
    rw (y, z, w, start, both) (slice-append a b p q)

nothing_taken : (m n : ℕ) → take {A = ℕ} m (drop n []) ≡ []
nothing_taken zero n = refl
nothing_taken (suc m) zero = refl
nothing_taken (suc m) (suc n) = refl

-- The slices of the parts together are the slice of the parts together.
concat-part_slices :
    (start end offset : ℕ) (ps : List (List ℕ))
    → concat_parts (part_slices start end offset ps)
      ≡ take (end - offset - (start - offset)) (drop (start - offset) (concat_parts ps))
unfolding concat_parts part_slices
concat-part_slices start end offset [] =
    sym (nothing_taken (end - offset - (start - offset)) (start - offset))
concat-part_slices start end offset (p ∷ ps) =
    let far_start : start - (offset + length p) ≡ start - offset - length p = omega arith in
    let far_end : end - (offset + length p) ≡ end - offset - length p = omega arith in
    let rest = concat-part_slices start end (offset + length p) ps in
    ap (λ l. part_slice start end offset p ++ l) (rw (far_start, far_end) at rest)
    ∙ sym (slice-append (start - offset) (end - offset) p (concat_parts ps))

abbrev pub stream_of : List (List ℕ) → ℕ → SideTransportFrames → Stream
stream_of parts max_bytes f = record {
  parts = parts;
  len = length f.frame;
  max_frame_bytes = max_bytes;
  budget = f.payload_budget;
  total = f.total;
  transfer = f.transfer_id;
}

wrap-same :
    (crc32 : List ℕ → ℕ) (kind : ℕ) (ps qs : List (List ℕ))
    → concat_parts ps ≡ concat_parts qs
    → wrap_side_transport_frame_parts crc32 kind ps ≡ wrap_side_transport_frame_parts crc32 kind qs
unfolding wrap_side_transport_frame_parts
wrap-same crc32 kind ps qs e =
    ap (λ l. let body = (magic ++ kind ∷ []) ++ l in body ++ to_le_bytes 4 (crc32 body)) e

stream_chunk-frame_at :
    (crc32 : List ℕ → ℕ) (parts : List (List ℕ)) (max_bytes index : ℕ) (f : SideTransportFrames)
    → IsSplit (concat_parts parts) f
    → index < f.total
    → stream_chunk crc32 (stream_of parts max_bytes f) index ≡ frame_at crc32 f index
unfolding stream_chunk frame_at chunk_payload concat_parts
stream_chunk-frame_at crc32 parts max_bytes index f s h =
    let start = index * f.payload_budget in
    let end = min (start + f.payload_budget) (length f.frame) in
    let split_up : (f.payload_budget == 0) ≡ false = ground (arith, s.positive) in
    let word : f.total % 2 ^ 16 ≡ f.total = omega (arith, s.few) in
    let full_start : start - 0 ≡ start = omega arith in
    let full_end : end - 0 - start ≡ end - start = omega arith in
    let slices = concat-part_slices start end 0 parts in
    let bytes : concat_parts (part_slices start end 0 parts)
        ≡ take (end - start) (drop start f.frame) =
      (rw (full_start, full_end) at slices)
      ∙ ap (λ l. take (end - start) (drop start l)) (sym s.same_frame) in
    rw (split_up, word)
      (wrap-same crc32 kind_chunk
        (to_le_bytes 4 f.transfer_id
          ∷ to_le_bytes 2 (index % 2 ^ 16)
          ∷ to_le_bytes 2 f.total
          ∷ part_slices start end 0 parts)
        (to_le_bytes 4 f.transfer_id
          ∷ to_le_bytes 2 (index % 2 ^ 16)
          ∷ to_le_bytes 2 f.total
          ∷ chunk_payload f index
          ∷ [])
        (ap
          (λ l.
            to_le_bytes 4 f.transfer_id
            ++ (to_le_bytes 2 (index % 2 ^ 16) ++ (to_le_bytes 2 f.total ++ l)))
          (bytes ∙ sym (append-nil (take (end - start) (drop start f.frame))))))

admits_next-granted :
    {S : Type 0} (l : Link S) (s : S) (f : SideTransportFrames)
    → ((s : S) (bytes largest : ℕ) → l.admits s bytes largest ≡ true)
    → admits_next l s f ≡ true
unfolding admits_next
admits_next-granted l s f g =
    if_ind (λ b. b ≡ true) (ltb f.index f.total && not (f.payload_budget == 0)) (λ t. g s _ _)
      (λ n. refl)

-- One frame is sent, and the others after it.
abbrev and_then :
    {S : Type 0} → Link S → ℕ → S → (S → Sent S (Unit {0})) → List ℕ → Sent S (Unit {0})
and_then l next s rest bytes = elim ((l.send s bytes).0) [
  | ok u ↦ rest (l.send s bytes).1
  | err e ↦ record { result = err e; next = next; link = (l.send s bytes).1 }
]

stream_loop-and_then :
    {S : Type 0} (n : ℕ) (crc32 : List ℕ → ℕ) (l : Link S) (next : ℕ) (m : Stream) (s : S)
    → ((s : S) (bytes largest : ℕ) → l.admits s bytes largest ≡ true)
    → stream_loop (suc n) crc32 l next m s
      ≡ and_then l next s (stream_loop n crc32 l (next + 1) m) (stream_chunk crc32 m next)
unfolding stream_loop
stream_loop-and_then n crc32 l next m s g =
    rw (g s (sat_add usize_max m.max_frame_bytes 256) (sat_add usize_max m.max_frame_bytes 32)) refl

send_loop-and_then :
    {S : Type 0} (n : ℕ) (crc32 : List ℕ → ℕ) (l : Link S) (next : ℕ) (f : SideTransportFrames)
    (s : S)
    → ((s : S) (bytes largest : ℕ) → l.admits s bytes largest ≡ true)
    → next < f.total
    → send_loop (suc n) crc32 l next (record f { index = next }) s
      ≡ and_then l next s
          (send_loop n crc32 l (next + 1) (record f { index = next + 1 }))
          (frame_at crc32 f next)
unfolding send_loop
send_loop-and_then n crc32 l next f s g h =
    rw (admits_next-granted l s (record f { index = next }) g)
      (rw (next_frame-some crc32 f next h) refl)

pub stream_loop-send_loop :
    {S : Type 0} (n : ℕ) (crc32 : List ℕ → ℕ) (l : Link S) (next : ℕ) (parts : List (List ℕ))
    (max_bytes : ℕ) (f : SideTransportFrames) (s : S)
    → ((s : S) (bytes largest : ℕ) → l.admits s bytes largest ≡ true)
    → IsSplit (concat_parts parts) f
    → next + n ≡ f.total
    → stream_loop n crc32 l next (stream_of parts max_bytes f) s
      ≡ send_loop (suc n) crc32 l next (record f { index = next }) s
unfolding stream_loop send_loop
stream_loop-send_loop zero crc32 l next parts max_bytes f s g i e =
    rw (admits_next-granted l s (record f { index = next }) g)
      (rw (next_frame-none crc32 f next (omega (arith, e))) refl)
stream_loop-send_loop (suc n) crc32 l next parts max_bytes f s g i e =
    let inside : next < f.total = omega (arith, e) in
    let bytes = frame_at crc32 f next in
    let rest = stream_loop n crc32 l (next + 1) (stream_of parts max_bytes f) in
    stream_loop-and_then n crc32 l next (stream_of parts max_bytes f) s g
    ∙ ap (and_then l next s rest) (stream_chunk-frame_at crc32 parts max_bytes next f i inside)
    ∙ ap (λ k. and_then l next s (λ q. k) bytes)
        (stream_loop-send_loop n crc32 l (next + 1) parts max_bytes f (l.send s bytes).1 g i
          (omega (arith, e)))
    ∙ sym (send_loop-and_then (suc n) crc32 l next f s g inside)

-- What the chunks of a frame that is split give, when they are sent.
unfoldable pub sent_by_chunks :
    {S : Type 0} → (List ℕ → ℕ) → Link S → Result SideTransportFrames → ℕ → S → Sent S (ℕ × ℕ × ℕ)
unfolding wire_len
sent_by_chunks crc32 l (err e) next s = record { result = err e; next = next; link = s }
sent_by_chunks crc32 l (ok f) next s =
    let sent = send_resuming crc32 l next f s in
    record {
      result = sent.result >>= λ u. ok (length f.frame, wire_len f, f.total);
      next = sent.next;
      link = sent.link;
    }
