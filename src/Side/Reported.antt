-- ===== src/Side/Reported.antt =====
-- What `send_packet_chunks` of src/side_transport.rs reports, against `send_resuming`.
use sedsnet.Side.Streamed.{stream_loop-send_loop, stream_of, sent_by_chunks}
use sedsnet.Base.{
  if_ind, sym, ltb, arith, ap, length, ℕ, List, if◌then◌else◌, ◌==◌, ◌∙◌, ◌*◌, ◌-◌, ◌<◌, ◌+◌, ◌≡◌,
  refl, false, true, suc,
}
use sedsnet.Side.Sending.{stream_loop, send_loop, Link, Sent, send_resuming, send_stream}
use sedsnet.Errors.{bad_arg, err, ok, ◌>>=◌}
use sedsnet.Side.Frames.{concat_parts, chunk_overhead, wire_len, SideTransportFrames}
use sedsnet.Side.Chunks.{IsSplit}

wire_len-chunks :
    (f : SideTransportFrames)
    → 0 < f.payload_budget
    → wire_len f ≡ length f.frame + f.total * chunk_overhead
unfolding wire_len
wire_len-chunks f h =
    let split_up : (f.payload_budget == 0) ≡ false = ground (arith, h) in rw split_up refl

abbrev report : {S : Type 0} → SideTransportFrames → Sent S (Unit {0}) → Sent S (ℕ × ℕ × ℕ)
report f sent = record {
  result =
      sent.result >>= λ u. ok (length f.frame, length f.frame + f.total * chunk_overhead, f.total);
  next = sent.next;
  link = sent.link;
}

sent_by_chunks-report :
    {S : Type 0} (crc32 : List ℕ → ℕ) (l : Link S) (f : SideTransportFrames) (next : ℕ) (s : S)
    → 0 < f.payload_budget
    → sent_by_chunks crc32 l (ok f) next s ≡ report f (send_resuming crc32 l next f s)
unfolding sent_by_chunks
sent_by_chunks-report {S = S} crc32 l f next s h =
    let sent = send_resuming crc32 l next f s in
    ap
      (λ (n : ℕ).
        let r : Sent S (ℕ × ℕ × ℕ) = record {
          result = sent.result >>= λ u. ok (length f.frame, n, f.total);
          next = sent.next;
          link = sent.link;
        } in
        r)
      (wire_len-chunks f h)

send_resuming-within :
    {S : Type 0} (crc32 : List ℕ → ℕ) (l : Link S) (next : ℕ) (f : SideTransportFrames) (s : S)
    → ltb f.total next ≡ false
    → send_resuming crc32 l next f s
      ≡ send_loop (suc (f.total - next)) crc32 l next (record f { index = next }) s
unfolding send_resuming
send_resuming-within crc32 l next f s h = rw h refl

send_resuming-past :
    {S : Type 0} (crc32 : List ℕ → ℕ) (l : Link S) (next : ℕ) (f : SideTransportFrames) (s : S)
    → ltb f.total next ≡ true
    → send_resuming crc32 l next f s ≡ record { result = err bad_arg; next = next; link = s }
unfolding send_resuming
send_resuming-past crc32 l next f s h = rw h refl

send_stream-report :
    {S : Type 0} (crc32 : List ℕ → ℕ) (l : Link S) (parts : List (List ℕ)) (max_bytes : ℕ)
    (f : SideTransportFrames) (next : ℕ) (s : S)
    → ltb 0xffff f.total ≡ false
    → send_stream crc32 l (stream_of parts max_bytes f) next s ≡ (
        if ltb f.total next
        then record { result = err bad_arg; next = next; link = s }
        else report f (stream_loop (f.total - next) crc32 l next (stream_of parts max_bytes f) s))
unfolding send_stream
send_stream-report crc32 l parts max_bytes f next s few = rw few refl

pub stream_of-sent :
    {S : Type 0} (crc32 : List ℕ → ℕ) (l : Link S) (parts : List (List ℕ)) (max_bytes : ℕ)
    (f : SideTransportFrames) (next : ℕ) (s : S)
    → ((s : S) (bytes largest : ℕ) → l.admits s bytes largest ≡ true)
    → IsSplit (concat_parts parts) f
    → send_stream crc32 l (stream_of parts max_bytes f) next s
      ≡ sent_by_chunks crc32 l (ok f) next s
stream_of-sent crc32 l parts max_bytes f next s g i =
    let few : ltb 0xffff f.total ≡ false = ground (arith, i.few) in
    let reports = sym (sent_by_chunks-report crc32 l f next s i.positive) in
    send_stream-report crc32 l parts max_bytes f next s few
    ∙ if_ind (λ r. r ≡ sent_by_chunks crc32 l (ok f) next s) (ltb f.total next)
        (λ behind. ap (report f) (sym (send_resuming-past crc32 l next f s behind)) ∙ reports)
        (λ within.
          ap (report f) (
            stream_loop-send_loop (f.total - next) crc32 l next parts max_bytes f s g i
              (ground (arith, within))
            ∙ sym (send_resuming-within crc32 l next f s within))
          ∙ reports)
