-- ===== src/Side/Canonical.antt =====
-- The chunks of `send_packet_chunks`, src/side_transport.rs, are those of the frame that the packet is
-- packed into.
use sedsnet.Side.Reported.{stream_of-sent}
use sedsnet.Side.Sending.{
  Sent, send_parts, send_packet_chunks, Stream, Link, send_stream, hash_parts,
}
use sedsnet.Base.{
  sym, some-injective, Bool-cases, length-append, arith, Option, none, append-nil, ap, ◌++◌, ◌+◌,
  some, length, ltb, leb, ℕ, List, if◌then◌else◌, ◌∙◌, ◌-◌, ◌≡◌, refl, false, true, ◌∷◌, [], inr,
  inl,
}
use sedsnet.Side.Streamed.{stream_of, sent_by_chunks}
use sedsnet.Wire.Pack.{
  default_reliable, with_packet_frame_parts, pack_packet_inner_with_contract, pack_packet, Packet,
  Services, join_frame_with_crc,
}
use sedsnet.Side.Chunks.{split-IsSplit}
use sedsnet.Errors.{bad_arg, err, ok, packet_too_large}
use sedsnet.Wire.Reader.{to_le_bytes}
use sedsnet.Side.Frames.{div_ceil, chunk_overhead, SideTransportFrames, concat_parts, split}
use sedsnet.Side.Hash.{transfer_seed, narrow, hash_bytes_u64-append, hash_bytes_u64}

hash_parts-concat_parts :
    (h : ℕ) (ps : List (List ℕ)) → hash_parts h ps ≡ hash_bytes_u64 h (concat_parts ps)
unfolding hash_parts concat_parts hash_bytes_u64
hash_parts-concat_parts h [] = refl
hash_parts-concat_parts h (p ∷ ps) =
    hash_parts-concat_parts (hash_bytes_u64 h p) ps ∙ hash_bytes_u64-append h p (concat_parts ps)

abbrev frame_of : List ℕ → ℕ → List ℕ → SideTransportFrames
frame_of frame max_bytes sender = record {
  frame = frame;
  payload_budget = max_bytes - chunk_overhead;
  transfer_id = narrow (hash_bytes_u64 (hash_bytes_u64 transfer_seed sender) frame);
  index = 0;
  total = div_ceil (length frame) (max_bytes - chunk_overhead);
}

split-eq :
    (frame : List ℕ) (max_bytes : ℕ) (sender : List ℕ)
    → leb max_bytes chunk_overhead ≡ false
    → split frame max_bytes sender ≡ (
        if ltb 0xffff (frame_of frame max_bytes sender).total
        then err (packet_too_large "too many chunks")
        else ok (frame_of frame max_bytes sender))
unfolding split
split-eq frame max_bytes sender h = rw h refl

send_stream-sent :
    {S : Type 0} (crc32 : List ℕ → ℕ) (l : Link S) (parts : List (List ℕ)) (max_bytes : ℕ)
    (sender : List ℕ) (next : ℕ) (s : S)
    → ((s : S) (bytes largest : ℕ) → l.admits s bytes largest ≡ true)
    → leb max_bytes chunk_overhead ≡ false
    → send_stream crc32 l
        (stream_of parts max_bytes (frame_of (concat_parts parts) max_bytes sender))
        next
        s
      ≡ sent_by_chunks crc32 l (split (concat_parts parts) max_bytes sender) next s
unfolding send_stream sent_by_chunks
send_stream-sent crc32 l parts max_bytes sender next s g h =
    let f = frame_of (concat_parts parts) max_bytes sender in
    let cut = split-eq (concat_parts parts) max_bytes sender h in
    elim (Bool-cases (ltb 0xffff f.total)) [
      | inl many ↦ rw cut (rw many refl)
      | inr few ↦
          let is_ok : split (concat_parts parts) max_bytes sender ≡ ok f = cut ∙ (rw few refl) in
          stream_of-sent crc32 l parts max_bytes f next s g
            (split-IsSplit (concat_parts parts) max_bytes sender f is_ok)
          ∙ ap (λ r. sent_by_chunks crc32 l r next s) (sym is_ok)
    ]

-- The parts of a packet joined are its frame.
parts-joined :
    (crc32 : List ℕ → ℕ) (header payload : List ℕ)
    → concat_parts (header ∷ payload ∷ to_le_bytes 4 (crc32 (header ++ payload)) ∷ [])
      ≡ join_frame_with_crc crc32 header payload
unfolding concat_parts join_frame_with_crc
parts-joined crc32 header payload =
    ap (λ l. header ++ (payload ++ l)) (append-nil (to_le_bytes 4 (crc32 (header ++ payload))))

send_parts-sent :
    {S : Type 0} (crc32 : List ℕ → ℕ) (l : Link S) (header payload : List ℕ) (max_bytes : ℕ)
    (sender : List ℕ) (next : ℕ) (s : S)
    → ((s : S) (bytes largest : ℕ) → l.admits s bytes largest ≡ true)
    → leb max_bytes chunk_overhead ≡ false
    → send_parts crc32 l header payload max_bytes sender next s
      ≡ sent_by_chunks crc32 l
          (split (join_frame_with_crc crc32 header payload) max_bytes sender)
          next
          s
unfolding send_parts concat_parts
send_parts-sent crc32 l header payload max_bytes sender next s g h =
    let crc = to_le_bytes 4 (crc32 (header ++ payload)) in
    let parts = header ∷ payload ∷ crc ∷ [] in
    let size : length header + length payload + length crc ≡ length (concat_parts parts) = omega (
      arith,
      length-append header (payload ++ (crc ++ [])),
      length-append payload (crc ++ []),
      length-append crc [],
    ) in
    let hash = hash_parts-concat_parts (hash_bytes_u64 transfer_seed sender) parts in
    let made : ℕ → ℕ → Stream = λ len h. record {
      parts = parts;
      len = len;
      max_frame_bytes = max_bytes;
      budget = max_bytes - chunk_overhead;
      total = div_ceil len (max_bytes - chunk_overhead);
      transfer = narrow h;
    } in
    ap
      (λ n.
        send_stream crc32 l (made n (hash_parts (hash_bytes_u64 transfer_seed sender) parts)) next
          s)
      size
    ∙ ap (λ k. send_stream crc32 l (made (length (concat_parts parts)) k) next s) hash
    ∙ send_stream-sent crc32 l parts max_bytes sender next s g h
    ∙ ap (λ frame. sent_by_chunks crc32 l (split frame max_bytes sender) next s)
        (parts-joined crc32 header payload)

packed :
    {S : Type 0} (v : Services) (l : Link S) (max_bytes : ℕ) (sender : List ℕ) (next : ℕ) (s : S)
    (frame : List ℕ) (parts : Option (List ℕ × List ℕ))
    → ((s : S) (bytes largest : ℕ) → l.admits s bytes largest ≡ true)
    → leb max_bytes chunk_overhead ≡ false
    → (elim parts as (λ x. Option (List ℕ)) [
      | none ↦ none
      | some (header, payload) ↦ some (join_frame_with_crc v.crc32 header payload)
    ])
      ≡ some frame
    → (elim parts as (λ x. Option (Sent S (ℕ × ℕ × ℕ))) [
      | none ↦ none
      | some (header, payload) ↦ some (send_parts v.crc32 l header payload max_bytes sender next s)
    ])
      ≡ some (sent_by_chunks v.crc32 l (split frame max_bytes sender) next s)
packed v l max_bytes sender next s frame none g h = λ (e : none ≡ some frame). absurd (cc)
packed v l max_bytes sender next s frame (some (header, payload)) g h = λ e. ap some (
    send_parts-sent v.crc32 l header payload max_bytes sender next s g h
    ∙ ap (λ f. sent_by_chunks v.crc32 l (split f max_bytes sender) next s) (some-injective _ _ e))

split-small :
    (frame : List ℕ) (max_bytes : ℕ) (sender : List ℕ)
    → leb max_bytes chunk_overhead ≡ true
    → split frame max_bytes sender ≡ err bad_arg
unfolding split
split-small frame max_bytes sender h = rw h refl

-- With memory to spare, the chunks that are streamed from the parts of a packet are those of the frame
-- that it is packed into, split for the same sender: the link is called with the same bytes in the same
-- order, and the next chunk, the error or the sizes are the same.
pub send_packet_chunks-pack_packet :
    {S : Type 0} (v : Services) (l : Link S) (pkt : Packet) (max_bytes : ℕ) (sender : List ℕ)
    (next : ℕ) (s : S) (frame : List ℕ)
    → ((s : S) (bytes largest : ℕ) → l.admits s bytes largest ≡ true)
    → pack_packet v pkt ≡ some frame
    → send_packet_chunks v l pkt max_bytes sender next s
      ≡ some (sent_by_chunks v.crc32 l (split frame max_bytes sender) next s)
unfolding send_packet_chunks pack_packet pack_packet_inner_with_contract sent_by_chunks
send_packet_chunks-pack_packet v l pkt max_bytes sender next s frame g p =
    elim (Bool-cases (leb max_bytes chunk_overhead)) [
      | inl small ↦ rw (split-small frame max_bytes sender small) (rw small refl)
      | inr large ↦ rw large (
          packed v l max_bytes sender next s frame
            (with_packet_frame_parts v pkt (default_reliable v pkt) pkt.wire_shape
              pkt.wire_target_senders true)
            g large p)
    ]
