-- ===== src/Side/Journey.antt =====
-- The whole way of a packet over a side: packed, cut into chunks, assembled and unpacked
-- (src/wire_format.rs, src/side_transport.rs).
use sedsnet.Errors.{ok, ◌>>=◌}
use sedsnet.Wire.Alias.{IsBook}
use sedsnet.Side.Whole.{assemble-deliver}
use sedsnet.Wire.Unpacked.{unpack_packet-pack}
use sedsnet.Wire.UnpackTrip.{IsSamePacket, Accepts}
use sedsnet.Wire.Unpack.{unpack_packet_with_role}
use sedsnet.Side.Assembly.{no_assembly}
use sedsnet.Side.Chunks.{payloads}
use sedsnet.Side.Delivered.{deliver, Grants}
use sedsnet.Side.Assemble.{assemble}
use sedsnet.Wire.Unique.{contains}
use sedsnet.Side.Frames.{split, SideTransportFrames}
use sedsnet.Wire.Pack.{pack_packet_inner_with_contract, by_bitmap, endpoint_field, Packet, Services}
use sedsnet.Wire.Payload.{Inverts, AdmitsAll}
use sedsnet.Wire.Received.{SendsData}
use sedsnet.Wire.ContractTrip.{FitsContract}
use sedsnet.Wire.PackTrip.{IsPacket}
use sedsnet.Queue.Room.{Allocator}
use sedsnet.Wire.Reliable.{ReliableHeader}
use sedsnet.Wire.Receiver.{Receiver}
use sedsnet.Base.{
  List, ℕ, Bool, Option, some, true, ◌≡◌, ◌≢◌, ◌<◌, ◌≤◌, ◌∙◌, ap, length, usize_max, u32_max,
}

-- A packet that is packed, cut into chunks and assembled from them, inserted in any order and however
-- often, is unpacked with all fields as they were, but for the order and the repetitions of its
-- endpoints, and for the name of its sender: that is the receiver's name for the sender's address, or
-- `@addr:` with the address if the receiver has none, and its address is the same. Each chunk
-- arrives at least once and no allocation is refused. The conditions on the packet and the receiver
-- are those under which a frame is unpacked again.
pub unpack_packet-assemble :
    (s : Services) (u : Receiver) (pkt : Packet) (reliable : Option ReliableHeader) (managed : Bool)
    (frame : List ℕ) (mem : Allocator) (now max_bytes : ℕ) (sender : List ℕ)
    (f : SideTransportFrames) (order : List ℕ)
    → ((bytes : List ℕ) → s.crc32 bytes ≤ u32_max)
    → IsPacket pkt
    → FitsContract pkt.wire_shape pkt.wire_target_senders
    → 0 < length pkt.endpoints
    → endpoint_field s pkt pkt.wire_shape pkt.wire_target_senders ≢ by_bitmap
    → SendsData reliable
    → Accepts s u pkt
    → Inverts s u
    → AdmitsAll u
    → IsBook u.address_book
    → Grants mem
    → pack_packet_inner_with_contract s pkt reliable pkt.wire_shape pkt.wire_target_senders
      ≡ some frame
    → split frame max_bytes sender ≡ ok f
    → length frame ≤ usize_max
    → ((j : ℕ) → j < f.total → contains j order ≡ true)
    → (q : Packet) × ((assemble mem
            (deliver mem now (payloads f) order (record no_assembly { total = f.total }))
          >>= unpack_packet_with_role s.crc32 u managed)
        ≡ ok q)
      × IsSamePacket u.address_book pkt q
unpack_packet-assemble s u pkt reliable managed frame mem now max_bytes sender f order crc_word v w
      some_ends no_bitmap sends a i g book m packed cut short covers =
    let (q, unpacked, same) =
      unpack_packet-pack s u pkt reliable managed frame crc_word v w some_ends no_bitmap sends a i g
        book packed in
    (
      q,
      ap (λ r. r >>= unpack_packet_with_role s.crc32 u managed)
            (assemble-deliver mem now frame max_bytes sender f order m cut short covers)
          ∙ unpacked,
      same,
    )
