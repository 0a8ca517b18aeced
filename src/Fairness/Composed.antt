-- ===== src/Fairness/Composed.antt =====
-- A frame has the owner of the packet that it was packed from, src/admission_fairness.rs.
use sedsnet.Errors.{ok}
use sedsnet.Wire.Sender.{sender_address_u32}
use sedsnet.Wire.FrameInfo.{peek_routing_frame_info, scheduling_type, RoutingFrameInfo}
use sedsnet.Wire.FrameTrip.{peek_routing_frame_info-pack, seen, FitsHeader}
use sedsnet.Wire.TypeTrip.{scheduling_type-pack}
use sedsnet.Delivery.{
  is_mode_none, MessageMeta, scheduler_priority, Registry, message_delivery_meta, is_reliable_type,
}
use mathlib.Core.Option.{map}
use sedsnet.Base.{
  opt_ind, sym, ◌∷◌, [], Option, List, ℕ, Bool, some, none, true, false, ◌≡◌, ◌≢◌, ◌≤◌, ◌<◌, ◌||◌,
  ◌==◌, ◌∙◌, ap, refl, length, is_some, u32_max, if◌then◌else◌, not, leb, ltb, arith, Bool-cases,
  inl, inr,
}
use sedsnet.Wire.Envelope.{target_senders}
use sedsnet.Fairness.Owners.{incoming, packed_owner, eligible, packet_owner}
use sedsnet.Wire.Pack.{pack_packet, by_bitmap, endpoint_field, default_reliable, Packet, Services}
use sedsnet.Wire.ContractTrip.{FitsContract}
use sedsnet.Wire.PackTrip.{IsPacket}
use sedsnet.Wire.Contract.{not_empty}

counted : (xs : List ℕ) → not (length xs == 0) ≡ not_empty xs
counted [] = refl
counted (x ∷ xs) = ground arith

default_seen :
    (s : Services) (pkt : Packet)
    → is_some (default_reliable s pkt) || is_some (seen (default_reliable s pkt))
      ≡ s.is_reliable_type pkt.data_type
default_seen s pkt = elim (Bool-cases (s.is_reliable_type pkt.data_type)) [
  | inl e ↦ rw (e, default_reliable) refl
  | inr e ↦ rw (e, default_reliable) refl
]

default_reliable-FitsHeader : (s : Services) (pkt : Packet) → FitsHeader (default_reliable s pkt)
default_reliable-FitsHeader s pkt = elim (Bool-cases (s.is_reliable_type pkt.data_type)) [
  | inl e ↦
      rw (e, default_reliable)
        (record { flags_byte = omega arith; seq_word = omega arith; ack_word = omega arith })
  | inr e ↦ rw (e, default_reliable) tt
]

unregistered :
    (registry : Registry) (ty priority : ℕ) (reliable frozen : Bool)
    → registry ty ≡ none
    → eligible registry ty priority reliable frozen ≡ false
unfolding eligible
unregistered registry ty priority reliable frozen e = rw (e, eligible) refl

late :
    (registry : Registry) (ty priority : ℕ) (reliable frozen : Bool)
    → leb 200 priority ≡ true
    → eligible registry ty priority reliable frozen ≡ false
unfolding eligible
late registry ty priority reliable frozen e =
    let after : ltb priority 200 ≡ false = ground arith in rw (after, eligible) (ground arith)

mode_read :
    (registry : Registry) (ty : ℕ) (meta : MessageMeta)
    → registry ty ≡ some meta
    → not (is_mode_none meta.reliable) ≡ is_reliable_type registry ty
unfolding is_reliable_type message_delivery_meta
mode_read registry ty meta e = rw (e, is_reliable_type, message_delivery_meta) refl

-- What the schema says of a packet, in terms of its type.
packet_owner-eq :
    (registry : Registry) (pkt : Packet) (priority : ℕ)
    → packet_owner registry pkt priority ≡ (
        if eligible registry pkt.data_type priority
          (is_reliable_type registry pkt.data_type)
          (not_empty pkt.wire_target_senders)
        then some (sender_address_u32 pkt.sender)
        else none)
unfolding packet_owner
packet_owner-eq registry pkt priority =
    let frozen = not_empty pkt.wire_target_senders in
    let answer : Bool → Option ℕ = λ reliable.
      if eligible registry pkt.data_type priority reliable frozen
      then some (sender_address_u32 pkt.sender)
      else none in
    opt_ind (λ r. r ≡ answer (is_reliable_type registry pkt.data_type)) (registry pkt.data_type)
      (λ e. sym (rw (unregistered registry pkt.data_type priority _ frozen e) refl))
      (λ meta e. ap answer (mode_read registry pkt.data_type meta e))

unregistered_owner :
    (registry : Registry) (pkt : Packet) (priority : ℕ)
    → registry pkt.data_type ≡ none
    → packet_owner registry pkt priority ≡ none
unfolding packet_owner
unregistered_owner registry pkt priority e = rw (e, packet_owner) refl

-- What is answered of a frame with these fields.
abbrev verdict : Registry → ℕ → ℕ → Bool → Bool → ℕ → Option ℕ
verdict registry priority ty reliable frozen address =
    if leb 200 priority
    then none
    else if eligible registry ty priority reliable frozen
    then some address
    else none

verdict-packet :
    (registry : Registry) (pkt : Packet) (priority : ℕ)
    → verdict registry priority pkt.data_type
        (is_reliable_type registry pkt.data_type)
        (not_empty pkt.wire_target_senders)
        (sender_address_u32 pkt.sender)
      ≡ packet_owner registry pkt priority
verdict-packet registry pkt priority = elim (Bool-cases (leb 200 priority)) [
  | inl e ↦ rw e (
      sym (
        packet_owner-eq registry pkt priority
        ∙ rw (late registry pkt.data_type priority _ (not_empty pkt.wire_target_senders) e) refl))
  | inr e ↦ rw e (sym (packet_owner-eq registry pkt priority))
]

packed_owner-verdict :
    (s : Services) (registry : Registry) (bytes : List ℕ) (priority : ℕ) (info : RoutingFrameInfo)
    → peek_routing_frame_info s bytes ≡ ok info
    → packed_owner s registry bytes priority
      ≡ verdict registry priority info.envelope.ty
          (info.envelope.is_reliable || is_some info.reliable)
          (not (length (target_senders info.envelope) == 0))
          info.envelope.source_address
unfolding packed_owner
packed_owner-verdict s registry bytes priority info seen = rw (packed_owner, seen) refl

incoming-typed :
    (s : Services) (registry : Registry) (pkt : Packet) (bytes : List ℕ)
    → scheduling_type bytes ≡ some pkt.data_type
    → ((p : ℕ) → packed_owner s registry bytes p ≡ packet_owner registry pkt p)
    → let own = scheduler_priority registry pkt.data_type in
      incoming s registry bytes ≡ map (λ owner. (owner, own)) (packet_owner registry pkt own)
unfolding incoming
incoming-typed s registry pkt bytes typed same =
    let own = scheduler_priority registry pkt.data_type in
    let answer : Option ℕ → Option (ℕ × ℕ) = map (λ owner. (owner, own)) in
    rw (incoming, typed)
      (opt_ind (λ r. r ≡ answer (packet_owner registry pkt own)) (registry pkt.data_type)
        (λ e. ap answer (sym (unregistered_owner registry pkt own e)))
        (λ meta e. ap answer (same own)))

-- What the next router makes of a frame is what the sender makes of its packet: the owner, by whom
-- the queues are shared out, is the same at any priority, and the frame comes in with the owner and
-- the priority of its packet. The registry has the reliability that the packet is packed by, the
-- packet has a destination, it is not sent with an endpoint bitmap, and the sizes fit their words.
pub packed_owner-pack_packet :
    (s : Services) (registry : Registry) (pkt : Packet) (frame : List ℕ) (priority : ℕ)
    → ((bytes : List ℕ) → s.crc32 bytes ≤ u32_max)
    → ((ty : ℕ) → s.is_reliable_type ty ≡ is_reliable_type registry ty)
    → IsPacket pkt
    → FitsContract pkt.wire_shape pkt.wire_target_senders
    → 0 < length pkt.endpoints
    → endpoint_field s pkt pkt.wire_shape pkt.wire_target_senders ≢ by_bitmap
    → pack_packet s pkt ≡ some frame
    → let own = scheduler_priority registry pkt.data_type in
      (packed_owner s registry frame priority ≡ packet_owner registry pkt priority)
      × (incoming s registry frame ≡ map (λ owner. (owner, own)) (packet_owner registry pkt own))
packed_owner-pack_packet s registry pkt frame priority crc_word agreed v w some_ends no_bitmap
      packed =
    let (info, seen, shows) =
      peek_routing_frame_info-pack s pkt (default_reliable s pkt) pkt.wire_shape
        pkt.wire_target_senders frame crc_word v (default_reliable-FitsHeader s pkt) w some_ends
        no_bitmap (unfold pack_packet in packed) in
    let d = shows.describes in
    let header = shows.header_seen in
    let e = info.envelope in
    let reliable : (e.is_reliable || is_some info.reliable)
        ≡ is_reliable_type registry pkt.data_type =
      rw (d.reliable_same, header) (default_seen s pkt) ∙ agreed pkt.data_type in
    let frozen : not (length (target_senders e) == 0) ≡ not_empty pkt.wire_target_senders =
      rw d.targets_same (counted pkt.wire_target_senders) in
    let owner : (p : ℕ) → packed_owner s registry frame p ≡ packet_owner registry pkt p = λ p.
      packed_owner-verdict s registry frame p info seen
      ∙ cc (d.ty_same, reliable, frozen, d.source_same)
      ∙ verdict-packet registry pkt p in
    (
      owner priority,
      incoming-typed s registry pkt frame
          (scheduling_type-pack s pkt (default_reliable s pkt) pkt.wire_shape
            pkt.wire_target_senders frame v (unfold pack_packet in packed))
          owner,
    )
