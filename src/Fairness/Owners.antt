-- ===== src/Fairness/Owners.antt =====
-- The owners of packets and frames, src/admission_fairness.rs.
use sedsnet.Errors.{err, ok}
use sedsnet.Base.{
  none, not, is_some, length, ltb, leb, Bool, Option, List, ℕ, if◌then◌else◌, ◌==◌, ◌&&◌, ◌||◌,
  some,
}
use sedsnet.Wire.Sender.{sender_address_u32}
use mathlib.Core.Option.{map}
use sedsnet.Delivery.{Registry, transport_priority, scheduler_priority, is_mode_none}
use sedsnet.Wire.Pack.{Packet, Services, p2p_message}
use sedsnet.Wire.Envelope.{target_senders}
use sedsnet.Wire.FrameInfo.{peek_routing_frame_info, scheduling_type}
use sedsnet.Wire.Contract.{not_empty}

unfoldable pub eligible : Registry → ℕ → ℕ → Bool → Bool → Bool
eligible registry ty priority reliable frozen =
    is_some (registry ty)
    && ltb priority 200
    && ltb (transport_priority registry ty) 200
    && not (ty == p2p_message)
    && not reliable
    && not frozen

-- What the address book then keeps is the second part of `source_address_for_sender` of Wire.Sender.
unfoldable pub packet_owner : Registry → Packet → ℕ → Option ℕ
unfolding eligible
packet_owner registry packet priority = elim (registry packet.data_type) [
  | none ↦ none
  | some meta ↦
      if eligible registry packet.data_type priority (not (is_mode_none meta.reliable))
        (not_empty packet.wire_target_senders)
      then some (sender_address_u32 packet.sender)
      else none
]

unfoldable pub packed_owner : Services → Registry → List ℕ → ℕ → Option ℕ
unfolding eligible
packed_owner s registry bytes priority =
    if leb 200 priority then none else elim (peek_routing_frame_info s bytes) [
      | err e ↦ none
      | ok frame ↦
          if eligible registry frame.envelope.ty priority
            (frame.envelope.is_reliable || is_some frame.reliable)
            (not (length (target_senders frame.envelope) == 0))
          then some frame.envelope.source_address
          else none
    ]

unfoldable pub incoming : Services → Registry → List ℕ → Option (ℕ × ℕ)
unfolding packed_owner
incoming s registry bytes = elim (scheduling_type bytes) [
  | none ↦ none
  | some ty ↦ elim (registry ty) [
    | none ↦ none
    | some meta ↦
        let priority = scheduler_priority registry ty in
        map (λ owner. (owner, priority)) (packed_owner s registry bytes priority)
  ]
]
