-- ===== src/Delivery.antt =====
-- The delivery classes of data types in src/lib.rs: reliability and priority. The registry of types is
-- a parameter, of which only what is read here is kept.
use sedsnet.Base.{
  none, min, any, not, Bool, Option, List, ℕ, if◌then◌else◌, ◌==◌, true, false, ◌∷◌, [], some,
}
use sedsnet.Wire.Pack.{reliable_ack, reliable_packet_request, reliable_partial_ack}

pub data ReliableMode : Type 0 where
  mode_none mode_ordered mode_unordered : ReliableMode

abbrev pub is_mode_none : ReliableMode → Bool
is_mode_none mode_none = true
is_mode_none mode_ordered = false
is_mode_none mode_unordered = false

pub record MessageMeta : Type 0 where
  pub reliable : ReliableMode
  pub priority : ℕ

-- `config::try_get_message_meta`: the entry of a type that is registered.
abbrev pub Registry : Type 0
Registry = ℕ → Option MessageMeta

-- `config::message_delivery_meta`.
unfoldable pub message_delivery_meta : Registry → ℕ → ReliableMode × ℕ
message_delivery_meta registry ty = elim (registry ty) [
  | none ↦ (mode_none, 0)
  | some meta ↦ (meta.reliable, meta.priority)
]

unfoldable pub is_reliable_type : Registry → ℕ → Bool
unfolding message_delivery_meta
is_reliable_type registry ty = not (is_mode_none (message_delivery_meta registry ty).0)

unfoldable pub message_priority : Registry → ℕ → ℕ
unfolding message_delivery_meta
message_priority registry ty = (message_delivery_meta registry ty).1

abbrev pub time_sync_announce : ℕ
time_sync_announce = 4

abbrev pub time_sync_request : ℕ
time_sync_request = 5

abbrev pub time_sync_response : ℕ
time_sync_response = 6

abbrev pub discovery_announce : ℕ
discovery_announce = 7

abbrev pub discovery_timesync_sources : ℕ
discovery_timesync_sources = 8

abbrev pub discovery_topology : ℕ
discovery_topology = 9

abbrev pub discovery_schema : ℕ
discovery_schema = 10

abbrev pub discovery_topology_request : ℕ
discovery_topology_request = 11

abbrev pub discovery_schema_request : ℕ
discovery_schema_request = 12

abbrev pub managed_variable_request : ℕ
managed_variable_request = 13

abbrev pub managed_variable_value : ℕ
managed_variable_value = 14

abbrev pub discovery_leave : ℕ
discovery_leave = 15

abbrev pub discovery_link_capabilities : ℕ
discovery_link_capabilities = 16

abbrev pub discovery_address : ℕ
discovery_address = 17

-- The types of the highest band, and those of the band below.
abbrev pub highest_band : List ℕ
highest_band =
    reliable_ack ∷ reliable_partial_ack ∷ reliable_packet_request ∷ discovery_announce
    ∷ discovery_timesync_sources ∷ discovery_topology ∷ discovery_topology_request ∷ discovery_leave
    ∷ discovery_link_capabilities ∷ discovery_address ∷ []

abbrev pub repair_band : List ℕ
repair_band =
    discovery_schema ∷ discovery_schema_request ∷ managed_variable_request ∷ managed_variable_value
    ∷ time_sync_announce ∷ time_sync_request ∷ time_sync_response ∷ []

unfoldable pub transport_priority : Registry → ℕ → ℕ
unfolding message_priority
transport_priority registry ty =
    if any (λ t. t == ty) highest_band
    then 255
    else if any (λ t. t == ty) repair_band
    then 254
    else min (message_priority registry ty) 253

unfoldable pub scheduler_priority : Registry → ℕ → ℕ
unfolding transport_priority
scheduler_priority registry ty = transport_priority registry ty
