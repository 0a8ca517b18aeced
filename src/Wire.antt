-- ===== src/Wire.antt =====
-- The wire format of packets in src/wire_format.rs.
pub mod Reader
mod Bytes
mod Parses
pub mod Reliable
pub mod ReliableTrip
pub mod Shape
pub mod Contract
mod ShapeTrip
pub mod ContractTrip
pub mod Endpoints
pub mod Unique
mod EndpointTrip
pub mod Sender
pub mod Alias
pub mod Pack
pub mod Envelope
mod Crc
pub mod PackTrip
mod Flags
mod Destination
mod Found
pub mod EnvelopeTrip
pub mod FrameInfo
pub mod FrameTrip
pub mod TypeTrip
pub mod Rewrite
mod SpanTrip
mod RewriteTrip
pub mod Receiver
pub mod Unpack
mod Ends
pub mod Received
pub mod Payload
pub mod UnpackTrip
pub mod Unpacked
pub mod Samples
mod Tests
