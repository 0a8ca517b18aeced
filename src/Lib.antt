-- ===== src/Lib.antt =====
-- A model of the core of SEDSnet, a telemetry network library in Rust, and what is proved of it.
--
-- The program moves telemetry packets between endpoints over several sides. The router keeps its
-- pending work in bounded queues, in the order of priorities, and has every node agree on a
-- network time. Modelled here are the parts that this rests on and that stand by themselves:
--
-- - Queue models src/queue.rs. Queue.Ring has the state of BoundedDeque, as the list of its
--   entries beside the ring's capacity and the counters, and the operations that take entries out.
--   Queue.Room has growth, FIFO admission and construction; Queue.Push the prioritized pushes;
--   Queue.Batch the prepared batches and replacements; Queue.Turn the fair selection and the
--   deferred turns. Queue.Valid, Trims, Fifo, Order, Priority, Admission, BatchFits, GroupFits,
--   TurnFair, TurnOwed, Select, Reclaim, Retain, Growth, Kept and TurnKept hold the proofs; Reach
--   has the life of a queue, as steps.
-- - TimeSync models src/timesync.rs. TimeSync.Calendar has the conversions between stamps and
--   calendar fields, Clock the slewed clock, Sources the named clock sources and the reading that
--   they make up, Tracker and Announce the remote sources and the election of a leader, Samples
--   the four-timestamp computations. TimeSync.RoundTrip, Slew, Steer, Rank, Reading, Election,
--   Learned and Exchange hold the proofs.
-- - Fairness models src/admission_fairness.rs: Fairness.Loads the loads of the producers and the
--   choice of the entry that gives way under pressure, which the router hands to the select push
--   of the queue, Owners the owners of packets and frames; Fairness.Dominant, Tallies, Recorded,
--   Tallied, Victim and Composed hold the proofs.
-- - Delivery has the reliability and the priorities of data types, src/lib.rs.
-- - PeerRecord models the staged index updates of src/peer_record.rs, which both kinds of time
--   sources go through.
-- - Wire models src/wire_format.rs, over Varint: Wire.Reader has the reader over bytes as a parser
--   monad, Reliable the reliable header, Shape and Contract the payload shape and the frozen
--   contract, Endpoints the endpoint lists, Sender the addresses of senders and the address book,
--   Pack the packing of packets and the announced sizes, Envelope the checksum and the routing
--   envelope, Rewrite the place of the reliable header and its rewriting, FrameInfo the inspection
--   of a frame for the router, Receiver and Unpack the unpacking of packets. Wire.Parses says what
--   it means that a parser reads bytes back and how parsers are joined; Bytes, ReliableTrip,
--   ShapeTrip, ContractTrip, Unique, EndpointTrip, Alias, PackTrip, Crc, Flags, Destination,
--   Found, EnvelopeTrip, FrameTrip, TypeTrip, SpanTrip, RewriteTrip, Ends, Received, Payload,
--   UnpackTrip and Unpacked hold the proofs; Samples has packets to try them with.
-- - Side models src/side_transport.rs: Side.Frames the wrapper and the chunks of a frame, Assembly
--   the fragments of one transfer, Room the assemblies of a side with expiry and the budget,
--   Assemble the assembling, Hash the names of transfers, Sending the sending of chunks, both of a
--   frame and of a packet that is streamed without one, Cursors how far each transfer has been
--   sent. Side.Sends, Streamed, Reported and Canonical hold the proofs on what is sent, Slots and
--   Resumes those on the cursors; Counted, Expired and RoomMade show the byte accounting; Chunks,
--   Delivered, Inserted, Copied and Whole the way of a frame from its chunks back to its bytes,
--   and Journey that of a packet.
-- - SmallSort models src/small_sort.rs: the heap sort of the embedded build over a slice.
--   SmallSort.Keys has the ranks at the indices, Sift the restoring of a heap below a root, Sorted
--   the sorting.
-- - SmallMap models src/small_map.rs with the binary search of slices. SmallMap.Search and Split
--   show what the search finds, Lookup and Places the finite map that the entries stand for, Calls
--   the operations as data, Refine, Filter and Run the refinement.
-- - Varint models the ULEB128 decoders of src/varint.rs and the encoder of src/wire_format.rs.
-- - Errors has the errors of src/lib.rs, and ErrorCodes their numeric codes. Base has what the
--   parts share: lists that native numbers index, machine words, signed integers, and the ordered
--   map of the standard library.
--
-- A definition has the name of the function that it models. A method takes the state as its last
-- argument and answers the next state with the result; a closure of the source is a function, and
-- what a callback has been called with is a list. A panic, a failed expect or a failed assert is
-- none.
--
-- Numbers are natural numbers within the bounds of their types: usize and u64 have 64 bits, and
-- saturating and wrapping operations are written out. Stamps of type i128 are integers that
-- saturate where the source saturates. Bits that are joined without an overlap are added.
--
-- Loops are structural or run on fuel that is enough: retain runs over the length of the ring; the
-- prioritized push takes one round more than there are entries, since each round but the last
-- evicts one; the eviction of the FIFO push has one round for each entry; halving loops have 64
-- rounds; a u64 has ten groups of seven bits, and a u32 ten decimal digits; the expiry of
-- assemblies has one round for each, and the making of room one more; the sending of chunks has
-- one round for each chunk left and one more; the sifting of the heap sort has one round for each
-- index below its end; the binary search has as many rounds as there are entries; the iteration
-- over unique endpoints has one round for each endpoint, and the one over an endpoint list one for
-- each byte.
--
-- The allocator and the application's memory probe are parameters: Allocator in Queue.Room, of
-- which the source relies on a reservation holding what it was asked for, and which Side uses too,
-- and Memory in PeerRecord. For the wire format, Services has the checksum, the compression and
-- the schema registry as functions; only that a checksum fits 32 bits is relied on; Registry in
-- Delivery has the registered types with their reliability and priority, and Receiver in
-- Wire.Receiver what the unpacking asks the schema, the decompression and the admission of memory
-- for, with the address book as it then is; the round trip relies on the decompression undoing the
-- compression. KeyOrder is the order of the keys of a SmallMap with the laws of Ord; a sort has
-- the order that a rank gives. The checksum of a chunk is a function; Link has the memory probe
-- and the callback that sends a frame, with a state of their own. The device's identifier and the
-- decoded fields of a packet are arguments. The build is the one without the packet store, so that
-- nothing is parked when it is pushed, and debug assertions are left out; the transmit cursors are
-- those of the build with the latest-value egress.
--
-- Not modelled are the router and relay, discovery, sealed frames, the header templates of side
-- transport, payload compression, the packet store, the process-wide configuration, cryptography
-- and the bindings to other languages.
pub mod Base
pub mod Errors
pub mod Delivery
pub mod ErrorCodes
pub mod Queue
pub mod PeerRecord
pub mod TimeSync
pub mod Varint
pub mod Fairness
pub mod SmallMap
pub mod SmallSort
pub mod Wire
pub mod Side
