-- ===== src/Lib.antt =====
-- thekvm: a software KVM. One machine's mouse and keyboard drive the screens of linked machines; the
-- pointer crosses where the arrangement has a neighbour.
--
-- The core crate keeps the arrangement of screens (Layout, kvm-core/src/layout.rs) and, on the machine
-- with the physical mouse, the state machine that decides for each input event whether it stays
-- local, is forwarded, opens a crossing or comes home (EdgeRouter, the same file). The daemon feeds
-- it captured events and carries its answers to the peer: pointer events as binary datagrams, in
-- frames (kvm-protocol/src/wire.rs) or in sealed UDP packets (kvm-protocol/src/udp.rs), everything
-- else as messages in frames of a reliable stream. Both ends of the daemon (kvm-daemon/src/service.rs)
-- share the clipboard over the same stream.
--
-- Which file models what:
--   Prelude     shared names; lists, text, results, integers
--   Event       kvm-core/src/event.rs: InputEvent, is_release
--   Geometry    layout.rs: Edge, DoubleEdgeStyle, map_coordinate, entry_target_coords, edge_overflow;
--               Mapping and Bounds hold the facts about them
--   Layout      layout.rs: Layout, Screen, validate, neighbor_for_edge, set_screen_size; Arrange has
--               pair_default, place_peer and next_screen_id, Crossing has crossing_target_for and
--               handoff_for_motion; Validity, Lookup, Resize, Landing, Fresh,
--               Placing and Pairing are proofs
--   Router      layout.rs: EdgeRouter, new, seed_position, near_crossing_edge; Settings has the
--               setters, set_layout, resync_if_local and the adoptions of sizes, Home has
--               return_to_local, restore_local_at_edge, restore_local and handoff_to, Drive and
--               Cross the two halves of route, Route the dispatch; Invariant, Life, Gates, Push,
--               Returns and Agreement are proofs
--   Config      kvm-core/src/config.rs: Config, validate, clipboard_max_bytes and the migration in
--               load; Loading is the proof
--   Wire        kvm-protocol/src/wire.rs: encode_input_datagram, decode_input_datagram; Bytes has the
--               big-endian fields, RoundTrip the proof. Message has WireMessage and
--               validate_message, Message/Frame write_frame and read_frame; Message/Acceptance and
--               Message/FrameTrip are proofs
--   Udp         kvm-protocol/src/udp.rs: udp_port, derive_udp_key, next_seq; Packet has the sealed
--               packets, Reassembler split_reliable and ReliableReassembler; Tally is what the
--               reassembly promises, the others are proofs
--   Clipboard   kvm-daemon/src/service.rs: split_clipboard_chunks, send_clipboard_text_inner and
--               ClipboardAssembly; Image has their like for images, Receiver the clipboard arms of
--               run_capture_stream with the relay, Offer OfferAssembly, Initial
--               send_clipboard_change and send_initial_clipboard, Stream the chain of write_frame calls;
--               Cutting, Bounded, Assembling, Transfer, Sending, Delivery and Failing are proofs
--   Capture     kvm-daemon/src/service.rs: CapturedState, pinch_for_send, pinch_expansion,
--               event_passes_barrier; Sets, Held and Sending are proofs
--   Pairing     kvm-protocol/src/pairing.rs: PeerBook with its file, normalize_and_validate_peers;
--               Codes has station_pairing_code, station_code_valid and verification_code, Hex
--               hex_encode and hex_decode; Book, Updates, Trust, Restart and Padded are proofs
--   Invite      kvm-protocol/src/invite.rs: parse, build, describe; InviteTrip is the proof
--   Pinch       kvm-platform/src/mt_pinch.rs: PinchState and feed, the model's feed_contacts; Tap has
--               TapDevice, ingest and poll; Frames, Gestures and Spent are proofs
--   Leases      kvm-daemon/src/service.rs: the leases of outbound links, lease_begin, lease_touch,
--               lease_end, take_lease and outbound_epoch_owner; Ids and Once are proofs
--   Presence    kvm-daemon/src/service.rs: presence_begin, presence_touch, presence_end,
--               note_ui_contact, ui_present; Fresh is the proof
--   Ended       kvm-daemon/src/service.rs: end_link, peer_end_link, link_ended; Bans is the proof
--   Recent      kvm-daemon/src/service.rs: note_inbound_seen, forget_recent_inbound,
--               recent_inbound_view, recent_inbound_links; View is the proof
--   Registry    kvm-daemon/src/service.rs: register_inbound_link, remove_inbound_link,
--               note_inbound_activity, drop_inbound_link, registry_input_recent_at; Successor is
--               the proof
--   Tests       concrete runs
--
-- Parameters. The cipher of the UDP packets (ChaCha20Poly1305), the hash of the session keys
-- (SHA-256) and the JSON coding of messages and configurations are libraries: arguments of the
-- definitions that use them, with what is known of them in IsCipher and IsJson. The random nonce of
-- a packet is an argument. So are the JSON coding of the book of peers, whether a write of its file
-- reaches the disk, whether the stream takes a message of a paste in time, the hash of the pairing
-- codes, and the events that a trackpad's node gives.
--
-- State and operations. A struct is a record with the source's fields, an operation takes the state
-- and returns the new one, with an error as a Result; an operation that fails leaves the state as
-- it was, but for the reassembler and the book of peers, which give their state beside every
-- outcome. Error messages are constructors, one for each message of the source, without the values
-- that the text shows. Positions that an operation returns beside the new state are its cursor
-- fields. The instants that the source reads from the clock are arguments, in nanoseconds, and
-- `elapsed` is 0 if an instant lies ahead.
--
-- Integers. u32 and u64 values and the i64 counters that never fall below 0 are natural numbers, i32
-- coordinates are integers. The grid step beside a screen wraps as in a release build; products in
-- map_coordinate are taken in u64, where those of two u32 values fit. The push and return counters
-- are i64 sums of pixels and are taken not to overflow.
--
-- Fuel: the loops that cut a list into pieces have a round for each element, and every round takes
-- one at least; the theorems about the pieces say that nothing is left over. Every other loop goes
-- over a list.
--
-- Strings are lists of code points, with the length of their UTF-8; a hash map is an association
-- list, or a list of records that hold their keys, a sorted set a list in increasing order.
--
-- Not modelled: discovery and the control protocol; sockets, files, certificates, capture and
-- injection of input, which are calls of the operating system and of libraries; the rest of the
-- daemon's asynchronous service; the interfaces.
pub mod Prelude
pub mod Event
pub mod Geometry
pub mod Layout
pub mod Router
pub mod Config
pub mod Pairing
pub mod Invite
pub mod Leases
pub mod Presence
pub mod Ended
pub mod Recent
pub mod Registry
pub mod Pinch
pub mod Wire
pub mod Udp
pub mod Clipboard
pub mod Capture
pub mod Tests
