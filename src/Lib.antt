-- ===== src/Lib.antt =====
-- The transport core of olcRTC, an encrypted TCP tunnel that goes through the video calls of
-- public services. A payload is sealed into a record, a record is split into fragments that fit a
-- video frame, the fragments travel over a lossy relay, and the other side acknowledges them, puts
-- the messages together and opens the records. This library models the parts that decide what is
-- sent, what is acknowledged, what is handed up and what is let in.
--
-- The parts and their files:
-- - Transport/Frame: internal/transport/common/frame.go. Each encoder is a function from fields to
--   bytes and DecodeFrame a function from bytes to a Result with the errors of the source.
--   Frame/RoundTrip is about the encoders read back, Frame/Accepts about which bytes are accepted.
-- - Transport/Fragment and Transport/Reassembler: internal/transport/common/common.go.
--   FragmentPayload is `fragment_payload`, storeChunk is `store_chunk`, assemble is `assemble`, Push
--   of the reassembler is `push`. Fragment/Split, Fragment/Assemble, Fragment/AnyOrder and
--   Reassembler/Dedup are about them.
-- - Transport/Ordered: internal/transport/common/ordered.go, the receiver of an ordered stream. Push
--   is `push`, and adopt, skipTo, store, drain and drop keep their names. Ordered/Drain is about the
--   loops, Ordered/Bytes about the byte count, Ordered/Repeats about a fragment that comes again,
--   Ordered/Stream about a whole sequence of frames against the messages that the sender means, where
--   no frame asks to skip one.
-- - Transport/Ack: internal/transport/common/ack.go, the tracker of acknowledged fragments; Ack/Counted
--   is about its counter.
-- - Transport/Sender: internal/transport/common/sender.go, Send over that tracker. The clock and what Resolve
--   records are the input of an attempt. Sender/Settled and Sender/Acknowledged are about when it returns.
-- - Transport/SendWindow: internal/transport/common/window.go, the sender of an ordered stream.
--   SendWindow/Types is its state, SendWindow/Pace its clock and pace, SendWindow/Emit its Drain,
--   SendWindow/Valid what a well-formed window is, SendWindow/Preserve what
--   keeps it so. The sequence counter is the field `seq`; `draw` is what Sender.Send does to it.
-- - Crypto/Replay: internal/crypto/chacha.go, replayState and replayCache. `judge` is what accept does
--   with the state it found, `accept` is accept. Replay/Window is about one sender's 64-bit window,
--   Replay/Lookup and Replay/Cache about the LRU cache of senders, Replay/History about sequences of
--   records.
-- - Crypto/Record: internal/crypto/chacha.go, the sealed records. SealInto, OpenInto, laneState, sealWith
--   and nextCounter keep their names. Record/Open is about opening, Record/Nonces about the counters of
--   a lane.
-- - Crypto/Ring: internal/crypto/ring.go, the keys that a server accepts. buildRing is `build_ring`, TryOpen
--   `try_open`. Key sets are addresses in a heap. Ring/Trial is about TryOpen, Ring/Loop
--   and Ring/Reload are about Reload.
-- - Relaywin: internal/relaywin/relaywin.go, the windows of bytes in flight toward each destination of
--   a relay. Relaywin/Types is its state, Relaywin/Ops its operations under their names,
--   Relaywin/Steps sequences of calls, Relaywin/Bounds and Relaywin/Wakes more about them.
-- - Route: internal/route/route.go, the rules for destinations that are dialled directly. Route/Ranges is
--   about merged address ranges, Route/Names about suffixes of names.
-- - Udpwire: internal/udpwire/wire.go, the messages of the lossy UDP path; Udpwire/RoundTrip is about
--   reading them back.
-- - Sniff: internal/sniff/sniff.go, the server name in the first bytes of a connection. Sniff/Final is about
--   answers that are final, Sniff/Fuel about the steps of the two loops over a ClientHello.
-- - Seichannel: internal/transport/seichannel/h264.go, payloads in the SEI messages of H.264 access units.
--   The functions keep their names; a position in a byte string is the list of the bytes from it on.
--   Seichannel/Escape is about emulation prevention, Seichannel/Messages about the messages of one NAL
--   unit, Seichannel/Units about the units of a stream, Seichannel/RoundTrip about a whole access unit.
-- - Seichannel/Packets: internal/transport/seichannel/rtp.go, the payloads of RTP packets.
--   Packets/Fragments is about units split over packets, Packets/Aggregate about packets of several units.
-- - Supervisor: internal/supervisor/supervisor.go. nextStep, refresh and wait keep their names;
--   Supervisor/Status is the status tracker, Supervisor/Run the loop: `turn` is one turn of it, with what the
--   runner, the reload hook, the clock and the context did as its input. Supervisor/Walk, Supervisor/Turns and
--   Supervisor/Passes are about the walk over the profiles, Supervisor/Pace about the pauses,
--   Supervisor/Tracked, Supervisor/Kept and Supervisor/Statuses about the status.
-- - Vp8channel: internal/transport/vp8channel, wire.go, epoch.go, datagram.go and the batches of writer.go.
--   A channel that is drained without blocking is a list. Vp8channel/Inbound is the way of a frame to its plane
--   (inbound.go, control.go): a handler returns what it gives to which plane. Vp8channel/Header,
--   Vp8channel/Batches, Vp8channel/Samples and Vp8channel/Delivery are about headers and batches,
--   Inbound/Meant about which frames are taken, Vp8channel/EndToEnd about the writer and the reader together.
--   Vp8channel/Peers is the table of peers of peers.go and peer_release.go; Peers/Numbers and Peers/Kept are about
--   the session of one peer over calls of peerSessionFor that interleave, Peers/Bounded and Peers/Events about the size of the table.
-- - Framing: internal/framing/framing.go, frames with a length before them.
-- - Prelude and Bytes: the library names that are shared, lists, association lists in the place of
--   maps, bits of a number, results, and the big-endian integers of encoding/binary.
-- - Tests: the theorems at concrete inputs.
--
-- How the code is read. A mutex makes each operation one step on a record of state. A uint16,
-- uint32 or uint64 is a natural number with its wrap written out; an int is a natural number, and
-- where the source tests for a value below or at 0 the model has 0. A time is a number of
-- nanoseconds, 0 for time.Time{}. A pointer to an object that two parts share is its place in a
-- store. A channel is a number, and what a close does is a list of the channels closed. crc32,
-- float64, the AEAD, the key derivation, hex, SHA-256 and the text parsers of strings and netip
-- are parameters: they are not code of the repository, and what a theorem relies on is among its
-- hypotheses. Sorting and binary search of slices are written out.
--
-- Loops and fuel. `chunks` runs on the length of the payload, `drain_loop` on the number of
-- messages held, `skip_loop` on the distance from the next message to the floor; the theorems
-- about them are about the whole loop, and skip_loop_reaches about every number of turns from that on. `under_suffix` runs on more steps than the name has bytes,
-- and under_suffix_lem is about every such number of steps; `name_loop` and `extension_loop` run
-- on more steps than they have bytes, and Sniff/Fuel is about any number of them. The loops
-- of Seichannel and of Vp8channel that read bytes run on more steps than there are bytes, append_groups on
-- the number of payloads, find_last on the number of profiles. Every other loop is a recursion on a list.
--
-- Not modelled: goroutines and blocking (Send is one turn of its loop), the pools of buffers,
-- JSON, lastAddr and fillHostBits of internal/route (they belong to the parameter that reads a
-- prefix), the outbound queues of internal/transport/common, the tracks of pion, the KCP sessions and the writer
-- loop of internal/transport/vp8channel, the callbacks of the supervisor, the signalling of
-- each service under internal/engine and internal/auth, smux sessions, the SOCKS server,
-- configuration and commands.
pub mod Prelude
pub mod Bytes
pub mod Transport
pub mod Crypto
pub mod Relaywin
pub mod Route
pub mod Udpwire
pub mod Sniff
pub mod Seichannel
pub mod Supervisor
pub mod Vp8channel
pub mod Framing
pub mod Tests
