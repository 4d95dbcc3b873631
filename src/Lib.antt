-- ===== src/Lib.antt =====
-- The SMPP 3.4 codec and session engine of this crate, as far as it is modelled here: how PDUs are
-- written and read, how a connection is bound, what the sessions of the server and of the client make
-- of the bytes that a peer sends, and how a request gets its answer.
--
-- The parts of the program and the files that model them:
--   Base         Boolean tests, lists and bytes over the native numbers, and `Result`: a Rust `Result`
--                with a third outcome for a panic. A `u8`, `u16` or `u32` is a number with its bound
--                written out, and a cast or a wrapping sum is a remainder.
--   Utf8         `String::from_utf8_lossy` and `String::from_utf8` of the standard library, on bytes.
--   Nom          The parsers that the code takes from the crate nom: an interface of four operations
--                with their documented behaviour as laws. `Examples.Crates` has functions that obey.
--   Common       src/common/mod.rs and src/common/tlv.rs: status codes (`from_primitive` of num_derive
--                is an interface too), command identifiers, big-endian words, the header, framing,
--                C-Octet-Strings, and optional parameters with their table of tags and accessors.
--                `Common.Wire.Arrives` is what the peer needs of a PDU: that it is framed exactly,
--                whatever follows it in the stream, and that its header is read back.
--   Commands     src/common/commands/*.rs, a module for each command: the record of the Rust struct,
--                `new`, `encode`, `decode`, and the response in a child `Response`. The three binds are
--                one definition with the kind as an argument; the PDUs that are a bare header
--                (enquire_link, unbind, generic_nack, some responses) are `Commands.HeaderOnly`.
--   Server       src/server/state.rs: `Pending`, the map of requests that wait for a response;
--                `State`, what a bound session keeps and hands to its writer, its callers and its
--                tasks; `Open`, what the answer to a bind leads to; `Handle`, the shapes of the
--                branches of a read loop, for both sides; `Session`, what `read_loop` does with one
--                PDU, branch by branch; `ReadLoop`, the loop over the read buffer and the sweep of
--                timed-out requests behind it. src/server/mod.rs: `Accept`, what the first PDU of a
--                connection leads to; `Esme`, the requests of `ESME` and `DeliverSmBuilder`;
--                `Listener`, the callbacks with their defaults.
--   Client       src/client/mod.rs: `Session`, what the read loop does with one PDU; `Bind`, the bind
--                request and the test of its response; `Smsc`, the requests of `SMSC` and
--                `SubmitSmBuilder`; `Listener`, the callbacks with their defaults. The state of a
--                client's session is the record of the server's.
--   Engine       What both sides have around their read loops (src/server/state.rs, src/server/mod.rs,
--                src/client/mod.rs, and `WriteFrame` of src/common/mod.rs): `Sequence`, the sequence
--                numbers; `Writer`, the writer task; `Request`, a request from its caller to its
--                outcome; `Builder`, the fields and setters of both builders; `Ticker`, the
--                enquire_link ticker; `Handshake`, the reads up to the first PDU; `Rounds`, the outer
--                loop with its reads, the inactivity timer, and the writer's turns between them.
--   Link         The two sides of a connection together: the bind, a submit_sm, a deliver_sm (also
--                on a receiver), an unbind and an enquire_link with their answers, a stream of submit_sm, and many that are
--                written before any response is read.
--   Examples     Each result at a concrete input.
--
-- How they interact: a caller's request takes a sequence number and goes as a frame to the writer, which
-- registers it in `Server.Pending` and writes it. The peer's read loop frames a PDU off its buffer, reads
-- the header by `Common.Header`, picks the decoder of `Commands` by the command and the binding, and hands
-- requests to tasks and responses to the callers that `Server.Pending` has for their sequence numbers.
--
-- Loops: `decode_loop` (optional parameters) takes four bytes at least each round, and `drain` (the loop
-- over the buffer) sixteen, so that a round more than there are bytes is enough for each. The loops that
-- wait for the world (`Engine.Handshake.first_pdu`, `Engine.Rounds.run`, `Engine.Writer.write_all`,
-- `Engine.Ticker.tick_all`) are over the list of what they are given, in its order. The map of pending
-- requests is a list of entries; a time is a number of milliseconds, and one turn of a loop has one time.
--
-- A formula for a length that the code adds up in `u32` or `usize` is written out where it can wrap
-- or be cut. Log lines are left out everywhere.
--
-- Not modelled: sockets, TLS, channels, locks, clocks and the scheduling of tasks (tokio and rustls): what
-- a read, a write, a timeout or a channel gives is an argument. The accept loop of src/server/mod.rs on its
-- listening socket, the set-up of streams in src/client/mod.rs, `start` and `stop` beyond what is named
-- above, `DeliveryReceipt` in src/common/mod.rs (dates by chrono), the Python bindings in src/python.rs, and
-- examples, benches and tests. The user's listener is a parameter where its answer is used at once
-- (`on_unbind`, and the binds), and otherwise a task that is spawned. What a caller's own wait gives is an
-- argument as well.
pub mod Base
pub mod Utf8
pub mod Nom
pub mod Common
pub mod Commands
pub mod Server
pub mod Client
pub mod Engine
pub mod Link
pub mod Examples
