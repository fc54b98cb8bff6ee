-- ===== src/Lib.antt =====
-- Verification library of the HTTP/3 and QUIC server and client in src/ (the Rust crate).
--
-- A server worker receives datagrams, routes each by its connection id through the connection map,
-- asks unknown peers for a retry token, lets quiche run the connections, and flushes the stream
-- writes that flow control held back. Callers on other threads hand in writes through an admission
-- window, and payloads travel in pooled buffers. The files here model the parts whose logic is the
-- crate's own:
--   Admission      src/proof_core/admission.rs; Admission/Gate: src/outbound_admission.rs, where
--                  every atomic access of `try_admit` and `release` is one step of a thread
--   Token          src/proof_core/retry_token_model.rs, the payload of a retry token
--   RetryToken     src/retry_token.rs, the keyed hash and the ids drawn from it
--   Cid            src/cid.rs and src/proof_core/cid_model.rs
--   ConnectionMap  src/connection_map.rs; ConnectionMap/Quic: the same map in src/quic_worker.rs
--   TimerHeap      src/timer_heap.rs
--   ArcBuf         src/arc_buf.rs and the `Chunk` of src/chunk_pool.rs
--   PendingWrite   src/pending_write.rs, src/proof_core/pending_write_model.rs; its children
--                  Streams, Flushers and Response: src/worker/pending.rs, src/quic_worker/pending.rs
--   Pool           src/chunk_pool.rs, src/buffer_pool.rs and their models in src/proof_core
--   Layout         src/proof_core/cmsg_cursor.rs, src/proof_core/ring_layout.rs,
--                  src/server_sharding.rs
--   Receive, Ping  src/proof_core/recv_buf_model.rs, src/ping_state.rs
--   Server         the HTTP/3 server handler of src/worker.rs: Commands `dispatch_command`, Flush
--                  `flush_all_pending_writes` and `reap_closed_connections`, Drains
--                  `collect_drain_events`, Direct `queue_stream_send` and `close_stream`; Ledger,
--                  Dispatch, Flushed, Reaped and Run keep its account with the admission window
--   H3Connection   src/connection.rs: the stream tracking, Sends and Polls
--   QuicConnection src/quic_connection.rs; Quiche: what it calls of quiche
--   Blocked        the streams that wait for capacity, of both connections
--   EventBatcher   the batcher and the threadsafe-function sink of src/event_loop.rs; EventGauge:
--                  the gauge of undispatched events of src/reactor_metrics.rs and the event budget
--                  of src/event_loop.rs
--   Gso            `group_for_gso` of src/transport/mod.rs
--   Error, Common  the error type of src/error.rs, and the helpers that all parts share
-- The modules named Tests apply the theorems to concrete values.
--
-- How the code is read:
-- * `usize` and `u64` have 64 bits, and checked, saturating and wrapping arithmetic is written out.
--   Bytes are numbers below 256, time is a number that is passed in.
-- * Threads interleave atomic accesses in any order on one memory; Admission/Gate/Buffered adds
--   store buffers. A ghost records that a refused writer raised the flag and no event was due since.
-- * A `HashMap` that is never iterated is a function, one that is looked up and erased an
--   association list, one that is visited the list in its order of visit. A `BinaryHeap` is a
--   sorted list, a `Vec` used as a stack has its top first.
-- * A loop is structural recursion on the list that it consumes, so no fuel is needed. The loop over
--   the writable streams of a connection goes on until quiche has none left; its fuel is one more
--   than their number, which is enough as each round takes one.
-- * A connection is a state of quiche, which is a parameter, and the tracking around it. The
--   connections of a server handler are kept by handle, and the handler runs on one thread; while it
--   releases units no writer is in between.
-- * The crates slab and boring, the allocator's choice of a capacity, the test for a power of two
--   and the operations of a quiche connection are parameters with the laws that they document.
--   Of quiche the laws are: for a buffer that is not empty, a partial zero-copy write leaves exactly
--   the unwritten part, `Done` writes nothing, and what `stream_send_zc` leaves is not empty; and the
--   iteration over the writable streams has an end. Nothing is assumed of the buffer that
--   `send_body_zc` leaves after a complete write.
-- * The threadsafe function that takes the batches of events is a parameter: any sequence of `Ok`,
--   `Closing` and other statuses is allowed.
-- * Logging and metrics are left out.
-- Not modelled: in src/worker.rs the packets, the timers, the other direct calls of the
-- WebAssembly host, the client handler and the threads; the handlers of src/quic_worker.rs; the loop of
-- src/event_loop.rs; reading events and bodies in the connections; the transports with their system
-- calls, the Node API, the WebAssembly crate and quiche itself.
pub mod Common
pub mod Error
pub mod Admission
pub mod Token
pub mod Cid
pub mod RetryToken
pub mod ConnectionMap
pub mod TimerHeap
pub mod ArcBuf
pub mod PendingWrite
pub mod Blocked
pub mod Quiche
pub mod QuicConnection
pub mod H3Connection
pub mod Server
pub mod EventGauge
pub mod Gso
pub mod EventBatcher
pub mod Pool
pub mod Receive
pub mod Ping
pub mod Layout
