-- ===== src/Lib.antt =====
-- A model of the thinBT daemon, a file distribution program for local networks, and what is proved of
-- it. A shared file is cut into chunks by their content; a .tseed file lists them with their digests;
-- peers exchange chunks in sub-blocks of 16 KiB; a tracker introduces the peers to each other.
--
-- The parts and the files that model them:
-- - Common: shared names, tests, list lemmas, bit and byte lemmas, memcpy and byte order. The byte
--   order functions of src/common/platform.hpp stand as `byte_swap`, for a little-endian host.
--   Common.Text has std::string::find, decimal numbers, strtol and stoull, Common.Decimal what is read
--   back from a printed number.
-- - FastCdc (src/cdc/fastcdc.cpp): the scan of a buffer. `scan_loop` has the variables of the loop of
--   `fastcdc_scan_buffer` as its arguments; it is a recursion on the bytes that are left.
-- - Seed (src/seed/tseed.hpp, seed_reader.cpp, seed_writer.cpp): `read_tseed`, `write_tseed`,
--   `compute_info_hash`. A file is the list of its bytes, an exception a value of `SeedError`.
-- - Protocol (src/daemon/protocol.cpp): the handshake and the messages. Protocol.Framing has the read
--   chain of src/daemon/peer_session.cpp, Protocol.Bitfield its `record_bitfield`.
-- - ChunkAssembler (src/daemon/chunk_assembler.cpp): `init` and `on_piece`; the memory of the chunk is
--   a list of bytes, the mask a list of 32-bit words. `none` is an access outside of either.
-- - SegmentIo (src/daemon/segment_io.cpp, the Linux build): `open`, `get_chunk_base`, `close`. What
--   stat, open, fallocate, ftruncate and mmap answer is a parameter.
-- - Scheduler (src/daemon/scheduler.cpp): State has the tables, Choice the choice of peers, Requests,
--   Rebalance, Peers, Endgame and Completions the operations. A call of a callback is an entry of
--   `events`; the clock is an argument; std::shuffle and std::sort are parameters where the order that
--   they give is not determined. Issues, Limits, Counting, Phases, Resume, Reach and Wants have the
--   theorems; the relation `Reach` is any sequence of calls.
-- - PeerSession (src/daemon/peer_session.cpp): Writer has the queue of the outgoing messages,
--   where each handler of the network library is an event, Greeting the handshake, Pex the handler
--   of a peer exchange, Interest `handle_have_msg` and `handle_bitfield_msg`, with the
--   NOT_INTERESTED that the task manager's callback sends to every session past the session's
--   flag, Timeouts the requests that wait, `handle_piece_msg` and `do_eval_tick`, with `dispatch`
--   of src/daemon/io_worker.cpp, and Serving `handle_request_msg` and `handle_cancel_msg`, with
--   the reads of src/daemon/file_read_pool.cpp. The fields of the class are divided among the
--   states of these modules.
-- - PeerManager (src/daemon/peer_manager.cpp): Sessions has how sessions begin and end, Choke
--   `tick_choke`, Exchange `tick_pex`, Events all of them as one function. The address of a peer is
--   what the socket answers at the time; inet_addr, std::sort and std::shuffle are parameters.
-- - TaskManager (src/daemon/task_manager.cpp): Reuse has the chunks that `cmd_add` and
--   `cmd_update` find in files that are there, Start the first calls of the scheduler, Tick the
--   round of a task, with the comparison of src/daemon/verify_worker.cpp, the announcement, and
--   the connections to the peers that the tracker answers with; what is read from the answer is an
--   argument. Digests and the cloning of ranges are parameters.
-- - NetUtil (src/common/net_util.cpp): `parse_tracker_url`.
-- - TrackerServer (src/daemon/tracker_server.cpp), TrackerAcceptor (src/daemon/tracker_acceptor.cpp)
--   and TrackerClient (src/daemon/tracker_client.cpp): the swarms, the lines that clients send and the
--   answers, an exception being a value of `Outcome`, and the retries of an announcement.
--
-- The scheduler names peers by slot and chunks by index. It asks the session for sub-blocks, the
-- session hands each piece to the assembler through the I/O workers, a complete chunk is verified, and
-- the task manager feeds the result back to the scheduler as a completion or a failed verification.
-- The peer manager gives every session its slot and tells the scheduler of arrivals and departures.
--
-- Integers are natural numbers with the wrap of their width written out. Loops are recursions on the
-- list or the count that they run over. There are two recursions on fuel: `read_stream`, one unit for
-- each message, where the theorem about it gives that many, and `digits`, whose fuel is the number
-- itself, which is not less than the number of its digits. An index outside a vector is `none` where
-- the component can be driven there by a peer; the scheduler's tables read a default there. A `double`
-- is of a type of its own.
--
-- Not modelled: sockets, timers, threads and lock-free queues, the dispatch of messages of
-- a session, the JSON of the IPC server and of the answers of the tracker that a client
-- reads, the task manager's table of tasks, the digests, and the command line.
pub mod Common
pub mod Protocol
pub mod ChunkAssembler
pub mod Seed
pub mod FastCdc
pub mod SegmentIo
pub mod Scheduler
pub mod NetUtil
pub mod TaskManager
pub mod TrackerServer
pub mod TrackerAcceptor
pub mod PeerSession
pub mod PeerManager
pub mod TrackerClient
