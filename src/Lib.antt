-- ===== src/Lib.antt =====
-- The RDMA prototype: a hello/world/ack exchange between a client and a server over libfabric.
--
-- The program is a C shim over libfabric (naive/fabric_shim.c), its Rust bindings (src/ffi.rs), a
-- transport that owns the shim's handles (src/transport.rs), and two applications that drive it
-- from one thread, src/bin/clients.rs and src/bin/server.rs. The development models the Rust code
-- and the shim.
--
-- Base passes on library names and holds the tests on numbers, lists and codes. State holds the
-- fields of the two `Exchange` types and `transport::Event`. Outcome says how a Rust call ends: by
-- a value, an error, a panic (`unwrap` of `None`), or by running out of the fuel of a loop. Error
-- messages are kept as templates with their arguments and are not rendered. Events is the `for`
-- loop of both applications over the events of a poll.
--
-- Ffi holds the constants and structs of src/ffi.rs and a constructor for each foreign function.
-- Machine is the interface to what the Rust code runs on: the foreign functions, `Instant::now`,
-- `thread::sleep`, and the memory behind `Box<[u8]>`, over an abstract world. Every theorem about
-- the transport holds for all machines, so for every behaviour of the shim and of the provider,
-- unless it names a law (Machine.Clock, Shim.Backing). A method is a function from its object and
-- the environment to an outcome, its object and the environment; the environment is the world and
-- a trace of the foreign calls, which the code never reads. Machine.Laws and Machine.Logic are the
-- rules for proofs about such methods, Machine.Safety those for proofs that nothing panics,
-- Machine.Halting and Machine.Lasting those about fuel.
--
-- Transport follows src/transport.rs: Handle (`close!` and opens), Poll (`poll_eq`, `poll_cq`,
-- `error_text`, `finish`), Info, Fabric, Request, Listener, Slot, and Connection with its parts
-- Setup (`initialize`, `from_request`, `connect`) and Close (`close` and the drop). Drops are
-- calls at the end of a scope, in Rust's order (`construct`, `owning` of Machine). A lifetime or a
-- shared borrow is the borrowed value, which cannot change while it is borrowed.
--
-- Client follows src/bin/clients.rs and Server follows src/bin/server.rs: Exchange (the state
-- machine), Loop (`exchange` and `serve`), Run (`run`), Main (`main`), whose command line is
-- Args; Client.Fake is the scripted transport of the unit tests, Client.Tests and Server.Tests
-- are the tests, which pass in Examples.Fake. Version follows src/fabric.rs. The loops take fuel;
-- Transport.Waiting and the modules Termination and RunTermination say how much is enough: one
-- round for each millisecond of the timeout and one more, and for the server one for each EAGAIN
-- that the trace has too, since its `continue` does not sleep. Time is in nanoseconds.
-- Server.Serving is what the server saw and did on its connection, call by call; Server.Replying
-- and Server.Refinement read `serve` in this way, and as runs of the server's state machine;
-- Args.Reading says what the command line means, Client.Answering and Server.Answering what
-- `main` makes of it; Transport.Rejection and Server.Rejection count the calls that reject a
-- request.
--
-- Shim follows naive/fabric_shim.c: Objects (the structs, in a memory with a table for each
-- type), Querying (infos, codes), Opening, Closing, Connecting, Posting, Polling (completions)
-- and Listening (connection events), over Libfabric, whose functions are parameters; Linking
-- names the function behind each call of src/ffi.rs. Undefined behaviour, the use of a pointer to
-- no live object, is a panic there; addresses are not used again; the loops over the operations
-- of a completion queue have its `count` as fuel; a result of libfabric is taken to fit the `int`
-- that the C code casts it to. Lending, Submission and Completing follow the objects of one slot
-- through posts and polls, Life those of a connection through its life, Teardown and Endpoint
-- through the closes; Backing says when a machine is the shim, and Composition runs the
-- transport's `close` on it. Setup runs the opens of `initialize` (Opened, Enabling and Endpoints
-- for what each function of the shim leaves, Stages to Initial for the sequence). Sync keeps the
-- flags of a connection in step with the shim's queues: Tracking, Aside, Marks, Synchrony and
-- Reporting are about the shim's functions, Working and Observing about `send`, `post_recv` and
-- `poll`, and Session about a connection from `initialize` to `close`. Info is about the infos of
-- queries and requests.
--
-- Protocol runs both state machines against each other: System holds two ports of a connection and
-- the moves of the two programs and of the connection, Invariant and Delivery what holds in every
-- world that they reach, Termination and Progress how a run ends. The connection is an assumption
-- there: it delivers each message once and in order into a posted receive, and reports each send
-- once, at any later time. It stands for libfabric and the network, and no deadline passes.
--
-- Not modelled: printing (with it the version that `main` prints); the overflow of `Instant`
-- arithmetic; unwinding after a panic other than the drop of owned objects. Examples holds a
-- machine on which the model runs, and the theorems at concrete inputs.
pub mod Base
pub mod Args
pub mod State
pub mod Outcome
pub mod Events
pub mod Ffi
pub mod Machine
pub mod Transport
pub mod Client
pub mod Server
pub mod Version
pub mod Examples
pub mod Protocol
pub mod Libfabric
pub mod Shim
