-- ===== src/Lib.antt =====
-- recurse: the daemon and the wire protocol of its Rust workspace.
--
-- The daemon (crates/daemon) keeps, for each registered target, a queue of events and a list of
-- child sessions, and a Python kernel. Clients call it by RPC (crates/daemon/src/rpc.rs), kernels
-- by host requests (crates/daemon/src/host.rs), and both change one state: the registry
-- (crates/daemon/src/registry.rs) and the event queue (crates/daemon/src/queue.rs), which
-- crates/daemon/src/state.rs keeps behind a lock, writes to two files after each successful change,
-- and announces to the listeners of the event stream (crates/daemon/src/sse.rs). The types of every
-- message are those of crates/protocol.
--
-- Base holds what the modules share. A text is the list of its code points, with byte lengths by
-- UTF-8 (Base/Utf8). A `BTreeMap` is the list of its entries in the order of the keys (Base/Dict),
-- a `HashSet` of ids is the list of its members. A method on `&mut self` that may fail is a
-- function from the state to a result and a state (Base/Results), so that what was written before
-- an error stays written. Saturating arithmetic of a machine word is written out (Base/Tests).
--
-- Protocol models crates/protocol/src: Target, Child, Event, Rpc, Host, Kernel, Cell and Skill are
-- the files of the same names, Bounds is bounds.rs, Name is `is_valid_name` of lib.rs, and Method
-- is `HostCall::parse`, `HostCall::method` and `Request::parse`, with the JSON codec of serde_json
-- as the parameter `Json`. Optional fields are options; fields that are the only one of a struct
-- stand alone.
--
-- Daemon models crates/daemon/src: Queue is `EventQueue`, Events is events.rs, Registry is
-- `Registry`, State is `Core` and `State` with the two files, Host is host.rs, Rpc is the checks
-- and the dispatch of rpc.rs, with `handle` in Rpc/Handle, Sse is `chunk` and `deliver`, with the
-- loop of `listen` in Sse/Listen, Server is the bearer token and `idle_watch` of server.rs, Options
-- is options.rs with the directories of paths.rs, Lock is lock.rs, and Skills is skills.rs. Api is
-- the interface of the kernels that the request handlers use, a parameter of Host and Rpc. Kernel
-- is `Kernel` of kernel/handle.rs with the `dispatch` of kernel/launch.rs, and Kernel/Session puts
-- one `run_cell` beside it: its state is where the call waits, and its inputs are the lines and the
-- end of the process, the writer, other callers, wake-ups and deadlines. Manager is `KernelManager`
-- of kernel/mod.rs: slots at addresses, kernels by the number of their launch, and every call of
-- `execute` with the await that it is at. Lock is a directory and where each daemon is in `acquire`
-- or `drop`; a step is one call of the operating system by one daemon. In Sse/Listen a listener
-- shares the state with other tasks: an input is one step of the listener, one update of another
-- task, or one of the broadcasts that follow an update. The modules below each of these hold its
-- theorems.
--
-- Client models crates/client/src: Sse is sse.rs, Calls is the decoding of a response in lib.rs,
-- and Spawn is spawn.rs. Client/Api is the interface of the client that the command line and the
-- MCP server take as a parameter, and the daemon of Daemon/Rpc behind it. Cli models
-- crates/cli/src: Args is args.rs, Commands is commands.rs, Skills is skills.rs, Main is main.rs.
-- Mcp models crates/mcp/src: Session, Format and Tools are the files of these names, and Lines is
-- `handle_line` of lib.rs. A call that may fail is an action on what surrounds the program
-- (Base/Fallible); a request is sent in its parsed form. Examples applies the theorems to concrete
-- data, and runs the definitions.
--
-- Taken from outside: the clock, the hasher of `RandomState` and `{:?}` (`Runtime`), whether a
-- write to a file succeeds and the JSON of the state files (`Writes`, `Reads`), the skills in the
-- directories (`discover` of `Env`), the length of an event's JSON (`size_of`), the decoder of a
-- frame (`from_str`), what the file system holds in the skill directories, the processes that there
-- are, what other tasks do between the two locks of `deliver`, the HTTP client (`Wire`,
-- `DaemonApi`), the clock, `sleep` and the start of the daemon (`Surroundings`), the variables of
-- the environment (`DaemonEnv`), the JSON of the envelopes (`Codec`, `ToolJson`, `LineJson`),
-- `HeaderValue::to_str` (in `Codec`), and what the shell's machine answers (`Machine`,
-- `SkillFiles`).
--
-- Fuel: `drop_overflow` removes an entry each round and starts with the length of the queue, so it
-- ends by its test. `next_boundary` and `prev_boundary` start with the distance to the end and the
-- start of the text, which are boundaries. `find_child_id` has one try for each salt of 64 bits.
-- `drain` shortens the buffer by a block each round and starts with its length; that this is enough
-- is part of the proof. `poll_health` has 68 rounds of at least 150 ms for 10 seconds.
--
-- Not modelled: JSON encoding, HTTP itself, sockets, signals and logging, which are I/O; the order
-- of start and stop of the daemon, and the search for the shipped directories; a write of the lock
-- file that is cut short and the reuse of a pid; what the other tasks change while a request stops
-- a kernel; a cell whose request is dropped before it ends; the routing and the query of the event
-- stream; the writer and the concurrency of the MCP server; the TypeScript packages and the Python
-- kernel.
pub mod Base
pub mod Protocol
pub mod Daemon
pub mod Client
pub mod Cli
pub mod Mcp
pub mod Examples
