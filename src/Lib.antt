-- ===== src/Lib.antt =====
-- Rocker, a server that builds sandboxes ("rockers") out of Linux namespaces.
--
-- A client (librocker_client, in C, with a Rust wrapper) sends one datagram with 22 numbers and the
-- texts that they measure. The server (rocker_server) gives each datagram to a worker, which reads
-- it, checks it, clones a guard process into new mount and pid namespaces, waits for the two
-- messages by which the guard tells how its set-up went, writes the id maps, and sends back the
-- guard's pid, its name and the descriptors of its namespaces. A second thread waits for guards to
-- end and releases their loop devices.
--
-- The state is a `Machine`: the calls that the thread has made with their answers, and the
-- program's statics (`LOOP_MASTER`, `SEM_LOG`, `GUARD_PROCNAME`, `RESOURCE`). A static whose first
-- use panicked and a lock whose holder panicked are poisoned, and panic at the next use. Code is a
-- function from a machine to an outcome (a value, an error, a panic, or no end within the given
-- rounds) and the machine afterwards. The kernel, libc and the crates answer calls; an environment
-- `Env`, any function from the calls made so far and the next one to an answer, stands for them, so
-- that a theorem on every `Env` holds for every behaviour of the system, failures at any point
-- included.
--
-- The files, with the code that they are about:
--   Prelude, Bytes: numbers, lists, little-endian numbers, C strings, UTF-8 and decimals; what the
--     code takes from the language and its standard library.
--   Outcome: `ErrorKind` of core/src/err.rs and rocker_server/src/err.rs, and how code ends.
--   Config: `RockerCfg` and `ResourceHdr` of core/src/master.rs.
--   Call, Machine: the calls, the environment, the machine and the macros of control flow in
--     core/src/utils/macros.rs. Machine/Keeps has the rules for specifications of code,
--     Machine/Success those for what a result tells, Machine/Endless those for loops that never
--     return, Machine/Observe the views of a trace, Machine/Descriptors the descriptors that a
--     process holds, Machine/Delays the time that it lets pass.
--   Core/Utils: core/src/utils/mod.rs. Core/Errors: the texts of `d!`, `errgen!` and `errgen_sys!`, and
--     the line that `p` prints. Core/Log: `p` and `pdie`, under a semaphore: what one process does to the
--     semaphore (Core/Log/Semaphore), what many do in any order (Core/Log/Together), and when `p` has no
--     end (Core/Log/Endless).
--     Core/Loop: core/src/loop/mod.rs and metal.rs.
--   Core/Setup, Core/Name, Core/Mounts, Core/Guard, Core/Init, Core/Resource: core/src/master.rs,
--     that is `RockerCfg::new` and its checks, the guard's name, its mounts, the guard process, the
--     master's side of the start, and the release of a rocker. Core/Setup/Names and Checked are about
--     the counter of names and the checks of a configuration, Core/Guard/Protocol, Order and Ending
--     about a guard's messages, calls and end, Core/Init/Handshake about the master's start of a
--     guard, Core/Init/BothEnds about a guard and its master together, Core/Resource/Order about the
--     calls of a release.
--   Server/Request: `req_parse` of rocker_server/src/main.rs. Server/Worker: `worker`, `send_resq`.
--     Server/Worker/Evidence: what the calls of a worker show of the start of a rocker;
--     Server/Worker/Silent, Entering, Sending and Replies: what happens before its reply, the table,
--     and the reply; Server/Worker/Refused: a request that it cannot read;
--     Server/Worker/Descriptors: what it leaves open; Server/Worker/Delays: how long it waits.
--     Server/Reaper: `resource_worker`, and Server/Reaper/Endings its loop. Server/History: the
--     table under any sequence of its operations. Server/System: the table together with the guards
--     and the workers, under any order of the threads' steps; Server/System/Entries: which guards are
--     in it, Server/System/Stale and Reused: the orders in which an entry is wrong. Server/Socket:
--     `gen_server_socket`, `uau_serve`, `main`, and in Server/Socket/Jobs what the pool gets.
--   Client/Wire: `ROCKER_parse_request___` of librocker_client/src/lib.c.
--   Client/Reply: `ROCKER_enter_rocker_inner` of lib.c and `enter_ns` of namespace.c: what the
--     client makes of the reply. The answers of io.c and of the kernel are parameters there.
--     Client/Io: the functions of io.c that it calls, from the answers of the kernel, and in
--     Client/Io/InTime how long it waits for the reply.
--     Client/Enter: `ROCKER_enter_rocker`, with the child and the pipe; Client/Enter/Served: a request
--     all the way from the Rust wrapper to the server's table and back, Client/Enter/Refused: one that
--     is refused, and Client/Enter/Lost: one that is served too late for its client.
--   Client/Name: `ROCKER_get_guardname` of lib.c and `get_process_name` of utils.c.
--   Client/Wrapper: librocker_client_wrapper/src/client_ffi/mod.rs and metal.rs: the request that
--     it builds for C, and the results. The functions of the C library are parameters there.
--   Examples: the theorems at concrete inputs.
--
-- Bounds. A usize has `w` bits, 64 or 32, and wraps, since the release profile has no overflow
-- checks. The three loops of the program that have no end (`uau_serve`, `resource_worker` and the
-- guard's wait for its rocker) take a number of rounds and are `pending` when it runs out; the
-- theorems on code without these loops need no such number. Loops over lists are recursion on the
-- list.
--
-- `uau_serve` receives into 512 bytes. `in_buf` is this cut of what a client sends; a theorem on a
-- client's request together with the server speaks of `in_buf` of its bytes.
--
-- `p`, which can call itself through `pdie`, takes the depth of such calls.
--
-- Not modelled: the chain of causes of an error, which is the crate error_chain, outside Core/Log; `p`
-- inside the other components, where it is taken to return; the thread pool, whose jobs are a list; the
-- functions of io.c that the client does not call (files, stream sockets, the sending of descriptors),
-- and its logging (log.c); `poll_out` and `poll_io`, which stand under a feature that does not exist;
-- the kernel's effects, beyond the answers of calls; a `malloc` that fails in the client's
-- `run_in_brother`, after which the result has the application's pid 0, not -1; the lifetime of the
-- numbers of a request in `ROCKER_parse_request___`, which are taken to be there when `sendmsg` reads
-- them. The tests, the benchmark and the build files have
-- no logic of the program. The guard gets a copy of the master's memory, as the flags of its clone
-- say.
pub mod Prelude
pub mod Outcome
pub mod Bytes
pub mod Config
pub mod Call
pub mod Machine
pub mod Core
pub mod Server
pub mod Client
pub mod Examples
