-- ===== src/Lib.antt =====
-- rs1541fs mounts Commodore disk drives as file systems: a daemon (1541fsd) owns the bus, a client
-- talks to it over a socket, and FUSE asks it for files.
--
-- The parts and how they interact. The client reads a command, validates it and starts the daemon if
-- there is none (Client, Client.Starting: bin/client/args.rs, bin/client/main.rs), and exchanges one
-- request for one response (Client.Connection, Client.Running: bin/client/main.rs). The daemon takes
-- its arguments (Arguments: bin/server/args.rs), looks at the pid file, starts its threads and ends
-- them (Daemon, Daemon.Stopping, Daemon.Main: bin/server/daemon.rs, bin/server/main.rs,
-- bin/server/signal.rs). Two of its threads serve the socket (Ipc.Server: bin/server/ipc.rs). There
-- a client's request is validated (Validate: lib/validate.rs and the validation of
-- bin/server/mount.rs) and turned into an operation or answered at once (Ipc: lib/ipc.rs,
-- bin/server/ipc.rs). Operations wait in four queues by priority (Bg, Bg.Queues: bin/server/bg.rs),
-- and the background processor takes them one by one (Proc: `Proc` of bin/server/bg.rs). It uses the
-- drive manager (Drives: bin/server/drivemgr.rs) and the mount service (Service:
-- bin/server/mountsvc.rs). A mount (Mount: bin/server/mount.rs) keeps the disks of a drive (File:
-- bin/server/file.rs), sends its own operations and takes in the responses. The kernel's calls are
-- answered from the mount (Fuser: bin/server/fusermount.rs). Errors and their errno values are in
-- Error (lib/error.rs), file handles in Handle (lib/fuse.rs), the choice of a logger in Logging
-- (lib/logging.rs). All paths are below src/.
--
-- How the code is modelled. Numbers are natural numbers with the native operations; where an integer
-- type's end matters (the range of a read, the length of an attribute as a u32, the counts of the
-- polling loops) it is written out. Instants and durations are numbers of milliseconds, and a
-- function that asks for the time takes it as an argument. Rust's `Result` is `Result`, with a third
-- case for the panics of `assert!`, `unwrap`, `unreachable!` and indexing. Functions that write to
-- shared state take the state and give it back; what they send on a channel is a list of the sends.
-- Sockets, channels, threads and sessions are numbers that identify them. A HashMap is an
-- association list.
--
-- Code outside the repository is a parameter. Rs1541 holds the values that the library rs1541 hands
-- over and a record of the answers of a bus, Env adds how Rust and chrono print times and the answer
-- of fuser's spawn_mount2, and Validate.Host is what is asked of the operating system.
-- Client.Connection is the answers of a socket and of serde_json, Client.Starting.Start those of
-- files and of spawn, Daemon.Main.Files and Daemon.Main.Outside those of the pid file's system
-- calls, of daemonize and of rs1541. What the program uses of Rust's standard library on texts
-- (trim, parse, from_utf8_lossy, file names) is defined in Client.Texts and Client.Lossy. No
-- property assumes anything of them but what its statement says.
--
-- Loops. The scan of a queue runs on fuel, and the length of the queue is enough, since each turn
-- passes or removes an entry. The polling loops of the FUSE handlers are recursions on the number of
-- checks that are left, with a schedule that says what each check sees. The decimal form of a number
-- has fuel for 64 digits, more than any integer type of the program needs. The loop of the
-- background processor is a step relation, one step for each turn of its select; the two loops of
-- the server are run over a list of the turns of theirs. The client reads a response on fuel of one
-- more than the limit on its length, which is enough, since each turn that goes on adds a byte; it
-- waits for the daemon on fuel 6, which is enough for five seconds in turns of one. The wait of a
-- shutdown is a recursion on the number of checks in its timeout, with a schedule that says which
-- tasks are finished at each.
--
-- Locks. The other modules show each handler one state under a lock. What each operation does with
-- the locks is in Locks, where any number of threads take their turns in any order: the sections of
-- the drive manager (Locks.Drives), of the mount service (Locks.Service), and of the threads
-- (Locks.Threads). A test is a choice there, and a read lock is held alone. Sends on the bounded
-- channels, also those under a lock, stand in the order of the locks; whether a channel has room is
-- open at each step.
--
-- The steps of the processor carry no clock: the age check may come at any time, so they are all
-- that can happen and more.
--
-- Not modelled: an operation that is dropped while it holds locks, the text of JSON, the parsing of
-- command lines by clap and the log lines but for the client's operation and the daemon's arguments.
--
-- Tests holds concrete data and the theorems applied to it.
pub mod Prelude
pub mod Error
pub mod Rs1541
pub mod Env
pub mod Bg
pub mod File
pub mod Mount
pub mod Drives
pub mod Service
pub mod Proc
pub mod Validate
pub mod Ipc
pub mod Fuser
pub mod Handle
pub mod Client
pub mod Arguments
pub mod Daemon
pub mod Locks
pub mod Logging
pub mod Tests
