-- ===== src/Locks/Threads.antt =====
-- The threads of the daemon and the locks they take: `async_main` (src/bin/server/main.rs), the
-- background processor (src/bin/server/bg.rs), and the calls of the kernel and the responses for a
-- mount (src/bin/server/fusermount.rs, mount.rs). An operation that the age check drops is not here.
use rs1541fs.Prelude.{ℕ, zero, suc, ◌≡◌, ◌⊎◌, List, [], ◌∷◌, All, All-mono, subst, sym, arith}
use rs1541fs.Bg.{OpType}
use rs1541fs.Locks.{
  LockKind, Lock, Locking, done, acquire, release, send, either, Thread, PoolSteps,
}
use rs1541fs.Locks.Order.{
  IsOrdered, InOrder, IsFinished, CanStep, WaitsToSend, PoolSteps-IsFinished,
}
use rs1541fs.Locks.Drives.{
  the, the_drive, get_drive_locks, identify_drive_locks, get_drive_status_locks, reset_bus_locks,
  cleanup_drives_locks, UpTo, raise, cleanup_drives_locks-IsOrdered,
}
use rs1541fs.Locks.Service.{
  the_mount, mount_locks, unmount_locks, cleanup_locks, mount_locks-IsOrdered,
  unmount_locks-IsOrdered, cleanup_locks-IsOrdered,
}

-- A read from the drive `n`.
abbrev from_drive : ℕ → Locking → Locking
from_drive n rest = acquire (the LockKind.drive_mgr) (
    get_drive_locks (
      release (
        either rest (acquire (the LockKind.cbm) (acquire (the_drive n) (release (release rest)))))))

abbrev managed : (Locking → Locking) → Locking → Locking
managed op rest = acquire (the LockKind.drive_mgr) (op (release rest))

-- The operations; `n` is the device that an unmount finds, among the mounts `ms`.
abbrev type_locks : ℕ → List ℕ → OpType → Locking → Locking
type_locks n ms (OpType.mount device _ _ _) rest = mount_locks device rest
type_locks n ms (OpType.unmount _ _) rest = unmount_locks n ms rest
type_locks n ms (OpType.identify _) rest = managed identify_drive_locks rest
type_locks n ms (OpType.get_status _) rest = managed get_drive_status_locks rest
type_locks n ms OpType.bus_reset rest = managed reset_bus_locks rest
type_locks n ms (OpType.read_directory device) rest = from_drive device rest
type_locks n ms (OpType.read_file device _ _) rest = from_drive device rest
type_locks n ms _ rest = rest

-- `Proc::execute_operation`
abbrev pub execute_operation_locks : ℕ → List ℕ → OpType → Locking → Locking
execute_operation_locks n ms op rest = either rest (type_locks n ms op rest)

-- The reports on `k` removed operations: a send on a bounded channel for each.
abbrev reports_locks : ℕ → Locking → Locking
reports_locks zero rest = rest
reports_locks (suc k) rest = send (reports_locks k rest)

-- The turns: an age check, or an operation, which may remove others and whose response is sent.
abbrev pub Turn : Type 0
Turn = ℕ × List ℕ × OpType × ℕ

abbrev run_each_locks : List Turn → Locking → Locking
run_each_locks [] rest = rest
run_each_locks ((n, ms, op, k) ∷ turns) rest =
    let next = run_each_locks turns rest in
    either (reports_locks k next) (execute_operation_locks n ms op (reports_locks k (send next)))

-- The task that `start_bg_proc` spawns, with `Proc::run`: it holds the processor all the time.
abbrev pub run_locks : List Turn → List ℕ → Locking
run_locks ops ms =
    acquire (the LockKind.bg_proc) (run_each_locks ops (cleanup_locks ms (release done)))

abbrev stopped_locks : List ℕ → Locking → Locking
stopped_locks ns rest = either rest (managed (cleanup_drives_locks ns) rest)

-- `Daemon::shutdown`; it may time out.
abbrev pub shutdown_locks : List ℕ → Locking → Locking
shutdown_locks ns rest =
    either (stopped_locks ns rest)
      (acquire (the LockKind.ipc_server) (release (stopped_locks ns rest)))

-- A section of the daemon.
abbrev daemon_locks : Locking → Locking
daemon_locks rest = acquire (the LockKind.daemon) (release (either done rest))

-- The handles are taken, and, on a signal, the daemon shuts down.
abbrev started_locks : List ℕ → Locking
started_locks ns =
    daemon_locks (
      daemon_locks
        (daemon_locks (acquire (the LockKind.daemon) (shutdown_locks ns (release done)))))

-- `async_main`, from the daemon on, with the `start_ipc_server` that it calls.
abbrev pub async_main_locks : List ℕ → Locking
async_main_locks ns = daemon_locks (
    daemon_locks (
      daemon_locks (
        acquire (the LockKind.daemon) (
          acquire (the LockKind.ipc_server) (release (release (either done (started_locks ns))))))))

abbrev section : ℕ → Locking → Locking
section m rest = acquire (the_mount m) (release rest)

-- The polling loops, with the number of checks.
abbrev pub wait_locks : ℕ → ℕ → Locking → Locking
wait_locks m zero rest = rest
wait_locks m (suc k) rest = section m (either rest (wait_locks m k rest))

-- A section that sends to the background processor while it holds the mount.
abbrev sending : ℕ → Locking → Locking
sending m rest = acquire (the_mount m) (either (release rest) (send (release rest)))

-- `FuserMount::readdir`; `do_dir_sync` is called under the lock.
abbrev pub readdir_locks : ℕ → ℕ → Locking
readdir_locks m k = section m (
    either done (
      section m (
        either (section m done)
          (sending m (either (section m done) (wait_locks m k (either done (section m done))))))))

-- `FuserMount::read`; `read_file_sync` is called under the lock.
abbrev pub read_locks : ℕ → ℕ → Locking
read_locks m k = section m (either done (sending m (either done (wait_locks m k done))))

-- The threads: main, the processor, and calls for a mount; the last kind is each other handler and the
-- taking in of a response.
pub data Runs : Locking → Type 0 where
  async_main : (ns : List ℕ) → Runs (async_main_locks ns)
  run : (ops : List Turn) (ms : List ℕ) → Runs (run_locks ops ms)
  readdir : (m k : ℕ) → Runs (readdir_locks m k)
  read : (m k : ℕ) → Runs (read_locks m k)
  one_section : (m : ℕ) → Runs (section m done)

abbrev pub Starts : Thread → Type 0
Starts t = (t.held ≡ []) × Runs t.todo

managed-IsOrdered :
    (held : List Lock) (rest : Locking)
    → IsOrdered held rest
    → UpTo 3 held
    → IsOrdered held (managed identify_drive_locks rest)
managed-IsOrdered held rest ordered up =
    (raise held (omega arith) up, ((omega arith, raise held (omega arith) up), ordered))

from_drive-IsOrdered :
    (held : List Lock) (rest : Locking) (n : ℕ)
    → IsOrdered held rest
    → UpTo 3 held
    → IsOrdered held (from_drive n rest)
from_drive-IsOrdered held rest n ordered up =
    let up6 : UpTo 6 held = raise held (omega arith) up in
    let up8 : UpTo 8 held = raise held (omega arith) up in
    (
      raise held (omega arith) up,
      ((omega arith, raise held (omega arith) up), (ordered, (up6, ((omega arith, up8), ordered)))),
    )

type_locks-IsOrdered :
    (held : List Lock) (rest : Locking) (n : ℕ) (ms : List ℕ) (op : OpType)
    → IsOrdered held rest
    → UpTo 3 held
    → IsOrdered held (type_locks n ms op rest)
type_locks-IsOrdered held rest n ms (OpType.mount device _ _ _) ordered up =
    mount_locks-IsOrdered held rest device ordered up
type_locks-IsOrdered held rest n ms (OpType.unmount _ _) ordered up =
    unmount_locks-IsOrdered held rest n ms ordered up
type_locks-IsOrdered held rest n ms (OpType.identify _) ordered up =
    managed-IsOrdered held rest ordered up
type_locks-IsOrdered held rest n ms (OpType.get_status _) ordered up =
    managed-IsOrdered held rest ordered up
type_locks-IsOrdered held rest n ms OpType.bus_reset ordered up =
    managed-IsOrdered held rest ordered up
type_locks-IsOrdered held rest n ms (OpType.read_directory device) ordered up =
    from_drive-IsOrdered held rest device ordered up
type_locks-IsOrdered held rest n ms (OpType.read_file device _ _) ordered up =
    from_drive-IsOrdered held rest device ordered up
type_locks-IsOrdered held rest n ms (OpType.write_file _ _ _) ordered up = ordered
type_locks-IsOrdered held rest n ms (OpType.init_drive _ _) ordered up = ordered
type_locks-IsOrdered held rest n ms (OpType.read_file_cache _ _ _) ordered up = ordered
type_locks-IsOrdered held rest n ms (OpType.cancel_device_cache _) ordered up = ordered

reports_locks-IsOrdered :
    (held : List Lock) (k : ℕ) (rest : Locking)
    → IsOrdered held rest
    → IsOrdered held (reports_locks k rest)
reports_locks-IsOrdered held zero rest ordered = ordered
reports_locks-IsOrdered held (suc k) rest ordered = reports_locks-IsOrdered held k rest ordered

run_each_locks-IsOrdered :
    (held : List Lock) (rest : Locking) (turns : List Turn)
    → IsOrdered held rest
    → UpTo 3 held
    → IsOrdered held (run_each_locks turns rest)
run_each_locks-IsOrdered held rest [] ordered up = ordered
run_each_locks-IsOrdered held rest ((n, ms, op, k) ∷ turns) ordered up =
    let next = run_each_locks turns rest in
    let later : IsOrdered held next = run_each_locks-IsOrdered held rest turns ordered up in
    let told : IsOrdered held (reports_locks k (send next)) =
      reports_locks-IsOrdered held k (send next) later in
    (
      reports_locks-IsOrdered held k next later,
      (told, type_locks-IsOrdered held (reports_locks k (send next)) n ms op told up),
    )

run_locks-IsOrdered : (ops : List Turn) (ms : List ℕ) → IsOrdered [] (run_locks ops ms)
run_locks-IsOrdered ops ms =
    let alone = the LockKind.bg_proc ∷ [] in
    (
      tt,
      run_each_locks-IsOrdered alone (cleanup_locks ms (release done)) ops
          (cleanup_locks-IsOrdered alone (release done) ms tt (omega arith, tt)) (omega arith, tt),
    )

shutdown_locks-IsOrdered :
    (ns : List ℕ) → IsOrdered (the LockKind.daemon ∷ []) (shutdown_locks ns (release done))
shutdown_locks-IsOrdered ns =
    let alone = the LockKind.daemon ∷ [] in
    let stopped : IsOrdered alone (stopped_locks ns (release done)) = (
      tt,
      (
        (omega arith, tt),
        cleanup_drives_locks-IsOrdered (the LockKind.drive_mgr ∷ alone) ns (release (release done))
            tt (omega arith, (omega arith, tt)),
      ),
    ) in
    (stopped, ((omega arith, tt), stopped))

daemon_locks-IsOrdered : (rest : Locking) → IsOrdered [] rest → IsOrdered [] (daemon_locks rest)
daemon_locks-IsOrdered rest ordered = (tt, (tt, ordered))

started_locks-IsOrdered : (ns : List ℕ) → IsOrdered [] (started_locks ns)
started_locks-IsOrdered ns =
    let on_signal = acquire (the LockKind.daemon) (shutdown_locks ns (release done)) in
    daemon_locks-IsOrdered (daemon_locks (daemon_locks on_signal)) (
      daemon_locks-IsOrdered (daemon_locks on_signal)
        (daemon_locks-IsOrdered on_signal (tt, shutdown_locks-IsOrdered ns)))

wait_locks-IsOrdered :
    (m k : ℕ) (rest : Locking) → IsOrdered [] rest → IsOrdered [] (wait_locks m k rest)
wait_locks-IsOrdered m zero rest ordered = ordered
wait_locks-IsOrdered m (suc k) rest ordered = (tt, (ordered, wait_locks-IsOrdered m k rest ordered))

Runs-IsOrdered : (p : Locking) → Runs p → IsOrdered [] p
Runs-IsOrdered _ (async_main ns) =
    (tt, (tt, (tt, (tt, (tt, (tt, (tt, ((omega arith, tt), (tt, started_locks-IsOrdered ns)))))))))
Runs-IsOrdered _ (run ops ms) = run_locks-IsOrdered ops ms
Runs-IsOrdered _ (readdir m k) =
    let listing = either done (section m done) in
    let waited : IsOrdered [] (wait_locks m k listing) =
      wait_locks-IsOrdered m k listing (tt, (tt, tt)) in
    let sent : IsOrdered [] (either (section m done) (wait_locks m k listing)) =
      ((tt, tt), waited) in
    (tt, (tt, (tt, ((tt, tt), (tt, (sent, sent))))))
Runs-IsOrdered _ (read m k) =
    let sent : IsOrdered [] (either done (wait_locks m k done)) =
      (tt, wait_locks-IsOrdered m k done tt) in
    (tt, (tt, (tt, (sent, sent))))
Runs-IsOrdered _ (one_section m) = (tt, tt)

Starts-InOrder : (t : Thread) → Starts t → InOrder t
Starts-InOrder t (empty, runs) =
    subst (λ held. IsOrdered held t.todo) (sym empty) (Runs-IsOrdered t.todo runs)

-- Any number of threads of the daemon, each of which starts without locks, never come to a state in
-- which one of them is unfinished and all unfinished ones wait for locks, in whatever order they take
-- their turns and whichever way their tests go: all are finished, or one can go on even if no channel has
-- room, or one waits to send on a bounded channel. That such a send has room at last is not shown.
pub Starts-PoolSteps :
    (ts ts' : List Thread)
    → All Starts ts
    → PoolSteps ts ts'
    → All IsFinished ts' ⊎ (CanStep ts' ⊎ WaitsToSend ts')
Starts-PoolSteps ts ts' start steps =
    PoolSteps-IsFinished ts ts' (All-mono Starts-InOrder ts start) steps
