-- ===== src/Locks.antt =====
-- The locks of the daemon (`locking_section!` of src/bin/server/main.rs): what each operation takes
-- and gives back, where it sends on a bounded channel, and any number of threads that do so at the same
-- time. A read lock counts as held alone, which is stricter than the code. Whether a channel has room
-- is left open: a send can go on at any step or wait.
pub mod Order
pub mod Drives
pub mod Service
pub mod Threads
use rs1541fs.Prelude.{
  ℕ, Bool, true, false, ◌&&◌, ◌||◌, ◌==◌, nat_eq, ◌≡◌, List, [], ◌∷◌, ◌++◌, some, get_elem?, set,
}

pub data LockKind : Type 0 where
  daemon ipc_server bg_proc mountpoints mount drive_mgr cbm drives drive : LockKind

-- A lock of a mount or a drive has that one's number.
pub record Lock : Type 0 where
  pub kind : LockKind
  pub number : ℕ

-- The order in which the locks are taken.
abbrev pub rank : LockKind → ℕ
rank LockKind.daemon = 0
rank LockKind.ipc_server = 1
rank LockKind.bg_proc = 2
rank LockKind.mountpoints = 3
rank LockKind.mount = 4
rank LockKind.drive_mgr = 5
rank LockKind.cbm = 6
rank LockKind.drives = 7
rank LockKind.drive = 8

abbrev pub same_lock : Lock → Lock → Bool
same_lock a b = (rank a.kind == rank b.kind) && (a.number == b.number)

abbrev pub holds : Lock → List Lock → Bool
holds l [] = false
holds l (k ∷ ks) = same_lock l k || holds l ks

-- What code does with locks: it takes one, gives the last one back, sends on a bounded channel, which
-- may block, or goes on in one of two ways.
pub data Locking : Type 0 where
  done : Locking
  acquire : Lock → Locking → Locking
  release : Locking → Locking
  send : Locking → Locking
  either : Locking → Locking → Locking

-- A thread: the locks it holds, the last one first, and what it still does.
pub record Thread : Type 0 where
  pub held : List Lock
  pub todo : Locking

abbrev pub all_held : List Thread → List Lock
all_held [] = []
all_held (t ∷ ts) = t.held ++ all_held ts

-- One thread goes on; a lock can be taken if no thread holds it, and a send can go on if there is room.
pub data Move (room : Bool) (taken : List Lock) : Thread → Thread → Type 0 where
  takes :
      (l : Lock) (held : List Lock) (p : Locking)
      → holds l taken ≡ false
      → Move room taken
          (record { held = held; todo = acquire l p })
          (record { held = l ∷ held; todo = p })
  gives :
      (l : Lock) (held : List Lock) (p : Locking)
      → Move room taken
          (record { held = l ∷ held; todo = release p })
          (record { held = held; todo = p })
  sends :
      (held : List Lock) (p : Locking)
      → room ≡ true
      → Move room taken (record { held = held; todo = send p }) (record { held = held; todo = p })
  left :
      (held : List Lock) (p q : Locking)
      → Move room taken
          (record { held = held; todo = either p q })
          (record { held = held; todo = p })
  right :
      (held : List Lock) (p q : Locking)
      → Move room taken
          (record { held = held; todo = either p q })
          (record { held = held; todo = q })

-- One step of all threads, with or without room on the channels.
pub data PoolStep (room : Bool) : List Thread → List Thread → Type 0 where
  moves :
      (ts : List Thread) (i : ℕ) (t t' : Thread)
      → get_elem? ts i ≡ some t
      → Move room (all_held ts) t t'
      → PoolStep room ts (set ts i t')

-- Any number of steps; there is room at some of them, and none at others.
pub data PoolSteps : List Thread → List Thread → Type 0 where
  still : (ts : List Thread) → PoolSteps ts ts
  further :
      (room : Bool) (ts us ws : List Thread)
      → PoolStep room ts us
      → PoolSteps us ws
      → PoolSteps ts ws
