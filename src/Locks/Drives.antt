-- ===== src/Locks/Drives.antt =====
-- The locks that the drive manager takes (src/bin/server/drivemgr.rs), `rest` being what is done
-- afterwards. Each test and each `?` is a choice; a guard is dropped at the end of its section.
use rs1541fs.Prelude.{ℕ, ◌≤◌, ◌<◌, List, [], ◌∷◌, All, All-mono, arith}
use rs1541fs.Locks.{LockKind, Lock, rank, Locking, acquire, release, either}
use rs1541fs.Locks.Order.{IsOrdered}

-- A lock there is one of.
abbrev pub the : LockKind → Lock
the k = record { kind = k; number = 0 }

abbrev pub the_drive : ℕ → Lock
the_drive n = record { kind = LockKind.drive; number = n }

-- `DriveManager::get_drive`
abbrev pub get_drive_locks : Locking → Locking
get_drive_locks rest = acquire (the LockKind.drives) (release rest)

-- `DriveManager::add_drive`
abbrev pub add_drive_locks : Locking → Locking
add_drive_locks rest = either rest (
    acquire (the LockKind.cbm)
      (release (either rest (acquire (the LockKind.drives) (release rest)))))

-- `DriveManager::remove_drive`
abbrev pub remove_drive_locks : ℕ → Locking → Locking
remove_drive_locks n rest = acquire (the LockKind.drives) (
    release (
      either rest (
        acquire (the_drive n)
          (release (either rest (acquire (the LockKind.drives) (release rest)))))))

-- `DriveManager::identify_drive`
abbrev pub identify_drive_locks : Locking → Locking
identify_drive_locks rest = acquire (the LockKind.cbm) (release rest)

-- `DriveManager::get_drive_status`
abbrev pub get_drive_status_locks : Locking → Locking
get_drive_status_locks rest = acquire (the LockKind.cbm) (release rest)

-- `DriveManager::reset_bus`; the guard lasts for the clone only.
abbrev pub reset_bus_locks : Locking → Locking
reset_bus_locks rest = acquire (the LockKind.cbm) (release rest)

-- `DriveManager::init_drive`; here too.
abbrev pub init_drive_locks : ℕ → Locking → Locking
init_drive_locks n rest =
    acquire (the LockKind.cbm)
      (release (get_drive_locks (either rest (acquire (the_drive n) (release rest)))))

abbrev pub cleanup_each_locks : List ℕ → Locking → Locking
cleanup_each_locks [] rest = rest
cleanup_each_locks (n ∷ ns) rest =
    let next = cleanup_each_locks ns rest in
    remove_drive_locks n (either next (acquire (the LockKind.drives) (release next)))

-- `DriveManager::cleanup_drives`
abbrev pub cleanup_drives_locks : List ℕ → Locking → Locking
cleanup_drives_locks ns rest =
    acquire (the LockKind.drives)
      (release (cleanup_each_locks ns (acquire (the LockKind.drives) (release rest))))

-- All locks that are held come before a rank.
abbrev pub UpTo : ℕ → List Lock → Type 0
UpTo b held = All (λ k. rank k.kind < b) held

pub raise : {b c : ℕ} → (held : List Lock) → b ≤ c → UpTo b held → UpTo c held
raise held h up = All-mono (λ k p. omega (arith, h, p)) held up

module _ (held : List Lock) (rest : Locking) (ordered : IsOrdered held rest) where
  pub get_drive_locks-IsOrdered : UpTo 7 held → IsOrdered held (get_drive_locks rest)
  get_drive_locks-IsOrdered up = (up, ordered)

  pub add_drive_locks-IsOrdered : UpTo 6 held → IsOrdered held (add_drive_locks rest)
  add_drive_locks-IsOrdered up = (ordered, (up, (ordered, (raise held (omega arith) up, ordered))))

  pub remove_drive_locks-IsOrdered :
      (n : ℕ) → UpTo 7 held → IsOrdered held (remove_drive_locks n rest)
  remove_drive_locks-IsOrdered n up =
      (up, (ordered, (raise held (omega arith) up, (ordered, (up, ordered)))))

  pub init_drive_locks-IsOrdered : (n : ℕ) → UpTo 6 held → IsOrdered held (init_drive_locks n rest)
  init_drive_locks-IsOrdered n up =
      let up7 : UpTo 7 held = raise held (omega arith) up in
      (up, (up7, (ordered, (raise held (omega arith) up7, ordered))))

cleanup_each_locks-IsOrdered :
    (held : List Lock) (ns : List ℕ) (rest : Locking)
    → IsOrdered held rest
    → UpTo 7 held
    → IsOrdered held (cleanup_each_locks ns rest)
cleanup_each_locks-IsOrdered held [] rest ordered up = ordered
cleanup_each_locks-IsOrdered held (n ∷ ns) rest ordered up =
    let next = cleanup_each_locks-IsOrdered held ns rest ordered up in
    remove_drive_locks-IsOrdered held
      (either (cleanup_each_locks ns rest) (get_drive_locks (cleanup_each_locks ns rest)))
      (next, (up, next)) n up

pub cleanup_drives_locks-IsOrdered :
    (held : List Lock) (ns : List ℕ) (rest : Locking)
    → IsOrdered held rest
    → UpTo 7 held
    → IsOrdered held (cleanup_drives_locks ns rest)
cleanup_drives_locks-IsOrdered held ns rest ordered up =
    (up, cleanup_each_locks-IsOrdered held ns _ (up, ordered) up)
