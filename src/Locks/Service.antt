-- ===== src/Locks/Service.antt =====
-- The locks that the mount service takes (src/bin/server/mountsvc.rs), and a mount that starts
-- (`Mount::mount` of src/bin/server/mount.rs). `n` is the device, which numbers its mount and drive.
use rs1541fs.Prelude.{ℕ, List, [], ◌∷◌, arith}
use rs1541fs.Locks.{LockKind, Lock, Locking, acquire, release, send, either}
use rs1541fs.Locks.Order.{IsOrdered}
use rs1541fs.Locks.Drives.{
  the, the_drive, add_drive_locks, remove_drive_locks, init_drive_locks, UpTo, raise,
  add_drive_locks-IsOrdered, remove_drive_locks-IsOrdered, init_drive_locks-IsOrdered,
}

abbrev pub the_mount : ℕ → Lock
the_mount n = record { kind = LockKind.mount; number = n }

-- A section of the drive manager that removes a drive.
abbrev removed : ℕ → Locking → Locking
removed n rest = acquire (the LockKind.drive_mgr) (remove_drive_locks n (release rest))

-- `MountService::add_mount_to_mountpoints`
abbrev pub add_mount_locks : ℕ → Locking → Locking
add_mount_locks n rest =
    acquire (the LockKind.mountpoints) (either (release rest) (removed n (release rest)))

-- `Mount::mount`, with `retrieve_drive_info` and `do_dir`, which sends to the processor
abbrev pub start_mount_locks : ℕ → Locking → Locking
start_mount_locks n rest = acquire (the LockKind.drive_mgr) (
    init_drive_locks n
      (release (either rest (acquire (the_drive n) (release (either rest (send rest)))))))

-- What `MountService::mount` does with the mount that started: it enters it, or takes it back.
abbrev entered_locks : ℕ → Locking → Locking
entered_locks n rest =
    add_mount_locks n (either rest (acquire (the_mount n) (release (removed n rest))))

abbrev started_locks : ℕ → Locking → Locking
started_locks n rest =
    either (removed n rest)
      (either rest (acquire (the_mount n) (release (either rest (entered_locks n rest)))))

-- `MountService::mount`
abbrev pub mount_locks : ℕ → Locking → Locking
mount_locks n rest =
    acquire (the LockKind.drive_mgr)
      (add_drive_locks (release (either rest (start_mount_locks n (started_locks n rest)))))

-- `MountService::get_mount`
abbrev pub get_mount_locks : Locking → Locking
get_mount_locks rest = acquire (the LockKind.mountpoints) (release rest)

-- The loop over the mounts, up to the one of the device.
abbrev pub find_mount_locks : List ℕ → Locking → Locking
find_mount_locks [] rest = rest
find_mount_locks (m ∷ ms) rest =
    acquire (the_mount m) (release (either rest (find_mount_locks ms rest)))

-- `MountService::get_mount_from_device_num`
abbrev pub get_mount_from_device_num_locks : List ℕ → Locking → Locking
get_mount_from_device_num_locks ms rest =
    acquire (the LockKind.mountpoints) (find_mount_locks ms (release rest))

abbrev unmount_found_locks : ℕ → Locking → Locking
unmount_found_locks n rest = acquire (the_mount n) (
    release (
      removed n (
        either rest
          (acquire (the LockKind.mountpoints) (acquire (the_mount n) (release (release rest)))))))

abbrev unmount_numbered_locks : ℕ → List ℕ → Locking → Locking
unmount_numbered_locks n ms rest =
    either (unmount_found_locks n rest)
      (get_mount_from_device_num_locks ms (either rest (unmount_found_locks n rest)))

abbrev unmount_looked_locks : ℕ → List ℕ → Locking → Locking
unmount_looked_locks n ms rest =
    either (acquire (the_mount n) (release (unmount_numbered_locks n ms rest)))
      (unmount_numbered_locks n ms rest)

-- `MountService::unmount`, with the mounts in the order of the map.
abbrev pub unmount_locks : ℕ → List ℕ → Locking → Locking
unmount_locks n ms rest =
    either (get_mount_locks (unmount_looked_locks n ms rest)) (unmount_looked_locks n ms rest)

abbrev unmount_each_locks : List ℕ → List ℕ → Locking → Locking
unmount_each_locks [] ms rest = rest
unmount_each_locks (n ∷ ns) ms rest = unmount_locks n ms (unmount_each_locks ns ms rest)

-- `MountService::cleanup`
abbrev pub cleanup_locks : List ℕ → Locking → Locking
cleanup_locks ms rest = get_mount_locks (unmount_each_locks ms ms (get_mount_locks rest))

removed-IsOrdered :
    (held : List Lock) (rest : Locking) (n : ℕ)
    → IsOrdered held rest
    → UpTo 5 held
    → IsOrdered held (removed n rest)
removed-IsOrdered held rest n ordered up = (
  up,
  remove_drive_locks-IsOrdered (the LockKind.drive_mgr ∷ held) (release rest) ordered n
      (omega arith, raise held (omega arith) up),
)

add_mount_locks-IsOrdered :
    (held : List Lock) (rest : Locking) (n : ℕ)
    → IsOrdered held rest
    → UpTo 3 held
    → IsOrdered held (add_mount_locks n rest)
add_mount_locks-IsOrdered held rest n ordered up = (
  up,
  (
    ordered,
    removed-IsOrdered (the LockKind.mountpoints ∷ held) (release rest) n ordered
        (omega arith, raise held (omega arith) up),
  ),
)

start_mount_locks-IsOrdered :
    (held : List Lock) (rest : Locking) (n : ℕ)
    → IsOrdered held rest
    → UpTo 5 held
    → IsOrdered held (start_mount_locks n rest)
start_mount_locks-IsOrdered held rest n ordered up = (
  up,
  init_drive_locks-IsOrdered (the LockKind.drive_mgr ∷ held)
      (release (either rest (acquire (the_drive n) (release (either rest (send rest))))))
      (ordered, (raise held (omega arith) up, (ordered, ordered))) n
      (omega arith, raise held (omega arith) up),
)

pub mount_locks-IsOrdered :
    (held : List Lock) (rest : Locking) (n : ℕ)
    → IsOrdered held rest
    → UpTo 3 held
    → IsOrdered held (mount_locks n rest)
mount_locks-IsOrdered held rest n ordered up =
    let up4 : UpTo 4 held = raise held (omega arith) up in
    let up5 : UpTo 5 held = raise held (omega arith) up in
    let undone : IsOrdered held (removed n rest) = removed-IsOrdered held rest n ordered up5 in
    let entered : IsOrdered held (entered_locks n rest) =
      add_mount_locks-IsOrdered held
        (either rest (acquire (the_mount n) (release (removed n rest)))) n (ordered, (up4, undone))
        up in
    let started : IsOrdered held (started_locks n rest) =
      (undone, (ordered, (up4, (ordered, entered)))) in
    (
      up5,
      add_drive_locks-IsOrdered (the LockKind.drive_mgr ∷ held)
          (release (either rest (start_mount_locks n (started_locks n rest))))
          (ordered, start_mount_locks-IsOrdered held (started_locks n rest) n started up5)
          (omega arith, raise held (omega arith) up5),
    )

find_mount_locks-IsOrdered :
    (held : List Lock) (rest : Locking) (ms : List ℕ)
    → IsOrdered held rest
    → UpTo 4 held
    → IsOrdered held (find_mount_locks ms rest)
find_mount_locks-IsOrdered held rest [] ordered up = ordered
find_mount_locks-IsOrdered held rest (m ∷ ms) ordered up =
    (up, (ordered, find_mount_locks-IsOrdered held rest ms ordered up))

unmount_found_locks-IsOrdered :
    (held : List Lock) (rest : Locking) (n : ℕ)
    → IsOrdered held rest
    → UpTo 3 held
    → IsOrdered held (unmount_found_locks n rest)
unmount_found_locks-IsOrdered held rest n ordered up =
    let up4 : UpTo 4 held = raise held (omega arith) up in
    (
      up4,
      removed-IsOrdered held
          (either rest
            (acquire (the LockKind.mountpoints) (acquire (the_mount n) (release (release rest)))))
          n (ordered, (up, ((omega arith, up4), ordered))) (raise held (omega arith) up),
    )

unmount_numbered_locks-IsOrdered :
    (held : List Lock) (rest : Locking) (n : ℕ) (ms : List ℕ)
    → IsOrdered held rest
    → UpTo 3 held
    → IsOrdered held (unmount_numbered_locks n ms rest)
unmount_numbered_locks-IsOrdered held rest n ms ordered up =
    let found : IsOrdered held (unmount_found_locks n rest) =
      unmount_found_locks-IsOrdered held rest n ordered up in
    (
      found,
      (
        up,
        find_mount_locks-IsOrdered (the LockKind.mountpoints ∷ held)
            (release (either rest (unmount_found_locks n rest))) ms (ordered, found)
            (omega arith, raise held (omega arith) up),
      ),
    )

pub unmount_locks-IsOrdered :
    (held : List Lock) (rest : Locking) (n : ℕ) (ms : List ℕ)
    → IsOrdered held rest
    → UpTo 3 held
    → IsOrdered held (unmount_locks n ms rest)
unmount_locks-IsOrdered held rest n ms ordered up =
    let numbered : IsOrdered held (unmount_numbered_locks n ms rest) =
      unmount_numbered_locks-IsOrdered held rest n ms ordered up in
    let looked : IsOrdered held (unmount_looked_locks n ms rest) =
      ((raise held (omega arith) up, numbered), numbered) in
    ((up, looked), looked)

unmount_each_locks-IsOrdered :
    (held : List Lock) (rest : Locking) (ns ms : List ℕ)
    → IsOrdered held rest
    → UpTo 3 held
    → IsOrdered held (unmount_each_locks ns ms rest)
unmount_each_locks-IsOrdered held rest [] ms ordered up = ordered
unmount_each_locks-IsOrdered held rest (n ∷ ns) ms ordered up =
    unmount_locks-IsOrdered held (unmount_each_locks ns ms rest) n ms
      (unmount_each_locks-IsOrdered held rest ns ms ordered up) up

pub cleanup_locks-IsOrdered :
    (held : List Lock) (rest : Locking) (ms : List ℕ)
    → IsOrdered held rest
    → UpTo 3 held
    → IsOrdered held (cleanup_locks ms rest)
cleanup_locks-IsOrdered held rest ms ordered up =
    (up, unmount_each_locks-IsOrdered held (get_mount_locks rest) ms ms (up, ordered) up)
