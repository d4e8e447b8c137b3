-- ===== src/Service.antt =====
-- src/bin/server/mountsvc.rs: mounting and unmounting. The mounts that the daemon shares are kept in
-- the map of mountpoints, so a write to a shared mount is a write to its entry. FUSE itself is the
-- answer of `spawn_mount2`; the session, the threads and the channels are numbers.
pub mod Kept
pub mod Mounting
pub mod Entering
pub mod Mounts
pub mod Cleanup
pub mod Undone
pub mod Placed
pub mod Reached
use rs1541fs.Prelude.{
  ℕ, String, ◌<+>◌, Bool, true, false, not, ◌&&◌, ◌||◌, List, [], ◌∷◌, Option, none, some, is_some,
  is_none, to_string, ◌==◌, nat_eq, string_eq, if◌then◌else◌,
}
use rs1541fs.Prelude.Map
use rs1541fs.Prelude.Map.{Map, get, insert, keys}
use rs1541fs.Error.{Error, io, fs1541, operation, Result, ok, err, panic, ◌>>=◌}
use rs1541fs.Rs1541.{CbmDriveUnit}
use rs1541fs.Env.{Env}
use rs1541fs.Bg.{Operation}
use rs1541fs.Drives.{Drives, add_drive, remove_drive}
use rs1541fs.Mount.State.{Mount, update_fuser, set_shared_self, create_bg_response_thread}
use rs1541fs.Mount.State
use rs1541fs.Mount.Starting

-- `MountService` with the drives of its drive manager; `MountService::new` has none of either.
pub record Service : Type 0 where
  pub drives : Drives
  pub mountpoints : Map String Mount

-- The identities that one call of `mount` creates.
pub record Handles : Type 0 where
  pub channel : ℕ
  pub session : ℕ
  pub shared : ℕ
  pub thread : ℕ

abbrev pub dropping : ℕ → Service → Service
dropping device s = record s { drives = (remove_drive device s.drives).1 }

abbrev already_mounted : String → Error
already_mounted mountpoint =
    fs1541 ("Already have mount at " <+> mountpoint) (operation "Mount already exists")

-- `MountService::add_mount_to_mountpoints`
unfoldable pub add_mount_to_mountpoints : Mount → String → ℕ → Service → Result (Unit {0}) × Service
add_mount_to_mountpoints m mountpoint device s =
    let inserted = record s { mountpoints = insert mountpoint m s.mountpoints } in
    if is_none (get mountpoint s.mountpoints)
    then (ok tt, inserted)
    else (err (already_mounted mountpoint), dropping device inserted)

-- The handling of the answer of `add_mount_to_mountpoints`: the mount in the map is unmounted too.
abbrev pub unwound : Mount → String → ℕ → Result (Unit {0}) × Service → Result (Unit {0}) × Service
unwound m mountpoint device (err e, s) = (
  err e,
  dropping device (record s { mountpoints = insert mountpoint (State.unmount m) s.mountpoints }),
)
unwound m mountpoint device (r, s) = (r, s)

abbrev pub listening :
    String → ℕ → Result (Unit {0}) × Mount → Service → Result (Unit {0}) × Service
listening mountpoint device (err e, m) s = (err e, s)
listening mountpoint device (panic, m) s = (panic, s)
listening mountpoint device (ok _, m) s =
    unwound m mountpoint device (add_mount_to_mountpoints m mountpoint device s)

abbrev pub sharing :
    Handles → String → ℕ → Result (Unit {0}) × Mount → Service → Result (Unit {0}) × Service
sharing h mountpoint device (err e, m) s = (err e, s)
sharing h mountpoint device (panic, m) s = (panic, s)
sharing h mountpoint device (ok _, m) s =
    listening mountpoint device (create_bg_response_thread h.thread m) s

-- The thread and the session are put into the mount, which is then entered in the map.
unfoldable pub enter : Handles → String → ℕ → Mount → Service → Result (Unit {0}) × Service
unfolding add_mount_to_mountpoints set_shared_self create_bg_response_thread
enter h mountpoint device m s =
    sharing h mountpoint device (set_shared_self h.shared (update_fuser h.session m)) s

abbrev pub spawned :
    Option String → Handles → String → ℕ → Mount → Service → Result (Unit {0}) × Service
spawned (some e) h mountpoint device m s = (err (io "Failed to spawn FUSE mount" e), s)
spawned none h mountpoint device m s = enter h mountpoint device m s

-- What follows `Mount::mount`.
unfoldable pub after_mount :
    Env
    → Handles
    → String
    → ℕ
    → Result (Unit {0}) × Mount × List Operation
    → Service
    → Result (Unit {0}) × Service × List Operation
unfolding enter
after_mount env h mountpoint device (err e, m, sent) s = (err e, dropping device s, sent)
after_mount env h mountpoint device (panic, m, sent) s = (panic, s, sent)
after_mount env h mountpoint device (ok _, m, sent) s =
    let (r, s') = spawned (env.spawn_mount2 mountpoint) h mountpoint device m s in (r, s', sent)

abbrev pub with_unit :
    Env
    → ℕ
    → Option String
    → Handles
    → ℕ
    → String
    → Bool
    → Result CbmDriveUnit × Drives
    → Service
    → Result (Unit {0}) × Service × List Operation
with_unit env now closed h device mountpoint dummy_formats (err e, drives) s =
    (err e, record s { drives = drives }, [])
with_unit env now closed h device mountpoint dummy_formats (panic, drives) s =
    (panic, record s { drives = drives }, [])
with_unit env now closed h device mountpoint dummy_formats (ok unit, drives) s =
    after_mount env h mountpoint device
      (Starting.mount env now closed unit drives
        (State.new device mountpoint dummy_formats h.channel))
      (record s { drives = drives })

-- `MountService::mount`
unfoldable pub mount :
    Env
    → (now : ℕ) → Option String
    → Handles
    → (device : ℕ) → (mountpoint : String) → (dummy_formats : Bool) → Service
    → Result (Unit {0}) × Service × List Operation
unfolding after_mount
mount env now closed h device mountpoint dummy_formats s =
    with_unit env now closed h device mountpoint dummy_formats (add_drive env.cbm device s.drives) s

-- `MountService::get_mount`
unfoldable pub get_mount : String → Service → Result Mount
get_mount mountpoint s = elim (get mountpoint s.mountpoints) [
  | none ↦
      err
        (fs1541 ("Mountpoint " <+> mountpoint <+> " not found") (operation "Mountpoint not found"))
  | some m ↦ ok m
]

-- The loop of `get_mount_from_device_num`: the key and the mount.
unfoldable pub mount_of_device : ℕ → Map String Mount → Option (String × Mount)
mount_of_device device [] = none
mount_of_device device ((path, m) ∷ mps) =
    if m.device_num == device then some (path, m) else mount_of_device device mps

abbrev device_not_found : ℕ → Error
device_not_found device =
    fs1541 ("Device " <+> to_string device <+> " not found") (operation "Device not found")

-- `MountService::get_mount_from_device_num`
unfoldable pub get_mount_from_device_num : ℕ → Service → Result (String × Mount)
unfolding mount_of_device
get_mount_from_device_num device s = elim (mount_of_device device s.mountpoints) [
  | none ↦ err (device_not_found device)
  | some found ↦ ok found
]

-- The mount is unmounted, then its drive removed, then its entry.
abbrev pub take_out : Mount → Service → Result (Unit {0}) × Service
take_out m s =
    if is_some (get m.mountpoint s.mountpoints)
    then (ok tt, record s { mountpoints = Map.remove m.mountpoint s.mountpoints })
    else (panic, s)

abbrev pub drive_removed :
    Bool → Mount → Result (Unit {0}) × Drives → Service → Result (Unit {0}) × Service
drive_removed force m (err e, drives) s =
    if not force then (err e, s) else take_out m (record s { drives = drives })
drive_removed force m (panic, drives) s = (panic, s)
drive_removed force m (ok _, drives) s = take_out m (record s { drives = drives })

unfoldable pub unmount_found :
    Bool → ℕ → Result (String × Mount) → Service → Result (Unit {0}) × Service
unmount_found force device (err e) s = (err e, s)
unmount_found force device panic s = (panic, s)
unmount_found force device (ok (path, m)) s =
    drive_removed force m (remove_drive device s.drives)
      (record s { mountpoints = insert path (State.unmount m) s.mountpoints })

-- `MountService::unmount`; a mountpoint that is not found ends in `unreachable!`.
unfoldable pub unmount : Option ℕ → Option String → Bool → Service → Result (Unit {0}) × Service
unfolding get_mount get_mount_from_device_num unmount_found
unmount none none force s = (panic, s)
unmount (some device) (some mountpoint) force s = (panic, s)
unmount (some device) none force s =
    unmount_found force device (get_mount_from_device_num device s) s
unmount none (some mountpoint) force s = elim (get_mount mountpoint s) [
  | ok m ↦ unmount_found force m.device_num (ok (mountpoint, m)) s
  | _ ↦ (panic, s)
]

-- The next step, which a panic prevents.
abbrev pub and_then :
    Result (Unit {0}) × Service
    → (Service → Result (Unit {0}) × Service)
    → Result (Unit {0}) × Service
and_then (panic, s) next = (panic, s)
and_then (ok _, s) next = next s
and_then (err e, s) next = next s

-- `MountService::cleanup`
unfoldable pub cleanup_each : List String → Service → Result (Unit {0}) × Service
cleanup_each [] s = (ok tt, s)
cleanup_each (mountpoint ∷ mountpoints) s =
    and_then (unmount none (some mountpoint) true s) (λ s'. cleanup_each mountpoints s')

unfoldable pub cleanup : Service → Result (Unit {0}) × Service
unfolding cleanup_each
cleanup s = cleanup_each (keys s.mountpoints) s
