-- ===== src/Tests/Services.antt =====
-- Mounting and unmounting on a service with one mount.
use rs1541fs.Prelude.{◌≡◌, [], ◌∷◌, refl, none, some, true, false, nat_eq, string_eq}
use rs1541fs.Prelude.Map.{get, insert}
use rs1541fs.Mount.State
use rs1541fs.Mount.Inodes.{create_disk_info, inode_disk_info}
use rs1541fs.Error.{ok}
use rs1541fs.Drives.{Drives, add_drive, init_drive}
use rs1541fs.Mount.Starting
use rs1541fs.Mount.Listings.{update_last_status}
use rs1541fs.Service.Undone.{mount-unmount}
use rs1541fs.Service.Reached.{IsReached, at_start, by_mount, by_drives, cleanup-IsReached}
use rs1541fs.Service.{Service, mount, unmount, mount_of_device, cleanup}
use rs1541fs.Service.Kept.{IsKept, unmount-IsKept}
use rs1541fs.Service.Entering.{entered, entered-IsKept}
use rs1541fs.Service.Mounts.{mount-IsKept}
use rs1541fs.Tests.Fixtures.{env, handles, mountpoint, no_service, fresh_mount, unit_8}

no_service-IsKept : IsKept no_service
unfolding get
no_service-IsKept = record {
  placed = λ p m e. absurd (cc e);
  driven = λ p m e. absurd (cc e);
  apart = λ p q m n e e' same. absurd (cc e);
}

mount-IsKept_example : IsKept (mount env 100 none handles 8 mountpoint false no_service).1
unfolding get
mount-IsKept_example =
    mount-IsKept env 100 none handles 8 mountpoint false no_service refl no_service-IsKept

abbrev one_mounted : Service
one_mounted = entered fresh_mount unit_8 no_service

one_mounted-IsKept : IsKept one_mounted
unfolding get
one_mounted-IsKept = entered-IsKept fresh_mount unit_8 no_service refl no_service-IsKept

unmount-IsKept_example : IsKept (unmount none (some fresh_mount.mountpoint) false one_mounted).1
unfolding get insert State.new create_disk_info inode_disk_info
unmount-IsKept_example =
    unmount-IsKept false fresh_mount unit_8 one_mounted refl refl refl one_mounted-IsKept

-- The mount of a service, whose drive is busy by now.
abbrev busy_mounted : Service
busy_mounted = record (mount env 100 none handles 8 "/mnt/cbm" false no_service).1 {
  drives = (8, record unit_8 { is_busy = true }) ∷ [];
}

busy_mounted-IsReached : IsReached env busy_mounted
busy_mounted-IsReached =
    by_drives ((8, record unit_8 { is_busy = true }) ∷ [])
      (by_mount 100 none handles 8 "/mnt/cbm" false (at_start []))

cleanup-IsReached_example :
    (drives : Drives) × (cleanup busy_mounted
      ≡ (ok tt, record { drives = drives; mountpoints = [] }))
cleanup-IsReached_example = cleanup-IsReached env busy_mounted busy_mounted-IsReached

mounts : (mount env 100 none handles 8 "/mnt/cbm" false no_service).0 ≡ ok tt
unfolding mount add_drive get Starting.mount State.new init_drive insert State.update_fuser
    create_disk_info inode_disk_info update_last_status
mounts = refl

mount-unmount_example :
    (unmount none
        (some "/mnt/cbm")
        false
        (mount env 100 none handles 8 "/mnt/cbm" false no_service).1
      ≡ (ok tt, no_service))
    × (unmount (some 8) none false (mount env 100 none handles 8 "/mnt/cbm" false no_service).1
        ≡ (ok tt, no_service))
unfolding get mount_of_device
mount-unmount_example =
    mount-unmount env 100 none handles 8 "/mnt/cbm" false no_service false unit_8 refl refl refl
      refl mounts
