-- ===== src/Mount/Inodes.antt =====
-- `inode_disk_info` and `create_disk_info` of src/bin/server/mount.rs.
use rs1541fs.Prelude.{
  ℕ, zero, suc, ◌+◌, List, [], ◌∷◌, Option, none, some, ◌==◌, nat_eq, ltb, if◌then◌else◌,
}
use rs1541fs.File.Entry.{FileEntry, inode, set_inode}
use rs1541fs.File.DiskInfo.{DiskInfo, new, add_disk_dir}
use rs1541fs.Mount.State.{Mount, num_drives, get_drive_ino}

-- One file: the inode `next` if it has none yet.
abbrev pub numbered : ℕ → FileEntry → FileEntry
numbered next f = if inode f == 0 then set_inode f next else f

abbrev pub next_after : ℕ → FileEntry → ℕ
next_after next f = if inode f == 0 then next + 1 else next

-- The loop over one list of files, and the next free inode after it.
unfoldable pub number_files : ℕ → List FileEntry → List FileEntry × ℕ
number_files next [] = ([], next)
number_files next (f ∷ fs) =
    let (numbered_fs, last) = number_files (next_after next f) fs in
    (numbered next f ∷ numbered_fs, last)

abbrev pub number_dir : ℕ → Option FileEntry → Option FileEntry
number_dir drive_num none = none
number_dir drive_num (some f) = some (numbered (get_drive_ino drive_num) f)

unfoldable pub number_disk : ℕ → DiskInfo → DiskInfo × ℕ
number_disk next d =
    let (control, after_control) = number_files next d.control_files in
    let (cbm, after_cbm) = number_files after_control d.cbm_files in
    (
      record d {
        control_files = control;
        cbm_files = cbm;
        disk_dir = number_dir d.drive_num d.disk_dir;
      },
      after_cbm,
    )

unfoldable pub number_disks : ℕ → List DiskInfo → List DiskInfo × ℕ
number_disks next [] = ([], next)
number_disks next (d ∷ ds) =
    let (numbered_d, after) = number_disk next d in
    let (numbered_ds, last) = number_disks after ds in (numbered_d ∷ numbered_ds, last)

-- `Mount::inode_disk_info`
unfoldable pub inode_disk_info : Mount → Mount
inode_disk_info m =
    let (disks, next) = number_disks m.next_inode m.disk_info in
    record m { disk_info = disks; next_inode = next }

-- The loop of `create_disk_info` over the drives from `ii`, with `left` drives to go.
unfoldable pub new_disks : (now drives left ii : ℕ) → List DiskInfo
new_disks now drives zero ii = []
new_disks now drives (suc left) ii =
    (if ltb 1 drives then add_disk_dir now (new now ii) else new now ii)
    ∷ new_disks now drives left (ii + 1)

-- `Mount::create_disk_info`
unfoldable pub create_disk_info : ℕ → Mount → Mount
create_disk_info now m =
    inode_disk_info (record m { disk_info = new_disks now (num_drives m) (num_drives m) 0 })
