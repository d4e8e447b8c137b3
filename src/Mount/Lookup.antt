-- ===== src/Mount/Lookup.antt =====
-- `file_by_inode`, `file_by_inode_mut` and the lookups of drive numbers of src/bin/server/mount.rs.
use rs1541fs.Prelude.{
  ℕ, ◌+◌, Bool, List, [], ◌∷◌, Option, none, some, or_else, find, is_some, ◌==◌, nat_eq,
  if◌then◌else◌,
}
use rs1541fs.File.Entry.{FileEntry, FileEntryType, directory, inode}
use rs1541fs.File.DiskInfo.{DiskInfo}
use rs1541fs.Mount.State.{Mount}

abbrev pub has_inode : ℕ → FileEntry → Bool
has_inode ino f = inode f == ino

abbrev pub dir_with : ℕ → Option FileEntry → Option FileEntry
dir_with ino none = none
dir_with ino (some f) = if has_inode ino f then some f else none

unfoldable pub file_on_disk : ℕ → DiskInfo → Option FileEntry
file_on_disk ino d =
    or_else (find (has_inode ino) d.control_files)
      (or_else (find (has_inode ino) d.cbm_files) (dir_with ino d.disk_dir))

unfoldable pub file_on_disks : ℕ → List DiskInfo → Option FileEntry
file_on_disks ino [] = none
file_on_disks ino (d ∷ ds) = or_else (file_on_disk ino d) (file_on_disks ino ds)

-- `Mount::file_by_inode`
unfoldable pub file_by_inode : Mount → ℕ → Option FileEntry
file_by_inode m ino = file_on_disks ino m.disk_info

abbrev pub change_first : ℕ → (FileEntry → FileEntry) → List FileEntry → List FileEntry
change_first ino g [] = []
change_first ino g (f ∷ fs) = if has_inode ino f then g f ∷ fs else f ∷ change_first ino g fs

abbrev pub change_dir : ℕ → (FileEntry → FileEntry) → Option FileEntry → Option FileEntry
change_dir ino g none = none
change_dir ino g (some f) = if has_inode ino f then some (g f) else some f

-- A write through `file_by_inode_mut`: the entry that the lookup finds, and no other, is changed.
unfoldable pub change_on_disk : ℕ → (FileEntry → FileEntry) → DiskInfo → DiskInfo
change_on_disk ino g d =
    if is_some (find (has_inode ino) d.control_files)
    then record d { control_files = change_first ino g d.control_files }
    else if is_some (find (has_inode ino) d.cbm_files)
    then record d { cbm_files = change_first ino g d.cbm_files }
    else record d { disk_dir = change_dir ino g d.disk_dir }

unfoldable pub change_on_disks : ℕ → (FileEntry → FileEntry) → List DiskInfo → List DiskInfo
change_on_disks ino g [] = []
change_on_disks ino g (d ∷ ds) =
    if is_some (file_on_disk ino d)
    then change_on_disk ino g d ∷ ds
    else d ∷ change_on_disks ino g ds

unfoldable pub change_file : ℕ → (FileEntry → FileEntry) → Mount → Mount
change_file ino g m = record m { disk_info = change_on_disks ino g m.disk_info }

abbrev drive_num_of : FileEntryType → Option ℕ
drive_num_of (directory drive_num) = some drive_num
drive_num_of _ = none

abbrev drive_num_of_file : Option FileEntry → Option ℕ
drive_num_of_file none = none
drive_num_of_file (some f) = drive_num_of f.native

-- `Mount::get_drive_num_by_inode`
unfoldable pub get_drive_num_by_inode : Mount → ℕ → Option ℕ
unfolding file_by_inode
get_drive_num_by_inode m ino = drive_num_of_file (file_by_inode m ino)

drive_from : ℕ → ℕ → List DiskInfo → Option ℕ
drive_from ino ii [] = none
drive_from ino ii (d ∷ ds) =
    let rest = drive_from ino (ii + 1) ds in
    if is_some (dir_with ino d.disk_dir) then some ii else rest

-- `Mount::get_drive_num_from_inode`
unfoldable pub get_drive_num_from_inode : Mount → ℕ → Option ℕ
unfolding drive_from
get_drive_num_from_inode m ino = drive_from ino 0 m.disk_info
