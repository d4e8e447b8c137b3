-- ===== src/Mount/Unique/Created.antt =====
-- Creating the disks gives every entry an inode of its own; new files wait for theirs.
use rs1541fs.Prelude.{
  ℕ, zero, suc, ◌+◌, ◌≤◌, ◌<◌, ◌≡◌, refl, inl, inr, List, [], ◌∷◌, ◌++◌, map, arith, length, count,
  count-append, ltb, Bool-cases, All,
}
use rs1541fs.Rs1541.{CbmFileEntry, valid_file, invalid_file}
use rs1541fs.File.Control.{ControlFilePurpose, purposes}
use rs1541fs.File.Entry.{from_cbm_file_entry, from_control_file_purpose, from_directory}
use rs1541fs.File.DiskInfo.{new, new_control_files, add_disk_dir, cbm_files_from}
use rs1541fs.Mount.State.{Mount, first_file_ino, num_drives}
use rs1541fs.Mount.Inodes.{new_disks, create_disk_info}
use rs1541fs.Mount.Unique.Counting.{inodes, file_inodes}
use rs1541fs.Mount.Unique.Numbering.{
  DirMayWait, HasControls, DisksFrom, HasInodes, inode_disk_info-HasInodes,
}

-- The files of a listing wait for their inodes.
pub cbm_files_wait :
    (now i : ℕ) (files : List CbmFileEntry)
    → 0 < i
    → count i (inodes (cbm_files_from now files)) ≡ 0
unfolding cbm_files_from from_cbm_file_entry
cbm_files_wait now i [] p = refl
cbm_files_wait now i (valid_file t n b s ∷ files) p = ground (arith, cbm_files_wait now i files p)
cbm_files_wait now i (invalid_file ∷ files) p = cbm_files_wait now i files p

-- The control files of a new disk do too.
control_files_wait :
    (now i : ℕ) (ps : List ControlFilePurpose)
    → 0 < i
    → count i (inodes (map (λ p. from_control_file_purpose now p 0) ps)) ≡ 0
unfolding from_control_file_purpose
control_files_wait now i [] p = refl
control_files_wait now i (x ∷ ps) p = ground (arith, control_files_wait now i ps p)

first_disk_waits :
    (now i : ℕ) (rest : List ℕ)
    → 0 < i
    → count i rest ≡ 0
    → count i (inodes (new_control_files now) ++ ([] ++ rest)) ≡ 0
unfolding new_control_files
first_disk_waits now i rest p h = omega (
  arith,
  count-append i (inodes (new_control_files now)) rest,
  control_files_wait now i purposes p,
)

new_disks_wait :
    (now drives left ii i : ℕ) → 0 < i → count i (file_inodes (new_disks now drives left ii)) ≡ 0
unfolding new_disks add_disk_dir new
new_disks_wait now drives zero ii i p = refl
new_disks_wait now drives (suc left) ii i p = elim (Bool-cases (ltb 1 drives)) [
  | inl e ↦ rw e (first_disk_waits now i _ p (new_disks_wait now drives left (ii + 1) i p))
  | inr e ↦ rw e (first_disk_waits now i _ p (new_disks_wait now drives left (ii + 1) i p))
]

new_disks-dirs : (now drives left ii : ℕ) → DisksFrom DirMayWait ii (new_disks now drives left ii)
unfolding new_disks add_disk_dir new from_directory
new_disks-dirs now drives zero ii = tt
new_disks-dirs now drives (suc left) ii = elim (Bool-cases (ltb 1 drives)) [
  | inl e ↦ rw e (refl, inl refl, new_disks-dirs now drives left (ii + 1))
  | inr e ↦ rw e (refl, tt, new_disks-dirs now drives left (ii + 1))
]

length-new_disks : (now drives left ii : ℕ) → length (new_disks now drives left ii) ≡ left
unfolding new_disks
length-new_disks now drives zero ii = refl
length-new_disks now drives (suc left) ii = omega (arith, length-new_disks now drives left (ii + 1))

new_disks-controls : (now drives left ii : ℕ) → All HasControls (new_disks now drives left ii)
unfolding new_disks add_disk_dir new new_control_files
new_disks-controls now drives zero ii = tt
new_disks-controls now drives (suc left) ii = elim (Bool-cases (ltb 1 drives)) [
  | inl e ↦ rw e (omega arith, new_disks-controls now drives left (ii + 1))
  | inr e ↦ rw e (omega arith, new_disks-controls now drives left (ii + 1))
]

-- Creating the disks of a drive gives every control file and directory an inode of its own.
pub create_disk_info-HasInodes :
    (now : ℕ) (m : Mount)
    → first_file_ino ≤ m.next_inode
    → num_drives m ≤ 254
    → HasInodes (create_disk_info now m).next_inode (create_disk_info now m).disk_info
unfolding create_disk_info
create_disk_info-HasInodes now m s few = inode_disk_info-HasInodes _ (record {
  starts = s;
  once = λ i p. omega (arith, new_disks_wait now (num_drives m) (num_drives m) 0 i p);
  low = λ i p q. new_disks_wait now (num_drives m) (num_drives m) 0 i p;
  high = λ i p. new_disks_wait now (num_drives m) (num_drives m) 0 i (omega arith);
  dirs = new_disks-dirs now (num_drives m) (num_drives m) 0;
  few = omega (arith, length-new_disks now (num_drives m) (num_drives m) 0);
  controls = new_disks-controls now (num_drives m) (num_drives m) 0;
})
