-- ===== src/Mount/Unique/Numbering.antt =====
-- The invariant of a mount's inodes, and `inode_disk_info` establishes it.
use rs1541fs.Prelude.{
  ℕ, ◌+◌, ◌≤◌, ◌<◌, ◌≡◌, refl, ◌⊎◌, inr, List, [], ◌∷◌, Option, none, some, arith, length, count,
  All,
}
use rs1541fs.File.Entry.{FileEntry, inode}
use rs1541fs.File.DiskInfo.{DiskInfo}
use rs1541fs.Mount.State.{Mount, first_file_ino, get_drive_ino}
use rs1541fs.Mount.Inodes.{
  next_after, number_files, number_dir, number_disk, number_disks, inode_disk_info,
}
use rs1541fs.Mount.Unique.Counting.{file_inodes, inode-numbered, number_disks-Numbers}

-- The directory of the disk at position `k`, if there is one, has that drive's inode, or none yet.
abbrev pub DirMayWait : ℕ → Option FileEntry → Type 0
DirMayWait k none = Unit
DirMayWait k (some f) = (inode f ≡ 0) ⊎ (inode f ≡ get_drive_ino k)

abbrev pub DirHasInode : ℕ → Option FileEntry → Type 0
DirHasInode k none = Unit
DirHasInode k (some f) = inode f ≡ get_drive_ino k

-- The disks from position `k` on: each has its position as its drive number, and `P` of its directory.
abbrev pub DisksFrom : (ℕ → Option FileEntry → Type 0) → ℕ → List DiskInfo → Type 0
DisksFrom P k [] = Unit
DisksFrom P k (d ∷ ds) = (d.drive_num ≡ k) × P k d.disk_dir × DisksFrom P (k + 1) ds

-- `update_from_dir_listing` asserts that a disk has control files.
abbrev pub HasControls : DiskInfo → Type 0
HasControls d = 0 < length d.control_files

-- Before the numbering: no inode but 0 stands twice, and each is a file inode below the next one.
pub record MayWait (next : ℕ) (ds : List DiskInfo) : Type 0 where
  pub starts : first_file_ino ≤ next
  pub once : (i : ℕ) → 0 < i → count i (file_inodes ds) ≤ 1
  pub low : (i : ℕ) → 0 < i → i < first_file_ino → count i (file_inodes ds) ≡ 0
  pub high : (i : ℕ) → next ≤ i → count i (file_inodes ds) ≡ 0
  pub dirs : DisksFrom DirMayWait 0 ds
  pub few : length ds ≤ 254
  pub controls : All HasControls ds

-- After it: every entry has an inode of its own, below `next` for a file, of its drive for a directory.
pub record HasInodes (next : ℕ) (ds : List DiskInfo) : Type 0 where
  pub may_wait : MayWait next ds
  pub all : count 0 (file_inodes ds) ≡ 0
  pub all_dirs : DisksFrom DirHasInode 0 ds

number_dir-HasInode :
    (k n : ℕ) (o : Option FileEntry) → n ≡ k → DirMayWait k o → DirHasInode k (number_dir n o)
number_dir-HasInode k n none e h = tt
number_dir-HasInode k n (some f) e h = ground (arith, inode-numbered (get_drive_ino n) f)

-- `number_disks` treats the directories and drive numbers one by one.
number_disks-dirs :
    (next k : ℕ) (ds : List DiskInfo)
    → DisksFrom DirMayWait k ds
    → DisksFrom DirHasInode k (number_disks next ds).0
unfolding number_disks number_disk
number_disks-dirs next k [] h = tt
number_disks-dirs next k (d ∷ ds) h = (
  h.0,
  number_dir-HasInode k d.drive_num d.disk_dir h.0 h.1,
  number_disks-dirs (number_disk next d).1 (k + 1) ds h.2,
)

weaken : (k : ℕ) (ds : List DiskInfo) → DisksFrom DirHasInode k ds → DisksFrom DirMayWait k ds
weaken k [] h = tt
weaken k (d ∷ ds) h = (h.0, weaken_dir d.disk_dir h.1, weaken (k + 1) ds h.2)
  where
    weaken_dir : (o : Option FileEntry) → DirHasInode k o → DirMayWait k o
    weaken_dir none t = tt
    weaken_dir (some f) t = inr t

pub length-number_disks :
    (next : ℕ) (ds : List DiskInfo) → length (number_disks next ds).0 ≡ length ds
unfolding number_disks
length-number_disks next [] = refl
length-number_disks next (d ∷ ds) = omega (arith, length-number_disks (number_disk next d).1 ds)

length-number_files : (next : ℕ) (fs : List FileEntry) → length (number_files next fs).0 ≡ length fs
unfolding number_files
length-number_files next [] = refl
length-number_files next (f ∷ fs) = omega (arith, length-number_files (next_after next f) fs)

number_disks-controls :
    (next : ℕ) (ds : List DiskInfo) → All HasControls ds → All HasControls (number_disks next ds).0
unfolding number_disks number_disk
number_disks-controls next [] h = tt
number_disks-controls next (d ∷ ds) h = (
  omega (arith, length-number_files next d.control_files, h.0),
  number_disks-controls (number_disk next d).1 ds h.1,
)

-- The numbering gives every entry an inode of its own.
pub number_disks-HasInodes :
    (next : ℕ) (ds : List DiskInfo)
    → MayWait next ds
    → HasInodes (number_disks next ds).1 (number_disks next ds).0
number_disks-HasInodes next ds v =
    let n = number_disks-Numbers next ds (omega arith) in
    let dirs = number_disks-dirs next 0 ds v.dirs in
    record {
      may_wait = record {
        starts = omega (arith, n.0);
        once = λ i p. ground (arith, n.2 i p, v.once i p, v.high i);
        low = λ i p q. ground (arith, n.2 i p, v.low i p q);
        high = λ i p. ground (arith, n.2 i, v.high i, n.0);
        dirs = weaken 0 _ dirs;
        few = omega (arith, length-number_disks next ds);
        controls = number_disks-controls next ds v.controls;
      };
      all = n.1;
      all_dirs = dirs;
    }

-- So after `inode_disk_info` every entry of the mount has an inode of its own.
pub inode_disk_info-HasInodes :
    (m : Mount)
    → MayWait m.next_inode m.disk_info
    → HasInodes (inode_disk_info m).next_inode (inode_disk_info m).disk_info
unfolding inode_disk_info
inode_disk_info-HasInodes m v = number_disks-HasInodes m.next_inode m.disk_info v
