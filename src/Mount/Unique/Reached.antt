-- ===== src/Mount/Unique/Reached.antt =====
-- With the inodes that `inode_disk_info` gives, the lookup reaches every entry of a mount.
use rs1541fs.Prelude.{
  ℕ, zero, suc, ◌+◌, ◌≤◌, ◌<◌, ◌≡◌, refl, List, [], ◌∷◌, ◌++◌, Option, none, some, arith, or_else,
  find, ◌==◌, nat_eq, if◌then◌else◌, length, count, count-append, get_elem?, ap, sym, ◌∙◌,
}
use mathlib.Core.Option.{some-injective}
use rs1541fs.File.Entry.{FileEntry, inode}
use rs1541fs.File.DiskInfo.{DiskInfo}
use rs1541fs.Mount.State.{Mount, get_drive_ino}
use rs1541fs.Mount.Lookup.{has_inode, dir_with, file_on_disk, file_on_disks, file_by_inode}
use rs1541fs.Mount.Unique.Counting.{inodes, file_inodes}
use rs1541fs.Mount.Unique.Numbering.{DirHasInode, DisksFrom, HasInodes}

abbrev pub dir_entries : Option FileEntry → List FileEntry
dir_entries none = []
dir_entries (some f) = f ∷ []

-- Every entry of the disks: their control files, files and directories.
abbrev pub entries : List DiskInfo → List FileEntry
entries [] = []
entries (d ∷ ds) = d.control_files ++ (d.cbm_files ++ (dir_entries d.disk_dir ++ entries ds))

find-append :
    (i : ℕ) (fs gs : List FileEntry)
    → find (has_inode i) (fs ++ gs) ≡ or_else (find (has_inode i) fs) (find (has_inode i) gs)
find-append i [] gs = refl
find-append i (f ∷ fs) gs = ground (arith, find-append i fs gs)

find-dir : (i : ℕ) (o : Option FileEntry) → find (has_inode i) (dir_entries o) ≡ dir_with i o
find-dir i none = refl
find-dir i (some f) = refl

or_else_assoc : (a b c : Option FileEntry) → or_else (or_else a b) c ≡ or_else a (or_else b c)
or_else_assoc none b c = refl
or_else_assoc (some f) b c = refl

-- The lookup is the search of the list of all entries.
file_on_disks-find :
    (i : ℕ) (ds : List DiskInfo) → file_on_disks i ds ≡ find (has_inode i) (entries ds)
unfolding file_on_disks file_on_disk
file_on_disks-find i [] = refl
file_on_disks-find i (d ∷ ds) =
    rw
      (
        find-append i d.control_files (d.cbm_files ++ (dir_entries d.disk_dir ++ entries ds)),
        find-append i d.cbm_files (dir_entries d.disk_dir ++ entries ds),
        find-append i (dir_entries d.disk_dir) (entries ds),
        find-dir i d.disk_dir,
        sym (file_on_disks-find i ds),
        or_else_assoc (find (has_inode i) d.control_files)
            (or_else (find (has_inode i) d.cbm_files) (dir_with i d.disk_dir)) (file_on_disks i ds),
        or_else_assoc (find (has_inode i) d.cbm_files) (dir_with i d.disk_dir) (file_on_disks i ds),
      )
      refl

inodes-append :
    (i : ℕ) (fs gs : List FileEntry)
    → count i (inodes (fs ++ gs)) ≡ count i (inodes fs) + count i (inodes gs)
inodes-append i [] gs = omega arith
inodes-append i (f ∷ fs) gs = omega (arith, inodes-append i fs gs)

pub stands :
    (k : ℕ) (fs : List FileEntry) (f : FileEntry)
    → get_elem? fs k ≡ some f
    → 0 < count (inode f) (inodes fs)
stands k [] f e = absurd (cc e)
stands zero (x ∷ fs) f e = ground (arith, ap inode (some-injective _ _ e))
stands (suc k) (x ∷ fs) f e = omega (arith, stands k fs f e)

-- An inode that stands once in a list leads to its entry.
find-once :
    (k : ℕ) (fs : List FileEntry) (f : FileEntry)
    → get_elem? fs k ≡ some f
    → count (inode f) (inodes fs) ≤ 1
    → find (has_inode (inode f)) fs ≡ some f
find-once k [] f e h = absurd (cc e)
find-once zero (x ∷ fs) f e h = ground (arith, ap inode (some-injective _ _ e))
find-once (suc k) (x ∷ fs) f e h = ground (arith, stands k fs f e, find-once k fs f e)

abbrev pub dir_inodes : List DiskInfo → List ℕ
dir_inodes [] = []
dir_inodes (d ∷ ds) = inodes (dir_entries d.disk_dir) ++ dir_inodes ds

pub count-entries :
    (i : ℕ) (ds : List DiskInfo)
    → count i (inodes (entries ds)) ≡ count i (file_inodes ds) + count i (dir_inodes ds)
count-entries i [] = refl
count-entries i (d ∷ ds) = omega (
  arith,
  inodes-append i d.control_files (d.cbm_files ++ (dir_entries d.disk_dir ++ entries ds)),
  inodes-append i d.cbm_files (dir_entries d.disk_dir ++ entries ds),
  inodes-append i (dir_entries d.disk_dir) (entries ds),
  count-append i (inodes d.control_files) (inodes d.cbm_files ++ file_inodes ds),
  count-append i (inodes d.cbm_files) (file_inodes ds),
  count-append i (inodes (dir_entries d.disk_dir)) (dir_inodes ds),
  count-entries i ds,
)

count-dir :
    (i k : ℕ) (o : Option FileEntry)
    → DirHasInode k o
    → count i (inodes (dir_entries o)) ≤ (if get_drive_ino k == i then 1 else 0)
count-dir i k none h = omega arith
count-dir i k (some f) h = ground arith

-- The directories' inodes are below the files', and each stands once.
pub count-dirs :
    (i b : ℕ) (ds : List DiskInfo)
    → DisksFrom DirHasInode b ds
    → (count i (dir_inodes ds) ≤ 1)
      × (i < get_drive_ino b → count i (dir_inodes ds) ≡ 0)
      × (get_drive_ino (b + length ds) ≤ i → count i (dir_inodes ds) ≡ 0)
count-dirs i b [] h = (omega arith, λ _. refl, λ _. refl)
count-dirs i b (d ∷ ds) h =
    let (once, below, above) = count-dirs i (b + 1) ds h.2 in
    let split = count-append i (inodes (dir_entries d.disk_dir)) (dir_inodes ds) in
    let dir = count-dir i b d.disk_dir h.1 in
    (
      ground (arith, once, below, split, dir),
      λ p. ground (arith, below, split, dir),
      λ p. ground (arith, above, split, dir),
    )

count-all :
    (i : ℕ) (m : Mount)
    → HasInodes m.next_inode m.disk_info
    → count i (inodes (entries m.disk_info)) ≤ 1
count-all i m v = ground (
  arith,
  count-entries i m.disk_info,
  count-dirs i 0 m.disk_info v.all_dirs,
  v.all,
  v.may_wait.once i,
  v.may_wait.low i,
  v.may_wait.few,
)

-- With every inode given out once, an entry that stands anywhere on the mount's disks, be it a control
-- file, a file or a directory, is what `file_by_inode` gives for its inode.
pub file_by_inode-entries :
    (m : Mount) (k : ℕ) (f : FileEntry)
    → HasInodes m.next_inode m.disk_info
    → get_elem? (entries m.disk_info) k ≡ some f
    → file_by_inode m (inode f) ≡ some f
unfolding file_by_inode
file_by_inode-entries m k f v e =
    file_on_disks-find (inode f) m.disk_info
    ∙ find-once k (entries m.disk_info) f e (count-all (inode f) m v)
