-- ===== src/Mount/Unique/Alike.antt =====
-- A change of an entry that keeps its inode keeps the inodes of the mount.
use rs1541fs.Prelude.{
  ℕ, ◌+◌, ◌≡◌, refl, inl, inr, List, [], ◌∷◌, Option, none, some, is_some, arith, length, find, All,
  Bool-cases, ap, ◌∙◌,
}
use mathlib.Core.Option.{some-injective}
use rs1541fs.File.Entry.{FileEntry, inode}
use rs1541fs.File.DiskInfo.{DiskInfo}
use rs1541fs.Mount.State.{Mount}
use rs1541fs.Mount.Lookup.{
  has_inode, file_on_disk, change_first, change_dir, change_on_disk, change_on_disks, change_file,
}
use rs1541fs.Mount.Unique.Counting.{inodes, file_inodes}
use rs1541fs.Mount.Unique.Numbering.{DirMayWait, DirHasInode, DisksFrom, HasControls, HasInodes}

abbrev dir_inode : Option FileEntry → Option ℕ
dir_inode none = none
dir_inode (some f) = some (inode f)

-- Two disks with the same inodes at the same places.
pub record IsAlike (d e : DiskInfo) : Type 0 where
  pub numbers : e.drive_num ≡ d.drive_num
  pub control : inodes e.control_files ≡ inodes d.control_files
  pub cbm : inodes e.cbm_files ≡ inodes d.cbm_files
  pub dir : dir_inode e.disk_dir ≡ dir_inode d.disk_dir

abbrev pub AreAlike : List DiskInfo → List DiskInfo → Type 0
AreAlike [] [] = Unit
AreAlike (d ∷ ds) (e ∷ es) = IsAlike d e × AreAlike ds es
AreAlike _ _ = ⊥

length-inodes : (fs : List FileEntry) → length (inodes fs) ≡ length fs
length-inodes [] = refl
length-inodes (f ∷ fs) = omega (arith, length-inodes fs)

file_inodes-AreAlike : (ds es : List DiskInfo) → AreAlike ds es → file_inodes es ≡ file_inodes ds
file_inodes-AreAlike [] [] h = refl
file_inodes-AreAlike (d ∷ ds) (e ∷ es) (a, h) =
    rw (a.control, a.cbm, file_inodes-AreAlike ds es h) refl
file_inodes-AreAlike [] (e ∷ es) h = absurd h
file_inodes-AreAlike (d ∷ ds) [] h = absurd h

length-AreAlike : (ds es : List DiskInfo) → AreAlike ds es → length es ≡ length ds
length-AreAlike [] [] h = refl
length-AreAlike (d ∷ ds) (e ∷ es) (a, h) = omega (arith, length-AreAlike ds es h)
length-AreAlike [] (e ∷ es) h = absurd h
length-AreAlike (d ∷ ds) [] h = absurd h

controls-AreAlike :
    (ds es : List DiskInfo) → AreAlike ds es → All HasControls ds → All HasControls es
controls-AreAlike [] [] h all = tt
controls-AreAlike (d ∷ ds) (e ∷ es) (a, h) (has, all) = (
  omega (
    arith,
    has,
    length-inodes d.control_files,
    length-inodes e.control_files,
    ap length a.control,
  ),
  controls-AreAlike ds es h all,
)
controls-AreAlike [] (e ∷ es) h all = absurd h
controls-AreAlike (d ∷ ds) [] h all = absurd h

-- A property of directories that looks at their inodes only.
module _ (P : ℕ → Option FileEntry → Type 0)
    (by_inode : (k : ℕ) (o o' : Option FileEntry)
      → dir_inode o' ≡ dir_inode o
      → P k o
      → P k o') where
  DisksFrom-AreAlike :
      (k : ℕ) (ds es : List DiskInfo) → AreAlike ds es → DisksFrom P k ds → DisksFrom P k es
  DisksFrom-AreAlike k [] [] h p = tt
  DisksFrom-AreAlike k (d ∷ ds) (e ∷ es) (a, h) (n, p, rest) = (
    a.numbers ∙ n,
    by_inode k d.disk_dir e.disk_dir a.dir p,
    DisksFrom-AreAlike (k + 1) ds es h rest,
  )
  DisksFrom-AreAlike k [] (e ∷ es) h p = absurd h
  DisksFrom-AreAlike k (d ∷ ds) [] h p = absurd h

waits_by_inode :
    (k : ℕ) (o o' : Option FileEntry)
    → dir_inode o' ≡ dir_inode o
    → DirMayWait k o
    → DirMayWait k o'
waits_by_inode k o none e h = tt
waits_by_inode k none (some f) e h = absurd (cc e)
waits_by_inode k (some f) (some f') e (inl z) = inl (some-injective _ _ e ∙ z)
waits_by_inode k (some f) (some f') e (inr z) = inr (some-injective _ _ e ∙ z)

has_by_inode :
    (k : ℕ) (o o' : Option FileEntry)
    → dir_inode o' ≡ dir_inode o
    → DirHasInode k o
    → DirHasInode k o'
has_by_inode k o none e h = tt
has_by_inode k none (some f) e h = absurd (cc e)
has_by_inode k (some f) (some f') e h = some-injective _ _ e ∙ h

pub HasInodes-AreAlike :
    (next : ℕ) (ds es : List DiskInfo) → AreAlike ds es → HasInodes next ds → HasInodes next es
HasInodes-AreAlike next ds es h v =
    let same = file_inodes-AreAlike ds es h in
    record {
      may_wait = record {
        starts = v.may_wait.starts;
        once = λ i p. rw same (v.may_wait.once i p);
        low = λ i p q. rw same (v.may_wait.low i p q);
        high = λ i p. rw same (v.may_wait.high i p);
        dirs = DisksFrom-AreAlike DirMayWait waits_by_inode 0 ds es h v.may_wait.dirs;
        few = omega (arith, length-AreAlike ds es h, v.may_wait.few);
        controls = controls-AreAlike ds es h v.may_wait.controls;
      };
      all = rw same v.all;
      all_dirs = DisksFrom-AreAlike DirHasInode has_by_inode 0 ds es h v.all_dirs;
    }

-- The change itself.
module _ (i : ℕ) (g : FileEntry → FileEntry) (same : (f : FileEntry) → inode (g f) ≡ inode f) where
  inodes-change_first : (fs : List FileEntry) → inodes (change_first i g fs) ≡ inodes fs
  inodes-change_first [] = refl
  inodes-change_first (f ∷ fs) = elim (Bool-cases (has_inode i f)) [
    | inl e ↦ rw (e, same f) refl
    | inr e ↦ rw e (ap (λ l. inode f ∷ l) (inodes-change_first fs))
  ]

  dir-change_dir : (o : Option FileEntry) → dir_inode (change_dir i g o) ≡ dir_inode o
  dir-change_dir none = refl
  dir-change_dir (some f) = elim (Bool-cases (has_inode i f)) [
    | inl e ↦ rw (e, same f) refl
    | inr e ↦ rw e refl
  ]

  itself : (d : DiskInfo) → IsAlike d d
  itself d = record { numbers = refl; control = refl; cbm = refl; dir = refl }

  all_themselves : (ds : List DiskInfo) → AreAlike ds ds
  all_themselves [] = tt
  all_themselves (d ∷ ds) = (itself d, all_themselves ds)

  change_on_disk-IsAlike : (d : DiskInfo) → IsAlike d (change_on_disk i g d)
  unfolding change_on_disk
  change_on_disk-IsAlike d = elim (Bool-cases (is_some (find (has_inode i) d.control_files))) [
    | inl e ↦ rw e (record {
      numbers = refl;
      control = inodes-change_first d.control_files;
      cbm = refl;
      dir = refl;
    })
    | inr e ↦ elim (Bool-cases (is_some (find (has_inode i) d.cbm_files))) [
      | inl e' ↦
          rw (e, e')
            (record {
              numbers = refl;
              control = refl;
              cbm = inodes-change_first d.cbm_files;
              dir = refl;
            })
      | inr e' ↦
          rw (e, e')
            (record { numbers = refl; control = refl; cbm = refl; dir = dir-change_dir d.disk_dir })
    ]
  ]

  change_on_disks-AreAlike : (ds : List DiskInfo) → AreAlike ds (change_on_disks i g ds)
  unfolding change_on_disks
  change_on_disks-AreAlike [] = tt
  change_on_disks-AreAlike (d ∷ ds) = elim (Bool-cases (is_some (file_on_disk i d))) [
    | inl e ↦ rw e (change_on_disk-IsAlike d, all_themselves ds)
    | inr e ↦ rw e (itself d, change_on_disks-AreAlike ds)
  ]

  -- A change of an entry that keeps its inode keeps every inode unique.
  pub change_file-HasInodes :
      (m : Mount)
      → HasInodes m.next_inode m.disk_info
      → HasInodes (change_file i g m).next_inode (change_file i g m).disk_info
  unfolding change_file
  change_file-HasInodes m v =
      HasInodes-AreAlike m.next_inode m.disk_info _ (change_on_disks-AreAlike m.disk_info) v

  pub length-change_file : (m : Mount) → length (change_file i g m).disk_info ≡ length m.disk_info
  unfolding change_file
  length-change_file m = length-AreAlike m.disk_info _ (change_on_disks-AreAlike m.disk_info)
