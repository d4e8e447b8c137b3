-- ===== src/Mount/Found.antt =====
-- Looking entries up by their inode finds the right ones, and a write through the lookup is read back.
use rs1541fs.Prelude.{
  ℕ, ◌≡◌, refl, inl, inr, List, [], ◌∷◌, Option, none, some, arith, or_else, find, nat_eq,
  nat_beq_iff, Bool-cases, Option-cases, subst,
}
use rs1541fs.File.Entry.{FileEntry, inode}
use rs1541fs.File.DiskInfo.{DiskInfo}
use rs1541fs.Mount.State.{Mount}
use rs1541fs.Mount.Lookup.{
  has_inode, dir_with, file_on_disk, file_on_disks, file_by_inode, change_first, change_dir,
  change_on_disk, change_on_disks, change_file,
}

-- What a lookup gives has the inode that was asked for.
abbrev Sound : ℕ → Option FileEntry → Type 0
Sound i none = Unit
Sound i (some f) = inode f ≡ i

find-Sound : (i : ℕ) (fs : List FileEntry) → Sound i (find (has_inode i) fs)
find-Sound i [] = tt
find-Sound i (f ∷ fs) = elim (Bool-cases (has_inode i f)) [
  | inl e ↦ rw e ((nat_beq_iff (inode f) i).0 e)
  | inr e ↦ rw e (find-Sound i fs)
]

dir-Sound : (i : ℕ) (o : Option FileEntry) → Sound i (dir_with i o)
dir-Sound i none = tt
dir-Sound i (some f) = elim (Bool-cases (has_inode i f)) [
  | inl e ↦ rw e ((nat_beq_iff (inode f) i).0 e)
  | inr e ↦ rw e tt
]

or_else-Sound : (i : ℕ) (a b : Option FileEntry) → Sound i a → Sound i b → Sound i (or_else a b)
or_else-Sound i none b h k = k
or_else-Sound i (some f) b h k = h

disks-Sound : (i : ℕ) (ds : List DiskInfo) → Sound i (file_on_disks i ds)
unfolding file_on_disks file_on_disk
disks-Sound i [] = tt
disks-Sound i (d ∷ ds) =
    or_else-Sound i _ _
      (or_else-Sound i _ _ (find-Sound i d.control_files)
        (or_else-Sound i _ _ (find-Sound i d.cbm_files) (dir-Sound i d.disk_dir)))
      (disks-Sound i ds)

-- What `file_by_inode` gives has the inode that was asked for.
pub file_by_inode-inode :
    (m : Mount) (i : ℕ) (f : FileEntry) → file_by_inode m i ≡ some f → inode f ≡ i
unfolding file_by_inode
file_by_inode-inode m i f e = subst (Sound i) e (disks-Sound i m.disk_info)

abbrev pub changed : (FileEntry → FileEntry) → Option FileEntry → Option FileEntry
changed g none = none
changed g (some f) = some (g f)

module _ (i : ℕ) (g : FileEntry → FileEntry) (same : (f : FileEntry) → inode (g f) ≡ inode f) where
  find-change_first :
      (fs : List FileEntry)
      → find (has_inode i) (change_first i g fs) ≡ changed g (find (has_inode i) fs)
  find-change_first [] = refl
  find-change_first (f ∷ fs) = elim (Bool-cases (has_inode i f)) [
    | inl e ↦ rw (e, same f, e) refl
    | inr e ↦ rw (e, e) (find-change_first fs)
  ]

  dir-change_dir : (o : Option FileEntry) → dir_with i (change_dir i g o) ≡ changed g (dir_with i o)
  dir-change_dir none = refl
  dir-change_dir (some f) = elim (Bool-cases (has_inode i f)) [
    | inl e ↦ rw (e, same f, e) refl
    | inr e ↦ rw (e, e) refl
  ]

  file-change_on_disk :
      (d : DiskInfo) → file_on_disk i (change_on_disk i g d) ≡ changed g (file_on_disk i d)
  unfolding file_on_disk change_on_disk
  file-change_on_disk d = elim (Option-cases (find (has_inode i) d.control_files)) [
    | inr (f, e) ↦ grind (arith, e, find-change_first d.control_files)
    | inl e ↦ elim (Option-cases (find (has_inode i) d.cbm_files)) [
      | inr (f, e') ↦ grind (arith, e, e', find-change_first d.cbm_files)
      | inl e' ↦ grind (arith, e, e', dir-change_dir d.disk_dir)
    ]
  ]

  file-change_on_disks :
      (ds : List DiskInfo)
      → file_on_disks i (change_on_disks i g ds) ≡ changed g (file_on_disks i ds)
  unfolding file_on_disks change_on_disks
  file-change_on_disks [] = refl
  file-change_on_disks (d ∷ ds) = elim (Option-cases (file_on_disk i d)) [
    | inl e ↦ grind (arith, e, file-change_on_disks ds)
    | inr (f, e) ↦ grind (arith, e, file-change_on_disk d)
  ]

  -- An entry that is changed through its inode, without changing the inode, is what the lookup finds
  -- from then on.
  pub file_by_inode-change_file :
      (m : Mount) → file_by_inode (change_file i g m) i ≡ changed g (file_by_inode m i)
  unfolding file_by_inode change_file
  file_by_inode-change_file m = file-change_on_disks m.disk_info
