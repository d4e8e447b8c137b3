-- ===== src/Mount/Unique/Counting.antt =====
-- How often an inode stands in lists of files, before and after `inode_disk_info` numbers them.
use rs1541fs.Prelude.{
  ℕ, ◌+◌, ◌≤◌, ◌<◌, ◌≡◌, refl, List, [], ◌∷◌, ◌++◌, arith, leb, ltb, count, count-append,
  if◌then◌else◌, ◌==◌, nat_eq,
}
use rs1541fs.File.Entry.{FileEntry, inode}
use rs1541fs.File.DiskInfo.{DiskInfo}
use rs1541fs.Mount.Inodes.{numbered, next_after, number_files, number_disk, number_disks}

abbrev pub inodes : List FileEntry → List ℕ
inodes [] = []
inodes (f ∷ fs) = inode f ∷ inodes fs

-- The inodes of the files of all disks, without the disk directories.
abbrev pub file_inodes : List DiskInfo → List ℕ
file_inodes [] = []
file_inodes (d ∷ ds) = inodes d.control_files ++ (inodes d.cbm_files ++ file_inodes ds)

-- 1 for the numbers from `next` to before `last`.
abbrev pub fresh : ℕ → ℕ → ℕ → ℕ
fresh next last i = if leb next i then if ltb i last then 1 else 0 else 0

-- The files get exactly the inodes from `next` to before the next free one, each once, on top of
-- those that they have; no file is left without an inode.
abbrev pub Numbers : ℕ → List ℕ → List ℕ → ℕ → Type 0
Numbers next before after last =
    (next ≤ last)
    × (count 0 after ≡ 0)
    × ((i : ℕ) → 0 < i → count i after ≡ count i before + fresh next last i)

pub inode-numbered :
    (next : ℕ) (f : FileEntry) → inode (numbered next f) ≡ (if inode f == 0 then next else inode f)
inode-numbered next f = ground arith

Numbers-cons :
    (next a : ℕ) (before after : List ℕ) (last : ℕ)
    → 0 < next
    → Numbers (if a == 0 then next + 1 else next) before after last
    → Numbers next (a ∷ before) ((if a == 0 then next else a) ∷ after) last
Numbers-cons next a before after last pos h =
    (ground arith, ground arith, λ i p. ground (arith, h.2 i p))

number_files-Numbers :
    (next : ℕ) (fs : List FileEntry)
    → 0 < next
    → Numbers next (inodes fs) (inodes (number_files next fs).0) (number_files next fs).1
unfolding number_files
number_files-Numbers next [] h = (omega arith, refl, λ i p. ground arith)
number_files-Numbers next (f ∷ fs) h = rw (inode-numbered next f) (
    Numbers-cons next (inode f) _ _ _ h
      (number_files-Numbers (next_after next f) fs (ground arith)))

Numbers-append :
    (next mid last : ℕ) (before before' after after' : List ℕ)
    → Numbers next before after mid
    → Numbers mid before' after' last
    → Numbers next (before ++ before') (after ++ after') last
Numbers-append next mid last before before' after after' h k = (
  omega arith,
  omega (arith, count-append 0 after after'),
  λ i p.
      ground (arith, h.2 i p, k.2 i p, count-append i before before', count-append i after after'),
)

pub number_disks-Numbers :
    (next : ℕ) (ds : List DiskInfo)
    → 0 < next
    → Numbers next (file_inodes ds) (file_inodes (number_disks next ds).0) (number_disks next ds).1
unfolding number_disks number_disk
number_disks-Numbers next [] h = (omega arith, refl, λ i p. ground arith)
number_disks-Numbers next (d ∷ ds) h =
    let control = number_files-Numbers next d.control_files h in
    let after_control = (number_files next d.control_files).1 in
    let cbm = number_files-Numbers after_control d.cbm_files (omega (arith, control.0)) in
    let after_cbm = (number_files after_control d.cbm_files).1 in
    let rest = number_disks-Numbers after_cbm ds (omega (arith, control.0, cbm.0)) in
    Numbers-append next after_control _ _ _ _ _ control
      (Numbers-append after_control after_cbm _ _ _ _ _ cbm rest)
