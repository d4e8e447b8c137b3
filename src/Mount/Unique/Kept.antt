-- ===== src/Mount/Unique/Kept.antt =====
-- Processing directory listings keeps every inode unique.
use rs1541fs.Prelude.{
  ℕ, zero, suc, ◌+◌, ◌≤◌, ◌<◌, ◌≡◌, refl, ◌⊎◌, inl, inr, List, [], ◌∷◌, ◌++◌, some, arith, length,
  count, count-append, get_elem?, set, ltb, Bool-cases, All, All-get_elem?, get_elem?-lt,
  length-set, ap, sym, subst, ◌∙◌,
}
use mathlib.Core.Option.{some-injective}
use rs1541fs.Error.{Result, ok}
use rs1541fs.Rs1541.{CbmDirListing}
use rs1541fs.File.DiskInfo.{DiskInfo, cbm_files_from, update_from_dir_listing, updated}
use rs1541fs.Mount.State.{Mount}
use rs1541fs.Mount.Inodes.{inode_disk_info}
use rs1541fs.Mount.Listings.{process_listing, process_listings, process_directory_listings}
use rs1541fs.Mount.Unique.Counting.{inodes, file_inodes}
use rs1541fs.Mount.Unique.Numbering.{
  DirMayWait, HasControls, DisksFrom, MayWait, HasInodes, inode_disk_info-HasInodes,
  length-number_disks,
}
use rs1541fs.Mount.Unique.Created.{cbm_files_wait}

abbrev disk_inodes : DiskInfo → List ℕ
disk_inodes d = inodes d.control_files ++ inodes d.cbm_files

file_inodes-cons :
    (i : ℕ) (d : DiskInfo) (ds : List DiskInfo)
    → count i (file_inodes (d ∷ ds)) ≡ count i (disk_inodes d) + count i (file_inodes ds)
file_inodes-cons i d ds = omega (
  arith,
  count-append i (inodes d.control_files) (inodes d.cbm_files ++ file_inodes ds),
  count-append i (inodes d.cbm_files) (file_inodes ds),
  count-append i (inodes d.control_files) (inodes d.cbm_files),
)

module _ (d d' : DiskInfo) where
  count-set :
      (i k : ℕ) (ds : List DiskInfo)
      → get_elem? ds k ≡ some d
      → count i (disk_inodes d') ≤ count i (disk_inodes d)
      → count i (file_inodes (set ds k d')) ≤ count i (file_inodes ds)
  count-set i k [] e h = omega arith
  count-set i zero (x ∷ ds) e h = omega (
    arith,
    file_inodes-cons i x ds,
    file_inodes-cons i d' ds,
    ap (λ y. count i (disk_inodes y)) (some-injective _ _ e),
  )
  count-set i (suc k) (x ∷ ds) e h =
      omega
        (arith, file_inodes-cons i x ds, file_inodes-cons i x (set ds k d'), count-set i k ds e h)

  set-DisksFrom :
      (k b : ℕ) (ds : List DiskInfo)
      → get_elem? ds k ≡ some d
      → d'.drive_num ≡ d.drive_num
      → d'.disk_dir ≡ d.disk_dir
      → DisksFrom DirMayWait b ds
      → DisksFrom DirMayWait b (set ds k d')
  set-DisksFrom k b [] e n dir h = tt
  set-DisksFrom zero b (x ∷ ds) e n dir h =
      let same = some-injective _ _ e in
      (
        n ∙ ap (λ y. y.drive_num) (sym same) ∙ h.0,
        subst (DirMayWait b) (ap (λ y. y.disk_dir) same ∙ sym dir) h.1,
        h.2,
      )
  set-DisksFrom (suc k) b (x ∷ ds) e n dir h = (h.0, h.1, set-DisksFrom k (b + 1) ds e n dir h.2)

  set-controls :
      (k : ℕ) (ds : List DiskInfo)
      → HasControls d'
      → All HasControls ds
      → All HasControls (set ds k d')
  set-controls k [] h a = tt
  set-controls zero (x ∷ ds) h a = (h, a.1)
  set-controls (suc k) (x ∷ ds) h a = (a.0, set-controls k ds h a.1)

-- One listing can be processed: its drive is one of the mount's, or its number is skipped.
abbrev pub Fits : ℕ → CbmDirListing → Type 0
Fits drives listing = (1 < listing.header.drive_number) ⊎ (listing.header.drive_number < drives)

update-HasControls :
    (now : ℕ) (listing : CbmDirListing) (d : DiskInfo)
    → HasControls d
    → update_from_dir_listing now listing d ≡ ok (updated now listing d)
unfolding update_from_dir_listing
update-HasControls now listing d h = grind arith

count-updated :
    (now i : ℕ) (listing : CbmDirListing) (d : DiskInfo)
    → 0 < i
    → count i (disk_inodes (updated now listing d)) ≤ count i (disk_inodes d)
count-updated now i listing d p = omega (
  arith,
  count-append i (inodes d.control_files) (inodes (cbm_files_from now listing.files)),
  count-append i (inodes d.control_files) (inodes d.cbm_files),
  cbm_files_wait now i listing.files p,
)

set-MayWait :
    (now next k : ℕ) (listing : CbmDirListing) (d : DiskInfo) (ds : List DiskInfo)
    → get_elem? ds k ≡ some d
    → MayWait next ds
    → MayWait next (set ds k (updated now listing d))
set-MayWait now next k listing d ds e v = record {
  starts = v.starts;
  once = λ i p. omega (arith, fewer i p, v.once i p);
  low = λ i p q. omega (arith, fewer i p, v.low i p q);
  high = λ i p. omega (arith, fewer i (omega (arith, v.starts)), v.high i p);
  dirs = set-DisksFrom d (updated now listing d) k 0 ds e refl refl v.dirs;
  few = omega (arith, length-set ds k (updated now listing d), v.few);
  controls =
      set-controls d (updated now listing d) k ds (All-get_elem? HasControls ds k d v.controls e)
        v.controls;
}
  where
    fewer :
        (i : ℕ)
        → 0 < i
        → count i (file_inodes (set ds k (updated now listing d))) ≤ count i (file_inodes ds)
    fewer i p = count-set d (updated now listing d) i k ds e (count-updated now i listing d p)

-- The state between the listings: the new files wait for their inodes.
abbrev Continues : ℕ → List DiskInfo → Result (List DiskInfo) → Type 0
Continues next ds r =
    (ds' : List DiskInfo) × (r ≡ ok ds') × MayWait next ds' × (length ds' ≡ length ds)

process_listing-Continues :
    (now next : ℕ) (listing : CbmDirListing) (ds : List DiskInfo)
    → Fits (length ds) listing
    → MayWait next ds
    → Continues next ds (process_listing now listing ds)
unfolding process_listing
process_listing-Continues now next listing ds fits v =
    elim (Bool-cases (ltb 1 listing.header.drive_number)) [
      | inl skipped ↦ (ds, rw skipped refl, v, refl)
      | inr used ↦
          let (d, e) = get_elem?-lt ds listing.header.drive_number (ground arith) in
          let controls = All-get_elem? HasControls ds listing.header.drive_number d v.controls e in
          (
            set ds listing.header.drive_number (updated now listing d),
            rw (used, e, update-HasControls now listing d controls) refl,
            set-MayWait now next listing.header.drive_number listing d ds e v,
            length-set ds listing.header.drive_number (updated now listing d),
          )
    ]

process_listings-Continues :
    (now next : ℕ) (listings : List CbmDirListing) (ds : List DiskInfo)
    → All (Fits (length ds)) listings
    → MayWait next ds
    → Continues next ds (process_listings now listings ds)
unfolding process_listings
process_listings-Continues now next [] ds fits v = (ds, refl, v, refl)
process_listings-Continues now next (listing ∷ listings) ds fits v =
    let (ds', e, v', same) = process_listing-Continues now next listing ds fits.0 v in
    let (ds'', e', v'', same') =
      process_listings-Continues now next listings ds' (rw same fits.1) v' in
    (ds'', rw e e', v'', same' ∙ same)

-- The same of a mount, whose number of disks stays.
abbrev pub MountContinues : Mount → Result Mount → Type 0
MountContinues m r =
    (m' : Mount) × (r ≡ ok m')
    × HasInodes m'.next_inode m'.disk_info
    × (length m'.disk_info ≡ length m.disk_info)

pub process_directory_listings-MountContinues :
    (now : ℕ) (listings : List CbmDirListing) (m : Mount)
    → HasInodes m.next_inode m.disk_info
    → All (Fits (length m.disk_info)) listings
    → MountContinues m (process_directory_listings now listings m)
unfolding process_directory_listings inode_disk_info
process_directory_listings-MountContinues now listings m v fits =
    let (ds, e, v', same) =
      process_listings-Continues now m.next_inode listings m.disk_info fits v.may_wait in
    let waiting = record m { disk_info = ds } in
    (
      inode_disk_info waiting,
      rw e refl,
      inode_disk_info-HasInodes waiting v',
      length-number_disks m.next_inode ds ∙ same,
    )

-- If each listing's drive number is skipped or is one of the mount's disks, processing the listings
-- ends without a panic, and every entry of the new directories has an inode of its own.
pub process_directory_listings-HasInodes :
    (now : ℕ) (listings : List CbmDirListing) (m : Mount)
    → HasInodes m.next_inode m.disk_info
    → All (Fits (length m.disk_info)) listings
    → (m' : Mount) × (process_directory_listings now listings m ≡ ok m')
      × HasInodes m'.next_inode m'.disk_info
process_directory_listings-HasInodes now listings m v fits =
    let (m', e, v', same) = process_directory_listings-MountContinues now listings m v fits in
    (m', e, v')
