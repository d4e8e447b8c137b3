-- ===== src/Fuser/Laws/Refreshed.antt =====
-- A directory that has to be read from the drive: through the background processor, back into the
-- mount, and to the kernel.
use mathlib.Core.List.{map-append}
use rs1541fs.Prelude.{
  ℕ, zero, suc, ◌+◌, ◌-◌, ◌<◌, ◌≤◌, String, ◌<+>◌, ◌≡◌, refl, inl, inr, true, false, List, [], ◌∷◌,
  ◌++◌, map, Option, none, some, arith, ap, ◌∙◌, ltb, get_elem?, set, ◌==◌, nat_eq, Bool-cases,
  if◌then◌else◌,
}
use rs1541fs.Error.{ok, panic, ◌>>=◌}
use rs1541fs.Rs1541.{
  CbmStatus, CbmDriveUnit, CbmDirListing, CbmFileType, CbmFileEntry, valid_file, invalid_file,
}
use rs1541fs.Env.{Env}
use rs1541fs.Bg.{OpType, OpResponseType, OpResponse, Operation, new_operation}
use rs1541fs.Drives.{get_drive}
use rs1541fs.Service.{Handles}
use rs1541fs.Proc.{Proc, in_time, process_operation, execute_operation, execute}
use rs1541fs.File.Entry.{FileEntry, inode, fuse_root_id, fuse_suffix, from_cbm_file_entry}
use rs1541fs.File.DiskInfo.{DiskInfo, cbm_files_from, update_from_dir_listing, updated, files}
use rs1541fs.Mount.State.{
  Mount, num_drives, get_drive_files, should_refresh_dir, is_stale, set_dir_outstanding,
}
use rs1541fs.Mount.Inodes.{
  number_files, numbered, next_after, number_disk, number_disks, inode_disk_info,
}
use rs1541fs.Mount.Listings.{
  process_listing, process_listings, process_directory_listings, update_last_status,
}
use rs1541fs.Mount.Requests.{do_dir_sync}
use rs1541fs.Mount.Responses.{process_bg_response, process_response_type}
use rs1541fs.Fuser.{Timers, Counts, reply}
use rs1541fs.Fuser.Directory.{disk, DirLine, lines_from, listed, readdir_files, readdir}

abbrev pub name_of : FileEntry → String
name_of f = f.fuse.name

-- The name that a line of a directory shows.
abbrev pub line_name : DirLine → String
line_name (_, _, _, name) = name

-- The ending of a file's name, by its type.
abbrev pub ending_of : CbmFileType → String
ending_of CbmFileType.prg = ".prg"
ending_of CbmFileType.seq = ".seq"
ending_of CbmFileType.usr = ".usr"
ending_of CbmFileType.rel = ".rel"
ending_of CbmFileType.unknown = ""

-- The names of the valid files of a listing, in order, each with its ending.
abbrev pub names_in : List CbmFileEntry → List String
names_in [] = []
names_in (valid_file t name blocks max_size ∷ fs) = (name <+> ending_of t) ∷ names_in fs
names_in (invalid_file ∷ fs) = names_in fs

ending_of_lem : (t : CbmFileType) → fuse_suffix t ≡ ending_of t
unfolding fuse_suffix
ending_of_lem CbmFileType.prg = refl
ending_of_lem CbmFileType.seq = refl
ending_of_lem CbmFileType.usr = refl
ending_of_lem CbmFileType.rel = refl
ending_of_lem CbmFileType.unknown = refl

cbm_files_from-names_in :
    (now : ℕ) (fs : List CbmFileEntry) → map name_of (cbm_files_from now fs) ≡ names_in fs
unfolding cbm_files_from from_cbm_file_entry
cbm_files_from-names_in now [] = refl
cbm_files_from-names_in now (valid_file t name blocks max_size ∷ fs) =
    rw (ending_of_lem t, cbm_files_from-names_in now fs) refl
cbm_files_from-names_in now (invalid_file ∷ fs) = cbm_files_from-names_in now fs

numbered-name : (next : ℕ) (f : FileEntry) → name_of (numbered next f) ≡ name_of f
numbered-name next f = elim (Bool-cases (inode f == 0)) [ inl e ↦ rw e refl | inr e ↦ rw e refl ]

number_files-names :
    (next : ℕ) (fs : List FileEntry) → map name_of (number_files next fs).0 ≡ map name_of fs
unfolding number_files
number_files-names next [] = refl
number_files-names next (f ∷ fs) =
    rw (numbered-name next f, number_files-names (next_after next f) fs) refl

lines_from-names :
    (ii : ℕ) (fs : List FileEntry) → map line_name (lines_from ii fs) ≡ map name_of fs
unfolding lines_from
lines_from-names ii [] = refl
lines_from-names ii (f ∷ fs) = ap (λ l. name_of f ∷ l) (lines_from-names (ii + 1) fs)

number_disk-names :
    (next : ℕ) (d : DiskInfo)
    → map name_of (files (number_disk next d).0)
      ≡ map name_of d.control_files ++ map name_of d.cbm_files
unfolding number_disk files
number_disk-names next d =
    map-append name_of (number_files next d.control_files).0 _
    ∙ rw
        (
          number_files-names next d.control_files,
          number_files-names (number_files next d.control_files).1 d.cbm_files,
        )
        refl

-- The listing of a mount of one drive whose disk has been read in time.
module _ (timers : Timers) (counts : Counts) (landed later : ℕ) (closed : Option String)
    (m last : Mount) (view : ℕ → ℕ × Mount) (d : DiskInfo) (one : num_drives m ≡ 1)
    (disk_is : m.disk_info ≡ d ∷ []) (read_at : d.disk_read_time ≡ some landed)
    (order : landed ≤ later) (young : later - landed < timers.dir_cache) where
  lists_disk : listed m fuse_root_id ≡ ok (disk 0)
  unfolding listed
  lists_disk = rw one refl

  is_fresh : is_stale later timers.dir_cache d.disk_read_time ≡ false
  is_fresh = rw read_at (ground (arith, order, young))

  keeps : should_refresh_dir later m 0 timers.dir_cache ≡ ok false
  unfolding should_refresh_dir
  keeps = rw (one, disk_is, is_fresh) refl

  has_files : get_drive_files m 0 ≡ ok (files d)
  unfolding get_drive_files
  has_files = rw (one, disk_is) refl

  readdir-files :
      readdir timers counts later closed m last view fuse_root_id 0
      ≡ ok (reply (lines_from 0 (files d)), m, [])
  unfolding readdir readdir_files
  readdir-files = rw (lists_disk, keeps, has_files) refl

-- A mount of one drive, whose disk has its control files, with no directory under way.
module _ (env : Env) (timers : Timers) (counts : Counts) (now : ℕ) (m : Mount) (d : DiskInfo)
    (c : FileEntry) (cs : List FileEntry) (one : num_drives m ≡ 1) (disk_is : m.disk_info ≡ d ∷ [])
    (controls : d.control_files ≡ c ∷ cs) (idle : m.dir_outstanding ≡ false) where
  abbrev waiting : Mount
  waiting = set_dir_outstanding true m

  abbrev requested : Operation
  requested = new_operation now (OpType.read_directory m.device_num) m.bg_rsp_tx none

  requests : do_dir_sync now none false m ≡ (ok tt, waiting, requested ∷ [])
  unfolding do_dir_sync
  requests = rw idle refl

  module _ (landed : ℕ) (status : CbmStatus) (listing : CbmDirListing)
      (first : listing.header.drive_number ≡ 0) where
    abbrev response : OpResponse
    response = record {
      rsp = inl (OpResponseType.read_directory status (listing ∷ []));
      stream = none;
    }

    abbrev numbered_disk : DiskInfo × ℕ
    numbered_disk = number_disk m.next_inode (updated landed listing d)

    abbrev refreshed : Mount
    refreshed =
        update_last_status env.format_time landed status
          (record (set_dir_outstanding false waiting) {
            disk_info = numbered_disk.0 ∷ [];
            next_inode = numbered_disk.1;
          })

    updates : update_from_dir_listing landed listing d ≡ ok (updated landed listing d)
    unfolding update_from_dir_listing
    updates = rw controls refl

    takes_listing : process_listing landed listing (d ∷ []) ≡ ok (updated landed listing d ∷ [])
    unfolding process_listing
    takes_listing = by_number listing.header.drive_number first
      where
        by_number :
            (n : ℕ)
            → n ≡ 0
            → (if ltb 1 n then ok (d ∷ []) else elim (get_elem? (d ∷ []) n) [
              | none ↦ panic
              | some x ↦ update_from_dir_listing landed listing x >>= λ x'. ok (set (d ∷ []) n x')
            ])
              ≡ ok (updated landed listing d ∷ [])
        by_number zero e = rw updates refl
        by_number (suc n) e = absurd (omega (arith, e))

    takes_listings :
        process_directory_listings landed (listing ∷ []) (set_dir_outstanding false waiting)
        ≡ ok (record (set_dir_outstanding false waiting) {
          disk_info = numbered_disk.0 ∷ [];
          next_inode = numbered_disk.1;
        })
    unfolding process_directory_listings process_listings inode_disk_info number_disks
    takes_listings = rw (disk_is, takes_listing) refl

    takes_in : process_bg_response env.format_time landed response waiting ≡ ok refreshed
    unfolding process_bg_response process_response_type
    takes_in = rw takes_listings refl

    refreshed_disk : numbered_disk.0.disk_read_time ≡ some landed
    unfolding number_disk
    refreshed_disk = refl

    still_one : num_drives refreshed ≡ 1
    unfolding num_drives update_last_status
    still_one = one

    -- A mount of one drive asks for its directory, on an open channel, while no directory is under
    -- way; the processor runs, has the drive, and gets one listing, of drive 0, from it; and the
    -- directory is listed before the cache duration has passed. Then one operation is sent, the processor
    -- answers it with that listing, the mount takes the answer in without a panic, and the root lists,
    -- with nothing more sent, by name and in order, the control files of the disk, of which there is at
    -- least one, and the valid files of the listing, each name with the ending of the file's type.
    pub readdir-do_dir_sync :
        (moment later : ℕ) (closed again : Option String) (h : Handles) (p : Proc)
        (unit : CbmDriveUnit) (last : Mount) (view : ℕ → ℕ × Mount)
        → p.shutdown ≡ false
        → get_drive m.device_num p.service.drives ≡ ok unit
        → env.cbm.dir unit ≡ inl (listing ∷ [], status)
        → landed ≤ later
        → later - landed < timers.dir_cache
        → (do_dir_sync now none false m ≡ (ok tt, waiting, requested ∷ []))
          × ((process_operation env moment closed h in_time requested p).answer
              ≡ ok (OpResponseType.read_directory status (listing ∷ [])))
          × (after : Mount) × (lines : List DirLine) × (process_bg_response env.format_time landed
                response waiting
              ≡ ok after)
          × (readdir timers counts later again after last view fuse_root_id 0
              ≡ ok (reply lines, after, []))
          × (map line_name lines ≡ map name_of d.control_files ++ names_in listing.files)
    unfolding process_operation execute_operation execute new_operation update_last_status
    readdir-do_dir_sync moment later closed again h p unit last view runs driven dir order young = (
      requests,
      rw (runs, driven, dir) refl,
      refreshed,
      lines_from 0 (files numbered_disk.0),
      takes_in,
      readdir-files timers counts landed later again refreshed last view numbered_disk.0 still_one
          refl refreshed_disk order young,
      lines_from-names 0 (files numbered_disk.0)
          ∙ number_disk-names m.next_inode (updated landed listing d)
          ∙ ap (λ names. map name_of d.control_files ++ names)
              (cbm_files_from-names_in landed listing.files),
    )
