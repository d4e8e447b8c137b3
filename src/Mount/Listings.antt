-- ===== src/Mount/Listings.antt =====
-- `process_directory_listings` and `update_last_status` of src/bin/server/mount.rs.
use rs1541fs.Prelude.{ℕ, String, List, [], ◌∷◌, none, some, get_elem?, set, ltb, if◌then◌else◌}
use rs1541fs.Error.{Result, ok, panic, ◌>>=◌}
use rs1541fs.Rs1541.{CbmStatus, CbmDirListing}
use rs1541fs.File.Xattr.{
  DriveXattr, last_status, last_status_time, last_error, last_error_time, drive_xattr,
  add_or_replace,
}
use rs1541fs.File.DiskInfo.{DiskInfo, update_from_dir_listing}
use rs1541fs.Mount.State.{Mount}
use rs1541fs.Mount.Inodes.{inode_disk_info}

-- One turn of the loop. `self.disk_info[drive_num]` panics past the end.
unfoldable pub process_listing : ℕ → CbmDirListing → List DiskInfo → Result (List DiskInfo)
process_listing now listing disks =
    if ltb 1 listing.header.drive_number
    then ok disks
    else elim (get_elem? disks listing.header.drive_number) [
      | none ↦ panic
      | some d ↦ update_from_dir_listing now listing d >>= λ d'.
          ok (set disks listing.header.drive_number d')
    ]

unfoldable pub process_listings : ℕ → List CbmDirListing → List DiskInfo → Result (List DiskInfo)
process_listings now [] disks = ok disks
process_listings now (listing ∷ listings) disks =
    process_listing now listing disks >>= λ disks'. process_listings now listings disks'

-- `Mount::process_directory_listings`
unfoldable pub process_directory_listings : ℕ → List CbmDirListing → Mount → Result Mount
process_directory_listings now listings m = process_listings now listings m.disk_info >>= λ disks.
    ok (inode_disk_info (record m { disk_info = disks }))

module _ (format_time : ℕ → String) where
  abbrev put : List DriveXattr → DriveXattr → List DriveXattr
  put = add_or_replace (drive_xattr format_time)

  -- `Mount::update_last_status`
  unfoldable pub update_last_status : ℕ → CbmStatus → Mount → Mount
  update_last_status now status m =
      let shown = put (put m.drive_xattrs (last_status status)) (last_status_time now) in
      record m {
        drive_xattrs =
            if status.is_ok
            then shown
            else put (put shown (last_error status)) (last_error_time now);
      }
