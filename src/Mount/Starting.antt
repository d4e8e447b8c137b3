-- ===== src/Mount/Starting.antt =====
-- `mount`, `drive_init` and `retrieve_drive_info` of src/bin/server/mount.rs: starting a mount.
use rs1541fs.Prelude.{
  ℕ, ◌+◌, String, ◌<+>◌, Bool, false, ◌||◌, List, [], ◌∷◌, Option, some, is_some, to_string,
  if◌then◌else◌,
}
use rs1541fs.Error.{fs1541, operation, internal, Result, ok, err, panic, display}
use rs1541fs.Rs1541.{CbmStatus, CbmDriveUnit, CbmDeviceInfo, CbmErrorNumber}
use rs1541fs.Rs1541
use rs1541fs.Env.{Env}
use rs1541fs.Bg.{Operation}
use rs1541fs.Drives.{Drives, init_drive}
use rs1541fs.File.Xattr.{new_drive_xattrs}
use rs1541fs.Mount.State.{Mount, num_drives, fs_name}
use rs1541fs.Mount.Inodes.{create_disk_info}
use rs1541fs.Mount.Listings.{update_last_status}
use rs1541fs.Mount.Requests.{do_dir}

-- The errors that are no reason not to mount: the drive works, its disk cannot be read.
pub ignored_errors : List CbmErrorNumber
ignored_errors =
    Rs1541.read_error_block_header_not_found ∷ Rs1541.read_error_no_sync_character
    ∷ Rs1541.read_error_data_block_not_present ∷ Rs1541.read_error_checksum_error_in_data_block
    ∷ Rs1541.read_error_byte_decoding_error ∷ Rs1541.read_error_checksum_error_in_header
    ∷ Rs1541.disk_id_mismatch ∷ Rs1541.dos_mismatch ∷ Rs1541.drive_not_ready ∷ []

module _ (env : Env) (now : ℕ) where
  -- The loop over the statuses of the drive's mechanisms.
  unfoldable pub check_statuses : ℕ → Bool → List (Result CbmStatus) → Mount → Result Bool × Mount
  check_statuses drive_num succeeded [] m = (ok succeeded, m)
  check_statuses drive_num succeeded (ok status ∷ rest) m =
      check_statuses (drive_num + 1) (succeeded || status.is_ok) rest
        (update_last_status env.format_time now status m)
  check_statuses drive_num succeeded (err e ∷ rest) m = (
    err (
        fs1541
          ("Hit error initializing device "
            <+> to_string m.device_num
            <+> " drive unit "
            <+> to_string drive_num)
          (operation (display env.debug_duration e))),
    m,
  )
  check_statuses drive_num succeeded (panic ∷ rest) m = (panic, m)

  unfoldable pub check_init : Result (List (Result CbmStatus)) → Mount → Result Bool × Mount
  unfolding check_statuses
  check_init (ok []) m = (
    err (
        fs1541 ("Failed to initialize any drive units for device " <+> to_string m.device_num) (
          operation
            "init_drive() returned OK, but no status response(s) - perhas the device has no drives?")),
    m,
  )
  check_init (ok (status ∷ rest)) m = check_statuses 0 false (status ∷ rest) m
  check_init (err e) m = (err e, m)
  check_init panic m = (panic, m)

  -- `Mount::drive_init`
  unfoldable pub drive_init : Drives → Mount → Result Bool × Mount
  unfolding check_init
  drive_init drives m = check_init (init_drive env.cbm m.device_num ignored_errors drives) m

  -- `Mount::retrieve_drive_info` and the attributes of the drive.
  unfoldable pub describe : CbmDriveUnit → Mount → Mount
  describe unit m =
      let informed = record m { drive_info = some unit.device_info } in
      record informed {
        drive_xattrs =
            new_drive_xattrs env.version m.device_num unit.device_info.device_type.as_str
              unit.device_info.description (num_drives informed) (fs_name informed) m.mountpoint now
              unit.device_info.device_type.dos_version;
      }

  unfoldable pub finish_mount :
      Option String
      → CbmDriveUnit
      → Result Bool × Mount
      → Result (Unit {0}) × Mount × List Operation
  unfolding describe do_dir
  finish_mount closed unit (err e, m) = (err e, m, [])
  finish_mount closed unit (panic, m) = (panic, m, [])
  finish_mount closed unit (ok read_dir, m) =
      let described = create_disk_info now (describe unit m) in
      let (m', sent) = if read_dir then do_dir now closed described else (described, []) in
      (ok tt, m', sent)

  -- `Mount::mount`; `unit` is the drive unit that the mount was made with, `closed` the state of the
  -- channel to the background processor.
  unfoldable pub mount :
      Option String → CbmDriveUnit → Drives → Mount → Result (Unit {0}) × Mount × List Operation
  unfolding finish_mount drive_init
  mount closed unit drives m =
      if is_some m.fuser
      then (
        err (
            fs1541 "Mount failure"
              (internal ("Trying to mount an already mounted Mount object " <+> m.mountpoint))),
        m,
        [],
      )
      else finish_mount closed unit (drive_init drives m)
