-- ===== src/Validate.antt =====
-- src/lib/validate.rs, and `validate_mount_request` and `validate_unmount_request` of
-- src/bin/server/mount.rs. What the program asks of the operating system is the record `Host`; an
-- error of it is its text. `validate_device` is rs1541's, with `DeviceValidation::Required`.
pub mod Accepted
use Prim.Native.Nat.{bit_and}
use rs1541fs.Prelude.{
  ℕ, String, ◌<+>◌, ◌⊎◌, inl, inr, Bool, true, false, not, ◌&&◌, Option, none, some, is_some,
  is_none, ◌==◌, nat_eq, string_eq, if◌then◌else◌,
}
use rs1541fs.Error.{Error, rs1541, fs1541, validation, Result, ok, err, panic, ◌>>=◌, ◌>>◌}

pub record Metadata : Type 0 where
  pub mode : ℕ
  pub uid : ℕ
  pub gid : ℕ

pub record Host : Type 0 where
  pub is_absolute : String → Bool
  pub exists : String → Bool
  pub canonicalize : String → String ⊎ String
  pub is_dir : String → Bool
  pub has_entries : String → Bool ⊎ String
  pub metadata : String → Option Metadata
  pub getuid : ℕ
  pub getgid : ℕ
  pub validate_device : Option ℕ → Option ℕ ⊎ String

pub data ValidationType : Type 0 where
  mount unmount : ValidationType

abbrev pub failed : String → Error
failed detail = fs1541 "Mountpoint validation failed" (validation detail)

abbrev pub is_mount : ValidationType → Bool
is_mount mount = true
is_mount unmount = false

module _ (host : Host) where
  abbrev allows : Option Metadata → Bool
  allows none = false
  allows (some meta) =
      if host.getuid == meta.uid
      then not (bit_and meta.mode 0o200 == 0)
      else if host.getgid == meta.gid
      then not (bit_and meta.mode 0o020 == 0)
      else not (bit_and meta.mode 0o002 == 0)

  -- `has_write_permission`
  unfoldable pub has_write_permission : String → Bool
  has_write_permission path = allows (host.metadata path)

  abbrev canonical : String → String ⊎ String → Result String
  canonical path (inl vpath) = ok vpath
  canonical path (inr e) =
      err (failed ("Path " <+> path <+> " is not absolute, and can't canonicalize: " <+> e))

  -- The first part of `validate_mountpoint`: an absolute path.
  unfoldable pub absolute_path : String → Bool → Result String
  absolute_path path canonicalize =
      if not (host.is_absolute path) && not (host.exists path)
      then err (failed ("Path " <+> path <+> " does not exist"))
      else if host.is_absolute path
      then ok path
      else if canonicalize
      then canonical path (host.canonicalize path)
      else err (failed ("Path '" <+> path <+> "' must be absolute"))

  abbrev pub empty_or : String → Bool ⊎ String → Result (Unit {0})
  empty_or vpath (inl has_entries) =
      if has_entries then err (failed ("Mountpoint " <+> vpath <+> " is not empty")) else ok tt
  empty_or vpath (inr e) = err (failed ("Failed to read directory " <+> vpath <+> ": " <+> e))

  -- The second part: what the path leads to.
  unfoldable pub check_path : ValidationType → String → Result String
  unfolding has_write_permission
  check_path vtype vpath =
      if not (host.is_dir vpath)
      then err (failed ("Mountpoint " <+> vpath <+> " is not a directory"))
      else (if is_mount vtype then empty_or vpath (host.has_entries vpath) else ok tt)
        >> (if not (has_write_permission vpath)
            then err (failed ("No write permission for mountpoint " <+> vpath))
            else ok vpath)

  -- `validate_mountpoint`
  unfoldable pub validate_mountpoint : String → ValidationType → Bool → Result String
  unfolding absolute_path check_path
  validate_mountpoint path vtype canonicalize =
      absolute_path path canonicalize >>= λ vpath. check_path vtype vpath

  abbrev pub device_result : Option ℕ ⊎ String → Result (Option ℕ)
  device_result (inl d) = ok d
  device_result (inr e) = err (rs1541 "Device validation failed" e)

  -- `assert_eq!` on the validated device
  abbrev pub same_device : ℕ → Option ℕ → Result (Unit {0})
  same_device device none = panic
  same_device device (some d) = if d == device then ok tt else panic

  abbrev pub same_path : String → String → Result String
  same_path mountpoint rpath = if rpath == mountpoint then ok rpath else panic

  -- `validate_mount_request`; its flags are only logged.
  unfoldable pub validate_mount_request : String → ℕ → Result String
  unfolding validate_mountpoint
  validate_mount_request mountpoint device =
      (device_result (host.validate_device (some device)) >>= same_device device)
      >> (validate_mountpoint mountpoint mount false >>= same_path mountpoint)

  abbrev discard : Result String → Result (Unit {0})
  discard r = r >>= λ _. ok tt

  -- `validate_unmount_request`
  unfoldable pub validate_unmount_request : Option String → Option ℕ → Result (Unit {0})
  unfolding validate_mountpoint
  validate_unmount_request none none =
      err (fs1541 "Validation failure" (validation "Either mountpoint or device must be specified"))
  validate_unmount_request (some mountpoint) (some device) = err (
      fs1541 "Validation failure"
        (validation "For an unmount only one of mountpoint or device must be specified"))
  validate_unmount_request (some mountpoint) none =
      discard (validate_mountpoint mountpoint unmount false >>= same_path mountpoint)
  validate_unmount_request none (some device) =
      device_result (host.validate_device (some device)) >>= same_device device
