-- ===== src/File/Xattr.antt =====
-- `Xattr`, `XattrOps`, `DriveXattr` and `DiskXattr` of src/bin/server/file.rs.
use rs1541fs.Prelude.{
  ℕ, String, List, [], ◌∷◌, ◌++◌, Option, none, some, bytes, to_string, ◌==◌, string_eq,
  if◌then◌else◌,
}
use rs1541fs.Rs1541.{CbmStatus, CbmDirListing}

-- The trait `Xattr`; its `attr` is the name.
pub record Xattr {ℓ} (A : Type ℓ) : Type ℓ where
  pub name : A → String
  pub value : A → String

module _ {ℓ} {A : Type ℓ} (x : Xattr A) where
  -- `XattrOps::listxattr_from_vec`
  unfoldable pub listxattr_from_vec : List A → List ℕ
  listxattr_from_vec [] = []
  listxattr_from_vec (a ∷ xattrs) = bytes (x.name a) ++ (0 ∷ listxattr_from_vec xattrs)

  -- `XattrOps::getxattr_from_vec`
  unfoldable pub getxattr_from_vec : List A → String → Option (List ℕ)
  getxattr_from_vec [] n = none
  getxattr_from_vec (a ∷ xattrs) n =
      if x.name a == n then some (bytes (x.value a)) else getxattr_from_vec xattrs n

  -- `XattrOps::add_or_replace`
  unfoldable pub add_or_replace : List A → A → List A
  add_or_replace [] new = new ∷ []
  add_or_replace (a ∷ xattrs) new =
      if x.name a == x.name new then new ∷ xattrs else a ∷ add_or_replace xattrs new

  -- `XattrOps::remove`
  unfoldable pub remove : List A → String → Option A × List A
  remove [] n = (none, [])
  remove (a ∷ xattrs) n =
      let (found, rest) = remove xattrs n in
      if x.name a == n then (some a, xattrs) else (found, a ∷ rest)

pub data DriveXattr : Type 0 where
  device_number : ℕ → DriveXattr
  model description : String → DriveXattr
  num_drives : ℕ → DriveXattr
  fs_type fs_name mountpoint : String → DriveXattr
  mount_time : ℕ → DriveXattr
  last_status : CbmStatus → DriveXattr
  last_status_time : ℕ → DriveXattr
  last_error : CbmStatus → DriveXattr
  last_error_time : ℕ → DriveXattr
  dos_version fs1541_version : String → DriveXattr

unfoldable pub drive_xattr_name : DriveXattr → String
drive_xattr_name (device_number _) = "user.device.number"
drive_xattr_name (model _) = "user.device.model"
drive_xattr_name (description _) = "user.device.description"
drive_xattr_name (num_drives _) = "user.device.drives"
drive_xattr_name (fs_type _) = "user.mount.fs_type"
drive_xattr_name (fs_name _) = "user.mount.fs_name"
drive_xattr_name (mountpoint _) = "user.mount.mountpoint"
drive_xattr_name (mount_time _) = "user.mount.mount_time"
drive_xattr_name (last_status _) = "user.device.last_status.status"
drive_xattr_name (last_status_time _) = "user.device.last_status.time"
drive_xattr_name (last_error _) = "user.device.last_error.status"
drive_xattr_name (last_error_time _) = "user.device.last_error.tim"
drive_xattr_name (dos_version _) = "user.device.dos_version"
drive_xattr_name (fs1541_version _) = "user.1541fs.version"

pub data DiskXattr : Type 0 where
  header_name header_id : String → DiskXattr
  blocks_free blocks_used total_blocks : ℕ → DiskXattr
  last_dir_read : ℕ → DiskXattr

unfoldable pub disk_xattr_name : DiskXattr → String
disk_xattr_name (header_name _) = "user.disk.header_name"
disk_xattr_name (header_id _) = "user.disk.header_id"
disk_xattr_name (blocks_free _) = "user.disk.cbm_blocks.free"
disk_xattr_name (blocks_used _) = "user.disk.cbm_blocks.used"
disk_xattr_name (total_blocks _) = "user.disk.cbm_blocks.total"
disk_xattr_name (last_dir_read _) = "user.disk.last_dir_read"

-- chrono's `format` of a time in the local zone, with the pattern of the source.
module _ (format_time : ℕ → String) where
  unfoldable pub drive_xattr_value : DriveXattr → String
  drive_xattr_value (device_number n) = to_string n
  drive_xattr_value (model s) = s
  drive_xattr_value (description s) = s
  drive_xattr_value (num_drives n) = to_string n
  drive_xattr_value (fs_type s) = s
  drive_xattr_value (fs_name s) = s
  drive_xattr_value (mountpoint s) = s
  drive_xattr_value (mount_time t) = format_time t
  drive_xattr_value (last_status s) = s.to_string
  drive_xattr_value (last_status_time t) = format_time t
  drive_xattr_value (last_error s) = s.to_string
  drive_xattr_value (last_error_time t) = format_time t
  drive_xattr_value (dos_version s) = s
  drive_xattr_value (fs1541_version s) = s

  unfoldable pub disk_xattr_value : DiskXattr → String
  disk_xattr_value (header_name s) = s
  disk_xattr_value (header_id s) = s
  disk_xattr_value (blocks_free n) = to_string n
  disk_xattr_value (blocks_used n) = to_string n
  disk_xattr_value (total_blocks n) = to_string n
  disk_xattr_value (last_dir_read t) = format_time t

  -- `impl Xattr for DriveXattr`, `impl Xattr for DiskXattr`
  abbrev pub drive_xattr : Xattr DriveXattr
  drive_xattr = record { name = drive_xattr_name; value = drive_xattr_value }

  abbrev pub disk_xattr : Xattr DiskXattr
  disk_xattr = record { name = disk_xattr_name; value = disk_xattr_value }

-- `DriveXattr::new`; `version` is the package's version at build time.
unfoldable pub new_drive_xattrs :
    (version : String) (device : ℕ) (model description : String) (num_drives : ℕ)
    (fs_name mountpoint : String) (mount_time : ℕ) (dos_version : String)
    → List DriveXattr
new_drive_xattrs version d m s n f p t v =
    device_number d
    ∷ model m
    ∷ description s
    ∷ num_drives n
    ∷ fs_name f
    ∷ mountpoint p
    ∷ mount_time t
    ∷ dos_version v
    ∷ fs_type "1541fs"
    ∷ fs1541_version version
    ∷ []

-- `DiskXattr::new`
unfoldable pub new_disk_xattrs : String → String → ℕ → ℕ → ℕ → List DiskXattr
new_disk_xattrs name id free used total =
    header_name name ∷ header_id id ∷ blocks_free free ∷ blocks_used used ∷ total_blocks total ∷ []

-- `DiskXattr::from_dir_listing`
unfoldable pub from_dir_listing : ℕ → CbmDirListing → List DiskXattr
from_dir_listing now listing =
    header_name listing.header.name
    ∷ header_id listing.header.id
    ∷ blocks_free listing.blocks_free
    ∷ blocks_used listing.num_blocks_used_valid
    ∷ total_blocks listing.total_blocks
    ∷ last_dir_read now
    ∷ []
