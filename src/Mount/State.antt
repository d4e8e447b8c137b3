-- ===== src/Mount/State.antt =====
-- The fields of `Mount` in src/bin/server/mount.rs and the functions that only read them. The shared
-- handles (`cbm`, `drive_mgr`, `drive_unit`, the channel to the background processor) and the unused
-- `directory_cache` are not fields: what is sent is an output. A number identifies a session, a
-- thread, a channel or a shared object.
use rs1541fs.Prelude.{
  ℕ, zero, suc, ◌+◌, ◌^◌, String, ◌<+>◌, Bool, true, false, List, [], Option, none, some, is_some,
  is_none, ltb, leb, get_elem?, to_string, if◌then◌else◌, ◌-◌, ◌||◌,
}
use rs1541fs.Error.{fs1541, internal, Duration, Result, ok, err, panic}
use rs1541fs.Rs1541.{CbmDeviceInfo}
use rs1541fs.File.Xattr.{DriveXattr, DiskXattr}
use rs1541fs.File.Entry.{FileEntry, fuse_root_id}
use rs1541fs.File.DiskInfo.{DiskInfo, files}

-- `FIRST_FILE_INO`: the first 256 inodes are for disk directories.
abbrev pub first_file_ino : ℕ
first_file_ino = 2 ^ 8

pub record Mount : Type 0 where
  pub device_num : ℕ
  pub mountpoint : String
  pub dummy_formats : Bool
  pub bg_rsp_tx : ℕ
  pub bg_rsp_rx : Option ℕ
  pub fuser : Option ℕ
  pub next_inode : ℕ
  pub shared_self : Option ℕ
  pub bg_rsp_handle : Option ℕ
  pub dir_outstanding : Bool
  pub drive_info : Option CbmDeviceInfo
  pub drive_xattrs : List DriveXattr
  pub disk_info : List DiskInfo

-- `Mount::new`; `channel` identifies the channel that it makes for the responses.
unfoldable pub new :
    (device_num : ℕ) (mountpoint : String) (dummy_formats : Bool) (channel : ℕ) → Mount
new device_num mountpoint dummy_formats channel = record {
  device_num = device_num;
  mountpoint = mountpoint;
  dummy_formats = dummy_formats;
  bg_rsp_tx = channel;
  bg_rsp_rx = some channel;
  fuser = none;
  next_inode = first_file_ino;
  shared_self = none;
  bg_rsp_handle = none;
  dir_outstanding = false;
  drive_info = none;
  drive_xattrs = [];
  disk_info = [];
}

-- `Mount::allocate_inode`. The u64 would wrap after 2 ^ 64 inodes.
unfoldable pub allocate_inode : Mount → ℕ × Mount
allocate_inode m = (m.next_inode, record m { next_inode = m.next_inode + 1 })

-- `Mount::num_drives`
abbrev drives_of : Option CbmDeviceInfo → ℕ
drives_of none = 0
drives_of (some info) = info.device_type.num_disk_drives

unfoldable pub num_drives : Mount → ℕ
num_drives m = drives_of m.drive_info

-- `Mount::fs_name`: the suffix `_d0_d1…` for more than one drive.
drive_suffix : ℕ → ℕ → String
drive_suffix zero ii = ""
drive_suffix (suc n) ii = "_d" <+> to_string ii <+> drive_suffix n (ii + 1)

abbrev base_name : Option CbmDeviceInfo → String
base_name none = "cbm"
base_name (some info) = info.device_type.to_fs_name_lowercase

unfoldable pub fs_name : Mount → String
unfolding drive_suffix num_drives
fs_name m =
    base_name m.drive_info
    <+> "_u"
    <+> to_string m.device_num
    <+> (if ltb 1 (num_drives m) then drive_suffix (num_drives m) 0 else "")

-- `Mount::get_drive_ino`
abbrev pub get_drive_ino : ℕ → ℕ
get_drive_ino drive_num = drive_num + fuse_root_id + 1

-- The `Display` text of `Mount`.
unfoldable pub display_mount : Mount → String
display_mount m =
    "Mount { device_num: " <+> to_string m.device_num <+> ", path: " <+> m.mountpoint <+> " }"

-- `Mount::unmount`
unfoldable pub unmount : Mount → Mount
unmount m = record m { bg_rsp_handle = none; shared_self = none; fuser = none }

-- `Mount::update_fuser`
unfoldable pub update_fuser : ℕ → Mount → Mount
update_fuser session m = record m { fuser = some session }

-- `Mount::set_shared_self`
unfoldable pub set_shared_self : ℕ → Mount → Result (Unit {0}) × Mount
set_shared_self shared m =
    if is_some m.shared_self
    then (
      err (fs1541 "Failed to set Mount shared self" (internal "Mount shared self already exists")),
      m,
    )
    else (ok tt, record m { shared_self = some shared })

-- `Mount::create_bg_response_thread`; `thread` identifies the thread that it spawns.
unfoldable pub create_bg_response_thread : ℕ → Mount → Result (Unit {0}) × Mount
create_bg_response_thread thread m =
    if is_none m.shared_self || is_none m.bg_rsp_rx
    then (
      err (
          fs1541 "Cannot create Mount BG processor response thread"
            (internal "Missing either Mount shared self or BG response receiver, or both")),
      m,
    )
    else if is_some m.bg_rsp_handle
    then (
      err (fs1541 "Cannot create Mount BG processor response thread" (internal "Already exists")),
      m,
    )
    else (ok tt, record m { bg_rsp_rx = none; bg_rsp_handle = some thread })

-- `Mount::set_dir_outstanding`
abbrev pub set_dir_outstanding : Bool → Mount → Mount
set_dir_outstanding outstanding m = record m { dir_outstanding = outstanding }

abbrev pub files_of : Option DiskInfo → Result (List FileEntry)
files_of none = panic
files_of (some d) = ok (files d)

-- `Mount::get_drive_files`; an index past the disks panics.
unfoldable pub get_drive_files : Mount → ℕ → Result (List FileEntry)
unfolding num_drives files
get_drive_files m drive_num =
    if ltb drive_num (num_drives m) then files_of (get_elem? m.disk_info drive_num) else ok []

abbrev pub dir_of : Option DiskInfo → Result (Option FileEntry)
dir_of none = panic
dir_of (some d) = ok d.disk_dir

-- `Mount::get_drive_dir`
unfoldable pub get_drive_dir : Mount → ℕ → Result (Option FileEntry)
unfolding num_drives
get_drive_dir m drive_num =
    if ltb drive_num (num_drives m) then dir_of (get_elem? m.disk_info drive_num) else ok none

abbrev xattrs_of : Option DiskInfo → Result (List DiskXattr)
xattrs_of none = panic
xattrs_of (some d) = ok d.xattrs

-- `Mount::disk_xattrs`
unfoldable pub disk_xattrs : Mount → ℕ → Result (List DiskXattr)
disk_xattrs m drive_num = xattrs_of (get_elem? m.disk_info drive_num)

abbrev pub is_stale : ℕ → Duration → Option ℕ → Bool
is_stale now cache_duration none = true
is_stale now cache_duration (some read_time) =
    if leb read_time now then leb cache_duration (now - read_time) else true

abbrev stale_disk : ℕ → Duration → Option DiskInfo → Result Bool
stale_disk now cache_duration none = panic
stale_disk now cache_duration (some d) = ok (is_stale now cache_duration d.disk_read_time)

-- `Mount::should_refresh_dir`
unfoldable pub should_refresh_dir : ℕ → Mount → ℕ → Duration → Result Bool
unfolding num_drives
should_refresh_dir now m drive_num cache_duration =
    if leb (num_drives m) drive_num
    then ok false
    else stale_disk now cache_duration (get_elem? m.disk_info drive_num)
