-- ===== src/File/DiskInfo.antt =====
-- `DiskInfo` of src/bin/server/file.rs.
use rs1541fs.Prelude.{ℕ, List, [], ◌∷◌, ◌++◌, map, Option, none, some}
use rs1541fs.Error.{Result, ok, panic}
use rs1541fs.Rs1541.{CbmDiskHeader, CbmDirListing, CbmFileEntry}
use rs1541fs.File.Xattr.{DiskXattr, from_dir_listing}
use rs1541fs.File.Control.{purposes}
use rs1541fs.File.Entry.{FileEntry, from_directory, from_control_file_purpose, from_cbm_file_entry}

pub record DiskInfo : Type 0 where
  pub drive_num : ℕ
  pub header : Option CbmDiskHeader
  pub blocks_free : Option ℕ
  pub disk_dir : Option FileEntry
  pub control_files : List FileEntry
  pub cbm_files : List FileEntry
  pub xattrs : List DiskXattr
  pub disk_read_time : Option ℕ

-- `DiskInfo::control_files`
unfoldable pub new_control_files : ℕ → List FileEntry
new_control_files now = map (λ purpose. from_control_file_purpose now purpose 0) purposes

-- `DiskInfo::cbm_files_from_dir_listing`
unfoldable pub cbm_files_from : ℕ → List CbmFileEntry → List FileEntry
cbm_files_from now [] = []
cbm_files_from now (file ∷ files) = elim (from_cbm_file_entry now file 0) [
  | none ↦ cbm_files_from now files
  | some f ↦ f ∷ cbm_files_from now files
]

-- `DiskInfo::new`
unfoldable pub new : ℕ → ℕ → DiskInfo
unfolding new_control_files
new now drive_num = record {
  drive_num = drive_num;
  header = none;
  blocks_free = none;
  disk_dir = none;
  control_files = new_control_files now;
  cbm_files = [];
  xattrs = [];
  disk_read_time = none;
}

-- `DiskInfo::add_disk_dir`
unfoldable pub add_disk_dir : ℕ → DiskInfo → DiskInfo
add_disk_dir now d = record d { disk_dir = some (from_directory now d.drive_num 0) }

abbrev pub updated : ℕ → CbmDirListing → DiskInfo → DiskInfo
updated now listing d = record d {
  header = some listing.header;
  blocks_free = some listing.blocks_free;
  cbm_files = cbm_files_from now listing.files;
  xattrs = from_dir_listing now listing;
  disk_read_time = some now;
}

-- `DiskInfo::update_from_dir_listing`, with its assertion
unfoldable pub update_from_dir_listing : ℕ → CbmDirListing → DiskInfo → Result DiskInfo
update_from_dir_listing now listing d = elim d.control_files [
  | [] ↦ panic
  | f ∷ fs ↦ ok (updated now listing d)
]

-- `DiskInfo::files`
unfoldable pub files : DiskInfo → List FileEntry
files d = d.control_files ++ d.cbm_files
