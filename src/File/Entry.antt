-- ===== src/File/Entry.antt =====
-- `FuseFile` and `FileEntry` of src/bin/server/file.rs.
pub mod Access
use Prim.Native.Nat.{bit_and}
use rs1541fs.Prelude.{
  ℕ, ◌+◌, ◌/◌, String, ◌<+>◌, Bool, not, ◌||◌, List, [], ◌∷◌, Option, none, some, length, to_string,
  ◌==◌, nat_eq, if◌then◌else◌,
}
use rs1541fs.Error.{
  Error, fs1541, is_dir, read_only, write_only, read_or_write_only, file_access, Result, ok, err,
  panic,
}
use rs1541fs.Rs1541.{
  CbmFileType, prg, seq, usr, rel, unknown, CbmFileEntry, valid_file, invalid_file,
}
use rs1541fs.File.Buffer.{Buffer}
use rs1541fs.File.Buffer
use rs1541fs.File.Control.{
  ControlFilePurpose, exec_drive_command, exec_dir_refresh, exec_format_drive, RwType, rw_type,
  filename, size, permissions,
}
use rs1541fs.File.Cache.{FileCache}

-- `fuser::FUSE_ROOT_ID`
abbrev pub fuse_root_id : ℕ
fuse_root_id = 1

pub data FileEntryType : Type 0 where
  cbm_file : CbmFileEntry → FileEntryType
  control_file : ControlFilePurpose → FileEntryType
  directory : (drive_num : ℕ) → FileEntryType

-- `FuseFile::fuse_suffix`
unfoldable pub fuse_suffix : CbmFileType → String
fuse_suffix prg = ".prg"
fuse_suffix seq = ".seq"
fuse_suffix usr = ".usr"
fuse_suffix rel = ".rel"
fuse_suffix unknown = ""

pub record FuseFile : Type 0 where
  pub ino : ℕ
  pub name : String
  pub size : ℕ
  pub permissions : ℕ
  pub modified_time : ℕ
  pub created_time : ℕ

pub record FileEntry : Type 0 where
  pub fuse : FuseFile
  pub native : FileEntryType
  pub read_buffer : Option Buffer
  pub write_buffer : Option Buffer
  pub cache : Option FileCache

-- An entry as its constructors leave it: no buffers and no cache.
abbrev plain : FuseFile → FileEntryType → FileEntry
plain fuse native = record {
  fuse = fuse;
  native = native;
  read_buffer = none;
  write_buffer = none;
  cache = none;
}

abbrev fuse_file : ℕ → String → ℕ → ℕ → ℕ → FuseFile
fuse_file ino name size permissions now = record {
  ino = ino;
  name = name;
  size = size;
  permissions = permissions;
  modified_time = now;
  created_time = now;
}

-- `FileEntry::from_directory`
unfoldable pub from_directory : ℕ → ℕ → ℕ → FileEntry
from_directory now drive_num ino =
    plain (fuse_file ino (to_string drive_num) 0 0o555 now) (directory drive_num)

-- `FileEntry::from_control_file_purpose`
unfoldable pub from_control_file_purpose : ℕ → ControlFilePurpose → ℕ → FileEntry
from_control_file_purpose now purpose ino =
    plain (fuse_file ino (filename purpose) (size purpose) (permissions purpose) now)
      (control_file purpose)

abbrev size_or_zero : Option ℕ → ℕ
size_or_zero none = 0
size_or_zero (some n) = n

-- `FileEntry::from_cbm_file_entry`
unfoldable pub from_cbm_file_entry : ℕ → CbmFileEntry → ℕ → Option FileEntry
unfolding fuse_suffix
from_cbm_file_entry now invalid_file ino = none
from_cbm_file_entry now (valid_file file_type name blocks max_size) ino = some (
    plain (fuse_file ino (name <+> fuse_suffix file_type) (size_or_zero max_size) 0o444 now)
      (cbm_file (valid_file file_type name blocks max_size)))

-- `FileEntry::root`
unfoldable pub root : ℕ → FileEntry
root now = plain (fuse_file fuse_root_id "" 0 0o755 now) (directory 255)

-- `FileEntry::inode`, `FileEntry::set_inode`
abbrev pub inode : FileEntry → ℕ
inode f = f.fuse.ino

abbrev pub set_inode : FileEntry → ℕ → FileEntry
set_inode f ino = record f { fuse = record f.fuse { ino = ino } }

pub data FileType : Type 0 where
  regular_file directory : FileType

abbrev file_type_of : FileEntryType → FileType
file_type_of (cbm_file _) = FileType.regular_file
file_type_of (control_file _) = FileType.regular_file
file_type_of (FileEntryType.directory _) = FileType.directory

-- `FileEntry::fuser_file_type`
unfoldable pub fuser_file_type : FileEntry → FileType
fuser_file_type f = file_type_of f.native

-- `fuser::FileAttr`
pub record FileAttr : Type 0 where
  pub ino : ℕ
  pub size : ℕ
  pub blocks : ℕ
  pub atime : ℕ
  pub mtime : ℕ
  pub ctime : ℕ
  pub crtime : ℕ
  pub kind : FileType
  pub perm : ℕ
  pub nlink : ℕ
  pub uid : ℕ
  pub gid : ℕ
  pub rdev : ℕ
  pub flags : ℕ
  pub blksize : ℕ

-- `impl From<&FileEntry> for FileAttr`; `uid` is the answer of `getuid`, which is asked twice.
unfoldable pub file_attr : (now uid : ℕ) → FileEntry → FileAttr
unfolding fuser_file_type
file_attr now uid f = record {
  ino = f.fuse.ino;
  size = f.fuse.size;
  blocks = (f.fuse.size + 511) / 512;
  atime = now;
  mtime = f.fuse.modified_time;
  ctime = f.fuse.created_time;
  crtime = f.fuse.created_time;
  kind = fuser_file_type f;
  perm = f.fuse.permissions;
  nlink = 1;
  uid = uid;
  gid = uid;
  rdev = 0;
  flags = 0;
  blksize = 512;
}
