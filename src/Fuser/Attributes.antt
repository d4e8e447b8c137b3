-- ===== src/Fuser/Attributes.antt =====
-- `listxattr` and `getxattr` of src/bin/server/fusermount.rs.
use rs1541fs.Prelude.{
  ℕ, String, List, ◌++◌, Option, none, some, or_else, leb, length, ◌==◌, nat_eq, ◌%◌, ◌^◌,
  if◌then◌else◌,
}
use rs1541fs.Error.{enoent, enodata, erange, Result, ok, ◌>>=◌}
use rs1541fs.File.Xattr.{listxattr_from_vec, getxattr_from_vec, drive_xattr, disk_xattr}
use rs1541fs.File.Entry.{FileEntry, FileEntryType, directory, fuse_root_id}
use rs1541fs.File.FileXattr.{listxattrs, getxattr as entry_getxattr}
use rs1541fs.Mount.State.{Mount, num_drives, disk_xattrs}
use rs1541fs.Mount.Lookup.{file_by_inode}
use rs1541fs.Fuser.{Reply, reply, error}

-- A size or the bytes themselves.
pub data XattrReply : Type 0 where
  size : ℕ → XattrReply
  value : List ℕ → XattrReply

-- How both calls answer with what they found, by the room that the caller has. The length is cut to
-- a u32.
unfoldable pub sized : ℕ → List ℕ → Reply XattrReply
sized room found =
    if room == 0
    then reply (size (length found % 2 ^ 32))
    else if leb (length found % 2 ^ 32) room
    then reply (value found)
    else error erange

abbrev pub answered : ℕ → Option (List ℕ) → Reply XattrReply
answered room none = error enodata
answered room (some v) = sized room v

module _ (format_time : ℕ → String) where
  abbrev pub disk_list : Mount → ℕ → Result (List ℕ)
  disk_list m drive_num =
      disk_xattrs m drive_num >>= λ xattrs. ok (listxattr_from_vec (disk_xattr format_time) xattrs)

  abbrev pub entry_list : Mount → FileEntry → FileEntryType → Result (List ℕ)
  entry_list m f (directory drive_num) =
      disk_list m drive_num >>= λ names. ok (listxattrs format_time f ++ names)
  entry_list m f _ = ok (listxattrs format_time f)

  abbrev pub list_found : Mount → ℕ → Option FileEntry → Result (Reply XattrReply)
  list_found m room none = ok (error enoent)
  list_found m room (some f) = entry_list m f f.native >>= λ names. ok (sized room names)

  abbrev pub root_list : Mount → Result (List ℕ)
  root_list m =
      let drive = listxattr_from_vec (drive_xattr format_time) m.drive_xattrs in
      if num_drives m == 1 then (disk_list m 0 >>= λ names. ok (drive ++ names)) else ok drive

  -- `FuserMount::listxattr`
  unfoldable pub listxattr : Mount → ℕ → ℕ → Result (Reply XattrReply)
  unfolding sized
  listxattr m ino room =
      if ino == fuse_root_id
      then (root_list m >>= λ names. ok (sized room names))
      else list_found m room (file_by_inode m ino)

  abbrev pub disk_get : Mount → ℕ → String → Result (Option (List ℕ))
  disk_get m drive_num name = disk_xattrs m drive_num >>= λ xattrs.
      ok (getxattr_from_vec (disk_xattr format_time) xattrs name)

  abbrev pub entry_get : Mount → FileEntry → String → FileEntryType → Result (Option (List ℕ))
  entry_get m f name (directory drive_num) =
      disk_get m drive_num name >>= λ v. ok (or_else v (entry_getxattr format_time f name))
  entry_get m f name _ = ok (entry_getxattr format_time f name)

  -- The disk's attributes are asked only if the drive has not the attribute.
  abbrev pub root_get : Mount → String → Option (List ℕ) → Result (Option (List ℕ))
  root_get m name (some v) = ok (some v)
  root_get m name none = if num_drives m == 1 then disk_get m 0 name else ok none

  abbrev pub get_found : Mount → String → ℕ → Option FileEntry → Result (Reply XattrReply)
  get_found m name room none = ok (error enoent)
  get_found m name room (some f) = entry_get m f name f.native >>= λ v. ok (answered room v)

  -- `FuserMount::getxattr`; `none` is a name that is not UTF-8.
  unfoldable pub getxattr : Mount → ℕ → Option String → ℕ → Result (Reply XattrReply)
  unfolding sized
  getxattr m ino none room = ok (error enodata)
  getxattr m ino (some name) room =
      if ino == fuse_root_id
      then (root_get m name (getxattr_from_vec (drive_xattr format_time) m.drive_xattrs name)
          >>= λ v. ok (answered room v))
      else get_found m name room (file_by_inode m ino)
