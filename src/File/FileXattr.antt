-- ===== src/File/FileXattr.antt =====
-- `FileXattr` of src/bin/server/file.rs, and the attributes of one file.
use rs1541fs.Prelude.{
  ℕ, String, Bool, true, false, List, [], ◌∷◌, ◌++◌, Option, none, some, length, to_string,
  if◌then◌else◌,
}
use rs1541fs.Rs1541.{valid_file}
use rs1541fs.File.Buffer.{Buffer}
use rs1541fs.File.Xattr.{Xattr, listxattr_from_vec, getxattr_from_vec}
use rs1541fs.File.Control.{RwType, rw_type, display_rw_type}
use rs1541fs.File.Cache.{FileCache}
use rs1541fs.File.Entry.{FileEntry, FileEntryType, cbm_file, control_file}
use rs1541fs.File.Entry.{inode as file_inode}

pub data CacheStatus : Type 0 where
  uncached in_progress complete : CacheStatus

unfoldable pub display_cache_status : CacheStatus → String
display_cache_status uncached = "Uncached"
display_cache_status in_progress = "In progress"
display_cache_status complete = "Complete"

pub data FileXattr : Type 0 where
  inode blocks : ℕ → FileXattr
  control_file_rw_type : RwType → FileXattr
  read_buffer_size write_buffer_size : ℕ → FileXattr
  cache_status : CacheStatus → FileXattr
  cache_size cache_start_time : ℕ → FileXattr
  cache_complete_time : Option ℕ → FileXattr
  last_device_read : ℕ → FileXattr
  cache_enabled : Bool → FileXattr

unfoldable pub file_xattr_name : FileXattr → String
file_xattr_name (inode _) = "user.file.inode"
file_xattr_name (control_file_rw_type _) = "user.file.control_file.rw_type"
file_xattr_name (read_buffer_size _) = "user.file.read_buffer.size"
file_xattr_name (write_buffer_size _) = "user.file.write_buffer.size"
file_xattr_name (blocks _) = "user.file.cbm_blocks.used"
file_xattr_name (cache_status _) = "user.file.cache.status"
file_xattr_name (cache_size _) = "user.file.cache.size"
file_xattr_name (cache_start_time _) = "user.file.cache.start_time"
file_xattr_name (cache_complete_time _) = "user.file.cache.complete_time"
file_xattr_name (last_device_read _) = "user.file.cache.last_device_read"
file_xattr_name (cache_enabled _) = "user.file.cache.enabled"

abbrev bool_text : Bool → String
bool_text true = "true"
bool_text false = "false"

-- The attributes that show the state of the cache.
abbrev cache_xattrs : Bool → Option FileCache → List FileXattr
cache_xattrs enabled (some c) =
    cache_status (if c.is_complete then complete else in_progress)
    ∷ cache_size (length c.contents)
    ∷ cache_start_time c.cache_start
    ∷ (elim c.cache_complete [ none ↦ [] | some t ↦ cache_complete_time (some t) ∷ [] ]
        ++ last_device_read c.last_device_read ∷ [])
cache_xattrs enabled none = if enabled then cache_status uncached ∷ [] else []

abbrev buffer_xattrs : (ℕ → FileXattr) → Option Buffer → List FileXattr
buffer_xattrs xattr none = []
buffer_xattrs xattr (some b) = xattr (length b.contents) ∷ []

abbrev native_xattrs : FileEntryType → List FileXattr
native_xattrs (control_file ctrl) = control_file_rw_type (rw_type ctrl) ∷ []
native_xattrs (cbm_file (valid_file _ _ n _)) = blocks n ∷ []
native_xattrs _ = []

abbrev is_cbm_file : FileEntryType → Bool
is_cbm_file (cbm_file _) = true
is_cbm_file _ = false

-- `FileXattr::from_file_entry`
unfoldable pub from_file_entry : FileEntry → List FileXattr
from_file_entry f =
    inode (file_inode f)
    ∷ (buffer_xattrs read_buffer_size f.read_buffer
        ++ (buffer_xattrs write_buffer_size f.write_buffer
            ++ (native_xattrs f.native
                ++ (cache_enabled (is_cbm_file f.native)
                    ∷ cache_xattrs (is_cbm_file f.native) f.cache))))

module _ (format_time : ℕ → String) where
  abbrev time_or_incomplete : Option ℕ → String
  time_or_incomplete none = "incomplete"
  time_or_incomplete (some t) = format_time t

  unfoldable pub file_xattr_value : FileXattr → String
  file_xattr_value (inode n) = to_string n
  file_xattr_value (control_file_rw_type t) = display_rw_type t
  file_xattr_value (read_buffer_size n) = to_string n
  file_xattr_value (write_buffer_size n) = to_string n
  file_xattr_value (blocks n) = to_string n
  file_xattr_value (cache_status s) = display_cache_status s
  file_xattr_value (cache_size n) = to_string n
  file_xattr_value (cache_start_time t) = format_time t
  file_xattr_value (last_device_read t) = format_time t
  file_xattr_value (cache_complete_time t) = time_or_incomplete t
  file_xattr_value (cache_enabled b) = bool_text b

  abbrev pub file_xattr : Xattr FileXattr
  file_xattr = record { name = file_xattr_name; value = file_xattr_value }

  -- `FileEntry::listxattrs`, `FileEntry::getxattr`
  unfoldable pub listxattrs : FileEntry → List ℕ
  listxattrs f = listxattr_from_vec file_xattr (from_file_entry f)

  unfoldable pub getxattr : FileEntry → String → Option (List ℕ)
  getxattr f name = getxattr_from_vec file_xattr (from_file_entry f) name
