-- ===== src/Mount/Requests.antt =====
-- `do_dir`, `do_dir_sync`, `read_file_sync` and `send_sync_to_bg_proc` of src/bin/server/mount.rs.
-- The channel to the background processor is what it answers (an error text, once it is closed) and
-- the operations that are sent on it, in order.
use rs1541fs.Prelude.{
  ℕ, String, ◌<+>◌, Bool, true, false, not, ◌||◌, ◌&&◌, List, [], ◌∷◌, Option, none, some,
  to_string, if◌then◌else◌,
}
use rs1541fs.Error.{Error, fs1541, operation, internal, no_entry, Result, ok, err, panic}
use rs1541fs.Rs1541.{valid_file, invalid_file}
use rs1541fs.Bg.{OpType, read_directory, read_file, read_file_cache, Operation, new_operation}
use rs1541fs.File.Cache
use rs1541fs.File.Cache.{FileCache}
use rs1541fs.File.Entry.{FileEntry, cbm_file, control_file, directory}
use rs1541fs.Mount.State.{Mount, set_dir_outstanding}
use rs1541fs.Mount.Lookup.{file_by_inode, change_file}

-- `send_sync_to_bg_proc`
unfoldable pub send_sync_to_bg_proc : Option String → Operation → Result (Unit {0}) × List Operation
send_sync_to_bg_proc none op = (ok tt, op ∷ [])
send_sync_to_bg_proc (some e) op = (err (fs1541 "Failed to send operation" (operation e)), [])

abbrev dir_operation : ℕ → Mount → Operation
dir_operation now m = new_operation now (read_directory m.device_num) m.bg_rsp_tx none

abbrev outstanding_if : Result (Unit {0}) → Mount → Mount
outstanding_if (ok _) m = set_dir_outstanding true m
outstanding_if _ m = m

-- `Mount::do_dir`; a failed send is only logged.
unfoldable pub do_dir : ℕ → Option String → Mount → Mount × List Operation
unfolding send_sync_to_bg_proc
do_dir now closed m =
    if not m.dir_outstanding
    then (let (result, sent) = send_sync_to_bg_proc closed (dir_operation now m) in
        (outstanding_if result m, sent))
    else (m, [])

-- `Mount::do_dir_sync`; its drive number is not used.
unfoldable pub do_dir_sync :
    ℕ → Option String → (force : Bool) → Mount → Result (Unit {0}) × Mount × List Operation
unfolding send_sync_to_bg_proc
do_dir_sync now closed force m =
    if force || not m.dir_outstanding
    then (let (result, sent) = send_sync_to_bg_proc closed (dir_operation now m) in
        (result, outstanding_if result m, sent))
    else (ok tt, m, [])

abbrev not_readable : String → String → Error
not_readable what name =
    fs1541 ("Shouldn't be asking bg processor to read " <+> what) (internal name)

-- The file's name on the disk, or why it cannot be read.
unfoldable pub device_path : FileEntry → Result String
device_path f = elim f.native [
  | cbm_file (valid_file _ name _ _) ↦ ok name
  | cbm_file invalid_file ↦ err (not_readable "an invalid CBM file" f.fuse.name)
  | directory _ ↦ err (not_readable "a directory file" f.fuse.name)
  | control_file _ ↦ err (not_readable "a control file" f.fuse.name)
]

-- A read of the file is in the cache that is not complete.
abbrev pub in_progress : Option FileCache → Bool
in_progress none = false
in_progress (some c) = not c.is_complete

abbrev pub set_cache : Option FileCache → FileEntry → FileEntry
set_cache c f = record f { cache = c }

abbrev pub read_op : ℕ → String → ℕ → Bool → OpType
read_op device path ino cache =
    if not cache then read_file device path ino else read_file_cache device path ino

-- The old cache is dropped before the send, and a new one made after it.
abbrev cache_after : ℕ → Result (Unit {0}) → Option FileCache
cache_after now (ok _) = some (Cache.new now)
cache_after now _ = none

unfoldable pub request_file :
    ℕ
    → Option String
    → ℕ
    → Bool
    → Mount
    → FileEntry
    → Result String
    → Result (Unit {0}) × Mount × List Operation
unfolding send_sync_to_bg_proc
request_file now closed ino cache m f panic = (panic, m, [])
request_file now closed ino cache m f (err e) = (err e, m, [])
request_file now closed ino cache m f (ok path) =
    if in_progress f.cache && cache
    then (ok tt, m, [])
    else let (result, sent) =
        send_sync_to_bg_proc closed
          (new_operation now (read_op m.device_num path ino cache) m.bg_rsp_tx none) in
      (result, change_file ino (set_cache (cache_after now result)) m, sent)

-- `Mount::read_file_sync`
unfoldable pub read_file_sync :
    ℕ
    → Option String
    → (inode : ℕ) → (cache : Bool) → Mount
    → Result (Unit {0}) × Mount × List Operation
unfolding file_by_inode device_path request_file
read_file_sync now closed ino cache m = elim (file_by_inode m ino) [
  | none ↦ (err (fs1541 "File not found" (no_entry ("Inode not found " <+> to_string ino))), m, [])
  | some f ↦ request_file now closed ino cache m f (device_path f)
]
