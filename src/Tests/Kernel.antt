-- ===== src/Tests/Kernel.antt =====
-- What the kernel gets: reads, waits and attributes of one file.
use rs1541fs.Prelude.{
  ℕ, ◌≡◌, refl, inl, [], ◌∷◌, Option, none, some, true, arith, to_string, List, String, All, bytes,
  ◌++◌,
}
use rs1541fs.Error.{ok}
use rs1541fs.Bg.{OpResponseType}
use rs1541fs.File.Cache.{FileCache}
use rs1541fs.File.DiskInfo.{DiskInfo}
use rs1541fs.File.Entry.{FileEntry, cbm_file, fuse_root_id}
use rs1541fs.File.Xattr.{
  listxattr_from_vec, getxattr_from_vec, model, drive_xattr_name, drive_xattr_value,
}
use rs1541fs.Mount.State.{Mount, num_drives}
use rs1541fs.Mount.Lookup.{file_by_inode, file_on_disks, file_on_disk}
use rs1541fs.Mount.Responses.{process_bg_response}
use rs1541fs.Fuser.{Timers, Counts, reply}
use rs1541fs.Fuser.Attributes.{size, value, sized, listxattr, getxattr}
use rs1541fs.Fuser.Reading.{sees_data, wait_for_file_read}
use rs1541fs.Fuser.Laws.Waiting.{Waits, wait_for_file_read-Waits}
use rs1541fs.Fuser.Laws.Reads.{process_bg_response-sees_data}
use rs1541fs.Fuser.Laws.Sizes.{KeepsSize, getxattr-KeepsSize}
use rs1541fs.Fuser.Laws.Names.{terminated, listxattr-getxattr}
use rs1541fs.Tests.Fixtures.{game, good_status, informed_mount}

abbrev pub timers : Timers
timers = record {
  dir_cache = 10000;
  file_cache = 60000;
  dir_read = 10000;
  file_read = 30000;
  dir_read_sleep = 100;
  file_read_sleep = 100;
}

abbrev pub counts : Counts
counts = record { dir_check = 100; file_check = 300 }

abbrev pub game_file : Option FileCache → FileEntry
game_file c = record {
  fuse = record {
    ino = 300;
    name = "game.prg";
    size = 508;
    permissions = 0o444;
    modified_time = 0;
    created_time = 0;
  };
  native = cbm_file game;
  read_buffer = none;
  write_buffer = none;
  cache = c;
}

abbrev cached : FileCache
cached = record {
  contents = 1 ∷ 2 ∷ 3 ∷ 4 ∷ [];
  is_complete = true;
  cache_start = 50;
  cache_complete = some 60;
  last_device_read = 60;
}

abbrev disk_with : Option FileCache → DiskInfo
disk_with c = record {
  drive_num = 0;
  header = none;
  blocks_free = none;
  disk_dir = none;
  control_files = [];
  cbm_files = game_file c ∷ [];
  xattrs = [];
  disk_read_time = some 40;
}

abbrev pub mount_with : Option FileCache → Mount
mount_with c = record informed_mount {
  drive_xattrs = model "4040" ∷ [];
  disk_info = disk_with c ∷ [];
}

pub found_game : (c : Option FileCache) → file_by_inode (mount_with c) 300 ≡ some (game_file c)
unfolding file_by_inode file_on_disks file_on_disk
found_game c = refl

abbrev same_view : Option FileCache → ℕ → ℕ × Mount
same_view c count = (100, mount_with c)

wait_for_file_read-Waits_example :
    Waits timers
      (same_view (some cached))
      300
      3
      0
      (wait_for_file_read timers (same_view (some cached)) 300 3 0)
wait_for_file_read-Waits_example = wait_for_file_read-Waits timers (same_view (some cached)) 300 3

process_bg_response-sees_data_example :
    (m' : Mount) × (process_bg_response to_string 200
        (record {
          rsp = inl (OpResponseType.read_file 8 "game" 300 good_status (5 ∷ 6 ∷ []));
          stream = none;
        })
        (mount_with none)
      ≡ ok m')
    × (sees_data timers 300 (300, m') ≡ some (5 ∷ 6 ∷ []))
process_bg_response-sees_data_example =
    process_bg_response-sees_data to_string timers 200 300 8 300 "game" good_status (5 ∷ 6 ∷ [])
      none (mount_with none) (game_file none) (found_game none) refl (omega arith) (omega arith)

-- "user.device.model" and its 0.

get_size :
    getxattr to_string (mount_with none) fuse_root_id (some "user.device.model") 0
    ≡ ok (reply (size 4))
unfolding getxattr sized getxattr_from_vec drive_xattr_name drive_xattr_value num_drives
get_size = refl

getxattr-KeepsSize_example :
    KeepsSize
      (λ room. getxattr to_string (mount_with none) fuse_root_id (some "user.device.model") room)
      4
getxattr-KeepsSize_example =
    getxattr-KeepsSize to_string (mount_with none) fuse_root_id 4 (some "user.device.model")
      get_size

list_value :
    listxattr to_string (mount_with none) fuse_root_id 20
    ≡ ok (reply (value (bytes "user.device.model" ++ 0 ∷ [])))
unfolding listxattr sized listxattr_from_vec drive_xattr_name num_drives
list_value = refl

listxattr-getxattr_example :
    (ns : List String) × (bytes "user.device.model" ++ 0 ∷ [] ≡ terminated ns)
    × All
        (λ n.
          (k : ℕ) × (getxattr to_string (mount_with none) fuse_root_id (some n) 0
            ≡ ok (reply (size k))))
        ns
listxattr-getxattr_example =
    listxattr-getxattr to_string (mount_with none) fuse_root_id 20
      (bytes "user.device.model" ++ 0 ∷ []) list_value
