-- ===== src/Tests/Rounds.antt =====
-- What goes to the processor and comes back: a read of a file, a request of a client, a directory.
use rs1541fs.Prelude.{
  ℕ, ◌+◌, ◌*◌, ◌≡◌, refl, inl, true, false, [], ◌∷◌, ◌++◌, none, some, arith, take, drop, map, List,
  ltb, to_string, if◌then◌else◌,
}
use rs1541fs.Prelude.Map.{get}
use rs1541fs.Error.{ok}
use rs1541fs.Rs1541.{prg, CbmDeviceInfo}
use rs1541fs.Bg.{OpType, OpResponseType, OpResponse, Operation, new_operation}
use rs1541fs.Bg.Queues.{empty, push, pop_next}
use rs1541fs.Drives.{get_drive}
use rs1541fs.Proc.{in_time, process_operation, execute_operation, execute}
use rs1541fs.Drives.{identify_drive}
use rs1541fs.Proc.Steps.{World, Step, receive, taken}
use rs1541fs.File.Cache.{new}
use rs1541fs.File.Control.{get_last_drive_status, exec_dir_refresh}
use rs1541fs.File.Entry.{from_control_file_purpose, fuse_root_id}
use rs1541fs.File.DiskInfo.{DiskInfo}
use rs1541fs.Mount.State.{Mount, num_drives, set_dir_outstanding}
use rs1541fs.Mount.State
use rs1541fs.Mount.Lookup.{change_file}
use rs1541fs.Mount.Requests.{set_cache, do_dir_sync}
use rs1541fs.Mount.Responses.{process_bg_response}
use rs1541fs.Ipc
use rs1541fs.Ipc.{from_op_response}
use rs1541fs.Ipc.Typed.{IsReply, handle_client_request-IsReply}
use rs1541fs.Fuser.{reply}
use rs1541fs.Fuser.Reading.{read}
use rs1541fs.Fuser.Laws.Through.{read-process_bg_response}
use rs1541fs.Fuser.Directory.{DirLine, readdir}
use rs1541fs.Fuser.Laws.Refreshed.{name_of, line_name, names_in, readdir-do_dir_sync}
use rs1541fs.Tests.Fixtures.{
  env, unit_8, good_status, handles, host, device_info, device_type, identify_8, listing,
}
use rs1541fs.Tests.Kernel.{timers, counts, game_file, mount_with, found_game}
use rs1541fs.Tests.Clients.{queued_identify}

-- A processor with the drive, and nothing in its queues.
abbrev ready : World
ready = record {
  proc = record {
    queues = empty;
    shutdown = false;
    service = record { drives = (8, unit_8) ∷ []; mountpoints = [] };
  };
  received = [];
  sent = [];
  lost = [];
}

abbrev read_game : Operation
read_game = new_operation 100 (OpType.read_file 8 "game" 300) 7 none

abbrev game_waits : Mount
game_waits = change_file 300 (set_cache (some (new 100))) (mount_with none)

abbrev game_read : OpResponse
game_read = record {
  rsp = inl (OpResponseType.read_file 8 "game" 300 good_status (1 ∷ 2 ∷ 3 ∷ []));
  stream = none;
}

takes_read : taken (read_game ∷ []) ready.proc ≡ (some read_game, empty)
unfolding receive push pop_next empty new_operation
takes_read = refl

drive_there : get_drive 8 ready.proc.service.drives ≡ ok unit_8
unfolding get_drive get
drive_there = refl

abbrev clock : ℕ → ℕ
clock count = 200 + 100 * count

read-process_bg_response_example :
    (v : World) × (after : Mount) × Step env ready v
    × (v.sent ≡ [] ++ (7, game_read) ∷ [])
    × (process_bg_response to_string 350 game_read game_waits ≡ ok after)
    × (read timers counts 100 none
          (mount_with none)
          (λ count. (clock count, if ltb count 2 then game_waits else after))
          300
          1
          5
        ≡ (ok (reply (take 5 (drop 1 (1 ∷ 2 ∷ 3 ∷ [])))), game_waits, read_game ∷ []))
unfolding State.new
read-process_bg_response_example =
    read-process_bg_response env timers counts 100 (mount_with none) 300 (game_file none) prg "game"
      2 (some 508) (found_game none) refl refl 120 none handles (read_game ∷ []) empty ready unit_8
      (1 ∷ 2 ∷ 3 ∷ []) good_status refl takes_read drive_there refl 350 2 1 5 clock refl
      (omega arith) (omega arith) (omega arith) (omega arith)

identifies :
    (process_operation env 20 none handles in_time identify_8 ready.proc).answer
    ≡ ok (OpResponseType.identify device_info)
unfolding process_operation execute_operation execute identify_drive new_operation
identifies = refl

handle_client_request-IsReply_example : IsReply (Ipc.identify 8) (
    from_op_response to_string
      (record { rsp = inl (OpResponseType.identify device_info); stream = identify_8.stream }))
handle_client_request-IsReply_example =
    handle_client_request-IsReply host 10 3 4 to_string (Ipc.identify 8) identify_8 env 20 none
      handles in_time ready.proc (OpResponseType.identify device_info) queued_identify identifies

-- A mount of a single drive, before its disk has been read.
abbrev single_info : CbmDeviceInfo
single_info = record {
  device_type = record device_type { num_disk_drives = 1 };
  description = "single drive";
}

abbrev unread_disk : DiskInfo
unread_disk = record {
  drive_num = 0;
  header = none;
  blocks_free = none;
  disk_dir = none;
  control_files =
      from_control_file_purpose 100 get_last_drive_status 256
      ∷ from_control_file_purpose 100 exec_dir_refresh 257
      ∷ [];
  cbm_files = [];
  xattrs = [];
  disk_read_time = none;
}

abbrev single_mount : Mount
single_mount = record (State.new 8 "/mnt/cbm" false 7) {
  drive_info = some single_info;
  next_inode = 258;
  disk_info = unread_disk ∷ [];
}

abbrev read_directory_8 : Operation
read_directory_8 = new_operation 200 (OpType.read_directory 8) 7 none

has_one : num_drives single_mount ≡ 1
unfolding num_drives State.new
has_one = refl

readdir-do_dir_sync_example :
    (do_dir_sync 200 none false single_mount
      ≡ (ok tt, set_dir_outstanding true single_mount, read_directory_8 ∷ []))
    × ((process_operation env 210 none handles in_time read_directory_8 ready.proc).answer
        ≡ ok (OpResponseType.read_directory good_status (listing ∷ [])))
    × (after : Mount) × (lines : List DirLine) × (process_bg_response to_string 250
          (record {
            rsp = inl (OpResponseType.read_directory good_status (listing ∷ []));
            stream = none;
          })
          (set_dir_outstanding true single_mount)
        ≡ ok after)
    × (readdir timers counts 300 none after single_mount (λ _. (0, single_mount)) fuse_root_id 0
        ≡ ok (reply lines, after, []))
    × (map line_name lines ≡ map name_of unread_disk.control_files ++ names_in listing.files)
unfolding State.new
readdir-do_dir_sync_example =
    readdir-do_dir_sync env timers counts 200 single_mount unread_disk
      (from_control_file_purpose 100 get_last_drive_status 256)
      (from_control_file_purpose 100 exec_dir_refresh 257 ∷ []) has_one refl refl refl 250
      good_status listing refl 210 300 none none handles ready.proc unit_8 single_mount
      (λ _. (0, single_mount)) refl drive_there refl (omega arith) (omega arith)
