-- ===== src/Tests/Fixtures.antt =====
-- A drive with two disks, a bus that knows it, and a host with one empty directory.
use rs1541fs.Prelude.{String, inl, true, false, [], ◌∷◌, none, some, to_string, ◌==◌, string_eq}
use rs1541fs.Rs1541.{
  CbmStatus, CbmDeviceType, CbmDeviceInfo, CbmDriveUnit, CbmFileEntry, CbmFileType, valid_file,
  invalid_file, CbmDiskHeader, CbmDirListing, Cbm,
}
use rs1541fs.Env.{Env}
use rs1541fs.Bg.{
  Operation, read_directory, read_file_cache, identify, new_operation, cancel_device_cache,
}
use rs1541fs.Mount.State.{Mount, new}
use rs1541fs.Mount.Inodes.{create_disk_info}
use rs1541fs.Service.{Service, Handles}
use rs1541fs.Validate.{Host}

abbrev pub mountpoint : String
mountpoint = "/mnt/cbm"

abbrev pub good_status : CbmStatus
good_status = record { is_ok = true; to_string = "00, OK,00,00" }

abbrev pub device_type : CbmDeviceType
device_type = record {
  as_str = "4040";
  num_disk_drives = 2;
  dos_version = "2";
  to_fs_name_lowercase = "4040";
}

abbrev pub device_info : CbmDeviceInfo
device_info = record { device_type = device_type; description = "dual drive" }

abbrev pub unit_8 : CbmDriveUnit
unit_8 = record {
  serial = 0;
  device_number = 8;
  device_info = device_info;
  is_busy = false;
  is_responding = true;
}

abbrev pub game : CbmFileEntry
game = valid_file CbmFileType.prg "game" 2 (some 508)

abbrev pub header : CbmDiskHeader
header = record { drive_number = 0; name = "disk"; id = "01" }

abbrev pub listing : CbmDirListing
listing = record {
  header = header;
  blocks_free = 600;
  files = game ∷ invalid_file ∷ [];
  num_blocks_used_valid = 2;
  total_blocks = 664;
}

abbrev pub bus : Cbm
bus = record {
  device_min_num = 8;
  device_max_num = 15;
  try_from_bus = λ _. inl unit_8;
  identify = λ _. inl device_info;
  get_status = λ _. inl good_status;
  reset_bus = none;
  send_init = λ _ _. inl good_status ∷ [];
  dir = λ _. inl (listing ∷ [], good_status);
  read_file = λ _ _. inl (1 ∷ 2 ∷ 3 ∷ [], good_status);
}

abbrev pub env : Env
env = record {
  cbm = bus;
  debug_duration = to_string;
  format_time = to_string;
  version = "0.1.0";
  spawn_mount2 = λ _. none;
}

abbrev pub identify_8 : Operation
identify_8 = new_operation 10 (identify 8) 3 (some 4)

abbrev pub read_dir_8 : Operation
read_dir_8 = new_operation 20 (read_directory 8) 5 none

abbrev pub cancel_8 : Operation
cancel_8 = new_operation 30 (cancel_device_cache 8) 3 (some 6)

abbrev pub cache_read_8 : Operation
cache_read_8 = new_operation 40 (read_file_cache 8 "game" 256) 5 none

abbrev pub informed_mount : Mount
informed_mount = record (new 8 "/mnt/cbm" false 7) { drive_info = some device_info }

abbrev pub fresh_mount : Mount
fresh_mount = create_disk_info 100 informed_mount

abbrev pub no_service : Service
no_service = record { drives = []; mountpoints = [] }

abbrev pub handles : Handles
handles = record { channel = 7; session = 1; shared = 2; thread = 3 }

abbrev pub host : Host
host = record {
  is_absolute = λ p. p == "/mnt/cbm";
  exists = λ p. p == "/mnt/cbm";
  canonicalize = λ p. inl p;
  is_dir = λ p. p == "/mnt/cbm";
  has_entries = λ _. inl false;
  metadata = λ _. some (record { mode = 0o755; uid = 1000; gid = 1000 });
  getuid = 1000;
  getgid = 1000;
  validate_device = λ d. inl d;
}
