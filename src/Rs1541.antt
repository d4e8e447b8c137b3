-- ===== src/Rs1541.antt =====
-- What the program reads of the values that the library rs1541 hands it. Each record has one field
-- for each question that the program asks of such a value; how rs1541 computes it is not modelled.
use rs1541fs.Prelude.{ℕ, String, Bool, List, ◌⊎◌, Option}

-- `is_ok` is the test `is_ok() == CbmErrorNumberOk::Ok`.
pub record CbmStatus : Type 0 where
  pub is_ok : Bool
  pub to_string : String

pub record CbmDeviceType : Type 0 where
  pub as_str : String
  pub num_disk_drives : ℕ
  pub dos_version : String
  pub to_fs_name_lowercase : String

pub record CbmDeviceInfo : Type 0 where
  pub device_type : CbmDeviceType
  pub description : String

-- `serial` tells two units apart that were made for the same device.
pub record CbmDriveUnit : Type 0 where
  pub serial : ℕ
  pub device_number : ℕ
  pub device_info : CbmDeviceInfo
  pub is_busy : Bool
  pub is_responding : Bool

pub data CbmFileType : Type 0 where
  prg seq usr rel unknown : CbmFileType

-- `max_size` is the answer of `CbmFileEntry::max_size`.
pub data CbmFileEntry : Type 0 where
  valid_file :
      CbmFileType → (filename : String) → (blocks : ℕ) → (max_size : Option ℕ) → CbmFileEntry
  invalid_file : CbmFileEntry

pub record CbmDiskHeader : Type 0 where
  pub drive_number : ℕ
  pub name : String
  pub id : String

pub record CbmDirListing : Type 0 where
  pub header : CbmDiskHeader
  pub blocks_free : ℕ
  pub files : List CbmFileEntry
  pub num_blocks_used_valid : ℕ
  pub total_blocks : ℕ

-- The error numbers that the program names.
pub data CbmErrorNumber : Type 0 where
  read_error_block_header_not_found read_error_no_sync_character : CbmErrorNumber
  read_error_data_block_not_present read_error_checksum_error_in_data_block : CbmErrorNumber
  read_error_byte_decoding_error read_error_checksum_error_in_header : CbmErrorNumber
  disk_id_mismatch dos_mismatch drive_not_ready : CbmErrorNumber

-- One bus: what each call of `Cbm` and of `CbmDriveUnit` answers. An error is its display text.
-- The first two fields are rs1541's constants of the same names.
pub record Cbm : Type 0 where
  pub device_min_num : ℕ
  pub device_max_num : ℕ
  pub try_from_bus : ℕ → CbmDriveUnit ⊎ String
  pub identify : ℕ → CbmDeviceInfo ⊎ String
  pub get_status : ℕ → CbmStatus ⊎ String
  pub reset_bus : Option String
  pub send_init : CbmDriveUnit → List CbmErrorNumber → List (CbmStatus ⊎ String)
  pub dir : CbmDriveUnit → (List CbmDirListing × CbmStatus) ⊎ String
  pub read_file : CbmDriveUnit → String → (List ℕ × CbmStatus) ⊎ String
