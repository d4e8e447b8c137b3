-- ===== src/File/Control.antt =====
-- `ControlFile` of src/bin/server/file.rs.
use rs1541fs.Prelude.{ℕ, String, ◌<+>◌, Option, none, some, List, [], ◌∷◌, bytes, length}

pub data ControlFilePurpose : Type 0 where
  get_cur_drive_status get_last_drive_status get_last_error_status : ControlFilePurpose
  exec_drive_command exec_dir_refresh exec_format_drive : ControlFilePurpose

-- `ControlFilePurpose::iter`
abbrev pub purposes : List ControlFilePurpose
purposes =
    get_cur_drive_status ∷ get_last_drive_status ∷ get_last_error_status ∷ exec_drive_command
    ∷ exec_dir_refresh ∷ exec_format_drive ∷ []

-- The `Display` text of `ControlFilePurpose`.
unfoldable pub display_purpose : ControlFilePurpose → String
display_purpose get_cur_drive_status = "GetCurDriveStatus"
display_purpose get_last_drive_status = "GetLastDriveStatus"
display_purpose get_last_error_status = "GetLastErrorStatus"
display_purpose exec_drive_command = "ExecDriveCommand"
display_purpose exec_dir_refresh = "ExecDirRefresh"
display_purpose exec_format_drive = "ExecFormatDrive"

pub data RwType : Type 0 where
  read write read_write : RwType

unfoldable pub display_rw_type : RwType → String
display_rw_type read = "Read"
display_rw_type write = "Write"
display_rw_type read_write = "ReadWrite"

-- `ControlFile` has its purpose as its only field.
-- `ControlFile::rw_type`
unfoldable pub rw_type : ControlFilePurpose → RwType
rw_type get_cur_drive_status = read
rw_type get_last_drive_status = read
rw_type get_last_error_status = read
rw_type exec_drive_command = read_write
rw_type exec_dir_refresh = read_write
rw_type exec_format_drive = read_write

abbrev name_of : ControlFilePurpose → String
name_of get_cur_drive_status = "get_current_status"
name_of get_last_drive_status = "get_last_status"
name_of get_last_error_status = "get_last_error_status"
name_of exec_drive_command = "exec_command"
name_of exec_dir_refresh = "exec_dir_refresh"
name_of exec_format_drive = "exec_format_drive"

abbrev suffix_of : RwType → String
suffix_of read = "r"
suffix_of write = "w"
suffix_of read_write = "rw"

-- `ControlFile::filename`
unfoldable pub filename : ControlFilePurpose → String
unfolding rw_type
filename purpose = "." <+> name_of purpose <+> "." <+> suffix_of (rw_type purpose)

-- `ControlFile::read_static`, whose answer is the bytes of a text.
unfoldable pub read_static : ControlFilePurpose → Option (List ℕ)
unfolding filename
read_static exec_drive_command = some (
    bytes (
      "To run a drive command echo the command (as lower case ASCII) into this file.\nFor example:\n  echo \"i\" > "
      <+> filename exec_drive_command
      <+> "\n"))
read_static exec_dir_refresh = some (
    bytes (
      "To refresh the directory listing echo \"1\" into this file.\nFor example: \n  echo \"1\" > "
      <+> filename exec_dir_refresh
      <+> "\n"))
read_static exec_format_drive = some (
    bytes (
      "To format the disk in the drive, echo the new header name followed by the disk ID, separated by commands, into this file.\nThe header name may be maximum of 16 characters, and may include whitespace.  The ID must be precisely 2 characters.\nFor example:\n  echo \"my new disk,aa\" > "
      <+> filename exec_format_drive
      <+> "\n"))
read_static _ = none

-- `ControlFile::size`
unfoldable pub size : ControlFilePurpose → ℕ
unfolding read_static
size purpose = elim (read_static purpose) [ none ↦ 0 | some text ↦ length text ]

-- `ControlFile::permissions`
abbrev permissions_of : RwType → ℕ
permissions_of read = 0o444
permissions_of write = 0o222
permissions_of read_write = 0o666

unfoldable pub permissions : ControlFilePurpose → ℕ
unfolding rw_type
permissions purpose = permissions_of (rw_type purpose)
