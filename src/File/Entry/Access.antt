-- ===== src/File/Entry/Access.antt =====
-- `FileEntry::open` and `FileEntry::write` of src/bin/server/file.rs.
use Prim.Native.Nat.{bit_and}
use rs1541fs.Prelude.{
  ℕ, String, ◌<+>◌, Bool, not, ◌||◌, List, Option, none, some, length, to_string, ◌==◌, nat_eq,
  if◌then◌else◌,
}
use rs1541fs.Error.{
  fs1541, is_dir, read_only, write_only, read_or_write_only, file_access, Result, ok, err, panic,
}
use rs1541fs.Rs1541.{valid_file, invalid_file}
use rs1541fs.File.Buffer.{Buffer}
use rs1541fs.File.Buffer
use rs1541fs.File.Control.{
  ControlFilePurpose, exec_drive_command, exec_dir_refresh, exec_format_drive, RwType, rw_type,
}
use rs1541fs.File.Entry.{FileEntry, FileEntryType, cbm_file, control_file, directory}

-- The open flags of `libc`.
pub record OpenFlags : Type 0 where
  pub o_rdonly : ℕ
  pub o_wronly : ℕ
  pub o_rdwr : ℕ

-- `flag & flags != 0`
abbrev pub has : ℕ → ℕ → Bool
has flag flags = not (bit_and flag flags == 0)

module _ (libc : OpenFlags) where
  abbrev open_control : RwType → String → ℕ → Result (Unit {0})
  open_control RwType.write name flags =
      if not (has libc.o_wronly flags)
      then err (fs1541 "Control file is write-only" (write_only name))
      else ok tt
  open_control RwType.read name flags =
      if not (has libc.o_rdonly flags)
      then err (fs1541 "Control file is read-only" (read_only name))
      else ok tt
  open_control RwType.read_write name flags =
      if has libc.o_rdonly flags || has libc.o_wronly flags
      then ok tt
      else err (fs1541 "No suitable mode specified on open" (file_access name))

  abbrev open_native : FileEntryType → String → ℕ → Result (Unit {0})
  open_native (directory drive_num) name flags =
      err (fs1541 ("Cannot open directory " <+> to_string drive_num) (is_dir name))
  open_native (cbm_file _) name flags =
      if has libc.o_wronly flags
      then err (fs1541 "CBM files are currently read-only" (read_only name))
      else ok tt
  open_native (control_file purpose) name flags = open_control (rw_type purpose) name flags

  -- `FileEntry::open`
  unfoldable pub open_entry : FileEntry → ℕ → Result (Unit {0})
  open_entry f flags =
      if has libc.o_rdwr flags
      then err (fs1541 "Only read OR write supported" (read_or_write_only f.fuse.name))
      else open_native f.native f.fuse.name flags

-- `self.write_buffer.as_mut().unwrap().write(data)?; Ok(data.len())`
abbrev write_buffered : FileEntry → Option Buffer → List ℕ → Result ℕ × FileEntry
write_buffered f none bytes = (panic, f)
write_buffered f (some b) bytes =
    let (r, b') = Buffer.write b bytes in
    (
      elim r [ ok n ↦ ok (length bytes) | err e ↦ err e | panic ↦ panic ],
      record f { write_buffer = some b' },
    )

abbrev write_control : ControlFilePurpose → FileEntry → List ℕ → Result ℕ × FileEntry
write_control exec_format_drive f bytes = write_buffered f f.write_buffer bytes
write_control exec_drive_command f bytes = write_buffered f f.write_buffer bytes
write_control exec_dir_refresh f bytes = write_buffered f f.write_buffer bytes
write_control _ f bytes =
    (err (fs1541 "Attempt to write to readonly file" (read_only f.fuse.name)), f)

abbrev write_native : FileEntryType → FileEntry → List ℕ → Result ℕ × FileEntry
write_native (directory drive_num) f bytes =
    (err (fs1541 ("Cannot write to directory " <+> to_string drive_num) (is_dir f.fuse.name)), f)
write_native (cbm_file (valid_file _ _ _ _)) f bytes = write_buffered f f.write_buffer bytes
write_native (cbm_file invalid_file) f bytes =
    (err (fs1541 "Cannot write to an improperly read file" (file_access f.fuse.name)), f)
write_native (control_file purpose) f bytes = write_control purpose f bytes

-- `FileEntry::write`
unfoldable pub write_entry : FileEntry → List ℕ → Result ℕ × FileEntry
write_entry f bytes = write_native f.native f bytes
