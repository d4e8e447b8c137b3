-- ===== src/Fuser/Directory.antt =====
-- `lookup`, `readdir` and `wait_for_dir_refresh` of src/bin/server/fusermount.rs.
use rs1541fs.Prelude.{
  ℕ, zero, suc, ◌+◌, ◌-◌, String, Bool, false, not, ◌&&◌, List, [], ◌∷◌, Option, none, some, ltb,
  leb, find, drop, get_elem?, ◌==◌, nat_eq, string_eq, if◌then◌else◌,
}
use rs1541fs.Error.{
  fs1541, timeout, Duration, Errno, enoent, enotdir, to_fuse_reply_error, Result, ok, err, panic,
  ◌>>=◌,
}
use rs1541fs.Bg.{Operation}
use rs1541fs.File.Entry.{FileEntry, FileAttr, FileType, inode, fuser_file_type, fuse_root_id}
use rs1541fs.File.DiskInfo.{DiskInfo}
use rs1541fs.Mount.State.{Mount, num_drives, get_drive_dir, get_drive_files, should_refresh_dir}
use rs1541fs.Mount.Lookup.{file_by_inode, get_drive_num_by_inode}
use rs1541fs.Mount.Requests.{do_dir_sync}
use rs1541fs.Fuser.{Ttls, Timers, Counts, Reply, reply, error, ttl_and_attr}

abbrev pub with_dir : Option FileEntry → List FileEntry → List FileEntry
with_dir none dirs = dirs
with_dir (some f) dirs = f ∷ dirs

-- The directories of the drives from `ii`, with `left` drives to go.
unfoldable pub dirs_from : Mount → (left ii : ℕ) → Result (List FileEntry)
dirs_from m zero ii = ok []
dirs_from m (suc left) ii =
    get_drive_dir m ii >>= λ dir. dirs_from m left (ii + 1) >>= λ dirs. ok (with_dir dir dirs)

abbrev pub files_of_drive : Mount → Option ℕ → Result (Reply (List FileEntry))
files_of_drive m none = ok (error enoent)
files_of_drive m (some drive_num) = get_drive_files m drive_num >>= λ files. ok (reply files)

-- The files of the directory with inode `parent`.
unfoldable pub files_in : Mount → ℕ → Result (Reply (List FileEntry))
unfolding dirs_from
files_in m parent =
    if parent == fuse_root_id
    then ((if ltb 1 (num_drives m) then dirs_from m (num_drives m) 0 else get_drive_files m 0)
        >>= λ files. ok (reply files))
    else if ltb 1 (num_drives m)
    then files_of_drive m (get_drive_num_by_inode m parent)
    else ok (error enoent)

abbrev pub has_name : String → FileEntry → Bool
has_name name f = f.fuse.name == name

abbrev pub entry_of : (now uid : ℕ) → Ttls → Option FileEntry → Reply (Duration × FileAttr)
entry_of now uid ttls none = error enoent
entry_of now uid ttls (some f) = reply (ttl_and_attr now uid ttls.dir_lookup ttls.file_lookup f)

abbrev pub entry_in :
    (now uid : ℕ) → Ttls → String → Reply (List FileEntry) → Reply (Duration × FileAttr)
entry_in now uid ttls name (error e) = error e
entry_in now uid ttls name (reply files) = entry_of now uid ttls (find (has_name name) files)

-- `FuserMount::lookup`; `none` is a name that is not UTF-8.
unfoldable pub lookup :
    (now uid : ℕ) → Ttls → Mount → ℕ → Option String → Result (Reply (Duration × FileAttr))
unfolding files_in
lookup now uid ttls m parent none = ok (error enoent)
lookup now uid ttls m parent (some name) =
    files_in m parent >>= λ files. ok (entry_in now uid ttls name files)

-- What `readdir` lists: files that it has, or the drive whose disk it lists.
pub data Listed : Type 0 where
  dirs : List FileEntry → Listed
  disk : (drive_num : ℕ) → Listed
  refused : Errno → Listed

abbrev pub no_drive : Option FileEntry → Listed
no_drive none = refused enoent
no_drive (some f) = refused enotdir

abbrev pub drive_or : Mount → ℕ → Option ℕ → Listed
drive_or m ino none = no_drive (file_by_inode m ino)
drive_or m ino (some drive_num) = disk drive_num

unfoldable pub listed : Mount → ℕ → Result Listed
unfolding dirs_from
listed m ino =
    if ltb 1 (num_drives m) && (ino == fuse_root_id)
    then (dirs_from m (num_drives m) 0 >>= λ ds. ok (dirs ds))
    else if not (num_drives m == 1)
    then ok (drive_or m ino (get_drive_num_by_inode m ino))
    else ok (disk 0)

abbrev recent : ℕ → Duration → Option ℕ → Bool
recent now dir_cache none = false
recent now dir_cache (some read_time) =
    if leb read_time now then ltb (now - read_time) dir_cache else false

abbrev disk_is_fresh : ℕ → Duration → Option DiskInfo → Result Bool
disk_is_fresh now dir_cache none = panic
disk_is_fresh now dir_cache (some d) = ok (recent now dir_cache d.disk_read_time)

-- What one check sees: the time, and the mount under the lock.
unfoldable pub sees_fresh : Timers → ℕ → ℕ × Mount → Result Bool
sees_fresh timers drive_num (now, m) =
    disk_is_fresh now timers.dir_cache (get_elem? m.disk_info drive_num)

-- `FuserMount::wait_for_dir_refresh`, from the check number `count` with `left` checks to go;
-- `view` gives what each check sees.
unfoldable pub wait_for_dir_refresh :
    Timers → (ℕ → ℕ × Mount) → ℕ → (left count : ℕ) → Result (Unit {0})
unfolding sees_fresh
wait_for_dir_refresh timers view drive_num zero count =
    err (fs1541 "Directory re-read timed out" (timeout "" timers.dir_read))
wait_for_dir_refresh timers view drive_num (suc left) count =
    let rest = wait_for_dir_refresh timers view drive_num left (count + 1) in
    sees_fresh timers drive_num (view count) >>= λ fresh. if fresh then ok tt else rest

-- The answers of the wait that end the call: all errors but the timeout.
abbrev gives_up : Result (Unit {0}) → Option (Result Errno)
gives_up (ok _) = none
gives_up (err (fs1541 _ (timeout _ _))) = none
gives_up (err e) = some (ok (to_fuse_reply_error e))
gives_up panic = some panic

abbrev pub list_disk : Option (Result Errno) → Mount → ℕ → Result (Reply (List FileEntry))
list_disk none m drive_num = get_drive_files m drive_num >>= λ files. ok (reply files)
list_disk (some (ok e)) m drive_num = ok (error e)
list_disk (some _) m drive_num = panic

-- A send that fails is logged, and the old listing used.
abbrev pub waited : Result (Unit {0}) → Result (Unit {0}) → Option (Result Errno)
waited (ok _) w = gives_up w
waited (err _) w = none
waited panic w = some panic

-- The entries that `reply.add` is called with: the inode, the next offset, the type and the name. The
-- entries `.` and `..` that the source collects are not added.
abbrev pub DirLine : Type 0
DirLine = ℕ × ℕ × FileType × String

unfoldable pub lines_from : ℕ → List FileEntry → List DirLine
lines_from ii [] = []
lines_from ii (f ∷ fs) = (inode f, ii + 1, fuser_file_type f, f.fuse.name) ∷ lines_from (ii + 1) fs

-- The handler up to the files: the locks are taken at `m`, and, for a re-read, at the mounts that
-- `view` gives and at `last`.
unfoldable pub readdir_files :
    Timers
    → Counts
    → (now : ℕ) → Option String
    → (m last : Mount) → (ℕ → ℕ × Mount)
    → Listed
    → Result (Reply (List FileEntry) × Mount × List Operation)
unfolding wait_for_dir_refresh
readdir_files timers counts now closed m last view (dirs ds) = ok (reply ds, m, [])
readdir_files timers counts now closed m last view (refused e) = ok (error e, m, [])
readdir_files timers counts now closed m last view (disk drive_num) =
    should_refresh_dir now m drive_num timers.dir_cache >>= λ re_read.
    if re_read
    then (let (result, m', sent) = do_dir_sync now closed false m in
        list_disk (waited result (wait_for_dir_refresh timers view drive_num counts.dir_check 0))
          last drive_num
        >>= λ files. ok (files, m', sent))
    else list_disk none m drive_num >>= λ files. ok (files, m, [])

abbrev pub all_lines : ℕ → Reply (List FileEntry) → Reply (List DirLine)
all_lines offset (error e) = error e
all_lines offset (reply files) = reply (drop offset (lines_from 0 files))

-- `FuserMount::readdir` into a buffer with room for all entries from `offset` on.
unfoldable pub readdir :
    Timers
    → Counts
    → (now : ℕ) → Option String
    → (m last : Mount) → (ℕ → ℕ × Mount)
    → (ino offset : ℕ) → Result (Reply (List DirLine) × Mount × List Operation)
unfolding listed readdir_files lines_from
readdir timers counts now closed m last view ino offset = listed m ino >>= λ which.
    readdir_files timers counts now closed m last view which >>= λ r.
    ok (all_lines offset r.0, r.1, r.2)
