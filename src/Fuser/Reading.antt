-- ===== src/Fuser/Reading.antt =====
-- `read` and `wait_for_file_read` of src/bin/server/fusermount.rs.
use rs1541fs.Prelude.{ℕ, zero, suc, ◌+◌, String, false, List, [], Option, none, some}
use rs1541fs.Error.{
  fs1541, timeout, eisdir, enoent, eacces, to_fuse_reply_error, Result, ok, err, panic, ◌>>=◌,
}
use rs1541fs.Bg.{Operation}
use rs1541fs.File.Buffer.{read_range}
use rs1541fs.File.Control.{ControlFilePurpose, RwType, rw_type, read_static}
use rs1541fs.File.Cache.{FileCache, get_data_complete_and_fresh}
use rs1541fs.File.Entry.{FileEntry, FileEntryType, cbm_file, control_file, directory}
use rs1541fs.Mount.State.{Mount}
use rs1541fs.Mount.Lookup.{file_by_inode}
use rs1541fs.Mount.Requests.{read_file_sync}
use rs1541fs.Fuser.{Timers, Counts, Reply, reply, error}

abbrev pub fresh_data : Timers → ℕ → Option FileCache → Option (List ℕ)
fresh_data timers now none = none
fresh_data timers now (some c) = get_data_complete_and_fresh now c timers.file_cache

abbrev pub cached_data : Timers → ℕ → Option FileEntry → Option (List ℕ)
cached_data timers now none = none
cached_data timers now (some f) = fresh_data timers now f.cache

-- What one check of `wait_for_file_read` sees: the time, and the mount under the lock.
unfoldable pub sees_data : Timers → ℕ → ℕ × Mount → Option (List ℕ)
sees_data timers ino (now, m) = cached_data timers now (file_by_inode m ino)

-- `FuserMount::wait_for_file_read`, from the check number `count` with `left` checks to go.
unfoldable pub wait_for_file_read :
    Timers → (ℕ → ℕ × Mount) → ℕ → (left count : ℕ) → Result (List ℕ)
wait_for_file_read timers view ino zero count =
    err (fs1541 "File read timed out" (timeout "" timers.file_read))
wait_for_file_read timers view ino (suc left) count =
    let rest = wait_for_file_read timers view ino left (count + 1) in
    elim (sees_data timers ino (view count)) [ some found ↦ ok found | none ↦ rest ]

-- What the first lock finds: bytes that can be served at once, or none yet, or an errno.
abbrev control_data : ControlFilePurpose → RwType → Reply (Option (List ℕ))
control_data purpose RwType.write = error eacces
control_data purpose _ = reply (read_static purpose)

abbrev native_data : Timers → ℕ → FileEntry → FileEntryType → Reply (Option (List ℕ))
native_data timers now f (directory _) = error eisdir
native_data timers now f (control_file purpose) = control_data purpose (rw_type purpose)
native_data timers now f (cbm_file _) = reply (fresh_data timers now f.cache)

abbrev entry_data : Timers → ℕ → Option FileEntry → Reply (Option (List ℕ))
entry_data timers now none = error enoent
entry_data timers now (some f) = native_data timers now f f.native

unfoldable pub data_at_once : Timers → ℕ → Mount → ℕ → Reply (Option (List ℕ))
data_at_once timers now m ino = entry_data timers now (file_by_inode m ino)

abbrev range_reply : ℕ → ℕ → List ℕ → Result (Reply (List ℕ))
range_reply offset size contents = read_range contents offset size >>= λ range. ok (reply range)

-- What the wait gives, as the reply.
abbrev pub waited_reply : ℕ → ℕ → Result (List ℕ) → Result (Reply (List ℕ))
waited_reply offset size (ok contents) = range_reply offset size contents
waited_reply offset size (err e) = ok (error (to_fuse_reply_error e))
waited_reply offset size panic = panic

abbrev requested_reply : ℕ → ℕ → Result (List ℕ) → Result (Unit {0}) → Result (Reply (List ℕ))
requested_reply offset size w (ok _) = waited_reply offset size w
requested_reply offset size w (err e) = ok (error (to_fuse_reply_error e))
requested_reply offset size w panic = panic

abbrev served :
    Timers
    → Counts
    → (now : ℕ) → Option String
    → Mount
    → (ℕ → ℕ × Mount)
    → (ino offset size : ℕ) → Reply (Option (List ℕ))
    → Result (Reply (List ℕ)) × Mount × List Operation
served timers counts now closed m view ino offset size (error e) = (ok (error e), m, [])
served timers counts now closed m view ino offset size (reply (some contents)) =
    (range_reply offset size contents, m, [])
served timers counts now closed m view ino offset size (reply none) =
    let (result, m', sent) = read_file_sync now closed ino false m in
    (
      requested_reply offset size (wait_for_file_read timers view ino counts.file_check 0) result,
      m',
      sent,
    )

-- `FuserMount::read`: the mount `m` is the one under the first two locks, `view` gives what the checks
-- of the wait see.
unfoldable pub read :
    Timers
    → Counts
    → (now : ℕ) → Option String
    → Mount
    → (ℕ → ℕ × Mount)
    → (ino offset size : ℕ) → Result (Reply (List ℕ)) × Mount × List Operation
unfolding data_at_once
read timers counts now closed m view ino offset size =
    served timers counts now closed m view ino offset size (data_at_once timers now m ino)
