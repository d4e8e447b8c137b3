-- ===== src/Fuser.antt =====
-- src/bin/server/fusermount.rs: what the daemon answers to the kernel. A handler that takes the
-- mount's lock sees one state of the mount under it. An instant is a number of milliseconds.
pub mod Directory
pub mod Attributes
pub mod Reading
pub mod Laws
use rs1541fs.Prelude.{
  ℕ, zero, suc, true, false, ◌-◌, ◌+◌, ◌/◌, ◌^◌, String, Bool, List, [], ◌∷◌, Option, none, some,
  ltb, is_none, ◌==◌, nat_eq, if◌then◌else◌,
}
use rs1541fs.Error.{Duration, Errno, eisdir, enoent, Result, ok, err, panic, ◌>>=◌}
use rs1541fs.File.Entry.{
  FileEntry, FileEntryType, cbm_file, control_file, directory, FileAttr, file_attr, root,
  fuse_root_id,
}
use rs1541fs.Mount.State.{Mount}
use rs1541fs.Mount.Lookup.{file_by_inode}

-- `TTLs`
pub record Ttls : Type 0 where
  pub dir_lookup : Duration
  pub file_lookup : Duration
  pub dir_attr : Duration
  pub file_attr : Duration

-- `Timers`
pub record Timers : Type 0 where
  pub dir_cache : Duration
  pub file_cache : Duration
  pub dir_read : Duration
  pub file_read : Duration
  pub dir_read_sleep : Duration
  pub file_read_sleep : Duration

-- `Counts`
pub record Counts : Type 0 where
  pub dir_check : ℕ
  pub file_check : ℕ

-- The division panics on 0, the test on a count that does not fit in a u32.
unfoldable pub checks : Duration → Duration → Result ℕ
checks wait sleep =
    if sleep == 0
    then panic
    else if ltb (2 ^ 32 - 1) (wait / sleep)
    then panic
    else ok (wait / sleep)

-- `Counts::new`
unfoldable pub new_counts : Timers → Result Counts
unfolding checks
new_counts timers = checks timers.dir_read timers.dir_read_sleep >>= λ dir_check.
    checks timers.file_read timers.file_read_sleep >>= λ file_check.
    ok (record { dir_check = dir_check; file_check = file_check })

-- An answer to the kernel: a value or an errno.
pub data Reply {ℓ} (A : Type ℓ) : Type ℓ where
  reply : A → Reply A
  error : Errno → Reply A

abbrev pub is_directory : FileEntryType → Bool
is_directory (directory _) = true
is_directory _ = false

abbrev pub ttl_and_attr : (now uid : ℕ) → Duration → Duration → FileEntry → Duration × FileAttr
ttl_and_attr now uid dir file f = (if is_directory f.native then dir else file, file_attr now uid f)

-- `FuserMount::getattr`
abbrev pub attr_of : (now uid : ℕ) → Ttls → Option FileEntry → Reply (Duration × FileAttr)
attr_of now uid ttls none = error enoent
attr_of now uid ttls (some f) = reply (ttl_and_attr now uid ttls.dir_attr ttls.file_attr f)

unfoldable pub getattr : (now uid : ℕ) → Ttls → Mount → ℕ → Reply (Duration × FileAttr)
getattr now uid ttls m ino =
    if ino == fuse_root_id
    then reply (ttl_and_attr now uid ttls.dir_attr ttls.file_attr (root now))
    else attr_of now uid ttls (file_by_inode m ino)

-- The test that `open`, `release` and `flush` share.
abbrev openable : Option FileEntry → Reply (Unit {0})
openable none = error enoent
openable (some f) = if is_directory f.native then error enoent else reply tt

unfoldable pub check_file : Mount → ℕ → Reply (Unit {0})
check_file m ino = if ino == fuse_root_id then error eisdir else openable (file_by_inode m ino)

abbrev handle_for : ℕ → Reply (Unit {0}) → Reply ℕ
handle_for ino (reply _) = reply ino
handle_for ino (error e) = error e

-- `FuserMount::open`: the file handle is the inode.
unfoldable pub open_file : Mount → ℕ → Reply ℕ
unfolding check_file
open_file m ino = handle_for ino (check_file m ino)

-- `FuserMount::release`, `FuserMount::flush`; another handle than the inode is only logged.
unfoldable pub release : Mount → (ino fh : ℕ) → Reply (Unit {0})
unfolding check_file
release m ino fh = check_file m ino

unfoldable pub flush : Mount → (ino fh : ℕ) → Reply (Unit {0})
unfolding check_file
flush m ino fh = check_file m ino
