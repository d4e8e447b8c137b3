-- ===== src/Fuser/Laws/Waiting.antt =====
-- The polling loops end, and what their answers say.
use rs1541fs.Prelude.{
  ℕ, suc, ◌+◌, ◌≡◌, if◌then◌else◌, refl, Bool, true, false, List, Option, none, some,
}
use mathlib.Core.Option.{some-injective}
use rs1541fs.Error.{fs1541, timeout, Result, ok, err, panic, ◌>>=◌}
use rs1541fs.Mount.State.{Mount}
use rs1541fs.Fuser.{Timers}
use rs1541fs.Fuser.Reading.{sees_data, wait_for_file_read}
use rs1541fs.Fuser.Directory.{sees_fresh, wait_for_dir_refresh}
use rs1541fs.Fuser.Laws.Polling.{Polls, loop-Polls}

module _ (timers : Timers) (view : ℕ → ℕ × Mount) (ino : ℕ) where
  -- The checks of the wait for a file: the first that sees data gives it, and a timeout is reported
  -- only if none does.
  abbrev pub Waits : ℕ → ℕ → Result (List ℕ) → Type 0
  Waits =
      Polls (λ n. sees_data timers ino (view n)) ok
        (err (fs1541 "File read timed out" (timeout "" timers.file_read)))

  read_decides :
      (left count : ℕ) (contents : List ℕ)
      → sees_data timers ino (view count) ≡ some contents
      → wait_for_file_read timers view ino (suc left) count ≡ ok contents
  unfolding wait_for_file_read
  read_decides left count contents e = rw (wait_for_file_read, e) refl

  read_goes_on :
      (left count : ℕ)
      → sees_data timers ino (view count) ≡ none
      → wait_for_file_read timers view ino (suc left) count
        ≡ wait_for_file_read timers view ino left (count + 1)
  unfolding wait_for_file_read
  read_goes_on left count e = rw (wait_for_file_read, e) refl

-- The wait for a file ends after at most the given number of checks: it gives the bytes that the
-- first successful check sees, and reports a timeout exactly if no check sees any.
pub wait_for_file_read-Waits :
    (timers : Timers) (view : ℕ → ℕ × Mount) (ino file_check : ℕ)
    → Waits timers view ino file_check 0 (wait_for_file_read timers view ino file_check 0)
unfolding wait_for_file_read
wait_for_file_read-Waits timers view ino file_check =
    loop-Polls _ ok _ (wait_for_file_read timers view ino) (λ count. refl)
      (read_decides timers view ino) (read_goes_on timers view ino) file_check 0

-- What one check of a directory decides: nothing while the disk is stale.
abbrev pub decided : Result Bool → Option (Result (Unit {0}))
decided (ok true) = some (ok tt)
decided (ok false) = none
decided (err e) = some (err e)
decided panic = some panic

turn-decided :
    (s : Result Bool) (rest r : Result (Unit {0}))
    → decided s ≡ some r
    → (s >>= λ fresh. if fresh then ok tt else rest) ≡ r
turn-decided (ok true) rest r e = some-injective _ _ e
turn-decided (ok false) rest r e = absurd (cc e)
turn-decided (err x) rest r e = some-injective _ _ e
turn-decided panic rest r e = some-injective _ _ e

turn-stale :
    (s : Result Bool) (rest : Result (Unit {0}))
    → decided s ≡ none
    → (s >>= λ fresh. if fresh then ok tt else rest) ≡ rest
turn-stale (ok true) rest e = absurd (cc e)
turn-stale (ok false) rest e = refl
turn-stale (err x) rest e = absurd (cc e)
turn-stale panic rest e = absurd (cc e)

module _ (timers : Timers) (view : ℕ → ℕ × Mount) (drive_num : ℕ) where
  abbrev pub check_dir : ℕ → Option (Result (Unit {0}))
  check_dir n = decided (sees_fresh timers drive_num (view n))

  abbrev pub WaitsDir : ℕ → ℕ → Result (Unit {0}) → Type 0
  WaitsDir =
      Polls check_dir (λ r. r)
        (err (fs1541 "Directory re-read timed out" (timeout "" timers.dir_read)))

  refresh_decides :
      (left count : ℕ) (r : Result (Unit {0}))
      → check_dir count ≡ some r
      → wait_for_dir_refresh timers view drive_num (suc left) count ≡ r
  unfolding wait_for_dir_refresh
  refresh_decides left count r e = turn-decided (sees_fresh timers drive_num (view count)) _ r e

  refresh_goes_on :
      (left count : ℕ)
      → check_dir count ≡ none
      → wait_for_dir_refresh timers view drive_num (suc left) count
        ≡ wait_for_dir_refresh timers view drive_num left (count + 1)
  unfolding wait_for_dir_refresh
  refresh_goes_on left count e = turn-stale (sees_fresh timers drive_num (view count)) _ e

-- The wait for a directory ends after at most the given number of checks: the first check that does
-- not find the disk stale decides the answer, and a timeout is reported if every check finds it stale.
pub wait_for_dir_refresh-WaitsDir :
    (timers : Timers) (view : ℕ → ℕ × Mount) (drive_num dir_check : ℕ)
    → WaitsDir timers view drive_num dir_check 0
        (wait_for_dir_refresh timers view drive_num dir_check 0)
unfolding wait_for_dir_refresh
wait_for_dir_refresh-WaitsDir timers view drive_num dir_check =
    loop-Polls _ _ _ (wait_for_dir_refresh timers view drive_num) (λ count. refl)
      (refresh_decides timers view drive_num) (refresh_goes_on timers view drive_num) dir_check 0
