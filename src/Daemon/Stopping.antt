-- ===== src/Daemon/Stopping.antt =====
-- The end of the daemon's threads: `stop_bg_proc`, `stop_ipc_all` and `shutdown` of
-- src/bin/server/daemon.rs. A stop gives the daemon and the tasks that it aborts.
use rs1541fs.Prelude.{
  ℕ, zero, suc, Bool, true, false, not, ◌||◌, List, [], ◌∷◌, ◌++◌, Option, none, some,
  if◌then◌else◌,
}
use rs1541fs.Error.{Error, fs1541, timeout, Duration, Result, err, ◌>>◌}
use rs1541fs.Drives.{Drives, cleanup_drives}
use rs1541fs.Ipc.Server.{IpcServer, stop_all}
use rs1541fs.Daemon.{Daemon, assert}

-- A hard stop of a thread that may have been taken away: the daemon loses the background processor's
-- handle, whichever thread it is.
abbrev aborting : Daemon → Option ℕ → Daemon × List ℕ
aborting d (some handle) = (record d { bg_proc_handle = none }, handle ∷ [])
aborting d none = (d, [])

abbrev stopping_bg_proc : Bool → Daemon → Option ℕ → Daemon × List ℕ
stopping_bg_proc hard d none = (d, [])
stopping_bg_proc hard d (some bg_proc) =
    if not hard then (record d { bg_proc_shutdown = true }, []) else aborting d d.bg_proc_handle

-- `stop_bg_proc`
unfoldable pub stop_bg_proc : Bool → Daemon → Daemon × List ℕ
stop_bg_proc hard d = stopping_bg_proc hard d d.bg_proc

abbrev stopping_ipc : Bool → Daemon → Option IpcServer → Daemon × List ℕ
stopping_ipc hard d none = (d, [])
stopping_ipc hard d (some server) =
    if not hard
    then (record d { ipc_server = some (stop_all server) }, [])
    else aborting d d.ipc_server_handle

-- `stop_ipc_all`
unfoldable pub stop_ipc_all : Bool → Daemon → Daemon × List ℕ
stop_ipc_all hard d = stopping_ipc hard d d.ipc_server

-- The start of `shutdown`.
abbrev pub signalled : Daemon → Daemon
signalled d = (stop_ipc_all false (stop_bg_proc false d).0).0

-- `cleanup_drive_mgr`
unfoldable pub cleanup_drive_mgr : Daemon → Daemon
cleanup_drive_mgr d = record d { drive_mgr = cleanup_drives d.drive_mgr }

-- In milliseconds.
abbrev pub cleanup_overall_timer : Duration
cleanup_overall_timer = 5000

abbrev pub cleanup_timed_out : Error
cleanup_timed_out = fs1541 "Cleanup timed out" (timeout "Threads aborted" cleanup_overall_timer)

-- How a shutdown ends, and the tasks that it aborts.
pub record Ended : Type 0 where
  pub result : Result (Unit {0})
  pub daemon : Daemon
  pub aborted : List ℕ

-- Whether a task is finished at each moment. The moments are the checks of the loop, one every ten
-- milliseconds; moment number `checks` is the end of the timeout. `cut` is none if the drives are cleaned
-- up before that, and else the drives that are left at it.
module _ (is_finished : ℕ → ℕ → Bool) (checks : ℕ) (cut : Option Drives) where
  -- `map_or(false, |x| !x.is_finished())`
  abbrev pub is_unfinished : ℕ → Option ℕ → Bool
  is_unfinished at none = false
  is_unfinished at (some task) = not (is_finished at task)

  abbrev pub waits : ℕ → Daemon → Bool
  waits at d =
      is_unfinished at d.bg_proc_abort
      || is_unfinished at d.ipc_server_abort
      || is_unfinished at d.bg_listener_abort

  -- The moment at which the loop sees all threads finished, if it is in time.
  unfoldable pub wait_for_threads : (left at : ℕ) → Daemon → Option ℕ
  wait_for_threads zero at d = none
  wait_for_threads (suc left) at d =
      let later = wait_for_threads left (suc at) d in if waits at d then later else some at

  abbrev pub abort_unfinished : Option ℕ → List ℕ
  abort_unfinished none = []
  abort_unfinished (some task) = if is_finished checks task then [] else task ∷ []

  abbrev pub timed_out : Daemon → Ended
  timed_out d = record {
    result = err cleanup_timed_out;
    daemon = d;
    aborted =
        abort_unfinished d.bg_proc_abort
        ++ (abort_unfinished d.ipc_server_abort ++ abort_unfinished d.bg_listener_abort);
  }

  -- The assertions are made at the next moment.
  abbrev pub finish : Option Drives → Option ℕ → Daemon → Ended
  finish left none d = timed_out d
  finish (some drives) (some at) d = timed_out (record d { drive_mgr = drives })
  finish none (some at) d = record {
    result =
        assert (not (is_unfinished (suc at) d.bg_proc_abort))
        >> (assert (not (is_unfinished (suc at) d.ipc_server_abort))
            >> assert (not (is_unfinished (suc at) d.bg_listener_abort)));
    daemon = cleanup_drive_mgr d;
    aborted = [];
  }

  -- `shutdown`
  unfoldable pub shutdown : Daemon → Ended
  unfolding wait_for_threads
  shutdown d = finish cut (wait_for_threads checks 0 (signalled d)) (signalled d)
