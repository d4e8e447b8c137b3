-- ===== src/Tests/Lifecycle.antt =====
-- The start and the end of a daemon.
use rs1541fs.Prelude.{
  String, ◌⊎◌, inl, to_string, ℕ, ◌/◌, ◌≡◌, ◌≢◌, refl, ◌↔◌, Bool, true, false, not, ◌&&◌, List, [],
  ◌∷◌, none, some, leb, arith, if◌then◌else◌,
}
use rs1541fs.Error.{ok, panic}
use rs1541fs.Fuser.{Counts, new_counts, checks}
use rs1541fs.Arguments.{default_args, new_timers}
use rs1541fs.Arguments.Checks.{IsPolled, new_counts-IsPolled}
use rs1541fs.Ipc.{Response, ping, Handled}
use rs1541fs.Bg.{OpResponse, OpResponseType}
use rs1541fs.Ipc.Server.{Turn, tick, event, Thread, Accepted, connection, ipc_listener, bg_receiver}
use rs1541fs.Ipc.Server.Stopping.{IsStopped, ipc_listener-bg_receiver-IsStopped}
use rs1541fs.Daemon.{Daemon, new_daemon, Tasks, start_threads}
use rs1541fs.Daemon.Laws.{IsRunning, IsStart, start_threads-IsStart}
use rs1541fs.Daemon.Stopping.{shutdown}
use rs1541fs.Daemon.Ending.{IsSignalled, StaysFinished, IsEnd, shutdown-IsEnd}
use rs1541fs.Daemon.Main.{Files, main, Outside, signals, ended, async_main}
use rs1541fs.Daemon.Main.PidFile.{is_running, main-cleanup_guard}
use rs1541fs.Daemon.Main.Outcome.{async_main-panic}
use rs1541fs.Tests.Fixtures.{unit_8, host}

abbrev tasks : Tasks
tasks = record { bg_proc = 11; bg_listener = 12; ipc_server = 13 }

start_threads-IsStart_example : IsStart none tasks (start_threads none tasks (new_daemon 42 1 2))
start_threads-IsStart_example = start_threads-IsStart none tasks 42 1 2

-- Every task is finished from the second check on, but the listener never is if `stuck`.
abbrev is_finished : Bool → ℕ → ℕ → Bool
is_finished stuck at task = leb 1 at && not (stuck && leb task 12 && leb 12 task)

is_finished_stays : (stuck : Bool) → StaysFinished (is_finished stuck) tasks 500 none
is_finished_stays true at task h = ground arith
is_finished_stays false at task h = ground arith

abbrev running : Daemon
running = record (new_daemon 42 1 2) {
  bg_proc = some 1;
  ipc_server = some (record {
    ipc_server_run = true;
    bg_listener_run = true;
    pid = 42;
    bg_proc_tx = 1;
    bg_rsp_tx = 2;
  });
  bg_proc_abort = some 11;
  bg_listener_abort = some 12;
  ipc_server_abort = some 13;
  drive_mgr = (8, unit_8) ∷ [];
}

running-IsRunning : IsRunning tasks running
running-IsRunning = record {
  bg_proc = (1, refl);
  ipc_server = (_, refl);
  bg_proc_abort = refl;
  ipc_server_abort = refl;
  bg_listener_abort = refl;
}

shutdown-IsEnd_example :
    IsSignalled (shutdown (is_finished true) 500 none running).daemon
    × IsEnd (is_finished true) tasks 500 none (shutdown (is_finished true) 500 none running)
shutdown-IsEnd_example =
    shutdown-IsEnd (is_finished true) tasks 500 none running (is_finished_stays true)
      running-IsRunning

abbrev outside : Outside
outside = record {
  default_remote_addr = "127.0.0.1";
  default_remote_port = 1541;
  parse_address = λ _. none;
  new_cbm = λ _ _. none;
  set_bus_recovery_type = none;
  bind = none;
  unix = inl tt;
  log_level = 3;
}

async_main-panic_example :
    async_main outside tasks 42 1 2
      (signals (ended (ok tt)))
      (shutdown (is_finished false) 500 none)
      default_args
    ≢ panic
async_main-panic_example =
    async_main-panic outside tasks 42 1 2 (signals (ended (ok tt))) (is_finished false) 500 none
      default_args (is_finished_stays false)

-- A daemon that runs as process 42.
abbrev files : Files
files = record { readable = true; remove_file = none; proc_exists = λ _. true }

main-cleanup_guard_example :
    (main files (ok tt) none "43\n" default_args (some "42\n")).1
    ≡ (if not default_args.foreground && is_running files (some "42\n") then some "42\n" else none)
main-cleanup_guard_example =
    main-cleanup_guard files (ok tt) none "43\n" default_args (some "42\n") refl

abbrev default_counts : Counts
default_counts = record { dir_check = 10; file_check = 30 }

new_counts-IsPolled_example : (new_counts (new_timers default_args) ≡ ok default_counts) ↔ (
    IsPolled 10000 1000
    × IsPolled 30000 1000
    × (default_counts ≡ record { dir_check = 10000 / 1000; file_check = 30000 / 1000 }))
new_counts-IsPolled_example = new_counts-IsPolled default_args default_counts

default_counts_given : new_counts (new_timers default_args) ≡ ok default_counts
unfolding new_counts new_timers checks
default_counts_given = refl

-- A ping, and a ping that comes after the end.
abbrev ping_turns : List (Turn Accepted)
ping_turns = event (connection 10 4 (inl (0x22 ∷ []))) ∷ []

abbrev listener : Thread Handled
listener = record { running = true; ended = false; output = [] }

abbrev response_turns : List (Turn (OpResponse ⊎ String))
response_turns =
    event (inl (record { rsp = inl OpResponseType.bus_reset; stream = some 4 })) ∷ tick ∷ []

abbrev receiver : Thread (ℕ × Response)
receiver = record { running = true; ended = false; output = [] }

ipc_listener-bg_receiver-IsStopped_example :
    IsStopped (ipc_listener host 3 none none (λ _. inl ping)) ping_turns [] ping_turns listener
    × IsStopped (bg_receiver to_string none) response_turns [] response_turns receiver
ipc_listener-bg_receiver-IsStopped_example =
    ipc_listener-bg_receiver-IsStopped host 3 none none (λ _. inl ping) to_string ping_turns []
      ping_turns listener response_turns [] response_turns receiver
