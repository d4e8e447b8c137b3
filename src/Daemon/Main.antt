-- ===== src/Daemon/Main.antt =====
-- `main` of src/bin/server/main.rs, and src/bin/server/signal.rs: the pid file, becoming a daemon, the
-- select of `async_main`, and the exit.
pub mod PidFile
pub mod Outcome
use rs1541fs.Prelude.{
  ℕ, String, ◌<+>◌, Bool, true, false, not, ◌⊎◌, Option, none, some, ◌==◌, nat_eq, to_string,
  if◌then◌else◌,
}
use rs1541fs.Error.{
  Error, rs1541, fs1541, internal, operation, validation, Result, ok, err, panic, ◌>>=◌, ◌>>◌,
}
use rs1541fs.Arguments.{Args}
use rs1541fs.Logging.{Logger, init_logging}
use rs1541fs.Client.Texts.{trim, parse_i32, Integer, plus, minus}
use rs1541fs.Daemon.{Daemon, new_daemon, Tasks, start_threads}
use rs1541fs.Daemon.Stopping.{Ended}

-- What the pid file's handling asks of the system: whether the file, if it is there, can be read and be
-- removed (or the error), and whether a path below /proc exists.
pub record Files : Type 0 where
  pub readable : Bool
  pub remove_file : Option String
  pub proc_exists : String → Bool

-- `{}` of an i32
abbrev pub integer_text : Integer → String
integer_text (plus n) = to_string n
integer_text (minus n) = if n == 0 then "0" else "-" <+> to_string n

-- How a check of the pid file ends: the process exits with code 1, or the result and the file that is
-- then there, by its text.
pub data PidCheck : Type 0 where
  exits : PidCheck
  checked : Result (Unit {0}) → Option String → PidCheck

module _ (files : Files) where
  abbrev pub removed : Option String → String → PidCheck
  removed none content = checked (ok tt) none
  removed (some e) content =
      checked (err (fs1541 "Failed to remove stale PID file" (internal e))) (some content)

  abbrev running : Option Integer → Bool
  running none = false
  running (some pid) = files.proc_exists ("/proc/" <+> integer_text pid)

  -- The file names a process that runs.
  unfoldable pub is_held : String → Bool
  is_held content = if files.readable then running (parse_i32 (trim content)) else false

  -- `check_pid_file`
  unfoldable pub check_pid_file : Option String → PidCheck
  check_pid_file none = checked (ok tt) none
  check_pid_file (some content) =
      if is_held content then exits else removed files.remove_file content

  -- `daemonize.start()`: its error, or the text of the pid file that it writes.
  abbrev daemonized : Result String → Option String → PidCheck
  daemonized (ok content) file = checked (ok tt) (some content)
  daemonized (err e) file = checked (err e) file
  daemonized panic file = checked panic file

  abbrev wrapped : Option String → String → Result String
  wrapped none content = ok content
  wrapped (some e) content = err (fs1541 "Daemonize start failed" (operation e))

  abbrev pub after_check : Option String → String → PidCheck → PidCheck
  after_check failure content exits = exits
  after_check failure content (checked (ok _) file) = daemonized (wrapped failure content) file
  after_check failure content (checked (err e) file) = checked (err e) file
  after_check failure content (checked panic file) = checked panic file

  -- `setup_daemon`, with the error of daemonizing, if it fails, and what it writes to the pid file
  unfoldable pub setup_daemon : Option String → String → Option String → PidCheck
  unfolding check_pid_file
  setup_daemon failure content file = after_check failure content (check_pid_file file)

  -- `MainCleanupGuard`: an error of the removal is ignored.
  abbrev removing : Option String → Option String → Option String
  removing none file = none
  removing (some e) file = file

  unfoldable pub cleanup_guard : Option String → Option String
  cleanup_guard none = none
  cleanup_guard (some content) = removing files.remove_file (some content)

-- The signals that are handled.
pub data Signal : Type 0 where
  sigterm sigint : Signal

-- How the wait for signals ends.
pub data SignalEnd : Type 0 where
  ended : Result (Unit {0}) → SignalEnd
  process_exit : SignalEnd

-- One arm of the `select!`, for either signal: `force_quit` is created by the call.
abbrev pub on_signal : Bool → Signal → SignalEnd
on_signal force_quit signal = if force_quit then process_exit else ended (ok tt)

abbrev registered : String → Option String → Result (Unit {0})
registered name none = ok tt
registered name (some e) = err (fs1541 ("Failed to register to handle " <+> name) (internal e))

abbrev awaited : Result (Unit {0}) → Signal → SignalEnd
awaited (ok _) signal = on_signal false signal
awaited (err e) signal = ended (err e)
awaited panic signal = ended panic

-- `SignalHandler::handle_signals`, with the errors of registering and the first signal
unfoldable pub handle_signals : (sigterm_error sigint_error : Option String) → Signal → SignalEnd
handle_signals sigterm_error sigint_error signal =
    awaited (registered "SIGTERM" sigterm_error >> registered "SIGINT" sigint_error) signal

-- What the main `select!` of `async_main` wakes up to: a thread's end, with its error, or the end of the
-- wait for signals.
pub data Wake : Type 0 where
  bg_proc_ends ipc_server_ends bg_listener_ends : Option String → Wake
  signals : SignalEnd → Wake

abbrev pub thread_ended : String → Option String → Result (Unit {0})
thread_ended message none = ok tt
thread_ended message (some e) = err (fs1541 message (internal e))

-- The select, with how a shutdown ends. The wait for signals leads to it whatever its result is.
unfoldable pub woken : Result (Unit {0}) → Wake → Result (Unit {0})
woken shutdown (bg_proc_ends e) = thread_ended "Background processor thread failed" e
woken shutdown (ipc_server_ends e) = thread_ended "IPC server thread failed" e
woken shutdown (bg_listener_ends e) = thread_ended "Background response thread failed" e
woken shutdown (signals s) = shutdown

-- What `async_main` asks of rs1541 and of the system: the default address, the parsing of an address,
-- `Cbm::new`, `set_bus_recovery_type` and `bind`, each with its error; and what syslog answers and the
-- level of the log.
pub record Outside : Type 0 where
  pub default_remote_addr : String
  pub default_remote_port : ℕ
  pub parse_address : String → Option String
  pub new_cbm : Option ℕ → Option String → Option String
  pub set_bus_recovery_type : Option String
  pub bind : Option String
  pub unix : Unit {0} ⊎ String
  pub log_level : ℕ

abbrev or_text : Option String → String → String
or_text none d = d
or_text (some s) d = s

abbrev or_number : Option ℕ → ℕ → ℕ
or_number none d = d
or_number (some n) d = n

abbrev pub parsed : String → Option String → Result (Option String)
parsed address none = ok (some address)
parsed address (some e) = err (fs1541 "Failed to parse remote address {address_str}" (validation e))

abbrev pub rs1541_result : String → Option String → Result (Unit {0})
rs1541_result message none = ok tt
rs1541_result message (some e) = err (rs1541 message e)

module _ (outside : Outside) where
  abbrev pub address_str : Args → String
  address_str args =
      or_text args.remote_addr outside.default_remote_addr
      <+> ":"
      <+> to_string (or_number args.remote_port outside.default_remote_port)

  -- The remote address, if the network is asked for, by its text.
  unfoldable pub remote : Args → Result (Option String)
  remote args =
      if args.network
      then parsed (address_str args) (outside.parse_address (address_str args))
      else ok none

  -- The logger that `async_main` sets. The process has set none before. `CARGO_BIN_NAME` is 1541fsd.
  abbrev pub logger : ℕ → Args → Result Logger
  logger pid args =
      (init_logging pid outside.log_level false outside.unix (not args.std_logging) "1541fsd").0

  -- `async_main`, up to its select: the tasks and the daemon. `log_args` only logs.
  unfoldable pub start_daemon :
      Tasks → (pid bg_proc_channel bg_rsp_channel : ℕ) → Args → Result (Tasks × Daemon)
  start_daemon tasks pid bg_proc_channel bg_rsp_channel args = logger pid args >>= λ _.
      remote args >>= λ address.
      rs1541_result "Failed to initialize USB xum1541" (outside.new_cbm args.serial address)
      >> (rs1541_result "Failed to set bus recovery type to serial" outside.set_bus_recovery_type
          >> start_threads outside.bind tasks (new_daemon pid bg_proc_channel bg_rsp_channel))

  -- `async_main`, with what it wakes up to and how a shutdown of its daemon ends
  unfoldable pub async_main :
      Tasks
      → (pid bg_proc_channel bg_rsp_channel : ℕ) → Wake
      → (Daemon → Ended)
      → Args
      → Result (Unit {0})
  unfolding start_daemon woken
  async_main tasks pid bg_proc_channel bg_rsp_channel wake shutdown args =
      start_daemon tasks pid bg_proc_channel bg_rsp_channel args >>= λ started.
      woken (shutdown started.1).result wake

-- The exit code: `ExitCode::FAILURE`, `process::exit(1)` and the code of a panic are failures.
pub data ExitCode : Type 0 where
  success failure : ExitCode

abbrev exit_code : Result (Unit {0}) → ExitCode
exit_code (ok _) = success
exit_code _ = failure

module _ (files : Files) where
  abbrev guarded : Result (Unit {0}) → Option String → ExitCode × Option String
  guarded r file = (exit_code r, cleanup_guard files file)

  abbrev pub after_setup :
      Result (Unit {0}) → PidCheck → ExitCode × Option String → ExitCode × Option String
  after_setup r exits stopped = stopped
  after_setup r (checked (ok _) file) stopped = guarded r file
  after_setup r (checked e file) stopped = guarded e file

  -- `main`, with the result of `async_main` and what daemonizing does: the exit code, and the pid file
  -- that is then there. `process::exit` runs no guard.
  unfoldable pub main :
      Result (Unit {0}) → Option String → String → Args → Option String → ExitCode × Option String
  unfolding setup_daemon cleanup_guard
  main r failed content args file =
      if args.foreground
      then guarded r file
      else after_setup r (setup_daemon files failed content file) (failure, file)
