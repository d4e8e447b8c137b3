-- ===== src/Client/Starting.antt =====
-- Finding and starting the daemon: `verify_daemon_process`, `env_if_exists` and
-- `ensure_daemon_running` of src/bin/client/main.rs.
use rs1541fs.Prelude.{
  ℕ, zero, suc, String, ◌<+>◌, ◌⊎◌, inl, inr, Bool, true, false, ◌&&◌, List, [], ◌∷◌, Option, none,
  some, ltb, ◌==◌, string_eq, to_string, if◌then◌else◌,
}
use rs1541fs.Error.{Error, io, fs1541, operation, validation, timeout, Duration, Result, ok, err}
use rs1541fs.Client.Texts.{trim, parse_u32, before, file_name, join}
use rs1541fs.Client.Connection.{Connection, check_daemon_health}

-- The constants of src/lib/ipc.rs.
abbrev pub daemon_pname : String
daemon_pname = "1541fsd"

abbrev pub daemon_pid_filename : String
daemon_pid_filename = "/tmp/1541d.pid"

-- `read_to_string`: the text of a file, or the text of an error.
abbrev pub Files : Type 0
Files = String → String ⊎ String

-- `read_proc_cmdline`
unfoldable pub read_proc_cmdline : Files → ℕ → String ⊎ String
read_proc_cmdline read_to_string pid = read_to_string ("/proc/" <+> to_string pid <+> "/cmdline")

abbrev pub named : Option String → Bool
named none = false
named (some name) = name == daemon_pname

-- The name of the program in a command line is the daemon's.
unfoldable pub is_daemon : String ⊎ String → Bool
is_daemon (inl proc_cmdline) = named (file_name (before 0 proc_cmdline))
is_daemon (inr e) = false

abbrev checked_process : Files → Option ℕ → Result (Unit {0})
checked_process read_to_string none =
    err (fs1541 "Failed to parse PID" (validation "Invalid PID file content"))
checked_process read_to_string (some pid) =
    if is_daemon (read_proc_cmdline read_to_string pid)
    then ok tt
    else err (fs1541 "Process verification failed" (validation "Daemon process not found"))

abbrev checked_pid_file : Files → String ⊎ String → Result (Unit {0})
checked_pid_file read_to_string (inl pid_str) =
    checked_process read_to_string (parse_u32 (trim pid_str))
checked_pid_file read_to_string (inr e) = err (fs1541 "Failed to read PID file" (validation e))

-- `verify_daemon_process`
unfoldable pub verify_daemon_process : Files → String → Result (Unit {0})
unfolding read_proc_cmdline is_daemon
verify_daemon_process read_to_string pid_file =
    checked_pid_file read_to_string (read_to_string pid_file)

-- The error of `spawn`, by its kind.
pub data SpawnError : Type 0 where
  not_found : SpawnError
  other : String → SpawnError

-- What one turn of the loop that waits for the daemon sees.
pub record Moment : Type 0 where
  pub elapsed : Duration
  pub connection : Connection
  pub read_to_string : Files

-- What starting asks of the system: a first connection, the client's variables, `spawn` of a program
-- with variables, and the turns of the loop.
pub record Start : Type 0 where
  pub connection : Connection
  pub var : String → Option String
  pub spawn : String → List (String × String) → Option SpawnError
  pub moments : ℕ → Moment

-- In milliseconds.
abbrev pub startup_timeout : Duration
startup_timeout = 5000

abbrev pub connect_retry_delay : Duration
connect_retry_delay = 1000

abbrev or_default : Option String → String
or_default none = ""
or_default (some s) = s

abbrev env_of : String → Option String → List (String × String)
env_of key none = []
env_of key (some value) = (key, value) ∷ []

-- `env_if_exists`, on a command without variables
unfoldable pub env_if_exists : (String → Option String) → String → List (String × String)
env_if_exists var key = env_of key (var key)

abbrev pub is_ok {ℓ} : {A : Type ℓ} → Result A → Bool
is_ok (ok _) = true
is_ok _ = false

abbrev pub is_started : Moment → Bool
is_started m =
    is_ok (check_daemon_health m.connection)
    && is_ok (verify_daemon_process m.read_to_string daemon_pid_filename)

abbrev pub startup_failed : Error
startup_failed =
    fs1541 "Daemon startup failed" (timeout "Timed out waiting for daemon to start" startup_timeout)

-- The loop of `ensure_daemon_running`, on fuel, from one of the moments on.
unfoldable pub wait_for_daemon : ℕ → (ℕ → Moment) → ℕ → Option (Result (Unit {0}))
wait_for_daemon zero moments at = none
wait_for_daemon (suc fuel) moments at =
    let next = wait_for_daemon fuel moments (suc at) in
    if ltb (moments at).elapsed startup_timeout
    then (if is_started (moments at) then some (ok tt) else next)
    else some (err startup_failed)

-- A turn takes a second, so the sixth begins after the five seconds of the timeout.
abbrev pub start_fuel : ℕ
start_fuel = 6

abbrev pub spawn_error : String → SpawnError → Error
spawn_error daemon_path not_found =
    fs1541 "Failed to start daemon"
      (operation ("Daemon executable '" <+> daemon_path <+> "' not found"))
spawn_error daemon_path (other e) = io "Failed to start daemon" e

abbrev pub spawned : String → (ℕ → Moment) → Option SpawnError → Option (Result (Unit {0}))
spawned daemon_path moments (some e) = some (err (spawn_error daemon_path e))
spawned daemon_path moments none = wait_for_daemon start_fuel moments 0

unfoldable pub launch : Start → Option SpawnError
unfolding env_if_exists
launch s =
    s.spawn (join (or_default (s.var "DAEMON_PATH")) daemon_pname) (env_if_exists s.var "RUST_LOG")

-- `ensure_daemon_running`
unfoldable pub ensure_daemon_running : Start → Option (Result (Unit {0}))
unfolding wait_for_daemon launch
ensure_daemon_running s =
    if is_ok (check_daemon_health s.connection)
    then some (ok tt)
    else spawned (join (or_default (s.var "DAEMON_PATH")) daemon_pname) s.moments (launch s)
