-- ===== src/Arguments.antt =====
-- src/bin/server/args.rs: the daemon's arguments, their defaults, and what the FUSE mounts and the
-- background processor make of them. What clap reads is a value of `Args`.
pub mod Checks
use rs1541fs.Prelude.{
  ℕ, ◌*◌, String, ◌<+>◌, Bool, true, false, List, [], ◌∷◌, ◌++◌, Option, none, some, to_string,
  if◌then◌else◌,
}
use rs1541fs.Error.{Duration, Result, ok, ◌>>=◌}
use rs1541fs.Fuser.{Timers, Counts, Ttls, new_counts}

pub record Args : Type 0 where
  pub serial : Option ℕ
  pub foreground : Bool
  pub std_logging : Bool
  pub network : Bool
  pub remote_addr : Option String
  pub remote_port : Option ℕ
  pub dir_cache_expiry_secs : ℕ
  pub file_cache_expiry_secs : ℕ
  pub dir_reread_timeout_secs : ℕ
  pub file_reread_timeout_secs : ℕ
  pub dir_read_sleep_ms : ℕ
  pub file_read_sleep_ms : ℕ
  pub bg_age_check_secs : ℕ
  pub dir_attr_ttl_ms : ℕ
  pub file_attr_ttl_ms : ℕ
  pub dir_lookup_ttl_ms : ℕ
  pub file_lookup_ttl_ms : ℕ
  pub autounmount : Bool

-- The values without any argument or variable: `default_value` and the actions of the flags.
abbrev pub default_args : Args
default_args = record {
  serial = none;
  foreground = false;
  std_logging = false;
  network = false;
  remote_addr = none;
  remote_port = none;
  dir_cache_expiry_secs = 60;
  file_cache_expiry_secs = 300;
  dir_reread_timeout_secs = 10;
  file_reread_timeout_secs = 30;
  dir_read_sleep_ms = 1000;
  file_read_sleep_ms = 1000;
  bg_age_check_secs = 5;
  dir_attr_ttl_ms = 5000;
  file_attr_ttl_ms = 5000;
  dir_lookup_ttl_ms = 5000;
  file_lookup_ttl_ms = 5000;
  autounmount = true;
}

-- `Duration::from_secs` and `Duration::from_millis`
abbrev pub from_secs : ℕ → Duration
from_secs n = n * 1000

abbrev pub from_millis : ℕ → Duration
from_millis n = n

-- `TTLs::new`
unfoldable pub new_ttls : Args → Ttls
new_ttls args = record {
  dir_lookup = from_millis args.dir_lookup_ttl_ms;
  file_lookup = from_millis args.file_lookup_ttl_ms;
  dir_attr = from_millis args.dir_attr_ttl_ms;
  file_attr = from_millis args.file_attr_ttl_ms;
}

-- `Timers::new`
unfoldable pub new_timers : Args → Timers
new_timers args = record {
  dir_cache = from_secs args.dir_cache_expiry_secs;
  file_cache = from_secs args.file_cache_expiry_secs;
  dir_read = from_secs args.dir_reread_timeout_secs;
  file_read = from_secs args.file_reread_timeout_secs;
  dir_read_sleep = from_millis args.dir_read_sleep_ms;
  file_read_sleep = from_millis args.file_read_sleep_ms;
}

-- `FuserMount`, without the mount, and `FuserMount::new`.
pub record FuserMount : Type 0 where
  pub timers : Timers
  pub counts : Counts
  pub ttls : Ttls

unfoldable pub new_fuser_mount : Args → Result FuserMount
unfolding new_timers new_ttls
new_fuser_mount args = new_counts (new_timers args) >>= λ counts.
    ok (record { timers = new_timers args; counts = counts; ttls = new_ttls args })

-- The `age_check_period` of `Proc::new`.
unfoldable pub age_check_period : Args → Duration
age_check_period args = from_secs args.bg_age_check_secs

pub data Level : Type 0 where
  trace debug info warn error : Level

abbrev first_enabled : (Level → Bool) → List Level → Level
first_enabled log_enabled [] = error
first_enabled log_enabled (level ∷ levels) =
    if log_enabled level then level else first_enabled log_enabled levels

-- `get_effective_level`, with what `log_enabled!` answers for a module
unfoldable pub get_effective_level : (String → Level → Bool) → String → Level
get_effective_level log_enabled name =
    first_enabled (log_enabled name) (trace ∷ debug ∷ info ∷ warn ∷ error ∷ [])

abbrev debug_level : Level → String
debug_level trace = "Trace"
debug_level debug = "Debug"
debug_level info = "Info"
debug_level warn = "Warn"
debug_level error = "Error"

abbrev shown : Option ℕ → String
shown none = "<None>"
shown (some n) = to_string n

abbrev or_none : Option String → String
or_none none = "<None>"
or_none (some s) = s

abbrev bool_text : Bool → String
bool_text true = "true"
bool_text false = "false"

module _ (log_enabled : String → Level → Bool) (rust_log : Option String) where
  abbrev level_of : String → String
  level_of name = debug_level (get_effective_level log_enabled name)

  -- `log_args`: its lines.
  unfoldable pub log_args : Args → List String
  log_args args =
      "--------- 1541fsd Arguments ----------"
      ∷ "Standard args........................."
      ∷ ("  serial:      " <+> shown args.serial)
      ∷ ("  foreground:  " <+> bool_text args.foreground)
      ∷ ("  std_logging: " <+> bool_text args.std_logging)
      ∷ ("  autounmount: " <+> bool_text args.autounmount)
      ∷ "Network xum1541 values ..............."
      ∷ ("  network:      " <+> bool_text args.network)
      ∷ ("  remote_addr:  " <+> or_none args.remote_addr)
      ∷ ("  remote_port:  " <+> shown args.remote_port)
      ∷ "Cache values.........................."
      ∷ ("  dir_cache_expiry_secs:   " <+> to_string args.dir_cache_expiry_secs <+> "s")
      ∷ ("  file_cache_expiry_secs:  " <+> to_string args.file_cache_expiry_secs <+> "s")
      ∷ "Timer values.........................."
      ∷ ("  dir_reread_timeout_secs:   " <+> to_string args.dir_reread_timeout_secs <+> "s")
      ∷ ("  file_reread_timeout_secs:  " <+> to_string args.file_reread_timeout_secs <+> "s")
      ∷ ("  dir_read_sleep_ms:         " <+> to_string args.dir_read_sleep_ms <+> "ms")
      ∷ ("  file_read_sleep_ms:        " <+> to_string args.file_read_sleep_ms <+> "ms")
      ∷ ("  bg_age_check_secs:         " <+> to_string args.bg_age_check_secs <+> "s")
      ∷ "TTL values............................"
      ∷ ("  dir_attr_ttl_ms:     " <+> to_string args.dir_attr_ttl_ms <+> "ms")
      ∷ ("  file_attr_ttl_ms:    " <+> to_string args.file_attr_ttl_ms <+> "ms")
      ∷ ("  dir_lookup_ttl_ms:   " <+> to_string args.dir_lookup_ttl_ms <+> "ms")
      ∷ ("  file_lookup_ttl_ms:  " <+> to_string args.file_lookup_ttl_ms <+> "ms")
      ∷ "Logging settings......................"
      ∷ ("  RUST_LOG:  " <+> or_none rust_log)
      ∷ ("  fuser:     " <+> level_of "fuser")
      ∷ ("  xum1541:   " <+> level_of "xum1541")
      ∷ ("  rs1541:    " <+> level_of "rs1541")
      ∷ ("  1541fsd:   " <+> level_of "1541fsd")
      ∷ []
