-- ===== src/Logging.antt =====
-- src/lib/logging.rs: where the log goes. The logger of a process is set at most once, which the crate
-- `log` checks. What syslog answers, and the level that RUST_LOG asks for, are parameters.
use rs1541fs.Prelude.{
  ℕ, String, ◌<+>◌, Bool, true, false, List, [], ◌∷◌, ◌⊎◌, inl, inr, if◌then◌else◌,
}
use rs1541fs.Error.{Result, ok, panic}

-- The loggers that the program sets: a process's name and number in syslog with a level, or standard
-- output, where env_logger takes its own level.
pub data Logger : Type 0 where
  syslog : (process : String) → (pid level : ℕ) → Logger
  stdout : Logger

-- `set_boxed_logger(...).unwrap()` and `Builder::init` panic if a logger is set.
abbrev set_logger : Bool → Logger → Result Logger
set_logger is_set logger = if is_set then panic else ok logger

abbrev fallback : String → List String
fallback e = ("Unable to connect to syslog: " <+> e) ∷ "Falling back to stdout logging" ∷ []

module _ (pid level : ℕ) (is_set : Bool) (unix : Unit {0} ⊎ String) where
  abbrev by_syslog : String → Unit {0} ⊎ String → Result Logger × List String
  by_syslog name (inl _) = (set_logger is_set (syslog name pid level), [])
  by_syslog name (inr e) = (set_logger is_set stdout, fallback e)

  -- `init_logging`: the logger that it sets, and what it prints. `unix` is syslog's answer, an error by
  -- its `Debug` text.
  unfoldable pub init_logging : (daemon : Bool) → (name : String) → Result Logger × List String
  init_logging true name = by_syslog name unix
  init_logging false name = (set_logger is_set stdout, [])
