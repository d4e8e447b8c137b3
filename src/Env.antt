-- ===== src/Env.antt =====
-- What the daemon asks of code that is not its own: rs1541's bus, how Rust and chrono print times,
-- the package's version, and the answer of `fuser::spawn_mount2` for a mountpoint (the text of its
-- error, if it fails).
use rs1541fs.Prelude.{ℕ, String, Option}
use rs1541fs.Error.{Duration}
use rs1541fs.Rs1541.{Cbm}

pub record Env : Type 0 where
  pub cbm : Cbm
  pub debug_duration : Duration → String
  pub format_time : ℕ → String
  pub version : String
  pub spawn_mount2 : String → Option String
