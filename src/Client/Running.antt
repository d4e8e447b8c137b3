-- ===== src/Client/Running.antt =====
-- `main` of src/bin/client/main.rs.
use rs1541fs.Prelude.{String, ◌<+>◌, List, [], ◌∷◌, Option, none, some}
use rs1541fs.Error.{Duration, display, Result, ok, err, panic}
use rs1541fs.Ipc.{Response, error, identified, got_status}
use rs1541fs.Validate.{Host}
use rs1541fs.Client.{Args, validate, create_request}
use rs1541fs.Client.Connection.{Connection, send_request}
use rs1541fs.Client.Starting.{Start, ensure_daemon_running}

-- How the client ends: with the lines that it has printed, with an error, its context first, or with a
-- panic. `unfinished` is for a loop that is out of fuel.
pub data Exit : Type 0 where
  printed failed : List String → Exit
  panicked unfinished : Exit

-- The `match` on the response.
unfoldable pub show_response : Response → Exit
show_response (error e) = failed (e ∷ [])
show_response (identified device_type description) =
    printed (("Model " <+> device_type <+> " Description \"" <+> description <+> "\"") ∷ [])
show_response (got_status status) = printed (("Status " <+> status) ∷ [])
show_response _ = printed []

module _ (debug_duration : Duration → String) (host : Host) (start : Start)
    (connection : Connection) where
  abbrev pub answered : Result Response → Exit
  answered (ok response) = show_response response
  answered (err e) = failed (display debug_duration e ∷ [])
  answered panic = panicked

  abbrev running : Args → Option (Result (Unit {0})) → Exit
  running args none = unfinished
  running args (some (ok _)) = answered (send_request connection (create_request args.operation))
  running args (some (err e)) =
      failed ("Failed to ensure daemon is running" ∷ display debug_duration e ∷ [])
  running args (some panic) = panicked

  abbrev validated : Result Args → Exit
  validated (ok args) = running args (ensure_daemon_running start)
  validated (err e) = failed (("Argument validation failed: " <+> display debug_duration e) ∷ [])
  validated panic = panicked

  unfoldable pub main : Args → Exit
  unfolding show_response
  main args = validated (validate host args)
