-- ===== src/Client.antt =====
-- src/bin/client/args.rs, and `create_request` of src/bin/client/main.rs: the client's commands, their
-- validation, and the request that each sends. What clap reads from the command line is the value of
-- `Args`.
pub mod Texts
pub mod Lossy
pub mod Connection
pub mod Starting
pub mod Running
pub mod Laws
use rs1541fs.Prelude.{
  ℕ, String, ◌<+>◌, Bool, true, false, ◌&&◌, Option, none, some, is_some, is_none, to_string,
  if◌then◌else◌,
}
use rs1541fs.Error.{fs1541, configuration, Result, ok, err, ◌>>=◌, ◌>>◌}
use rs1541fs.Validate.{Host, ValidationType, device_result, validate_mountpoint}
use rs1541fs.Ipc.{Request}

-- `path` is the validated absolute path.
pub data ClientOperation : Type 0 where
  resetbus : ClientOperation
  mount :
      (device : ℕ)
      → (dummy_formats : Bool) → (mountpoint : String) → (path : Option String) → ClientOperation
  unmount :
      (device : Option ℕ) → (mountpoint : Option String) → (path : Option String) → ClientOperation
  identify getstatus : (device : ℕ) → ClientOperation
  kill : ClientOperation

pub record Args : Type 0 where
  pub operation : ClientOperation

abbrev or_zero : Option ℕ → ℕ
or_zero none = 0
or_zero (some n) = n

abbrev or_empty : Option String → String
or_empty none = ""
or_empty (some s) = s

-- `ClientOperation::log`: the text of its line.
unfoldable pub log : ClientOperation → String
log resetbus = "Operation: Reset Bus"
log (mount device dummy_formats mountpoint path) =
    "Operation: Mount device "
    <+> to_string device
    <+> " at '"
    <+> mountpoint
    <+> "'"
    <+> (if dummy_formats then " with dummy formats" else "")
log (unmount device mountpoint path) =
    "Operation: Unmount device "
    <+> to_string (or_zero device)
    <+> " or mountpoint "
    <+> or_empty mountpoint
log (identify device) = "Operation: Identify device " <+> to_string device
log (getstatus device) = "Operation: Get status of device " <+> to_string device
log kill = "Operation: Kill daemon"

module _ (host : Host) where
  abbrev pub check_device : ℕ → Result (Unit {0})
  check_device device = device_result host (host.validate_device (some device)) >>= λ _. ok tt

  abbrev pub check_optional_device : Option ℕ → Result (Unit {0})
  check_optional_device none = ok tt
  check_optional_device (some device) = check_device device

  abbrev pub check_mountpoint : Option ℕ → Option String → Option String → Result ClientOperation
  check_mountpoint device none path = ok (unmount device none path)
  check_mountpoint device (some mountpoint) path =
      validate_mountpoint host mountpoint ValidationType.unmount true >>= λ new_path.
      ok (unmount device (some new_path) (some new_path))

  -- The `match` of `Args::validate`.
  unfoldable pub validate_operation : ClientOperation → Result ClientOperation
  validate_operation (mount device dummy_formats mountpoint path) =
      check_device device
      >> (validate_mountpoint host mountpoint ValidationType.mount true >>= λ new_path.
          ok (mount device dummy_formats new_path (some new_path)))
  validate_operation (unmount device mountpoint path) =
      if is_none device && is_none mountpoint
      then err (
          fs1541 "Unmount validation failed"
            (configuration "Either --device or mountpoint must be specified for unmount"))
      else if is_some device && is_some mountpoint
      then err (
          fs1541 "Unmount validation failed"
            (configuration "Only specify --device or mountpoint on unmount"))
      else check_optional_device device >> check_mountpoint device mountpoint path
  validate_operation (identify device) = check_device device >> ok (identify device)
  validate_operation (getstatus device) = check_device device >> ok (getstatus device)
  validate_operation resetbus = ok resetbus
  validate_operation kill = ok kill

  -- `Args::validate`
  unfoldable pub validate : Args → Result Args
  unfolding validate_operation
  validate args =
      validate_operation args.operation >>= λ operation. ok (record { operation = operation })

-- `create_request`
unfoldable pub create_request : ClientOperation → Request
create_request (mount device dummy_formats mountpoint path) =
    Request.mount mountpoint device dummy_formats false
create_request (unmount device mountpoint path) = Request.unmount mountpoint device
create_request (identify device) = Request.identify device
create_request (getstatus device) = Request.get_status device
create_request resetbus = Request.bus_reset
create_request kill = Request.die
