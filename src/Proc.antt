-- ===== src/Proc.antt =====
-- `Proc` of src/bin/server/bg.rs: the background processor. What it sends is a list of responses,
-- each with its channel; what mounting sends to the processor itself is a list of operations.
pub mod Steps
pub mod Typed
pub mod Drained
pub mod Ledger
pub mod Cut
pub mod Kept
use rs1541fs.Prelude.{
  ℕ, String, ◌<+>◌, ◌⊎◌, inl, inr, Bool, true, false, List, [], ◌∷◌, ◌++◌, Option, none, some,
  to_string, if◌then◌else◌,
}
use rs1541fs.Error.{
  Error, rs1541, fs1541, operation, internal, timeout, Result, ok, err, panic, ◌>>=◌,
}
use rs1541fs.Rs1541.{CbmStatus, CbmDriveUnit, CbmDirListing}
use rs1541fs.Env.{Env}
use rs1541fs.Bg.{OpType, OpResponseType, OpResponse, Operation, priority_timeout, display_op}
use rs1541fs.Bg.Queues.{OperationQueues, empty, remove_cache_for_device}
use rs1541fs.Drives.{get_drive, identify_drive, get_drive_status, reset_bus, wrapped}
use rs1541fs.Service.{Service, Handles, mount, unmount}

pub record Proc : Type 0 where
  pub queues : OperationQueues
  pub shutdown : Bool
  pub service : Service

-- `Proc::new`, with the state that it shares; a new `MountService` has the mountpoints and the drives
-- that it is given.
unfoldable pub new : Bool → Service → Proc
new shutdown service = record { queues = empty; shutdown = shutdown; service = service }

-- `Result::map`
abbrev pub mapped {ℓ κ} : {A : Type ℓ} {B : Type κ} → (A → B) → Result A → Result B
mapped f r = r >>= λ a. ok (f a)

-- What an execution gives: the answer, the service after it, and what was sent to the processor.
abbrev pub Outcome : Type 0
Outcome = Result OpResponseType × Service × List Operation

abbrev pub listed : List CbmDirListing × CbmStatus → OpResponseType
listed (listings, status) = OpResponseType.read_directory status listings

abbrev pub file_read : ℕ → String → ℕ → List ℕ × CbmStatus → OpResponseType
file_read device path inode (contents, status) =
    OpResponseType.read_file device path inode status contents

abbrev cancelled_error : Error
cancelled_error = fs1541 "Operation cancelled" (operation "Operation cancelled")

abbrev not_supported : OpType → Error
not_supported op =
    fs1541 ("Operation not yet supported " <+> display_op op)
      (operation ("Operation not supported: " <+> display_op op))

module _ (env : Env) (now : ℕ) (closed : Option String) (h : Handles) where
  unfoldable pub execute : OpType → Service → Outcome
  execute (OpType.mount device mountpoint dummy_formats bus_reset) s =
      let (r, s', sent) = mount env now closed h device mountpoint dummy_formats s in
      (mapped (λ _. OpResponseType.mount) r, s', sent)
  execute (OpType.unmount device mountpoint) s =
      let (r, s') = unmount device mountpoint false s in
      (mapped (λ _. OpResponseType.mount) r, s', [])
  execute (OpType.identify device) s =
      (mapped OpResponseType.identify (identify_drive env.cbm device), s, [])
  execute (OpType.get_status device) s =
      (mapped OpResponseType.get_status (get_drive_status env.cbm device), s, [])
  execute OpType.bus_reset s = (mapped (λ _. OpResponseType.bus_reset) (reset_bus env.cbm), s, [])
  execute (OpType.read_directory device) s = (
    get_drive device s.drives >>= λ unit. mapped listed (
        wrapped ("Failed to read directory for device " <+> to_string unit.device_number)
          (env.cbm.dir unit)),
    s,
    [],
  )
  execute (OpType.read_file device path inode) s = (
    get_drive device s.drives >>= λ unit. mapped (file_read device path inode) (
        wrapped
          ("Failed to read file " <+> path <+> " for device " <+> to_string unit.device_number)
          (env.cbm.read_file unit path)),
    s,
    [],
  )
  execute (OpType.cancel_device_cache device) s = (panic, s, [])
  execute (OpType.write_file device path contents) s =
      (err (not_supported (OpType.write_file device path contents)), s, [])
  execute (OpType.init_drive device drive_unit) s =
      (err (not_supported (OpType.init_drive device drive_unit)), s, [])
  execute (OpType.read_file_cache device path inode) s =
      (err (not_supported (OpType.read_file_cache device path inode)), s, [])

  -- `Proc::execute_operation`
  unfoldable pub execute_operation : OpType → Proc → Outcome
  unfolding execute
  execute_operation op p =
      if p.shutdown then (err cancelled_error, p.service, []) else execute op p.service

-- How `tokio::time::timeout` ends an execution: in time, or not, and then the service is as the
-- execution left it when it was dropped.
pub data Ending : Type 0 where
  in_time : Ending
  too_late : (left : Service) → Ending

abbrev timed_out : Operation → Error
timed_out op =
    fs1541 "Operation timed out" (timeout "Background operation timed out" (priority_timeout op))

-- What processing gives: the answer, the processor after it, the responses that the removal from the
-- queues sends, and what was sent to the processor.
pub record Processed : Type 0 where
  pub answer : Result OpResponseType
  pub after : Proc
  pub removals : List (ℕ × OpResponse)
  pub requests : List Operation

abbrev executed : Proc → Outcome → Processed
executed p (r, s, sent) = record {
  answer = r;
  after = record p { service = s };
  removals = [];
  requests = sent;
}

module _ (env : Env) (now : ℕ) (closed : Option String) (h : Handles) where
  -- `Proc::process_cancel_device_cache`
  unfoldable pub process_cancel_device_cache : ℕ → Proc → Processed
  process_cancel_device_cache device p =
      let (q, sent) = remove_cache_for_device env.debug_duration device p.queues in
      record {
        answer = ok (OpResponseType.cancel_device_cache device);
        after = record p { queues = q };
        removals = sent;
        requests = [];
      }

  -- The answer of `Proc::process_operation`.
  abbrev pub ended : Ending → Operation → Proc → Processed
  ended in_time op p = executed p (execute_operation env now closed h op.op_type p)
  ended (too_late left) op p = executed p (err (timed_out op), left, [])

  abbrev pub process_type : OpType → Ending → Operation → Proc → Processed
  process_type (OpType.cancel_device_cache device) ending op p =
      process_cancel_device_cache device p
  process_type _ ending op p = ended ending op p

  unfoldable pub process_operation : Ending → Operation → Proc → Processed
  unfolding execute_operation process_cancel_device_cache
  process_operation ending op p = process_type op.op_type ending op p

-- The response to an operation, on its channel and with its stream. A panic ends the task before it
-- is sent.
unfoldable pub responses : Operation → Result OpResponseType → List (ℕ × OpResponse)
responses op (ok rsp) = (op.sender, record { rsp = inl rsp; stream = op.stream }) ∷ []
responses op (err e) = (op.sender, record { rsp = inr e; stream = op.stream }) ∷ []
responses op panic = []

-- `Proc::send_resp`: a closed channel is an error, which `run` only logs.
unfoldable pub send_resp :
    Option String → ℕ × OpResponse → Result (Unit {0}) × List (ℕ × OpResponse)
send_resp none response = (ok tt, response ∷ [])
send_resp (some e) response =
    (err (fs1541 "Channel send error" (internal ("Failed to send response: " <+> e))), [])
