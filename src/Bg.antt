-- ===== src/Bg.antt =====
-- src/bin/server/bg.rs: the operations of the background processor and their priorities.
-- A path is its text, a socket's write half and a channel's sender are numbers that identify them,
-- an instant is a number of milliseconds.
pub mod Queues
pub mod Responses
use rs1541fs.Prelude.{
  ℕ, String, Bool, true, false, not, List, [], Option, none, some, ◌⊎◌, inl, inr, is_some,
  if◌then◌else◌,
}
use rs1541fs.Error.{Error, fs1541, internal, Duration, Result, ok, err}
use rs1541fs.Rs1541.{CbmStatus, CbmDeviceInfo, CbmDirListing}

pub data Priority : Type 0 where
  critical high normal low : Priority

pub data OpType : Type 0 where
  bus_reset : OpType
  mount : (device : ℕ) → (mountpoint : String) → (dummy_formats bus_reset : Bool) → OpType
  unmount : (device : Option ℕ) → (mountpoint : Option String) → OpType
  read_directory : (device : ℕ) → OpType
  read_file : (device : ℕ) → (path : String) → (inode : ℕ) → OpType
  write_file : (device : ℕ) → (path : String) → (contents : List ℕ) → OpType
  init_drive : (device drive_unit : ℕ) → OpType
  identify : (device : ℕ) → OpType
  get_status : (device : ℕ) → OpType
  read_file_cache : (device : ℕ) → (path : String) → (inode : ℕ) → OpType
  cancel_device_cache : (device : ℕ) → OpType

-- `OpType::priority`
unfoldable pub priority : OpType → Priority
priority bus_reset = critical
priority (mount _ _ _ _) = high
priority (unmount _ _) = high
priority (read_file _ _ _) = normal
priority (write_file _ _ _) = normal
priority (read_directory _) = normal
priority (init_drive _ _) = normal
priority (identify _) = normal
priority (get_status _) = normal
priority (read_file_cache _ _ _) = low
priority (cancel_device_cache _) = critical

-- `Priority::timeout`
unfoldable pub timeout : Priority → Duration
timeout critical = 30000
timeout high = 60000
timeout normal = 120000
timeout low = 300000

-- `OpType::timeout`
unfoldable pub op_timeout : OpType → Duration
unfolding priority timeout
op_timeout op = timeout (priority op)

-- `OpType::affects_bus`
pub affects_bus : OpType → Bool
affects_bus bus_reset = true
affects_bus _ = false

-- `OpType::requires_drive_access`
pub requires_drive_access : OpType → Bool
requires_drive_access (cancel_device_cache _) = false
requires_drive_access _ = true

-- The `Display` texts of `Priority` and `OpType`.
unfoldable pub display_priority : Priority → String
display_priority critical = "Critical"
display_priority high = "High"
display_priority normal = "Normal"
display_priority low = "Low"

unfoldable pub display_op : OpType → String
display_op bus_reset = "BusReset"
display_op (mount _ _ _ _) = "Mount"
display_op (unmount _ _) = "Unmount"
display_op (read_directory _) = "ReadDirectory"
display_op (read_file _ _ _) = "ReadFile"
display_op (write_file _ _ _) = "WriteFile"
display_op (init_drive _ _) = "InitDrive"
display_op (identify _) = "Identify"
display_op (get_status _) = "GetStatus"
display_op (read_file_cache _ _ _) = "ReadFileCache"
display_op (cancel_device_cache _) = "CancelDeviceCache"

pub data OpResponseType : Type 0 where
  bus_reset mount unmount : OpResponseType
  read_directory : CbmStatus → List CbmDirListing → OpResponseType
  read_file :
      (device : ℕ)
      → (path : String) → (inode : ℕ) → CbmStatus
      → (contents : List ℕ) → OpResponseType
  write_file : (device : ℕ) → (path : String) → CbmStatus → (bytes_written : ℕ) → OpResponseType
  init_drive : CbmStatus → OpResponseType
  identify : CbmDeviceInfo → OpResponseType
  get_status : CbmStatus → OpResponseType
  read_file_cache :
      (device : ℕ)
      → (path : String) → (inode : ℕ) → CbmStatus
      → (contents : List ℕ) → OpResponseType
  cancel_device_cache : (device : ℕ) → OpResponseType

-- The Rust field `rsp` is a `Result`: `inl` is `Ok` and `inr` is `Err`.
pub record OpResponse : Type 0 where
  pub rsp : OpResponseType ⊎ Error
  pub stream : Option ℕ

-- `OpResponse::with_error`
pub with_error : Error → Option ℕ → OpResponse
with_error e stream = record { rsp = inr e; stream = stream }

-- `OpResponse::take_stream`: the stream, and the response without it.
unfoldable pub take_stream : OpResponse → Result ℕ × OpResponse
take_stream r = elim r.stream [
  | none ↦ (
    err (fs1541 "Couldn't resond to request from client" (internal "No stream on OpResponse")),
    r,
  )
  | some s ↦ (ok s, record r { stream = none })
]

-- `impl From<OpType> for OpResponseType`, with rs1541's default status and device information.
pub from_op_type : CbmStatus → CbmDeviceInfo → OpType → OpResponseType
from_op_type s i OpType.bus_reset = OpResponseType.bus_reset
from_op_type s i (OpType.mount _ _ _ _) = OpResponseType.mount
from_op_type s i (OpType.unmount _ _) = OpResponseType.unmount
from_op_type s i (OpType.read_directory _) = OpResponseType.read_directory s []
from_op_type s i (OpType.read_file d p n) = OpResponseType.read_file d p n s []
from_op_type s i (OpType.write_file d p _) = OpResponseType.write_file d p s 0
from_op_type s i (OpType.init_drive _ _) = OpResponseType.init_drive s
from_op_type s i (OpType.identify _) = OpResponseType.identify i
from_op_type s i (OpType.get_status _) = OpResponseType.get_status s
from_op_type s i (OpType.read_file_cache d p n) = OpResponseType.read_file_cache d p n s []
from_op_type s i (OpType.cancel_device_cache d) = OpResponseType.cancel_device_cache d

pub record Operation : Type 0 where
  pub priority : Priority
  pub op_type : OpType
  pub created_at : ℕ
  pub sender : ℕ
  pub stream : Option ℕ

-- `Operation::new`; `now` is the instant at which it is called.
unfoldable pub new_operation : ℕ → OpType → ℕ → Option ℕ → Operation
unfolding priority
new_operation now op_type sender stream = record {
  priority = priority op_type;
  op_type = op_type;
  created_at = now;
  sender = sender;
  stream = stream;
}

-- `Operation::priority_timeout`
unfoldable pub priority_timeout : Operation → Duration
unfolding timeout
priority_timeout op = timeout op.priority

-- `Operation::set_stream`
unfoldable pub set_stream : Operation → ℕ → Result (Unit {0}) × Operation
set_stream op s =
    if is_some op.stream
    then (
      err (fs1541 "Couldn't handle request from client" (internal "Operation stream already set")),
      op,
    )
    else (ok tt, record op { stream = some s })
