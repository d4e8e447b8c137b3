-- ===== src/Ipc.antt =====
-- src/lib/ipc.rs and the request handling of src/bin/server/ipc.rs. A client's connection is a
-- number, and what is sent on it is the list of the responses. JSON and the socket are not modelled.
pub mod Answers
pub mod Typed
pub mod Server
use rs1541fs.Prelude.{
  ℕ, String, ◌<+>◌, ◌⊎◌, inl, inr, Bool, true, false, List, [], ◌∷◌, Option, none, some, to_string,
  if◌then◌else◌,
}
use rs1541fs.Error.{
  Error, io, fs1541, internal, Duration, display, Result, ok, err, panic, ◌>>=◌, ◌>>◌,
}
use rs1541fs.Bg.{
  OpType, OpResponseType, OpResponse, Operation, new_operation, set_stream, take_stream,
}
use rs1541fs.Validate.{Host, validate_mount_request, validate_unmount_request}

pub data Request : Type 0 where
  mount : (mountpoint : String) → (device : ℕ) → (dummy_formats bus_reset : Bool) → Request
  unmount : (mountpoint : Option String) → (device : Option ℕ) → Request
  bus_reset ping die : Request
  identify get_status : (device : ℕ) → Request

pub data Response : Type 0 where
  mount_success unmount_success bus_reset_success : Response
  error : String → Response
  pong dying : Response
  identified : (device_type description : String) → Response
  got_status : String → Response

abbrev bool_text : Bool → String
bool_text true = "true"
bool_text false = "false"

abbrev display_unmount : Option String → Option ℕ → String
display_unmount (some path) none = "Unmount request: path '" <+> path <+> "'"
display_unmount none (some dev) = "Unmount request: device " <+> to_string dev
display_unmount (some path) (some dev) =
    "Unmount request: device " <+> to_string dev <+> " at '" <+> path <+> "'"
display_unmount none none = "Unmount request: no target specified"

-- The `Display` texts of `Request` and `Response`.
unfoldable pub display_request : Request → String
display_request (mount mountpoint device dummy_formats reset) =
    "Mount request: device "
    <+> to_string device
    <+> " at '"
    <+> mountpoint
    <+> "' (dummy formats: "
    <+> bool_text dummy_formats
    <+> ", bus reset: "
    <+> bool_text reset
    <+> ")"
display_request (unmount mountpoint device) = display_unmount mountpoint device
display_request bus_reset = "Bus reset request"
display_request ping = "Ping request"
display_request die = "Shutdown request"
display_request (identify device) = "Identify request: device " <+> to_string device
display_request (get_status device) = "Get status request: device " <+> to_string device

unfoldable pub display_response : Response → String
display_response mount_success = "Mount successful"
display_response unmount_success = "Unmount successful"
display_response bus_reset_success = "Bus reset successful"
display_response (error msg) = "Error: " <+> msg
display_response pong = "Pong"
display_response dying = "Shutting down"
display_response (identified device_type description) =
    "Device identified: " <+> device_type <+> " (" <+> description <+> ")"
display_response (got_status status) = "Status: " <+> status

-- Where sending a response on a connection fails.
pub data SendFailure : Type 0 where
  serialize write flush : String → SendFailure

-- `IpcServer::send_response`; a flush that fails comes after the write.
unfoldable pub send_response :
    Option SendFailure → ℕ → Response → Result (Unit {0}) × List (ℕ × Response)
send_response none stream response = (ok tt, (stream, response) ∷ [])
send_response (some (serialize e)) stream response =
    (err (fs1541 "Failed to serialize response" (internal e)), [])
send_response (some (write e)) stream response = (err (io "Failed to write response" e), [])
send_response (some (flush e)) stream response =
    (err (io "Failed to flush response" e), (stream, response) ∷ [])

-- What the daemon makes of a request: an operation for the background processor, or a response.
abbrev pub Handling : Type 0
Handling = OpType ⊎ Response

unfoldable pub handling : Host → Request → Result Handling
unfolding validate_mount_request validate_unmount_request
handling host (mount mountpoint device dummy_formats reset) =
    validate_mount_request host mountpoint device >>= λ path.
    ok (inl (OpType.mount device path dummy_formats reset))
handling host (unmount mountpoint device) =
    validate_unmount_request host mountpoint device >> ok (inl (OpType.unmount device mountpoint))
handling host bus_reset = ok (inl OpType.bus_reset)
handling host (identify device) = ok (inl (OpType.identify device))
handling host (get_status device) = ok (inl (OpType.get_status device))
handling host ping = ok (inr pong)
handling host die = ok (inr dying)

-- What handling a request does: its result, what it sends to the background processor and to the
-- client, and whether it has the daemon signalled to end, 250 ms later.
pub record Handled : Type 0 where
  pub result : Result (Unit {0})
  pub operations : List Operation
  pub responses : List (ℕ × Response)
  pub ends_daemon : Bool

abbrev only : Result (Unit {0}) → Handled
only r = record { result = r; operations = []; responses = []; ends_daemon = false }

abbrev is_die : Request → Bool
is_die die = true
is_die _ = false

-- `op.set_stream(writer)?; bg_proc_tx.try_send(op)`
abbrev try_send : Option String → Result (Unit {0}) × Operation → Handled
try_send none (ok _, op) = record {
  result = ok tt;
  operations = op ∷ [];
  responses = [];
  ends_daemon = false;
}
try_send (some e) (ok _, op) =
    only (err (fs1541 "Failed to send message to background processor" (internal e)))
try_send closed (err e, op) = only (err e)
try_send closed (panic, op) = only panic

abbrev handled :
    ℕ → ℕ → Option String → Option SendFailure → ℕ → Request → Result Handling → Handled
handled now bg_rsp_tx closed failure stream request (err e) = only (err e)
handled now bg_rsp_tx closed failure stream request panic = only panic
handled now bg_rsp_tx closed failure stream request (ok (inl op)) =
    try_send closed (set_stream (new_operation now op bg_rsp_tx none) stream)
handled now bg_rsp_tx closed failure stream request (ok (inr response)) =
    let (r, sent) = send_response failure stream response in
    record { result = r; operations = []; responses = sent; ends_daemon = is_die request }

-- `IpcServer::handle_client_request`; `bg_rsp_tx` is the server's channel for responses, `closed` the
-- state of the processor's.
unfoldable pub handle_client_request :
    Host
    → (now bg_rsp_tx : ℕ) → Option String
    → Option SendFailure
    → (stream : ℕ) → Request
    → Handled
unfolding handling send_response
handle_client_request host now bg_rsp_tx closed failure stream request =
    handled now bg_rsp_tx closed failure stream request (handling host request)

-- `impl From<OpResponseWrapper> for Response`, on a response
module _ (debug_duration : Duration → String) where
  abbrev from_rsp : OpResponseType ⊎ Error → Response
  from_rsp (inl OpResponseType.mount) = mount_success
  from_rsp (inl OpResponseType.unmount) = unmount_success
  from_rsp (inl OpResponseType.bus_reset) = bus_reset_success
  from_rsp (inl (OpResponseType.identify info)) =
      identified info.device_type.as_str info.description
  from_rsp (inl (OpResponseType.get_status status)) = got_status status.to_string
  from_rsp (inl _) = error "Unsupported response type"
  from_rsp (inr e) = error (display debug_duration e)

  unfoldable pub from_op_response : OpResponse → Response
  from_op_response r = from_rsp r.rsp

  abbrev answered : Option SendFailure → Result ℕ × OpResponse → List (ℕ × Response)
  answered failure (ok stream, r) = (send_response failure stream (from_op_response r)).1
  answered failure (_, r) = []

  -- The background receiver's turn for one response: what it sends to the client.
  unfoldable pub receive_response : Option SendFailure → OpResponse → List (ℕ × Response)
  unfolding from_op_response send_response take_stream
  receive_response failure r = answered failure (take_stream r)
