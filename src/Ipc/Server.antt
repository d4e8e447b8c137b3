-- ===== src/Ipc/Server.antt =====
-- The threads of `IpcServer` of src/bin/server/ipc.rs: its flags, the socket file, and the two loops. A
-- loop is run over the turns of its `select!`. What serde_json makes of a line is a parameter.
pub mod Stopping
use rs1541fs.Prelude.{
  ℕ, String, ◌⊎◌, inl, inr, Bool, true, false, not, ◌||◌, List, [], ◌∷◌, ◌++◌, Option, none, some,
  if◌then◌else◌,
}
use rs1541fs.Error.{Duration, io, serde, Result, ok, err, panic, ◌>>=◌, ◌>>◌}
use rs1541fs.Bg.{OpResponse}
use rs1541fs.Validate.{Host}
use rs1541fs.Ipc.{Request, Response, Handled, handle_client_request, SendFailure, receive_response}

-- The channels are numbers.
pub record IpcServer : Type 0 where
  pub ipc_server_run : Bool
  pub bg_listener_run : Bool
  pub pid : ℕ
  pub bg_proc_tx : ℕ
  pub bg_rsp_tx : ℕ

-- `IpcServer::new`
unfoldable pub new_ipc_server : (pid bg_proc_tx bg_rsp_tx : ℕ) → IpcServer
new_ipc_server pid bg_proc_tx bg_rsp_tx = record {
  ipc_server_run = false;
  bg_listener_run = false;
  pid = pid;
  bg_proc_tx = bg_proc_tx;
  bg_rsp_tx = bg_rsp_tx;
}

unfoldable pub stop_ipc_listener : IpcServer → IpcServer
stop_ipc_listener s = record s { ipc_server_run = false }

unfoldable pub stop_bg_listener : IpcServer → IpcServer
stop_bg_listener s = record s { bg_listener_run = false }

unfoldable pub stop_all : IpcServer → IpcServer
unfolding stop_ipc_listener stop_bg_listener
stop_all s = stop_bg_listener (stop_ipc_listener s)

-- `remove_socket_if_exists`: whether the file is there afterwards; an error is only logged.
unfoldable pub remove_socket_if_exists : (remove_file : Option String) → Bool → Bool
remove_socket_if_exists none present = false
remove_socket_if_exists (some e) present = present

-- `setup_socket`, with the answer of `bind`
unfoldable pub setup_socket : Option String → Result (Unit {0})
setup_socket none = ok tt
setup_socket (some e) = err (io "Failed to bind Unix socket" e)

-- The part of `start_bg_receiver` and of `start_ipc_listener` before their loops.
unfoldable pub start_bg_receiver : IpcServer → IpcServer
start_bg_receiver s = record s { bg_listener_run = true }

unfoldable pub start_ipc_listener : Option String → IpcServer → Result (Unit {0}) × IpcServer
unfolding setup_socket
start_ipc_listener bind s = (setup_socket bind, record s { ipc_server_run = true })

-- `IpcServer::start`: the background receiver first.
unfoldable pub start : Option String → IpcServer → Result (Unit {0}) × IpcServer
unfolding start_bg_receiver start_ipc_listener
start bind s = start_ipc_listener bind (start_bg_receiver s)

-- `receive_request`: from the line that is read, or the error of reading it.
unfoldable pub receive_request : (List ℕ → Request ⊎ String) → List ℕ ⊎ String → Result Request
receive_request from_str (inl line) = elim (from_str line) [
  | inl request ↦ ok request
  | inr e ↦ err (serde "Failed to parse incoming request" e)
]
receive_request from_str (inr e) = err (io "Failed to read request line" e)

-- A turn of a loop: its timer runs out, its flag is cleared by another thread, or something comes in.
pub data Turn (E : Type 0) : Type 0 where
  tick stopped : Turn E
  event : E → Turn E

-- A thread with its flag, whether it has ended, and what it has done.
pub record Thread (O : Type 0) : Type 0 where
  pub running : Bool
  pub ended : Bool
  pub output : List O

-- What both loops are: `handle` gives what an event leads to and whether the loop ends with it.
module _ {E O : Type 0} (handle : E → List O × Bool) where
  abbrev pub turn : Turn E → Thread O → Thread O
  turn tick t = record t { ended = t.ended || not t.running }
  turn stopped t = record t { running = false }
  turn (event e) t =
      if t.ended then t else record t { ended = (handle e).1; output = t.output ++ (handle e).0 }

  unfoldable pub run_loop : List (Turn E) → Thread O → Thread O
  run_loop [] t = t
  run_loop (e ∷ turns) t = run_loop turns (turn e t)

-- A connection that is accepted, with the time and the line that is read from it, or the error of
-- accepting it.
pub data Accepted : Type 0 where
  connection : (now stream : ℕ) → (line : List ℕ ⊎ String) → Accepted
  accept_error : String → Accepted

module _ (host : Host) (bg_rsp_tx : ℕ) (closed : Option String) (failure : Option SendFailure)
    (from_str : List ℕ → Request ⊎ String) where
  abbrev handle_request : (now stream : ℕ) → Result Request → List Handled
  handle_request now stream (ok request) =
      handle_client_request host now bg_rsp_tx closed failure stream request ∷ []
  handle_request now stream _ = []

  abbrev pub accept : Accepted → List Handled × Bool
  accept (connection now stream line) =
      (handle_request now stream (receive_request from_str line), false)
  accept (accept_error e) = ([], false)

  -- The loop of `start_ipc_listener`.
  unfoldable pub ipc_listener : List (Turn Accepted) → Thread Handled → Thread Handled
  unfolding run_loop
  ipc_listener = run_loop accept

module _ (debug_duration : Duration → String) (failure : Option SendFailure) where
  -- A response, or the closed channel.
  abbrev pub received : OpResponse ⊎ String → List (ℕ × Response) × Bool
  received (inl response) = (receive_response debug_duration failure response, false)
  received (inr e) = ([], true)

  -- The loop of `start_bg_receiver`.
  unfoldable pub bg_receiver :
      List (Turn (OpResponse ⊎ String)) → Thread (ℕ × Response) → Thread (ℕ × Response)
  unfolding run_loop
  bg_receiver = run_loop received
