-- ===== src/Tests/Commands.antt =====
-- Commands of a client, from their validation to what is printed.
use rs1541fs.Prelude.{
  ℕ, zero, suc, ◌≤◌, length, ◌*◌, String, ◌≡◌, refl, subst, ◌↔◌, inl, inr, false, true, List, [],
  ◌∷◌, none, some, get_elem?, to_string, decimal, ◌==◌, string_eq, nat_eq, arith, if◌then◌else◌,
}
use rs1541fs.Error.{Result, ok}
use rs1541fs.Bg.{OpResponseType, OpResponse, new_operation, set_stream}
use rs1541fs.Proc.{responses}
use rs1541fs.Validate.{Host, validate_mountpoint, absolute_path, check_path, has_write_permission}
use rs1541fs.Ipc.{
  Response, pong, handling, handle_client_request, receive_response, from_op_response,
}
use rs1541fs.Ipc.Answers.{handle}
use rs1541fs.Client.{Args, mount, identify, validate_operation, validate, create_request}
use rs1541fs.Client.Texts.{file_name, last_component, before}
use rs1541fs.Client.Lossy.{from_utf8_lossy, decode}
use rs1541fs.Client.Connection.{
  Connection, bytes_read, read_response, take_in, read_all, send_request, check_daemon_health,
  read_fuel,
}
use rs1541fs.Client.Starting.{Moment, Start, Files, verify_daemon_process, ensure_daemon_running}
use rs1541fs.Client.Running.{main}
use rs1541fs.Client.Laws.Validated.{IsRegular, requested, validate-handling}
use rs1541fs.Client.Laws.Reading.{IsEnd, read_response-IsEnd}
use rs1541fs.Client.Laws.Pieces.{pieces_read}
use rs1541fs.Client.Laws.Waiting.{IsEnsured, ensure_daemon_running-IsEnsured}
use rs1541fs.Client.Laws.Processes.{RunsDaemon, verify_daemon_process-RunsDaemon}
use rs1541fs.Client.Laws.Answered.{Carries, EndsAs, main-receive_response}
use rs1541fs.Handle.{FileHandle, new_handle, to_u64, from_u64}
use rs1541fs.Handle.Laws.{from_u64-to_u64}
use rs1541fs.Tests.Fixtures.{host, identify_8, device_info}

-- A host on which every path leads to one directory.
abbrev any_path_host : Host
any_path_host = record host { exists = λ _. true; canonicalize = λ _. inl "/mnt/cbm" }

any_path_host-IsRegular : IsRegular any_path_host
any_path_host-IsRegular = record {
  canonicalize = λ p q e. subst (λ q. any_path_host.is_absolute q ≡ true) (inl_of p q e) refl;
  validate_device = λ device d e. cc e;
}
  where
    inl_of : (p q : String) → any_path_host.canonicalize p ≡ inl q → "/mnt/cbm" ≡ q
    inl_of p q e = cc e

abbrev mount_args : Args
mount_args = record { operation = mount 8 false "cbm" none }

abbrev mount_args_validated : Args
mount_args_validated = record { operation = mount 8 false "/mnt/cbm" (some "/mnt/cbm") }

mount_args_valid : validate any_path_host mount_args ≡ ok mount_args_validated
unfolding validate validate_operation validate_mountpoint absolute_path check_path
    has_write_permission
mount_args_valid = refl

validate-handling_example :
    handling any_path_host (create_request mount_args_validated.operation)
    ≡ ok (requested mount_args_validated.operation)
validate-handling_example =
    validate-handling any_path_host any_path_host-IsRegular mount_args mount_args_validated
      mount_args_valid

-- Two pieces of a text, and a connection that carries them.
abbrev pieces : List (List ℕ)
pieces = (0x22 ∷ 0x50 ∷ []) ∷ (0x22 ∷ 0x0A ∷ []) ∷ []

abbrev connection : Response → Connection
connection response = record {
  connect = none;
  set_read_timeout = none;
  set_write_timeout = none;
  to_writer = none;
  write_newline = none;
  flush = none;
  read = λ _. pieces_read pieces;
  from_str = λ _. inl response;
}

abbrev files : Files
files path =
    if path == "/tmp/1541d.pid"
    then inl "42\n"
    else if path == "/proc/42/cmdline"
    then inl "/usr/bin/1541fsd"
    else inr "No such file or directory"

abbrev moment : ℕ → Moment
moment k = record { elapsed = k * 1000; connection = connection pong; read_to_string = files }

abbrev started : Start
started = record {
  connection = connection pong;
  var = λ _. none;
  spawn = λ _ _. none;
  moments = moment;
}

ensured : ensure_daemon_running started ≡ some (ok tt)
unfolding ensure_daemon_running check_daemon_health send_request read_all read_response take_in
    from_utf8_lossy decode
ensured = refl

ensure_daemon_running-IsEnsured_example :
    (r : Result (Unit {0})) × (ensure_daemon_running started ≡ some r) × IsEnsured started r
ensure_daemon_running-IsEnsured_example = ensure_daemon_running-IsEnsured started (λ k. omega arith)

verify_daemon_process-RunsDaemon_example :
    (verify_daemon_process files "/tmp/1541d.pid" ≡ ok tt) ↔ RunsDaemon files 42
unfolding to_string decimal
verify_daemon_process-RunsDaemon_example =
    verify_daemon_process-RunsDaemon files "/tmp/1541d.pid" 42 (omega arith) refl

-- The daemon's own name is found, and not that of another program.
file_name_daemon : file_name (before 0 "/usr/bin/1541fsd") ≡ some "1541fsd"
unfolding file_name last_component before
file_name_daemon = refl

-- A character that the socket's reads cut in two is lost.
cut_character :
    read_all (pieces_read ((0xC3 ∷ []) ∷ (0xA9 ∷ []) ∷ []))
    ≡ ok (0xEF ∷ 0xBF ∷ 0xBD ∷ 0xEF ∷ 0xBF ∷ 0xBD ∷ [])
unfolding read_all read_response take_in from_utf8_lossy decode
cut_character = refl

bytes_of : (a b : List ℕ) → bytes_read a ≡ bytes_read b → a ≡ b
bytes_of a b e = cc e

pieces_short : (k : ℕ) (buf : List ℕ) → pieces_read pieces k ≡ bytes_read buf → length buf ≤ 2
pieces_short zero buf e = subst (λ b. length b ≤ 2) (bytes_of _ buf e) (omega arith)
pieces_short (suc zero) buf e = subst (λ b. length b ≤ 2) (bytes_of _ buf e) (omega arith)
pieces_short (suc (suc k)) buf e = subst (λ b. length b ≤ 2) (bytes_of _ buf e) (omega arith)

read_response-IsEnd_example :
    (r : Result (List ℕ)) × (read_response read_fuel (pieces_read pieces) 0 [] ≡ some r) × IsEnd 2 r
read_response-IsEnd_example = read_response-IsEnd 2 (pieces_read pieces) pieces_short

abbrev identify_args : Args
identify_args = record { operation = identify 8 }

identify_args_valid : validate host identify_args ≡ ok identify_args
unfolding validate validate_operation
identify_args_valid = refl

abbrev answer : OpResponse
answer = record { rsp = inl (OpResponseType.identify device_info); stream = some 4 }

answer_sent : responses identify_8 (ok (OpResponseType.identify device_info)) ≡ (3, answer) ∷ []
unfolding responses new_operation
answer_sent = refl

queued : get_elem? (handle host 10 3 4 (create_request (identify 8))).operations 0 ≡ some identify_8
unfolding create_request handle_client_request handling new_operation set_stream
queued = refl

answer_carried :
    Carries
      (connection (from_op_response to_string answer))
      identify_args
      pieces
      (from_op_response to_string answer)
answer_carried = record {
  is_open = record {
    connect = refl;
    set_read_timeout = refl;
    set_write_timeout = refl;
    to_writer = refl;
    write_newline = refl;
    flush = refl;
  };
  read = λ k. refl;
  ascii = (
    (omega arith, (omega arith, (omega arith, tt))),
    ((omega arith, (omega arith, (omega arith, tt))), tt),
  );
  short = omega arith;
  from_str = refl;
}

main-receive_response_example :
    (receive_response to_string none answer ≡ (4, from_op_response to_string answer) ∷ [])
    × EndsAs to_string
        (ok (OpResponseType.identify device_info))
        (main to_string host started (connection (from_op_response to_string answer)) identify_args)
main-receive_response_example =
    main-receive_response to_string host started (connection (from_op_response to_string answer)) 10
      3 4 identify_args identify_args pieces identify_8 (ok (OpResponseType.identify device_info))
      answer identify_args_valid ensured queued answer_sent answer_carried

-- A handle with a sequence number of more than 40 bits.
abbrev file_handle : FileHandle
file_handle = record {
  device_number = 8;
  drive_id = 1;
  channel_number = 15;
  sequence = 0x10000000005;
}

from_u64-to_u64_example : from_u64 (to_u64 file_handle) ≡ new_handle 8 1 15 5
from_u64-to_u64_example =
    from_u64-to_u64 file_handle
      (record { device_number = omega arith; drive_id = omega arith; channel_number = omega arith })
