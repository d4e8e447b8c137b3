-- ===== src/Client/Connection.antt =====
-- The exchange of one request of src/bin/client/main.rs. What the socket and serde_json answer is the
-- record `Connection`.
use rs1541fs.Prelude.{
  ℕ, zero, suc, ◌+◌, String, ◌<+>◌, ◌⊎◌, inl, inr, List, [], ◌∷◌, ◌++◌, Option, none, some, ltb,
  length, to_string, if◌then◌else◌,
}
use rs1541fs.Error.{
  Error, io, serde, fs1541, validation, timeout, Duration, Result, ok, err, panic, ◌>>=◌, ◌>>◌,
}
use rs1541fs.Ipc.{Request, ping, Response, pong}
use rs1541fs.Client.Lossy.{from_utf8_lossy}

-- The answers of `read`: `Ok(n)` with the n bytes, an error of the kind `WouldBlock`, or another.
pub data Read : Type 0 where
  bytes_read : List ℕ → Read
  would_block : Read
  read_failed : String → Read

-- One connection: the error of each call, if it fails, the reads that follow a request, in order, and
-- `serde_json::from_str` on the bytes of a text.
pub record Connection : Type 0 where
  pub connect : Option String
  pub set_read_timeout : Option String
  pub set_write_timeout : Option String
  pub to_writer : Option String
  pub write_newline : Option String
  pub flush : Option String
  pub read : Request → ℕ → Read
  pub from_str : List ℕ → Response ⊎ String

abbrev pub max_response_size : ℕ
max_response_size = 0x100000

-- In milliseconds.
abbrev pub operation_timeout : Duration
operation_timeout = 60000

abbrev pub check : (String → Error) → Option String → Result (Unit {0})
check mapped none = ok tt
check mapped (some e) = err (mapped e)

abbrev pub too_long : Error
too_long =
    fs1541 "Response size exceeded limit" (
      validation
        ("Response exceeded maximum size of " <+> to_string max_response_size <+> " bytes"))

abbrev pub timed_out : Error
timed_out = fs1541 "Operation timed out" (timeout "Response read timed out" operation_timeout)

-- One turn of the loop that reads: how it ends, or the data that it goes on with.
unfoldable pub take_in : Read → List ℕ → Result (List ℕ) ⊎ List ℕ
take_in (bytes_read []) response_data = inl (ok response_data)
take_in (bytes_read (b ∷ buf)) response_data =
    if ltb max_response_size (length response_data + length (b ∷ buf))
    then inl (err too_long)
    else inr (response_data ++ from_utf8_lossy (b ∷ buf))
take_in would_block response_data = inl (err timed_out)
take_in (read_failed e) response_data = inl (err (io "Failed to read response" e))

-- The loop, on fuel, from one of the reads on.
unfoldable pub read_response : ℕ → (ℕ → Read) → ℕ → List ℕ → Option (Result (List ℕ))
unfolding take_in
read_response zero reads at response_data = none
read_response (suc fuel) reads at response_data = elim (take_in (reads at) response_data) [
  | inl r ↦ some r
  | inr longer ↦ read_response fuel reads (suc at) longer
]

-- Each turn that goes on adds a byte, so this is enough.
abbrev pub read_fuel : ℕ
read_fuel = suc max_response_size

abbrev pub in_time : Option (Result (List ℕ)) → Result (List ℕ)
in_time none = panic
in_time (some r) = r

-- The whole of the loop.
unfoldable pub read_all : (ℕ → Read) → Result (List ℕ)
read_all reads = in_time (read_response read_fuel reads 0 [])

abbrev pub parsed : Response ⊎ String → Result Response
parsed (inl response) = ok response
parsed (inr e) = err (serde "Failed to parse response" e)

-- `send_request`
unfoldable pub send_request : Connection → Request → Result Response
unfolding read_all
send_request c request =
    check (io "Failed to connect to daemon") c.connect
    >> (check (io "Failed to set read timeout") c.set_read_timeout
        >> (check (io "Failed to set write timeout") c.set_write_timeout
            >> (check (serde "Failed to serialize request") c.to_writer
                >> (check (io "Failed to write newline") c.write_newline
                    >> (check (io "Failed to flush request") c.flush
                        >> (read_all (c.read request) >>= λ response_data.
                            parsed (c.from_str response_data)))))))

abbrev pong_or_error : Response → Result (Unit {0})
pong_or_error pong = ok tt
pong_or_error _ =
    err (
      fs1541 "Daemon health check failed" (validation "Received invalid ping response from server"))

-- `check_daemon_health`
unfoldable pub check_daemon_health : Connection → Result (Unit {0})
unfolding send_request
check_daemon_health c = send_request c ping >>= λ response. pong_or_error response
