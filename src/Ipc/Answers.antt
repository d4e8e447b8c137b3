-- ===== src/Ipc/Answers.antt =====
-- What becomes of a client's request.
use rs1541fs.Prelude.{
  ℕ, Bool, true, false, String, Option, ◌≡◌, ◌≢◌, refl, inl, inr, [], ◌∷◌, none, some, ap, sym,
  get_elem?, string_eq,
}
use mathlib.Core.Option.{some-injective}
use rs1541fs.Error.{Duration, Result, ok, err, panic, display, ◌>>=◌}
use rs1541fs.Bg.{
  OpType, OpResponseType, OpResponse, Operation, new_operation, set_stream, take_stream,
}
use rs1541fs.Validate.{Host, validate_mount_request, validate_unmount_request}
use rs1541fs.Ipc.{
  Request, mount, unmount, bus_reset, ping, die, identify, get_status, Response, mount_success,
  unmount_success, bus_reset_success, error, pong, dying, identified, got_status, Handling,
  handling, Handled, handled, handle_client_request, from_op_response, receive_response,
  send_response,
}
use rs1541fs.Proc.{responses}

-- With channels that take what is sent.
module _ (host : Host) (now bg_rsp_tx stream : ℕ) where
  abbrev pub handle : Request → Handled
  handle request = handle_client_request host now bg_rsp_tx none none stream request

  -- One operation is sent to the processor, of this type, with the server's channel and the client's
  -- stream, and nothing to the client.
  abbrev pub Queued : OpType → Handled → Type 0
  Queued t h =
      (op : Operation) × (h.operations ≡ op ∷ [])
      × (op.op_type ≡ t)
      × (op.created_at ≡ now)
      × (op.sender ≡ bg_rsp_tx)
      × (op.stream ≡ some stream)
      × (h.result ≡ ok tt)
      × (h.responses ≡ [])
      × (h.ends_daemon ≡ false)

  -- One response is sent to the client, and nothing to the processor.
  abbrev pub Replied : Response → Bool → Handled → Type 0
  Replied response ends h =
      (h.responses ≡ (stream, response) ∷ [])
      × (h.result ≡ ok tt)
      × (h.operations ≡ [])
      × (h.ends_daemon ≡ ends)

  -- Nothing is sent.
  abbrev pub Refused : Result (Unit {0}) → Handled → Type 0
  Refused r h = (h.result ≡ r) × (h.operations ≡ []) × (h.responses ≡ []) × (h.ends_daemon ≡ false)

  -- What follows a validation: a validation that fails or panics is the end.
  abbrev pub Validated : {A : Type 0} → Result A → (A → OpType) → Handled → Type 0
  Validated (ok a) t h = Queued (t a) h
  Validated (err e) t h = Refused (err e) h
  Validated panic t h = Refused panic h

  -- What is to become of each request.
  abbrev pub IsHandled : Request → Handled → Type 0
  IsHandled (mount mountpoint device dummy_formats reset) h =
      Validated (validate_mount_request host mountpoint device)
        (λ path. OpType.mount device path dummy_formats reset) h
  IsHandled (unmount mountpoint device) h =
      Validated (validate_unmount_request host mountpoint device)
        (λ _. OpType.unmount device mountpoint) h
  IsHandled bus_reset h = Queued OpType.bus_reset h
  IsHandled (identify device) h = Queued (OpType.identify device) h
  IsHandled (get_status device) h = Queued (OpType.get_status device) h
  IsHandled ping h = Replied pong false h
  IsHandled die h = Replied dying true h

  handled-Queued :
      (request : Request) (t : OpType)
      → Queued t (handled now bg_rsp_tx none none stream request (ok (inl t)))
  unfolding set_stream new_operation
  handled-Queued request t = (_, refl, refl, refl, refl, refl, refl, refl, refl)

  handled-Validated :
      {A : Type 0} (request : Request) (r : Result A) (t : A → OpType)
      → Validated r t (handled now bg_rsp_tx none none stream request (r >>= λ a. ok (inl (t a))))
  handled-Validated request (ok a) t = handled-Queued request (t a)
  handled-Validated request (err e) t = (refl, refl, refl, refl)
  handled-Validated request panic t = (refl, refl, refl, refl)

  -- With channels that take what is sent: a mount and an unmount are validated, and, if that succeeds,
  -- queued as that operation, with the validated path for a mount; if it fails or panics, this is the
  -- result and nothing is sent; a reset, an identification and a status request are queued; a ping is
  -- answered with a pong and a die with dying, which alone ends the daemon. What is queued is one
  -- operation with the client's stream, and then nothing is sent to the client.
  pub handle_client_request-IsHandled : (request : Request) → IsHandled request (handle request)
  unfolding handle_client_request handling send_response
  handle_client_request-IsHandled (mount mountpoint device dummy_formats reset) =
      handled-Validated (mount mountpoint device dummy_formats reset)
        (validate_mount_request host mountpoint device)
        (λ path. OpType.mount device path dummy_formats reset)
  handle_client_request-IsHandled (unmount mountpoint device) =
      handled-Validated (unmount mountpoint device)
        (validate_unmount_request host mountpoint device) (λ _. OpType.unmount device mountpoint)
  handle_client_request-IsHandled bus_reset = handled-Queued bus_reset OpType.bus_reset
  handle_client_request-IsHandled (identify device) =
      handled-Queued (identify device) (OpType.identify device)
  handle_client_request-IsHandled (get_status device) =
      handled-Queued (get_status device) (OpType.get_status device)
  handle_client_request-IsHandled ping = (refl, refl, refl, refl)
  handle_client_request-IsHandled die = (refl, refl, refl, refl)

  handled-queued :
      (request : Request) (r : Result Handling) (op : Operation)
      → get_elem? (handled now bg_rsp_tx none none stream request r).operations 0 ≡ some op
      → (op.sender ≡ bg_rsp_tx) × (op.stream ≡ some stream)
  unfolding set_stream new_operation send_response
  handled-queued request (ok (inl t)) op e = (
    ap (λ o. o.sender) (sym (some-injective _ _ e)),
    ap (λ o. o.stream) (sym (some-injective _ _ e)),
  )
  handled-queued request (ok (inr response)) op e = absurd (cc e)
  handled-queued request (err x) op e = absurd (cc e)
  handled-queued request panic op e = absurd (cc e)

  -- What the client is told of an answer; the types of answers that no request asks for are errors.
  abbrev pub Tells : (Duration → String) → Result OpResponseType → Response → Type 0
  Tells debug_duration (err e) r = r ≡ error (display debug_duration e)
  Tells debug_duration (ok OpResponseType.mount) r = r ≡ mount_success
  Tells debug_duration (ok OpResponseType.unmount) r = r ≡ unmount_success
  Tells debug_duration (ok OpResponseType.bus_reset) r = r ≡ bus_reset_success
  Tells debug_duration (ok (OpResponseType.identify info)) r =
      r ≡ identified info.device_type.as_str info.description
  Tells debug_duration (ok (OpResponseType.get_status status)) r = r ≡ got_status status.to_string
  Tells debug_duration (ok _) r = (text : String) × (r ≡ error text)
  Tells debug_duration panic r = ⊥

  ok-Tells :
      (debug_duration : Duration → String) (rsp : OpResponseType) (s : Option ℕ)
      → Tells debug_duration
          (ok rsp)
          (from_op_response debug_duration (record { rsp = inl rsp; stream = s }))
  unfolding from_op_response
  ok-Tells debug_duration OpResponseType.mount s = refl
  ok-Tells debug_duration OpResponseType.unmount s = refl
  ok-Tells debug_duration OpResponseType.bus_reset s = refl
  ok-Tells debug_duration (OpResponseType.identify info) s = refl
  ok-Tells debug_duration (OpResponseType.get_status status) s = refl
  ok-Tells debug_duration (OpResponseType.read_directory _ _) s = (_, refl)
  ok-Tells debug_duration (OpResponseType.read_file _ _ _ _ _) s = (_, refl)
  ok-Tells debug_duration (OpResponseType.write_file _ _ _ _) s = (_, refl)
  ok-Tells debug_duration (OpResponseType.init_drive _) s = (_, refl)
  ok-Tells debug_duration (OpResponseType.read_file_cache _ _ _ _ _) s = (_, refl)
  ok-Tells debug_duration (OpResponseType.cancel_device_cache _) s = (_, refl)

  -- A processed operation gives its answer back: one response on the server's channel, which the
  -- server sends on as one response on the client's stream.
  abbrev pub Answers : (Duration → String) → Operation → Result OpResponseType → Type 0
  Answers debug_duration op a =
      (r : OpResponse) × (response : Response) × (responses op a ≡ (bg_rsp_tx, r) ∷ [])
      × (receive_response debug_duration none r ≡ (stream, response) ∷ [])
      × (response ≡ from_op_response debug_duration r)
      × Tells debug_duration a response

  queued-Answers :
      (debug_duration : Duration → String) (op : Operation) (a : Result OpResponseType)
      → op.sender ≡ bg_rsp_tx
      → op.stream ≡ some stream
      → a ≢ panic
      → Answers debug_duration op a
  unfolding responses receive_response take_stream send_response from_op_response
  queued-Answers debug_duration op (ok rsp) e e' ne = (
    record { rsp = inl rsp; stream = op.stream },
    _,
    rw e refl,
    rw (take_stream, e') refl,
    refl,
    ok-Tells debug_duration rsp op.stream,
  )
  queued-Answers debug_duration op (err x) e e' ne = (
    record { rsp = inr x; stream = op.stream },
    _,
    rw e refl,
    rw (take_stream, e') refl,
    refl,
    refl,
  )
  queued-Answers debug_duration op panic e e' ne = absurd (ne refl)

  -- With channels that take what is sent, whatever the background processor answers to an operation
  -- that a request has queued, short of a panic, reaches the client of that request, once: an error as
  -- the error's text, and a success as the response for its type, with its values.
  pub handle_client_request-Answers :
      (debug_duration : Duration → String) (request : Request) (op : Operation)
      (a : Result OpResponseType)
      → get_elem? (handle request).operations 0 ≡ some op
      → a ≢ panic
      → Answers debug_duration op a
  unfolding handle_client_request
  handle_client_request-Answers debug_duration request op a e ne =
      let (sender, its_stream) = handled-queued request (handling host request) op e in
      queued-Answers debug_duration op a sender its_stream ne
