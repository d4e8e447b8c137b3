-- ===== src/Ipc/Typed.antt =====
-- The type of an answer, as the client gets it: what kind of response a successful request ends with.
use rs1541fs.Prelude.{
  ℕ, String, ◌≡◌, Bool, Option, none, some, ap, subst, inl, inr, get_elem?, string_eq,
}
use mathlib.Core.Option.{some-injective}
use rs1541fs.Error.{Duration, Result, ok, err, panic, bind-ok}
use rs1541fs.Rs1541.{CbmDeviceInfo, CbmStatus}
use rs1541fs.Env.{Env}
use rs1541fs.Bg.{OpType, OpResponseType, Operation, new_operation, set_stream}
use rs1541fs.Service.{Handles}
use rs1541fs.Proc.{Proc, Ending, process_operation}
use rs1541fs.Proc.Typed
use rs1541fs.Proc.Typed.{IsAnswer, process_operation-IsAnswer}
use rs1541fs.Validate.{Host, validate_mount_request, validate_unmount_request}
use rs1541fs.Ipc.{
  Request, mount, unmount, bus_reset, ping, die, identify, get_status, Response, mount_success,
  unmount_success, bus_reset_success, identified as identified_rsp, got_status as got_status_rsp,
  Handling, handling, handled, handle_client_request, from_op_response, send_response,
}
use rs1541fs.Ipc.Answers.{handle}

-- The response of the kind of the request. For an unmount the success of a mount is let through too,
-- which is what the source gives.
pub data IsReply : Request → Response → Type 0 where
  mounted :
      {mountpoint : String} {device : ℕ} {dummy_formats reset : Bool}
      → IsReply (mount mountpoint device dummy_formats reset) mount_success
  unmounted :
      {mountpoint : Option String} {device : Option ℕ}
      → IsReply (unmount mountpoint device) unmount_success
  unmounted_as_mount :
      {mountpoint : Option String} {device : Option ℕ}
      → IsReply (unmount mountpoint device) mount_success
  bus_was_reset : IsReply bus_reset bus_reset_success
  identified :
      {device : ℕ} (info : CbmDeviceInfo)
      → IsReply (identify device) (identified_rsp info.device_type.as_str info.description)
  got_status :
      {device : ℕ} (status : CbmStatus)
      → IsReply (get_status device) (got_status_rsp status.to_string)

module _ (host : Host) (now bg_rsp_tx stream : ℕ) (debug_duration : Duration → String) where
  queued_type :
      (request : Request) (r : Result Handling) (op : Operation)
      → get_elem? (handled now bg_rsp_tx none none stream request r).operations 0 ≡ some op
      → r ≡ ok (inl op.op_type)
  unfolding set_stream new_operation send_response
  queued_type request (ok (inl t)) op e = ap (λ o. ok (inl o.op_type)) (some-injective _ _ e)
  queued_type request (ok (inr response)) op e = absurd (cc e)
  queued_type request (err x) op e = absurd (cc e)
  queued_type request panic op e = absurd (cc e)

  abbrev shown : OpResponseType → Option ℕ → Response
  shown rsp s = from_op_response debug_duration (record { rsp = inl rsp; stream = s })

  mount-IsReply :
      (mountpoint path : String) (device : ℕ) (f b : Bool) (rsp : OpResponseType) (s : Option ℕ)
      → IsAnswer (OpType.mount device path f b) rsp
      → IsReply (mount mountpoint device f b) (shown rsp s)
  unfolding from_op_response
  mount-IsReply mountpoint path device f b _ s Typed.mounted = mounted

  unmount-IsReply :
      (mountpoint : Option String) (device : Option ℕ) (rsp : OpResponseType) (s : Option ℕ)
      → IsAnswer (OpType.unmount device mountpoint) rsp
      → IsReply (unmount mountpoint device) (shown rsp s)
  unfolding from_op_response
  unmount-IsReply mountpoint device _ s Typed.unmounted = unmounted
  unmount-IsReply mountpoint device _ s Typed.unmounted_as_mount = unmounted_as_mount

  reset-IsReply :
      (rsp : OpResponseType) (s : Option ℕ)
      → IsAnswer OpType.bus_reset rsp
      → IsReply bus_reset (shown rsp s)
  unfolding from_op_response
  reset-IsReply _ s Typed.bus_was_reset = bus_was_reset

  identify-IsReply :
      (device : ℕ) (rsp : OpResponseType) (s : Option ℕ)
      → IsAnswer (OpType.identify device) rsp
      → IsReply (identify device) (shown rsp s)
  unfolding from_op_response
  identify-IsReply device _ s (Typed.identified info) = identified info

  status-IsReply :
      (device : ℕ) (rsp : OpResponseType) (s : Option ℕ)
      → IsAnswer (OpType.get_status device) rsp
      → IsReply (get_status device) (shown rsp s)
  unfolding from_op_response
  status-IsReply device _ s (Typed.got_status status) = got_status status

  abbrev queues : OpType → Result Handling
  queues t = ok (inl t)

  asked : (t u : OpType) → queues t ≡ queues u → u ≡ t
  asked t u e = cc e

  answer-IsReply :
      (request : Request) (t : OpType) (rsp : OpResponseType) (s : Option ℕ)
      → handling host request ≡ ok (inl t)
      → IsAnswer t rsp
      → IsReply request (shown rsp s)
  unfolding handling
  answer-IsReply (mount mountpoint device f b) t rsp s e a =
      let (path, e1, e2) = bind-ok (validate_mount_request host mountpoint device) _ (inl t) e in
      mount-IsReply mountpoint path device f b rsp s
        (subst (λ x. IsAnswer x rsp) (asked (OpType.mount device path f b) t e2) a)
  answer-IsReply (unmount mountpoint device) t rsp s e a =
      let (_, e1, e2) = bind-ok (validate_unmount_request host mountpoint device) _ (inl t) e in
      unmount-IsReply mountpoint device rsp s
        (subst (λ x. IsAnswer x rsp) (asked (OpType.unmount device mountpoint) t e2) a)
  answer-IsReply bus_reset t rsp s e a =
      reset-IsReply rsp s (subst (λ x. IsAnswer x rsp) (asked OpType.bus_reset t e) a)
  answer-IsReply (identify device) t rsp s e a =
      identify-IsReply device rsp s
        (subst (λ x. IsAnswer x rsp) (asked (OpType.identify device) t e) a)
  answer-IsReply (get_status device) t rsp s e a =
      status-IsReply device rsp s
        (subst (λ x. IsAnswer x rsp) (asked (OpType.get_status device) t e) a)
  answer-IsReply ping t rsp s e a = absurd (cc e)
  answer-IsReply die t rsp s e a = absurd (cc e)

  -- If a request is queued as an operation, and processing that operation succeeds, the response that
  -- the client gets is of the kind of its request, never one of the texts for an error; an unmount may
  -- get the success of a mount in place of its own.
  pub handle_client_request-IsReply :
      (request : Request) (op : Operation) (env : Env) (later : ℕ) (closed : Option String)
      (h : Handles) (ending : Ending) (p : Proc) (rsp : OpResponseType)
      → get_elem? (handle host now bg_rsp_tx stream request).operations 0 ≡ some op
      → (process_operation env later closed h ending op p).answer ≡ ok rsp
      → IsReply request
          (from_op_response debug_duration (record { rsp = inl rsp; stream = op.stream }))
  unfolding handle_client_request
  handle_client_request-IsReply request op env later closed h ending p rsp queued answered =
      answer-IsReply request op.op_type rsp op.stream
        (queued_type request (handling host request) op queued)
        (process_operation-IsAnswer env later closed h ending op p rsp answered)
