-- ===== src/Client/Laws/Answered.antt =====
-- From a command of the client to what it prints, through the daemon and back.
use mathlib.Core.List.{head-eq_of_cons-eq}
use rs1541fs.Prelude.{
  ℕ, String, ◌<+>◌, ◌≡◌, ◌≢◌, refl, ap, subst, sym, ◌∙◌, ◌≤◌, inl, List, [], ◌∷◌, none, some, All,
  length, get_elem?,
}
use rs1541fs.Error.{Duration, display, Result, ok, err, panic}
use rs1541fs.Bg.{OpResponseType, OpResponse, Operation}
use rs1541fs.Proc.{responses}
use rs1541fs.Validate.{Host}
use rs1541fs.Ipc.{Response, from_op_response, receive_response}
use rs1541fs.Ipc.Answers.{handle, Tells, handle_client_request-Answers}
use rs1541fs.Client.{Args, validate, create_request}
use rs1541fs.Client.Connection.{Connection, max_response_size}
use rs1541fs.Client.Starting.{Start, ensure_daemon_running}
use rs1541fs.Client.Running.{Exit, printed, failed, show_response, main}
use rs1541fs.Client.Laws.Pieces.{IsOpen, pieces_read, concat, IsAscii, send_request-concat}

-- What a connection gives the client is this response: in ASCII, of at most the limit, in some pieces,
-- and serde_json reads it back.
pub record Carries (c : Connection) (args : Args) (pieces : List (List ℕ)) (response : Response)
    : Type 0 where
  pub is_open : IsOpen c
  pub read : (k : ℕ) → c.read (create_request args.operation) k ≡ pieces_read pieces k
  pub ascii : All IsAscii pieces
  pub short : length (concat pieces) ≤ max_response_size
  pub from_str : c.from_str (concat pieces) ≡ inl response

responses-panic :
    (op : Operation) (a : Result OpResponseType) (tx : ℕ) (rsp : OpResponse)
    → responses op a ≡ (tx, rsp) ∷ []
    → a ≢ panic
unfolding responses
responses-panic op (ok _) tx rsp e h = cc h
responses-panic op (err _) tx rsp e h = cc h
responses-panic op panic tx rsp e h = cc e

same_response :
    (tx : ℕ) (r rsp : OpResponse)
    → Path (List (ℕ × OpResponse)) ((tx, r) ∷ []) ((tx, rsp) ∷ [])
    → r ≡ rsp
same_response tx r rsp e = ap (λ p. p.1) (head-eq_of_cons-eq e)

-- How the client is to end for an answer: with an error's text as its error; with the device's model and
-- description, or its status, printed; or with nothing printed. Answers of other types are errors.
abbrev pub EndsAs : (Duration → String) → Result OpResponseType → Exit → Type 0
EndsAs debug_duration (err e) x = x ≡ failed (display debug_duration e ∷ [])
EndsAs debug_duration (ok OpResponseType.mount) x = x ≡ printed []
EndsAs debug_duration (ok OpResponseType.unmount) x = x ≡ printed []
EndsAs debug_duration (ok OpResponseType.bus_reset) x = x ≡ printed []
EndsAs debug_duration (ok (OpResponseType.identify info)) x =
    x
    ≡ printed (
        ("Model " <+> info.device_type.as_str <+> " Description \"" <+> info.description <+> "\"")
        ∷ [])
EndsAs debug_duration (ok (OpResponseType.get_status status)) x =
    x ≡ printed (("Status " <+> status.to_string) ∷ [])
EndsAs debug_duration (ok _) x = (text : String) × (x ≡ failed (text ∷ []))
EndsAs debug_duration panic x = ⊥

Tells-EndsAs :
    (debug_duration : Duration → String) (host : Host) (now bg_rsp_tx stream : ℕ)
    (a : Result OpResponseType) (r : Response)
    → Tells host now bg_rsp_tx stream debug_duration a r
    → EndsAs debug_duration a (show_response r)
unfolding show_response
Tells-EndsAs d host now tx stream (err e) r h = ap show_response h
Tells-EndsAs d host now tx stream (ok OpResponseType.mount) r h = ap show_response h
Tells-EndsAs d host now tx stream (ok OpResponseType.unmount) r h = ap show_response h
Tells-EndsAs d host now tx stream (ok OpResponseType.bus_reset) r h = ap show_response h
Tells-EndsAs d host now tx stream (ok (OpResponseType.identify info)) r h = ap show_response h
Tells-EndsAs d host now tx stream (ok (OpResponseType.get_status status)) r h = ap show_response h
Tells-EndsAs d host now tx stream (ok (OpResponseType.read_directory _ _)) r (t, h) =
    (t, ap show_response h)
Tells-EndsAs d host now tx stream (ok (OpResponseType.read_file _ _ _ _ _)) r (t, h) =
    (t, ap show_response h)
Tells-EndsAs d host now tx stream (ok (OpResponseType.write_file _ _ _ _)) r (t, h) =
    (t, ap show_response h)
Tells-EndsAs d host now tx stream (ok (OpResponseType.init_drive _)) r (t, h) =
    (t, ap show_response h)
Tells-EndsAs d host now tx stream (ok (OpResponseType.read_file_cache _ _ _ _ _)) r (t, h) =
    (t, ap show_response h)
Tells-EndsAs d host now tx stream (ok (OpResponseType.cancel_device_cache _)) r (t, h) =
    (t, ap show_response h)
Tells-EndsAs d host now tx stream panic r h = absurd h

module _ (debug_duration : Duration → String) (host : Host) (start : Start) (c : Connection) where
  main-show_response :
      (args args' : Args) (pieces : List (List ℕ)) (response : Response)
      → validate host args ≡ ok args'
      → ensure_daemon_running start ≡ some (ok tt)
      → Carries c args' pieces response
      → main debug_duration host start c args ≡ show_response response
  unfolding main
  main-show_response args args' pieces response valid ensured carries =
      rw
        (
          valid,
          ensured,
          send_request-concat c (create_request args'.operation) pieces carries.is_open carries.read
              carries.ascii carries.short,
          carries.from_str,
        )
        refl

  -- A command that the client has validated and the daemon has queued, and whose answer the processor
  -- sends as a response: the server sends one response on to the client's stream. If the connection
  -- carries it (ASCII, of at most the limit on a response, in some pieces, and read back by serde_json)
  -- and the daemon is there, the client ends as the processor's answer says: with an error's text as
  -- its error, with the device's model and description, or its status, printed, or with nothing printed.
  pub main-receive_response :
      (now bg_rsp_tx stream : ℕ) (args args' : Args) (pieces : List (List ℕ)) (op : Operation)
      (a : Result OpResponseType) (rsp : OpResponse)
      → validate host args ≡ ok args'
      → ensure_daemon_running start ≡ some (ok tt)
      → get_elem? (handle host now bg_rsp_tx stream (create_request args'.operation)).operations 0
        ≡ some op
      → responses op a ≡ (bg_rsp_tx, rsp) ∷ []
      → Carries c args' pieces (from_op_response debug_duration rsp)
      → (receive_response debug_duration none rsp
          ≡ (stream, from_op_response debug_duration rsp) ∷ [])
        × EndsAs debug_duration a (main debug_duration host start c args)
  main-receive_response now bg_rsp_tx stream args args' pieces op a rsp valid ensured queued sent
        carries =
      let (r, response, given, received, is, tells) =
        handle_client_request-Answers host now bg_rsp_tx stream debug_duration
          (create_request args'.operation) op a queued (responses-panic op a bg_rsp_tx rsp sent) in
      let same : r ≡ rsp = same_response bg_rsp_tx r rsp (sym given ∙ sent) in
      let told : response ≡ from_op_response debug_duration rsp =
        is ∙ ap (from_op_response debug_duration) same in
      let shown : EndsAs debug_duration a (show_response response) =
        Tells-EndsAs debug_duration host now bg_rsp_tx stream a response tells in
      (
        subst (λ r. receive_response debug_duration none r ≡ (stream, response) ∷ []) same received
            ∙ ap (λ x. (stream, x) ∷ []) told,
        subst (EndsAs debug_duration a)
            (ap show_response told
              ∙ sym (
                  main-show_response args args' pieces (from_op_response debug_duration rsp) valid
                    ensured carries))
            shown,
      )
