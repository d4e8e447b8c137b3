-- ===== src/Daemon/Main/Outcome.antt =====
-- What the daemon's main function can end with.
use rs1541fs.Prelude.{
  ℕ, String, ◌≡◌, ◌≢◌, ◌<◌, refl, sym, subst, ◌∙◌, inl, inr, Bool, true, false, not, ◌⊎◌, Option,
  none, some, if◌then◌else◌,
}
use rs1541fs.Error.{Result, ok, err, panic, ◌>>=◌, ◌>>◌, bind-ok, ok-injective}
use rs1541fs.Drives.{Drives}
use rs1541fs.Logging.{init_logging}
use rs1541fs.Arguments.{Args}
use rs1541fs.Daemon.{Daemon, Tasks, new_daemon, start_threads}
use rs1541fs.Daemon.Laws.{IsRunning, IsStart, start_threads-IsStart}
use rs1541fs.Daemon.Stopping.{Ended, shutdown}
use rs1541fs.Daemon.Ending.{StaysFinished, AllFinished, IsEnd, shutdown-IsEnd}
use rs1541fs.Daemon.Main.{
  Outside, logger, remote, rs1541_result, parsed, address_str, start_daemon, Wake, bg_proc_ends,
  ipc_server_ends, bg_listener_ends, signals, SignalEnd, thread_ended, woken, async_main,
}

bind-panic {ℓ κ} :
    {A : Type ℓ} {B : Type κ} (r : Result A) (f : A → Result B)
    → r ≢ panic
    → ((a : A) → r ≡ ok a → f a ≢ panic)
    → (r >>= f) ≢ panic
bind-panic (ok a) f h k e = k a refl e
bind-panic (err x) f h k e = cc e
bind-panic panic f h k e = h refl

if_panic {ℓ} :
    {A : Type ℓ} (b : Bool) (x y : Result A) → x ≢ panic → y ≢ panic → (if b then x else y) ≢ panic
if_panic true x y h k = h
if_panic false x y h k = k

called-panic {ℓ} :
    {B : Type ℓ} (message : String) (e : Option String) (next : Result B)
    → next ≢ panic
    → (rs1541_result message e >> next) ≢ panic
called-panic message none next h e = h e
called-panic message (some x) next h e = cc e

parsed-panic : (address : String) (e : Option String) → parsed address e ≢ panic
parsed-panic address none h = cc h
parsed-panic address (some x) h = cc h

init_logging-panic :
    (pid level : ℕ) (unix : Unit {0} ⊎ String) (daemon : Bool) (name : String)
    → (init_logging pid level false unix daemon name).0 ≢ panic
unfolding init_logging
init_logging-panic pid level (inl _) true name h = cc h
init_logging-panic pid level (inr e) true name h = cc h
init_logging-panic pid level unix false name h = cc h

thread_ended-panic : (message : String) (e : Option String) → thread_ended message e ≢ panic
thread_ended-panic message none h = cc h
thread_ended-panic message (some x) h = cc h

IsStart-panic :
    (bind : Option String) (tasks : Tasks) (r : Result (Tasks × Daemon))
    → IsStart bind tasks r
    → r ≢ panic
IsStart-panic bind tasks r (inl (d, _, e, _, _)) h = cc (e, h)
IsStart-panic bind tasks r (inr (x, _, e)) h = cc (e, h)

IsStart-IsRunning :
    (bind : Option String) (tasks : Tasks) (r : Result (Tasks × Daemon)) (p : Tasks × Daemon)
    → IsStart bind tasks r
    → r ≡ ok p
    → IsRunning tasks p.1
IsStart-IsRunning bind tasks r p (inl (d, _, e, running, _)) h =
    subst (λ p. IsRunning tasks p.1) (ok-injective _ _ (sym e ∙ h)) running
IsStart-IsRunning bind tasks r p (inr (x, _, e)) h = absurd (cc (e, h))

module _ (outside : Outside) (tasks : Tasks) (pid bg_proc_channel bg_rsp_channel : ℕ)
    (args : Args) where
  remote-panic : remote outside args ≢ panic
  unfolding remote
  remote-panic =
      if_panic args.network
        (parsed (address_str outside args) (outside.parse_address (address_str outside args)))
        (ok none)
        (parsed-panic (address_str outside args) (outside.parse_address (address_str outside args)))
        (λ e. cc e)

  started :
      IsStart outside.bind tasks
        (start_threads outside.bind tasks (new_daemon pid bg_proc_channel bg_rsp_channel))
  started = start_threads-IsStart outside.bind tasks pid bg_proc_channel bg_rsp_channel

  start_daemon-panic : start_daemon outside tasks pid bg_proc_channel bg_rsp_channel args ≢ panic
  unfolding start_daemon
  start_daemon-panic =
      bind-panic (logger outside pid args) _
        (init_logging-panic pid outside.log_level outside.unix (not args.std_logging) "1541fsd")
        (λ _ _. bind-panic (remote outside args) _ remote-panic (λ address _.
          called-panic "Failed to initialize USB xum1541" (outside.new_cbm args.serial address)
            (rs1541_result "Failed to set bus recovery type to serial" outside.set_bus_recovery_type
              >> start_threads outside.bind tasks (new_daemon pid bg_proc_channel bg_rsp_channel))
            (called-panic "Failed to set bus recovery type to serial" outside.set_bus_recovery_type
              (start_threads outside.bind tasks (new_daemon pid bg_proc_channel bg_rsp_channel))
              (IsStart-panic outside.bind tasks _ started))))

  start_daemon-IsRunning :
      (p : Tasks × Daemon)
      → start_daemon outside tasks pid bg_proc_channel bg_rsp_channel args ≡ ok p
      → IsRunning tasks p.1
  unfolding start_daemon
  start_daemon-IsRunning p e =
      let (_, _, e0) = bind-ok (logger outside pid args) _ p e in
      let (address, _, e1) = bind-ok (remote outside args) _ p e0 in
      let (u, _, e2) = bind-ok (rs1541_result _ (outside.new_cbm args.serial address)) _ p e1 in
      let (v, _, e3) = bind-ok (rs1541_result _ outside.set_bus_recovery_type) _ p e2 in
      IsStart-IsRunning outside.bind tasks _ p started e3

module _ (outside : Outside) (tasks : Tasks) (pid bg_proc_channel bg_rsp_channel : ℕ) (wake : Wake)
    (is_finished : ℕ → ℕ → Bool) (checks : ℕ) (cut : Option Drives) (args : Args) where
  IsEnd-panic : (e : Ended) → IsEnd is_finished tasks checks cut e → e.result ≢ panic
  IsEnd-panic e (inl (k, _, _, _, r, _, _)) h = cc (r, h)
  IsEnd-panic e (inr (_, r, _)) h = cc (r, h)

  woken-panic :
      (shutdown : Result (Unit {0})) (wake : Wake) → shutdown ≢ panic → woken shutdown wake ≢ panic
  unfolding woken
  woken-panic shutdown (bg_proc_ends e) h = thread_ended-panic _ e
  woken-panic shutdown (ipc_server_ends e) h = thread_ended-panic _ e
  woken-panic shutdown (bg_listener_ends e) h = thread_ended-panic _ e
  woken-panic shutdown (signals s) h = h

  -- The daemon's main function gives a result and does not panic, whether it fails to start, one of its
  -- threads ends, or it is signalled, if no finished thread runs again.
  pub async_main-panic :
      StaysFinished is_finished tasks checks cut
      → async_main outside tasks pid bg_proc_channel bg_rsp_channel wake
          (shutdown is_finished checks cut)
          args
        ≢ panic
  unfolding async_main
  async_main-panic stays =
      bind-panic (start_daemon outside tasks pid bg_proc_channel bg_rsp_channel args) _
        (start_daemon-panic outside tasks pid bg_proc_channel bg_rsp_channel args)
        (λ p e. woken-panic (shutdown is_finished checks cut p.1).result wake (
          IsEnd-panic (shutdown is_finished checks cut p.1)
            (shutdown-IsEnd is_finished tasks checks cut p.1 stays (
              start_daemon-IsRunning outside tasks pid bg_proc_channel bg_rsp_channel args p e)).1))

  -- A daemon that is signalled and exits without an error has had all its threads finish before the
  -- timeout, and its drives cleaned up, if no finished thread runs again.
  pub async_main-AllFinished :
      (s : SignalEnd)
      → StaysFinished is_finished tasks checks cut
      → async_main outside tasks pid bg_proc_channel bg_rsp_channel
          (signals s)
          (shutdown is_finished checks cut)
          args
        ≡ ok tt
      → (k : ℕ) × (k < checks) × AllFinished is_finished tasks checks cut k × (cut ≡ none)
  unfolding async_main woken
  async_main-AllFinished s stays e =
      let (p, started, ended) =
        bind-ok (start_daemon outside tasks pid bg_proc_channel bg_rsp_channel args) _ tt e in
      finished (shutdown is_finished checks cut p.1)
        (shutdown-IsEnd is_finished tasks checks cut p.1 stays (
          start_daemon-IsRunning outside tasks pid bg_proc_channel bg_rsp_channel args p started)).1
        ended
    where
      finished :
          (e : Ended)
          → IsEnd is_finished tasks checks cut e
          → e.result ≡ ok tt
          → (k : ℕ) × (k < checks) × AllFinished is_finished tasks checks cut k × (cut ≡ none)
      finished e (inl (k, early, all, uncut, _, _, _)) h = (k, early, all, uncut)
      finished e (inr (_, r, _)) h = absurd (cc (r, h))
