-- ===== src/Daemon/Ending.antt =====
-- How a shutdown ends.
use rs1541fs.Prelude.{
  ℕ, zero, suc, ◌+◌, ◌<◌, ◌≡◌, ◌≢◌, refl, sym, ap, subst, ◌∙◌, ◌⊎◌, inl, inr, Bool, true, false,
  not, ◌||◌, List, [], ◌∷◌, keep_if, Option, none, some, arith, Bool-cases,
}
use mathlib.Core.Option.{some-injective}
use rs1541fs.Error.{ok, err}
use rs1541fs.Drives.{Drives}
use rs1541fs.Drives.Kept.{cleanup_drives-empty}
use rs1541fs.Ipc.Server.{IpcServer, stop_all, stop_ipc_listener, stop_bg_listener}
use rs1541fs.Daemon.{Daemon, Tasks}
use rs1541fs.Daemon.Stopping.{
  stop_bg_proc, stop_ipc_all, cleanup_drive_mgr, cleanup_timed_out, Ended, wait_for_threads,
  shutdown, signalled, finish, waits, timed_out,
}
use rs1541fs.Daemon.Laws.{IsRunning}

-- The threads have been told to end.
pub record IsSignalled (d : Daemon) : Type 0 where
  pub bg_proc_shutdown : d.bg_proc_shutdown ≡ true
  pub ipc_server :
      (server : IpcServer) × (d.ipc_server ≡ some server)
      × (server.ipc_server_run ≡ false)
      × (server.bg_listener_run ≡ false)

module _ (tasks : Tasks) (d : Daemon) (h : IsRunning tasks d) where
  signalled_lem :
      signalled d
      ≡ record d { bg_proc_shutdown = true; ipc_server = some (stop_all h.ipc_server.0) }
  unfolding stop_bg_proc stop_ipc_all
  signalled_lem = rw (h.bg_proc.1, h.ipc_server.1) refl

  signalled-IsRunning : IsRunning tasks (signalled d)
  signalled-IsRunning = rw signalled_lem (record {
    bg_proc = h.bg_proc;
    ipc_server = (stop_all h.ipc_server.0, refl);
    bg_proc_abort = h.bg_proc_abort;
    ipc_server_abort = h.ipc_server_abort;
    bg_listener_abort = h.bg_listener_abort;
  })

  signalled-IsSignalled : IsSignalled (signalled d)
  unfolding stop_all stop_ipc_listener stop_bg_listener
  signalled-IsSignalled =
      rw signalled_lem (record {
        bg_proc_shutdown = refl;
        ipc_server = (stop_all h.ipc_server.0, refl, refl, refl);
      })

module _ (is_finished : ℕ → ℕ → Bool) (tasks : Tasks) (checks : ℕ) (cut : Option Drives) where
  -- The tasks in the order of their abort handles.
  abbrev pub all_tasks : List ℕ
  all_tasks = tasks.bg_proc ∷ tasks.ipc_server ∷ tasks.bg_listener ∷ []

  pub record AllFinished (at : ℕ) : Type 0 where
    pub bg_proc : is_finished at tasks.bg_proc ≡ true
    pub ipc_server : is_finished at tasks.ipc_server ≡ true
    pub bg_listener : is_finished at tasks.bg_listener ≡ true

  -- Either all tasks and the drives are cleaned up in time, or the shutdown fails and the tasks that are
  -- not finished at the timeout are aborted.
  abbrev pub IsEnd : Ended → Type 0
  IsEnd e =
      ((k : ℕ) × (k < checks)
        × AllFinished k
        × (cut ≡ none)
        × (e.result ≡ ok tt)
        × (e.aborted ≡ [])
        × (e.daemon.drive_mgr ≡ []))
      ⊎ (((k : ℕ) → k < checks → AllFinished k → cut ≢ none)
          × (e.result ≡ err cleanup_timed_out)
          × (e.aborted ≡ keep_if (λ t. not (is_finished checks t)) all_tasks))

  waits_lem :
      (at : ℕ) (d : Daemon)
      → IsRunning tasks d
      → waits is_finished checks cut at d
        ≡ not (is_finished at tasks.bg_proc)
          || not (is_finished at tasks.ipc_server)
          || not (is_finished at tasks.bg_listener)
  waits_lem at d h = rw (h.bg_proc_abort, h.ipc_server_abort, h.bg_listener_abort) refl

  waits-AllFinished :
      (at : ℕ) (d : Daemon)
      → IsRunning tasks d
      → waits is_finished checks cut at d ≡ false
      → AllFinished at
  waits-AllFinished at d h e = grind (arith, sym (waits_lem at d h) ∙ e)

  AllFinished-waits :
      (at : ℕ) (d : Daemon)
      → IsRunning tasks d
      → AllFinished at
      → waits is_finished checks cut at d ≡ false
  AllFinished-waits at d h all =
      waits_lem at d h ∙ rw (all.bg_proc, all.ipc_server, all.bg_listener) refl

  -- The loop stops at the first moment at which all are finished.
  abbrev IsWait : (left at : ℕ) → Daemon → Option ℕ → Type 0
  IsWait left at d o =
      ((k : ℕ) × (o ≡ some (at + k)) × (k < left) × AllFinished (at + k))
      ⊎ ((o ≡ none) × ((k : ℕ) → k < left → AllFinished (at + k) → ⊥))

  suc-IsWait :
      (left at : ℕ) (d : Daemon) (o : Option ℕ)
      → (AllFinished at → ⊥)
      → IsWait left (suc at) d o
      → IsWait (suc left) at d o
  suc-IsWait left at d o first (inl (k, e, h, all)) =
      inl (suc k, e ∙ ap some (omega arith), omega arith, subst AllFinished (omega arith) all)
  suc-IsWait left at d o first (inr (e, none_later)) = inr (e, none_here)
    where
      none_here : (k : ℕ) → k < suc left → AllFinished (at + k) → ⊥
      none_here zero h all = first (subst AllFinished (omega arith) all)
      none_here (suc k) h all = none_later k (omega arith) (subst AllFinished (omega arith) all)

  wait_for_threads_lem :
      (left at : ℕ) (d : Daemon)
      → IsRunning tasks d
      → IsWait left at d (wait_for_threads is_finished checks cut left at d)
  unfolding wait_for_threads
  wait_for_threads_lem zero at d h = inr (refl, λ k e. absurd (omega arith))
  wait_for_threads_lem (suc left) at d h = elim (Bool-cases (waits is_finished checks cut at d)) [
    | inl e ↦
        rw (wait_for_threads, e)
          (suc-IsWait left at d _ (λ all. absurd (cc (e, AllFinished-waits at d h all)))
            (wait_for_threads_lem left (suc at) d h))
    | inr e ↦
        rw (wait_for_threads, e)
          (inl (
            0,
            ap some (omega arith),
            omega arith,
            subst AllFinished (omega arith) (waits-AllFinished at d h e),
          ))
  ]

  aborted_lem :
      (d : Daemon)
      → IsRunning tasks d
      → (timed_out is_finished checks cut d).aborted
        ≡ keep_if (λ t. not (is_finished checks t)) all_tasks
  aborted_lem d h = rw (h.bg_proc_abort, h.ipc_server_abort, h.bg_listener_abort) (ground arith)

  -- What is finished stays so.
  abbrev pub StaysFinished : Type 0
  StaysFinished = (at task : ℕ) → is_finished at task ≡ true → is_finished (suc at) task ≡ true

  finish-IsEnd :
      (d : Daemon) (left : Option Drives) (o : Option ℕ)
      → StaysFinished
      → IsRunning tasks d
      → cut ≡ left
      → IsWait checks 0 d o
      → IsEnd (finish is_finished checks cut left o d)
  unfolding cleanup_drive_mgr
  finish-IsEnd d left none stays h e (inl (k, is_k, _, _)) = absurd (cc is_k)
  finish-IsEnd d left none stays h e (inr (_, never)) =
      inr (
        λ k early all _. never k early (subst AllFinished (omega arith) all),
        refl,
        aborted_lem d h,
      )
  finish-IsEnd d left (some at) stays h e (inr (is_none, _)) = absurd (cc is_none)
  finish-IsEnd d (some drives) (some at) stays h e (inl _) =
      inr (λ k early all uncut. cc (e, uncut), refl, aborted_lem d h)
  finish-IsEnd d none (some at) stays h e (inl (k, is_k, early, all)) =
      let all_at = subst AllFinished (sym (some-injective _ _ is_k)) all in
      inl (
        k,
        early,
        subst AllFinished (omega arith) all,
        e,
        rw
            (
              h.bg_proc_abort,
              h.ipc_server_abort,
              h.bg_listener_abort,
              stays at tasks.bg_proc all_at.bg_proc,
              stays at tasks.ipc_server all_at.ipc_server,
              stays at tasks.bg_listener all_at.bg_listener,
            )
            refl,
        refl,
        cleanup_drives-empty d.drive_mgr,
      )

  finish-IsSignalled :
      (d : Daemon) (left : Option Drives) (o : Option ℕ)
      → IsSignalled d
      → IsSignalled (finish is_finished checks cut left o d).daemon
  unfolding cleanup_drive_mgr
  finish-IsSignalled d left none h = h
  finish-IsSignalled d none (some at) h = record {
    bg_proc_shutdown = h.bg_proc_shutdown;
    ipc_server = h.ipc_server;
  }
  finish-IsSignalled d (some drives) (some at) h = record {
    bg_proc_shutdown = h.bg_proc_shutdown;
    ipc_server = h.ipc_server;
  }

-- A shutdown of running threads, of which none that is finished runs again, tells all of them to end. It
-- succeeds, with no drive left, if all three are finished at some check before the timeout and the
-- drives are cleaned up in time; otherwise it fails and aborts exactly the threads that are not finished
-- at the timeout.
pub shutdown-IsEnd :
    (is_finished : ℕ → ℕ → Bool) (tasks : Tasks) (checks : ℕ) (cut : Option Drives) (d : Daemon)
    → StaysFinished is_finished tasks checks cut
    → IsRunning tasks d
    → IsSignalled (shutdown is_finished checks cut d).daemon
      × IsEnd is_finished tasks checks cut (shutdown is_finished checks cut d)
unfolding shutdown
shutdown-IsEnd is_finished tasks checks cut d stays h =
    let running = signalled-IsRunning tasks d h in
    let o = wait_for_threads is_finished checks cut checks 0 (signalled d) in
    (
      finish-IsSignalled is_finished tasks checks cut (signalled d) cut o
          (signalled-IsSignalled tasks d h),
      finish-IsEnd is_finished tasks checks cut (signalled d) cut o stays running refl
          (wait_for_threads_lem is_finished tasks checks cut checks 0 (signalled d) running),
    )
