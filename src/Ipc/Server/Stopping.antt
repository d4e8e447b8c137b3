-- ===== src/Ipc/Server/Stopping.antt =====
-- When the loops of the server end.
use rs1541fs.Prelude.{
  ℕ, String, ◌⊎◌, Option, ◌≡◌, refl, ap, ◌∙◌, inl, inr, Bool, true, false, List, [], ◌∷◌, ◌++◌,
  arith, Bool-cases,
}
use rs1541fs.Error.{Duration}
use rs1541fs.Bg.{OpResponse}
use rs1541fs.Validate.{Host}
use rs1541fs.Ipc.{Request, Response, Handled, SendFailure}
use rs1541fs.Ipc.Server.{
  Turn, tick, stopped, event, Thread, turn, run_loop, Accepted, accept, ipc_listener, received,
  bg_receiver,
}

-- Stopped after some turns, and its timer run out after some more, a loop has ended with what it had
-- done by then.
abbrev pub IsStopped :
    {E O : Type 0}
    → (List (Turn E) → Thread O → Thread O)
    → (turns more later : List (Turn E)) → Thread O
    → Type 0
IsStopped loop turns more later t =
    ((loop ((turns ++ stopped ∷ more) ++ tick ∷ later) t).ended ≡ true)
    × ((loop ((turns ++ stopped ∷ more) ++ tick ∷ later) t).output
        ≡ (loop (turns ++ stopped ∷ more) t).output)

module _ {E O : Type 0} (handle : E → List O × Bool) where
  run_loop-append :
      (turns later : List (Turn E)) (t : Thread O)
      → run_loop handle (turns ++ later) t ≡ run_loop handle later (run_loop handle turns t)
  unfolding run_loop
  run_loop-append [] later t = refl
  run_loop-append (e ∷ turns) later t = run_loop-append turns later (turn handle e t)

  -- What has ended does nothing more.
  turn-ended :
      (e : Turn E) (t : Thread O)
      → t.ended ≡ true
      → ((turn handle e t).ended ≡ true) × ((turn handle e t).output ≡ t.output)
  turn-ended tick t h = ground (arith, h)
  turn-ended stopped t h = (h, refl)
  turn-ended (event e) t h = rw h (refl, refl)

  run_loop-ended :
      (turns : List (Turn E)) (t : Thread O)
      → t.ended ≡ true
      → ((run_loop handle turns t).ended ≡ true) × ((run_loop handle turns t).output ≡ t.output)
  unfolding run_loop
  run_loop-ended [] t h = (h, refl)
  run_loop-ended (e ∷ turns) t h =
      let (ended, same) = turn-ended e t h in
      let (ended', same') = run_loop-ended turns (turn handle e t) ended in (ended', same' ∙ same)

  -- A flag that is cleared stays so.
  turn-running : (e : Turn E) (t : Thread O) → t.running ≡ false → (turn handle e t).running ≡ false
  turn-running tick t h = h
  turn-running stopped t h = refl
  turn-running (event e) t h = elim (Bool-cases t.ended) [ inl d ↦ rw d h | inr d ↦ rw d h ]

  run_loop-running :
      (turns : List (Turn E)) (t : Thread O)
      → t.running ≡ false
      → (run_loop handle turns t).running ≡ false
  unfolding run_loop
  run_loop-running [] t h = h
  run_loop-running (e ∷ turns) t h = run_loop-running turns (turn handle e t) (turn-running e t h)

  run_loop-IsStopped :
      (turns more later : List (Turn E)) (t : Thread O)
      → IsStopped (run_loop handle) turns more later t
  unfolding run_loop
  run_loop-IsStopped turns more later t =
      let stopping = turns ++ stopped ∷ more in
      let s = run_loop handle stopping t in
      let cleared : s.running ≡ false =
        ap (λ t. t.running) (run_loop-append turns (stopped ∷ more) t)
        ∙ run_loop-running more (turn handle stopped (run_loop handle turns t)) refl in
      let (ended, same) = run_loop-ended later (turn handle tick s) (ground (arith, cleared)) in
      rw (run_loop-append stopping (tick ∷ later) t) (ended, same)

-- Once their flags are cleared, the listener and the background receiver have ended, for good, after the
-- next run-out of their timers, whatever comes in before or after: nothing that comes in later is
-- handled.
pub ipc_listener-bg_receiver-IsStopped :
    (host : Host) (bg_rsp_tx : ℕ) (closed : Option String) (failure : Option SendFailure)
    (from_str : List ℕ → Request ⊎ String) (debug_duration : Duration → String)
    (turns more later : List (Turn Accepted)) (t : Thread Handled)
    (turns' more' later' : List (Turn (OpResponse ⊎ String))) (t' : Thread (ℕ × Response))
    → IsStopped (ipc_listener host bg_rsp_tx closed failure from_str) turns more later t
      × IsStopped (bg_receiver debug_duration failure) turns' more' later' t'
unfolding ipc_listener bg_receiver
ipc_listener-bg_receiver-IsStopped host bg_rsp_tx closed failure from_str debug_duration turns more
      later t turns' more' later' t' =
    (
      run_loop-IsStopped (accept host bg_rsp_tx closed failure from_str) turns more later t,
      run_loop-IsStopped (received debug_duration failure) turns' more' later' t',
    )
