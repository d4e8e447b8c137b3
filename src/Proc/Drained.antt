-- ===== src/Proc/Drained.antt =====
-- A processor that is left alone works off its queues.
use mathlib.Core.List.{append-nil}
use rs1541fs.Prelude.{
  ℕ, zero, suc, ◌+◌, ◌≤◌, String, ◌≡◌, ◌≢◌, refl, ◌⊎◌, inl, inr, Bool, true, false, List, [], ◌∷◌,
  ◌++◌, keep_if, keep_if-All, All-mono, All-append, Option, none, some, arith, ap, sym, ◌∙◌, All,
  Bool-cases, Option-cases, nat_eq, if◌then◌else◌,
}
use rs1541fs.Prelude.Map.{get}
use rs1541fs.Error.{Result, ok, err, panic, ◌>>=◌}
use rs1541fs.Env.{Env}
use rs1541fs.Bg.{OpType, Operation}
use rs1541fs.Bg.Queues.{
  OperationQueues, pop_next, is_cache_read_of, cache_cleared_error, remove_cache_for_device,
}
use rs1541fs.Bg.Queues.Removal.{IsCacheRead, cache_read_of-IsCacheRead}
use rs1541fs.Bg.Queues.Order.{pending, pop_next-Pops}
use rs1541fs.Drives.{get_drive, wrapped, identify_drive, get_drive_status, reset_bus, reset_result}
use rs1541fs.Service.{Service, Handles}
use rs1541fs.Proc.{
  Proc, Processed, Ending, in_time, too_late, mapped, execute, execute_operation, ended,
  process_type, process_operation, process_cancel_device_cache,
}
use rs1541fs.Proc.Steps.{
  World, with_queues, taken, receive, answered, Step, processed, Steps, done, then_step, Works,
  rests, works,
}
use rs1541fs.Proc.Ledger.{tally, tally-append, removed, removed-tally, Ledger}
use rs1541fs.Proc.Kept.{took_some, Steps-Ledger}

-- The operations that change the mounts.
abbrev pub is_mounting : OpType → Bool
is_mounting (OpType.mount _ _ _ _) = true
is_mounting (OpType.unmount _ _) = true
is_mounting _ = false

mapped-panic {ℓ κ} :
    {A : Type ℓ} {B : Type κ} (f : A → B) (r : Result A) → r ≢ panic → mapped f r ≢ panic
mapped-panic f (ok a) h e = cc e
mapped-panic f (err x) h e = cc e
mapped-panic f panic h e = h refl

bound-panic {ℓ κ} :
    {A : Type ℓ} {B : Type κ} (r : Result A) (f : A → Result B)
    → r ≢ panic
    → ((a : A) → f a ≢ panic)
    → (r >>= f) ≢ panic
bound-panic (ok a) f h k e = k a e
bound-panic (err x) f h k e = cc e
bound-panic panic f h k e = h refl

wrapped-panic {ℓ} : {A : Type ℓ} (message : String) (r : A ⊎ String) → wrapped message r ≢ panic
wrapped-panic message (inl a) e = cc e
wrapped-panic message (inr x) e = cc e

get_drive-panic : (device : ℕ) (s : Service) → get_drive device s.drives ≢ panic
unfolding get_drive
get_drive-panic device s e = elim (Option-cases (get device s.drives)) [
  | inl missing ↦ cc (rw (get_drive, missing) at e)
  | inr (unit, there) ↦ cc (rw (get_drive, there) at e)
]

reset-panic : (r : Option String) → reset_result r ≢ panic
reset-panic none e = cc e
reset-panic (some x) e = cc e

-- No other operation makes the processor panic.
module _ (env : Env) (now : ℕ) (closed : Option String) (h : Handles) where
  execute-panic :
      (op : OpType) (s : Service)
      → is_mounting op ≡ false
      → ((device : ℕ) → op ≢ OpType.cancel_device_cache device)
      → (execute env now closed h op s).0 ≢ panic
  unfolding execute identify_drive get_drive_status reset_bus
  execute-panic (OpType.mount _ _ _ _) s other nc = absurd (cc other)
  execute-panic (OpType.unmount _ _) s other nc = absurd (cc other)
  execute-panic (OpType.identify device) s other nc = mapped-panic _ _ (wrapped-panic _ _)
  execute-panic (OpType.get_status device) s other nc = mapped-panic _ _ (wrapped-panic _ _)
  execute-panic OpType.bus_reset s other nc = mapped-panic _ _ (reset-panic env.cbm.reset_bus)
  execute-panic (OpType.read_directory device) s other nc =
      bound-panic (get_drive device s.drives) _ (get_drive-panic device s)
        (λ unit. mapped-panic _ _ (wrapped-panic _ _))
  execute-panic (OpType.read_file device path inode) s other nc =
      bound-panic (get_drive device s.drives) _ (get_drive-panic device s)
        (λ unit. mapped-panic _ _ (wrapped-panic _ _))
  execute-panic (OpType.cancel_device_cache device) s other nc = absurd (nc device refl)
  execute-panic (OpType.write_file device path contents) s other nc = λ e. cc e
  execute-panic (OpType.init_drive device drive_unit) s other nc = λ e. cc e
  execute-panic (OpType.read_file_cache device path inode) s other nc = λ e. cc e

  execute_operation-panic :
      (op : OpType) (p : Proc)
      → is_mounting op ≡ false
      → ((device : ℕ) → op ≢ OpType.cancel_device_cache device)
      → (execute_operation env now closed h op p).0 ≢ panic
  unfolding execute_operation
  execute_operation-panic op p other nc e = elim (Bool-cases p.shutdown) [
    | inl down ↦ cc (rw (execute_operation, down) at e)
    | inr up ↦ execute-panic op p.service other nc (rw (execute_operation, up) at e)
  ]

  process_operation-panic :
      (op : Operation) (p : Proc)
      → is_mounting op.op_type ≡ false
      → (process_operation env now closed h in_time op p).answer ≢ panic
  unfolding process_operation
  process_operation-panic op p other = by_type op.op_type refl
    where
      plain :
          ((device : ℕ) → op.op_type ≢ OpType.cancel_device_cache device)
          → (ended env now closed h in_time op p).answer ≢ panic
      plain nc = execute_operation-panic op.op_type p other nc

      by_type :
          (t : OpType)
          → op.op_type ≡ t
          → (process_type env now closed h t in_time op p).answer ≢ panic
      by_type (OpType.cancel_device_cache device) is = λ e. cc e
      by_type OpType.bus_reset is = plain (λ d e. cc (is, e))
      by_type (OpType.mount _ _ _ _) is = plain (λ d e. cc (is, e))
      by_type (OpType.unmount _ _) is = plain (λ d e. cc (is, e))
      by_type (OpType.read_directory _) is = plain (λ d e. cc (is, e))
      by_type (OpType.read_file _ _ _) is = plain (λ d e. cc (is, e))
      by_type (OpType.write_file _ _ _) is = plain (λ d e. cc (is, e))
      by_type (OpType.init_drive _ _) is = plain (λ d e. cc (is, e))
      by_type (OpType.identify _) is = plain (λ d e. cc (is, e))
      by_type (OpType.get_status _) is = plain (λ d e. cc (is, e))
      by_type (OpType.read_file_cache _ _ _) is = plain (λ d e. cc (is, e))

  -- Processing leaves the flag as it is.
  process_type-shutdown :
      (t : OpType) (ending : Ending) (op : Operation) (p : Proc)
      → (process_type env now closed h t ending op p).after.shutdown ≡ p.shutdown
  unfolding process_cancel_device_cache
  process_type-shutdown (OpType.cancel_device_cache device) ending op p = refl
  process_type-shutdown _ in_time op p = refl
  process_type-shutdown _ (too_late left) op p = refl

-- Such turns are turns of the processor.
Steps-Works :
    {env : Env} {u v w : World} {ops : List Operation}
    → Steps env u v
    → Works env v ops w
    → Steps env u w
Steps-Works before rests = before
Steps-Works before (works ops q op now h runs takes answers more) =
    Steps-Works (then_step before (processed [] q op now none h in_time runs takes answers)) more

abbrev any : Operation → Bool
any op = true

-- A read ahead of a file, which a cancellation takes from the queues.
abbrev pub IsReadAhead : Operation → Type 0
IsReadAhead op = (device : ℕ) × IsCacheRead device op.op_type

cache_read-IsReadAhead :
    (device : ℕ) (op : Operation) → is_cache_read_of device op ≡ true → IsReadAhead op
unfolding is_cache_read_of
cache_read-IsReadAhead device op e = (device, cache_read_of-IsCacheRead device op.op_type e)

abbrev mounting : Operation → Bool
mounting op = is_mounting op.op_type

module _ (env : Env) (now : ℕ) (h : Handles) where
  -- The processor at its end: nothing is pending, it has received and lost nothing more, and what was
  -- pending is what it processed and the reads ahead that were cancelled.
  abbrev pub Drained : World → Type 0
  Drained w =
      (v : World) × (ops : List Operation) × (cancelled : List Operation) × Works env w ops v
      × (pending v.proc.queues ≡ [])
      × (v.received ≡ w.received)
      × (v.lost ≡ w.lost)
      × All IsReadAhead cancelled
      × ((p : Operation → Bool) → tally p ops + tally p cancelled ≡ tally p (pending w.proc.queues))

  -- What processing takes from the queues.
  abbrev Leaves : OperationQueues → Processed → Type 0
  Leaves q d =
      (moved : List Operation) × All IsReadAhead moved
      × ((p : Operation → Bool)
          → tally p (pending d.after.queues) + tally p moved ≡ tally p (pending q))

  process_type-Leaves :
      (t : OpType) (op : Operation) (p : Proc)
      → Leaves p.queues (process_type env now none h t in_time op p)
  unfolding process_cancel_device_cache remove_cache_for_device
  process_type-Leaves (OpType.cancel_device_cache device) op p = (
    removed env (is_cache_read_of device) (cache_cleared_error device) p.queues,
    All-mono (cache_read-IsReadAhead device) (keep_if (is_cache_read_of device) (pending p.queues))
        (keep_if-All (is_cache_read_of device) (pending p.queues)),
    removed-tally env (is_cache_read_of device) (cache_cleared_error device) p.queues,
  )
  process_type-Leaves _ op p = ([], tt, λ p'. omega arith)

  -- The turn that takes `op`, with what it does to the counts of the pending operations.
  module _ (w : World) (op : Operation) (rest : OperationQueues) (l : Ledger w)
      (runs : w.proc.shutdown ≡ false) (next : pop_next w.proc.queues ≡ (some op, rest))
      (plain : is_mounting op.op_type ≡ false) where
    abbrev after_turn : World
    after_turn = answered env now none h in_time [] op rest w

    taken_is : taken [] w.proc ≡ (some op, rest)
    unfolding receive
    taken_is = next

    answers : (process_operation env now none h in_time op (with_queues rest w.proc)).answer ≢ panic
    answers = process_operation-panic env now none h op (with_queues rest w.proc) plain

    turn : Step env w after_turn
    turn = processed [] rest op now none h in_time runs taken_is answers

    leaves : Leaves rest (process_operation env now none h in_time op (with_queues rest w.proc))
    unfolding process_operation
    leaves = process_type-Leaves op.op_type op (with_queues rest w.proc)

    fewer :
        (p : Operation → Bool) → tally p (pending after_turn.proc.queues) ≤ tally p (pending rest)
    unfolding answered process_operation
    fewer p = let (moved, ahead, kept) = leaves in omega (arith, kept p)

    still_runs : after_turn.proc.shutdown ≡ false
    unfolding answered process_operation
    still_runs =
        process_type-shutdown env now none h op.op_type in_time op (with_queues rest w.proc) ∙ runs

    after_turn-Drained : Drained after_turn → Drained w
    unfolding answered
    after_turn-Drained (v, ops, cancelled, more, e, received, lost, all, each) =
        let (moved, ahead, kept) = leaves in
        let (_, front) = took_some w.proc.queues rest op l.sorted next in
        (
          v,
          op ∷ ops,
          moved ++ cancelled,
          works ops rest op now h runs taken_is answers more,
          e,
          received ∙ append-nil w.received,
          lost,
          All-append IsReadAhead moved cancelled ahead all,
          λ p. omega (arith, each p, kept p, front p, tally-append p moved cancelled),
        )

  not_counted : (b : Bool) (k : ℕ) → (if b then 1 else 0) + k ≡ 0 → (b ≡ false) × (k ≡ 0)
  not_counted true k e = absurd (omega (arith, e))
  not_counted false k e = (refl, omega (arith, e))

  drain :
      (n : ℕ) (w : World)
      → Ledger w
      → w.proc.shutdown ≡ false
      → tally any (pending w.proc.queues) ≤ n
      → tally mounting (pending w.proc.queues) ≡ 0
      → Drained w
  drain zero w l runs enough unmounting = elim (pop_next-Pops w.proc.queues l.sorted) [
    | inl (e, _) ↦ (w, [], [], rests, e, refl, refl, tt, λ p. sym (ap (tally p) e))
    | inr (op, rest, next, front, _, _) ↦ absurd (omega (arith, enough, ap (tally any) front))
  ]
  drain (suc n) w l runs enough unmounting = elim (pop_next-Pops w.proc.queues l.sorted) [
    | inl (e, _) ↦ (w, [], [], rests, e, refl, refl, tt, λ p. sym (ap (tally p) e))
    | inr (op, rest, next, front, _, _) ↦
        let (plain, left) =
          not_counted (mounting op) (tally mounting (pending rest))
            (sym (ap (tally mounting) front) ∙ unmounting) in
        after_turn-Drained w op rest l runs next plain (
          drain n (after_turn w op rest l runs next plain)
            (Steps-Ledger env w _ (then_step done (turn w op rest l runs next plain)) l)
            (still_runs w op rest l runs next plain)
            (omega (arith, enough, ap (tally any) front, fewer w op rest l runs next plain any))
            (omega (arith, left, fewer w op rest l runs next plain mounting)))
  ]

  -- From books that balance, a processor that is not told to stop, gets no more operations and has no
  -- mount or unmount pending can go on, by turns that each take a pending operation and process it to
  -- its end, at any time and with no age check, to where nothing is pending. The operations that it
  -- processes and the reads ahead that are cancelled are, counted by any test, those that were pending;
  -- it has received and dropped nothing more, and its books balance, so every one is answered.
  pub Works-pending_none :
      (w : World)
      → Ledger w
      → w.proc.shutdown ≡ false
      → All (λ op. is_mounting op.op_type ≡ false) (pending w.proc.queues)
      → (v : World) × (ops : List Operation) × (cancelled : List Operation) × Works env w ops v
        × (pending v.proc.queues ≡ [])
        × (v.received ≡ w.received)
        × (v.lost ≡ w.lost)
        × All IsReadAhead cancelled
        × ((p : Operation → Bool)
            → tally p ops + tally p cancelled ≡ tally p (pending w.proc.queues))
        × Ledger v
  Works-pending_none w l runs unmounting =
      let (v, ops, cancelled, turns, e, received, lost, all, each) =
        drain (tally any (pending w.proc.queues)) w l runs (omega arith)
          (uncounted (pending w.proc.queues) unmounting) in
      let steps : Steps env w v = Steps-Works done turns in
      (v, ops, cancelled, turns, e, received, lost, all, each, Steps-Ledger env w v steps l)
    where
      uncounted :
          (ops : List Operation)
          → All (λ op. is_mounting op.op_type ≡ false) ops
          → tally mounting ops ≡ 0
      uncounted [] all = refl
      uncounted (op ∷ ops) all = ground (arith, all.0, uncounted ops all.1)
