-- ===== src/Proc/Kept.antt =====
-- What each turn of the background processor does to its books, and that every turn keeps them.
use mathlib.Core.List.{map-append, append-nil}
use rs1541fs.Prelude.{
  ℕ, ◌+◌, String, Bool, List, [], ◌∷◌, ◌++◌, map, Option, none, some, ◌≡◌, ◌≢◌, refl, inl, inr, ap,
  sym, subst, ◌∙◌, arith, if◌then◌else◌,
}
use rs1541fs.Error.{Result, ok, err, panic}
use rs1541fs.Env.{Env}
use rs1541fs.Bg.{OpType, OpResponseType, Operation, cancel_device_cache}
use rs1541fs.Bg.Queues.{
  OperationQueues, empty, pop_next, cleanup_on_age, remove_cache_for_device, is_aged_out,
  aged_out_error, is_cache_read_of, cache_cleared_error,
}
use rs1541fs.Bg.Queues.Order.{pending, IsSorted, empty-IsSorted, pop_next-Pops}
use rs1541fs.Bg.Queues.Removal.{process_all_queues-IsSorted}
use rs1541fs.Service.{Service, Handles}
use rs1541fs.Proc.{
  Proc, new, Ending, Processed, process_operation, process_type, process_cancel_device_cache,
  responses,
}
use mathlib.Core.Option.{some-injective}
use rs1541fs.Proc.{in_time, too_late}
use rs1541fs.Proc.Steps.{
  World, receive, with_queues, taken, idle, answered, interrupted, aged, Step, asked_to_stop,
  nothing_to_do, processed, cut_off, cut_off_cancelling, cut_cancel, age_check, Steps, done,
  then_step,
}
use rs1541fs.Proc.Cut.{cut_cancel-Ledger}
use rs1541fs.Proc.Ledger.{
  tally, tally-append, receive-IsSorted, tally-receive, address, reply_address, Ledger, removed,
  removed-tally, removed-addresses, advance,
}

-- What `pop_next` gives on sorted queues, as a balance.
took_none : (q q' : OperationQueues) → IsSorted q → pop_next q ≡ (none, q') → q ≡ q'
took_none q q' v e = elim (pop_next-Pops q v) [
  | inl h ↦ ap (λ t. t.1) (sym h.1 ∙ e)
  | inr (op, rest, h, _, _, _) ↦ absurd (cc (ap (λ t. t.0) (sym h ∙ e)))
]

pub took_some :
    (q q' : OperationQueues) (op : Operation)
    → IsSorted q
    → pop_next q ≡ (some op, q')
    → IsSorted q'
      × ((p : Operation → Bool)
          → tally p (pending q) ≡ (if p op then 1 else 0) + tally p (pending q'))
took_some q q' op v e = elim (pop_next-Pops q v) [
  | inl h ↦ absurd (cc (ap (λ t. t.0) (sym h.1 ∙ e)))
  | inr (op', rest, h, front, _, v') ↦
      let same = ap (λ t. t.1) (sym h ∙ e) in
      (
        subst IsSorted same v',
        λ p.
            ap (tally p) front
            ∙ ap (λ x. (if p x then 1 else 0) + tally p (pending rest))
                (some-injective _ _ (ap (λ t. t.0) (sym h ∙ e)))
            ∙ ap (λ x. (if p op then 1 else 0) + tally p (pending x)) same,
      )
]

-- What processing an operation moves out of the queues.
abbrev pub Moves : OperationQueues → Processed → Type 0
Moves q d =
    (moved : List Operation) × IsSorted d.after.queues
    × (map reply_address d.removals ≡ map address moved)
    × ((p : Operation → Bool)
        → tally p (pending d.after.queues) + tally p moved ≡ tally p (pending q))

module _ (env : Env) (now : ℕ) (closed : Option String) (h : Handles) where
  pub process_type-Moves :
      (t : OpType) (ending : Ending) (op : Operation) (p : Proc)
      → IsSorted p.queues
      → Moves p.queues (process_type env now closed h t ending op p)
  unfolding process_cancel_device_cache remove_cache_for_device
  process_type-Moves (cancel_device_cache device) ending op p v = (
    removed env (is_cache_read_of device) (cache_cleared_error device) p.queues,
    process_all_queues-IsSorted env.debug_duration _ _ p.queues v,
    removed-addresses env (is_cache_read_of device) (cache_cleared_error device) p.queues,
    removed-tally env (is_cache_read_of device) (cache_cleared_error device) p.queues,
  )
  process_type-Moves _ in_time op p v = ([], v, refl, λ p'. omega arith)
  process_type-Moves _ (too_late left) op p v = ([], v, refl, λ p'. omega arith)

responses-address :
    (op : Operation) (a : Result OpResponseType)
    → a ≢ panic
    → map reply_address (responses op a) ≡ address op ∷ []
unfolding responses
responses-address op (ok rsp) h = refl
responses-address op (err e) h = refl
responses-address op panic h = absurd (h refl)

module _ (env : Env) (w : World) (l : Ledger w) where
  queued : (ops : List Operation) → IsSorted (receive ops w.proc.queues)
  queued ops = receive-IsSorted ops w.proc.queues l.sorted

  idle-Ledger :
      (ops : List Operation) (q : OperationQueues)
      → taken ops w.proc ≡ (none, q)
      → Ledger (idle ops q w)
  idle-Ledger ops q e =
      let same = took_none (receive ops w.proc.queues) q (queued ops) e in
      advance w l (idle ops q w) [] [] ops [] (subst IsSorted same (queued ops)) refl
        (sym (append-nil w.lost)) (sym (append-nil w.sent)) refl
        (λ p.
          omega
            (arith, tally-receive p ops w.proc.queues l.sorted, ap (λ x. tally p (pending x)) same))

  removal-Ledger :
      (now : ℕ) (q : OperationQueues) (ops dropped : List Operation) (w' : World)
      → IsSorted q
      → w'.proc.queues ≡ (cleanup_on_age env.debug_duration now q).0
      → w'.received ≡ w.received ++ ops
      → w'.lost ≡ w.lost ++ dropped
      → w'.sent ≡ w.sent ++ (cleanup_on_age env.debug_duration now q).1
      → ((p : Operation → Bool)
          → tally p (pending q) + tally p dropped ≡ tally p (pending w.proc.queues) + tally p ops)
      → Ledger w'
  unfolding cleanup_on_age
  removal-Ledger now q ops dropped w' v e er el es balance =
      advance w l w' (removed env (is_aged_out now) aged_out_error q) dropped ops _
        (subst IsSorted (sym e)
          (process_all_queues-IsSorted env.debug_duration (is_aged_out now) aged_out_error q v))
        er el es (removed-addresses env (is_aged_out now) aged_out_error q)
        (λ p. omega (
          arith,
          balance p,
          removed-tally env (is_aged_out now) aged_out_error q p,
          ap (λ x. tally p (pending x)) e,
        ))

  aged-Ledger :
      (now : ℕ) (ops : List Operation) → Ledger (aged env now ops (receive ops w.proc.queues) w)
  unfolding aged
  aged-Ledger now ops =
      removal-Ledger now (receive ops w.proc.queues) ops [] _ (queued ops) refl refl
        (sym (append-nil w.lost)) refl
        (λ p. omega (arith, tally-receive p ops w.proc.queues l.sorted))

  interrupted-Ledger :
      (now : ℕ) (left : Service) (ops : List Operation) (op : Operation) (q : OperationQueues)
      → taken ops w.proc ≡ (some op, q)
      → Ledger (interrupted env now left ops op q w)
  unfolding interrupted
  interrupted-Ledger now left ops op q e =
      let (v, front) = took_some (receive ops w.proc.queues) q op (queued ops) e in
      removal-Ledger now q ops (op ∷ []) _ v refl refl refl refl
        (λ p. omega (arith, front p, tally-receive p ops w.proc.queues l.sorted))

  answered-Ledger :
      (now : ℕ) (closed : Option String) (h : Handles) (ending : Ending) (ops : List Operation)
      (op : Operation) (q : OperationQueues)
      → taken ops w.proc ≡ (some op, q)
      → (process_operation env now closed h ending op (with_queues q w.proc)).answer ≢ panic
      → Ledger (answered env now closed h ending ops op q w)
  unfolding answered process_operation
  answered-Ledger now closed h ending ops op q e ne =
      let (v, front) = took_some (receive ops w.proc.queues) q op (queued ops) e in
      let (moved, v', to_moved, kept) =
        process_type-Moves env now closed h op.op_type ending op (with_queues q w.proc) v in
      let d = process_operation env now closed h ending op (with_queues q w.proc) in
      advance w l (answered env now closed h ending ops op q w) (moved ++ op ∷ []) [] ops _ v' refl
        (sym (append-nil w.lost)) refl
        (map-append reply_address d.removals (responses op d.answer)
          ∙ ap (λ a. a ++ map reply_address (responses op d.answer)) to_moved
          ∙ ap (λ a. map address moved ++ a) (responses-address op d.answer ne)
          ∙ sym (map-append address moved (op ∷ [])))
        (λ p. omega (
          arith,
          front p,
          kept p,
          tally-append p moved (op ∷ []),
          tally-receive p ops w.proc.queues l.sorted,
        ))

-- One turn of `run` keeps the books.
Step-Ledger : (env : Env) (v w : World) → Step env v w → Ledger v → Ledger w
unfolding cut_cancel receive
Step-Ledger env v w (asked_to_stop) l = record {
  sorted = l.sorted;
  answered = l.answered;
  balance = l.balance;
  addressed = l.addressed;
}
Step-Ledger env v w (nothing_to_do ops q _ e) l = idle-Ledger env v l ops q e
Step-Ledger env v w (processed ops q op now closed h ending _ e ne) l =
    answered-Ledger env v l now closed h ending ops op q e ne
Step-Ledger env v w (cut_off ops q op now left _ e) l =
    interrupted-Ledger env v l now left ops op q e
Step-Ledger env v w (cut_off_cancelling ops q op now device reached told _ e _) l =
    let (sorted, front) = took_some (receive ops v.proc.queues) q op (queued env v l ops) e in
    let cut = cut_cancel env device reached told ops op q v in
    let kept =
      cut_cancel-Ledger env v device reached told ops op q l sorted
        (λ p. omega (arith, front p, tally-receive p ops v.proc.queues l.sorted)) in
    aged-Ledger env cut kept now []
Step-Ledger env v w (age_check now ops _) l = aged-Ledger env v l now ops

-- After any turns of `run` from books that balance, they balance: counted by any test, the pending,
-- the answered and the dropped operations are together the received ones, and the responses went, in
-- order, to the channels and with the streams of the answered ones.
pub Steps-Ledger : (env : Env) (v w : World) → Steps env v w → Ledger v → Ledger w
Steps-Ledger env v w done l = l
Steps-Ledger env v w (then_step {v = u} before last) l =
    Step-Ledger env u w last (Steps-Ledger env v u before l)

-- The books of a new processor balance.
pub new-Ledger :
    (shutdown : Bool) (service : Service)
    → Ledger (record { proc = new shutdown service; received = []; sent = []; lost = [] })
unfolding new empty pending
new-Ledger shutdown service = record {
  sorted = empty-IsSorted;
  answered = [];
  balance = λ p. refl;
  addressed = refl;
}
