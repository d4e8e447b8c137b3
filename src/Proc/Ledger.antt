-- ===== src/Proc/Ledger.antt =====
-- Every operation that the background processor receives is pending, answered or dropped, once.
use mathlib.Core.List.{map-append}
use rs1541fs.Prelude.{
  ℕ, ◌+◌, Bool, not, List, [], ◌∷◌, ◌++◌, map, Option, ◌≡◌, refl, inl, inr, ap, sym, ◌∙◌, arith,
  if◌then◌else◌, leb, keep_if, Bool-cases,
}
use rs1541fs.Error.{Fs1541Error}
use rs1541fs.Env.{Env}
use rs1541fs.Bg.{OpResponse, Operation}
use rs1541fs.Bg.Queues.{OperationQueues, push, report, process_all_queues}
use rs1541fs.Bg.Queues.Order.{pending, rank, IsSorted, enqueue, pending-push, push-IsSorted}
use rs1541fs.Bg.Queues.Removal.{process_all_queues-pending}
use rs1541fs.Proc.Steps.{World, receive}

-- How many operations pass a test.
abbrev pub tally : (Operation → Bool) → List Operation → ℕ
tally p [] = 0
tally p (op ∷ ops) = (if p op then 1 else 0) + tally p ops

pub tally-append :
    (p : Operation → Bool) (xs ys : List Operation) → tally p (xs ++ ys) ≡ tally p xs + tally p ys
tally-append p [] ys = omega arith
tally-append p (x ∷ xs) ys = omega (arith, tally-append p xs ys)

tally-enqueue :
    (p : Operation → Bool) (op : Operation) (xs : List Operation)
    → tally p (enqueue op xs) ≡ (if p op then 1 else 0) + tally p xs
unfolding enqueue
tally-enqueue p op [] = refl
tally-enqueue p op (x ∷ xs) = elim (Bool-cases (leb (rank x.priority) (rank op.priority))) [
  | inl e ↦ rw e (omega (arith, tally-enqueue p op xs))
  | inr e ↦ rw e refl
]

pub tally-keep_if :
    (p r : Operation → Bool) (xs : List Operation)
    → tally p (keep_if (λ op. not (r op)) xs) + tally p (keep_if r xs) ≡ tally p xs
tally-keep_if p r [] = refl
tally-keep_if p r (x ∷ xs) = elim (Bool-cases (r x)) [
  | inl e ↦ rw e (omega (arith, tally-keep_if p r xs))
  | inr e ↦ rw e (omega (arith, tally-keep_if p r xs))
]

pub receive-IsSorted :
    (ops : List Operation) (q : OperationQueues) → IsSorted q → IsSorted (receive ops q)
unfolding receive
receive-IsSorted [] q v = v
receive-IsSorted (op ∷ ops) q v = receive-IsSorted ops (push q op) (push-IsSorted q op v)

pub tally-receive :
    (p : Operation → Bool) (ops : List Operation) (q : OperationQueues)
    → IsSorted q
    → tally p (pending (receive ops q)) ≡ tally p (pending q) + tally p ops
unfolding receive
tally-receive p [] q v = omega arith
tally-receive p (op ∷ ops) q v = omega (
  arith,
  tally-receive p ops (push q op) (push-IsSorted q op v),
  ap (tally p) (pending-push op q v),
  tally-enqueue p op (pending q),
)

-- Where the response to an operation goes: its channel, with its stream.
abbrev pub address : Operation → ℕ × Option ℕ
address op = (op.sender, op.stream)

abbrev pub reply_address : ℕ × OpResponse → ℕ × Option ℕ
reply_address (channel, response) = (channel, response.stream)

-- The books of the processor: each received operation is pending, answered or lost, as often as it
-- was received; and the responses went, in order, to the channels and streams of the answered ones.
pub record Ledger (w : World) : Type 0 where
  pub sorted : IsSorted w.proc.queues
  pub answered : List Operation
  pub balance :
      (p : Operation → Bool)
      → tally p (pending w.proc.queues) + tally p answered + tally p w.lost ≡ tally p w.received
  pub addressed : map reply_address w.sent ≡ map address answered

pub reports :
    (env : Env) (mk : Operation → Fs1541Error) (ops : List Operation)
    → map reply_address (map (report env.debug_duration mk) ops) ≡ map address ops
unfolding report
reports env mk [] = refl
reports env mk (op ∷ ops) = ap (λ l. address op ∷ l) (reports env mk ops)

-- A removal by a test moves operations from the pending ones to the answered ones.
module _ (env : Env) (r : Operation → Bool) (mk : Operation → Fs1541Error)
    (q : OperationQueues) where
  abbrev pub removed : List Operation
  removed = keep_if r (pending q)

  pub removed-tally :
      (p : Operation → Bool)
      → tally p (pending (process_all_queues env.debug_duration q r mk).0) + tally p removed
        ≡ tally p (pending q)
  removed-tally p =
      rw (process_all_queues-pending env.debug_duration r mk q).0 (tally-keep_if p r (pending q))

  pub removed-addresses :
      map reply_address (process_all_queues env.debug_duration q r mk).1 ≡ map address removed
  removed-addresses =
      rw (process_all_queues-pending env.debug_duration r mk q).1 (reports env mk removed)

-- The world after a turn, from the balance of what the turn moves.
module _ (w : World) (l : Ledger w) where
  pub advance :
      (w' : World) (moved dropped ops : List Operation) (responded : List (ℕ × OpResponse))
      → IsSorted w'.proc.queues
      → w'.received ≡ w.received ++ ops
      → w'.lost ≡ w.lost ++ dropped
      → w'.sent ≡ w.sent ++ responded
      → map reply_address responded ≡ map address moved
      → ((p : Operation → Bool)
          → tally p (pending w'.proc.queues) + tally p moved + tally p dropped
            ≡ tally p (pending w.proc.queues) + tally p ops)
      → Ledger w'
  advance w' moved dropped ops responded v er el es em balance = record {
    sorted = v;
    answered = l.answered ++ moved;
    balance = λ p. omega (
      arith,
      balance p,
      l.balance p,
      ap (tally p) er,
      ap (tally p) el,
      tally-append p w.received ops,
      tally-append p w.lost dropped,
      tally-append p l.answered moved,
    );
    addressed =
        ap (map reply_address) es
        ∙ map-append reply_address w.sent responded
        ∙ ap (λ a. a ++ map reply_address responded) l.addressed
        ∙ ap (λ a. map address l.answered ++ a) em
        ∙ sym (map-append address l.answered moved);
  }
