-- ===== src/Proc/Steps.antt =====
-- `run` of src/bin/server/bg.rs as a step relation. One step is one turn of the `select!`: the block
-- that receives, takes and processes, or that block cut off by the age check's timer. The clock and
-- the timer's period are not part of the state: a step may be taken at any time, so the steps are all
-- that can happen and more.
use rs1541fs.Prelude.{
  ℕ, Bool, ltb, length, map, take, drop, String, true, false, List, [], ◌∷◌, ◌++◌, Option, none,
  some, ◌≡◌, ◌≢◌,
}
use rs1541fs.Error.{panic}
use rs1541fs.Env.{Env}
use rs1541fs.Bg.{OpType, OpResponse, Operation}
use rs1541fs.Bg.Queues.{
  OperationQueues, push, pop_next, cleanup_on_age, scan, report, is_cache_read_of,
  cache_cleared_error,
}
use rs1541fs.Service.{Service, Handles}
use rs1541fs.Proc.{Proc, Ending, in_time, process_operation, responses}

-- The processor, and what has gone through its channels: the operations that it received and the
-- responses that it gave to be sent, in order. `lost` are the operations that were taken from the
-- queues and dropped without a response.
pub record World : Type 0 where
  pub proc : Proc
  pub received : List Operation
  pub sent : List (ℕ × OpResponse)
  pub lost : List Operation

-- The `while let Ok(op) = try_recv()` loop.
unfoldable pub receive : List Operation → OperationQueues → OperationQueues
receive [] q = q
receive (op ∷ ops) q = receive ops (push q op)

abbrev pub with_queues : OperationQueues → Proc → Proc
with_queues q p = record p { queues = q }

-- The block up to the taking: the operations of the channel are queued, and the next one is taken.
abbrev pub taken : List Operation → Proc → Option Operation × OperationQueues
taken ops p = pop_next (receive ops p.queues)

-- A turn that finds nothing to do.
abbrev pub idle : List Operation → OperationQueues → World → World
idle ops q w = record {
  proc = with_queues q w.proc;
  received = w.received ++ ops;
  sent = w.sent;
  lost = w.lost;
}

-- A turn that processes `op`.
unfoldable pub answered :
    Env
    → ℕ
    → Option String
    → Handles
    → Ending
    → List Operation
    → Operation
    → OperationQueues
    → World
    → World
unfolding process_operation responses
answered env now closed h ending ops op q w =
    let done = process_operation env now closed h ending op (with_queues q w.proc) in
    record {
      proc = done.after;
      received = w.received ++ ops;
      sent = w.sent ++ (done.removals ++ responses op done.answer);
      lost = w.lost;
    }

-- A turn that the age check's timer ends while `op` is processed; the service is left as it is then.
-- The check follows.
unfoldable pub interrupted :
    Env → ℕ → Service → List Operation → Operation → OperationQueues → World → World
interrupted env now left ops op q w =
    let (kept, removals) = cleanup_on_age env.debug_duration now q in
    record {
      proc = record { queues = kept; shutdown = w.proc.shutdown; service = left };
      received = w.received ++ ops;
      sent = w.sent ++ removals;
      lost = w.lost ++ op ∷ [];
    }

-- A turn that the timer ends with nothing in process.
unfoldable pub aged : Env → ℕ → List Operation → OperationQueues → World → World
aged env now ops q w =
    let (kept, removals) = cleanup_on_age env.debug_duration now q in
    record {
      proc = with_queues kept w.proc;
      received = w.received ++ ops;
      sent = w.sent ++ removals;
      lost = w.lost;
    }

-- One queue of a cancellation that is cut off: gone through, or not reached.
abbrev pub gone_through :
    Bool → (Operation → Bool) → List Operation → List Operation × List Operation
gone_through true should_remove queue = scan (length queue) should_remove queue 0 []
gone_through false should_remove queue = (queue, [])

-- The first `reached` queues are gone through: what is kept, and what is removed, in order.
unfoldable pub cut_queues :
    ℕ → (Operation → Bool) → OperationQueues → OperationQueues × List Operation
cut_queues reached should_remove q =
    let (c, from_c) = gone_through (ltb 0 reached) should_remove q.critical in
    let (h, from_h) = gone_through (ltb 1 reached) should_remove q.high in
    let (n, from_n) = gone_through (ltb 2 reached) should_remove q.normal in
    let (l, from_l) = gone_through (ltb 3 reached) should_remove q.low in
    (
      record { critical = c; high = h; normal = n; low = l },
      from_c ++ (from_h ++ (from_n ++ from_l)),
    )

-- A cancellation `op` that is cut off between its reports: the first `told` are sent. The operations
-- that are removed and not reported are dropped, as is `op`.
unfoldable pub cut_cancel :
    Env → (device reached told : ℕ) → List Operation → Operation → OperationQueues → World → World
unfolding cut_queues
cut_cancel env device reached told ops op q w =
    let (kept, removed) = cut_queues reached (is_cache_read_of device) q in
    record {
      proc = with_queues kept w.proc;
      received = w.received ++ ops;
      sent =
          w.sent
          ++ map (report env.debug_duration (cache_cleared_error device)) (take told removed);
      lost = w.lost ++ op ∷ drop told removed;
    }

-- The loop looks at the shutdown flag before each turn; another task may set it at any time.
pub data Step (env : Env) : World → World → Type 0 where
  asked_to_stop : {w : World} → Step env w (record w { proc = record w.proc { shutdown = true } })
  nothing_to_do :
      {w : World} (ops : List Operation) (q : OperationQueues)
      → w.proc.shutdown ≡ false
      → taken ops w.proc ≡ (none, q)
      → Step env w (idle ops q w)
  processed :
      {w : World} (ops : List Operation) (q : OperationQueues) (op : Operation) (now : ℕ)
      (closed : Option String) (h : Handles) (ending : Ending)
      → w.proc.shutdown ≡ false
      → taken ops w.proc ≡ (some op, q)
      → ((process_operation env now closed h ending op (with_queues q w.proc)).answer ≢ panic)
      → Step env w (answered env now closed h ending ops op q w)
  cut_off :
      {w : World} (ops : List Operation) (q : OperationQueues) (op : Operation) (now : ℕ)
      (left : Service)
      → w.proc.shutdown ≡ false
      → taken ops w.proc ≡ (some op, q)
      → Step env w (interrupted env now left ops op q w)
  cut_off_cancelling :
      {w : World} (ops : List Operation) (q : OperationQueues) (op : Operation) (now : ℕ)
      (device reached told : ℕ)
      → w.proc.shutdown ≡ false
      → taken ops w.proc ≡ (some op, q)
      → op.op_type ≡ OpType.cancel_device_cache device
      → Step env w (
          aged env now []
            (cut_cancel env device reached told ops op q w).proc.queues
            (cut_cancel env device reached told ops op q w))
  age_check :
      {w : World} (now : ℕ) (ops : List Operation)
      → w.proc.shutdown ≡ false
      → Step env w (aged env now ops (receive ops w.proc.queues) w)

-- Any number of turns.
pub data Steps (env : Env) : World → World → Type 0 where
  done : {w : World} → Steps env w w
  then_step : {u v w : World} → Steps env u v → Step env v w → Steps env u w

-- Turns that each take a pending operation, receive nothing and process it to its end, with no age
-- check; the operations that they process, in order.
pub data Works (env : Env) : World → List Operation → World → Type 0 where
  rests : {w : World} → Works env w [] w
  works :
      {w v : World} (ops : List Operation) (q : OperationQueues) (op : Operation) (now : ℕ)
      (h : Handles)
      → w.proc.shutdown ≡ false
      → taken [] w.proc ≡ (some op, q)
      → ((process_operation env now none h in_time op (with_queues q w.proc)).answer ≢ panic)
      → Works env (answered env now none h in_time [] op q w) ops v
      → Works env w (op ∷ ops) v
