-- ===== src/Bg/Queues.antt =====
-- `OperationQueues` of src/bin/server/bg.rs: one queue for each priority. What the queues send to
-- the originators of removed operations is the list of the sends, each with its channel.
pub mod Scan
pub mod Order
pub mod Removal
use rs1541fs.Prelude.{
  ℕ, zero, suc, ◌+◌, ◌-◌, String, ◌<+>◌, Bool, true, false, List, [], ◌∷◌, ◌++◌, map, Option, none,
  some, inr, leb, length, get_elem?, ◌==◌, nat_eq, if◌then◌else◌,
}
use rs1541fs.Error.{Error, Fs1541Error, fs1541, timeout, cancelled, Duration, fs1541_display}
use rs1541fs.Bg.{
  Priority, critical, high, normal, low, OpType, read_file_cache, Operation, OpResponse,
  priority_timeout, display_priority,
}
use rs1541fs.Prelude.{to_string}

pub record OperationQueues : Type 0 where
  pub critical : List Operation
  pub high : List Operation
  pub normal : List Operation
  pub low : List Operation

-- `OperationQueues::new`
unfoldable pub empty : OperationQueues
empty = record { critical = []; high = []; normal = []; low = [] }

abbrev push_on : OperationQueues → Operation → Priority → OperationQueues
push_on q op Priority.critical = record q { critical = q.critical ++ op ∷ [] }
push_on q op Priority.high = record q { high = q.high ++ op ∷ [] }
push_on q op Priority.normal = record q { normal = q.normal ++ op ∷ [] }
push_on q op Priority.low = record q { low = q.low ++ op ∷ [] }

-- `OperationQueues::push`
unfoldable pub push : OperationQueues → Operation → OperationQueues
push q op = push_on q op op.priority

-- `OperationQueues::pop_next`: `VecDeque::pop_front` on each queue until one has an entry.
abbrev pop_low : OperationQueues → List Operation → Option Operation × OperationQueues
pop_low q [] = (none, q)
pop_low q (op ∷ rest) = (some op, record q { low = rest })

abbrev pop_normal : OperationQueues → List Operation → Option Operation × OperationQueues
pop_normal q [] = pop_low q q.low
pop_normal q (op ∷ rest) = (some op, record q { normal = rest })

abbrev pop_high : OperationQueues → List Operation → Option Operation × OperationQueues
pop_high q [] = pop_normal q q.normal
pop_high q (op ∷ rest) = (some op, record q { high = rest })

abbrev pop_critical : OperationQueues → List Operation → Option Operation × OperationQueues
pop_critical q [] = pop_high q q.high
pop_critical q (op ∷ rest) = (some op, record q { critical = rest })

unfoldable pub pop_next : OperationQueues → Option Operation × OperationQueues
pop_next q = pop_critical q q.critical

-- `VecDeque::remove`
unfoldable pub remove_at : ℕ → List Operation → List Operation
remove_at i [] = []
remove_at zero (op ∷ ops) = ops
remove_at (suc i) (op ∷ ops) = op ∷ remove_at i ops

-- The `while` loop of `process_queue`, with fuel: the queue and `to_remove` when it ends.
unfoldable pub scan :
    ℕ → (Operation → Bool) → List Operation → ℕ → List Operation → List Operation × List Operation
scan zero should_remove queue ii to_remove = (queue, to_remove)
scan (suc fuel) should_remove queue ii to_remove = elim (get_elem? queue ii) [
  | none ↦ (queue, to_remove)
  | some op ↦ elim (should_remove op) [
    | true ↦ scan fuel should_remove (remove_at ii queue) ii (to_remove ++ op ∷ [])
    | false ↦ scan fuel should_remove queue (ii + 1) to_remove
  ]
]

-- What is sent for one removed operation, on its own channel and with its own stream.
unfoldable pub report : (Duration → String) → (Operation → Fs1541Error) → Operation → ℕ × OpResponse
report debug_duration make_error op = (
  op.sender,
  record {
    rsp = inr (fs1541 (fs1541_display debug_duration (make_error op)) (make_error op));
    stream = op.stream;
  },
)

-- The closures of `cleanup_on_age`. `duration_since` is 0 for an instant that lies ahead.
unfoldable pub is_aged_out : ℕ → Operation → Bool
is_aged_out now op = leb (priority_timeout op) (now - op.created_at)

unfoldable pub aged_out_error : Operation → Fs1541Error
aged_out_error op = timeout ("Priority " <+> display_priority op.priority) (priority_timeout op)

abbrev cache_read_of : ℕ → OpType → Bool
cache_read_of device (read_file_cache d _ _) = d == device
cache_read_of device _ = false

-- The closures of `remove_cache_for_device`.
unfoldable pub is_cache_read_of : ℕ → Operation → Bool
is_cache_read_of device op = cache_read_of device op.op_type

unfoldable pub cache_cleared_error : ℕ → Operation → Fs1541Error
cache_cleared_error device op = cancelled ("Device " <+> to_string device <+> " cache cleared")

module _ (debug_duration : Duration → String) where
  -- `process_queue`. Each turn of the loop passes or removes an entry, so the length is enough fuel.
  unfoldable pub process_queue :
      List Operation
      → (Operation → Bool)
      → (Operation → Fs1541Error)
      → List Operation × List (ℕ × OpResponse)
  process_queue queue should_remove make_error =
      let (kept, to_remove) = scan (length queue) should_remove queue 0 [] in
      (kept, map (report debug_duration make_error) to_remove)

  -- `process_all_queues`
  unfoldable pub process_all_queues :
      OperationQueues
      → (Operation → Bool)
      → (Operation → Fs1541Error)
      → OperationQueues × List (ℕ × OpResponse)
  process_all_queues q should_remove make_error =
      let (c, sent_c) = process_queue q.critical should_remove make_error in
      let (h, sent_h) = process_queue q.high should_remove make_error in
      let (n, sent_n) = process_queue q.normal should_remove make_error in
      let (l, sent_l) = process_queue q.low should_remove make_error in
      (
        record { critical = c; high = h; normal = n; low = l },
        sent_c ++ (sent_h ++ (sent_n ++ sent_l)),
      )

  -- `cleanup_on_age`
  unfoldable pub cleanup_on_age : ℕ → OperationQueues → OperationQueues × List (ℕ × OpResponse)
  cleanup_on_age now q = process_all_queues q (is_aged_out now) aged_out_error

  -- `remove_cache_for_device`
  unfoldable pub remove_cache_for_device :
      ℕ → OperationQueues → OperationQueues × List (ℕ × OpResponse)
  remove_cache_for_device device q =
      process_all_queues q (is_cache_read_of device) (cache_cleared_error device)
