-- ===== src/Bg/Queues/Removal.antt =====
-- What `cleanup_on_age` and `remove_cache_for_device` take out of the queues, and what they send.
use mathlib.Core.List.{Perm, map-append}
use rs1541fs.Prelude.{
  ℕ, ◌+◌, ◌≤◌, String, ◌<+>◌, to_string, inr, [], ◌∷◌, refl, ◌∙◌, ◌≡◌, Bool, not, true, List, ◌++◌,
  map, arith, keep_if, keep_if-append, keep_if-All, keep_if-perm, All, All-mono, All-keep_if,
}
use rs1541fs.Error.{Fs1541Error, fs1541, timeout, cancelled, fs1541_display, Duration}
use rs1541fs.Bg.{
  Operation, OpResponse, OpType, read_file_cache, priority_timeout, Priority, display_priority,
  timeout as priority_duration,
}
use rs1541fs.Bg.Queues.{
  OperationQueues, cache_read_of, process_queue, process_all_queues, report, cleanup_on_age,
  is_aged_out, aged_out_error, remove_cache_for_device, is_cache_read_of, cache_cleared_error,
}
use rs1541fs.Bg.Queues.Scan.{scan-keep_if}
use rs1541fs.Bg.Queues.Order.{pending, IsSorted}

-- The reads ahead of a device.
abbrev pub IsCacheRead : ℕ → OpType → Type 0
IsCacheRead device op = (path : String) × (inode : ℕ) × (op ≡ read_file_cache device path inode)

pub cache_read_of-IsCacheRead :
    (device : ℕ) (op : OpType) → cache_read_of device op ≡ true → IsCacheRead device op
cache_read_of-IsCacheRead device (read_file_cache d p n) e = (p, n, ground arith)
cache_read_of-IsCacheRead device _ e = absurd (cc e)

IsCacheRead-cache_read_of :
    (device : ℕ) (op : OpType) → IsCacheRead device op → cache_read_of device op ≡ true
IsCacheRead-cache_read_of device op (p, n, e) = rw e (ground arith)

-- The name of a priority and its timeout in milliseconds.
abbrev pub limit : Priority → String × ℕ
limit Priority.critical = ("Critical", 30000)
limit Priority.high = ("High", 60000)
limit Priority.normal = ("Normal", 120000)
limit Priority.low = ("Low", 300000)

-- An operation is too old when it has waited for at least its priority's timeout.
abbrev pub IsTooOld : ℕ → Operation → Type 0
IsTooOld now op = op.created_at + (limit op.priority).1 ≤ now

limit_lem :
    (p : Priority)
    → (display_priority p ≡ (limit p).0)
      × (priority_duration p ≡ (limit p).1)
      × (1 ≤ priority_duration p)
unfolding priority_duration display_priority
limit_lem Priority.critical = (refl, refl, omega arith)
limit_lem Priority.high = (refl, refl, omega arith)
limit_lem Priority.normal = (refl, refl, omega arith)
limit_lem Priority.low = (refl, refl, omega arith)

-- An error for the one who sent an operation: on the operation's channel, with its stream.
abbrev told : Operation → String → Fs1541Error → ℕ × OpResponse
told op text error = (op.sender, record { rsp = inr (fs1541 text error); stream = op.stream })

-- The timeout, with the operation's priority and how long it could wait.
abbrev pub told_timeout : (Duration → String) → Operation → ℕ × OpResponse
told_timeout debug_duration op =
    let (name, wait) = limit op.priority in
    told op
      ("Timeout error: " <+> ("Priority " <+> name) <+> " Timer duration: " <+> debug_duration wait)
      (timeout ("Priority " <+> name) wait)

abbrev pub told_cancelled : ℕ → Operation → ℕ × OpResponse
told_cancelled device op =
    told op ("Operation cancelled: " <+> ("Device " <+> to_string device <+> " cache cleared"))
      (cancelled ("Device " <+> to_string device <+> " cache cleared"))

map-pointwise :
    (f g : Operation → ℕ × OpResponse) (ops : List Operation)
    → ((op : Operation) → f op ≡ g op)
    → map f ops ≡ map g ops
map-pointwise f g [] same = refl
map-pointwise f g (op ∷ ops) same = rw (same op, map-pointwise f g ops same) refl

aged_out-IsTooOld : (now : ℕ) (op : Operation) → is_aged_out now op ≡ true → IsTooOld now op
unfolding is_aged_out priority_timeout
aged_out-IsTooOld now op e = ground (arith, limit_lem op.priority)

fresh-IsTooOld : (now : ℕ) (op : Operation) → not (is_aged_out now op) ≡ true → ¬ IsTooOld now op
unfolding is_aged_out priority_timeout
fresh-IsTooOld now op e h = ground (arith, limit_lem op.priority)

module _ (debug_duration : Duration → String) where
  process_queue-keep_if :
      (p : Operation → Bool) (mk : Operation → Fs1541Error) (queue : List Operation)
      → process_queue debug_duration queue p mk
        ≡ (keep_if (λ op. not (p op)) queue, map (report debug_duration mk) (keep_if p queue))
  unfolding process_queue
  process_queue-keep_if p mk queue = rw (scan-keep_if p queue)

  -- Over all queues, in the order of priority.
  pub process_all_queues-pending :
      (p : Operation → Bool) (mk : Operation → Fs1541Error) (q : OperationQueues)
      → (pending (process_all_queues debug_duration q p mk).0
          ≡ keep_if (λ op. not (p op)) (pending q))
        × ((process_all_queues debug_duration q p mk).1
            ≡ map (report debug_duration mk) (keep_if p (pending q)))
  unfolding process_all_queues pending
  process_all_queues-pending p mk q =
      rw
        (
          process_queue-keep_if p mk q.critical,
          process_queue-keep_if p mk q.high,
          process_queue-keep_if p mk q.normal,
          process_queue-keep_if p mk q.low,
        )
        (simp keep_if-append, simp (keep_if-append, map-append))

  -- What a removal by a test that decides `P` does.
  abbrev pub Removes :
      (Operation → Type 0)
      → (Operation → ℕ × OpResponse)
      → OperationQueues
      → OperationQueues × List (ℕ × OpResponse)
      → Type 0
  Removes P answer q r =
      (removed : List Operation) × Perm (pending r.0 ++ removed) (pending q)
      × All (λ op. ¬ P op) (pending r.0)
      × All P removed
      × (r.1 ≡ map answer removed)

  process_all_queues-Removes :
      (P : Operation → Type 0) (p : Operation → Bool) (mk : Operation → Fs1541Error)
      (answer : Operation → ℕ × OpResponse) (q : OperationQueues)
      → ((op : Operation) → p op ≡ true → P op)
      → ((op : Operation) → not (p op) ≡ true → ¬ P op)
      → ((op : Operation) → report debug_duration mk op ≡ answer op)
      → Removes P answer q (process_all_queues debug_duration q p mk)
  process_all_queues-Removes P p mk answer q yes_P no_P same =
      let (kept, sent) = process_all_queues-pending p mk q in
      (
        keep_if p (pending q),
        rw kept (keep_if-perm p (pending q)),
        rw kept (
            All-mono no_P (keep_if (λ op. not (p op)) (pending q))
              (keep_if-All (λ op. not (p op)) (pending q))),
        All-mono yes_P (keep_if p (pending q)) (keep_if-All p (pending q)),
        sent ∙ map-pointwise (report debug_duration mk) answer (keep_if p (pending q)) same,
      )

  report-told_timeout :
      (op : Operation) → report debug_duration aged_out_error op ≡ told_timeout debug_duration op
  unfolding report aged_out_error priority_timeout fs1541_display
  report-told_timeout op = let (name, wait, _) = limit_lem op.priority in rw (name, wait) refl

  -- The age check removes exactly the operations that have waited for at least the timeout of their
  -- priority, keeps all others, and sends one response for each that it removes: on the operation's
  -- channel, with its stream, the timeout error with the name and the timeout of its priority.
  pub cleanup_on_age-Removes :
      (now : ℕ) (q : OperationQueues)
      → Removes (IsTooOld now) (told_timeout debug_duration) q (cleanup_on_age debug_duration now q)
  unfolding cleanup_on_age
  cleanup_on_age-Removes now q =
      process_all_queues-Removes (IsTooOld now) (is_aged_out now) aged_out_error
        (told_timeout debug_duration) q (aged_out-IsTooOld now) (fresh-IsTooOld now)
        report-told_timeout

  -- Cancelling the cache reads of a device removes exactly the `ReadFileCache` operations of that
  -- device, whatever queue they wait on, and sends one response for each: on the operation's
  -- channel, with its stream, the error that the device's cache was cleared.
  pub remove_cache_for_device-Removes :
      (device : ℕ) (q : OperationQueues)
      → Removes
          (λ op. IsCacheRead device op.op_type)
          (told_cancelled device)
          q
          (remove_cache_for_device debug_duration device q)
  unfolding remove_cache_for_device is_cache_read_of report cache_cleared_error fs1541_display
  remove_cache_for_device-Removes device q =
      process_all_queues-Removes _ (is_cache_read_of device) (cache_cleared_error device)
        (told_cancelled device) q (λ op. cache_read_of-IsCacheRead device op.op_type)
        (λ op e c. cc (e, IsCacheRead-cache_read_of device op.op_type c)) (λ op. refl)

  -- What stays keeps its queue.
  pub process_all_queues-IsSorted :
      (p : Operation → Bool) (mk : Operation → Fs1541Error) (q : OperationQueues)
      → IsSorted q
      → IsSorted (process_all_queues debug_duration q p mk).0
  unfolding process_all_queues
  process_all_queues-IsSorted p mk q v =
      rw
        (
          process_queue-keep_if p mk q.critical,
          process_queue-keep_if p mk q.high,
          process_queue-keep_if p mk q.normal,
          process_queue-keep_if p mk q.low,
        )
        (record {
          critical = All-keep_if _ _ q.critical v.critical;
          high = All-keep_if _ _ q.high v.high;
          normal = All-keep_if _ _ q.normal v.normal;
          low = All-keep_if _ _ q.low v.low;
        })
