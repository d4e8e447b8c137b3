-- ===== src/Proc/Cut.antt =====
-- A cancellation that is cut off keeps the books.
use rs1541fs.Prelude.{
  ℕ, zero, suc, ◌+◌, Bool, true, false, ltb, List, [], ◌∷◌, ◌++◌, take, drop, ◌≡◌, refl, arith,
  if◌then◌else◌, All, All-keep_if,
}
use rs1541fs.Env.{Env}
use rs1541fs.Bg.{Operation}
use rs1541fs.Bg.Queues.{OperationQueues, is_cache_read_of, cache_cleared_error}
use rs1541fs.Bg.Queues.Scan.{scan-keep_if}
use rs1541fs.Bg.Queues.Order.{pending, IsSorted}
use rs1541fs.Proc.Steps.{World, gone_through, cut_queues, cut_cancel}
use rs1541fs.Proc.Ledger.{tally, tally-append, tally-keep_if, reports, Ledger, advance}

tally-take :
    (p : Operation → Bool) (k : ℕ) (xs : List Operation)
    → tally p (take k xs) + tally p (drop k xs) ≡ tally p xs
tally-take p zero xs = omega arith
tally-take p (suc k) [] = refl
tally-take p (suc k) (x ∷ xs) = omega (arith, tally-take p k xs)

module _ (r : Operation → Bool) where
  tally-gone_through :
      (p : Operation → Bool) (b : Bool) (queue : List Operation)
      → tally p (gone_through b r queue).0 + tally p (gone_through b r queue).1 ≡ tally p queue
  tally-gone_through p true queue = rw (scan-keep_if r queue) (tally-keep_if p r queue)
  tally-gone_through p false queue = omega arith

  gone_through-All :
      (P : Operation → Type 0) (b : Bool) (queue : List Operation)
      → All P queue
      → All P (gone_through b r queue).0
  gone_through-All P true queue all = rw (scan-keep_if r queue) (All-keep_if P _ queue all)
  gone_through-All P false queue all = all

  cut_queues-IsSorted :
      (reached : ℕ) (q : OperationQueues) → IsSorted q → IsSorted (cut_queues reached r q).0
  unfolding cut_queues
  cut_queues-IsSorted reached q v = record {
    critical = gone_through-All _ (ltb 0 reached) q.critical v.critical;
    high = gone_through-All _ (ltb 1 reached) q.high v.high;
    normal = gone_through-All _ (ltb 2 reached) q.normal v.normal;
    low = gone_through-All _ (ltb 3 reached) q.low v.low;
  }

  tally-four :
      (p : Operation → Bool) (a b c d : List Operation)
      → tally p (a ++ (b ++ (c ++ d))) ≡ tally p a + tally p b + tally p c + tally p d
  tally-four p a b c d =
      omega (arith, tally-append p a (b ++ (c ++ d)), tally-append p b (c ++ d), tally-append p c d)

  tally-cut_queues :
      (p : Operation → Bool) (reached : ℕ) (q : OperationQueues)
      → tally p (pending (cut_queues reached r q).0) + tally p (cut_queues reached r q).1
        ≡ tally p (pending q)
  unfolding cut_queues pending
  tally-cut_queues p reached q = rw (tally-four p q.critical q.high q.normal q.low) (
      omega (
        arith,
        tally-four p (gone_through (ltb 0 reached) r q.critical).0
            (gone_through (ltb 1 reached) r q.high).0 (gone_through (ltb 2 reached) r q.normal).0
            (gone_through (ltb 3 reached) r q.low).0,
        tally-four p (gone_through (ltb 0 reached) r q.critical).1
            (gone_through (ltb 1 reached) r q.high).1 (gone_through (ltb 2 reached) r q.normal).1
            (gone_through (ltb 3 reached) r q.low).1,
        tally-gone_through p (ltb 0 reached) q.critical,
        tally-gone_through p (ltb 1 reached) q.high,
        tally-gone_through p (ltb 2 reached) q.normal,
        tally-gone_through p (ltb 3 reached) q.low,
      ))

pub cut_cancel-Ledger :
    (env : Env) (w : World) (device reached told : ℕ) (ops : List Operation) (op : Operation)
    (q : OperationQueues)
    → Ledger w
    → IsSorted q
    → ((p : Operation → Bool)
        → tally p (pending q) + (if p op then 1 else 0)
          ≡ tally p (pending w.proc.queues) + tally p ops)
    → Ledger (cut_cancel env device reached told ops op q w)
unfolding cut_cancel
cut_cancel-Ledger env w device reached told ops op q l v balance =
    let r = is_cache_read_of device in
    let removed = (cut_queues reached r q).1 in
    advance w l (cut_cancel env device reached told ops op q w) (take told removed)
      (op ∷ drop told removed) ops _ (cut_queues-IsSorted r reached q v) refl refl refl
      (reports env (cache_cleared_error device) (take told removed))
      (λ p. omega (arith, balance p, tally-cut_queues r p reached q, tally-take p told removed))
