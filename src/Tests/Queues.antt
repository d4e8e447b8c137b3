-- ===== src/Tests/Queues.antt =====
-- The queues of the background processor and its turns.
use rs1541fs.Prelude.{Bool, List, ◌+◌, ◌≡◌, refl, [], ◌∷◌, none, false, to_string, arith, All}
use rs1541fs.Bg.{Operation, new_operation}
use rs1541fs.Bg.Queues.{
  OperationQueues, empty, push, pop_next, cleanup_on_age, remove_cache_for_device,
}
use rs1541fs.Bg.Queues.Order.{
  pending, enqueue, pending-push, IsSorted, Pops, pop_next-Pops, push-IsSorted, empty-IsSorted,
}
use rs1541fs.Bg.Queues.Removal.{
  Removes, told_timeout, told_cancelled, IsTooOld, IsCacheRead, cleanup_on_age-Removes,
  remove_cache_for_device-Removes,
}
use rs1541fs.Proc.{new, in_time, process_operation, process_cancel_device_cache}
use rs1541fs.Proc.Steps.{World, Works, Steps, done, then_step, processed, receive, answered}
use rs1541fs.Proc.Ledger.{tally, Ledger}
use rs1541fs.Proc.Kept.{Steps-Ledger, new-Ledger}
use rs1541fs.Proc.Drained.{is_mounting, IsReadAhead, Works-pending_none}
use rs1541fs.Tests.Fixtures.{
  env, identify_8, read_dir_8, cancel_8, cache_read_8, no_service, handles,
}

abbrev two_waiting : OperationQueues
two_waiting = push (push empty cache_read_8) read_dir_8

two_waiting-IsSorted : IsSorted two_waiting
two_waiting-IsSorted =
    push-IsSorted (push empty cache_read_8) read_dir_8
      (push-IsSorted empty cache_read_8 empty-IsSorted)

pending-push_example :
    pending (push two_waiting identify_8) ≡ enqueue identify_8 (pending two_waiting)
pending-push_example = pending-push identify_8 two_waiting two_waiting-IsSorted

pop_next-Pops_example : Pops two_waiting
pop_next-Pops_example = pop_next-Pops two_waiting two_waiting-IsSorted

cleanup_on_age-Removes_example :
    Removes to_string
      (IsTooOld 200000)
      (told_timeout to_string)
      two_waiting
      (cleanup_on_age to_string 200000 two_waiting)
cleanup_on_age-Removes_example = cleanup_on_age-Removes to_string 200000 two_waiting

remove_cache_for_device-Removes_example :
    Removes to_string
      (λ op. IsCacheRead 8 op.op_type)
      (told_cancelled 8)
      two_waiting
      (remove_cache_for_device to_string 8 two_waiting)
remove_cache_for_device-Removes_example = remove_cache_for_device-Removes to_string 8 two_waiting

abbrev start : World
start = record { proc = new false no_service; received = []; sent = []; lost = [] }

-- One turn receives two operations and processes the more urgent one.
abbrev after_cancel : World
after_cancel =
    answered env 50 none handles in_time (cache_read_8 ∷ cancel_8 ∷ []) cancel_8
      (push empty cache_read_8) start

one_turn : Steps env start after_cancel
unfolding new empty push pop_next receive new_operation process_operation
    process_cancel_device_cache
one_turn = then_step done (
    processed (cache_read_8 ∷ cancel_8 ∷ []) (push empty cache_read_8) cancel_8 50 none handles
      in_time refl refl (λ e. cc e))

Steps-Ledger_example : Ledger after_cancel
Steps-Ledger_example = Steps-Ledger env start after_cancel one_turn (new-Ledger false no_service)

-- Two operations that have been received and not yet taken.
abbrev two_received : World
two_received = record {
  proc = record { queues = two_waiting; shutdown = false; service = no_service };
  received = read_dir_8 ∷ cache_read_8 ∷ [];
  sent = [];
  lost = [];
}

two_received-Ledger : Ledger two_received
unfolding empty pending push new_operation
two_received-Ledger = record {
  sorted = two_waiting-IsSorted;
  answered = [];
  balance = λ p. omega arith;
  addressed = refl;
}

unmounting : All (λ op. is_mounting op.op_type ≡ false) (pending two_received.proc.queues)
unfolding empty pending push new_operation
unmounting = (refl, (refl, tt))

Works-pending_none_example :
    (v : World) × (ops : List Operation) × (cancelled : List Operation) × Works env two_received ops
      v
    × (pending v.proc.queues ≡ [])
    × (v.received ≡ read_dir_8 ∷ cache_read_8 ∷ [])
    × (v.lost ≡ [])
    × All IsReadAhead cancelled
    × ((p : Operation → Bool)
        → tally p ops + tally p cancelled ≡ tally p (pending two_received.proc.queues))
    × Ledger v
Works-pending_none_example =
    Works-pending_none env 60 handles two_received two_received-Ledger refl unmounting
