-- ===== src/Fuser/Laws/Through.antt =====
-- A read that has to go to the drive: through the background processor, back into the cache, and to
-- the kernel.
use rs1541fs.Prelude.{
  ℕ, zero, suc, ◌+◌, ◌-◌, ◌<◌, ◌≤◌, String, ◌≡◌, refl, inl, Bool, ◌&&◌, true, false, List, [], ◌∷◌,
  ◌++◌, Option, none, some, arith, ap, ◌∙◌, take, drop, ltb, if◌then◌else◌,
}
use rs1541fs.Error.{ok}
use rs1541fs.Rs1541.{CbmStatus, CbmDriveUnit, CbmFileType, valid_file}
use rs1541fs.Env.{Env}
use rs1541fs.Bg.{OpType, OpResponseType, OpResponse, Operation, new_operation}
use rs1541fs.Bg.Queues.{OperationQueues}
use rs1541fs.Drives.{get_drive}
use rs1541fs.Service.{Handles}
use rs1541fs.Proc.{in_time, process_operation, execute_operation, execute}
use rs1541fs.Proc.Steps.{World, Step, processed, answered, taken, with_queues}
use rs1541fs.File.Buffer.{usize_end, read_range-take-drop}
use rs1541fs.File.Cache.{new, get_data_complete_and_fresh}
use rs1541fs.File.Entry.{FileEntry, cbm_file}
use rs1541fs.Mount.State.{Mount}
use rs1541fs.Mount.Lookup.{file_by_inode, change_file}
use rs1541fs.Mount.Found.{changed, file_by_inode-change_file}
use rs1541fs.Mount.Requests.{read_file_sync, request_file, device_path, in_progress, set_cache}
use rs1541fs.Mount.Responses.{process_bg_response}
use rs1541fs.Fuser.{Timers, Counts, reply}
use rs1541fs.Fuser.Reading.{fresh_data, data_at_once, read, sees_data, wait_for_file_read}
use rs1541fs.Fuser.Laws.Reads.{process_bg_response-sees_data}

module _ (timers : Timers) (view : ℕ → ℕ × Mount) (ino : ℕ) where
  at_check : (n k : ℕ) → n ≡ k → sees_data timers ino (view n) ≡ sees_data timers ino (view k)
  at_check n k same = ap (λ x. sees_data timers ino (view x)) same

  -- The checks from number `count` on give the bytes that the first of them to see any sees.
  wait-found :
      (left count k : ℕ) (contents : List ℕ)
      → k < left
      → ((j : ℕ) → j < k → sees_data timers ino (view (count + j)) ≡ none)
      → sees_data timers ino (view (count + k)) ≡ some contents
      → wait_for_file_read timers view ino left count ≡ ok contents
  unfolding wait_for_file_read
  wait-found zero count k contents h before sees = absurd (omega arith)
  wait-found (suc left) count zero contents h before sees =
      rw (wait_for_file_read, at_check count (count + 0) (omega arith) ∙ sees) refl
  wait-found (suc left) count (suc k) contents h before sees =
      rw (wait_for_file_read, at_check count (count + 0) (omega arith) ∙ before 0 (omega arith))
        (wait-found left (count + 1) k contents (omega arith)
          (λ j h'.
            at_check (count + 1 + j) (count + suc j) (omega arith) ∙ before (suc j) (omega arith))
          (at_check (count + 1 + k) (count + suc k) (omega arith) ∙ sees))

and-false : (b : Bool) → (b && false) ≡ false
and-false true = refl
and-false false = refl

-- A file of the disk whose bytes are not at hand.
module _ (env : Env) (timers : Timers) (counts : Counts) (now : ℕ) (m : Mount) (ino : ℕ)
    (f : FileEntry) (t : CbmFileType) (path : String) (blocks : ℕ) (max_size : Option ℕ)
    (located : file_by_inode m ino ≡ some f)
    (native : f.native ≡ cbm_file (valid_file t path blocks max_size))
    (stale : fresh_data timers now f.cache ≡ none) where
  abbrev requested : Operation
  requested = new_operation now (OpType.read_file m.device_num path ino) m.bg_rsp_tx none

  -- The mount while the read is under way, and the response that ends it.
  abbrev waiting : Mount
  waiting = change_file ino (set_cache (some (new now))) m

  abbrev brought : CbmStatus → List ℕ → OpResponse
  brought status contents = record {
    rsp = inl (OpResponseType.read_file m.device_num path ino status contents);
    stream = none;
  }

  waits : file_by_inode waiting ino ≡ some (set_cache (some (new now)) f)
  waits =
      file_by_inode-change_file ino (set_cache (some (new now))) (λ _. refl) m
      ∙ ap (changed (set_cache (some (new now)))) located

  requests : read_file_sync now none ino false m ≡ (ok tt, waiting, requested ∷ [])
  unfolding read_file_sync device_path request_file
  requests = rw (read_file_sync, located, device_path, native, and-false (in_progress f.cache)) refl

  sees_nothing : (moment : ℕ) → sees_data timers ino (moment, waiting) ≡ none
  unfolding sees_data get_data_complete_and_fresh new
  sees_nothing moment = rw waits refl

  reads :
      (view : ℕ → ℕ × Mount) (offset size : ℕ) (contents : List ℕ)
      → wait_for_file_read timers view ino counts.file_check 0 ≡ ok contents
      → offset + size < usize_end
      → read timers counts now none m view ino offset size
        ≡ (ok (reply (take size (drop offset contents))), waiting, requested ∷ [])
  unfolding read data_at_once
  reads view offset size contents found fits =
      rw (located, native, stale, requests, found, read_range-take-drop contents offset size fits)
        refl

  module _ (moment : ℕ) (closed : Option String) (h : Handles) (ops : List Operation)
      (q : OperationQueues) (w : World) (unit : CbmDriveUnit) (contents : List ℕ)
      (status : CbmStatus) (runs : w.proc.shutdown ≡ false)
      (next : taken ops w.proc ≡ (some requested, q))
      (driven : get_drive m.device_num w.proc.service.drives ≡ ok unit)
      (bytes_read : env.cbm.read_file unit path ≡ inl (contents, status)) where
    answer_is :
        (process_operation env moment closed h in_time requested (with_queues q w.proc)).answer
        ≡ ok (OpResponseType.read_file m.device_num path ino status contents)
    unfolding process_operation execute_operation execute new_operation
    answer_is = rw (runs, driven, bytes_read) refl

    turn : Step env w (answered env moment closed h in_time ops requested q w)
    turn = processed ops q requested moment closed h in_time runs next (λ e. cc (e, answer_is))

    turn_sends :
        (answered env moment closed h in_time ops requested q w).sent
        ≡ w.sent ++ (m.bg_rsp_tx, brought status contents) ∷ []
    unfolding answered new_operation
    turn_sends = rw answer_is refl

    -- A read of a file of the disk whose bytes are not at hand, on open channels. A turn of the
    -- processor takes the operation that the read sends, its drive is there and gives the bytes with a
    -- good status, and the response has arrived when the wait makes its check number `k`, within its
    -- checks and before the bytes are too old. Then that turn is a step of the processor, it sends one
    -- response to the mount, the mount takes it without a panic, and the read answers with the asked
    -- part of the bytes.
    pub read-process_bg_response :
        (landed k offset size : ℕ) (at : ℕ → ℕ)
        → status.is_ok ≡ true
        → k < counts.file_check
        → landed ≤ at k
        → at k - landed < timers.file_cache
        → offset + size < usize_end
        → (v : World) × (after : Mount) × Step env w v
          × (v.sent ≡ w.sent ++ (m.bg_rsp_tx, brought status contents) ∷ [])
          × (process_bg_response env.format_time landed (brought status contents) waiting
              ≡ ok after)
          × (read timers counts now none m
                (λ count. (at count, if ltb count k then waiting else after))
                ino
                offset
                size
              ≡ (ok (reply (take size (drop offset contents))), waiting, requested ∷ []))
    read-process_bg_response landed k offset size at good enough order young fits =
        let (after, taken_in, sees) =
          process_bg_response-sees_data env.format_time timers landed (at k) m.device_num ino path
            status contents none waiting (set_cache (some (new now)) f) waits good order young in
        (
          answered env moment closed h in_time ops requested q w,
          after,
          turn,
          turn_sends,
          taken_in,
          reads (view after) offset size contents
              (wait-found timers (view after) ino counts.file_check 0 k contents enough
                (λ j before. rw (lower j k before) (sees_nothing (at (0 + j))))
                (rw (not_lower k) (at_check_k k contents after sees)))
              fits,
        )
      where
        lower : (j k : ℕ) → j < k → ltb (0 + j) k ≡ true
        lower j k h = ground arith

        not_lower : (k : ℕ) → ltb (0 + k) k ≡ false
        not_lower k = ground arith

        at_check_k :
            (k : ℕ) (contents : List ℕ) (after : Mount)
            → sees_data timers ino (at k, after) ≡ some contents
            → sees_data timers ino (at (0 + k), after) ≡ some contents
        at_check_k k contents after sees =
            ap (λ n. sees_data timers ino (at n, after)) (omega arith) ∙ sees

        view : Mount → ℕ → ℕ × Mount
        view after count = (at count, if ltb count k then waiting else after)
