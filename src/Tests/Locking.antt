-- ===== src/Tests/Locking.antt =====
-- The main thread, the background processor with a mount and a listing to do, and a listing of a mount.
use rs1541fs.Prelude.{refl, ◌⊎◌, List, [], ◌∷◌, All, none, some, false, set}
use rs1541fs.Bg.{OpType}
use rs1541fs.Locks.{Thread, acquire, PoolSteps, moves, takes, further, still, Locking}
use rs1541fs.Locks.Order.{IsFinished, CanStep, WaitsToSend}
use rs1541fs.Locks.Service.{the_mount}
use rs1541fs.Locks.Threads.{
  Turn, run_locks, readdir_locks, async_main_locks, Starts, async_main, run, readdir,
  Starts-PoolSteps,
}

abbrev operations : List Turn
operations =
    (8, [], OpType.mount 8 "/mnt/cbm" false false, 0)
    ∷ (8, 8 ∷ [], OpType.read_directory 8, 1)
    ∷ (8, 8 ∷ [], OpType.unmount (some 8) none, 0)
    ∷ []

abbrev threads : List Thread
threads =
    record { held = []; todo = async_main_locks (8 ∷ []) }
    ∷ record { held = []; todo = run_locks operations (8 ∷ []) }
    ∷ record { held = []; todo = readdir_locks 8 3 }
    ∷ []

threads-start : All Starts threads
threads-start =
    ((refl, async_main (8 ∷ [])), ((refl, run operations (8 ∷ [])), ((refl, readdir 8 3), tt)))

-- What a listing does once it has taken the lock.
abbrev after_taking : Locking → Locking
after_taking (acquire l p) = p
after_taking p = p

abbrev after_first : Locking
after_first = after_taking (readdir_locks 8 3)

-- The listing has taken the lock of its mount.
abbrev listing_locked : List Thread
listing_locked = set threads 2 (record { held = the_mount 8 ∷ []; todo = after_first })

listing_first : PoolSteps threads listing_locked
listing_first =
    further false threads listing_locked listing_locked
      (moves threads 2 _ _ refl (takes (the_mount 8) [] after_first refl)) (still listing_locked)

Starts-PoolSteps_example :
    All IsFinished listing_locked ⊎ (CanStep listing_locked ⊎ WaitsToSend listing_locked)
Starts-PoolSteps_example = Starts-PoolSteps threads listing_locked threads-start listing_first
