-- ===== src/Locks/Order.antt =====
-- Threads that take their locks in order are never stuck.
use rs1541fs.Prelude.{
  ℕ, Bool, false, zero, suc, ◌+◌, ◌<◌, ◌≤◌, true, ◌||◌, ◌≡◌, refl, ◌⊎◌, inl, inr, List, [], ◌∷◌,
  ◌++◌, some, get_elem?, set, All, All-get_elem?, arith, Bool-cases,
}
use rs1541fs.Locks.{
  LockKind, Lock, rank, holds, Locking, done, acquire, release, send, either, Thread, all_held,
  Move, takes, gives, sends, left, right, PoolStep, moves, PoolSteps, still, further,
}

abbrev pub Below : Lock → Lock → Type 0
Below l k = rank k.kind < rank l.kind

-- Each lock is above those that are held, and all are given back at the end.
abbrev pub IsOrdered : List Lock → Locking → Type 0
IsOrdered [] done = Unit
IsOrdered (k ∷ held) done = ⊥
IsOrdered held (acquire l p) = All (Below l) held × IsOrdered (l ∷ held) p
IsOrdered [] (release p) = ⊥
IsOrdered (k ∷ held) (release p) = IsOrdered held p
IsOrdered held (send p) = IsOrdered held p
IsOrdered held (either p q) = IsOrdered held p × IsOrdered held q

abbrev pub InOrder : Thread → Type 0
InOrder t = IsOrdered t.held t.todo

rank_le : (k : LockKind) → rank k ≤ 8
rank_le LockKind.daemon = omega arith
rank_le LockKind.ipc_server = omega arith
rank_le LockKind.bg_proc = omega arith
rank_le LockKind.mountpoints = omega arith
rank_le LockKind.mount = omega arith
rank_le LockKind.drive_mgr = omega arith
rank_le LockKind.cbm = omega arith
rank_le LockKind.drives = omega arith
rank_le LockKind.drive = omega arith

holds-append : (l : Lock) (ks ls : List Lock) → holds l (ks ++ ls) ≡ (holds l ks || holds l ls)
holds-append l [] ls = refl
holds-append l (k ∷ ks) ls = ground (arith, holds-append l ks ls)

-- A lock that is held is held by a thread.
holder :
    (l : Lock) (ts : List Thread)
    → holds l (all_held ts) ≡ true
    → (i : ℕ) × (t : Thread) × (get_elem? ts i ≡ some t) × (holds l t.held ≡ true)
holder l [] e = absurd (cc e)
holder l (t ∷ ts) e = elim (Bool-cases (holds l t.held)) [
  | inl here ↦ (0, t, refl, here)
  | inr other ↦
      let (i, u, at, there) =
        holder l ts (ground (arith, holds-append l t.held (all_held ts), other, e)) in
      (suc i, u, at, there)
]

-- What a thread takes next is above every lock it holds.
held-Below :
    (l k : Lock) (held : List Lock)
    → All (Below k) held
    → holds l held ≡ true
    → rank l.kind < rank k.kind
held-Below l k [] b e = absurd (cc e)
held-Below l k (h ∷ held) b e = ground (arith, b, held-Below l k held b.1)

-- Some thread can go on, with no room on any channel.
abbrev pub CanStep : List Thread → Type 0
CanStep ts = (ts' : List Thread) × PoolStep false ts ts'

-- Some thread waits for room on a channel.
abbrev pub WaitsToSend : List Thread → Type 0
WaitsToSend ts =
    (i : ℕ) × (held : List Lock) × (p : Locking) × (get_elem? ts i
      ≡ some (record { held = held; todo = send p }))

abbrev GoesOn : List Thread → Type 0
GoesOn ts = CanStep ts ⊎ WaitsToSend ts

abbrev thread : List Lock → Locking → Thread
thread held p = record { held = held; todo = p }

module _ (ts : List Thread) (ordered : All InOrder ts) where
  -- A thread that holds a lock can go on, or waits for one above it.
  holder_moves :
      (j : ℕ) (held : List Lock) (p : Locking) (l : Lock)
      → get_elem? ts j ≡ some (thread held p)
      → holds l held ≡ true
      → ((l' : Lock) (q : Locking)
          → get_elem? ts j ≡ some (thread held (acquire l' q))
          → rank l.kind < rank l'.kind
          → GoesOn ts)
      → GoesOn ts
  holder_moves j [] p l at has waits = absurd (cc has)
  holder_moves j (k ∷ held) done l at has waits = absurd (All-get_elem? InOrder ts j _ ordered at)
  holder_moves j (k ∷ held) (acquire l' q) l at has waits =
      let (above, rest) = All-get_elem? InOrder ts j _ ordered at in
      waits l' q at (held-Below l l' (k ∷ held) above has)
  holder_moves j (k ∷ held) (release p) l at has waits = inl (_, moves ts j _ _ at (gives k held p))
  holder_moves j (k ∷ held) (send p) l at has waits = inr (j, k ∷ held, p, at)
  holder_moves j (k ∷ held) (either p q) l at has waits = inl (_, moves ts j _ _ at (left _ p q))

  -- Whoever waits, the threads that wait for one another are above one another.
  waiter_moves :
      (left_over i : ℕ) (held : List Lock) (l : Lock) (p : Locking)
      → get_elem? ts i ≡ some (thread held (acquire l p))
      → 8 < left_over + rank l.kind
      → GoesOn ts
  waiter_moves zero i held l p at h = absurd (omega (arith, rank_le l.kind))
  waiter_moves (suc n) i held l p at h = elim (Bool-cases (holds l (all_held ts))) [
    | inr free ↦ inl (_, moves ts i _ _ at (takes l held p free))
    | inl taken ↦
        let (j, u, at_j, has) = holder l ts taken in
        holder_moves j u.held u.todo l at_j has
          (λ l' q at' above. waiter_moves n j u.held l' q at' (omega arith))
  ]

  thread_moves :
      (i : ℕ) (held : List Lock) (p : Locking)
      → get_elem? ts i ≡ some (thread held p)
      → ((held ≡ []) × (p ≡ done)) ⊎ GoesOn ts
  thread_moves i [] done at = inl (refl, refl)
  thread_moves i (k ∷ held) done at = absurd (All-get_elem? InOrder ts i _ ordered at)
  thread_moves i held (acquire l p) at = inr (waiter_moves 9 i held l p at (omega arith))
  thread_moves i [] (release p) at = absurd (All-get_elem? InOrder ts i _ ordered at)
  thread_moves i (k ∷ held) (release p) at = inr (inl (_, moves ts i _ _ at (gives k held p)))
  thread_moves i held (send p) at = inr (inr (i, held, p, at))
  thread_moves i held (either p q) at = inr (inl (_, moves ts i _ _ at (left held p q)))

abbrev pub IsFinished : Thread → Type 0
IsFinished t = (t.held ≡ []) × (t.todo ≡ done)

-- If every thread is finished or some thread goes on, so are they all, or some does.
module _ (P : Thread → Type 0) (Q : Type 0) where
  every_or_some :
      (ts : List Thread) → ((i : ℕ) (t : Thread) → get_elem? ts i ≡ some t → P t ⊎ Q) → All P ts ⊎ Q
  every_or_some [] h = inl tt
  every_or_some (t ∷ ts) h = elim (h 0 t refl) [
    | inr q ↦ inr q
    | inl p ↦ elim (every_or_some ts (λ i u at. h (suc i) u at)) [
      | inr q ↦ inr q
      | inl all ↦ inl (p, all)
    ]
  ]

progress : (ts : List Thread) → All InOrder ts → All IsFinished ts ⊎ GoesOn ts
progress ts ordered =
    every_or_some IsFinished (GoesOn ts) ts (λ i t at. thread_moves ts ordered i t.held t.todo at)

Move-InOrder :
    (room : Bool) (taken : List Lock) (t t' : Thread)
    → Move room taken t t'
    → InOrder t
    → InOrder t'
Move-InOrder room taken _ _ (takes l held p free) h = h.1
Move-InOrder room taken _ _ (gives l held p) h = h
Move-InOrder room taken _ _ (sends held p has_room) h = h
Move-InOrder room taken _ _ (left held p q) h = h.0
Move-InOrder room taken _ _ (right held p q) h = h.1

set-All :
    (P : Thread → Type 0) (ts : List Thread) (i : ℕ) (t : Thread)
    → All P ts
    → P t
    → All P (set ts i t)
set-All P [] i t all p = tt
set-All P (x ∷ ts) zero t all p = (p, all.1)
set-All P (x ∷ ts) (suc i) t all p = (all.0, set-All P ts i t all.1 p)

PoolStep-InOrder :
    (room : Bool) (ts ts' : List Thread) → PoolStep room ts ts' → All InOrder ts → All InOrder ts'
PoolStep-InOrder room _ _ (moves ts i t t' at move) all =
    let ordered = All-get_elem? InOrder ts i t all at in
    set-All InOrder ts i t' all (Move-InOrder room (all_held ts) t t' move ordered)

PoolSteps-InOrder : (ts ts' : List Thread) → PoolSteps ts ts' → All InOrder ts → All InOrder ts'
PoolSteps-InOrder _ _ (still ts) all = all
PoolSteps-InOrder _ _ (further room ts us ws step steps) all =
    PoolSteps-InOrder us ws steps (PoolStep-InOrder room ts us step all)

-- Threads that take their locks in order never come to a state in which one of them is unfinished and
-- all unfinished ones wait for locks.
pub PoolSteps-IsFinished :
    (ts ts' : List Thread)
    → All InOrder ts
    → PoolSteps ts ts'
    → All IsFinished ts' ⊎ (CanStep ts' ⊎ WaitsToSend ts')
PoolSteps-IsFinished ts ts' all steps = progress ts' (PoolSteps-InOrder ts ts' steps all)
