-- ===== src/Bg/Queues/Order.antt =====
-- The four queues as one list: the order in which the operations will be taken.
use rs1541fs.Prelude.{
  ℕ, suc, ◌≤◌, ◌≡◌, refl, ◌⊎◌, inl, inr, List, [], ◌∷◌, ◌++◌, none, some, arith, leb, All, All-mono,
  All-append, All-any, if◌then◌else◌, ap, sym, ◌∙◌,
}
use mathlib.Core.List.{append_assoc, append-nil}
use rs1541fs.Bg.{Priority, critical, high, normal, low, Operation}
use rs1541fs.Bg.Queues.{OperationQueues, empty, push, push_on, pop_next}

unfoldable pub pending : OperationQueues → List Operation
pending q = q.critical ++ (q.high ++ (q.normal ++ q.low))

-- How urgent a priority is: 0 is the most urgent.
abbrev pub rank : Priority → ℕ
rank critical = 0
rank high = 1
rank normal = 2
rank low = 3

-- Every operation waits on the queue of its priority.
pub record IsSorted (q : OperationQueues) : Type 0 where
  pub critical : All (λ op. op.priority ≡ Priority.critical) q.critical
  pub high : All (λ op. op.priority ≡ Priority.high) q.high
  pub normal : All (λ op. op.priority ≡ Priority.normal) q.normal
  pub low : All (λ op. op.priority ≡ Priority.low) q.low

-- The abstract queue: an operation goes behind all that are at least as urgent.
unfoldable pub enqueue : Operation → List Operation → List Operation
enqueue op [] = op ∷ []
enqueue op (x ∷ xs) =
    if leb (rank x.priority) (rank op.priority) then x ∷ enqueue op xs else op ∷ x ∷ xs

enqueue-behind :
    (op : Operation) (xs ys : List Operation)
    → All (λ x. rank x.priority ≤ rank op.priority) xs
    → enqueue op (xs ++ ys) ≡ xs ++ enqueue op ys
unfolding enqueue
enqueue-behind op [] ys h = refl
enqueue-behind op (x ∷ xs) ys h = ground (arith, enqueue-behind op xs ys h.1)

enqueue-before :
    (op : Operation) (ys : List Operation)
    → All (λ x. suc (rank op.priority) ≤ rank x.priority) ys
    → enqueue op ys ≡ op ∷ ys
unfolding enqueue
enqueue-before op [] h = refl
enqueue-before op (y ∷ ys) h = ground arith

at_most :
    (n : ℕ) (p : Priority) (xs : List Operation)
    → All (λ x. x.priority ≡ p) xs
    → rank p ≤ n
    → All (λ x. rank x.priority ≤ n) xs
at_most n p xs all h = All-mono (λ x e. rw e h) xs all

at_least :
    (n : ℕ) (p : Priority) (xs : List Operation)
    → All (λ x. x.priority ≡ p) xs
    → suc n ≤ rank p
    → All (λ x. suc n ≤ rank x.priority) xs
at_least n p xs all h = All-mono (λ x e. rw e h) xs all

-- An operation of a priority between those of two lists goes between the lists.
enqueue-between :
    (op : Operation) (xs ys : List Operation)
    → All (λ x. rank x.priority ≤ rank op.priority) xs
    → All (λ x. suc (rank op.priority) ≤ rank x.priority) ys
    → enqueue op (xs ++ ys) ≡ xs ++ op ∷ ys
enqueue-between op xs ys h k =
    enqueue-behind op xs ys h ∙ ap (λ l. xs ++ l) (enqueue-before op ys k)

module _ (op : Operation) (q : OperationQueues) (v : IsSorted q) where
  -- Facts about a whole queue, from the priority of its operations.
  behind_critical : All (λ x. rank x.priority ≤ rank op.priority) q.critical
  behind_critical = at_most _ Priority.critical q.critical v.critical (omega arith)

  behind_high : 1 ≤ rank op.priority → All (λ x. rank x.priority ≤ rank op.priority) q.high
  behind_high h = at_most _ Priority.high q.high v.high h

  behind_normal : 2 ≤ rank op.priority → All (λ x. rank x.priority ≤ rank op.priority) q.normal
  behind_normal h = at_most _ Priority.normal q.normal v.normal h

  behind_low : 3 ≤ rank op.priority → All (λ x. rank x.priority ≤ rank op.priority) q.low
  behind_low h = at_most _ Priority.low q.low v.low h

  before_low : rank op.priority ≤ 2 → All (λ x. suc (rank op.priority) ≤ rank x.priority) q.low
  before_low h = at_least _ Priority.low q.low v.low (omega arith)

  before_normal :
      rank op.priority ≤ 1 → All (λ x. suc (rank op.priority) ≤ rank x.priority) (q.normal ++ q.low)
  before_normal h =
      All-append _ q.normal q.low (at_least _ Priority.normal q.normal v.normal (omega arith))
        (before_low (omega arith))

  before_high :
      rank op.priority ≤ 0
      → All (λ x. suc (rank op.priority) ≤ rank x.priority) (q.high ++ (q.normal ++ q.low))
  before_high h =
      All-append _ q.high (q.normal ++ q.low) (at_least _ Priority.high q.high v.high (omega arith))
        (before_normal (omega arith))

  push_on-pending :
      (p : Priority) → op.priority ≡ p → pending (push_on q op p) ≡ enqueue op (pending q)
  unfolding pending
  push_on-pending critical e =
      append_assoc q.critical (op ∷ []) _
      ∙ sym (enqueue-between op q.critical _ behind_critical (before_high (rw e (omega arith))))
  push_on-pending high e =
      ap (λ l. q.critical ++ l) (append_assoc q.high (op ∷ []) _)
      ∙ sym (
          enqueue-behind op q.critical _ behind_critical
          ∙ ap (λ l. q.critical ++ l)
              (enqueue-between op q.high _ (behind_high (rw e (omega arith)))
                (before_normal (rw e (omega arith)))))
  push_on-pending normal e =
      ap (λ l. q.critical ++ (q.high ++ l)) (append_assoc q.normal (op ∷ []) _)
      ∙ sym (
          enqueue-behind op q.critical _ behind_critical
          ∙ ap (λ l. q.critical ++ l)
              (enqueue-behind op q.high _ (behind_high (rw e (omega arith)))
                ∙ ap (λ l. q.high ++ l)
                    (enqueue-between op q.normal _ (behind_normal (rw e (omega arith)))
                      (before_low (rw e (omega arith))))))
  push_on-pending low e = sym (
      enqueue-behind op q.critical _ behind_critical
      ∙ ap (λ l. q.critical ++ l)
          (enqueue-behind op q.high _ (behind_high (rw e (omega arith)))
            ∙ ap (λ l. q.high ++ l)
                (enqueue-behind op q.normal _ (behind_normal (rw e (omega arith)))
                  ∙ ap (λ l. q.normal ++ l)
                      (ap (enqueue op) (sym (append-nil q.low))
                        ∙ enqueue-between op q.low [] (behind_low (rw e (omega arith))) tt))))

  -- `push` puts an operation behind all that are at least as urgent and before all that are less.
  pub pending-push : pending (push q op) ≡ enqueue op (pending q)
  unfolding push
  pending-push = push_on-pending op.priority refl

abbrev queues : List Operation → List Operation → List Operation → List Operation → OperationQueues
queues c h n l = record { critical = c; high = h; normal = n; low = l }

above :
    (n : ℕ) (p : Priority) (xs : List Operation)
    → All (λ x. x.priority ≡ p) xs
    → n ≤ rank p
    → All (λ x. n ≤ rank x.priority) xs
above n p xs all h = All-mono (λ x e. rw e h) xs all

-- What taking an operation means for the pending ones: it is the first of them, no other is more
-- urgent, and the others stay where they are.
abbrev pub Pops : OperationQueues → Type 0
Pops q =
    ((pending q ≡ []) × (pop_next q ≡ (none, q)))
    ⊎ ((op : Operation) × (rest : OperationQueues) × (pop_next q ≡ (some op, rest))
        × (pending q ≡ op ∷ pending rest)
        × All (λ x. rank op.priority ≤ rank x.priority) (pending rest)
        × IsSorted rest)

queues-Pops : (c h n l : List Operation) → IsSorted (queues c h n l) → Pops (queues c h n l)
unfolding pop_next pending
queues-Pops [] [] [] [] v = inl (refl, refl)
queues-Pops [] [] [] (op ∷ l) v = inr (
  op,
  queues [] [] [] l,
  refl,
  refl,
  above _ Priority.low l v.low.1 (rw v.low.0 (omega arith)),
  record { critical = tt; high = tt; normal = tt; low = v.low.1 },
)
queues-Pops [] [] (op ∷ n) l v = inr (
  op,
  queues [] [] n l,
  refl,
  refl,
  All-append _ n l (above _ Priority.normal n v.normal.1 (rw v.normal.0 (omega arith)))
      (above _ Priority.low l v.low (rw v.normal.0 (omega arith))),
  record { critical = tt; high = tt; normal = v.normal.1; low = v.low },
)
queues-Pops [] (op ∷ h) n l v = inr (
  op,
  queues [] h n l,
  refl,
  refl,
  All-append _ h (n ++ l) (above _ Priority.high h v.high.1 (rw v.high.0 (omega arith))) (
      All-append _ n l (above _ Priority.normal n v.normal (rw v.high.0 (omega arith)))
        (above _ Priority.low l v.low (rw v.high.0 (omega arith)))),
  record { critical = tt; high = v.high.1; normal = v.normal; low = v.low },
)
queues-Pops (op ∷ c) h n l v = inr (
  op,
  queues c h n l,
  refl,
  refl,
  All-mono (λ x _. rw v.critical.0 (omega arith)) (c ++ (h ++ (n ++ l))) (All-any _),
  record { critical = v.critical.1; high = v.high; normal = v.normal; low = v.low },
)

-- `pop_next` on sorted queues gives nothing exactly when nothing is pending. Otherwise it takes the
-- first pending operation, no other pending operation is more urgent, and the others keep their
-- order and their queues.
pub pop_next-Pops : (q : OperationQueues) → IsSorted q → Pops q
pop_next-Pops q v = queues-Pops q.critical q.high q.normal q.low v

push_on-IsSorted :
    (q : OperationQueues) (op : Operation) (p : Priority)
    → op.priority ≡ p
    → IsSorted q
    → IsSorted (push_on q op p)
push_on-IsSorted q op critical e v = record {
  critical = All-append _ q.critical _ v.critical (e, tt);
  high = v.high;
  normal = v.normal;
  low = v.low;
}
push_on-IsSorted q op high e v = record {
  critical = v.critical;
  high = All-append _ q.high _ v.high (e, tt);
  normal = v.normal;
  low = v.low;
}
push_on-IsSorted q op normal e v = record {
  critical = v.critical;
  high = v.high;
  normal = All-append _ q.normal _ v.normal (e, tt);
  low = v.low;
}
push_on-IsSorted q op low e v = record {
  critical = v.critical;
  high = v.high;
  normal = v.normal;
  low = All-append _ q.low _ v.low (e, tt);
}

-- Adding an operation leaves every one on the queue of its priority.
pub push-IsSorted : (q : OperationQueues) (op : Operation) → IsSorted q → IsSorted (push q op)
unfolding push
push-IsSorted q op v = push_on-IsSorted q op op.priority refl v

pub empty-IsSorted : IsSorted empty
unfolding empty
empty-IsSorted = record { critical = tt; high = tt; normal = tt; low = tt }
