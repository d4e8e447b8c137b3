-- ===== src/Bg/Queues/Scan.antt =====
-- The in-place removal loop of `process_queue` is a filter.
use mathlib.Core.List.{append-nil, append_assoc}
use rs1541fs.Prelude.{
  ℕ, suc, ◌+◌, ◌≡◌, refl, Bool, not, true, false, List, [], ◌∷◌, ◌++◌, some, inl, inr, arith,
  length, length-append, get_elem?, keep_if, Bool-cases, ap, ◌∙◌,
}
use rs1541fs.Bg.{Operation}
use rs1541fs.Bg.Queues.{scan, remove_at}

get_elem?-middle :
    (kept rest : List Operation) (op : Operation)
    → get_elem? (kept ++ op ∷ rest) (length kept) ≡ some op
get_elem?-middle [] rest op = refl
get_elem?-middle (x ∷ kept) rest op = get_elem?-middle kept rest op

remove_at-middle :
    (kept rest : List Operation) (op : Operation)
    → remove_at (length kept) (kept ++ op ∷ rest) ≡ kept ++ rest
unfolding remove_at
remove_at-middle [] rest op = refl
remove_at-middle (x ∷ kept) rest op = ap (λ l. x ∷ l) (remove_at-middle kept rest op)

scan_removes :
    (fuel : ℕ) (p : Operation → Bool) (queue : List Operation) (ii : ℕ) (removed : List Operation)
    (op : Operation)
    → get_elem? queue ii ≡ some op
    → p op ≡ true
    → scan (suc fuel) p queue ii removed ≡ scan fuel p (remove_at ii queue) ii (removed ++ op ∷ [])
unfolding scan
scan_removes fuel p queue ii removed op e h = ground arith

scan_passes :
    (fuel : ℕ) (p : Operation → Bool) (queue : List Operation) (ii : ℕ) (removed : List Operation)
    (op : Operation)
    → get_elem? queue ii ≡ some op
    → p op ≡ false
    → scan (suc fuel) p queue ii removed ≡ scan fuel p queue (ii + 1) removed
unfolding scan
scan_passes fuel p queue ii removed op e h = ground arith

length-concat :
    (kept : List Operation) (op : Operation) → length (kept ++ op ∷ []) ≡ length kept + 1
length-concat kept op = omega (arith, length-append kept (op ∷ []))

-- With the entries before `ii` already kept, the loop keeps and removes the others by the test.
scan_from :
    (p : Operation → Bool) (kept rest removed : List Operation)
    → scan (length rest) p (kept ++ rest) (length kept) removed
      ≡ (kept ++ keep_if (λ op. not (p op)) rest, removed ++ keep_if p rest)
scan_from p kept [] removed = rw (append-nil removed) (unfold scan in refl)
scan_from p kept (op ∷ rest) removed = elim (Bool-cases (p op)) [
  | inl gone ↦
      scan_removes _ p _ _ removed op (get_elem?-middle kept rest op) gone
      ∙ rw (remove_at-middle kept rest op, gone)
          (scan_from p kept rest (removed ++ op ∷ []) ∙ simp append_assoc)
  | inr stays ↦
      scan_passes _ p _ _ removed op (get_elem?-middle kept rest op) stays
      ∙ rw (← length-concat kept op, stays, ← append_assoc kept (op ∷ []) rest)
          (scan_from p (kept ++ op ∷ []) rest removed ∙ simp append_assoc)
]

-- The loop takes out exactly the operations that the test picks, and keeps both parts in order.
pub scan-keep_if :
    (p : Operation → Bool) (queue : List Operation)
    → scan (length queue) p queue 0 [] ≡ (keep_if (λ op. not (p op)) queue, keep_if p queue)
scan-keep_if p queue = scan_from p [] queue []
