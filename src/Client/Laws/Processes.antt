-- ===== src/Client/Laws/Processes.antt =====
-- The daemon's process id, written as a decimal number and read back.
use text.Mathlib.TextLemmas.{cons-append}
use native.Mathlib.Nat.{pow-suc}
use rs1541fs.Prelude.{
  ℕ, zero, suc, ◌+◌, ◌*◌, ◌/◌, ◌%◌, ◌^◌, ◌<◌, ◌≡◌, ◌↔◌, refl, ap, ◌∙◌, inl, inr, String, ◌<+>◌,
  true, Option, none, some, eq_iff, string_eq, sym, ◌⊎◌, ltb, arith, subst, ◌-◌, ltb→lt, Bool-cases,
  to_string, decimal, digit,
}
use rs1541fs.Error.{ok}
use rs1541fs.Client.Texts.{trim_start, trim_end, trim, digits, parse_u32, up_to, before, file_name}
use rs1541fs.Client.Starting.{Files, named, read_proc_cmdline, is_daemon, verify_daemon_process}

below_five {κ} : (P : ℕ → Type κ) → P 0 → P 1 → P 2 → P 3 → P 4 → (d : ℕ) → d < 5 → P d
below_five P a b c d e zero h = a
below_five P a b c d e (suc zero) h = b
below_five P a b c d e (suc (suc zero)) h = c
below_five P a b c d e (suc (suc (suc zero))) h = d
below_five P a b c d e (suc (suc (suc (suc zero)))) h = e
below_five P a b c d e (suc (suc (suc (suc (suc n))))) h = absurd (omega arith)

-- To show something of every digit.
below_ten {κ} :
    (P : ℕ → Type κ)
    → P 0 × P 1 × P 2 × P 3 × P 4
    → P 5 × P 6 × P 7 × P 8 × P 9
    → (d : ℕ) → d < 10
    → P d
below_ten P low high d h = elim (Bool-cases (ltb d 5)) [
  | inl e ↦ below_five P low.0 low.1 low.2 low.3 low.4 d (ltb→lt d 5 e)
  | inr e ↦
      let back : 5 + (d - 5) ≡ d = ground arith in
      subst P back
        (below_five (λ k. P (5 + k)) high.0 high.1 high.2 high.3 high.4 (d - 5) (ground arith))
]

digits-digit :
    (n d : ℕ) (rest : String)
    → d < 10
    → digits n (String.◌∷◌ (digit d) rest) ≡ digits (n * 10 + d) rest
unfolding digits
digits-digit n d rest h =
    below_ten (λ d. digits n (String.◌∷◌ (digit d) rest) ≡ digits (n * 10 + d) rest)
      (refl, refl, refl, refl, refl) (refl, refl, refl, refl, refl) d h

trim_end-digit :
    (d : ℕ) (rest : String)
    → d < 10
    → trim_end (String.◌∷◌ (digit d) rest) ≡ String.◌∷◌ (digit d) (trim_end rest)
unfolding trim_end
trim_end-digit d rest h =
    below_ten (λ d. trim_end (String.◌∷◌ (digit d) rest) ≡ String.◌∷◌ (digit d) (trim_end rest))
      (refl, refl, refl, refl, refl) (refl, refl, refl, refl, refl) d h

trim_start-digit :
    (d : ℕ) (rest : String)
    → d < 10
    → trim_start (String.◌∷◌ (digit d) rest) ≡ String.◌∷◌ (digit d) rest
unfolding trim_start
trim_start-digit d rest h =
    below_ten (λ d. trim_start (String.◌∷◌ (digit d) rest) ≡ String.◌∷◌ (digit d) rest)
      (refl, refl, refl, refl, refl) (refl, refl, refl, refl, refl) d h

-- The decimal form of a number, before any text, is read as that number.
digits-decimal :
    (fuel n : ℕ) (rest : String) → n < 10 ^ fuel → digits 0 (decimal fuel n rest) ≡ digits n rest
unfolding decimal
digits-decimal zero n rest h = ap (λ m. digits m rest) (omega arith)
digits-decimal (suc fuel) n rest h = elim (Bool-cases (ltb n 10)) [
  | inl e ↦
      rw e (digits-digit 0 (n % 10) rest (omega arith) ∙ ap (λ m. digits m rest) (ground arith))
  | inr e ↦ rw e (
      digits-decimal fuel (n / 10) (String.◌∷◌ (digit (n % 10)) rest)
        (omega (arith, pow-suc 10 fuel))
      ∙ digits-digit (n / 10) (n % 10) rest (omega arith)
      ∙ ap (λ m. digits m rest) (omega arith))
]

trim_end-decimal :
    (fuel n : ℕ) (rest : String) → trim_end (decimal fuel n rest) ≡ decimal fuel n (trim_end rest)
unfolding decimal
trim_end-decimal zero n rest = refl
trim_end-decimal (suc fuel) n rest = elim (Bool-cases (ltb n 10)) [
  | inl e ↦ rw (e, trim_end-digit (n % 10) rest (omega arith)) refl
  | inr e ↦
      rw
        (
          e,
          trim_end-decimal fuel (n / 10) (String.◌∷◌ (digit (n % 10)) rest),
          trim_end-digit (n % 10) rest (omega arith),
        )
        refl
]

-- What holds of a text that begins with a digit holds of a decimal form.
decimal-begins {κ} :
    (P : String → Type κ)
    → ((d : ℕ) (rest : String) → d < 10 → P (String.◌∷◌ (digit d) rest))
    → (fuel n : ℕ) (rest : String) → P rest
    → P (decimal fuel n rest)
unfolding decimal
decimal-begins P begins zero n rest h = h
decimal-begins P begins (suc fuel) n rest h = elim (Bool-cases (ltb n 10)) [
  | inl e ↦ rw e (begins (n % 10) rest (omega arith))
  | inr e ↦ rw e (
      decimal-begins P begins fuel (n / 10) (String.◌∷◌ (digit (n % 10)) rest)
        (begins (n % 10) rest (omega arith)))
]

to_string-begins {κ} :
    (P : String → Type κ)
    → ((d : ℕ) (rest : String) → d < 10 → P (String.◌∷◌ (digit d) rest))
    → (n : ℕ) (rest : String) → P (decimal 64 n rest)
unfolding decimal
to_string-begins P begins n rest = elim (Bool-cases (ltb n 10)) [
  | inl e ↦ rw e (begins (n % 10) rest (omega arith))
  | inr e ↦ rw e (
      decimal-begins P begins 63 (n / 10) (String.◌∷◌ (digit (n % 10)) rest)
        (begins (n % 10) rest (omega arith)))
]

decimal-append :
    (fuel n : ℕ) (rest more : String)
    → decimal fuel n rest <+> more ≡ decimal fuel n (rest <+> more)
unfolding decimal
decimal-append zero n rest more = refl
decimal-append (suc fuel) n rest more = elim (Bool-cases (ltb n 10)) [
  | inl e ↦ rw e (cons-append (digit (n % 10)) rest more)
  | inr e ↦ rw e (
      decimal-append fuel (n / 10) (String.◌∷◌ (digit (n % 10)) rest) more
      ∙ ap (λ s. decimal fuel (n / 10) s) (cons-append (digit (n % 10)) rest more))
]

parse_u32-digit :
    (d : ℕ) (rest : String)
    → d < 10
    → parse_u32 (String.◌∷◌ (digit d) rest)
      ≡ up_to (2 ^ 32 - 1) (digits 0 (String.◌∷◌ (digit d) rest))
unfolding parse_u32
parse_u32-digit d rest h =
    below_ten
      (λ d.
        parse_u32 (String.◌∷◌ (digit d) rest)
        ≡ up_to (2 ^ 32 - 1) (digits 0 (String.◌∷◌ (digit d) rest)))
      (refl, refl, refl, refl, refl) (refl, refl, refl, refl, refl) d h

to_string-decimal : (n : ℕ) → to_string n ≡ decimal 64 n ""
unfolding to_string
to_string-decimal n = refl

trim_end_newline : trim_end "\n" ≡ ""
unfolding trim_end
trim_end_newline = refl

trim-decimal : (n : ℕ) → trim (decimal 64 n "\n") ≡ decimal 64 n ""
unfolding trim
trim-decimal n =
    ap trim_end (to_string-begins (λ s. trim_start s ≡ s) trim_start-digit n "\n")
    ∙ trim_end-decimal 64 n "\n"
    ∙ ap (λ s. decimal 64 n s) trim_end_newline

-- A number that is written and followed by a newline is read back.
pub parse_u32-to_string : (n : ℕ) → n < 2 ^ 32 → parse_u32 (trim (to_string n <+> "\n")) ≡ some n
unfolding digits
parse_u32-to_string n h =
    rw (to_string-decimal n, decimal-append 64 n "" "\n", trim-decimal n)
      (to_string-begins (λ s. parse_u32 s ≡ up_to (2 ^ 32 - 1) (digits 0 s)) parse_u32-digit n ""
        ∙ ap (up_to (2 ^ 32 - 1)) (digits-decimal 64 n "" (omega arith))
        ∙ fits)
  where
    fits : up_to (2 ^ 32 - 1) (some n) ≡ some n
    fits = ground arith

-- The command line of a process, which can be read, begins with a program that has the daemon's name:
-- the last part of the path, up to the first 0 character.
abbrev pub RunsDaemon : Files → ℕ → Type 0
RunsDaemon read_to_string pid =
    (line : String) × (read_to_string ("/proc/" <+> to_string pid <+> "/cmdline") ≡ inl line)
    × (file_name (before 0 line) ≡ some "1541fsd")

verifies :
    (read_to_string : Files) (pid_file : String) (pid : ℕ)
    → pid < 2 ^ 32
    → read_to_string pid_file ≡ inl (to_string pid <+> "\n")
    → (verify_daemon_process read_to_string pid_file ≡ ok tt)
      ↔ (is_daemon (read_proc_cmdline read_to_string pid) ≡ true)
unfolding verify_daemon_process
verifies read_to_string pid_file pid h e = rw (e, parse_u32-to_string pid h) (ground arith)

named-some : (o : Option String) → named o ≡ true → o ≡ some "1541fsd"
named-some none e = absurd (cc e)
named-some (some name) e = ap some ((eq_iff name "1541fsd").0 e)

is_daemon-inl :
    (r : String ⊎ String)
    → (is_daemon r ≡ true)
      ↔ ((line : String) × (r ≡ inl line) × (file_name (before 0 line) ≡ some "1541fsd"))
unfolding is_daemon
is_daemon-inl (inl line) = (
  λ e. (line, refl, named-some (file_name (before 0 line)) e),
  λ (l, same, e). subst (λ x. is_daemon x ≡ true) (sym same) (rw e refl),
)
is_daemon-inl (inr x) = (λ e. absurd (cc e), λ (l, same, e). absurd (cc same))

is_daemon-RunsDaemon :
    (read_to_string : Files) (pid : ℕ)
    → (is_daemon (read_proc_cmdline read_to_string pid) ≡ true) ↔ RunsDaemon read_to_string pid
unfolding read_proc_cmdline
is_daemon-RunsDaemon read_to_string pid =
    is_daemon-inl (read_to_string ("/proc/" <+> to_string pid <+> "/cmdline"))

-- A pid file with the process id in decimal and a newline passes exactly if the command line of that
-- process, below /proc, can be read and its program, up to the first 0 character, has the file name
-- 1541fsd.
pub verify_daemon_process-RunsDaemon :
    (read_to_string : Files) (pid_file : String) (pid : ℕ)
    → pid < 2 ^ 32
    → read_to_string pid_file ≡ inl (to_string pid <+> "\n")
    → (verify_daemon_process read_to_string pid_file ≡ ok tt) ↔ RunsDaemon read_to_string pid
verify_daemon_process-RunsDaemon read_to_string pid_file pid h e =
    let (f, g) = verifies read_to_string pid_file pid h e in
    let (f', g') = is_daemon-RunsDaemon read_to_string pid in (λ v. f' (f v), λ r. g (g' r))
