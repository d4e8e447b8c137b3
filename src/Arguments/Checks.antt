-- ===== src/Arguments/Checks.antt =====
-- Which arguments the polling loops of the FUSE handlers can be set up with.
use rs1541fs.Prelude.{ℕ, ◌*◌, ◌/◌, ◌^◌, ◌<◌, ◌≡◌, ◌↔◌, ap, sym, arith, nat_eq}
use rs1541fs.Error.{ok, Duration, bind-ok}
use rs1541fs.Fuser.{Counts, checks, new_counts}
use rs1541fs.Arguments.{Args, new_timers}

-- A wait is polled, and its number of checks fits in a u32.
abbrev pub IsPolled : Duration → Duration → Type 0
IsPolled wait sleep = (0 < sleep) × (wait / sleep < 2 ^ 32)

checks-ok : (wait sleep : Duration) → IsPolled wait sleep → checks wait sleep ≡ ok (wait / sleep)
unfolding checks
checks-ok wait sleep h = ground arith

ok-checks :
    (wait sleep : Duration) (n : ℕ)
    → checks wait sleep ≡ ok n
    → IsPolled wait sleep × (n ≡ wait / sleep)
unfolding checks
ok-checks wait sleep n e = ground arith

-- The numbers of checks for a mount are worked out without a panic exactly if both sleeps are above zero
-- and both quotients fit in 32 bits; then they are the timeouts divided by the sleeps.
pub new_counts-IsPolled :
    (args : Args) (counts : Counts)
    → (new_counts (new_timers args) ≡ ok counts) ↔ (
        IsPolled (args.dir_reread_timeout_secs * 1000) args.dir_read_sleep_ms
        × IsPolled (args.file_reread_timeout_secs * 1000) args.file_read_sleep_ms
        × (counts ≡ record {
          dir_check = args.dir_reread_timeout_secs * 1000 / args.dir_read_sleep_ms;
          file_check = args.file_reread_timeout_secs * 1000 / args.file_read_sleep_ms;
        }))
unfolding new_counts new_timers
new_counts-IsPolled args counts = (
  λ e.
      let (dir_check, dir, rest) =
        bind-ok (checks (args.dir_reread_timeout_secs * 1000) args.dir_read_sleep_ms) _ counts e in
      let (file_check, file, is_counts) =
        bind-ok (checks (args.file_reread_timeout_secs * 1000) args.file_read_sleep_ms) _ counts
          rest in
      let (dir_polled, is_dir) = ok-checks _ _ dir_check dir in
      let (file_polled, is_file) = ok-checks _ _ file_check file in
      (dir_polled, file_polled, cc (is_counts, is_dir, is_file)),
  λ (dir, file, is_counts). rw (checks-ok _ _ dir, checks-ok _ _ file) (ap ok (sym is_counts)),
)
