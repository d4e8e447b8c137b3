-- ===== src/Client/Laws/Waiting.antt =====
-- The wait for a daemon that the client starts.
use rs1541fs.Prelude.{
  ℕ, zero, suc, String, ◌+◌, ◌*◌, ◌≤◌, ◌<◌, ◌≡◌, ◌≢◌, refl, sym, ap, subst, ◌⊎◌, inl, inr, true,
  false, Option, none, some, ltb, ltb→lt, arith, Bool-cases,
}
use rs1541fs.Error.{Error, Result, ok, err, panic}
use rs1541fs.Client.Connection.{check_daemon_health}
use rs1541fs.Client.Starting.{
  Moment, Start, is_ok, is_started, startup_timeout, connect_retry_delay, startup_failed,
  wait_for_daemon, launch, ensure_daemon_running, spawned, spawn_error, SpawnError,
}

-- Every turn of the loop sleeps for a second.
abbrev pub IsClock : (ℕ → Moment) → Type 0
IsClock moments = (k : ℕ) → (moments k).elapsed + connect_retry_delay ≤ (moments (suc k)).elapsed

-- The daemon is found, in time.
pub record IsFound (m : Moment) : Type 0 where
  pub early : m.elapsed < startup_timeout
  pub started : is_started m ≡ true

-- From one of the moments on, there is one at which the daemon is found in time.
abbrev pub StartsFrom : (ℕ → Moment) → ℕ → Type 0
StartsFrom moments at = (k : ℕ) × IsFound (moments (at + k))

-- The loop ends, with success exactly if the daemon is found in time.
abbrev pub IsWait : (ℕ → Moment) → ℕ → Result (Unit {0}) → Type 0
IsWait moments at r =
    ((r ≡ ok tt) × StartsFrom moments at) ⊎ ((r ≡ err startup_failed) × (StartsFrom moments at → ⊥))

module _ (moments : ℕ → Moment) (clock : IsClock moments) where
  here : (at : ℕ) → moments (at + 0) ≡ moments at
  here at = ap moments (omega arith)

  later : (at k : ℕ) → moments (suc at + k) ≡ moments (at + suc k)
  later at k = ap moments (omega arith)

  elapsed_grows : (at k : ℕ) → (moments at).elapsed ≤ (moments (at + k)).elapsed
  elapsed_grows at zero = omega (arith, ap (λ m. m.elapsed) (here at))
  elapsed_grows at (suc k) =
      omega (arith, clock at, elapsed_grows (suc at) k, ap (λ m. m.elapsed) (later at k))

  StartsFrom-suc :
      (at : ℕ)
      → is_started (moments at) ≡ false
      → StartsFrom moments at
      → StartsFrom moments (suc at)
  StartsFrom-suc at e (zero, found) = absurd (cc (e, (subst IsFound (here at) found).started))
  StartsFrom-suc at e (suc k, found) = (k, subst IsFound (sym (later at k)) found)

  suc-StartsFrom : (at : ℕ) → StartsFrom moments (suc at) → StartsFrom moments at
  suc-StartsFrom at (k, found) = (suc k, subst IsFound (later at k) found)

  suc-IsWait :
      (at : ℕ) (r : Result (Unit {0}))
      → is_started (moments at) ≡ false
      → IsWait moments (suc at) r
      → IsWait moments at r
  suc-IsWait at r e (inl (is_r, starts)) = inl (is_r, suc-StartsFrom at starts)
  suc-IsWait at r e (inr (is_r, never)) = inr (is_r, λ s. never (StartsFrom-suc at e s))

  too_late : (at : ℕ) → ltb (moments at).elapsed startup_timeout ≡ false → StartsFrom moments at → ⊥
  too_late at late (k, found) = ground (arith, elapsed_grows at k, found.early)

  -- What the loop does, from what it does after the first turn.
  turn-IsWait :
      (fuel at : ℕ)
      → (ltb (moments at).elapsed startup_timeout ≡ true
          → (r : Result (Unit {0})) × (wait_for_daemon fuel moments (suc at) ≡ some r)
            × IsWait moments (suc at) r)
      → (r : Result (Unit {0})) × (wait_for_daemon (suc fuel) moments at ≡ some r)
        × IsWait moments at r
  unfolding wait_for_daemon
  turn-IsWait fuel at next = elim (Bool-cases (ltb (moments at).elapsed startup_timeout)) [
    | inr late ↦ rw (wait_for_daemon, late) (err startup_failed, refl, inr (refl, too_late at late))
    | inl early ↦ elim (Bool-cases (is_started (moments at))) [
      | inl started ↦
          rw (wait_for_daemon, early, started)
            (
              ok tt,
              refl,
              inl (
                refl,
                (
                  0,
                  subst IsFound (sym (here at)) (record {
                    early = ltb→lt (moments at).elapsed startup_timeout early;
                    started = started;
                  }),
                ),
              ),
            )
      | inr missing ↦
          let (r, e, waits) = next early in
          rw (wait_for_daemon, early, missing) (r, e, suc-IsWait at r missing waits)
    ]
  ]

  wait_for_daemon-IsWait :
      (fuel at : ℕ)
      → startup_timeout ≤ (moments at).elapsed + 1000 * fuel
      → (r : Result (Unit {0})) × (wait_for_daemon (suc fuel) moments at ≡ some r)
        × IsWait moments at r
  wait_for_daemon-IsWait zero at enough = turn-IsWait zero at (λ early. absurd (ground arith))
  wait_for_daemon-IsWait (suc fuel) at enough =
      turn-IsWait (suc fuel) at
        (λ early. wait_for_daemon-IsWait fuel (suc at) (omega (arith, clock at)))

-- How making sure of the daemon ends.
abbrev pub IsEnsured : Start → Result (Unit {0}) → Type 0
IsEnsured s r =
    ((r ≡ ok tt)
      × ((check_daemon_health s.connection ≡ ok tt) ⊎ ((launch s ≡ none) × StartsFrom s.moments 0)))
    ⊎ ((e : Error) × (r ≡ err e)
        × (check_daemon_health s.connection ≢ ok tt)
        × (launch s ≡ none → StartsFrom s.moments 0 → ⊥))

is_ok-ok : (r : Result (Unit {0})) → is_ok r ≡ true → r ≡ ok tt
is_ok-ok (ok _) e = refl
is_ok-ok (err x) e = absurd (cc e)
is_ok-ok panic e = absurd (cc e)

not_ok : (r : Result (Unit {0})) → is_ok r ≡ false → r ≢ ok tt
not_ok (ok _) e h = absurd (cc e)
not_ok (err x) e h = cc h
not_ok panic e h = cc h

waited-IsEnsured :
    (s : Start) (r : Result (Unit {0}))
    → check_daemon_health s.connection ≢ ok tt
    → launch s ≡ none
    → IsWait s.moments 0 r
    → IsEnsured s r
waited-IsEnsured s r unhealthy launched (inl (e, starts)) = inl (e, inr (launched, starts))
waited-IsEnsured s r unhealthy launched (inr (e, never)) =
    inr (startup_failed, e, unhealthy, λ _. never)

spawned-IsEnsured :
    (s : Start) (daemon_path : String) (o : Option SpawnError)
    → IsClock s.moments
    → check_daemon_health s.connection ≢ ok tt
    → launch s ≡ o
    → (r : Result (Unit {0})) × (spawned daemon_path s.moments o ≡ some r) × IsEnsured s r
spawned-IsEnsured s daemon_path (some e) clock unhealthy failed = (
  err (spawn_error daemon_path e),
  refl,
  inr (spawn_error daemon_path e, refl, unhealthy, λ launched. absurd (cc (failed, launched))),
)
spawned-IsEnsured s daemon_path none clock unhealthy launched =
    let (r, e, waits) = wait_for_daemon-IsWait s.moments clock 5 0 (omega arith) in
    (r, e, waited-IsEnsured s r unhealthy launched waits)

-- Making sure of the daemon ends, if each turn of the wait takes its second: with success if the daemon
-- is healthy at once, or is launched and found, healthy and under its name, within the five seconds;
-- otherwise with an error.
pub ensure_daemon_running-IsEnsured :
    (s : Start)
    → IsClock s.moments
    → (r : Result (Unit {0})) × (ensure_daemon_running s ≡ some r) × IsEnsured s r
unfolding ensure_daemon_running
ensure_daemon_running-IsEnsured s clock =
    elim (Bool-cases (is_ok (check_daemon_health s.connection))) [
      | inl healthy ↦
          rw healthy
            (ok tt, refl, inl (refl, inl (is_ok-ok (check_daemon_health s.connection) healthy)))
      | inr unhealthy ↦ rw unhealthy (
          spawned-IsEnsured s _ (launch s) clock
            (not_ok (check_daemon_health s.connection) unhealthy) refl)
    ]
