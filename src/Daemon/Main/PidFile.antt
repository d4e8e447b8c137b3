-- ===== src/Daemon/Main/PidFile.antt =====
-- The pid file that the daemon leaves.
use rs1541fs.Prelude.{
  String, ◌≡◌, refl, inl, inr, Bool, true, false, not, ◌&&◌, Option, none, some, Bool-cases,
  if◌then◌else◌,
}
use rs1541fs.Error.{Result, ok}
use rs1541fs.Arguments.{Args}
use rs1541fs.Daemon.Main.{
  Files, is_held, check_pid_file, setup_daemon, cleanup_guard, main, exits, checked, ExitCode,
  failure, after_check, after_setup,
}

module _ (files : Files) where
  -- Another daemon's process is named.
  abbrev pub is_running : Option String → Bool
  is_running none = false
  is_running (some content) = is_held files content

  module _ (h : files.remove_file ≡ none) where
    cleanup_guard-none : (file : Option String) → cleanup_guard files file ≡ none
    unfolding cleanup_guard
    cleanup_guard-none none = refl
    cleanup_guard-none (some content) = rw h refl

    check_pid_file-checked :
        (file : Option String)
        → is_running file ≡ false
        → check_pid_file files file ≡ checked (ok tt) none
    unfolding check_pid_file
    check_pid_file-checked none e = refl
    check_pid_file-checked (some content) e = rw (e, h) refl

    check_pid_file-exits :
        (file : Option String) → is_running file ≡ true → check_pid_file files file ≡ exits
    unfolding check_pid_file
    check_pid_file-exits none e = absurd (cc e)
    check_pid_file-exits (some content) e = rw e refl

    after_setup-none :
        (r : Result (Unit {0})) (failed : Option String) (content : String)
        (stopped : ExitCode × Option String)
        → (after_setup files r (after_check files failed content (checked (ok tt) none)) stopped).1
          ≡ none
    after_setup-none r none content stopped = cleanup_guard-none (some content)
    after_setup-none r (some e) content stopped = cleanup_guard-none none

  -- If the pid file can be removed, the daemon leaves none behind, however it ends, with one exception:
  -- a start in the background leaves the file of a daemon that runs. In the foreground that file is
  -- removed too.
  pub main-cleanup_guard :
      (r : Result (Unit {0})) (failed : Option String) (content : String) (args : Args)
      (file : Option String)
      → files.remove_file ≡ none
      → (main files r failed content args file).1
        ≡ (if not args.foreground && is_running file then file else none)
  unfolding main
  main-cleanup_guard r failed content args file h = elim (Bool-cases args.foreground) [
    | inl foreground ↦ rw foreground (cleanup_guard-none h file)
    | inr background ↦ elim (Bool-cases (is_running file)) [
      | inl held ↦ rw (background, held, setup_daemon, check_pid_file-exits h file held) refl
      | inr free ↦
          rw (background, free, setup_daemon, check_pid_file-checked h file free)
            (after_setup-none h r failed content (failure, file))
    ]
  ]
