-- ===== src/Service/Mounting.antt =====
-- Starting a mount does not change where it is or whose it is.
use rs1541fs.Prelude.{
  ℕ, ◌+◌, String, ◌≡◌, refl, inl, inr, Bool, true, false, List, [], ◌∷◌, Option, none, some,
  is_some, nat_eq, string_eq, ◌∙◌, ◌||◌, Bool-cases,
}
use rs1541fs.Error.{Result, ok, err, panic}
use rs1541fs.Rs1541.{CbmDriveUnit, CbmStatus}
use rs1541fs.Env.{Env}
use rs1541fs.Drives.{Drives, init_drive}
use rs1541fs.Mount.State.{Mount}
use rs1541fs.Mount.Inodes.{create_disk_info, inode_disk_info}
use rs1541fs.Mount.Listings.{update_last_status}
use rs1541fs.Mount.Requests.{do_dir, send_sync_to_bg_proc}
use rs1541fs.Mount.Starting
use rs1541fs.Mount.Starting.{
  check_statuses, check_init, drive_init, describe, finish_mount, ignored_errors,
}

abbrev pub Same : Mount → Mount → Type 0
Same m m' = (m'.mountpoint ≡ m.mountpoint) × (m'.device_num ≡ m.device_num)

module _ (env : Env) (now : ℕ) where
  check_statuses-Same :
      (n : ℕ) (b : Bool) (statuses : List (Result CbmStatus)) (m : Mount)
      → Same m (check_statuses env now n b statuses m).1
  unfolding check_statuses update_last_status
  check_statuses-Same n b [] m = (refl, refl)
  check_statuses-Same n b (ok status ∷ rest) m =
      let (p, d) =
        check_statuses-Same (n + 1) (b || status.is_ok) rest
          (update_last_status env.format_time now status m) in
      (p, d)
  check_statuses-Same n b (err e ∷ rest) m = (refl, refl)
  check_statuses-Same n b (panic ∷ rest) m = (refl, refl)

  check_init-Same :
      (r : Result (List (Result CbmStatus))) (m : Mount) → Same m (check_init env now r m).1
  unfolding check_init
  check_init-Same (ok []) m = (refl, refl)
  check_init-Same (ok (status ∷ rest)) m = check_statuses-Same 0 false (status ∷ rest) m
  check_init-Same (err e) m = (refl, refl)
  check_init-Same panic m = (refl, refl)

  do_dir-Same : (closed : Option String) (m : Mount) → Same m (do_dir now closed m).0
  unfolding do_dir send_sync_to_bg_proc
  do_dir-Same none m = elim (Bool-cases m.dir_outstanding) [
    | inl e ↦ rw e (refl, refl)
    | inr e ↦ rw e (refl, refl)
  ]
  do_dir-Same (some x) m = elim (Bool-cases m.dir_outstanding) [
    | inl e ↦ rw e (refl, refl)
    | inr e ↦ rw e (refl, refl)
  ]

  finish_mount-Same :
      (closed : Option String) (unit : CbmDriveUnit) (r : Result Bool) (m : Mount)
      → Same m (finish_mount env now closed unit (r, m)).1
  unfolding finish_mount describe create_disk_info inode_disk_info
  finish_mount-Same closed unit (err e) m = (refl, refl)
  finish_mount-Same closed unit panic m = (refl, refl)
  finish_mount-Same closed unit (ok false) m = (refl, refl)
  finish_mount-Same closed unit (ok true) m =
      do_dir-Same closed (create_disk_info now (describe env now unit m))

  -- `Mount::mount` on every branch.
  pub mount-Same :
      (closed : Option String) (unit : CbmDriveUnit) (drives : Drives) (m : Mount)
      → Same m (Starting.mount env now closed unit drives m).1
  unfolding Starting.mount drive_init
  mount-Same closed unit drives m = elim (Bool-cases (is_some m.fuser)) [
    | inl e ↦ rw e (refl, refl)
    | inr e ↦
        let after = drive_init env now drives m in
        let (p, d) = check_init-Same (init_drive env.cbm m.device_num ignored_errors drives) m in
        let (p', d') = finish_mount-Same closed unit after.0 after.1 in rw e (p' ∙ p, d' ∙ d)
  ]
