-- ===== src/Service/Undone.antt =====
-- A mount that is taken out again leaves the service as it was.
use rs1541fs.Prelude.{
  ℕ, String, ◌≡◌, ◌≢◌, refl, inl, inr, Bool, true, false, List, [], ◌∷◌, Option, none, some, nat_eq,
  string_eq, ap, sym, ◌∙◌, subst, arith, ltb, ◌||◌, Bool-cases, Option-cases,
}
use rs1541fs.Prelude.Map
use rs1541fs.Prelude.Map.{Map, get, insert, get-insert_self, insert-remove-none}
use rs1541fs.Error.{Result, ok, err, panic}
use rs1541fs.Rs1541.{CbmDriveUnit}
use rs1541fs.Env.{Env}
use rs1541fs.Bg.{Operation}
use rs1541fs.Drives.{Drives, add_drive, added}
use rs1541fs.Mount.State.{Mount, update_fuser, set_shared_self, create_bg_response_thread}
use rs1541fs.Mount.State
use rs1541fs.Mount.Starting
use rs1541fs.Service.{
  Service, Handles, mount, unmount, get_mount, unmount_found, mount_of_device,
  get_mount_from_device_num, after_mount, enter, add_mount_to_mountpoints, spawned, sharing,
  listening, with_unit,
}
use rs1541fs.Service.Kept.{unmount-Map_remove}
use rs1541fs.Service.Mounting.{mount-Same}
use rs1541fs.Service.Entering.{Is, thread-Is, shared-Is}

-- The service with one more mount and its drive.
abbrev with_mount : Mount → CbmDriveUnit → Service → Service
with_mount m unit s = record {
  drives = insert m.device_num unit s.drives;
  mountpoints = insert m.mountpoint m s.mountpoints;
}

module _ (env : Env) (h : Handles) (mountpoint : String) (device : ℕ) (unit : CbmDriveUnit)
    (s : Service) (free : get mountpoint s.mountpoints ≡ none) where
  abbrev with_drive : Service
  with_drive = record s { drives = insert device unit s.drives }

  -- If it succeeds, the service has the mount of the call, and its drive.
  abbrev Enters : Result (Unit {0}) × Service → Type 0
  Enters r = r.0 ≡ ok tt → (m : Mount) × Is mountpoint device m × (r.1 ≡ with_mount m unit s)

  with_mount-entered :
      (m : Mount)
      → Is mountpoint device m
      → record with_drive { mountpoints = insert mountpoint m s.mountpoints } ≡ with_mount m unit s
  with_mount-entered m (here, its) =
      ap
        (λ p. record {
          drives = insert device unit s.drives;
          mountpoints = insert p m s.mountpoints;
        })
        (sym here)
      ∙ ap
          (λ d. record {
            drives = insert d unit s.drives;
            mountpoints = insert m.mountpoint m s.mountpoints;
          })
          (sym its)

  listening-Enters :
      (r : Result (Unit {0})) (m : Mount)
      → Is mountpoint device m
      → Enters (listening mountpoint device (r, m) with_drive)
  unfolding add_mount_to_mountpoints
  listening-Enters (err e) m is = λ e'. absurd (cc e')
  listening-Enters panic m is = λ e'. absurd (cc e')
  listening-Enters (ok _) m is = rw free (λ _. (m, is, with_mount-entered m is))

  sharing-Enters :
      (r : Result (Unit {0})) (m : Mount)
      → Is mountpoint device m
      → Enters (sharing h mountpoint device (r, m) with_drive)
  sharing-Enters (err e) m is = λ e'. absurd (cc e')
  sharing-Enters panic m is = λ e'. absurd (cc e')
  sharing-Enters (ok _) m is =
      listening-Enters (create_bg_response_thread h.thread m).0
        (create_bg_response_thread h.thread m).1 (thread-Is h mountpoint device m is)

  spawned-Enters :
      (o : Option String) (m : Mount)
      → Is mountpoint device m
      → Enters (spawned o h mountpoint device m with_drive)
  unfolding enter
  spawned-Enters (some e) m is = λ e'. absurd (cc e')
  spawned-Enters none m is =
      let shared = set_shared_self h.shared (update_fuser h.session m) in
      sharing-Enters shared.0 shared.1 (shared-Is h mountpoint device m is)

  after_mount-Enters :
      (r : Result (Unit {0})) (m : Mount) (sent : List Operation)
      → Is mountpoint device m
      → Enters (
        (after_mount env h mountpoint device (r, m, sent) with_drive).0,
        (after_mount env h mountpoint device (r, m, sent) with_drive).1,
      )
  unfolding after_mount
  after_mount-Enters (err e) m sent is = λ e'. absurd (cc e')
  after_mount-Enters panic m sent is = λ e'. absurd (cc e')
  after_mount-Enters (ok _) m sent is = spawned-Enters (env.spawn_mount2 mountpoint) m is

  with_unit-Enters :
      (now : ℕ) (closed : Option String) (dummy_formats : Bool)
      → get device s.drives ≡ none
      → (with_unit env now closed h device mountpoint dummy_formats
          (added device unit s.drives)
          s).0
        ≡ ok tt
      → (m : Mount) × Is mountpoint device m
        × ((with_unit env now closed h device mountpoint dummy_formats
              (added device unit s.drives)
              s).1
            ≡ with_mount m unit s)
  unfolding State.new
  with_unit-Enters now closed dummy_formats new =
      let m = State.new device mountpoint dummy_formats h.channel in
      let started = Starting.mount env now closed unit (insert device unit s.drives) m in
      rw new (
        after_mount-Enters started.0 started.1 started.2
          (mount-Same env now closed unit (insert device unit s.drives) m))

-- A mount that is looked for by its device.
mount_of_device-insert :
    (m : Mount) (mps : Map String Mount)
    → get m.mountpoint mps ≡ none
    → mount_of_device m.device_num mps ≡ none
    → mount_of_device m.device_num (insert m.mountpoint m mps) ≡ some (m.mountpoint, m)
unfolding mount_of_device get insert
mount_of_device-insert m [] free no_other = ground arith
mount_of_device-insert m ((p, n) ∷ mps) free no_other = ground (arith, mount_of_device-insert m mps)

-- Taking out what was put in.
module _ (force : Bool) (m : Mount) (unit : CbmDriveUnit) (s : Service)
    (free : get m.mountpoint s.mountpoints ≡ none) (new : get m.device_num s.drives ≡ none)
    (not_busy : unit.is_busy ≡ false) where
  by_path :
      unmount none (some m.mountpoint) force (with_mount m unit s)
      ≡ unmount_found force m.device_num (ok (m.mountpoint, m)) (with_mount m unit s)
  unfolding unmount get_mount
  by_path = rw (unmount, get_mount, get-insert_self m.mountpoint m s.mountpoints) refl

  by_device :
      mount_of_device m.device_num s.mountpoints ≡ none
      → unmount (some m.device_num) none force (with_mount m unit s)
        ≡ unmount_found force m.device_num (ok (m.mountpoint, m)) (with_mount m unit s)
  unfolding unmount get_mount_from_device_num
  by_device no_other =
      rw (get_mount_from_device_num, mount_of_device-insert m s.mountpoints free no_other) refl

  taken_out : unmount none (some m.mountpoint) force (with_mount m unit s) ≡ (ok tt, s)
  taken_out =
      unmount-Map_remove force m unit (with_mount m unit s)
        (get-insert_self m.mountpoint m s.mountpoints) (get-insert_self m.device_num unit s.drives)
        not_busy
      ∙ ap
          (λ drives. (
            ok tt,
            record {
              drives = drives;
              mountpoints = Map.remove m.mountpoint (insert m.mountpoint m s.mountpoints);
            },
          ))
          (insert-remove-none m.device_num unit s.drives new)
      ∙ ap (λ mps. (ok tt, record { drives = s.drives; mountpoints = mps }))
          (insert-remove-none m.mountpoint m s.mountpoints free)

module _ (env : Env) (now : ℕ) (closed : Option String) (h : Handles) (device : ℕ)
    (mountpoint : String) (dummy_formats : Bool) (s : Service) (force : Bool) (unit : CbmDriveUnit)
    (free : get mountpoint s.mountpoints ≡ none)
    (no_other : mount_of_device device s.mountpoints ≡ none)
    (made : env.cbm.try_from_bus device ≡ inl unit) (not_busy : unit.is_busy ≡ false) where
  abbrev Undoes : Service → Type 0
  Undoes after =
      (unmount none (some mountpoint) force after ≡ (ok tt, s))
      × (unmount (some device) none force after ≡ (ok tt, s))

  with_mount-Undoes :
      (m : Mount)
      → Is mountpoint device m
      → get device s.drives ≡ none
      → Undoes (with_mount m unit s)
  with_mount-Undoes m (here, its) new =
      let free' : get m.mountpoint s.mountpoints ≡ none =
        ap (λ p. get p s.mountpoints) here ∙ free in
      let new' : get m.device_num s.drives ≡ none = ap (λ d. get d s.drives) its ∙ new in
      let undone : unmount none (some m.mountpoint) force (with_mount m unit s) ≡ (ok tt, s) =
        taken_out force m unit s free' new' not_busy in
      (
        ap (λ p. unmount none (some p) force (with_mount m unit s)) (sym here) ∙ undone,
        ap (λ d. unmount (some d) none force (with_mount m unit s)) (sym its)
            ∙ by_device force m unit s free' new' not_busy
                (ap (λ d. mount_of_device d s.mountpoints) its ∙ no_other)
            ∙ sym (by_path force m unit s free' new' not_busy)
            ∙ undone,
      )

  abbrev continued : Result CbmDriveUnit × Drives → Result (Unit {0}) × Service × List Operation
  continued r = with_unit env now closed h device mountpoint dummy_formats r s

  added-Undoes :
      (continued (added device unit s.drives)).0 ≡ ok tt
      → Undoes (continued (added device unit s.drives)).1
  added-Undoes e = elim (Option-cases (get device s.drives)) [
    | inr (old, there) ↦ absurd (cc (rw there at e))
    | inl new ↦
        let (m, is, entered) =
          with_unit-Enters env h mountpoint device unit s free now closed dummy_formats new e in
        subst Undoes (sym entered) (with_mount-Undoes m is new)
  ]

  drive_added :
      (ltb device env.cbm.device_min_num || ltb env.cbm.device_max_num device) ≡ false
      → add_drive env.cbm device s.drives ≡ added device unit s.drives
  unfolding add_drive
  drive_added e = rw (e, made) refl

  refused :
      (ltb device env.cbm.device_min_num || ltb env.cbm.device_max_num device) ≡ true
      → (continued (add_drive env.cbm device s.drives)).0 ≢ ok tt
  unfolding add_drive
  refused out e = cc (rw out at e)

  -- A mount that succeeds, at a mountpoint and of a device that have no mount, and with a drive that is
  -- not busy, is undone by an unmount, whether it names the mountpoint or the device: the unmount
  -- succeeds, and the mounts and the drives are those of before.
  pub mount-unmount :
      (mount env now closed h device mountpoint dummy_formats s).0 ≡ ok tt
      → (unmount none
            (some mountpoint)
            force
            (mount env now closed h device mountpoint dummy_formats s).1
          ≡ (ok tt, s))
        × (unmount
              (some device)
              none
              force
              (mount env now closed h device mountpoint dummy_formats s).1
            ≡ (ok tt, s))
  unfolding mount
  mount-unmount e =
      elim (Bool-cases (ltb device env.cbm.device_min_num || ltb env.cbm.device_max_num device)) [
        | inl out ↦ absurd (refused out e)
        | inr in_range ↦
            subst (λ r. (continued r).0 ≡ ok tt → Undoes (continued r).1)
              (sym (drive_added in_range)) added-Undoes e
      ]
