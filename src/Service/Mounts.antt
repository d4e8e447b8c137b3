-- ===== src/Service/Mounts.antt =====
-- `MountService::mount` keeps the mounts and the drives in step.
use rs1541fs.Prelude.{
  ℕ, String, ◌<+>◌, ◌≡◌, refl, ◌⊎◌, inl, inr, Bool, none, Option, nat_eq, string_eq, sym, subst,
  ltb, ◌||◌, Bool-cases, Option-cases, to_string,
}
use rs1541fs.Prelude.Map.{get, insert}
use rs1541fs.Error.{Error, Result, err}
use rs1541fs.Rs1541.{Cbm, CbmDriveUnit}
use rs1541fs.Env.{Env}
use rs1541fs.Drives.{Drives, add_drive, add_created, added, wrapped}
use rs1541fs.Mount.State.{Mount}
use rs1541fs.Mount.State
use rs1541fs.Mount.Starting
use rs1541fs.Service.{Service, Handles, mount, with_unit}
use rs1541fs.Service.Kept.{IsKept}
use rs1541fs.Service.Mounting.{mount-Same}
use rs1541fs.Service.Entering.{grown, added-grows, after_mount-IsKept}

-- Adding a drive fails and changes nothing, or inserts a unit.
abbrev AddedOr : ℕ → Drives → Result CbmDriveUnit × Drives → Type 0
AddedOr device drives r =
    ((e : Error) × (r ≡ (err e, drives))) ⊎ ((unit : CbmDriveUnit) × (r ≡ added device unit drives))

created-AddedOr :
    (device : ℕ) (message : String) (drives : Drives) (o : CbmDriveUnit ⊎ String)
    → AddedOr device drives (add_created device (wrapped message o) drives)
created-AddedOr device message drives (inl unit) = inr (unit, refl)
created-AddedOr device message drives (inr e) = inl (_, refl)

add_drive-AddedOr :
    (cbm : Cbm) (device : ℕ) (drives : Drives) → AddedOr device drives (add_drive cbm device drives)
unfolding add_drive
add_drive-AddedOr cbm device drives =
    elim (Bool-cases (ltb device cbm.device_min_num || ltb cbm.device_max_num device)) [
      | inl e ↦ rw e (inl (_, refl))
      | inr e ↦ rw e (
          created-AddedOr device ("Failed to create drive " <+> to_string device) drives
            (cbm.try_from_bus device))
    ]

module _ (env : Env) (now : ℕ) (closed : Option String) (h : Handles) (device : ℕ)
    (mountpoint : String) (dummy_formats : Bool) (s : Service)
    (free : get mountpoint s.mountpoints ≡ none) (k : IsKept s) where
  abbrev continued : Result CbmDriveUnit × Drives → Service
  continued r = (with_unit env now closed h device mountpoint dummy_formats r s).1

  added-IsKept : (unit : CbmDriveUnit) → IsKept (continued (added device unit s.drives))
  unfolding State.new
  added-IsKept unit = elim (Option-cases (get device s.drives)) [
    | inr (old, e) ↦
        rw e (grown s (insert device unit s.drives) (λ j. added-grows device unit s.drives j) k)
    | inl new ↦
        let m = State.new device mountpoint dummy_formats h.channel in
        let drives = insert device unit s.drives in
        let started = Starting.mount env now closed unit drives m in
        rw new (
          after_mount-IsKept env h mountpoint device unit s free new k started.0 started.1 started.2
            (mount-Same env now closed unit drives m))
  ]

  -- Mounting at a mountpoint that no mount has keeps the mounts and the drives in step, whether it
  -- succeeds or fails: each mount stands under its mountpoint, its drive is there, and no two have
  -- the same.
  pub mount-IsKept : IsKept (mount env now closed h device mountpoint dummy_formats s).1
  unfolding mount
  mount-IsKept = elim (add_drive-AddedOr env.cbm device s.drives) [
    | inl (e, r) ↦
        subst (λ x. IsKept (continued x)) (sym r) (grown s s.drives (λ j some_j. some_j) k)
    | inr (unit, r) ↦ subst (λ x. IsKept (continued x)) (sym r) (added-IsKept unit)
  ]
