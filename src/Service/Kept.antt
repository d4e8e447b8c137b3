-- ===== src/Service/Kept.antt =====
-- Mounting and unmounting keep the mounts and the drives in step.
use rs1541fs.Prelude.{
  ◌≢◌, arith, Bool-cases, inl, inr, ◌==◌, eq_iff, String, ◌≡◌, refl, Bool, true, false, none, some,
  is_some, nat_eq, string_eq, ap, sym, subst, ◌∙◌,
}
use rs1541fs.Prelude.Map
use rs1541fs.Prelude.Map.{
  Map, get, insert, get-insert, get-insert_self, get-remove, get-remove_ne, remove-insert,
  get-insert_ne,
}
use rs1541fs.Error.{ok}
use rs1541fs.Rs1541.{CbmDriveUnit}
use rs1541fs.Drives.Kept.{remove_drive-some}
use rs1541fs.Mount.State.{Mount}
use rs1541fs.Mount.State
use rs1541fs.Service.{Service, get_mount, unmount, unmount_found}

-- What the map of mountpoints promises: each mount stands under its own mountpoint, and the drive
-- manager has its drive.
pub record IsKept (s : Service) : Type 0 where
  pub placed : (p : String) (m : Mount) → get p s.mountpoints ≡ some m → m.mountpoint ≡ p
  pub driven :
      (p : String) (m : Mount)
      → get p s.mountpoints ≡ some m
      → is_some (get m.device_num s.drives) ≡ true
  pub apart :
      (p q : String) (m n : Mount)
      → get p s.mountpoints ≡ some m
      → get q s.mountpoints ≡ some n
      → m.device_num ≡ n.device_num
      → p ≡ q

unmount_eq :
    (force : Bool) (m : Mount) (unit : CbmDriveUnit) (s : Service)
    → get m.mountpoint s.mountpoints ≡ some m
    → get m.device_num s.drives ≡ some unit
    → unit.is_busy ≡ false
    → unmount none (some m.mountpoint) force s ≡ (
      ok tt,
      record {
        drives = Map.remove m.device_num s.drives;
        mountpoints = Map.remove m.mountpoint (insert m.mountpoint (State.unmount m) s.mountpoints);
      },
    )
unfolding unmount get_mount unmount_found State.unmount
unmount_eq force m unit s e d free =
    rw
      (
        unmount,
        get_mount,
        e,
        remove_drive-some m.device_num unit s.drives d,
        free,
        get-insert_self m.mountpoint (State.unmount m) s.mountpoints,
      )
      refl

-- Unmounting a mountpoint whose drive is free succeeds, and takes out exactly that mount and that drive.
pub unmount-Map_remove :
    (force : Bool) (m : Mount) (unit : CbmDriveUnit) (s : Service)
    → get m.mountpoint s.mountpoints ≡ some m
    → get m.device_num s.drives ≡ some unit
    → unit.is_busy ≡ false
    → unmount none (some m.mountpoint) force s ≡ (
      ok tt,
      record {
        drives = Map.remove m.device_num s.drives;
        mountpoints = Map.remove m.mountpoint s.mountpoints;
      },
    )
unmount-Map_remove force m unit s e d free =
    unmount_eq force m unit s e d free
    ∙ ap (λ mps. (ok tt, record { drives = Map.remove m.device_num s.drives; mountpoints = mps }))
        (remove-insert m.mountpoint (State.unmount m) s.mountpoints)

abbrev without : Mount → Service → Service
without m s = record {
  drives = Map.remove m.device_num s.drives;
  mountpoints = Map.remove m.mountpoint s.mountpoints;
}

-- A mount that is left is one of before, under another mountpoint.
left_over :
    (m n : Mount) (p : String) (s : Service)
    → get p (without m s).mountpoints ≡ some n
    → (m.mountpoint ≢ p) × (get p s.mountpoints ≡ some n)
left_over m n p s e = elim (Bool-cases (m.mountpoint == p)) [
  | inl same ↦ absurd (ground (arith, e, get-remove m.mountpoint p s.mountpoints, same))
  | inr other ↦ (
    λ h. ground (arith, eq_iff m.mountpoint p, other),
    ground (arith, e, get-remove m.mountpoint p s.mountpoints, other),
  )
]

without-IsKept :
    (m : Mount) (s : Service)
    → get m.mountpoint s.mountpoints ≡ some m
    → IsKept s
    → IsKept (without m s)
without-IsKept m s e k = record {
  placed = λ p n at. k.placed p n (left_over m n p s at).1;
  driven = λ p n at.
      let (other, before) = left_over m n p s at in
      ap is_some (
        get-remove_ne m.device_num n.device_num s.drives
          (λ same. other (k.apart m.mountpoint p m n e before same)))
      ∙ k.driven p n before;
  apart = λ p q n o at at'. k.apart p q n o (left_over m n p s at).1 (left_over m o q s at').1;
}

-- Unmounting a mountpoint whose drive is free keeps the mounts and the drives in step.
pub unmount-IsKept :
    (force : Bool) (m : Mount) (unit : CbmDriveUnit) (s : Service)
    → get m.mountpoint s.mountpoints ≡ some m
    → get m.device_num s.drives ≡ some unit
    → unit.is_busy ≡ false
    → IsKept s
    → IsKept (unmount none (some m.mountpoint) force s).1
unmount-IsKept force m unit s e d free k =
    subst (λ r. IsKept r.1) (sym (unmount-Map_remove force m unit s e d free))
      (without-IsKept m s e k)
