-- ===== src/Service/Cleanup.antt =====
-- The cleanup of the mount service.
use rs1541fs.Prelude.{
  String, ◌≡◌, refl, sym, ap, subst, ◌∙◌, Bool-cases, Option-cases, inl, inr, true, [], ◌∷◌, none,
  some, string_eq, nat_eq, eq_iff, arith,
}
use rs1541fs.Prelude.Map
use rs1541fs.Prelude.Map.{
  Map, get, insert, remove, keys, get-insert_self, remove-insert, remove-get-none,
}
use rs1541fs.Error.{ok}
use rs1541fs.Drives.{Drives}
use rs1541fs.Drives.Kept.{remove_drive-some, remove_drive-none}
use rs1541fs.Mount.State.{Mount}
use rs1541fs.Mount.State
use rs1541fs.Service.{Service, get_mount, unmount, unmount_found, and_then, cleanup_each, cleanup}

-- Each mount stands under its own mountpoint, and each mountpoint once.
abbrev pub IsPlaced : Map String Mount → Type 0
IsPlaced [] = Unit
IsPlaced ((p, m) ∷ rest) = (m.mountpoint ≡ p) × (get p rest ≡ none) × IsPlaced rest

-- A forced unmount takes the mount out whatever becomes of its drive.
forced :
    (m : Mount) (s : Service)
    → get m.mountpoint s.mountpoints ≡ some m
    → (drives : Drives) × (unmount none (some m.mountpoint) true s ≡ (
      ok tt,
      record {
        drives = drives;
        mountpoints = remove m.mountpoint (insert m.mountpoint (State.unmount m) s.mountpoints);
      },
    ))
unfolding unmount get_mount unmount_found State.unmount
forced m s e = elim (Option-cases (get m.device_num s.drives)) [
  | inl d ↦ (
    s.drives,
    rw
        (
          unmount,
          get_mount,
          e,
          remove_drive-none m.device_num s.drives d,
          get-insert_self m.mountpoint (State.unmount m) s.mountpoints,
        )
        refl,
  )
  | inr (unit, d) ↦ elim (Bool-cases unit.is_busy) [
    | inl b ↦ (
      s.drives,
      rw
          (
            unmount,
            get_mount,
            e,
            remove_drive-some m.device_num unit s.drives d,
            b,
            get-insert_self m.mountpoint (State.unmount m) s.mountpoints,
          )
          refl,
    )
    | inr b ↦ (
      Map.remove m.device_num s.drives,
      rw
          (
            unmount,
            get_mount,
            e,
            remove_drive-some m.device_num unit s.drives d,
            b,
            get-insert_self m.mountpoint (State.unmount m) s.mountpoints,
          )
          refl,
    )
  ]
]

get_first : (p : String) (m : Mount) (rest : Map String Mount) → get p ((p, m) ∷ rest) ≡ some m
unfolding get
get_first p m rest = ground (arith, eq_iff p p)

remove_first :
    (p : String) (m : Mount) (rest : Map String Mount)
    → get p rest ≡ none
    → remove p ((p, m) ∷ rest) ≡ rest
unfolding remove
remove_first p m rest e = ground (arith, eq_iff p p, remove-get-none p rest e)

-- The first of the mounts is taken out, and the others stay.
unmount_first :
    (m : Mount) (rest : Map String Mount) (drives : Drives)
    → get m.mountpoint rest ≡ none
    → (drives' : Drives) × (unmount none
          (some m.mountpoint)
          true
          (record { drives = drives; mountpoints = (m.mountpoint, m) ∷ rest })
        ≡ (ok tt, record { drives = drives'; mountpoints = rest }))
unmount_first m rest drives e =
    let all = (m.mountpoint, m) ∷ rest in
    let (drives', unmounted) =
      forced m (record { drives = drives; mountpoints = all }) (get_first m.mountpoint m rest) in
    (
      drives',
      unmounted
          ∙ ap (λ mps. (ok tt, record { drives = drives'; mountpoints = mps }))
              (remove-insert m.mountpoint (State.unmount m) all
                ∙ remove_first m.mountpoint m rest e),
    )

cleanup_each_lem :
    (mps : Map String Mount) (drives : Drives)
    → IsPlaced mps
    → (drives' : Drives) × (cleanup_each (keys mps) (record { drives = drives; mountpoints = mps })
        ≡ (ok tt, record { drives = drives'; mountpoints = [] }))
unfolding cleanup_each
cleanup_each_lem [] drives h = (drives, refl)
cleanup_each_lem ((p, m) ∷ rest) drives (here, new, placed) =
    let (drives1, first) =
      unmount_first m rest drives (subst (λ p. get p rest ≡ none) (sym here) new) in
    let (drives2, others) = cleanup_each_lem rest drives1 placed in
    (
      drives2,
      subst
          (λ p.
            cleanup_each (p ∷ keys rest) (record { drives = drives; mountpoints = (p, m) ∷ rest })
            ≡ (ok tt, record { drives = drives2; mountpoints = [] }))
          here (ap (λ r. and_then r (cleanup_each (keys rest))) first ∙ others),
    )

-- The cleanup of mounts that each stand once, under their own mountpoint, does not panic and leaves no
-- mount, whatever becomes of their drives.
pub cleanup-empty :
    (s : Service)
    → IsPlaced s.mountpoints
    → (drives : Drives) × (cleanup s ≡ (ok tt, record { drives = drives; mountpoints = [] }))
unfolding cleanup
cleanup-empty s h = cleanup_each_lem s.mountpoints s.drives h
