-- ===== src/Service/Entering.antt =====
-- Mounting keeps the mounts and the drives in step, on every path through it.
use mathlib.Core.Option.{some-injective}
use rs1541fs.Prelude.{
  ℕ, String, ◌≡◌, ◌≢◌, refl, ◌⊎◌, inl, inr, true, List, Option, none, some, is_some, is_none,
  nat_eq, string_eq, ◌==◌, eq_iff, ap, sym, ◌∙◌, subst, arith, ◌||◌, Bool-cases, Option-cases,
}
use rs1541fs.Prelude.Map.{
  get, insert, remove, get-insert, get-insert_self, get-insert_ne, get-remove_ne,
}
use rs1541fs.Error.{Result, ok, err, panic}
use rs1541fs.Rs1541.{CbmDriveUnit}
use rs1541fs.Env.{Env}
use rs1541fs.Bg.{Operation}
use rs1541fs.Drives.{Drives, remove_drive}
use rs1541fs.Drives.Kept.{remove_drive-none, remove_drive-some}
use rs1541fs.Mount.State.{Mount, update_fuser, set_shared_self, create_bg_response_thread}
use rs1541fs.Service.{
  Service, Handles, after_mount, enter, add_mount_to_mountpoints, spawned, sharing, listening,
}
use rs1541fs.Service.Kept.{IsKept}

-- More drives, or other units for the same devices, do no harm.
pub grown :
    (s : Service) (drives : Drives)
    → ((j : ℕ) → is_some (get j s.drives) ≡ true → is_some (get j drives) ≡ true)
    → IsKept s
    → IsKept (record s { drives = drives })
grown s drives more k = record {
  placed = k.placed;
  driven = λ p m at. more m.device_num (k.driven p m at);
  apart = k.apart;
}

pub added-grows :
    (device : ℕ) (unit : CbmDriveUnit) (drives : Drives) (j : ℕ)
    → is_some (get j drives) ≡ true
    → is_some (get j (insert device unit drives)) ≡ true
added-grows device unit drives j h = ground (arith, get-insert device j unit drives)

remove_drive-either :
    (device : ℕ) (drives : Drives)
    → ((remove_drive device drives).1 ≡ drives)
      ⊎ ((remove_drive device drives).1 ≡ remove device drives)
remove_drive-either device drives = elim (Option-cases (get device drives)) [
  | inl e ↦ inl (ap (λ r. r.1) (remove_drive-none device drives e))
  | inr (unit, e) ↦ elim (Bool-cases unit.is_busy) [
    | inl b ↦ inl (rw (remove_drive-some device unit drives e, b) refl)
    | inr b ↦ inr (rw (remove_drive-some device unit drives e, b) refl)
  ]
]

-- A device that was added and is dropped again.
dropped-grows :
    (device : ℕ) (unit : CbmDriveUnit) (drives : Drives) (j : ℕ)
    → get device drives ≡ none
    → is_some (get j drives) ≡ true
    → is_some (get j (remove_drive device (insert device unit drives)).1) ≡ true
dropped-grows device unit drives j new h =
    elim (remove_drive-either device (insert device unit drives)) [
      | inl e ↦ ap (λ d. is_some (get j d)) e ∙ added-grows device unit drives j h
      | inr e ↦
          ap (λ d. is_some (get j d)) e
          ∙ ap is_some (
              get-remove_ne device j (insert device unit drives) other
              ∙ get-insert_ne device j unit drives other)
          ∙ h
    ]
  where
    other : device ≢ j
    other same = absurd (ground (arith, new, h, same))

-- A new mount of a new device at a new mountpoint.
module _ (m : Mount) (unit : CbmDriveUnit) (s : Service) where
  abbrev pub entered : Service
  entered = record {
    drives = insert m.device_num unit s.drives;
    mountpoints = insert m.mountpoint m s.mountpoints;
  }

  new_or_old :
      (p : String) (n : Mount)
      → get p entered.mountpoints ≡ some n
      → ((m.mountpoint ≡ p) × (m ≡ n)) ⊎ (get p s.mountpoints ≡ some n)
  new_or_old p n at = elim (Bool-cases (m.mountpoint == p)) [
    | inl same ↦ inl (
      (eq_iff m.mountpoint p).0 same,
      some-injective _ _ (sym (rw (get-insert m.mountpoint p m s.mountpoints, same) refl) ∙ at),
    )
    | inr other ↦ inr (sym (rw (get-insert m.mountpoint p m s.mountpoints, other) refl) ∙ at)
  ]

  pub entered-IsKept : get m.device_num s.drives ≡ none → IsKept s → IsKept entered
  entered-IsKept new k = record {
    placed = λ p n at. elim (new_or_old p n at) [
      | inl (here, same) ↦ ap (λ x. x.mountpoint) (sym same) ∙ here
      | inr old ↦ k.placed p n old
    ];
    driven = λ p n at. elim (new_or_old p n at) [
      | inl (here, same) ↦
          ap (λ x. is_some (get x.device_num entered.drives)) (sym same)
          ∙ ap is_some (get-insert_self m.device_num unit s.drives)
      | inr old ↦ added-grows m.device_num unit s.drives n.device_num (k.driven p n old)
    ];
    apart = λ p q n o at at' same. elim (new_or_old p n at) [
      | inl (here, is_m) ↦ elim (new_or_old q o at') [
        | inl (here', is_m') ↦ sym here ∙ here'
        | inr old ↦ absurd (clash q o old (ap (λ x. x.device_num) is_m ∙ same))
      ]
      | inr old ↦ elim (new_or_old q o at') [
        | inl (here', is_m') ↦ absurd (clash p n old (ap (λ x. x.device_num) is_m' ∙ sym same))
        | inr old' ↦ k.apart p q n o old old' same
      ]
    ];
  }
    where
      clash :
          (q : String) (o : Mount) → get q s.mountpoints ≡ some o → m.device_num ≡ o.device_num → ⊥
      clash q o old same = ground (arith, new, same, k.driven q o old)

-- The mount is the one of the call.
abbrev pub Is : String → ℕ → Mount → Type 0
Is mountpoint device m = (m.mountpoint ≡ mountpoint) × (m.device_num ≡ device)

module _ (h : Handles) (mountpoint : String) (device : ℕ) (m : Mount)
    (is : Is mountpoint device m) where
  pub thread-Is : Is mountpoint device (create_bg_response_thread h.thread m).1
  unfolding create_bg_response_thread
  thread-Is = elim (Bool-cases (is_none m.shared_self || is_none m.bg_rsp_rx)) [
    | inl e ↦ rw e is
    | inr e ↦ elim (Bool-cases (is_some m.bg_rsp_handle)) [
      | inl e' ↦ rw (e, e') is
      | inr e' ↦ rw (e, e') is
    ]
  ]

  pub shared-Is : Is mountpoint device (set_shared_self h.shared (update_fuser h.session m)).1
  unfolding set_shared_self update_fuser
  shared-Is = elim (Bool-cases (is_some m.shared_self)) [ inl e ↦ rw e is | inr e ↦ rw e is ]

-- The steps after the drive was added, for a device and a mountpoint that were free.
module _ (env : Env) (h : Handles) (mountpoint : String) (device : ℕ) (unit : CbmDriveUnit)
    (s : Service) (free : get mountpoint s.mountpoints ≡ none) (new : get device s.drives ≡ none)
    (k : IsKept s) where
  abbrev pub with_drive : Service
  with_drive = record s { drives = insert device unit s.drives }

  with_drive-IsKept : IsKept with_drive
  with_drive-IsKept =
      grown s (insert device unit s.drives) (λ j. added-grows device unit s.drives j) k

  entering-IsKept :
      (m : Mount)
      → Is mountpoint device m
      → IsKept (record with_drive { mountpoints = insert mountpoint m s.mountpoints })
  entering-IsKept m (here, its) =
      subst (λ p. IsKept (record with_drive { mountpoints = insert p m s.mountpoints })) here
        (subst
          (λ d. IsKept (record {
            drives = insert d unit s.drives;
            mountpoints = insert m.mountpoint m s.mountpoints;
          }))
          its (entered-IsKept m unit s (ap (λ d. get d s.drives) its ∙ new) k))

  listening-IsKept :
      (r : Result (Unit {0})) (m : Mount)
      → Is mountpoint device m
      → IsKept (listening mountpoint device (r, m) with_drive).1
  unfolding add_mount_to_mountpoints
  listening-IsKept (err e) m is = with_drive-IsKept
  listening-IsKept panic m is = with_drive-IsKept
  listening-IsKept (ok _) m is = rw free (entering-IsKept m is)

  sharing-IsKept :
      (r : Result (Unit {0})) (m : Mount)
      → Is mountpoint device m
      → IsKept (sharing h mountpoint device (r, m) with_drive).1
  sharing-IsKept (err e) m is = with_drive-IsKept
  sharing-IsKept panic m is = with_drive-IsKept
  sharing-IsKept (ok _) m is =
      listening-IsKept (create_bg_response_thread h.thread m).0
        (create_bg_response_thread h.thread m).1 (thread-Is h mountpoint device m is)

  spawned-IsKept :
      (o : Option String) (m : Mount)
      → Is mountpoint device m
      → IsKept (spawned o h mountpoint device m with_drive).1
  unfolding enter
  spawned-IsKept (some e) m is = with_drive-IsKept
  spawned-IsKept none m is =
      let shared = set_shared_self h.shared (update_fuser h.session m) in
      sharing-IsKept shared.0 shared.1 (shared-Is h mountpoint device m is)

  pub after_mount-IsKept :
      (r : Result (Unit {0})) (m : Mount) (sent : List Operation)
      → Is mountpoint device m
      → IsKept (after_mount env h mountpoint device (r, m, sent) with_drive).1
  unfolding after_mount
  after_mount-IsKept (err e) m sent is = grown s _ (λ j. dropped-grows device unit s.drives j new) k
  after_mount-IsKept panic m sent is = with_drive-IsKept
  after_mount-IsKept (ok _) m sent is = spawned-IsKept (env.spawn_mount2 mountpoint) m is
