-- ===== src/Service/Placed.antt =====
-- Each mount stands under its own mountpoint, and each mountpoint once: `mount` and `unmount` keep it so.
use rs1541fs.Prelude.{
  ℕ, String, ◌≡◌, refl, sym, ap, subst, ◌∙◌, Bool, not, Bool-cases, Option-cases, inl, inr, List,
  [], ◌∷◌, Option, none, some, is_some, is_none, string_eq, nat_eq, eq_iff, ◌==◌, arith,
}
use mathlib.Core.Option.{some-injective}
use rs1541fs.Prelude.Map.{Map, get, insert, remove, get-insert, get-remove}
use rs1541fs.Error.{Result, ok, err, panic}
use rs1541fs.Rs1541.{CbmDriveUnit}
use rs1541fs.Env.{Env}
use rs1541fs.Bg.{Operation}
use rs1541fs.Drives.{Drives, add_drive, remove_drive}
use rs1541fs.Mount.State.{Mount, update_fuser, set_shared_self, create_bg_response_thread}
use rs1541fs.Mount.State
use rs1541fs.Mount.Starting
use rs1541fs.Service.{
  Service, Handles, mount, unmount, get_mount, unmount_found, mount_of_device,
  get_mount_from_device_num, drive_removed, take_out, after_mount, enter, add_mount_to_mountpoints,
  unwound, spawned, sharing, listening, with_unit,
}
use rs1541fs.Service.Mounting.{mount-Same}
use rs1541fs.Service.Entering.{Is, thread-Is, shared-Is}
use rs1541fs.Service.Cleanup.{IsPlaced}

insert-IsPlaced :
    (p : String) (m : Mount) (mps : Map String Mount)
    → m.mountpoint ≡ p
    → IsPlaced mps
    → IsPlaced (insert p m mps)
unfolding insert get
insert-IsPlaced p m [] here h = (here, refl, tt)
insert-IsPlaced p m ((q, n) ∷ rest) here (there, new, placed) = elim (Bool-cases (q == p)) [
  | inl same ↦ rw same (here, subst (λ x. get x rest ≡ none) ((eq_iff q p).0 same) new, placed)
  | inr other ↦ rw other (
    there,
    ground (arith, get-insert p q m rest, eq_iff p q, eq_iff q p, other, new),
    insert-IsPlaced p m rest here placed,
  )
]

remove-IsPlaced : (p : String) (mps : Map String Mount) → IsPlaced mps → IsPlaced (remove p mps)
unfolding remove
remove-IsPlaced p [] h = tt
remove-IsPlaced p ((q, n) ∷ rest) (there, new, placed) = elim (Bool-cases (q == p)) [
  | inl same ↦ rw same (remove-IsPlaced p rest placed)
  | inr other ↦
      rw other (there, ground (arith, get-remove p q rest, new), remove-IsPlaced p rest placed)
]

-- A mount that is found, by its mountpoint or by its device, stands under its mountpoint.
get-mountpoint :
    (p : String) (m : Mount) (mps : Map String Mount)
    → IsPlaced mps
    → get p mps ≡ some m
    → m.mountpoint ≡ p
unfolding get
get-mountpoint p m [] h e = absurd (cc e)
get-mountpoint p m ((q, n) ∷ rest) (there, new, placed) e = elim (Bool-cases (q == p)) [
  | inl same ↦
      let is : n ≡ m = cc (rw same at e) in
      ap (λ x. x.mountpoint) (sym is) ∙ there ∙ (eq_iff q p).0 same
  | inr other ↦ get-mountpoint p m rest placed (rw other at e)
]

mount_of_device-mountpoint :
    (device : ℕ) (p : String) (m : Mount) (mps : Map String Mount)
    → IsPlaced mps
    → mount_of_device device mps ≡ some (p, m)
    → m.mountpoint ≡ p
unfolding mount_of_device
mount_of_device-mountpoint device p m [] h e = absurd (cc e)
mount_of_device-mountpoint device p m ((q, n) ∷ rest) (there, new, placed) e =
    elim (Bool-cases (n.device_num == device)) [
      | inl same ↦
          let is : (q, n) ≡ (p, m) = some-injective _ _ (rw same at e) in
          ap (λ t. t.1.mountpoint) (sym is) ∙ there ∙ ap (λ t. t.0) is
      | inr other ↦ mount_of_device-mountpoint device p m rest placed (rw other at e)
    ]

-- The steps of a mount, whether the mountpoint was free or not.
module _ (h : Handles) (mountpoint : String) (device : ℕ) (s : Service)
    (k : IsPlaced s.mountpoints) where
  unwound-IsPlaced :
      (m : Mount) (r : Result (Unit {0})) (t : Service)
      → Is mountpoint device m
      → IsPlaced t.mountpoints
      → IsPlaced (unwound m mountpoint device (r, t)).1.mountpoints
  unfolding State.unmount
  unwound-IsPlaced m (ok _) t is placed = placed
  unwound-IsPlaced m panic t is placed = placed
  unwound-IsPlaced m (err e) t is placed =
      insert-IsPlaced mountpoint (State.unmount m) t.mountpoints is.0 placed

  added-IsPlaced :
      (m : Mount)
      → Is mountpoint device m
      → IsPlaced (add_mount_to_mountpoints m mountpoint device s).1.mountpoints
  unfolding add_mount_to_mountpoints
  added-IsPlaced m is = elim (Bool-cases (is_none (get mountpoint s.mountpoints))) [
    | inl free ↦ rw free (insert-IsPlaced mountpoint m s.mountpoints is.0 k)
    | inr there ↦ rw there (insert-IsPlaced mountpoint m s.mountpoints is.0 k)
  ]

  listening-IsPlaced :
      (r : Result (Unit {0})) (m : Mount)
      → Is mountpoint device m
      → IsPlaced (listening mountpoint device (r, m) s).1.mountpoints
  listening-IsPlaced (err e) m is = k
  listening-IsPlaced panic m is = k
  listening-IsPlaced (ok _) m is =
      let added = add_mount_to_mountpoints m mountpoint device s in
      unwound-IsPlaced m added.0 added.1 is (added-IsPlaced m is)

  sharing-IsPlaced :
      (r : Result (Unit {0})) (m : Mount)
      → Is mountpoint device m
      → IsPlaced (sharing h mountpoint device (r, m) s).1.mountpoints
  sharing-IsPlaced (err e) m is = k
  sharing-IsPlaced panic m is = k
  sharing-IsPlaced (ok _) m is =
      let listens = create_bg_response_thread h.thread m in
      listening-IsPlaced listens.0 listens.1 (thread-Is h mountpoint device m is)

  spawned-IsPlaced :
      (o : Option String) (m : Mount)
      → Is mountpoint device m
      → IsPlaced (spawned o h mountpoint device m s).1.mountpoints
  unfolding enter
  spawned-IsPlaced (some e) m is = k
  spawned-IsPlaced none m is =
      let shared = set_shared_self h.shared (update_fuser h.session m) in
      sharing-IsPlaced shared.0 shared.1 (shared-Is h mountpoint device m is)

  after_mount-IsPlaced :
      (env : Env) (r : Result (Unit {0})) (m : Mount) (sent : List Operation)
      → Is mountpoint device m
      → IsPlaced (after_mount env h mountpoint device (r, m, sent) s).1.mountpoints
  unfolding after_mount
  after_mount-IsPlaced env (err e) m sent is = k
  after_mount-IsPlaced env panic m sent is = k
  after_mount-IsPlaced env (ok _) m sent is = spawned-IsPlaced (env.spawn_mount2 mountpoint) m is

with_unit-IsPlaced :
    (env : Env) (now : ℕ) (closed : Option String) (h : Handles) (device : ℕ) (mountpoint : String)
    (dummy_formats : Bool) (r : Result CbmDriveUnit) (drives : Drives) (s : Service)
    → IsPlaced s.mountpoints
    → IsPlaced
        (with_unit env now closed h device mountpoint dummy_formats (r, drives) s).1.mountpoints
unfolding State.new
with_unit-IsPlaced env now closed h device mountpoint dummy_formats (err e) drives s k = k
with_unit-IsPlaced env now closed h device mountpoint dummy_formats panic drives s k = k
with_unit-IsPlaced env now closed h device mountpoint dummy_formats (ok unit) drives s k =
    let m = State.new device mountpoint dummy_formats h.channel in
    let started = Starting.mount env now closed unit drives m in
    after_mount-IsPlaced h mountpoint device (record s { drives = drives }) k env started.0
      started.1 started.2 (mount-Same env now closed unit drives m)

pub mount-IsPlaced :
    (env : Env) (now : ℕ) (closed : Option String) (h : Handles) (device : ℕ) (mountpoint : String)
    (dummy_formats : Bool) (s : Service)
    → IsPlaced s.mountpoints
    → IsPlaced (mount env now closed h device mountpoint dummy_formats s).1.mountpoints
unfolding mount
mount-IsPlaced env now closed h device mountpoint dummy_formats s k =
    let added = add_drive env.cbm device s.drives in
    with_unit-IsPlaced env now closed h device mountpoint dummy_formats added.0 added.1 s k

-- The steps of an unmount.
module _ (force : Bool) where
  take_out-IsPlaced :
      (m : Mount) (s : Service) → IsPlaced s.mountpoints → IsPlaced (take_out m s).1.mountpoints
  take_out-IsPlaced m s k = elim (Bool-cases (is_some (get m.mountpoint s.mountpoints))) [
    | inl there ↦ rw there (remove-IsPlaced m.mountpoint s.mountpoints k)
    | inr missing ↦ rw missing k
  ]

  drive_removed-IsPlaced :
      (m : Mount) (r : Result (Unit {0})) (drives : Drives) (s : Service)
      → IsPlaced s.mountpoints
      → IsPlaced (drive_removed force m (r, drives) s).1.mountpoints
  drive_removed-IsPlaced m (ok _) drives s k = take_out-IsPlaced m (record s { drives = drives }) k
  drive_removed-IsPlaced m panic drives s k = k
  drive_removed-IsPlaced m (err e) drives s k = elim (Bool-cases (not force)) [
    | inl kept ↦ rw kept k
    | inr forced ↦ rw forced (take_out-IsPlaced m (record s { drives = drives }) k)
  ]

  found-IsPlaced :
      (device : ℕ) (p : String) (m : Mount) (s : Service)
      → m.mountpoint ≡ p
      → IsPlaced s.mountpoints
      → IsPlaced (unmount_found force device (ok (p, m)) s).1.mountpoints
  unfolding unmount_found State.unmount
  found-IsPlaced device p m s here k =
      let removed = remove_drive device s.drives in
      drive_removed-IsPlaced m removed.0 removed.1
        (record s { mountpoints = insert p (State.unmount m) s.mountpoints })
        (insert-IsPlaced p (State.unmount m) s.mountpoints here k)

  pub unmount-IsPlaced :
      (device : Option ℕ) (mountpoint : Option String) (s : Service)
      → IsPlaced s.mountpoints
      → IsPlaced (unmount device mountpoint force s).1.mountpoints
  unfolding unmount get_mount get_mount_from_device_num unmount_found
  unmount-IsPlaced none none s k = k
  unmount-IsPlaced (some device) (some mountpoint) s k = k
  unmount-IsPlaced (some device) none s k =
      elim (Option-cases (mount_of_device device s.mountpoints)) [
        | inl missing ↦ rw (get_mount_from_device_num, missing) k
        | inr ((p, m), there) ↦
            rw (get_mount_from_device_num, there)
              (found-IsPlaced device p m s
                (mount_of_device-mountpoint device p m s.mountpoints k there) k)
      ]
  unmount-IsPlaced none (some mountpoint) s k = elim (Option-cases (get mountpoint s.mountpoints)) [
    | inl missing ↦ rw (unmount, get_mount, missing) k
    | inr (m, there) ↦
        rw (unmount, get_mount, there)
          (found-IsPlaced m.device_num mountpoint m s
            (get-mountpoint mountpoint m s.mountpoints k there) k)
  ]
