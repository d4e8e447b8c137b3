-- ===== src/Service/Reached.antt =====
-- The services that calls of `mount` and `unmount` lead to, and that their cleanup leaves no mount.
use rs1541fs.Prelude.{ℕ, String, ◌≡◌, Bool, [], Option}
use rs1541fs.Error.{ok}
use rs1541fs.Env.{Env}
use rs1541fs.Drives.{Drives}
use rs1541fs.Service.{Service, Handles, mount, unmount, cleanup}
use rs1541fs.Service.Cleanup.{IsPlaced, cleanup-empty}
use rs1541fs.Service.Placed.{mount-IsPlaced, unmount-IsPlaced}

-- What the daemon's service can come to: it starts without mounts, and is changed by calls of `mount`
-- and `unmount`, whatever they answer, and by whatever happens to its drives.
pub data IsReached (env : Env) : Service → Type 0 where
  at_start : (drives : Drives) → IsReached env (record { drives = drives; mountpoints = [] })
  by_mount :
      {s : Service} (now : ℕ) (closed : Option String) (h : Handles) (device : ℕ)
      (mountpoint : String) (dummy_formats : Bool)
      → IsReached env s
      → IsReached env (mount env now closed h device mountpoint dummy_formats s).1
  by_unmount :
      {s : Service} (device : Option ℕ) (mountpoint : Option String) (force : Bool)
      → IsReached env s
      → IsReached env (unmount device mountpoint force s).1
  by_drives :
      {s : Service} (drives : Drives)
      → IsReached env s
      → IsReached env (record s { drives = drives })

-- In any such service each mount stands under its own mountpoint, and each mountpoint once.
IsReached-IsPlaced : (env : Env) (s : Service) → IsReached env s → IsPlaced s.mountpoints
IsReached-IsPlaced env s (at_start drives) = tt
IsReached-IsPlaced env s (by_mount {s = t} now closed h device mountpoint dummy_formats before) =
    mount-IsPlaced env now closed h device mountpoint dummy_formats t
      (IsReached-IsPlaced env t before)
IsReached-IsPlaced env s (by_unmount {s = t} device mountpoint force before) =
    unmount-IsPlaced force device mountpoint t (IsReached-IsPlaced env t before)
IsReached-IsPlaced env s (by_drives {s = t} drives before) = IsReached-IsPlaced env t before

-- After any calls of `mount` and `unmount`, whatever they answered and whatever has become of the drives,
-- the cleanup does not panic, succeeds, and leaves no mount.
pub cleanup-IsReached :
    (env : Env) (s : Service)
    → IsReached env s
    → (drives : Drives) × (cleanup s ≡ (ok tt, record { drives = drives; mountpoints = [] }))
cleanup-IsReached env s reached = cleanup-empty s (IsReached-IsPlaced env s reached)
