-- ===== src/Drives.antt =====
-- src/bin/server/drivemgr.rs: the drives that are mounted, by device number. The locks are not
-- modelled: each operation runs alone.
pub mod Kept
use rs1541fs.Prelude.{
  ℕ, String, ◌<+>◌, ◌⊎◌, inl, inr, Bool, false, ◌||◌, List, [], ◌∷◌, map, Option, none, some,
  is_some, ltb, to_string, ◌==◌, string_eq, nat_eq, if◌then◌else◌,
}
use rs1541fs.Prelude.Map.{Map, get, insert, remove, keys}
use rs1541fs.Error.{
  Error, Fs1541Error, rs1541, io, serde, fs1541, operation, validation, Result, ok, err, panic,
  ◌>>=◌,
}
use rs1541fs.Rs1541.{Cbm, CbmDriveUnit, CbmDeviceInfo, CbmStatus, CbmErrorNumber}

-- `DriveManager`, without the bus; `DriveManager::new` gives the empty map.
abbrev pub Drives : Type 0
Drives = Map ℕ CbmDriveUnit

abbrev pub not_found : ℕ → Error
not_found device =
    fs1541 ("Drive " <+> to_string device <+> " not found") (validation "Drive does not exist")

-- A call of rs1541 with its error wrapped.
abbrev pub wrapped {ℓ} : {A : Type ℓ} → String → A ⊎ String → Result A
wrapped message (inl a) = ok a
wrapped message (inr e) = err (rs1541 message e)

abbrev pub added : ℕ → CbmDriveUnit → Drives → Result CbmDriveUnit × Drives
added device unit drives = (
  if is_some (get device drives)
      then err (
          fs1541 ("Failed to add drive unit " <+> to_string device)
            (operation ("Drive " <+> to_string device <+> " already exists")))
      else ok unit,
  insert device unit drives,
)

abbrev pub add_created : ℕ → Result CbmDriveUnit → Drives → Result CbmDriveUnit × Drives
add_created device (ok unit) drives = added device unit drives
add_created device (err e) drives = (err e, drives)
add_created device panic drives = (panic, drives)

-- `DriveManager::add_drive`: the unit is inserted before the answer of `insert` is looked at.
unfoldable pub add_drive : Cbm → ℕ → Drives → Result CbmDriveUnit × Drives
add_drive cbm device drives =
    if ltb device cbm.device_min_num || ltb cbm.device_max_num device
    then (
      err (
          fs1541 ("Invalid device number " <+> to_string device) (
            validation (
              "Device number must be "
              <+> to_string cbm.device_min_num
              <+> "-"
              <+> to_string cbm.device_max_num))),
      drives,
    )
    else add_created device
        (wrapped ("Failed to create drive " <+> to_string device) (cbm.try_from_bus device)) drives

abbrev pub remove_unit : ℕ → Drives → CbmDriveUnit → Result (Unit {0}) × Drives
remove_unit device drives unit =
    if unit.is_busy
    then (
      err (fs1541 ("Drive " <+> to_string device <+> " is busy") (operation "Drive is busy")),
      drives,
    )
    else (ok tt, remove device drives)

-- `DriveManager::remove_drive`
unfoldable pub remove_drive : ℕ → Drives → Result (Unit {0}) × Drives
remove_drive device drives = elim (get device drives) [
  | none ↦ (err (not_found device), drives)
  | some unit ↦ remove_unit device drives unit
]

-- `DriveManager::get_drive`
unfoldable pub get_drive : ℕ → Drives → Result CbmDriveUnit
get_drive device drives = elim (get device drives) [
  | none ↦ err (not_found device)
  | some unit ↦ ok unit
]

-- `DriveManager::identify_drive`, `get_drive_status`
unfoldable pub identify_drive : Cbm → ℕ → Result CbmDeviceInfo
identify_drive cbm device =
    wrapped ("Failed to identify drive " <+> to_string device) (cbm.identify device)

unfoldable pub get_drive_status : Cbm → ℕ → Result CbmStatus
get_drive_status cbm device =
    wrapped ("Failed to get status for drive " <+> to_string device) (cbm.get_status device)

-- `DriveManager::init_drive`
unfoldable pub init_drive :
    Cbm → ℕ → List CbmErrorNumber → Drives → Result (List (Result CbmStatus))
unfolding get_drive
init_drive cbm device ignore drives = get_drive device drives >>= λ unit.
    ok (
      map (wrapped ("Failed to initialize drive " <+> to_string device))
        (cbm.send_init unit ignore))

abbrev pub reset_result : Option String → Result (Unit {0})
reset_result none = ok tt
reset_result (some e) = err (rs1541 "Failed to reset bus" e)

-- `DriveManager::reset_bus`
unfoldable pub reset_bus : Cbm → Result (Unit {0})
reset_bus cbm = reset_result cbm.reset_bus

abbrev responding : ℕ → CbmDriveUnit → Result (Unit {0})
responding device unit =
    if unit.is_responding
    then ok tt
    else err (
        fs1541 ("Drive " <+> to_string device <+> " is not responding")
          (operation "Drive not responding"))

-- `DriveManager::validate_drive`
unfoldable pub validate_drive : ℕ → Drives → Result (Unit {0})
unfolding get_drive
validate_drive device drives = get_drive device drives >>= responding device

-- `DriveManager::drive_exists`, `connected_drives`
unfoldable pub drive_exists : ℕ → Drives → Bool
drive_exists device drives = is_some (get device drives)

abbrev pub connected_drives : Drives → List ℕ
connected_drives drives = keys drives

abbrev is_busy_error : Fs1541Error → Bool
is_busy_error (operation op) = op == "Drive is busy"
is_busy_error _ = false

abbrev forced : ℕ → Result (Unit {0}) → Drives → Drives
forced device (err (fs1541 _ e)) drives = if is_busy_error e then remove device drives else drives
forced device _ drives = drives

-- `DriveManager::cleanup_drives`
unfoldable pub cleanup_drive : ℕ → Drives → Drives
unfolding remove_drive
cleanup_drive device drives =
    forced device (remove_drive device drives).0 (remove_drive device drives).1

unfoldable pub cleanup_each : List ℕ → Drives → Drives
unfolding cleanup_drive
cleanup_each [] drives = drives
cleanup_each (device ∷ devices) drives = cleanup_each devices (cleanup_drive device drives)

unfoldable pub cleanup_drives : Drives → Drives
unfolding cleanup_each
cleanup_drives drives = cleanup_each (keys drives) drives
