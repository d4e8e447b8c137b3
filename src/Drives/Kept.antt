-- ===== src/Drives/Kept.antt =====
-- What the operations of the drive manager leave in it.
use rs1541fs.Prelude.{
  ℕ, ◌≤◌, ◌≡◌, ◌≢◌, refl, inl, inr, Bool, true, false, List, [], ◌∷◌, none, some, ltb, ◌==◌, nat_eq,
  if◌then◌else◌, arith, ap, sym, Bool-cases, Option-cases,
}
use rs1541fs.Prelude.Map.{
  get, remove, keys, get-remove, get-insert_self, get-insert_ne, remove-get-none,
}
use rs1541fs.Error.{ok, err}
use rs1541fs.Rs1541.{Cbm, CbmDriveUnit}
use rs1541fs.Drives.{
  Drives, add_drive, remove_drive, cleanup_drive, cleanup_each, cleanup_drives, added, remove_unit,
  not_found,
}

pub remove_drive-none :
    (device : ℕ) (drives : Drives)
    → get device drives ≡ none
    → remove_drive device drives ≡ (err (not_found device), drives)
unfolding remove_drive
remove_drive-none device drives e = rw (remove_drive, e) refl

pub remove_drive-some :
    (device : ℕ) (unit : CbmDriveUnit) (drives : Drives)
    → get device drives ≡ some unit
    → remove_drive device drives ≡ remove_unit device drives unit
unfolding remove_drive
remove_drive-some device unit drives e = rw (remove_drive, e) refl

-- A forced removal removes, whether the drive is busy, free or not there.
cleanup_drive-remove :
    (device : ℕ) (drives : Drives) → cleanup_drive device drives ≡ remove device drives
unfolding cleanup_drive
cleanup_drive-remove device drives = elim (Option-cases (get device drives)) [
  | inl e ↦ rw (remove_drive-none device drives e) (sym (remove-get-none device drives e))
  | inr (unit, e) ↦ elim (Bool-cases unit.is_busy) [
    | inl b ↦ rw (remove_drive-some device unit drives e, b) refl
    | inr b ↦ rw (remove_drive-some device unit drives e, b) refl
  ]
]

abbrev elem : ℕ → List ℕ → Bool
elem j [] = false
elem j (k ∷ ks) = if k == j then true else elem j ks

get-cleanup_each :
    (j : ℕ) (ks : List ℕ) (drives : Drives)
    → get j (cleanup_each ks drives) ≡ (if elem j ks then none else get j drives)
unfolding cleanup_each
get-cleanup_each j [] drives = refl
get-cleanup_each j (k ∷ ks) drives = ground (
  arith,
  get-cleanup_each j ks (cleanup_drive k drives),
  ap (get j) (cleanup_drive-remove k drives),
  get-remove k j drives,
)

elem-keys : (j : ℕ) (drives : Drives) → elem j (keys drives) ≡ false → get j drives ≡ none
unfolding get
elem-keys j [] h = refl
elem-keys j ((k, unit) ∷ drives) h = ground (arith, elem-keys j drives)

nothing_left : (drives : Drives) → ((j : ℕ) → get j drives ≡ none) → drives ≡ []
unfolding get
nothing_left [] h = refl
nothing_left ((k, unit) ∷ drives) h = absurd (ground (arith, h k))

-- The cleanup leaves no drive, not even one that is busy.
pub cleanup_drives-empty : (drives : Drives) → cleanup_drives drives ≡ []
unfolding cleanup_drives
cleanup_drives-empty drives =
    nothing_left (cleanup_each (keys drives) drives)
      (λ j. ground (arith, get-cleanup_each j (keys drives) drives, elem-keys j drives))

not_ltb : (a b : ℕ) → b ≤ a → ltb a b ≡ false
not_ltb a b h = ground arith

add_drive-added :
    (cbm : Cbm) (device : ℕ) (unit : CbmDriveUnit) (drives : Drives)
    → cbm.device_min_num ≤ device
    → device ≤ cbm.device_max_num
    → cbm.try_from_bus device ≡ inl unit
    → add_drive cbm device drives ≡ added device unit drives
unfolding add_drive
add_drive-added cbm device unit drives low high e =
    rw (not_ltb device cbm.device_min_num low, not_ltb cbm.device_max_num device high, e) refl

-- With a valid number for which the bus gives a unit: `add_drive` reports the unit exactly if the
-- device was not there, an error otherwise; in either case the device has the new unit from then on,
-- and every other device keeps what it has.
pub add_drive-get :
    (cbm : Cbm) (device : ℕ) (unit : CbmDriveUnit) (drives : Drives)
    → cbm.device_min_num ≤ device
    → device ≤ cbm.device_max_num
    → cbm.try_from_bus device ≡ inl unit
    → ((get device drives ≡ none) → (add_drive cbm device drives).0 ≡ ok unit)
      × ((get device drives ≢ none) → (add_drive cbm device drives).0 ≢ ok unit)
      × (get device (add_drive cbm device drives).1 ≡ some unit)
      × ((j : ℕ) → device ≢ j → get j (add_drive cbm device drives).1 ≡ get j drives)
add_drive-get cbm device unit drives low high e =
    rw (add_drive-added cbm device unit drives low high e) (
      λ n. rw n refl,
      λ p q. elim (Option-cases (get device drives)) [
        | inl n ↦ p n
        | inr (old, s) ↦ absurd (cc (q, s))
      ],
      get-insert_self device unit drives,
      λ j ne. get-insert_ne device j unit drives ne,
    )
