-- ===== src/Client/Laws/Validated.antt =====
-- What the client has validated, the daemon accepts.
use rs1541fs.Prelude.{
  ℕ, String, ◌≡◌, refl, subst, ◌⊎◌, inl, inr, true, false, Option, none, some, arith, string_eq,
  eq_iff, nat_beq_iff,
}
use rs1541fs.Error.{ok, ◌>>=◌, bind-ok}
use rs1541fs.Bg.{OpType}
use rs1541fs.Validate.{
  Host, ValidationType, absolute_path, check_path, validate_mountpoint, validate_mount_request,
  validate_unmount_request, same_path, same_device, device_result,
}
use rs1541fs.Ipc.{Handling, handling, dying}
use rs1541fs.Client.{
  ClientOperation, mount, unmount, identify, getstatus, resetbus, kill, Args, check_device,
  validate_operation, validate, create_request,
}

-- What the daemon is to make of an operation.
abbrev pub requested : ClientOperation → Handling
requested resetbus = inl OpType.bus_reset
requested (mount device dummy_formats mountpoint path) =
    inl (OpType.mount device mountpoint dummy_formats false)
requested (unmount device mountpoint path) = inl (OpType.unmount device mountpoint)
requested (identify device) = inl (OpType.identify device)
requested (getstatus device) = inl (OpType.get_status device)
requested kill = inr dying

-- `canonicalize` gives absolute paths, and a device that is valid is given back.
pub record IsRegular (host : Host) : Type 0 where
  pub canonicalize : (p q : String) → host.canonicalize p ≡ inl q → host.is_absolute q ≡ true
  pub validate_device :
      (device : ℕ) (d : Option ℕ) → host.validate_device (some device) ≡ inl d → d ≡ some device

module _ (host : Host) (regular : IsRegular host) where
  absolute_path-is_absolute :
      (path vpath : String)
      → absolute_path host path true ≡ ok vpath
      → host.is_absolute vpath ≡ true
  unfolding absolute_path
  absolute_path-is_absolute path vpath e = ground (arith, regular.canonicalize path vpath)

  absolute_path_self :
      (path : String) → host.is_absolute path ≡ true → absolute_path host path false ≡ ok path
  unfolding absolute_path
  absolute_path_self path e = ground arith

  check_path_self :
      (vtype : ValidationType) (path rpath : String)
      → check_path host vtype path ≡ ok rpath
      → path ≡ rpath
  unfolding check_path
  check_path_self vtype path rpath e = elim vtype [
    | ValidationType.mount ↦ ground arith
    | ValidationType.unmount ↦ ground arith
  ]

  answered_self :
      (device : ℕ) (answer : Option ℕ ⊎ String)
      → host.validate_device (some device) ≡ answer
      → (device_result host answer >>= λ _. ok tt) ≡ ok (tt {0})
      → (device_result host answer >>= same_device host device) ≡ ok tt
  answered_self device (inl d) h e =
      rw (regular.validate_device device d h, (nat_beq_iff device device).1 refl) refl
  answered_self device (inr x) h e = absurd (cc e)

  same_device_self :
      (device : ℕ)
      → check_device host device ≡ ok tt
      → (device_result host (host.validate_device (some device)) >>= same_device host device)
        ≡ ok tt
  same_device_self device e = answered_self device (host.validate_device (some device)) refl e

  -- A path that is validated with `canonicalize` is validated again without, and unchanged.
  validate_mountpoint_self :
      (vtype : ValidationType) (path rpath : String)
      → validate_mountpoint host path vtype true ≡ ok rpath
      → (validate_mountpoint host rpath vtype false >>= same_path host rpath) ≡ ok rpath
  unfolding validate_mountpoint
  validate_mountpoint_self vtype path rpath e =
      let (vpath, absolute, checked) =
        bind-ok (absolute_path host path true) (check_path host vtype) rpath e in
      let here = check_path_self vtype vpath rpath checked in
      let at =
        subst (λ p. host.is_absolute p ≡ true) here
          (absolute_path-is_absolute path vpath absolute) in
      let again = subst (λ p. check_path host vtype p ≡ ok rpath) here checked in
      rw (absolute_path_self rpath at, again, (eq_iff rpath rpath).1 refl) refl

  validate_mount_request_self :
      (device : ℕ) (path rpath : String)
      → check_device host device ≡ ok tt
      → validate_mountpoint host path ValidationType.mount true ≡ ok rpath
      → validate_mount_request host rpath device ≡ ok rpath
  unfolding validate_mount_request
  validate_mount_request_self device path rpath e e' =
      rw (same_device_self device e) (validate_mountpoint_self ValidationType.mount path rpath e')

  abbrev IsAccepted : ClientOperation → Type 0
  IsAccepted operation = handling host (create_request operation) ≡ ok (requested operation)

  subst-IsAccepted : (o o' : ClientOperation) → ok o ≡ ok o' → IsAccepted o → IsAccepted o'
  subst-IsAccepted o o' e h = subst IsAccepted (cc e) h

  validate_operation-handling :
      (operation operation' : ClientOperation)
      → validate_operation host operation ≡ ok operation'
      → IsAccepted operation'
  unfolding validate_operation create_request handling validate_unmount_request
  validate_operation-handling resetbus o e = subst-IsAccepted resetbus o e refl
  validate_operation-handling kill o e = subst-IsAccepted kill o e refl
  validate_operation-handling (identify device) o e =
      let (u, _, e') = bind-ok (check_device host device) _ o e in
      subst-IsAccepted (identify device) o e' refl
  validate_operation-handling (getstatus device) o e =
      let (u, _, e') = bind-ok (check_device host device) _ o e in
      subst-IsAccepted (getstatus device) o e' refl
  validate_operation-handling (mount device dummy_formats mountpoint path) o e =
      let (u, device_ok, rest) = bind-ok (check_device host device) _ o e in
      let (rpath, path_ok, is_o) =
        bind-ok (validate_mountpoint host mountpoint ValidationType.mount true) _ o rest in
      subst-IsAccepted (mount device dummy_formats rpath (some rpath)) o is_o
        (rw (validate_mount_request_self device mountpoint rpath device_ok path_ok) refl)
  validate_operation-handling (unmount none none path) o e = absurd (cc e)
  validate_operation-handling (unmount (some device) (some mountpoint) path) o e = absurd (cc e)
  validate_operation-handling (unmount (some device) none path) o e =
      let (u, device_ok, is_o) = bind-ok (check_device host device) _ o e in
      subst-IsAccepted (unmount (some device) none path) o is_o
        (rw (same_device_self device device_ok) refl)
  validate_operation-handling (unmount none (some mountpoint) path) o e =
      let (rpath, path_ok, is_o) =
        bind-ok (validate_mountpoint host mountpoint ValidationType.unmount true) _ o e in
      subst-IsAccepted (unmount none (some rpath) (some rpath)) o is_o
        (rw (validate_mountpoint_self ValidationType.unmount mountpoint rpath path_ok) refl)

  -- On one host whose `canonicalize` gives absolute paths and which gives a valid device back, arguments
  -- that the client has validated make a request that the daemon neither refuses nor panics on, and
  -- takes for the operation that was asked for, without a bus reset on a mount.
  pub validate-handling :
      (args args' : Args)
      → validate host args ≡ ok args'
      → handling host (create_request args'.operation) ≡ ok (requested args'.operation)
  unfolding validate
  validate-handling args args' e =
      let (operation, valid, is_args) =
        bind-ok (validate_operation host args.operation) _ args' e in
      subst IsAccepted (cc is_args) (validate_operation-handling args.operation operation valid)
