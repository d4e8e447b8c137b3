-- ===== src/Proc/Typed.antt =====
-- The type of an answer: what kind of response a successful operation is answered with.
use rs1541fs.Prelude.{ℕ, String, ◌≡◌, refl, Bool, List, Option, subst, Bool-cases, inl, inr}
use rs1541fs.Error.{Result, ok, err, panic, ok-injective, ◌>>=◌}
use rs1541fs.Rs1541.{CbmStatus, CbmDeviceInfo, CbmDirListing}
use rs1541fs.Env.{Env}
use rs1541fs.Bg.{OpType, OpResponseType, Operation}
use rs1541fs.Drives.{get_drive}
use rs1541fs.Service.{Service, Handles}
use rs1541fs.Proc.{
  Proc, Ending, in_time, too_late, mapped, listed, file_read, execute, execute_operation,
  process_operation, process_type, ended,
}

-- A response of the kind of the operation, with the device, path and inode of the operation. An
-- unmount may be answered with either success: the source gives that of a mount.
pub data IsAnswer : OpType → OpResponseType → Type 0 where
  mounted :
      {device : ℕ} {mountpoint : String} {dummy_formats reset : Bool}
      → IsAnswer (OpType.mount device mountpoint dummy_formats reset) OpResponseType.mount
  unmounted :
      {device : Option ℕ} {mountpoint : Option String}
      → IsAnswer (OpType.unmount device mountpoint) OpResponseType.unmount
  unmounted_as_mount :
      {device : Option ℕ} {mountpoint : Option String}
      → IsAnswer (OpType.unmount device mountpoint) OpResponseType.mount
  bus_was_reset : IsAnswer OpType.bus_reset OpResponseType.bus_reset
  directory_read :
      {device : ℕ} (status : CbmStatus) (listings : List CbmDirListing)
      → IsAnswer (OpType.read_directory device) (OpResponseType.read_directory status listings)
  file_was_read :
      {device inode : ℕ} {path : String} (status : CbmStatus) (contents : List ℕ)
      → IsAnswer
          (OpType.read_file device path inode)
          (OpResponseType.read_file device path inode status contents)
  identified :
      {device : ℕ} (info : CbmDeviceInfo)
      → IsAnswer (OpType.identify device) (OpResponseType.identify info)
  got_status :
      {device : ℕ} (status : CbmStatus)
      → IsAnswer (OpType.get_status device) (OpResponseType.get_status status)
  cache_cancelled :
      {device : ℕ}
      → IsAnswer (OpType.cancel_device_cache device) (OpResponseType.cancel_device_cache device)

mapped-IsAnswer {ℓ} :
    {A : Type ℓ} (op : OpType) (f : A → OpResponseType) (r : Result A) (rsp : OpResponseType)
    → ((a : A) → IsAnswer op (f a))
    → mapped f r ≡ ok rsp
    → IsAnswer op rsp
mapped-IsAnswer op f (ok a) rsp all e = subst (IsAnswer op) (ok-injective (f a) rsp e) (all a)
mapped-IsAnswer op f (err x) rsp all e = absurd (cc e)
mapped-IsAnswer op f panic rsp all e = absurd (cc e)

bound-IsAnswer {ℓ} :
    {A : Type ℓ} {op : OpType} (r : Result A) (f : A → Result OpResponseType) (rsp : OpResponseType)
    → ((a : A) → f a ≡ ok rsp → IsAnswer op rsp)
    → (r >>= f) ≡ ok rsp
    → IsAnswer op rsp
bound-IsAnswer (ok a) f rsp all e = all a e
bound-IsAnswer (err x) f rsp all e = absurd (cc e)
bound-IsAnswer panic f rsp all e = absurd (cc e)

module _ (env : Env) (now : ℕ) (closed : Option String) (h : Handles) where
  execute-IsAnswer :
      (op : OpType) (s : Service) (rsp : OpResponseType)
      → (execute env now closed h op s).0 ≡ ok rsp
      → IsAnswer op rsp
  unfolding execute
  execute-IsAnswer (OpType.mount device mountpoint dummy_formats reset) s rsp e =
      mapped-IsAnswer _ _ _ rsp (λ _. mounted) e
  execute-IsAnswer (OpType.unmount device mountpoint) s rsp e =
      mapped-IsAnswer _ _ _ rsp (λ _. unmounted_as_mount) e
  execute-IsAnswer (OpType.identify device) s rsp e =
      mapped-IsAnswer _ _ _ rsp (λ info. identified info) e
  execute-IsAnswer (OpType.get_status device) s rsp e =
      mapped-IsAnswer _ _ _ rsp (λ status. got_status status) e
  execute-IsAnswer OpType.bus_reset s rsp e = mapped-IsAnswer _ _ _ rsp (λ _. bus_was_reset) e
  execute-IsAnswer (OpType.read_directory device) s rsp e =
      bound-IsAnswer (get_drive device s.drives) _ rsp
        (λ unit. mapped-IsAnswer _ listed _ rsp (λ r. directory_read r.1 r.0)) e
  execute-IsAnswer (OpType.read_file device path inode) s rsp e =
      bound-IsAnswer (get_drive device s.drives) _ rsp
        (λ unit. mapped-IsAnswer _ (file_read device path inode) _ rsp (λ r. file_was_read r.1 r.0))
        e
  execute-IsAnswer (OpType.cancel_device_cache device) s rsp e = absurd (cc e)
  execute-IsAnswer (OpType.write_file device path contents) s rsp e = absurd (cc e)
  execute-IsAnswer (OpType.init_drive device drive_unit) s rsp e = absurd (cc e)
  execute-IsAnswer (OpType.read_file_cache device path inode) s rsp e = absurd (cc e)

  execute_operation-IsAnswer :
      (op : OpType) (p : Proc) (rsp : OpResponseType)
      → (execute_operation env now closed h op p).0 ≡ ok rsp
      → IsAnswer op rsp
  unfolding execute_operation
  execute_operation-IsAnswer op p rsp e = elim (Bool-cases p.shutdown) [
    | inl down ↦ absurd (cc (rw (execute_operation, down) at e))
    | inr up ↦ execute-IsAnswer op p.service rsp (rw (execute_operation, up) at e)
  ]

  -- A processed operation that succeeds is answered with the response of its kind, and, for a file, with
  -- the device, the path and the inode of the operation; an unmount is answered as a mount.
  pub process_operation-IsAnswer :
      (ending : Ending) (op : Operation) (p : Proc) (rsp : OpResponseType)
      → (process_operation env now closed h ending op p).answer ≡ ok rsp
      → IsAnswer op.op_type rsp
  unfolding process_operation
  process_operation-IsAnswer ending op p rsp e = by_type op.op_type refl e
    where
      ended-IsAnswer :
          (ending : Ending)
          → (ended env now closed h ending op p).answer ≡ ok rsp
          → IsAnswer op.op_type rsp
      ended-IsAnswer in_time e = execute_operation-IsAnswer op.op_type p rsp e
      ended-IsAnswer (too_late left) e = absurd (cc e)

      by_type :
          (t : OpType)
          → op.op_type ≡ t
          → (process_type env now closed h t ending op p).answer ≡ ok rsp
          → IsAnswer op.op_type rsp
      by_type (OpType.cancel_device_cache device) is e =
          subst (IsAnswer op.op_type) (ok-injective _ rsp e) (rw is cache_cancelled)
      by_type OpType.bus_reset is e = ended-IsAnswer ending e
      by_type (OpType.mount _ _ _ _) is e = ended-IsAnswer ending e
      by_type (OpType.unmount _ _) is e = ended-IsAnswer ending e
      by_type (OpType.read_directory _) is e = ended-IsAnswer ending e
      by_type (OpType.read_file _ _ _) is e = ended-IsAnswer ending e
      by_type (OpType.write_file _ _ _) is e = ended-IsAnswer ending e
      by_type (OpType.init_drive _ _) is e = ended-IsAnswer ending e
      by_type (OpType.identify _) is e = ended-IsAnswer ending e
      by_type (OpType.get_status _) is e = ended-IsAnswer ending e
      by_type (OpType.read_file_cache _ _ _) is e = ended-IsAnswer ending e
