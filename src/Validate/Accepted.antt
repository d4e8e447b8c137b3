-- ===== src/Validate/Accepted.antt =====
-- What a request that passes validation may rely on.
use rs1541fs.Prelude.{
  ℕ, String, ◌≡◌, refl, ◌⊎◌, inl, inr, Bool, true, false, not, Option, none, some, is_some, is_none,
  arith, sym, ◌∙◌, subst, Bool-cases, if◌then◌else◌, string_eq, eq_iff, ◌<+>◌,
}
use rs1541fs.Error.{ok, err, ◌>>=◌, ◌>>◌, bind-ok}
use rs1541fs.Validate.{
  Host, mount, empty_or, same_path, failed, same_device, device_result, absolute_path, check_path,
  has_write_permission, validate_mountpoint, validate_mount_request, validate_unmount_request,
}

module _ (host : Host) where
  -- A directory that exists, is empty and may be written, under an absolute path.
  pub record IsMountable (path : String) : Type 0 where
    pub absolute : host.is_absolute path ≡ true
    pub directory : host.is_dir path ≡ true
    pub empty : host.has_entries path ≡ inl false
    pub writable : has_write_permission host path ≡ true

  absolute_path-absolute :
      (path vpath : String)
      → absolute_path host path false ≡ ok vpath
      → (host.is_absolute path ≡ true) × (path ≡ vpath)
  unfolding absolute_path
  absolute_path-absolute path vpath e = ground arith

  empty_or-empty :
      (path : String) (b : Bool ⊎ String) → empty_or host path b ≡ ok tt → b ≡ inl false
  empty_or-empty path (inl true) e = absurd (cc e)
  empty_or-empty path (inl false) e = refl
  empty_or-empty path (inr x) e = absurd (cc e)

  check_path-mount :
      (path vpath : String)
      → check_path host mount path ≡ ok vpath
      → (host.is_dir path ≡ true)
        × (host.has_entries path ≡ inl false)
        × (has_write_permission host path ≡ true)
        × (path ≡ vpath)
  unfolding check_path
  check_path-mount path vpath e = elim (Bool-cases (host.is_dir path)) [
    | inr d ↦ absurd (ground (arith, e, d))
    | inl d ↦
        let (u, e1, e2) = bind-ok (empty_or host path (host.has_entries path)) _ vpath (rest d) in
        let w = writable e2 in (d, empty_or-empty path (host.has_entries path) e1, w.0, w.1)
  ]
    where
      rest :
          host.is_dir path ≡ true
          → (empty_or host path (host.has_entries path)
              >> (if not (has_write_permission host path)
                  then err (failed ("No write permission for mountpoint " <+> path))
                  else ok path))
            ≡ ok vpath
      rest d =
          subst
            (λ b.
              (if not b
                then err (failed ("Mountpoint " <+> path <+> " is not a directory"))
                else empty_or host path (host.has_entries path)
                  >> (if not (has_write_permission host path)
                      then err (failed ("No write permission for mountpoint " <+> path))
                      else ok path))
              ≡ ok vpath)
            d e

      writable :
          (if not (has_write_permission host path)
              then err (failed ("No write permission for mountpoint " <+> path))
              else ok path)
            ≡ ok vpath
          → (has_write_permission host path ≡ true) × (path ≡ vpath)
      writable h = ground arith

  same_path-ok :
      (path rpath p : String) → same_path host path rpath ≡ ok p → (rpath ≡ path) × (rpath ≡ p)
  same_path-ok path rpath p e = ground (arith, eq_iff rpath path)

  -- A mount request is accepted only for an empty, writable directory under an absolute path, and the
  -- path that is passed on is the one that was asked for.
  pub validate_mount_request-IsMountable :
      (mountpoint path : String) (device : ℕ)
      → validate_mount_request host mountpoint device ≡ ok path
      → (path ≡ mountpoint) × IsMountable mountpoint
  unfolding validate_mount_request validate_mountpoint
  validate_mount_request-IsMountable mountpoint path device e =
      let (u, e1, e2) =
        bind-ok
          (device_result host (host.validate_device (some device)) >>= same_device host device) _
          path e in
      let (rpath, e3, e4) =
        bind-ok (validate_mountpoint host mountpoint mount false) (same_path host mountpoint) path
          e2 in
      let (vpath, e5, e6) =
        bind-ok (absolute_path host mountpoint false) (check_path host mount) rpath e3 in
      let (absolute, here) = absolute_path-absolute mountpoint vpath e5 in
      let (is_dir, entries, writable, _) =
        check_path-mount mountpoint rpath
          (subst (λ p. check_path host mount p ≡ ok rpath) (sym here) e6) in
      let (back, is_path) = same_path-ok mountpoint rpath path e4 in
      (
        sym is_path ∙ back,
        record { absolute = absolute; directory = is_dir; empty = entries; writable = writable },
      )

  -- An unmount request is accepted only with exactly one of a mountpoint and a device, as
  -- `MountService::unmount` asserts.
  validate_unmount_request-one :
      (mountpoint : Option String) (device : Option ℕ)
      → validate_unmount_request host mountpoint device ≡ ok tt
      → is_some mountpoint ≡ is_none device
  unfolding validate_unmount_request
  validate_unmount_request-one none none e = absurd (cc e)
  validate_unmount_request-one (some p) none e = refl
  validate_unmount_request-one none (some d) e = refl
  validate_unmount_request-one (some p) (some d) e = absurd (cc e)
