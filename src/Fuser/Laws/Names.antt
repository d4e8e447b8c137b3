-- ===== src/Fuser/Laws/Names.antt =====
-- The names that `listxattr` lists are the names that `getxattr` answers.
use mathlib.Core.List.{append_assoc}
use rs1541fs.Prelude.{
  ℕ, String, ◌≡◌, refl, inl, inr, true, List, [], ◌∷◌, ◌++◌, map, Option, some, ap, sym, ◌∙◌, bytes,
  All, All-mono, All-append, ◌==◌, nat_eq, string_eq, eq_iff, length, leb, ◌%◌, ◌^◌, Bool-cases,
  Option-cases,
}
use rs1541fs.Error.{Result, ok, ok-injective, bind-ok}
use rs1541fs.File.Xattr.{
  Xattr, DiskXattr, listxattr_from_vec, getxattr_from_vec, drive_xattr, disk_xattr,
}
use rs1541fs.File.FileXattr.{file_xattr, from_file_entry, listxattrs, getxattr as entry_getxattr}
use rs1541fs.File.Entry.{FileEntry, FileEntryType, directory, cbm_file, control_file, fuse_root_id}
use rs1541fs.Mount.State.{Mount, num_drives, disk_xattrs}
use rs1541fs.Mount.Lookup.{file_by_inode}
use rs1541fs.Fuser.{reply}
use rs1541fs.Fuser.Attributes.{
  size, value, sized, disk_list, entry_list, root_list, listxattr, entry_get, root_get, getxattr,
}

-- A list of names as the kernel wants it: each with a 0 behind it.
unfoldable pub terminated : List String → List ℕ
terminated [] = []
terminated (n ∷ ns) = bytes n ++ (0 ∷ terminated ns)

terminated-append : (ms ns : List String) → terminated (ms ++ ns) ≡ terminated ms ++ terminated ns
unfolding terminated
terminated-append [] ns = refl
terminated-append (m ∷ ms) ns =
    ap (λ l. bytes m ++ (0 ∷ l)) (terminated-append ms ns)
    ∙ sym (append_assoc (bytes m) (0 ∷ terminated ms) (terminated ns))

module _ {ℓ} {A : Type ℓ} (x : Xattr A) where
  abbrev names : List A → List String
  names xattrs = map x.name xattrs

  -- The attribute of that name has a value.
  abbrev Has : List A → String → Type 0
  Has xattrs n = (v : List ℕ) × (getxattr_from_vec x xattrs n ≡ some v)

  listxattr_from_vec-terminated :
      (xattrs : List A) → listxattr_from_vec x xattrs ≡ terminated (names xattrs)
  unfolding listxattr_from_vec terminated
  listxattr_from_vec-terminated [] = refl
  listxattr_from_vec-terminated (a ∷ xattrs) =
      ap (λ l. bytes (x.name a) ++ (0 ∷ l)) (listxattr_from_vec-terminated xattrs)

  later-Has : (a : A) (xattrs : List A) (n : String) → Has xattrs n → Has (a ∷ xattrs) n
  unfolding getxattr_from_vec
  later-Has a xattrs n (v, e) = elim (Bool-cases (x.name a == n)) [
    | inl same ↦ (bytes (x.value a), rw same refl)
    | inr other ↦ (v, rw other e)
  ]

  All-Has : (xattrs : List A) → All (Has xattrs) (names xattrs)
  unfolding getxattr_from_vec
  All-Has [] = tt
  All-Has (a ∷ xattrs) = (
    (bytes (x.value a), rw ((eq_iff (x.name a) (x.name a)).1 refl) refl),
    All-mono (later-Has a xattrs) (names xattrs) (All-Has xattrs),
  )

sized-value :
    (room : ℕ) (listed found : List ℕ) → sized room listed ≡ reply (value found) → listed ≡ found
unfolding sized
sized-value room listed found e = elim (Bool-cases (room == 0)) [
  | inl none_given ↦ absurd (cc (rw none_given at e))
  | inr given ↦ elim (Bool-cases (leb (length listed % 2 ^ 32) room)) [
    | inl enough ↦ cc (rw (given, enough) at e)
    | inr short ↦ absurd (cc (rw (given, short) at e))
  ]
]

-- A lookup that has found a value.
abbrev Finds : Result (Option (List ℕ)) → Type 0
Finds r = (v : List ℕ) × (r ≡ ok (some v))

module _ (format_time : ℕ → String) (m : Mount) where
  -- The bytes are a list of names, each of which has `P`.
  abbrev Lists : (String → Type 0) → List ℕ → Type 0
  Lists P found = (ns : List String) × (found ≡ terminated ns) × All P ns

  disk_names :
      (d : ℕ) (listed : List ℕ)
      → disk_list format_time m d ≡ ok listed
      → (xs : List DiskXattr) × (disk_xattrs m d ≡ ok xs)
        × (listed ≡ terminated (names (disk_xattr format_time) xs))
  disk_names d listed e =
      let (xs, e1, e2) = bind-ok (disk_xattrs m d) _ listed e in
      (
        xs,
        e1,
        sym (ok-injective (listxattr_from_vec (disk_xattr format_time) xs) listed e2)
            ∙ listxattr_from_vec-terminated (disk_xattr format_time) xs,
      )

  joined :
      (ms ns : List String) (a b found : List ℕ)
      → a ≡ terminated ms
      → b ≡ terminated ns
      → a ++ b ≡ found
      → found ≡ terminated (ms ++ ns)
  joined ms ns a b found e e' h = sym h ∙ rw (e, e') (sym (terminated-append ms ns))

  -- The root.
  drive_Finds :
      (n : String)
      → Has (drive_xattr format_time) m.drive_xattrs n
      → Finds
          (root_get format_time m n (getxattr_from_vec (drive_xattr format_time) m.drive_xattrs n))
  drive_Finds n (v, e) = (v, rw e refl)

  root_disk_Finds :
      (n : String) (xs : List DiskXattr)
      → (num_drives m == 1) ≡ true
      → disk_xattrs m 0 ≡ ok xs
      → Has (disk_xattr format_time) xs n
      → Finds
          (root_get format_time m n (getxattr_from_vec (drive_xattr format_time) m.drive_xattrs n))
  root_disk_Finds n xs one there (v, e) =
      elim (Option-cases (getxattr_from_vec (drive_xattr format_time) m.drive_xattrs n)) [
        | inl missing ↦ (v, rw (missing, one, there, e) refl)
        | inr found ↦ drive_Finds n found
      ]

  root-Lists :
      (found : List ℕ)
      → root_list format_time m ≡ ok found
      → Lists
          (λ n. Finds (
            root_get format_time m n
              (getxattr_from_vec (drive_xattr format_time) m.drive_xattrs n)))
          found
  root-Lists found e = elim (Bool-cases (num_drives m == 1)) [
    | inl one ↦
        let (listed, e1, e2) = bind-ok (disk_list format_time m 0) _ found (rw one at e) in
        let (xs, there, is) = disk_names 0 listed e1 in
        (
          names (drive_xattr format_time) m.drive_xattrs ++ names (disk_xattr format_time) xs,
          joined _ _ _ _ found
              (listxattr_from_vec-terminated (drive_xattr format_time) m.drive_xattrs) is
              (ok-injective _ found e2),
          All-append _ _ _
              (All-mono drive_Finds _ (All-Has (drive_xattr format_time) m.drive_xattrs))
              (All-mono (λ n. root_disk_Finds n xs one there) _
                (All-Has (disk_xattr format_time) xs)),
        )
    | inr more ↦ (
      names (drive_xattr format_time) m.drive_xattrs,
      sym (ok-injective _ found (rw more at e))
          ∙ listxattr_from_vec-terminated (drive_xattr format_time) m.drive_xattrs,
      All-mono drive_Finds _ (All-Has (drive_xattr format_time) m.drive_xattrs),
    )
  ]

  -- A file or a directory.
  module _ (f : FileEntry) where
    abbrev HasFile : String → Type 0
    HasFile n = (v : List ℕ) × (entry_getxattr format_time f n ≡ some v)

    file_names :
        (listxattrs format_time f ≡ terminated (names (file_xattr format_time) (from_file_entry f)))
        × All HasFile (names (file_xattr format_time) (from_file_entry f))
    unfolding listxattrs entry_getxattr
    file_names = (
      listxattr_from_vec-terminated (file_xattr format_time) (from_file_entry f),
      All-Has (file_xattr format_time) (from_file_entry f),
    )

    plain-Lists :
        (P : String → Type 0) (found : List ℕ)
        → ((n : String) → HasFile n → P n)
        → ok (listxattrs format_time f) ≡ ok found
        → Lists P found
    plain-Lists P found finds e = (
      names (file_xattr format_time) (from_file_entry f),
      sym (ok-injective _ found e) ∙ file_names.0,
      All-mono finds _ file_names.1,
    )

    file_Finds :
        (d : ℕ) (xs : List DiskXattr) (n : String)
        → disk_xattrs m d ≡ ok xs
        → HasFile n
        → Finds (entry_get format_time m f n (directory d))
    file_Finds d xs n there (v, e) =
        elim (Option-cases (getxattr_from_vec (disk_xattr format_time) xs n)) [
          | inl missing ↦ (v, rw (there, missing, e) refl)
          | inr (w, e') ↦ (w, rw (there, e') refl)
        ]

    disk_Finds :
        (d : ℕ) (xs : List DiskXattr) (n : String)
        → disk_xattrs m d ≡ ok xs
        → Has (disk_xattr format_time) xs n
        → Finds (entry_get format_time m f n (directory d))
    disk_Finds d xs n there (v, e) = (v, rw (there, e) refl)

    entry-Lists :
        (t : FileEntryType) (found : List ℕ)
        → entry_list format_time m f t ≡ ok found
        → Lists (λ n. Finds (entry_get format_time m f n t)) found
    entry-Lists (cbm_file file) found e = plain-Lists _ found (λ n (v, at). (v, rw at refl)) e
    entry-Lists (control_file purpose) found e =
        plain-Lists _ found (λ n (v, at). (v, rw at refl)) e
    entry-Lists (directory d) found e =
        let (listed, e1, e2) = bind-ok (disk_list format_time m d) _ found e in
        let (xs, there, is) = disk_names d listed e1 in
        (
          names (file_xattr format_time) (from_file_entry f) ++ names (disk_xattr format_time) xs,
          joined _ _ _ _ found file_names.0 is (ok-injective _ found e2),
          All-append _ _ _ (All-mono (λ n. file_Finds d xs n there) _ file_names.1)
              (All-mono (λ n. disk_Finds d xs n there) _ (All-Has (disk_xattr format_time) xs)),
        )

  -- Where `listxattr` gives the names of a file, `getxattr` answers every one of them, and no name that
  -- is listed ends in ENODATA: the bytes are the names, each with a 0 behind it.
  pub listxattr-getxattr :
      (ino room : ℕ) (found : List ℕ)
      → listxattr format_time m ino room ≡ ok (reply (value found))
      → (ns : List String) × (found ≡ terminated ns)
        × All (λ n. (k : ℕ) × (getxattr format_time m ino (some n) 0 ≡ ok (reply (size k)))) ns
  unfolding listxattr getxattr sized
  listxattr-getxattr ino room found e = elim (Bool-cases (ino == fuse_root_id)) [
    | inl root ↦
        let (listed, e1, e2) =
          bind-ok (root_list format_time m) _ (reply (value found)) (rw root at e) in
        let (ns, is, all) = root-Lists listed e1 in
        (
          ns,
          sym (sized-value room listed found (ok-injective _ _ e2)) ∙ is,
          All-mono (λ n (v, at). (length v % 2 ^ 32, rw (root, at) refl)) ns all,
        )
    | inr below ↦ elim (Option-cases (file_by_inode m ino)) [
      | inl missing ↦ absurd (cc (rw (below, missing) at e))
      | inr (f, there) ↦
          let (listed, e1, e2) =
            bind-ok (entry_list format_time m f f.native) _ (reply (value found))
              (rw (below, there) at e) in
          let (ns, is, all) = entry-Lists f f.native listed e1 in
          (
            ns,
            sym (sized-value room listed found (ok-injective _ _ e2)) ∙ is,
            All-mono (λ n (v, at). (length v % 2 ^ 32, rw (below, there, at) refl)) ns all,
          )
    ]
  ]
