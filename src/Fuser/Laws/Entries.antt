-- ===== src/Fuser/Laws/Entries.antt =====
-- What the directories of a mount list stands among its entries.
use rs1541fs.Prelude.{
  ℕ, zero, suc, ◌+◌, ◌≡◌, ◌⊎◌, inl, inr, Bool, true, List, [], ◌∷◌, ◌++◌, Option, none, some, ap,
  sym, ◌∙◌, subst, ltb, find, get_elem?, nat_eq, string_eq, Bool-cases, Option-cases, if◌then◌else◌,
}
use mathlib.Core.Option.{some-injective}
use rs1541fs.Error.{ok, bind-ok}
use rs1541fs.File.Entry.{FileEntry}
use rs1541fs.File.DiskInfo.{DiskInfo, files}
use rs1541fs.Mount.State.{Mount, num_drives, get_drive_dir, get_drive_files, dir_of, files_of}
use rs1541fs.Mount.Unique.Reached.{entries, dir_entries}
use rs1541fs.Fuser.Directory.{dirs_from, with_dir}

-- An entry stands in a list.
abbrev pub In : FileEntry → List FileEntry → Type 0
In f fs = (k : ℕ) × (get_elem? fs k ≡ some f)

abbrev pub Sub : List FileEntry → List FileEntry → Type 0
Sub fs gs = (f : FileEntry) → In f fs → In f gs

In-left : (f : FileEntry) (fs gs : List FileEntry) → In f fs → In f (fs ++ gs)
In-left f [] gs (k, e) = absurd (cc e)
In-left f (x ∷ fs) gs (zero, e) = (zero, e)
In-left f (x ∷ fs) gs (suc k, e) = let (j, e') = In-left f fs gs (k, e) in (suc j, e')

In-right : (f : FileEntry) (fs gs : List FileEntry) → In f gs → In f (fs ++ gs)
In-right f [] gs i = i
In-right f (x ∷ fs) gs i = let (j, e) = In-right f fs gs i in (suc j, e)

In-either : (f : FileEntry) (fs gs : List FileEntry) → In f (fs ++ gs) → In f fs ⊎ In f gs
In-either f [] gs i = inr i
In-either f (x ∷ fs) gs (zero, e) = inl (zero, e)
In-either f (x ∷ fs) gs (suc k, e) = elim (In-either f fs gs (k, e)) [
  | inl (j, e') ↦ inl (suc j, e')
  | inr i ↦ inr i
]

pub find-In :
    (p : FileEntry → Bool) (fs : List FileEntry) (f : FileEntry)
    → find p fs ≡ some f
    → In f fs × (p f ≡ true)
find-In p [] f e = absurd (cc e)
find-In p (x ∷ fs) f e = elim (Bool-cases (p x)) [
  | inl hit ↦
      let same = some-injective _ _ (sym (ap (λ b. if b then some x else find p fs) hit) ∙ e) in
      ((zero, ap some same), subst (λ y. p y ≡ true) same hit)
  | inr miss ↦
      let ((k, at), h) =
        find-In p fs f (sym (ap (λ b. if b then some x else find p fs) miss) ∙ e) in
      ((suc k, at), h)
]

-- A disk's entries are among the mount's.
disk-Sub :
    (k : ℕ) (ds : List DiskInfo) (d : DiskInfo)
    → get_elem? ds k ≡ some d
    → Sub (d.control_files ++ (d.cbm_files ++ dir_entries d.disk_dir)) (entries ds)
disk-Sub k [] d e f i = absurd (cc e)
disk-Sub zero (x ∷ ds) d e f i =
    subst (λ y. In f (entries (y ∷ ds))) (sym (some-injective _ _ e)) (here i)
  where
    here :
        In f (d.control_files ++ (d.cbm_files ++ dir_entries d.disk_dir)) → In f (entries (d ∷ ds))
    here i = elim (In-either f d.control_files (d.cbm_files ++ dir_entries d.disk_dir) i) [
      | inl c ↦ In-left f d.control_files _ c
      | inr r ↦
          In-right f d.control_files _ (elim (In-either f d.cbm_files (dir_entries d.disk_dir) r) [
            | inl c ↦ In-left f d.cbm_files _ c
            | inr t ↦ In-right f d.cbm_files _ (In-left f (dir_entries d.disk_dir) (entries ds) t)
          ])
    ]
disk-Sub (suc k) (x ∷ ds) d e f i = In-right f x.control_files _ (
    In-right f x.cbm_files _
      (In-right f (dir_entries x.disk_dir) (entries ds) (disk-Sub k ds d e f i)))

pub ok-injective {ℓ} : {A : Type ℓ} (a b : A) → ok a ≡ ok b → a ≡ b
ok-injective a b e = cc e

files_of-Sub :
    (ds : List DiskInfo) (k : ℕ) (fs : List FileEntry)
    → files_of (get_elem? ds k) ≡ ok fs
    → Sub fs (entries ds)
unfolding files
files_of-Sub ds k fs e f i = elim (Option-cases (get_elem? ds k)) [
  | inl n ↦ absurd (cc (sym (ap files_of n) ∙ e))
  | inr (d, s) ↦
      let same = ok-injective (files d) fs (sym (ap files_of s) ∙ e) in
      disk-Sub k ds d s f
        (elim (In-either f d.control_files d.cbm_files (subst (In f) (sym same) i)) [
          | inl c ↦ In-left f d.control_files _ c
          | inr c ↦ In-right f d.control_files _ (In-left f d.cbm_files _ c)
        ])
]

dir_of-Sub :
    (ds : List DiskInfo) (k : ℕ) (o : Option FileEntry)
    → dir_of (get_elem? ds k) ≡ ok o
    → Sub (dir_entries o) (entries ds)
dir_of-Sub ds k o e f i = elim (Option-cases (get_elem? ds k)) [
  | inl n ↦ absurd (cc (sym (ap dir_of n) ∙ e))
  | inr (d, s) ↦
      let same = ok-injective d.disk_dir o (sym (ap dir_of s) ∙ e) in
      disk-Sub k ds d s f (
        In-right f d.control_files _
          (In-right f d.cbm_files _ (subst (λ x. In f (dir_entries x)) (sym same) i)))
]

module _ (m : Mount) where
  pub get_drive_files-Sub :
      (k : ℕ) (fs : List FileEntry) → get_drive_files m k ≡ ok fs → Sub fs (entries m.disk_info)
  unfolding get_drive_files
  get_drive_files-Sub k fs e f i = elim (Bool-cases (ltb k (num_drives m))) [
    | inl h ↦
        files_of-Sub m.disk_info k fs
          (sym (ap (λ b. if b then files_of (get_elem? m.disk_info k) else ok []) h) ∙ e) f i
    | inr h ↦
        let nothing =
          ok-injective [] fs
            (sym (ap (λ b. if b then files_of (get_elem? m.disk_info k) else ok []) h) ∙ e) in
        absurd (cc ((subst (In f) (sym nothing) i).1))
  ]

  get_drive_dir-Sub :
      (k : ℕ) (o : Option FileEntry)
      → get_drive_dir m k ≡ ok o
      → Sub (dir_entries o) (entries m.disk_info)
  unfolding get_drive_dir
  get_drive_dir-Sub k o e f i = elim (Bool-cases (ltb k (num_drives m))) [
    | inl h ↦
        dir_of-Sub m.disk_info k o
          (sym (ap (λ b. if b then dir_of (get_elem? m.disk_info k) else ok none) h) ∙ e) f i
    | inr h ↦
        let nothing =
          ok-injective none o
            (sym (ap (λ b. if b then dir_of (get_elem? m.disk_info k) else ok none) h) ∙ e) in
        absurd (cc ((subst (λ x. In f (dir_entries x)) (sym nothing) i).1))
  ]

  with_dir-In :
      (f : FileEntry) (o : Option FileEntry) (fs : List FileEntry)
      → In f (with_dir o fs)
      → In f (dir_entries o) ⊎ In f fs
  with_dir-In f none fs i = inr i
  with_dir-In f (some x) fs (zero, e) = inl (zero, e)
  with_dir-In f (some x) fs (suc k, e) = inr (k, e)

  pub dirs_from-Sub :
      (left ii : ℕ) (fs : List FileEntry)
      → dirs_from m left ii ≡ ok fs
      → Sub fs (entries m.disk_info)
  unfolding dirs_from
  dirs_from-Sub zero ii fs e f i = absurd (cc ((subst (In f) (sym (ok-injective [] fs e)) i).1))
  dirs_from-Sub (suc left) ii fs e f i =
      let (o, e1, e2) = bind-ok (get_drive_dir m ii) _ fs e in
      let (rest, e3, e4) = bind-ok (dirs_from m left (ii + 1)) _ fs e2 in
      elim (with_dir-In f o rest (subst (In f) (sym (ok-injective (with_dir o rest) fs e4)) i)) [
        | inl d ↦ get_drive_dir-Sub ii o e1 f d
        | inr r ↦ dirs_from-Sub left (ii + 1) rest e3 f r
      ]
