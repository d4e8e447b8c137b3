-- ===== src/Fuser/Laws/Listing.antt =====
-- `readdir` lists the files among which `lookup` finds a name.
use rs1541fs.Prelude.{
  ℕ, String, ◌≡◌, refl, ◌⊎◌, inl, inr, Bool, true, false, List, [], drop, Option, none, some, arith,
  ltb, find, ◌==◌, nat_eq, Bool-cases, Option-cases, subst, ap, if◌then◌else◌,
}
use rs1541fs.Error.{Errno, ok-injective, Result, ok, err, panic, ◌>>=◌, bind-ok}
use rs1541fs.Bg.{Operation}
use rs1541fs.File.Entry.{FileEntry, fuse_root_id}
use rs1541fs.Mount.State.{Mount, num_drives, get_drive_files, should_refresh_dir}
use rs1541fs.Mount.Lookup.{file_by_inode, get_drive_num_by_inode}
use rs1541fs.Mount.Requests.{do_dir_sync}
use rs1541fs.Fuser.{Ttls, Timers, Counts, Reply, reply, error}
use rs1541fs.Fuser.Directory.{
  Listed, dirs, disk, refused, DirLine, dirs_from, files_in, has_name, entry_of, lookup, listed,
  list_disk, waited, all_lines, wait_for_dir_refresh, readdir_files, lines_from, no_drive, readdir,
}

-- A directory: the root, or, with more than one drive, any inode that has a drive's files.
abbrev pub CanList : Mount → ℕ → Type 0
CanList m ino = (ltb 1 (num_drives m) ≡ true) ⊎ ((num_drives m ≡ 1) × (ino ≡ fuse_root_id))

-- The files that `readdir` takes for a listing, at the mount `s`.
abbrev Gives : Mount → Listed → List FileEntry → Type 0
Gives s (dirs ds) files = ds ≡ files
Gives s (refused e) files = ⊥
Gives s (disk d) files = get_drive_files s d ≡ ok files

-- Only the files of a disk are taken at another mount than the first.
abbrev AtStart : Mount → Mount → Listed → Type 0
AtStart m s which = (s ≡ m) ⊎ ((d : ℕ) × (which ≡ disk d))

abbrev Answer : Type 0
Answer = Reply (List FileEntry) × Mount × List Operation

module _ (timers : Timers) (counts : Counts) (now : ℕ) (closed : Option String) where
  list_disk-Gives :
      (o : Option (Result Errno)) (s : Mount) (d : ℕ) (files : List FileEntry)
      → list_disk o s d ≡ ok (reply files)
      → get_drive_files s d ≡ ok files
  list_disk-Gives none s d files e =
      let (fs, e1, e2) = bind-ok (get_drive_files s d) _ (reply files) e in cc (e1, e2)
  list_disk-Gives (some (ok x)) s d files e = absurd (cc e)
  list_disk-Gives (some (err x)) s d files e = absurd (cc e)
  list_disk-Gives (some panic) s d files e = absurd (cc e)

  disk-Gives :
      (o : Option (Result Errno)) (s : Mount) (d : ℕ) (files : List FileEntry) (after : Mount)
      (queued : List Operation) (m' : Mount) (sent : List Operation)
      → ◌>>=◌ {B = Answer} (list_disk o s d) (λ files. ok (files, after, queued))
        ≡ ok (reply files, m', sent)
      → get_drive_files s d ≡ ok files
  disk-Gives o s d files after queued m' sent h =
      let (r, h1, h2) = bind-ok (list_disk o s d) _ (reply files, m', sent) h in
      list_disk-Gives o s d files (cc (h1, h2))

  readdir_files-Gives :
      (m last : Mount) (view : ℕ → ℕ × Mount) (which : Listed) (files : List FileEntry) (m' : Mount)
      (sent : List Operation)
      → readdir_files timers counts now closed m last view which ≡ ok (reply files, m', sent)
      → (s : Mount) × ((s ≡ m) ⊎ (s ≡ last)) × Gives s which files × AtStart m s which
  unfolding readdir_files
  readdir_files-Gives m last view (dirs ds) files m' sent e = (m, inl refl, cc e, inl refl)
  readdir_files-Gives m last view (refused x) files m' sent e = absurd (cc e)
  readdir_files-Gives m last view (disk d) files m' sent e =
      let (b, e1, e2) =
        bind-ok (should_refresh_dir now m d timers.dir_cache) _ (reply files, m', sent) e in
      by_age b e2
    where
      by_age :
          (b : Bool)
          → (if b
              then (let (result, after, queued) = do_dir_sync now closed false m in
                  ◌>>=◌ {B = Answer}
                    (list_disk
                      (waited result (wait_for_dir_refresh timers view d counts.dir_check 0))
                      last
                      d)
                    (λ files. ok (files, after, queued)))
              else ◌>>=◌ {B = Answer} (list_disk none m d) (λ files. ok (files, m, [])))
            ≡ ok (reply files, m', sent)
          → (s : Mount) × ((s ≡ m) ⊎ (s ≡ last))
            × (get_drive_files s d ≡ ok files)
            × AtStart m s (disk d)
      by_age true h = (last, inr refl, disk-Gives _ last d files _ _ m' sent h, inr (d, refl))
      by_age false h = (m, inl refl, disk-Gives none m d files _ _ m' sent h, inr (d, refl))

no_drive-Gives :
    (s : Mount) (files : List FileEntry) (o : Option FileEntry) → ¬ Gives s (no_drive o) files
no_drive-Gives s files none g = g
no_drive-Gives s files (some f) g = g

-- Where `readdir` takes its files from, `lookup` takes them too.
module _ (m s : Mount) (ino : ℕ) (which : Listed) (files : List FileEntry)
    (same_drives : num_drives s ≡ num_drives m) (l : listed m ino ≡ ok which)
    (g : Gives s which files) where
  -- The listing `w` that the code comes to is the one given.
  given : (w : Listed) → listed m ino ≡ ok w → Gives s w files
  given w e = subst (λ x. Gives s x files) (ok-injective which w (cc (l, e))) g

  only_drive : num_drives m ≡ 1 → ino ≡ fuse_root_id → files_in s ino ≡ ok (reply files)
  unfolding files_in listed
  only_drive one root =
      let found : get_drive_files s 0 ≡ ok files = given (disk 0) (rw one refl) in
      rw (same_drives, one, root, found) refl

  at_root :
      ltb 1 (num_drives m) ≡ true
      → (ino == fuse_root_id) ≡ true
      → AtStart m s which
      → files_in s ino ≡ ok (reply files)
  unfolding files_in listed
  at_root many e from =
      let all : (dirs_from m (num_drives m) 0 >>= λ ds. ok (dirs ds)) ≡ ok which = by_many l in
      let (ds, h1, h2) = bind-ok (dirs_from m (num_drives m) 0) _ which all in
      elim from [
        | inl same ↦
            let these : ds ≡ files = subst (λ x. Gives s x files) (which_is ds h2) g in
            rw (same, many, e, h1, these) refl
        | inr (d, w) ↦ absurd (cc (h2, w))
      ]
    where
      which_is : (ds : List FileEntry) → ok (dirs ds) ≡ ok which → which ≡ dirs ds
      which_is ds h = ok-injective which (dirs ds) (cc h)

      by_many :
          listed m ino ≡ ok which → (dirs_from m (num_drives m) 0 >>= λ ds. ok (dirs ds)) ≡ ok which
      by_many h = rw (many, e) at h

  below_root :
      ltb 1 (num_drives m) ≡ true
      → (ino == fuse_root_id) ≡ false
      → get_drive_num_by_inode s ino ≡ get_drive_num_by_inode m ino
      → files_in s ino ≡ ok (reply files)
  unfolding files_in listed
  below_root many e same_dirs = elim (Option-cases (get_drive_num_by_inode m ino)) [
    | inl none_found ↦ absurd (
        no_drive-Gives s files (file_by_inode m ino)
          (given (no_drive (file_by_inode m ino)) (rw (many, e, not_one many, none_found) refl)))
    | inr (d, at) ↦
        let found : get_drive_files s d ≡ ok files =
          given (disk d) (rw (many, e, not_one many, at) refl) in
        rw (e, same_drives, many, same_dirs, at, found) refl
  ]
    where
      not_one : ltb 1 (num_drives m) ≡ true → (num_drives m == 1) ≡ false
      not_one h = ground arith

  files_in-Gives :
      CanList m ino
      → get_drive_num_by_inode s ino ≡ get_drive_num_by_inode m ino
      → AtStart m s which
      → files_in s ino ≡ ok (reply files)
  files_in-Gives (inr (one, root)) same_dirs from = only_drive one root
  files_in-Gives (inl many) same_dirs from = elim (Bool-cases (ino == fuse_root_id)) [
    | inl e ↦ at_root many e from
    | inr e ↦ below_root many e same_dirs
  ]

module _ (timers : Timers) (counts : Counts) (now : ℕ) (closed : Option String) where
  -- At the root, or at any inode of a mount with more than one drive, if the wait for a re-read keeps
  -- the number of drives and the drive of the inode: the lines that `readdir` gives are those from the
  -- offset on of the files of one list, taken from the mount as it was before or after the wait, and
  -- `lookup` at that inode of that mount answers, for any name, with the first file of that name in the
  -- same list, or that there is none.
  pub readdir-lookup :
      (m last : Mount) (view : ℕ → ℕ × Mount) (ino offset : ℕ) (lines : List DirLine) (m' : Mount)
      (sent : List Operation)
      → CanList m ino
      → num_drives last ≡ num_drives m
      → get_drive_num_by_inode last ino ≡ get_drive_num_by_inode m ino
      → readdir timers counts now closed m last view ino offset ≡ ok (reply lines, m', sent)
      → (s : Mount) × (files : List FileEntry) × ((s ≡ m) ⊎ (s ≡ last))
        × (lines ≡ drop offset (lines_from 0 files))
        × ((later uid : ℕ) (ttls : Ttls) (name : String)
            → lookup later uid ttls s ino (some name)
              ≡ ok (entry_of later uid ttls (find (has_name name) files)))
  unfolding readdir lookup
  readdir-lookup m last view ino offset lines m' sent can same_drives same_dirs e =
      let (which, e1, e2) = bind-ok (listed m ino) _ (reply lines, m', sent) e in
      let (r, e3, e4) =
        bind-ok (readdir_files timers counts now closed m last view which) _ (reply lines, m', sent)
          e2 in
      by_reply which r.0 r.1 r.2 e1 e3 (ap (λ x. x.0) (ok-injective _ (reply lines, m', sent) e4))
    where
      kept :
          {A : Type 0} (g : Mount → A) (s : Mount) → g last ≡ g m → (s ≡ m) ⊎ (s ≡ last) → g s ≡ g m
      kept g s h (inl same) = ap g same
      kept g s h (inr same) = rw same h

      by_reply :
          (which : Listed) (r : Reply (List FileEntry)) (after : Mount) (queued : List Operation)
          → listed m ino ≡ ok which
          → readdir_files timers counts now closed m last view which ≡ ok (r, after, queued)
          → all_lines offset r ≡ reply lines
          → (s : Mount) × (files : List FileEntry) × ((s ≡ m) ⊎ (s ≡ last))
            × (lines ≡ drop offset (lines_from 0 files))
            × ((later uid : ℕ) (ttls : Ttls) (name : String)
                → lookup later uid ttls s ino (some name)
                  ≡ ok (entry_of later uid ttls (find (has_name name) files)))
      by_reply which (error x) after queued l h a = absurd (cc a)
      by_reply which (reply files) after queued l h a =
          let (s, place, g, start) =
            readdir_files-Gives timers counts now closed m last view which files after queued h in
          let found : files_in s ino ≡ ok (reply files) =
            files_in-Gives m s ino which files (kept num_drives s same_drives place) l g can
              (kept (λ x. get_drive_num_by_inode x ino) s same_dirs place) start in
          (s, files, place, cc a, λ later uid ttls name. rw found refl)
