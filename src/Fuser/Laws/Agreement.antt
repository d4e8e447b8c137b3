-- ===== src/Fuser/Laws/Agreement.antt =====
-- The kernel's calls agree on a file: what `lookup` finds, `getattr` finds by its inode.
use rs1541fs.Prelude.{
  ℕ, String, ◌≡◌, ◌≢◌, refl, Bool, true, false, List, Option, none, some, arith, ap, sym, subst,
  ltb, find, count, ◌==◌, nat_eq, string_eq, eq_iff, if◌then◌else◌,
}
use rs1541fs.Error.{enoent, Duration, Result, ok, ◌>>=◌, bind-ok}
use rs1541fs.File.Entry.{FileEntry, FileAttr, file_attr, inode, fuse_root_id}
use rs1541fs.Mount.State.{Mount, num_drives, get_drive_files}
use rs1541fs.Mount.Lookup.{get_drive_num_by_inode}
use rs1541fs.Mount.Unique.Counting.{inodes}
use rs1541fs.Mount.Unique.Numbering.{HasInodes}
use rs1541fs.Mount.Unique.Reached.{
  entries, stands, count-entries, count-dirs, file_by_inode-entries,
}
use rs1541fs.Fuser.{Ttls, Reply, reply, error, ttl_and_attr, getattr}
use rs1541fs.Fuser.Directory.{
  dirs_from, files_of_drive, files_in, has_name, entry_of, entry_in, lookup,
}
use rs1541fs.Fuser.{is_directory}
use rs1541fs.Fuser.Laws.Entries.{In, Sub, find-In, ok-injective, get_drive_files-Sub, dirs_from-Sub}

reply-injective {ℓ} : {A : Type ℓ} (a b : A) → reply a ≡ reply b → a ≡ b
reply-injective a b e = cc e

module _ (m : Mount) where
  reply_files-Sub :
      (r : Result (List FileEntry)) (fs : List FileEntry)
      → ((gs : List FileEntry) → r ≡ ok gs → Sub gs (entries m.disk_info))
      → (r >>= λ files. ok (reply files)) ≡ ok (reply fs)
      → Sub fs (entries m.disk_info)
  reply_files-Sub r fs among e =
      let (gs, e1, e2) = bind-ok r _ (reply fs) e in
      subst (λ x. Sub x (entries m.disk_info)) (cc e2) (among gs e1)

  drive_files-Sub :
      (o : Option ℕ) (fs : List FileEntry)
      → files_of_drive m o ≡ ok (reply fs)
      → Sub fs (entries m.disk_info)
  drive_files-Sub none fs e = absurd (cc e)
  drive_files-Sub (some k) fs e =
      reply_files-Sub (get_drive_files m k) fs (get_drive_files-Sub m k) e

  root_files-Sub :
      (b : Bool) (gs : List FileEntry)
      → (if b then dirs_from m (num_drives m) 0 else get_drive_files m 0) ≡ ok gs
      → Sub gs (entries m.disk_info)
  root_files-Sub true gs e = dirs_from-Sub m (num_drives m) 0 gs e
  root_files-Sub false gs e = get_drive_files-Sub m 0 gs e

  below_files-Sub :
      (b : Bool) (parent : ℕ) (fs : List FileEntry)
      → (if b then files_of_drive m (get_drive_num_by_inode m parent) else ok (error enoent))
        ≡ ok (reply fs)
      → Sub fs (entries m.disk_info)
  below_files-Sub true parent fs e = drive_files-Sub (get_drive_num_by_inode m parent) fs e
  below_files-Sub false parent fs e = absurd (cc e)

  files_in-Sub :
      (parent : ℕ) (fs : List FileEntry)
      → files_in m parent ≡ ok (reply fs)
      → Sub fs (entries m.disk_info)
  unfolding files_in
  files_in-Sub parent fs e = by_root (parent == fuse_root_id) e
    where
      by_root :
          (b : Bool)
          → (if b
              then ((if ltb 1 (num_drives m)
                    then dirs_from m (num_drives m) 0
                    else get_drive_files m 0)
                  >>= λ files. ok (reply files))
              else if ltb 1 (num_drives m)
              then files_of_drive m (get_drive_num_by_inode m parent)
              else ok (error enoent))
            ≡ ok (reply fs)
          → Sub fs (entries m.disk_info)
      by_root true h = reply_files-Sub _ fs (root_files-Sub (ltb 1 (num_drives m))) h
      by_root false h = below_files-Sub (ltb 1 (num_drives m)) parent fs h

  -- No entry has the root's inode.
  not_root :
      (f : FileEntry)
      → HasInodes m.next_inode m.disk_info
      → In f (entries m.disk_info)
      → inode f ≢ fuse_root_id
  not_root f v (k, at) same = absurd (
      ground (
        arith,
        stands k (entries m.disk_info) f at,
        ap (λ i. count i (inodes (entries m.disk_info))) same,
        count-entries fuse_root_id m.disk_info,
        count-dirs fuse_root_id 0 m.disk_info v.all_dirs,
        v.may_wait.low fuse_root_id,
      ))

  found-getattr :
      (now uid : ℕ) (ttls : Ttls) (f : FileEntry)
      → HasInodes m.next_inode m.disk_info
      → In f (entries m.disk_info)
      → getattr now uid ttls m (inode f)
        ≡ reply (ttl_and_attr now uid ttls.dir_attr ttls.file_attr f)
  unfolding getattr
  found-getattr now uid ttls f v (k, at) =
      rw (not_beq (inode f) (not_root f v (k, at)), file_by_inode-entries m k f v at) refl
    where
      not_beq : (i : ℕ) → i ≢ fuse_root_id → (i == fuse_root_id) ≡ false
      not_beq i h = ground arith

  -- On a mount with unique inodes, a name that `lookup` finds belongs to a file of that name, and
  -- `getattr` for the inode that it gives answers with the same attributes.
  pub lookup-getattr :
      (now uid : ℕ) (ttls : Ttls) (parent : ℕ) (name : String) (ttl : Duration) (attr : FileAttr)
      → HasInodes m.next_inode m.disk_info
      → lookup now uid ttls m parent (some name) ≡ ok (reply (ttl, attr))
      → (f : FileEntry) × (f.fuse.name ≡ name)
        × (attr ≡ file_attr now uid f)
        × (getattr now uid ttls m attr.ino
            ≡ reply (if is_directory f.native then ttls.dir_attr else ttls.file_attr, attr))
  unfolding lookup file_attr
  lookup-getattr now uid ttls parent name ttl attr v e =
      let (r, e1, e2) = bind-ok (files_in m parent) _ (reply (ttl, attr)) e in
      by_files r e1 (ok-injective _ _ e2)
    where
      by_found :
          (fs : List FileEntry) (o : Option FileEntry)
          → Sub fs (entries m.disk_info)
          → find (has_name name) fs ≡ o
          → entry_of now uid ttls o ≡ reply (ttl, attr)
          → (f : FileEntry) × (f.fuse.name ≡ name)
            × (attr ≡ file_attr now uid f)
            × (getattr now uid ttls m attr.ino
                ≡ reply (if is_directory f.native then ttls.dir_attr else ttls.file_attr, attr))
      by_found fs none among found h = absurd (cc h)
      by_found fs (some f) among found h =
          let (i, named) = find-In (has_name name) fs f found in
          let same = attr_is f h in
          (
            f,
            (eq_iff f.fuse.name name).0 named,
            same,
            subst
                (λ a.
                  getattr now uid ttls m a.ino
                  ≡ reply (if is_directory f.native then ttls.dir_attr else ttls.file_attr, a))
                (sym same) (found-getattr now uid ttls f v (among f i)),
          )
        where
          attr_is :
              (f : FileEntry)
              → reply (ttl_and_attr now uid ttls.dir_lookup ttls.file_lookup f) ≡ reply (ttl, attr)
              → attr ≡ file_attr now uid f
          attr_is f h = sym (ap (λ t. t.1) (reply-injective _ _ h))

      by_files :
          (r : Reply (List FileEntry))
          → files_in m parent ≡ ok r
          → entry_in now uid ttls name r ≡ reply (ttl, attr)
          → (f : FileEntry) × (f.fuse.name ≡ name)
            × (attr ≡ file_attr now uid f)
            × (getattr now uid ttls m attr.ino
                ≡ reply (if is_directory f.native then ttls.dir_attr else ttls.file_attr, attr))
      by_files (error x) e1 h = absurd (cc h)
      by_files (reply fs) e1 h =
          by_found fs (find (has_name name) fs) (files_in-Sub parent fs e1) refl h
