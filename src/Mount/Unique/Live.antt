-- ===== src/Mount/Unique/Live.antt =====
-- The states a mount goes through while it is used: its disks are created, its listings and files
-- are asked for, and the answers are taken in.
use rs1541fs.Prelude.{
  ℕ, ◌≤◌, ◌≡◌, refl, inl, inr, Bool, false, String, List, [], ◌∷◌, Option, none, some, Option-cases,
  ◌⊎◌, length, All, All-each, Bool-cases, not, ◌||◌, ◌&&◌, subst, sym, ◌∙◌,
}
use rs1541fs.Error.{Error, Result, ok, err, panic, ok-injective}
use rs1541fs.Rs1541.{CbmStatus}
use rs1541fs.Bg.{OpResponseType, OpResponse}
use rs1541fs.File.Entry.{FileEntry, inode}
use rs1541fs.Mount.State.{Mount, first_file_ino, num_drives, set_dir_outstanding}
use rs1541fs.Mount.Lookup.{file_by_inode}
use rs1541fs.Mount.Inodes.{create_disk_info}
use rs1541fs.Mount.Listings.{update_last_status}
use rs1541fs.Mount.Requests.{
  do_dir_sync, in_progress, read_file_sync, request_file, device_path, send_sync_to_bg_proc,
}
use rs1541fs.Mount.Responses.{
  cache_response, process_response_type, process_bg_response, handle_bg_responses,
}
use rs1541fs.Mount.Unique.Numbering.{HasInodes}
use rs1541fs.Mount.Unique.Created.{create_disk_info-HasInodes}
use rs1541fs.Mount.Unique.Kept.{Fits, MountContinues, process_directory_listings-MountContinues}
use rs1541fs.Mount.Unique.Reached.{entries, file_by_inode-entries}
use rs1541fs.Mount.Unique.Alike.{change_file-HasInodes, length-change_file}

abbrev pub Numbered : Mount → Type 0
Numbered m = HasInodes m.next_inode m.disk_info

-- Every listing of a response is of a drive that the mount has, or of a number it skips.
unfoldable pub AnswerFits : ℕ → OpResponseType → Type 0
AnswerFits drives (OpResponseType.read_directory status listings) = All (Fits drives) listings
AnswerFits drives _ = Unit

unfoldable pub ResponseFits : ℕ → OpResponse → Type 0
unfolding AnswerFits
ResponseFits drives response = elim response.rsp [ inr e ↦ Unit | inl rsp ↦ AnswerFits drives rsp ]

do_dir_sync-Numbered :
    (now : ℕ) (closed : Option String) (force : Bool) (m : Mount)
    → Numbered m
    → Numbered (do_dir_sync now closed force m).1
unfolding do_dir_sync send_sync_to_bg_proc
do_dir_sync-Numbered now none force m v = elim (Bool-cases (force || not m.dir_outstanding)) [
  | inl e ↦ rw e v
  | inr e ↦ rw e v
]
do_dir_sync-Numbered now (some x) force m v = elim (Bool-cases (force || not m.dir_outstanding)) [
  | inl e ↦ rw e v
  | inr e ↦ rw e v
]

request_file-Numbered :
    (now : ℕ) (closed : Option String) (ino : ℕ) (cache : Bool) (m : Mount) (f : FileEntry)
    (path : Result String)
    → Numbered m
    → Numbered (request_file now closed ino cache m f path).1
unfolding request_file send_sync_to_bg_proc
request_file-Numbered now closed ino cache m f panic v = v
request_file-Numbered now closed ino cache m f (err e) v = v
request_file-Numbered now none ino cache m f (ok path) v =
    elim (Bool-cases (in_progress f.cache && cache)) [
      | inl e ↦ rw e v
      | inr e ↦ rw e (change_file-HasInodes ino _ (λ x. refl) m v)
    ]
request_file-Numbered now (some x) ino cache m f (ok path) v =
    elim (Bool-cases (in_progress f.cache && cache)) [
      | inl e ↦ rw e v
      | inr e ↦ rw e (change_file-HasInodes ino _ (λ x. refl) m v)
    ]

read_file_sync-Numbered :
    (now : ℕ) (closed : Option String) (ino : ℕ) (cache : Bool) (m : Mount)
    → Numbered m
    → Numbered (read_file_sync now closed ino cache m).1
unfolding read_file_sync
read_file_sync-Numbered now closed ino cache m v = elim (Option-cases (file_by_inode m ino)) [
  | inl e ↦ rw (read_file_sync, e) v
  | inr (f, e) ↦
      rw (read_file_sync, e) (request_file-Numbered now closed ino cache m f (device_path f) v)
]

inode-cache_response :
    (now : ℕ) (status : CbmStatus) (contents : List ℕ) (f : FileEntry)
    → inode (cache_response now status contents f) ≡ inode f
unfolding cache_response
inode-cache_response now status contents f = elim (Bool-cases status.is_ok) [
  | inl e ↦ rw e refl
  | inr e ↦ rw e refl
]

module _ (format_time : ℕ → String) where
  process_response_type-MountContinues :
      (now : ℕ) (rsp : OpResponseType) (m : Mount)
      → AnswerFits (length m.disk_info) rsp
      → Numbered m
      → MountContinues m (process_response_type format_time now rsp m)
  unfolding process_response_type AnswerFits update_last_status
  process_response_type-MountContinues now (OpResponseType.read_directory status listings) m fits
        v =
      let (m', e, v', same) =
        process_directory_listings-MountContinues now listings (set_dir_outstanding false m) v
          fits in
      (update_last_status format_time now status m', rw e refl, v', same)
  process_response_type-MountContinues now (OpResponseType.read_file _ path ino status contents) m
        fits v =
      let cached = cache_response now status contents in
      let same = inode-cache_response now status contents in
      (_, refl, change_file-HasInodes ino cached same m v, length-change_file ino cached same m)
  process_response_type-MountContinues now OpResponseType.bus_reset m fits v = (m, refl, v, refl)
  process_response_type-MountContinues now OpResponseType.mount m fits v = (m, refl, v, refl)
  process_response_type-MountContinues now OpResponseType.unmount m fits v = (m, refl, v, refl)
  process_response_type-MountContinues now (OpResponseType.write_file _ _ _ _) m fits v =
      (m, refl, v, refl)
  process_response_type-MountContinues now (OpResponseType.init_drive _) m fits v =
      (m, refl, v, refl)
  process_response_type-MountContinues now (OpResponseType.identify _) m fits v = (m, refl, v, refl)
  process_response_type-MountContinues now (OpResponseType.get_status _) m fits v =
      (m, refl, v, refl)
  process_response_type-MountContinues now (OpResponseType.read_file_cache _ _ _ _ _) m fits v =
      (m, refl, v, refl)
  process_response_type-MountContinues now (OpResponseType.cancel_device_cache _) m fits v =
      (m, refl, v, refl)

  by_answer :
      (now : ℕ) (answer : OpResponseType ⊎ Error) (s : Option ℕ) (m : Mount)
      → ResponseFits (length m.disk_info) (record { rsp = answer; stream = s })
      → Numbered m
      → MountContinues m
          (process_bg_response format_time now (record { rsp = answer; stream = s }) m)
  unfolding process_bg_response ResponseFits
  by_answer now (inr e) s m fits v = (m, refl, v, refl)
  by_answer now (inl rsp) s m fits v = process_response_type-MountContinues now rsp m fits v

  -- The states of a mount in use: a mount whose disks were created, and what it becomes when a listing
  -- or a file is asked for and when a response that fits is taken in.
  pub data IsLive : Mount → Type 0 where
    created :
        (now : ℕ) (m : Mount)
        → first_file_ino ≤ m.next_inode
        → num_drives m ≤ 254
        → IsLive (create_disk_info now m)
    asked :
        (now : ℕ) (closed : Option String) (force : Bool) (m : Mount)
        → IsLive m
        → IsLive (do_dir_sync now closed force m).1
    fetched :
        (now : ℕ) (closed : Option String) (ino : ℕ) (cache : Bool) (m : Mount)
        → IsLive m
        → IsLive (read_file_sync now closed ino cache m).1
    answered :
        (now : ℕ) (response : OpResponse) (m m' : Mount)
        → IsLive m
        → ResponseFits (length m.disk_info) response
        → process_bg_response format_time now response m ≡ ok m'
        → IsLive m'

  IsLive-Numbered : (m : Mount) → IsLive m → Numbered m
  IsLive-Numbered _ (created now m s few) = create_disk_info-HasInodes now m s few
  IsLive-Numbered _ (asked now closed force m l) =
      do_dir_sync-Numbered now closed force m (IsLive-Numbered m l)
  IsLive-Numbered _ (fetched now closed ino cache m l) =
      read_file_sync-Numbered now closed ino cache m (IsLive-Numbered m l)
  IsLive-Numbered _ (answered now response m m' l fits e) =
      let (m'', e', v, same) =
        by_answer now response.rsp response.stream m fits (IsLive-Numbered m l) in
      subst Numbered (ok-injective _ _ (sym e' ∙ e)) v

  handle-IsLive :
      (responses : List (ℕ × OpResponse)) (m : Mount)
      → IsLive m
      → All (λ r. ResponseFits (length m.disk_info) r.1) responses
      → (m' : Mount) × (handle_bg_responses format_time responses m ≡ ok m') × IsLive m'
  unfolding handle_bg_responses
  handle-IsLive [] m l fits = (m, refl, l)
  handle-IsLive ((now, response) ∷ responses) m l (fit, fits) =
      let (m', e, v, same) =
        by_answer now response.rsp response.stream m fit (IsLive-Numbered m l) in
      let (m'', e', l') =
        handle-IsLive responses m' (answered now response m m' l fit e) (rw same fits) in
      (m'', rw (e, e') refl, l')

  -- In every state that a mount gets to from the creation of its disks (at most 254 drives, the next
  -- inode not below the first for files) by requests for listings and files and by responses whose
  -- listings are of drives it has or of numbers it skips, the thread that takes in the responses does
  -- not panic on any further such responses, in any order, and they lead to such a state, in which
  -- every entry on the disks is what `file_by_inode` gives for the entry's inode.
  pub handle_bg_responses-IsLive :
      (responses : List (ℕ × OpResponse)) (m : Mount)
      → IsLive m
      → All (λ r. ResponseFits (length m.disk_info) r.1) responses
      → (m' : Mount) × (handle_bg_responses format_time responses m ≡ ok m')
        × IsLive m'
        × All (λ f. file_by_inode m' (inode f) ≡ some f) (entries m'.disk_info)
  handle_bg_responses-IsLive responses m l fits =
      let (m', e, l') = handle-IsLive responses m l fits in
      let v = IsLive-Numbered m' l' in
      (m', e, l', All-each _ (entries m'.disk_info) (λ k f. file_by_inode-entries m' k f v))
