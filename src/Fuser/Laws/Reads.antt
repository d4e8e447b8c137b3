-- ===== src/Fuser/Laws/Reads.antt =====
-- Reads: from the cache, and through the background processor.
use rs1541fs.Prelude.{
  ℕ, ◌+◌, ◌-◌, ◌<◌, ◌≤◌, String, ◌≡◌, refl, inl, inr, Bool, true, false, List, [], ◌∷◌, Option,
  none, some, arith, ap, ◌∙◌, take, drop, leb, Bool-cases, lt→ltb,
}
use rs1541fs.Error.{ok}
use rs1541fs.Rs1541.{CbmStatus, CbmFileEntry, CbmFileType, valid_file}
use rs1541fs.Bg.{OpResponseType, new_operation}
use rs1541fs.File.Buffer.{usize_end, read_range-take-drop}
use rs1541fs.File.Cache.{new, get_data-set_data_complete}
use rs1541fs.File.Entry.{FileEntry, cbm_file, inode}
use rs1541fs.Mount.State.{Mount}
use rs1541fs.Mount.Lookup.{file_by_inode, change_file}
use rs1541fs.Mount.Found.{changed, file_by_inode-change_file}
use rs1541fs.Mount.Requests.{
  read_file_sync, request_file, device_path, in_progress, set_cache, read_op,
}
use rs1541fs.Mount.Responses.{process_bg_response, process_response_type, cache_response, or_new}
use rs1541fs.Fuser.{Timers, Counts, reply}
use rs1541fs.Fuser.Reading.{fresh_data, data_at_once, read, sees_data}

-- A file of a disk whose whole contents are in its cache and fresh: the read answers with the asked
-- part of the contents, changes nothing and sends nothing.
read-cached :
    (timers : Timers) (counts : Counts) (now : ℕ) (closed : Option String) (m : Mount)
    (view : ℕ → ℕ × Mount) (ino offset size : ℕ) (f : FileEntry) (file : CbmFileEntry)
    (contents : List ℕ)
    → file_by_inode m ino ≡ some f
    → f.native ≡ cbm_file file
    → fresh_data timers now f.cache ≡ some contents
    → offset + size < usize_end
    → read timers counts now closed m view ino offset size
      ≡ (ok (reply (take size (drop offset contents))), m, [])
unfolding read data_at_once
read-cached timers counts now closed m view ino offset size f file contents found native fresh
      fits =
    rw (found, native, fresh, read_range-take-drop contents offset size fits) refl

-- A read of a file of the disk with nothing in progress sends one operation, of normal priority or
-- low for a read ahead, and starts an empty cache.
read_file_sync-sends :
    (now ino : ℕ) (cache : Bool) (m : Mount) (f : FileEntry) (t : CbmFileType) (path : String)
    (blocks : ℕ) (max_size : Option ℕ)
    → file_by_inode m ino ≡ some f
    → f.native ≡ cbm_file (valid_file t path blocks max_size)
    → in_progress f.cache ≡ false
    → (read_file_sync now none ino cache m ≡ (
      ok tt,
      change_file ino (set_cache (some (new now))) m,
      new_operation now (read_op m.device_num path ino cache) m.bg_rsp_tx none ∷ [],
    ))
      × (file_by_inode (change_file ino (set_cache (some (new now))) m) ino
          ≡ some (set_cache (some (new now)) f))
unfolding read_file_sync device_path request_file
read_file_sync-sends now ino cache m f t path blocks max_size found native idle = (
  rw (read_file_sync, found, device_path, native, idle) refl,
  file_by_inode-change_file ino (set_cache (some (new now))) (λ _. refl) m ∙ ap (changed _) found,
)

-- The processor's answer to that read: if its status is good, the bytes that it brings are what any
-- check sees until they are as old as the cache duration, whatever was in the cache before.
pub process_bg_response-sees_data :
    (format_time : ℕ → String) (timers : Timers) (now later device ino : ℕ) (path : String)
    (status : CbmStatus) (contents : List ℕ) (stream : Option ℕ) (m : Mount) (f : FileEntry)
    → file_by_inode m ino ≡ some f
    → status.is_ok ≡ true
    → now ≤ later
    → later - now < timers.file_cache
    → (m' : Mount) × (process_bg_response format_time now
          (record {
            rsp = inl (OpResponseType.read_file device path ino status contents);
            stream = stream;
          })
          m
        ≡ ok m')
      × (sees_data timers ino (later, m') ≡ some contents)
unfolding process_bg_response process_response_type cache_response sees_data
process_bg_response-sees_data format_time timers now later device ino path status contents stream m
      f found good order young =
    (
      change_file ino (cache_response now status contents) m,
      refl,
      rw
          (
            file_by_inode-change_file ino (cache_response now status contents)
                (same_inode now status contents) m,
            found,
            good,
          )
          ((get_data-set_data_complete now later (or_new now f.cache) contents timers.file_cache).0
            ∙ rw (le→leb now later order, lt→ltb (later - now) timers.file_cache young) refl),
    )
  where
    same_inode :
        (now : ℕ) (status : CbmStatus) (contents : List ℕ) (f : FileEntry)
        → inode (cache_response now status contents f) ≡ inode f
    same_inode now status contents f = elim (Bool-cases status.is_ok) [
      | inl e ↦ rw e refl
      | inr e ↦ rw e refl
    ]

    le→leb : (a b : ℕ) → a ≤ b → leb a b ≡ true
    le→leb a b h = ground arith
