-- ===== src/Tests/Mounts.antt =====
-- A mount of two disks, its inodes and its files.
use rs1541fs.Prelude.{
  ℕ, String, List, length, All, inl, ◌≡◌, ◌≢◌, refl, inr, false, [], ◌∷◌, none, some, arith,
  get_elem?, nat_eq, string_eq,
}
use rs1541fs.Prelude.Map.{get}
use rs1541fs.Error.{ok}
use rs1541fs.File.Entry.{FileEntry, inode, set_inode, from_control_file_purpose}
use rs1541fs.File.Control.{get_cur_drive_status}
use rs1541fs.File.DiskInfo.{new as new_disk, add_disk_dir, new_control_files}
use rs1541fs.Mount.State.{Mount, new, num_drives}
use rs1541fs.Mount.Inodes.{
  create_disk_info, new_disks, inode_disk_info, number_disks, number_disk, number_files,
}
use rs1541fs.Mount.Lookup.{file_by_inode}
use rs1541fs.Mount.Found.{file_by_inode-inode}
use rs1541fs.Mount.Listings.{process_directory_listings}
use rs1541fs.Mount.Unique.Numbering.{HasInodes}
use rs1541fs.Mount.Unique.Created.{create_disk_info-HasInodes}
use rs1541fs.Mount.Unique.Kept.{process_directory_listings-HasInodes}
use rs1541fs.Mount.Unique.Reached.{entries, file_by_inode-entries}
use rs1541fs.Drives.{Drives, add_drive}
use rs1541fs.Drives.Kept.{add_drive-get}
use rs1541fs.Service.{Service}
use rs1541fs.Bg.{OpResponse}
use rs1541fs.Bg.OpResponseType.{read_directory, read_file}
use rs1541fs.Mount.Requests.{do_dir_sync}
use rs1541fs.Mount.Responses.{handle_bg_responses}
use rs1541fs.Mount.Unique.Live.{
  IsLive, asked, created, ResponseFits, AnswerFits, handle_bg_responses-IsLive,
}
use rs1541fs.Tests.Fixtures.{good_status, bus, unit_8, listing, informed_mount, fresh_mount}

fresh-HasInodes : HasInodes fresh_mount.next_inode fresh_mount.disk_info
unfolding new num_drives
fresh-HasInodes = create_disk_info-HasInodes 100 informed_mount (omega arith) (omega arith)

process_directory_listings-HasInodes_example :
    (m' : Mount) × (process_directory_listings 200 (listing ∷ []) fresh_mount ≡ ok m')
    × HasInodes m'.next_inode m'.disk_info
unfolding create_disk_info inode_disk_info new_disks number_disks new num_drives
process_directory_listings-HasInodes_example =
    process_directory_listings-HasInodes 200 (listing ∷ []) fresh_mount fresh-HasInodes
      (inr (omega arith), tt)

abbrev status_file : FileEntry
status_file = set_inode (from_control_file_purpose 100 get_cur_drive_status 0) 256

status_file_first : get_elem? (entries fresh_mount.disk_info) 0 ≡ some status_file
unfolding create_disk_info inode_disk_info new_disks number_disks number_disk number_files new
    num_drives add_disk_dir new_disk new_control_files from_control_file_purpose
status_file_first = refl

file_by_inode-entries_example : file_by_inode fresh_mount (inode status_file) ≡ some status_file
file_by_inode-entries_example =
    file_by_inode-entries fresh_mount 0 status_file fresh-HasInodes status_file_first

file_by_inode-inode_example : inode status_file ≡ inode status_file
file_by_inode-inode_example =
    file_by_inode-inode fresh_mount (inode status_file) status_file
      (file_by_inode-entries fresh_mount 0 status_file fresh-HasInodes status_file_first)

abbrev no_drives : Drives
no_drives = []

add_drive-get_example :
    ((get 8 no_drives ≡ none) → (add_drive bus 8 no_drives).0 ≡ ok unit_8)
    × ((get 8 no_drives ≢ none) → (add_drive bus 8 no_drives).0 ≢ ok unit_8)
    × (get 8 (add_drive bus 8 no_drives).1 ≡ some unit_8)
    × ((j : ℕ) → 8 ≢ j → get j (add_drive bus 8 no_drives).1 ≡ get j no_drives)
add_drive-get_example = add_drive-get bus 8 unit_8 no_drives (omega arith) (omega arith) refl

abbrev mounted : Service
mounted = record { drives = (8, unit_8) ∷ []; mountpoints = ("/mnt/cbm", fresh_mount) ∷ [] }

abbrev dir_answer : OpResponse
dir_answer = record { rsp = inl (read_directory good_status (listing ∷ [])); stream = none }

abbrev clock : ℕ → String
clock _ = "now"

abbrev asked_mount : Mount
asked_mount = (do_dir_sync 150 none false fresh_mount).1

asked-IsLive : IsLive clock asked_mount
unfolding new num_drives
asked-IsLive =
    asked 150 none false fresh_mount (created 100 informed_mount (omega arith) (omega arith))

-- The directory, twice, and then a file.
abbrev answers : List (ℕ × OpResponse)
answers =
    (200, dir_answer)
    ∷ (210, dir_answer)
    ∷ (220, record { rsp = inl (read_file 8 "game" 258 good_status (1 ∷ 2 ∷ [])); stream = none })
    ∷ []

answers-fit : All (λ r. ResponseFits (length asked_mount.disk_info) r.1) answers
unfolding ResponseFits AnswerFits do_dir_sync create_disk_info inode_disk_info new_disks
    number_disks new num_drives
answers-fit = ((inr (omega arith), tt), ((inr (omega arith), tt), (tt, tt)))

handle_bg_responses-IsLive_example :
    (m' : Mount) × (handle_bg_responses clock answers asked_mount ≡ ok m')
    × IsLive clock m'
    × All (λ f. file_by_inode m' (inode f) ≡ some f) (entries m'.disk_info)
handle_bg_responses-IsLive_example =
    handle_bg_responses-IsLive clock answers asked_mount asked-IsLive answers-fit
