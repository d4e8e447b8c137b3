-- ===== src/Tests/Lookups.antt =====
-- A lookup in the root of a mount with two disks, and the listing of one of them after a re-read.
use rs1541fs.Prelude.{
  ℕ, zero, suc, String, ◌≡◌, refl, ◌⊎◌, inl, false, [], ◌∷◌, List, none, some, find, drop,
  to_string, arith, if◌then◌else◌,
}
use rs1541fs.Error.{ok}
use rs1541fs.File.Entry.{
  FileEntry, set_inode, from_directory, file_attr, regular_file, fuser_file_type,
}
use rs1541fs.File.DiskInfo.{DiskInfo, new as new_disk, add_disk_dir}
use rs1541fs.Mount.State.{
  Mount, new, num_drives, get_drive_dir, get_drive_files, should_refresh_dir,
}
use rs1541fs.Mount.Lookup.{file_by_inode, file_on_disks, file_on_disk, get_drive_num_by_inode}
use rs1541fs.Mount.Requests.{do_dir_sync}
use rs1541fs.Mount.Inodes.{create_disk_info, new_disks, inode_disk_info, number_disks, number_disk}
use rs1541fs.Mount.Unique.Numbering.{HasInodes}
use rs1541fs.Mount.Unique.Created.{create_disk_info-HasInodes}
use rs1541fs.Fuser.{Ttls, reply, getattr, is_directory}
use rs1541fs.Fuser.Directory.{
  lookup, files_in, dirs_from, has_name, entry_of, readdir, listed, readdir_files,
  wait_for_dir_refresh, sees_fresh, lines_from,
}
use rs1541fs.Fuser.Laws.Agreement.{lookup-getattr}
use rs1541fs.Fuser.Laws.Waiting.{WaitsDir, wait_for_dir_refresh-WaitsDir}
use rs1541fs.Fuser.Laws.Listing.{readdir-lookup}
use rs1541fs.Tests.Kernel.{timers, counts, game_file}
use rs1541fs.Tests.Fixtures.{informed_mount, fresh_mount}

two_dirs-HasInodes : HasInodes fresh_mount.next_inode fresh_mount.disk_info
unfolding new num_drives
two_dirs-HasInodes = create_disk_info-HasInodes 100 informed_mount (omega arith) (omega arith)

abbrev ttls : Ttls
ttls = record { dir_lookup = 1; file_lookup = 2; dir_attr = 3; file_attr = 4 }

abbrev first_dir : FileEntry
first_dir = set_inode (from_directory 100 0 0) 2

looked_up :
    lookup 300 1000 ttls fresh_mount 1 (some "0") ≡ ok (reply (1, file_attr 300 1000 first_dir))
unfolding lookup files_in dirs_from create_disk_info inode_disk_info new_disks number_disks
    number_disk new num_drives add_disk_dir new_disk from_directory get_drive_dir to_string
looked_up = refl

lookup-getattr_example :
    (f : FileEntry) × (f.fuse.name ≡ "0")
    × (file_attr 300 1000 first_dir ≡ file_attr 300 1000 f)
    × (getattr 300 1000 ttls fresh_mount (file_attr 300 1000 first_dir).ino
        ≡ reply (if is_directory f.native then 3 else 4, file_attr 300 1000 first_dir))
lookup-getattr_example =
    lookup-getattr fresh_mount 300 1000 ttls 1 "0" 1 (file_attr 300 1000 first_dir)
      two_dirs-HasInodes looked_up

abbrev disk_at : ℕ → List FileEntry → DiskInfo
disk_at read_time files = record {
  drive_num = 0;
  header = none;
  blocks_free = none;
  disk_dir = some first_dir;
  control_files = [];
  cbm_files = files;
  xattrs = [];
  disk_read_time = some read_time;
}

abbrev with_files : ℕ → List FileEntry → Mount
with_files read_time files = record informed_mount {
  disk_info = disk_at read_time files ∷ new_disk 40 1 ∷ [];
}

-- The disk has been read too long ago, and the re-read finds a file.
abbrev before : Mount
before = with_files 40 []

abbrev after : Mount
after = with_files 20050 (game_file none ∷ [])

listed_game :
    readdir timers counts 20000 none before after (λ _. (20100, after)) 2 0
    ≡ ok (
      reply ((300, 1, regular_file, "game.prg") ∷ []),
      (do_dir_sync 20000 none false before).1,
      (do_dir_sync 20000 none false before).2,
    )
unfolding readdir listed readdir_files wait_for_dir_refresh sees_fresh lines_from should_refresh_dir
    get_drive_files get_drive_num_by_inode file_by_inode file_on_disks file_on_disk num_drives new
    from_directory do_dir_sync fuser_file_type
listed_game = refl

readdir-lookup_example :
    (s : Mount) × (files : List FileEntry) × ((s ≡ before) ⊎ (s ≡ after))
    × (((300, 1, regular_file, "game.prg") ∷ []) ≡ drop 0 (lines_from 0 files))
    × ((later uid : ℕ) (given_ttls : Ttls) (name : String)
        → lookup later uid given_ttls s 2 (some name)
          ≡ ok (entry_of later uid given_ttls (find (has_name name) files)))
unfolding new num_drives get_drive_num_by_inode file_by_inode file_on_disks file_on_disk
readdir-lookup_example =
    readdir-lookup timers counts 20000 none before after (λ _. (20100, after)) 2 0
      ((300, 1, regular_file, "game.prg") ∷ []) (do_dir_sync 20000 none false before).1
      (do_dir_sync 20000 none false before).2 (inl refl) refl refl listed_game

-- A directory that is read between the first check and the second.
abbrev read_between : ℕ → ℕ × Mount
read_between zero = (100, fresh_mount)
read_between (suc n) = (200, record fresh_mount { disk_info = disk_at 150 [] ∷ [] })

wait_for_dir_refresh-WaitsDir_example :
    WaitsDir timers read_between 0 3 0 (wait_for_dir_refresh timers read_between 0 3 0)
wait_for_dir_refresh-WaitsDir_example = wait_for_dir_refresh-WaitsDir timers read_between 0 3

read_between-refreshed : wait_for_dir_refresh timers read_between 0 3 0 ≡ ok tt
unfolding wait_for_dir_refresh sees_fresh create_disk_info inode_disk_info new_disks number_disks
    new num_drives number_disk add_disk_dir new_disk
read_between-refreshed = refl
