-- ===== src/Mount/Options.antt =====
-- `fuser_mount_options` of src/bin/server/mount.rs.
use rs1541fs.Prelude.{String, Bool, List, [], ◌∷◌, ◌++◌, if◌then◌else◌}
use rs1541fs.Mount.State.{Mount, fs_name}

-- The options of fuser that the program names.
pub data MountOption : Type 0 where
  ro no_suid no_atime sync dir_sync no_dev allow_root auto_unmount : MountOption
  fsname subtype : String → MountOption

-- `Mount::fuser_mount_options`; the first argument is the server's argument of that name.
unfoldable pub fuser_mount_options : Bool → Mount → List MountOption
unfolding fs_name
fuser_mount_options autounmount m =
    (ro
      ∷ no_suid
      ∷ no_atime
      ∷ sync
      ∷ dir_sync
      ∷ no_dev
      ∷ fsname (fs_name m)
      ∷ subtype "1541fs"
      ∷ [])
    ++ (if autounmount then allow_root ∷ auto_unmount ∷ [] else [])
