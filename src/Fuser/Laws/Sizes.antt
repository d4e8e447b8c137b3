-- ===== src/Fuser/Laws/Sizes.antt =====
-- The size protocol of the calls for extended attributes.
use rs1541fs.Prelude.{
  ℕ, ◌<◌, ◌≤◌, ◌^◌, ◌%◌, String, ◌≡◌, refl, inl, inr, List, Option, none, some, arith, sym, ◌∙◌,
  length, ◌==◌, nat_eq, Bool-cases,
}
use rs1541fs.Error.{enoent, enodata, erange, Result, ok, err, panic, ◌>>=◌}
use rs1541fs.File.Entry.{fuse_root_id, FileEntry}
use rs1541fs.Mount.State.{Mount}
use rs1541fs.Mount.Lookup.{file_by_inode}
use rs1541fs.Fuser.{Reply, reply, error}
use rs1541fs.Fuser.Attributes.{
  XattrReply, size, value, sized, listxattr, getxattr, root_list, root_get, list_found, get_found,
  entry_list, entry_get, answered,
}
use rs1541fs.File.Xattr.{getxattr_from_vec, drive_xattr}

-- A call by the room that the caller has: what it found does not depend on the room.
abbrev with_room : ℕ → Reply (List ℕ) → Reply XattrReply
with_room room (reply found) = sized room found
with_room room (error e) = error e

abbrev Protocol : (ℕ → Result (Reply XattrReply)) → Type 0
Protocol call =
    (r : Result (Reply (List ℕ))) × ((room : ℕ) → call room ≡ (r >>= λ a. ok (with_room room a)))

bind-Protocol : (r : Result (List ℕ)) → Protocol (λ room. r >>= λ found. ok (sized room found))
bind-Protocol (ok found) = (ok (reply found), λ _. refl)
bind-Protocol (err e) = (err e, λ _. refl)
bind-Protocol panic = (panic, λ _. refl)

bind_option-Protocol :
    (r : Result (Option (List ℕ))) → Protocol (λ room. r >>= λ v. ok (answered room v))
bind_option-Protocol (ok none) = (ok (error enodata), λ _. refl)
bind_option-Protocol (ok (some found)) = (ok (reply found), λ _. refl)
bind_option-Protocol (err e) = (err e, λ _. refl)
bind_option-Protocol panic = (panic, λ _. refl)

-- What the caller may conclude from a size: with at least that room it gets bytes of that length, with
-- less, but some, ERANGE.
abbrev pub KeepsSize : (ℕ → Result (Reply XattrReply)) → ℕ → Type 0
KeepsSize call n =
    (found : List ℕ) × (length found % 2 ^ 32 ≡ n)
    × ((room : ℕ) → 0 < room → n ≤ room → call room ≡ ok (reply (value found)))
    × ((room : ℕ) → 0 < room → room < n → call room ≡ ok (error erange))

sized-KeepsSize :
    (n : ℕ) (found : List ℕ)
    → sized 0 found ≡ reply (size n)
    → KeepsSize (λ room. ok (sized room found)) n
unfolding sized
sized-KeepsSize n found e = (
  found,
  length_is n (length found % 2 ^ 32) e,
  λ room p h. ground (arith, length_is n (length found % 2 ^ 32) e),
  λ room p h. ground (arith, length_is n (length found % 2 ^ 32) e),
)
  where
    length_is : (n k : ℕ) → reply (size k) ≡ reply (size n) → k ≡ n
    length_is n k e = cc e

with_room-KeepsSize :
    (n : ℕ) (r : Result (Reply (List ℕ)))
    → (r >>= λ a. ok (with_room 0 a)) ≡ ok (reply (size n))
    → KeepsSize (λ room. r >>= λ a. ok (with_room room a)) n
with_room-KeepsSize n (ok (reply found)) e = sized-KeepsSize n found (cc e)
with_room-KeepsSize n (ok (error x)) e = absurd (cc e)
with_room-KeepsSize n (err x) e = absurd (cc e)
with_room-KeepsSize n panic e = absurd (cc e)

Protocol-KeepsSize :
    (call : ℕ → Result (Reply XattrReply)) (n : ℕ)
    → Protocol call
    → call 0 ≡ ok (reply (size n))
    → KeepsSize call n
Protocol-KeepsSize call n (r, same) e =
    let (found, l, gives, fails) = with_room-KeepsSize n r (sym (same 0) ∙ e) in
    (found, l, λ room p h. same room ∙ gives room p h, λ room p h. same room ∙ fails room p h)

module _ (format_time : ℕ → String) (m : Mount) where
  list_found-Protocol : (o : Option FileEntry) → Protocol (λ room. list_found format_time m room o)
  list_found-Protocol none = (ok (error enoent), λ _. refl)
  list_found-Protocol (some f) = bind-Protocol (entry_list format_time m f f.native)

  get_found-Protocol :
      (name : String) (o : Option FileEntry)
      → Protocol (λ room. get_found format_time m name room o)
  get_found-Protocol name none = (ok (error enoent), λ _. refl)
  get_found-Protocol name (some f) = bind_option-Protocol (entry_get format_time m f name f.native)

  listxattr-Protocol : (ino : ℕ) → Protocol (λ room. listxattr format_time m ino room)
  unfolding listxattr
  listxattr-Protocol ino = elim (Bool-cases (ino == fuse_root_id)) [
    | inl e ↦ rw e (bind-Protocol (root_list format_time m))
    | inr e ↦ rw e (list_found-Protocol (file_by_inode m ino))
  ]

  getxattr-Protocol :
      (ino : ℕ) (name : Option String) → Protocol (λ room. getxattr format_time m ino name room)
  unfolding getxattr
  getxattr-Protocol ino none = (ok (error enodata), λ _. refl)
  getxattr-Protocol ino (some name) = elim (Bool-cases (ino == fuse_root_id)) [
    | inl e ↦ rw e (
        bind_option-Protocol (
          root_get format_time m name
            (getxattr_from_vec (drive_xattr format_time) m.drive_xattrs name)))
    | inr e ↦ rw e (get_found-Protocol name (file_by_inode m ino))
  ]

  -- If a call of `listxattr` with no room answers with a size, the same call with room gives bytes
  -- of that length (as a u32) when the room is enough, and ERANGE when it is not.
  listxattr-KeepsSize :
      (ino n : ℕ)
      → listxattr format_time m ino 0 ≡ ok (reply (size n))
      → KeepsSize (λ room. listxattr format_time m ino room) n
  listxattr-KeepsSize ino n e = Protocol-KeepsSize _ n (listxattr-Protocol ino) e

  -- The same for `getxattr` and the value of one attribute.
  pub getxattr-KeepsSize :
      (ino n : ℕ) (name : Option String)
      → getxattr format_time m ino name 0 ≡ ok (reply (size n))
      → KeepsSize (λ room. getxattr format_time m ino name room) n
  getxattr-KeepsSize ino n name e = Protocol-KeepsSize _ n (getxattr-Protocol ino name) e
