-- ===== src/File/Buffer.antt =====
-- `Buffer` of src/bin/server/file.rs, and the slicing that it shares with the FUSE read handler.
use rs1541fs.Prelude.{
  ℕ, ◌+◌, ◌-◌, ◌<◌, ◌^◌, String, ◌≡◌, ◌⊎◌, inl, inr, Bool, true, false, List, [], ◌++◌, arith, leb,
  length, take, drop, if◌then◌else◌, Bool-cases, drop_all, take-nil, take-min, length-drop, leb→le,
  not_leb→lt, ap,
}
use Prim.Native.Nat.{min}
use rs1541fs.Error.{fs1541, file_access, Result, ok, err, panic}

-- One more than the largest `usize`.
abbrev pub usize_end : ℕ
usize_end = 2 ^ 64

-- `if offset >= data.len() { &[] } else { &data[offset..min(offset + size, data.len())] }`. A sum
-- that does not fit in a `usize` panics, in the addition or in the slicing after it.
unfoldable pub read_range : List ℕ → ℕ → ℕ → Result (List ℕ)
read_range contents offset size =
    if leb (length contents) offset
    then ok []
    else if leb usize_end (offset + size)
    then panic
    else ok (take (min (offset + size) (length contents) - offset) (drop offset contents))

pub data BufferType : Type 0 where
  read_buffer write_buffer : BufferType

pub record Buffer : Type 0 where
  pub buffer_type : BufferType
  pub contents : List ℕ
  pub complete : Bool

-- `Buffer::new_read`, `Buffer::new_write`
pub new_read : Buffer
new_read = record { buffer_type = read_buffer; contents = []; complete = false }

pub new_write : Buffer
new_write = record { buffer_type = write_buffer; contents = []; complete = false }

abbrev write_by : BufferType → Buffer → List ℕ → Result ℕ × Buffer
write_by read_buffer b bytes = (err (fs1541 "Cannot write to read buffer" (file_access "")), b)
write_by write_buffer b bytes =
    if b.complete
    then (err (fs1541 "Cannot write to completed buffer" (file_access "")), b)
    else (ok (length bytes), record b { contents = b.contents ++ bytes })

-- `Buffer::write`
unfoldable pub write : Buffer → List ℕ → Result ℕ × Buffer
write b bytes = write_by b.buffer_type b bytes

abbrev read_by : BufferType → Buffer → ℕ → ℕ → Result (List ℕ ⊎ String)
read_by write_buffer b offset size = ok (inr "Cannot read from write buffer")
read_by read_buffer b offset size = elim (read_range b.contents offset size) [
  | ok range ↦ ok (inl range)
  | err e ↦ err e
  | panic ↦ panic
]

-- `Buffer::read`: `inr` is the `std::io::Error`.
unfoldable pub read : Buffer → ℕ → ℕ → Result (List ℕ ⊎ String)
unfolding read_range
read b offset size = read_by b.buffer_type b offset size

-- `Buffer::mark_complete`
unfoldable pub mark_complete : Buffer → Buffer
mark_complete b = record b { complete = true }

-- A range that fits in a `usize` is read without a panic, and is what stands at the offset, cut to
-- the size: nothing at or behind the end.
pub read_range-take-drop :
    (contents : List ℕ) (offset size : ℕ)
    → offset + size < usize_end
    → read_range contents offset size ≡ ok (take size (drop offset contents))
unfolding read_range
read_range-take-drop contents offset size h = elim (Bool-cases (leb (length contents) offset)) [
  | inl past ↦ rw (past, drop_all offset contents (leb→le _ _ past), take-nil size)
  | inr inside ↦
      rw (inside, fits)
        (ap ok (
          take-min _ size (drop offset contents)
            (omega (arith, length-drop offset contents, not_leb→lt _ _ inside))))
]
  where
    fits : leb usize_end (offset + size) ≡ false
    fits = ground arith
