-- ===== src/Handle.antt =====
-- src/lib/fuse.rs: a file handle as one 64-bit number: 8 bits for each of the device, the drive and the
-- channel, 40 for the sequence number.
pub mod Laws
use Prim.Native.Nat.{bit_or, bit_and}
use rs1541fs.Prelude.{ℕ, ◌-◌, ◌*◌, ◌/◌, ◌%◌, ◌^◌}

pub record FileHandle : Type 0 where
  pub device_number : ℕ  -- u8
  pub drive_id : ℕ  -- u8
  pub channel_number : ℕ  -- u8
  pub sequence : ℕ  -- u64

infixl 75 ◌<<<◌ ◌>>>◌
-- Shifts of a u64.
abbrev pub ◌<<<◌ : ℕ → ℕ → ℕ
x <<< k = x * 2 ^ k % 2 ^ 64

abbrev pub ◌>>>◌ : ℕ → ℕ → ℕ
x >>> k = x / 2 ^ k

-- `FileHandle::new`
unfoldable pub new_handle : (device_number drive_id channel_number sequence : ℕ) → FileHandle
new_handle device_number drive_id channel_number sequence = record {
  device_number = device_number;
  drive_id = drive_id;
  channel_number = channel_number;
  sequence = sequence;
}

-- `FileHandle::to_u64`
unfoldable pub to_u64 : FileHandle → ℕ
to_u64 h =
    bit_or (bit_or (bit_or (h.device_number <<< 56) (h.drive_id <<< 48)) (h.channel_number <<< 40))
      (bit_and h.sequence 0xFFFFFFFFFF)

-- `FileHandle::from_u64`, with its casts to u8
unfoldable pub from_u64 : ℕ → FileHandle
from_u64 handle = record {
  device_number = bit_and (handle >>> 56) 0xFF % 2 ^ 8;
  drive_id = bit_and (handle >>> 48) 0xFF % 2 ^ 8;
  channel_number = bit_and (handle >>> 40) 0xFF % 2 ^ 8;
  sequence = bit_and handle 0xFFFFFFFFFF;
}
