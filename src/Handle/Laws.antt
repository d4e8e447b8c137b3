-- ===== src/Handle/Laws.antt =====
-- A file handle and its number determine each other.
use rs1541fs.Prelude.{ℕ, ◌+◌, ◌*◌, ◌/◌, ◌%◌, ◌^◌, ◌<◌, ◌≡◌, arith}
use rs1541fs.Prelude.Bits.{or_fields, and_ones}
use rs1541fs.Handle.{FileHandle, new_handle, to_u64, from_u64}

-- The fields that are a u8 in the program.
pub record IsHandle (h : FileHandle) : Type 0 where
  pub device_number : h.device_number < 2 ^ 8
  pub drive_id : h.drive_id < 2 ^ 8
  pub channel_number : h.channel_number < 2 ^ 8

to_u64_sum :
    (h : FileHandle)
    → IsHandle h
    → to_u64 h
      ≡ h.device_number * 2 ^ 56
        + h.drive_id * 2 ^ 48
        + h.channel_number * 2 ^ 40
        + h.sequence % 2 ^ 40
unfolding to_u64
to_u64_sum h ih = ground (
  arith,
  or_fields 56 h.device_number (h.drive_id * 2 ^ 48) (omega (arith, ih.drive_id)),
  or_fields 48 (h.device_number * 2 ^ 8 + h.drive_id) (h.channel_number * 2 ^ 40)
      (omega (arith, ih.channel_number)),
  or_fields 40 (h.device_number * 2 ^ 16 + h.drive_id * 2 ^ 8 + h.channel_number)
      (h.sequence % 2 ^ 40) (omega arith),
  and_ones 40 h.sequence,
  ih.device_number,
  ih.drive_id,
  ih.channel_number,
)

from_u64_fields :
    (n : ℕ)
    → ((from_u64 n).device_number ≡ n / 2 ^ 56 % 2 ^ 8)
      × ((from_u64 n).drive_id ≡ n / 2 ^ 48 % 2 ^ 8)
      × ((from_u64 n).channel_number ≡ n / 2 ^ 40 % 2 ^ 8)
      × ((from_u64 n).sequence ≡ n % 2 ^ 40)
unfolding from_u64
from_u64_fields n = omega (
  arith,
  and_ones 8 (n / 2 ^ 56),
  and_ones 8 (n / 2 ^ 48),
  and_ones 8 (n / 2 ^ 40),
  and_ones 40 n,
)

to_u64-lt : (h : FileHandle) → IsHandle h → to_u64 h < 2 ^ 64
to_u64-lt h ih = ground (arith, to_u64_sum h ih, ih.device_number, ih.drive_id, ih.channel_number)

-- A handle whose device, drive and channel are bytes comes back from its number with these three and
-- the low 40 bits of its sequence number.
pub from_u64-to_u64 :
    (h : FileHandle)
    → IsHandle h
    → from_u64 (to_u64 h)
      ≡ new_handle h.device_number h.drive_id h.channel_number (h.sequence % 2 ^ 40)
unfolding new_handle
from_u64-to_u64 h ih = ground (
  arith,
  from_u64_fields (to_u64 h),
  to_u64_sum h ih,
  ih.device_number,
  ih.drive_id,
  ih.channel_number,
)

-- Every 64-bit number comes back from the handle that is read out of it.
pub to_u64-from_u64 : (n : ℕ) → n < 2 ^ 64 → to_u64 (from_u64 n) ≡ n
to_u64-from_u64 n h =
    let (device, drive, channel, sequence) = from_u64_fields n in
    omega (
      arith,
      to_u64_sum (from_u64 n) (record {
        device_number = omega arith;
        drive_id = omega arith;
        channel_number = omega arith;
      }),
    )
