-- ===== src/Protocol/Crc32.antt =====
-- protocol/crc32.py, with the CRC-32 of Python's `zlib` that it calls: the reflected polynomial
-- 0xEDB88320, an initial register of ones, and a final inversion.
pub mod Detect
mod Tests
use hybrid_ftp_system.Prelude.{
  ℕ, zero, suc, ◌/◌, ◌%◌, ◌==◌, Bool, if◌then◌else◌, foldl, Bytes, bit_and, bit_xor, leb, Result,
  ok, err,
}

abbrev pub polynomial : ℕ
polynomial = 0xEDB88320

abbrev pub crc32_mask : ℕ
crc32_mask = 0xFFFFFFFF

-- One bit leaves the register.
unfoldable pub shift_bit : ℕ → ℕ
shift_bit r = if r % 2 == 1 then bit_xor (r / 2) polynomial else r / 2

unfoldable pub shift_bits : ℕ → ℕ → ℕ
unfolding shift_bit
shift_bits zero r = r
shift_bits (suc n) r = shift_bits n (shift_bit r)

unfoldable pub update_byte : ℕ → ℕ → ℕ
unfolding shift_bits
update_byte r b = shift_bits 8 (bit_xor r b)

-- `zlib.crc32`
unfoldable pub zlib_crc32 : Bytes → ℕ
unfolding update_byte
zlib_crc32 data' = bit_xor (foldl update_byte crc32_mask data') crc32_mask

unfoldable pub calculate_crc32 : Bytes → ℕ
unfolding zlib_crc32
calculate_crc32 data' = bit_and (zlib_crc32 data') crc32_mask

pub data CrcError : Type 0 where
  checksum_out_of_range : CrcError

-- `0 <= expected_checksum` holds of every natural number.
unfoldable pub verify_crc32 : Bytes → ℕ → Result CrcError Bool
verify_crc32 data' expected_checksum =
    if leb expected_checksum crc32_mask
    then ok (calculate_crc32 data' == expected_checksum)
    else err checksum_out_of_range
