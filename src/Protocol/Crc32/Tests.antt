-- ===== src/Protocol/Crc32/Tests.antt =====
-- The published check value, and the theorems of the CRC at concrete inputs.
use hybrid_ftp_system.Prelude.{◌≡◌, refl, [], ◌∷◌, Bytes, true, ok, err}
use hybrid_ftp_system.Protocol.Crc32.{calculate_crc32, verify_crc32, checksum_out_of_range}

-- The ASCII digits 1 to 9.
abbrev check_input : Bytes
check_input = 49 ∷ 50 ∷ 51 ∷ 52 ∷ 53 ∷ 54 ∷ 55 ∷ 56 ∷ 57 ∷ []

crc_check_value : calculate_crc32 check_input ≡ 0xCBF43926
unfolding calculate_crc32
crc_check_value = refl

verify_check_value : verify_crc32 check_input 0xCBF43926 ≡ ok true
unfolding verify_crc32 calculate_crc32
verify_check_value = refl

verify_out_of_range : verify_crc32 check_input 0x1_0000_0000 ≡ err checksum_out_of_range
unfolding verify_crc32
verify_out_of_range = refl
