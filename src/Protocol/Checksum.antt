-- ===== src/Protocol/Checksum.antt =====
-- rci/protocols/checksums.py: CRC-16/CCITT-FALSE over a list of bytes.
pub mod Detection
use Prim.Native.Nat.{bit_and, bit_xor}
use robotic_character_interf.Base.{ℕ, zero, suc, ◌*◌, ◌%◌, ◌^◌, List, [], ◌∷◌, ◌==◌, if◌then◌else◌}

-- One turn of the inner loop: shift left by one, and reduce if the top bit was set.
unfoldable pub crc_bit : ℕ → ℕ
crc_bit crc =
    if bit_and crc 0x8000 == 0 then crc * 2 % 2 ^ 16 else bit_xor (crc * 2) 0x1021 % 2 ^ 16

unfoldable pub crc_bits : ℕ → ℕ → ℕ
crc_bits zero crc = crc
crc_bits (suc n) crc = crc_bits n (crc_bit crc)

-- The body of the loop over the bytes: `crc ^= byte << 8`, then eight turns.
unfoldable pub crc_byte : ℕ → ℕ → ℕ
unfolding crc_bits crc_bit
crc_byte crc byte = crc_bits 8 (bit_xor crc (byte * 2 ^ 8))

unfoldable pub crc_from : ℕ → List ℕ → ℕ
unfolding crc_byte
crc_from crc [] = crc
crc_from crc (byte ∷ bytes) = crc_from (crc_byte crc byte) bytes

unfoldable pub crc16_ccitt_false : List ℕ → ℕ
unfolding crc_from
crc16_ccitt_false bytes = crc_from 0xffff bytes
