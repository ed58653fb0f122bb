-- ===== src/Wire/Crc.antt =====
-- `crc32c` of wire_protocol.cpp: the reflected CRC-32C, bit by bit, without a table.
pub mod Detect
use fast_livo_ug.Base.{ℕ, zero, suc, ◌-◌, ◌/◌, ◌%◌, ◌^◌, List, [], ◌∷◌, bit_and, bit_xor}

abbrev pub polynomial : ℕ
polynomial = 0x82f63b78

-- `crc = (crc >> 1) ^ (0x82f63b78U & (0U - (crc & 1U)))`
pub crc_bit : ℕ → ℕ
crc_bit crc = bit_xor (crc / 2) (bit_and polynomial ((2 ^ 32 - bit_and crc 1) % 2 ^ 32))

-- `for (int bit = 0; bit < 8; ++bit)`, with the rounds left.
pub crc_bits : ℕ → ℕ → ℕ
crc_bits zero crc = crc
crc_bits (suc n) crc = crc_bits n (crc_bit crc)

-- `for (size_t i = 0; i < size; ++i)`
pub crc_bytes : ℕ → List ℕ → ℕ
crc_bytes crc [] = crc
crc_bytes crc (b ∷ bytes) = crc_bytes (crc_bits 8 (bit_xor crc b)) bytes

-- `~crc` on 32 bits is a subtraction from the all-ones word.
unfoldable pub crc32c : List ℕ → ℕ
unfolding crc_bit crc_bits crc_bytes
crc32c bytes = 0xffff_ffff - crc_bytes 0xffff_ffff bytes
