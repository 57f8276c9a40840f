-- ===== src/Nntp/Crc.antt =====
-- `zlib.crc32`: the reflected CRC of the polynomial 0xEDB88320, bit by bit.
use Prim.Native.Nat.{bit_xor}
use lore_x.Prelude.{ℕ, zero, suc, ◌/◌, ◌%◌, List, [], ◌∷◌, ◌==◌, ◌≡◌, refl, if◌then◌else◌}
use lore_x.Text.{codes}

unfoldable pub crc_bits : ℕ → ℕ → ℕ
crc_bits zero c = c
crc_bits (suc n) c = crc_bits n (if c % 2 == 1 then bit_xor (c / 2) 0xEDB88320 else c / 2)

unfoldable pub crc_bytes : List ℕ → ℕ → ℕ
unfolding crc_bits
crc_bytes [] c = c
crc_bytes (b ∷ bs) c = crc_bytes bs (crc_bits 8 (bit_xor c b))

-- `zlib.crc32(data, value)`
unfoldable pub crc32 : List ℕ → ℕ → ℕ
unfolding crc_bytes
crc32 data_bytes value = bit_xor (crc_bytes data_bytes (bit_xor value 0xFFFFFFFF)) 0xFFFFFFFF

-- The check value of the CRC.
crc32_check : crc32 (codes "123456789") 0 ≡ 0xCBF43926
unfolding crc32
crc32_check = refl
