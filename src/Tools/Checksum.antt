-- ===== src/Tools/Checksum.antt =====
-- pkg/sum/sum.go and pkg/cksum/cksum.go: the checksums. A byte is a number below 256; `int` is wide
-- enough that `sum` never wraps in `sumBSD`, and a uint32 wraps at 2^32.
mod Bounds
mod Tests
use Prim.Native.Nat.{bit_xor}
use go_posix.Base.{
  ℕ, zero, suc, ◌+◌, ◌*◌, ◌/◌, ◌%◌, ◌^◌, Bool, List, [], ◌∷◌, Bytes, length, leb, ◌==◌,
  if◌then◌else◌,
}

-- One round of the loop of `sumBSD`: the 16 bits are turned right by one, and the byte is added.
pub bsd_step : ℕ → ℕ → ℕ
bsd_step sum b = (sum / 2 + sum % 2 * 2 ^ 15 + b) % 2 ^ 16

pub bsd_loop : ℕ → Bytes → ℕ
unfolding bsd_step
bsd_loop sum [] = sum
bsd_loop sum (b ∷ data_) = bsd_loop (bsd_step sum b) data_

-- The checksum, and the number of blocks of 1024 bytes.
pub sum_bsd : Bytes → ℕ × ℕ
unfolding bsd_loop
sum_bsd [] = (0, 0)
sum_bsd (b ∷ data_) = (bsd_loop 0 (b ∷ data_), (length (b ∷ data_) + 1023) / 1024)

pub sysv_loop : ℕ → Bytes → ℕ
sysv_loop sum [] = sum
sysv_loop sum (b ∷ data_) = sysv_loop ((sum + b) % 2 ^ 32) data_

pub sum_sysv : Bytes → ℕ × ℕ
unfolding sysv_loop
sum_sysv [] = (0, 0)
sum_sysv (b ∷ data_) =
    (sysv_loop 0 (b ∷ data_) % 2 ^ 32 % 0x10000, (length (b ∷ data_) + 511) / 512)

-- One bit of the division: a shift, and the polynomial where the top bit goes out.
crc_bit : ℕ → ℕ
crc_bit crc = if leb (2 ^ 31) crc then bit_xor (crc * 2 % 2 ^ 32) 0x04C11DB7 else crc * 2 % 2 ^ 32

crc_bits : ℕ → ℕ → ℕ
unfolding crc_bit
crc_bits zero crc = crc
crc_bits (suc n) crc = crc_bits n (crc_bit crc)

-- `crc ^= uint32(b) << 24` and the eight rounds behind it.
pub crc_byte : ℕ → ℕ → ℕ
unfolding crc_bits
crc_byte crc b = crc_bits 8 (bit_xor crc (b * 2 ^ 24 % 2 ^ 32))

pub crc_data : ℕ → Bytes → ℕ
unfolding crc_byte
crc_data crc [] = crc
crc_data crc (b ∷ data_) = crc_data (crc_byte crc b) data_

-- The loop over the octets of the length, the lowest one first, until none is left. A length that
-- fits in `fuel` octets takes no more than `fuel` rounds.
pub crc_length : ℕ → ℕ → ℕ → ℕ
unfolding crc_byte
crc_length zero n crc = crc
crc_length (suc fuel) n crc =
    let rest = crc_length fuel (n / 256) (crc_byte crc (n % 256)) in if n == 0 then crc else rest

-- A length is an `int`, of eight octets.
pub posix_crc : Bytes → ℕ
unfolding crc_data crc_length
posix_crc data_ = bit_xor (crc_length 8 (length data_) (crc_data 0 data_)) 0xFFFFFFFF
