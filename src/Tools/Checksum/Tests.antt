-- ===== src/Tools/Checksum/Tests.antt =====
-- Checksums that can be compared with the utilities.
use go_posix.Base.{◌≡◌, ◌≢◌, refl, codes, arith}
use go_posix.Tools.Checksum.{sum_bsd, posix_crc}
use go_posix.Tools.Checksum.Bounds.{sum_bsd-byte}

bsd_hello : sum_bsd (codes "hello\n") ≡ (36979, 1)
unfolding sum_bsd
bsd_hello = refl

crc_check : posix_crc (codes "123456789") ≡ 930766865
unfolding posix_crc
crc_check = refl

sum_bsd-byte_example : (sum_bsd (codes "abc")).0 ≢ (sum_bsd (codes "aXc")).0
sum_bsd-byte_example =
    sum_bsd-byte b'b' b'X' (codes "a") (codes "c") (omega arith) (omega arith) (omega arith)
      (omega arith)
