-- ===== src/Daemon/Limits/Tests.antt =====
-- Writes and reads at the limit.
use mathlib.Core.List.{flatten}
use go_posix.Base.{◌≡◌, refl, [], ◌∷◌, List, Bytes, codes, ◌++◌, take, arith}
use go_posix.Daemon.Limits.{LimitWriter, write, write_all, PerRequestLimitReader}
use go_posix.Daemon.Limits.Bounds.{write_all-take}

abbrev four_bytes : LimitWriter
four_bytes = record { w = []; limit = 4; wrote = 0 }

abbrev chunks : List Bytes
chunks = codes "abc" ∷ codes "def" ∷ codes "g" ∷ []

cut_off : (write_all four_bytes chunks).w ≡ codes "abcd"
unfolding write_all write
cut_off = refl

write_all-take_example : (write_all four_bytes chunks).w ≡ take 4 ([] ++ flatten chunks)
write_all-take_example = write_all-take four_bytes chunks (omega arith)

abbrev near_limit : PerRequestLimitReader
near_limit = record { limit = 10; read = 7 }
