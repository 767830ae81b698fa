-- ===== src/Daemon/Limits.antt =====
-- pkg/common/io.go (`LimitWriter`) and `PerRequestLimitReader` of internal/daemon/server.go: the
-- bounds on what a command may print and on how much of a request is read.
mod Bounds
mod Tests
use go_posix.Base.{
  ℕ, ◌+◌, ◌-◌, Bool, true, false, Option, none, some, List, [], ◌∷◌, ◌++◌, Bytes, length, take, ltb,
  leb, if◌then◌else◌,
}

-- The writer below is a `bytes.Buffer`, as in the daemon: a write to it takes all bytes.
pub record LimitWriter : Type 0 where
  pub w : Bytes
  pub limit : ℕ
  pub wrote : ℕ

-- The number of bytes taken, and whether the error `output limit exceeded` is returned.
unfoldable pub write : LimitWriter → Bytes → LimitWriter × ℕ × Bool
write lw p =
    if leb lw.limit lw.wrote
    then (lw, 0, true)
    else if ltb lw.limit (lw.wrote + length p)
    then (let q = take (lw.limit - lw.wrote) p in
        (record lw { w = lw.w ++ q; wrote = lw.wrote + length q }, length q, true))
    else (record lw { w = lw.w ++ p; wrote = lw.wrote + length p }, length p, false)

-- The writes of a command that goes on after an error.
unfoldable pub write_all : LimitWriter → List Bytes → LimitWriter
write_all lw [] = lw
write_all lw (p ∷ ps) = write_all (write lw p).0 ps

pub record PerRequestLimitReader : Type 0 where
  pub limit : ℕ
  pub read : ℕ

-- `Read` into a buffer of `size` bytes, over a reader that gives `source n` bytes at most when asked
-- for `n`. `none` is the size error; otherwise the number of bytes read.
pub read_some : (ℕ → ℕ) → PerRequestLimitReader → ℕ → PerRequestLimitReader × Option ℕ
read_some source pr size =
    if leb pr.limit pr.read
    then (pr, none)
    else let max = pr.limit - pr.read in
      let n = source (if ltb max size then max else size) in
      (record pr { read = pr.read + n }, some n)

reset : PerRequestLimitReader → PerRequestLimitReader
reset pr = record pr { read = 0 }
