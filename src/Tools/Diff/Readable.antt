-- ===== src/Tools/Diff/Readable.antt =====
-- Files whose differences `ParsePatch` reads.
use go_posix.Base.{
  ◌+◌, ◌-◌, ◌<◌, ◌^◌, ◌≡◌, Bool, true, not, ◌&&◌, List, Bytes, codes, All, length, ltb,
}
use go_posix.Base.FilePath.{has_prefix}
use go_posix.Tools.Patch.Scanner.{is_clean, max_token_size}
use go_posix.Tools.Diff.{DiffItem}
use go_posix.Tools.Diff.Hunks.{count_old, count_new}

-- A line that no mark makes the first line of a patch, and that the scanner gives as it is behind a mark.
unfoldable pub is_safe : Bytes → Bool
is_safe l =
    not (has_prefix l (codes "-- "))
    && not (has_prefix l (codes "++ "))
    && is_clean l
    && ltb (length l + 1) max_token_size

-- A file with safe lines, not too many to count.
unfoldable pub Safe : List Bytes → Type 0
Safe lines = All (λ l. is_safe l ≡ true) lines × (length lines < 2 ^ 63 - 1)

SafeItems : List DiffItem → Type 0
SafeItems = All (λ item. is_safe item.text ≡ true)

-- What the hunks of a script have in common with it.
record Countable (script : List DiffItem) : Type 0 where
  safe : SafeItems script
  old : count_old script < 2 ^ 63 - 1
  new : count_new script < 2 ^ 63 - 1
