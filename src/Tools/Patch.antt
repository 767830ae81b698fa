-- ===== src/Tools/Patch.antt =====
-- pkg/patch/patch.go: `reverseHunk`, `applyHunk`, and the loop of `Run` over the hunks.
-- The numbers in the header of a hunk are natural numbers: no header has a negative one.
pub mod Texts
pub mod Undo
mod Refused
pub mod Run
mod Written
pub mod Parse
pub mod Scanner
pub mod Headers
mod Tests
mod Counts
mod Places
use go_posix.Base.{
  ℕ, zero, suc, ◌+◌, ◌-◌, Bool, true, false, not, ◌&&◌, ◌||◌, Option, none, some, List, [], ◌∷◌,
  ◌++◌, map, Bytes, beq, codes, ltb, leb, ◌==◌, if◌then◌else◌, length, get_elem?, take, drop,
}
use go_posix.Base.FilePath.{has_prefix}

pub record Hunk : Type 0 where
  pub old_start : ℕ
  pub old_count : ℕ
  pub new_start : ℕ
  pub new_count : ℕ
  pub lines : List Bytes

-- The kinds of lines that the switches on the first byte tell apart.
pub data Mark : Type 0 where
  added deleted context other : Mark

unfoldable pub mark : Bytes → Mark
mark l =
    if has_prefix l (codes "+")
    then added
    else if has_prefix l (codes "-")
    then deleted
    else if beq l [] || has_prefix l (codes " ")
    then context
    else other

-- `l[1:]`, and the empty line for itself
abbrev pub text : Bytes → Bytes
text l = drop 1 l

pub reverse_line : Bytes → Bytes
reverse_line l = elim (mark l) [
  | added ↦ codes "-" ++ text l
  | deleted ↦ codes "+" ++ text l
  | context ↦ l
  | other ↦ l
]

pub reverse_hunk : Hunk → Hunk
unfolding reverse_line
reverse_hunk h = record {
  old_start = h.new_start;
  old_count = h.new_count;
  new_start = h.old_start;
  new_count = h.old_count;
  lines = map reverse_line h.lines;
}

-- `off < len(lines) && lines[off] != t`
unfoldable pub differs : List Bytes → ℕ → Bytes → Bool
differs lines off t = elim (get_elem? lines off) [ none ↦ false | some l ↦ not (beq l t) ]

-- The loop of `verifyHunk` from the line number `off` on.
pub verify_from : List Bytes → ℕ → List Bytes → Bool
verify_from lines off [] = true
verify_from lines off (l ∷ ls) =
    let behind = verify_from lines (off + 1) ls in
    let here = verify_from lines off ls in
    elim (mark l) [
      | added ↦ here
      | deleted ↦ if differs lines off (text l) then false else behind
      | context ↦
          if differs lines off (text l)
          then false
          else if leb (length lines) off && not (beq (text l) [])
          then false
          else behind
      | other ↦ here
    ]

unfoldable pub verify_hunk : List Bytes → Hunk → ℕ → Bool
unfolding verify_from
verify_hunk lines h pos = verify_from lines pos h.lines

-- What the loop of `applyAt` appends.
unfoldable pub new_lines : List Bytes → List Bytes
new_lines [] = []
new_lines (l ∷ ls) = elim (mark l) [
  | added ↦ text l ∷ new_lines ls
  | deleted ↦ new_lines ls
  | context ↦ text l ∷ new_lines ls
  | other ↦ new_lines ls
]

-- `take` and `drop` stop at the end, as the tests of `applyAt` do.
unfoldable pub apply_at : List Bytes → Hunk → ℕ → List Bytes
unfolding new_lines
apply_at lines h pos = take pos lines ++ new_lines h.lines ++ drop (pos + h.old_count) lines

-- The result that `alreadyApplied` expects.
pub expected : List Bytes → List Bytes
expected [] = []
expected (l ∷ ls) =
    if has_prefix l (codes "+")
    then text l ∷ expected ls
    else if not (has_prefix l (codes "-")) && not (beq l [])
    then text l ∷ expected ls
    else expected ls

-- Whether the lines begin with those.
pub begins : List Bytes → List Bytes → Bool
begins lines [] = true
begins [] (e ∷ es) = false
begins (l ∷ lines) (e ∷ es) = beq l e && begins lines es

-- The loop over the next `rounds` positions.
pub search : List Bytes → List Bytes → ℕ → Bool
unfolding begins
search lines wanted zero = false
search lines wanted (suc rounds) = begins lines wanted || search (drop 1 lines) wanted rounds

-- The positions from `start` to `end` less what is wanted, at most.
unfoldable pub already_applied : List Bytes → Hunk → Bool
unfolding expected search
already_applied lines h =
    let wanted = expected h.lines in
    let start = h.old_start - 1 in
    let limit = start + length wanted + 10 in
    let end = if ltb (length lines) limit then length lines else limit in
    if length wanted == 0
    then false
    else search (drop start lines) wanted (end + 1 - (start + length wanted))

-- The loop of the fuzzy match, `rounds` offsets from `offset` on.
pub fuzzy : List Bytes → Hunk → ℕ → ℕ → ℕ → List Bytes × Bool
fuzzy lines h pos offset zero = (lines, false)
fuzzy lines h pos offset (suc rounds) =
    let further = fuzzy lines h pos (offset + 1) rounds in
    if leb offset pos && verify_hunk lines h (pos - offset)
    then (apply_at lines h (pos - offset), true)
    else if leb (pos + offset + h.old_count) (length lines) && verify_hunk lines h (pos + offset)
    then (apply_at lines h (pos + offset), true)
    else further

-- `applyHunk`: the new lines, and whether the hunk is applied. (The last test of it, on the reversed
-- hunk, has the same result either way.)
unfoldable pub apply_hunk : List Bytes → Hunk → Bool → List Bytes × Bool
apply_hunk lines h ignore_applied =
    let pos = h.old_start - 1 in
    if h.old_count == 0
    then (apply_at lines h 0, true)
    else if already_applied lines h
    then (lines, ignore_applied)
    else if leb (pos + h.old_count) (length lines) && verify_hunk lines h pos
    then (apply_at lines h pos, true)
    else fuzzy lines h pos 1 (length lines)

-- What the loop of `Run` leaves: the lines, `Applied`, `Rejected`, and `FailedHunkNum` with the test for
-- the line "Possibly reversed hunk" of the message.
pub record Outcome : Type 0 where
  pub lines : List Bytes
  pub applied : ℕ
  pub rejected : ℕ
  pub failed : Option (ℕ × Bool)

-- The loop of `Run`, behind `applied` hunks.
unfoldable pub apply_hunks : Bool → Bool → ℕ → List Bytes → List Hunk → Outcome
apply_hunks reverse ignore_applied applied lines [] = record {
  lines = lines;
  applied = applied;
  rejected = 0;
  failed = none;
}
apply_hunks reverse ignore_applied applied lines (hunk ∷ hunks) =
    let (new, ok_) =
      apply_hunk lines (if reverse then reverse_hunk hunk else hunk) ignore_applied in
    let rest = apply_hunks reverse ignore_applied (applied + 1) new hunks in
    if ok_ then rest else record {
      lines = lines;
      applied = applied;
      rejected = 1;
      failed = some (applied + 1, already_applied lines hunk);
    }
