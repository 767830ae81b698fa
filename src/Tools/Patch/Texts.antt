-- ===== src/Tools/Patch/Texts.antt =====
-- The lines that a hunk takes out of a text and puts in their place.
use go_posix.Base.{
  ℕ, zero, suc, ◌+◌, ◌≤◌, ◌<◌, ◌⊎◌, ◌≡◌, ◌∙◌, refl, ap, true, false, not, ◌&&◌, some, inl, inr,
  List, [], ◌∷◌, ◌++◌, map, Bytes, beq, beq_iff, codes, arith, leb, if◌then◌else◌, length,
  get_elem?, drop,
}
use go_posix.Base.FilePath.{has_prefix}
use go_posix.Tools.Patch.{
  Mark, added, deleted, context, other, mark, text, reverse_line, differs, verify_from, new_lines,
}

-- The lines that a hunk is about in the text before it.
unfoldable pub old_lines : List Bytes → List Bytes
old_lines [] = []
old_lines (l ∷ ls) = elim (mark l) [
  | added ↦ old_lines ls
  | deleted ↦ text l ∷ old_lines ls
  | context ↦ text l ∷ old_lines ls
  | other ↦ old_lines ls
]

drop-get_elem? :
    (lines : List Bytes) (off : ℕ) (l : Bytes)
    → get_elem? lines off ≡ some l
    → drop off lines ≡ l ∷ drop (off + 1) lines
drop-get_elem? [] off l h = cc
drop-get_elem? (x ∷ lines) zero l h = ap (λ y. y ∷ lines) cc
drop-get_elem? (x ∷ lines) (suc off) l h =
    drop-get_elem? lines off l h
    ∙ ap (λ n. l ∷ drop n (x ∷ lines)) {x = suc (off + 1)} {y = suc off + 1} (omega arith)

get_elem?-some :
    (lines : List Bytes) (off : ℕ)
    → off < length lines
    → (l : Bytes) × (get_elem? lines off ≡ some l)
get_elem?-some [] off h = absurd (omega arith)
get_elem?-some (x ∷ lines) zero h = (x, refl)
get_elem?-some (x ∷ lines) (suc off) h = get_elem?-some lines off (omega arith)

-- A line of the text that does not differ from one is that line.
differs-drop :
    (lines : List Bytes) (off : ℕ) (t : Bytes)
    → off < length lines
    → differs lines off t ≡ false
    → drop off lines ≡ t ∷ drop (off + 1) lines
unfolding differs
differs-drop lines off t h same =
    let (l, e) = get_elem?-some lines off h in
    let tested : not (beq l t) ≡ false = rw (e, differs) at same in
    let equal : l ≡ t = ground (arith, beq_iff l t) in
    rw (drop-get_elem? lines off l e) (rw equal refl)

Mark-cases : (m : Mark) → (m ≡ added) ⊎ ((m ≡ deleted) ⊎ ((m ≡ context) ⊎ (m ≡ other)))
Mark-cases added = inl refl
Mark-cases deleted = inr (inl refl)
Mark-cases context = inr (inr (inl refl))
Mark-cases other = inr (inr (inr refl))

old_line :
    (lines olds : List Bytes) (off : ℕ) (t : Bytes)
    → drop off lines ≡ t ∷ drop (off + 1) lines
    → drop (off + 1) lines ≡ olds ++ drop (off + 1 + length olds) lines
    → drop off lines ≡ t ∷ olds ++ drop (off + suc (length olds)) lines
old_line lines olds off t here behind =
    here
    ∙ ap (λ ls. t ∷ ls) behind
    ∙ ap (λ n. t ∷ olds ++ drop n lines) {x = off + 1 + length olds} {y = off + suc (length olds)}
        (omega arith)

-- Where it fits, a hunk that `verifyHunk` accepts has its old lines in the text.
pub verify_from-drop :
    (lines ls : List Bytes) (off : ℕ)
    → off + length (old_lines ls) ≤ length lines
    → verify_from lines off ls ≡ true
    → drop off lines ≡ old_lines ls ++ drop (off + length (old_lines ls)) lines
unfolding verify_from old_lines
verify_from-drop lines [] off le h = ap (λ n. drop n lines) (omega arith)
verify_from-drop lines (l ∷ ls) off le h = elim (Mark-cases (mark l)) [
  | inl e ↦
      let h' : verify_from lines off ls ≡ true = rw (e, verify_from) at h in
      rw (e, old_lines) (verify_from-drop lines ls off (rw (e, old_lines) at le) h')
  | inr (inl e) ↦
      let fits : off + suc (length (old_lines ls)) ≤ length lines = rw (e, old_lines) at le in
      let h' : (if differs lines off (text l) then false else verify_from lines (off + 1) ls)
          ≡ true =
        rw (e, verify_from) at h in
      let same : differs lines off (text l) ≡ false = ground arith in
      let behind : verify_from lines (off + 1) ls ≡ true = ground arith in
      rw (e, old_lines)
        (old_line lines (old_lines ls) off (text l)
          (differs-drop lines off (text l) (omega arith) same)
          (verify_from-drop lines ls (off + 1) (omega arith) behind))
  | inr (inr (inl e)) ↦
      let fits : off + suc (length (old_lines ls)) ≤ length lines = rw (e, old_lines) at le in
      let h' : (if differs lines off (text l)
            then false
            else if leb (length lines) off && not (beq (text l) [])
            then false
            else verify_from lines (off + 1) ls)
          ≡ true =
        rw (e, verify_from) at h in
      let same : differs lines off (text l) ≡ false = ground arith in
      let behind : verify_from lines (off + 1) ls ≡ true = ground arith in
      rw (e, old_lines)
        (old_line lines (old_lines ls) off (text l)
          (differs-drop lines off (text l) (omega arith) same)
          (verify_from-drop lines ls (off + 1) (omega arith) behind))
  | inr (inr (inr e)) ↦
      let h' : verify_from lines off ls ≡ true = rw (e, verify_from) at h in
      rw (e, old_lines) (verify_from-drop lines ls off (rw (e, old_lines) at le) h')
]

drop-cons :
    (lines rest : List Bytes) (off : ℕ) (t : Bytes)
    → drop off lines ≡ t ∷ rest
    → (get_elem? lines off ≡ some t) × (drop (off + 1) lines ≡ rest) × (off < length lines)
drop-cons [] rest zero t h = cc
drop-cons [] rest (suc off) t h = cc
drop-cons (x ∷ lines) rest zero t h = (cc, cc, omega arith)
drop-cons (x ∷ lines) rest (suc off) t h =
    let (here, behind, fits) = drop-cons lines rest off t h in
    (
      here,
      ap (λ n. drop n (x ∷ lines)) {x = suc off + 1} {y = suc (off + 1)} (omega arith) ∙ behind,
      omega (arith, fits),
    )

line-differs :
    (lines rest : List Bytes) (off : ℕ) (t : Bytes)
    → drop off lines ≡ t ∷ rest
    → (differs lines off t ≡ false)
      × (leb (length lines) off ≡ false)
      × (drop (off + 1) lines ≡ rest)
unfolding differs
line-differs lines rest off t h =
    let (here, behind, fits) = drop-cons lines rest off t h in
    (rw (here, differs) (ground (arith, beq_iff t t)), ground (arith, fits), behind)

-- A text that has the old lines of a hunk at a place passes `verifyHunk` there.
pub drop-verify_from :
    (lines ls post : List Bytes) (off : ℕ)
    → drop off lines ≡ old_lines ls ++ post
    → verify_from lines off ls ≡ true
unfolding verify_from old_lines
drop-verify_from lines [] post off h = refl
drop-verify_from lines (l ∷ ls) post off h = elim (Mark-cases (mark l)) [
  | inl e ↦ rw (e, verify_from) (drop-verify_from lines ls post off (rw (e, old_lines) at h))
  | inr (inl e) ↦
      let (same, fits, behind) =
        line-differs lines (old_lines ls ++ post) off (text l) (rw (e, old_lines) at h) in
      rw (e, verify_from) (rw same (drop-verify_from lines ls post (off + 1) behind))
  | inr (inr (inl e)) ↦
      let (same, fits, behind) =
        line-differs lines (old_lines ls ++ post) off (text l) (rw (e, old_lines) at h) in
      rw (e, verify_from) (rw same (rw fits (drop-verify_from lines ls post (off + 1) behind)))
  | inr (inr (inr e)) ↦
      rw (e, verify_from) (drop-verify_from lines ls post off (rw (e, old_lines) at h))
]

mark-minus : (t : Bytes) → mark (codes "-" ++ t) ≡ deleted
unfolding mark has_prefix
mark-minus t = refl

mark-plus : (t : Bytes) → mark (codes "+" ++ t) ≡ added
unfolding mark has_prefix
mark-plus t = refl

reverse_line-added : (l : Bytes) → mark l ≡ added → reverse_line l ≡ codes "-" ++ text l
unfolding reverse_line
reverse_line-added l e = rw (e, reverse_line) refl

reverse_line-deleted : (l : Bytes) → mark l ≡ deleted → reverse_line l ≡ codes "+" ++ text l
unfolding reverse_line
reverse_line-deleted l e = rw (e, reverse_line) refl

reverse_line-context : (l : Bytes) → mark l ≡ context → reverse_line l ≡ l
unfolding reverse_line
reverse_line-context l e = rw (e, reverse_line) refl

reverse_line-other : (l : Bytes) → mark l ≡ other → reverse_line l ≡ l
unfolding reverse_line
reverse_line-other l e = rw (e, reverse_line) refl

-- The old lines of a hunk that is reversed are its new lines, and the other way round.
pub lines-reverse :
    (ls : List Bytes)
    → (old_lines (map reverse_line ls) ≡ new_lines ls)
      × (new_lines (map reverse_line ls) ≡ old_lines ls)
unfolding old_lines new_lines
lines-reverse [] = (refl, refl)
lines-reverse (l ∷ ls) =
    let (old, new) = lines-reverse ls in
    elim (Mark-cases (mark l)) [
      | inl e ↦ rw (reverse_line-added l e) (
          rw (mark-minus (text l), old_lines, new_lines)
            (rw (e, old_lines, new_lines) (ap (λ ts. text l ∷ ts) old, new)))
      | inr (inl e) ↦ rw (reverse_line-deleted l e) (
          rw (mark-plus (text l), old_lines, new_lines)
            (rw (e, old_lines, new_lines) (old, ap (λ ts. text l ∷ ts) new)))
      | inr (inr (inl e)) ↦
          rw (reverse_line-context l e)
            (rw (e, old_lines, new_lines) (ap (λ ts. text l ∷ ts) old, ap (λ ts. text l ∷ ts) new))
      | inr (inr (inr e)) ↦ rw (reverse_line-other l e) (rw (e, old_lines, new_lines) (old, new))
    ]
