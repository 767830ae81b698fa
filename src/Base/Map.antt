-- ===== src/Base/Map.antt =====
-- A Go map with string keys, as an association list in which each key stands once.
use mathlib.Core.Path.{◌≡◌, refl, subst}
use mathlib.Core.List.{List, [], ◌∷◌}
use mathlib.Core.Option.{Option, none, some}
use mathlib.Core.Logic.{inl, inr}
use native.Mathlib.Omega.{arith}
use go_posix.Base.Tests.{if◌then◌else◌, Bool-cases}
use go_posix.Base.ByteStrings.{Bytes, beq, beq_iff, All}

abbrev pub Map {ℓ} : Type ℓ → Type ℓ
Map V = List (Bytes × V)

module _ {ℓ} {V : Type ℓ} where
  -- `v, ok := m[k]`
  unfoldable pub lookup : Map V → Bytes → Option V
  lookup [] k = none
  lookup ((j, v) ∷ m) k = if beq j k then some v else lookup m k

  -- `m[k] = v`
  unfoldable pub insert : Map V → Bytes → V → Map V
  insert [] k v = (k, v) ∷ []
  insert ((j, w) ∷ m) k v = if beq j k then (j, v) ∷ m else (j, w) ∷ insert m k v

  -- `delete(m, k)`
  unfoldable pub delete : Map V → Bytes → Map V
  delete [] k = []
  delete ((j, w) ∷ m) k = let rest = delete m k in if beq j k then rest else (j, w) ∷ rest

  pub lookup-insert :
      (m : Map V) (k : Bytes) (v : V) (j : Bytes)
      → lookup (insert m k v) j ≡ (if beq k j then some v else lookup m j)
  unfolding lookup insert
  lookup-insert [] k v j = refl
  lookup-insert ((i, w) ∷ m) k v j =
      ground (arith, beq_iff i k, beq_iff i j, beq_iff k j, lookup-insert m k v j)

  pub lookup-delete :
      (m : Map V) (k j : Bytes) → lookup (delete m k) j ≡ (if beq k j then none else lookup m j)
  unfolding lookup delete
  lookup-delete [] k j = ground arith
  lookup-delete ((i, w) ∷ m) k j =
      ground (arith, beq_iff i k, beq_iff i j, beq_iff k j, lookup-delete m k j)

  -- Every value of the map has the property.
  abbrev pub AllValues {κ} : (V → Type κ) → Map V → Type κ
  AllValues P = All (λ e. P e.1)

module _ {ℓ κ} {V : Type ℓ} (P : V → Type κ) where
  pub insert-AllValues :
      (m : Map V) (k : Bytes) (v : V) → AllValues P m → P v → AllValues P (insert m k v)
  unfolding insert
  insert-AllValues [] k v h p = (p, tt)
  insert-AllValues ((j, w) ∷ m) k v (pw, h) p = elim (Bool-cases (beq j k)) [
    | inl e ↦ rw e (p, h)
    | inr e ↦ rw e (pw, insert-AllValues m k v h p)
  ]

  pub delete-AllValues : (m : Map V) (k : Bytes) → AllValues P m → AllValues P (delete m k)
  unfolding delete
  delete-AllValues [] k h = tt
  delete-AllValues ((j, w) ∷ m) k (pw, h) = elim (Bool-cases (beq j k)) [
    | inl e ↦ rw e (delete-AllValues m k h)
    | inr e ↦ rw e (pw, delete-AllValues m k h)
  ]

  pub lookup-AllValues : (m : Map V) (k : Bytes) (v : V) → AllValues P m → lookup m k ≡ some v → P v
  unfolding lookup
  lookup-AllValues [] k v h e = cc
  lookup-AllValues ((j, w) ∷ m) k v (pw, h) e = elim (Bool-cases (beq j k)) [
    | inl t ↦ let same : w ≡ v = ground arith in subst P same pw
    | inr t ↦ lookup-AllValues m k v h (rw t at e)
  ]
