-- ===== src/Common/Assoc.antt =====
-- Go maps with number keys, as association lists. A range over a map has no fixed order there; here
-- it is the order of the list.
use Prim.Native.Nat.{ℕ}
use amneziawg_windows_client.Common.Lists.{All}
use amneziawg_windows_client.Common.Tests.{if◌then◌else◌, ◌==◌, ==_iff, Bool-cases}
use mathlib.Core.List.{List, [], ◌∷◌}
use mathlib.Core.Logic.{inr, inl}
use mathlib.Core.Option.{none, some, Option, none-ne-some}
use mathlib.Core.Path.{refl, ◌≡◌, subst}
use native.Mathlib.Omega.{arith}

module _ {ℓ} {V : Type ℓ} where
  unfoldable pub insert : ℕ → V → List (ℕ × V) → List (ℕ × V)
  insert key value [] = (key, value) ∷ []
  insert key value ((j, old) ∷ rest) =
      if j == key then (key, value) ∷ rest else (j, old) ∷ insert key value rest

  unfoldable pub lookup : ℕ → List (ℕ × V) → Option V
  lookup key [] = none
  lookup key ((j, value) ∷ rest) = if j == key then some value else lookup key rest

  -- What is found after an insertion.
  pub lookup-insert :
      (key asked : ℕ) (value : V) (entries : List (ℕ × V))
      → lookup asked (insert key value entries)
        ≡ (if key == asked then some value else lookup asked entries)
  unfolding lookup insert
  lookup-insert key asked value [] = refl
  lookup-insert key asked value ((i, old) ∷ rest) =
      ground (arith, lookup-insert key asked value rest)

module _ {V : Type 0} (P : ℕ × V → Type 0) where
  pub insert-All : (k : ℕ) (v : V) (m : List (ℕ × V)) → P (k, v) → All P m → All P (insert k v m)
  unfolding insert
  insert-All k v [] h s = (h, tt)
  insert-All k v ((j, w) ∷ m) h s = elim (Bool-cases (j == k)) [
    | inl e ↦ rw e (h, s.1)
    | inr e ↦ rw e (s.0, insert-All k v m h s.1)
  ]

  pub lookup-All : (k : ℕ) {v : V} (m : List (ℕ × V)) → lookup k m ≡ some v → All P m → P (k, v)
  unfolding lookup
  lookup-All k [] e s = absurd (none-ne-some _ e)
  lookup-All k {v} ((j, w) ∷ m) e s = elim (Bool-cases (j == k)) [
    | inl same ↦
        let keys : j ≡ k = (==_iff j k).0 same in
        let values : w ≡ v = ground arith in
        subst (λ a. P (a, v)) keys (subst (λ a. P (j, a)) values s.0)
    | inr other ↦ lookup-All k m (ground arith) s.1
  ]
