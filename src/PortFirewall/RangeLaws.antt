-- ===== src/PortFirewall/RangeLaws.antt =====
-- The ports that the merged and the complemented ranges of manager/portfirewall.go cover.
use amneziawg_windows_client.Common.{
  All, ◌&&◌, leb, List, ◌∙◌, ◌≤◌, Bool, inl, ℕ, arith, ◌∷◌, ◌≡◌, inr, false, leb→le, [], ap, ◌||◌,
  refl, Bool-cases, ◌<◌, ◌+◌, ltb,
}
use amneziawg_windows_client.PortFirewall.Ranges.{
  sort_ranges, insert_range, merge_loop, PortRange, merge_ranges, merge_sorted,
}

-- The port lies in one of the ranges.
abbrev pub covers : ℕ → List PortRange → Bool
covers p [] = false
covers p (r ∷ rest) = (leb r.first p && leb p r.last) || covers p rest

abbrev pub StartsFrom : ℕ → List PortRange → Type 0
StartsFrom n = All (λ r. n ≤ r.first)

abbrev pub IsSorted : List PortRange → Type 0
IsSorted [] = Unit
IsSorted (r ∷ rest) = StartsFrom r.first rest × IsSorted rest

StartsFrom-le : {m n : ℕ} (rs : List PortRange) → m ≤ n → StartsFrom n rs → StartsFrom m rs
StartsFrom-le [] h s = tt
StartsFrom-le (r ∷ rs) h s = (omega arith, StartsFrom-le rs h s.1)

covers-insert_range :
    (p : ℕ) (r : PortRange) (rs : List PortRange) → covers p (insert_range r rs) ≡ covers p (r ∷ rs)
unfolding insert_range
covers-insert_range p r [] = refl
covers-insert_range p r (s ∷ rs) = ground (arith, covers-insert_range p r rs)

covers-sort_ranges : (p : ℕ) (rs : List PortRange) → covers p (sort_ranges rs) ≡ covers p rs
unfolding sort_ranges
covers-sort_ranges p [] = refl
covers-sort_ranges p (r ∷ rs) =
    covers-insert_range p r (sort_ranges rs)
    ∙ ap (λ b. (leb r.first p && leb p r.last) || b) (covers-sort_ranges p rs)

module _ (P : PortRange → Type 0) where
  insert_range-All :
      (r : PortRange) (rs : List PortRange) → P r → All P rs → All P (insert_range r rs)
  unfolding insert_range
  insert_range-All r [] h s = (h, tt)
  insert_range-All r (x ∷ rs) h s = ground (arith, insert_range-All r rs h s.1)

  sort_ranges-All : (rs : List PortRange) → All P rs → All P (sort_ranges rs)
  unfolding sort_ranges
  sort_ranges-All [] h = tt
  sort_ranges-All (r ∷ rs) h = insert_range-All r (sort_ranges rs) h.0 (sort_ranges-All rs h.1)

insert_range-IsSorted :
    (r : PortRange) (rs : List PortRange) → IsSorted rs → IsSorted (insert_range r rs)
unfolding insert_range
insert_range-IsSorted r [] h = (tt, tt)
insert_range-IsSorted r (s ∷ rs) h = elim (Bool-cases (leb r.first s.first)) [
  | inl le ↦
      rw le
        (let below : r.first ≤ s.first = leb→le _ _ le in ((below, StartsFrom-le rs below h.0), h))
  | inr gt ↦ rw gt (
      let above : s.first ≤ r.first = ground arith in
      (insert_range-All (λ x. s.first ≤ x.first) r rs above h.0, insert_range-IsSorted r rs h.1))
]

sort_ranges-IsSorted : (rs : List PortRange) → IsSorted (sort_ranges rs)
unfolding sort_ranges
sort_ranges-IsSorted [] = tt
sort_ranges-IsSorted (r ∷ rs) = insert_range-IsSorted r (sort_ranges rs) (sort_ranges-IsSorted rs)

covers-merge_loop :
    (p : ℕ) (last : PortRange) (rs : List PortRange)
    → StartsFrom last.first rs
    → IsSorted rs
    → covers p (merge_loop last rs) ≡ covers p (last ∷ rs)
unfolding merge_loop
covers-merge_loop p last [] h s = refl
covers-merge_loop p last (r ∷ rs) h s =
    let grown =
      covers-merge_loop p (record last { last = r.last }) rs (StartsFrom-le rs h.0 s.0) s.1 in
    let kept = covers-merge_loop p last rs (StartsFrom-le rs h.0 s.0) s.1 in
    let apart = covers-merge_loop p r rs s.0 s.1 in ground arith

merge_loop-StartsFrom :
    (n : ℕ) (last : PortRange) (rs : List PortRange)
    → n ≤ last.first
    → StartsFrom n rs
    → StartsFrom n (merge_loop last rs)
unfolding merge_loop
merge_loop-StartsFrom n last [] h s = (h, tt)
merge_loop-StartsFrom n last (r ∷ rs) h s =
    let grown = merge_loop-StartsFrom n (record last { last = r.last }) rs h s.1 in
    let kept = merge_loop-StartsFrom n last rs h s.1 in
    let apart = merge_loop-StartsFrom n r rs s.0 s.1 in ground arith

-- The ranges ascend, each holds a port, and between two of them lies a port that is in none.
abbrev pub IsSeparated : List PortRange → Type 0
IsSeparated [] = Unit
IsSeparated (r ∷ rest) =
    (r.first ≤ r.last) × All (λ s. r.last + 1 < s.first) rest × IsSeparated rest

abbrev pub IsRange : PortRange → Type 0
IsRange r = r.first ≤ r.last

All-lt : {m n : ℕ} (rs : List PortRange) → m < n → StartsFrom n rs → All (λ s. m < s.first) rs
All-lt [] h s = tt
All-lt (r ∷ rs) h s = (omega arith, All-lt rs h s.1)

merge_loop-IsSeparated :
    (last : PortRange) (rs : List PortRange)
    → IsRange last
    → All IsRange rs
    → IsSorted rs
    → IsSeparated (merge_loop last rs)
unfolding merge_loop
merge_loop-IsSeparated last [] v vs s = (v, tt, tt)
merge_loop-IsSeparated last (r ∷ rs) v vs s = elim (Bool-cases (leb r.first (last.last + 1))) [
  | inl joined ↦ rw joined (elim (Bool-cases (ltb last.last r.last)) [
    | inl grows ↦
        rw grows (merge_loop-IsSeparated (record last { last = r.last }) rs (ground arith) vs.1 s.1)
    | inr stays ↦ rw stays (merge_loop-IsSeparated last rs v vs.1 s.1)
  ])
  | inr apart ↦ rw apart (
    v,
    All-lt (merge_loop r rs) (ground arith) (merge_loop-StartsFrom r.first r rs (omega arith) s.0),
    merge_loop-IsSeparated r rs vs.0 vs.1 s.1,
  )
]

merge_loop-IsSorted :
    (last : PortRange) (rs : List PortRange)
    → StartsFrom last.first rs
    → IsSorted rs
    → IsSorted (merge_loop last rs)
unfolding merge_loop
merge_loop-IsSorted last [] h s = (tt, tt)
merge_loop-IsSorted last (r ∷ rs) h s =
    let from_last = StartsFrom-le rs h.0 s.0 in
    let grown = merge_loop-IsSorted (record last { last = r.last }) rs from_last s.1 in
    let kept = merge_loop-IsSorted last rs from_last s.1 in
    let starts = merge_loop-StartsFrom last.first r rs h.0 from_last in
    let apart = merge_loop-IsSorted r rs s.0 s.1 in ground arith

covers-merge_sorted :
    (p : ℕ) (rs : List PortRange) → IsSorted rs → covers p (merge_sorted rs) ≡ covers p rs
unfolding merge_sorted
covers-merge_sorted p [] s = refl
covers-merge_sorted p (r ∷ rs) s = covers-merge_loop p r rs s.0 s.1

merge_sorted-IsSeparated :
    (rs : List PortRange) → All IsRange rs → IsSorted rs → IsSeparated (merge_sorted rs)
unfolding merge_sorted
merge_sorted-IsSeparated [] v s = tt
merge_sorted-IsSeparated (r ∷ rs) v s = merge_loop-IsSeparated r rs v.0 v.1 s.1

merge_sorted-All_first :
    (n : ℕ) (rs : List PortRange)
    → All (λ r. r.first ≤ n) rs
    → All (λ r. r.first ≤ n) (merge_sorted rs)
unfolding merge_sorted merge_loop
merge_sorted-All_first n [] h = tt
merge_sorted-All_first n (r ∷ rs) h = go r rs h.0 h.1
  where
    go :
        (last : PortRange) (rs : List PortRange)
        → last.first ≤ n
        → All (λ r. r.first ≤ n) rs
        → All (λ r. r.first ≤ n) (merge_loop last rs)
    go last [] v vs = (v, tt)
    go last (r ∷ rs) v vs =
        let grown = go (record last { last = r.last }) rs v vs.1 in
        let kept = go last rs v vs.1 in let apart = go r rs vs.0 vs.1 in ground arith

-- Merging covers the same ports with ranges that ascend and neither overlap nor touch, whenever no
-- range given is empty.
pub merge_ranges_lem :
    (p : ℕ) (rs : List PortRange)
    → All IsRange rs
    → (covers p (merge_ranges rs) ≡ covers p rs) × IsSeparated (merge_ranges rs)
unfolding merge_ranges
merge_ranges_lem p rs v =
    let sorted = sort_ranges-IsSorted rs in
    (
      covers-merge_sorted p (sort_ranges rs) sorted ∙ covers-sort_ranges p rs,
      merge_sorted-IsSeparated (sort_ranges rs) (sort_ranges-All IsRange rs v) sorted,
    )

pub covers-merge_ranges : (p : ℕ) (rs : List PortRange) → covers p (merge_ranges rs) ≡ covers p rs
unfolding merge_ranges
covers-merge_ranges p rs =
    covers-merge_sorted p (sort_ranges rs) (sort_ranges-IsSorted rs) ∙ covers-sort_ranges p rs

merge_sorted-IsSorted : (rs : List PortRange) → IsSorted rs → IsSorted (merge_sorted rs)
unfolding merge_sorted
merge_sorted-IsSorted [] s = tt
merge_sorted-IsSorted (r ∷ rs) s = merge_loop-IsSorted r rs s.0 s.1

pub merge_ranges-IsSorted : (rs : List PortRange) → IsSorted (merge_ranges rs)
unfolding merge_ranges
merge_ranges-IsSorted rs = merge_sorted-IsSorted (sort_ranges rs) (sort_ranges-IsSorted rs)

pub merge_ranges-All_first :
    (n : ℕ) (rs : List PortRange)
    → All (λ r. r.first ≤ n) rs
    → All (λ r. r.first ≤ n) (merge_ranges rs)
unfolding merge_ranges
merge_ranges-All_first n rs h =
    merge_sorted-All_first n (sort_ranges rs) (sort_ranges-All (λ r. r.first ≤ n) rs h)
