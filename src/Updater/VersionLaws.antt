-- ===== src/Updater/VersionLaws.antt =====
-- updater/versions.go: the order of versions.
use amneziawg_windows_client.Common.{
  ℕ, ltb, Bool-cases, suc, List, ◌==◌, get_or, refl, ◌∷◌, Bool, ◌<◌, inl, lt→ltb, arith, ltb→lt,
  false≢true, [], ◌⊎◌, false, ◌↔◌, zero, inr, ==_iff, true, ◌≡◌, ◌++◌, if_both, is_nil, &&_iff, ◌≢◌,
  ◌&&◌, Any, length, if_cases, ap,
}
use amneziawg_windows_client.Common.Text.{
  Text, split, split_onto, trim_prefix, has_suffix, trim_suffix, codes, has_prefix,
}
use amneziawg_windows_client.Updater.{
  Compared, compare_parts, part_value, part_of, compare_part, version_newer_than_us, is_newer,
  candidate_loop, update_found, bad_version, judge, FileList, Candidate, no_update, bad_candidate,
  find_candidate,
}
use mathlib.Core.Path.{subst}

-- The parts are these numbers.
abbrev pub Parses : List Text → List ℕ → Type 0
Parses [] [] = Unit
Parses (s ∷ ss) (n ∷ ns) = (part_of s ≡ part_value n) × Parses ss ns
Parses _ _ = ⊥

-- The first number that differs is greater.
abbrev Greater : (ℕ → ℕ) → (ℕ → ℕ) → Type 0
Greater f g = (i : ℕ) × (g i < f i) × ((j : ℕ) → j < i → f j ≡ g j)

-- The first version's first number that differs is greater, where missing numbers are 0.
abbrev pub IsLater : List ℕ → List ℕ → Type 0
IsLater ns ms =
    (i : ℕ) × (get_or ms i 0 < get_or ns i 0) × ((j : ℕ) → j < i → get_or ns j 0 ≡ get_or ms j 0)

same_below :
    (f g : ℕ → ℕ) (i : ℕ)
    → f 0 ≡ g 0
    → ((j : ℕ) → j < i → f (suc j) ≡ g (suc j))
    → (j : ℕ) → j < suc i
    → f j ≡ g j
same_below f g i e s zero h = e
same_below f g i e s (suc j) h = s j (omega arith)

Greater-cases :
    (f g : ℕ → ℕ)
    → ((g 0 < f 0) ⊎ ((f 0 ≡ g 0) × Greater (λ j. f (suc j)) (λ j. g (suc j)))) ↔ Greater f g
Greater-cases f g = (forth, back)
  where
    forth : (g 0 < f 0) ⊎ ((f 0 ≡ g 0) × Greater (λ j. f (suc j)) (λ j. g (suc j))) → Greater f g
    forth (inl h) = (0, h, λ j l. absurd (ground arith))
    forth (inr (e, (i, h, s))) = (suc i, h, same_below f g i e s)

    back : Greater f g → (g 0 < f 0) ⊎ ((f 0 ≡ g 0) × Greater (λ j. f (suc j)) (λ j. g (suc j)))
    back (zero, h, s) = inl h
    back (suc i, h, s) = inr (s 0 (omega arith), (i, h, λ j l. s (suc j) (omega arith)))

-- An answer that says whether the first version is greater.
abbrev IsRight : Compared → (ℕ → ℕ) → (ℕ → ℕ) → Type 0
IsRight r f g = (b : Bool) × (r ≡ is_newer b) × ((b ≡ true) ↔ Greater f g)

compare_part-IsRight :
    (f g : ℕ → ℕ) (later : Compared)
    → IsRight later (λ j. f (suc j)) (λ j. g (suc j))
    → IsRight (compare_part (part_value (f 0)) (part_value (g 0)) later) f g
compare_part-IsRight f g later (b, e, iff) =
    let step = Greater-cases f g in
    elim (Bool-cases (f 0 == g 0)) [
      | inl same ↦
          let eq : f 0 ≡ g 0 = (==_iff _ _).0 same in
          (
            b,
            rw same e,
            (
              (λ h. step.0 (inr (eq, iff.0 h))),
              λ h. elim (step.1 h) [
                | inl less ↦ absurd (ground arith)
                | inr (_, rest) ↦ iff.1 rest
              ],
            ),
          )
      | inr other ↦ (
        ltb (g 0) (f 0),
        rw other refl,
        (
          (λ h. step.0 (inl (ltb→lt _ _ h))),
          λ h. elim (step.1 h) [ inl less ↦ lt→ltb _ _ less | inr (eq, _) ↦ absurd (ground arith) ],
        ),
      )
    ]

compare_parts-IsRight :
    (cs os : List Text) (ns ms : List ℕ)
    → Parses cs ns
    → Parses os ms
    → IsRight (compare_parts cs os) (λ j. get_or ns j 0) (λ j. get_or ms j 0)
unfolding compare_parts
compare_parts-IsRight [] [] [] [] p q =
    (false, refl, ((λ e. absurd (false≢true e)), λ (i, h, s). absurd (ground arith)))
compare_parts-IsRight [] (o ∷ os) [] (m ∷ ms) p q = rw q.0 (
    compare_part-IsRight (λ j. 0) (λ j. get_or (m ∷ ms) j 0) (compare_parts [] os)
      (compare_parts-IsRight [] os [] ms p q.1))
compare_parts-IsRight (c ∷ cs) [] (n ∷ ns) [] p q = rw p.0 (
    compare_part-IsRight (λ j. get_or (n ∷ ns) j 0) (λ j. 0) (compare_parts cs [])
      (compare_parts-IsRight cs [] ns [] p.1 q))
compare_parts-IsRight (c ∷ cs) (o ∷ os) (n ∷ ns) (m ∷ ms) p q = rw p.0 rw q.0 (
    compare_part-IsRight (λ j. get_or (n ∷ ns) j 0) (λ j. get_or (m ∷ ms) j 0) (compare_parts cs os)
      (compare_parts-IsRight cs os ns ms p.1 q.1))
compare_parts-IsRight [] _ (n ∷ ns) _ p q = absurd p
compare_parts-IsRight (c ∷ cs) _ [] _ p q = absurd p
compare_parts-IsRight _ [] _ (m ∷ ms) p q = absurd q
compare_parts-IsRight _ (o ∷ os) _ [] p q = absurd q

split_onto-nil : (b : ℕ) (part s : Text) → is_nil (split_onto b part s) ≡ false
unfolding split_onto
split_onto-nil b part [] = refl
split_onto-nil b part (c ∷ s) =
    if_both (λ (r : List Text). is_nil r ≡ false) (c == b) refl
      (split_onto-nil b (part ++ c ∷ []) s)

split-nil : (b : ℕ) (s : Text) → is_nil (split b s) ≡ false
unfolding split
split-nil b s = split_onto-nil b [] s

-- Two versions whose parts are 16-bit numbers are compared without an error, and the candidate is
-- newer exactly where the first part that differs is greater, missing parts being 0.
pub version_newer_than_us_iff :
    (ours candidate : Text) (ns ms : List ℕ)
    → Parses (split b'.' candidate) ns
    → Parses (split b'.' ours) ms
    → (b : Bool) × (version_newer_than_us ours candidate ≡ is_newer b)
      × ((b ≡ true) ↔ IsLater ns ms)
unfolding version_newer_than_us
version_newer_than_us_iff ours candidate ns ms p q =
    let parts = split-nil b'.' candidate in
    let our_parts = split-nil b'.' ours in
    rw parts rw our_parts (compare_parts-IsRight (split b'.' candidate) (split b'.' ours) ns ms p q)

-- The name between its prefix and its suffix is a newer version.
abbrev pub IsUpdate : Text → Text → Text → Text → Type 0
IsUpdate ours prefix suffix name =
    (has_prefix name prefix ≡ true)
    × (has_suffix name suffix ≡ true)
    × (version_newer_than_us ours (trim_suffix (trim_prefix name prefix) suffix) ≡ is_newer true)

not_found : (name hash : Text) → no_update ≢ update_found name hash
not_found name hash e = subst is_none e tt
  where
    is_none : Candidate → Type 0
    is_none (update_found name hash) = ⊥
    is_none _ = Unit

not_bad : (why name hash : Text) → bad_candidate why ≢ update_found name hash
not_bad why name hash e = subst is_bad e tt
  where
    is_bad : Candidate → Type 0
    is_bad (update_found name hash) = ⊥
    is_bad _ = Unit

judge-found :
    (n h name hash : Text) (r : Compared) (later : Candidate)
    → judge n h r later ≡ update_found name hash
    → ((r ≡ is_newer true) × (n ≡ name) × (h ≡ hash)) ⊎ (later ≡ update_found name hash)
judge-found n h name hash (bad_version why) later e = absurd (not_bad _ _ _ e)
judge-found n h name hash (is_newer true) later e = inl (refl, ap name_of e, ap hash_of e)
  where
    name_of : Candidate → Text
    name_of (update_found a b) = a
    name_of _ = []

    hash_of : Candidate → Text
    hash_of (update_found a b) = b
    hash_of _ = []
judge-found n h name hash (is_newer false) later e = inr e

candidate_loop-IsUpdate :
    (ours prefix suffix : Text) (files : FileList) (name hash : Text)
    → candidate_loop ours prefix suffix files ≡ update_found name hash
    → IsUpdate ours prefix suffix name
      × Any (λ (f : Text × Text). (f.0 ≡ name) × (f.1 ≡ hash)) files
unfolding candidate_loop
candidate_loop-IsUpdate ours prefix suffix [] name hash = λ e. absurd (not_found _ _ e)
candidate_loop-IsUpdate ours prefix suffix ((n, h) ∷ rest) name hash =
    let Goal : Type 0 =
      IsUpdate ours prefix suffix name
      × Any (λ (f : Text × Text). (f.0 ≡ name) × (f.1 ≡ hash)) ((n, h) ∷ rest) in
    let P : Candidate → Type 0 = λ r. r ≡ update_found name hash → Goal in
    let later : P (candidate_loop ours prefix suffix rest) = λ e.
      let (good, found) = candidate_loop-IsUpdate ours prefix suffix rest name hash e in
      (good, inr found) in
    let candidate = trim_suffix (trim_prefix n prefix) suffix in
    if_cases P (has_prefix n prefix && has_suffix n suffix)
      (λ named.
        if_both P (ltb 128 (length candidate)) (λ e. absurd (not_bad _ _ _ e))
          (λ e. elim (judge-found n h name hash (version_newer_than_us ours candidate) _ e) [
            | inl (newer, same, hashes) ↦
                let both = (&&_iff (has_prefix n prefix) (has_suffix n suffix)).0 named in
                (
                  subst (IsUpdate ours prefix suffix) same (both.0, both.1, newer),
                  inl (same, hashes),
                )
            | inr e' ↦ later e'
          ]))
      (λ _. later)

-- An update that is found stands in the list with its hash, is named for this architecture, and its
-- name's version is newer than ours.
pub find_candidate-IsUpdate :
    (ours arch : Text) (files : FileList) (name hash : Text)
    → find_candidate ours arch files ≡ update_found name hash
    → IsUpdate ours (codes "wireguard-" ++ arch ++ codes "-") (codes ".msi") name
      × Any (λ (f : Text × Text). (f.0 ≡ name) × (f.1 ≡ hash)) files
unfolding find_candidate
find_candidate-IsUpdate ours arch files name hash =
    candidate_loop-IsUpdate ours (codes "wireguard-" ++ arch ++ codes "-") (codes ".msi") files name
      hash
