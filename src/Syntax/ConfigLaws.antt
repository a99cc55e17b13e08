-- ===== src/Syntax/ConfigLaws.antt =====
-- ui/syntax/highlighter.go: the spans of a whole configuration.
use amneziawg_windows_client.Common.{
  false, ℕ, Option, ◌+◌, ◌≡◌, arith, some, none, refl, inl, ◌==◌, inr, Bool-cases, sym, true, ◌∷◌,
  ◌&&◌, &&_iff, if◌then◌else◌, not, if_both, ◌||◌, length, [],
}
use amneziawg_windows_client.Common.Text.{Text}
use amneziawg_windows_client.Syntax.Config.{
  on_section, on_comment, on_none, finish, next_line, State, blank, Scanner, on_key, on_value,
  trimmed, is_on_comment, equals, enter, step, is_on_key, scan,
}
use amneziawg_windows_client.Syntax.Field.{section_for_field, ◌=ᶠ◌, invalid, field_of}
use amneziawg_windows_client.Syntax.Highlight.{Highlight}
use amneziawg_windows_client.Syntax.LineLaws.{Inv, finish-Finished, OptInv, StateInv, Finished}
use amneziawg_windows_client.Syntax.ValueLaws.{append-IsBelow, IsBelow-le, IsBelow}
use mathlib.Core.Path.{subst}

module _ (b : Text) where
  next_line-Inv : (i c : ℕ) (m : Scanner) → IsBelow i m.ret → Inv (i + 1) (next_line b i c m)
  unfolding next_line
  next_line-Inv i c m h = ground (arith, IsBelow-le {n = i + 1} m.ret (omega arith) h)

  state-blank : (i : ℕ) (m : Scanner) → (blank b i m).state ≡ m.state
  unfolding blank
  state-blank i m = ground arith

  blank-StateInv :
      (i : ℕ) (s : State) (m : Scanner)
      → is_on_comment s ≡ false
      → m.current_span.s + m.current_span.len ≡ i
      → StateInv m s
      → StateInv (blank b i m) s
  unfolding blank
  blank-StateInv i on_comment m c e v = cc
  blank-StateInv i on_none m c e v =
      let further = IsBelow-le {n = m.current_span.s + 1} m.ret (omega arith) v.0 in
      ground (arith, further)
  blank-StateInv i on_key m c e v = ground arith
  blank-StateInv i on_section m c e v = ground arith
  blank-StateInv i on_value m c e v = ground arith

  blank_end :
      (i : ℕ) (m : Scanner)
      → m.current_span.s + m.current_span.len ≡ i
      → (blank b i m).current_span.s + (blank b i m).current_span.len ≡ i + 1
  unfolding blank
  blank_end i m e = ground arith

  blank-Inv :
      (i : ℕ) (m : Scanner) → is_on_comment m.state ≡ false → Inv i m → Inv (i + 1) (blank b i m)
  blank-Inv i m c v = (
    blank_end i m v.0,
    subst (StateInv (blank b i m)) (sym (state-blank i m)) (blank-StateInv i m.state m c v.0 v.1),
  )

  equals-Inv :
      (i : ℕ) (m : Scanner)
      → m.current_span.s + m.current_span.len ≡ i
      → StateInv m on_key
      → Inv (i + 1) (equals b i m)
  unfolding equals
  equals-Inv i m e v =
      let errored = append-IsBelow i (trimmed b m) Highlight.error m.ret (omega arith) v.0 in
      let named = append-IsBelow i (trimmed b m) Highlight.field m.ret (omega arith) v.0 in
      let found = field_of b (trimmed b m) in
      let section = section_for_field found in
      let misplaced =
        section =ᶠ invalid || found =ᶠ invalid || not (section =ᶠ m.current_section) in
      (omega arith, (if_both (IsBelow i) misplaced errored named, omega arith, inl refl))

  -- A byte that is part of a key, a value or a section's name.
  abbrev longer : ℕ → Scanner → Scanner
  longer c m = record m {
    state = enter b m.state c;
    current_span = record { s = m.current_span.s; len = m.current_span.len + 1 };
    len_at_last_space = m.current_span.len + 1;
  }

  longer-StateInv :
      (c : ℕ) (s : State) (m : Scanner)
      → is_on_comment s ≡ false
      → StateInv m s
      → StateInv (longer c m) (enter b s c)
  unfolding enter
  longer-StateInv c on_comment m k v = cc
  longer-StateInv c on_none m k v = ground arith
  longer-StateInv c on_key m k v = (v.0, omega arith, omega arith)
  longer-StateInv c on_section m k v = (v.0, omega arith, omega arith)
  longer-StateInv c on_value m k v = (v.0, v.1, inr (omega arith))

  comment-Inv :
      (i : ℕ) (s : State) (m : Scanner)
      → is_on_comment s ≡ true
      → StateInv m s
      → StateInv
          (record m {
            current_span = record { s = m.current_span.s; len = m.current_span.len + 1 };
          })
          s
  comment-Inv i on_comment m c v = v
  comment-Inv i _ m c v = cc

  on_key_of : (s : State) (m : Scanner) → is_on_key s ≡ true → StateInv m s → StateInv m on_key
  on_key_of on_key m h v = v
  on_key_of _ m h v = cc

  ended-OptInv :
      (i c : ℕ) (r : Option Scanner)
      → Finished i r
      → OptInv (i + 1) (elim r [ none ↦ none | some m' ↦ some (next_line b i c m') ])
  ended-OptInv i c none h = h
  ended-OptInv i c (some m) h = next_line-Inv i c m h

  -- Any byte outside of comments that does not end the line.
  read-Inv :
      (i c : ℕ) (m : Scanner)
      → is_on_comment m.state ≡ false
      → Inv i m
      → OptInv (i + 1) (
          if c == b' ' || c == b'\t'
          then some (blank b i m)
          else if c == b'=' && is_on_key m.state
          then some (equals b i m)
          else some (longer c m))
  read-Inv i c m reading v =
      if_both (OptInv (i + 1)) (c == b' ' || c == b'\t') (blank-Inv i m reading v)
        (elim (Bool-cases (c == b'=' && is_on_key m.state)) [
          | inl at_equals ↦ rw at_equals (
              equals-Inv i m v.0
                (on_key_of m.state m ((&&_iff (c == b'=') (is_on_key m.state)).0 at_equals).1 v.1))
          | inr other ↦ rw other (omega arith, longer-StateInv c m.state m reading v.1)
        ])

  step-Inv : (i c : ℕ) (m : Scanner) → Inv i m → OptInv (i + 1) (step b i c m)
  unfolding step
  step-Inv i c m v = elim (Bool-cases (c == b'\n' || (not (is_on_comment m.state) && c == b'#'))) [
    | inl ended ↦
        rw ended (ended-OptInv i c (finish b m.state m) (finish-Finished b i m.state m v.0 v.1))
    | inr going ↦ rw going (elim (Bool-cases (is_on_comment m.state)) [
      | inl commenting ↦ rw commenting (omega arith, comment-Inv i m.state m commenting v.1)
      | inr reading ↦ rw reading (read-Inv i c m reading v)
    ])
  ]

  continue-Finished :
      (i end : ℕ) (k : Scanner → Option Scanner) (r : Option Scanner)
      → ((m : Scanner) → Inv i m → Finished end (k m))
      → OptInv i r
      → Finished end (elim r [ none ↦ none | some m' ↦ k m' ])
  continue-Finished i end k none keep v = v
  continue-Finished i end k (some m) keep v = keep m v

  -- A configuration never makes the scan panic, and its spans lie within it.
  pub scan-Finished :
      (i end : ℕ) (rest : Text) (m : Scanner)
      → i + length rest ≡ end
      → Inv i m
      → Finished end (scan b i rest m)
  unfolding scan
  scan-Finished i end [] m e v = finish-Finished b end m.state m (omega arith) v.1
  scan-Finished i end (c ∷ rest) m e v =
      continue-Finished (i + 1) end (scan b (i + 1) rest) (step b i c m)
        (λ m'. scan-Finished (i + 1) end rest m' (omega arith)) (step-Inv i c m v)
