-- ===== src/Syntax/ValueLaws.antt =====
-- ui/syntax/highlighter.go: where the spans of one value lie.
use amneziawg_windows_client.Common.{
  true, ◌+◌, ◌-◌, ◌≢◌, suc, ℕ, inl, refl, zero, Bool-cases, arith, ◌==◌, some, Option, inr, ◌≡◌,
  Option-cases, none, ◌∷◌, [], ◌≤◌, ◌<◌,
}
use amneziawg_windows_client.Common.Text.{Text}
use amneziawg_windows_client.Syntax.{StringSpan}
use amneziawg_windows_client.Syntax.Address.{find_from, is_valid_endpoint}
use amneziawg_windows_client.Syntax.Field.{Field}
use amneziawg_windows_client.Syntax.Highlight.{
  last_colon, host, highlight_multivalue_value, append, ip, mark_delimiter, Spans, append_parts,
  cidr, multivalue_loop, endpoint_value, error, Highlight, delimiter, network, port,
  highlight_multivalue, highlight_value, single_value,
}

-- The spans, newest first, lie in front of `n`, hold at least a byte each, and do not overlap.
abbrev pub IsBelow : ℕ → Spans → Type 0
IsBelow n [] = Unit
IsBelow n (x ∷ hsa) = (0 < x.len) × (x.s + x.len ≤ n) × IsBelow x.s hsa

pub IsBelow-le : {m n : ℕ} (hsa : Spans) → m ≤ n → IsBelow m hsa → IsBelow n hsa
IsBelow-le [] h k = tt
IsBelow-le (x ∷ hsa) h k = (k.0, omega arith, k.2)

pub append-IsBelow :
    (n : ℕ) (sp : StringSpan) (t : Highlight) (hsa : Spans)
    → sp.s + sp.len ≤ n
    → IsBelow sp.s hsa
    → IsBelow n (append sp t hsa)
unfolding append
append-IsBelow n sp t hsa h k = elim (Bool-cases (sp.len == 0)) [
  | inl e ↦ rw e (IsBelow-le hsa (omega arith) k)
  | inr e ↦ rw e (ground arith, h, k)
]

-- A result that is no panic, with spans in front of `n`.
abbrev pub IsSomeBelow : ℕ → Option Spans → Type 0
IsSomeBelow n none = ⊥
IsSomeBelow n (some hsa) = IsBelow n hsa

IsSomeBelow-le : {m n : ℕ} (r : Option Spans) → m ≤ n → IsSomeBelow m r → IsSomeBelow n r
IsSomeBelow-le none h k = k
IsSomeBelow-le (some hsa) h k = IsBelow-le hsa h k

mark_delimiter-IsBelow :
    (n : ℕ) (hsa : Spans) → hsa ≢ [] → IsBelow n hsa → IsSomeBelow n (mark_delimiter hsa)
unfolding mark_delimiter
mark_delimiter-IsBelow n [] ne k = ne refl
mark_delimiter-IsBelow n (x ∷ hsa) ne k = ground arith

pub append-ne-nil :
    (sp : StringSpan) (t : Highlight) (hsa : Spans) → 0 < sp.len → append sp t hsa ≢ []
unfolding append
append-ne-nil sp t hsa h = ground arith

module _ (b : Text) where
  find_from_bounds :
      (c : ℕ) (sp : StringSpan) (i n : ℕ) {k : ℕ} → find_from b c sp i n ≡ some k → k < i + n
  unfolding find_from
  find_from_bounds c sp i zero h = cc
  find_from_bounds c sp i (suc n) {k} h = ground (arith, find_from_bounds c sp (i + 1) n {k = k})

  append_parts-IsBelow :
      (sp : StringSpan) (i : ℕ) (front back : Highlight) (hsa : Spans)
      → i < sp.len
      → IsBelow sp.s hsa
      → IsBelow (sp.s + sp.len) (append_parts b sp i front back hsa)
  append_parts-IsBelow sp i front back hsa h k =
      append-IsBelow (sp.s + sp.len) (record { s = sp.s + i + 1; len = sp.len - i - 1 }) back _
        (omega arith)
        (append-IsBelow (sp.s + i + 1) (record { s = sp.s + i; len = 1 }) delimiter _ (omega arith)
          (append-IsBelow (sp.s + i) (record { s = sp.s; len = i }) front hsa (omega arith) k))

  module _ (sp : StringSpan) (hsa : Spans) (k : IsBelow sp.s hsa) where
    one-IsBelow : (t : Highlight) → IsBelow (sp.s + sp.len) (append sp t hsa)
    one-IsBelow t = append-IsBelow (sp.s + sp.len) sp t hsa (omega arith) k

    network-IsBelow : IsBelow (sp.s + sp.len) (network b sp hsa)
    unfolding network
    network-IsBelow = elim (Option-cases (find_from b b'/' sp 0 sp.len)) [
      | inl e ↦ ground (arith, one-IsBelow error, one-IsBelow ip)
      | inr (i, e) ↦
          let inside : i < sp.len = omega (arith, find_from_bounds b'/' sp 0 sp.len e) in
          ground (arith, one-IsBelow error, append_parts-IsBelow sp i ip cidr hsa inside k)
    ]

    highlight_multivalue_value-IsBelow :
        (f : Field) → IsBelow (sp.s + sp.len) (highlight_multivalue_value b sp f hsa)
    unfolding highlight_multivalue_value
    highlight_multivalue_value-IsBelow Field.dns =
        ground (arith, one-IsBelow ip, one-IsBelow host, one-IsBelow error)
    highlight_multivalue_value-IsBelow Field.address = network-IsBelow
    highlight_multivalue_value-IsBelow Field.allowed_ips = network-IsBelow
    highlight_multivalue_value-IsBelow _ = one-IsBelow error

  last_colon_lt : (sp : StringSpan) (n : ℕ) → 0 < n → last_colon b sp n < n
  unfolding last_colon
  last_colon_lt sp zero h = h
  last_colon_lt sp (suc zero) h = ground arith
  last_colon_lt sp (suc (suc n)) h = ground (arith, last_colon_lt sp (suc n))

  is_valid_endpoint_pos : (sp : StringSpan) → is_valid_endpoint b sp ≡ true → 0 < sp.len
  unfolding is_valid_endpoint
  is_valid_endpoint_pos sp h = ground arith

  endpoint_value-IsBelow :
      (sp : StringSpan) (hsa : Spans)
      → IsBelow sp.s hsa
      → IsBelow (sp.s + sp.len) (endpoint_value b sp hsa)
  unfolding endpoint_value
  endpoint_value-IsBelow sp hsa k = elim (Bool-cases (is_valid_endpoint b sp)) [
    | inl e ↦ rw e (
        append_parts-IsBelow sp (last_colon b sp sp.len) host port hsa
          (last_colon_lt sp sp.len (is_valid_endpoint_pos sp e)) k)
    | inr e ↦ rw e (one-IsBelow sp hsa k error)
  ]

  multivalue_loop-IsBelow :
      (sp : StringSpan) (f : Field) (i n : ℕ) (current : StringSpan) (len : ℕ) (hsa : Spans)
      → i + n ≡ sp.len
      → current.s + current.len ≡ sp.s + i
      → len ≤ current.len
      → hsa ≢ []
      → IsBelow current.s hsa
      → IsSomeBelow (sp.s + sp.len) (multivalue_loop b sp f i n current len hsa)
  unfolding multivalue_loop
  multivalue_loop-IsBelow sp f i zero current len hsa e at_i fits ne k =
      let last : StringSpan = record current { len = len } in
      let written =
        IsBelow-le {n = sp.s + sp.len} (highlight_multivalue_value b last f hsa) (omega arith)
          (highlight_multivalue_value-IsBelow last hsa k f) in
      let marked = mark_delimiter-IsBelow (sp.s + sp.len) hsa ne (IsBelow-le hsa (omega arith) k) in
      ground (arith, written, marked)
  multivalue_loop-IsBelow sp f i (suc n) current len hsa e at_i fits ne k =
      let value : StringSpan = record current { len = len } in
      let comma : StringSpan = record { s = sp.s + i; len = 1 } in
      let values = highlight_multivalue_value b value f hsa in
      let valued =
        IsBelow-le {n = sp.s + i} values (omega arith)
          (highlight_multivalue_value-IsBelow value hsa k f) in
      let behind_comma =
        multivalue_loop-IsBelow sp f (i + 1) n (record { s = sp.s + i + 1; len = 0 }) 0
          (append comma delimiter values) (omega arith) (omega arith) (omega arith)
          (append-ne-nil comma delimiter values (omega arith))
          (append-IsBelow (sp.s + i + 1) comma delimiter values (omega arith) valued) in
      let longer : StringSpan = record current { len = current.len + 1 } in
      let blank =
        multivalue_loop-IsBelow sp f (i + 1) n longer len hsa (omega arith) (omega arith)
          (omega arith) ne k in
      let other =
        multivalue_loop-IsBelow sp f (i + 1) n longer (current.len + 1) hsa (omega arith)
          (omega arith) (omega arith) ne k in
      let skipped =
        multivalue_loop-IsBelow sp f (i + 1) n (record current { s = current.s + 1 }) len hsa
          (omega arith) (omega arith) (omega arith) ne (IsBelow-le hsa (omega arith) k) in
      ground (arith, behind_comma, skipped, blank, other)

  highlight_multivalue-IsBelow :
      (sp : StringSpan) (f : Field) (hsa : Spans)
      → hsa ≢ []
      → IsBelow sp.s hsa
      → IsSomeBelow (sp.s + sp.len) (highlight_multivalue b sp f hsa)
  unfolding highlight_multivalue
  highlight_multivalue-IsBelow sp f hsa ne k =
      multivalue_loop-IsBelow sp f 0 sp.len (record { s = sp.s; len = 0 }) 0 hsa (omega arith)
        (omega arith) (omega arith) ne k

  -- A value that follows a span gives no panic, and spans that lie within it.
  pub highlight_value-IsBelow :
      (sp : StringSpan) (f : Field) (hsa : Spans)
      → hsa ≢ []
      → IsBelow sp.s hsa
      → IsSomeBelow (sp.s + sp.len) (highlight_value b sp f hsa)
  unfolding highlight_value
  highlight_value-IsBelow sp Field.endpoint hsa ne k = endpoint_value-IsBelow sp hsa k
  highlight_value-IsBelow sp Field.address hsa ne k =
      highlight_multivalue-IsBelow sp Field.address hsa ne k
  highlight_value-IsBelow sp Field.dns hsa ne k = highlight_multivalue-IsBelow sp Field.dns hsa ne k
  highlight_value-IsBelow sp Field.allowed_ips hsa ne k =
      highlight_multivalue-IsBelow sp Field.allowed_ips hsa ne k
  highlight_value-IsBelow sp f hsa ne k = one-IsBelow sp hsa k (single_value b sp f)
