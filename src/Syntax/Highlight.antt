-- ===== src/Syntax/Highlight.antt =====
-- ui/syntax/highlighter.go: the spans that a value gives.
use amneziawg_windows_client.Common.{
  ◌∷◌, zero, List, some, ◌-◌, ◌==◌, not, Bool, if◌then◌else◌, ◌&&◌, ◌||◌, suc, ℕ, none, false,
  Option, [], ◌+◌,
}
use amneziawg_windows_client.Common.Text.{Text}
use amneziawg_windows_client.Syntax.{
  StringSpan, at, is_valid_pre_post_up_down, is_valid_key, is_valid_hostname, is_valid_i_field,
  is_valid_persistent_keep_alive, is_valid_table, is_valid_uint, is_valid_port, is_valid_mtu,
}
use amneziawg_windows_client.Syntax.Address.{
  find_from, is_valid_ipv4, is_valid_network, is_valid_ipv6, is_valid_endpoint, is_valid_h_field,
}
use amneziawg_windows_client.Syntax.Field.{Field}

pub data Highlight : Type 0 where
  section field private_key public_key preshared_key ip cidr host port mtu keepalive : Highlight
  comment delimiter table cmd jc jmin jmax s1 s2 s3 s4 h1 h2 h3 h4 i1 i2 i3 i4 i5 : Highlight
  warning error : Highlight

pub record HighlightSpan : Type 0 where
  pub t : Highlight
  pub s : ℕ
  pub len : ℕ

unfoldable pub validate_highlight : Bool → Highlight → Highlight
validate_highlight is_valid t = if is_valid then t else error

-- The spans so far, the newest first: `append` of the source adds at the end of a slice.
abbrev pub Spans : Type 0
Spans = List HighlightSpan

unfoldable pub append : StringSpan → Highlight → Spans → Spans
append sp t hsa = if sp.len == 0 then hsa else record { t = t; s = sp.s; len = sp.len } ∷ hsa

-- What highlightMultivalue does to the newest span where the last value is empty. Indexing an empty
-- slice would panic: there the result is `none`.
unfoldable pub mark_delimiter : Spans → Option Spans
mark_delimiter [] = none
mark_delimiter (x ∷ hsa) =
    some (elim x.t [ delimiter ↦ record x { t = error } ∷ hsa | _ ↦ x ∷ hsa ])

module _ (b : Text) where
  -- The three spans of a network, or of an endpoint, that `i` divides.
  abbrev pub append_parts : StringSpan → ℕ → Highlight → Highlight → Spans → Spans
  append_parts sp i front back hsa =
      append (record { s = sp.s + i + 1; len = sp.len - i - 1 }) back
        (append (record { s = sp.s + i; len = 1 }) delimiter
          (append (record { s = sp.s; len = i }) front hsa))

  -- The case of fieldAddress and fieldAllowedIPs.
  unfoldable pub network : StringSpan → Spans → Spans
  network sp hsa =
      if not (is_valid_network b sp)
      then append sp error hsa
      else elim (find_from b b'/' sp 0 sp.len) [
        | none ↦ append sp ip hsa
        | some slash ↦ append_parts sp slash ip cidr hsa
      ]

  unfoldable pub highlight_multivalue_value : StringSpan → Field → Spans → Spans
  highlight_multivalue_value sp Field.dns hsa =
      if is_valid_ipv4 b sp || is_valid_ipv6 b sp
      then append sp ip hsa
      else if is_valid_hostname b sp
      then append sp host hsa
      else append sp error hsa
  highlight_multivalue_value sp Field.address hsa = network sp hsa
  highlight_multivalue_value sp Field.allowed_ips hsa = network sp hsa
  highlight_multivalue_value sp _ hsa = append sp error hsa

  -- The loop of highlightMultivalue at index `i` of `sp`, with `n` bytes left.
  unfoldable pub multivalue_loop :
      StringSpan → Field → ℕ → ℕ → StringSpan → ℕ → Spans → Option Spans
  multivalue_loop sp f i zero current len_at_last_space hsa =
      let last : StringSpan = record current { len = len_at_last_space } in
      if not (len_at_last_space == 0)
      then some (highlight_multivalue_value last f hsa)
      else mark_delimiter hsa
  multivalue_loop sp f i (suc n) current len_at_last_space hsa =
      let c = at b sp i in
      let value : StringSpan = record current { len = len_at_last_space } in
      let comma : StringSpan = record { s = sp.s + i; len = 1 } in
      let fresh : StringSpan = record { s = sp.s + i + 1; len = 0 } in
      let longer : StringSpan = record current { len = current.len + 1 } in
      let behind_comma =
        multivalue_loop sp f (i + 1) n fresh 0
          (append comma delimiter (highlight_multivalue_value value f hsa)) in
      let skipped =
        multivalue_loop sp f (i + 1) n (record current { s = current.s + 1 }) len_at_last_space
          hsa in
      let blank = multivalue_loop sp f (i + 1) n longer len_at_last_space hsa in
      let other = multivalue_loop sp f (i + 1) n longer (current.len + 1) hsa in
      if c == b','
      then behind_comma
      else if c == b' ' || c == b'\t'
      then (if sp.s + i == current.s && current.len == 0 then skipped else blank)
      else other

  unfoldable pub highlight_multivalue : StringSpan → Field → Spans → Option Spans
  unfolding multivalue_loop
  highlight_multivalue sp f hsa = multivalue_loop sp f 0 sp.len (record { s = sp.s; len = 0 }) 0 hsa

  -- The last colon among the first `n` bytes, or 0: the loop in the case of fieldEndpoint.
  unfoldable pub last_colon : StringSpan → ℕ → ℕ
  last_colon sp zero = 0
  last_colon sp (suc n) = let before = last_colon sp n in if at b sp n == b':' then n else before

  unfoldable pub endpoint_value : StringSpan → Spans → Spans
  endpoint_value sp hsa =
      if not (is_valid_endpoint b sp)
      then append sp error hsa
      else append_parts sp (last_colon sp sp.len) host port hsa

  -- The cases of highlightValue that append one span.
  unfoldable pub single_value : StringSpan → Field → Highlight
  single_value sp Field.private_key = validate_highlight (is_valid_key b sp) private_key
  single_value sp Field.public_key = validate_highlight (is_valid_key b sp) public_key
  single_value sp Field.preshared_key = validate_highlight (is_valid_key b sp) preshared_key
  single_value sp Field.mtu = validate_highlight (is_valid_mtu b sp) mtu
  single_value sp Field.table = validate_highlight (is_valid_table b sp) table
  single_value sp Field.pre_up = validate_highlight (is_valid_pre_post_up_down b sp) cmd
  single_value sp Field.post_up = validate_highlight (is_valid_pre_post_up_down b sp) cmd
  single_value sp Field.pre_down = validate_highlight (is_valid_pre_post_up_down b sp) cmd
  single_value sp Field.post_down = validate_highlight (is_valid_pre_post_up_down b sp) cmd
  single_value sp Field.listen_port = validate_highlight (is_valid_port b sp) port
  single_value sp Field.persistent_keepalive =
      validate_highlight (is_valid_persistent_keep_alive b sp) keepalive
  single_value sp Field.jc = validate_highlight (is_valid_uint b false 0 65535 sp) jc
  single_value sp Field.jmin = validate_highlight (is_valid_uint b false 0 65535 sp) jmin
  single_value sp Field.jmax = validate_highlight (is_valid_uint b false 0 65535 sp) jmax
  single_value sp Field.s1 = validate_highlight (is_valid_uint b false 0 65535 sp) s1
  single_value sp Field.s2 = validate_highlight (is_valid_uint b false 0 65535 sp) s2
  single_value sp Field.s3 = validate_highlight (is_valid_uint b false 0 65535 sp) s3
  single_value sp Field.s4 = validate_highlight (is_valid_uint b false 0 65535 sp) s4
  single_value sp Field.h1 = validate_highlight (is_valid_h_field b sp) h1
  single_value sp Field.h2 = validate_highlight (is_valid_h_field b sp) h2
  single_value sp Field.h3 = validate_highlight (is_valid_h_field b sp) h3
  single_value sp Field.h4 = validate_highlight (is_valid_h_field b sp) h4
  single_value sp Field.i1 = validate_highlight (is_valid_i_field b sp) i1
  single_value sp Field.i2 = validate_highlight (is_valid_i_field b sp) i2
  single_value sp Field.i3 = validate_highlight (is_valid_i_field b sp) i3
  single_value sp Field.i4 = validate_highlight (is_valid_i_field b sp) i4
  single_value sp Field.i5 = validate_highlight (is_valid_i_field b sp) i5
  single_value sp _ = error

  unfoldable pub highlight_value : StringSpan → Field → Spans → Option Spans
  unfolding highlight_multivalue endpoint_value
  highlight_value sp Field.endpoint hsa = some (endpoint_value sp hsa)
  highlight_value sp Field.address hsa = highlight_multivalue sp Field.address hsa
  highlight_value sp Field.dns hsa = highlight_multivalue sp Field.dns hsa
  highlight_value sp Field.allowed_ips hsa = highlight_multivalue sp Field.allowed_ips hsa
  highlight_value sp f hsa = some (append sp (single_value sp f) hsa)
