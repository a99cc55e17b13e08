-- ===== src/Syntax/Address.antt =====
-- ui/syntax/highlighter.go: the tests of addresses, networks, endpoints and header ranges.
use amneziawg_windows_client.Common.{
  ℕ, some, ◌-◌, ltb, ◌==◌, if◌then◌else◌, leb, none, suc, ◌||◌, ◌+◌, Bool, ◌&&◌, not, false, zero,
  true, ◌*◌, Option,
}
use amneziawg_windows_client.Common.Text.{Text}
use amneziawg_windows_client.Syntax.{
  StringSpan, is_decimal, is_hexadecimal, at, is_valid_uint, is_valid_port, is_valid_hostname,
  is_valid_scope, decimal_from,
}

module _ (b : Text) where
  -- The first `c` among the `n` bytes from index `i` on.
  unfoldable pub find_from : ℕ → StringSpan → ℕ → ℕ → Option ℕ
  find_from c sp i zero = none
  find_from c sp i (suc n) =
      let later = find_from c sp (i + 1) n in if at b sp i == c then some i else later

  -- The inner loop of isValidIPv4: how many digits follow `pos + j`, three in all at most, and the
  -- number that they spell.
  unfoldable pub octet : StringSpan → ℕ → ℕ → ℕ → ℕ → ℕ × ℕ
  octet sp pos j val zero = (j, val)
  octet sp pos j val (suc n) =
      let c = at b sp (pos + j) in
      let more = octet sp pos (j + 1) (10 * val + (c - b'0')) n in
      if ltb (pos + j) sp.len && is_decimal c then more else (j, val)

  -- The loop of isValidIPv4 with `n` rounds left; the last one is round 3.
  unfoldable pub ipv4_loop : StringSpan → ℕ → ℕ → Bool
  ipv4_loop sp pos zero = false
  ipv4_loop sp pos (suc n) =
      let (j, val) = octet sp pos 0 0 3 in
      let next = ipv4_loop sp (pos + j + 1) n in
      if not (ltb pos sp.len)
      then false
      else if j == 0 || (ltb 1 j && at b sp pos == b'0') || ltb 255 val
      then false
      else if pos + j == sp.len && n == 0
      then true
      else if not (at b sp (pos + j) == b'.')
      then false
      else next

  unfoldable pub is_valid_ipv4 : StringSpan → Bool
  is_valid_ipv4 sp = ipv4_loop sp 0 4

  -- The inner loop of isValidIPv6: the hexadecimal digits from `pos + j` on, four at most.
  unfoldable pub group : StringSpan → ℕ → ℕ → ℕ → ℕ
  group sp pos j zero = j
  group sp pos j (suc n) =
      let more = group sp pos (j + 1) n in
      if ltb (pos + j) sp.len && is_hexadecimal (at b sp (pos + j)) then more else j

  -- The loop of isValidIPv6 at round `i`. A round that goes on moves `pos`, so as many rounds as
  -- bytes are enough, and when they are used up `pos` is at the end.
  unfoldable pub ipv6_loop : StringSpan → ℕ → ℕ → Bool → ℕ → Bool
  ipv6_loop sp pos i seen_colon zero = true
  ipv6_loop sp pos i seen_colon (suc n) =
      let j = group sp pos 0 4 in
      let behind_colon = ipv6_loop sp (pos + 1) (i + 1) true n in
      let next = ipv6_loop sp (pos + j + 1) (i + 1) seen_colon n in
      let dotted = is_valid_ipv4 (record { s = sp.s + pos; len = sp.len - pos }) in
      if not (ltb pos sp.len)
      then true
      else if at b sp pos == b':' && not seen_colon
      then (if pos + 1 == sp.len then true else if i == 7 then false else behind_colon)
      else if j == 0
      then false
      else if pos + j == sp.len && (seen_colon || i == 7)
      then true
      else if i == 7
      then false
      else if not (at b sp (pos + j) == b':')
      then (if not (at b sp (pos + j) == b'.') || (ltb i 6 && not seen_colon)
          then false
          else dotted)
      else next

  unfoldable pub is_valid_ipv6 : StringSpan → Bool
  is_valid_ipv6 sp =
      if ltb sp.len 2
      then false
      else if at b sp 0 == b':' && not (at b sp 1 == b':')
      then false
      else if at b sp (sp.len - 1) == b':' && not (at b sp (sp.len - 2) == b':')
      then false
      else ipv6_loop sp (if at b sp 0 == b':' then 1 else 0) 0 false sp.len

  -- The loop of isValidEndpoint behind a `[`, at index `i` with `n` bytes left; `host` is hostspan.
  unfoldable pub bracket_loop : StringSpan → ℕ → Bool → StringSpan → ℕ → Bool
  bracket_loop sp i seen_scope host zero = false
  bracket_loop sp i seen_scope host (suc n) =
      let c = at b sp i in
      let scope = bracket_loop sp (i + 1) true (record { s = sp.s + i + 1; len = 0 }) n in
      let longer = bracket_loop sp (i + 1) seen_scope (record host { len = host.len + 1 }) n in
      let port = is_valid_port b (record { s = sp.s + i + 2; len = sp.len - i - 2 }) in
      if c == b'%'
      then (if seen_scope then false else if not (is_valid_ipv6 host) then false else scope)
      else if c == b']'
      then (if seen_scope && not (is_valid_scope b host)
          then false
          else if not seen_scope && not (is_valid_ipv6 host)
          then false
          else if i + 1 == sp.len || not (at b sp (i + 1) == b':')
          then false
          else port)
      else longer

  unfoldable pub is_valid_endpoint : StringSpan → Bool
  is_valid_endpoint sp =
      if sp.len == 0
      then false
      else if at b sp 0 == b'['
      then bracket_loop sp 1 false (record { s = sp.s + 1; len = 0 }) (sp.len - 1)
      else elim (find_from b':' sp 0 sp.len) [
        | none ↦ false
        | some i ↦
            let host : StringSpan = record { s = sp.s; len = i } in
            let port : StringSpan = record { s = sp.s + i + 1; len = sp.len - i - 1 } in
            is_valid_port b port && (is_valid_ipv4 host || is_valid_hostname b host)
      ]

  -- Three digits at most: the uint16 of the source does not wrap.
  unfoldable pub is_valid_network : StringSpan → Bool
  is_valid_network sp = elim (find_from b'/' sp 0 sp.len) [
    | none ↦ is_valid_ipv4 sp || is_valid_ipv6 sp
    | some i ↦
        let ip : StringSpan = record { s = sp.s; len = i } in
        let cidr : StringSpan = record { s = sp.s + i + 1; len = sp.len - i - 1 } in
        if ltb 3 cidr.len || cidr.len == 0 then false else elim (decimal_from b cidr.s cidr.len 0) [
          | none ↦ false
          | some cidrval ↦
              if is_valid_ipv4 ip
              then leb cidrval 32
              else if is_valid_ipv6 ip
              then leb cidrval 128
              else false
        ]
  ]

  unfoldable pub is_valid_h_field : StringSpan → Bool
  is_valid_h_field sp = elim (find_from b'-' sp 0 sp.len) [
    | none ↦ is_valid_uint b false 0 2147483647 sp
    | some i ↦
        is_valid_uint b false 0 2147483647 (record { s = sp.s; len = i })
        && is_valid_uint b false 0 2147483647 (record { s = sp.s + i + 1; len = sp.len - i - 1 })
  ]
