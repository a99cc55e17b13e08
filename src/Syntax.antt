-- ===== src/Syntax.antt =====
-- ui/syntax/highlighter.go: spans of the text, and the tests of one value.
--
-- A `StringSpan` of the source points into the bytes of the configuration, which a zero byte ends.
-- Here it is the offset and the length, and the bytes `b` are a section's parameter; a read behind
-- the zero byte, which the source never makes, gives zero.
pub mod Junk
pub mod Address
pub mod Field
pub mod Highlight
pub mod Config
pub mod ValueLaws
pub mod LineLaws
pub mod ConfigLaws
pub mod SpanOrder
use Prim.Native.Nat.{bit_or, bit_and}
use amneziawg_windows_client.Common.{
  ℕ, some, ◌-◌, ltb, ◌==◌, ◌∷◌, if◌then◌else◌, [], leb, any, none, length, suc, ◌||◌, ◌+◌, Bool,
  ◌^◌, ◌&&◌, not, false, get_or, zero, true, ◌*◌, Option, ◌%◌,
}
use amneziawg_windows_client.Common.Text.{Text, codes}

pub record StringSpan : Type 0 where
  pub s : ℕ
  pub len : ℕ

unfoldable pub is_decimal : ℕ → Bool
is_decimal c = leb b'0' c && leb c b'9'

unfoldable pub is_alphabet : ℕ → Bool
is_alphabet c = leb b'a' (bit_or c 32) && leb (bit_or c 32) b'z'

unfoldable pub is_hexadecimal : ℕ → Bool
is_hexadecimal c = is_decimal c || (leb b'a' (bit_or c 32) && leb (bit_or c 32) b'f')

-- The difference of two bytes.
abbrev pub byte_sub : ℕ → ℕ → ℕ
byte_sub a b = (a + 256 - b) % 256

-- A byte of isCaselessSame, with the case bit of a letter cleared.
unfoldable pub caseless_byte : ℕ → ℕ
caseless_byte c = if ltb (byte_sub c b'a') 26 then bit_and c 95 else c

-- One of the bytes of a literal.
abbrev pub one_of : Text → ℕ → Bool
one_of set c = any (λ x. c == x) set

module _ (b : Text) where
  -- stringSpan.at, read
  abbrev pub at : StringSpan → ℕ → ℕ
  at sp i = get_or b (sp.s + i) 0

  -- All the `n` bytes from `p` on pass the test.
  unfoldable pub all_from : (ℕ → Bool) → ℕ → ℕ → Bool
  all_from test p zero = true
  all_from test p (suc n) = test (get_or b p 0) && all_from test (p + 1) n

  -- The loop of isSame and isCaselessSame: the bytes from `p` on, each folded, against a literal.
  unfoldable pub same_from : (ℕ → ℕ) → ℕ → Text → Bool
  same_from fold p [] = true
  same_from fold p (c ∷ rest) = fold (get_or b p 0) == fold c && same_from fold (p + 1) rest

  unfoldable pub is_same : StringSpan → Text → Bool
  is_same sp c = sp.len == length c && same_from (λ x. x) sp.s c

  unfoldable pub is_caseless_same : StringSpan → Text → Bool
  is_caseless_same sp c = sp.len == length c && same_from caseless_byte sp.s c

  unfoldable pub is_valid_key : StringSpan → Bool
  is_valid_key sp =
      if not (sp.len == 44) || not (at sp 43 == b'=')
      then false
      else if not (all_from (λ c. is_decimal c || is_alphabet c || c == b'/' || c == b'+') sp.s 42)
      then false
      else one_of (codes "AEIMQUYcgkosw480") (at sp 42)

  -- The loop of isValidHostname at index `i`, with `n` bytes left.
  unfoldable pub hostname_loop : StringSpan → ℕ → ℕ → ℕ → ℕ → Bool
  hostname_loop sp i zero num_digit num_entity = not (num_digit == num_entity)
  hostname_loop sp i (suc n) num_digit num_entity =
      let c = at sp i in
      let digit = hostname_loop sp (i + 1) n (num_digit + 1) num_entity in
      let dot = hostname_loop sp (i + 1) n num_digit (num_entity - 1) in
      let other = hostname_loop sp (i + 1) n num_digit num_entity in
      if is_decimal c
      then digit
      else if c == b'.'
      then dot
      else if not (is_alphabet c) && not (c == b'-')
      then false
      else if not (i == 0) && c == b'.' && at sp (i - 1) == b'.'
      then false
      else other

  unfoldable pub is_valid_hostname : StringSpan → Bool
  is_valid_hostname sp =
      if ltb 63 sp.len || sp.len == 0
      then false
      else if at sp 0 == b'-' || at sp (sp.len - 1) == b'-'
      then false
      else if at sp 0 == b'.' || at sp (sp.len - 1) == b'.'
      then false
      else hostname_loop sp 0 sp.len 0 sp.len

  -- The value of `n` bytes from `p` on, read behind `val`, if all are digits. Ten digits at most
  -- are read, so the uint64 of the source does not wrap.
  unfoldable pub decimal_from : ℕ → ℕ → ℕ → Option ℕ
  decimal_from p zero val = some val
  decimal_from p (suc n) val =
      let c = get_or b p 0 in
      let more = decimal_from (p + 1) n (10 * val + (c - b'0')) in
      if not (is_decimal c) then none else more

  unfoldable pub hexadecimal_from : ℕ → ℕ → ℕ → Option ℕ
  hexadecimal_from p zero val = some val
  hexadecimal_from p (suc n) val =
      let c = get_or b p 0 in
      let digit = hexadecimal_from (p + 1) n (16 * val + byte_sub c b'0') in
      let letter = hexadecimal_from (p + 1) n (16 * val + (byte_sub (bit_or c 32) b'a' + 10)) in
      if ltb (byte_sub c b'0') 10
      then digit
      else if ltb (byte_sub (bit_or c 32) b'a') 6
      then letter
      else none

  abbrev pub in_bounds : ℕ → ℕ → Option ℕ → Bool
  in_bounds lo hi none = false
  in_bounds lo hi (some val) = leb val hi && leb lo val

  unfoldable pub is_valid_uint : Bool → ℕ → ℕ → StringSpan → Bool
  is_valid_uint support_hex lo hi sp =
      if ltb 10 sp.len || sp.len == 0
      then false
      else if support_hex && ltb 2 sp.len && at sp 0 == b'0' && at sp 1 == b'x'
      then in_bounds lo hi (hexadecimal_from (sp.s + 2) (sp.len - 2) 0)
      else in_bounds lo hi (decimal_from sp.s sp.len 0)

  unfoldable pub is_valid_port : StringSpan → Bool
  is_valid_port = is_valid_uint false 0 65535

  unfoldable pub is_valid_mtu : StringSpan → Bool
  is_valid_mtu = is_valid_uint false 576 65535

  unfoldable pub is_valid_table : StringSpan → Bool
  is_valid_table sp =
      is_same sp (codes "off")
      || is_same sp (codes "auto")
      || is_same sp (codes "main")
      || is_valid_uint false 0 (2 ^ 32 - 1) sp

  unfoldable pub is_valid_persistent_keep_alive : StringSpan → Bool
  is_valid_persistent_keep_alive sp =
      if is_same sp (codes "off") then true else is_valid_uint false 0 65535 sp

  unfoldable pub is_valid_pre_post_up_down : StringSpan → Bool
  is_valid_pre_post_up_down sp = not (sp.len == 0)

  unfoldable pub is_valid_scope : StringSpan → Bool
  is_valid_scope sp =
      if ltb 64 sp.len || sp.len == 0
      then false
      else all_from
          (λ c. not (
            is_alphabet c
            && not (is_decimal c)
            && not (c == b'_')
            && not (c == b'=')
            && not (c == b'+')
            && not (c == b'.')
            && not (c == b'-')))
          sp.s sp.len

  unfoldable pub is_valid_i_field : StringSpan → Bool
  is_valid_i_field sp = not (sp.len == 0)
