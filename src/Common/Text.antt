-- ===== src/Common/Text.antt =====
-- Go strings as lists of bytes, with the functions of the packages strings and bytes that the
-- program calls. The texts are ASCII: `to_lower`, `equal_fold` and `trim_space` do on bytes below
-- 128 what Go does, and leave the other bytes alone.
pub mod Laws
use Prim.Native.Char.{code}
use Prim.Native.Nat.{ℕ, ◌+◌, ◌-◌, suc, ◌%◌, zero, ◌/◌}
use Prim.Native.String.{String}
use amneziawg_windows_client.Common.Lists.{length, take, drop}
use amneziawg_windows_client.Common.Tests.{leb, ◌==◌, if◌then◌else◌}
use mathlib.Core.Bool.{Bool, true, false, not, ◌&&◌, ◌||◌}
use mathlib.Core.List.{List, [], ◌∷◌, ◌++◌, map, reverse}
use mathlib.Core.Option.{Option, none, some}

abbrev pub Text : Type 0
Text = List ℕ

-- The bytes of an ASCII literal.
abbrev pub codes : String → Text
codes String.[] = []
codes (String.◌∷◌ c s) = code c ∷ codes s

infix 50 ◌=ᵗ◌
unfoldable pub ◌=ᵗ◌ : Text → Text → Bool
[] =ᵗ [] = true
(x ∷ xs) =ᵗ (y ∷ ys) = x == y && xs =ᵗ ys
_ =ᵗ _ = false

-- unicode.ToLower on an ASCII byte.
unfoldable pub lower_byte : ℕ → ℕ
lower_byte c = if leb b'A' c && leb c b'Z' then c + 32 else c

-- strings.ToLower
unfoldable pub to_lower : Text → Text
to_lower s = map lower_byte s

-- strings.EqualFold
unfoldable pub equal_fold : Text → Text → Bool
equal_fold s t = to_lower s =ᵗ to_lower t

-- unicode.IsSpace on an ASCII byte: tab, newline, vertical tab, form feed, return and space.
unfoldable pub is_space : ℕ → Bool
is_space c = leb 9 c && leb c 13 || c == 32

unfoldable pub trim_left : Text → Text
trim_left [] = []
trim_left (c ∷ s) = if is_space c then trim_left s else c ∷ s

-- strings.TrimSpace and bytes.TrimSpace
unfoldable pub trim_space : Text → Text
unfolding trim_left
trim_space s = reverse (trim_left (reverse (trim_left s)))

-- strings.HasPrefix
unfoldable pub has_prefix : Text → Text → Bool
has_prefix s prefix = leb (length prefix) (length s) && take (length prefix) s =ᵗ prefix

-- strings.HasSuffix
unfoldable pub has_suffix : Text → Text → Bool
has_suffix s suffix = leb (length suffix) (length s) && drop (length s - length suffix) s =ᵗ suffix

-- strings.TrimPrefix
unfoldable pub trim_prefix : Text → Text → Text
trim_prefix s prefix = if has_prefix s prefix then drop (length prefix) s else s

-- strings.TrimSuffix
unfoldable pub trim_suffix : Text → Text → Text
trim_suffix s suffix = if has_suffix s suffix then take (length s - length suffix) s else s

-- strings.Contains of a one-byte text.
unfoldable pub contains_byte : Text → ℕ → Bool
contains_byte [] b = false
contains_byte (c ∷ s) b = c == b || contains_byte s b

-- The text before the first `b`, and the text behind it if there is a `b`.
unfoldable pub cut_byte : ℕ → Text → Text × Option Text
cut_byte b [] = ([], none)
cut_byte b (c ∷ s) =
    let (before, after) = cut_byte b s in if c == b then ([], some s) else (c ∷ before, after)

-- strings.Split by a one-byte separator; `split_onto` holds the part that is being read.
unfoldable pub split_onto : ℕ → Text → Text → List Text
split_onto b part [] = part ∷ []
split_onto b part (c ∷ s) =
    let ended = part ∷ split_onto b [] s in
    let longer = split_onto b (part ++ c ∷ []) s in if c == b then ended else longer

unfoldable pub split : ℕ → Text → List Text
unfolding split_onto
split b s = split_onto b [] s

-- strings.Join with a one-byte separator.
unfoldable pub join : ℕ → List Text → Text
join b [] = []
join b (p ∷ []) = p
join b (p ∷ q ∷ r) = p ++ (b ∷ join b (q ∷ r))

-- strings.ReplaceAll of one byte by a text.
unfoldable pub replace_byte : ℕ → Text → Text → Text
replace_byte b new [] = []
replace_byte b new (c ∷ s) = (if c == b then new else c ∷ []) ++ replace_byte b new s

-- The decimal digits of `n` in front of `acc`; one round of the fuel writes one digit.
decimal_onto : ℕ → ℕ → Text → Text
decimal_onto zero n acc = acc
decimal_onto (suc f) n acc =
    let longer = (48 + n % 10) ∷ acc in
    let rest = decimal_onto f (n / 10) longer in if n / 10 == 0 then longer else rest

-- The verb %d, and strconv.FormatUint with base 10. A number has no more digits than its value
-- and one.
unfoldable pub decimal : ℕ → Text
unfolding decimal_onto
decimal n = decimal_onto (suc n) n []
