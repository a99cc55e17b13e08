-- ===== src/PortFirewall/Quoting.antt =====
-- The scripts of manager/portfirewall.go as PowerShell reads them: text in single quotes, where two
-- quotes stand for one, and code outside. PowerShell takes the typographic single quotes, U+2018 to
-- U+201B, for quotes too. A text is here the list of its code points: psQuote, which replaces an ASCII
-- byte, does the same to them.
use amneziawg_windows_client.Common.{
  true, ap, [], ◌++◌, ◌∙◌, sym, arith, not, ◌≡◌, false, ℕ, Bool, refl, ◌∷◌, if◌then◌else◌, ◌==◌,
  leb, ◌&&◌, ◌||◌, any,
}
use amneziawg_windows_client.Common.Text.{codes, Text, replace_byte}
use amneziawg_windows_client.PortFirewall.Script.{ps_quote}

-- Where the lexer stands. In `ending` it has read a quote inside a literal: the literal is over
-- unless a second one follows.
pub data Place : Type 0 where
  outside inside ending : Place

-- A typographic single quote, which psQuote leaves as it is.
abbrev pub is_typographic : ℕ → Bool
is_typographic c = leb 8216 c && leb c 8219

abbrev pub is_quote : ℕ → Bool
is_quote c = c == b'\'' || is_typographic c

-- The text holds no typographic quote.
abbrev pub Plain : Text → Type 0
Plain s = any is_typographic s ≡ false

unfoldable pub step : Place → ℕ → Place
step outside c = if is_quote c then inside else outside
step inside c = if is_quote c then ending else inside
step ending c = if is_quote c then inside else outside

-- Is the code point code, or the quote that opens a literal?
unfoldable pub is_code : Place → ℕ → Bool
is_code outside c = true
is_code inside c = false
is_code ending c = not (is_quote c)

unfoldable pub place_after : Place → Text → Place
unfolding step
place_after p [] = p
place_after p (c ∷ s) = place_after (step p c) s

-- The script without the contents of its literals.
unfoldable pub code_of : Place → Text → Text
unfolding step is_code
code_of p [] = []
code_of p (c ∷ s) = if is_code p c then c ∷ code_of (step p c) s else code_of (step p c) s

-- The texts hold the same code from the place on, and leave the lexer at the same place.
abbrev pub SameCode : Place → Text → Text → Type 0
SameCode p a b = (code_of p a ≡ code_of p b) × (place_after p a ≡ place_after p b)

pub place_after-append :
    (p : Place) (a b : Text) → place_after p (a ++ b) ≡ place_after (place_after p a) b
unfolding place_after
place_after-append p [] b = refl
place_after-append p (c ∷ a) b = place_after-append (step p c) a b

code_of-append :
    (p : Place) (a b : Text) → code_of p (a ++ b) ≡ code_of p a ++ code_of (place_after p a) b
unfolding code_of place_after
code_of-append p [] b = refl
code_of-append p (c ∷ a) b = ground (arith, code_of-append (step p c) a b)

pub SameCode-append :
    (p : Place) (a b c d : Text)
    → SameCode p a b
    → SameCode (place_after p a) c d
    → SameCode p (a ++ c) (b ++ d)
SameCode-append p a b c d h k = (
  code_of-append p a c ∙ cc (h.0, h.1, k.0) ∙ sym (code_of-append p b d),
  place_after-append p a c ∙ cc (h.1, k.1) ∙ sym (place_after-append p b d),
)

-- Inside a literal an escaped text is data, where it holds no typographic quote.
place_after-replace_byte :
    (s rest : Text)
    → Plain s
    → place_after inside (replace_byte b'\'' (codes "''") s ++ rest) ≡ place_after inside rest
unfolding place_after replace_byte
place_after-replace_byte [] rest h = refl
place_after-replace_byte (c ∷ s) rest h = ground (arith, h, place_after-replace_byte s rest)

code_of-replace_byte :
    (s rest : Text)
    → Plain s
    → code_of inside (replace_byte b'\'' (codes "''") s ++ rest) ≡ code_of inside rest
unfolding code_of replace_byte
code_of-replace_byte [] rest h = refl
code_of-replace_byte (c ∷ s) rest h = ground (arith, h, code_of-replace_byte s rest)

pub place_after-ps_quote : (s : Text) → Plain s → place_after outside (ps_quote s) ≡ ending
unfolding place_after ps_quote
place_after-ps_quote s h = place_after-replace_byte s (codes "'") h

code_of-ps_quote : (s : Text) → Plain s → code_of outside (ps_quote s) ≡ codes "'"
unfolding code_of ps_quote
code_of-ps_quote s h = ap (◌∷◌ b'\'') (code_of-replace_byte s (codes "'") h)

pub SameCode-ps_quote :
    (s t : Text) → Plain s → Plain t → SameCode outside (ps_quote s) (ps_quote t)
SameCode-ps_quote s t h k = (
  code_of-ps_quote s h ∙ sym (code_of-ps_quote t k),
  place_after-ps_quote s h ∙ sym (place_after-ps_quote t k),
)

pub Plain-append : (s t : Text) → Plain s → Plain t → Plain (s ++ t)
Plain-append [] t h k = k
Plain-append (c ∷ s) t h k = ground (arith, h, k, Plain-append s t)
