-- ===== src/Common/Text/Laws.antt =====
-- Laws of the text functions.
use Prim.Native.Nat.{ℕ, ◌-◌, ◌+◌, ◌/◌, ◌%◌, ◌<◌, zero, suc}
use amneziawg_windows_client.Common.Lists.{
  length, take, drop, All, length-append, take-append-drop, drop-length,
}
use amneziawg_windows_client.Common.Tests.{&&_iff, le→leb, if_both, ◌==◌}
use amneziawg_windows_client.Common.Text.{
  Text, ◌=ᵗ◌, lower_byte, to_lower, has_suffix, decimal, decimal_onto,
}
use mathlib.Core.Bool.{true}
use mathlib.Core.List.{[], ◌∷◌, ◌++◌}
use mathlib.Core.Logic.{◌↔◌}
use mathlib.Core.Path.{◌≡◌, refl, sym, ap, ◌∙◌}
use native.Mathlib.Omega.{arith}

pub =ᵗ_iff : (a b : Text) → ((a =ᵗ b) ≡ true) ↔ (a ≡ b)
unfolding ◌=ᵗ◌
=ᵗ_iff (x ∷ a) (y ∷ b) = ground (arith, =ᵗ_iff a b)
=ᵗ_iff _ _ = ground arith

pub =ᵗ_self : (a : Text) → (a =ᵗ a) ≡ true
=ᵗ_self a = (=ᵗ_iff a a).1 refl

lower_byte_idem : (c : ℕ) → lower_byte (lower_byte c) ≡ lower_byte c
unfolding lower_byte
lower_byte_idem c = ground arith

pub to_lower_idem : (s : Text) → to_lower (to_lower s) ≡ to_lower s
unfolding to_lower
to_lower_idem [] = refl
to_lower_idem (c ∷ s) = cc (lower_byte_idem c, to_lower_idem s)

-- A suffix is exactly what stands behind some text.
pub suffix_of_has : (s suffix : Text) → has_suffix s suffix ≡ true → (p : Text) × (s ≡ p ++ suffix)
unfolding has_suffix
suffix_of_has s suffix h =
    let n = length s - length suffix in
    let e : drop n s ≡ suffix = (=ᵗ_iff _ _).0 ((&&_iff _ _).0 h).1 in
    (take n s, sym (take-append-drop n s) ∙ ap (λ r. take n s ++ r) e)

pub has_of_suffix : (p suffix : Text) → has_suffix (p ++ suffix) suffix ≡ true
unfolding has_suffix
has_of_suffix p suffix =
    let n : length (p ++ suffix) - length suffix ≡ length p =
      omega (arith, length-append p suffix) in
    (&&_iff _ _).1 (
      le→leb _ _ (omega (arith, length-append p suffix)),
      (=ᵗ_iff _ _).1 (rw n (drop-length p suffix)),
    )

-- A printed number holds digits.
decimal_onto-digits :
    (f n : ℕ) (acc : Text) → All (λ c. c < 58) acc → All (λ c. c < 58) (decimal_onto f n acc)
unfolding decimal_onto
decimal_onto-digits zero n acc h = h
decimal_onto-digits (suc f) n acc h =
    let longer : Text = (48 + n % 10) ∷ acc in
    let more : All (λ c. c < 58) longer = (omega arith, h) in
    if_both (All (λ c. c < 58)) (n / 10 == 0) more (decimal_onto-digits f (n / 10) longer more)

pub decimal-digits : (n : ℕ) → All (λ c. c < 58) (decimal n)
unfolding decimal
decimal-digits n = decimal_onto-digits (suc n) n [] tt
