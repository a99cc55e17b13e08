-- ===== src/LocalRecords/SavedLaws.antt =====
-- manager/blocklist.go: the saved text of the local records is read back.
use amneziawg_windows_client.Common.{
  ◌≡◌, ◌∷◌, ◌++◌, true, false, refl, ap, reverse, ==_self, all, is_nil, ◌∙◌, [], not, Bool, ◌&&◌,
  some, sym, ℕ, List, ◌==◌, arith, All, ==_iff, false≢true, Bool-cases, inr, &&_iff, map, inl,
}
use amneziawg_windows_client.Common.Text.{
  split_onto, Text, cut_byte, trim_space, contains_byte, join, is_space, trim_left, split,
}
use amneziawg_windows_client.LocalRecords.{
  LocalDnsRecord, print_record, parse_items, parse_item, load_local_records, save_local_records,
}
use mathlib.Core.List.{reverse-reverse, reverse-append, append_assoc, append-nil}
use mathlib.Core.Path.{subst}

-- A byte that the format gives no meaning in an address, and in a domain.
abbrev pub is_free : ℕ → Bool
is_free c = not (is_space c) && not (c == b';')

abbrev pub is_free_key : ℕ → Bool
is_free_key c = is_free c && not (c == b'=')

-- Both parts are there, and hold no byte that the format gives a meaning.
abbrev pub IsStored : LocalDnsRecord → Type 0
IsStored r =
    (is_nil r.domain ≡ false)
    × (is_nil r.ip ≡ false)
    × (all is_free_key r.domain ≡ true)
    × (all is_free r.ip ≡ true)

split_onto-last :
    (b : ℕ) (part s : Text) → contains_byte s b ≡ false → split_onto b part s ≡ (part ++ s) ∷ []
unfolding split_onto contains_byte
split_onto-last b part [] h = ap (λ x. x ∷ []) (sym (append-nil part))
split_onto-last b part (c ∷ s) h =
    let other : (c == b) ≡ false = ground arith in
    rw other (
      split_onto-last b (part ++ c ∷ []) s (ground arith)
      ∙ ap (λ x. x ∷ []) (append_assoc part (c ∷ []) s))

split_onto-next :
    (b : ℕ) (part s rest : Text)
    → contains_byte s b ≡ false
    → split_onto b part (s ++ b ∷ rest) ≡ (part ++ s) ∷ split_onto b [] rest
unfolding split_onto contains_byte
split_onto-next b part [] rest h =
    rw (==_self b) (ap (λ x. x ∷ split_onto b [] rest) (sym (append-nil part)))
split_onto-next b part (c ∷ s) rest h =
    let other : (c == b) ≡ false = ground arith in
    rw other (
      split_onto-next b (part ++ c ∷ []) s rest (ground arith)
      ∙ ap (λ x. x ∷ split_onto b [] rest) (append_assoc part (c ∷ []) s))

split_onto-join :
    (b : ℕ) (p : Text) (ps : List Text)
    → contains_byte p b ≡ false
    → All (λ q. contains_byte q b ≡ false) ps
    → split_onto b [] (join b (p ∷ ps)) ≡ p ∷ ps
unfolding join
split_onto-join b p [] h hs = split_onto-last b [] p h
split_onto-join b p (q ∷ ps) h hs =
    split_onto-next b [] p (join b (q ∷ ps)) h ∙ ap (◌∷◌ p) (split_onto-join b q ps hs.0 hs.1)

cut_byte-first :
    (b : ℕ) (s rest : Text)
    → contains_byte s b ≡ false
    → cut_byte b (s ++ b ∷ rest) ≡ (s, some rest)
unfolding cut_byte contains_byte
cut_byte-first b [] rest h = rw (==_self b) refl
cut_byte-first b (c ∷ s) rest h =
    let other : (c == b) ≡ false = ground arith in
    rw other (ap (λ x. (c ∷ x.0, x.1)) (cut_byte-first b s rest (ground arith)))

all-append : (f : ℕ → Bool) (s t : Text) → all f s ≡ true → all f t ≡ true → all f (s ++ t) ≡ true
all-append f [] t h k = k
all-append f (c ∷ s) t h k = ground (arith, all-append f s t)

all-reverse : (f : ℕ → Bool) (s : Text) → all f s ≡ true → all f (reverse s) ≡ true
all-reverse f [] h = refl
all-reverse f (c ∷ s) h =
    rw (reverse-append (c ∷ []) s)
      (all-append f (reverse s) (c ∷ []) (all-reverse f s (ground arith)) (ground arith))

trim_left-free : (s : Text) → all is_free s ≡ true → trim_left s ≡ s
unfolding trim_left
trim_left-free [] h = refl
trim_left-free (c ∷ s) h = ground arith

trim_space-free : (s : Text) → all is_free s ≡ true → trim_space s ≡ s
unfolding trim_space
trim_space-free s h =
    rw (trim_left-free s h)
      (rw (trim_left-free (reverse s) (all-reverse is_free s h)) (reverse-reverse s))

contains_byte-none :
    (f : ℕ → Bool) (b : ℕ) (s : Text) → f b ≡ false → all f s ≡ true → contains_byte s b ≡ false
unfolding contains_byte
contains_byte-none f b [] e h = refl
contains_byte-none f b (c ∷ s) e h = elim (Bool-cases (c == b)) [
  | inl same ↦
      let here : f c ≡ true = ((&&_iff (f c) (all f s)).0 h).0 in
      absurd (false≢true (sym e ∙ subst (λ x. f x ≡ true) ((==_iff c b).0 same) here))
  | inr other ↦
      let there : all f s ≡ true = ((&&_iff (f c) (all f s)).0 h).1 in
      rw other (contains_byte-none f b s e there)
]

all-is_free : (s : Text) → all is_free_key s ≡ true → all is_free s ≡ true
all-is_free [] h = refl
all-is_free (c ∷ s) h = ground (arith, all-is_free s)

print_record-free : (r : LocalDnsRecord) → IsStored r → all is_free (print_record r) ≡ true
unfolding print_record is_space
print_record-free r h = all-append is_free r.domain (b'=' ∷ r.ip) (all-is_free r.domain h.2) h.3

is_nil-print_record : (r : LocalDnsRecord) → IsStored r → is_nil (print_record r) ≡ false
unfolding print_record
is_nil-print_record r h = behind r.domain
  where
    behind : (s : Text) → is_nil (s ++ b'=' ∷ r.ip) ≡ false
    behind [] = refl
    behind (c ∷ s) = refl

parse_item-print_record : (r : LocalDnsRecord) → IsStored r → parse_item (print_record r) ≡ some r
unfolding parse_item
parse_item-print_record r h =
    let whole = trim_space-free (print_record r) (print_record-free r h) in
    let parts : cut_byte b'=' (print_record r) ≡ (r.domain, some r.ip) =
      unfold print_record in
      cut_byte-first b'=' r.domain r.ip
        (contains_byte-none is_free_key b'=' r.domain (ground arith) h.2) in
    let left = trim_space-free r.domain (all-is_free r.domain h.2) in
    let right = trim_space-free r.ip h.3 in
    let filled = is_nil-print_record r h in
    ground (arith, whole, parts, left, right, filled, h.0, h.1)

parse_items-print_record :
    (rs : List LocalDnsRecord) → All IsStored rs → parse_items (map print_record rs) ≡ rs
unfolding parse_items
parse_items-print_record [] h = refl
parse_items-print_record (r ∷ rs) h =
    ground (arith, parse_item-print_record r h.0, parse_items-print_record rs h.1)

print_record-apart : (r : LocalDnsRecord) → IsStored r → contains_byte (print_record r) b';' ≡ false
print_record-apart r h =
    contains_byte-none is_free b';' (print_record r) (ground arith) (print_record-free r h)

print_records-apart :
    (rs : List LocalDnsRecord)
    → All IsStored rs
    → All (λ s. contains_byte s b';' ≡ false) (map print_record rs)
print_records-apart [] h = tt
print_records-apart (r ∷ rs) h = (print_record-apart r h.0, print_records-apart rs h.1)

is_nil-join : (p : Text) (ps : List Text) → is_nil p ≡ false → is_nil (join b';' (p ∷ ps)) ≡ false
unfolding join
is_nil-join p [] h = h
is_nil-join [] (q ∷ ps) h = ground arith
is_nil-join (c ∷ p) (q ∷ ps) h = refl

-- The records that are saved are the records that are loaded, in their order, where no part is empty
-- or holds a blank or a semicolon, and no domain holds an equals sign.
pub load-save_local_records :
    (rs : List LocalDnsRecord) → All IsStored rs → load_local_records (save_local_records rs) ≡ rs
unfolding load_local_records save_local_records split join
load-save_local_records [] h = refl
load-save_local_records (r ∷ rs) h =
    let filled = is_nil-join (print_record r) (map print_record rs) (is_nil-print_record r h.0) in
    rw filled (
      ap parse_items (
        split_onto-join b';' (print_record r) (map print_record rs) (print_record-apart r h.0)
          (print_records-apart rs h.1))
      ∙ parse_items-print_record (r ∷ rs) h)
