-- ===== src/DomainRouting/LoopbackLaws.antt =====
-- manager/domainrouting.go: the addresses that the changed AllowedIPs route into the tunnel.
use amneziawg_windows_client.Common.{
  any, ◌/◌, false, ◌+◌, ℕ, ◌%◌, leb, List, ltb, ◌<◌, ◌==◌, ◌≡◌, arith, Bool, ◌-◌, ◌&&◌, ◌^◌, [],
  ◌*◌, Option, none, true, ◌≤◌, ◌∷◌, some, leb→le, ap, false≢true, &&_iff, if◌then◌else◌, Bool_ext,
  ==_iff, ltb→lt, inr, ◌||◌, none-ne-some, not, inl, ◌++◌, ◌∙◌, refl, Bool-cases,
}
use amneziawg_windows_client.DomainRouting.Loopback.{
  v6, Ip, IpCidr, v4, same_ip, below_loopback, above_loopback, allowed_ips_excluding_loopback,
}
use native.Mathlib.Nat.{div-lt_iff_lt-mul, mod-add-div', le-div_iff_mul-le}

-- The first `cidr` bits of the two addresses agree.
abbrev pub same_prefix : ℕ → Ip → Ip → Bool
same_prefix cidr (v4 b) (v4 a) = a / 2 ^ (32 - cidr) == b / 2 ^ (32 - cidr)
same_prefix cidr (v6 b) (v6 a) = a / 2 ^ (128 - cidr) == b / 2 ^ (128 - cidr)
same_prefix cidr _ _ = false

-- The network holds the address.
unfoldable pub contains : Ip → IpCidr → Bool
contains ip x = same_prefix x.cidr x.ip ip

abbrev pub covers : Ip → List IpCidr → Bool
covers ip xs = any (contains ip) xs

-- A block of `s` addresses that starts at a multiple of `s`.
aligned_block : (a b s : ℕ) → 0 < s → b % s ≡ 0 → (a / s == b / s) ≡ (leb b a && ltb a (b + s))
aligned_block a b s h e =
    let q = b / s in
    let start : q * s ≡ b = omega (arith, mod-add-div' b s) in
    let end : (q + 1) * s ≡ b + s = omega arith in
    let low = le-div_iff_mul-le {k = s} {x = q} {y = a} h in
    let high = div-lt_iff_lt-mul {k = s} {x = a} {y = q + 1} h in
    Bool_ext (a / s == q) (leb b a && ltb a (b + s)) (
      λ t.
          let same : a / s ≡ q = (==_iff (a / s) q).0 t in
          let from : q * s ≤ a = low.0 (omega arith) in
          let to : a < (q + 1) * s = high.0 (omega arith) in ground arith,
      λ t.
          let both = (&&_iff (leb b a) (ltb a (b + s))).0 t in
          let from : b ≤ a = leb→le b a both.0 in
          let to : a < b + s = ltb→lt a (b + s) both.1 in
          let over : q ≤ a / s = low.1 (omega arith) in
          let under : a / s < q + 1 = high.1 (omega arith) in (==_iff (a / s) q).1 (omega arith),
    )

-- The end of the addresses that IPv4 networks cover which begin at `lo`, are aligned, and follow on
-- one another.
chain : ℕ → List IpCidr → Option ℕ
chain lo [] = some lo
chain lo (x ∷ rest) =
    let later = chain (lo + 2 ^ (32 - x.cidr)) rest in
    if same_ip x.ip (v4 lo) && lo % 2 ^ (32 - x.cidr) == 0 && ltb 0 (2 ^ (32 - x.cidr))
    then later
    else none

block-contains :
    (a lo : ℕ) (x : IpCidr)
    → x.ip ≡ v4 lo
    → lo % 2 ^ (32 - x.cidr) ≡ 0
    → 0 < 2 ^ (32 - x.cidr)
    → contains (v4 a) x ≡ (leb lo a && ltb a (lo + 2 ^ (32 - x.cidr)))
unfolding contains
block-contains a lo x e m p = rw e (aligned_block a lo (2 ^ (32 - x.cidr)) p m)

same_ip_v4 : (i : Ip) (lo : ℕ) → same_ip i (v4 lo) ≡ true → i ≡ v4 lo
same_ip_v4 (v4 b) lo h = ap v4 ((==_iff b lo).0 h)
same_ip_v4 (v6 b) lo h = absurd (false≢true h)

chain_cons :
    (lo : ℕ) {hi : ℕ} (x : IpCidr) (rest : List IpCidr)
    → chain lo (x ∷ rest) ≡ some hi
    → (x.ip ≡ v4 lo)
      × (lo % 2 ^ (32 - x.cidr) ≡ 0)
      × (0 < 2 ^ (32 - x.cidr))
      × (chain (lo + 2 ^ (32 - x.cidr)) rest ≡ some hi)
unfolding chain
chain_cons lo {hi} x rest e =
    let s = 2 ^ (32 - x.cidr) in
    let starts = same_ip x.ip (v4 lo) in
    let fits = lo % s == 0 in
    elim (Bool-cases (starts && fits && ltb 0 s)) [
      | inl ok ↦
          let both = (&&_iff (starts && fits) (ltb 0 s)).0 ok in
          let first = (&&_iff starts fits).0 both.0 in
          (same_ip_v4 x.ip lo first.0, (==_iff (lo % s) 0).0 first.1, ltb→lt 0 s both.1, rw ok at e)
      | inr broken ↦ absurd (none-ne-some hi (rw broken at e))
    ]

two_blocks :
    (a lo mid hi : ℕ) (p q : Bool)
    → lo ≤ mid
    → mid ≤ hi
    → p ≡ (leb lo a && ltb a mid)
    → q ≡ (leb mid a && ltb a hi)
    → (p || q) ≡ (leb lo a && ltb a hi)
two_blocks a lo mid hi p q h k e f = ground arith

covers-chain :
    (a lo : ℕ) {hi : ℕ} (xs : List IpCidr)
    → chain lo xs ≡ some hi
    → (lo ≤ hi) × (covers (v4 a) xs ≡ (leb lo a && ltb a hi))
covers-chain a lo [] e = unfold chain in ground arith
covers-chain a lo {hi} (x ∷ rest) e =
    let parts = chain_cons lo x rest e in
    let mid = lo + 2 ^ (32 - x.cidr) in
    let later = covers-chain a mid rest parts.3 in
    (
      omega arith,
      two_blocks a lo mid hi (contains (v4 a) x) (covers (v4 a) rest) (omega arith) later.0
          (block-contains a lo x parts.0 parts.1 parts.2) later.1,
    )

below_chain : chain 0 below_loopback ≡ some 2130706433
unfolding chain
below_chain = refl

above_chain : chain 2130706434 above_loopback ≡ some (2 ^ 32)
unfolding chain
above_chain = refl

pub covers-append :
    (ip : Ip) (xs ys : List IpCidr) → covers ip (xs ++ ys) ≡ (covers ip xs || covers ip ys)
covers-append ip [] ys = refl
covers-append ip (x ∷ xs) ys = ground (arith, covers-append ip xs ys)

around :
    (a : ℕ) (p q : Bool)
    → a < 2 ^ 32
    → p ≡ (leb 0 a && ltb a 2130706433)
    → q ≡ (leb 2130706434 a && ltb a (2 ^ 32))
    → (p || q) ≡ not (a == 2130706433)
around a p q h e f = ground arith

abbrev pub is_loopback_address : ℕ → Bool
is_loopback_address a = a == 2130706433

-- The subnets of allowedIPsExcludingLoopback hold every IPv4 address but 127.0.0.1.
pub covers-allowed_ips_excluding_loopback :
    (a : ℕ)
    → a < 2 ^ 32
    → covers (v4 a) allowed_ips_excluding_loopback ≡ not (is_loopback_address a)
unfolding allowed_ips_excluding_loopback
covers-allowed_ips_excluding_loopback a h =
    let low = (covers-chain a 0 below_loopback below_chain).1 in
    let high = (covers-chain a 2130706434 above_loopback above_chain).1 in
    covers-append (v4 a) below_loopback above_loopback
    ∙ around a (covers (v4 a) below_loopback) (covers (v4 a) above_loopback) h low high
