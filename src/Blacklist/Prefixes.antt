-- ===== src/Blacklist/Prefixes.antt =====
-- A configured prefix, its span of addresses, and the filter: internal/blacklist/manager.go.
use magpie_backend.Prelude.{
  ℕ, zero, suc, ◌+◌, ◌-◌, ◌*◌, ◌/◌, ◌%◌, ◌^◌, ◌≤◌, ◌<◌, ◌==◌, leb, if◌then◌else◌, ◌≡◌, refl, ◌∙◌,
  ap, ap₂, Bool, false, not, ◌&&◌, ◌||◌, Option, none, some, List, [], ◌∷◌, map, All, Bool-cases,
  inl, inr, arith, length, select,
}
use native.Mathlib.Nat.{
  two-pow-succ, mul-div_cancel, div-mul-le_self, lt-div-mul-add, div-eq_of_lt-le,
}
use magpie_backend.Blacklist.{
  Addr, IpRange, Prefix, masked, set_bit, set_low_bits, last_address_in_prefix, span_of,
  valid_prefixes, sort_spans, merge_spans, merge_from, in_range, build_blacklist_range_cache,
  is_blocked_ip, filter_proxies,
}
use magpie_backend.Blacklist.Ranges.{
  holds, any_holds, IsRange, IsSorted, sort_spans-IsSorted, sort_spans-All, sort_spans-any_holds,
  merge_from-any_holds, merge_from-IsSeparated, in_range-any_holds,
}

pow_double : (n : ℕ) → 2 ^ suc n ≡ 2 ^ n + 2 ^ n
pow_double n = two-pow-succ n

pow_pos : (n : ℕ) → 0 < 2 ^ n
pow_pos zero = omega arith
pow_pos (suc n) = omega (arith, pow_pos n, pow_double n)

set_low :
    (n k : ℕ)
    → (if 2 * k % 2 == 0 then 2 * k * 2 ^ n + 2 ^ n else 2 * k * 2 ^ n) ≡ (2 * k + 1) * 2 ^ n
set_low n k = ground arith

-- Bits that are 0 are set from the highest down.
set_low_bits_lem : (n k : ℕ) → set_low_bits n (k * 2 ^ n) + 1 ≡ k * 2 ^ n + 2 ^ n
unfolding set_low_bits
set_low_bits_lem zero k = omega arith
set_low_bits_lem (suc n) k =
    rw high (set_low_bits_lem n (2 * k + 1) ∙ omega (arith, doubled, pow_double n))
  where
    doubled : k * 2 ^ suc n ≡ 2 * k * 2 ^ n
    doubled = grind (arith, pow_double n)

    high : set_bit (2 ^ n) (k * 2 ^ suc n) ≡ (2 * k + 1) * 2 ^ n
    high = rw doubled (unfold set_bit in rw (mul-div_cancel (2 * k) (pow_pos n)) (set_low n k))

-- The specification of a prefix: the address has the prefix's family and its leading bits.
abbrev pub in_prefix : Prefix → Addr → Bool
in_prefix p a =
    let host = 2 ^ (p.addr.bit_len - p.bits) in
    p.addr.bit_len == a.bit_len && p.addr.value / host == a.value / host

abbrev pub any_prefix : List Prefix → Addr → Bool
any_prefix [] a = false
any_prefix (p ∷ ps) a = in_prefix p a || any_prefix ps a

between_iff :
    (v a h e : ℕ)
    → 0 < h
    → e + 1 ≡ v / h * h + h
    → (leb (v / h * h) a && leb a e) ≡ (v / h == a / h)
between_iff v a h e pos top = elim (Bool-cases (v / h == a / h)) [
  | inl t ↦
      let same : v / h ≡ a / h = ground arith in
      rw t (
        ground (arith, ap (λ (q : ℕ). q * h) same, div-mul-le_self a h, lt-div-mul-add {a = a} pos))
  | inr t ↦ elim (Bool-cases (leb (v / h * h) a && leb a e)) [
    | inr f ↦ rw (t, f)
    | inl f ↦
        let low : v / h * h ≤ a = ground arith in
        let high : a < (v / h + 1) * h = grind arith in
        let same : a / h ≡ v / h = div-eq_of_lt-le h low high in absurd (ground arith)
  ]
]

span_of-holds :
    (p : Prefix) (a : Addr) → (holds (span_of p) a ≡ in_prefix p a) × IsRange (span_of p)
unfolding span_of last_address_in_prefix masked
span_of-holds p a =
    let n = p.addr.bit_len - p.bits in
    let top = set_low_bits_lem n (p.addr.value / 2 ^ n) in
    let last = set_low_bits n (p.addr.value / 2 ^ n * 2 ^ n) in
    let iff = between_iff p.addr.value a.value (2 ^ n) last (pow_pos n) top in
    (ground arith, (refl, omega (arith, pow_pos n)))

masked-in_prefix : (p : Prefix) (a : Addr) → in_prefix (masked p) a ≡ in_prefix p a
unfolding masked
masked-in_prefix p a =
    let h = 2 ^ (p.addr.bit_len - p.bits) in
    rw (mul-div_cancel (p.addr.value / h) (pow_pos (p.addr.bit_len - p.bits)))

map-any_holds :
    (ps : List Prefix) (a : Addr)
    → (any_holds (map span_of ps) a ≡ any_prefix ps a) × All IsRange (map span_of ps)
map-any_holds [] a = (refl, tt)
map-any_holds (p ∷ ps) a =
    let (same, range) = span_of-holds p a in
    let (rest, ranges) = map-any_holds ps a in (ap₂ ◌||◌ same rest, (range, ranges))

merge_spans-in_range :
    (ss : List IpRange) (a : Addr)
    → All IsRange ss
    → in_range (some a) (merge_spans (sort_spans ss)) ≡ any_holds ss a
unfolding merge_spans
merge_spans-in_range ss a h =
    go (sort_spans ss) (sort_spans-IsSorted ss) (sort_spans-All ss h) ∙ sort_spans-any_holds ss a
  where
    go :
        (ts : List IpRange)
        → IsSorted ts
        → All IsRange ts
        → in_range (some a) (merge_spans ts) ≡ any_holds ts a
    go [] s r = in_range-any_holds a [] tt
    go (t ∷ ts) s r =
        in_range-any_holds a (merge_from t ts) (merge_from-IsSeparated t ts r.0 r.1 s.0 s.1)
        ∙ merge_from-any_holds t ts a r.0 r.1 s.0 s.1

-- The texts that are prefixes, but for IPv4 addresses written as IPv6.
abbrev pub listed_prefixes : List (Option Prefix) → List Prefix
listed_prefixes [] = []
listed_prefixes (none ∷ ps) = listed_prefixes ps
listed_prefixes (some p ∷ ps) =
    let rest = listed_prefixes ps in if p.is_4_in_6 then rest else p ∷ rest

valid_prefixes-any :
    (ps : List (Option Prefix)) (a : Addr)
    → (any_prefix (valid_prefixes ps).0 a ≡ any_prefix (listed_prefixes ps) a)
      × (length (valid_prefixes ps).0 + (valid_prefixes ps).1 ≡ length ps)
unfolding valid_prefixes
valid_prefixes-any [] a = (refl, refl)
valid_prefixes-any (none ∷ ps) a = let (same, size) = valid_prefixes-any ps a in (same, omega arith)
valid_prefixes-any (some p ∷ ps) a =
    let (same, size) = valid_prefixes-any ps a in
    elim (Bool-cases p.is_4_in_6) [
      | inl t ↦ rw t (same, omega arith)
      | inr t ↦ rw t (ap₂ ◌||◌ (masked-in_prefix p a) same, omega arith)
    ]

-- The compiled cache answers as the configured list does: `inRange` on the sorted and merged spans
-- that `buildBlacklistRangeCache` makes says true exactly for the addresses that one of the valid
-- prefixes covers; and every text of the list is an entry or is counted as invalid.
pub build_blacklist_range_cache-in_range :
    (ranges : List (Option Prefix)) (a : Addr)
    → let (cache, invalid) = build_blacklist_range_cache ranges in
      (in_range (some a) cache.spans ≡ any_prefix (listed_prefixes ranges) a)
      × (length cache.entries + invalid ≡ length ranges)
unfolding build_blacklist_range_cache
build_blacklist_range_cache-in_range ranges a =
    let entries = (valid_prefixes ranges).0 in
    let (same, size) = valid_prefixes-any ranges a in
    let (spans, range) = map-any_holds entries a in
    (merge_spans-in_range (map span_of entries) a range ∙ spans ∙ same, size)

-- `FilterProxies` loses no proxy and makes none up: a proxy is in the blocked list exactly as often
-- as a proxy of the input that is blocked by the set or by the ranges, and the others are allowed,
-- each list in the order of the input.
pub filter_proxies-select :
    {P : Type 0} (ip_of : P → Option Addr) (set : List Addr) (ranges : List IpRange) (ps : List P)
    → filter_proxies ip_of set ranges ps ≡ (
      select (λ p. not (is_blocked_ip set ranges (ip_of p))) ps,
      select (λ p. is_blocked_ip set ranges (ip_of p)) ps,
    )
unfolding filter_proxies
filter_proxies-select ip_of set ranges [] = refl
filter_proxies-select ip_of set ranges (p ∷ ps) =
    let ih = filter_proxies-select ip_of set ranges ps in
    elim (Bool-cases (is_blocked_ip set ranges (ip_of p))) [
      | inl t ↦ rw (t, ih) refl
      | inr t ↦ rw (t, ih) refl
    ]
