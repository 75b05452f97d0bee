-- ===== src/Blacklist.antt =====
-- The blacklist of addresses and ranges: internal/blacklist/manager.go. An address of `net/netip` is
-- its bit length, 32 or 128, and its number; zones do not occur in ranges and are left out. A text
-- that `normalizeIP` has made is the address that it writes. What `netip.ParsePrefix` and
-- `netip.ParseAddr` return is an argument. `sort.Search` is its documented result on a sorted slice.
use magpie_backend.Prelude.{
  ℕ, zero, suc, ◌+◌, ◌-◌, ◌*◌, ◌/◌, ◌%◌, ◌^◌, ◌==◌, ltb, leb, if◌then◌else◌, Bool, true, false, not,
  ◌&&◌, Option, none, some, List, [], ◌∷◌, map, select,
}
pub mod Ranges
pub mod Prefixes
mod Examples

pub record Addr : Type 0 where
  pub bit_len : ℕ
  pub value : ℕ

pub record IpRange : Type 0 where
  pub start : Addr
  pub end : Addr

-- `prefix.Addr().Is4In6()` is a flag of the parsed prefix.
pub record Prefix : Type 0 where
  pub addr : Addr
  pub bits : ℕ
  pub is_4_in_6 : Bool

-- `a.Compare(b) <= 0`: by the bit length, then by the number.
abbrev pub addr_le : Addr → Addr → Bool
addr_le a b = if a.bit_len == b.bit_len then leb a.value b.value else ltb a.bit_len b.bit_len

-- `a.Compare(b) < 0`.
abbrev pub addr_lt : Addr → Addr → Bool
addr_lt a b = if a.bit_len == b.bit_len then ltb a.value b.value else ltb a.bit_len b.bit_len

abbrev pub addr_eq : Addr → Addr → Bool
addr_eq a b = a.bit_len == b.bit_len && a.value == b.value

-- `prefix.Masked()`: the bits behind the prefix are 0.
unfoldable pub masked : Prefix → Prefix
masked p =
    let host = 2 ^ (p.addr.bit_len - p.bits) in
    record p { addr = record { bit_len = p.addr.bit_len; value = p.addr.value / host * host } }

-- `bytes[bit/8] |= 1 << (7 - bit%8)`, on the number whose bytes these are; `place` is the power of
-- two of the bit.
unfoldable pub set_bit : ℕ → ℕ → ℕ
set_bit place v = if v / place % 2 == 0 then v + place else v

-- The rounds that are left of the loop `for bit := prefix.Bits(); bit < width; bit++`.
unfoldable pub set_low_bits : ℕ → ℕ → ℕ
set_low_bits zero v = v
set_low_bits (suc n) v = set_low_bits n (set_bit (2 ^ n) v)

unfoldable pub last_address_in_prefix : Prefix → Addr
unfolding masked
last_address_in_prefix prefix =
    let p = masked prefix in
    record { bit_len = p.addr.bit_len; value = set_low_bits (p.addr.bit_len - p.bits) p.addr.value }

unfoldable pub span_of : Prefix → IpRange
unfolding masked last_address_in_prefix
span_of prefix = record { start = (masked prefix).addr; end = last_address_in_prefix prefix }

-- The first loop of `buildBlacklistRangeCache`: the entries, and how many texts are invalid.
unfoldable pub valid_prefixes : List (Option Prefix) → List Prefix × ℕ
unfolding masked
valid_prefixes [] = ([], 0)
valid_prefixes (none ∷ ps) = let (entries, invalid) = valid_prefixes ps in (entries, invalid + 1)
valid_prefixes (some p ∷ ps) =
    let (entries, invalid) = valid_prefixes ps in
    if p.is_4_in_6 then (entries, invalid + 1) else (masked p ∷ entries, invalid)

-- The order of `sort.Slice`: by the start, and the longer range first.
abbrev pub span_before : IpRange → IpRange → Bool
span_before a b = if addr_eq a.start b.start then addr_lt b.end a.end else addr_lt a.start b.start

unfoldable pub insert_span : IpRange → List IpRange → List IpRange
insert_span s [] = s ∷ []
insert_span s (x ∷ xs) = if span_before x s then x ∷ insert_span s xs else s ∷ x ∷ xs

unfoldable pub sort_spans : List IpRange → List IpRange
sort_spans [] = []
sort_spans (s ∷ ss) = insert_span s (sort_spans ss)

abbrev pub overlaps : IpRange → IpRange → Bool
overlaps last span = last.start.bit_len == span.start.bit_len && addr_le span.start last.end

abbrev pub extend : IpRange → IpRange → IpRange
extend last span = if addr_lt last.end span.end then record last { end = span.end } else last

-- The second loop; `last` is the last span of `merged`, and the result is `merged` from there on.
unfoldable pub merge_from : IpRange → List IpRange → List IpRange
merge_from last [] = last ∷ []
merge_from last (span ∷ spans) =
    let joined = merge_from (extend last span) spans in
    let apart = last ∷ merge_from span spans in if overlaps last span then joined else apart

unfoldable pub merge_spans : List IpRange → List IpRange
unfolding merge_from
merge_spans [] = []
merge_spans (span ∷ spans) = merge_from span spans

pub record BlacklistRangeCache : Type 0 where
  pub spans : List IpRange
  pub entries : List Prefix

unfoldable pub build_blacklist_range_cache : List (Option Prefix) → BlacklistRangeCache × ℕ
unfolding merge_spans sort_spans span_of valid_prefixes
build_blacklist_range_cache ranges =
    let (entries, invalid) = valid_prefixes ranges in
    (record { spans = merge_spans (sort_spans (map span_of entries)); entries = entries }, invalid)

-- The span before the first whose start is greater, if there is one: `ranges[index-1]`.
unfoldable pub search_span : Addr → List IpRange → Option IpRange
search_span address [] = none
search_span address (span ∷ spans) =
    let later : Option IpRange = elim (search_span address spans) [
      | some s ↦ some s
      | none ↦ some span
    ] in
    if addr_lt address span.start then none else later

-- `inRange`; `none` is a text that does not parse.
unfoldable pub in_range : Option Addr → List IpRange → Bool
unfolding search_span
in_range none ranges = false
in_range (some address) ranges = elim (search_span address ranges) [
  | none ↦ false
  | some span ↦ span.start.bit_len == address.bit_len && addr_le address span.end
]

unfoldable pub contains_addr : List Addr → Addr → Bool
contains_addr [] a = false
contains_addr (x ∷ xs) a = let rest = contains_addr xs a in if addr_eq x a then true else rest

-- One round of the loop in `FilterProxies`: is the proxy blocked? `none` is a host that is no address.
unfoldable pub is_blocked_ip : List Addr → List IpRange → Option Addr → Bool
unfolding in_range
is_blocked_ip set ranges none = false
is_blocked_ip set ranges (some ip) =
    if contains_addr set ip then true else in_range (some ip) ranges

-- `FilterProxies`: the allowed and the blocked proxies, each in their order.
unfoldable pub filter_proxies :
    {P : Type 0} → (P → Option Addr) → List Addr → List IpRange → List P → List P × List P
unfolding is_blocked_ip
filter_proxies ip_of set ranges [] = ([], [])
filter_proxies ip_of set ranges (p ∷ ps) =
    let (allowed, blocked) = filter_proxies ip_of set ranges ps in
    if is_blocked_ip set ranges (ip_of p) then (allowed, p ∷ blocked) else (p ∷ allowed, blocked)

-- `diffSets`.
unfoldable pub diff_sets : List Addr → List Addr → List Addr
unfolding contains_addr
diff_sets after before = select (λ ip. not (contains_addr before ip)) after
