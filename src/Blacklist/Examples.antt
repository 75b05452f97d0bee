-- ===== src/Blacklist/Examples.antt =====
-- A blacklist of three prefixes: internal/blacklist/manager.go.
use magpie_backend.Prelude.{
  ℕ, ◌+◌, ◌≡◌, refl, true, false, Option, none, some, List, [], ◌∷◌, length,
}
use magpie_backend.Blacklist.{Addr, Prefix, build_blacklist_range_cache, in_range}
use magpie_backend.Blacklist.Prefixes.{
  any_prefix, listed_prefixes, build_blacklist_range_cache-in_range,
}

abbrev ipv4 : ℕ → Addr
ipv4 n = record { bit_len = 32; value = n }

-- 10.0.0.0/8, then 10.0.0.0/7, which holds it, then a text that is no prefix.
abbrev listed : List (Option Prefix)
listed =
    some (record { addr = ipv4 167772160; bits = 8; is_4_in_6 = false })
    ∷ some (record { addr = ipv4 167772160; bits = 7; is_4_in_6 = false })
    ∷ none
    ∷ []

build_blacklist_range_cache-in_range_example :
    let (cache, invalid) = build_blacklist_range_cache listed in
    (in_range (some (ipv4 184549377)) cache.spans
      ≡ any_prefix (listed_prefixes listed) (ipv4 184549377))
    × (length cache.entries + invalid ≡ length listed)
build_blacklist_range_cache-in_range_example =
    build_blacklist_range_cache-in_range listed (ipv4 184549377)

-- 11.0.0.1 is in the second prefix alone.
covered : any_prefix (listed_prefixes listed) (ipv4 184549377) ≡ true
covered = refl
