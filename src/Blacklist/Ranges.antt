-- ===== src/Blacklist/Ranges.antt =====
-- The compiled ranges answer as the configured ones do: internal/blacklist/manager.go.
use magpie_backend.Prelude.{
  ◌≤◌, ◌==◌, ◌≡◌, refl, ◌∙◌, ap, Bool, true, false, ◌&&◌, ◌||◌, some, List, [], ◌∷◌, All,
  Bool-cases, Option-cases, inl, inr, arith,
}
use magpie_backend.Blacklist.{
  Addr, IpRange, addr_le, addr_lt, span_before, insert_span, sort_spans, overlaps, extend,
  merge_from, search_span, in_range,
}

-- The address lies in the range.
abbrev pub holds : IpRange → Addr → Bool
holds s a = s.start.bit_len == a.bit_len && addr_le s.start a && addr_le a s.end

-- The specification: the address lies in one of the ranges.
abbrev pub any_holds : List IpRange → Addr → Bool
any_holds [] a = false
any_holds (s ∷ ss) a = holds s a || any_holds ss a

-- Both ends have one family, and the start is not behind the end.
abbrev pub IsRange : IpRange → Type 0
IsRange s = (s.start.bit_len ≡ s.end.bit_len) × (s.start.value ≤ s.end.value)

abbrev pub StartsFrom : IpRange → List IpRange → Type 0
StartsFrom s ss = All (λ x. addr_le s.start x.start ≡ true) ss

abbrev pub IsSorted : List IpRange → Type 0
IsSorted [] = Unit
IsSorted (s ∷ ss) = StartsFrom s ss × IsSorted ss

insert_span-any_holds :
    (s : IpRange) (ss : List IpRange) (a : Addr)
    → any_holds (insert_span s ss) a ≡ (holds s a || any_holds ss a)
unfolding insert_span
insert_span-any_holds s [] a = refl
insert_span-any_holds s (x ∷ xs) a = ground (arith, insert_span-any_holds s xs a)

pub sort_spans-any_holds :
    (ss : List IpRange) (a : Addr) → any_holds (sort_spans ss) a ≡ any_holds ss a
unfolding sort_spans
sort_spans-any_holds [] a = refl
sort_spans-any_holds (s ∷ ss) a =
    insert_span-any_holds s (sort_spans ss) a ∙ ap (λ b. holds s a || b) (sort_spans-any_holds ss a)

StartsFrom-insert :
    (s x : IpRange) (ss : List IpRange)
    → addr_le s.start x.start ≡ true
    → StartsFrom s ss
    → StartsFrom s (insert_span x ss)
unfolding insert_span
StartsFrom-insert s x [] h k = (h, tt)
StartsFrom-insert s x (y ∷ ys) h k = elim (Bool-cases (span_before y x)) [
  | inl t ↦ rw t (k.0, StartsFrom-insert s x ys h k.1)
  | inr t ↦ rw t (h, (k.0, k.1))
]

addr_le_trans : (a b c : Addr) → addr_le a b ≡ true → addr_le b c ≡ true → addr_le a c ≡ true
addr_le_trans a b c h k = ground arith

StartsFrom-trans :
    (s x : IpRange) (ss : List IpRange)
    → addr_le s.start x.start ≡ true
    → StartsFrom x ss
    → StartsFrom s ss
StartsFrom-trans s x [] h k = tt
StartsFrom-trans s x (y ∷ ys) h k =
    (addr_le_trans s.start x.start y.start h k.0, StartsFrom-trans s x ys h k.1)

insert_span-IsSorted : (s : IpRange) (ss : List IpRange) → IsSorted ss → IsSorted (insert_span s ss)
unfolding insert_span
insert_span-IsSorted s [] h = (tt, tt)
insert_span-IsSorted s (x ∷ xs) h = elim (Bool-cases (span_before x s)) [
  | inl t ↦
      let le : addr_le x.start s.start ≡ true = ground arith in
      rw t (StartsFrom-insert x s xs le h.0, insert_span-IsSorted s xs h.1)
  | inr t ↦
      let le : addr_le s.start x.start ≡ true = ground arith in
      rw t ((le, StartsFrom-trans s x xs le h.0), h)
]

pub sort_spans-IsSorted : (ss : List IpRange) → IsSorted (sort_spans ss)
unfolding sort_spans
sort_spans-IsSorted [] = tt
sort_spans-IsSorted (s ∷ ss) = insert_span-IsSorted s (sort_spans ss) (sort_spans-IsSorted ss)

insert_span-All :
    (s : IpRange) (ss : List IpRange) → IsRange s → All IsRange ss → All IsRange (insert_span s ss)
unfolding insert_span
insert_span-All s [] h k = (h, tt)
insert_span-All s (x ∷ xs) h k = elim (Bool-cases (span_before x s)) [
  | inl t ↦ rw t (k.0, insert_span-All s xs h k.1)
  | inr t ↦ rw t (h, (k.0, k.1))
]

pub sort_spans-All : (ss : List IpRange) → All IsRange ss → All IsRange (sort_spans ss)
unfolding sort_spans
sort_spans-All [] h = tt
sort_spans-All (s ∷ ss) h = insert_span-All s (sort_spans ss) h.0 (sort_spans-All ss h.1)

extend-IsRange :
    (last s : IpRange) → IsRange last → IsRange s → overlaps last s ≡ true → IsRange (extend last s)
extend-IsRange last s h k o = ground arith

-- Joining two overlapping ranges holds what either of them holds.
extend-holds :
    (last s : IpRange) (a : Addr)
    → IsRange last
    → IsRange s
    → addr_le last.start s.start ≡ true
    → overlaps last s ≡ true
    → holds (extend last s) a ≡ (holds last a || holds s a)
extend-holds last s a h k le o = elim (Bool-cases (addr_lt last.end s.end)) [
  | inl t ↦ rw t (ground arith)
  | inr t ↦ rw t (ground arith)
]

extend-start : (last s : IpRange) → (extend last s).start ≡ last.start
extend-start last s = elim (Bool-cases (addr_lt last.end s.end)) [
  | inl t ↦ rw t refl
  | inr t ↦ rw t refl
]

StartsFrom-extend :
    (last s : IpRange) (ss : List IpRange) → StartsFrom last ss → StartsFrom (extend last s) ss
StartsFrom-extend last s ss h = rw (extend-start last s) h

or_assoc : (a b c : Bool) → ((a || b) || c) ≡ (a || (b || c))
or_assoc a b c = ground arith

pub merge_from-any_holds :
    (last : IpRange) (ss : List IpRange) (a : Addr)
    → IsRange last
    → All IsRange ss
    → StartsFrom last ss
    → IsSorted ss
    → any_holds (merge_from last ss) a ≡ (holds last a || any_holds ss a)
unfolding merge_from
merge_from-any_holds last [] a h k from sorted = refl
merge_from-any_holds last (s ∷ ss) a h k from sorted = elim (Bool-cases (overlaps last s)) [
  | inl o ↦
      let ih =
        merge_from-any_holds (extend last s) ss a (extend-IsRange last s h k.0 o) k.1
          (StartsFrom-extend last s ss from.1) sorted.1 in
      rw o (
        ih
        ∙ ap (λ b. b || any_holds ss a) (extend-holds last s a h k.0 from.0 o)
        ∙ or_assoc (holds last a) (holds s a) (any_holds ss a))
  | inr o ↦
      rw o (ap (λ b. holds last a || b) (merge_from-any_holds s ss a k.0 k.1 sorted.0 sorted.1))
]

-- What holds of all starts before a merge holds of all starts after it.
merge_from-starts :
    (P : Addr → Type 0) (last : IpRange) (ss : List IpRange)
    → P last.start
    → All (λ x. P x.start) ss
    → All (λ x. P x.start) (merge_from last ss)
unfolding merge_from
merge_from-starts P last [] h k = (h, tt)
merge_from-starts P last (s ∷ ss) h k = elim (Bool-cases (overlaps last s)) [
  | inl o ↦ rw o (merge_from-starts P (extend last s) ss (rw (extend-start last s) h) k.1)
  | inr o ↦ rw o (h, merge_from-starts P s ss k.0 k.1)
]

-- Every range ends before the later ones start.
abbrev pub IsSeparated : List IpRange → Type 0
IsSeparated [] = Unit
IsSeparated (s ∷ ss) = IsRange s × All (λ x. addr_lt s.end x.start ≡ true) ss × IsSeparated ss

apart-lt :
    (last s : IpRange)
    → IsRange last
    → addr_le last.start s.start ≡ true
    → overlaps last s ≡ false
    → addr_lt last.end s.start ≡ true
apart-lt last s h le o = ground arith

lt-StartsFrom :
    (e : Addr) (s : IpRange) (ss : List IpRange)
    → addr_lt e s.start ≡ true
    → StartsFrom s ss
    → All (λ x. addr_lt e x.start ≡ true) ss
lt-StartsFrom e s [] h k = tt
lt-StartsFrom e s (x ∷ xs) h k = (ground arith, lt-StartsFrom e s xs h k.1)

pub merge_from-IsSeparated :
    (last : IpRange) (ss : List IpRange)
    → IsRange last
    → All IsRange ss
    → StartsFrom last ss
    → IsSorted ss
    → IsSeparated (merge_from last ss)
unfolding merge_from
merge_from-IsSeparated last [] h k from sorted = (h, tt, tt)
merge_from-IsSeparated last (s ∷ ss) h k from sorted = elim (Bool-cases (overlaps last s)) [
  | inl o ↦ rw o (
      merge_from-IsSeparated (extend last s) ss (extend-IsRange last s h k.0 o) k.1
        (StartsFrom-extend last s ss from.1) sorted.1)
  | inr o ↦
      let lt = apart-lt last s h from.0 o in
      rw o (
        h,
        merge_from-starts (λ b. addr_lt last.end b ≡ true) s ss lt
            (lt-StartsFrom last.end s ss lt sorted.0),
        merge_from-IsSeparated s ss k.0 k.1 sorted.0 sorted.1,
      )
]

search_span-start :
    (P : Addr → Type 0) (a : Addr) (ss : List IpRange) (found : IpRange)
    → All (λ x. P x.start) ss
    → search_span a ss ≡ some found
    → P found.start × (addr_lt a found.start ≡ false)
unfolding search_span
search_span-start P a [] found h e = absurd (ground arith)
search_span-start P a (s ∷ ss) found h e = elim (Bool-cases (addr_lt a s.start)) [
  | inl t ↦ absurd (ground arith)
  | inr t ↦ elim (Option-cases (search_span a ss)) [
    | inl n ↦ let same : s ≡ found = ground arith in (rw (← same) h.0, rw (← same) t)
    | inr (l, f) ↦
        let same : l ≡ found = ground arith in rw (← same) (search_span-start P a ss l h.1 f)
  ]
]

none_holds :
    (a : Addr) (s : IpRange) (ss : List IpRange)
    → addr_lt a s.start ≡ true
    → All (λ x. addr_lt s.end x.start ≡ true) ss
    → IsRange s
    → any_holds ss a ≡ false
none_holds a s [] h k r = refl
none_holds a s (x ∷ xs) h k r = ground (arith, none_holds a s xs h k.1 r)

pub in_range-any_holds :
    (a : Addr) (ss : List IpRange) → IsSeparated ss → in_range (some a) ss ≡ any_holds ss a
unfolding in_range search_span
in_range-any_holds a [] h = refl
in_range-any_holds a (s ∷ ss) (r, apart, h) = elim (Bool-cases (addr_lt a s.start)) [
  | inl t ↦ let later = none_holds a s ss t apart r in ground arith
  | inr t ↦
      let ih = in_range-any_holds a ss h in
      elim (Option-cases (search_span a ss)) [
        | inl n ↦ ground arith
        | inr (l, f) ↦
            let (lt, after) = search_span-start (λ b. addr_lt s.end b ≡ true) a ss l apart f in
            ground arith
      ]
]
