-- ===== src/Judges/Rotation.antt =====
-- The entries of the cache and their rotation: internal/jobs/checker/judges/judges_handler.go.
use magpie_backend.Prelude.{
  ℕ, zero, suc, ◌+◌, ◌%◌, ◌≤◌, ◌<◌, ◌==◌, leb, ◌≡◌, refl, ◌∙◌, ap₂, subst, Option, none, some, List,
  [], ◌∷◌, length, length-append, get_elem?, get_elem?-lt, find, assign, All, ℕ_discrete,
  Bool-cases, Option-cases, ℕ-cases, inl, inr, arith,
}
use native.Mathlib.Nat.{mod-lt}
use magpie_backend.Judges.{
  Judge, JudgeWithRegex, JudgeEntry, ProtoMap, Judges, next_of, entry_with, add_judges,
  insert_judge, collect_list, collect_protos, collect_all, get_sorted_judges_by_id,
}

-- The stored length is that of the list, the list has a judge, and it has fewer than `2 ^ 32 - m`.
pub record IsEntry (m : ℕ) (e : JudgeEntry) : Type 0 where
  pub measured : e.length ≡ length e.list
  pub not_empty : 0 < e.length
  pub small : e.length + m < 4294967296

abbrev pub AreEntries : ℕ → ProtoMap → Type 0
AreEntries m protos = All (λ x. IsEntry m x.1) protos

find-All :
    (P : JudgeEntry → Type 0) (k : ℕ) (m : ProtoMap) (e : JudgeEntry)
    → All (λ x. P x.1) m
    → find ℕ_discrete k m ≡ some e
    → P e
unfolding find
find-All P k [] e h f = absurd (ground arith)
find-All P k ((j, v) ∷ m) e h f = ground (arith, find-All P k m e h.1)

assign-All :
    (P : JudgeEntry → Type 0) (k : ℕ) (v : JudgeEntry) (m : ProtoMap)
    → All (λ x. P x.1) m
    → P v
    → All (λ x. P x.1) (assign ℕ_discrete k v m)
unfolding assign
assign-All P k v [] h p = (p, tt)
assign-All P k v ((j, w) ∷ m) h p = ground (arith, assign-All P k v m h.1 p)

entry_with-IsEntry :
    (m : ℕ) (o : Option JudgeEntry) (j : JudgeWithRegex)
    → m < 4294967294
    → ((e : JudgeEntry) → o ≡ some e → IsEntry (suc m) e)
    → IsEntry m (entry_with o j)
unfolding entry_with
entry_with-IsEntry m none j b h = record {
  measured = refl;
  not_empty = omega arith;
  small = omega arith;
}
entry_with-IsEntry m (some e) j b h =
    let old = h e refl in
    let n = length-append e.list (j ∷ []) in
    let a = old.measured in
    let s = old.small in
    record { measured = omega arith; not_empty = omega arith; small = omega arith }

find-assigned :
    (protos : ProtoMap) (m : ℕ) (k : ℕ) (e : JudgeEntry)
    → AreEntries m protos
    → find ℕ_discrete k protos ≡ some e
    → IsEntry m e
find-assigned protos m k e h f = find-All (IsEntry m) k protos e h f

AreEntries-le : (m n : ℕ) (protos : ProtoMap) → m ≤ n → AreEntries n protos → AreEntries m protos
AreEntries-le m n [] le h = tt
AreEntries-le m n ((k, e) ∷ protos) le h =
    let s = h.0.small in
    (
      record { measured = h.0.measured; not_empty = h.0.not_empty; small = omega arith },
      AreEntries-le m n protos le h.1,
    )

-- Adding judges keeps every entry of a workspace in order: its length is that of its list, and there is a
-- judge in it, as long as no entry gets to 2 ^ 32 judges.
pub add_judges-AreEntries :
    (m : ℕ) (js : List JudgeWithRegex) (protos : ProtoMap)
    → length js + m < 4294967294
    → AreEntries (length js + m) protos
    → AreEntries m (add_judges js protos)
unfolding add_judges
add_judges-AreEntries m [] protos b h = AreEntries-le m _ protos (omega arith) h
add_judges-AreEntries m (j ∷ js) protos b h = elim (Option-cases j.judge) [
  | inl e ↦
      rw (e, add_judges)
        (add_judges-AreEntries m js protos (omega arith) (AreEntries-le _ _ protos (omega arith) h))
  | inr (judge, e) ↦
      rw (e, add_judges)
        (add_judges-AreEntries m js _ (omega arith) (
          assign-All (IsEntry (length js + m)) judge.scheme _ protos
            (AreEntries-le _ _ protos (omega arith) h)
            (entry_with-IsEntry (length js + m) (find ℕ_discrete judge.scheme protos) j
              (omega arith)
              (λ old f.
                find-assigned protos (suc (length js + m)) judge.scheme old
                  (AreEntries-le _ _ protos (omega arith) h) f))))
]

-- The entry after `n` calls of `GetNextJudge`.
abbrev pub after : ℕ → JudgeEntry → JudgeEntry
unfolding next_of
after zero e = e
after (suc n) e = (next_of (after n e)).1

next_of-step :
    (e : JudgeEntry)
    → 0 < e.length
    → ((next_of e).0 ≡ get_elem? e.list (e.counter % e.length))
      × ((next_of e).1.list ≡ e.list)
      × ((next_of e).1.length ≡ e.length)
      × ((next_of e).1.counter ≡ (e.counter + 1) % 4294967296)
unfolding next_of
next_of-step e h = elim (ℕ-cases e.length) [
  | inl z ↦ absurd (omega arith)
  | inr (j, z) ↦ (ground arith, ground arith, ground arith, ground arith)
]

after-frame :
    (m n : ℕ) (e : JudgeEntry)
    → IsEntry m e
    → e.counter + n < 4294967296
    → ((after n e).list ≡ e.list)
      × ((after n e).length ≡ e.length)
      × ((after n e).counter ≡ e.counter + n)
unfolding next_of
after-frame m zero e h b = (refl, refl, omega arith)
after-frame m (suc n) e h b =
    let (l, k, c) = after-frame m n e h (omega arith) in
    let nonempty = h.not_empty in
    let (v, l', k', c') = next_of-step (after n e) (omega arith) in (l' ∙ l, k' ∙ k, omega arith)

-- Until the counter wraps, the calls on an entry go round its list: the call after `n` others gives the judge
-- at `counter + n` modulo the length, which is there.
pub next_of-after :
    (m n : ℕ) (e : JudgeEntry)
    → IsEntry m e
    → e.counter + n < 4294967296
    → (j : JudgeWithRegex) × ((next_of (after n e)).0 ≡ some j)
      × (get_elem? e.list ((e.counter + n) % e.length) ≡ some j)
unfolding next_of
next_of-after m n e h b =
    let (l, k, c) = after-frame m n e h b in
    let nonempty = h.not_empty in
    let measured = h.measured in
    let (v, l', k', c') = next_of-step (after n e) (omega arith) in
    let (j, found) =
      get_elem?-lt e.list ((e.counter + n) % e.length)
        (subst (λ x. (e.counter + n) % e.length < x) measured (mod-lt (e.counter + n) nonempty)) in
    (j, v ∙ ap₂ (λ xs i. get_elem? xs i) l (ap₂ (λ x y. x % y) c k) ∙ found, found)

-- Each judge's key is over the bound, and under those that follow.
abbrev pub Ascends : ℕ → List Judge → Type 0
Ascends b [] = Unit
Ascends b (j ∷ js) = (b ≤ j.id) × Ascends (suc j.id) js

insert_judge-Ascends :
    (b : ℕ) (j : Judge) (js : List Judge) → b ≤ j.id → Ascends b js → Ascends b (insert_judge j js)
unfolding insert_judge
insert_judge-Ascends b j [] h k = (h, tt)
insert_judge-Ascends b j (i ∷ js) h k = elim (Bool-cases (j.id == i.id)) [
  | inl t ↦ let e : i.id ≡ j.id = ground arith in rw t (h, subst (λ x. Ascends (suc x) js) e k.1)
  | inr t ↦ elim (Bool-cases (leb j.id i.id)) [
    | inl u ↦ rw (t, u) (h, (ground arith, k.1))
    | inr u ↦ rw (t, u) (k.0, insert_judge-Ascends (suc i.id) j js (ground arith) k.1)
  ]
]

collect_list-Ascends :
    (js : List JudgeWithRegex) (acc : List Judge) → Ascends 0 acc → Ascends 0 (collect_list js acc)
unfolding collect_list
collect_list-Ascends [] acc h = h
collect_list-Ascends (j ∷ js) acc h = elim (Option-cases j.judge) [
  | inl e ↦ rw (e, collect_list) (collect_list-Ascends js acc h)
  | inr (judge, e) ↦
      rw (e, collect_list)
        (collect_list-Ascends js (insert_judge judge acc)
          (insert_judge-Ascends 0 judge acc (omega arith) h))
]

collect_protos-Ascends :
    (protos : ProtoMap) (acc : List Judge) → Ascends 0 acc → Ascends 0 (collect_protos protos acc)
unfolding collect_protos
collect_protos-Ascends [] acc h = h
collect_protos-Ascends ((p, e) ∷ protos) acc h =
    collect_protos-Ascends protos (collect_list e.list acc) (collect_list-Ascends e.list acc h)

collect_all-Ascends :
    (judges : Judges) (acc : List Judge) → Ascends 0 acc → Ascends 0 (collect_all judges acc)
unfolding collect_all
collect_all-Ascends [] acc h = h
collect_all-Ascends ((w, protos) ∷ judges) acc h =
    collect_all-Ascends judges (collect_protos protos acc) (collect_protos-Ascends protos acc h)

-- `GetSortedJudgesByID` lists judges by strictly rising key: sorted, and none twice.
pub get_sorted_judges_by_id-Ascends : (judges : Judges) → Ascends 0 (get_sorted_judges_by_id judges)
unfolding get_sorted_judges_by_id
get_sorted_judges_by_id-Ascends judges = collect_all-Ascends judges [] tt
