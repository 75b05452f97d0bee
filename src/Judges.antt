-- ===== src/Judges.antt =====
-- The cache of judges by workspace and scheme: internal/jobs/checker/judges/judges_handler.go. A scheme
-- and a regular expression are strings that the code only compares and stores, here numbers; the
-- counter and the length are uint32. Each write of the code copies the maps and swaps them under its
-- mutex, so an operation is a function from the old map to the new one.
use magpie_backend.Prelude.{
  ℕ, zero, suc, ◌+◌, ◌%◌, ◌^◌, ◌==◌, leb, if◌then◌else◌, Option, none, some, List, [], ◌∷◌, ◌++◌,
  get_elem?, find, assign, ℕ_discrete,
}
pub mod Rotation
mod Examples

pub record Judge : Type 0 where
  pub id : ℕ
  pub scheme : ℕ

pub record JudgeWithRegex : Type 0 where
  pub judge : Option Judge
  pub regex : ℕ

pub record JudgeEntry : Type 0 where
  pub list : List JudgeWithRegex
  pub length : ℕ
  pub counter : ℕ

abbrev pub ProtoMap : Type 0
ProtoMap = List (ℕ × JudgeEntry)

abbrev pub Judges : Type 0
Judges = List (ℕ × ProtoMap)

-- `atomic.AddUint32` and the choice by the old value.
unfoldable pub next_of : JudgeEntry → Option JudgeWithRegex × JudgeEntry
next_of entry =
    let counter = (entry.counter + 1) % (2 ^ 32) in
    let i = entry.counter % entry.length in
    elim entry.length [
      | zero ↦ (none, entry)
      | suc n ↦ (get_elem? entry.list i, record entry { counter = counter })
    ]

unfoldable pub get_next_judge : ℕ → ℕ → Judges → Option JudgeWithRegex × Judges
unfolding next_of find assign
get_next_judge workspace protocol judges = elim (find ℕ_discrete workspace judges) [
  | none ↦ (none, judges)
  | some protos ↦ elim (find ℕ_discrete protocol protos) [
    | none ↦ (none, judges)
    | some entry ↦
        let (judge, entry') = next_of entry in
        (judge, assign ℕ_discrete workspace (assign ℕ_discrete protocol entry' protos) judges)
  ]
]

unfoldable pub entry_with : Option JudgeEntry → JudgeWithRegex → JudgeEntry
entry_with none j = record { list = j ∷ []; length = 1; counter = 0 }
entry_with (some e) j = record {
  list = e.list ++ (j ∷ []);
  length = (e.length + 1) % (2 ^ 32);
  counter = e.counter;
}

-- The inner loop of the two functions that take several judges.
unfoldable pub add_judges : List JudgeWithRegex → ProtoMap → ProtoMap
unfolding entry_with find assign
add_judges [] protos = protos
add_judges (j ∷ js) protos = elim j.judge [
  | none ↦ add_judges js protos
  | some judge ↦
      add_judges js
        (assign ℕ_discrete judge.scheme (entry_with (find ℕ_discrete judge.scheme protos) j) protos)
]

abbrev pub or_empty : Option ProtoMap → ProtoMap
or_empty none = []
or_empty (some protos) = protos

unfoldable pub add_workspace_judge : ℕ → Judge → ℕ → Judges → Judges
unfolding add_judges find assign
add_workspace_judge workspace judge regex judges =
    assign ℕ_discrete workspace
      (add_judges (record { judge = some judge; regex = regex } ∷ [])
        (or_empty (find ℕ_discrete workspace judges)))
      judges

unfoldable pub add_judges_to_workspaces_local : List ℕ → List JudgeWithRegex → Judges → Judges
unfolding add_judges find assign
add_judges_to_workspaces_local [] js judges = judges
add_judges_to_workspaces_local (w ∷ ws) js judges =
    add_judges_to_workspaces_local ws js
      (assign ℕ_discrete w (add_judges js (or_empty (find ℕ_discrete w judges))) judges)

unfoldable pub set_workspace_judges_local : ℕ → List JudgeWithRegex → Judges → Judges
unfolding add_judges assign
set_workspace_judges_local workspace js judges =
    assign ℕ_discrete workspace (add_judges js []) judges

-- `GetSortedJudgesByID`: the judges of all entries, each once, in order of their keys.
unfoldable pub insert_judge : Judge → List Judge → List Judge
insert_judge j [] = j ∷ []
insert_judge j (k ∷ ks) =
    let rest = insert_judge j ks in
    if j.id == k.id then j ∷ ks else if leb j.id k.id then j ∷ k ∷ ks else k ∷ rest

unfoldable pub collect_list : List JudgeWithRegex → List Judge → List Judge
unfolding insert_judge
collect_list [] acc = acc
collect_list (j ∷ js) acc = elim j.judge [
  | none ↦ collect_list js acc
  | some judge ↦ collect_list js (insert_judge judge acc)
]

unfoldable pub collect_protos : ProtoMap → List Judge → List Judge
unfolding collect_list
collect_protos [] acc = acc
collect_protos ((p, e) ∷ protos) acc = collect_protos protos (collect_list e.list acc)

unfoldable pub collect_all : Judges → List Judge → List Judge
unfolding collect_protos
collect_all [] acc = acc
collect_all ((w, protos) ∷ judges) acc = collect_all judges (collect_protos protos acc)

unfoldable pub get_sorted_judges_by_id : Judges → List Judge
unfolding collect_all
get_sorted_judges_by_id judges = collect_all judges []
