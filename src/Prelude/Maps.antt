-- ===== src/Prelude/Maps.antt =====
-- Go maps as association lists with one entry for each key: reads, writes and deletion.
use Prim.Native.Nat.{◌+◌, ◌≤◌, ◌<◌}
use mathlib.Core.Path.{◌≡◌, refl}
use mathlib.Core.Logic.{ite}
use mathlib.Core.List.{List, [], ◌∷◌}
use mathlib.Core.Option.{Option, none, some}
use native.Mathlib.Omega.{arith}
use magpie_backend.Prelude.Lists.{length}

module _ {ℓ} {K V : Type ℓ} (dec : Discrete K) where
  -- `m[k]` with its presence.
  unfoldable pub find : K → List (K × V) → Option V
  find k [] = none
  find k ((j, v) ∷ m) = ite (dec j k) (some v) (find k m)

  -- `m[k] = v`.
  unfoldable pub assign : K → V → List (K × V) → List (K × V)
  assign k v [] = (k, v) ∷ []
  assign k v ((j, w) ∷ m) = ite (dec j k) ((j, v) ∷ m) ((j, w) ∷ assign k v m)

  -- `delete(m, k)`.
  unfoldable pub remove : K → List (K × V) → List (K × V)
  remove k [] = []
  remove k ((j, w) ∷ m) = ite (dec j k) (remove k m) ((j, w) ∷ remove k m)

  pub find-assign :
      (k j : K) (v : V) (m : List (K × V))
      → find j (assign k v m) ≡ ite (dec k j) (some v) (find j m)
  unfolding find assign
  find-assign k j v [] = refl
  find-assign k j v ((i, w) ∷ m) = ground (arith, find-assign k j v m)

  pub find-remove :
      (k j : K) (m : List (K × V)) → find j (remove k m) ≡ ite (dec k j) none (find j m)
  unfolding find remove
  find-remove k j [] = ground arith
  find-remove k j ((i, w) ∷ m) = ground (arith, find-remove k j m)

  pub length-remove : (k : K) (m : List (K × V)) → length (remove k m) ≤ length m
  unfolding remove
  length-remove k [] = omega arith
  length-remove k ((i, w) ∷ m) = ground (arith, length-remove k m)

  pub length-remove_lt :
      (k : K) (m : List (K × V)) (v : V) → find k m ≡ some v → length (remove k m) < length m
  unfolding remove find
  length-remove_lt k [] v h = absurd (ground arith)
  length-remove_lt k ((i, w) ∷ m) v h = ground (arith, length-remove k m, length-remove_lt k m v)

  pub length-assign : (k : K) (v : V) (m : List (K × V)) → length (assign k v m) ≤ length m + 1
  unfolding assign
  length-assign k v [] = omega arith
  length-assign k v ((i, w) ∷ m) = ground (arith, length-assign k v m)

  pub length-assign_old :
      (k : K) (v w : V) (m : List (K × V)) → find k m ≡ some w → length (assign k v m) ≡ length m
  unfolding assign find
  length-assign_old k v w [] h = absurd (ground arith)
  length-assign_old k v w ((i, u) ∷ m) h = ground (arith, length-assign_old k v w m)
