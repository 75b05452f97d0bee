-- ===== src/Expiry.antt =====
-- The cache with expiry of internal/support/expiry_cache.go. Its list in order of use, newest first, holds the
-- entries; the map of the code finds the element of a key in it, as `find` does here. Each method
-- holds the mutex throughout, so it is a function from cache to cache. Times are numbers.
use magpie_backend.Prelude.{
  ℕ, ltb, leb, max, if◌then◌else◌, Option, none, some, List, [], ◌∷◌, length, select, find, remove,
}
pub mod History
pub mod Sound
mod Examples

-- The value and the time at which it expires.
pub record ExpiryCacheEntry (V : Type 0) : Type 0 where
  pub value : V
  pub expires : ℕ

pub record ExpiryCache (K V : Type 0) : Type 0 where
  pub capacity : ℕ
  pub order : List (K × ExpiryCacheEntry V)

abbrev pub drop_last : {A : Type 0} → List A → List A
drop_last [] = []
drop_last (x ∷ []) = []
drop_last (x ∷ y ∷ xs) = x ∷ drop_last (y ∷ xs)

-- One call of a method; `Len` changes nothing.
pub data Call (K V : Type 0) : Type 0 where
  gets : K → ℕ → Call K V
  sets : K → V → ℕ → Call K V
  prunes : ℕ → Call K V

module _ {K V : Type 0} (dec : Discrete K) where
  unfoldable pub new_expiry_cache : ℕ → ExpiryCache K V
  new_expiry_cache capacity = record { capacity = max 1 capacity; order = [] }

  -- `Get`, for the entry that the map has.
  unfoldable pub get_entry :
      K → ℕ → Option (ExpiryCacheEntry V) → ExpiryCache K V → Option V × ExpiryCache K V
  unfolding remove
  get_entry key now none c = (none, c)
  get_entry key now (some entry) c =
      if ltb now entry.expires
      then (some entry.value, record c { order = (key, entry) ∷ remove dec key c.order })
      else (none, record c { order = remove dec key c.order })

  unfoldable pub get : K → ℕ → ExpiryCache K V → Option V × ExpiryCache K V
  unfolding get_entry find
  get key now c = get_entry key now (find dec key c.order) c

  -- `Set`: an old entry of the key is replaced, else the entry at the back makes room.
  unfoldable pub set_entry :
      K → ExpiryCacheEntry V → Option (ExpiryCacheEntry V) → ExpiryCache K V → ExpiryCache K V
  unfolding remove
  set_entry key entry (some old) c = record c { order = (key, entry) ∷ remove dec key c.order }
  set_entry key entry none c =
      let left = if leb c.capacity (length c.order) then drop_last c.order else c.order in
      record c { order = (key, entry) ∷ left }

  unfoldable pub set : K → V → ℕ → ExpiryCache K V → ExpiryCache K V
  unfolding set_entry find
  set key value expires c =
      set_entry key (record { value = value; expires = expires }) (find dec key c.order) c

  unfoldable pub prune : ℕ → ExpiryCache K V → ExpiryCache K V
  prune now c = record c { order = select (λ e. ltb now e.1.expires) c.order }

  unfoldable pub call : Call K V → ExpiryCache K V → ExpiryCache K V
  unfolding get set prune
  call (gets key now) c = (get key now c).1
  call (sets key value expires) c = set key value expires c
  call (prunes now) c = prune now c

  -- The calls, the latest first.
  unfoldable pub run : List (Call K V) → ExpiryCache K V → ExpiryCache K V
  unfolding call
  run [] c = c
  run (x ∷ calls) c = call x (run calls c)
