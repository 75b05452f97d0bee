-- ===== src/Payloads/Completion.antt =====
-- complete.lua of internal/jobs/queue/proxy when the payload changed during the check.
use magpie_backend.Prelude.{
  ℕ, ◌==◌, if◌then◌else◌, ◌≡◌, refl, ap, ◌∙◌, Bool, true, false, not, ◌&&◌, ◌||◌, none, some, List,
  [], ◌∷◌, arith,
}
use magpie_backend.ProxyQueue.{
  Store, drop_member, holds_lease, complete, payload_of, write_payload, leave_queues, schedule,
}
use magpie_backend.Payloads.{QueuedProxy, is_empty, contains}
use magpie_backend.Payloads.Owners.{owners, merged_owners, merge_payload, contains-merged}

owners-of :
    (live : QueuedProxy) (merged : List ℕ)
    → owners (record live {
      workspace_ids = if is_empty merged then none else some merged;
      user_ids = none;
      users = none;
    })
      ≡ merged
unfolding owners
owners-of live [] = refl
owners-of live (id ∷ merged) = refl

-- The JSON library: the payload that the script writes, from the three texts.
abbrev pub merge_texts : (ℕ → QueuedProxy) → (QueuedProxy → ℕ) → ℕ → ℕ → ℕ → ℕ
merge_texts decode encode current before after =
    encode (merge_payload (decode current) (decode before) (decode after))

if-payloads :
    (b : Bool) (st st' : Store)
    → st'.payloads ≡ st.payloads
    → (if b then st else st').payloads ≡ st.payloads
if-payloads true st st' h = refl
if-payloads false st st' h = h

leave_queues-payloads :
    (queue old_queue m : ℕ) (st : Store)
    → (leave_queues queue old_queue m st).payloads ≡ st.payloads
unfolding leave_queues drop_member
leave_queues-payloads queue old_queue m st =
    let left = if old_queue == queue then st else drop_member old_queue m st in
    if-payloads (0 == queue || 0 == old_queue) left (drop_member 0 m left) refl
    ∙ if-payloads (old_queue == queue) st (drop_member old_queue m st) refl

if-true : (b : Bool) (x y : Bool × Store) → b ≡ true → (if b then x else y) ≡ x
if-true true x y h = refl
if-true false x y h = absurd (ground arith)

-- The payload of the member after complete.lua.
complete-payload :
    (merge : ℕ → ℕ → ℕ → ℕ) (queue old_queue m expected due current before after : ℕ) (st : Store)
    → holds_lease expected m (st.queues old_queue) ≡ true
    → st.payloads m ≡ some current
    → (current == before) ≡ false
    → (complete merge queue old_queue m expected due (some after) (some before) st).1.payloads m
      ≡ some (merge current before after)
unfolding complete schedule write_payload payload_of
complete-payload merge queue old_queue m expected due current before after st held has changed =
    let self : (m == m) ≡ true = ground arith in
    let written = write_payload merge m (some after) (some before) st in
    ap (λ (r : Bool × Store). r.1.payloads m)
      (if-true (holds_lease expected m (st.queues old_queue)) _ _ held)
    ∙ ap (λ y. y m) (leave_queues-payloads queue old_queue m written)
    ∙ rw (self, has, changed) refl

-- A worker that holds its lease completes with a payload of its own, while the stored payload is no longer
-- the worker's snapshot. Then the payload that is stored keeps the credentials of the one that was there, and a
-- workspace owns the route exactly if it did and the worker did not drop it, or if the worker added it. The
-- JSON library must decode what it encoded of this payload.
pub complete-owners :
    (decode : ℕ → QueuedProxy) (encode : QueuedProxy → ℕ)
    (queue old_queue m expected due current before after : ℕ) (st : Store)
    → decode (merge_texts decode encode current before after)
      ≡ merge_payload (decode current) (decode before) (decode after)
    → holds_lease expected m (st.queues old_queue) ≡ true
    → st.payloads m ≡ some current
    → (current == before) ≡ false
    → (x : ℕ) × ((complete
            (merge_texts decode encode)
            queue
            old_queue
            m
            expected
            due
            (some after)
            (some before)
            st).1.payloads
          m
        ≡ some x)
      × ((decode x).username ≡ (decode current).username)
      × ((decode x).password ≡ (decode current).password)
      × ((decode x).username_encrypted ≡ (decode current).username_encrypted)
      × ((decode x).password_encrypted ≡ (decode current).password_encrypted)
      × ((w : ℕ)
          → contains w (owners (decode x))
            ≡ (contains w (owners (decode current))
                && (not (contains w (owners (decode before)))
                    || contains w (owners (decode after))))
              || (contains w (owners (decode after)) && not (contains w (owners (decode before)))))
unfolding merge_payload
complete-owners decode encode queue old_queue m expected due current before after st codec held has
      changed =
    let live = decode current in
    let old = decode before in
    let new = decode after in
    (
      merge_texts decode encode current before after,
      complete-payload (merge_texts decode encode) queue old_queue m expected due current before
          after st held has changed,
      ap (λ q. q.username) codec,
      ap (λ q. q.password) codec,
      ap (λ q. q.username_encrypted) codec,
      ap (λ q. q.password_encrypted) codec,
      λ w.
          ap (λ q. contains w (owners q)) codec
          ∙ ap (contains w) (owners-of live (merged_owners (owners live) (owners old) (owners new)))
          ∙ contains-merged w (owners live) (owners old) (owners new),
    )
