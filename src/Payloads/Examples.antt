-- ===== src/Payloads/Examples.antt =====
-- Payloads of internal/jobs/queue/proxy, and the theorems at them.
use magpie_backend.Prelude.{
  ℕ, ◌==◌, if◌then◌else◌, ◌≡◌, refl, true, false, not, ◌&&◌, ◌||◌, Option, none, some, List, [],
  ◌∷◌, find, ℕ_discrete, arith,
}
use magpie_backend.ProxyQueue.{Store, lease_score, holds_lease, complete}
use magpie_backend.Payloads.{
  Text, Proxy, QueuedProxy, contains, needs_rewrite, distinct_after, collect_queued_workspace_ids,
  get_host, encrypt_proxy_secret, plain_payload, new_queued_proxy, to_domain_proxy,
}
use magpie_backend.Payloads.Distinct.{IsFresh}
use magpie_backend.Payloads.RoundTrip.{Opens, decoded_of, new_queued_proxy-to_domain_proxy}
use magpie_backend.Payloads.Owners.{owners, kept_owners, added_owners, merged_owners, merge_payload}
use magpie_backend.Payloads.Completion.{merge_texts, complete-owners}

-- A cipher that puts one byte in front.
abbrev seal : Text → Option Text
seal plain = some (1 ∷ plain)

abbrev unseal : Text → Option Text
unseal [] = none
unseal (c ∷ text) = some text

abbrev no_hash : Proxy → Option Proxy
no_hash proxy = none

abbrev route : Proxy
route = record {
  id = 12;
  ip = 49 ∷ [];
  ip_address = none;
  port = 8080;
  username = 117 ∷ [];
  password = [];
  workspaces = 2 ∷ 0 ∷ 2 ∷ 5 ∷ [];
  hash = 9 ∷ [];
}

abbrev encoded : QueuedProxy
encoded = record {
  version = 3;
  id = 12;
  ip = 49 ∷ [];
  port = 8080;
  username_encrypted = 101 ∷ 110 ∷ 99 ∷ 58 ∷ 1 ∷ 117 ∷ [];
  password_encrypted = [];
  username = [];
  password = [];
  hash = 9 ∷ [];
  workspace_ids = some (2 ∷ 5 ∷ []);
  user_ids = none;
  users = none;
}

seal-Opens : Opens seal unseal
seal-Opens plain cipher e = ground arith

encoded-route : new_queued_proxy true seal route ≡ some encoded
unfolding new_queued_proxy plain_payload encrypt_proxy_secret collect_queued_workspace_ids
    distinct_after get_host
encoded-route = refl

new_queued_proxy-to_domain_proxy_example :
    (to_domain_proxy unseal no_hash encoded ≡ some (decoded_of route))
    × (needs_rewrite true encoded ≡ false)
    × IsFresh [] (decoded_of route).workspaces
    × ((w : ℕ)
        → contains w (decoded_of route).workspaces ≡ contains w route.workspaces && not (w == 0))
new_queued_proxy-to_domain_proxy_example =
    new_queued_proxy-to_domain_proxy true seal unseal no_hash route encoded seal-Opens refl
      encoded-route

-- Payloads that differ in their owners: the stored one, the snapshot, the worker's and the merged one.
abbrev owned_by : List ℕ → QueuedProxy
owned_by ids = record encoded { workspace_ids = some ids }

abbrev decode : ℕ → QueuedProxy
decode text =
    if text == 0
    then owned_by (1 ∷ 2 ∷ [])
    else if text == 1
    then owned_by (1 ∷ [])
    else if text == 2
    then owned_by (4 ∷ [])
    else owned_by (2 ∷ 4 ∷ [])

abbrev encode : QueuedProxy → ℕ
encode qp = 3

abbrev leased_store : Store
leased_store = record { heads = []; queues = λ k. (7, lease_score 50) ∷ []; payloads = λ m. some 0 }

merged_texts :
    decode (merge_texts decode encode 0 1 2) ≡ merge_payload (decode 0) (decode 1) (decode 2)
unfolding merge_payload merged_owners owners kept_owners added_owners
merged_texts = refl

held : holds_lease 50 7 (leased_store.queues 1) ≡ true
unfolding holds_lease find ℕ_discrete
held = refl

complete-owners_example :
    (x : ℕ) × ((complete
          (merge_texts decode encode)
          1
          1
          7
          50
          900
          (some 2)
          (some 1)
          leased_store).1.payloads
        7
      ≡ some x)
    × ((decode x).username ≡ (decode 0).username)
    × ((decode x).password ≡ (decode 0).password)
    × ((decode x).username_encrypted ≡ (decode 0).username_encrypted)
    × ((decode x).password_encrypted ≡ (decode 0).password_encrypted)
    × ((w : ℕ)
        → contains w (owners (decode x))
          ≡ (contains w (owners (decode 0))
              && (not (contains w (owners (decode 1))) || contains w (owners (decode 2))))
            || (contains w (owners (decode 2)) && not (contains w (owners (decode 1)))))
complete-owners_example =
    complete-owners decode encode 1 1 7 50 900 0 1 2 leased_store merged_texts held refl refl
