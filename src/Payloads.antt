-- ===== src/Payloads.antt =====
-- The payloads of the proxy queue: queuedProxy of internal/jobs/queue/proxy/proxy_queue.go with the secrets of
-- internal/security/proxy_secret.go, and the owners that complete.lua merges. A text is the list of its
-- bytes, an absent JSON field of a list is `none`, and a workspace is its ID.
use magpie_backend.Prelude.{
  ℕ, ◌==◌, leb, if◌then◌else◌, Bool, true, false, not, ◌&&◌, ◌||◌, Option, none, some, List, [],
  ◌∷◌, ◌++◌,
}
pub mod Distinct
pub mod RoundTrip
pub mod Owners
pub mod Completion
mod Examples

abbrev pub Text : Type 0
Text = List ℕ

abbrev pub is_empty : List ℕ → Bool
is_empty [] = true
is_empty (c ∷ text) = false

infixl 5 ◌>>=◌
abbrev pub ◌>>=◌ : {A B : Type 0} → Option A → (A → Option B) → Option B
none >>= next = none
some a >>= next = next a

abbrev pub or_nil : Option (List ℕ) → List ℕ
or_nil none = []
or_nil (some ids) = ids

abbrev pub contains : ℕ → List ℕ → Bool
contains x [] = false
contains x (y ∷ ys) = (x == y) || contains x ys

pub record Proxy : Type 0 where
  pub id : ℕ
  pub ip : Text
  pub ip_address : Option Text
  pub port : ℕ
  pub username : Text
  pub password : Text
  pub workspaces : List ℕ
  pub hash : Text

pub record QueuedProxy : Type 0 where
  pub version : ℕ
  pub id : ℕ
  pub ip : Text
  pub port : ℕ
  pub username_encrypted : Text
  pub password_encrypted : Text
  pub username : Text
  pub password : Text
  pub hash : Text
  pub workspace_ids : Option (List ℕ)
  pub user_ids : Option (List ℕ)
  pub users : Option (List ℕ)

abbrev pub queued_proxy_version : ℕ
queued_proxy_version = 3

-- The IDs that are not 0, each once, in the order of their first occurrence.
unfoldable pub distinct_after : List ℕ → List ℕ → List ℕ
distinct_after seen [] = []
distinct_after seen (x ∷ xs) = elim ((x == 0) || contains x seen) [
  | true ↦ distinct_after seen xs
  | false ↦ x ∷ distinct_after (x ∷ seen) xs
]

unfoldable pub collect_queued_workspace_ids : List ℕ → Option (List ℕ)
unfolding distinct_after
collect_queued_workspace_ids workspaces =
    let out = distinct_after [] workspaces in if is_empty out then none else some out

-- `GetHost`, which `GetIp` returns.
unfoldable pub get_host : Proxy → Text
get_host proxy = if not (is_empty proxy.ip) then proxy.ip else or_nil proxy.ip_address

-- "enc:".
abbrev pub proxy_encryption_prefix : Text
proxy_encryption_prefix = 101 ∷ 110 ∷ 99 ∷ 58 ∷ []

-- `strings.HasPrefix` and `strings.TrimPrefix`: the rest after the prefix, if the text has it.
unfoldable pub strip_prefix : Text → Text → Option Text
strip_prefix [] text = some text
strip_prefix (c ∷ prefix) [] = none
strip_prefix (c ∷ prefix) (d ∷ text) =
    let rest = strip_prefix prefix text in if c == d then rest else none

-- `seal` and `unseal` are AES-GCM under the key with base64; `none` is an error, such as a missing key or a
-- text that was not sealed.
unfoldable pub encrypt_proxy_secret : (Text → Option Text) → Text → Option Text
encrypt_proxy_secret seal [] = some []
encrypt_proxy_secret seal (c ∷ plain) = do
  cipher ← seal (c ∷ plain)
  some (proxy_encryption_prefix ++ cipher)

unfoldable pub decrypt_proxy_secret : (Text → Option Text) → Text → Option Text
unfolding strip_prefix
decrypt_proxy_secret unseal [] = some []
decrypt_proxy_secret unseal (c ∷ value) = elim (strip_prefix proxy_encryption_prefix (c ∷ value)) [
  | none ↦ some (c ∷ value)
  | some cipher ↦ unseal cipher
]

unfoldable pub plain_payload : Proxy → QueuedProxy
unfolding collect_queued_workspace_ids get_host
plain_payload proxy = record {
  version = queued_proxy_version;
  id = proxy.id;
  ip = get_host proxy;
  port = proxy.port;
  username_encrypted = [];
  password_encrypted = [];
  username = [];
  password = [];
  hash = proxy.hash;
  workspace_ids = collect_queued_workspace_ids proxy.workspaces;
  user_ids = none;
  users = none;
}

-- `encrypts` is encryptProxyQueueCredentials.
unfoldable pub new_queued_proxy : Bool → (Text → Option Text) → Proxy → Option QueuedProxy
unfolding encrypt_proxy_secret plain_payload
new_queued_proxy false seal proxy =
    some (record (plain_payload proxy) { username = proxy.username; password = proxy.password })
new_queued_proxy true seal proxy = do
  username ← encrypt_proxy_secret seal proxy.username
  password ← encrypt_proxy_secret seal proxy.password
  some (record (plain_payload proxy) {
    username_encrypted = username;
    password_encrypted = password;
  })

unfoldable pub needs_rewrite : Bool → QueuedProxy → Bool
needs_rewrite encrypts qp =
    if not (leb queued_proxy_version qp.version) || is_empty qp.hash
    then true
    else if encrypts
    then not (is_empty qp.username) || not (is_empty qp.password)
    else not (is_empty qp.username_encrypted) || not (is_empty qp.password_encrypted)

-- The list of owners that toDomainProxy reads.
unfoldable pub owner_list : QueuedProxy → List ℕ
owner_list qp =
    let ids =
      if is_empty (or_nil qp.workspace_ids) then or_nil qp.user_ids else or_nil qp.workspace_ids in
    if is_empty ids then or_nil qp.users else ids

-- A credential: the encrypted one, if there is one, else the plain one.
unfoldable pub credential : (Text → Option Text) → Text → Text → Option Text
unfolding decrypt_proxy_secret
credential unseal [] plain = some plain
credential unseal (c ∷ encrypted) plain = decrypt_proxy_secret unseal (c ∷ encrypted)

-- The decoded route before its hash is known.
unfoldable pub decoded_proxy : QueuedProxy → Text → Text → Proxy
unfolding owner_list distinct_after
decoded_proxy qp username password = record {
  id = qp.id;
  ip = qp.ip;
  ip_address = none;
  port = qp.port;
  username = username;
  password = password;
  workspaces = distinct_after [] (owner_list qp);
  hash = [];
}

-- `generate_hash` stands for GenerateHash, which canonicalizes the host with the libraries netip and idna
-- and takes an HMAC of the route.
unfoldable pub to_domain_proxy :
    (Text → Option Text) → (Proxy → Option Proxy) → QueuedProxy → Option Proxy
unfolding credential decoded_proxy
to_domain_proxy unseal generate_hash qp = do
  username ← credential unseal qp.username_encrypted qp.username
  password ← credential unseal qp.password_encrypted qp.password
  (if leb queued_proxy_version qp.version && not (is_empty qp.hash)
      then some (record (decoded_proxy qp username password) { hash = qp.hash })
      else generate_hash (decoded_proxy qp username password))
