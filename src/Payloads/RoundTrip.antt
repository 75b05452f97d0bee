-- ===== src/Payloads/RoundTrip.antt =====
-- What a worker decodes from the payload that newQueuedProxy of internal/jobs/queue/proxy made.
use magpie_backend.Prelude.{
  ℕ, ◌==◌, if◌then◌else◌, ◌≡◌, ◌≢◌, refl, sym, ap, ◌∙◌, subst, Bool, true, false, not, ◌&&◌, Option,
  none, some, List, [], ◌∷◌, ◌++◌, Option-cases, inl, inr, arith,
}
use magpie_backend.Payloads.{
  Text, Proxy, QueuedProxy, contains, is_empty, ◌>>=◌, distinct_after, collect_queued_workspace_ids,
  get_host, proxy_encryption_prefix, strip_prefix, encrypt_proxy_secret, decrypt_proxy_secret,
  plain_payload, new_queued_proxy, needs_rewrite, owner_list, credential, decoded_proxy,
  to_domain_proxy,
}
use magpie_backend.Payloads.Distinct.{
  IsFresh, distinct_after-IsFresh, distinct_after-fixed, contains-distinct_after,
}

-- `unseal` opens what `seal` made.
abbrev pub Opens : (Text → Option Text) → (Text → Option Text) → Type 0
Opens seal unseal = (plain cipher : Text) → seal plain ≡ some cipher → unseal cipher ≡ some plain

none-some : (x : Text) → none ≢ some x
none-some x e = ground arith

same_some : {x y : Text} → some x ≡ some y → x ≡ y
same_some e = ground arith

abbrev prefixed : Text → Option Text
prefixed cipher = some (proxy_encryption_prefix ++ cipher)

-- The ciphertext of a secret gives the secret.
pub credential-encrypt :
    (seal unseal : Text → Option Text) (plain encrypted : Text)
    → Opens seal unseal
    → encrypt_proxy_secret seal plain ≡ some encrypted
    → credential unseal encrypted [] ≡ some plain
unfolding encrypt_proxy_secret credential decrypt_proxy_secret strip_prefix
credential-encrypt seal unseal [] encrypted opens e =
    let empty : [] ≡ encrypted = ground arith in
    subst (λ x. credential unseal x [] ≡ some []) empty refl
credential-encrypt seal unseal (c ∷ plain) encrypted opens e =
    elim (Option-cases (seal (c ∷ plain))) [
      | inl n ↦ absurd (none-some encrypted (sym (ap (λ o. o >>= prefixed) n) ∙ e))
      | inr (cipher, s) ↦
          let same : proxy_encryption_prefix ++ cipher ≡ encrypted =
            same_some (sym (ap (λ o. o >>= prefixed) s) ∙ e) in
          subst (λ x. credential unseal x [] ≡ some (c ∷ plain)) same (opens (c ∷ plain) cipher s)
    ]

-- The owners of a payload with one list.
owner_list-of :
    (qp : QueuedProxy) (out : List ℕ)
    → qp.workspace_ids ≡ (if is_empty out then none else some out)
    → qp.user_ids ≡ none
    → qp.users ≡ none
    → owner_list qp ≡ out
unfolding owner_list
owner_list-of qp [] a b c = rw (a, b, c) refl
owner_list-of qp (w ∷ out) a b c = rw a refl

-- The decoded route is the encoded one: a host, and each workspace once.
abbrev pub decoded_of : Proxy → Proxy
decoded_of proxy = record proxy {
  ip = get_host proxy;
  ip_address = none;
  workspaces = distinct_after [] proxy.workspaces;
}

-- What toDomainProxy makes of a payload with the fields of `plain_payload` and these credentials.
decode-of :
    (unseal : Text → Option Text) (generate_hash : Proxy → Option Proxy) (proxy : Proxy)
    (username_encrypted password_encrypted username password : Text)
    → is_empty proxy.hash ≡ false
    → credential unseal username_encrypted username ≡ some proxy.username
    → credential unseal password_encrypted password ≡ some proxy.password
    → to_domain_proxy unseal generate_hash (record (plain_payload proxy) {
      username_encrypted = username_encrypted;
      password_encrypted = password_encrypted;
      username = username;
      password = password;
    })
      ≡ some (decoded_of proxy)
unfolding to_domain_proxy decoded_proxy plain_payload collect_queued_workspace_ids
decode-of unseal generate_hash proxy ue pe u p keyed a b =
    let qp : QueuedProxy = record (plain_payload proxy) {
      username_encrypted = ue;
      password_encrypted = pe;
      username = u;
      password = p;
    } in
    let out = distinct_after [] proxy.workspaces in
    let owners : distinct_after [] (owner_list qp) ≡ out =
      ap (distinct_after []) (owner_list-of qp out refl refl refl)
      ∙ distinct_after-fixed [] out (distinct_after-IsFresh [] proxy.workspaces) in
    rw (a, b, keyed) (ap (λ ws. some (record (decoded_of proxy) { workspaces = ws })) owners)

same_payload : {a b : QueuedProxy} → some a ≡ some b → a ≡ b
same_payload e = ground arith

>>=-some :
    {A B : Type 0} (o : Option A) (next : A → Option B) (b : B)
    → (o >>= next) ≡ some b
    → (a : A) × (o ≡ some a) × (next a ≡ some b)
>>=-some none next b e = absurd (ground arith)
>>=-some (some a) next b e = (a, refl, e)

decode-new_queued_proxy :
    (encrypts : Bool) (seal unseal : Text → Option Text) (generate_hash : Proxy → Option Proxy)
    (proxy : Proxy) (qp : QueuedProxy)
    → Opens seal unseal
    → is_empty proxy.hash ≡ false
    → new_queued_proxy encrypts seal proxy ≡ some qp
    → (to_domain_proxy unseal generate_hash qp ≡ some (decoded_of proxy))
      × (needs_rewrite encrypts qp ≡ false)
unfolding new_queued_proxy needs_rewrite plain_payload
decode-new_queued_proxy false seal unseal generate_hash proxy qp opens keyed e =
    subst
      (λ q.
        (to_domain_proxy unseal generate_hash q ≡ some (decoded_of proxy))
        × (needs_rewrite false q ≡ false))
      (same_payload e)
      (
        decode-of unseal generate_hash proxy [] [] proxy.username proxy.password keyed
            (unfold credential in refl) (unfold credential in refl),
        rw keyed refl,
      )
decode-new_queued_proxy true seal unseal generate_hash proxy qp opens keyed e =
    let (u, eu, e') = >>=-some (encrypt_proxy_secret seal proxy.username) _ qp e in
    let (p, ep, e'') = >>=-some (encrypt_proxy_secret seal proxy.password) _ qp e' in
    subst
      (λ q.
        (to_domain_proxy unseal generate_hash q ≡ some (decoded_of proxy))
        × (needs_rewrite true q ≡ false))
      (same_payload e'')
      (
        decode-of unseal generate_hash proxy u p [] [] keyed
            (credential-encrypt seal unseal proxy.username u opens eu)
            (credential-encrypt seal unseal proxy.password p opens ep),
        rw keyed refl,
      )

-- A proxy with a hash that newQueuedProxy encodes comes back from toDomainProxy with its ID, port, hash and
-- credentials, with its host as the address, and with exactly the IDs of its workspaces that are not 0, each
-- once; and the payload needs no rewrite under the same encryption setting. The cipher must open what it
-- sealed.
pub new_queued_proxy-to_domain_proxy :
    (encrypts : Bool) (seal unseal : Text → Option Text) (generate_hash : Proxy → Option Proxy)
    (proxy : Proxy) (qp : QueuedProxy)
    → Opens seal unseal
    → is_empty proxy.hash ≡ false
    → new_queued_proxy encrypts seal proxy ≡ some qp
    → (to_domain_proxy unseal generate_hash qp ≡ some (decoded_of proxy))
      × (needs_rewrite encrypts qp ≡ false)
      × IsFresh [] (decoded_of proxy).workspaces
      × ((w : ℕ)
          → contains w (decoded_of proxy).workspaces ≡ contains w proxy.workspaces && not (w == 0))
new_queued_proxy-to_domain_proxy encrypts seal unseal generate_hash proxy qp opens keyed e =
    let (decoded, kept) =
      decode-new_queued_proxy encrypts seal unseal generate_hash proxy qp opens keyed e in
    (
      decoded,
      kept,
      distinct_after-IsFresh [] proxy.workspaces,
      λ w. contains-distinct_after w [] proxy.workspaces ∙ ground arith,
    )
