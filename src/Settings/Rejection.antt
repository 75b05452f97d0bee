-- ===== src/Settings/Rejection.antt =====
-- Why a settings write is rejected for its transport: internal/domain/checker_settings.go.
use magpie_backend.Prelude.{
  ℕ, ◌==◌, if◌then◌else◌, ◌≡◌, refl, ap, subst, sym, ◌∙◌, Bool, true, false, ◌||◌, some, List, [],
  ◌∷◌, reverse, Memᴰ, Bool-cases, ◌⊎◌, inl, inr, arith, ==_iff, ◌≢◌,
}
use magpie_backend.Settings.{
  TagCheckerRule, CheckerSettings, CheckerSettingsError, Protocol, http, https, socks4, socks5,
  Validated, ◌>>=◌, empty_mask, Selection, Profile, Mask, valid, invalid, contains,
  socks_requires_tcp, checker_protocol_mask, next_states, rule_step, validate_rules, check_states,
  validate_settings, check_overrides, validate_checker_transport, mask_step, mask_from,
  validate_checker_settings, apply_rule, resolve_rules, resolved_profile, unsupported_socks,
  mask_or_zero, any_state, is_tcp, resolve_checker_settings,
}
use magpie_backend.Settings.Resolution.{
  selection_of, image, apply_rule-image, rule_step-inversion, bind-eq-valid,
}

abbrev choose : (ℕ → Bool) → ℕ → Bool → ℕ → Bool
choose tag_ids t b = λ u. if u == t then b else tag_ids u

rule_step-fresh :
    (rule : TagCheckerRule) (seen : List ℕ) (states states' : List Selection) (t : ℕ)
    → rule_step rule seen states ≡ valid states'
    → contains t seen ≡ true
    → (rule.tag_id == t) ≡ false
unfolding rule_step
rule_step-fresh rule seen states states' t h c = elim (Bool-cases (rule.tag_id == t)) [
  | inr e ↦ e
  | inl e ↦ absurd (clash ((==_iff rule.tag_id t).0 e))
]
  where
    clash : rule.tag_id ≡ t → ⊥
    clash p = let c' : contains rule.tag_id seen ≡ true = rw p c in ground (arith, c')

-- The tags of rules that were seen do not matter to the rules that follow.
resolve_rules-choose :
    (tag_ids : ℕ → Bool) (t : ℕ) (b : Bool) (rules : List TagCheckerRule) (seen : List ℕ)
    (states final : List Selection) (p : Profile)
    → validate_rules rules seen states ≡ valid final
    → contains t seen ≡ true
    → resolve_rules (choose tag_ids t b) rules p ≡ resolve_rules tag_ids rules p
unfolding validate_rules resolve_rules
resolve_rules-choose tag_ids t b [] seen states final p h c = refl
resolve_rules-choose tag_ids t b (rule ∷ rules) seen states final p h c =
    let (states', e, rest) =
      bind-eq-valid (rule_step rule seen states) (validate_rules rules (rule.tag_id ∷ seen)) h in
    rw (rule_step-fresh rule seen states states' t e c) (
      resolve_rules-choose tag_ids t b rules (rule.tag_id ∷ seen) states' final _ rest
        (rw c (ground arith)))

choose_self : (tag_ids : ℕ → Bool) (t : ℕ) (b : Bool) → choose tag_ids t b t ≡ b
choose_self tag_ids t b = ground arith

resolve_rules-chosen :
    (tag_ids : ℕ → Bool) (rule : TagCheckerRule) (b : Bool) (rules : List TagCheckerRule)
    (p : Profile)
    → resolve_rules (choose tag_ids rule.tag_id b) (rule ∷ rules) p
      ≡ resolve_rules (choose tag_ids rule.tag_id b) rules (if b then apply_rule rule p else p)
unfolding resolve_rules
resolve_rules-chosen tag_ids rule b rules p =
    ap
      (λ c. resolve_rules (choose tag_ids rule.tag_id b) rules (if c then apply_rule rule p else p))
      (choose_self tag_ids rule.tag_id b)

next_states-origin :
    (rule : TagCheckerRule) (selected : Mask) (s : Selection) (ss : List Selection)
    → Memᴰ s (next_states rule selected ss)
    → (s₀ : Selection) × Memᴰ s₀ ss × ((s ≡ s₀) ⊎ (s ≡ image rule selected s₀))
unfolding next_states
next_states-origin rule selected s [] m = elim m [ ]
next_states-origin rule selected s (x ∷ ss) (Memᴰ.head e) = (x, Memᴰ.head refl, inl e)
next_states-origin rule selected s (x ∷ ss) (Memᴰ.tail (Memᴰ.head e)) = (x, Memᴰ.head refl, inr e)
next_states-origin rule selected s (x ∷ ss) (Memᴰ.tail (Memᴰ.tail m)) =
    let (s₀, m₀, c) = next_states-origin rule selected s ss m in (s₀, Memᴰ.tail m₀, c)

-- The tags that lead from one of the given states to the state `s`.
abbrev Reaches : List TagCheckerRule → List Selection → Selection → Type 0
Reaches rules states s =
    (s₀ : Selection) × Memᴰ s₀ states
    × (tag_ids : ℕ → Bool) × ((p : Profile)
        → selection_of p ≡ s₀
        → selection_of (resolve_rules tag_ids rules p) ≡ s)

extend :
    (rule : TagCheckerRule) (rules : List TagCheckerRule) (seen : List ℕ)
    (states states' final : List Selection) (s : Selection)
    → rule_step rule seen states ≡ valid states'
    → validate_rules rules (rule.tag_id ∷ seen) states' ≡ valid final
    → Reaches rules states' s
    → Reaches (rule ∷ rules) states s
extend rule rules seen states states' final s e rest (s₁, m₁, tag_ids, reach) =
    let (selected, hs, ho, es) = rule_step-inversion rule seen states states' e in
    let (s₀, m₀, c) = next_states-origin rule selected s₁ states (subst (λ l. Memᴰ s₁ l) es m₁) in
    let self : (rule.tag_id == rule.tag_id) ≡ true = (==_iff rule.tag_id rule.tag_id).1 refl in
    let kept : contains rule.tag_id (rule.tag_id ∷ seen) ≡ true = rw self refl in
    elim c [
      | inl q ↦ (
        s₀,
        m₀,
        choose tag_ids rule.tag_id false,
        λ p hp.
            rw
              (
                resolve_rules-chosen tag_ids rule false rules p,
                resolve_rules-choose tag_ids rule.tag_id false rules (rule.tag_id ∷ seen) states'
                    final p rest kept,
              )
              (reach p (hp ∙ sym q)),
      )
      | inr q ↦ (
        s₀,
        m₀,
        choose tag_ids rule.tag_id true,
        λ p hp.
            rw
              (
                resolve_rules-chosen tag_ids rule true rules p,
                resolve_rules-choose tag_ids rule.tag_id true rules (rule.tag_id ∷ seen) states'
                    final (apply_rule rule p) rest kept,
              )
              (reach (apply_rule rule p)
                (apply_rule-image rule selected p hs ho ∙ ap (image rule selected) hp ∙ sym q)),
      )
    ]

validate_rules-reached :
    (rules : List TagCheckerRule) (seen : List ℕ) (states final : List Selection) (s : Selection)
    → validate_rules rules seen states ≡ valid final
    → Memᴰ s final
    → Reaches rules states s
unfolding validate_rules resolve_rules
validate_rules-reached [] seen states final s h m =
    (s, subst (λ l. Memᴰ s l) (ground arith) m, (λ t. false), λ p hp. hp)
validate_rules-reached (rule ∷ rules) seen states final s h m =
    let (states', e, rest) =
      bind-eq-valid (rule_step rule seen states) (validate_rules rules (rule.tag_id ∷ seen)) h in
    extend rule rules seen states states' final s e rest
      (validate_rules-reached rules (rule.tag_id ∷ seen) states' final s rest m)

state_of_any :
    (ss : List Selection)
    → any_state unsupported_socks ss ≡ true
    → (s : Selection) × Memᴰ s ss × (unsupported_socks s ≡ true)
state_of_any [] h = cc
state_of_any (x ∷ ss) h = elim (Bool-cases (unsupported_socks x)) [
  | inl e ↦ (x, Memᴰ.head refl, e)
  | inr e ↦ let (s, m, u) = state_of_any ss (ground arith) in (s, Memᴰ.tail m, u)
]

mask-SocksError : (m : Mask) (ps : List Protocol) → mask_from m ps ≢ invalid socks_requires_tcp
unfolding mask_from mask_step
mask-SocksError m [] = λ h. cc
mask-SocksError m (http ∷ ps) = ground (arith, mask-SocksError (record m { http_bit = true }) ps)
mask-SocksError m (https ∷ ps) = ground (arith, mask-SocksError (record m { https_bit = true }) ps)
mask-SocksError m (socks4 ∷ ps) =
    ground (arith, mask-SocksError (record m { socks4_bit = true }) ps)
mask-SocksError m (socks5 ∷ ps) =
    ground (arith, mask-SocksError (record m { socks5_bit = true }) ps)
mask-SocksError m (Protocol.unsupported ∷ ps) = λ h. cc

rule_step-SocksError :
    (rule : TagCheckerRule) (seen : List ℕ) (states : List Selection)
    → rule_step rule seen states ≢ invalid socks_requires_tcp
unfolding rule_step check_overrides checker_protocol_mask
rule_step-SocksError rule seen states = ground (arith, mask-SocksError empty_mask rule.protocols)

Validated-cases :
    {A : Type 0} (r : Validated A)
    → ((a : A) × (r ≡ valid a)) ⊎ ((e : CheckerSettingsError) × (r ≡ invalid e))
Validated-cases (valid a) = inl (a, refl)
Validated-cases (invalid e) = inr (e, refl)

bind-SocksError :
    (m : Validated (List Selection)) (f : List Selection → Validated (List Selection))
    → m ≢ invalid socks_requires_tcp
    → ((a : List Selection) → f a ≢ invalid socks_requires_tcp)
    → (m >>= f) ≢ invalid socks_requires_tcp
bind-SocksError (valid a) f h k = k a
bind-SocksError (invalid e) f h k = h

rules-SocksError :
    (rules : List TagCheckerRule) (seen : List ℕ) (states : List Selection)
    → validate_rules rules seen states ≢ invalid socks_requires_tcp
unfolding validate_rules
rules-SocksError [] seen states = λ h. cc
rules-SocksError (rule ∷ rules) seen states =
    bind-SocksError _ _ (rule_step-SocksError rule seen states)
      (rules-SocksError rules (rule.tag_id ∷ seen))

rejected_states :
    (value : CheckerSettings)
    → validate_settings value ≡ some socks_requires_tcp
    → (mask : Mask) × (checker_protocol_mask value.defaults.protocols ≡ valid mask)
      × (final : List Selection) × (validate_rules
            (reverse value.rules)
            []
            (record { mask = mask; transport = value.defaults.transport } ∷ [])
          ≡ valid final)
      × (any_state unsupported_socks final ≡ true)
unfolding validate_settings check_states validate_checker_transport checker_protocol_mask
rejected_states value h = elim (Validated-cases (checker_protocol_mask value.defaults.protocols)) [
  | inl (mask, hm) ↦
      let start : List Selection =
        record { mask = mask; transport = value.defaults.transport } ∷ [] in
      elim (Validated-cases (validate_rules (reverse value.rules) [] start)) [
        | inl (final, hf) ↦ (mask, hm, final, hf, ground arith)
        | inr (e, he) ↦ absurd (ground (arith, rules-SocksError (reverse value.rules) [] start))
      ]
  | inr (e, he) ↦ absurd (ground (arith, mask-SocksError empty_mask value.defaults.protocols))
]

start-selection :
    (value : CheckerSettings) (mask : Mask) (s : Selection)
    → checker_protocol_mask value.defaults.protocols ≡ valid mask
    → Memᴰ s (record { mask = mask; transport = value.defaults.transport } ∷ [])
    → record {
      mask = mask_or_zero (checker_protocol_mask value.defaults.protocols);
      transport = value.defaults.transport;
    }
      ≡ s
unfolding mask_or_zero
start-selection value mask s hm (Memᴰ.head e) = ground arith
start-selection value mask s hm (Memᴰ.tail t) = elim t [ ]

final_state_reached :
    (value : CheckerSettings) (mask : Mask) (final : List Selection) (s : Selection)
    → checker_protocol_mask value.defaults.protocols ≡ valid mask
    → validate_rules
        (reverse value.rules)
        []
        (record { mask = mask; transport = value.defaults.transport } ∷ [])
      ≡ valid final
    → Memᴰ s final
    → (tag_ids : ℕ → Bool) × (selection_of (resolved_profile value tag_ids) ≡ s)
unfolding resolved_profile
final_state_reached value mask final s hm hf m =
    let (s₀, m₀, tag_ids, reach) = validate_rules-reached (reverse value.rules) [] _ final s hf m in
    (tag_ids, reach _ (start-selection value mask s₀ hm m₀))

plan_of_selection :
    (value : CheckerSettings) (tag_ids : ℕ → Bool) (s : Selection)
    → selection_of (resolved_profile value tag_ids) ≡ s
    → unsupported_socks s ≡ true
    → let plan = resolve_checker_settings value tag_ids in
      ((plan.socks4_check.enabled || plan.socks5_check.enabled) ≡ true)
      × (is_tcp plan.socks4_check.transport ≡ false)
      × (is_tcp plan.socks5_check.transport ≡ false)
unfolding resolve_checker_settings
plan_of_selection value tag_ids s e u = ground arith

-- If `ValidateCheckerSettings` rejects a configuration because SOCKS requires TCP, then there is a
-- set of tags for which `ResolveCheckerSettings` enables SOCKS4 or SOCKS5 over another transport.
pub rejection-HasWitness :
    (value : CheckerSettings)
    → validate_checker_settings (some value) ≡ some socks_requires_tcp
    → (tag_ids : ℕ → Bool) × (let plan = resolve_checker_settings value tag_ids in
        ((plan.socks4_check.enabled || plan.socks5_check.enabled) ≡ true)
        × (is_tcp plan.socks4_check.transport ≡ false)
        × (is_tcp plan.socks5_check.transport ≡ false))
unfolding validate_checker_settings
rejection-HasWitness value h =
    let (mask, hm, final, hf, bad) = rejected_states value h in
    let (s, m, u) = state_of_any final bad in
    let (tag_ids, found) = final_state_reached value mask final s hm hf m in
    (tag_ids, plan_of_selection value tag_ids s found u)
