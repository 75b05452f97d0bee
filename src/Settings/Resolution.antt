-- ===== src/Settings/Resolution.antt =====
-- What a settings write that was accepted promises to the checker: internal/domain/checker_settings.go.
use magpie_backend.Prelude.{
  ℕ, if◌then◌else◌, ◌≡◌, refl, ap, subst, Bool, true, false, none, some, List, [], ◌∷◌, reverse,
  Memᴰ, Bool-cases, inl, inr, arith,
}
use magpie_backend.Settings.{
  TagCheckerRule, CheckerSettings, Selection, Profile, Mask, Validated, valid, invalid,
  checker_protocol_mask, apply_mode, next_states, check_overrides, rule_step, validate_rules,
  check_states, validate_settings, validate_checker_settings, apply_rule, resolve_rules,
  resolved_profile, resolve_checker_settings, unsupported_socks, any_state, is_tcp, get_or, ◌>>=◌,
}

abbrev pub selection_of : Profile → Selection
selection_of p = record { mask = p.mask; transport = p.transport }

-- A state stays, and so does its image.
next_states_keep :
    (rule : TagCheckerRule) (selected : Mask) (s : Selection) (ss : List Selection)
    → Memᴰ s ss
    → Memᴰ s (next_states rule selected ss)
unfolding next_states
next_states_keep rule selected s [] m = elim m [ ]
next_states_keep rule selected s (x ∷ ss) (Memᴰ.head e) = Memᴰ.head e
next_states_keep rule selected s (x ∷ ss) (Memᴰ.tail m) =
    Memᴰ.tail (Memᴰ.tail (next_states_keep rule selected s ss m))

pub bind-eq-valid {ℓ κ} :
    {A : Type ℓ} {B : Type κ} (m : Validated A) (f : A → Validated B) {b : B}
    → (m >>= f) ≡ valid b
    → (a : A) × (m ≡ valid a) × (f a ≡ valid b)
bind-eq-valid (valid a) f h = (a, refl, h)
bind-eq-valid (invalid e) f h = cc

abbrev pub image : TagCheckerRule → Mask → Selection → Selection
image rule selected s = record {
  mask = apply_mode rule.mode s.mask selected;
  transport = get_or rule.transport s.transport;
}

next_states_image :
    (rule : TagCheckerRule) (selected : Mask) (s : Selection) (ss : List Selection)
    → Memᴰ s ss
    → Memᴰ (image rule selected s) (next_states rule selected ss)
unfolding next_states
next_states_image rule selected s [] m = elim m [ ]
next_states_image rule selected s (x ∷ ss) (Memᴰ.head e) =
    Memᴰ.tail (Memᴰ.head (ap (image rule selected) e))
next_states_image rule selected s (x ∷ ss) (Memᴰ.tail m) =
    Memᴰ.tail (Memᴰ.tail (next_states_image rule selected s ss m))

-- An accepted rule without `remove` overrides moves a profile as its image.
pub apply_rule-image :
    (rule : TagCheckerRule) (selected : Mask) (p : Profile)
    → checker_protocol_mask rule.protocols ≡ valid selected
    → check_overrides rule ≡ none
    → selection_of (apply_rule rule p) ≡ image rule selected (selection_of p)
unfolding apply_rule check_overrides
apply_rule-image rule selected p hs ho = ground arith

pub rule_step-inversion :
    (rule : TagCheckerRule) (seen : List ℕ) (states states' : List Selection)
    → rule_step rule seen states ≡ valid states'
    → (selected : Mask) × (checker_protocol_mask rule.protocols ≡ valid selected)
      × (check_overrides rule ≡ none)
      × (states' ≡ next_states rule selected states)
unfolding rule_step
rule_step-inversion rule seen states states' h = ground arith

abbrev step_profile : (ℕ → Bool) → TagCheckerRule → Profile → Profile
step_profile tag_ids rule p = if tag_ids rule.tag_id then apply_rule rule p else p

rule_step-tracks :
    (tag_ids : ℕ → Bool) (rule : TagCheckerRule) (seen : List ℕ) (states states' : List Selection)
    (p : Profile)
    → rule_step rule seen states ≡ valid states'
    → Memᴰ (selection_of p) states
    → Memᴰ (selection_of (step_profile tag_ids rule p)) states'
rule_step-tracks tag_ids rule seen states states' p h m =
    let (selected, hs, ho, e) = rule_step-inversion rule seen states states' h in
    elim (Bool-cases (tag_ids rule.tag_id)) [
      | inl yes' ↦
          rw (e, yes', apply_rule-image rule selected p hs ho)
            (next_states_image rule selected (selection_of p) states m)
      | inr no' ↦ rw (e, no') (next_states_keep rule selected (selection_of p) states m)
    ]

validate_rules-tracks :
    (tag_ids : ℕ → Bool) (rules : List TagCheckerRule) (seen : List ℕ)
    (states final : List Selection) (p : Profile)
    → validate_rules rules seen states ≡ valid final
    → Memᴰ (selection_of p) states
    → Memᴰ (selection_of (resolve_rules tag_ids rules p)) final
unfolding validate_rules resolve_rules
validate_rules-tracks tag_ids [] seen states final p h m =
    subst (λ l. Memᴰ (selection_of p) l) (ground arith) m
validate_rules-tracks tag_ids (rule ∷ rules) seen states final p h m =
    let (states', e, rest) =
      bind-eq-valid (rule_step rule seen states) (validate_rules rules (rule.tag_id ∷ seen)) h in
    validate_rules-tracks tag_ids rules (rule.tag_id ∷ seen) states' final
      (step_profile tag_ids rule p) rest (rule_step-tracks tag_ids rule seen states states' p e m)

no_state_of_mem :
    (s : Selection) (ss : List Selection)
    → any_state unsupported_socks ss ≡ false
    → Memᴰ s ss
    → unsupported_socks s ≡ false
no_state_of_mem s [] h m = elim m [ ]
no_state_of_mem s (x ∷ ss) h (Memᴰ.head e) = rw e (ground arith)
no_state_of_mem s (x ∷ ss) h (Memᴰ.tail m) = no_state_of_mem s ss (ground arith) m

validate_settings-inversion :
    (value : CheckerSettings)
    → validate_settings value ≡ none
    → (mask : Mask) × (checker_protocol_mask value.defaults.protocols ≡ valid mask)
      × (final : List Selection) × (validate_rules
            (reverse value.rules)
            []
            (record { mask = mask; transport = value.defaults.transport } ∷ [])
          ≡ valid final)
      × (any_state unsupported_socks final ≡ false)
unfolding validate_settings check_states
validate_settings-inversion value h = ground arith

resolved_profile-supported :
    (value : CheckerSettings) (tag_ids : ℕ → Bool)
    → validate_settings value ≡ none
    → unsupported_socks (selection_of (resolved_profile value tag_ids)) ≡ false
unfolding resolved_profile
resolved_profile-supported value tag_ids h =
    let (mask, hm, final, hf, none') = validate_settings-inversion value h in
    no_state_of_mem _ final none' (
      validate_rules-tracks tag_ids (reverse value.rules) [] _ final _ hf
        (Memᴰ.head (ground arith)))

-- If `ValidateCheckerSettings` accepts a configuration, then for every set of tags that a proxy
-- carries, the plan that `ResolveCheckerSettings` compiles uses TCP for SOCKS4 and for SOCKS5
-- whenever it enables them.
pub resolve-SocksUseTcp :
    (value : CheckerSettings) (tag_ids : ℕ → Bool)
    → validate_checker_settings (some value) ≡ none
    → let plan = resolve_checker_settings value tag_ids in
      (plan.socks4_check.enabled ≡ true → is_tcp plan.socks4_check.transport ≡ true)
      × (plan.socks5_check.enabled ≡ true → is_tcp plan.socks5_check.transport ≡ true)
unfolding validate_checker_settings resolve_checker_settings
resolve-SocksUseTcp value tag_ids h =
    let safe = resolved_profile-supported value tag_ids h in
    ((λ e. ground arith), (λ e. ground arith))
