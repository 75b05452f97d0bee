-- ===== src/Settings.antt =====
-- The checker settings of a workspace: internal/domain/checker_settings.go and the settings types
-- of internal/api/dto/checker_settings.go. The strings that the source compares with constants are
-- enumerations; a constructor `unsupported` stands for all other strings. The uint8 protocol mask
-- is a record of its four bits, nil pointers are `none`, and the map `states`, of which only the
-- membership is read, is a list.
use magpie_backend.Prelude.{
  ℕ, ◌==◌, if◌then◌else◌, Bool, true, false, not, ◌&&◌, ◌||◌, Option, none, some, is_some, List, [],
  ◌∷◌, reverse,
}
pub mod Resolution
pub mod Rejection
mod Examples

pub data Protocol : Type 0 where
  http https socks4 socks5 unsupported : Protocol

pub data Transport : Type 0 where
  tcp quic http3 unsupported : Transport

pub data Mode : Type 0 where
  replace add remove unsupported : Mode

-- The messages of `CheckerSettingsError`.
pub data CheckerSettingsError : Type 0 where
  invalid_timeout unsupported_transport unsupported_protocol duplicate_protocol :
      CheckerSettingsError
  indistinct_tags unsupported_mode remove_overrides socks_requires_tcp : CheckerSettingsError

pub record CheckerProfileSettings : Type 0 where
  pub protocols : List Protocol
  pub transport : Transport
  pub timeout : ℕ  -- uint16
  pub retries : ℕ  -- uint8

pub record TagCheckerRule : Type 0 where
  pub tag_id : ℕ
  pub mode : Mode
  pub protocols : List Protocol
  pub transport : Option Transport
  pub timeout : Option ℕ
  pub retries : Option ℕ

pub record CheckerSettings : Type 0 where
  pub defaults : CheckerProfileSettings
  pub rules : List TagCheckerRule
  pub legacy_protocols : Bool

pub record ProtocolCheckSettings : Type 0 where
  pub enabled : Bool
  pub transport : Transport
  pub timeout : ℕ
  pub retries : ℕ

-- Bit i of the uint8 mask belongs to `CheckerProtocols[i]`.
pub record Mask : Type 0 where
  pub http_bit : Bool
  pub https_bit : Bool
  pub socks4_bit : Bool
  pub socks5_bit : Bool

-- `mask | selected`.
abbrev pub mask_or : Mask → Mask → Mask
mask_or a b = record {
  http_bit = a.http_bit || b.http_bit;
  https_bit = a.https_bit || b.https_bit;
  socks4_bit = a.socks4_bit || b.socks4_bit;
  socks5_bit = a.socks5_bit || b.socks5_bit;
}

-- `mask &^ selected`.
abbrev pub mask_and_not : Mask → Mask → Mask
mask_and_not a b = record {
  http_bit = a.http_bit && not b.http_bit;
  https_bit = a.https_bit && not b.https_bit;
  socks4_bit = a.socks4_bit && not b.socks4_bit;
  socks5_bit = a.socks5_bit && not b.socks5_bit;
}

abbrev pub empty_mask : Mask
empty_mask = record { http_bit = false; https_bit = false; socks4_bit = false; socks5_bit = false }

-- A value, or the error that ends the validation.
pub data Validated {ℓ} (V : Type ℓ) : Type ℓ where
  invalid : CheckerSettingsError → Validated V
  valid : V → Validated V

infixl 5 ◌>>=◌
abbrev pub ◌>>=◌ {ℓ₁ ℓ₂} :
    {V : Type ℓ₁} {W : Type ℓ₂} → Validated V → (V → Validated W) → Validated W
invalid why >>= next = invalid why
valid v >>= next = next v

-- The bit test and the update of one round of the loop in `checkerProtocolMask`.
unfoldable pub mask_step : Mask → Protocol → Validated Mask
mask_step m http =
    if m.http_bit then invalid duplicate_protocol else valid (record m { http_bit = true })
mask_step m https =
    if m.https_bit then invalid duplicate_protocol else valid (record m { https_bit = true })
mask_step m socks4 =
    if m.socks4_bit then invalid duplicate_protocol else valid (record m { socks4_bit = true })
mask_step m socks5 =
    if m.socks5_bit then invalid duplicate_protocol else valid (record m { socks5_bit = true })
mask_step m Protocol.unsupported = invalid unsupported_protocol

unfoldable pub mask_from : Mask → List Protocol → Validated Mask
mask_from m [] = valid m
mask_from m (p ∷ ps) = do m' ← mask_step m p; mask_from m' ps

unfoldable pub checker_protocol_mask : List Protocol → Validated Mask
unfolding mask_from mask_step
checker_protocol_mask ps = mask_from empty_mask ps

-- The value that callers read when they drop the error: 0 on an error.
unfoldable pub mask_or_zero : Validated Mask → Mask
mask_or_zero (valid m) = m
mask_or_zero (invalid e) = empty_mask

unfoldable pub validate_checker_transport : Transport → Option CheckerSettingsError
validate_checker_transport Transport.unsupported = some unsupported_transport
validate_checker_transport _ = none

pub record Selection : Type 0 where
  pub mask : Mask
  pub transport : Transport

abbrev pub get_or {ℓ} : {A : Type ℓ} → Option A → A → A
get_or none d = d
get_or (some a) d = a

-- `switch rule.Mode` on the mask.
unfoldable pub apply_mode : Mode → Mask → Mask → Mask
apply_mode replace mask selected = selected
apply_mode add mask selected = mask_or mask selected
apply_mode remove mask selected = mask_and_not mask selected
apply_mode Mode.unsupported mask selected = mask

-- The two entries that one state adds to `next`: without the tag, and with it.
unfoldable pub next_states : TagCheckerRule → Mask → List Selection → List Selection
next_states rule selected [] = []
next_states rule selected (s ∷ ss) =
    s
    ∷ record {
      mask = apply_mode rule.mode s.mask selected;
      transport = get_or rule.transport s.transport;
    }
    ∷ next_states rule selected ss

abbrev pub contains : ℕ → List ℕ → Bool
contains a [] = false
contains a (x ∷ xs) = x == a || contains a xs

abbrev pub is_supported_mode : Mode → Bool
is_supported_mode Mode.unsupported = false
is_supported_mode _ = true

abbrev pub is_remove : Mode → Bool
is_remove remove = true
is_remove _ = false

abbrev pub is_zero_timeout : Option ℕ → Bool
is_zero_timeout none = false
is_zero_timeout (some t) = t == 0

-- The checks of one round that follow `checkerProtocolMask`.
unfoldable pub check_overrides : TagCheckerRule → Option CheckerSettingsError
unfolding validate_checker_transport
check_overrides rule =
    if is_remove rule.mode
      && (is_some rule.transport || is_some rule.timeout || is_some rule.retries)
    then some remove_overrides
    else if is_zero_timeout rule.timeout
    then some invalid_timeout
    else elim rule.transport [ none ↦ none | some t ↦ validate_checker_transport t ]

-- One round of the loop over the rules, from the last rule to the first.
unfoldable pub rule_step : TagCheckerRule → List ℕ → List Selection → Validated (List Selection)
rule_step rule seen states =
    if rule.tag_id == 0 || contains rule.tag_id seen
    then invalid indistinct_tags
    else if not (is_supported_mode rule.mode)
    then invalid unsupported_mode
    else (do
      selected ← checker_protocol_mask rule.protocols
      elim (check_overrides rule) [
        | some e ↦ invalid e
        | none ↦ valid (next_states rule selected states)
      ])

unfoldable pub validate_rules :
    List TagCheckerRule → List ℕ → List Selection → Validated (List Selection)
validate_rules [] seen states = valid states
validate_rules (rule ∷ rules) seen states = do
  states' ← rule_step rule seen states
  validate_rules rules (rule.tag_id ∷ seen) states'

abbrev pub is_tcp : Transport → Bool
is_tcp tcp = true
is_tcp _ = false

-- `state.mask&12 != 0 && state.transport != "tcp"`.
abbrev pub unsupported_socks : Selection → Bool
unsupported_socks s = (s.mask.socks4_bit || s.mask.socks5_bit) && not (is_tcp s.transport)

abbrev pub any_state : (Selection → Bool) → List Selection → Bool
any_state p [] = false
any_state p (s ∷ ss) = p s || any_state p ss

unfoldable pub check_states : List Selection → Option CheckerSettingsError
check_states states = if any_state unsupported_socks states then some socks_requires_tcp else none

unfoldable pub validate_settings : CheckerSettings → Option CheckerSettingsError
validate_settings value =
    if value.defaults.timeout == 0
    then some invalid_timeout
    else elim (validate_checker_transport value.defaults.transport) [
      | some e ↦ some e
      | none ↦
          elim (do
            mask ← checker_protocol_mask value.defaults.protocols
            validate_rules (reverse value.rules) []
                (record { mask = mask; transport = value.defaults.transport } ∷ [])) [
                  | invalid e ↦ some e
                  | valid states ↦ check_states states
                ]
    ]

-- `ValidateCheckerSettings`: `none` is a nil error, and a nil value is accepted.
unfoldable pub validate_checker_settings : Option CheckerSettings → Option CheckerSettingsError
validate_checker_settings none = none
validate_checker_settings (some value) = validate_settings value

-- The variables of the loop in `ResolveCheckerSettings`.
pub record Profile : Type 0 where
  pub mask : Mask
  pub transport : Transport
  pub timeout : ℕ
  pub retries : ℕ

-- One matching rule. `remove` continues before the field overrides.
unfoldable pub apply_rule : TagCheckerRule → Profile → Profile
unfolding mask_or_zero apply_mode
apply_rule rule p =
    let selected = mask_or_zero (checker_protocol_mask rule.protocols) in
    let mask = apply_mode rule.mode p.mask selected in
    if is_remove rule.mode then record p { mask = mask } else record {
      mask = mask;
      transport = get_or rule.transport p.transport;
      timeout = get_or rule.timeout p.timeout;
      retries = get_or rule.retries p.retries;
    }

-- The rules from the last to the first; a rule applies if the proxy has its tag.
unfoldable pub resolve_rules : (ℕ → Bool) → List TagCheckerRule → Profile → Profile
resolve_rules tag_ids [] p = p
resolve_rules tag_ids (rule ∷ rules) p =
    resolve_rules tag_ids rules (if tag_ids rule.tag_id then apply_rule rule p else p)

unfoldable pub resolved_profile : CheckerSettings → (ℕ → Bool) → Profile
unfolding mask_or_zero
resolved_profile value tag_ids = resolve_rules tag_ids (reverse value.rules) (record {
  mask = mask_or_zero (checker_protocol_mask value.defaults.protocols);
  transport = value.defaults.transport;
  timeout = value.defaults.timeout;
  retries = value.defaults.retries;
})

abbrev pub plan_entry : Bool → Profile → ProtocolCheckSettings
plan_entry enabled p = record {
  enabled = enabled;
  transport = p.transport;
  timeout = p.timeout;
  retries = p.retries;
}

-- The compiled plan, by the order of `CheckerProtocols`.
pub record Plan : Type 0 where
  pub http_check : ProtocolCheckSettings
  pub https_check : ProtocolCheckSettings
  pub socks4_check : ProtocolCheckSettings
  pub socks5_check : ProtocolCheckSettings

unfoldable pub resolve_checker_settings : CheckerSettings → (ℕ → Bool) → Plan
resolve_checker_settings value tag_ids =
    let p = resolved_profile value tag_ids in
    record {
      http_check = plan_entry p.mask.http_bit p;
      https_check = plan_entry p.mask.https_bit p;
      socks4_check = plan_entry p.mask.socks4_bit p;
      socks5_check = plan_entry p.mask.socks5_bit p;
    }
