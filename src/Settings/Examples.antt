-- ===== src/Settings/Examples.antt =====
-- Configurations that are accepted and rejected: internal/domain/checker_settings.go.
use magpie_backend.Prelude.{
  ℕ, ◌==◌, ◌≡◌, refl, Bool, true, false, ◌||◌, Option, none, some, List, [], ◌∷◌,
}
use magpie_backend.Settings.{
  Protocol, Transport, Mode, CheckerSettings, TagCheckerRule, CheckerProfileSettings,
  socks_requires_tcp, is_tcp, validate_checker_settings, resolve_checker_settings,
  validate_settings, checker_protocol_mask, validate_checker_transport, validate_rules, rule_step,
  check_overrides, next_states, apply_mode, check_states,
}
use magpie_backend.Settings.Resolution.{resolve-SocksUseTcp}
use magpie_backend.Settings.Rejection.{rejection-HasWitness}

abbrev defaults : CheckerProfileSettings
defaults = record {
  protocols = Protocol.https ∷ [];
  transport = Transport.tcp;
  timeout = 7500;
  retries = 2;
}

abbrev rule : ℕ → Mode → List Protocol → Option Transport → TagCheckerRule
rule tag mode protocols transport = record {
  tag_id = tag;
  mode = mode;
  protocols = protocols;
  transport = transport;
  timeout = none;
  retries = none;
}

-- Tag 1 adds SOCKS5.
abbrev adds_socks : CheckerSettings
adds_socks = record {
  defaults = defaults;
  rules = rule 1 Mode.add (Protocol.socks5 ∷ []) none ∷ [];
  legacy_protocols = false;
}

-- Tag 2 makes the transport QUIC, so both tags together make SOCKS5 over QUIC.
abbrev adds_quic : CheckerSettings
adds_quic = record {
  defaults = defaults;
  rules =
      rule 1 Mode.add (Protocol.socks5 ∷ []) none
      ∷ rule 2 Mode.add (Protocol.https ∷ []) (some Transport.quic)
      ∷ [];
  legacy_protocols = false;
}

adds_socks_accepted : validate_checker_settings (some adds_socks) ≡ none
unfolding validate_checker_settings validate_settings checker_protocol_mask
    validate_checker_transport validate_rules rule_step check_overrides next_states apply_mode
    check_states
adds_socks_accepted = refl

adds_quic_rejected : validate_checker_settings (some adds_quic) ≡ some socks_requires_tcp
unfolding validate_checker_settings validate_settings checker_protocol_mask
    validate_checker_transport validate_rules rule_step check_overrides next_states apply_mode
    check_states
adds_quic_rejected = refl

resolve-SocksUseTcp_example :
    let plan = resolve_checker_settings adds_socks (λ t. t == 1) in
    (plan.socks4_check.enabled ≡ true → is_tcp plan.socks4_check.transport ≡ true)
    × (plan.socks5_check.enabled ≡ true → is_tcp plan.socks5_check.transport ≡ true)
resolve-SocksUseTcp_example = resolve-SocksUseTcp adds_socks (λ t. t == 1) adds_socks_accepted

rejection-HasWitness_example :
    (tag_ids : ℕ → Bool) × (let plan = resolve_checker_settings adds_quic tag_ids in
      ((plan.socks4_check.enabled || plan.socks5_check.enabled) ≡ true)
      × (is_tcp plan.socks4_check.transport ≡ false)
      × (is_tcp plan.socks5_check.transport ≡ false))
rejection-HasWitness_example = rejection-HasWitness adds_quic adds_quic_rejected
