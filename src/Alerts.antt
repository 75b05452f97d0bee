-- ===== src/Alerts.antt =====
-- Alert rules and their incidents: applyAlertObservations of internal/database/alert_transitions.go,
-- closeAlertForConfiguration of internal/database/alerts.go and the model of
-- internal/domain/alert_model.go. Instants are numbers of nanoseconds. A measured value is a float64,
-- of which the code uses `<` alone, so its type and the comparison are parameters. The incidents are
-- the rows of the workspace in their table, and `next_id` is the next value of its key. A failed
-- transaction leaves the rows as they were. The queued deliveries are left out.
use magpie_backend.Prelude.{
  ℕ, ◌+◌, ◌-◌, ◌*◌, ◌==◌, ltb, leb, if◌then◌else◌, Bool, true, false, not, ◌&&◌, Option, none, some,
  is_some, List, [], ◌∷◌, String,
}
pub mod Sustain
pub mod Incidents
mod Examples

pub data Metric : Type 0 where
  usable_routes success_rate latency_ms : Metric

pub data Status : Type 0 where
  unknown breaching healthy disabled : Status

abbrev pub second : ℕ
second = 1000000000

abbrev pub alert_sustain_duration : ℕ
alert_sustain_duration = 120 * second

-- The gap after which a streak of observations is broken.
abbrev pub alert_gap : ℕ
alert_gap = 90 * second

pub record AlertRule (V : Type 0) : Type 0 where
  pub id : ℕ
  pub metric : Metric
  pub threshold : V
  pub enabled : Bool
  pub revision : ℕ
  pub status : Status
  pub unknown_reason : String
  pub last_value : Option V
  pub sample_count : ℕ
  pub last_evaluated_at : Option ℕ
  pub last_attempt_at : Option ℕ
  pub breach_since : Option ℕ
  pub recovery_since : Option ℕ
  pub active_incident_id : Option ℕ

pub record AlertObservation (V : Type 0) : Type 0 where
  pub value : Option V
  pub samples : ℕ
  pub unknown_reason : String

-- `alertRuleObservation`: the revision is that of the snapshot.
pub record RuleObservation (V : Type 0) : Type 0 where
  pub snapshot_revision : ℕ
  pub observation : AlertObservation V
  pub missing_rotator : Bool

pub data CloseReason : Type 0 where
  recovered configuration_changed : CloseReason

pub record AlertIncident (V : Type 0) : Type 0 where
  pub id : ℕ
  pub rule_id : ℕ
  pub rule_revision : ℕ
  pub opening_value : V
  pub opened_at : ℕ
  pub closed_at : Option ℕ
  pub close_reason : Option CloseReason
  pub closing_value : Option V

pub data AlertError : Type 0 where
  record_not_found revision_mismatch : AlertError

-- What a rule asks of the second half of the transaction.
pub data Effect (V : Type 0) : Type 0 where
  keeps : Effect V
  configures : Effect V
  opens : V → Effect V
  closes : V → Effect V

pub record Tables (V : Type 0) : Type 0 where
  pub next_id : ℕ
  pub incidents : List (AlertIncident V)

pub data Outcome (V : Type 0) : Type 0 where
  committed : AlertRule V → Tables V → Outcome V
  rolled_back : AlertError → Outcome V

module _ {V : Type 0} (lt : V → V → Bool) where
  abbrev pub elapsed_at_least : ℕ → Option ℕ → ℕ → Bool
  elapsed_at_least now none d = false
  elapsed_at_least now (some t) d = leb d (now - t)

  -- `breached`, by the metric.
  unfoldable pub is_breached : Metric → V → V → Bool
  is_breached latency_ms value threshold = lt threshold value
  is_breached _ value threshold = lt value threshold

  -- `rule.X = &now` if it is nil.
  abbrev pub since : ℕ → Option ℕ → Option ℕ
  since now none = some now
  since now (some t) = some t

  unfoldable pub observe_breach : ℕ → V → AlertRule V → AlertRule V × Effect V
  observe_breach now value rule =
      let r = record rule { status = breaching; recovery_since = none } in
      let r' = record r { breach_since = since now r.breach_since } in
      if is_some rule.active_incident_id
      then (r, keeps)
      else if elapsed_at_least now r'.breach_since alert_sustain_duration
      then (r', opens value)
      else (r', keeps)

  unfoldable pub observe_recovery : ℕ → V → AlertRule V → AlertRule V × Effect V
  observe_recovery now value rule =
      let r = record rule { status = healthy; breach_since = none } in
      let r' = record r { recovery_since = since now r.recovery_since } in
      if is_some rule.active_incident_id
      then (if elapsed_at_least now r'.recovery_since alert_sustain_duration
          then (r', closes value)
          else (r', keeps))
      else (record r { recovery_since = none }, keeps)

  abbrev pub is_gap : ℕ → Option ℕ → Bool
  is_gap now none = false
  is_gap now (some t) = ltb alert_gap (now - t)

  -- The part of the loop body behind the guards, on the observation that counts.
  unfoldable pub observe_value : ℕ → AlertObservation V → AlertRule V → AlertRule V × Effect V
  unfolding observe_breach observe_recovery is_breached
  observe_value now o rule =
      let r =
        if is_gap now rule.last_evaluated_at
        then record rule { breach_since = none; recovery_since = none }
        else rule in
      let r' = record r {
        last_evaluated_at = some now;
        last_value = o.value;
        sample_count = o.samples;
        unknown_reason = o.unknown_reason;
      } in
      elim o.value [
        | none ↦ (record r' { status = unknown; breach_since = none; recovery_since = none }, keeps)
        | some value ↦
            if is_breached rule.metric value rule.threshold
            then observe_breach now value r'
            else observe_recovery now value r'
      ]

  abbrev pub not_after : ℕ → Option ℕ → Bool
  not_after now none = false
  not_after now (some t) = leb now t

  abbrev pub before_or_nil : ℕ → Option ℕ → Bool
  before_or_nil now none = true
  before_or_nil now (some t) = ltb t now

  -- `rule.LastEvaluationAttemptAt = &now`, unless a later attempt is stored.
  unfoldable pub attempted : ℕ → AlertRule V → AlertRule V
  attempted now rule =
      if before_or_nil now rule.last_attempt_at
      then record rule { last_attempt_at = some now }
      else rule

  -- The observation that counts: an unknown one if the checker's settings changed.
  unfoldable pub effective : Bool → AlertObservation V → AlertObservation V
  effective settings_changed o =
      if settings_changed
      then record {
        value = none;
        samples = 0;
        unknown_reason = "Checker settings changed during evaluation";
      }
      else o

  unfoldable pub disable_rule : AlertRule V → AlertRule V
  disable_rule r = record r {
    enabled = false;
    status = disabled;
    unknown_reason = "Rotator deleted";
    active_incident_id = none;
    breach_since = none;
    recovery_since = none;
    revision = r.revision + 1;
  }

  -- One round of the loop over the rules. `settings_changed` is the test on the checker's dirty flag
  -- and generation. The Boolean says whether the rule is in `changed`.
  unfoldable pub observe_rule :
      ℕ → Bool → RuleObservation V → AlertRule V → AlertRule V × Bool × Effect V
  unfolding observe_value attempted effective disable_rule
  observe_rule now settings_changed input rule =
      let r = attempted now rule in
      let (observed, effect) = observe_value now (effective settings_changed input.observation) r in
      if not (rule.revision == input.snapshot_revision)
      then (rule, false, keeps)
      else if input.missing_rotator
      then (disable_rule r, true, configures)
      else if not_after now r.last_evaluated_at
      then (r, false, keeps)
      else (observed, true, effect)

module _ {V : Type 0} where
  -- `UPDATE alert_incidents ... WHERE id = ? AND closed_at IS NULL`.
  unfoldable pub close_incident :
      ℕ → CloseReason → Option V → ℕ → List (AlertIncident V) → List (AlertIncident V)
  close_incident now reason value id [] = []
  close_incident now reason value id (i ∷ is) =
      (if i.id == id && not (is_some i.closed_at)
        then record i { closed_at = some now; close_reason = some reason; closing_value = value }
        else i)
      ∷ close_incident now reason value id is

  unfoldable pub find_open : ℕ → List (AlertIncident V) → Option (AlertIncident V)
  find_open id [] = none
  find_open id (i ∷ is) =
      let rest = find_open id is in if i.id == id && not (is_some i.closed_at) then some i else rest

  -- The second half of the transaction, for one rule: `rule` is as it was before the round, and `r`
  -- as it is after it.
  unfoldable pub apply_effect : ℕ → AlertRule V → AlertRule V → Effect V → Tables V → Outcome V
  unfolding close_incident find_open
  apply_effect now rule r keeps t = committed r t
  apply_effect now rule r configures t = elim rule.active_incident_id [
    | none ↦ committed r t
    | some id ↦
        committed r
          (record t { incidents = close_incident now configuration_changed none id t.incidents })
  ]
  apply_effect now rule r (opens value) t =
      committed (record r { active_incident_id = some t.next_id; breach_since = none })
        (record {
          next_id = t.next_id + 1;
          incidents =
              record {
                id = t.next_id;
                rule_id = r.id;
                rule_revision = r.revision;
                opening_value = value;
                opened_at = now;
                closed_at = none;
                close_reason = none;
                closing_value = none;
              }
              ∷ t.incidents;
        })
  apply_effect now rule r (closes value) t = elim r.active_incident_id [
    | none ↦ rolled_back record_not_found
    | some id ↦ elim (find_open id t.incidents) [
      | none ↦ rolled_back record_not_found
      | some i ↦
          if i.rule_id == r.id && i.rule_revision == r.revision
          then committed (record r { active_incident_id = none; recovery_since = none })
              (record t { incidents = close_incident now recovered (some value) id t.incidents })
          else rolled_back revision_mismatch
    ]
  ]

module _ {V : Type 0} (lt : V → V → Bool) where
  -- `applyAlertObservations` on a batch of one rule.
  unfoldable pub apply_alert_observation :
      ℕ → Bool → RuleObservation V → AlertRule V → Tables V → Outcome V
  unfolding observe_rule apply_effect
  apply_alert_observation now settings_changed input rule t =
      let (r, changed, effect) = observe_rule lt now settings_changed input rule in
      if not rule.enabled
      then committed rule t
      else if changed
      then apply_effect now rule r effect t
      else committed rule t
