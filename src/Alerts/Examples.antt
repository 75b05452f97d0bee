-- ===== src/Alerts/Examples.antt =====
-- An alert rule on the success rate: internal/database/alert_transitions.go. Percentages stand for
-- the floats.
use magpie_backend.Prelude.{
  ℕ, ◌*◌, ◌-◌, ◌≤◌, ltb, ◌≡◌, refl, true, false, none, some, [], ◌∷◌, arith,
}
use magpie_backend.Alerts.{
  Metric, Status, AlertRule, AlertObservation, opens, Tables, observe_value, second,
  apply_alert_observation,
}
use magpie_backend.Alerts.Incidents.{IsLinked, Commits, apply_alert_observation-Commits}
use magpie_backend.Alerts.Sustain.{IsFresh, Breaches, observe_value-opens_iff}

-- At most half of the checks succeed since 1, and the rule was evaluated 60 seconds ago.
abbrev rule : AlertRule ℕ
rule = record {
  id = 3;
  metric = Metric.success_rate;
  threshold = 50;
  enabled = true;
  revision = 1;
  status = Status.breaching;
  unknown_reason = "";
  last_value = some 40;
  sample_count = 9;
  last_evaluated_at = some (61 * second);
  last_attempt_at = some (61 * second);
  breach_since = some second;
  recovery_since = none;
  active_incident_id = none;
}

abbrev observation : AlertObservation ℕ
observation = record { value = some 30; samples = 10; unknown_reason = "" }

abbrev now : ℕ
now = 121 * second

-- An incident of another rule is open.
abbrev tables : Tables ℕ
tables = record {
  next_id = 2;
  incidents =
      record {
        id = 1;
        rule_id = 4;
        rule_revision = 1;
        opening_value = 10;
        opened_at = 0;
        closed_at = none;
        close_reason = none;
        closing_value = none;
      }
      ∷ [];
}

rule-IsLinked : IsLinked rule tables
rule-IsLinked = record {
  below = (omega arith, tt);
  linked = λ id e. absurd (ground arith);
  only = ((λ own still. absurd (ground arith)), tt);
}

apply_alert_observation-Commits_example : Commits (
    apply_alert_observation ltb now false
      (record { snapshot_revision = 1; observation = observation; missing_rotator = false })
      rule
      tables)
apply_alert_observation-Commits_example =
    apply_alert_observation-Commits ltb now false
      (record { snapshot_revision = 1; observation = observation; missing_rotator = false }) rule
      tables rule-IsLinked

observe_value-opens_iff_example :
    ((observe_value ltb now observation rule).1 ≡ opens 30
      → (b : ℕ) × (observation.value ≡ some 30)
        × Breaches ltb rule.metric 30 rule.threshold
        × (rule.active_incident_id ≡ none)
        × (rule.breach_since ≡ some b)
        × (120 * 1000000000 ≤ now - b)
        × IsFresh now rule.last_evaluated_at)
    × ((b : ℕ)
        → observation.value ≡ some 30
        → Breaches ltb rule.metric 30 rule.threshold
        → rule.active_incident_id ≡ none
        → rule.breach_since ≡ some b
        → 120 * 1000000000 ≤ now - b
        → IsFresh now rule.last_evaluated_at
        → (observe_value ltb now observation rule).1 ≡ opens 30)
observe_value-opens_iff_example = observe_value-opens_iff ltb now observation rule 30

opened : (observe_value ltb now observation rule).1 ≡ opens 30
unfolding observe_value
opened = refl
