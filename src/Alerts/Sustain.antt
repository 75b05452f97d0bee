-- ===== src/Alerts/Sustain.antt =====
-- When an incident opens and when it closes: internal/database/alert_transitions.go.
use magpie_backend.Prelude.{
  ℕ, ◌-◌, ◌*◌, ◌≤◌, ◌≡◌, refl, Bool, true, false, Option, none, some, Option-cases, inl, inr, arith,
}
use magpie_backend.Alerts.{
  Metric, usable_routes, success_rate, latency_ms, AlertRule, AlertObservation, opens,
  observe_value, is_breached, is_gap,
}

-- No evaluation came before, or the last one is at most 90 seconds old.
abbrev pub IsFresh : ℕ → Option ℕ → Type 0
IsFresh now none = Unit
IsFresh now (some t) = now - t ≤ 90 * 1000000000

module _ {V : Type 0} (lt : V → V → Bool) where
  is_gap-IsFresh : (now : ℕ) (last : Option ℕ) → is_gap lt now last ≡ false → IsFresh now last
  is_gap-IsFresh now none h = tt
  is_gap-IsFresh now (some t) h = ground arith

  IsFresh-is_gap : (now : ℕ) (last : Option ℕ) → IsFresh now last → is_gap lt now last ≡ false
  IsFresh-is_gap now none h = refl
  IsFresh-is_gap now (some t) h = ground arith

  -- A latency breaches a threshold that it is over, the two other metrics one that they are under.
  abbrev pub Breaches : Metric → (value threshold : V) → Type 0
  Breaches latency_ms value threshold = lt threshold value ≡ true
  Breaches success_rate value threshold = lt value threshold ≡ true
  Breaches usable_routes value threshold = lt value threshold ≡ true

  is_breached-Breaches :
      (m : Metric) (value threshold : V)
      → is_breached lt m value threshold ≡ true
      → Breaches m value threshold
  unfolding is_breached
  is_breached-Breaches latency_ms value threshold h = h
  is_breached-Breaches success_rate value threshold h = h
  is_breached-Breaches usable_routes value threshold h = h

  Breaches-is_breached :
      (m : Metric) (value threshold : V)
      → Breaches m value threshold
      → is_breached lt m value threshold ≡ true
  unfolding is_breached
  Breaches-is_breached latency_ms value threshold h = h
  Breaches-is_breached success_rate value threshold h = h
  Breaches-is_breached usable_routes value threshold h = h

  observe_value-opens :
      (now : ℕ) (o : AlertObservation V) (rule : AlertRule V) (v : V)
      → (observe_value lt now o rule).1 ≡ opens v
      → (b : ℕ) × (o.value ≡ some v)
        × (is_breached lt rule.metric v rule.threshold ≡ true)
        × (rule.active_incident_id ≡ none)
        × (rule.breach_since ≡ some b)
        × (120 * 1000000000 ≤ now - b)
        × (is_gap lt now rule.last_evaluated_at ≡ false)
  unfolding observe_value
  observe_value-opens now o rule v h = elim (Option-cases rule.breach_since) [
    | inl e ↦ absurd (ground arith)
    | inr (b, e) ↦ (b, ground arith, ground arith, ground arith, e, ground arith, ground arith)
  ]

  opens-observe_value :
      (now : ℕ) (o : AlertObservation V) (rule : AlertRule V) (v : V) (b : ℕ)
      → o.value ≡ some v
      → is_breached lt rule.metric v rule.threshold ≡ true
      → rule.active_incident_id ≡ none
      → rule.breach_since ≡ some b
      → 120 * 1000000000 ≤ now - b
      → is_gap lt now rule.last_evaluated_at ≡ false
      → (observe_value lt now o rule).1 ≡ opens v
  unfolding observe_value
  opens-observe_value now o rule v b e br act bs le g = ground arith

  -- An evaluation opens an incident exactly with a measured value that breaches the threshold, over it for a
  -- latency and under it for the two other metrics, for a rule without an incident whose breach was
  -- noted 120 seconds ago or more and whose last evaluation is at most 90 seconds old, if there was one.
  pub observe_value-opens_iff :
      (now : ℕ) (o : AlertObservation V) (rule : AlertRule V) (v : V)
      → ((observe_value lt now o rule).1 ≡ opens v
          → (b : ℕ) × (o.value ≡ some v)
            × Breaches rule.metric v rule.threshold
            × (rule.active_incident_id ≡ none)
            × (rule.breach_since ≡ some b)
            × (120 * 1000000000 ≤ now - b)
            × IsFresh now rule.last_evaluated_at)
        × ((b : ℕ)
            → o.value ≡ some v
            → Breaches rule.metric v rule.threshold
            → rule.active_incident_id ≡ none
            → rule.breach_since ≡ some b
            → 120 * 1000000000 ≤ now - b
            → IsFresh now rule.last_evaluated_at
            → (observe_value lt now o rule).1 ≡ opens v)
  observe_value-opens_iff now o rule v = (
    λ h.
        let (b, e, br, act, bs, le, g) = observe_value-opens now o rule v h in
        (
          b,
          e,
          is_breached-Breaches rule.metric v rule.threshold br,
          act,
          bs,
          le,
          is_gap-IsFresh now rule.last_evaluated_at g,
        ),
    λ b e br act bs le g.
        opens-observe_value now o rule v b e (Breaches-is_breached rule.metric v rule.threshold br)
          act bs le (IsFresh-is_gap now rule.last_evaluated_at g),
  )
