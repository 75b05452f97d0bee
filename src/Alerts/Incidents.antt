-- ===== src/Alerts/Incidents.antt =====
-- A rule and its open incident stay linked: internal/database/alert_transitions.go.
use magpie_backend.Prelude.{
  ℕ, ◌+◌, ◌<◌, ◌==◌, if◌then◌else◌, ◌≡◌, ◌≢◌, refl, sym, ◌∙◌, Bool, true, false, not, ◌&&◌, Option,
  none, some, is_some, List, [], ◌∷◌, All, Bool-cases, Option-cases, ◌⊎◌, inl, inr, arith,
}
use magpie_backend.Alerts.{
  AlertRule, AlertIncident, RuleObservation, AlertObservation, CloseReason, recovered,
  configuration_changed, Effect, keeps, configures, opens, closes, Tables, Outcome, committed,
  rolled_back, observe_rule, observe_value, close_incident, find_open, not_after, attempted,
  effective, disable_rule, apply_effect, apply_alert_observation,
}

module _ {V : Type 0} where
  -- The key of the incidents is fresh, a rule's active incident is its own open row, and a rule has no
  -- other open row.
  pub record IsLinked (rule : AlertRule V) (t : Tables V) : Type 0 where
    pub below : All (λ i. i.id < t.next_id) t.incidents
    pub linked :
        (id : ℕ)
        → rule.active_incident_id ≡ some id
        → (i : AlertIncident V) × (find_open id t.incidents ≡ some i)
          × (i.rule_id ≡ rule.id)
          × (i.rule_revision ≡ rule.revision)
    pub only :
        All
          (λ i. i.rule_id ≡ rule.id → i.closed_at ≡ none → rule.active_incident_id ≡ some i.id)
          t.incidents

  All-close :
      (P Q : AlertIncident V → Type 0) (now : ℕ) (reason : CloseReason) (value : Option V) (id : ℕ)
      (is : List (AlertIncident V))
      → ((i : AlertIncident V) → P i → (i.id == id && not (is_some i.closed_at)) ≡ false → Q i)
      → ((i : AlertIncident V)
          → P i
          → Q (record i {
            closed_at = some now;
            close_reason = some reason;
            closing_value = value;
          }))
      → All P is
      → All Q (close_incident now reason value id is)
  unfolding close_incident
  All-close P Q now reason value id [] k c h = tt
  All-close P Q now reason value id (i ∷ is) k c h =
      elim (Bool-cases (i.id == id && not (is_some i.closed_at))) [
        | inl t ↦ rw t (c i h.0, All-close P Q now reason value id is k c h.1)
        | inr t ↦ rw t (k i h.0 t, All-close P Q now reason value id is k c h.1)
      ]

  All-map :
      (P Q : AlertIncident V → Type 0) (is : List (AlertIncident V))
      → ((i : AlertIncident V) → P i → Q i)
      → All P is
      → All Q is
  All-map P Q [] k h = tt
  All-map P Q (i ∷ is) k h = (k i h.0, All-map P Q is k h.1)

  find_open-push :
      (id : ℕ) (i : AlertIncident V) (is : List (AlertIncident V))
      → i.id ≢ id
      → find_open id (i ∷ is) ≡ find_open id is
  unfolding find_open
  find_open-push id i is h = ground arith

module _ {V : Type 0} (lt : V → V → Bool) where
  -- What an evaluation leaves alone, and when it asks for a transition.
  observe_value-frame :
      (now : ℕ) (o : AlertObservation V) (rule : AlertRule V)
      → let (r, effect) = observe_value lt now o rule in
        (r.id ≡ rule.id)
        × (r.revision ≡ rule.revision)
        × (r.active_incident_id ≡ rule.active_incident_id)
        × (effect ≢ configures)
        × ((v : V) → effect ≡ opens v → rule.active_incident_id ≡ none)
        × ((v : V) → effect ≡ closes v → (id : ℕ) × (rule.active_incident_id ≡ some id))
  unfolding observe_value
  observe_value-frame now o rule = (
    ground arith,
    ground arith,
    ground arith,
    (λ h. ground arith),
    (λ v h. ground arith),
    λ v h. ground arith,
  )

  -- The three forms of a round: nothing is saved, the rule is disabled, or it is evaluated.
  observe_rule-cases :
      (now : ℕ) (changed : Bool) (input : RuleObservation V) (rule : AlertRule V)
      → ((observe_rule lt now changed input rule).1 ≡ false)
        ⊎ (observe_rule lt now changed input rule
            ≡ (disable_rule lt (attempted lt now rule), true, configures))
        ⊎ (observe_rule lt now changed input rule ≡ (
          (observe_value lt now (effective lt changed input.observation) (attempted lt now rule)).0,
          true,
          (observe_value lt now (effective lt changed input.observation) (attempted lt now rule)).1,
        ))
  unfolding observe_rule
  observe_rule-cases now changed input rule =
      elim (Bool-cases (rule.revision == input.snapshot_revision)) [
        | inr t ↦ inl (rw (t, observe_rule) refl)
        | inl t ↦ elim (Bool-cases input.missing_rotator) [
          | inl m ↦ inr (inl (rw (t, m, observe_rule) refl))
          | inr m ↦ elim (Bool-cases (not_after lt now (attempted lt now rule).last_evaluated_at)) [
            | inl n ↦ inl (rw (t, m, n, observe_rule) refl)
            | inr n ↦ inr (inr (rw (t, m, n, observe_rule) refl))
          ]
        ]
      ]

  attempted-frame :
      (now : ℕ) (rule : AlertRule V)
      → ((attempted lt now rule).id ≡ rule.id)
        × ((attempted lt now rule).revision ≡ rule.revision)
        × ((attempted lt now rule).active_incident_id ≡ rule.active_incident_id)
        × ((attempted lt now rule).enabled ≡ rule.enabled)
  unfolding attempted
  attempted-frame now rule = ground arith

module _ {V : Type 0} where
  -- The transaction commits, and leaves the rule linked.
  abbrev pub Commits : Outcome V → Type 0
  Commits (committed r t) = IsLinked r t
  Commits (rolled_back e) = ⊥

  IsLinked-of-same :
      (rule r : AlertRule V) (t : Tables V)
      → r.id ≡ rule.id
      → r.revision ≡ rule.revision
      → r.active_incident_id ≡ rule.active_incident_id
      → IsLinked rule t
      → IsLinked r t
  IsLinked-of-same rule r t i v a h = record {
    below = h.below;
    linked = λ id e. let (x, f, p, q) = h.linked id (sym a ∙ e) in (x, f, p ∙ sym i, q ∙ sym v);
    only =
        All-map
          (λ x. x.rule_id ≡ rule.id → x.closed_at ≡ none → rule.active_incident_id ≡ some x.id) _
          t.incidents (λ x k e c. a ∙ k (e ∙ i) c) h.only;
  }

  close-IsLinked :
      (now : ℕ) (reason : CloseReason) (value : Option V) (id : ℕ) (rule r : AlertRule V)
      (t : Tables V)
      → r.id ≡ rule.id
      → rule.active_incident_id ≡ some id
      → r.active_incident_id ≡ none
      → IsLinked rule t
      → IsLinked r (record t { incidents = close_incident now reason value id t.incidents })
  close-IsLinked now reason value id rule r t i a gone h = record {
    below =
        All-close (λ x. x.id < t.next_id) (λ x. x.id < t.next_id) now reason value id t.incidents
          (λ x k e. k) (λ x k. k) h.below;
    linked = λ j e. absurd (ground arith);
    only =
        All-close
          (λ x. x.rule_id ≡ rule.id → x.closed_at ≡ none → rule.active_incident_id ≡ some x.id) _
          now reason value id t.incidents
          (λ x k e own still. absurd (let p = k (own ∙ i) still in ground arith))
          (λ x k own still. absurd (ground arith)) h.only;
  }

  apply_effect-Commits :
      (now : ℕ) (rule r : AlertRule V) (effect : Effect V) (t : Tables V)
      → IsLinked rule t
      → r.id ≡ rule.id
      → r.revision ≡ rule.revision
      → r.active_incident_id ≡ rule.active_incident_id
      → effect ≢ configures
      → ((v : V) → effect ≡ opens v → rule.active_incident_id ≡ none)
      → ((v : V) → effect ≡ closes v → (id : ℕ) × (rule.active_incident_id ≡ some id))
      → Commits (apply_effect now rule r effect t)
  unfolding apply_effect find_open
  apply_effect-Commits now rule r keeps t h i v a nc no' cl = IsLinked-of-same rule r t i v a h
  apply_effect-Commits now rule r configures t h i v a nc no' cl = absurd (nc refl)
  apply_effect-Commits now rule r (opens x) t h i v a nc no' cl =
      let none' = no' x refl in
      record {
        below = (
          omega arith,
          All-map (λ j. j.id < t.next_id) (λ j. j.id < t.next_id + 1) t.incidents
              (λ j k. omega arith) h.below,
        );
        linked = λ id e. (
          record {
            id = t.next_id;
            rule_id = r.id;
            rule_revision = r.revision;
            opening_value = x;
            opened_at = now;
            closed_at = none;
            close_reason = none;
            closing_value = none;
          },
          ground arith,
          refl,
          refl,
        );
        only = (
          (λ own still. refl),
          All-map
              (λ j. j.rule_id ≡ rule.id → j.closed_at ≡ none → rule.active_incident_id ≡ some j.id)
              _ t.incidents (λ j k own still. absurd (let p = k (own ∙ i) still in ground arith))
              h.only,
        );
      }
  apply_effect-Commits now rule r (closes x) t h i v a nc no' cl =
      let (id, act) = cl x refl in
      let (inc, found, own, rev) = h.linked id act in
      let act' = a ∙ act in
      let own' : (inc.rule_id == r.id) ≡ true = ground arith in
      let rev' : (inc.rule_revision == r.revision) ≡ true = ground arith in
      rw (act', apply_effect)
        (rw found (
          rw (own', rev')
            (close-IsLinked now recovered (some x) id rule
              (record r { active_incident_id = none; recovery_since = none }) t i act refl h)))

module _ {V : Type 0} (lt : V → V → Bool) where
  disable_rule-unlinked :
      (now : ℕ) (rule : AlertRule V)
      → ((disable_rule lt (attempted lt now rule)).id ≡ rule.id)
        × ((disable_rule lt (attempted lt now rule)).active_incident_id ≡ none)
  unfolding disable_rule attempted
  disable_rule-unlinked now rule = (ground arith, ground arith)

  configured-Commits :
      (now : ℕ) (rule : AlertRule V) (t : Tables V)
      → IsLinked rule t
      → Commits (apply_effect now rule (disable_rule lt (attempted lt now rule)) configures t)
  unfolding apply_effect
  configured-Commits now rule t h =
      let (same, gone) = disable_rule-unlinked now rule in
      elim (Option-cases rule.active_incident_id) [
        | inl e ↦
            rw (e, apply_effect)
              (record {
                below = h.below;
                linked = λ j k. absurd (ground arith);
                only =
                    All-map
                      (λ x.
                        x.rule_id ≡ rule.id
                        → x.closed_at ≡ none
                        → rule.active_incident_id ≡ some x.id)
                      _ t.incidents
                      (λ x k own still. absurd (let p = k (own ∙ same) still in ground arith))
                      h.only;
              })
        | inr (id, e) ↦
            rw (e, apply_effect)
              (close-IsLinked now configuration_changed none id rule
                (disable_rule lt (attempted lt now rule)) t same e gone h)
      ]

  evaluated-Commits :
      (now : ℕ) (o : AlertObservation V) (rule : AlertRule V) (t : Tables V)
      → IsLinked rule t
      → Commits (
          apply_effect now rule
            (observe_value lt now o (attempted lt now rule)).0
            (observe_value lt now o (attempted lt now rule)).1
            t)
  evaluated-Commits now o rule t h =
      let a = attempted lt now rule in
      let (i, v, act, on) = attempted-frame lt now rule in
      let f = observe_value-frame lt now o a in
      apply_effect-Commits now rule (observe_value lt now o a).0 (observe_value lt now o a).1 t h
        (f.0 ∙ i) (f.1 ∙ v) (f.2 ∙ act) f.3 (λ x e. sym act ∙ f.4 x e)
        (λ x e. let (id, k) = f.5 x e in (id, sym act ∙ k))

  if-Commits : (b : Bool) (x y : Outcome V) → Commits x → Commits y → Commits (if b then x else y)
  if-Commits true x y h k = h
  if-Commits false x y h k = k

  observe_rule-Commits :
      (now : ℕ) (changed : Bool) (input : RuleObservation V) (rule : AlertRule V) (t : Tables V)
      → IsLinked rule t
      → let (r, saved, effect) = observe_rule lt now changed input rule in
        Commits (if saved then apply_effect now rule r effect t else committed rule t)
  observe_rule-Commits now changed input rule t h =
      elim (observe_rule-cases lt now changed input rule) [
        | inl e ↦ rw e h
        | inr (inl e) ↦ rw e (configured-Commits now rule t h)
        | inr (inr e) ↦
            rw e (evaluated-Commits now (effective lt changed input.observation) rule t h)
      ]

  -- If a rule and the incidents are linked, `applyAlertObservations` on that rule commits, whatever was
  -- observed, and they are linked after it: the transaction never meets an incident that is missing or
  -- that belongs to another rule or revision, the rule's active incident is its own open row of the
  -- rule's revision, and no second incident of the rule is open.
  pub apply_alert_observation-Commits :
      (now : ℕ) (changed : Bool) (input : RuleObservation V) (rule : AlertRule V) (t : Tables V)
      → IsLinked rule t
      → Commits (apply_alert_observation lt now changed input rule t)
  unfolding apply_alert_observation
  apply_alert_observation-Commits now changed input rule t h =
      if-Commits (not rule.enabled) _ _ h (observe_rule-Commits now changed input rule t h)
