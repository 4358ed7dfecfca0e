-- ===== src/Gateway/Admission/Verdict.antt =====
-- Whom the controller lets in, and why it turns others away.
use agent_learn.Base.{
  ℕ, refl, ◌+◌, ◌≡◌, ◌↔◌, ◌≢◌, ◌⊎◌, ◌*◌, ◌≤◌, ◌<◌, max, sym, subst, ◌∙◌, inl, inr, Bool-cases, Bool,
  true, false, ◌&&◌, none, some, arith, ltb, if◌then◌else◌,
}
use mathlib.Core.Bool.{true≢false}
use agent_learn.Gateway.Request.{
  ShedLevel, normal, soft, hard, critical_load, Request, deadline_infeasible, overloaded, batch,
  priority_value,
}
use agent_learn.Gateway.Admission.{
  Config, Controller, at_least, shed_level, Decision, sheds, infeasible, shed, admit, decide_for,
  decide, estimate_per_ms, predicted_wait,
}

-- The prediction says that the request ends after its deadline, and the controller looks at it.
abbrev pub late : Config → Request → ℕ → ℕ → Bool
late c req now_ms wait =
    c.admission_enabled && ltb req.deadline_ms (now_ms + wait + req.expected_service_ms)

-- `wait / service` has reached a threshold, in thousandths.
abbrev pub Reached : Config → ℕ → ℕ → Type 0
Reached c wait threshold = threshold * max c.service_time_estimate_ms 1 ≤ wait * 1000

-- Whom the load turns away: with shedding, all requests without a hit at the critical pressure,
-- all below INTERACTIVE at the hard one, and BATCH at the soft one; the higher pressure goes first.
abbrev pub Shed : Config → Request → ℕ → Bool → Type 0
Shed c req wait cache_hit =
    (c.shedding_enabled ≡ true)
    × ((Reached c wait c.shed_critical_pressure × (cache_hit ≡ false))
        ⊎ ((¬ (Reached c wait c.shed_critical_pressure)
              × Reached c wait c.shed_hard_pressure
              × (priority_value req.priority < 3))
            ⊎ (¬ (Reached c wait c.shed_critical_pressure)
                × ¬ (Reached c wait c.shed_hard_pressure)
                × Reached c wait c.shed_soft_pressure
                × (req.priority ≡ batch))))

-- The level that a decision reports: the highest whose pressure is reached, and normal without
-- shedding.
abbrev pub Level : Config → ℕ → ShedLevel → Type 0
Level c wait normal =
    c.shedding_enabled ≡ true
    → ¬ (Reached c wait c.shed_critical_pressure)
      × ¬ (Reached c wait c.shed_hard_pressure)
      × ¬ (Reached c wait c.shed_soft_pressure)
Level c wait soft =
    (c.shedding_enabled ≡ true)
    × ¬ (Reached c wait c.shed_critical_pressure)
    × ¬ (Reached c wait c.shed_hard_pressure)
    × Reached c wait c.shed_soft_pressure
Level c wait hard =
    (c.shedding_enabled ≡ true)
    × ¬ (Reached c wait c.shed_critical_pressure)
    × Reached c wait c.shed_hard_pressure
Level c wait critical_load = (c.shedding_enabled ≡ true) × Reached c wait c.shed_critical_pressure

-- All that a decision promises, of a request that arrives now: the counters of the refusals and of
-- the degraded requests before and after it, and the decision itself, for the predicted wait.
abbrev pub Verdict : Config → Request → ℕ → ℕ → Bool → Controller → Controller × Decision → Type 0
Verdict c req now_ms wait cache_hit a (a', d) =
    (d.predicted_wait_ms ≡ wait)
    × ((d.reason ≡ some deadline_infeasible) ↔ (late c req now_ms wait ≡ true))
    × ((d.reason ≡ some overloaded)
        ↔ ((late c req now_ms wait ≡ false) × Shed c req wait cache_hit))
    × ((d.reason ≡ none) ↔ ((late c req now_ms wait ≡ false) × ¬ (Shed c req wait cache_hit)))
    × ((d.allow ≡ true) ↔ (d.reason ≡ none))
    × (a'.rejected_infeasible ≡ a.rejected_infeasible + (if late c req now_ms wait then 1 else 0))
    × ((a'.rejected_infeasible + a'.rejected_overloaded + (if d.allow then 1 else 0))
        ≡ (a.rejected_infeasible + a.rejected_overloaded + 1))
    × ((d.degrade ≡ true) ↔ (
        (d.allow ≡ true)
        × (c.degrade_enabled ≡ true)
        × Reached c wait c.degrade_from_pressure
        × (req.priority ≢ batch)))
    × (a'.degraded ≡ a.degraded + (if d.degrade then 1 else 0))
    × (a'.last_shed_level ≡ d.shed_level)
    × Level c wait d.shed_level

module _ (c : Config) (req : Request) (wait : ℕ) (cache_hit : Bool) where
  -- The level of the load, and then the class of the request.
  abbrev shed_now : Bool
  shed_now = sheds (shed_level c (wait, max c.service_time_estimate_ms 1)) req.priority cache_hit

  sheds-Shed : shed_now ≡ true → Shed c req wait cache_hit
  unfolding sheds shed_level
  sheds-Shed h = ground (arith, h)

  Shed-sheds : Shed c req wait cache_hit → shed_now ≡ true
  unfolding sheds shed_level
  Shed-sheds h = ground (arith, h)

  decide_for-reason :
      (a : Controller) (now_ms : ℕ)
      → let out = decide_for c a req now_ms wait cache_hit in
        let too_late = late c req now_ms wait in
        ((out.1.reason ≡ some deadline_infeasible) ↔ (too_late ≡ true))
        × ((out.1.reason ≡ some overloaded) ↔ ((too_late ≡ false) × (shed_now ≡ true)))
        × ((out.1.reason ≡ none) ↔ ((too_late ≡ false) × (shed_now ≡ false)))
        × ((out.1.allow ≡ true) ↔ (out.1.reason ≡ none))
        × (out.0.rejected_infeasible ≡ a.rejected_infeasible + (if too_late then 1 else 0))
        × ((out.0.rejected_infeasible + out.0.rejected_overloaded + (if out.1.allow then 1 else 0))
            ≡ (a.rejected_infeasible + a.rejected_overloaded + 1))
        × (out.1.predicted_wait_ms ≡ wait)
        × (out.0.degraded ≡ a.degraded + (if out.1.degrade then 1 else 0))
  unfolding decide_for infeasible shed admit
  decide_for-reason a now_ms = ground arith

  decide_for-degrade :
      (a : Controller) (now_ms : ℕ)
      → let out = decide_for c a req now_ms wait cache_hit in
        (out.1.degrade ≡ true) ↔ (
          (out.1.allow ≡ true)
          × (c.degrade_enabled ≡ true)
          × Reached c wait c.degrade_from_pressure
          × (req.priority ≢ batch))
  unfolding decide_for infeasible shed admit
  decide_for-degrade a now_ms = ground arith

  shed_level-Level : Level c wait (shed_level c (wait, max c.service_time_estimate_ms 1))
  unfolding shed_level
  shed_level-Level = elim (Bool-cases c.shedding_enabled) [
    | inr off ↦ rw (off, shed_level) λ on. absurd (ground (arith, on, off))
    | inl on ↦
        elim (Bool-cases
          (at_least (wait, max c.service_time_estimate_ms 1) c.shed_critical_pressure)) [
            | inl e ↦ rw (on, e, shed_level) (refl, ground (arith, e))
            | inr critical_not ↦
                elim (Bool-cases
                  (at_least (wait, max c.service_time_estimate_ms 1) c.shed_hard_pressure)) [
                    | inl e ↦
                        rw (on, critical_not, e, shed_level)
                          (refl, ground (arith, critical_not), ground (arith, e))
                    | inr hard_not ↦
                        elim (Bool-cases (
                          at_least (wait, max c.service_time_estimate_ms 1) c.shed_soft_pressure)) [
                            | inl e ↦
                                rw (on, critical_not, hard_not, e, shed_level)
                                  (
                                    refl,
                                    ground (arith, critical_not),
                                    ground (arith, hard_not),
                                    ground (arith, e),
                                  )
                            | inr soft_not ↦
                                rw (on, critical_not, hard_not, soft_not, shed_level)
                                  λ h. (
                                    ground (arith, critical_not),
                                    ground (arith, hard_not),
                                    ground (arith, soft_not),
                                  )
                          ]
                  ]
          ]
  ]

  decide_for-level :
      (a : Controller) (now_ms : ℕ)
      → let out = decide_for c a req now_ms wait cache_hit in
        (out.1.shed_level ≡ shed_level c (wait, max c.service_time_estimate_ms 1))
        × (out.0.last_shed_level ≡ out.1.shed_level)
  unfolding decide_for infeasible shed admit
  decide_for-level a now_ms = ground arith

  decide_for-Verdict :
      (a : Controller) (now_ms : ℕ)
      → Verdict c req now_ms wait cache_hit a (decide_for c a req now_ms wait cache_hit)
  decide_for-Verdict a now_ms =
      let (late_iff, load_iff, none_iff, allow_iff, one, both, waits, marked) =
        decide_for-reason a now_ms in
      let level = decide_for-level a now_ms in
      (
        waits,
        late_iff,
        (
          λ h. let (l, sheds_it) = load_iff.0 h in (l, sheds-Shed sheds_it),
          λ h. load_iff.1 (h.0, Shed-sheds h.1),
        ),
        (
          λ h.
              let (l, keeps) = none_iff.0 h in
              (l, λ turned. true≢false (sym (Shed-sheds turned) ∙ keeps)),
          λ h. none_iff.1 (h.0, not_shed h.1),
        ),
        allow_iff,
        one,
        both,
        decide_for-degrade a now_ms,
        marked,
        level.1,
        subst (Level c wait) (sym level.0) shed_level-Level,
      )
    where
      not_shed : ¬ (Shed c req wait cache_hit) → shed_now ≡ false
      not_shed no_shed = elim (Bool-cases shed_now) [
        | inl e ↦ absurd (no_shed (sheds-Shed e))
        | inr e ↦ e
      ]

-- For every request, depth of the queue and state of the controller, `decide` predicts the wait from
-- the estimate of the throughput that it has just made, and answers DEADLINE_INFEASIBLE exactly when
-- the prediction is late, whatever the load; OVERLOADED exactly when it is in time and the pressure
-- of that wait turns the class of the request away; and lets it in, without a reason, exactly
-- otherwise. The counter of the infeasible requests goes up exactly with the first answer, and the
-- sum of it and the counter of the overloaded ones with each refusal. A request is degraded exactly
-- when it is let in, that is enabled, the pressure has reached its threshold and the request is not
-- BATCH, and it is counted then. The level it reports is the highest whose pressure is reached.
pub decide-Verdict :
    (c : Config) (a : Controller) (req : Request) (now_ms queue_depth : ℕ) (cache_hit : Bool)
    → Verdict c req now_ms
        (predicted_wait (estimate_per_ms a.estimator now_ms).1 queue_depth)
        cache_hit
        a
        (decide c a req now_ms queue_depth cache_hit)
unfolding decide
decide-Verdict c a req now_ms queue_depth cache_hit =
    let measured = estimate_per_ms a.estimator now_ms in
    decide_for-Verdict c req (predicted_wait measured.1 queue_depth) cache_hit
      (record a { estimator = measured.0 }) now_ms
