-- ===== src/Health/Write/Laws.antt =====
-- What a policy that passes the check before it is written can be relied on for.
use server_scan.Prelude.{◌≤◌, String, map, ◌≡◌, ◌↔◌, refl, arith}
use server_scan.Health.Metrics.{MetricRegistry}
use server_scan.Health.Condition.{Validated, valid, invalid, validate_condition}
use server_scan.Health.Template.{Formatter, Checked, passed, escaped, validate_template}
use server_scan.Health.Policy.{HealthPolicy, specificity}
use server_scan.Health.Write.{
  accepted, validate_policy_write, validate_scope_source_coherence, has_required, check_template,
  check_condition,
}

check_template-accepted :
    (policy : HealthPolicy) (c : Checked)
    → (check_template policy c ≡ accepted)
      ↔ (c ≡ passed) × (validate_scope_source_coherence policy ≡ accepted)
check_template-accepted policy passed = (λ h. (refl, h), λ (_, h). h)
check_template-accepted policy escaped = (λ h. cc h, λ (h, _). cc h)
check_template-accepted policy (Checked.invalid e) = (λ h. cc h, λ (h, _). cc h)

check_condition-accepted :
    (formatter : Formatter) (policy : HealthPolicy) (v : Validated)
    → (check_condition formatter policy v ≡ accepted)
      ↔ (v ≡ valid)
        × (validate_template formatter policy.message_template (map (λ e. e.key) policy.evidence)
            ≡ passed)
        × (validate_scope_source_coherence policy ≡ accepted)
check_condition-accepted formatter policy valid =
    let (f, g) =
      check_template-accepted policy
        (validate_template formatter policy.message_template (map (λ e. e.key) policy.evidence)) in
    (λ h. let (a, b) = f h in (refl, a, b), λ (_, a, b). g (a, b))
check_condition-accepted formatter policy (invalid r) = (λ h. cc h, λ (h, _, _). cc h)

module _ (formatter : Formatter) (registry : MetricRegistry) where
  -- A policy is accepted exactly when its condition and its template pass and its scope fits its
  -- source.
  pub validate_policy_write-accepted_iff :
      (policy : HealthPolicy)
      → (validate_policy_write formatter registry policy ≡ accepted)
        ↔ (validate_condition registry policy.condition ≡ valid)
          × (validate_template formatter policy.message_template (map (λ e. e.key) policy.evidence)
              ≡ passed)
          × (validate_scope_source_coherence policy ≡ accepted)
  unfolding validate_policy_write
  validate_policy_write-accepted_iff policy =
      check_condition-accepted formatter policy (validate_condition registry policy.condition)

module _ (policy : HealthPolicy) where
  -- A scope that passes is as specific as the source of the policy claims.
  coherent-specificity :
      (source : String)
      → policy.source ≡ source
      → validate_scope_source_coherence policy ≡ accepted
      → (source ≡ "SITE_CUSTOM" → 4 ≤ specificity policy.scope)
        × (source ≡ "MANAGER_CUSTOM" → 2 ≤ specificity policy.scope)
        × (source ≡ "VENDOR_CUSTOM" → 1 ≤ specificity policy.scope)
        × (source ≡ "GLOBAL_CUSTOM" → specificity policy.scope ≡ 0)
  unfolding validate_scope_source_coherence has_required specificity
  coherent-specificity source e h = (
    λ d. let k = rw (e, d) at h in ground arith,
    λ d. let k = rw (e, d) at h in ground arith,
    λ d. let k = rw (e, d) at h in ground arith,
    λ d. let k = rw (e, d) at h in ground arith,
  )

-- The scope of an accepted policy has a specificity of at least 4 for a site, at least 2 for
-- managers and at least 1 for a vendor, and of 0 for a global custom policy.
pub validate_policy_write-specificity :
    (formatter : Formatter) (registry : MetricRegistry) (policy : HealthPolicy)
    → validate_policy_write formatter registry policy ≡ accepted
    → (policy.source ≡ "SITE_CUSTOM" → 4 ≤ specificity policy.scope)
      × (policy.source ≡ "MANAGER_CUSTOM" → 2 ≤ specificity policy.scope)
      × (policy.source ≡ "VENDOR_CUSTOM" → 1 ≤ specificity policy.scope)
      × (policy.source ≡ "GLOBAL_CUSTOM" → specificity policy.scope ≡ 0)
validate_policy_write-specificity formatter registry policy h =
    let (_, _, coherent) = (validate_policy_write-accepted_iff formatter registry policy).0 h in
    coherent-specificity policy policy.source refl coherent
