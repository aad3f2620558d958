-- ===== src/Health.antt =====
-- domain/services/health and domain/models/health_policy.py: the health policy engine.
pub mod Values
pub mod Metrics
pub mod Facts
pub mod Defaults
pub mod Condition
pub mod Template
pub mod Policy
pub mod Write
pub mod Evaluate
pub mod Examples
