-- ===== src/Findings.antt =====
-- The life of a stored finding: remediation (app/remediation.py) and retention (app/retention.py).
pub mod Tables
pub mod Remediation
pub mod Retention
mod Sample
