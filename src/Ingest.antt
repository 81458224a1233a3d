-- ===== src/Ingest.antt =====
-- From a vendor's record to a stored finding: identities (app/normalization.py), passwords
-- (app/finding_crypto.py), and the ingest itself (app/ingest.py).
pub mod Library
mod Sample
pub mod Normalization
pub mod Password
pub mod Fingerprint
pub mod Upserts
pub mod Records
