-- ===== src/Platform.antt =====
-- app/platform_settings.py and app/reencrypt.py: encrypted settings, and the rotation of the data key.
pub mod Keys
pub mod Store
pub mod Rotation
pub mod Sample
