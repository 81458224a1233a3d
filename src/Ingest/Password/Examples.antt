-- ===== src/Ingest/Password/Examples.antt =====
-- The theorem on masks at a password of eight characters.
use leakcheck_hub.Prelude.{◌≤◌, codes, length, count, not, ◌==◌, ◌≡◌}
use leakcheck_hub.Ingest.Sample.{library}
use leakcheck_hub.Ingest.Password.{mask_password, bullet}
use leakcheck_hub.Ingest.Password.Mask.{mask_password-length}

mask_password-length_example :
    (length (mask_password library (codes "hunter22")) ≡ 8)
    × (count (λ c. not (c == bullet)) (mask_password library (codes "hunter22")) ≤ 3)
mask_password-length_example = mask_password-length library (codes "hunter22")
