-- ===== src/Auth/Local/Examples.antt =====
-- A code, and the instants that it may have been read at.
use leakcheck_hub.Prelude.{ℕ, ◌+◌, ◌≤◌, true, codes, ok, ◌≡◌, ◌↔◌, arith}
use leakcheck_hub.Models.{seconds}
use leakcheck_hub.Python.{pos}
use leakcheck_hub.Auth.Local.Totp.{totp_code, verify_totp}
use leakcheck_hub.Auth.Local.Totp.Windows.{verify_totp-totp_code}
use leakcheck_hub.Auth.Local.Sample.{sample_lib}

verify_totp-totp_code_example :
    (verify_totp sample_lib (codes "ABCDEFGHIJKLMNOP") (codes "123456") 1000000000 ≡ true) ↔ (
      (t : ℕ) × (t ≤ 1000000000 + seconds 30)
      × (1000000000 ≤ t + seconds 30)
      × (totp_code sample_lib (codes "ABCDEFGHIJKLMNOP") (pos t) ≡ ok (codes "123456")))
verify_totp-totp_code_example =
    verify_totp-totp_code sample_lib (codes "ABCDEFGHIJKLMNOP") (codes "123456") 1000000000
      (omega arith)
