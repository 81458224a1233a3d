-- ===== src/Auth/Local/Logins/Examples.antt =====
-- Logins of a super-admin with right and wrong passwords.
use leakcheck_hub.Prelude.{
  ℕ, Option, none, some, [], ◌∷◌, codes, text_eq, find, update, ok, ◌≡◌, refl, arith, all,
}
use leakcheck_hub.Unicode.{utf8}
use leakcheck_hub.Python.{strip, lstrip, rstrip, is_space}
use leakcheck_hub.Auth.Local.{
  is_ascii, is_address, is_local_char, is_domain_rest, normalise_admin_email, some_or_none,
  normalise_login_email, verify_password, caught, password_needs_rehash, caught_invalid,
  canonical_ip,
}
use leakcheck_hub.Auth.Local.Provisioning.{Tables}
use leakcheck_hub.Auth.Local.Logins.{
  authenticate, check_ip, check_limit, check_email, check_account, check_factors, admit, refuse,
  rehashed, fail_account, totp_valid, account_of, join_credential, record_ip_failure, failed_once,
  reset_ip_limit_if_elapsed, load_ip_limit, loaded, fresh_limit, ip_hash,
}
use leakcheck_hub.Auth.Local.Logins.Admission.{IsAdmitted, authenticate-IsAdmitted}
use leakcheck_hub.Auth.Local.Logins.Blocking.{Guesses, first, refused, authenticate-Guesses}
use leakcheck_hub.Auth.Local.Sample.{
  sample_lib, sample_settings, sample_password, login_at, root_user, root_credential, root_db,
}

abbrev logged_in : Tables
logged_in = record {
  users = record (root_user) { last_login_at = some 100 } ∷ [];
  credentials = root_credential ∷ [];
  limits =
      record {
        ip_hash = codes "10.0.0.1";
        window_started_at = 100;
        attempts = 0;
        blocked_until = none;
      }
      ∷ [];
}

abbrev one_failure : Tables
one_failure = record {
  users = root_user ∷ [];
  credentials = record (root_credential) { failed_attempts = 1 } ∷ [];
  limits =
      record {
        ip_hash = codes "10.0.0.1";
        window_started_at = 100;
        attempts = 1;
        blocked_until = none;
      }
      ∷ [];
}

sample_login :
    authenticate sample_lib sample_settings (login_at 100 sample_password) root_db
    ≡ ok (some (record (root_user) { last_login_at = some 100 }), logged_in)
unfolding authenticate check_ip check_limit check_email check_account check_factors admit rehashed
    totp_valid account_of join_credential reset_ip_limit_if_elapsed load_ip_limit loaded fresh_limit
    ip_hash utf8 find update text_eq normalise_login_email some_or_none normalise_admin_email
    is_address is_local_char is_domain_rest is_ascii all strip lstrip rstrip is_space
    verify_password caught password_needs_rehash caught_invalid canonical_ip
sample_login = refl

sample_refusal :
    authenticate sample_lib sample_settings (login_at 100 (codes "guess")) root_db
    ≡ ok (none, one_failure)
unfolding authenticate check_ip check_limit check_email check_account check_factors refuse
    fail_account record_ip_failure failed_once totp_valid account_of join_credential
    reset_ip_limit_if_elapsed load_ip_limit loaded fresh_limit ip_hash utf8 find update text_eq
    normalise_login_email some_or_none normalise_admin_email is_address is_local_char is_domain_rest
    is_ascii all strip lstrip rstrip is_space verify_password caught password_needs_rehash
    caught_invalid canonical_ip
sample_refusal = refl

authenticate-IsAdmitted_example :
    IsAdmitted sample_lib sample_settings
      (login_at 100 sample_password)
      root_db
      (record (root_user) { last_login_at = some 100 })
authenticate-IsAdmitted_example =
    authenticate-IsAdmitted sample_lib sample_settings (login_at 100 sample_password) root_db
      logged_in (record (root_user) { last_login_at = some 100 }) sample_login

-- Two more guesses: the second locks the account, the third blocks the address.
abbrev guessed : ℕ → Option ℕ → Tables
guessed n blocked = record {
  users = root_user ∷ [];
  credentials =
      record (root_credential) { failed_attempts = 2; locked_until = some 900000200 } ∷ [];
  limits =
      record {
        ip_hash = codes "10.0.0.1";
        window_started_at = 100;
        attempts = n;
        blocked_until = blocked;
      }
      ∷ [];
}

second_refusal :
    authenticate sample_lib sample_settings (login_at 200 (codes "guess")) one_failure
    ≡ ok (none, guessed 2 none)
unfolding authenticate check_ip check_limit check_email check_account check_factors refuse
    fail_account record_ip_failure failed_once totp_valid account_of join_credential
    reset_ip_limit_if_elapsed load_ip_limit loaded fresh_limit ip_hash utf8 find update text_eq
    normalise_login_email some_or_none normalise_admin_email is_address is_local_char is_domain_rest
    is_ascii all strip lstrip rstrip is_space verify_password caught password_needs_rehash
    caught_invalid canonical_ip
second_refusal = refl

third_refusal :
    authenticate sample_lib sample_settings (login_at 300 (codes "guess")) (guessed 2 none)
    ≡ ok (none, guessed 3 (some 900000300))
unfolding authenticate check_ip check_limit check_email check_account check_factors refuse
    fail_account record_ip_failure failed_once totp_valid account_of join_credential
    reset_ip_limit_if_elapsed load_ip_limit loaded fresh_limit ip_hash utf8 find update text_eq
    normalise_login_email some_or_none normalise_admin_email is_address is_local_char is_domain_rest
    is_ascii all strip lstrip rstrip is_space verify_password caught password_needs_rehash
    caught_invalid canonical_ip
third_refusal = refl

known : canonical_ip sample_lib (codes "10.0.0.1") ≡ ok (codes "10.0.0.1")
unfolding canonical_ip
known = refl

three_guesses :
    Guesses sample_lib sample_settings
      (codes "10.0.0.1")
      100
      root_db
      3
      300
      (guessed 3 (some 900000300))
three_guesses =
    let one = first (login_at 100 (codes "guess")) one_failure known refl sample_refusal in
    let two =
      refused 1 100 one_failure (login_at 200 (codes "guess")) (guessed 2 none) one known
        (omega arith) second_refusal in
    refused 2 200 (guessed 2 none) (login_at 300 (codes "guess")) (guessed 3 (some 900000300)) two
      known (omega arith) third_refusal

-- Even the right password is refused then.
authenticate-Guesses_example :
    authenticate sample_lib sample_settings
      (login_at 400 sample_password)
      (guessed 3 (some 900000300))
    ≡ ok (none, guessed 3 (some 900000300))
unfolding find
authenticate-Guesses_example =
    authenticate-Guesses sample_lib sample_settings (codes "10.0.0.1") 100 300 root_db
      (guessed 3 (some 900000300)) (login_at 400 sample_password) refl three_guesses known
      (omega arith)
