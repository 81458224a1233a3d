-- ===== src/Auth/Session/Examples.antt =====
-- The theorems on sessions at a concrete manager, table and token.
use leakcheck_hub.Prelude.{
  ℕ, ◌+◌, min, true, false, Option, none, some, List, [], ◌∷◌, Text, Bytes, codes, find, Outcome,
  ok, err, ltb, ◌≡◌, refl, arith, select, count, not, ◌==◌, if◌then◌else◌,
}
use leakcheck_hub.Unicode.{utf8, is_token}
use leakcheck_hub.Models.{User, UserRole, UserSource, Session, seconds}
use leakcheck_hub.Auth.Session.{
  Library, Tables, IssuedSession, VerifiedSession, SessionManager, has_hash, has_id, issue, verify,
  revoke, revoke_all, token_hash, is_active_of,
}
use leakcheck_hub.Auth.Session.Requests.{Request, verified, revoked, serve}
use leakcheck_hub.Auth.Session.Deadlines.{verify-issue, verify-after_deadline}
use leakcheck_hub.Auth.Session.Revocation.{verify-revoke, revoke-revoke, revoke_all_exact}

-- Stand-ins for the libraries: they are only applied, never inspected.
abbrev library : Library
library = record { sha256 = λ b. b; hmac_sha256 = λ k b. b; ip_address = λ t. some t }

abbrev manager : SessionManager
manager = record { idle_ttl = seconds 1800; absolute_ttl = seconds 43200; metadata_key = [] }

abbrev alice : User
alice = record {
  id = 7;
  email = codes "alice@example.test";
  google_sub = none;
  display_name = codes "Alice";
  ou_path = none;
  role = UserRole.analyst;
  is_active = true;
  source = UserSource.google;
  created_at = 0;
  last_login_at = none;
}

abbrev tables : Tables
tables = record { sessions = []; users = alice ∷ [] }

abbrev token : Text
token = codes "abcdefghijklmnopqrstuvwxyz_ABCDEFGHIJKLMNOP"

abbrev row : Session
row = record {
  id_hash = token;
  user_id = 7;
  created_at = 0;
  expires_at = seconds 43200;
  last_seen_at = 0;
  idle_expires_at = seconds 1800;
  ip_hash = codes "::1";
  ua_hash = [];
  revoked_at = none;
}

abbrev opened : Tables
opened = record { sessions = row ∷ []; users = alice ∷ [] }

abbrev ticket : IssuedSession
ticket = record { token = token; expires_at = seconds 43200 }

issued_once : issue library manager token 7 (codes "::1") none 0 tables ≡ ok (ticket, opened)
unfolding issue utf8 leakcheck_hub.Auth.Session.insert_session leakcheck_hub.Auth.Session.issued_row
    token_hash
issued_once = refl

well_formed : is_token token ≡ true
unfolding is_token
well_formed = refl

named : find (has_hash (token_hash library token)) opened.sessions ≡ some row
unfolding token_hash utf8 find leakcheck_hub.Prelude.text_eq
named = refl

verify-issue_example :
    (verify library manager (some token) (seconds 60) opened).0
    ≡ some (record { user = alice; expires_at = seconds 43200 })
unfolding find
verify-issue_example =
    verify-issue library manager token alice (codes "::1") none 0 (seconds 60) tables ticket opened
      well_formed refl refl issued_once

abbrev busy : List Request
busy = verified (some token) (seconds 60) ∷ revoked none (seconds 61) ∷ []

verify-after_deadline_example :
    (verify library manager (some token) (seconds 43200) (serve library manager opened busy)).0
    ≡ none
verify-after_deadline_example =
    verify-after_deadline library manager token (seconds 43200) (seconds 43200) opened busy
      (row, named, refl) (omega arith)

verify-revoke_example :
    (verify library manager
      (some token)
      (seconds 70)
      (serve library manager (revoke library (some token) (seconds 65) opened).1 busy)).0
    ≡ none
verify-revoke_example =
    verify-revoke library manager token (seconds 65) opened row busy (seconds 70) well_formed named

revoke-revoke_example :
    revoke library (some token) 9 (revoke library (some token) 5 opened).1
    ≡ (false, (revoke library (some token) 5 opened).1)
revoke-revoke_example = revoke-revoke library (some token) 5 9 opened

revoke_all_exact_example :
    (count (is_active_of 7) (revoke_all 7 5 opened).1.sessions ≡ 0)
    × (select (λ s. not (s.user_id == 7)) (revoke_all 7 5 opened).1.sessions
        ≡ select (λ s. not (s.user_id == 7)) opened.sessions)
    × ((revoke_all 7 5 opened).0 ≡ count (is_active_of 7) opened.sessions)
revoke_all_exact_example = revoke_all_exact 7 5 opened
