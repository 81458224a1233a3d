-- ===== src/Auth/Session.antt =====
-- app/auth/session.py: opaque server-side sessions. A bearer token is drawn by the caller; hashing
-- and the canonical form of an address are the libraries'. Every instant is timezone-aware by its
-- type, so `_utc_now` is the identity on the instant that a call is given.
pub mod Requests
pub mod Deadlines
pub mod Revocation
mod Examples
use leakcheck_hub.Prelude.{
  ℕ, ◌+◌, min, Bool, true, false, not, ◌&&◌, ◌||◌, Option, none, some, List, [], ◌∷◌, ◌++◌, Text,
  Bytes, text_eq, ltb, leb, ◌==◌, if◌then◌else◌, is_some, find, update, count, length, Outcome, ok,
  err, Error, ◌>>=◌,
}
use leakcheck_hub.Unicode.{utf8, is_token}
use leakcheck_hub.Models.{User, Session}

-- What the module takes from hashlib, hmac and ipaddress. `ip_address` is none where the library
-- raises ValueError.
pub record Library : Type 0 where
  pub sha256 : Bytes → Bytes
  pub hmac_sha256 : Bytes → Bytes → Bytes
  pub ip_address : Text → Option Text

-- The two tables that sessions live in.
pub record Tables : Type 0 where
  pub sessions : List Session
  pub users : List User

pub record IssuedSession : Type 0 where
  pub token : Text
  pub expires_at : ℕ

pub record VerifiedSession : Type 0 where
  pub user : User
  pub expires_at : ℕ

pub record SessionManager : Type 0 where
  pub idle_ttl : ℕ
  pub absolute_ttl : ℕ
  pub metadata_key : Bytes

abbrev pub has_hash : Bytes → Session → Bool
has_hash h s = text_eq s.id_hash h

abbrev pub has_id : ℕ → User → Bool
has_id k u = u.id == k

-- The primary key and the CHECK constraints on instants, as a flush enforces them. Digests have 32
-- octets, so the constraints on lengths hold.
pub insert_session : Session → Tables → Outcome Tables
unfolding find
insert_session s db =
    if is_some (find (has_hash s.id_hash) db.sessions)
      || not (ltb s.created_at s.expires_at)
      || not (ltb s.created_at s.idle_expires_at)
    then err Error.integrity_error
    else ok (record db { sessions = db.sessions ++ s ∷ [] })

-- The test of `verify` that turns a session away.
pub is_refused : Session → User → ℕ → Bool
is_refused s u now =
    is_some s.revoked_at || not u.is_active || leb s.expires_at now || leb s.idle_expires_at now

-- The row that a digest names, joined with its user.
joined : Tables → Bytes → Option (Session × User)
joined db digest = elim (find (has_hash digest) db.sessions) [
  | none ↦ none
  | some s ↦ elim (find (has_id s.user_id) db.users) [ none ↦ none | some u ↦ some (s, u) ]
]

abbrev slide : SessionManager → ℕ → Session → Session
slide m now s = record s {
  last_seen_at = now;
  idle_expires_at = min s.expires_at (now + m.idle_ttl);
}

verify_row :
    SessionManager → Bytes → ℕ → Option (Session × User) → Tables → Option VerifiedSession × Tables
verify_row m digest now none db = (none, db)
verify_row m digest now (some (s, u)) db = if is_refused s u now then (none, db) else (
  some (record { user = u; expires_at = s.expires_at }),
  record db { sessions = update (has_hash digest) (slide m now) db.sessions },
)

abbrev mark_revoked : ℕ → Session → Session
mark_revoked now s = record s { revoked_at = some now }

revoke_row : Bytes → ℕ → Option Session → Tables → Bool × Tables
revoke_row digest now none db = (false, db)
revoke_row digest now (some s) db =
    if is_some s.revoked_at
    then (false, db)
    else (true, record db { sessions = update (has_hash digest) (mark_revoked now) db.sessions })

abbrev is_active_of : ℕ → Session → Bool
is_active_of user_id s = s.user_id == user_id && not (is_some s.revoked_at)

-- The number of rows that the UPDATE changed comes back.
pub revoke_all : ℕ → ℕ → Tables → ℕ × Tables
revoke_all user_id now db = (
  count (is_active_of user_id) db.sessions,
  record db { sessions = update (is_active_of user_id) (mark_revoked now) db.sessions },
)

verify_digest : SessionManager → Option Bytes → ℕ → Tables → Option VerifiedSession × Tables
unfolding joined
verify_digest m none now db = (none, db)
verify_digest m (some digest) now db = verify_row m digest now (joined db digest) db

revoke_digest : Option Bytes → ℕ → Tables → Bool × Tables
revoke_digest none now db = (false, db)
revoke_digest (some digest) now db = revoke_row digest now (find (has_hash digest) db.sessions) db

module _ (lib : Library) where
  pub token_hash : Text → Bytes
  token_hash token = lib.sha256 (utf8 token)

  pub validated_token_hash : Option Text → Option Bytes
  validated_token_hash none = none
  validated_token_hash (some token) = if is_token token then some (token_hash token) else none

  canonical_ip : Text → Outcome Text
  canonical_ip value = elim (lib.ip_address value) [
    | none ↦ err Error.value_error
    | some text ↦ ok text
  ]

  metadata_hash : SessionManager → Text → Bytes
  metadata_hash m value = lib.hmac_sha256 m.metadata_key (utf8 value)

  -- The row that `issue` builds: the address and the agent are kept only as keyed digests.
  pub issued_row : SessionManager → Text → ℕ → Text → Option Text → ℕ → Session
  unfolding metadata_hash
  issued_row m raw_token user_id ip user_agent now = record {
    id_hash = token_hash raw_token;
    user_id = user_id;
    created_at = now;
    expires_at = now + m.absolute_ttl;
    last_seen_at = now;
    idle_expires_at = min (now + m.idle_ttl) (now + m.absolute_ttl);
    ip_hash = metadata_hash m ip;
    ua_hash = metadata_hash m (elim user_agent [ none ↦ [] | some text ↦ text ]);
    revoked_at = none;
  }

  pub issue :
      SessionManager
      → (raw_token : Text) (user_id : ℕ) (client_ip : Text) (user_agent : Option Text) (now : ℕ)
      → Tables
      → Outcome (IssuedSession × Tables)
  unfolding canonical_ip
  issue m raw_token user_id client_ip user_agent now db = do
    ip ← canonical_ip client_ip
    db' ← insert_session (issued_row m raw_token user_id ip user_agent now) db
    ok (record { token = raw_token; expires_at = now + m.absolute_ttl }, db')

  pub verify : SessionManager → Option Text → ℕ → Tables → Option VerifiedSession × Tables
  verify m token now db = verify_digest m (validated_token_hash token) now db

  pub revoke : Option Text → ℕ → Tables → Bool × Tables
  revoke token now db = revoke_digest (validated_token_hash token) now db
