-- ===== src/Auth/Session/Revocation.antt =====
-- app/auth/session.py: what `revoke` and `revoke_all` take away.
use leakcheck_hub.Prelude.{
  ℕ, true, false, not, Option, none, some, List, Text, Bytes, ◌==◌, is_some, find, count, ◌≡◌, inl,
  inr, refl, arith, Bool-cases, find-update, select, count-update_out, select-update_ne,
}
use leakcheck_hub.Unicode.{is_token}
use leakcheck_hub.Models.{User, Session}
use leakcheck_hub.Auth.Session.{
  Library, Tables, SessionManager, has_hash, verify, revoke, revoke_all, token_hash, is_refused,
  revoke_row, revoke_digest, validated_token_hash, mark_revoked, is_active_of,
}
use leakcheck_hub.Auth.Session.Requests.{Request, serve, HasRow, serve-HasRow}
use leakcheck_hub.Auth.Session.Deadlines.{verify_refused}

-- The row names a revoked session.
abbrev IsRevoked : Session → Type 0
IsRevoked s = is_some s.revoked_at ≡ true

revoked-is_refused : (s : Session) (u : User) (t : ℕ) → IsRevoked s → is_refused s u t ≡ true
unfolding is_refused
revoked-is_refused s u t h = ground arith

-- A revoked row stays revoked under any requests, and its token is refused.
verify_revoked :
    (lib : Library) (m : SessionManager) (token : Text) (t : ℕ) (db : Tables) (rs : List Request)
    → HasRow (token_hash lib token) IsRevoked db
    → (verify lib m (some token) t (serve lib m db rs)).0 ≡ none
verify_revoked lib m token t db rs k =
    let (s, found, out) =
      serve-HasRow lib m (token_hash lib token) IsRevoked (λ n x p. p) (λ n x p. refl) db rs k in
    verify_refused lib m token s t (serve lib m db rs) found (λ u. revoked-is_refused s u t out)

module _ (lib : Library) (m : SessionManager) (token : Text) (now : ℕ) (db : Tables) where
  -- `revoke` on a well-formed token that names a row leaves that row revoked.
  revoke_marks :
      (s : Session)
      → is_token token ≡ true
      → find (has_hash (token_hash lib token)) db.sessions ≡ some s
      → HasRow (token_hash lib token) IsRevoked (revoke lib (some token) now db).1
  unfolding revoke revoke_digest validated_token_hash revoke_row
  revoke_marks s good found = elim (Bool-cases (is_some s.revoked_at)) [
    | inl old ↦ (s, ground arith, old)
    | inr live ↦ (
      mark_revoked now s,
      ground (
        arith,
        find-update (has_hash (token_hash lib token)) (mark_revoked now) (λ x e. e) db.sessions s,
      ),
      refl,
    )
  ]

  -- After `revoke` on a well-formed token that names a session, the token is refused at every
  -- instant, whatever else is issued, verified or revoked afterwards.
  pub verify-revoke :
      (s : Session) (rs : List Request) (t : ℕ)
      → is_token token ≡ true
      → find (has_hash (token_hash lib token)) db.sessions ≡ some s
      → (verify lib m (some token) t (serve lib m (revoke lib (some token) now db).1 rs)).0 ≡ none
  verify-revoke s rs t good found =
      verify_revoked lib m token t (revoke lib (some token) now db).1 rs (revoke_marks s good found)

-- A second call on the row that the first one marked changes nothing.
revoke_row_again :
    (digest : Bytes) (now later : ℕ) (db : Tables) (row : Option Session)
    → find (has_hash digest) db.sessions ≡ row
    → let db' = (revoke_row digest now row db).1 in
      revoke_row digest later (find (has_hash digest) db'.sessions) db' ≡ (false, db')
unfolding revoke_row
revoke_row_again digest now later db none e = ground arith
revoke_row_again digest now later db (some s) e =
    ground (arith, find-update (has_hash digest) (mark_revoked now) (λ x h. h) db.sessions s)

-- `revoke` may be repeated: a second call on the token reports no change and makes none.
pub revoke-revoke :
    (lib : Library) (token : Option Text) (now later : ℕ) (db : Tables)
    → revoke lib token later (revoke lib token now db).1 ≡ (false, (revoke lib token now db).1)
unfolding revoke revoke_digest
revoke-revoke lib token now later db = again (validated_token_hash lib token)
  where
    again :
        (digest : Option Bytes)
        → revoke_digest digest later (revoke_digest digest now db).1
          ≡ (false, (revoke_digest digest now db).1)
    again none = refl
    again (some digest) =
        revoke_row_again digest now later db (find (has_hash digest) db.sessions) refl

-- No session of the user is left active, every session of another user is as it was, and the count
-- is that of the sessions that were active.
pub revoke_all_exact :
    (user_id now : ℕ) (db : Tables)
    → (count (is_active_of user_id) (revoke_all user_id now db).1.sessions ≡ 0)
      × (select (λ s. not (s.user_id == user_id)) (revoke_all user_id now db).1.sessions
          ≡ select (λ s. not (s.user_id == user_id)) db.sessions)
      × ((revoke_all user_id now db).0 ≡ count (is_active_of user_id) db.sessions)
unfolding revoke_all
revoke_all_exact user_id now db = (
  count-update_out (is_active_of user_id) (mark_revoked now) (λ x. ground arith) db.sessions,
  select-update_ne (is_active_of user_id) (mark_revoked now) _ (λ x h. ground arith) db.sessions,
  refl,
)
