-- ===== src/Auth/Session/Deadlines.antt =====
-- app/auth/session.py: how long an issued token is accepted, whatever is done in between.
use leakcheck_hub.Prelude.{
  ℕ, ◌+◌, ◌≤◌, min, true, Option, none, some, List, Text, Bytes, ltb, if◌then◌else◌, find, ok, ◌≡◌,
  inl, inr, refl, arith, Option-cases,
}
use leakcheck_hub.Unicode.{is_token}
use leakcheck_hub.Models.{User, Session}
use leakcheck_hub.Auth.Session.Requests.{
  Request, serve, HasRow, serve-HasRow, insert_session_fresh, find-insert_session, issue_inserts,
}
use leakcheck_hub.Auth.Session.{
  Library, Tables, verify_digest, IssuedSession, SessionManager, has_hash, has_id, issue, verify,
  token_hash, is_refused, verify_row, joined, validated_token_hash, issued_row,
}

module _ (lib : Library) (m : SessionManager) where
  -- The part of `verify` behind the lookup: accepted exactly before both deadlines.
  verify_row_accepts :
      (digest : Bytes) (s : Session) (u : User) (t : ℕ) (db : Tables)
      → s.revoked_at ≡ none
      → u.is_active ≡ true
      → (verify_row m digest t (some (s, u)) db).0 ≡ (
          if ltb t (min s.expires_at s.idle_expires_at)
          then some (record { user = u; expires_at = s.expires_at })
          else none)
  unfolding verify_row is_refused
  verify_row_accepts digest s u t db fresh active = ground arith

  -- What `verify` does once the digest names an unrevoked session of an active user.
  verify_at :
      (token : Text) (s : Session) (u : User) (t : ℕ) (db : Tables)
      → is_token token ≡ true
      → find (has_hash (token_hash lib token)) db.sessions ≡ some s
      → find (has_id s.user_id) db.users ≡ some u
      → s.revoked_at ≡ none
      → u.is_active ≡ true
      → (verify lib m (some token) t db).0 ≡ (
          if ltb t (min s.expires_at s.idle_expires_at)
          then some (record { user = u; expires_at = s.expires_at })
          else none)
  unfolding verify verify_digest validated_token_hash
  verify_at token s u t db good found owner fresh active =
      ground (arith, verify_row_accepts (token_hash lib token) s u t db)

  -- A well-formed token that was just issued to an active user is accepted exactly before both of
  -- its deadlines, and what `verify` returns then names that user and the absolute deadline.
  pub verify-issue :
      (token : Text) (u : User) (ip : Text) (agent : Option Text) (now t : ℕ) (db : Tables)
      (issued : IssuedSession) (db' : Tables)
      → is_token token ≡ true
      → find (has_id u.id) db.users ≡ some u
      → u.is_active ≡ true
      → issue lib m token u.id ip agent now db ≡ ok (issued, db')
      → (verify lib m (some token) t db').0 ≡ (
          if ltb t (now + min m.idle_ttl m.absolute_ttl)
          then some (record { user = u; expires_at = now + m.absolute_ttl })
          else none)
  unfolding issued_row
  verify-issue token u ip agent now t db issued db' good owner active h =
      let (text, e) = issue_inserts lib m token u.id ip agent now db issued db' h in
      let row : Session = issued_row lib m token u.id text agent now in
      let same = (insert_session_fresh row db db' e).1 in
      ground (
        arith,
        verify_at token row u t db' good (find-insert_session row db db' e) (rw same owner) refl
            active,
      )

expired : (s : Session) (u : User) (t : ℕ) → s.expires_at ≤ t → is_refused s u t ≡ true
unfolding is_refused
expired s u t h = ground arith

module _ (lib : Library) (m : SessionManager) where
  -- A session that the test turns away with every user is refused, and nothing is written.
  pub verify_refused :
      (token : Text) (s : Session) (t : ℕ) (db : Tables)
      → find (has_hash (token_hash lib token)) db.sessions ≡ some s
      → ((u : User) → is_refused s u t ≡ true)
      → (verify lib m (some token) t db).0 ≡ none
  unfolding verify verify_digest validated_token_hash joined verify_row
  verify_refused token s t db found out = elim (Option-cases (find (has_id s.user_id) db.users)) [
    | inl gone ↦ ground arith
    | inr (u, owner) ↦ ground (arith, out u)
  ]

  -- However a session is used, and whatever else is issued or revoked in between, its token is
  -- refused from the absolute deadline on that its row had at the start.
  pub verify-after_deadline :
      (token : Text) (e t : ℕ) (db : Tables) (rs : List Request)
      → HasRow (token_hash lib token) (λ s. s.expires_at ≡ e) db
      → e ≤ t
      → (verify lib m (some token) t (serve lib m db rs)).0 ≡ none
  verify-after_deadline token e t db rs k late =
      let (s, found, same) =
        serve-HasRow lib m (token_hash lib token) (λ x. x.expires_at ≡ e) (λ n x p. p) (λ n x p. p)
          db rs k in
      verify_refused token s t (serve lib m db rs) found (λ u. expired s u t (rw same late))
