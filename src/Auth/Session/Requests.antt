-- ===== src/Auth/Session/Requests.antt =====
-- Sequences of calls of app/auth/session.py, and what every one of them keeps of a row.
use leakcheck_hub.Prelude.{
  ℕ, Option, none, some, List, [], ◌∷◌, ◌++◌, Text, Bytes, text_eq_refl, is_some, find, Outcome, ok,
  err, >>=-eq-ok, ◌≡◌, inl, inr, refl, arith, Bool-cases, find-append_none, find-append,
  find-update_holds,
}
use leakcheck_hub.Models.{User, Session}
use leakcheck_hub.Auth.Session.{
  Library, Tables, slide, mark_revoked, verify_digest, revoke_digest, IssuedSession, SessionManager,
  has_hash, issue, verify, revoke, revoke_all, is_refused, insert_session, verify_row, revoke_row,
  joined, canonical_ip, validated_token_hash, issued_row,
}

-- A successful insert found no row of the same digest, and appends the new one.
pub insert_session_fresh :
    (s : Session) (db db' : Tables)
    → insert_session s db ≡ ok db'
    → (find (has_hash s.id_hash) db.sessions ≡ none)
      × (db' ≡ record db { sessions = db.sessions ++ s ∷ [] })
unfolding insert_session
insert_session_fresh s db db' h = ground arith

-- The new row is the one that its digest names.
pub find-insert_session :
    (s : Session) (db db' : Tables)
    → insert_session s db ≡ ok db'
    → find (has_hash s.id_hash) db'.sessions ≡ some s
unfolding find
find-insert_session s db db' h =
    let (fresh, same) = insert_session_fresh s db db' h in
    rw same (rw (find-append_none (has_hash s.id_hash) db.sessions (s ∷ []) fresh, text_eq_refl))

module _ (lib : Library) (m : SessionManager) where
  -- A successful `issue` inserted its row.
  pub issue_inserts :
      (token : Text) (user_id : ℕ) (ip : Text) (agent : Option Text) (now : ℕ) (db : Tables)
      (issued : IssuedSession) (db' : Tables)
      → issue lib m token user_id ip agent now db ≡ ok (issued, db')
      → (text : Text) × (insert_session (issued_row lib m token user_id text agent now) db ≡ ok db')
  unfolding issue
  issue_inserts token user_id ip agent now db issued db' h =
      let (text, read, rest) = >>=-eq-ok (canonical_ip lib ip) _ h in
      let (db'', stored, same) =
        >>=-eq-ok (insert_session (issued_row lib m token user_id text agent now) db) _ rest in
      (text, cc)

-- One request to the session manager. A call that raises leaves the tables alone.
pub data Request : Type 0 where
  issued : Text → ℕ → Text → Option Text → ℕ → Request
  verified : Option Text → ℕ → Request
  revoked : Option Text → ℕ → Request
  revoked_all : ℕ → ℕ → Request

settled : Tables → Outcome (IssuedSession × Tables) → Tables
settled db (ok (_, db')) = db'
settled db (err _) = db

module _ (lib : Library) (m : SessionManager) where
  pub handle : Tables → Request → Tables
  unfolding settled
  handle db (issued token user_id ip agent now) =
      settled db (issue lib m token user_id ip agent now db)
  handle db (verified token now) = (verify lib m token now db).1
  handle db (revoked token now) = (revoke lib token now db).1
  handle db (revoked_all user_id now) = (revoke_all user_id now db).1

  pub serve : Tables → List Request → Tables
  unfolding handle
  serve db [] = db
  serve db (r ∷ rs) = serve (handle db r) rs

-- A row of digest `h` that satisfies `P`.
abbrev pub HasRow : Bytes → (Session → Type 0) → Tables → Type 0
HasRow h P db = (s : Session) × (find (has_hash h) db.sessions ≡ some s) × P s

module _ (lib : Library) (m : SessionManager) (h : Bytes) (P : Session → Type 0)
    (slides : (now : ℕ) (s : Session) → P s → P (slide m now s))
    (revokes : (now : ℕ) (s : Session) → P s → P (mark_revoked now s)) where
  insert_keeps :
      (s : Session) (db db' : Tables)
      → insert_session s db ≡ ok db'
      → HasRow h P db
      → HasRow h P db'
  insert_keeps s db db' stored (row, found, same) = (
    row,
    rw ((insert_session_fresh s db db' stored).1)
        (find-append (has_hash h) db.sessions (s ∷ []) row found),
    same,
  )

  verify_row_keeps :
      (digest : Bytes) (now : ℕ) (row : Option (Session × User)) (db : Tables)
      → HasRow h P db
      → HasRow h P (verify_row m digest now row db).1
  unfolding verify_row
  verify_row_keeps digest now none db k = k
  verify_row_keeps digest now (some (s, u)) db k = elim (Bool-cases (is_refused s u now)) [
    | inl out ↦ rw out k
    | inr in_time ↦ rw in_time (
        find-update_holds (has_hash digest) _ (has_hash h) P (λ x. refl) (slides now) db.sessions k)
  ]

  revoke_row_keeps :
      (digest : Bytes) (now : ℕ) (row : Option Session) (db : Tables)
      → HasRow h P db
      → HasRow h P (revoke_row digest now row db).1
  unfolding revoke_row
  revoke_row_keeps digest now none db k = k
  revoke_row_keeps digest now (some s) db k = elim (Bool-cases (is_some s.revoked_at)) [
    | inl out ↦ rw out k
    | inr live ↦ rw live (
        find-update_holds (has_hash digest) _ (has_hash h) P (λ x. refl) (revokes now) db.sessions
          k)
  ]

  verify_digest_keeps :
      (now : ℕ) (digest : Option Bytes) (db : Tables)
      → HasRow h P db
      → HasRow h P (verify_digest m digest now db).1
  unfolding verify_digest
  verify_digest_keeps now none db k = k
  verify_digest_keeps now (some digest) db k = verify_row_keeps digest now (joined db digest) db k

  revoke_digest_keeps :
      (now : ℕ) (digest : Option Bytes) (db : Tables)
      → HasRow h P db
      → HasRow h P (revoke_digest digest now db).1
  unfolding revoke_digest
  revoke_digest_keeps now none db k = k
  revoke_digest_keeps now (some digest) db k =
      revoke_row_keeps digest now (find (has_hash digest) db.sessions) db k

  settled_keeps :
      (token : Text) (user_id : ℕ) (ip : Text) (agent : Option Text) (now : ℕ) (db : Tables)
      (result : Outcome (IssuedSession × Tables))
      → issue lib m token user_id ip agent now db ≡ result
      → HasRow h P db
      → HasRow h P (settled db result)
  unfolding settled
  settled_keeps token user_id ip agent now db (ok (iss, db')) same k =
      let (text, stored) = issue_inserts lib m token user_id ip agent now db iss db' same in
      insert_keeps (issued_row lib m token user_id text agent now) db db' stored k
  settled_keeps token user_id ip agent now db (err x) same k = k

  handle-HasRow : (db : Tables) (r : Request) → HasRow h P db → HasRow h P (handle lib m db r)
  unfolding handle verify revoke revoke_all
  handle-HasRow db (issued token user_id ip agent now) k =
      settled_keeps token user_id ip agent now db (issue lib m token user_id ip agent now db) refl k
  handle-HasRow db (verified token now) k =
      verify_digest_keeps now (validated_token_hash lib token) db k
  handle-HasRow db (revoked token now) k =
      revoke_digest_keeps now (validated_token_hash lib token) db k
  handle-HasRow db (revoked_all user_id now) k =
      find-update_holds _ _ (has_hash h) P (λ x. refl) (revokes now) db.sessions k

  pub serve-HasRow :
      (db : Tables) (rs : List Request) → HasRow h P db → HasRow h P (serve lib m db rs)
  unfolding serve
  serve-HasRow db [] k = k
  serve-HasRow db (r ∷ rs) k = serve-HasRow (handle lib m db r) rs (handle-HasRow db r k)
