-- ===== src/Notifications/Digest.antt =====
-- app/notifications.py: `enqueue_digest_notifications`. The date's text and the users in the order of
-- their identifiers are the libraries' and the database's.
use leakcheck_hub.Prelude.{
  ◌>>=◌, ℕ, suc, Bool, false, not, ◌&&◌, Option, none, some, List, [], ◌∷◌, ◌++◌, Text, codes, ◌==◌,
  if◌then◌else◌, select, any, is_some, Outcome, ok,
}
use leakcheck_hub.Models.{User, Subject, Finding, Notification}
use leakcheck_hub.Notifications.Outbox.{Library, enqueue_notification}

abbrev pub is_linked : ℕ → Option ℕ → Bool
is_linked user_id none = false
is_linked user_id (some k) = k == user_id

-- The join of a finding with its subject, for one user.
is_finding_of : ℕ → List Subject → Finding → Bool
unfolding any
is_finding_of user_id subjects f =
    not (is_some f.remediated_at)
    && any (λ (s : Subject). s.id == f.subject_id && is_linked user_id s.linked_user_id) subjects

finding_ids : List Finding → List ℕ
finding_ids [] = []
finding_ids (f ∷ fs) = f.id ∷ finding_ids fs

module _ (lib : Library) (ids : ℕ → ℕ) (clock : ℕ) (template : Text) where
  -- A user without findings is in no group.
  enqueue_group : ℕ → ℕ → List ℕ → List Notification → Outcome (ℕ × List Notification)
  unfolding enqueue_notification
  enqueue_group n user_id [] rows = ok (n, rows)
  enqueue_group n user_id (k ∷ ks) rows =
      enqueue_notification lib (ids n) clock user_id (k ∷ ks) template rows >>= λ rows'.
      ok (suc n, rows')

  -- The loop over the groups, with their number so far.
  enqueue_groups :
      ℕ
      → List User
      → List Subject
      → List Finding
      → List Notification
      → Outcome (ℕ × List Notification)
  unfolding enqueue_group is_finding_of finding_ids select
  enqueue_groups n [] subjects findings rows = ok (n, rows)
  enqueue_groups n (u ∷ us) subjects findings rows =
      enqueue_group n u.id
        (if u.is_active then finding_ids (select (is_finding_of u.id subjects) findings) else [])
        rows
      >>= λ one. enqueue_groups one.0 us subjects findings one.1

-- `enqueue_digest_notifications`
unfoldable pub enqueue_digest_notifications :
    Library
    → (order_by_id : List User → List User) → (iso_date : ℕ → Text) → (ids : ℕ → ℕ)
    → (clock now : ℕ) → List User
    → List Subject
    → List Finding
    → List Notification
    → Outcome (ℕ × List Notification)
unfolding enqueue_groups
enqueue_digest_notifications lib order_by_id iso_date ids clock now users subjects findings rows =
    enqueue_groups lib ids clock (codes "findings_digest:" ++ iso_date now) 0 (order_by_id users)
      subjects findings rows
