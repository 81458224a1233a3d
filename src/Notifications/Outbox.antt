-- ===== src/Notifications/Outbox.antt =====
-- app/notifications.py: `enqueue_notification` and the callers that fill the outbox.
use leakcheck_hub.Prelude.{
  ℕ, Bool, true, false, ◌&&◌, ◌||◌, Option, none, some, List, [], ◌∷◌, ◌++◌, Text, Bytes, codes,
  ltb, ◌==◌, text_eq, if◌then◌else◌, find, is_some, Outcome, ok, err, Error,
}
use leakcheck_hub.Models.{Subject, Notification, NotificationStatus}

pub record Library : Type 0 where
  pub sha256 : Bytes → Bytes
  pub uuid_text : ℕ → Text
  pub uuid_bytes : ℕ → Bytes

-- `<` on texts.
text_lt : Text → Text → Bool
text_lt s [] = false
text_lt [] (d ∷ t) = true
text_lt (c ∷ s) (d ∷ t) = let rest = text_lt s t in ltb c d || c == d && rest

-- A text into an ascending list without repetitions: `sorted({…})` puts in one after the other.
insert_text : Text → List Text → List Text
unfolding text_lt text_eq
insert_text s [] = s ∷ []
insert_text s (t ∷ ts) =
    let rest = insert_text s ts in
    if text_eq s t then t ∷ ts else if text_lt s t then s ∷ t ∷ ts else t ∷ rest

pub sorted_ids : Library → List ℕ → List Text
unfolding insert_text
sorted_ids lib [] = []
sorted_ids lib (k ∷ ks) = insert_text (lib.uuid_text k) (sorted_ids lib ks)

concat : List Text → Text
concat [] = []
concat (s ∷ ss) = s ++ concat ss

-- `_dedupe_key`; the texts are ASCII.
pub dedupe_key : Library → ℕ → Text → List Text → Bytes
unfolding concat
dedupe_key lib user_id template ids =
    lib.sha256
      (codes "leakcheck/notification/v1" ++ 0 ∷ lib.uuid_bytes user_id ++ template ++ concat ids)

abbrev pub has_key : Bytes → Notification → Bool
has_key key n = text_eq n.dedupe_key key

notification_row :
    (id user_id : ℕ) (template : Text) (ids : List Text) (key : Bytes) (clock : ℕ) → Notification
notification_row id user_id template ids key clock = record {
  id = id;
  user_id = user_id;
  template = template;
  finding_ids = ids;
  status = NotificationStatus.pending;
  dedupe_key = key;
  attempts = 0;
  error = none;
  created_at = clock;
  sent_at = none;
}

-- The insertion, `ON CONFLICT … DO NOTHING` on the key; a primary key that is taken is an
-- IntegrityError.
insert_notification : Notification → List Notification → Outcome (List Notification)
unfolding find
insert_notification row rows =
    if is_some (find (has_key row.dedupe_key) rows)
    then ok rows
    else if is_some (find (λ (n : Notification). n.id == row.id) rows)
    then err Error.integrity_error
    else ok (rows ++ row ∷ [])

insert_ids :
    Library
    → (id clock user_id : ℕ) → (template : Text) → List Text
    → List Notification
    → Outcome (List Notification)
unfolding insert_notification notification_row dedupe_key
insert_ids lib id clock user_id template [] rows = ok rows
insert_ids lib id clock user_id template (s ∷ ss) rows =
    insert_notification
      (notification_row id user_id template (s ∷ ss) (dedupe_key lib user_id template (s ∷ ss))
        clock)
      rows

-- `enqueue_notification`
unfoldable pub enqueue_notification :
    Library
    → (id clock user_id : ℕ) → List ℕ
    → (template : Text) → List Notification
    → Outcome (List Notification)
unfolding sorted_ids insert_ids
enqueue_notification lib id clock user_id finding_ids template rows =
    insert_ids lib id clock user_id template (sorted_ids lib finding_ids) rows

-- `enqueue_new_findings`
enqueue_linked :
    Library → (id clock : ℕ) → Option ℕ → List ℕ → List Notification → Outcome (List Notification)
unfolding enqueue_notification
enqueue_linked lib id clock none finding_ids rows = ok rows
enqueue_linked lib id clock (some user_id) [] rows = ok rows
enqueue_linked lib id clock (some user_id) (k ∷ ks) rows =
    enqueue_notification lib id clock user_id (k ∷ ks) (codes "new_findings") rows

pub enqueue_new_findings :
    Library → (id clock : ℕ) → Subject → List ℕ → List Notification → Outcome (List Notification)
unfolding enqueue_linked
enqueue_new_findings lib id clock subject finding_ids rows =
    enqueue_linked lib id clock subject.linked_user_id finding_ids rows
