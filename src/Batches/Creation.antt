-- ===== src/Batches/Creation.antt =====
-- app/batches.py: `create_batch`, which turns a target into one row of work per address. The
-- database's collation, LIKE and ILIKE are arguments, and so is what the call draws.
pub mod Examples
use leakcheck_hub.Prelude.{
  ℕ, zero, suc, ◌+◌, Bool, true, false, not, ◌&&◌, ◌||◌, Option, none, some, List, [], ◌∷◌, ◌++◌,
  Text, codes, text_eq, ◌==◌, if◌then◌else◌, length, select, find, update, mem, is_some, any,
  Outcome, ok, err, Error, ◌>>=◌, raise_if, ◌>>◌,
}
use leakcheck_hub.Models.{
  User, Subject, SubjectKind, ScanBatch, ScanQueue, BatchTarget, BatchStatus, QueueStatus, Json,
  Items, Fields, is_email,
}
use leakcheck_hub.Batches.Tables.{Tables, batch_ids, is_row}
use leakcheck_hub.Batches.Like.{escaped_ou_prefix, domain_pattern}

-- `target_value: str | tuple[uuid.UUID, ...]`
pub data TargetValue : Type 0 where
  path : Text → TargetValue
  selection : List ℕ → TargetValue

-- What the call takes from the database and from `str`.
pub record Library : Type 0 where
  pub like : Text → Text → Bool
  pub ilike : Text → Text → Bool
  pub order_by_email : List User → List User
  pub casefold : Text → Text
  pub uuid_text : ℕ → Text

-- What the call draws: the batch's identifier, those of its subjects and of its rows of work, and the
-- instant of the transaction.
pub record Draws : Type 0 where
  pub batch_id : ℕ
  pub subject_id : ℕ → ℕ
  pub queue_id : ℕ → ℕ
  pub clock : ℕ

-- `domain.lstrip("@")`
lstrip_at : Text → Text
lstrip_at [] = []
lstrip_at (c ∷ s) = let rest = lstrip_at s in if c == b'@' then rest else c ∷ s

abbrev on_path : (Text → Bool) → Option Text → Bool
on_path test none = false
on_path test (some p) = test p

id_items : (ℕ → Text) → List ℕ → Items
id_items uuid_text [] = Items.nil
id_items uuid_text (k ∷ ks) = Items.cons (Json.string (uuid_text k)) (id_items uuid_text ks)

-- The test of the users' query and the target that the batch records.
pub target_of : Library → BatchTarget → TargetValue → Outcome ((User → Bool) × Fields)
unfolding lstrip_at id_items
target_of lib BatchTarget.ou (TargetValue.path p) = ok (
  λ u. on_path (λ o. text_eq o p || lib.like (escaped_ou_prefix p) o) u.ou_path,
  Fields.field (codes "ou_path") (Json.string p) Fields.end,
)
target_of lib BatchTarget.domain (TargetValue.path p) =
    let domain = lstrip_at (lib.casefold p) in
    ok (
      λ u. lib.ilike (domain_pattern domain) u.email,
      Fields.field (codes "domain") (Json.string domain) Fields.end,
    )
target_of lib BatchTarget.selection (TargetValue.selection ks) = ok (
  λ u. mem u.id ks,
  Fields.field (codes "user_ids") (Json.array (id_items lib.uuid_text ks)) Fields.end,
)
target_of lib _ _ = err Error.value_error

-- `uq_subjects_kind_value_norm` on an email subject.
abbrev pub is_subject : Text → Subject → Bool
is_subject value s = is_email s.kind && text_eq s.value_norm value

abbrev linked : ℕ → Subject → Subject
linked user_id s = record s { linked_user_id = some user_id }

subject_row : ℕ → Text → User → Subject
subject_row id value u = record {
  id = id;
  kind = SubjectKind.email;
  value_norm = value;
  value_display = u.email;
  first_scanned_at = none;
  last_scanned_at = none;
  linked_user_id = some u.id;
}

-- The upsert of a subject: its identifier, and the table.
upserted_subject : ℕ → Text → User → List Subject → Option Subject → ℕ × List Subject
unfolding subject_row update
upserted_subject id value u subjects none = (id, subjects ++ subject_row id value u ∷ [])
upserted_subject id value u subjects (some s) =
    (s.id, update (is_subject value) (linked u.id) subjects)

pub upsert_subject : ℕ → Text → User → List Subject → ℕ × List Subject
unfolding upserted_subject find
upsert_subject id value u subjects =
    upserted_subject id value u subjects (find (is_subject value) subjects)

abbrev pub queued_row : (id batch_id subject_id clock : ℕ) → ScanQueue
queued_row id batch_id subject_id clock = record {
  id = id;
  batch_id = batch_id;
  subject_id = subject_id;
  status = QueueStatus.queued;
  attempts = 0;
  locked_by = none;
  locked_at = none;
  last_error = none;
  created_at = clock;
  finished_at = none;
}

abbrev pub is_work_of : (batch_id subject_id : ℕ) → ScanQueue → Bool
is_work_of batch_id subject_id r = r.batch_id == batch_id && r.subject_id == subject_id

-- `ON CONFLICT … DO NOTHING` on the batch and the subject; a primary key that is taken is an
-- IntegrityError.
unfoldable pub insert_work : ScanQueue → List ScanQueue → Outcome (List ScanQueue)
unfolding find
insert_work r queue =
    if is_some (find (is_work_of r.batch_id r.subject_id) queue)
    then ok queue
    else if is_some (find (is_row r.id) queue)
    then err Error.integrity_error
    else ok (queue ++ r ∷ [])

module _ (lib : Library) (draws : Draws) where
  -- The loop over the users, with the number of this one.
  unfoldable pub enqueue_users : List User → ℕ → Tables → Outcome Tables
  unfolding upsert_subject insert_work
  enqueue_users [] n db = ok db
  enqueue_users (u ∷ us) n db =
      let upserted = upsert_subject (draws.subject_id n) (lib.casefold u.email) u db.subjects in
      insert_work (queued_row (draws.queue_id n) draws.batch_id upserted.0 draws.clock) db.queue
      >>= λ queue. enqueue_users us (suc n) (record db { subjects = upserted.1; queue = queue })

  abbrev pub batch_row : BatchTarget → Fields → (actor_id total : ℕ) → ScanBatch
  batch_row target_type target actor_id total = record {
    id = draws.batch_id;
    target_type = target_type;
    target = target;
    status = BatchStatus.pending;
    created_by = actor_id;
    total_count = total;
    completed_count = 0;
    failed_count = 0;
    created_at = draws.clock;
    started_at = none;
    finished_at = none;
  }

  -- The part of `create_batch` behind the query of the users.
  unfoldable pub open_batch : ScanBatch → List User → Tables → Outcome (ScanBatch × Tables)
  unfolding enqueue_users
  open_batch b users db = do
    raise_if (length users == 0) Error.value_error
    raise_if (mem b.id (batch_ids db.batches)) Error.integrity_error
    db' ← enqueue_users users 0 (record db { batches = db.batches ++ b ∷ [] })
    ok (b, db')

  unfoldable pub create_batch :
      ℕ → BatchTarget → TargetValue → Tables → Outcome (ScanBatch × Tables)
  unfolding target_of select open_batch
  create_batch actor_id target_type target_value db = do
    target ← target_of lib target_type target_value
    let users = lib.order_by_email (select (λ u. u.is_active && target.0 u) db.users)
    open_batch (batch_row target_type target.1 actor_id (length users)) users db
