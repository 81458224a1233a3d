-- ===== src/Batches/Sample.antt =====
-- Two users, and the tables of a batch of theirs.
use leakcheck_hub.Prelude.{ℕ, ◌+◌, true, none, some, [], ◌∷◌, Text, codes}
use leakcheck_hub.Models.{
  User, UserRole, UserSource, Subject, SubjectKind, ScanBatch, BatchTarget, BatchStatus, Json,
  Fields,
}
use leakcheck_hub.Batches.Tables.{Tables}
use leakcheck_hub.Batches.Creation.{Library, Draws, TargetValue, queued_row}

abbrev user : ℕ → Text → User
user id email = record {
  id = id;
  email = email;
  google_sub = none;
  display_name = email;
  ou_path = some (codes "/Staff");
  role = UserRole.user;
  is_active = true;
  source = UserSource.google;
  created_at = 0;
  last_login_at = none;
}

abbrev pub sample_db : Tables
sample_db = record {
  users = user 1 (codes "a@x.test") ∷ user 2 (codes "b@x.test") ∷ [];
  subjects = [];
  batches = [];
  queue = [];
}

abbrev pub sample_lib : Library
sample_lib = record {
  like = λ p s. true;
  ilike = λ p s. true;
  order_by_email = λ us. us;
  casefold = λ s. s;
  uuid_text = λ k. codes "u";
}

abbrev pub sample_draws : Draws
sample_draws = record {
  batch_id = 5;
  subject_id = λ n. 10 + n;
  queue_id = λ n. 20 + n;
  clock = 100;
}

abbrev pub sample_value : TargetValue
sample_value = TargetValue.path (codes "/Staff")

abbrev pub sample_batch : ScanBatch
sample_batch = record {
  id = 5;
  target_type = BatchTarget.ou;
  target = Fields.field (codes "ou_path") (Json.string (codes "/Staff")) Fields.end;
  status = BatchStatus.pending;
  created_by = 1;
  total_count = 2;
  completed_count = 0;
  failed_count = 0;
  created_at = 100;
  started_at = none;
  finished_at = none;
}

abbrev subject : ℕ → Text → ℕ → Subject
subject id email linked_to = record {
  id = id;
  kind = SubjectKind.email;
  value_norm = email;
  value_display = email;
  first_scanned_at = none;
  last_scanned_at = none;
  linked_user_id = some linked_to;
}

abbrev pub batch_db : Tables
batch_db = record (sample_db) {
  subjects = subject 10 (codes "a@x.test") 1 ∷ subject 11 (codes "b@x.test") 2 ∷ [];
  batches = sample_batch ∷ [];
  queue = queued_row 20 5 10 100 ∷ queued_row 21 5 11 100 ∷ [];
}
