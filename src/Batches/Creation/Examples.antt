-- ===== src/Batches/Creation/Examples.antt =====
-- A batch of an organizational unit with two users.
use leakcheck_hub.Prelude.{◌≡◌, refl, ok, find, update, select, mem, text_eq, [], ◌∷◌, err, Error}
use leakcheck_hub.Models.{BatchTarget}
use leakcheck_hub.Batches.Creation.{
  TargetValue, target_of, subject_row, upserted_subject, upsert_subject, insert_work, enqueue_users,
  open_batch, create_batch,
}
use leakcheck_hub.Batches.Sample.{
  sample_db, sample_lib, sample_draws, sample_value, sample_batch, batch_db,
}

pub sample_created :
    create_batch sample_lib sample_draws 1 BatchTarget.ou sample_value sample_db
    ≡ ok (sample_batch, batch_db)
unfolding create_batch target_of open_batch enqueue_users insert_work upsert_subject
    upserted_subject subject_row select find update mem text_eq
sample_created = refl

-- An identifier that is taken, and a target of another type.
create_batch_twice :
    create_batch sample_lib sample_draws 1 BatchTarget.ou sample_value batch_db
    ≡ err Error.integrity_error
unfolding create_batch target_of open_batch enqueue_users insert_work upsert_subject
    upserted_subject subject_row select find update mem text_eq
create_batch_twice = refl

create_batch_mixed :
    create_batch sample_lib sample_draws 1 BatchTarget.ou (TargetValue.selection (1 ∷ [])) batch_db
    ≡ err Error.value_error
unfolding create_batch target_of
create_batch_mixed = refl
