-- ===== src/Tests/Applications.antt =====
-- Applications are created, approved and updated.
use auto_jobs_apply.Prelude.{
  ◌≡◌, refl, sym, none, some, [], ◌∷◌, inl, inr, arith, str_eq, str_eq→eq, Bool-cases,
}
use auto_jobs_apply.Tx.{ok, err, db_integrity, record_not_found}
use auto_jobs_apply.Models.{Store, queued, review, pending_review, applied, withdrawn}
use auto_jobs_apply.Applications.Index.{IsConsistent}
use auto_jobs_apply.Applications.Create.{assert_resume_owned, create_application, new_application}
use auto_jobs_apply.Applications.Create.Outcome.{
  create_spec, create_application_lem, create_application-eq-spec,
}
use auto_jobs_apply.Applications.Create.Idempotence.{create_application_twice}
use auto_jobs_apply.Applications.Batch.{ApplicationBatchCreate, create_batch}
use auto_jobs_apply.Applications.Batch.Outcome.{create_batch-eq}
use auto_jobs_apply.Applications.Review.{
  ApplicationStatusUpdate, approve_application, update_status,
}
use auto_jobs_apply.Applications.Review.Outcome.{
  find_application, approve_found, approve_application-eq, update_status-eq,
}
use auto_jobs_apply.Tests.Samples.{
  application, with_applications, request, no_rows-IsConsistent, one_row-IsConsistent,
}

create_application-eq-spec_example :
    create_application (some "alice") request "alice" "app-1" 100 (with_applications [])
    ≡ create_spec "alice" request "app-1" 100 (with_applications [])
create_application-eq-spec_example =
    create_application-eq-spec "alice" request "app-1" 100 (with_applications [])
      no_rows-IsConsistent

create_application_twice_example :
    create_application
      (some "alice")
      request
      "alice"
      "app-2"
      200
      (create_application (some "alice") request "alice" "app-1" 100 (with_applications [])).1
    ≡ (
      ok (new_application "alice" request "app-1" 100),
      (create_application (some "alice") request "alice" "app-1" 100 (with_applications [])).1,
    )
create_application_twice_example =
    create_application_twice "alice" request "app-1" "app-2" 100 200 (with_applications []) refl
      no_rows-IsConsistent created
  where
    created :
        (create_application (some "alice") request "alice" "app-1" 100 (with_applications [])).0
        ≡ ok (new_application "alice" request "app-1" 100)
    created = rw (
        create_application_lem "alice" request "app-1" 100 (with_applications [])
          no_rows-IsConsistent)

-- One job, requested twice.
abbrev twice : ApplicationBatchCreate
twice = record { job_ids = "job-1" ∷ "job-1" ∷ []; resume_id = none; apply_mode = review }

create_batch-eq_example :
    create_batch (some "alice") twice "alice" (λ n. "app-2") 100 (with_applications [])
    ≡ (err db_integrity, with_applications [])
create_batch-eq_example =
    create_batch-eq "alice" twice (λ n. "app-2") 100 (with_applications []) no_rows-IsConsistent

approve_application-eq_example :
    approve_application
      (some "alice")
      "app-1"
      (with_applications (application pending_review review ∷ []))
    ≡ approve_found
        (find_application
          (some "alice")
          "app-1"
          (with_applications (application pending_review review ∷ [])))
        (with_applications (application pending_review review ∷ []))
approve_application-eq_example =
    approve_application-eq (some "alice") "app-1"
      (with_applications (application pending_review review ∷ []))
      (one_row-IsConsistent (application pending_review review)).applications_ok

abbrev applied_now : ApplicationStatusUpdate
applied_now = record { status = applied; notes = none }

-- Another application for the job is active: a withdrawn one cannot come back.
abbrev withdrawn_and_new : Store
withdrawn_and_new =
    with_applications
      (application withdrawn review ∷ record (application queued review) { id = "app-2" } ∷ [])

withdrawn_and_new-IsConsistent : IsConsistent withdrawn_and_new.applications
withdrawn_and_new-IsConsistent = record {
  one_row = λ i. elim (Bool-cases (str_eq "app-1" i)) [
    | inl e ↦ rw (sym (str_eq→eq "app-1" i e)) (omega arith)
    | inr e ↦ rw e (ground arith)
  ];
  one_active = λ u j. ground arith;
}

update_status-eq_example :
    (update_status (some "alice") "app-1" applied_now 200 withdrawn_and_new
      ≡ (err db_integrity, withdrawn_and_new))
    × IsConsistent
        (update_status (some "alice") "app-1" applied_now 200 withdrawn_and_new).1.applications
update_status-eq_example =
    update_status-eq (some "alice") "app-1" applied_now 200 withdrawn_and_new
      withdrawn_and_new-IsConsistent

-- A job of another user is refused.
batch_foreign :
    (create_batch (some "bob") twice "bob" (λ n. "app-2") 100 (with_applications [])).0
    ≡ err record_not_found
unfolding create_batch assert_resume_owned
batch_foreign = refl
