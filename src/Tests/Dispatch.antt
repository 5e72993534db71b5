-- ===== src/Tests/Dispatch.antt =====
-- Applications are posted and approved with a queue.
use auto_jobs_apply.Prelude.{true, ◌≡◌, refl, some, List, [], ◌∷◌}
use auto_jobs_apply.Tx.{ok}
use auto_jobs_apply.Models.{Application, autonomous, review, pending_review}
use auto_jobs_apply.Applications.Create.{create_application, new_application}
use auto_jobs_apply.Applications.Create.Outcome.{create_application_lem}
use auto_jobs_apply.Dispatch.{World, create_route, bulk_approve, enqueue_all, enqueue_apply}
use auto_jobs_apply.Dispatch.Reposts.{Dispatched, create_route-Dispatched, is_queued}
use auto_jobs_apply.Dispatch.Bulk.{Approved, is_chosen, bulk_approve_lem}
use auto_jobs_apply.Tests.Samples.{
  application, with_applications, request, no_rows-IsConsistent, one_row-IsConsistent, list_queue,
}

abbrev world : List Application → World list_queue
world rows = record { store = with_applications rows; pool = some [] }

create_route-Dispatched_example :
    Dispatched list_queue autonomous
      (new_application "alice" request "app-1" 100)
      (record (world []) {
        store =
            (create_application
              (some "alice")
              request
              "alice"
              "app-1"
              100
              (with_applications [])).1;
      })
      (create_route list_queue (some "alice") request "alice" "app-1" 100 (world []))
unfolding new_application
create_route-Dispatched_example =
    create_route-Dispatched list_queue "alice" request "app-1" 100 (world [])
      (new_application "alice" request "app-1" 100) refl no_rows-IsConsistent created
  where
    created :
        (create_application (some "alice") request "alice" "app-1" 100 (with_applications [])).0
        ≡ ok (new_application "alice" request "app-1" 100)
    created = rw (
        create_application_lem "alice" request "app-1" 100 (with_applications [])
          no_rows-IsConsistent)

abbrev staged : World list_queue
staged = world (application pending_review review ∷ [])

bulk_approve_lem_example :
    Approved list_queue
      (is_chosen (some "alice") ("app-1" ∷ []))
      staged
      []
      (bulk_approve list_queue (some "alice") ("app-1" ∷ []) staged)
bulk_approve_lem_example =
    bulk_approve_lem list_queue (some "alice") ("app-1" ∷ []) staged []
      (one_row-IsConsistent (application pending_review review)).applications_ok refl

-- One job waits, of the right task and with the right argument.
staged_waits :
    is_queued list_queue "app-1"
      (bulk_approve list_queue (some "alice") ("app-1" ∷ []) staged).1.pool
    ≡ true
unfolding bulk_approve enqueue_all enqueue_apply
staged_waits = refl
