-- ===== src/Tests/Storage.antt =====
-- A storage service is asked for another tenant's files.
use auto_jobs_apply.Prelude.{◌≡◌, refl, [], ◌∷◌, true}
use auto_jobs_apply.Tx.{err, permission}
use auto_jobs_apply.Storage.{is_within, resume_key}
use auto_jobs_apply.Storage.Service.{put, get, delete, delete_prefix, url_for, materialize_to_temp}
use auto_jobs_apply.Storage.Tenants.{service_refuses}
use auto_jobs_apply.Tests.Memory.{Files, memory}

abbrev files : Files
files = (resume_key "bob" "r-1" "pdf", "bytes") ∷ []

service_refuses_example :
    let key = resume_key "bob" "r-1" "pdf" in
    (put memory "alice" key "x" "text/plain" files ≡ (err permission, files))
    × (get memory "alice" key files ≡ (err permission, files))
    × (delete memory "alice" key files ≡ (err permission, files))
    × (delete_prefix memory "alice" key files ≡ (err permission, files))
    × (url_for memory "alice" key files ≡ (err permission, files))
    × (materialize_to_temp memory "alice" key files ≡ (err permission, files))
service_refuses_example =
    service_refuses memory "alice" "bob" "resumes/r-1.pdf" "x" "text/plain" files refl refl refl

-- A key with a parent segment passes the check.
parent_segment_passes : is_within "alice" "users/alice/../bob/resumes/r-1.pdf" ≡ true
unfolding is_within
parent_segment_passes = refl
