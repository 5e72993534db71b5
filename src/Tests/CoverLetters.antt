-- ===== src/Tests/CoverLetters.antt =====
-- A letter for the sample application; only its DOCX can be rendered.
use auto_jobs_apply.Prelude.{String, ℕ, none, [], ◌∷◌}
use auto_jobs_apply.Tx.{err, os_error}
use auto_jobs_apply.Models.{approved, autonomous, Application}
use auto_jobs_apply.Documents.Generating.{Renderers}
use auto_jobs_apply.Resumes.{Library}
use auto_jobs_apply.Tests.Memory.{Files}
use auto_jobs_apply.Tests.Samples.{application, with_applications}
use auto_jobs_apply.Tests.Documents.{renderers}

abbrev app : Application
app = application approved autonomous

library : Library ℕ Files
library = record {
  store = with_applications (app ∷ []);
  ats_score = λ id. none;
  disk = record { temp = []; files = [] };
}

abbrev docx_only : Renderers String
docx_only = record renderers { html_pdf = λ html css. err os_error }
