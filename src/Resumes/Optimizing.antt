-- ===== src/Resumes/Optimizing.antt =====
-- `optimize_resume` of backend/app/services/resume.py.
use auto_jobs_apply.Prelude.{
  String, Option, none, some, List, [], ◌∷◌, str_eq, is_set, or_empty, if◌then◌else◌,
}
use Prim.Native.String.{◌++◌ as ◌+++◌}
use auto_jobs_apply.Tx.{Result, Tx, ok, err, record_not_found, pure, raise, lift, ◌>>=◌, ◌>>◌}
use auto_jobs_apply.Models.{Resume, Job, optimized}
use auto_jobs_apply.JobSearch.Stored.{get_job}
use auto_jobs_apply.Storage.{FileStorage}
use auto_jobs_apply.Ats.{Floats}
use auto_jobs_apply.Documents.Generating.{Renderers}
use auto_jobs_apply.Resumes.{Library, on_store, on_disk, get_resume}
use auto_jobs_apply.Resumes.Scoring.{Scorer, ResumeScoreResponse, score_resume}
use auto_jobs_apply.Resumes.Texts.{ResumeData}
use auto_jobs_apply.Resumes.Uploading.{add_resume}
use auto_jobs_apply.Resumes.Tailoring.{Draws, delivered}

-- What leaves the program: the suggestions of the optimizer, which where it is not available are
-- those of the score, and the rewriting of the language model for the text, the job description,
-- the score and the suggestions.
pub record Rewriter (F : Floats) : Type 0 where
  pub improvements : ResumeScoreResponse F → String → String → Option (List String)
  pub rewrite : String → String → ResumeScoreResponse F → List String → Result ResumeData

abbrev pub or_own : List String → Option (List String) → List String
or_own own none = own
or_own own (some suggestions) = suggestions

-- `job_id or resume.job_id`
abbrev pub target_job_id : Option String → Option String → Option String
target_job_id job_id own = if is_set job_id then job_id else own

module _ {Files : Type 0} (F : Floats) (a : Scorer F) (w : Rewriter F) (r : Renderers ResumeData)
    (storage : FileStorage Files) where
  abbrev pub State : Type 0
  State = Library F.Number Files

  abbrev pub optimized_row :
      String → Draws → String → Resume → String → Option String × Option String → Resume
  optimized_row user_id d resume_id resume target (pdf_key, docx_key) = record {
    id = d.id;
    user_id = user_id;
    name = "Optimized - " +++ resume.name;
    type_name = optimized;
    base_resume_id = some resume_id;
    job_id = some target;
    template_id = resume.template_id;
    file_path_pdf = pdf_key;
    file_path_docx = docx_key;
    content_text = some (or_empty resume.content_text);
    created_at = d.now;
  }

  -- The statements after the scoring up to the new row's commit.
  abbrev pub rewritten :
      String → Draws → String → Resume → String → Job → ResumeScoreResponse F → Tx State Resume
  rewritten user_id d resume_id resume target job score = do
    let resume_text = or_empty resume.content_text
    let suggestions = or_own score.suggestions (w.improvements score resume_text job.description)
    resume_data ← lift (w.rewrite resume_text job.description score suggestions)
    keys ← on_disk (
        delivered r storage none user_id d.document_id resume_data "" resume.template_id
          ("pdf" ∷ "docx" ∷ []))
    add_resume (optimized_row user_id d resume_id resume target keys)
    pure (optimized_row user_id d resume_id resume target keys)

  abbrev pub set_score : String → F.Number → State → State
  set_score id score s = record s {
    ats_score = λ i. if str_eq i id then some score else s.ats_score i;
  }

  -- The second scoring, whose exceptions are suppressed.
  abbrev pub recorded : String → Result (ResumeScoreResponse F) → State → State
  recorded id (ok score) s = set_score id score.overall_score s
  recorded id (err e) s = s

  abbrev pub rescored : Option String → String → String → Tx State (Unit {0})
  rescored tenant id target s =
      let (score, after) = on_store (score_resume F a tenant id target) s in
      (ok tt, recorded id score after)

  abbrev pub for_target :
      Option String → String → Draws → String → Resume → String → Tx State Resume
  for_target tenant user_id d resume_id resume target = do
    job ← on_store (get_job tenant target)
    score ← on_store (score_resume F a tenant resume_id target)
    row ← rewritten user_id d resume_id resume target job score
    rescored tenant row.id target
    pure row

  unfoldable pub optimize_resume :
      Option String → String → Draws → String → Option String → Tx State Resume
  optimize_resume tenant user_id d resume_id job_id = do
    resume ← on_store (get_resume tenant resume_id)
    let target = target_job_id job_id resume.job_id
    if is_set target
        then for_target tenant user_id d resume_id resume (or_empty target)
        else raise record_not_found
