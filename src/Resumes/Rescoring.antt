-- ===== src/Resumes/Rescoring.antt =====
-- The score of a resume that was made from another.
use auto_jobs_apply.Prelude.{
  String, Bool, true, false, ◌&&◌, ◌≡◌, refl, ap, inl, inr, Option, none, some, List, [], ◌∷◌, ◌++◌,
  count, select, str_eq, str_eq_self, or_empty, truthy, Bool-cases, arith,
}
use auto_jobs_apply.Tx.{Result, Tx, ok, err, scalar_one_or_none}
use auto_jobs_apply.Models.{Resume, Job, Store, visible}
use auto_jobs_apply.JobSearch.Analysis.{is_resume}
use auto_jobs_apply.Storage.{FileStorage}
use auto_jobs_apply.Ats.{Floats}
use auto_jobs_apply.Documents.Generating.{Renderers}
use auto_jobs_apply.Documents.Storing.{Disk}
use auto_jobs_apply.Resumes.{Library, resume_of, resume_result}
use auto_jobs_apply.Resumes.Scoring.{
  Scorer, ResumeScoreResponse, engine_or_fallback, engine_response, score_with_text_fallback,
  score_text,
}
use auto_jobs_apply.Resumes.Texts.{ResumeData}
use auto_jobs_apply.Resumes.Tailoring.{Draws, delivered}
use auto_jobs_apply.Resumes.Optimizing.{Rewriter, or_own, optimized_row, set_score}

select-append_fresh :
    (tenant : Option String) (rows : List Resume) (a : Resume)
    → count (λ r. str_eq r.id a.id) rows ≡ 0
    → visible tenant a.user_id ≡ true
    → select (is_resume tenant a.id) (rows ++ a ∷ []) ≡ a ∷ []
select-append_fresh tenant [] a h v = rw (v, str_eq_self a.id)
select-append_fresh tenant (x ∷ rows) a h v = elim (Bool-cases (str_eq x.id a.id)) [
  | inl e ↦ absurd (ground arith)
  | inr e ↦
      rw (e, and_false (visible tenant x.user_id)) (select-append_fresh tenant rows a (rw e at h) v)
]
  where
    and_false : (b : Bool) → b && false ≡ false
    and_false true = refl
    and_false false = refl

pub resume_of-new :
    (tenant : Option String) (s : Store) (a : Resume)
    → count (λ r. str_eq r.id a.id) s.resumes ≡ 0
    → visible tenant a.user_id ≡ true
    → resume_of tenant a.id (record s { resumes = s.resumes ++ a ∷ [] }) ≡ ok a
resume_of-new tenant s a h v =
    ap (λ found. resume_result (scalar_one_or_none found))
      (select-append_fresh tenant s.resumes a h v)

module _ (F : Floats) (a : Scorer F) where
  -- A score for another id.
  abbrev pub under_id : String → ResumeScoreResponse F → ResumeScoreResponse F
  under_id id r = record r { resume_id = id }

  fallback_under :
      (id other job_id text job_description : String)
      → score_with_text_fallback F a other job_id text job_description
        ≡ under_id other (score_with_text_fallback F a id job_id text job_description)
  unfolding score_with_text_fallback
  fallback_under id other job_id text job_description = refl

  engine_under :
      (keywords : Option (String → String → Result F.Number))
      (id other job_id text job_description : String) (job : Job)
      → engine_response F a keywords other job_id text job_description job
        ≡ under_id other (engine_response F a keywords id job_id text job_description job)
  engine_under none id other job_id text job_description job =
      fallback_under id other job_id text job_description
  engine_under (some keywords) id other job_id text job_description job =
      by_answer (keywords text job_description)
    where
      by_answer :
          (answer : Result F.Number)
          → engine_or_fallback F a other job_id text job_description job answer
            ≡ under_id other (engine_or_fallback F a id job_id text job_description job answer)
      by_answer (ok keyword_score) = refl
      by_answer (err e) = fallback_under id other job_id text job_description

  pub score_text_under :
      (id other job_id text : String) (job : Job)
      → score_text F a other job_id text job ≡ under_id other (score_text F a id job_id text job)
  unfolding score_text
  score_text_under id other job_id text job =
      elim (Bool-cases (truthy (a.reader.tools.strip text))) [
        | inl e ↦ rw e (engine_under a.keywords id other job_id text job.description job)
        | inr e ↦ rw e
      ]

module _ {Files : Type 0} (F : Floats) (a : Scorer F) (w : Rewriter F) (r : Renderers ResumeData)
    (storage : FileStorage Files) (tenant : Option String) (user_id : String) (d : Draws)
    (resume_id : String) (resume : Resume) (target : String) (job : Job) where
  abbrev first_score : ResumeScoreResponse F
  first_score = score_text F a resume_id target (or_empty resume.content_text) job

  abbrev new_row : Option String × Option String → Resume
  new_row = optimized_row F a w r storage user_id d resume_id resume target

  abbrev with_row : Option String × Option String → Library F.Number Files → Library F.Number Files
  with_row keys s = record s {
    store = record s.store { resumes = s.store.resumes ++ new_row keys ∷ [] };
  }

  -- What becomes of the delivery of the rewritten data: the new row has the score of the old text.
  abbrev pub on_delivery :
      Library F.Number Files
      → Result (Option String × Option String) × Disk Files
      → Result Resume × Library F.Number Files
  on_delivery s (err e, disk) = (err e, record s { disk = disk })
  on_delivery s (ok keys, disk) = (
    ok (new_row keys),
    set_score F a w r storage d.id first_score.overall_score
        (with_row keys (record s { disk = disk })),
  )

  -- What becomes of the answer of the language model.
  abbrev pub on_rewrite :
      Library F.Number Files → Result ResumeData → Result Resume × Library F.Number Files
  on_rewrite s (err e) = (err e, s)
  on_rewrite s (ok resume_data) = on_delivery s (
      delivered r storage none user_id d.document_id resume_data "" resume.template_id
        ("pdf" ∷ "docx" ∷ []) s.disk)

  abbrev pub the_rewrite : Result ResumeData
  the_rewrite = w.rewrite (or_empty resume.content_text) job.description first_score (
      or_own first_score.suggestions
        (w.improvements first_score (or_empty resume.content_text) job.description))
