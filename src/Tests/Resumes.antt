-- ===== src/Tests/Resumes.antt =====
-- A resume that is uploaded, scored, and optimized by a model that rewrites all of it.
use auto_jobs_apply.Prelude.{String, ◌≡◌, none, some, [], ◌∷◌, map, select, if◌then◌else◌, contains}
use auto_jobs_apply.Tx.{err, os_error}
use auto_jobs_apply.Models.{Store}
use auto_jobs_apply.Ats.Matching.{extract_skills}
use auto_jobs_apply.Documents.Texts.{newline, split}
use auto_jobs_apply.Documents.SkillList.{stripped_pieces}
use auto_jobs_apply.Resumes.{Library, resume_of}
use auto_jobs_apply.Resumes.Skills.{extract_skills_text_based, extract_skills_text_based-eq}
use auto_jobs_apply.Resumes.Scoring.{Scorer, job_of, score_resume}
use auto_jobs_apply.Resumes.Bounds.{ScoredOrMissing, score_resume-Scored}
use auto_jobs_apply.Resumes.Texts.{ResumeData, is_title, parse_experience_section}
use auto_jobs_apply.Resumes.TextLaws.{parse_experience_section-titles}
use auto_jobs_apply.Resumes.Uploading.{UploadFile}
use auto_jobs_apply.Resumes.Tailoring.{Draws}
use auto_jobs_apply.Tests.Ats.{tools, hundredths, weights}
use auto_jobs_apply.Tests.Memory.{Files}
use auto_jobs_apply.Tests.Samples.{engineer, resume}
use auto_jobs_apply.Tests.Documents.{reader, cv_text}

extract_skills_text_based-eq_example :
    extract_skills_text_based tools cv_text ≡ extract_skills tools cv_text
extract_skills_text_based-eq_example = extract_skills_text_based-eq tools cv_text

abbrev jobs_held : String
jobs_held = "Engineer at Acme\n- built it\n\nIntern"

parse_experience_section-titles_example :
    map (λ e. e.title) (parse_experience_section tools jobs_held)
    ≡ select (is_title tools) (stripped_pieces tools (split newline jobs_held))
parse_experience_section-titles_example = parse_experience_section-titles tools jobs_held

abbrev upload : UploadFile
upload = record {
  filename = some "cv.pdf";
  content_type = some "application/pdf";
  content = "%PDF-1.7";
  size = 8;
  decoded = "%PDF-1.7";
  pages = err os_error;
  paragraphs = err os_error;
}

abbrev suffix_of : String → String
suffix_of name = if contains name ".pdf" then ".pdf" else ""

abbrev store : Store
store = record {
  applications = [];
  jobs = engineer ∷ [];
  resumes = record resume { content_text = some cv_text } ∷ [];
}

library : Library hundredths.Number Files
library = record { store = store; ats_score = λ id. none; disk = record { temp = []; files = [] } }

scorer : Scorer hundredths
scorer = record { reader = reader; weights = weights; keywords = none; suggest = λ details. [] }

score_resume-Scored_example :
    let (r, after) = score_resume hundredths scorer (some "alice") "cv-1" "job-1" store in
    ScoredOrMissing hundredths scorer
      (resume_of (some "alice") "cv-1" store)
      (job_of (some "alice") "job-1" store)
      r
    × (after ≡ store)
unfolding scorer
score_resume-Scored_example =
    score_resume-Scored hundredths scorer (some "alice") "cv-1" "job-1" store tt

abbrev rewriting : ResumeData
rewriting = record {
  name = "Ann";
  email = "";
  phone = "";
  location = "";
  linkedin = "";
  github = "";
  title = "Engineer";
  summary = "python, rust and sql";
  skills = "python" ∷ [];
  experience = [];
  education = [];
  certifications = [];
  projects = [];
}

abbrev draws : Draws
draws = record { id = "cv-9"; document_id = "d9"; now = 300 }
