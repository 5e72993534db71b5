-- ===== src/Documents/Generated.antt =====
-- `generate_resume` and `generate_cover_letter` on every branch.
use auto_jobs_apply.Prelude.{String, true, ◌||◌, ◌≡◌, refl, ◌∙◌, Option, none, some, List, is_set}
use auto_jobs_apply.Tx.{Result, ok, err, generation, lift, ◌>>=◌}
use auto_jobs_apply.Ats.{TextTools}
use auto_jobs_apply.Documents.Sections.{set_key}
use auto_jobs_apply.Documents.SkillList.{get_key}
use auto_jobs_apply.Documents.Dicts.{get_key-set_key, get_key-set_key_other}
use auto_jobs_apply.Documents.Letters.{
  CoverLetterTemplate, template_value, Llm, generate_letter_content,
}
use auto_jobs_apply.Documents.Generating.{
  Renderers, GeneratedDocument, Temp, out_path, render_formats, context_of, generate_resume, chosen,
  render_cover_letter_pdf, generate_cover_letter,
}
use auto_jobs_apply.Documents.Rendered.{
  attempt, made, render_formats-made, out_path-truthy, out_path_apart,
}

-- Content of a format that was rendered is in the file of its path; of one that was not there is no
-- path.
abbrev pub IsFiled : Option String → Option String → Temp → Type 0
IsFiled none path temp = path ≡ none
IsFiled (some content) path temp = (p : String) × (path ≡ some p) × (get_key p temp ≡ some content)

abbrev pub IsMade :
    String → Option String → Option String → Temp → Result GeneratedDocument × Temp → Type 0
IsMade template pdf docx before (err e, temp) =
    (e ≡ generation) × (pdf ≡ none) × (docx ≡ none) × (temp ≡ before)
IsMade template pdf docx before (ok doc, temp) =
    (doc.template ≡ template)
    × (is_set doc.pdf_path || is_set doc.docx_path ≡ true)
    × IsFiled pdf doc.pdf_path temp
    × IsFiled docx doc.docx_path temp

made-IsMade :
    (folder type_name template doc_id : String) (pdf docx : Option String) (temp : Temp)
    → IsMade template pdf docx temp (made folder type_name template doc_id pdf docx temp)
made-IsMade folder type_name template doc_id none none temp = (refl, refl, refl, refl)
made-IsMade folder type_name template doc_id none (some d) temp =
    let path = out_path folder doc_id ".docx" in
    (refl, out_path-truthy folder doc_id ".docx", refl, (path, refl, get_key-set_key path d temp))
made-IsMade folder type_name template doc_id (some p) none temp =
    let path = out_path folder doc_id ".pdf" in
    (
      refl,
      rw (out_path-truthy folder doc_id ".pdf"),
      (path, refl, get_key-set_key path p temp),
      refl,
    )
made-IsMade folder type_name template doc_id (some p) (some d) temp =
    let first = out_path folder doc_id ".pdf" in
    let second = out_path folder doc_id ".docx" in
    (
      refl,
      rw (out_path-truthy folder doc_id ".pdf"),
      (
        first,
        refl,
        get_key-set_key_other second d first (set_key first p temp) (out_path_apart folder doc_id)
            ∙ get_key-set_key first p temp,
      ),
      (second, refl, get_key-set_key second d (set_key first p temp)),
    )

module _ {ResumeData : Type 0} (r : Renderers ResumeData) (llm : Option (Llm ResumeData)) where
  -- Whatever the language model answers or raises, `generate_resume` renders the requested formats
  -- (both, if none is requested) of the tailored data, or of the given data where there is no
  -- tailored one. It raises GenerationError, without a file, exactly when no requested format can
  -- be rendered; else the document has a path, and each format that was rendered, and no other, has
  -- its content in the file of its path.
  pub generate_resume-IsMade :
      (doc_id : String) (resume_data : ResumeData) (job_description template_name : String)
      (formats : List String) (temp : Temp)
      → let context = context_of llm resume_data job_description in
        IsMade template_name
          (attempt "pdf" formats (r.resume_pdf template_name context))
          (attempt "docx" formats (r.resume_docx template_name context))
          temp
          (generate_resume r llm doc_id resume_data job_description template_name formats temp)
  unfolding generate_resume
  generate_resume-IsMade doc_id resume_data job_description template_name formats temp =
      let context = context_of llm resume_data job_description in
      let pdf = r.resume_pdf template_name context in
      let docx = r.resume_docx template_name context in
      rw (render_formats-made "resumes/" "resume" template_name doc_id formats pdf docx temp) (
        made-IsMade "resumes/" "resume" template_name doc_id (attempt "pdf" formats pdf)
          (attempt "docx" formats docx) temp)

  -- A letter needs its text: what the language model raises, `generate_cover_letter` raises.
  abbrev pub IsLetter :
      TextTools
      → CoverLetterTemplate
      → List String
      → Temp
      → Result String
      → Result GeneratedDocument × Temp
      → Type 0
  IsLetter t style formats before (err e) outcome = outcome ≡ (err e, before)
  IsLetter t style formats before (ok content) outcome =
      IsMade (template_value style)
        (attempt "pdf" formats (render_cover_letter_pdf r llm t content style))
        (attempt "docx" formats (r.letter_docx content)) before outcome

  -- `generate_cover_letter` raises what the language model raises for the text of the letter, with
  -- no file; with a text, the model's or the fallback where there is no model, it raises
  -- GenerationError exactly when no requested format of it can be rendered, and else files each
  -- format that was rendered.
  pub generate_cover_letter-IsLetter :
      (t : TextTools) (doc_id resume_text job_description company_info : String)
      (template : Option CoverLetterTemplate) (formats : List String) (temp : Temp)
      → let style = chosen r llm t template job_description in
        IsLetter t style formats temp
          (generate_letter_content llm style job_description resume_text company_info)
          (generate_cover_letter r llm t doc_id resume_text job_description company_info template
            formats temp)
  unfolding generate_cover_letter
  generate_cover_letter-IsLetter t doc_id resume_text job_description company_info template formats
        temp =
      let style = chosen r llm t template job_description in
      lettered style (generate_letter_content llm style job_description resume_text company_info)
    where
      lettered :
          (style : CoverLetterTemplate) (text : Result String)
          → IsLetter t style formats temp text (
              (lift text >>= λ content.
              render_formats "cover_letters/" "cover_letter"
                (template_value style)
                doc_id
                formats
                (render_cover_letter_pdf r llm t content style)
                (r.letter_docx content))
                temp)
      lettered style (err e) = refl
      lettered style (ok content) =
          let pdf = render_cover_letter_pdf r llm t content style in
          rw
            (render_formats-made "cover_letters/" "cover_letter" (template_value style) doc_id
              formats pdf (r.letter_docx content) temp)
            (made-IsMade "cover_letters/" "cover_letter" (template_value style) doc_id
              (attempt "pdf" formats pdf) (attempt "docx" formats (r.letter_docx content)) temp)
