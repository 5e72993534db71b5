-- ===== src/Documents/Generating.antt =====
-- `DocumentGenerator` of backend/app/core/documents/generator.py. What WeasyPrint, Jinja and
-- python-docx make of a document, the bytes of its file or an exception, is the record `Renderers`.
use auto_jobs_apply.Prelude.{
  String, Bool, false, ◌&&◌, ◌||◌, Option, none, some, List, [], ◌∷◌, any, is_set, is_some, truthy,
  str_eq, if◌then◌else◌,
}
use Prim.Native.String.{◌++◌}
use auto_jobs_apply.Tx.{Result, Tx, ok, err, generation, pure, raise, lift, ◌>>=◌}
use auto_jobs_apply.Ats.{TextTools}
use auto_jobs_apply.Documents.Texts.{split_at_pair}
use auto_jobs_apply.Documents.Sections.{Dict, set_key}
use auto_jobs_apply.Documents.Letters.{
  CoverLetterTemplate, template_value, select_best_template, Llm, generate_letter_content,
  paragraphs_html, text_to_html,
}

pub record Renderers (ResumeData : Type 0) : Type 0 where
  pub resume_pdf : String → ResumeData → Result String
  pub resume_docx : String → ResumeData → Result String
  pub letter_docx : String → Result String
  -- The page and the style sheet.
  pub html_pdf : String → Option String → Result String
  -- The template of a letter and its style sheet, where the template is a file.
  pub letter_template : CoverLetterTemplate → Option ((String → String) × Option String)
  pub escape : String → String

pub record GeneratedDocument : Type 0 where
  pub document_id : String
  pub type_name : String
  pub template : String
  pub pdf_path : Option String
  pub docx_path : Option String

-- The files under `data/generated`, by their path.
abbrev pub Temp : Type 0
Temp = Dict

abbrev pub out_path : String → String → String → String
out_path folder doc_id ext = "data/generated/" ++ (folder ++ (doc_id ++ ext))

-- A task of `asyncio.gather(…, return_exceptions=True)`, and what the loop after it makes of the
-- result.
abbrev pub written : String → Result String → Tx Temp (Option String)
written path (ok content) temp = (ok (some path), set_key path content temp)
written path (err e) temp = (ok none, temp)

abbrev pub rendered : Bool → String → Result String → Tx Temp (Option String)
rendered requested path outcome = if requested then written path outcome else pure none

abbrev pub default_formats : List String → List String
default_formats [] = "pdf" ∷ "docx" ∷ []
default_formats (f ∷ formats) = f ∷ formats

abbrev pub requests : String → List String → Bool
requests format formats = any (λ f. str_eq f format) (default_formats formats)

-- The rendering that the two generators share: the folder, the type, the template, the id, and what
-- each renderer makes of the content.
unfoldable pub render_formats :
    String
    → String
    → String
    → String
    → List String
    → Result String
    → Result String
    → Tx Temp GeneratedDocument
render_formats folder type_name template doc_id formats pdf docx = do
  pdf_path ← rendered (requests "pdf" formats) (out_path folder doc_id ".pdf") pdf
  docx_path ← rendered (requests "docx" formats) (out_path folder doc_id ".docx") docx
  if is_set pdf_path || is_set docx_path
      then pure (record {
        document_id = doc_id;
        type_name = type_name;
        template = template;
        pdf_path = pdf_path;
        docx_path = docx_path;
      })
      else raise generation

module _ {ResumeData : Type 0} where
  abbrev pub tailored_or : ResumeData → Result ResumeData → ResumeData
  tailored_or resume_data (ok tailored) = tailored
  tailored_or resume_data (err e) = resume_data

  -- `_tailor_resume`
  unfoldable pub tailor_resume : Option (Llm ResumeData) → ResumeData → String → ResumeData
  tailor_resume none resume_data job_description = resume_data
  tailor_resume (some llm) resume_data job_description =
      tailored_or resume_data (llm.tailor resume_data job_description)

  abbrev pub context_of : Option (Llm ResumeData) → ResumeData → String → ResumeData
  context_of llm resume_data job_description =
      if is_some llm && truthy job_description
      then tailor_resume llm resume_data job_description
      else resume_data

  module _ (r : Renderers ResumeData) (llm : Option (Llm ResumeData)) where
    unfoldable pub generate_resume :
        String → ResumeData → String → String → List String → Tx Temp GeneratedDocument
    generate_resume doc_id resume_data job_description template_name formats =
        let context = context_of llm resume_data job_description in
        render_formats "resumes/" "resume" template_name doc_id formats
          (r.resume_pdf template_name context) (r.resume_docx template_name context)

    abbrev pub inline_page : TextTools → String → String
    inline_page t content =
        "<html><body style='font-family:Georgia,serif;font-size:12pt;margin:1in;line-height:1.6;'>"
        ++ (text_to_html t content ++ "</body></html>")

    abbrev pub page_pdf :
        TextTools → String → Option ((String → String) × Option String) → Result String
    page_pdf t content none = r.html_pdf (inline_page t content) none
    page_pdf t content (some (page, css)) =
        r.html_pdf (page (paragraphs_html t.strip r.escape (split_at_pair b'\n' content))) css

    -- `_render_cover_letter_pdf`
    unfoldable pub render_cover_letter_pdf :
        TextTools → String → CoverLetterTemplate → Result String
    render_cover_letter_pdf t content template = page_pdf t content (r.letter_template template)

    abbrev pub chosen : TextTools → Option CoverLetterTemplate → String → CoverLetterTemplate
    chosen t none job_description = select_best_template t "" job_description false false
    chosen t (some template) job_description = template

    unfoldable pub generate_cover_letter :
        TextTools
        → String
        → String
        → String
        → String
        → Option CoverLetterTemplate
        → List String
        → Tx Temp GeneratedDocument
    generate_cover_letter t doc_id resume_text job_description company_info template formats = do
      let style = chosen t template job_description
      content ← lift (generate_letter_content llm style job_description resume_text company_info)
      render_formats "cover_letters/" "cover_letter" (template_value style) doc_id formats
          (render_cover_letter_pdf t content style) (r.letter_docx content)
