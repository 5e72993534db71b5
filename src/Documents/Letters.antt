-- ===== src/Documents/Letters.antt =====
-- backend/app/core/llm/prompts/cover_letter.py: the template of a cover letter; and the letter's text
-- in backend/app/core/documents/generator.py.
use auto_jobs_apply.Prelude.{
  String, Bool, false, ◌||◌, ◌≡◌, ◌⊎◌, refl, inl, inr, Option, none, some, List, [], ◌∷◌, any,
  contains, truthy, if◌then◌else◌, Bool-cases,
}
use Prim.Native.String.{◌++◌}
use auto_jobs_apply.Tx.{Result, ok}
use auto_jobs_apply.Ats.{TextTools}
use auto_jobs_apply.Documents.Texts.{split_at_pair}

pub data CoverLetterTemplate : Type 0 where
  standard technical creative executive career_change referral : CoverLetterTemplate

abbrev pub template_value : CoverLetterTemplate → String
template_value standard = "standard"
template_value technical = "technical"
template_value creative = "creative"
template_value executive = "executive"
template_value career_change = "career_change"
template_value referral = "referral"

abbrev pub executive_keywords : List String
executive_keywords =
    "vp" ∷ "vice president" ∷ "director" ∷ "chief" ∷ "head of" ∷ "cto" ∷ "ceo" ∷ "cfo" ∷ "coo"
    ∷ "svp" ∷ "evp" ∷ "partner" ∷ "president" ∷ "managing director" ∷ []

abbrev pub technical_keywords : List String
technical_keywords =
    "engineer" ∷ "developer" ∷ "architect" ∷ "devops" ∷ "sre" ∷ "data scientist"
    ∷ "machine learning" ∷ "software" ∷ "backend" ∷ "frontend" ∷ "fullstack" ∷ "full-stack"
    ∷ "platform" ∷ "infrastructure" ∷ "security engineer" ∷ "cloud engineer" ∷ "mlops" ∷ []

abbrev pub creative_keywords : List String
creative_keywords =
    "designer" ∷ "creative" ∷ "content" ∷ "copywriter" ∷ "brand" ∷ "ux" ∷ "ui" ∷ "art director"
    ∷ "marketing" ∷ "social media" ∷ "storytelling" ∷ "editorial" ∷ []

unfoldable pub select_best_template :
    TextTools → String → String → Bool → Bool → CoverLetterTemplate
select_best_template t job_title job_description is_career_change has_referral =
    let title_lower = t.lower job_title in
    let desc_lower = t.lower job_description in
    if has_referral
    then referral
    else if is_career_change
    then career_change
    else if any (contains title_lower) executive_keywords
    then executive
    else if any (contains title_lower) technical_keywords
    then technical
    else if any (λ kw. contains title_lower kw || contains desc_lower kw) creative_keywords
    then creative
    else standard

-- `_fallback_cover_letter`
abbrev pub fallback_cover_letter : String → String
fallback_cover_letter job_description =
    "Dear Hiring Manager,\n\nI am writing to express my strong interest in this position. My background and skills align well with the requirements outlined in the job description.\n\nI look forward to discussing how my experience can contribute to your team's success.\n\nSincerely,\n[Your Name]"

-- The two calls of a language model: the resume tailored to a job description, and the letter for
-- the prompt that `render_prompt` makes of the template, the description, the resume and the company.
pub record Llm (ResumeData : Type 0) : Type 0 where
  pub tailor : ResumeData → String → Result ResumeData
  pub letter : CoverLetterTemplate → String → String → String → Result String

-- `_generate_letter_content`
unfoldable pub generate_letter_content :
    {ResumeData : Type 0}
    → Option (Llm ResumeData)
    → CoverLetterTemplate
    → String
    → String
    → String
    → Result String
generate_letter_content none template job_description resume_text company_info =
    ok (fallback_cover_letter job_description)
generate_letter_content (some llm) template job_description resume_text company_info =
    llm.letter template job_description resume_text company_info

-- `p.strip() for p in paragraphs if p.strip()`, each in its tag; `escape` is `Markup.escape` where
-- there is a template.
abbrev pub paragraphs_html : (String → String) → (String → String) → List String → String
paragraphs_html strip escape [] = ""
paragraphs_html strip escape (p ∷ paragraphs) =
    let rest = paragraphs_html strip escape paragraphs in
    if truthy (strip p) then "<p>" ++ (escape (strip p) ++ ("</p>" ++ rest)) else rest

-- `_text_to_html`
unfoldable pub text_to_html : TextTools → String → String
text_to_html t text = paragraphs_html t.strip (λ p. p) (split_at_pair b'\n' text)

-- With the empty title with which `generate_cover_letter` calls it, whose lower case is empty too,
-- `select_best_template` chooses creative or standard, whatever the job: never a technical or an
-- executive letter.
pub select_best_template_untitled :
    (t : TextTools) (job_description : String)
    → t.lower "" ≡ ""
    → let template = select_best_template t "" job_description false false in
      (template ≡ creative) ⊎ (template ≡ standard)
unfolding select_best_template
select_best_template_untitled t job_description h =
    rw h
      (elim (Bool-cases
        (any (λ kw. contains "" kw || contains (t.lower job_description) kw) creative_keywords)) [
          | inl e ↦ rw e (inl refl)
          | inr e ↦ rw e (inr refl)
        ])
