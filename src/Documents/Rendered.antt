-- ===== src/Documents/Rendered.antt =====
-- What `DocumentGenerator` answers, by what the renderers make of each format.
use auto_jobs_apply.Prelude.{
  String, Bool, true, false, ◌||◌, ◌≡◌, refl, sym, ap, ◌∙◌, inl, inr, Option, none, some, List,
  is_set, is_some, truthy, str_eq, str_eq→eq, if◌then◌else◌, Bool-cases,
}
use Prim.Native.String.{◌++◌}
use text.Mathlib.TextLemmas.{append_cancel_left, cons-append, cons≢nil}
use auto_jobs_apply.Tx.{Result, ok, err, generation, pure, raise}
use auto_jobs_apply.Documents.Sections.{set_key}
use auto_jobs_apply.Documents.Generating.{
  GeneratedDocument, Temp, out_path, rendered, requests, render_formats,
}

abbrev pub if_ok : Result String → Option String
if_ok (ok content) = some content
if_ok (err e) = none

-- The content of the file of a format, if it is requested and rendered.
abbrev pub attempt : String → List String → Result String → Option String
attempt format formats outcome = if requests format formats then if_ok outcome else none

abbrev pub path_of : String → Option String → Option String
path_of path none = none
path_of path (some content) = some path

abbrev pub with_file : String → Option String → Temp → Temp
with_file path none temp = temp
with_file path (some content) temp = set_key path content temp

pub out_path-truthy : (folder id ext : String) → truthy (out_path folder id ext) ≡ true
out_path-truthy folder id ext = elim (Bool-cases (str_eq (out_path folder id ext) "")) [
  | inl e ↦ absurd (
      cons≢nil (
        sym (cons-append "d" "ata/generated/" (folder ++ (id ++ ext)))
        ∙ str_eq→eq (out_path folder id ext) "" e))
  | inr e ↦ rw e
]

pub false≢true : false ≡ true → ⊥
false≢true e = cc e

pub out_path_apart :
    (folder id : String) → str_eq (out_path folder id ".docx") (out_path folder id ".pdf") ≡ false
out_path_apart folder id =
    elim (Bool-cases (str_eq (out_path folder id ".docx") (out_path folder id ".pdf"))) [
      | inl e ↦
          let same : ".docx" ≡ ".pdf" = append_cancel_left id ".docx" ".pdf" (
            append_cancel_left folder (id ++ ".docx") (id ++ ".pdf") (
              append_cancel_left "data/generated/" (folder ++ (id ++ ".docx"))
                (folder ++ (id ++ ".pdf"))
                (str_eq→eq (out_path folder id ".docx") (out_path folder id ".pdf") e))) in
          absurd (false≢true (ap (λ ext. str_eq ext ".pdf") same))
      | inr e ↦ e
    ]

rendered-eq :
    (format path : String) (formats : List String) (outcome : Result String) (temp : Temp)
    → let content = attempt format formats outcome in
      rendered (requests format formats) path outcome temp
      ≡ (ok (path_of path content), with_file path content temp)
rendered-eq format path formats outcome temp = elim (Bool-cases (requests format formats)) [
  | inl e ↦ rw e (tried outcome)
  | inr e ↦ rw e
]
  where
    tried :
        (outcome : Result String)
        → rendered true path outcome temp
          ≡ (ok (path_of path (if_ok outcome)), with_file path (if_ok outcome) temp)
    tried (ok content) = refl
    tried (err e) = refl

module _ (folder type_name template doc_id : String) where
  abbrev pub pdf_out : String
  pdf_out = out_path folder doc_id ".pdf"

  abbrev pub docx_out : String
  docx_out = out_path folder doc_id ".docx"

  -- The document of the contents, and the files afterwards.
  abbrev pub made : Option String → Option String → Temp → Result GeneratedDocument × Temp
  made pdf docx temp =
      if is_some pdf || is_some docx
      then (
        ok (record {
          document_id = doc_id;
          type_name = type_name;
          template = template;
          pdf_path = path_of pdf_out pdf;
          docx_path = path_of docx_out docx;
        }),
        with_file docx_out docx (with_file pdf_out pdf temp),
      )
      else (err generation, temp)

  set_some :
      (ext : String) (content : Option String)
      → is_set (path_of (out_path folder doc_id ext) content) ≡ is_some content
  set_some ext none = refl
  set_some ext (some content) = out_path-truthy folder doc_id ext

  pub render_formats-made :
      (formats : List String) (pdf docx : Result String) (temp : Temp)
      → render_formats folder type_name template doc_id formats pdf docx temp
        ≡ made (attempt "pdf" formats pdf) (attempt "docx" formats docx) temp
  unfolding render_formats
  render_formats-made formats pdf docx temp =
      let p = attempt "pdf" formats pdf in
      rw
        (
          rendered-eq "pdf" pdf_out formats pdf temp,
          rendered-eq "docx" docx_out formats docx (with_file pdf_out p temp),
          set_some ".pdf" p,
          set_some ".docx" (attempt "docx" formats docx),
        )
        (by_contents (is_some p || is_some (attempt "docx" formats docx)) p
          (attempt "docx" formats docx) refl)
    where
      by_contents :
          (b : Bool) (p d : Option String)
          → is_some p || is_some d ≡ b
          → (if b
                then pure (record {
                  document_id = doc_id;
                  type_name = type_name;
                  template = template;
                  pdf_path = path_of pdf_out p;
                  docx_path = path_of docx_out d;
                })
                else raise generation)
              (with_file docx_out d (with_file pdf_out p temp))
            ≡ made p d temp
      by_contents true p d e = rw e
      by_contents false none none e = refl
      by_contents false none (some d) e = cc e
      by_contents false (some p) d e = cc e
