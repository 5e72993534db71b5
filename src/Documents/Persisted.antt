-- ===== src/Documents/Persisted.antt =====
-- A document that was generated and stored can be read under its keys.
use auto_jobs_apply.Prelude.{
  String, true, false, ◌||◌, ◌≡◌, refl, sym, ◌∙◌, inl, inr, Option, none, some, delete, str_eq,
  str_eq→eq, str_eq_self, is_some, truthy, Bool-cases,
}
use auto_jobs_apply.Tx.{Result, ok, err, generation}
use auto_jobs_apply.Storage.{FileStorage, StoredObject, is_within}
use auto_jobs_apply.Storage.Service.{put, get}
use auto_jobs_apply.Documents.Sections.{key_is, set_key}
use auto_jobs_apply.Documents.SkillList.{get_key}
use auto_jobs_apply.Documents.Dicts.{get_key-delete_other, get_key-set_key, get_key-set_key_other}
use auto_jobs_apply.Documents.Generating.{Temp, GeneratedDocument, out_path}
use auto_jobs_apply.Documents.Rendered.{made, out_path-truthy, out_path_apart}
use auto_jobs_apply.Documents.Storing.{
  Disk, moved, key_fn, persist_generated_document, pdf_content_type, docx_content_type,
}
use auto_jobs_apply.Documents.Keys.{document_key-is_within, document_key-truthy, document_key_apart}

module _ {Files : Type 0} (storage : FileStorage Files) (user_id : String) where
  -- The storage takes a file under any plain key, whatever its content.
  abbrev pub Accepts : Type 0
  Accepts =
      (key content content_type : String) (files : Files)
      → storage.is_plain key ≡ true
      → (o : StoredObject) × ((storage.put key content content_type files).0 ≡ ok o)

  abbrev after_put : String → String → String → Files → Files
  after_put key content content_type files = (storage.put key content content_type files).1

  moved_file :
      (key content_type path content : String) (disk : Disk Files)
      → Accepts
      → storage.is_plain key ≡ true
      → is_within user_id key ≡ true
      → truthy path ≡ true
      → get_key path disk.temp ≡ some content
      → moved storage user_id key content_type (some path) disk ≡ (
        ok (some key),
        record {
          temp = delete (key_is path) disk.temp;
          files = after_put key content content_type disk.files;
        },
      )
  unfolding put
  moved_file key content_type path content disk accepts plain own set found =
      let (o, stored) = accepts key content content_type disk.files plain in
      rw (set, found, own, stored)

  -- What was stored is read back by its tenant; of what was not made there is no key.
  abbrev pub IsKept : Option String → Option String → Files → Type 0
  IsKept none key files = key ≡ none
  IsKept (some content) key files =
      (k : String) × (key ≡ some k)
      × (truthy k ≡ true)
      × ((get storage user_id k files).0 ≡ ok content)

  abbrev keys_of : String → String → String → String
  keys_of type_name doc_id ext = key_fn storage user_id type_name user_id doc_id ext

  keys_of-is_within :
      (type_name doc_id ext : String) → is_within user_id (keys_of type_name doc_id ext) ≡ true
  keys_of-is_within type_name doc_id ext = elim (Bool-cases (str_eq type_name "cover_letter")) [
    | inl e ↦ rw e (document_key-is_within "cover_letters/" user_id doc_id ext)
    | inr e ↦ rw e (document_key-is_within "resumes/" user_id doc_id ext)
  ]

  keys_of-truthy : (type_name doc_id ext : String) → truthy (keys_of type_name doc_id ext) ≡ true
  keys_of-truthy type_name doc_id ext = elim (Bool-cases (str_eq type_name "cover_letter")) [
    | inl e ↦ rw e (document_key-truthy "/cover_letters/" user_id doc_id ext)
    | inr e ↦ rw e (document_key-truthy "/resumes/" user_id doc_id ext)
  ]

  keys_of_apart :
      (type_name doc_id : String)
      → str_eq (keys_of type_name doc_id "docx") (keys_of type_name doc_id "pdf") ≡ false
  keys_of_apart type_name doc_id = elim (Bool-cases (str_eq type_name "cover_letter")) [
    | inl e ↦ rw e (document_key_apart "/cover_letters/" user_id doc_id)
    | inr e ↦ rw e (document_key_apart "/resumes/" user_id doc_id)
  ]

  -- The service stores the document, if one was generated.
  abbrev pub persisted :
      Result GeneratedDocument × Temp → Files → Result (Option String × Option String) × Disk Files
  persisted (err e, temp) files = (err e, record { temp = temp; files = files })
  persisted (ok doc, temp) files =
      persist_generated_document storage user_id doc (record { temp = temp; files = files })

  abbrev pub IsPersisted :
      Option String
      → Option String
      → Files
      → Result (Option String × Option String) × Disk Files
      → Type 0
  IsPersisted pdf docx before (err e, disk) =
      (e ≡ generation) × (pdf ≡ none) × (docx ≡ none) × (disk.files ≡ before)
  IsPersisted pdf docx before (ok (pdf_key, docx_key), disk) =
      (is_some pdf || is_some docx ≡ true)
      × IsKept pdf pdf_key disk.files
      × IsKept docx docx_key disk.files

  module _ (accepts : Accepts) (folder type_name template doc_id : String) where
    abbrev pdf_file : String
    pdf_file = out_path folder doc_id ".pdf"

    abbrev docx_file : String
    docx_file = out_path folder doc_id ".docx"

    abbrev pdf_name : String
    pdf_name = keys_of type_name doc_id "pdf"

    abbrev docx_name : String
    docx_name = keys_of type_name doc_id "docx"

    pdf_moved :
        (content : String) (disk : Disk Files)
        → storage.is_plain pdf_name ≡ true
        → get_key pdf_file disk.temp ≡ some content
        → moved storage user_id pdf_name pdf_content_type (some pdf_file) disk ≡ (
          ok (some pdf_name),
          record {
            temp = delete (key_is pdf_file) disk.temp;
            files = after_put pdf_name content pdf_content_type disk.files;
          },
        )
    pdf_moved content disk plain =
        moved_file pdf_name pdf_content_type pdf_file content disk accepts plain
          (keys_of-is_within type_name doc_id "pdf") (out_path-truthy folder doc_id ".pdf")

    docx_moved :
        (content : String) (disk : Disk Files)
        → storage.is_plain docx_name ≡ true
        → get_key docx_file disk.temp ≡ some content
        → moved storage user_id docx_name docx_content_type (some docx_file) disk ≡ (
          ok (some docx_name),
          record {
            temp = delete (key_is docx_file) disk.temp;
            files = after_put docx_name content docx_content_type disk.files;
          },
        )
    docx_moved content disk plain =
        moved_file docx_name docx_content_type docx_file content disk accepts plain
          (keys_of-is_within type_name doc_id "docx") (out_path-truthy folder doc_id ".docx")

    reads_back :
        (ext content content_type : String) (files : Files)
        → let key = keys_of type_name doc_id ext in
          storage.is_plain key ≡ true
          → (get storage user_id key (after_put key content content_type files)).0 ≡ ok content
    unfolding get
    reads_back ext content content_type files plain =
        let key = keys_of type_name doc_id ext in
        let (o, stored) = accepts key content content_type files plain in
        rw (keys_of-is_within type_name doc_id ext)
          (storage.put_gets key content content_type o files plain stored)

    reads_pdf_still :
        (pdf docx : String) (files : Files)
        → storage.is_plain pdf_name ≡ true
        → storage.is_plain docx_name ≡ true
        → (get storage user_id pdf_name (
            after_put docx_name docx docx_content_type
              (after_put pdf_name pdf pdf_content_type files))).0
          ≡ ok pdf
    unfolding get
    reads_pdf_still pdf docx files plain plain' =
        let (o, stored) = accepts pdf_name pdf pdf_content_type files plain in
        rw (keys_of-is_within type_name doc_id "pdf") (
          storage.put_keeps docx_name docx docx_content_type pdf_name
            (after_put pdf_name pdf pdf_content_type files) plain' plain
            (keys_of_apart type_name doc_id)
          ∙ storage.put_gets pdf_name pdf pdf_content_type o files plain stored)

    docx_after_pdf :
        (pdf docx : String) (temp : Temp)
        → get_key docx_file
            (delete (key_is pdf_file) (set_key docx_file docx (set_key pdf_file pdf temp)))
          ≡ some docx
    docx_after_pdf pdf docx temp =
        get_key-delete_other pdf_file docx_file (set_key docx_file docx (set_key pdf_file pdf temp))
          (elim (Bool-cases (str_eq pdf_file docx_file)) [
            | inl e ↦ absurd (
                cc (
                  rw (sym (str_eq→eq pdf_file docx_file e), str_eq_self pdf_file) at
                    (out_path_apart folder doc_id)))
            | inr e ↦ e
          ])
        ∙ get_key-set_key docx_file docx (set_key pdf_file pdf temp)

    pub made-IsPersisted :
        (pdf docx : Option String) (temp : Temp) (files : Files)
        → storage.is_plain pdf_name ≡ true
        → storage.is_plain docx_name ≡ true
        → IsPersisted pdf docx files
            (persisted (made folder type_name template doc_id pdf docx temp) files)
    unfolding persist_generated_document
    made-IsPersisted none none temp files plain plain' = (refl, refl, refl, refl)
    made-IsPersisted none (some d) temp files plain plain' =
        let start : Disk Files = record { temp = set_key docx_file d temp; files = files } in
        rw (docx_moved d start plain' (get_key-set_key docx_file d temp)) (
          refl,
          refl,
          (
            docx_name,
            refl,
            keys_of-truthy type_name doc_id "docx",
            reads_back "docx" d docx_content_type files plain',
          ),
        )
    made-IsPersisted (some p) none temp files plain plain' =
        let start : Disk Files = record { temp = set_key pdf_file p temp; files = files } in
        rw (pdf_moved p start plain (get_key-set_key pdf_file p temp)) (
          refl,
          (
            pdf_name,
            refl,
            keys_of-truthy type_name doc_id "pdf",
            reads_back "pdf" p pdf_content_type files plain,
          ),
          refl,
        )
    made-IsPersisted (some p) (some d) temp files plain plain' =
        let both = set_key docx_file d (set_key pdf_file p temp) in
        let start : Disk Files = record { temp = both; files = files } in
        let stored = after_put pdf_name p pdf_content_type files in
        let next : Disk Files = record { temp = delete (key_is pdf_file) both; files = stored } in
        rw
          (
            pdf_moved p start plain (
                get_key-set_key_other docx_file d pdf_file (set_key pdf_file p temp)
                  (out_path_apart folder doc_id)
                ∙ get_key-set_key pdf_file p temp),
            docx_moved d next plain' (docx_after_pdf p d temp),
          )
          (
            refl,
            (
              pdf_name,
              refl,
              keys_of-truthy type_name doc_id "pdf",
              reads_pdf_still p d files plain plain',
            ),
            (
              docx_name,
              refl,
              keys_of-truthy type_name doc_id "docx",
              reads_back "docx" d docx_content_type stored plain',
            ),
          )
