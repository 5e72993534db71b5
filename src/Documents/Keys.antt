-- ===== src/Documents/Keys.antt =====
-- The keys of stored documents: in the tree of their tenant, not empty, and apart by format.
use auto_jobs_apply.Prelude.{
  String, Bool, true, false, ◌||◌, ◌≡◌, refl, sym, ap, ◌∙◌, inl, inr, str_eq, str_eq→eq, truthy,
  Bool-cases,
}
use Prim.Native.String.{◌++◌}
use text.Mathlib.TextLemmas.{append_assoc, append_cancel_left, cons-append, cons≢nil}
use auto_jobs_apply.Storage.{user_prefix, document_key, is_within}
use auto_jobs_apply.Storage.Tenants.{tree_own}
use auto_jobs_apply.Documents.Rendered.{false≢true}

pub document_key-is_within :
    (folder user_id id ext : String)
    → is_within user_id (document_key ("/" ++ folder) user_id id ext) ≡ true
unfolding is_within
document_key-is_within folder user_id id ext =
    let rest = folder ++ (id ++ ("." ++ ext)) in
    let key = document_key ("/" ++ folder) user_id id ext in
    let same : key ≡ user_prefix user_id ++ ("/" ++ rest) =
      ap (λ tail. user_prefix user_id ++ tail) (append_assoc "/" folder (id ++ ("." ++ ext))) in
    rw same (
      rw (tree_own user_id rest)
        (or_true (str_eq (user_prefix user_id ++ ("/" ++ rest)) (user_prefix user_id))))
  where
    or_true : (b : Bool) → b || true ≡ true
    or_true true = refl
    or_true false = refl

pub document_key-truthy :
    (folder user_id id ext : String) → truthy (document_key folder user_id id ext) ≡ true
document_key-truthy folder user_id id ext =
    let key = document_key folder user_id id ext in
    let rest = folder ++ (id ++ ("." ++ ext)) in
    elim (Bool-cases (str_eq key "")) [
      | inl e ↦ absurd (
          cons≢nil (
            sym (cons-append "u" "sers/" (user_id ++ rest))
            ∙ sym (append_assoc "users/" user_id rest)
            ∙ str_eq→eq key "" e))
      | inr e ↦ rw e
    ]

pub document_key_apart :
    (folder user_id id : String)
    → str_eq (document_key folder user_id id "docx") (document_key folder user_id id "pdf") ≡ false
document_key_apart folder user_id id =
    let a = document_key folder user_id id "docx" in
    let b = document_key folder user_id id "pdf" in
    elim (Bool-cases (str_eq a b)) [
      | inl e ↦
          let same : ".docx" ≡ ".pdf" = append_cancel_left id ".docx" ".pdf" (
            append_cancel_left folder (id ++ ".docx") (id ++ ".pdf") (
              append_cancel_left (user_prefix user_id) (folder ++ (id ++ ".docx"))
                (folder ++ (id ++ ".pdf")) (str_eq→eq a b e))) in
          absurd (false≢true (ap (λ ext. str_eq ext ".pdf") same))
      | inr e ↦ e
    ]
