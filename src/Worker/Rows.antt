-- ===== src/Worker/Rows.antt =====
-- The row that the apply task works on, and what saving it leaves.
use auto_jobs_apply.Prelude.{
  String, true, ◌≡◌, sym, ap, ◌∙◌, subst, inl, inr, Option, some, List, [], ◌∷◌, Bool-cases, select,
  update, first, first-select-holds, str_eq→eq, str_eq_self,
}
use auto_jobs_apply.Tx.{ok}
use auto_jobs_apply.Models.{Application, Store, is_active}
use auto_jobs_apply.Applications.Index.{IsConsistent, has_id}
use auto_jobs_apply.Applications.Review.{save}
use auto_jobs_apply.Applications.Review.Outcome.{replaced, save_lem, save-IsConsistent}
use auto_jobs_apply.Worker.{Env}

-- The row with this id, as the worker loads it.
abbrev pub row : String → Env → Option Application
row i env = first (select (has_id i) env.store.applications)

-- The table is consistent and the row with the id `i` is `a`.
pub record Row (i : String) (env : Env) (a : Application) : Type 0 where
  pub table : IsConsistent env.store.applications
  pub found : row i env ≡ some a

abbrev pub SameKey : Application → Application → Type 0
SameKey a r = (a.id ≡ r.id) × (a.user_id ≡ r.user_id) × (a.job_id ≡ r.job_id)

pub row-update :
    (i : String) (a : Application) (rows : List Application) {r : Application}
    → first (select (has_id i) rows) ≡ some r
    → a.id ≡ i
    → first (select (has_id i) (update (has_id i) (λ _. a) rows)) ≡ some a
row-update i a [] h e = cc
row-update i a (x ∷ rows) h e = elim (Bool-cases (has_id i x)) [
  | inl f ↦ rw (f, e, str_eq_self i)
  | inr f ↦ rw (f, f) (row-update i a rows (rw f at h) e)
]

abbrev pub with_row : Application → Env → Env
with_row a env = record env { store = replaced a env.store }

row-id : (i : String) (env : Env) {r : Application} → row i env ≡ some r → r.id ≡ i
row-id i env {r} h = str_eq→eq r.id i (first-select-holds (has_id i) env.store.applications h)

pub saved_lem :
    (i : String) (env : Env) (a r : Application)
    → Row i env r
    → is_active r ≡ true
    → SameKey a r
    → save a env.store ≡ (ok a, replaced a env.store)
saved_lem i env a r h act key = save_lem (has_id i) a r env.store h.table h.found act key

pub with_row-Row :
    (i : String) (env : Env) (a r : Application)
    → Row i env r
    → is_active r ≡ true
    → SameKey a r
    → Row i (with_row a env) a
with_row-Row i env a r h act key =
    let same : a.id ≡ i = key.0 ∙ row-id i env h.found in
    record {
      table =
          subst (λ (s : Store). IsConsistent s.applications)
            (ap (λ x. x.1) (save_lem (has_id i) a r env.store h.table h.found act key))
            (save-IsConsistent a env.store h.table);
      found =
          subst
            (λ k.
              first (select (has_id i) (update (has_id k) (λ _. a) env.store.applications))
              ≡ some a)
            (sym same) (row-update i a env.store.applications h.found same);
    }
