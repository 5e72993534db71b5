-- ===== src/Harness/Anomaly/Deduplication.antt =====
-- The table of issues does not fill up with rows for one condition.
use auto_jobs_apply.Prelude.{
  ℕ, ◌+◌, ◌≤◌, String, Bool, ◌≡◌, refl, ap, inl, inr, Option, none, some, List, [], ◌∷◌, ◌++◌,
  arith, str_eq, str_eq→eq, if◌then◌else◌, Bool-cases, any, count, select, update, first, length,
  length-append, count-update_same, count-append, count-eq-zero, first-select-none,
}
use auto_jobs_apply.Tx.{Result, ok, err, scalar-first}
use auto_jobs_apply.Models.{Application}
use auto_jobs_apply.Harness.Anomaly.{
  SystemIssue, Anomaly, is_open_of, new_issue, refreshed, has_issue_id, refreshed_or_new,
  upsert_issue, anomalies, upsert_all, committed, detect_anomalies,
}

-- At most one open issue of each category.
abbrev pub IsDeduplicated : List SystemIssue → Type 0
IsDeduplicated issues = (c : String) → count (is_open_of c) issues ≤ 1

-- What an upsert does, with the issue that it found.
upsert_lem :
    (id : String) (now : ℕ) (a : Anomaly) (issues : List SystemIssue)
    → IsDeduplicated issues
    → upsert_issue id now a issues
      ≡ refreshed_or_new id now a (first (select (is_open_of a.category) issues)) issues
unfolding upsert_issue
upsert_lem id now a issues c = rw (scalar-first (is_open_of a.category) issues (c a.category))

length-update :
    (p : SystemIssue → Bool) (f : SystemIssue → SystemIssue) (rows : List SystemIssue)
    → length (update p f rows) ≡ length rows
length-update p f [] = refl
length-update p f (r ∷ rows) = omega (arith, length-update p f rows)

opened :
    (id : String) (now : ℕ) (a : Anomaly) (issues : List SystemIssue) (c : String)
    → count (is_open_of a.category) issues ≡ 0
    → count (is_open_of c) issues ≤ 1
    → count (is_open_of c) (issues ++ new_issue id now a ∷ []) ≤ 1
opened id now a issues c free one =
    rw (count-append (is_open_of c) issues (new_issue id now a ∷ []))
      (elim (Bool-cases (str_eq a.category c)) [
        | inl e ↦ ground (arith, ap (λ k. count (is_open_of k) issues) (str_eq→eq a.category c e))
        | inr e ↦ ground (arith, one)
      ])

none-counted :
    (p : SystemIssue → Bool) (rows : List SystemIssue)
    → first (select p rows) ≡ none
    → count p rows ≡ 0
none-counted p [] h = refl
none-counted p (r ∷ rows) h = ground (arith, none-counted p rows)

-- `_upsert_issue` does not raise, keeps at most one open issue of each category, and adds a row
-- exactly where no issue of the category is open.
pub upsert_issue-IsDeduplicated :
    (id : String) (now : ℕ) (a : Anomaly) (issues : List SystemIssue)
    → IsDeduplicated issues
    → let (answer, after) = upsert_issue id now a issues in
      ((issue : SystemIssue) × (answer ≡ ok issue))
      × IsDeduplicated after
      × (length after
          ≡ (if any (is_open_of a.category) issues then length issues else length issues + 1))
upsert_issue-IsDeduplicated id now a issues c =
    rw (upsert_lem id now a issues c)
      (upserted (first (select (is_open_of a.category) issues)) refl)
  where
    upserted :
        (existing : Option SystemIssue)
        → first (select (is_open_of a.category) issues) ≡ existing
        → let (answer, after) = refreshed_or_new id now a existing issues in
          ((issue : SystemIssue) × (answer ≡ ok issue))
          × IsDeduplicated after
          × (length after
              ≡ (if any (is_open_of a.category) issues then length issues else length issues + 1))
    upserted none h = (
      (_, refl),
      (λ k. opened id now a issues k (none-counted (is_open_of a.category) issues h) (c k)),
      ground (
        arith,
        length-append issues (new_issue id now a ∷ []),
        count-eq-zero (is_open_of a.category) issues
            (none-counted (is_open_of a.category) issues h),
      ),
    )
    upserted (some r) h = (
      (_, refl),
      (λ k.
          rw
            (count-update_same (has_issue_id r.id) (is_open_of k) (refreshed now a) issues
              (λ x e. refl))
            (c k)),
      elim (Bool-cases (any (is_open_of a.category) issues)) [
        | inl e ↦ rw e (length-update (has_issue_id r.id) (refreshed now a) issues)
        | inr e ↦ cc (first-select-none (is_open_of a.category) issues e, h)
      ],
    )

abbrev Deduplicates : Result (List SystemIssue) × List SystemIssue → Type 0
Deduplicates (answer, after) =
    ((found : List SystemIssue) × (answer ≡ ok found)) × IsDeduplicated after

upsert_all-IsDeduplicated :
    (uuid : ℕ → String) (now : ℕ) (found : List Anomaly) (issues : List SystemIssue)
    → IsDeduplicated issues
    → Deduplicates (upsert_all uuid now found issues)
unfolding upsert_all
upsert_all-IsDeduplicated uuid now [] issues c = (([], refl), c)
upsert_all-IsDeduplicated uuid now (a ∷ rest) issues c =
    let ((issue, done), kept, _) =
      upsert_issue-IsDeduplicated (uuid (length rest)) now a issues c in
    let ((more, finished), kept') =
      upsert_all-IsDeduplicated uuid now rest (upsert_issue (uuid (length rest)) now a issues).1
        kept in
    rw (done, finished) ((_, refl), kept')

-- `detect_anomalies` does not raise on a table with at most one open issue of each category, and
-- leaves such a table, so that it can run again and again.
pub detect_anomalies-IsDeduplicated :
    (str uuid : ℕ → String) (now : ℕ) (apps : List Application) (depth : Option ℕ)
    (issues : List SystemIssue)
    → IsDeduplicated issues
    → let (answer, after) = detect_anomalies str uuid now apps depth issues in
      ((found : List SystemIssue) × (answer ≡ ok found)) × IsDeduplicated after
unfolding detect_anomalies
detect_anomalies-IsDeduplicated str uuid now apps depth issues c =
    let ((found, done), kept) =
      upsert_all-IsDeduplicated uuid now (anomalies str now apps depth) issues c in
    commit (upsert_all uuid now (anomalies str now apps depth) issues) ((found, done), kept)
  where
    commit :
        (run : Result (List SystemIssue) × List SystemIssue)
        → Deduplicates run
        → Deduplicates (committed issues run)
    commit (ok found, after) d = d
    commit (err e, after) d = cc (d.0.1)
