-- ===== src/Ats/Optimizing.antt =====
-- backend/app/core/ats/optimizer.py: the industry of a job, the keywords that a resume lacks and the
-- suggestions on its form. The weights are counted in hundredths, and their sums are exact. `split`
-- is `str.split`, and `sorted` a stable sort by descending weight.
use auto_jobs_apply.Prelude.{
  ℕ, ◌+◌, ◌≤◌, String, Bool, true, not, ◌&&◌, ◌==◌, ◌≡◌, refl, ap, ◌∙◌, str_eq_self, List, [], ◌∷◌,
  ◌++◌, str_eq, if◌then◌else◌, ltb, any, All, Bool-cases, inl, inr, ◌⊎◌, arith, contains, select,
  length,
}

abbrev pub software_engineering : List (String × ℕ)
software_engineering =
    ("agile", 80)
    ∷ ("scrum", 70)
    ∷ ("ci/cd", 90)
    ∷ ("devops", 80)
    ∷ ("microservices", 85)
    ∷ ("api", 90)
    ∷ ("rest", 80)
    ∷ ("graphql", 70)
    ∷ ("cloud", 85)
    ∷ ("aws", 80)
    ∷ ("docker", 85)
    ∷ ("kubernetes", 80)
    ∷ ("testing", 90)
    ∷ ("unit testing", 80)
    ∷ ("integration testing", 75)
    ∷ ("code review", 70)
    ∷ ("git", 90)
    ∷ ("system design", 85)
    ∷ ("scalability", 80)
    ∷ ("performance", 75)
    ∷ ("security", 70)
    ∷ ("monitoring", 70)
    ∷ ("logging", 65)
    ∷ ("debugging", 70)
    ∷ []

abbrev pub data_science : List (String × ℕ)
data_science =
    ("machine learning", 95)
    ∷ ("deep learning", 85)
    ∷ ("nlp", 80)
    ∷ ("computer vision", 75)
    ∷ ("statistics", 90)
    ∷ ("python", 95)
    ∷ ("r", 70)
    ∷ ("sql", 85)
    ∷ ("tensorflow", 80)
    ∷ ("pytorch", 80)
    ∷ ("pandas", 85)
    ∷ ("numpy", 80)
    ∷ ("scikit-learn", 85)
    ∷ ("data visualization", 75)
    ∷ ("feature engineering", 80)
    ∷ ("model evaluation", 80)
    ∷ ("a/b testing", 70)
    ∷ ("etl", 75)
    ∷ ("big data", 70)
    ∷ ("spark", 70)
    ∷ ("hadoop", 60)
    ∷ []

abbrev pub product_management : List (String × ℕ)
product_management =
    ("roadmap", 90)
    ∷ ("strategy", 85)
    ∷ ("stakeholder management", 85)
    ∷ ("user research", 80)
    ∷ ("data-driven", 80)
    ∷ ("analytics", 80)
    ∷ ("kpi", 75)
    ∷ ("okr", 70)
    ∷ ("agile", 85)
    ∷ ("scrum", 75)
    ∷ ("prioritization", 85)
    ∷ ("go-to-market", 70)
    ∷ ("mvp", 75)
    ∷ ("user stories", 80)
    ∷ ("competitive analysis", 70)
    ∷ ("market research", 70)
    ∷ ("customer feedback", 75)
    ∷ []

abbrev pub devops : List (String × ℕ)
devops =
    ("ci/cd", 95)
    ∷ ("docker", 90)
    ∷ ("kubernetes", 90)
    ∷ ("terraform", 85)
    ∷ ("ansible", 75)
    ∷ ("jenkins", 70)
    ∷ ("github actions", 75)
    ∷ ("monitoring", 85)
    ∷ ("prometheus", 75)
    ∷ ("grafana", 70)
    ∷ ("aws", 85)
    ∷ ("gcp", 80)
    ∷ ("azure", 80)
    ∷ ("linux", 90)
    ∷ ("networking", 75)
    ∷ ("security", 80)
    ∷ ("iac", 80)
    ∷ ("observability", 80)
    ∷ ("sre", 75)
    ∷ ("incident management", 70)
    ∷ []

abbrev pub cybersecurity : List (String × ℕ)
cybersecurity =
    ("penetration testing", 90)
    ∷ ("vulnerability assessment", 90)
    ∷ ("siem", 80)
    ∷ ("soc", 80)
    ∷ ("incident response", 85)
    ∷ ("encryption", 80)
    ∷ ("firewall", 75)
    ∷ ("ids/ips", 75)
    ∷ ("compliance", 80)
    ∷ ("risk assessment", 85)
    ∷ ("threat modeling", 85)
    ∷ ("zero trust", 70)
    ∷ ("devsecops", 75)
    ∷ ("owasp", 80)
    ∷ ("forensics", 70)
    ∷ ("malware analysis", 70)
    ∷ []

abbrev pub cloud_engineering : List (String × ℕ)
cloud_engineering =
    ("aws", 90)
    ∷ ("gcp", 85)
    ∷ ("azure", 85)
    ∷ ("terraform", 90)
    ∷ ("cloudformation", 75)
    ∷ ("serverless", 80)
    ∷ ("lambda", 75)
    ∷ ("ec2", 70)
    ∷ ("s3", 70)
    ∷ ("vpc", 70)
    ∷ ("load balancing", 75)
    ∷ ("auto scaling", 75)
    ∷ ("cost optimization", 70)
    ∷ ("multi-cloud", 65)
    ∷ ("hybrid cloud", 65)
    ∷ []

-- `_INDUSTRY_KEYWORDS`
abbrev pub industry_keywords : List (String × List (String × ℕ))
industry_keywords =
    ("software_engineering", software_engineering)
    ∷ ("data_science", data_science)
    ∷ ("product_management", product_management)
    ∷ ("devops", devops)
    ∷ ("cybersecurity", cybersecurity)
    ∷ ("cloud_engineering", cloud_engineering)
    ∷ []

-- The weights of the keywords that a text contains.
abbrev pub industry_score : String → List (String × ℕ) → ℕ
industry_score text [] = 0
industry_score text ((keyword, weight) ∷ keywords) =
    let rest = industry_score text keywords in if contains text keyword then weight + rest else rest

abbrev pub better : String × ℕ → String × ℕ → String × ℕ
better (name, score) (industry, found) =
    if ltb score found then (industry, found) else (name, score)

-- The loop of `detect_industry`, from the best industry so far and its score.
abbrev pub best_industry : String → List (String × List (String × ℕ)) → String × ℕ → String × ℕ
best_industry text [] best = best
best_industry text ((industry, keywords) ∷ rest) best =
    best_industry text rest (better best (industry, industry_score text keywords))

abbrev pub confident : String × ℕ → String
confident (name, score) = if ltb score 150 then "" else name

unfoldable pub detect_industry : (String → String) → String → String
detect_industry lower job_description =
    confident (best_industry (lower job_description) industry_keywords ("", 0))

abbrev pub keywords_of : String → List (String × List (String × ℕ)) → List (String × ℕ)
keywords_of industry [] = []
keywords_of industry ((name, keywords) ∷ rest) =
    let others = keywords_of industry rest in if str_eq name industry then keywords else others

abbrev pub is_absent : String → String × ℕ → Bool
is_absent text (keyword, weight) = not (contains text keyword)

abbrev pub keyword_names : List (String × ℕ) → List String
keyword_names [] = []
keyword_names ((keyword, weight) ∷ rest) = keyword ∷ keyword_names rest

unfoldable pub get_missing_keywords :
    (String → String) → (List (String × ℕ) → List (String × ℕ)) → String → String → List String
get_missing_keywords lower sorted resume_text industry =
    keyword_names
      (sorted (select (is_absent (lower resume_text)) (keywords_of industry industry_keywords)))

abbrev pub short_resume : ℕ → List String
short_resume word_count =
    if ltb word_count 150
    then "Your resume appears very short. ATS systems favour detailed resumes with 400-800 words."
      ∷ []
    else []

abbrev pub missing_sections : (List String → String) → List String → List String
missing_sections titled [] = []
missing_sections titled (section ∷ sections) = titled (section ∷ sections) ∷ []

-- `_format_suggestions`; `titled` is the suggestion with the missing sections.
unfoldable pub format_suggestions :
    (String → String) → (String → List String) → (List String → String) → String → List String
format_suggestions lower split titled resume_text =
    short_resume (length (split resume_text))
    ++ missing_sections titled (
        select (λ s. not (contains (lower resume_text) s))
          ("experience" ∷ "education" ∷ "skills" ∷ []))

-- An entry of the table with this name and this score.
abbrev pub has_entry : String → String × ℕ → List (String × List (String × ℕ)) → Bool
has_entry text (name, score) table =
    any (λ entry. str_eq entry.0 name && industry_score text entry.1 == score) table

-- The score is at least the start's and every entry's, and is the start's or an entry's.
abbrev pub IsBest : String → List (String × List (String × ℕ)) → String × ℕ → String × ℕ → Type 0
IsBest text table start best =
    (start.1 ≤ best.1)
    × All (λ entry. industry_score text entry.1 ≤ best.1) table
    × ((best ≡ start) ⊎ (has_entry text best table ≡ true))

entry_here :
    (text name : String) (keywords : List (String × ℕ)) (rest : List (String × List (String × ℕ)))
    {best : String × ℕ}
    → best ≡ (name, industry_score text keywords)
    → has_entry text best ((name, keywords) ∷ rest) ≡ true
entry_here text name keywords rest e =
    let itself : (industry_score text keywords == industry_score text keywords) ≡ true =
      ground arith in
    rw (e, str_eq_self name, itself)

entry_later :
    (text : String) (entry : String × List (String × ℕ)) (rest : List (String × List (String × ℕ)))
    (best : String × ℕ)
    → has_entry text best rest ≡ true
    → has_entry text best (entry ∷ rest) ≡ true
entry_later text entry rest best h = ground (arith, h)

best_industry-IsBest :
    (text : String) (table : List (String × List (String × ℕ))) (start : String × ℕ)
    → IsBest text table start (best_industry text table start)
best_industry-IsBest text [] start = (omega arith, tt, inl refl)
best_industry-IsBest text ((name, keywords) ∷ rest) start =
    let found = industry_score text keywords in
    let next = better start (name, found) in
    let best = best_industry text rest next in
    let (floor, others, source) = best_industry-IsBest text rest next in
    elim (Bool-cases (ltb start.1 found)) [
      | inl e ↦
          let here : next ≡ (name, found) = rw e in
          let low : found ≤ best.1 = omega (arith, floor, ap (λ x. x.1) here) in
          (
            ground (arith, low),
            (low, others),
            inr (elim source [
              | inl kept ↦ entry_here text name keywords rest (kept ∙ here)
              | inr later ↦ entry_later text (name, keywords) rest best later
            ]),
          )
      | inr e ↦
          let here : next ≡ start = rw e in
          let low : start.1 ≤ best.1 = omega (arith, floor, ap (λ x. x.1) here) in
          (
            low,
            (ground (arith, low), others),
            elim source [
              | inl kept ↦ inl (kept ∙ here)
              | inr later ↦ inr (entry_later text (name, keywords) rest best later)
            ],
          )
    ]

abbrev Scores : String → List (String × List (String × ℕ)) → ℕ → Type 0
Scores text table top = All (λ entry. industry_score text entry.1 ≤ top) table

low-Scores :
    (text : String) (table : List (String × List (String × ℕ))) (top : ℕ)
    → top ≤ 149
    → Scores text table top
    → Scores text table 149
low-Scores text [] top h k = tt
low-Scores text (entry ∷ rest) top h (one, k) =
    (omega (arith, h, one), low-Scores text rest top h k)

confident-best :
    (text : String) (table : List (String × List (String × ℕ))) (best : String × ℕ)
    → IsBest text table ("", 0) best
    → ((confident best ≡ "") × Scores text table 149)
      ⊎ ((top : ℕ) × (150 ≤ top)
          × Scores text table top
          × (has_entry text (confident best, top) table ≡ true))
confident-best text table best (floor, highest, source) = elim (Bool-cases (ltb best.1 150)) [
  | inl e ↦ inl (rw e, low-Scores text table best.1 (ground (arith, e)) highest)
  | inr e ↦ elim source [
    | inl start ↦ absurd (ground (arith, e, ap (λ x. x.1) start))
    | inr entry ↦ rw e (inr (best.1, ground (arith, e), highest, entry))
  ]
]

-- `detect_industry` answers no industry only if every industry scores below 1.5, and else an industry
-- of the table whose score is at least 1.5 and at least that of every other.
pub detect_industry-best :
    (lower : String → String) (job_description : String)
    → let text = lower job_description in
      let industry = detect_industry lower job_description in
      ((industry ≡ "") × All (λ entry. industry_score text entry.1 ≤ 149) industry_keywords)
      ⊎ ((top : ℕ) × (150 ≤ top)
          × All (λ entry. industry_score text entry.1 ≤ top) industry_keywords
          × (has_entry text (industry, top) industry_keywords ≡ true))
unfolding detect_industry
detect_industry-best lower job_description =
    let text = lower job_description in
    confident-best text industry_keywords (best_industry text industry_keywords ("", 0))
      (best_industry-IsBest text industry_keywords ("", 0))
