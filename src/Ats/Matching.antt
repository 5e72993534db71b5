-- ===== src/Ats/Matching.antt =====
-- backend/app/core/ats/skill_matcher.py: which skills count as the same.
use auto_jobs_apply.Prelude.{
  String, Bool, ◌||◌, Option, none, some, List, [], ◌∷◌, ◌++◌, str_eq, if◌then◌else◌, any, not,
  ◌&&◌, select,
}
use auto_jobs_apply.Ats.{TextTools}

abbrev pub skill_variations : List (String × List String)
skill_variations =
    ("python", "python3" ∷ "python 3" ∷ "cpython" ∷ "python programming" ∷ [])
    ∷ ("javascript", "js" ∷ "ecmascript" ∷ "es6" ∷ "es2015" ∷ "vanilla js" ∷ [])
    ∷ ("typescript", "ts" ∷ "typescript programming" ∷ [])
    ∷ ("react", "reactjs" ∷ "react.js" ∷ "react js" ∷ [])
    ∷ ("angular", "angularjs" ∷ "angular.js" ∷ "angular 2+" ∷ [])
    ∷ ("vue", "vuejs" ∷ "vue.js" ∷ "vue 3" ∷ [])
    ∷ ("node", "nodejs" ∷ "node.js" ∷ "node js" ∷ [])
    ∷ ("express", "expressjs" ∷ "express.js" ∷ [])
    ∷ ("django", "django framework" ∷ "django python" ∷ [])
    ∷ ("flask", "flask framework" ∷ "flask python" ∷ [])
    ∷ ("fastapi", "fast api" ∷ "fastapi framework" ∷ [])
    ∷ ("sql", "structured query language" ∷ [])
    ∷ ("postgresql", "postgres" ∷ "psql" ∷ "pg" ∷ [])
    ∷ ("mongodb", "mongo" ∷ "mongo db" ∷ [])
    ∷ ("mysql", "my sql" ∷ "mariadb" ∷ [])
    ∷ ("redis", "redis db" ∷ "redis cache" ∷ [])
    ∷ ("docker", "docker container" ∷ "containerization" ∷ [])
    ∷ ("kubernetes", "k8s" ∷ "kube" ∷ [])
    ∷ ("aws", "amazon web services" ∷ "amazon aws" ∷ [])
    ∷ ("gcp", "google cloud" ∷ "google cloud platform" ∷ [])
    ∷ ("azure", "microsoft azure" ∷ "azure cloud" ∷ [])
    ∷ ("git", "github" ∷ "gitlab" ∷ "git version control" ∷ [])
    ∷ ("ci/cd", "cicd" ∷ "ci cd" ∷ "continuous integration" ∷ "continuous deployment" ∷ [])
    ∷ ("machine learning", "ml" ∷ "machine-learning" ∷ [])
    ∷ ("deep learning", "dl" ∷ "deep-learning" ∷ [])
    ∷ ("natural language processing", "nlp" ∷ "text mining" ∷ "text analytics" ∷ [])
    ∷ ("computer vision", "cv" ∷ "image recognition" ∷ "image processing" ∷ [])
    ∷ ("data science", "data analytics" ∷ "data analysis" ∷ [])
    ∷ ("tensorflow", "tf" ∷ "tensor flow" ∷ [])
    ∷ ("pytorch", "torch" ∷ "py torch" ∷ [])
    ∷ ("scikit-learn", "sklearn" ∷ "scikit learn" ∷ [])
    ∷ ("pandas", "pandas library" ∷ "python pandas" ∷ [])
    ∷ ("numpy", "np" ∷ "numerical python" ∷ [])
    ∷ ("html", "html5" ∷ "hypertext markup language" ∷ [])
    ∷ ("css", "css3" ∷ "cascading style sheets" ∷ "stylesheets" ∷ [])
    ∷ ("rest", "restful" ∷ "rest api" ∷ "restful api" ∷ [])
    ∷ ("graphql", "graph ql" ∷ "gql" ∷ [])
    ∷ ("agile", "scrum" ∷ "kanban" ∷ "agile methodology" ∷ [])
    ∷ ("devops", "dev ops" ∷ "development operations" ∷ [])
    ∷ ("linux", "unix" ∷ "ubuntu" ∷ "centos" ∷ "debian" ∷ [])
    ∷ ("java", "java programming" ∷ "java se" ∷ "java ee" ∷ [])
    ∷ ("c++", "cpp" ∷ "cplusplus" ∷ "c plus plus" ∷ [])
    ∷ ("c#", "csharp" ∷ "c sharp" ∷ "dotnet" ∷ ".net" ∷ [])
    ∷ ("go", "golang" ∷ "go programming" ∷ [])
    ∷ ("rust", "rust programming" ∷ "rust lang" ∷ [])
    ∷ ("swift", "swift programming" ∷ "swift language" ∷ [])
    ∷ ("kotlin", "kotlin programming" ∷ "kotlin language" ∷ [])
    ∷ ("r", "r programming" ∷ "r language" ∷ "r stats" ∷ [])
    ∷ []

abbrev pub skill_categories : List (String × List String)
skill_categories =
    (
      "programming_languages",
      "python" ∷ "javascript" ∷ "typescript" ∷ "java" ∷ "c++" ∷ "c#" ∷ "go" ∷ "rust" ∷ "swift"
          ∷ "kotlin" ∷ "r" ∷ "ruby" ∷ "php" ∷ "scala" ∷ [],
    )
    ∷ (
      "web_frameworks",
      "react" ∷ "angular" ∷ "vue" ∷ "django" ∷ "flask" ∷ "fastapi" ∷ "express" ∷ "node" ∷ "next.js"
          ∷ "nuxt.js" ∷ "spring" ∷ [],
    )
    ∷ (
      "databases",
      "sql" ∷ "postgresql" ∷ "mongodb" ∷ "mysql" ∷ "redis" ∷ "elasticsearch" ∷ "cassandra"
          ∷ "dynamodb" ∷ "sqlite" ∷ [],
    )
    ∷ (
      "cloud_devops",
      "aws" ∷ "gcp" ∷ "azure" ∷ "docker" ∷ "kubernetes" ∷ "ci/cd" ∷ "terraform" ∷ "ansible"
          ∷ "jenkins" ∷ "linux" ∷ "devops" ∷ [],
    )
    ∷ (
      "data_ml",
      "machine learning" ∷ "deep learning" ∷ "natural language processing" ∷ "computer vision"
          ∷ "data science" ∷ "tensorflow" ∷ "pytorch" ∷ "scikit-learn" ∷ "pandas" ∷ "numpy"
          ∷ "spark" ∷ "hadoop" ∷ [],
    )
    ∷ (
      "soft_skills",
      "agile" ∷ "leadership" ∷ "communication" ∷ "teamwork" ∷ "problem solving"
          ∷ "project management" ∷ "mentoring" ∷ [],
    )
    ∷ []

-- `_build_variation_index` and the lookup in it: a later entry of the dictionary replaces an
-- earlier one.
abbrev pub entry : String → String × List String → Option String
entry text (canonical, variants) =
    if str_eq text canonical || any (λ v. str_eq text v) variants then some canonical else none

abbrev pub or_later : Option String → Option String → Option String
or_later earlier none = earlier
or_later earlier (some later) = some later

unfoldable pub variation_index : List (String × List String) → String → Option String
variation_index [] text = none
variation_index (e ∷ entries) text = or_later (entry text e) (variation_index entries text)

abbrev pub or_itself : String → Option String → String
or_itself text none = text
or_itself text (some canonical) = canonical

-- `_normalize_skill`
unfoldable pub normalize_skill : TextTools → String → String
normalize_skill t skill =
    let cleaned = t.strip (t.keep_skill_characters (t.lower skill)) in
    or_itself cleaned (variation_index skill_variations cleaned)

abbrev pub is_match : TextTools → String → String → Bool
is_match t norm_candidate norm_required =
    str_eq norm_candidate norm_required || t.is_fuzzy_match norm_candidate norm_required

unfoldable pub has_skill : TextTools → List String → String → Bool
has_skill t candidate_skills required_skill =
    any (λ skill. is_match t (normalize_skill t skill) (normalize_skill t required_skill))
      candidate_skills

abbrev pub names : List (String × List String) → List String
names [] = []
names ((name, members) ∷ groups) = name ∷ names groups

abbrev pub is_other_similar : TextTools → String → String → Bool
is_other_similar t norm canonical = not (str_eq canonical norm) && t.is_similar norm canonical

unfoldable pub find_similar_skills : TextTools → String → List String
find_similar_skills t skill =
    select (is_other_similar t (normalize_skill t skill)) (names skill_variations)

abbrev pub is_mentioned : TextTools → String → String × List String → Bool
is_mentioned t text (canonical, variants) =
    t.word_present canonical text || any (λ v. t.word_present v text) variants

-- The set, in the order of the dictionary.
unfoldable pub extract_skills : TextTools → String → List String
extract_skills t text = names (select (is_mentioned t (t.lower text)) skill_variations)

-- The groups of a classification, in the order of the dictionary.
abbrev pub Groups : Type 0
Groups = List (String × List String)

-- `result[category].append(skill)`
abbrev pub append_to : String → String → Groups → Groups
append_to category skill [] = []
append_to category skill ((name, skills) ∷ groups) =
    let rest = append_to category skill groups in
    if str_eq name category then (name, skills ++ skill ∷ []) ∷ groups else (name, skills) ∷ rest

abbrev pub category_of : String → Groups → String
category_of norm [] = "other"
category_of norm ((name, members) ∷ groups) =
    let rest = category_of norm groups in if any (λ m. str_eq norm m) members then name else rest

abbrev pub no_skills : Groups → Groups
no_skills [] = ("other", []) ∷ []
no_skills ((name, members) ∷ groups) = (name, []) ∷ no_skills groups

abbrev pub place_all : TextTools → List String → Groups → Groups
place_all t [] groups = groups
place_all t (skill ∷ skills) groups =
    place_all t skills
      (append_to (category_of (normalize_skill t skill) skill_categories) skill groups)

unfoldable pub categorize_skills : TextTools → List String → Groups
categorize_skills t skills = place_all t skills (no_skills skill_categories)
