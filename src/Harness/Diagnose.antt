-- ===== src/Harness/Diagnose.antt =====
-- core/harness/diagnose.py and FailureClass of models/enums.py under backend/app. The signals that
-- the observer records are a record; `haystack` is the joined, lowered text of the errors and the
-- evaluations, and `url` the lowered final address.
use auto_jobs_apply.Prelude.{
  ℕ, String, Bool, true, false, ◌||◌, ◌≡◌, some, List, [], ◌∷◌, arith, leb, if◌then◌else◌, contains,
  any, select, first,
}

pub data FailureClass : Type 0 where
  login_failed session_expired captcha_wall twofa_required antibot_block dom_drift : FailureClass
  field_missing agent_offtrack loop llm_error timeout rate_limited unknown : FailureClass

pub record Signals : Type 0 where
  pub haystack : String
  pub url : String
  pub timed_out : Bool
  pub loop_detected : Bool
  pub llm_failed : Bool
  pub consecutive_failures : ℕ

pub record Diagnosis : Type 0 where
  pub failure_class : FailureClass
  pub root_cause : String
  pub suggested_action : String

abbrev found : FailureClass → String → String → Diagnosis
found c cause action = record { failure_class = c; root_cause = cause; suggested_action = action }

unfoldable pub has : Signals → List String → Bool
has s words = any (λ w. contains s.haystack w || contains s.url w) words

unfoldable pub diagnose : Signals → Diagnosis
diagnose s =
    if s.timed_out
    then found timeout "Run exceeded its time budget" "raise job_timeout / simplify flow"
    else if has s ("captcha" ∷ "are you a robot" ∷ "verify you are human" ∷ "recaptcha" ∷ [])
    then found captcha_wall "CAPTCHA challenge encountered" "request human intervention"
    else if has s
        ("two-factor" ∷ "2fa" ∷ "verification code" ∷ "one-time code" ∷ "authenticator" ∷ [])
    then found twofa_required "2FA prompt encountered" "request human intervention"
    else if has s
        ("unusual traffic" ∷ "access denied" ∷ "datadome" ∷ "are you human" ∷ "blocked" ∷ [])
    then found antibot_block "Anti-bot block detected" "rotate proxy/UA and back off"
    else if has s ("rate limit" ∷ "too many requests" ∷ "429" ∷ [])
    then found rate_limited "Platform rate-limited the session" "back off and retry later"
    else if has s ("session expired" ∷ "logged out" ∷ "please sign in" ∷ "please log in" ∷ [])
        || contains s.url "login"
    then found session_expired "Login/session wall hit" "re-authenticate (assisted login)"
    else if s.loop_detected
    then found loop "Agent looped without progress" "reload domain skill / revise prompt"
    else if has s (
        "element not found" ∷ "selector" ∷ "could not find" ∷ "no such element" ∷ "not visible"
        ∷ [])
    then found dom_drift "Expected element missing (page changed)" "update domain-skill selectors"
    else if has s ("required field" ∷ "missing field" ∷ "must fill" ∷ "this field is required" ∷ [])
    then found field_missing "Required form field not handled" "extend the form-fill skill"
    else if s.llm_failed
    then found llm_error "LLM provider error during reasoning" "check provider/key; use fallback"
    else if leb 3 s.consecutive_failures
    then found agent_offtrack "Repeated step failures" "simplify the task or add guidance"
    else found unknown "Unclassified failure" "review the trajectory manually"

-- The evidence for a class: none for a failed login, and any run for an unknown failure.
abbrev pub shows : Signals → FailureClass → Bool
shows s timeout = s.timed_out
shows s captcha_wall =
    has s ("captcha" ∷ "are you a robot" ∷ "verify you are human" ∷ "recaptcha" ∷ [])
shows s twofa_required =
    has s ("two-factor" ∷ "2fa" ∷ "verification code" ∷ "one-time code" ∷ "authenticator" ∷ [])
shows s antibot_block =
    has s ("unusual traffic" ∷ "access denied" ∷ "datadome" ∷ "are you human" ∷ "blocked" ∷ [])
shows s rate_limited = has s ("rate limit" ∷ "too many requests" ∷ "429" ∷ [])
shows s session_expired =
    has s ("session expired" ∷ "logged out" ∷ "please sign in" ∷ "please log in" ∷ [])
    || contains s.url "login"
shows s loop = s.loop_detected
shows s dom_drift =
    has s
      ("element not found" ∷ "selector" ∷ "could not find" ∷ "no such element" ∷ "not visible" ∷ [])
shows s field_missing =
    has s ("required field" ∷ "missing field" ∷ "must fill" ∷ "this field is required" ∷ [])
shows s llm_error = s.llm_failed
shows s agent_offtrack = leb 3 s.consecutive_failures
shows s unknown = true
shows s login_failed = false

-- The classes in the order of their priority.
abbrev pub by_priority : List FailureClass
by_priority =
    timeout ∷ captcha_wall ∷ twofa_required ∷ antibot_block ∷ rate_limited ∷ session_expired ∷ loop
    ∷ dom_drift ∷ field_missing ∷ llm_error ∷ agent_offtrack ∷ unknown ∷ login_failed ∷ []

-- `diagnose` gives the first class, by priority, that the signals show. It never gives a failed
-- login, and an unknown failure only where nothing else is shown.
pub diagnose-by_priority :
    (s : Signals) → some (diagnose s).failure_class ≡ first (select (shows s) by_priority)
unfolding diagnose
diagnose-by_priority s = ground arith
