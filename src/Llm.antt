-- ===== src/Llm.antt =====
-- core/llm/client.py under backend/app: the models that a completion tries, in order, and the error
-- when none answers. LiteLLM is a library, the parameter `call`. Python's text functions are
-- `Texts`. The gateway's configuration, prices, metrics and structured output are left out.
use text.Mathlib.Text.{starts_with}
use Prim.Native.String.{◌++◌ as append}
use auto_jobs_apply.Prelude.{
  String, Bool, true, false, ◌≡◌, refl, Option, none, some, List, [], ◌∷◌, map, if◌then◌else◌,
  select, first, or_default,
}

-- How `litellm.acompletion` ends: with a response's content, with litellm.RateLimitError, with
-- litellm.Timeout, or with any other exception.
pub data Attempt : Type 0 where
  answered : String → Attempt
  rate_limited : Attempt
  timed_out : Attempt
  failed : Attempt

-- LLMRateLimitError, LLMTimeoutError, LLMProviderError
pub data LlmError : Type 0 where
  rate_limit_error : String → LlmError
  timeout_error : List String → LlmError
  provider_error : String → LlmError

pub record LlmResponse : Type 0 where
  pub content : String
  pub model : String

pub data Completion : Type 0 where
  response : LlmResponse → Completion
  raised : LlmError → Completion

pub record LlmSettings : Type 0 where
  pub default_model : String
  pub fallback_providers : List String

-- `s.split("/")[-1]`
pub record Texts : Type 0 where
  pub last_segment : String → String

-- `_get_model_chain`; `credentials` holds the default model of a user's own key.
unfoldable pub get_model_chain : Texts → LlmSettings → Option String → Option String → List String
get_model_chain texts settings (some own_model) model = or_default model own_model ∷ []
get_model_chain texts settings none model =
    let primary = or_default model settings.default_model in
    if starts_with primary "bedrock/"
    then primary ∷ []
    else primary
      ∷ map (λ provider. append provider (append "/" (texts.last_segment primary)))
          settings.fallback_providers

abbrev pub last_of : String → List String → String
last_of m [] = m
last_of m (x ∷ xs) = last_of x xs

-- `model_chain[-1]` of a chain, which is never empty.
abbrev pub last_model : List String → String
last_model [] = ""
last_model (m ∷ ms) = last_of m ms

abbrev pub exhausted : List String → Option Attempt → LlmError
exhausted chain (some rate_limited) = rate_limit_error (last_model chain)
exhausted chain (some timed_out) = timeout_error chain
exhausted chain _ = provider_error (last_model chain)

-- An answer is returned, and after any exception the loop goes on.
abbrev settled :
    Attempt → String → List String → Completion × List String → Completion × List String
settled (answered content) m called later =
    (response (record { content = content; model = m }), m ∷ called)
settled rate_limited m called later = later
settled timed_out m called later = later
settled failed m called later = later

-- The loop over the models that are left, with the last error. The models that were called are
-- listed, newest first.
unfoldable pub try_models :
    (String → Attempt)
    → List String
    → List String
    → Option Attempt
    → List String
    → Completion × List String
try_models call chain [] last_error called = (raised (exhausted chain last_error), called)
try_models call chain (m ∷ rest) last_error called =
    let later = try_models call chain rest (some (call m)) (m ∷ called) in
    settled (call m) m called later

unfoldable pub complete :
    Texts
    → LlmSettings
    → (String → Attempt)
    → Option String
    → Option String
    → Completion × List String
complete texts settings call credentials model =
    let chain = get_model_chain texts settings credentials model in
    try_models call chain chain none []

abbrev pub is_answer : Attempt → Bool
is_answer (answered content) = true
is_answer _ = false

abbrev pub content_of : Attempt → String
content_of (answered content) = content
content_of _ = ""

-- The model whose answer is returned, or the error of the last model.
abbrev pub completion_of :
    (String → Attempt) → List String → Option Attempt → Option String → Completion
completion_of call chain last_error (some m) =
    response (record { content = content_of (call m); model = m })
completion_of call chain last_error none = raised (exhausted chain last_error)

-- The last error after the loop has called all these models.
abbrev pub error_after : (String → Attempt) → List String → Option Attempt → Option Attempt
error_after call [] last_error = last_error
error_after call (m ∷ rest) last_error = error_after call rest (some (call m))

pub try_models_lem :
    (call : String → Attempt) (chain rest : List String) (last_error : Option Attempt)
    (called : List String)
    → (try_models call chain rest last_error called).0
      ≡ completion_of call chain
          (error_after call rest last_error)
          (first (select (λ m. is_answer (call m)) rest))
unfolding try_models
try_models_lem call chain [] last_error called = refl
try_models_lem call chain (m ∷ rest) last_error called =
    tried (call m) refl (λ e. try_models_lem call chain rest e (m ∷ called))
  where
    tried :
        (a : Attempt)
        → call m ≡ a
        → ((e : Option Attempt)
            → (try_models call chain rest e (m ∷ called)).0
              ≡ completion_of call chain
                  (error_after call rest e)
                  (first (select (λ k. is_answer (call k)) rest)))
        → (try_models call chain (m ∷ rest) last_error called).0
          ≡ completion_of call chain
              (error_after call (m ∷ rest) last_error)
              (first (select (λ k. is_answer (call k)) (m ∷ rest)))
    tried (answered c) e later = rw (try_models, e, e) refl
    tried rate_limited e later = rw (try_models, e) (later (some rate_limited))
    tried timed_out e later = rw (try_models, e) (later (some timed_out))
    tried failed e later = rw (try_models, e) (later (some failed))

-- `complete` returns the answer of the first model of its chain that answers. If none does, it
-- raises the error that the last model of the chain decides, whatever the others met.
pub complete-first_answer :
    (texts : Texts) (settings : LlmSettings) (call : String → Attempt)
    (credentials model : Option String)
    → (complete texts settings call credentials model).0 ≡ (
        let chain = get_model_chain texts settings credentials model in
        completion_of call chain
          (error_after call chain none)
          (first (select (λ m. is_answer (call m)) chain)))
unfolding complete
complete-first_answer texts settings call credentials model =
    try_models_lem call _ (get_model_chain texts settings credentials model) none []
