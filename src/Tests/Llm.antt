-- ===== src/Tests/Llm.antt =====
-- A completion falls back to a second provider.
use auto_jobs_apply.Prelude.{String, ◌≡◌, none, [], ◌∷◌, if◌then◌else◌, str_eq, first, select}
use auto_jobs_apply.Llm.{
  Texts, LlmSettings, Attempt, answered, rate_limited, complete, get_model_chain, completion_of,
  error_after, is_answer, complete-first_answer,
}

abbrev texts : Texts
texts = record { last_segment = λ s. "gpt" }

abbrev settings : LlmSettings
settings = record { default_model = "gpt"; fallback_providers = "groq" ∷ [] }

abbrev call : String → Attempt
call m = if str_eq m "groq/gpt" then answered "hello" else rate_limited

complete-first_answer_example : (complete texts settings call none none).0 ≡ (
    let chain = get_model_chain texts settings none none in
    completion_of call chain
      (error_after call chain none)
      (first (select (λ m. is_answer (call m)) chain)))
complete-first_answer_example = complete-first_answer texts settings call none none
