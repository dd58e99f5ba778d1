-- ===== src/HumanInput/Service/Choices.antt =====
-- Which answers a question with choices takes (runtime/human_input_service.py).
use agent_v.Prelude.{
  str_eq, Bool, Bool-cases, inl, inr, str_eq_iff, if◌then◌else◌, ℕ, String, true, false, ◌≡◌, refl,
  Option, some, arith,
}
use agent_v.Env.{Env}
use agent_v.World.{World}
use agent_v.World.Rows.{HumanInputRequest, pending, answered}
use agent_v.Table
use agent_v.Table.{find-put, find-put_same}
use agent_v.Exec.{ok, raised, human_input_validation_error}
use agent_v.Json.{Json, null, num, obj, str, bool, arr, Items, nil, cons, get}
use agent_v.HumanInput.{is_choice, HumanInputResumeContext}
use agent_v.HumanInput.Context.Checks.{IsLinked, load_resume_context_total}
use agent_v.HumanInput.Changes.{is_expired, accepts}
use agent_v.HumanInput.Service.{answer, expire_if_needed}

-- a text is one of the choices
pub data Among (text : String) : Items → Type 0 where
  here : (choice : String) (rest : Items) → choice ≡ text → Among text (cons (str choice) rest)
  there : (choice : Json) (rest : Items) → Among text rest → Among text (cons choice rest)

is_choice-Among :
    (text : String) (choices : Items) → is_choice text choices ≡ true → Among text choices
unfolding is_choice
is_choice-Among text nil h = cc
is_choice-Among text (cons (str s) rest) h = elim (Bool-cases (str_eq s text)) [
  | inl same ↦ here s rest (ground (arith, str_eq_iff s text))
  | inr other ↦ there (str s) rest (is_choice-Among text rest (rw other at h))
]
is_choice-Among text (cons null rest) h = there null rest (is_choice-Among text rest h)
is_choice-Among text (cons (bool b) rest) h = there (bool b) rest (is_choice-Among text rest h)
is_choice-Among text (cons (num n) rest) h = there (num n) rest (is_choice-Among text rest h)
is_choice-Among text (cons (arr xs) rest) h = there (arr xs) rest (is_choice-Among text rest h)
is_choice-Among text (cons (obj fs) rest) h = there (obj fs) rest (is_choice-Among text rest h)

unlisted : (text : String) (choices : Items) → ¬ Among text choices → is_choice text choices ≡ false
unlisted text choices absent = elim (Bool-cases (is_choice text choices)) [
  | inl listed ↦ absurd (absent (is_choice-Among text choices listed))
  | inr none_of_them ↦ none_of_them
]

module _ (env : Env) (now request_id : ℕ) (user_id : Option ℕ) where
  -- the question with its answer
  abbrev pub with_answer : String → HumanInputRequest → HumanInputRequest
  with_answer text request = record request {
    status = answered;
    answer = some text;
    answered_by_user_id = user_id;
    answered_at = some now;
  }

  -- A pending question in time, whose links are in order, offers choices and says whether it takes
  -- free text. An answer that is none of the choices is noted in the question, which is returned as
  -- answered, if free text is taken. Otherwise HumanInputValidationError is raised and nothing
  -- changes.
  pub answer-unlisted :
      (text : String) (free : Bool) (choice : Json) (choices : Items) (world : World)
      (context : HumanInputResumeContext)
      → IsLinked env request_id pending true world context
      → is_expired now context.request.expires_at ≡ false
      → get context.request.metadata_json "choices" ≡ some (arr (cons choice choices))
      → get context.request.metadata_json "allow_free_text" ≡ some (bool free)
      → ¬ Among text (cons choice choices)
      → let after = answer env now request_id text user_id world in
        let request = with_answer text context.request in
        if free
        then (after.0 ≡ ok (record context { request = request }))
          × (Table.find after.1.human_inputs request.id ≡ some request)
        else (after ≡ (raised human_input_validation_error, world))
  unfolding answer expire_if_needed accepts
  answer-unlisted text true choice choices world context linked early offered open_question absent =
      rw (load_resume_context_total env request_id pending true world context linked)
        (rw early (rw (offered, open_question) (refl, find-put_same _ _ _)))
  answer-unlisted text false choice choices world context linked early offered closed absent =
      rw (load_resume_context_total env request_id pending true world context linked)
        (rw early (rw (offered, closed) (rw (unlisted text (cons choice choices) absent) refl)))
