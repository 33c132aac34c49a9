-- ===== src/SagaWorker/Starts.antt =====
-- What apps/saga-worker/src/main.ts uses of Temporal's client, which is a parameter: the start of an
-- order's workflow, and the test of what it throws.
use Prim.Native.Char.{code}
use flash_bite.Prelude.{
  ℕ, ◌+◌, ◌<◌, String, ◌≡◌, Bool, true, false, ◌&&◌, ◌||◌, List, [], ◌∷◌, ◌++◌, count, ◌==◌, nat_eq,
  leb, if◌then◌else◌, ◌⊎◌,
}

pub record SagaTimes : Type 0 where
  pub sla_seconds : ℕ
  pub confirm_seconds : ℕ
  pub offer_timeout_seconds : ℕ
  pub max_offers : ℕ
  pub delivery_seconds : ℕ

-- The argument of `orderLifecycleWorkflow`
pub record SagaInput : Type 0 where
  pub tenant_id : String
  pub order_id : String
  pub total_amount : ℕ
  pub times : SagaTimes
  pub correlation_id : String

abbrev pub has_id : String → String × SagaInput → Bool
has_id id e = e.0 == id

-- `WorkflowIdReusePolicy`
pub data ReusePolicy : Type 0 where
  allow_duplicate allow_duplicate_failed_only reject_duplicate terminate_if_running : ReusePolicy

-- What `workflow.start` comes to: the error of an id that is refused, or another, with its text.
pub data Started : Type 0 where
  begun already_started : Started
  failed : String → Started

-- `String(err)` of a `WorkflowExecutionAlreadyStartedError`
abbrev pub already_started_text : String
already_started_text = "WorkflowExecutionAlreadyStartedError: Workflow execution already started"

-- Upper and lower case of a character are one, as with a regular expression's flag `i`.
abbrev lower_code : ℕ → ℕ
lower_code c = if leb b'A' c && leb c b'Z' then c + 32 else c

starts : String → String → Bool
starts String.[] text = true
starts (String.◌∷◌ c word) String.[] = false
starts (String.◌∷◌ c word) (String.◌∷◌ d text) =
    nat_eq (lower_code (code c)) (lower_code (code d)) && starts word text

unfoldable pub says : String → String → Bool
unfolding starts
says word String.[] = starts word String.[]
says word (String.◌∷◌ d text) = starts word (String.◌∷◌ d text) || says word text

-- The workflow executions that Temporal has, and `workflow.start`. Under the policy that rejects
-- duplicates an id that was used is refused, and another error may come before or after the execution
-- was begun; its text speaks of something else.
pub record Temporal : Type 1 where
  pub Db : Type 0
  pub executions : Db → List (String × SagaInput)
  pub start : ReusePolicy → Db → String → SagaInput → Started × Db
  pub start_begun :
      (db : Db) (id : String) (input : SagaInput)
      → (start ReusePolicy.reject_duplicate db id input).0 ≡ begun
      → (count (has_id id) (executions db) ≡ 0)
        × (executions (start ReusePolicy.reject_duplicate db id input).1
            ≡ executions db ++ (id, input) ∷ [])
  pub start_refused :
      (db : Db) (id : String) (input : SagaInput)
      → (start ReusePolicy.reject_duplicate db id input).0 ≡ already_started
      → (0 < count (has_id id) (executions db))
        × (executions (start ReusePolicy.reject_duplicate db id input).1 ≡ executions db)
  pub start_failed :
      (db : Db) (id : String) (input : SagaInput) (text : String)
      → (start ReusePolicy.reject_duplicate db id input).0 ≡ failed text
      → (says "already started" text ≡ false)
        × (says "WorkflowExecutionAlreadyStarted" text ≡ false)
        × ((executions (start ReusePolicy.reject_duplicate db id input).1 ≡ executions db)
            ⊎ ((count (has_id id) (executions db) ≡ 0)
                × (executions (start ReusePolicy.reject_duplicate db id input).1
                    ≡ executions db ++ (id, input) ∷ [])))

-- `/already started|WorkflowExecutionAlreadyStarted/i`
unfoldable pub is_already_started : String → Bool
unfolding says
is_already_started text = says "already started" text || says "WorkflowExecutionAlreadyStarted" text
