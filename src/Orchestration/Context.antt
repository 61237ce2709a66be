-- ===== src/Orchestration/Context.antt =====
-- `WorkerFailure` and `WorkerContext`, src/fundermatch/orchestration/graph.py: a worker's budget of
-- tool calls; and its policy, src/fundermatch/security/policy.py.
use funder_match.Base.{
  Bool, Exec, List, Option, Result, String, [], contains, err, false, if◌then◌else◌, ltb, nat_eq,
  none, not, ok, some, string_eq, true, ℕ, ◌++◌, ◌+◌, ◌∷◌,
}
use funder_match.Number.{Decimal}

pub record WorkerExecutionPolicy : Type 0 where
  pub permitted_tools : List String
  pub max_calls : ℕ
  pub call_timeout_seconds : ℕ
  pub worker_deadline_seconds : ℕ
  pub max_attempts : ℕ
  pub backoff_seconds : Decimal
  pub side_effects : List String

pub record WorkerFailure : Type 0 where
  pub code : String
  pub message : String
  pub retryable : Bool
  pub needs_attention : Bool

-- What a worker or a tool may raise.
pub data Raised : Type 0 where
  failure : WorkerFailure → Raised
  timeout_error other_error : Raised

pub record WorkerContext : Type 0 where
  pub application_id : String
  pub command_id : String
  pub max_tool_calls : ℕ
  pub permitted_tools : Option (List String)
  pub call_timeout_seconds : Option ℕ
  pub tool_calls : ℕ
  pub tools : List String

abbrev pub tool_not_permitted : WorkerFailure
tool_not_permitted = record {
  code = "tool_not_permitted";
  message = "worker attempted a tool outside its production policy";
  retryable = false;
  needs_attention = false;
}

abbrev pub tool_budget_exceeded : WorkerFailure
tool_budget_exceeded = record {
  code = "tool_budget_exceeded";
  message = "worker exceeded its bounded tool-call budget";
  retryable = false;
  needs_attention = false;
}

abbrev pub tool_timeout : WorkerFailure
tool_timeout = record {
  code = "tool_timeout";
  message = "worker tool exceeded its production timeout";
  retryable = true;
  needs_attention = false;
}

abbrev pub is_permitted : Option (List String) → String → Bool
is_permitted none tool = true
is_permitted (some tools) tool = contains tool tools

-- The call is counted and listed before the budget is tested.
unfoldable pub consume_tool_call : String → Exec WorkerContext Raised (Unit {0})
consume_tool_call tool c =
    if not (is_permitted c.permitted_tools tool)
    then (err (failure tool_not_permitted), c)
    else (let c' = record c { tool_calls = c.tool_calls + 1; tools = c.tools ++ tool ∷ [] } in
        if ltb c'.max_tool_calls c'.tool_calls
        then (err (failure tool_budget_exceeded), c')
        else (ok tt, c'))

-- With a timeout set, an operation that times out is a failure; without one, what it raises passes.
abbrev pub as_tool_timeout {ℓ} : {A : Type ℓ} → Option ℕ → Result Raised A → Result Raised A
as_tool_timeout (some _) (err timeout_error) = err (failure tool_timeout)
as_tool_timeout _ r = r

-- `operation` is what the awaited call comes to.
unfoldable pub execute {ℓ} : {A : Type ℓ} → String → Result Raised A → Exec WorkerContext Raised A
execute tool operation c =
    let (r, c') = consume_tool_call tool c in
    elim r [ ok _ ↦ (as_tool_timeout c'.call_timeout_seconds operation, c') | err e ↦ (err e, c') ]
