-- ===== src/Orchestration/Budget.antt =====
-- What a sequence of tool calls of one worker is granted, graph.py.
use funder_match.Base.{
  Bool-cases, List, Result, String, [], all, arith, contains, err, inl, inr, length, nat_eq, ok,
  refl, some, string_eq, true, ◌++◌, ◌+◌, ◌∷◌, ◌≡◌, ◌≤◌,
}
use funder_match.Orchestration.Schema.{ApplicationMemoryState}
use funder_match.Orchestration.Context.{
  WorkerExecutionPolicy, WorkerContext, Raised, consume_tool_call, is_permitted,
}
use funder_match.Orchestration.Graph.{Graph, make_context}

abbrev add_granted : String → Result Raised (Unit {0}) → List String → List String
add_granted tool (ok _) rest = tool ∷ rest
add_granted tool (err _) rest = rest

-- The tools that are let through when a worker asks for these in turn, and goes on after a refusal.
unfoldable pub granted : List String → WorkerContext → List String
granted [] c = []
granted (tool ∷ tools) c =
    let (r, c') = consume_tool_call tool c in add_granted tool r (granted tools c')

-- Once the budget is spent every further call is refused.
granted-spent :
    (tools : List String) (c : WorkerContext)
    → c.max_tool_calls ≤ c.tool_calls
    → granted tools c ≡ []
unfolding granted consume_tool_call
granted-spent [] c h = refl
granted-spent (tool ∷ tools) c h = elim (Bool-cases (is_permitted c.permitted_tools tool)) [
  | inr refused ↦ rw refused (granted-spent tools c h)
  | inl allowed ↦
      let c' = record c { tool_calls = c.tool_calls + 1; tools = c.tools ++ tool ∷ [] } in
      ground (arith, granted-spent tools c')
]

granted_count :
    (tools : List String) (c : WorkerContext)
    → c.tool_calls ≤ c.max_tool_calls
    → length (granted tools c) + c.tool_calls ≤ c.max_tool_calls
unfolding granted consume_tool_call
granted_count [] c h = omega (arith, h)
granted_count (tool ∷ tools) c h = elim (Bool-cases (is_permitted c.permitted_tools tool)) [
  | inr refused ↦ rw refused (granted_count tools c h)
  | inl allowed ↦
      let c' = record c { tool_calls = c.tool_calls + 1; tools = c.tools ++ tool ∷ [] } in
      ground (arith, granted_count tools c', granted-spent tools c')
]

granted_permitted :
    (tools : List String) (c : WorkerContext)
    → all (is_permitted c.permitted_tools) (granted tools c) ≡ true
unfolding granted consume_tool_call
granted_permitted [] c = refl
granted_permitted (tool ∷ tools) c =
    let c' = record c { tool_calls = c.tool_calls + 1; tools = c.tools ++ tool ∷ [] } in
    ground (arith, granted_permitted tools c, granted_permitted tools c')

-- Under an execution policy, whatever tools a worker asks for in one attempt, and even if it goes on
-- after a refusal, at most the policy's number of calls are let through, and all of them are to
-- tools that the policy permits.
pub granted_bounded :
    (g : Graph) (s : ApplicationMemoryState) (command : String) (p : WorkerExecutionPolicy)
    (tools : List String)
    → let through = granted tools (make_context g s command (some p)) in
      (length through ≤ p.max_calls) × (all (λ t. contains t p.permitted_tools) through ≡ true)
unfolding make_context
granted_bounded g s command p tools =
    let c = make_context g s command (some p) in
    (omega (arith, granted_count tools c (omega arith)), granted_permitted tools c)
