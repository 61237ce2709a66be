-- ===== src/Workflow/Moves.antt =====
-- Each of the four commands, when it goes through, makes a move of the specification.
use funder_match.Base.{
  ==_iff, List, arith, contains, nat_eq, ok, some, string_eq, subst, true, ℕ, ◌≡◌,
}
use funder_match.Workflow.Schema.{
  WorkflowState, intake, extracted, rule_gated, ai_suggested, awaiting_human, human_decided,
  precedent_written, state_eq, ActorRole, human_reviewer, role_eq, RestartStage, ActorClaims,
  PipelineAdvanceCommand, HumanDecisionCommand, PipelineReopenCommand, PrecedentWriteCommand,
  PrecedentWriteReceipt, WorkflowRecord, AuditEvent, Stamp,
}
use funder_match.Workflow.Transitions.{
  advance_transition, decide_transition, written_transition, reopen_transition, sorted_roles,
  targets, restart_states, pipeline_transitions,
}
use funder_match.Workflow.Trail.{
  Edge, extract, gate, suggest, hand_over, decide, write, restart_intake, restart_extracted,
  restart_rule_gated, restart_ai_suggested, Moves,
}

pub sorted_roles-contains :
    (role : ActorRole) (roles : List ActorRole)
    → contains role (sorted_roles roles) ≡ contains role roles
unfolding sorted_roles
sorted_roles-contains ActorRole.pipeline roles = ground arith
sorted_roles-contains human_reviewer roles = ground arith

pipeline_edge :
    (s t : WorkflowState)
    → targets (pipeline_transitions s) t ≡ true
    → Edge (some s) t ActorRole.pipeline
unfolding pipeline_transitions
pipeline_edge intake t h = rw (← (==_iff extracted t).0 h) extract
pipeline_edge extracted t h = rw (← (==_iff rule_gated t).0 h) gate
pipeline_edge rule_gated t h = rw (← (==_iff ai_suggested t).0 h) suggest
pipeline_edge ai_suggested t h = rw (← (==_iff awaiting_human t).0 h) hand_over
pipeline_edge _ t h = cc

advance_edge :
    (t : Stamp) (c : PipelineAdvanceCommand) (a : ActorClaims) (w w' : WorkflowRecord) (n : ℕ)
    (e : AuditEvent)
    → advance_transition t c a w n ≡ ok (w', e)
    → Edge (some w.state) w'.state ActorRole.pipeline
unfolding advance_transition
advance_edge t c a w w' n e h =
    let same : w'.state ≡ c.target_state = ground arith in
    let target : targets (pipeline_transitions w.state) c.target_state ≡ true = ground arith in
    rw same (pipeline_edge w.state c.target_state target)

-- the roles of an event are those of the actor
advance_allowed :
    (t : Stamp) (c : PipelineAdvanceCommand) (a : ActorClaims) (w w' : WorkflowRecord) (n : ℕ)
    (e : AuditEvent)
    → contains ActorRole.pipeline a.roles ≡ true
    → advance_transition t c a w n ≡ ok (w', e)
    → contains ActorRole.pipeline e.actor_roles ≡ true
unfolding advance_transition
advance_allowed t c a w w' n e p h =
    let roles : e.actor_roles ≡ sorted_roles a.roles = ground arith in
    rw (roles, sorted_roles-contains) p

pub advance-Moves :
    (t : Stamp) (c : PipelineAdvanceCommand) (a : ActorClaims) (w w' : WorkflowRecord) (n : ℕ)
    (e : AuditEvent)
    → contains ActorRole.pipeline a.roles ≡ true
    → advance_transition t c a w n ≡ ok (w', e)
    → Moves w n w' e
unfolding advance_transition
advance-Moves t c a w w' n e p h = record {
  same_application = ground arith;
  next_version = ground arith;
  sequence = ground arith;
  from_state = ground arith;
  to_state = ground arith;
  role = ActorRole.pipeline;
  edge = advance_edge t c a w w' n e h;
  allowed = advance_allowed t c a w w' n e p h;
  well_formed = λ f. ground arith;
}

decide_edge :
    (t : Stamp) (c : HumanDecisionCommand) (a : ActorClaims) (w w' : WorkflowRecord) (n : ℕ)
    (e : AuditEvent)
    → decide_transition t c a w n ≡ ok (w', e)
    → Edge (some w.state) w'.state human_reviewer
unfolding decide_transition
decide_edge t c a w w' n e h =
    let before : w.state ≡ awaiting_human = ground arith in
    let after : w'.state ≡ human_decided = ground arith in rw (before, after) decide

decide_allowed :
    (t : Stamp) (c : HumanDecisionCommand) (a : ActorClaims) (w w' : WorkflowRecord) (n : ℕ)
    (e : AuditEvent)
    → contains human_reviewer a.roles ≡ true
    → decide_transition t c a w n ≡ ok (w', e)
    → contains human_reviewer e.actor_roles ≡ true
unfolding decide_transition
decide_allowed t c a w w' n e p h =
    let roles : e.actor_roles ≡ sorted_roles a.roles = ground arith in
    rw (roles, sorted_roles-contains) p

pub decide-Moves :
    (t : Stamp) (c : HumanDecisionCommand) (a : ActorClaims) (w w' : WorkflowRecord) (n : ℕ)
    (e : AuditEvent)
    → contains human_reviewer a.roles ≡ true
    → decide_transition t c a w n ≡ ok (w', e)
    → Moves w n w' e
unfolding decide_transition
decide-Moves t c a w w' n e p h = record {
  same_application = ground arith;
  next_version = ground arith;
  sequence = ground arith;
  from_state = ground arith;
  to_state = ground arith;
  role = human_reviewer;
  edge = decide_edge t c a w w' n e h;
  allowed = decide_allowed t c a w w' n e p h;
  well_formed = λ f. ground arith;
}

written_edge :
    (t : Stamp) (c : PrecedentWriteCommand) (r : PrecedentWriteReceipt) (a : ActorClaims)
    (w w' : WorkflowRecord) (n : ℕ) (e : AuditEvent)
    → written_transition t c r a w n ≡ ok (w', e)
    → Edge (some w.state) w'.state ActorRole.pipeline
unfolding written_transition
written_edge t c r a w w' n e h =
    let before : w.state ≡ human_decided = ground arith in
    let after : w'.state ≡ precedent_written = ground arith in rw (before, after) write

written_allowed :
    (t : Stamp) (c : PrecedentWriteCommand) (r : PrecedentWriteReceipt) (a : ActorClaims)
    (w w' : WorkflowRecord) (n : ℕ) (e : AuditEvent)
    → contains ActorRole.pipeline a.roles ≡ true
    → written_transition t c r a w n ≡ ok (w', e)
    → contains ActorRole.pipeline e.actor_roles ≡ true
unfolding written_transition
written_allowed t c r a w w' n e p h =
    let roles : e.actor_roles ≡ sorted_roles a.roles = ground arith in
    rw (roles, sorted_roles-contains) p

pub written-Moves :
    (t : Stamp) (c : PrecedentWriteCommand) (r : PrecedentWriteReceipt) (a : ActorClaims)
    (w w' : WorkflowRecord) (n : ℕ) (e : AuditEvent)
    → contains ActorRole.pipeline a.roles ≡ true
    → written_transition t c r a w n ≡ ok (w', e)
    → Moves w n w' e
unfolding written_transition
written-Moves t c r a w w' n e p h = record {
  same_application = ground arith;
  next_version = ground arith;
  sequence = ground arith;
  from_state = ground arith;
  to_state = ground arith;
  role = ActorRole.pipeline;
  edge = written_edge t c r a w w' n e h;
  allowed = written_allowed t c r a w w' n e p h;
  well_formed = λ f. ground arith;
}

reopened :
    {s t : WorkflowState}
    → some s ≡ some t
    → Edge (some human_decided) s human_reviewer
    → Edge (some human_decided) t human_reviewer
reopened {s} {t} h e =
    let same : s ≡ t = cc in subst (λ x. Edge (some human_decided) x human_reviewer) same e

restart_edge :
    (s : RestartStage) (t : WorkflowState)
    → restart_states s ≡ some t
    → Edge (some human_decided) t human_reviewer
unfolding restart_states
restart_edge RestartStage.document_processing t h = reopened h restart_intake
restart_edge RestartStage.financial_analysis t h = reopened h restart_intake
restart_edge RestartStage.eligibility t h = reopened h restart_extracted
restart_edge RestartStage.precedent_retrieval t h = reopened h restart_rule_gated
restart_edge RestartStage.suggestion t h = reopened h restart_rule_gated
restart_edge RestartStage.guardrails t h = reopened h restart_ai_suggested
restart_edge _ t h = cc

reopen_edge :
    (t : Stamp) (c : PipelineReopenCommand) (a : ActorClaims) (w w' : WorkflowRecord) (n : ℕ)
    (e : AuditEvent)
    → reopen_transition t c a w n ≡ ok (w', e)
    → Edge (some w.state) w'.state human_reviewer
unfolding reopen_transition
reopen_edge t c a w w' n e h =
    let before : w.state ≡ human_decided = ground arith in
    let after : restart_states c.restart_stage ≡ some w'.state = ground arith in
    rw before (restart_edge c.restart_stage w'.state after)

reopen_allowed :
    (t : Stamp) (c : PipelineReopenCommand) (a : ActorClaims) (w w' : WorkflowRecord) (n : ℕ)
    (e : AuditEvent)
    → contains human_reviewer a.roles ≡ true
    → reopen_transition t c a w n ≡ ok (w', e)
    → contains human_reviewer e.actor_roles ≡ true
unfolding reopen_transition
reopen_allowed t c a w w' n e p h =
    let roles : e.actor_roles ≡ sorted_roles a.roles = ground arith in
    rw (roles, sorted_roles-contains) p

pub reopen-Moves :
    (t : Stamp) (c : PipelineReopenCommand) (a : ActorClaims) (w w' : WorkflowRecord) (n : ℕ)
    (e : AuditEvent)
    → contains human_reviewer a.roles ≡ true
    → reopen_transition t c a w n ≡ ok (w', e)
    → Moves w n w' e
unfolding reopen_transition
reopen-Moves t c a w w' n e p h = record {
  same_application = ground arith;
  next_version = ground arith;
  sequence = ground arith;
  from_state = ground arith;
  to_state = ground arith;
  role = human_reviewer;
  edge = reopen_edge t c a w w' n e h;
  allowed = reopen_allowed t c a w w' n e p h;
  well_formed = λ f. ground arith;
}
