-- ===== src/Workflow/Decisions.antt =====
-- What the commands carry: the conditions of a human decision, and the advisory payload.
use funder_match.Base.{
  [], arith, nat_eq, none, ok, refl, some, string_eq, ℕ, ◌+◌, ◌↔◌, ◌≡◌, ◌≢◌, ◌⊎◌,
}
use funder_match.Workflow.Schema.{
  AuditAction, Changes, rule_gated, ai_suggested, approve_with_conditions, send_back,
  HumanDecisionCommand, validate_conditions, action_eq, state_eq, WorkflowRecord, AuditEvent,
  PipelineAdvanceCommand, ActorClaims, Stamp,
}
use funder_match.Workflow.Transitions.{advance_transition, make_event}

-- Which decisions a reviewer may send.
pub record IsPermitted (c : HumanDecisionCommand) : Type 0 where
  pub conditions : (c.action ≡ approve_with_conditions) ↔ (c.conditions ≢ [])
  pub funder : (c.action ≡ send_back) ↔ (c.funder_id ≡ none)
  pub stage : c.restart_stage ≢ none → c.action ≡ send_back

-- The validator lets exactly the permitted decisions through, and returns them as they are.
pub validate_conditions-IsPermitted :
    (c : HumanDecisionCommand) → (validate_conditions c ≡ ok c) ↔ IsPermitted c
unfolding validate_conditions
validate_conditions-IsPermitted c = (λ h. ground arith, λ h. ground arith)

-- A pipeline advance that goes through leaves the payload alone, unless it enters AI_SUGGESTED with
-- a payload that is not empty: then it stores that one.
pub advance-suggestion :
    (t : Stamp) (c : PipelineAdvanceCommand) (a : ActorClaims) (w w' : WorkflowRecord) (n : ℕ)
    (e : AuditEvent)
    → advance_transition t c a w n ≡ ok (w', e)
    → ((w'.suggestion ≡ w.suggestion) × (w'.state ≡ ai_suggested → c.suggestion ≡ some []))
      ⊎ ((w'.state ≡ ai_suggested)
          × (c.suggestion ≢ none)
          × (c.suggestion ≢ some [])
          × (w'.suggestion ≡ c.suggestion))
unfolding advance_transition
advance-suggestion t c a w w' n e h = ground arith

-- An empty payload passes the test for a payload and is then taken for none: the application
-- arrives in AI_SUGGESTED with no suggestion at all.
pub empty_suggestion_lost :
    (t : Stamp) (c : PipelineAdvanceCommand) (a : ActorClaims) (w : WorkflowRecord) (n : ℕ)
    → w.state ≡ rule_gated
    → w.suggestion ≡ none
    → w.version ≡ c.expected_version
    → c.target_state ≡ ai_suggested
    → c.suggestion ≡ some []
    → (w' : WorkflowRecord) × (e : AuditEvent) × (advance_transition t c a w n ≡ ok (w', e))
      × (w'.state ≡ ai_suggested)
      × (w'.suggestion ≡ none)
unfolding advance_transition
empty_suggestion_lost t c a w n s none_yet version target empty_payload =
    let w' = record w { state = ai_suggested; version = w.version + 1; updated_at = t.now } in
    (
      w',
      make_event t c.command_id w' n a (some w.state) ai_suggested AuditAction.pipeline_advance
          c.reason (Changes.advanced ai_suggested (w.version + 1)),
      ground arith,
      refl,
      none_yet,
    )
