-- ===== src/Workflow/Trail.antt =====
-- The life of an application as an abstract specification: the allowed moves with the role that
-- each one needs, and what an audit trail must be.
use funder_match.Base.{
  Bool, List, Option, String, [], arith, contains, false, get, length, nat_eq, none, refl, some,
  string_eq, suc, sym, true, ℕ, ◌++◌, ◌+◌, ◌∙◌, ◌∷◌, ◌≡◌,
}
use funder_match.Workflow.Schema.{
  WorkflowState, intake, extracted, rule_gated, ai_suggested, awaiting_human, human_decided,
  precedent_written, state_eq, ActorRole, human_reviewer, role_eq, WorkflowRecord, AuditEvent,
}
use funder_match.Workflow.Repository.{Repository, log}
use funder_match.Workflow.Transitions.{is_sent_back}

-- A move of an application, and the role that may make it.
pub data Edge : Option WorkflowState → WorkflowState → ActorRole → Type 0 where
  enter : Edge none intake ActorRole.pipeline
  extract : Edge (some intake) extracted ActorRole.pipeline
  gate : Edge (some extracted) rule_gated ActorRole.pipeline
  suggest : Edge (some rule_gated) ai_suggested ActorRole.pipeline
  hand_over : Edge (some ai_suggested) awaiting_human ActorRole.pipeline
  decide : Edge (some awaiting_human) human_decided human_reviewer
  write : Edge (some human_decided) precedent_written ActorRole.pipeline
  restart_intake : Edge (some human_decided) intake human_reviewer
  restart_extracted : Edge (some human_decided) extracted human_reviewer
  restart_rule_gated : Edge (some human_decided) rule_gated human_reviewer
  restart_ai_suggested : Edge (some human_decided) ai_suggested human_reviewer

pub ruleset edges = (
  enter, extract, gate, suggest, hand_over, decide, write, restart_intake, restart_extracted,
  restart_rule_gated, restart_ai_suggested,
)

abbrev pub is_some {ℓ} : {A : Type ℓ} → Option A → Bool
is_some none = false
is_some (some _) = true

-- The states in which a decision stands.
abbrev pub is_decided : WorkflowState → Bool
is_decided human_decided = true
is_decided precedent_written = true
is_decided _ = false

abbrev pub is_written : WorkflowState → Bool
is_written precedent_written = true
is_written _ = false

-- A record holds a decision exactly in the two last states, a receipt exactly in the last one, and
-- what was written is no send-back.
pub record IsWellFormed (w : WorkflowRecord) : Type 0 where
  pub decision_stands : is_some w.decision ≡ is_decided w.state
  pub receipt_stands : is_some w.precedent_receipt ≡ is_written w.state
  pub no_send_back : is_written w.state ≡ true → is_sent_back w.decision ≡ false

-- What a command does to a record of version `w.version`, when it goes through.
pub record Moves (w : WorkflowRecord) (n : ℕ) (w' : WorkflowRecord) (e : AuditEvent) : Type 0 where
  pub same_application : w'.application_id ≡ w.application_id
  pub next_version : w'.version ≡ w.version + 1
  pub sequence : e.sequence ≡ n
  pub from_state : e.from_state ≡ some w.state
  pub to_state : e.to_state ≡ w'.state
  pub role : ActorRole
  pub edge : Edge (some w.state) w'.state role
  pub allowed : contains role e.actor_roles ≡ true
  pub well_formed : IsWellFormed w → IsWellFormed w'

-- A trail from `before`, its first number `k`: numbered without a gap, each event begins where the
-- one before it ended, and each is a move that one of its actor's roles may make.
abbrev pub Follows : Option WorkflowState → ℕ → List AuditEvent → Option WorkflowState → Type 0
Follows before k [] after = before ≡ after
Follows before k (e ∷ es) after =
    (e.from_state ≡ before)
    × (e.sequence ≡ k)
    × ((role : ActorRole) × Edge before e.to_state role × (contains role e.actor_roles ≡ true))
    × Follows (some e.to_state) (suc k) es after

-- What the repository holds of an application: a record in a proper state, and a trail that leads
-- from nothing to that state in `version + 1` events.
pub record Entry (id : String) (w : WorkflowRecord) (es : List AuditEvent) : Type 0 where
  pub own : w.application_id ≡ id
  pub well_formed : IsWellFormed w
  pub trail : Follows none 1 es (some w.state)
  pub counted : length es ≡ w.version + 1

abbrev pub IsSound : Repository → Type 0
IsSound r = (id : String) (w : WorkflowRecord) → get id r.workflows ≡ some w → Entry id w (log id r)

pub Follows-append :
    (before : Option WorkflowState) (k : ℕ) (es : List AuditEvent) (middle : WorkflowState)
    (e : AuditEvent) (role : ActorRole)
    → Follows before k es (some middle)
    → e.from_state ≡ some middle
    → e.sequence ≡ k + length es
    → Edge (some middle) e.to_state role
    → contains role e.actor_roles ≡ true
    → Follows before k (es ++ e ∷ []) (some e.to_state)
Follows-append before k [] middle e role f from s edge allowed =
    (from ∙ sym f, omega arith, (role, rw f edge, allowed), refl)
Follows-append before k (x ∷ es) middle e role f from s edge allowed = (
  f.0,
  f.1,
  f.2,
  Follows-append (some x.to_state) (suc k) es middle e role f.3 from (omega arith) edge allowed,
)
