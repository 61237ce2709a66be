-- ===== src/Precedent/Sample.antt =====
-- Test data: a decision for an excluded funder, and a vector store that keeps what it is given.
use funder_match.Base.{
  Dict, List, Option, String, [], false, get, nat_eq, none, ok, pure, put, some, string_eq, true, ℕ,
  ◌==◌, ◌∷◌,
}
use funder_match.Json.{Json, Payload}
use funder_match.Number.{whole}
use funder_match.Rules.Schema.{
  annual_revenue_metric, ebitda_margin_metric, dscr_metric, RuleCriterion, RuleCheck, Actual,
  Requirement, BorrowerApplication,
}
use funder_match.Suggest.Schema.{DecidedLoanCase, SuggestionBundle}
use funder_match.Samples.{fact, borrower}
use funder_match.Workflow.Schema.{
  WorkflowState, extracted, rule_gated, ai_suggested, awaiting_human, ActorRole, human_reviewer,
  ActorClaims, HumanAction, HumanDecisionRecord, Stamp,
}
use funder_match.Workflow.Repository.{key_eq}
use funder_match.Workflow.Service.{Call, create_call, advance_call, decide_call}
use funder_match.Precedent.Store.{Client, Point}
use funder_match.Precedent.Writeback.{Writer}

abbrev pub stamp : Stamp
stamp = record {
  fresh_command_id = "fresh";
  audit_id = "audit";
  created_at = 100;
  now = 101;
  occurred_at = 102;
}

abbrev pub robot : ActorClaims
robot = record { actor_id = "svc"; display_name = "Pipeline"; roles = ActorRole.pipeline ∷ [] }

abbrev pub reviewer : ActorClaims
reviewer = record { actor_id = "r1"; display_name = "Reviewer"; roles = human_reviewer ∷ [] }

abbrev pub shown_payload : Payload
shown_payload = ("k", Json.text "v") ∷ []

abbrev pub step : String → ℕ → WorkflowState → Option Payload → Call
step command version target payload =
    advance_call "app-1"
      (record {
        command_id = command;
        expected_version = version;
        target_state = target;
        reason = "done";
        suggestion = payload;
      })
      robot

-- the reviewer takes the funder that the rules left out, and says why
abbrev pub approval : Call
approval =
    decide_call "app-1"
      (record {
        command_id = "c5";
        expected_version = 4;
        action = HumanAction.approve;
        funder_id = some "f2";
        reason = "sound";
        conditions = [];
        overrides =
            record { criterion = "dscr"; original_result = "2"; justification = "new contract" }
            ∷ [];
        restart_stage = none;
      })
      reviewer

abbrev pub calls : List (Stamp × Call)
calls =
    (stamp, create_call "app-1" robot (some "c0") "entered")
    ∷ (stamp, step "c1" 0 extracted none)
    ∷ (stamp, step "c2" 1 rule_gated none)
    ∷ (stamp, step "c3" 2 ai_suggested (some shown_payload))
    ∷ (stamp, step "c4" 3 awaiting_human none)
    ∷ (stamp, approval)
    ∷ []

abbrev pub mill : BorrowerApplication
mill = record borrower {
  evidence =
      fact annual_revenue_metric (whole 40)
      ∷ fact ebitda_margin_metric (whole 12)
      ∷ fact dscr_metric (whole 2)
      ∷ [];
}

abbrev pub failed_dscr : RuleCheck
failed_dscr = record {
  criterion = RuleCriterion.dscr;
  passed = false;
  actual = Actual.figure (whole 2);
  requirement = Requirement.at_least (whole 3);
}

abbrev pub shown_bundle : SuggestionBundle
shown_bundle = record {
  application = mill;
  candidates = [];
  excluded_funders =
      record { funder_id = "f2"; display_name = "Strict"; failed_checks = failed_dscr ∷ [] } ∷ [];
  claims = [];
}

-- a vector store that keeps what it is given, by point
abbrev pub Points : Type 0
Points = Dict String Payload

abbrev pub put_all : List Point → Points → Points
put_all [] q = q
put_all (p ∷ ps) q = put_all ps (put p.id p.payload q)

abbrev pub found_in : List String → Points → List (Option Payload)
found_in [] q = []
found_in (i ∷ is) q = elim (get i q) [ none ↦ found_in is q | some p ↦ some p ∷ found_in is q ]

abbrev pub sample_client : Client Points
sample_client = record {
  collection_exists = λ name. pure true;
  delete_collection = λ name q. (ok tt, []);
  create_collection = λ name size. pure tt;
  upsert = λ name points q. (ok tt, put_all points q);
  set_payload = λ name payload point. pure tt;
  retrieve = λ name points q. ok (found_in points q);
}

abbrev pub writer_for : (Payload → Option DecidedLoanCase) → Writer Points
writer_for parse = record {
  store = record {
    client = sample_client;
    embedder = record {
      vector_size = 1;
      embed_profiles = λ cs. ok ((whole 1 ∷ []) ∷ []);
      embed_comments = λ cs. ok ((whole 1 ∷ []) ∷ []);
    };
    collection = "precedents";
    uuid5 = λ s. s;
    dump = λ c. shown_payload;
    parse = parse;
    same = λ a b. a.case_id == b.case_id;
  };
  parse_bundle = λ p. some shown_bundle;
  canonical = λ p. "canonical";
  sha256 = λ s. "0123456789abcdef";
  redact = λ s. s;
  policy_hash = some "0123456789abcdef0123456789abcdef0123456789abcdef0123456789abcdef";
  validity_days = some 30;
  day = 10;
}

abbrev pub made_decision : HumanDecisionRecord
made_decision = record {
  action = HumanAction.approve;
  funder_id = some "f2";
  reason = "sound";
  conditions = [];
  overrides =
      record { criterion = "dscr"; original_result = "2"; justification = "new contract" } ∷ [];
  actor_id = "r1";
  actor_display_name = "Reviewer";
  decided_at = 101;
}
