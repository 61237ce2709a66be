-- ===== src/Guardrails/Tests.antt =====
-- A state with one receipt, one citation and one precedent, which passes.
use funder_match.Base.{
  String-discrete, [], false, get, nat_eq, none, ok, refl, some, string_eq, true, ℕ, ◌==◌, ◌↔◌, ◌∷◌,
  ◌≡◌,
}
use native.Mathlib.Decide.{ℕ_discrete}
use funder_match.Number.{whole, at_most, below}
use funder_match.Orchestration.Schema.{
  WorkerName, value, GraphStatus, EvidenceReference, WorkerReceipt, ApplicationMemoryState,
}
use funder_match.Orchestration.Context.{
  WorkerExecutionPolicy, WorkerContext, execute, consume_tool_call,
}
use funder_match.Rules.Schema.{dscr_metric}
use funder_match.Suggest.Schema.{RuleGatedRetrievalResult, Grounding, SuggestionBundle}
use funder_match.Samples.{fact, borrower, close_match}
use funder_match.Workspace.Files.{
  System, Codec, FileKey-discrete, artifact, Workspace, artifact_path, folder, read_bytes,
}
use funder_match.Workspace.Operations.{load}
use funder_match.Guardrails.Worker.{Guard, cites, checked_receipt, checked_claim, each}
use funder_match.Guardrails.Run.{verdict, run, checked, expected_values, guardrails_of, result_of}
use funder_match.Guardrails.Specification.{IsReleased}
use funder_match.Guardrails.Released.{run-IsReleased_iff}

-- Files are kept as they are, and each one parses.
abbrev plain_system : System ℕ
plain_system = record {
  encrypt = λ key nonce m aad. m;
  decrypt = λ key nonce m aad. some m;
  key_size = λ key. 32;
  size = λ m. 1;
  sha256 = λ m. "digest";
  is_pdf = λ m. true;
  is_pdf_name = λ name. true;
  path_name = λ name. name;
  path_parts = λ name. name ∷ [];
  is_inside = λ id. true;
  json_path = λ name. name;
  without_suffix = λ path. path;
  is_json_name = λ part. false;
}

abbrev plain_codec : Codec ℕ
plain_codec = record { dumps = λ v. v.ciphertext; loads = λ m. none }

abbrev found : RuleGatedRetrievalResult
found = record { application_id = "app-1"; eligibility = []; matches = close_match ∷ [] }

abbrev shown : SuggestionBundle
shown = record {
  application = borrower;
  candidates = [];
  excluded_funders = [];
  claims =
      record {
        application_id = "app-1";
        policy_hash = some "policy";
        grounding = Grounding.evidence_claim (fact dscr_metric (whole 2));
      }
      ∷ record {
        application_id = "app-1";
        policy_hash = some "policy";
        grounding = Grounding.precedent_claim "case-1" (whole 1);
      }
      ∷ [];
}

abbrev budget : WorkerExecutionPolicy
budget = record {
  permitted_tools = "extract" ∷ [];
  max_calls = 2;
  call_timeout_seconds = 5;
  worker_deadline_seconds = 30;
  max_attempts = 1;
  backoff_seconds = whole 1;
  side_effects = [];
}

abbrev sample_guard : Guard ℕ
sample_guard = record {
  system = plain_system;
  codec = plain_codec;
  parse_application = λ m. some borrower;
  parse_retrieval = λ m. some found;
  parse_suggestion = λ m. some shown;
  policy_hash = some "policy";
  verify = some (λ r s. s == "signature");
  execution_policies = ("document_processing", budget) ∷ [];
  resolve = some (λ is. ok true);
  text_of = λ d. "2";
  count_text = λ n. "9";
  size = λ s. 1000;
  result_hash = λ w id names. "hash";
}

abbrev receipt : WorkerReceipt
receipt = record {
  worker = WorkerName.document_processing;
  command_id = "c";
  output_sha256 = "o";
  attempt = 1;
  tool_calls = "extract" ∷ [];
  latency_ms = whole 900;
  policy_hash = some "policy";
  signature = some "signature";
  completed_at = 5;
}

abbrev citation : EvidenceReference
citation = record {
  evidence_id = "e";
  metric = "dscr";
  value = "2";
  unit = none;
  period = none;
  document_id = "d";
  page_number = 1;
  bbox = record { x0 = whole 0; y0 = whole 0; x1 = whole 1; y1 = whole 1 };
}

abbrev sample_state : ApplicationMemoryState
sample_state = record {
  application_id = "app-1";
  job_id = none;
  status = GraphStatus.running;
  current_node = WorkerName.guardrails;
  completed_workers = [];
  pending_workers = WorkerName.guardrails ∷ [];
  attempts = [];
  input_references = [];
  documents =
      record {
        document_id = "d";
        sha256 = "s";
        page_count = 1;
        chunk_count = 1;
        config_hash = none;
      }
      ∷ [];
  evidence = citation ∷ [];
  eligibility = record { funder_id = "f1"; eligible = true; failed_criteria = [] } ∷ [];
  guardrails = [];
  human_review = none;
  workflow_state = none;
  workflow_version = none;
  config_hash = none;
  model_revision = none;
  commands = [];
  worker_receipts = receipt ∷ [];
  write_receipts = [];
  last_error = none;
}

abbrev sample_workspace : Workspace ℕ
sample_workspace = record {
  files =
      (artifact "app-1" "financial_analysis", 1)
      ∷ (artifact "app-1" "precedent_retrieval", 2)
      ∷ (artifact "app-1" "suggestion", 3)
      ∷ [];
  folders = "app-1" ∷ [];
  master_key = none;
  key_version = "v1";
}

abbrev sample_context : WorkerContext
sample_context = record {
  application_id = "app-1";
  command_id = "c";
  max_tool_calls = 3;
  permitted_tools = some ("qdrant_verify" ∷ []);
  call_timeout_seconds = some 5;
  tool_calls = 0;
  tools = [];
}

run-IsReleased_iff_example :
    ((run sample_guard sample_workspace sample_state sample_context).0
      ≡ ok (result_of sample_guard sample_state))
    ↔ IsReleased sample_guard sample_workspace sample_state sample_context
        (result_of sample_guard sample_state)
run-IsReleased_iff_example =
    run-IsReleased_iff sample_guard sample_workspace sample_state sample_context

passes_checks : run sample_guard sample_workspace sample_state sample_context ≡ (
  ok (result_of sample_guard sample_state),
  record sample_context { tool_calls = 1; tools = "qdrant_verify" ∷ [] },
)
unfolding run verdict checked expected_values guardrails_of result_of each checked_receipt
    checked_claim cites execute consume_tool_call load read_bytes artifact_path folder value get
    at_most below String-discrete FileKey-discrete ℕ_discrete
passes_checks = refl
