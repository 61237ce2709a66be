-- ===== src/Precedent/Justified.antt =====
-- What has to hold for a precedent to be written.
use funder_match.Base.{
  All, Bool-cases, List, Option, Option-cases, String, [], arith, contains, false, get, inl, inr,
  nat_eq, none, ok, refl, some, string_eq, true, ◌∷◌, ◌≡◌, ◌≢◌, ◌⊎◌,
}
use funder_match.Json.{Payload}
use funder_match.Workflow.Schema.{
  human_decided, state_eq, role_eq, send_back, action_eq, DecisionOverride, HumanDecisionRecord,
  PrecedentWriteCommand, WorkflowRecord,
}
use funder_match.Rules.Schema.{RuleCheck}
use funder_match.Suggest.Schema.{DecidedLoanCase, ExcludedFunder, SuggestionBundle, candidate_ids}
use funder_match.Precedent.Writeback.{
  Writer, criterion_value, criteria, missing, excluded_into, selected_excluded,
  validate_selected_funder, build_case,
}
use funder_match.Precedent.Service.{prepare}

-- Each failed check is a criterion of an override.
abbrev pub AllDocumented : List RuleCheck → List DecisionOverride → Type 0
AllDocumented checks overrides =
    All (λ k. contains (criterion_value k.criterion) (criteria overrides) ≡ true) checks

-- The funder is a candidate of the bundle, or an excluded one whose failed checks are all documented.
pub record IsSelectable (b : SuggestionBundle) (funder : String) (overrides : List DecisionOverride)
    : Type 0 where
  pub allowed :
      (contains funder (candidate_ids b.candidates) ≡ true)
      ⊎ ((f : ExcludedFunder) × ((get funder (excluded_into [] b.excluded_funders) ≡ some f)
            × AllDocumented f.failed_checks overrides))

missing-AllDocumented :
    (checks : List RuleCheck) (overrides : List DecisionOverride)
    → missing checks overrides ≡ false
    → AllDocumented checks overrides
missing-AllDocumented [] overrides h = tt
missing-AllDocumented (k ∷ ks) overrides h =
    (ground arith, missing-AllDocumented ks overrides (ground arith))

selected_excluded-documented :
    (o : Option ExcludedFunder) (overrides : List DecisionOverride)
    → selected_excluded o overrides ≡ ok tt
    → (f : ExcludedFunder) × ((o ≡ some f) × AllDocumented f.failed_checks overrides)
selected_excluded-documented none overrides h = cc
selected_excluded-documented (some f) overrides h =
    (f, (refl, missing-AllDocumented f.failed_checks overrides (ground arith)))

select-IsSelectable :
    (b : SuggestionBundle) (o : Option String) (overrides : List DecisionOverride)
    → validate_selected_funder b o overrides ≡ ok tt
    → (funder : String) × ((o ≡ some funder) × IsSelectable b funder overrides)
unfolding validate_selected_funder
select-IsSelectable b none overrides h = cc
select-IsSelectable b (some funder) overrides h =
    elim (Bool-cases (contains funder (candidate_ids b.candidates))) [
      | inl there ↦ (funder, (refl, record { allowed = inl there }))
      | inr absent ↦ (
        funder,
        (
          refl,
          record {
            allowed = inr (
                selected_excluded-documented (get funder (excluded_into [] b.excluded_funders))
                  overrides (ground arith));
          },
        ),
      )
    ]

-- A workflow whose decision, made by a human on a bundle of its own, may be kept as the case `c`.
pub record IsDecided {Q : Type 0} (e : Writer Q) (id : String) (w : WorkflowRecord)
    (c : DecidedLoanCase) : Type 0 where
  pub complete : w.state ≡ human_decided
  pub decision : HumanDecisionRecord
  pub made : w.decision ≡ some decision
  pub lending : decision.action ≢ send_back
  pub bundle : SuggestionBundle
  pub payload : Payload
  pub shown : w.suggestion ≡ some payload
  pub read : e.parse_bundle payload ≡ some bundle
  pub own : bundle.application.application_id ≡ id
  pub funder : String
  pub chosen : decision.funder_id ≡ some funder
  pub selectable : IsSelectable bundle funder decision.overrides
  pub built : build_case e bundle decision ≡ ok c

module _ {Q : Type 0} where
  pub prepare-IsDecided :
      (e : Writer Q) (id : String) (command : PrecedentWriteCommand) (w : WorkflowRecord)
      (c : DecidedLoanCase)
      → prepare e id command w ≡ ok c
      → (IsDecided e id w c) × (w.version ≡ command.expected_version)
  unfolding prepare
  prepare-IsDecided e id command w c h = elim (Option-cases w.decision) [
    | inl absent ↦ ground arith
    | inr (d, made) ↦ elim (Option-cases w.suggestion) [
      | inl absent ↦ ground arith
      | inr (p, shown) ↦ elim (Option-cases (e.parse_bundle p)) [
        | inl absent ↦ ground arith
        | inr (b, parses) ↦
            let picked = select-IsSelectable b d.funder_id d.overrides (ground arith) in
            (
              record {
                complete = ground arith;
                decision = d;
                made = made;
                lending = ground arith;
                bundle = b;
                payload = p;
                shown = shown;
                read = parses;
                own = ground arith;
                funder = picked.0;
                chosen = picked.1.0;
                selectable = picked.1.1;
                built = ground arith;
              },
              ground arith,
            )
      ]
    ]
  ]
