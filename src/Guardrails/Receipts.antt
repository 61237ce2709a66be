-- ===== src/Guardrails/Receipts.antt =====
-- The receipts that the guardrails let through.
use funder_match.Base.{
  All, Bool, Dict, List, Option, Option-cases, Result, Result-cases, String, [], any, arith,
  contains, err, false, get, inl, inr, length, nat_eq, none, not, ok, refl, some, string_eq, true,
  ◌*◌, ◌==◌, ◌∷◌, ◌≡◌, ◌≤◌,
}
use funder_match.Number.{whole, at_most, below}
use funder_match.Orchestration.Schema.{value, WorkerReceipt}
use funder_match.Orchestration.Context.{WorkerExecutionPolicy}
use funder_match.Guardrails.Worker.{Refusal, checked_receipt, each, checked_receipts}

-- A receipt under the policy `hash`: signed, verified, and within its worker's budget.
pub record IsTrusted (policies : Dict String WorkerExecutionPolicy) (hash : String)
    (verify : WorkerReceipt → String → Bool) (r : WorkerReceipt) : Type 0 where
  pub same_policy : r.policy_hash ≡ some hash
  pub signature : String
  pub signed : r.signature ≡ some signature
  pub filled : (signature == "") ≡ false
  pub verified : verify r signature ≡ true
  pub policy : WorkerExecutionPolicy
  pub known : get (value r.worker) policies ≡ some policy
  pub attempts : r.attempt ≤ policy.max_attempts
  pub calls : length r.tool_calls ≤ policy.max_calls
  pub permitted : any (λ tool. not (contains tool policy.permitted_tools)) r.tool_calls ≡ false
  pub in_time : at_most r.latency_ms (whole (policy.worker_deadline_seconds * 1000)) ≡ true

-- Under no policy any receipts will do.
abbrev pub AllTrusted :
    Dict String WorkerExecutionPolicy
    → Option String
    → Option (WorkerReceipt → String → Bool)
    → List WorkerReceipt
    → Type 0
AllTrusted policies none verify rs = Unit
AllTrusted policies (some hash) none rs = ⊥
AllTrusted policies (some hash) (some verify) rs = All (IsTrusted policies hash verify) rs

module _ {A : Type 0} where
  pub each-All :
      (f : A → Result Refusal (Unit {0})) (P : A → Type 0) (xs : List A)
      → ((x : A) → f x ≡ ok tt → P x)
      → each f xs ≡ ok tt
      → All P xs
  unfolding each
  each-All f P [] p h = tt
  each-All f P (x ∷ xs) p h = elim (Result-cases (f x)) [
    | inl (t, good) ↦
        let rest : each f xs ≡ ok tt = rw (good, each) at h in (p x good, each-All f P xs p rest)
    | inr (e, bad) ↦ let refused : each f (x ∷ xs) ≡ err e = rw (bad, each) refl in cc
  ]

pub checked_receipt-IsTrusted :
    (policies : Dict String WorkerExecutionPolicy) (hash : String)
    (verify : WorkerReceipt → String → Bool) (r : WorkerReceipt)
    → checked_receipt policies hash verify r ≡ ok tt
    → IsTrusted policies hash verify r
unfolding checked_receipt below
checked_receipt-IsTrusted policies hash verify r h = elim (Option-cases r.policy_hash) [
  | inl absent ↦ ground arith
  | inr (p, named) ↦ elim (Option-cases r.signature) [
    | inl absent ↦ ground arith
    | inr (s, signed) ↦ elim (Option-cases (get (value r.worker) policies)) [
      | inl absent ↦ ground arith
      | inr (q, known) ↦ record {
        same_policy = ground arith;
        signature = s;
        signed = signed;
        filled = ground arith;
        verified = ground arith;
        policy = q;
        known = known;
        attempts = ground arith;
        calls = ground arith;
        permitted = ground arith;
        in_time = ground arith;
      }
    ]
  ]
]

pub checked_receipts-AllTrusted :
    (policies : Dict String WorkerExecutionPolicy) (o : Option String)
    (v : Option (WorkerReceipt → String → Bool)) (rs : List WorkerReceipt)
    → checked_receipts policies o v rs ≡ ok tt
    → AllTrusted policies o v rs
checked_receipts-AllTrusted policies none v rs h = tt
checked_receipts-AllTrusted policies (some hash) none rs h = cc
checked_receipts-AllTrusted policies (some hash) (some verify) rs h =
    each-All (checked_receipt policies hash verify) (IsTrusted policies hash verify) rs
      (checked_receipt-IsTrusted policies hash verify) h
