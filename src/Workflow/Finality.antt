-- ===== src/Workflow/Finality.antt =====
-- A written precedent is final.
use funder_match.Base.{
  ==_iff, Bool-cases, List, Option-cases, Result, String, [], ap, arith, err, get, get-put, inl,
  inr, length, nat_eq, none, ok, refl, some, some-injective, string_eq, sym, ℕ, ◌+◌, ◌==◌, ◌∙◌, ◌∷◌,
  ◌≡◌, ◌≢◌,
}
use funder_match.Workflow.Schema.{
  WorkflowRecord, AuditEvent, WorkflowError, Stamp, precedent_written,
}
use funder_match.Workflow.Repository
use funder_match.Workflow.Repository.{Repository, Transition, CommandKey, key_eq, log, store}
use funder_match.Workflow.Service
use funder_match.Workflow.Service.{Call, create_call, perform, serve}
use funder_match.Workflow.Requests.{Request, request, submit, perform-submit, body-final}

-- Storing the result of a transition that cannot move `w` keeps `w`.
store-final :
    (id j command : String) (r : Repository) (v w : WorkflowRecord)
    (x : Result WorkflowError (WorkflowRecord × AuditEvent))
    → get j r.workflows ≡ some w
    → get id r.workflows ≡ some v
    → (v ≡ w → (y : WorkflowRecord × AuditEvent) → x ≢ ok y)
    → get j (store id command r x).1.workflows ≡ some w
store-final id j command r v w (err x) found current stuck = found
store-final id j command r v w (ok (w', e)) found current stuck = elim (Bool-cases (id == j)) [
  | inr other ↦ ground (arith, get-put j id w' r.workflows)
  | inl same ↦
      let key : id ≡ j = (==_iff id j).0 same in
      let value : v ≡ w =
        some-injective v w (sym current ∙ ap (λ k. get k r.workflows) key ∙ found) in
      absurd (stuck value (w', e) refl)
]

transition-final :
    (id j command : String) (f : Transition) (r : Repository) (w : WorkflowRecord)
    → get j r.workflows ≡ some w
    → ((n : ℕ) (y : WorkflowRecord × AuditEvent) → f w n ≢ ok y)
    → get j (Repository.transition id command f r).1.workflows ≡ some w
unfolding Repository.transition
transition-final id j command f r w found stuck =
    elim (Option-cases (get (record { application = id; command = command }) r.commands)) [
      | inr (prior, e) ↦ rw (e, Repository.transition) found
      | inl fresh ↦ elim (Option-cases (get id r.workflows)) [
        | inl missing ↦
            rw (fresh, Repository.transition) (rw (missing, Repository.transition) found)
        | inr (v, current) ↦
            rw (fresh, Repository.transition)
              (rw (current, Repository.transition)
                (store-final id j command r v w (f v (length (log id r) + 1)) found current
                  (λ e y p. stuck (length (log id r) + 1) y (rw e at p))))
      ]
    ]

submit-final :
    (t : Stamp) (c : Call) (q : Request) (j : String) (r : Repository) (w : WorkflowRecord)
    → request c ≡ some q
    → w.state ≡ precedent_written
    → get j r.workflows ≡ some w
    → get j (submit t q r).1.workflows ≡ some w
submit-final t c q j r w same final found = elim (Bool-cases q.allowed) [
  | inr p ↦ rw p found
  | inl p ↦ elim (Bool-cases q.unresolved) [
    | inl u ↦ rw (p, u) found
    | inr u ↦
        rw (p, u)
          (transition-final q.application j q.command (q.body t) r w found
            (λ n y. body-final t c q w n y same final))
  ]
]

create-final :
    (t : Stamp) (c : Call) (j : String) (r : Repository) (w : WorkflowRecord)
    → request c ≡ none
    → get j r.workflows ≡ some w
    → get j (perform t c r).1.workflows ≡ some w
unfolding perform Service.create Repository.create
create-final t (create_call id a command reason) j r w n found =
    ground (arith, get-put j id (Service.new_record t id) r.workflows)
create-final t _ j r w n found = cc

perform-final :
    (t : Stamp) (c : Call) (j : String) (r : Repository) (w : WorkflowRecord)
    → w.state ≡ precedent_written
    → get j r.workflows ≡ some w
    → get j (perform t c r).1.workflows ≡ some w
perform-final t c j r w final found = elim (Option-cases (request c)) [
  | inl new ↦ create-final t c j r w new found
  | inr (q, same) ↦ rw (perform-submit t c q r same) (submit-final t c q j r w same final found)
]

-- Once its precedent is written, an application's record never changes again, whatever is called.
pub written_final :
    (calls : List (Stamp × Call)) (j : String) (r : Repository) (w : WorkflowRecord)
    → w.state ≡ precedent_written
    → get j r.workflows ≡ some w
    → get j (serve calls r).workflows ≡ some w
unfolding serve
written_final [] j r w final found = found
written_final ((t, c) ∷ calls) j r w final found =
    written_final calls j (perform t c r).1 w final (perform-final t c j r w final found)
