-- ===== src/Orchestration/Progress.antt =====
-- One invocation of the graph: the order of the workers is kept, the loop ends, and the review is
-- reached only through every worker.
use funder_match.Base.{
  Dict, List, Option, Option-cases, Result, Result-cases, String, [], ap, arith, contains, err,
  false, inl, inr, nat_eq, none, ok, ok-injective, put, refl, some, string_eq, subst, sym, true, ℕ,
  ◌++◌, ◌+◌, ◌∙◌, ◌∷◌, ◌≡◌, ◌≢◌, ◌⊎◌,
}
use mathlib.Core.List.{append-nil, append_assoc}
use funder_match.Orchestration.Fields.{validate_compact_state}
use funder_match.Orchestration.Schema.{
  GraphStatus, waiting_for_review, status_eq, WorkerName, worker_eq, ApplicationMemoryState,
  WorkerResult, WorkerReceipt, is_distinct, command_for, no_command, initial, InputReference,
}
use funder_match.Orchestration.Context.{Raised, failure, WorkerExecutionPolicy}
use funder_match.Orchestration.Graph.{
  Graph, Attempt, run_worker, attempt_worker, attempt_outcome, success_update, failure_update,
  remaining, first_or, next_status, make_context, attempts_of, policy_for, settle, signed,
}
use funder_match.Orchestration.Order.{remaining_split, contains-append}

abbrev pub receipt_workers : List WorkerReceipt → List WorkerName
receipt_workers [] = []
receipt_workers (r ∷ rs) = r.worker ∷ receipt_workers rs

-- The workers stand in the graph's order, done before pending; the current one is the first that is
-- pending; each worker that is done has one receipt, in the same order; the current worker is one of
-- the order; a graph that waits for its review has no worker pending.
pub record IsOrdered (order : List WorkerName) (s : ApplicationMemoryState) : Type 0 where
  pub split : s.completed_workers ++ s.pending_workers ≡ order
  pub current : s.current_node ≡ first_or s.current_node s.pending_workers
  pub receipts : receipt_workers s.worker_receipts ≡ s.completed_workers
  pub member : contains s.current_node order ≡ true
  pub handed_over : s.status ≡ waiting_for_review → s.pending_workers ≡ []

receipt_workers-append :
    (rs : List WorkerReceipt) (r : WorkerReceipt)
    → receipt_workers (rs ++ r ∷ []) ≡ receipt_workers rs ++ r.worker ∷ []
receipt_workers-append [] r = refl
receipt_workers-append (x ∷ rs) r = ap (λ t. x.worker ∷ t) (receipt_workers-append rs r)

-- The worker that has just answered leaves the pending ones, and the rest stays as it was.
remaining_after :
    (order done : List WorkerName) (w : WorkerName) (rest : List WorkerName)
    → is_distinct order ≡ true
    → done ++ w ∷ rest ≡ order
    → remaining order (done ++ w ∷ []) ≡ rest
remaining_after order done w rest d e =
    let split : (done ++ w ∷ []) ++ rest ≡ order = append_assoc done (w ∷ []) rest ∙ e in
    subst (λ o. remaining o (done ++ w ∷ []) ≡ rest) split
      (remaining_split (done ++ w ∷ []) rest (subst (λ o. is_distinct o ≡ true) (sym split) d))

first_or_idem :
    (w : WorkerName) (ws : List WorkerName) → first_or w ws ≡ first_or (first_or w ws) ws
first_or_idem w [] = refl
first_or_idem w (x ∷ ws) = refl

head_member :
    (w : WorkerName) (rest done : List WorkerName)
    → contains (first_or w rest) (done ++ w ∷ rest) ≡ true
head_member w [] done = ground (arith, contains-append w done (w ∷ []))
head_member w (x ∷ rest) done = ground (arith, contains-append x done (w ∷ x ∷ rest))

next_status-waiting : (ws : List WorkerName) → next_status ws ≡ waiting_for_review → ws ≡ []
next_status-waiting [] h = refl
next_status-waiting (x ∷ ws) h = cc

signed-worker :
    (sign : Option (WorkerReceipt → String)) (r : WorkerReceipt) → (signed sign r).worker ≡ r.worker
signed-worker none r = refl
signed-worker (some sign) r = refl

success_update-IsOrdered :
    (g : Graph) (s : ApplicationMemoryState) (r : WorkerResult) (rest : List WorkerName)
    (attempts : Dict WorkerName ℕ) (n : ℕ) (c : String) (a : Attempt)
    → is_distinct g.worker_order ≡ true
    → IsOrdered g.worker_order s
    → s.pending_workers ≡ r.worker ∷ rest
    → IsOrdered g.worker_order (success_update g s r attempts n c a)
      × ((success_update g s r attempts n c a).pending_workers ≡ rest)
unfolding success_update
success_update-IsOrdered g s r rest attempts n c a d h p =
    let before : s.completed_workers ++ r.worker ∷ rest ≡ g.worker_order = rw p at h.split in
    let left = remaining_after g.worker_order s.completed_workers r.worker rest d before in
    rw left (
      record {
        split = append_assoc s.completed_workers (r.worker ∷ []) rest ∙ before;
        current = first_or_idem r.worker rest;
        receipts =
            rw (receipt_workers-append, h.receipts)
              (ap (λ w. s.completed_workers ++ w ∷ []) (signed-worker g.sign _));
        member =
            subst (λ o. contains (first_or r.worker rest) o ≡ true) before
              (head_member r.worker rest s.completed_workers);
        handed_over = next_status-waiting rest;
      },
      refl,
    )

-- What one attempt may come to, from a running state with `w` at the head of the pending workers:
-- it is stopped with the workers as they were, or it has moved `w` from pending to done.
pub data Advance (s s' : ApplicationMemoryState) : Type 0 where
  stopped :
      s'.status ≢ GraphStatus.running
      → s'.status ≢ waiting_for_review
      → s'.pending_workers ≡ s.pending_workers
      → Advance s s'
  moved :
      (rest : List WorkerName)
      → s.pending_workers ≡ s.current_node ∷ rest
      → s'.pending_workers ≡ rest
      → s'.status ≡ next_status rest
      → Advance s s'

failure_update-stops :
    (s : ApplicationMemoryState) (attempts : Dict WorkerName ℕ) (t : ℕ) (e : Raised)
    → ((failure_update s attempts t e).status ≢ GraphStatus.running)
      × ((failure_update s attempts t e).status ≢ waiting_for_review)
unfolding failure_update
failure_update-stops s attempts t (failure f) = ground arith
failure_update-stops s attempts t _ = ground arith

failure_update-IsOrdered :
    (order : List WorkerName) (s : ApplicationMemoryState) (attempts : Dict WorkerName ℕ) (t : ℕ)
    (e : Raised)
    → IsOrdered order s
    → IsOrdered order (failure_update s attempts t e)
unfolding failure_update
failure_update-IsOrdered order s attempts t (failure f) h = ground arith
failure_update-IsOrdered order s attempts t _ h = ground arith

failure_update-pending :
    (s : ApplicationMemoryState) (attempts : Dict WorkerName ℕ) (t : ℕ) (e : Raised)
    → (failure_update s attempts t e).pending_workers ≡ s.pending_workers
unfolding failure_update
failure_update-pending s attempts t (failure f) = refl
failure_update-pending s attempts t _ = refl

success_update-status :
    (g : Graph) (s : ApplicationMemoryState) (r : WorkerResult) (attempts : Dict WorkerName ℕ)
    (n : ℕ) (c : String) (a : Attempt)
    → (success_update g s r attempts n c a).status
      ≡ next_status (success_update g s r attempts n c a).pending_workers
unfolding success_update
success_update-status g s r attempts n c a = refl

validate-same :
    (size : ApplicationMemoryState → ℕ) (s s' : ApplicationMemoryState)
    → validate_compact_state size s ≡ ok s'
    → s' ≡ s
unfolding validate_compact_state
validate-same size s s' h = ground arith

attempt_outcome-worker :
    (g : Graph) (w : WorkerName) (policy : Option WorkerExecutionPolicy) (n : ℕ) (a : Attempt)
    (r : WorkerResult)
    → attempt_outcome g w policy n a ≡ ok r
    → r.worker ≡ w
unfolding attempt_outcome
attempt_outcome-worker g w policy n a r h = ground arith

head_split :
    (w : WorkerName) (ws : List WorkerName)
    → w ≡ first_or w ws
    → (ws ≡ []) ⊎ ((rest : List WorkerName) × (ws ≡ w ∷ rest))
head_split w [] e = inl refl
head_split w (x ∷ ws) e = inr (ws, ap (λ t. t ∷ ws) (sym e))

is_distinct-append_member :
    (w : WorkerName) (ws : List WorkerName)
    → contains w ws ≡ true
    → is_distinct (ws ++ w ∷ []) ≡ false
is_distinct-append_member w [] h = cc
is_distinct-append_member w (x ∷ ws) h =
    ground (arith, is_distinct-append_member w ws, contains-append x ws (w ∷ []))

module _ (g : Graph) (s s' : ApplicationMemoryState) (distinct : is_distinct g.worker_order ≡ true)
    (ordered : IsOrdered g.worker_order s) where
  settle-stopped :
      (attempts : Dict WorkerName ℕ) (t : ℕ) (e : Raised)
      → failure_update s attempts t e ≡ s'
      → IsOrdered g.worker_order s' × Advance s s'
  settle-stopped attempts t e same =
      let stops = failure_update-stops s attempts t e in
      subst (λ t. IsOrdered g.worker_order t × Advance s t) same
        (
          failure_update-IsOrdered g.worker_order s attempts t e ordered,
          stopped stops.0 stops.1 (failure_update-pending s attempts t e),
        )

  -- With every worker done there is no room for another success: the validator refuses it.
  settle-overrun :
      (attempts : Dict WorkerName ℕ) (n : ℕ) (c : String) (a : Attempt) (r : WorkerResult)
      → r.worker ≡ s.current_node
      → s.pending_workers ≡ []
      → validate_compact_state g.size (success_update g s r attempts n c a) ≢ ok s'
  unfolding success_update validate_compact_state
  settle-overrun attempts n c a r own none_left h =
      let all_done : s.completed_workers ≡ g.worker_order =
        sym (append-nil s.completed_workers) ∙ rw none_left at ordered.split in
      let twice : is_distinct (s.completed_workers ++ r.worker ∷ []) ≡ false =
        is_distinct-append_member r.worker s.completed_workers
          (rw (own, all_done) ordered.member) in
      ground arith

  settle-Advance :
      (attempts : Dict WorkerName ℕ) (n : ℕ) (c : String) (a : Attempt)
      (out : Result Raised WorkerResult)
      → ((r : WorkerResult) → out ≡ ok r → r.worker ≡ s.current_node)
      → settle g s attempts n c a out ≡ ok s'
      → IsOrdered g.worker_order s' × Advance s s'
  settle-Advance attempts n c a (err e) own h = settle-stopped attempts a.failed_at e cc
  settle-Advance attempts n c a (ok r) own h =
      elim (head_split s.current_node s.pending_workers ordered.current) [
        | inl none_left ↦ absurd (settle-overrun attempts n c a r (own r refl) none_left h)
        | inr (rest, pending) ↦
            let same = validate-same g.size (success_update g s r attempts n c a) s' h in
            let by : s.pending_workers ≡ r.worker ∷ rest = rw (own r refl) pending in
            let done = success_update-IsOrdered g s r rest attempts n c a distinct ordered by in
            subst (λ t. IsOrdered g.worker_order t × Advance s t) (sym same)
              (
                done.0,
                moved rest pending done.1
                    (success_update-status g s r attempts n c a ∙ ap next_status done.1),
              )
      ]

  attempt_worker-Advance : attempt_worker g s ≡ ok s' → IsOrdered g.worker_order s' × Advance s s'
  unfolding attempt_worker
  attempt_worker-Advance h = elim (Option-cases (command_for s.current_node s.commands)) [
    | inl missing ↦
        let refused : attempt_worker g s ≡ err no_command = rw (missing, attempt_worker) in cc
    | inr (c, found) ↦
        let w = s.current_node in
        let n = attempts_of w s + 1 in
        let a = g.run w s (make_context g s c (policy_for g w)) in
        settle-Advance (put w n s.attempts) n c a (attempt_outcome g w (policy_for g w) n a)
          (λ r. attempt_outcome-worker g w (policy_for g w) n a r) (rw (found, attempt_worker) at h)
  ]

  -- An attempt keeps the order, and either stops the graph or moves one worker on.
  pub run_worker-Advance : run_worker g s ≡ ok s' → IsOrdered g.worker_order s' × Advance s s'
  unfolding run_worker
  run_worker-Advance h = elim (Result-cases (validate_compact_state g.size s)) [
    | inr (e, invalid) ↦ let refused : run_worker g s ≡ err e = rw (invalid, run_worker) in cc
    | inl (t, valid) ↦
        let same = validate-same g.size s t valid in
        attempt_worker-Advance (rw (valid, run_worker, same) at h)
  ]

head_present : (w : WorkerName) (ws : List WorkerName) → contains w (w ∷ ws) ≡ true
head_present w ws = ground arith

-- A new graph is in order.
pub initial-IsOrdered :
    (command_id : String → WorkerName → String) (id : String) (order : List WorkerName)
    (job : Option String) (inputs : List InputReference) (s : ApplicationMemoryState)
    → initial command_id id order job inputs ≡ ok s
    → IsOrdered order s
unfolding initial
initial-IsOrdered command_id id [] job inputs s h = cc
initial-IsOrdered command_id id (w ∷ ws) job inputs s h =
    let made : IsOrdered (w ∷ ws) _ = record {
      split = refl;
      current = refl;
      receipts = refl;
      member = head_present w ws;
      handed_over = λ waits. cc;
    } in
    subst (λ t. IsOrdered (w ∷ ws) t) (ok-injective h) made
