-- ===== src/Orchestration/SendBack.antt =====
-- `rewind`, graph.py: the order after a send-back, and what it does to a worker's attempts.
use funder_match.Base.{
  ==_iff, Bool, Bool-cases, List, String, [], all, ap, arith, contains, false, inl, inr, keep,
  keep-append, nat_eq, none, not, ok, put, refl, some, string_eq, subst, suc, sym, true, ℕ, ◌++◌,
  ◌+◌, ◌==◌, ◌∙◌, ◌∷◌, ◌≡◌, ◌≤◌,
}
use mathlib.Core.List.{append-nil}
use funder_match.Orchestration.Context.{WorkerExecutionPolicy}
use funder_match.Orchestration.Fields.{validate_compact_state}
use funder_match.Orchestration.Schema.{
  GraphStatus, GraphStatus-discrete, failed_terminal, waiting_for_review, WorkerName, worker_eq,
  WorkerReceipt, WorkerCommand, ApplicationMemoryState, is_distinct, command_for, command_workers,
}
use funder_match.Orchestration.Graph.{
  Graph, attempt_limit, policy_for, attempts_of, exceeds, make_context, attempt_outcome,
  failure_update, failed_update, attempt_worker, run_worker, drive, continues,
}
use funder_match.Orchestration.Order.{keep-all, all_present, parts_disjoint}
use funder_match.Orchestration.Progress.{IsOrdered, receipt_workers}
use funder_match.Orchestration.Supervisor.{before, from_on, rewind_state}

before-from_on :
    (w : WorkerName) (order : List WorkerName) → before w order ++ from_on w order ≡ order
unfolding before from_on
before-from_on w [] = refl
before-from_on w (x ∷ xs) = ground (arith, before-from_on w xs)

from_on-head :
    (w : WorkerName) (order : List WorkerName)
    → contains w order ≡ true
    → (rest : List WorkerName) × (from_on w order ≡ w ∷ rest)
unfolding from_on
from_on-head w [] h = cc
from_on-head w (x ∷ xs) h = elim (Bool-cases (x == w)) [
  | inl same ↦ let here : x ≡ w = (==_iff x w).0 same in (xs, rw same (ap (λ t. t ∷ xs) here))
  | inr other ↦ let (rest, e) = from_on-head w xs (ground arith) in (rest, rw other e)
]

keep_rest :
    (p : WorkerName → Bool) (xs : List WorkerName) → all (λ w. not (p w)) xs ≡ true → keep p xs ≡ []
keep_rest p [] h = refl
keep_rest p (x ∷ xs) h = ground (arith, keep_rest p xs)

-- Of an order without duplicates, the workers of its first part are that part.
keep_first :
    (xs ys : List WorkerName)
    → is_distinct (xs ++ ys) ≡ true
    → keep (λ w. contains w xs) (xs ++ ys) ≡ xs
keep_first xs ys d =
    keep-append (λ w. contains w xs) xs ys
    ∙ rw
        (
          keep-all (λ w. contains w xs) xs (all_present [] xs),
          keep_rest (λ w. contains w xs) ys (parts_disjoint xs ys ys d (all_present [] ys)),
        )
        (append-nil xs)

receipt_workers-keep :
    (done : List WorkerName) (rs : List WorkerReceipt)
    → receipt_workers (keep (λ r. contains r.worker done) rs)
      ≡ keep (λ w. contains w done) (receipt_workers rs)
receipt_workers-keep done [] = refl
receipt_workers-keep done (r ∷ rs) = ground (arith, receipt_workers-keep done rs)

-- What a send-back to `w` makes of a state: everything else is as the workers left it.
pub record IsRewound (order : List WorkerName) (w : WorkerName) (s s' : ApplicationMemoryState)
    : Type 0 where
  pub runs : s'.status ≡ GraphStatus.running
  pub at : s'.current_node ≡ w
  pub done : s'.completed_workers ≡ before w order
  pub pending : s'.pending_workers ≡ from_on w order
  pub receipts :
      s'.worker_receipts ≡ keep (λ r. contains r.worker (before w order)) s.worker_receipts
  pub attempts : s'.attempts ≡ s.attempts
  pub commands : s'.commands ≡ s.commands
  pub unreviewed : s'.human_review ≡ none

rewind_state-IsRewound :
    (order : List WorkerName) (w : WorkerName) (s s' : ApplicationMemoryState)
    → rewind_state order w s ≡ ok s'
    → IsRewound order w s s'
unfolding rewind_state
rewind_state-IsRewound order w s s' h = ground arith

-- A send-back of an application that waits for its review, to any worker of the graph, leaves the
-- workers in order again: those before `w` are done, each with its receipt, and `w` is next.
pub rewind_state-IsOrdered :
    (order : List WorkerName) (w : WorkerName) (s s' : ApplicationMemoryState)
    → is_distinct order ≡ true
    → IsOrdered order s
    → s.status ≡ waiting_for_review
    → contains w order ≡ true
    → rewind_state order w s ≡ ok s'
    → IsOrdered order s' × IsRewound order w s s'
rewind_state-IsOrdered order w s s' d h waits member ran =
    let z = rewind_state-IsRewound order w s s' ran in
    let whole = before-from_on w order in
    let (rest, e) = from_on-head w order member in
    let all_done : s.completed_workers ≡ order =
      sym (append-nil _) ∙ (rw (h.handed_over waits) at h.split) in
    let first : keep (λ x. contains x (before w order)) order ≡ before w order =
      subst (λ o. keep (λ x. contains x (before w order)) o ≡ before w order) whole
        (keep_first (before w order) (from_on w order) (rw whole d)) in
    (
      record {
        split = rw (z.done, z.pending) whole;
        current = rw (z.at, z.pending, e) refl;
        receipts =
            rw (z.receipts, z.done)
              (receipt_workers-keep (before w order) s.worker_receipts
                ∙ rw (h.receipts, all_done) first);
        member = rw z.at member;
        handed_over = λ waiting. absurd (ground (arith, z.runs));
      },
      z,
    )

command_for-some :
    (w : WorkerName) (cs : List WorkerCommand)
    → contains w (command_workers cs) ≡ true
    → (c : String) × (command_for w cs ≡ some c)
unfolding command_for
command_for-some w [] h = cc
command_for-some w (c ∷ cs) h = elim (Bool-cases (c.worker == w)) [
  | inl same ↦ (c.command_id, rw same refl)
  | inr other ↦ let (d, e) = command_for-some w cs (ground arith) in (d, rw other e)
]

validate-command :
    (size : ApplicationMemoryState → ℕ) (s : ApplicationMemoryState)
    → validate_compact_state size s ≡ ok s
    → contains s.current_node (command_workers s.commands) ≡ true
unfolding validate_compact_state
validate-command size s h = ground arith

attempt_worker-exhausted :
    (g : Graph) (s : ApplicationMemoryState) (p : WorkerExecutionPolicy)
    → policy_for g s.current_node ≡ some p
    → p.max_attempts ≤ attempts_of s.current_node s
    → contains s.current_node (command_workers s.commands) ≡ true
    → (t : ℕ) × (attempt_worker g s
        ≡ ok (
            failed_update s
              (put s.current_node (attempts_of s.current_node s + 1) s.attempts)
              t
              failed_terminal
              attempt_limit.code
              attempt_limit.message
              false))
unfolding attempt_worker attempt_outcome failure_update
attempt_worker-exhausted g s p policy spent known =
    let (c, found) = command_for-some s.current_node s.commands known in
    let a = g.run s.current_node s (make_context g s c (policy_for g s.current_node)) in
    let over : exceeds (policy_for g s.current_node) (attempts_of s.current_node s + 1) ≡ true =
      rw policy (ground arith) in
    (a.failed_at, rw (found, attempt_worker) (rw over refl))

run_worker-valid :
    (g : Graph) (s : ApplicationMemoryState)
    → validate_compact_state g.size s ≡ ok s
    → run_worker g s ≡ attempt_worker g s
unfolding run_worker
run_worker-valid g s valid = rw (valid, run_worker) refl

drive-stops :
    (g : Graph) (limit : ℕ) (s t : ApplicationMemoryState)
    → run_worker g s ≡ ok t
    → continues t ≡ false
    → drive g (suc limit) s ≡ (ok tt, t)
unfolding drive
drive-stops g limit s t ran rests = rw (ran, drive) (rw rests refl)

-- A send-back to a worker that has used up the attempts of its policy cannot succeed, whatever the
-- worker would do: the attempts of before the send-back count, so the graph ends in failed_terminal.
pub rewind_state-exhausted :
    (g : Graph) (limit : ℕ) (w : WorkerName) (s s' : ApplicationMemoryState)
    (p : WorkerExecutionPolicy)
    → policy_for g w ≡ some p
    → p.max_attempts ≤ attempts_of w s
    → rewind_state g.worker_order w s ≡ ok s'
    → validate_compact_state g.size s' ≡ ok s'
    → ((drive g (suc limit) s').0 ≡ ok tt)
      × (((drive g (suc limit) s').1.status ≡ failed_terminal)
          × ((drive g (suc limit) s').1.completed_workers ≡ before w g.worker_order))
unfolding GraphStatus-discrete
rewind_state-exhausted g limit w s s' p policy spent ran valid =
    let z = rewind_state-IsRewound g.worker_order w s s' ran in
    let (t, e) =
      attempt_worker-exhausted g s' p (rw z.at policy) (rw (z.at, z.attempts) spent)
        (validate-command g.size s' valid) in
    let one = run_worker-valid g s' valid ∙ e in
    rw (drive-stops g limit s' _ one refl) (refl, (refl, z.done))
