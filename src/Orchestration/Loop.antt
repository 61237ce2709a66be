-- ===== src/Orchestration/Loop.antt =====
-- The loop of one invocation: it keeps the order, ends, and stops only in a resting status.
use funder_match.Base.{
  ==_iff, Bool-cases, Dict, List, Option-cases, Result, Result-cases, String, ap, arith, err, false,
  inl, inr, length, length-append, nat_eq, ok, put, refl, string_eq, suc, sym, true, zero, ℕ, ◌++◌,
  ◌+◌, ◌<◌, ◌∙◌, ◌≡◌, ◌≢◌, ◌≤◌,
}
use mathlib.Core.List.{append-nil}
use funder_match.Orchestration.Fields.{validate_compact_state}
use funder_match.Orchestration.Schema.{
  GraphStatus, worker_eq, WorkerResult, waiting_for_review, status_eq, WorkerName,
  ApplicationMemoryState, is_distinct, recursion_limit, command_for, no_command,
}
use funder_match.Orchestration.Context.{Raised}
use funder_match.Orchestration.Graph.{
  Graph, run_worker, attempt_worker, drive, continues, settle, make_context, attempts_of,
  policy_for, attempt_outcome, Attempt,
}
use funder_match.Orchestration.Progress.{
  IsOrdered, Advance, stopped, moved, run_worker-Advance, receipt_workers,
}

module _ (g : Graph) (distinct : is_distinct g.worker_order ≡ true) where
  -- Whatever an invocation comes to, the checkpoint that it leaves is in order.
  pub drive-IsOrdered :
      (limit : ℕ) (s : ApplicationMemoryState)
      → IsOrdered g.worker_order s
      → IsOrdered g.worker_order (drive g limit s).1
  unfolding drive
  drive-IsOrdered zero s h = h
  drive-IsOrdered (suc limit) s h = elim (Result-cases (run_worker g s)) [
    | inr (e, failed) ↦ rw (failed, drive) h
    | inl (s', ran) ↦
        let after = run_worker-Advance g s s' distinct h ran in
        let rest = drive-IsOrdered limit s' after.0 in
        elim (Bool-cases (continues s')) [
          | inl more ↦ rw (ran, drive) (rw more rest)
          | inr done ↦ rw (ran, drive) (rw done after.0)
        ]
  ]

  drive-rests :
      (limit : ℕ) (s : ApplicationMemoryState)
      → (drive g limit s).0 ≡ ok tt
      → (drive g limit s).1.status ≢ GraphStatus.running
  unfolding drive
  drive-rests zero s h = cc
  drive-rests (suc limit) s h = elim (Result-cases (run_worker g s)) [
    | inr (e, failed) ↦
        let refused : (drive g (suc limit) s).0 ≡ err e = rw (failed, drive) refl in cc
    | inl (s', ran) ↦ elim (Bool-cases (continues s')) [
      | inl more ↦ rw (ran, drive) (rw more (drive-rests limit s' (rw (ran, drive, more) at h)))
      | inr done ↦ rw (ran, drive) (rw done (ground arith))
    ]
  ]

validate-ne-limit :
    (size : ApplicationMemoryState → ℕ) (s : ApplicationMemoryState)
    → validate_compact_state size s ≢ err recursion_limit
unfolding validate_compact_state
validate-ne-limit size s h = ground arith

settle-ne-limit :
    (g : Graph) (s : ApplicationMemoryState) (attempts : Dict WorkerName ℕ) (n : ℕ) (c : String)
    (a : Attempt) (out : Result Raised WorkerResult)
    → settle g s attempts n c a out ≢ err recursion_limit
settle-ne-limit g s attempts n c a (ok r) h = validate-ne-limit g.size _ h
settle-ne-limit g s attempts n c a (err e) h = cc

attempt_worker-ne-limit :
    (g : Graph) (s : ApplicationMemoryState) → attempt_worker g s ≢ err recursion_limit
unfolding attempt_worker
attempt_worker-ne-limit g s h = elim (Option-cases (command_for s.current_node s.commands)) [
  | inl missing ↦
      let refused : attempt_worker g s ≡ err no_command = rw (missing, attempt_worker) in cc
  | inr (c, found) ↦
      let w = s.current_node in
      let n = attempts_of w s + 1 in
      let a = g.run w s (make_context g s c (policy_for g w)) in
      settle-ne-limit g s (put w n s.attempts) n c a (attempt_outcome g w (policy_for g w) n a)
        (rw (found, attempt_worker) at h)
]

run_worker-ne-limit :
    (g : Graph) (s : ApplicationMemoryState) → run_worker g s ≢ err recursion_limit
unfolding run_worker
run_worker-ne-limit g s h = elim (Result-cases (validate_compact_state g.size s)) [
  | inr (e, invalid) ↦ validate-ne-limit g.size s (invalid ∙ sym (rw (invalid, run_worker)) ∙ h)
  | inl (t, valid) ↦ attempt_worker-ne-limit g t (rw (valid, run_worker) at h)
]

module _ (g : Graph) (distinct : is_distinct g.worker_order ≡ true) where
  drive_enough :
      (limit : ℕ) (s : ApplicationMemoryState)
      → IsOrdered g.worker_order s
      → length s.pending_workers < limit
      → (drive g limit s).0 ≢ err recursion_limit
  unfolding drive
  drive_enough zero s h few e = elim few [ ]
  drive_enough (suc limit) s h few e = elim (Result-cases (run_worker g s)) [
    | inr (x, failed) ↦
        let raised : (drive g (suc limit) s).0 ≡ err x = rw (failed, drive) refl in
        let same : x ≡ recursion_limit = cc in run_worker-ne-limit g s (rw same at failed)
    | inl (s', ran) ↦ go s' ran (run_worker-Advance g s s' distinct h ran) (drive_enough limit s')
  ]
    where
      resting :
          (s' : ApplicationMemoryState)
          → run_worker g s ≡ ok s'
          → s'.status ≢ GraphStatus.running
          → ⊥
      resting s' ran rests =
          let done : continues s' ≡ false = ground arith in
          let ended : (drive g (suc limit) s).0 ≡ ok tt = rw (ran, drive) (rw done) in cc

      go :
          (s' : ApplicationMemoryState)
          → run_worker g s ≡ ok s'
          → IsOrdered g.worker_order s' × Advance s s'
          → (IsOrdered g.worker_order s'
              → length s'.pending_workers < limit
              → (drive g limit s').0 ≢ err recursion_limit)
          → ⊥
      go s' ran (ordered, stopped rests waits same) ih = resting s' ran rests
      go s' ran (ordered, moved rest before after status) ih = elim (Bool-cases (continues s')) [
        | inr done ↦ resting s' ran (λ busy.
            let yes_busy : continues s' ≡ true = (==_iff s'.status GraphStatus.running).1 busy in
            cc)
        | inl more ↦
            let fewer : length s'.pending_workers < limit =
              omega (arith, ap length before, ap length after) in
            ih ordered fewer (rw (ran, drive, more) at e)
      ]

length-append_le : (xs ys : List WorkerName) → length ys ≤ length (xs ++ ys)
length-append_le xs ys = omega (arith, length-append {0} xs ys)

-- An invocation with at least one step more than the graph has workers always ends by itself,
-- whatever its workers do: it leaves the graph in a status other than running, or the validator has
-- refused a state.
pub drive_ends :
    (g : Graph) (limit : ℕ) (s : ApplicationMemoryState)
    → is_distinct g.worker_order ≡ true
    → IsOrdered g.worker_order s
    → length g.worker_order < limit
    → ((drive g limit s).0 ≢ err recursion_limit)
      × ((drive g limit s).0 ≡ ok tt → (drive g limit s).1.status ≢ GraphStatus.running)
drive_ends g limit s distinct h few = (
  drive_enough g distinct limit s h
      (omega (arith, length-append_le s.completed_workers s.pending_workers, ap length h.split)),
  drive-rests g distinct limit s,
)

-- An invocation, whatever its workers do, hands an application over for review only when every
-- worker of the graph is done, in the graph's order, and each has one receipt.
pub drive_review :
    (g : Graph) (limit : ℕ) (s : ApplicationMemoryState)
    → is_distinct g.worker_order ≡ true
    → IsOrdered g.worker_order s
    → (drive g limit s).1.status ≡ waiting_for_review
    → ((drive g limit s).1.completed_workers ≡ g.worker_order)
      × (receipt_workers (drive g limit s).1.worker_receipts ≡ g.worker_order)
drive_review g limit s distinct h waits =
    let after = drive-IsOrdered g distinct limit s h in
    let all_done : (drive g limit s).1.completed_workers ≡ g.worker_order =
      sym (append-nil _) ∙ (rw (after.handed_over waits) at after.split) in
    (all_done, after.receipts ∙ all_done)
