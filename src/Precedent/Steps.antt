-- ===== src/Precedent/Steps.antt =====
-- The steps of a write that returns, when the precedent was not there before.
use funder_match.Base.{
  Result, String, [], ap, arith, contains, err, false, get, nat_eq, ok, ok-injective, refl, some,
  string_eq, sym, true, ℕ, ◌==◌, ◌∷◌, ◌≡◌, ◌≢◌,
}
use funder_match.Workflow.Schema.{
  precedent_written, state_eq, ActorRole, role_eq, ActorClaims, PrecedentWriteCommand,
  WorkflowRecord, TransitionResult, WorkflowError, Stamp,
}
use funder_match.Workflow.Repository.{Repository}
use funder_match.Workflow.Service
use funder_match.Suggest.Schema.{DecidedLoanCase}
use funder_match.Precedent.Store.{
  Store, StoreError, not_confirmed, point_id, read_one, seed, verified, confirmed, write_one,
}
use funder_match.Precedent.Writeback.{
  Writer, Outbox, Memory, WriteError, WritebackResult, payload_hash,
}
use funder_match.Precedent.Service.{prepare, marked, stored, begun, commit, write, receipt_for}
use funder_match.Precedent.Outbox.{outbox_begin, outbox_complete}

module _ {Q : Type 0} where
  verified-same :
      (s : Store Q) (c k : DecidedLoanCase) (r : Result StoreError DecidedLoanCase)
      → verified s c r ≡ ok k
      → (r ≡ ok k) × (s.same k c ≡ true)
  verified-same s c k (err x) h = cc
  verified-same s c k (ok stored) h = ground arith

  confirmed-verified :
      (s : Store Q) (c k : DecidedLoanCase) (p : Result StoreError ℕ × Q)
      → (confirmed s c p).0 ≡ ok k
      → (read_one s not_confirmed s.collection (point_id s c.case_id) (confirmed s c p).1 ≡ ok k)
        × (s.same k c ≡ true)
  confirmed-verified s c k (err x, q) h = cc
  confirmed-verified s c k (ok n, q) h =
      verified-same s c k (read_one s not_confirmed s.collection (point_id s c.case_id) q) h

  -- A case that is written is read back, and is the one that was to be written.
  pub write_one-verified :
      (s : Store Q) (c k : DecidedLoanCase) (q : Q)
      → (write_one s c q).0 ≡ ok k
      → (read_one s not_confirmed s.collection (point_id s c.case_id) (write_one s c q).1 ≡ ok k)
        × (s.same k c ≡ true)
  unfolding write_one
  write_one-verified s c k q h = confirmed-verified s c k (seed s (c ∷ []) false q) h

  -- What a write that returns has done, and the memory that it leaves.
  pub record IsWritten (e : Writer Q) (t : Stamp) (at : ℕ) (id : String)
      (command : PrecedentWriteCommand) (actor : ActorClaims) (m : Memory Q) (c : DecidedLoanCase)
      (x : WritebackResult) (m' : Memory Q) : Type 0 where
    pub kept : (write_one e.store c m.points).0 ≡ ok x.precedent
    pub told :
        Service.mark_precedent_written t id command
          (receipt_for e at x.precedent)
          actor
          m.repository
        ≡ (ok x.transition, m'.repository)
    pub points : m'.points ≡ (write_one e.store c m.points).1

  marked-ok :
      (m : Memory Q) (c : DecidedLoanCase) (x : WritebackResult)
      (p : Result WorkflowError TransitionResult × Repository)
      → (marked m c p).0 ≡ ok x
      → (p ≡ (ok x.transition, (marked m c p).1.repository))
        × ((c ≡ x.precedent) × ((marked m c p).1.points ≡ m.points))
  marked-ok m c x (err e, r) h = cc
  marked-ok m c x (ok y, r) h =
      let same = ok-injective h in
      (
        ap (λ (z : WritebackResult). (ok z.transition, r)) same,
        (ap (λ (z : WritebackResult). z.precedent) same, refl),
      )

  stored-IsWritten :
      (e : Writer Q) (t : Stamp) (at : ℕ) (id : String) (command : PrecedentWriteCommand)
      (actor : ActorClaims) (m : Memory Q) (x : WritebackResult)
      (p : Result StoreError DecidedLoanCase × Q)
      → (stored e t at id command actor m p).0 ≡ ok x
      → (p.0 ≡ ok x.precedent)
        × ((Service.mark_precedent_written t id command
                (receipt_for e at x.precedent)
                actor
                m.repository
              ≡ (ok x.transition, (stored e t at id command actor m p).1.repository))
            × ((stored e t at id command actor m p).1.points ≡ p.1))
  stored-IsWritten e t at id command actor m x (err y, q) h = cc
  stored-IsWritten e t at id command actor m x (ok k, q) h =
      let after : Memory Q = record m {
        points = q;
        outbox = outbox_complete command.command_id (receipt_for e at k) m.outbox;
      } in
      let done =
        marked-ok after k x
          (Service.mark_precedent_written t id command (receipt_for e at k) actor m.repository) h in
      (ap (λ z. ok z) done.1.0, (rw (sym done.1.0) done.0, done.1.1))

  begun-IsWritten :
      (e : Writer Q) (t : Stamp) (at : ℕ) (id : String) (command : PrecedentWriteCommand)
      (actor : ActorClaims) (c : DecidedLoanCase) (m : Memory Q) (x : WritebackResult)
      (p : Result WriteError (Unit {0}) × Outbox)
      → (begun e t at id command actor c m p).0 ≡ ok x
      → IsWritten e t at id command actor m c x (begun e t at id command actor c m p).1
  begun-IsWritten e t at id command actor c m x (err y, o) h = cc
  begun-IsWritten e t at id command actor c m x (ok _, o) h =
      let done =
        stored-IsWritten e t at id command actor (record m { outbox = o }) x
          (write_one e.store c m.points) h in
      record { kept = done.0; told = done.1.0; points = done.1.1 }

  commit-IsWritten :
      (e : Writer Q) (t : Stamp) (at : ℕ) (id : String) (command : PrecedentWriteCommand)
      (actor : ActorClaims) (r : Result WriteError DecidedLoanCase) (m : Memory Q)
      (x : WritebackResult)
      → (commit e t at id command actor r m).0 ≡ ok x
      → (c : DecidedLoanCase) × ((r ≡ ok c)
          × IsWritten e t at id command actor m c x (commit e t at id command actor r m).1)
  commit-IsWritten e t at id command actor (err y) m x h = cc
  commit-IsWritten e t at id command actor (ok c) m x h = (
    c,
    (
      refl,
      begun-IsWritten e t at id command actor c m x
          (outbox_begin command.command_id id "precedent_writeback" (payload_hash e c) m.outbox) h,
    ),
  )

  pub write-commit :
      (e : Writer Q) (t : Stamp) (at : ℕ) (id : String) (command : PrecedentWriteCommand)
      (actor : ActorClaims) (m : Memory Q) (w : WorkflowRecord)
      → get id m.repository.workflows ≡ some w
      → w.state ≢ precedent_written
      → contains ActorRole.pipeline actor.roles ≡ true
      → write e t at id command actor m ≡ commit e t at id command actor (prepare e id command w) m
  unfolding write
  write-commit e t at id command actor m w found open_state role =
      let other : (w.state == precedent_written) ≡ false = ground arith in
      rw (role, write) (rw (found, other) refl)

  pub write-role :
      (e : Writer Q) (t : Stamp) (at : ℕ) (id : String) (command : PrecedentWriteCommand)
      (actor : ActorClaims) (m : Memory Q) (x : WritebackResult)
      → (write e t at id command actor m).0 ≡ ok x
      → contains ActorRole.pipeline actor.roles ≡ true
  unfolding write
  write-role e t at id command actor m x h = ground arith

  pub write-IsWritten :
      (e : Writer Q) (t : Stamp) (at : ℕ) (id : String) (command : PrecedentWriteCommand)
      (actor : ActorClaims) (m : Memory Q) (w : WorkflowRecord) (x : WritebackResult)
      → get id m.repository.workflows ≡ some w
      → w.state ≢ precedent_written
      → (write e t at id command actor m).0 ≡ ok x
      → (c : DecidedLoanCase) × ((prepare e id command w ≡ ok c)
          × IsWritten e t at id command actor m c x (write e t at id command actor m).1)
  write-IsWritten e t at id command actor m w x found open_state h =
      let role = write-role e t at id command actor m x h in
      let same = write-commit e t at id command actor m w found open_state role in
      rw same (commit-IsWritten e t at id command actor (prepare e id command w) m x (rw same at h))
