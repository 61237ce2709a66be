-- ===== src/Orchestration/Expiry.antt =====
-- `cleanup_expired`, graph.py: a thread's checkpoint goes with its record.
use funder_match.Base.{
  ==_iff, Bool, Bool-cases, Dict, List, Option, Result, Result-cases, String, [], ap, arith,
  contains, err, false, get, get-remove, if◌then◌else◌, inl, inr, leb, nat_eq, none, ok, refl, some,
  string_eq, subst, sym, true, ℕ, ◌&&◌, ◌+◌, ◌==◌, ◌∙◌, ◌∷◌, ◌≡◌, ◌⊎◌,
}
use funder_match.Orchestration.Schema.{terminal, ApplicationMemoryState}
use funder_match.Orchestration.Lifecycle.{MemoryThreadRecord, Call, serve, expired, delete}
use funder_match.Orchestration.Retention.{empty, expired_iff}
use funder_match.Orchestration.Supervisor.{
  Memory, hooked, forgotten, clean_each, listed, cleanup_expired,
}

listed_expired :
    (retention now : ℕ) (calls : List Call) (id : String) (r : MemoryThreadRecord)
    → get id (serve calls (empty retention)).records ≡ some r
    → contains id (expired now (serve calls (empty retention)))
      ≡ (terminal r.status && leb (r.updated_at + retention) now)
listed_expired retention now calls id r found =
    let iff = expired_iff retention now calls id r found in
    elim (Bool-cases (contains id (expired now (serve calls (empty retention))))) [
      | inl yes_listed ↦ let due = iff.0 yes_listed in rw yes_listed (ground (arith, due.0, due.1))
      | inr not_listed ↦ ground (arith, iff.1)
    ]

-- What two memories hold of a thread.
record IsGone (id : String) (m : Memory) : Type 0 where
  pub checkpoint : get id m.checkpoints ≡ none
  pub thread : get id m.lifecycle.records ≡ none

record IsSame (id : String) (m t : Memory) : Type 0 where
  pub checkpoint : get id t.checkpoints ≡ get id m.checkpoints
  pub thread : get id t.lifecycle.records ≡ get id m.lifecycle.records

forgotten-IsGone : (id : String) (m : Memory) → IsGone id (forgotten id m)
unfolding delete
forgotten-IsGone id m = record {
  checkpoint = ground (arith, get-remove id id m.checkpoints);
  thread = ground (arith, get-remove id id m.lifecycle.records);
}

forgotten-kept-IsGone : (id j : String) (m : Memory) → IsGone id m → IsGone id (forgotten j m)
unfolding delete
forgotten-kept-IsGone id j m h = record {
  checkpoint = ground (arith, get-remove id j m.checkpoints, h.checkpoint);
  thread = ground (arith, get-remove id j m.lifecycle.records, h.thread);
}

forgotten-IsSame : (id j : String) (m : Memory) → (j == id) ≡ false → IsSame id m (forgotten j m)
unfolding delete
forgotten-IsSame id j m h = record {
  checkpoint = ground (arith, get-remove id j m.checkpoints);
  thread = ground (arith, get-remove id j m.lifecycle.records);
}

unit-same : (u : Unit {0}) → u ≡ tt
unit-same u = refl

true-ne-false : {b : Bool} → b ≡ true → b ≡ false → ⊥
true-ne-false h k = cc

listed-state :
    {E : Type 0} (ids : List String) (p : Result E (Unit {0}) × Memory) → (listed ids p).1 ≡ p.1
listed-state ids (err e, m) = refl
listed-state ids (ok u, m) = refl

listed-ok :
    {E : Type 0} (ids : List String) (p : Result E (Unit {0}) × Memory) (u : Unit {0})
    → p.0 ≡ ok u
    → (listed ids p).0 ≡ ok ids
listed-ok ids (err e, m) u h = cc
listed-ok ids (ok v, m) u h = refl

listed-err :
    {E : Type 0} (ids : List String) (p : Result E (Unit {0}) × Memory) (e : E)
    → p.0 ≡ err e
    → (listed ids p).0 ≡ err e
listed-err ids (err x, m) e h = cc
listed-err ids (ok v, m) e h = cc

module _ {E : Type 0} (hook : Option (String → Result E (Unit {0}))) where
  clean_each-IsGone :
      (id : String) (ids : List String) (m : Memory)
      → IsGone id m
      → IsGone id (clean_each hook ids m).1
  unfolding clean_each
  clean_each-IsGone id [] m h = h
  clean_each-IsGone id (j ∷ ids) m h = elim (Result-cases (hooked hook j)) [
    | inr (e, bad) ↦ rw (bad, clean_each) h
    | inl (t, good) ↦
        rw (good, clean_each)
          (clean_each-IsGone id ids (forgotten j m) (forgotten-kept-IsGone id j m h))
  ]

  -- A thread of the list goes, unless an exception comes first; any other one stays.
  clean_each-each :
      (id : String) (ids : List String) (m : Memory)
      → ((contains id ids ≡ true) × IsGone id (clean_each hook ids m).1)
        ⊎ IsSame id m (clean_each hook ids m).1
  unfolding clean_each
  clean_each-each id [] m = inr (record { checkpoint = refl; thread = refl })
  clean_each-each id (j ∷ ids) m = elim (Result-cases (hooked hook j)) [
    | inr (e, bad) ↦ rw (bad, clean_each) (inr (record { checkpoint = refl; thread = refl }))
    | inl (t, good) ↦ elim (Bool-cases (j == id)) [
      | inl same ↦
          let gone : IsGone id (forgotten j m) =
            subst (λ i. IsGone i (forgotten j m)) ((==_iff j id).0 same) (forgotten-IsGone j m) in
          rw (good, clean_each) (inl (ground arith, clean_each-IsGone id ids (forgotten j m) gone))
      | inr other ↦
          let kept = forgotten-IsSame id j m other in
          rw (good, clean_each)
            (elim (clean_each-each id ids (forgotten j m)) [
              | inl (there, gone) ↦ inl (ground arith, gone)
              | inr same ↦ inr (record {
                checkpoint = same.checkpoint ∙ kept.checkpoint;
                thread = same.thread ∙ kept.thread;
              })
            ])
    ]
  ]

  -- Without an exception every thread of the list goes.
  clean_each-all :
      (id : String) (ids : List String) (m : Memory)
      → (clean_each hook ids m).0 ≡ ok tt
      → contains id ids ≡ true
      → IsGone id (clean_each hook ids m).1
  unfolding clean_each
  clean_each-all id [] m ran there = cc
  clean_each-all id (j ∷ ids) m ran there = elim (Result-cases (hooked hook j)) [
    | inr (e, bad) ↦
        let raised : (clean_each hook (j ∷ ids) m).0 ≡ err e = rw (bad, clean_each) refl in cc
    | inl (t, good) ↦ elim (Bool-cases (j == id)) [
      | inl same ↦
          let gone : IsGone id (forgotten j m) =
            subst (λ i. IsGone i (forgotten j m)) ((==_iff j id).0 same) (forgotten-IsGone j m) in
          rw (good, clean_each) (clean_each-IsGone id ids (forgotten j m) gone)
      | inr other ↦
          rw (good, clean_each)
            (clean_each-all id ids (forgotten j m) (rw (good, clean_each) at ran) (ground arith))
    ]
  ]

  -- An exception is one that the hook raised for a thread of the list.
  clean_each-raised :
      (ids : List String) (m : Memory) (e : E)
      → (clean_each hook ids m).0 ≡ err e
      → (i : String) × ((contains i ids ≡ true) × (hooked hook i ≡ err e))
  unfolding clean_each
  clean_each-raised [] m e h = cc
  clean_each-raised (j ∷ ids) m e h = elim (Result-cases (hooked hook j)) [
    | inr (x, bad) ↦
        let raised : (clean_each hook (j ∷ ids) m).0 ≡ err x = rw (bad, clean_each) refl in
        (j, (ground arith, bad ∙ sym raised ∙ h))
    | inl (t, good) ↦
        let (i, (there, raised)) =
          clean_each-raised ids (forgotten j m) e (rw (good, clean_each) at h) in
        (i, (ground arith, raised))
  ]

  -- Cleaning up after any calls of the lifecycle store returns the list of the expired threads, and then
  -- the checkpoint and the record of a thread are both gone when it has ended at least the retention
  -- period ago, and both as before when it has not; or it ends with an exception that the hook raised
  -- for one of them, and then both are gone, for such a thread only, or both are as before.
  pub cleanup_expired_exact :
      (retention now : ℕ) (calls : List Call) (checkpoints : Dict String ApplicationMemoryState)
      (id : String) (r : MemoryThreadRecord)
      → get id (serve calls (empty retention)).records ≡ some r
      → let m : Memory = record {
        checkpoints = checkpoints;
        lifecycle = serve calls (empty retention);
      } in
        let ids = expired now m.lifecycle in
        let (out, t) = cleanup_expired hook now m in
        let due = terminal r.status && leb (r.updated_at + retention) now in
        ((out ≡ ok ids)
          × ((get id t.checkpoints ≡ (if due then none else get id checkpoints))
              × (get id t.lifecycle.records ≡ (if due then none else some r))))
        ⊎ ((e : E) × ((i : String) × ((out ≡ err e)
                × ((contains i ids ≡ true)
                    × ((hooked hook i ≡ err e)
                        × (((due ≡ true)
                              × ((get id t.checkpoints ≡ none)
                                  × (get id t.lifecycle.records ≡ none)))
                            ⊎ ((get id t.checkpoints ≡ get id checkpoints)
                                × (get id t.lifecycle.records ≡ some r))))))))
  unfolding cleanup_expired
  cleanup_expired_exact retention now calls checkpoints id r found =
      let m : Memory = record {
        checkpoints = checkpoints;
        lifecycle = serve calls (empty retention);
      } in
      let ids = expired now m.lifecycle in
      let run = clean_each hook ids m in
      let on_time = listed_expired retention now calls id r found in
      elim (Result-cases run.0) [
        | inl (u, ran) ↦ inl (
          listed-ok ids run u ran,
          rw (listed-state ids run) (elim (Bool-cases (contains id ids)) [
            | inl there ↦
                let gone = clean_each-all id ids m (ran ∙ ap (λ v. ok v) (unit-same u)) there in
                let due = sym on_time ∙ there in rw due (gone.checkpoint, gone.thread)
            | inr absent ↦
                let due = sym on_time ∙ absent in
                rw due (elim (clean_each-each id ids m) [
                  | inl (there, gone) ↦ absurd (true-ne-false there absent)
                  | inr same ↦ (same.checkpoint, same.thread ∙ found)
                ])
          ]),
        )
        | inr (e, raised) ↦
            let (i, (there, fault)) = clean_each-raised ids m e raised in
            inr (
              e,
              (
                i,
                (
                  listed-err ids run e raised,
                  (
                    there,
                    (
                      fault,
                      rw (listed-state ids run) (elim (clean_each-each id ids m) [
                        | inl (out, gone) ↦ inl (sym on_time ∙ out, (gone.checkpoint, gone.thread))
                        | inr same ↦ inr (same.checkpoint, same.thread ∙ found)
                      ]),
                    ),
                  ),
                ),
              ),
            )
      ]
