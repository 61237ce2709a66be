-- ===== src/Matching/Ranking.antt =====
-- The order of the matches: `sort` puts neighbours in the order of their keys.
use funder_match.Base.{
  All, Bool-cases, List, String, [], arith, false, inl, inr, nat_eq, refl, string_eq, suc, take,
  true, zero, ℕ, ◌∷◌, ◌≡◌,
}
use funder_match.Number.{Decimal, at_most, below}
use funder_match.Suggest.Schema.{PrecedentMatch}
use funder_match.Matching.Retriever.{text_le, precedes, insert, sort}

text_le-total : (s t : String) → text_le s t ≡ false → text_le t s ≡ true
unfolding text_le
text_le-total String.[] t h = cc
text_le-total (String.◌∷◌ c s) String.[] h = refl
text_le-total (String.◌∷◌ c s) (String.◌∷◌ d t) h = ground (arith, text_le-total s t)

at_most-total : (a b : Decimal) → at_most a b ≡ false → at_most b a ≡ true
unfolding at_most
at_most-total a b h = ground arith

precedes-total : (a b : PrecedentMatch) → precedes a b ≡ false → precedes b a ≡ true
unfolding precedes below
precedes-total a b h = ground (
  arith,
  at_most-total a.score b.score,
  at_most-total b.score a.score,
  text_le-total a.precedent.case_id b.precedent.case_id,
)

-- `m` may stand before `x`: its score is at least that of `x`, and at the same score its case id is
-- not the later one.
pub record StandsBefore (m x : PrecedentMatch) : Type 0 where
  pub score : at_most x.score m.score ≡ true
  pub case_id :
      at_most m.score x.score ≡ true → text_le m.precedent.case_id x.precedent.case_id ≡ true

precedes-StandsBefore : (m x : PrecedentMatch) → precedes m x ≡ true → StandsBefore m x
unfolding precedes below
precedes-StandsBefore m x h = record {
  score = ground (arith, at_most-total m.score x.score);
  case_id = λ same. ground arith;
}

abbrev Leads : PrecedentMatch → List PrecedentMatch → Type 0
Leads m [] = Unit
Leads m (x ∷ xs) = StandsBefore m x

-- Each match stands before its neighbour by a higher score, or by its case id at the same score.
abbrev pub IsRanked : List PrecedentMatch → Type 0
IsRanked [] = Unit
IsRanked (m ∷ ms) = Leads m ms × IsRanked ms

Leads-insert :
    (x m : PrecedentMatch) (xs : List PrecedentMatch)
    → StandsBefore x m
    → Leads x xs
    → Leads x (insert m xs)
unfolding insert
Leads-insert x m [] before h = before
Leads-insert x m (y ∷ ys) before h = elim (Bool-cases (precedes m y)) [
  | inl first ↦ rw first before
  | inr later ↦ rw later h
]

insert-IsRanked :
    (m : PrecedentMatch) (xs : List PrecedentMatch) → IsRanked xs → IsRanked (insert m xs)
unfolding insert
insert-IsRanked m [] h = (tt, tt)
insert-IsRanked m (x ∷ xs) h = elim (Bool-cases (precedes m x)) [
  | inl first ↦ rw first (precedes-StandsBefore m x first, h)
  | inr later ↦ rw later (
    Leads-insert x m xs (precedes-StandsBefore x m (precedes-total m x later)) h.0,
    insert-IsRanked m xs h.1,
  )
]

pub sort-IsRanked : (ms : List PrecedentMatch) → IsRanked (sort ms)
unfolding sort
sort-IsRanked [] = tt
sort-IsRanked (m ∷ ms) = insert-IsRanked m (sort ms) (sort-IsRanked ms)

Leads-take :
    (n : ℕ) (m : PrecedentMatch) (xs : List PrecedentMatch) → Leads m xs → Leads m (take n xs)
Leads-take zero m xs h = tt
Leads-take (suc n) m [] h = tt
Leads-take (suc n) m (x ∷ xs) h = h

pub take-IsRanked : (n : ℕ) (ms : List PrecedentMatch) → IsRanked ms → IsRanked (take n ms)
take-IsRanked zero ms h = tt
take-IsRanked (suc n) [] h = tt
take-IsRanked (suc n) (m ∷ ms) h = (Leads-take n m ms h.0, take-IsRanked n ms h.1)

module _ (P : PrecedentMatch → Type 0) where
  insert-All :
      (m : PrecedentMatch) (xs : List PrecedentMatch) → P m → All P xs → All P (insert m xs)
  unfolding insert
  insert-All m [] p h = (p, tt)
  insert-All m (x ∷ xs) p h = elim (Bool-cases (precedes m x)) [
    | inl first ↦ rw first (p, h)
    | inr later ↦ rw later (h.0, insert-All m xs p h.1)
  ]

  pub sort-All : (ms : List PrecedentMatch) → All P ms → All P (sort ms)
  unfolding sort
  sort-All [] h = tt
  sort-All (m ∷ ms) h = insert-All m (sort ms) h.0 (sort-All ms h.1)
