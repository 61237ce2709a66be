-- ===== src/Orchestration/Order.antt =====
-- The order of the workers: what `remaining` computes on a split of an order without duplicates.
use funder_match.Base.{
  Bool, List, [], all, arith, contains, false, keep, keep-append, nat_eq, not, refl, string_eq,
  true, ◌++◌, ◌||◌, ◌∙◌, ◌∷◌, ◌≡◌,
}
use mathlib.Core.List.{append_assoc}
use funder_match.Orchestration.Schema.{WorkerName, worker_eq, is_distinct}
use funder_match.Orchestration.Graph.{remaining}

keep_none :
    (q : WorkerName → Bool) (xs : List WorkerName) → all q xs ≡ true → keep (λ w. not (q w)) xs ≡ []
keep_none q [] h = refl
keep_none q (x ∷ xs) h = ground (arith, keep_none q xs)

pub keep-all : (p : WorkerName → Bool) (xs : List WorkerName) → all p xs ≡ true → keep p xs ≡ xs
keep-all p [] h = refl
keep-all p (x ∷ xs) h = ground (arith, keep-all p xs)

pub contains-append :
    (w : WorkerName) (xs ys : List WorkerName)
    → contains w (xs ++ ys) ≡ (contains w xs || contains w ys)
contains-append w [] ys = refl
contains-append w (x ∷ xs) ys = ground (arith, contains-append w xs ys)

-- A list that ends in `xs` has all of `xs`.
pub all_present : (zs xs : List WorkerName) → all (λ w. contains w (zs ++ xs)) xs ≡ true
all_present zs [] = refl
all_present zs (x ∷ xs) =
    let tail : all (λ w. contains w (zs ++ x ∷ xs)) xs ≡ true =
      rw (← append_assoc zs (x ∷ []) xs) (all_present (zs ++ x ∷ []) xs) in
    ground (arith, contains-append x zs (x ∷ xs))

-- Two parts of a list without duplicates share nothing.
not_shared :
    (y : WorkerName) (xs ys : List WorkerName)
    → is_distinct (xs ++ ys) ≡ true
    → contains y ys ≡ true
    → contains y xs ≡ false
not_shared y [] ys h e = refl
not_shared y (x ∷ xs) ys h e = ground (arith, contains-append x xs ys, not_shared y xs ys)

pub parts_disjoint :
    (xs ys vs : List WorkerName)
    → is_distinct (xs ++ ys) ≡ true
    → all (λ w. contains w ys) vs ≡ true
    → all (λ w. not (contains w xs)) vs ≡ true
parts_disjoint xs ys [] h e = refl
parts_disjoint xs ys (v ∷ vs) h e = ground (arith, not_shared v xs ys, parts_disjoint xs ys vs h)

pub remaining_split :
    (done rest : List WorkerName)
    → is_distinct (done ++ rest) ≡ true
    → remaining (done ++ rest) done ≡ rest
remaining_split done rest h =
    let none_left = keep_none (λ w. contains w done) done (all_present [] done) in
    let all_left =
      keep-all (λ w. not (contains w done)) rest
        (parts_disjoint done rest rest h (all_present [] rest)) in
    keep-append (λ w. not (contains w done)) done rest ∙ rw (none_left, all_left) refl
