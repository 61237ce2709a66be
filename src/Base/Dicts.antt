-- ===== src/Base/Dicts.antt =====
-- Python's `dict`, in insertion order: a list of entries.
use mathlib.Core.Path.{◌≡◌, refl}
use mathlib.Core.Option.{Option, none, some}
use mathlib.Core.List.{List, [], ◌∷◌}
use native.Mathlib.Omega.{arith}
use mathlib.Core.Logic.{inl, inr}
use mathlib.Core.Bool.{Bool, false}
use funder_match.Base.Tests.{Eq, ◌==◌, if◌then◌else◌, Bool-cases}
use funder_match.Base.Lists.{contains}

abbrev pub Dict {ℓ κ} : Type ℓ → Type κ → Type (ℓ ⊔ κ)
Dict K V = List (K × V)

module _ {ℓ κ} {K : Type ℓ} {V : Type κ} ⦃e : Eq K⦄ where
  -- `d.get(k)`
  unfoldable pub get : K → Dict K V → Option V
  get k [] = none
  get k ((j, v) ∷ d) = if j == k then some v else get k d

  -- `d[k] = v`: an entry that is there keeps its place
  unfoldable pub put : K → V → Dict K V → Dict K V
  put k v [] = (k, v) ∷ []
  put k v ((j, w) ∷ d) = if j == k then (j, v) ∷ d else (j, w) ∷ put k v d

  -- `d.pop(k, None)`
  unfoldable pub remove : K → Dict K V → Dict K V
  remove k [] = []
  remove k ((j, w) ∷ d) = let rest = remove k d in if j == k then rest else (j, w) ∷ rest

  pub get-put :
      (j k : K) (v : V) (d : Dict K V) → get j (put k v d) ≡ (if k == j then some v else get j d)
  unfolding get put
  get-put j k v [] = refl
  get-put j k v ((i, w) ∷ d) = ground (arith, get-put j k v d)

  pub get-remove :
      (j k : K) (d : Dict K V) → get j (remove k d) ≡ (if k == j then none else get j d)
  unfolding get remove
  get-remove j k [] = ground arith
  get-remove j k ((i, w) ∷ d) = ground (arith, get-remove j k d)

-- `[k for k, v in d.items() if p(v)]`
abbrev pub keys_where {ℓ κ} : {K : Type ℓ} {V : Type κ} → (V → Bool) → Dict K V → List K
keys_where p [] = []
keys_where p ((k, v) ∷ d) = let rest = keys_where p d in if p v then k ∷ rest else rest

-- `d[k] = f(v)` for each entry
abbrev pub map_values {ℓ κ} : {K : Type ℓ} {V : Type κ} → (V → V) → Dict K V → Dict K V
map_values f [] = []
map_values f ((k, v) ∷ d) = (k, f v) ∷ map_values f d

module _ {κ} {V : Type κ} where
  abbrev pub map_option : (V → V) → Option V → Option V
  map_option f none = none
  map_option f (some v) = some (f v)

  abbrev pub holds : (V → Bool) → Option V → Bool
  holds p none = false
  holds p (some v) = p v

module _ {ℓ κ} {K : Type ℓ} {V : Type κ} ⦃e : Eq K⦄ where
  -- No key is listed twice.
  abbrev pub IsDict : Dict K V → Type (ℓ ⊔ κ)
  IsDict [] = Unit
  IsDict ((k, v) ∷ d) = (get k d ≡ none) × IsDict d

  pub put-IsDict : (k : K) (v : V) (d : Dict K V) → IsDict d → IsDict (put k v d)
  unfolding put get
  put-IsDict k v [] h = (refl, tt)
  put-IsDict k v ((j, w) ∷ d) h = elim (Bool-cases (j == k)) [
    | inl same ↦ rw same h
    | inr other ↦ rw other (ground (arith, get-put j k v d), put-IsDict k v d h.1)
  ]

  pub remove-IsDict : (k : K) (d : Dict K V) → IsDict d → IsDict (remove k d)
  unfolding remove
  remove-IsDict k [] h = h
  remove-IsDict k ((j, w) ∷ d) h = elim (Bool-cases (j == k)) [
    | inl same ↦ rw same (remove-IsDict k d h.1)
    | inr other ↦ rw other (ground (arith, get-remove j k d), remove-IsDict k d h.1)
  ]

  pub get-map_values :
      (k : K) (f : V → V) (d : Dict K V) → get k (map_values f d) ≡ map_option f (get k d)
  unfolding get
  get-map_values k f [] = refl
  get-map_values k f ((j, w) ∷ d) = ground (arith, get-map_values k f d)

  pub map_values-IsDict : (f : V → V) (d : Dict K V) → IsDict d → IsDict (map_values f d)
  map_values-IsDict f [] h = h
  map_values-IsDict f ((j, w) ∷ d) h =
      (ground (arith, get-map_values j f d), map_values-IsDict f d h.1)

  pub contains-keys_where-none :
      (k : K) (p : V → Bool) (d : Dict K V) → get k d ≡ none → contains k (keys_where p d) ≡ false
  unfolding get
  contains-keys_where-none k p [] h = refl
  contains-keys_where-none k p ((j, w) ∷ d) h = ground (arith, contains-keys_where-none k p d)

  -- The listed keys are those whose value passes the test.
  pub contains-keys_where :
      (k : K) (p : V → Bool) (d : Dict K V)
      → IsDict d
      → contains k (keys_where p d) ≡ holds p (get k d)
  unfolding get
  contains-keys_where k p [] h = refl
  contains-keys_where k p ((j, w) ∷ d) h =
      ground (arith, contains-keys_where k p d h.1, contains-keys_where-none k p d)
