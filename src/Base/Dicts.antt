-- ===== src/Base/Dicts.antt =====
-- Python's `dict` in insertion order, as an association list with the laws of its operations.
use mathlib.Core.Path.{◌≡◌, refl}
use mathlib.Core.Option.{Option, none, some}
use mathlib.Core.List.{List, [], ◌∷◌}
use native.Mathlib.Omega.{arith}
use zammad_ticket_archiver.Base.Tests.{HasEq, ◌==◌, if◌then◌else◌}
use zammad_ticket_archiver.Base.Sets.{contains}

abbrev pub Dict {ℓ κ} : Type ℓ → Type κ → Type (ℓ ⊔ κ)
Dict K V = List (K × V)

module _ {ℓ κ} {K : Type ℓ} {V : Type κ} ⦃e : HasEq K⦄ where
  -- d.get(k)
  unfoldable pub lookup : K → Dict K V → Option V
  lookup k [] = none
  lookup k ((j, v) ∷ d) = if j == k then some v else lookup k d

  -- d[k] = v: an existing key keeps its place, a new one goes last
  unfoldable pub insert : K → V → Dict K V → Dict K V
  insert k v [] = (k, v) ∷ []
  insert k v ((j, w) ∷ d) = if j == k then (j, v) ∷ d else (j, w) ∷ insert k v d

  -- d.pop(k, None)
  unfoldable pub erase : K → Dict K V → Dict K V
  erase k [] = []
  erase k ((j, v) ∷ d) = let rest = erase k d in if j == k then rest else (j, v) ∷ rest

  pub lookup-insert :
      (k j : K) (v : V) (d : Dict K V)
      → lookup j (insert k v d) ≡ (if k == j then some v else lookup j d)
  unfolding lookup insert
  lookup-insert k j v [] = refl
  lookup-insert k j v ((i, w) ∷ d) =
      ground (arith, lookup-insert k j v d, e.eqb_iff i k, e.eqb_iff i j, e.eqb_iff k j)

  pub lookup-erase :
      (k j : K) (d : Dict K V) → lookup j (erase k d) ≡ (if k == j then none else lookup j d)
  unfolding lookup erase
  lookup-erase k j [] = ground arith
  lookup-erase k j ((i, w) ∷ d) =
      ground (arith, lookup-erase k j d, e.eqb_iff i k, e.eqb_iff i j, e.eqb_iff k j)

  -- for k in ks: d.pop(k, None)
  unfoldable pub pop_all : List K → Dict K V → Dict K V
  pop_all [] d = d
  pop_all (k ∷ ks) d = pop_all ks (erase k d)

  -- A Python dict has one entry for a key.
  abbrev pub NodupKeys : Dict K V → Type κ
  NodupKeys [] = Unit
  NodupKeys ((k, v) ∷ d) = (lookup k d ≡ none) × NodupKeys d

  pub lookup-pop_all :
      (ks : List K) (j : K) (d : Dict K V)
      → lookup j (pop_all ks d) ≡ (if contains ks j then none else lookup j d)
  unfolding pop_all contains
  lookup-pop_all [] j d = refl
  lookup-pop_all (k ∷ ks) j d = ground (arith, lookup-pop_all ks j (erase k d), lookup-erase k j d)

  pub insert-NodupKeys : (k : K) (v : V) (d : Dict K V) → NodupKeys d → NodupKeys (insert k v d)
  unfolding insert lookup
  insert-NodupKeys k v [] h = (refl, tt)
  insert-NodupKeys k v ((i, w) ∷ d) (fresh, h) =
      ground (arith, insert-NodupKeys k v d h, lookup-insert k i v d, e.eqb_iff i k, e.eqb_iff k i)

  pub erase-NodupKeys : (k : K) (d : Dict K V) → NodupKeys d → NodupKeys (erase k d)
  unfolding erase
  erase-NodupKeys k [] h = tt
  erase-NodupKeys k ((i, w) ∷ d) (fresh, h) =
      ground (arith, erase-NodupKeys k d h, lookup-erase k i d)

  pub pop_all-NodupKeys : (ks : List K) (d : Dict K V) → NodupKeys d → NodupKeys (pop_all ks d)
  unfolding pop_all
  pop_all-NodupKeys [] d h = h
  pop_all-NodupKeys (k ∷ ks) d h = pop_all-NodupKeys ks (erase k d) (erase-NodupKeys k d h)
