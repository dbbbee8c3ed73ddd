-- ===== src/Base/Keys.antt =====
-- The keys of an association list.
use mathlib.Core.Bool.{Bool, true, false}
use mathlib.Core.List.{List, [], ◌∷◌, map}
use mathlib.Core.Logic.{ite}
use mathlib.Core.Option.{Option, none, some}
use mathlib.Core.Path.{◌≡◌, refl, subst}
use native.Mathlib.Omega.{arith}
use p2p_pbft.Base.Map.{lookup, insert, remove, is_some, lookup-insert, lookup-remove}

abbrev pub keys {ℓ} : {K V : Type ℓ} → List (K × V) → List K
keys = map (λ e. e.0)

abbrev pub update {ℓ} : {V : Type ℓ} → (V → V) → Option V → Option V
update f none = none
update f (some v) = some (f v)

-- Each entry with its key and a new value.
abbrev pub update_all {ℓ} : {K V : Type ℓ} → (V → V) → List (K × V) → List (K × V)
update_all f = map (λ e. (e.0, f e.1))

module _ {ℓ} {K : Type ℓ} (dec : Discrete K) where
  abbrev pub elem : K → List K → Bool
  elem k [] = false
  elem k (j ∷ js) = ite (dec j k) true (elem k js)

  abbrev pub NoRepeat : List K → Type 0
  NoRepeat [] = Unit {0}
  NoRepeat (k ∷ ks) = (elem k ks ≡ false) × NoRepeat ks

  module _ {V : Type ℓ} where
    -- No two entries have the same key.
    abbrev pub Distinct : List (K × V) → Type ℓ
    Distinct [] = Unit
    Distinct (e ∷ m) = (lookup dec e.0 m ≡ none) × Distinct m

    pub Distinct-insert :
        (k : K) (v : V) (m : List (K × V)) → Distinct m → Distinct (insert dec k v m)
    unfolding lookup insert
    Distinct-insert k v [] d = (refl, tt)
    Distinct-insert k v ((j, u) ∷ m) (new, d) =
        elim (dec j k) as (λ c. Distinct (ite c ((k, v) ∷ m) ((j, u) ∷ insert dec k v m))) [
          | yes p ↦ (subst (λ i. lookup dec i m ≡ none) p new, d)
          | no n ↦ (ground (arith, lookup-insert dec j k v m), Distinct-insert k v m d)
        ]

    pub Distinct-remove : (k : K) (m : List (K × V)) → Distinct m → Distinct (remove dec k m)
    unfolding lookup remove
    Distinct-remove k [] d = tt
    Distinct-remove k ((j, u) ∷ m) (new, d) =
        elim (dec j k) as (λ c. Distinct (ite c (remove dec k m) ((j, u) ∷ remove dec k m))) [
          | yes p ↦ Distinct-remove k m d
          | no n ↦ (ground (arith, lookup-remove dec j k m), Distinct-remove k m d)
        ]

    pub elem-keys : (k : K) (m : List (K × V)) → elem k (keys m) ≡ is_some (lookup dec k m)
    unfolding lookup
    elem-keys k [] = refl
    elem-keys k (e ∷ m) =
        elim (dec e.0 k)
          as (λ c. ite c true (elem k (keys m)) ≡ is_some (ite c (some e.1) (lookup dec k m))) [
            | yes p ↦ refl
            | no n ↦ elem-keys k m
          ]

    pub NoRepeat-keys : (m : List (K × V)) → Distinct m → NoRepeat (keys m)
    NoRepeat-keys [] d = tt
    NoRepeat-keys (e ∷ m) (new, d) = (ground (arith, elem-keys e.0 m), NoRepeat-keys m d)

    pub lookup-update_all :
        (f : V → V) (k : K) (m : List (K × V))
        → lookup dec k (update_all f m) ≡ update f (lookup dec k m)
    unfolding lookup
    lookup-update_all f k [] = refl
    lookup-update_all f k (e ∷ m) = ground (arith, lookup-update_all f k m)

    pub Distinct-update_all :
        (f : V → V) (m : List (K × V)) → Distinct m → Distinct (update_all f m)
    Distinct-update_all f [] d = tt
    Distinct-update_all f (e ∷ m) (new, d) =
        (ground (arith, lookup-update_all f e.0 m), Distinct-update_all f m d)
