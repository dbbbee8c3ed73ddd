-- ===== src/Base/Map.antt =====
-- `HashMap` and `HashSet` as association lists and lists without repetition. The order of the
-- entries stands for the iteration order, which the source leaves open.
use Prim.Native.Nat.{suc}
use mathlib.Core.Bool.{Bool, true, false}
use mathlib.Core.List.{List, [], ◌∷◌, map, Mem, dec_mem}
use mathlib.Core.Logic.{◌⊎◌, inl, inr, ite}
use mathlib.Core.Option.{Option, none, some}
use mathlib.Core.Path.{◌≡◌, refl}
use native.Mathlib.Omega.{arith}
use p2p_pbft.Base.Lists.{length}
use p2p_pbft.Base.Tests.{if◌then◌else◌}

abbrev pub values {ℓ} : {K V : Type ℓ} → List (K × V) → List V
values = map (λ e. e.1)

abbrev pub is_some {ℓ} : {V : Type ℓ} → Option V → Bool
is_some none = false
is_some (some v) = true

-- `retain` with a test on the key.
unfoldable pub retain {ℓ} : {K V : Type ℓ} → (K → Bool) → List (K × V) → List (K × V)
retain keep [] = []
retain keep (e ∷ m) = let rest = retain keep m in if keep e.0 then e ∷ rest else rest

-- A `HashSet`.
module _ {ℓ} {A : Type ℓ} (dec : Discrete A) where
  unfoldable pub contains : A → List A → Bool
  contains a s = elim (dec_mem dec a s) [ yes _ ↦ true | no _ ↦ false ]

  unfoldable pub set_insert : A → List A → List A
  unfolding contains
  set_insert a s = if contains a s then s else a ∷ s

  contains_of_dec :
      (a : A) (s : List A) (m : Dec (Mem a s))
      → ((Mem a s × (elim m [ yes _ ↦ true | no _ ↦ false ] ≡ true))
          ⊎ ((¬ Mem a s) × (elim m [ yes _ ↦ true | no _ ↦ false ] ≡ false)))
  contains_of_dec a s (yes m) = inl (m, refl)
  contains_of_dec a s (no n) = inr (n, refl)

  pub contains_cases :
      (a : A) (s : List A)
      → (Mem a s × (contains a s ≡ true)) ⊎ ((¬ Mem a s) × (contains a s ≡ false))
  unfolding contains
  contains_cases a s = contains_of_dec a s (dec_mem dec a s)

  pub set_insert_new : (a : A) (s : List A) → ¬ Mem a s → set_insert a s ≡ a ∷ s
  unfolding set_insert
  set_insert_new a s h = elim (contains_cases a s) [ inl (m, _) ↦ absurd (h m) | inr (_, e) ↦ rw e ]

module _ {ℓ} {K V : Type ℓ} (dec : Discrete K) where
  unfoldable pub lookup : K → List (K × V) → Option V
  lookup k [] = none
  lookup k (e ∷ m) = ite (dec e.0 k) (some e.1) (lookup k m)

  -- Replaces the entry with the key, or adds one.
  unfoldable pub insert : K → V → List (K × V) → List (K × V)
  insert k v [] = (k, v) ∷ []
  insert k v (e ∷ m) = ite (dec e.0 k) ((k, v) ∷ m) (e ∷ insert k v m)

  unfoldable pub remove : K → List (K × V) → List (K × V)
  remove k [] = []
  remove k (e ∷ m) = ite (dec e.0 k) (remove k m) (e ∷ remove k m)

  pub lookup-insert :
      (j k : K) (v : V) (m : List (K × V))
      → lookup j (insert k v m) ≡ ite (dec k j) (some v) (lookup j m)
  unfolding lookup insert
  lookup-insert j k v [] = refl
  lookup-insert j k v (e ∷ m) = ground (arith, lookup-insert j k v m)

  pub lookup-remove :
      (j k : K) (m : List (K × V)) → lookup j (remove k m) ≡ ite (dec k j) none (lookup j m)
  unfolding lookup remove
  lookup-remove j k [] = ground arith
  lookup-remove j k (e ∷ m) = ground (arith, lookup-remove j k m)

  pub lookup-retain :
      (j : K) (keep : K → Bool) (m : List (K × V))
      → lookup j (retain keep m) ≡ (if keep j then lookup j m else none)
  unfolding lookup retain
  lookup-retain j keep [] = ground arith
  lookup-retain j keep (e ∷ m) = ground (arith, lookup-retain j keep m)

  abbrev pub contains_key : K → List (K × V) → Bool
  contains_key k m = is_some (lookup k m)

  -- A new key adds one entry, a known key none.
  pub length-insert :
      (k : K) (v : V) (m : List (K × V))
      → length (insert k v m) ≡ (if contains_key k m then length m else suc (length m))
  unfolding lookup insert
  length-insert k v [] = refl
  length-insert k v (e ∷ m) = ground (arith, length-insert k v m)
