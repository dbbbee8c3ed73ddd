-- ===== src/Base/Tests.antt =====
-- Boolean tests on numbers and byte strings, the conditional, and the wrap of a 64-bit word.
use Prim.Native.Nat.{ℕ, ◌%◌, ◌^◌, compare, Ordering}
use mathlib.Core.Path.{◌≡◌, refl, ap₂}
use mathlib.Core.Logic.{◌⊎◌, inl, inr}
use mathlib.Core.Bool.{Bool, true, false}
use mathlib.Core.List.{List, [], ◌∷◌}
use mathlib.Core.Option.{Option, none, some}
use native.Mathlib.Decide.{ℕ_discrete}

abbrev pub ltb : ℕ → ℕ → Bool
ltb a b = elim (compare a b) [ Ordering.lt ↦ true | _ ↦ false ]

abbrev pub leb : ℕ → ℕ → Bool
leb a b = elim (compare a b) [ Ordering.gt ↦ false | _ ↦ true ]

infix 50 ◌==◌
abbrev pub ◌==◌ : ℕ → ℕ → Bool
a == b = elim (compare a b) [ Ordering.eq ↦ true | _ ↦ false ]

infix 1 if◌then◌else◌
abbrev pub if◌then◌else◌ {ℓ} : {A : Type ℓ} → Bool → A → A → A
if true then x else y = x
if false then x else y = y

-- A byte string: `Vec<u8>`, `[u8; n]`, and a `String` as its UTF-8 bytes.
abbrev pub Bytes : Type 0
Bytes = List ℕ

cons_cases :
    (a b : ℕ) (xs ys : Bytes)
    → Dec (a ≡ b)
    → Dec (xs ≡ ys)
    → Dec (◌≡◌ {A = Bytes} (a ∷ xs) (b ∷ ys))
cons_cases a b xs ys (yes p) (yes q) = yes (ap₂ ◌∷◌ p q)
cons_cases a b xs ys (no p) _ = no (λ e. p (cc))
cons_cases a b xs ys (yes p) (no q) = no (λ e. q (cc))

unfoldable pub bytes_discrete : Discrete Bytes
unfolding cons_cases ℕ_discrete
bytes_discrete [] [] = yes refl
bytes_discrete [] (b ∷ ys) = no (λ e. cc)
bytes_discrete (a ∷ xs) [] = no (λ e. cc)
bytes_discrete (a ∷ xs) (b ∷ ys) =
    let rest = bytes_discrete xs ys in cons_cases a b xs ys (ℕ_discrete a b) rest

abbrev pub same : Bytes → Bytes → Bool
same a b = elim (bytes_discrete a b) [ yes _ ↦ true | no _ ↦ false ]

-- u64 and usize arithmetic wraps, as in a release build.
abbrev pub wrap64 : ℕ → ℕ
wrap64 n = n % 2 ^ 64

pub Bool-cases : (b : Bool) → (b ≡ true) ⊎ (b ≡ false)
Bool-cases true = inl refl
Bool-cases false = inr refl

pub Option-cases {ℓ} : {A : Type ℓ} (o : Option A) → (o ≡ none) ⊎ ((a : A) × (o ≡ some a))
Option-cases none = inl refl
Option-cases (some a) = inr (a, refl)
