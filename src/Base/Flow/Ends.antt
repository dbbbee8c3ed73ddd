-- ===== src/Base/Flow/Ends.antt =====
-- A condition on the state that code leaves early, a panic included, and one on the value and the state
-- with which it goes on: for code that `Stays` does not describe, as the two belong together.
use mathlib.Core.Bool.{Bool, true, false}
use mathlib.Core.Option.{Option, none, some}
use mathlib.Core.Path.{◌≡◌, refl}
use p2p_pbft.Base.Flow.{
  ok, err, panic, Step, next, stop, Flow, call, ◌>>=◌, ◌>>◌, pure, gets, modify, guard, return_if,
  branch, unwrap, some_or_return, flow, after,
}
use p2p_pbft.Base.Flow.Stays.{Stays}

abbrev pub Met : {S E A : Type 0} → (S → Type 0) → (A → S → Type 0) → Step S E A → Type 0
Met P Q (next a s) = Q a s
Met P Q (stop r s) = P s

pub record Ends {S E A : Type 0} (P : S → Type 0) (Q : A → S → Type 0) (t : Step S E A)
    : Type 0 where
  pub met : Met P Q t

module _ {S E : Type 0} {P : S → Type 0} where
  step-Ends :
      {A B : Type 0} {Q : A → S → Type 0} {R : B → S → Type 0} (f : A → Flow S E B) (t : Step S E A)
      → Ends P Q t
      → ((a : A) (u : S) → Q a u → Ends P R (f a u))
      → Ends P R (let r : Step S E B = elim t [ next a s ↦ f a s | stop r s ↦ stop r s ] in r)
  step-Ends f (next a s) h k = k a s h.met
  step-Ends f (stop r s) h k = record { met = h.met }

  pub bind-Ends :
      {A B : Type 0} {Q : A → S → Type 0} {R : B → S → Type 0} (m : Flow S E A) (f : A → Flow S E B)
      (s : S)
      → Ends P Q (m s)
      → ((a : A) (u : S) → Q a u → Ends P R (f a u))
      → Ends P R ((m >>= f) s)
  unfolding flow
  bind-Ends m f s h k = step-Ends f (m s) h k

  pub Ends-after : {A : Type 0} (t : Step S E A) → Ends P (λ _. P) t → P (after t)
  Ends-after (next a s) h = h.met
  Ends-after (stop r s) h = h.met

  pub after-Ends : {A : Type 0} (t : Step S E A) → P (after t) → Ends P (λ _. P) t
  after-Ends (next a s) h = record { met = h }
  after-Ends (stop r s) h = record { met = h }

  call_of :
      (t : Step S E (Unit {0}))
      → Ends P (λ _. P) t
      → Ends P
          (λ _. P)
          (let r : Step S E (Unit {0}) = elim t [
            | next a u ↦ next a u
            | stop ok u ↦ next tt u
            | stop (err e) u ↦ stop (err e) u
            | stop panic u ↦ stop panic u
          ] in
            r)
  call_of (next a s) h = record { met = h.met }
  call_of (stop ok s) h = record { met = h.met }
  call_of (stop (err e) s) h = record { met = h.met }
  call_of (stop panic s) h = record { met = h.met }

  pub call-Ends :
      (m : Flow S E (Unit {0})) (s : S) → Ends P (λ _. P) (m s) → Ends P (λ _. P) (call m s)
  unfolding flow
  call-Ends m s h = call_of (m s) h

  pub seq-Ends :
      {B : Type 0} {Q : Unit {0} → S → Type 0} {R : B → S → Type 0} (m : Flow S E (Unit {0}))
      (f : Flow S E B) (s : S)
      → Ends P Q (m s)
      → ((u : S) → Q tt u → Ends P R (f u))
      → Ends P R ((m >> f) s)
  unfolding flow
  seq-Ends m f s h k = bind-Ends m (λ _. f) s h (λ _ u q. k u q)

  pub Ends-Stays : {A : Type 0} (m : Flow S E A) (s : S) → Stays P m → P s → Ends P (λ _. P) (m s)
  Ends-Stays m s h p = after-Ends (m s) (h.at s p)

  pub Stays-of : {A : Type 0} (m : Flow S E A) → ((s : S) → P s → Ends P (λ _. P) (m s)) → Stays P m
  Stays-of m h = record { at = λ s p. Ends-after (m s) (h s p) }

  module _ {B : Type 0} {R : B → S → Type 0} where
    pub gets-Ends :
        {A : Type 0} (f : S → A) (k : A → Flow S E B) (s : S)
        → Ends P R (k (f s) s)
        → Ends P R ((gets f >>= k) s)
    unfolding flow
    gets-Ends f k s h = h

    pub modify-Ends :
        (f : S → S) (k : Flow S E B) (s : S) → Ends P R (k (f s)) → Ends P R ((modify f >> k) s)
    unfolding flow
    modify-Ends f k s h = h

    pub guard-Ends_known :
        (b : Bool) (e : E) (k : Flow S E B) (s : S)
        → (b ≡ false → P s)
        → (b ≡ true → Ends P R (k s))
        → Ends P R ((guard b e >> k) s)
    unfolding flow
    guard-Ends_known true e k s p h = h refl
    guard-Ends_known false e k s p h = record { met = p refl }

    pub guard-Ends :
        (b : Bool) (e : E) (k : Flow S E B) (s : S)
        → P s
        → (b ≡ true → Ends P R (k s))
        → Ends P R ((guard b e >> k) s)
    guard-Ends b e k s p h = guard-Ends_known b e k s (λ _. p) h

    pub return_if-Ends_known :
        (b : Bool) (k : Flow S E B) (s : S)
        → (b ≡ true → P s)
        → (b ≡ false → Ends P R (k s))
        → Ends P R ((return_if b >> k) s)
    unfolding flow
    return_if-Ends_known true k s p h = record { met = p refl }
    return_if-Ends_known false k s p h = h refl

    pub return_if-Ends :
        (b : Bool) (k : Flow S E B) (s : S)
        → P s
        → (b ≡ false → Ends P R (k s))
        → Ends P R ((return_if b >> k) s)
    return_if-Ends b k s p h = return_if-Ends_known b k s (λ _. p) h

    pub branch-Ends :
        (b : Bool) (k l : Flow S E B) (s : S)
        → (b ≡ true → Ends P R (k s))
        → (b ≡ false → Ends P R (l s))
        → Ends P R (branch b k l s)
    unfolding flow
    branch-Ends true k l s h h' = h refl
    branch-Ends false k l s h h' = h' refl

    module _ {A : Type 0} where
      pub unwrap-Ends_known :
          (o : Option A) (k : A → Flow S E B) (s : S)
          → (o ≡ none → P s)
          → ((a : A) → o ≡ some a → Ends P R (k a s))
          → Ends P R ((unwrap o >>= k) s)
      unfolding flow
      unwrap-Ends_known none k s p h = record { met = p refl }
      unwrap-Ends_known (some a) k s p h = h a refl

      pub unwrap-Ends :
          (o : Option A) (k : A → Flow S E B) (s : S)
          → P s
          → ((a : A) → o ≡ some a → Ends P R (k a s))
          → Ends P R ((unwrap o >>= k) s)
      unwrap-Ends o k s p h = unwrap-Ends_known o k s (λ _. p) h

      pub some_or_return-Ends_known :
          (o : Option A) (k : A → Flow S E B) (s : S)
          → (o ≡ none → P s)
          → ((a : A) → o ≡ some a → Ends P R (k a s))
          → Ends P R ((some_or_return o >>= k) s)
      unfolding flow
      some_or_return-Ends_known none k s p h = record { met = p refl }
      some_or_return-Ends_known (some a) k s p h = h a refl

      pub some_or_return-Ends :
          (o : Option A) (k : A → Flow S E B) (s : S)
          → P s
          → ((a : A) → o ≡ some a → Ends P R (k a s))
          → Ends P R ((some_or_return o >>= k) s)
      some_or_return-Ends o k s p h = some_or_return-Ends_known o k s (λ _. p) h

module _ {S : Type 0} (E : Type 0) {P : S → Type 0} where
  pub pure-Ends :
      {B : Type 0} {R : B → S → Type 0} (a : B) (s : S) → R a s → Ends P R (pure {E = E} a s)
  unfolding flow
  pure-Ends a s h = record { met = h }

  pub write-Ends :
      {Q : Unit {0} → S → Type 0} (f : S → S) (s : S) → Q tt (f s) → Ends P Q (modify {E = E} f s)
  unfolding flow
  write-Ends f s h = record { met = h }
