-- ===== src/Base/Flow/Rules.antt =====
-- A condition on the state that code under a lock keeps, however it is left, and the rules for its
-- steps. A panic meets no condition.
use mathlib.Core.Bool.{Bool, true, false}
use mathlib.Core.Logic.{◌≢◌}
use mathlib.Core.Option.{Option, none, some}
use mathlib.Core.Path.{◌≡◌, refl}
use p2p_pbft.Base.Flow.{
  ok, err, panic, Step, next, stop, Flow, ◌>>=◌, ◌>>◌, pure, gets, modify, guard, return_if,
  panic_if, branch, unwrap, some_or_return, call, flow, after, outcome,
}

-- `P` where the function is left early, `R` of the value where it goes on.
abbrev pub Meets : {S E A : Type 0} → (S → Type 0) → (A → S → Type 0) → Step S E A → Type 0
Meets P R (next a s) = R a s
Meets P R (stop ok s) = P s
Meets P R (stop (err e) s) = P s
Meets P R (stop panic s) = ⊥

pub record Holds {S E A : Type 0} (P : S → Type 0) (R : A → S → Type 0) (t : Step S E A)
    : Type 0 where
  pub meets : Meets P R t

-- A function whose result is `Result<(), E>` keeps `P`.
abbrev pub Keeps : {S E : Type 0} → (S → Type 0) → Step S E (Unit {0}) → Type 0
Keeps P t = Holds P (λ _. P) t

module _ {S E : Type 0} {P : S → Type 0} where
  pub Keeps-after : (t : Step S E (Unit {0})) → Keeps P t → P (after t) × (outcome t ≢ panic)
  Keeps-after (next a s) h = (h.meets, λ e. cc)
  Keeps-after (stop ok s) h = (h.meets, λ e. cc)
  Keeps-after (stop (err e) s) h = (h.meets, λ e. cc)
  Keeps-after (stop panic s) h = absurd h.meets

  bind_step :
      {A B : Type 0} {Q : A → S → Type 0} {R : B → S → Type 0} (t : Step S E A) (f : A → Flow S E B)
      → Holds P Q t
      → ((a : A) (s : S) → Q a s → Holds P R (f a s))
      → Holds P R (elim t [ next a s ↦ f a s | stop r s ↦ stop r s ])
  bind_step (next a s) f h k = k a s h.meets
  bind_step (stop ok s) f h k = record { meets = h.meets }
  bind_step (stop (err e) s) f h k = record { meets = h.meets }
  bind_step (stop panic s) f h k = absurd h.meets

  pub bind-Holds :
      {A B : Type 0} {Q : A → S → Type 0} {R : B → S → Type 0} (m : Flow S E A) (f : A → Flow S E B)
      (s : S)
      → Holds P Q (m s)
      → ((a : A) (t : S) → Q a t → Holds P R (f a t))
      → Holds P R ((m >>= f) s)
  unfolding flow
  bind-Holds m f s h k = bind_step (m s) f h k

  pub seq-Holds :
      {B : Type 0} {Q : Unit {0} → S → Type 0} {R : B → S → Type 0} (m : Flow S E (Unit {0}))
      (f : Flow S E B) (s : S)
      → Holds P Q (m s)
      → ((t : S) → Q tt t → Holds P R (f t))
      → Holds P R ((m >> f) s)
  unfolding flow
  seq-Holds m f s h k = bind_step (m s) (λ _. f) h (λ _ t q. k t q)

  module _ {B : Type 0} {R : B → S → Type 0} where
    pub gets-Holds :
        {A : Type 0} (f : S → A) (k : A → Flow S E B) (s : S)
        → Holds P R (k (f s) s)
        → Holds P R ((gets f >>= k) s)
    unfolding flow
    gets-Holds f k s h = h

    pub modify-Holds :
        (f : S → S) (k : Flow S E B) (s : S) → Holds P R (k (f s)) → Holds P R ((modify f >> k) s)
    unfolding flow
    modify-Holds f k s h = h

    pub branch-Holds :
        (b : Bool) (k l : Flow S E B) (s : S)
        → (b ≡ true → Holds P R (k s))
        → (b ≡ false → Holds P R (l s))
        → Holds P R (branch b k l s)
    unfolding flow
    branch-Holds true k l s h h' = h refl
    branch-Holds false k l s h h' = h' refl

    pub guard-Holds :
        (b : Bool) (e : E) (k : Flow S E B) (s : S)
        → P s
        → (b ≡ true → Holds P R (k s))
        → Holds P R ((guard b e >> k) s)
    unfolding flow
    guard-Holds true e k s p h = h refl
    guard-Holds false e k s p h = record { meets = p }

    pub return_if-Holds :
        (b : Bool) (k : Flow S E B) (s : S)
        → P s
        → (b ≡ false → Holds P R (k s))
        → Holds P R ((return_if b >> k) s)
    unfolding flow
    return_if-Holds true k s p h = record { meets = p }
    return_if-Holds false k s p h = h refl

    pub panic_if-Holds :
        (b : Bool) (k : Flow S E B) (s : S)
        → b ≡ false
        → Holds P R (k s)
        → Holds P R ((panic_if b >> k) s)
    unfolding flow
    panic_if-Holds true k s p h = absurd (cc)
    panic_if-Holds false k s p h = h

    module _ {A : Type 0} where
      pub unwrap-Holds :
          (o : Option A) (k : A → Flow S E B) (s : S)
          → o ≢ none
          → ((a : A) → o ≡ some a → Holds P R (k a s))
          → Holds P R ((unwrap o >>= k) s)
      unfolding flow
      unwrap-Holds none k s p h = absurd (p refl)
      unwrap-Holds (some a) k s p h = h a refl

      pub some_or_return-Holds :
          (o : Option A) (k : A → Flow S E B) (s : S)
          → P s
          → ((a : A) → o ≡ some a → Holds P R (k a s))
          → Holds P R ((some_or_return o >>= k) s)
      unfolding flow
      some_or_return-Holds none k s p h = record { meets = p }
      some_or_return-Holds (some a) k s p h = h a refl

  call_step :
      (t : Step S E (Unit {0}))
      → Keeps P t
      → Keeps P (elim t [
        | next a t ↦ next a t
        | stop ok t ↦ next tt t
        | stop (err e) t ↦ stop (err e) t
        | stop panic t ↦ stop panic t
      ])
  call_step (next a s) h = record { meets = h.meets }
  call_step (stop ok s) h = record { meets = h.meets }
  call_step (stop (err e) s) h = record { meets = h.meets }
  call_step (stop panic s) h = absurd h.meets

  -- A function that keeps `P` keeps it when it is called.
  pub call-Holds : (m : Flow S E (Unit {0})) (s : S) → Keeps P (m s) → Keeps P (call m s)
  unfolding flow
  call-Holds m s h = call_step (m s) h

module _ {S : Type 0} (E : Type 0) {P : S → Type 0} where
  pub pure-Holds :
      {B : Type 0} {R : B → S → Type 0} (a : B) (s : S) → R a s → Holds P R (pure {E = E} a s)
  unfolding flow
  pure-Holds a s h = record { meets = h }

  pub modify-Keeps : (f : S → S) (s : S) → P (f s) → Keeps P (modify {E = E} f s)
  unfolding flow
  modify-Keeps f s h = record { meets = h }
