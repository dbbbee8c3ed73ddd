-- ===== src/Base/Flow/Errors.antt =====
-- Code that returns no error, and what holds where code returns one.
use mathlib.Core.Bool.{Bool, true, false}
use mathlib.Core.Logic.{◌≢◌}
use mathlib.Core.Option.{Option, none, some}
use mathlib.Core.Path.{◌≡◌, refl}
use p2p_pbft.Base.Flow.{
  ok, err, panic, Step, next, stop, Flow, call, ◌>>=◌, ◌>>◌, pure, gets, modify, return_if,
  panic_if, branch, unwrap, some_or_return, flow, after, outcome,
}
use p2p_pbft.Base.Flow.Ends.{Ends}

pub record NoErr {S E A : Type 0} (m : Flow S E A) : Type 0 where
  pub never : (s : S) (e : E) → outcome (m s) ≢ err e

-- `P` holds of the state in which an error leaves it.
pub record OnErr {S E A : Type 0} (P : S → Type 0) (t : Step S E A) : Type 0 where
  pub left : (e : E) → outcome t ≡ err e → P (after t)

module _ {S E : Type 0} where
  bind_never :
      {A B : Type 0} (f : A → Flow S E B) (t : Step S E A) (e : E)
      → outcome t ≢ err e
      → ((a : A) → NoErr (f a))
      → outcome (let r : Step S E B = elim t [ next a s ↦ f a s | stop r s ↦ stop r s ] in r)
        ≢ err e
  bind_never f (next a s) e h k = (k a).never s e
  bind_never f (stop r s) e h k = h

  pub NoErr-bind :
      {A B : Type 0} (m : Flow S E A) (f : A → Flow S E B)
      → NoErr m
      → ((a : A) → NoErr (f a))
      → NoErr (m >>= f)
  unfolding flow
  NoErr-bind m f h k = record { never = λ s e. bind_never f (m s) e (h.never s e) k }

  pub NoErr-seq :
      {B : Type 0} (m : Flow S E (Unit {0})) (f : Flow S E B) → NoErr m → NoErr f → NoErr (m >> f)
  unfolding flow
  NoErr-seq m f h k = record { never = λ s e. bind_never (λ _. f) (m s) e (h.never s e) (λ _. k) }

  call_never :
      (t : Step S E (Unit {0})) (e : E)
      → outcome t ≢ err e
      → outcome (
          let r : Step S E (Unit {0}) = elim t [
            | next a u ↦ next a u
            | stop ok u ↦ next tt u
            | stop (err e) u ↦ stop (err e) u
            | stop panic u ↦ stop panic u
          ] in
          r)
        ≢ err e
  call_never (next a s) e h = h
  call_never (stop ok s) e h = h
  call_never (stop (err d) s) e h = h
  call_never (stop panic s) e h = h

  pub NoErr-call : (m : Flow S E (Unit {0})) → NoErr m → NoErr (call m)
  unfolding flow
  NoErr-call m h = record { never = λ s e. call_never (m s) e (h.never s e) }

  pub NoErr-branch :
      {A : Type 0} (b : Bool) (m k : Flow S E A) → NoErr m → NoErr k → NoErr (branch b m k)
  unfolding flow
  NoErr-branch true m k h h' = record { never = h.never }
  NoErr-branch false m k h h' = record { never = h'.never }

  module _ {A : Type 0} where
    pub NoErr-pure : (a : A) → NoErr (pure {S = S} {E = E} a)
    unfolding flow
    NoErr-pure a = record { never = λ s e h. cc }

    pub NoErr-gets : (f : S → A) → NoErr (gets {E = E} f)
    unfolding flow
    NoErr-gets f = record { never = λ s e h. cc }

    pub NoErr-unwrap : (o : Option A) → NoErr (unwrap {S = S} {E = E} o)
    unfolding flow
    NoErr-unwrap none = record { never = λ s e h. cc }
    NoErr-unwrap (some a) = record { never = λ s e h. cc }

    pub NoErr-some_or_return : (o : Option A) → NoErr (some_or_return {S = S} {E = E} o)
    unfolding flow
    NoErr-some_or_return none = record { never = λ s e h. cc }
    NoErr-some_or_return (some a) = record { never = λ s e h. cc }

  pub NoErr-modify : (f : S → S) → NoErr (modify {E = E} f)
  unfolding flow
  NoErr-modify f = record { never = λ s e h. cc }

  pub NoErr-return_if : (b : Bool) → NoErr (return_if {S = S} {E = E} b)
  unfolding flow
  NoErr-return_if true = record { never = λ s e h. cc }
  NoErr-return_if false = record { never = λ s e h. cc }

  pub NoErr-panic_if : (b : Bool) → NoErr (panic_if {S = S} {E = E} b)
  unfolding flow
  NoErr-panic_if true = record { never = λ s e h. cc }
  NoErr-panic_if false = record { never = λ s e h. cc }

  module _ {P : S → Type 0} where
    pub NoErr-OnErr : {A : Type 0} (m : Flow S E A) (s : S) → NoErr m → OnErr P (m s)
    NoErr-OnErr m s h = record { left = λ e f. absurd (h.never s e f) }

    bind_left :
        {A B : Type 0} {Q : A → S → Type 0} (f : A → Flow S E B) (t : Step S E A)
        → Ends P Q t
        → ((a : A) → NoErr (f a))
        → OnErr P (let r : Step S E B = elim t [ next a s ↦ f a s | stop r s ↦ stop r s ] in r)
    bind_left f (next a s) h k = NoErr-OnErr (f a) s (k a)
    bind_left f (stop r s) h k = record { left = λ e g. h.met }

    -- What comes after the last check returns no error.
    pub bind-OnErr :
        {A B : Type 0} {Q : A → S → Type 0} (m : Flow S E A) (f : A → Flow S E B) (s : S)
        → Ends P Q (m s)
        → ((a : A) → NoErr (f a))
        → OnErr P ((m >>= f) s)
    unfolding flow
    bind-OnErr m f s h k = bind_left f (m s) h k

    pub seq-OnErr :
        {B : Type 0} {Q : Unit {0} → S → Type 0} (m : Flow S E (Unit {0})) (f : Flow S E B) (s : S)
        → Ends P Q (m s)
        → NoErr f
        → OnErr P ((m >> f) s)
    unfolding flow
    seq-OnErr m f s h k = bind_left (λ _. f) (m s) h (λ _. k)

  module _ {P : S → Type 0} {B : Type 0} where
    pub gets-OnErr :
        {A : Type 0} (f : S → A) (k : A → Flow S E B) (s : S)
        → OnErr P (k (f s) s)
        → OnErr P ((gets f >>= k) s)
    unfolding flow
    gets-OnErr f k s h = h

    pub unwrap-OnErr :
        {A : Type 0} (o : Option A) (k : A → Flow S E B) (s : S)
        → ((a : A) → o ≡ some a → OnErr P (k a s))
        → OnErr P ((unwrap o >>= k) s)
    unfolding flow
    unwrap-OnErr none k s h = record { left = λ e g. cc }
    unwrap-OnErr (some a) k s h = h a refl

    pub branch-OnErr :
        (b : Bool) (k l : Flow S E B) (s : S)
        → OnErr P (k s)
        → OnErr P (l s)
        → OnErr P (branch b k l s)
    unfolding flow
    branch-OnErr true k l s h h' = h
    branch-OnErr false k l s h h' = h'

pub ruleset no_err_rules = (
  NoErr-bind, NoErr-seq, NoErr-call, NoErr-branch, NoErr-pure, NoErr-gets, NoErr-modify,
  NoErr-return_if, NoErr-panic_if, NoErr-unwrap, NoErr-some_or_return,
)
