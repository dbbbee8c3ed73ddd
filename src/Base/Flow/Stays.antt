-- ===== src/Base/Flow/Stays.antt =====
-- A condition on the state that code keeps, however it is left, a panic included: what the code does
-- not touch. One rule for each step, for `search`.
use mathlib.Core.Bool.{Bool, true, false}
use mathlib.Core.Option.{Option, none, some}
use p2p_pbft.Base.Flow.{
  ok, err, panic, Step, next, stop, Flow, ◌>>=◌, ◌>>◌, pure, gets, modify, guard, return_if,
  panic_if, branch, unwrap, some_or_return, ok_or, call, run_on, flow, after,
}

pub record Stays {S E A : Type 0} (P : S → Type 0) (m : Flow S E A) : Type 0 where
  pub at : (s : S) → P s → P (after (m s))

module _ {S E : Type 0} (P : S → Type 0) where
  call_after :
      (t : Step S E (Unit {0}))
      → P (after t)
      → P (
          after (
            let r : Step S E (Unit {0}) = elim t [
              | next a t ↦ next a t
              | stop ok t ↦ next tt t
              | stop (err e) t ↦ stop (err e) t
              | stop panic t ↦ stop panic t
            ] in
            r))
  call_after (next a s) h = h
  call_after (stop ok s) h = h
  call_after (stop (err e) s) h = h
  call_after (stop panic s) h = h

  run_after :
      {T A : Type 0} (t : Step T E A) (s : S)
      → P s
      → P (
          after (
            let r : Step S E (A × T) = elim t [
              | next a t' ↦ next (a, t') s
              | stop r t' ↦ stop r s
            ] in
            r))
  run_after (next a t') s p = p
  run_after (stop r t') s p = p

module _ {S E : Type 0} {P : S → Type 0} where
  bind_after :
      {A B : Type 0} (f : A → Flow S E B)
      → ((a : A) → Stays P (f a))
      → (t : Step S E A) → P (after t)
      → P (after (let r : Step S E B = elim t [ next a s ↦ f a s | stop r s ↦ stop r s ] in r))
  bind_after f k (next a s) h = (k a).at s h
  bind_after f k (stop r s) h = h

  pub Stays-bind :
      {A B : Type 0} (m : Flow S E A) (f : A → Flow S E B)
      → Stays P m
      → ((a : A) → Stays P (f a))
      → Stays P (m >>= f)
  unfolding flow
  Stays-bind m f h k = record { at = λ s p. bind_after f k (m s) (h.at s p) }

  pub Stays-seq :
      {B : Type 0} (m : Flow S E (Unit {0})) (f : Flow S E B)
      → Stays P m
      → Stays P f
      → Stays P (m >> f)
  unfolding flow
  Stays-seq m f h k = record { at = λ s p. bind_after (λ _. f) (λ _. k) (m s) (h.at s p) }

  pub Stays-call : (m : Flow S E (Unit {0})) → Stays P m → Stays P (call m)
  unfolding flow
  Stays-call m h = record { at = λ s p. call_after P (m s) (h.at s p) }

  pub Stays-run_on : {T A : Type 0} (t : T) (m : Flow T E A) → Stays P (run_on {S = S} t m)
  unfolding flow
  Stays-run_on t m = record { at = λ s p. run_after P (m t) s p }

  pub Stays-branch :
      {A : Type 0} (b : Bool) (m k : Flow S E A) → Stays P m → Stays P k → Stays P (branch b m k)
  unfolding flow
  Stays-branch true m k h h' = record { at = h.at }
  Stays-branch false m k h h' = record { at = h'.at }

module _ {S : Type 0} (E : Type 0) {P : S → Type 0} where
  pub Stays-pure : {A : Type 0} (a : A) → Stays P (pure {E = E} a)
  unfolding flow
  Stays-pure a = record { at = λ s p. p }

  pub Stays-gets : {A : Type 0} (f : S → A) → Stays P (gets {E = E} f)
  unfolding flow
  Stays-gets f = record { at = λ s p. p }

  pub Stays-modify : (f : S → S) → ((s : S) → P s → P (f s)) → Stays P (modify {E = E} f)
  unfolding flow
  Stays-modify f h = record { at = h }

  pub Stays-guard : (b : Bool) (e : E) → Stays P (guard b e)
  unfolding flow
  Stays-guard true e = record { at = λ s p. p }
  Stays-guard false e = record { at = λ s p. p }

  pub Stays-return_if : (b : Bool) → Stays P (return_if {E = E} b)
  unfolding flow
  Stays-return_if true = record { at = λ s p. p }
  Stays-return_if false = record { at = λ s p. p }

  pub Stays-panic_if : (b : Bool) → Stays P (panic_if {E = E} b)
  unfolding flow
  Stays-panic_if true = record { at = λ s p. p }
  Stays-panic_if false = record { at = λ s p. p }

  pub Stays-unwrap : {A : Type 0} (o : Option A) → Stays P (unwrap {E = E} o)
  unfolding flow
  Stays-unwrap none = record { at = λ s p. p }
  Stays-unwrap (some a) = record { at = λ s p. p }

  pub Stays-some_or_return : {A : Type 0} (o : Option A) → Stays P (some_or_return {E = E} o)
  unfolding flow
  Stays-some_or_return none = record { at = λ s p. p }
  Stays-some_or_return (some a) = record { at = λ s p. p }

  pub Stays-ok_or : {A : Type 0} (o : Option A) (e : E) → Stays P (ok_or o e)
  unfolding flow
  Stays-ok_or none e = record { at = λ s p. p }
  Stays-ok_or (some a) e = record { at = λ s p. p }

pub ruleset stays_rules = (
  Stays-bind, Stays-seq, Stays-call, Stays-branch, Stays-pure, Stays-gets, Stays-modify,
  Stays-guard, Stays-return_if, Stays-panic_if, Stays-unwrap, Stays-some_or_return, Stays-ok_or,
  Stays-run_on,
)
