-- ===== src/Base/Flow/Runs.antt =====
-- How a known step runs on.
use mathlib.Core.Bool.{Bool, true, false}
use mathlib.Core.Path.{◌≡◌, refl, ap}
use p2p_pbft.Base.Flow.{Outcome, err, Step, next, stop, Flow, ◌>>=◌, ◌>>◌, guard, flow}

module _ {S E : Type 0} {B : Type 0} where
  pub bind-next :
      {A : Type 0} (m : Flow S E A) (f : A → Flow S E B) (s t : S) (a : A)
      → m s ≡ next a t
      → (m >>= f) s ≡ f a t
  unfolding flow
  bind-next {A} m f s t a h =
      ap (λ r. let u : Step S E B = elim r [ next a t ↦ f a t | stop r t ↦ stop r t ] in u) h

  pub seq-next :
      (m : Flow S E (Unit {0})) (k : Flow S E B) (s t : S) → m s ≡ next tt t → (m >> k) s ≡ k t
  unfolding ◌>>◌
  seq-next m k s t h = bind-next m (λ _. k) s t tt h

  pub bind-stop :
      {A : Type 0} (m : Flow S E A) (f : A → Flow S E B) (s t : S) (r : Outcome E)
      → m s ≡ stop r t
      → (m >>= f) s ≡ stop r t
  unfolding flow
  bind-stop {A} m f s t r h =
      ap (λ r. let u : Step S E B = elim r [ next a t ↦ f a t | stop r t ↦ stop r t ] in u) h

  pub guard-true : (b : Bool) (e : E) (k : Flow S E B) (s : S) → b ≡ true → (guard b e >> k) s ≡ k s
  unfolding flow
  guard-true b e k s h = rw (h) refl

  pub guard-false :
      (b : Bool) (e : E) (k : Flow S E B) (s : S) → b ≡ false → (guard b e >> k) s ≡ stop (err e) s
  unfolding flow
  guard-false b e k s h = rw (h) refl
