-- ===== src/Base/Flow.antt =====
-- Code under a lock: it reads and writes the state, and leaves early with `Ok(())`, with an error
-- or by a panic.
pub mod Rules
pub mod Runs
pub mod Stays
pub mod Ends
pub mod Errors
use mathlib.Core.Bool.{Bool, true, false}
use mathlib.Core.Option.{Option, none, some}

pub data Outcome (E : Type 0) : Type 0 where
  ok : Outcome E
  err : E → Outcome E
  panic : Outcome E

-- `next a s` goes on with `a`; `stop r s` has left the function with the result `r`.
pub data Step (S E A : Type 0) : Type 0 where
  next : A → S → Step S E A
  stop : Outcome E → S → Step S E A

abbrev pub Flow : Type 0 → Type 0 → Type 0 → Type 0
Flow S E A = S → Step S E A

module _ {S E : Type 0} where
  infixl 5 ◌>>=◌ ◌>>◌
  unfoldable pub ◌>>=◌ : {A B : Type 0} → Flow S E A → (A → Flow S E B) → Flow S E B
  ◌>>=◌ m f s = elim (m s) [ next a t ↦ f a t | stop r t ↦ stop r t ]

  unfoldable pub ◌>>◌ : {B : Type 0} → Flow S E (Unit {0}) → Flow S E B → Flow S E B
  unfolding ◌>>=◌
  m >> k = m >>= λ _. k

  unfoldable pub pure : {A : Type 0} → A → Flow S E A
  pure a s = next a s

  unfoldable pub gets : {A : Type 0} → (S → A) → Flow S E A
  gets f s = next (f s) s

  unfoldable pub modify : (S → S) → Flow S E (Unit {0})
  modify f s = next tt (f s)

  -- `if !b { return Err(e); }`
  unfoldable pub guard : Bool → E → Flow S E (Unit {0})
  guard true e s = next tt s
  guard false e s = stop (err e) s

  -- `if b { return Ok(()); }`
  unfoldable pub return_if : Bool → Flow S E (Unit {0})
  return_if true s = stop ok s
  return_if false s = next tt s

  -- A fault such as a division by zero.
  unfoldable pub panic_if : Bool → Flow S E (Unit {0})
  panic_if true s = stop panic s
  panic_if false s = next tt s

  -- `if b { .. } else { .. }`
  unfoldable pub branch : {A : Type 0} → Bool → Flow S E A → Flow S E A → Flow S E A
  branch true m k s = m s
  branch false m k s = k s

  -- `unwrap`, and an index that may be out of range.
  unfoldable pub unwrap : {A : Type 0} → Option A → Flow S E A
  unwrap none s = stop panic s
  unwrap (some a) s = next a s

  -- `let Some(x) = e else { return Ok(()) }`
  unfoldable pub some_or_return : {A : Type 0} → Option A → Flow S E A
  some_or_return none s = stop ok s
  some_or_return (some a) s = next a s

  -- `e?` of a result whose error is turned into `e`
  unfoldable pub ok_or : {A : Type 0} → Option A → E → Flow S E A
  ok_or none e s = stop (err e) s
  ok_or (some a) e s = next a s

  -- `f(...).await?` of a function that returns `Result<(), E>`.
  unfoldable pub call : Flow S E (Unit {0}) → Flow S E (Unit {0})
  call m s = elim (m s) [
    | next a t ↦ next a t
    | stop ok t ↦ next tt t
    | stop (err e) t ↦ stop (err e) t
    | stop panic t ↦ stop panic t
  ]

  -- Code on a state of its own, such as a stream, inside code on `S`; it gives that state back.
  unfoldable pub run_on : {T A : Type 0} → T → Flow T E A → Flow S E (A × T)
  run_on t m s = elim (m t) [ next a t' ↦ next (a, t') s | stop r t' ↦ stop r s ]

  abbrev pub outcome : {A : Type 0} → Step S E A → Outcome E
  outcome (next a s) = ok
  outcome (stop r s) = r

  abbrev pub after : {A : Type 0} → Step S E A → S
  after (next a s) = s
  after (stop r s) = s

-- Opens all of the above, for a proof or a test that runs code.
unfoldable pub flow : Unit {0}
unfolding ◌>>=◌ ◌>>◌ pure gets modify guard return_if panic_if branch unwrap some_or_return ok_or
    call run_on
flow = tt
