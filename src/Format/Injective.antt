-- ===== src/Format/Injective.antt =====
-- What `format!` writes can be read back: a number that something else than a digit follows, and an
-- array of bytes.
use p2p_pbft.Base.{
  ℕ, zero, suc, ◌+◌, ◌-◌, ◌*◌, ◌/◌, ◌%◌, ◌<◌, ◌≡◌, ◌≢◌, refl, ap, sym, drop, ◌∙◌, inl, inr, [], ◌∷◌,
  ◌++◌, Bool, true, false, ◌&&◌, ltb, leb, if◌then◌else◌, Bytes, arith, Bool-cases,
}
use mathlib.Core.List.{append_assoc}
use mathlib.Core.Path.{ap₂}
use p2p_pbft.Format.{decimal_fuel, decimal, debug_tail, debug}

abbrev pub is_digit : ℕ → Bool
is_digit b = leb b'0' b && leb b b'9'

-- Reads digits after the number `acc`, up to the first other byte.
read_number : ℕ → Bytes → ℕ × Bytes
read_number acc [] = (acc, [])
read_number acc (b ∷ bs) =
    let rest = read_number (acc * 10 + (b - b'0')) bs in if is_digit b then rest else (acc, b ∷ bs)

abbrev AllDigits : Bytes → Type 0
AllDigits [] = Unit {0}
AllDigits (b ∷ bs) = (is_digit b ≡ true) × AllDigits bs

value : ℕ → Bytes → ℕ
value acc [] = acc
value acc (b ∷ bs) = value (acc * 10 + (b - b'0')) bs

value-append : (acc : ℕ) (bs cs : Bytes) → value acc (bs ++ cs) ≡ value (value acc bs) cs
unfolding value
value-append acc [] cs = refl
value-append acc (b ∷ bs) cs = value-append (acc * 10 + (b - b'0')) bs cs

AllDigits-append : (bs cs : Bytes) → AllDigits bs → AllDigits cs → AllDigits (bs ++ cs)
AllDigits-append [] cs h k = k
AllDigits-append (b ∷ bs) cs h k = (h.0, AllDigits-append bs cs h.1 k)

read_number-append :
    (acc : ℕ) (bs cs : Bytes)
    → AllDigits bs
    → read_number acc (bs ++ cs) ≡ read_number (value acc bs) cs
unfolding read_number value
read_number-append acc [] cs h = refl
read_number-append acc (b ∷ bs) cs h =
    rw (h.0) (read_number-append (acc * 10 + (b - b'0')) bs cs h.1)

decimal_fuel-AllDigits : (f n : ℕ) → AllDigits (decimal_fuel f n)
unfolding decimal_fuel
decimal_fuel-AllDigits zero n = tt
decimal_fuel-AllDigits (suc f) n = elim (Bool-cases (ltb n 10)) [
  | inl small ↦ rw small (ground arith, tt)
  | inr big ↦ rw big (
      AllDigits-append (decimal_fuel f (n / 10)) _ (decimal_fuel-AllDigits f (n / 10))
        (ground arith, tt))
]

value-decimal_fuel : (f n : ℕ) → n < f → value 0 (decimal_fuel f n) ≡ n
unfolding decimal_fuel value
value-decimal_fuel zero n h = absurd (omega arith)
value-decimal_fuel (suc f) n h = elim (Bool-cases (ltb n 10)) [
  | inl small ↦ rw small (omega arith)
  | inr big ↦
      rw (big, value-append 0 (decimal_fuel f (n / 10)) ((b'0' + n % 10) ∷ []))
        (ground (arith, value-decimal_fuel f (n / 10)))
]

-- A text that does not start with a digit.
abbrev pub Stops : Bytes → Type 0
Stops [] = Unit {0}
Stops (b ∷ bs) = is_digit b ≡ false

read_number_stop : (n : ℕ) (bs : Bytes) → Stops bs → read_number n bs ≡ (n, bs)
unfolding read_number
read_number_stop n [] h = refl
read_number_stop n (b ∷ bs) h = rw h

read_number-decimal :
    (n : ℕ) (rest : Bytes) → Stops rest → read_number 0 (decimal n ++ rest) ≡ (n, rest)
unfolding decimal
read_number-decimal n rest h =
    read_number-append 0 (decimal_fuel (suc n) n) rest (decimal_fuel-AllDigits (suc n) n)
    ∙ rw (value-decimal_fuel (suc n) n (omega arith)) (read_number_stop n rest h)

-- Two texts that start with a number and go on with no digit are the same only if the numbers are, and
-- what follows them.
pub decimal_split :
    (n m : ℕ) (r s : Bytes)
    → Stops r
    → Stops s
    → decimal n ++ r ≡ decimal m ++ s
    → (n ≡ m) × (r ≡ s)
decimal_split n m r s hr hs e =
    let p =
      sym (read_number-decimal n r hr) ∙ (ap (read_number 0) e ∙ read_number-decimal m s hs) in
    (ap (λ (t : ℕ × Bytes). t.0) p, ap (λ (t : ℕ × Bytes). t.1) p)

snoc-ne-nil : (bs : Bytes) (b : ℕ) → bs ++ b ∷ [] ≢ []
snoc-ne-nil [] b e = cc
snoc-ne-nil (c ∷ bs) b e = cc

decimal-ne-nil : (n : ℕ) → decimal n ≢ []
unfolding decimal
decimal-ne-nil n = elim (Bool-cases (ltb n 10)) [
  | inl small ↦ rw (small, decimal_fuel) (λ e. cc)
  | inr big ↦ rw (big, decimal_fuel) (snoc-ne-nil _ _)
]

start_of_digits :
    (ds r bs : Bytes) (b : ℕ) → AllDigits ds → ds ≢ [] → ds ++ r ≡ b ∷ bs → is_digit b ≡ true
start_of_digits [] r bs b h n e = absurd (n refl)
start_of_digits (d ∷ ds) r bs b h n e = ground arith

-- A number starts with a digit.
pub decimal_start : (n : ℕ) (r bs : Bytes) (b : ℕ) → decimal n ++ r ≡ b ∷ bs → is_digit b ≡ true
unfolding decimal
decimal_start n r bs b e =
    start_of_digits (decimal n) r bs b (decimal_fuel-AllDigits (suc n) n) (decimal-ne-nil n) e

debug_tail-Stops : (ds r : Bytes) → Stops (debug_tail ds ++ r)
unfolding debug_tail
debug_tail-Stops [] r = refl
debug_tail-Stops (d ∷ ds) r = refl

-- One element of an array, with what follows it.
element_split :
    (d c : ℕ) (ds cs r s : Bytes)
    → (decimal d ++ debug_tail ds) ++ r ≡ (decimal c ++ debug_tail cs) ++ s
    → (d ≡ c) × (debug_tail ds ++ r ≡ debug_tail cs ++ s)
element_split d c ds cs r s e =
    decimal_split d c (debug_tail ds ++ r) (debug_tail cs ++ s) (debug_tail-Stops ds r)
      (debug_tail-Stops cs s)
      (sym (append_assoc (decimal d) (debug_tail ds) r)
        ∙ (e ∙ append_assoc (decimal c) (debug_tail cs) s))

cons_split :
    {d c : ℕ} {ds cs r s : Bytes}
    → d ≡ c
    → (ds ≡ cs) × (r ≡ s)
    → (◌≡◌ {A = Bytes} (d ∷ ds) (c ∷ cs)) × (r ≡ s)
cons_split p q = (ap₂ ◌∷◌ p q.0, q.1)

debug_tail-cons :
    (d : ℕ) (ds r : Bytes) → drop 2 (debug_tail (d ∷ ds) ++ r) ≡ (decimal d ++ debug_tail ds) ++ r
unfolding debug_tail
debug_tail-cons d ds r = refl

tail_step :
    (d c : ℕ) (ds cs r s : Bytes)
    → debug_tail (d ∷ ds) ++ r ≡ debug_tail (c ∷ cs) ++ s
    → (d ≡ c) × (debug_tail ds ++ r ≡ debug_tail cs ++ s)
tail_step d c ds cs r s e =
    element_split d c ds cs r s
      (sym (debug_tail-cons d ds r) ∙ (ap (drop 2) e ∙ debug_tail-cons c cs s))

tail_end : (d : ℕ) (ds r s : Bytes) → debug_tail (d ∷ ds) ++ r ≡ debug_tail [] ++ s → ⊥
unfolding debug_tail
tail_end d ds r s e = cc e

tail_nil : (r s : Bytes) → debug_tail [] ++ r ≡ debug_tail [] ++ s → r ≡ s
unfolding debug_tail
tail_nil r s e = ap (drop 1) e

debug_tail_split :
    (ds es r s : Bytes) → debug_tail ds ++ r ≡ debug_tail es ++ s → (ds ≡ es) × (r ≡ s)
debug_tail_split [] [] r s e = (refl, tail_nil r s e)
debug_tail_split [] (d ∷ ds) r s e = absurd (tail_end d ds s r (sym e))
debug_tail_split (d ∷ ds) [] r s e = absurd (tail_end d ds r s e)
debug_tail_split (d ∷ ds) (c ∷ cs) r s e =
    cons_split (tail_step d c ds cs r s e).0
      (debug_tail_split ds cs r s (tail_step d c ds cs r s e).1)

empty_array : (n : ℕ) (r s t : Bytes) → (decimal n ++ r) ++ s ≡ b']' ∷ t → ⊥
empty_array n r s t e =
    let h = decimal_start n (r ++ s) t b']' (sym (append_assoc (decimal n) r s) ∙ e) in cc h

-- Two texts that start with an array are the same only if the arrays are, and what follows them.
pub debug_split : (ds es r s : Bytes) → debug ds ++ r ≡ debug es ++ s → (ds ≡ es) × (r ≡ s)
unfolding debug
debug_split [] [] r s e = (refl, ap (drop 2) e)
debug_split [] (c ∷ cs) r s e = absurd (empty_array c (debug_tail cs) s r (sym (ap (drop 1) e)))
debug_split (d ∷ ds) [] r s e = absurd (empty_array d (debug_tail ds) r s (ap (drop 1) e))
debug_split (d ∷ ds) (c ∷ cs) r s e =
    let step = element_split d c ds cs r s (ap (drop 1) e) in
    cons_split step.0 (debug_tail_split ds cs r s step.1)

pub debug_start : (ds r : Bytes) → (t : Bytes) × (debug ds ++ r ≡ b'[' ∷ t)
unfolding debug
debug_start [] r = (_, refl)
debug_start (d ∷ ds) r = (_, refl)
