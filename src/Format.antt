-- ===== src/Format.antt =====
-- `format!` of the standard library, as far as the program uses it: `{}` on an unsigned number and
-- `{:?}` on an array of bytes. The result is ASCII, one byte to a character.
pub mod Injective
use Prim.Native.Char.{code}
use Prim.Native.String.{String}
use p2p_pbft.Base.{ℕ, zero, suc, ◌+◌, ◌/◌, ◌%◌, List, [], ◌∷◌, ◌++◌, ltb, if◌then◌else◌, Bytes}

-- The bytes of an ASCII literal.
abbrev pub text : String → Bytes
text String.[] = []
text (String.◌∷◌ c s) = code c ∷ text s

-- The decimal digits of a number; `suc n` rounds are enough for `n`.
decimal_fuel : ℕ → ℕ → Bytes
decimal_fuel zero n = []
decimal_fuel (suc f) n =
    let shorter = decimal_fuel f (n / 10) in
    if ltb n 10 then (b'0' + n) ∷ [] else shorter ++ (b'0' + n % 10) ∷ []

unfoldable pub decimal : ℕ → Bytes
unfolding decimal_fuel
decimal n = decimal_fuel (suc n) n

debug_tail : List ℕ → Bytes
debug_tail [] = b']' ∷ []
debug_tail (b ∷ bs) = b',' ∷ b' ' ∷ (decimal b ++ debug_tail bs)

unfoldable pub debug : List ℕ → Bytes
unfolding decimal debug_tail
debug [] = text "[]"
debug (b ∷ bs) = b'[' ∷ (decimal b ++ debug_tail bs)
