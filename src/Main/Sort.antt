-- ===== src/Main/Sort.antt =====
-- `Vec::sort` of the standard library on strings, which compares their bytes.
use mathlib.Core.List.{Perm}
use mathlib.Core.List.Perm
use p2p_pbft.Base.{
  List, [], ◌∷◌, Bool, true, false, ltb, ◌==◌, if◌then◌else◌, Bytes, Bool-cases, inl, inr,
}

-- `a <= b` in the lexicographic order.
abbrev pub le_bytes : Bytes → Bytes → Bool
le_bytes [] b = true
le_bytes (c ∷ a) [] = false
le_bytes (c ∷ a) (d ∷ b) =
    let rest = le_bytes a b in if ltb c d then true else if c == d then rest else false

unfoldable pub insert_sorted : Bytes → List Bytes → List Bytes
insert_sorted a [] = a ∷ []
insert_sorted a (b ∷ bs) =
    let rest = insert_sorted a bs in if le_bytes a b then a ∷ b ∷ bs else b ∷ rest

unfoldable pub sort : List Bytes → List Bytes
sort [] = []
sort (a ∷ l) = insert_sorted a (sort l)

insert_sorted-perm : (a : Bytes) (bs : List Bytes) → Perm (insert_sorted a bs) (a ∷ bs)
unfolding insert_sorted
insert_sorted-perm a [] = Perm.rfl
insert_sorted-perm a (b ∷ bs) = elim (Bool-cases (le_bytes a b)) [
  | inl le ↦ rw (le) Perm.rfl
  | inr gt ↦ rw (gt) (Perm.trans (Perm.cons b (insert_sorted-perm a bs)) (Perm.swap _ _ _))
]

pub sort-perm : (l : List Bytes) → Perm (sort l) l
unfolding sort
sort-perm [] = Perm.rfl
sort-perm (a ∷ l) = Perm.trans (insert_sorted-perm a (sort l)) (Perm.cons a (sort-perm l))
