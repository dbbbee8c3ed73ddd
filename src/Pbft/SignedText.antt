-- ===== src/Pbft/SignedText.antt =====
-- src/pbft.rs: what a signature binds. Every text that a replica signs, and that no two are the same.
use mathlib.Core.List.{append-nil}
use p2p_pbft.Base.{ℕ, ◌≡◌, ◌≢◌, refl, ap, sym, ◌∙◌, [], ◌∷◌, ◌++◌, false, drop, arith, Bytes}
use p2p_pbft.Format.{text, decimal, debug}
use p2p_pbft.Format.Injective.{is_digit, decimal_split, decimal_start, debug_split, debug_start}
use p2p_pbft.Message.{ViewNumber, SequenceNumber, Hash}
use p2p_pbft.Pbft.Signing.{
  proposal_data, commit_data, checkpoint_data, new_view_data, view_change_data,
}

-- What a replica signs: a pre-prepare or a prepare, a commit, a checkpoint, a new view, a view change.
pub data Signed : Type 0 where
  proposal : ViewNumber → SequenceNumber → Hash → Signed
  commit : ViewNumber → SequenceNumber → Hash → Signed
  checkpoint : SequenceNumber → Hash → Signed
  new_view : ViewNumber → Signed
  view_change : ViewNumber → Signed

unfoldable pub signed_text : Signed → Bytes
signed_text (proposal v s d) = proposal_data v s d
signed_text (commit v s d) = commit_data v s d
signed_text (checkpoint s d) = checkpoint_data s d
signed_text (new_view v) = new_view_data v
signed_text (view_change v) = view_change_data v

-- Each text is a number, a dash and the rest.
abbrev number : Signed → ℕ
number (proposal v s d) = v
number (commit v s d) = v
number (checkpoint s d) = s
number (new_view v) = v
number (view_change v) = v

abbrev rest : Signed → Bytes
rest (proposal v s d) = decimal s ++ (b'-' ∷ debug d)
rest (commit v s d) = decimal s ++ (b'-' ∷ (debug d ++ text "-commit"))
rest (checkpoint s d) = debug d
rest (new_view v) = text "new-view"
rest (view_change v) = text "view-change"

signed_text-parts : (a : Signed) → signed_text a ≡ decimal (number a) ++ (b'-' ∷ rest a)
unfolding signed_text proposal_data commit_data checkpoint_data new_view_data view_change_data
signed_text-parts (proposal v s d) = refl
signed_text-parts _ = refl

-- A sequence number, a dash and an array, with what follows.
numbered_split :
    (s t : ℕ) (d e r q : Bytes)
    → decimal s ++ (b'-' ∷ (debug d ++ r)) ≡ decimal t ++ (b'-' ∷ (debug e ++ q))
    → (s ≡ t) × (d ≡ e) × (r ≡ q)
numbered_split s t d e r q h =
    let (same_number, tail) = decimal_split s t _ _ refl refl h in
    let (same_digest, last) = debug_split d e r q (ap (drop 1) tail) in
    (same_number, same_digest, last)

-- A rest that starts with a number is no other rest.
numbered_is_not : (s b : ℕ) (r q : Bytes) → is_digit b ≡ false → decimal s ++ r ≡ b ∷ q → ⊥
numbered_is_not s b r q no_digit h = cc (decimal_start s r q b h)

numbered_is_not_array : (s : ℕ) (r d : Bytes) → decimal s ++ r ≡ debug d → ⊥
numbered_is_not_array s r d h =
    let (t, e) = debug_start d [] in
    numbered_is_not s b'[' r t refl (h ∙ (sym (append-nil (debug d)) ∙ e))

array_is_not : (d q : Bytes) (b : ℕ) → b ≢ b'[' → debug d ≡ b ∷ q → ⊥
array_is_not d q b n h =
    let (t, e) = debug_start d [] in ground (arith, sym h ∙ (sym (append-nil (debug d)) ∙ e))

plain : (s : ℕ) (d : Bytes) → decimal s ++ (b'-' ∷ debug d) ≡ decimal s ++ (b'-' ∷ (debug d ++ []))
plain s d = rw append-nil

bare_split :
    (s t : ℕ) (d e q : Bytes)
    → decimal s ++ (b'-' ∷ debug d) ≡ decimal t ++ (b'-' ∷ (debug e ++ q))
    → (s ≡ t) × (d ≡ e) × ([] ≡ q)
bare_split s t d e q h = numbered_split s t d e [] q (sym (plain s d) ∙ h)

rest-injective : (a b : Signed) → number a ≡ number b → rest a ≡ rest b → a ≡ b
rest-injective (proposal v s d) (proposal w t e) n h =
    let (p, q, _) = bare_split s t d e [] (h ∙ plain t e) in cc
rest-injective (proposal v s d) (commit w t e) n h =
    let (_, _, q) = bare_split s t d e (text "-commit") h in absurd (cc q)
rest-injective (proposal v s d) (checkpoint t e) n h = absurd (numbered_is_not_array s _ e h)
rest-injective (proposal v s d) (new_view w) n h = absurd (numbered_is_not s b'n' _ _ refl h)
rest-injective (proposal v s d) (view_change w) n h = absurd (numbered_is_not s b'v' _ _ refl h)
rest-injective (commit v s d) (proposal w t e) n h =
    let (_, _, q) = bare_split t s e d (text "-commit") (sym h) in absurd (cc q)
rest-injective (commit v s d) (commit w t e) n h =
    let (p, q, _) = numbered_split s t d e (text "-commit") (text "-commit") h in cc
rest-injective (commit v s d) (checkpoint t e) n h = absurd (numbered_is_not_array s _ e h)
rest-injective (commit v s d) (new_view w) n h = absurd (numbered_is_not s b'n' _ _ refl h)
rest-injective (commit v s d) (view_change w) n h = absurd (numbered_is_not s b'v' _ _ refl h)
rest-injective (checkpoint s d) (proposal w t e) n h = absurd (numbered_is_not_array t _ d (sym h))
rest-injective (checkpoint s d) (commit w t e) n h = absurd (numbered_is_not_array t _ d (sym h))
rest-injective (checkpoint s d) (checkpoint t e) n h =
    let (q, _) = debug_split d e [] [] (append-nil (debug d) ∙ (h ∙ sym (append-nil (debug e)))) in
    cc
rest-injective (checkpoint s d) (new_view w) n h = absurd (array_is_not d _ b'n' (omega arith) h)
rest-injective (checkpoint s d) (view_change w) n h = absurd (array_is_not d _ b'v' (omega arith) h)
rest-injective (new_view v) (proposal w t e) n h = absurd (numbered_is_not t b'n' _ _ refl (sym h))
rest-injective (new_view v) (commit w t e) n h = absurd (numbered_is_not t b'n' _ _ refl (sym h))
rest-injective (new_view v) (checkpoint t e) n h =
    absurd (array_is_not e _ b'n' (omega arith) (sym h))
rest-injective (new_view v) (new_view w) n h = ap new_view n
rest-injective (new_view v) (view_change w) n h = absurd (cc h)
rest-injective (view_change v) (proposal w t e) n h =
    absurd (numbered_is_not t b'v' _ _ refl (sym h))
rest-injective (view_change v) (commit w t e) n h = absurd (numbered_is_not t b'v' _ _ refl (sym h))
rest-injective (view_change v) (checkpoint t e) n h =
    absurd (array_is_not e _ b'v' (omega arith) (sym h))
rest-injective (view_change v) (new_view w) n h = absurd (cc h)
rest-injective (view_change v) (view_change w) n h = ap view_change n

-- The texts of two things that a replica may sign are the same only if the two are: view, sequence
-- number, digest and kind of message can be read off the text. A pre-prepare and a prepare for one
-- view, sequence number and digest are one kind.
pub signed_text-injective : (a b : Signed) → signed_text a ≡ signed_text b → a ≡ b
signed_text-injective a b e =
    let (same_number, same_rest) =
      decimal_split (number a) (number b) (b'-' ∷ rest a) (b'-' ∷ rest b) refl refl
        (sym (signed_text-parts a) ∙ (e ∙ signed_text-parts b)) in
    rest-injective a b same_number (ap (drop 1) same_rest)
