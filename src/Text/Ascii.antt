-- ===== src/Text/Ascii.antt =====
-- Texts whose characters all pass a test: hexadecimal and decimal ones are ASCII, have no colon, and
-- are as long in bytes as in characters.
use mandate_ledger.Prelude.{
  ℕ, ◌≡◌, refl, Bool, true, false, [], ◌∷◌, nat_beq, length, all, any, inl, inr, Bool-cases, arith,
  nat_beq_iff, ap,
}
use mandate_ledger.Text.{Text, len, encode, contains_char}
use mandate_ledger.Text.Decimal.{is_ascii_digit}
use mandate_ledger.Text.Codec.{is_lower_hex, is_ascii_uppercase}

-- A character that fails the test does not stand in the text.
pub all-contains_char :
    (p : ℕ → Bool) (d : ℕ) (s : Text) → p d ≡ false → all p s ≡ true → contains_char s d ≡ false
unfolding contains_char
all-contains_char p d [] h k = refl
all-contains_char p d (c ∷ s) h k = elim (Bool-cases (nat_beq c d)) [
  | inl same ↦ let e : c ≡ d = (nat_beq_iff c d).0 same in absurd (clash e)
  | inr other ↦ rw other (all-contains_char p d s h (ground arith))
]
  where
    clash : c ≡ d → ⊥
    clash e = ground (arith, ap p e)

pub hex-colon : (s : Text) → all is_lower_hex s ≡ true → contains_char s b':' ≡ false
unfolding is_lower_hex
hex-colon s h = all-contains_char is_lower_hex b':' s refl h

pub digit-colon : (s : Text) → all is_ascii_digit s ≡ true → contains_char s b':' ≡ false
unfolding is_ascii_digit
digit-colon s h = all-contains_char is_ascii_digit b':' s refl h

pub len-hex : (s : Text) → all is_lower_hex s ≡ true → len s ≡ length s
unfolding len encode is_lower_hex
len-hex [] h = refl
len-hex (c ∷ s) h = ground (arith, len-hex s)

pub hex-uppercase : (s : Text) → all is_lower_hex s ≡ true → any is_ascii_uppercase s ≡ false
unfolding is_lower_hex is_ascii_uppercase
hex-uppercase [] h = refl
hex-uppercase (c ∷ s) h = ground (arith, hex-uppercase s)
