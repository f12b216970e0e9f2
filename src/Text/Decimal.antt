-- ===== src/Text/Decimal.antt =====
-- Unsigned numbers in decimal: Rust's `Display` and `FromStr` of `u64`, `u128`, and what is kept by
-- printing and reading back.
use mandate_ledger.Prelude.{
  ℕ, zero, suc, ◌+◌, ◌-◌, ◌*◌, ◌/◌, ◌%◌, ◌<◌, ◌≡◌, refl, sym, ap, ◌∙◌, Bool, true, false, ◌&&◌, not,
  [], ◌∷◌, Option, none, some, ltb, leb, nat_beq, all, if◌then◌else◌, arith,
}
use mandate_ledger.Text.{Text}

pub some_injective : (m n : ℕ) → some m ≡ some n → m ≡ n
some_injective m n h = ground arith

-- The digits of `n` before `out`; the fuel is more than the digits it has.
digits : ℕ → ℕ → Text → Text
digits zero n out = out
digits (suc f) n out =
    let shown = (48 + n % 10) ∷ out in
    let rest = digits f (n / 10) shown in if ltb n 10 then shown else rest

-- `to_string()`
unfoldable pub display_nat : ℕ → Text
unfolding digits
display_nat n = digits (suc n) n []

unfoldable pub is_ascii_digit : ℕ → Bool
is_ascii_digit c = leb 48 c && leb c 57

-- The digits of a number below `bound`, read after `n`.
read_digits : ℕ → Text → ℕ → Option ℕ
unfolding is_ascii_digit
read_digits bound [] n = some n
read_digits bound (c ∷ s) n =
    let m = n * 10 + (c - 48) in
    if is_ascii_digit c then if ltb m bound then read_digits bound s m else none else none

-- `parse::<u64>()` for the bound 2 ^ 64, `parse::<u128>()` for 2 ^ 128: one `+` may lead.
unfoldable pub parse_uint : ℕ → Text → Option ℕ
unfolding read_digits
parse_uint bound [] = none
parse_uint bound (c ∷ []) = read_digits bound (c ∷ []) 0
parse_uint bound (c ∷ d ∷ s) = read_digits bound (if nat_beq c b'+' then d ∷ s else c ∷ d ∷ s) 0

read_digits_last :
    (bound n : ℕ) (out : Text)
    → n < bound
    → read_digits bound ((48 + n % 10) ∷ out) (n / 10) ≡ read_digits bound out n
unfolding read_digits
read_digits_last bound n out h = ground arith

read_digits-digits :
    (f bound n : ℕ) (out : Text)
    → n < f
    → n < bound
    → read_digits bound (digits f n out) 0 ≡ read_digits bound out n
unfolding digits
read_digits-digits zero bound n out h k = absurd (omega arith)
read_digits-digits (suc f) bound n out h k =
    ground (
      arith,
      read_digits_last bound n out,
      read_digits-digits f bound (n / 10) ((48 + n % 10) ∷ out),
    )

digits_are_decimal :
    (f n : ℕ) (out : Text)
    → all is_ascii_digit out ≡ true
    → all is_ascii_digit (digits f n out) ≡ true
unfolding digits is_ascii_digit
digits_are_decimal zero n out h = h
digits_are_decimal (suc f) n out h =
    ground (arith, digits_are_decimal f (n / 10) ((48 + n % 10) ∷ out))

pub display_nat_digits : (n : ℕ) → all is_ascii_digit (display_nat n) ≡ true
unfolding display_nat
display_nat_digits n = digits_are_decimal (suc n) n [] refl

-- A text that begins with a digit other than `0`, or is `0`.
abbrev pub is_canonical : Text → Bool
is_canonical [] = false
is_canonical (c ∷ []) = is_ascii_digit c
is_canonical (c ∷ d ∷ s) = is_ascii_digit c && not (nat_beq c b'0')

digits_canonical : (f n : ℕ) (out : Text) → n < f → 0 < n → is_canonical (digits f n out) ≡ true
unfolding digits is_ascii_digit
digits_canonical zero n out h k = absurd (omega arith)
digits_canonical (suc f) n [] h k = ground (arith, digits_canonical f (n / 10) ((48 + n % 10) ∷ []))
digits_canonical (suc f) n (o ∷ out) h k =
    ground (arith, digits_canonical f (n / 10) ((48 + n % 10) ∷ o ∷ out))

pub display_nat_canonical : (n : ℕ) → is_canonical (display_nat n) ≡ true
unfolding display_nat digits is_ascii_digit
display_nat_canonical zero = refl
display_nat_canonical (suc n) =
    digits_canonical (suc (suc n)) (suc n) [] (omega arith) (omega arith)

parse_uint-read_digits :
    (bound : ℕ) (s : Text) → is_canonical s ≡ true → parse_uint bound s ≡ read_digits bound s 0
unfolding parse_uint is_ascii_digit
parse_uint-read_digits bound [] h = cc
parse_uint-read_digits bound (c ∷ []) h = refl
parse_uint-read_digits bound (c ∷ d ∷ s) h = ground arith

-- Reading back what was printed.
pub parse_uint-display_nat : (bound n : ℕ) → n < bound → parse_uint bound (display_nat n) ≡ some n
unfolding display_nat read_digits
parse_uint-display_nat bound n h =
    parse_uint-read_digits bound (display_nat n) (display_nat_canonical n)
    ∙ read_digits-digits (suc n) bound n [] (omega arith) h

pub display_nat_injective : (m n : ℕ) → display_nat m ≡ display_nat n → m ≡ n
display_nat_injective m n h = some_injective m n (
    sym (parse_uint-display_nat (m + n + 1) m (omega arith))
    ∙ (ap (parse_uint (m + n + 1)) h ∙ parse_uint-display_nat (m + n + 1) n (omega arith)))

digits_fuel : (f g n : ℕ) (out : Text) → n < f → n < g → digits f n out ≡ digits g n out
unfolding digits
digits_fuel zero g n out h k = absurd (omega arith)
digits_fuel (suc f) zero n out h k = absurd (omega arith)
digits_fuel (suc f) (suc g) n out h k =
    ground (arith, digits_fuel f g (n / 10) ((48 + n % 10) ∷ out))

digits_push :
    (m d : ℕ) (out : Text)
    → 0 < m
    → d < 10
    → digits (suc (m * 10 + d)) (m * 10 + d) out ≡ digits (suc m) m ((48 + d) ∷ out)
unfolding digits
digits_push m d out h k = ground (arith, digits_fuel (m * 10 + d) (suc m) m ((48 + d) ∷ out))

digits-read_digits :
    (bound : ℕ) (s : Text) (m n : ℕ)
    → 0 < m
    → read_digits bound s m ≡ some n
    → display_nat n ≡ digits (suc m) m s
unfolding read_digits is_ascii_digit display_nat
digits-read_digits bound [] m n k h =
    ap (λ (t : ℕ). digits (suc t) t []) (sym (some_injective m n h))
digits-read_digits bound (c ∷ s) m n k h =
    ground (arith, digits-read_digits bound s (m * 10 + (c - 48)) n, digits_push m (c - 48) s)

-- One number, one canonical spelling.
pub display_nat-parse_uint :
    (bound : ℕ) (s : Text) (n : ℕ)
    → is_canonical s ≡ true
    → parse_uint bound s ≡ some n
    → display_nat n ≡ s
unfolding read_digits is_ascii_digit display_nat digits
display_nat-parse_uint bound [] n c h = cc
display_nat-parse_uint bound (c ∷ []) n k h = ground (arith, parse_uint-read_digits bound (c ∷ []))
display_nat-parse_uint bound (c ∷ d ∷ s) n k h =
    ground
      (arith, parse_uint-read_digits bound (c ∷ d ∷ s), digits-read_digits bound (d ∷ s) (c - 48) n)

read_digits_bound :
    (bound : ℕ) (s : Text) (m n : ℕ) → m < bound → read_digits bound s m ≡ some n → n < bound
unfolding read_digits
read_digits_bound bound [] m n k h = omega (arith, some_injective m n h)
read_digits_bound bound (c ∷ s) m n k h =
    ground (arith, read_digits_bound bound s (m * 10 + (c - 48)) n)

pub parse_uint_bound :
    (bound : ℕ) (s : Text) (n : ℕ) → 0 < bound → parse_uint bound s ≡ some n → n < bound
unfolding parse_uint
parse_uint_bound bound [] n k h = cc
parse_uint_bound bound (c ∷ []) n k h = read_digits_bound bound (c ∷ []) 0 n k h
parse_uint_bound bound (c ∷ d ∷ s) n k h =
    read_digits_bound bound (if nat_beq c b'+' then d ∷ s else c ∷ d ∷ s) 0 n k h

abbrev pub leads_zero : Text → Bool
leads_zero [] = false
leads_zero (c ∷ s) = nat_beq c b'0'

digits_lead : (f n : ℕ) (out : Text) → n < f → 0 < n → leads_zero (digits f n out) ≡ false
unfolding digits
digits_lead zero n out h k = absurd (omega arith)
digits_lead (suc f) n out h k = ground (arith, digits_lead f (n / 10) ((48 + n % 10) ∷ out))

-- A positive number is printed without a leading zero.
pub display_nat_lead : (n : ℕ) → 0 < n → leads_zero (display_nat n) ≡ false
unfolding display_nat
display_nat_lead n h = digits_lead (suc n) n [] (omega arith) h
