-- ===== src/Ids/Plain.antt =====
-- Texts that the normal form of merchants leaves as they are: no upper-case letter, no space.
use mandate_ledger.Prelude.{
  ℕ, ◌≡◌, refl, Bool, true, false, not, ◌&&◌, [], ◌∷◌, ◌++◌, leb, all, map, arith,
}
use mandate_ledger.Text.{Text, lower, is_space, trim_start, trim_end}
use mandate_ledger.Ids.{lowercase_trimmed}

-- A printable ASCII character that is no upper-case letter.
unfoldable pub is_plain : ℕ → Bool
is_plain c = leb 33 c && leb c 126 && not (leb 65 c && leb c 90)

plain-lower : (c : ℕ) → is_plain c ≡ true → lower c ≡ c
unfolding is_plain lower
plain-lower c h = ground arith

plain-space : (c : ℕ) → is_plain c ≡ true → is_space c ≡ false
unfolding is_plain is_space
plain-space c h = ground arith

map-lower : (s : Text) → all is_plain s ≡ true → map lower s ≡ s
map-lower [] h = refl
map-lower (c ∷ s) h = ground (arith, plain-lower c, map-lower s)

trim_end-plain : (s : Text) → all is_plain s ≡ true → trim_end s ≡ s
unfolding trim_end
trim_end-plain [] h = refl
trim_end-plain (c ∷ []) h = ground (arith, plain-space c)
trim_end-plain (c ∷ d ∷ s) h = ground (arith, trim_end-plain (d ∷ s))

trim_start-plain : (s : Text) → all is_plain s ≡ true → trim_start s ≡ s
unfolding trim_start
trim_start-plain [] h = refl
trim_start-plain (c ∷ s) h = ground (arith, plain-space c)

pub lowercase_trimmed-plain : (s : Text) → all is_plain s ≡ true → lowercase_trimmed s ≡ s
unfolding lowercase_trimmed
lowercase_trimmed-plain s h = rw (map-lower s h) (rw (trim_end-plain s h) (trim_start-plain s h))

pub all-append :
    (p : ℕ → Bool) (s t : Text) → all p s ≡ true → all p t ≡ true → all p (s ++ t) ≡ true
all-append p [] t h k = k
all-append p (c ∷ s) t h k = ground (arith, all-append p s t)

pub all-weaken :
    (p q : ℕ → Bool) (s : Text)
    → ((c : ℕ) → p c ≡ true → q c ≡ true)
    → all p s ≡ true
    → all q s ≡ true
all-weaken p q [] w h = refl
all-weaken p q (c ∷ s) w h = ground (arith, w c, all-weaken p q s w)
