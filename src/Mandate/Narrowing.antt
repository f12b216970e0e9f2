-- ===== src/Mandate/Narrowing.antt =====
-- What narrower merchant patterns and categories let through, wider ones do too
-- (crates/ml-core/src/mandate.rs).
use mandate_ledger.Prelude.{
  ◌≤◌, ◌≡◌, refl, true, ◌&&◌, List, [], ◌∷◌, arith, Option, none, some, inl, inr, ok, any, all, ltb,
  Bool-cases, ◌==◌, ==_eq, list_eq, nat_eq, &&-true, list_beq, subst, sym,
}
use mandate_ledger.Text.{Text, len, ends_with}
use mandate_ledger.Ids.{Category}
use mandate_ledger.Money.{DecimalOps}
use mandate_ledger.Mandate.Pattern.{
  MerchantPattern, any_merchant, exact, suffix, pattern_matches, pattern_subset,
}
use mandate_ledger.Mandate.Scope.{admits_category, categories_within}

len-ends_with : (m s : Text) → ends_with m s ≡ true → len s ≤ len m
unfolding ends_with len
len-ends_with [] s h = rw (sym (==_eq [] s h)) (omega arith)
len-ends_with (c ∷ m) s h = elim (Bool-cases (list_beq (c ∷ m) s)) [
  | inl whole ↦ rw (sym (==_eq (c ∷ m) s whole)) (omega arith)
  | inr part ↦ omega (arith, len-ends_with m s (rw part at h))
]

ends_with_trans :
    (m a b : Text) → ends_with m a ≡ true → ends_with a b ≡ true → ends_with m b ≡ true
unfolding ends_with
ends_with_trans [] a b h k = subst (λ (t : Text). ends_with t b ≡ true) (sym (==_eq [] a h)) k
ends_with_trans (c ∷ m) a b h k = elim (Bool-cases (list_beq (c ∷ m) a)) [
  | inl whole ↦ subst (λ (t : Text). ends_with t b ≡ true) (sym (==_eq (c ∷ m) a whole)) k
  | inr part ↦
      let inside : ends_with m b ≡ true = ends_with_trans m a b (rw part at h) k in ground arith
]

-- A merchant that a narrower pattern matches is matched by the wider one.
pattern_subset_sound :
    (c p : MerchantPattern) (m : Text)
    → pattern_subset c p ≡ true
    → pattern_matches c m ≡ true
    → pattern_matches p m ≡ true
unfolding pattern_subset pattern_matches
pattern_subset_sound c any_merchant m h k = refl
pattern_subset_sound any_merchant (exact b) m h k = cc
pattern_subset_sound any_merchant (suffix b) m h k = cc
pattern_subset_sound (suffix a) (exact b) m h k = cc
pattern_subset_sound (exact a) (exact b) m h k = ground (arith, ==_eq a b h, ==_eq a m k)
pattern_subset_sound (exact a) (suffix s) m h k =
    subst (λ (t : Text). (ltb (len s) (len t) && ends_with t s) ≡ true) (==_eq a m k) h
pattern_subset_sound (suffix a) (suffix b) m h k =
    let inside : ends_with m b ≡ true =
      ends_with_trans m a b (&&-true (ltb (len a) (len m)) (ends_with m a) k).1 h in
    let shorter : len b ≤ len a = len-ends_with a b h in ground arith

pattern_subset-any :
    (c : MerchantPattern) (ps : List MerchantPattern) (m : Text)
    → any (pattern_subset c) ps ≡ true
    → pattern_matches c m ≡ true
    → any (λ p. pattern_matches p m) ps ≡ true
pattern_subset-any c [] m h k = cc
pattern_subset-any c (p ∷ ps) m h k = elim (Bool-cases (pattern_subset c p)) [
  | inl here ↦ rw (pattern_subset_sound c p m here k)
  | inr later ↦ let found = pattern_subset-any c ps m (rw later at h) k in ground arith
]

pub merchants_within :
    (cs ps : List MerchantPattern) (m : Text)
    → all (λ c. any (pattern_subset c) ps) cs ≡ true
    → any (λ c. pattern_matches c m) cs ≡ true
    → any (λ p. pattern_matches p m) ps ≡ true
merchants_within [] ps m h k = cc
merchants_within (c ∷ cs) ps m h k = elim (Bool-cases (pattern_matches c m)) [
  | inl here ↦ pattern_subset-any c ps m (&&-true _ _ h).0 here
  | inr later ↦ merchants_within cs ps m (&&-true _ _ h).1 (rw later at k)
]

category_found :
    (cs ps : List Category) (x : Category)
    → all (λ y. any (λ a. a == y) ps) cs ≡ true
    → any (λ a. a == x) cs ≡ true
    → any (λ a. a == x) ps ≡ true
category_found [] ps x h k = cc
category_found (c ∷ cs) ps x h k = elim (Bool-cases (c == x)) [
  | inl here ↦
      subst (λ (y : Category). any (λ a. a == y) ps ≡ true) (==_eq c x here) (&&-true _ _ h).0
  | inr later ↦ category_found cs ps x (&&-true _ _ h).1 (rw later at k)
]

module _ {Decimal : Type 0} ⦃ops : DecimalOps Decimal⦄ where
  pub category_within_sound :
      (cs ps : Option (List Category)) (x : Option Category)
      → categories_within cs ps ≡ true
      → admits_category {Decimal = Decimal} cs x ≡ ok tt
      → admits_category {Decimal = Decimal} ps x ≡ ok tt
  unfolding admits_category
  category_within_sound cs none x h k = refl
  category_within_sound none (some ps) x h k = cc
  category_within_sound (some cs) (some ps) none h k = cc
  category_within_sound (some cs) (some ps) (some x) h k =
      elim (Bool-cases (any (λ a. a == x) cs)) [
        | inl allowed ↦ rw (category_found cs ps x h allowed)
        | inr other ↦ absurd (ground arith)
      ]
