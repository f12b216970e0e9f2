-- ===== src/Store/Prune.antt =====
-- What `prune` forgets: whole chains, and only of contexts that are over.
use mandate_ledger.Prelude.{
  ℕ, ◌≡◌, refl, Bool, true, false, not, List, [], ◌∷◌, arith, inl, inr, keep, map, any, is_empty,
  if◌then◌else◌, Bool-cases, ◌==◌, ==_eq, &&-true, subst, list_eq, nat_eq,
}
use mandate_ledger.Time.{Timestamp}
use mandate_ledger.Ids.{ContextId}
use mandate_ledger.Store.Inner.{Inner}
use mandate_ledger.Store.Memory.{prune, is_gone, is_finished}
use mandate_ledger.Store.Chain.{chain_of}
use mandate_ledger.Store.Audit.{chain_of-keep}

none_forgotten :
    (cs : List ContextId) (d : ContextId) → is_empty cs ≡ true → any (λ c. c == d) cs ≡ false
none_forgotten [] d h = refl
none_forgotten (c ∷ cs) d h = cc

module _ {Decimal : Type 0} where
  abbrev pub gone_ids : Inner Decimal → Timestamp → List ContextId
  gone_ids g before = map (λ e. e.0) (keep (is_gone g before) g.by_ctx)

  abbrev pub is_forgotten : Inner Decimal → Timestamp → ContextId → Bool
  is_forgotten g before d = any (λ c. c == d) (gone_ids g before)

  -- A chain is forgotten whole or kept whole.
  pub chain_of-prune :
      (g : Inner Decimal) (before : Timestamp) (d : ContextId)
      → chain_of d (prune g before).events
        ≡ (if is_forgotten g before d then [] else chain_of d g.events)
  unfolding prune
  chain_of-prune g before d = elim (Bool-cases (is_empty (gone_ids g before))) [
    | inl nothing ↦ rw nothing (rw (none_forgotten (gone_ids g before) d nothing))
    | inr something ↦
        rw something
          (rw (chain_of-keep (λ k. not (is_forgotten g before k)) d g.events) (ground arith))
  ]

  pub records-prune :
      (g : Inner Decimal) (before : Timestamp) → (prune g before).records ≡ g.records
  unfolding prune
  records-prune g before = ground arith

  pub nonces-prune : (g : Inner Decimal) (before : Timestamp) → (prune g before).nonces ≡ g.nonces
  unfolding prune
  nonces-prune g before = ground arith

  pub reserved-prune :
      (g : Inner Decimal) (before : Timestamp) → (prune g before).reserved ≡ g.reserved
  unfolding prune
  reserved-prune g before = ground arith

  pub revoked_ids-prune :
      (g : Inner Decimal) (before : Timestamp) → (prune g before).revoked_ids ≡ g.revoked_ids
  unfolding prune
  revoked_ids-prune g before = ground arith

  is_gone-finished :
      (g : Inner Decimal) (before : Timestamp) (c : ContextId) (idx : List ℕ)
      → is_gone g before (c, idx) ≡ true
      → is_finished g c ≡ true
  unfolding is_gone
  is_gone-finished g before c idx h = (&&-true _ _ h).0

  gone_finished :
      (g : Inner Decimal) (before : Timestamp) (d : ContextId) (entries : List (ContextId × List ℕ))
      → any (λ c. c == d) (map (λ e. e.0) (keep (is_gone g before) entries)) ≡ true
      → is_finished g d ≡ true
  gone_finished g before d [] h = cc
  gone_finished g before d ((c, idx) ∷ entries) h = elim (Bool-cases (is_gone g before (c, idx))) [
    | inr stays ↦ gone_finished g before d entries (rw stays at h)
    | inl goes ↦ elim (Bool-cases (c == d)) [
      | inl same ↦
          subst (λ k. is_finished g k ≡ true) (==_eq c d same)
            (is_gone-finished g before c idx goes)
      | inr other ↦ gone_finished g before d entries (rw other at (rw goes at h))
    ]
  ]

  -- What is forgotten is over.
  pub forgotten_finished :
      (g : Inner Decimal) (before : Timestamp) (d : ContextId)
      → is_forgotten g before d ≡ true
      → is_finished g d ≡ true
  forgotten_finished g before d h = gone_finished g before d g.by_ctx h
