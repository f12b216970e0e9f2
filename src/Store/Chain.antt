-- ===== src/Store/Chain.antt =====
-- The chain of a context is the log filtered by its id: `by_ctx` is an index of it.
use mandate_ledger.Prelude.{
  ℕ, suc, ◌+◌, ◌≡◌, refl, ap, ◌∙◌, sym, some, List, [], ◌∷◌, ◌++◌, arith, if◌then◌else◌, length,
  keep, filter_map, filter_map-cons_some, get_elem?, append_assoc, append-nil, length-append, ◌==◌,
  list_eq, nat_eq, Bool-cases, inl, inr, ==_eq,
}
use mandate_ledger.Prelude.Map.{Map, get, insert, get_or, get-insert}
use mandate_ledger.Ids.{ContextId}
use mandate_ledger.Event.{Event}
use mandate_ledger.Store.Inner.{Inner, index_of, events_of}
use mandate_ledger.Store.Memory.{rebuild_index}

module _ {Decimal : Type 0} where
  abbrev pub chain_of : ContextId → List (Event Decimal) → List (Event Decimal)
  chain_of c events = keep (λ e. e.ctx == c) events

  -- The positions of a context's events, counted from `i`.
  abbrev pub positions : ℕ → ContextId → List (Event Decimal) → List ℕ
  positions i c [] = []
  positions i c (e ∷ es) =
      let rest = positions (suc i) c es in if e.ctx == c then i ∷ rest else rest

  -- The index lists exactly the positions of each context's events, in order.
  abbrev pub IsIndexed : Inner Decimal → Type 0
  IsIndexed g = (c : ContextId) → index_of g c ≡ positions 0 c g.events

  pub positions-append :
      (i : ℕ) (c : ContextId) (xs ys : List (Event Decimal))
      → positions i c (xs ++ ys) ≡ positions i c xs ++ positions (i + length xs) c ys
  positions-append i c [] ys = rw (let h : i + 0 ≡ i = omega arith in h) refl
  positions-append i c (x ∷ xs) ys =
      let h : i + suc (length xs) ≡ suc i + length xs = omega arith in
      rw h (ground (arith, positions-append (suc i) c xs ys))

  get_elem?-append :
      (xs : List (Event Decimal)) (y : Event Decimal) (ys : List (Event Decimal))
      → get_elem? (xs ++ y ∷ ys) (length xs) ≡ some y
  get_elem?-append [] y ys = refl
  get_elem?-append (x ∷ xs) y ys = get_elem?-append xs y ys

  length-snoc :
      (pre : List (Event Decimal)) (e : Event Decimal) → length (pre ++ e ∷ []) ≡ suc (length pre)
  length-snoc pre e = omega (arith, length-append pre (e ∷ []))

  -- Reading the positions of the second part of a list gives the context's events there.
  read-positions :
      (pre : List (Event Decimal)) (c : ContextId) (es : List (Event Decimal))
      → filter_map (get_elem? (pre ++ es)) (positions (length pre) c es) ≡ chain_of c es
  read-positions pre c [] = refl
  read-positions pre c (e ∷ es) =
      let ih : filter_map (get_elem? (pre ++ e ∷ es)) (positions (suc (length pre)) c es)
          ≡ chain_of c es =
        rw (append_assoc, length-snoc) at (read-positions (pre ++ e ∷ []) c es) in
      elim (Bool-cases (e.ctx == c)) [
        | inl same ↦ rw same (
            filter_map-cons_some (get_elem? (pre ++ e ∷ es)) (length pre) e _
              (get_elem?-append pre e es)
            ∙ ap (λ (t : List (Event Decimal)). e ∷ t) ih)
        | inr other ↦ rw other ih
      ]

  pub events_of-eq-chain :
      (g : Inner Decimal) (c : ContextId) → IsIndexed g → events_of g c ≡ chain_of c g.events
  unfolding events_of
  events_of-eq-chain g c h = rw (h c) (read-positions [] c g.events)

  -- The rebuilt index is an index.
  pub rebuild_index-positions :
      (i : ℕ) (m : Map ContextId (List ℕ)) (es : List (Event Decimal)) (c : ContextId)
      → get_or [] (get (rebuild_index i m es) c) ≡ get_or [] (get m c) ++ positions i c es
  unfolding rebuild_index
  rebuild_index-positions i m [] c = sym (append-nil _)
  rebuild_index-positions i m (e ∷ es) c =
      rebuild_index-positions (suc i) (insert m e.ctx (get_or [] (get m e.ctx) ++ i ∷ [])) es c
      ∙ rw get-insert (elim (Bool-cases (e.ctx == c)) [
        | inl same ↦ rw same (rw (==_eq e.ctx c same) (rw append_assoc))
        | inr other ↦ rw other
      ])
