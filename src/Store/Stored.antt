-- ===== src/Store/Stored.antt =====
-- The mandate that the in-memory store finds for a context is the one in its `Authorized` event.
use mandate_ledger.Prelude.{
  ℕ, ◌≡◌, refl, List, [], ◌∷◌, ◌++◌, arith, Option, none, some, ◌⊎◌, inl, inr, find_map, filter_map,
  get_elem?, ==_refl, list_eq, nat_eq, ap, sym, ◌∙◌,
}
use mandate_ledger.Prelude.Map.{get}
use mandate_ledger.Text.{Text}
use mandate_ledger.Hash.{Sha256, CanonicalJson}
use mandate_ledger.Time.{Timestamp}
use mandate_ledger.Ids.{ContextId}
use mandate_ledger.Money.{DecimalOps}
use mandate_ledger.Mandate.Body.{Mandate}
use mandate_ledger.Event.{Event, EventBody, Preimage, CartSnapshot, authorized_event}
use mandate_ledger.Evidence.{mandate_of, authorized_mandate}
use mandate_ledger.Store.Interface.{Record}
use mandate_ledger.Store.Inner.{Inner, index_of, events_of, authorized_record}
use mandate_ledger.Store.Commit.{append, update_record}
use mandate_ledger.Store.Memory.{empty_store, stored_mandate}
use mandate_ledger.Store.Chain.{chain_of, events_of-eq-chain}
use mandate_ledger.Store.Append.{Committed}
use mandate_ledger.Store.Log.{body-made, IsIndexed-append}
use mandate_ledger.Store.Audit.{chain_of-append}
use mandate_ledger.Store.Reach.{Reach, Reach-IsAuditable}
use mandate_ledger.Store.Projection.{project, step_record}
use mandate_ledger.Store.History.{Tracks}
use mandate_ledger.Store.Lifecycle.{Reach-IsTracked}

some-ne-none : {A : Type 0} {a : A} → some a ≡ none → ⊥
some-ne-none h = cc

find_map-snoc :
    {A B : Type 0} (f : A → Option B) (xs : List A) (y : A) (b : B)
    → find_map f xs ≡ none
    → f y ≡ some b
    → find_map f (xs ++ y ∷ []) ≡ some b
find_map-snoc f [] y b h k = ground arith
find_map-snoc f (x ∷ xs) y b h k = ground (arith, find_map-snoc f xs y b)

module _ {Decimal : Type 0} where
  find_map-index :
      (es : List (Event Decimal)) (idx : List ℕ)
      → find_map (λ i. elim (get_elem? es i) [ none ↦ none | some e ↦ mandate_of e.body ]) idx
        ≡ find_map (λ e. mandate_of e.body) (filter_map (get_elem? es) idx)
  find_map-index es [] = refl
  find_map-index es (i ∷ idx) = ground (arith, find_map-index es idx)

  stored_mandate-events :
      (g : Inner Decimal) (ctx : ContextId)
      → stored_mandate g ctx ≡ authorized_mandate (events_of g ctx)
  unfolding stored_mandate authorized_mandate events_of
  stored_mandate-events g ctx = find_map-index g.events (index_of g ctx)

  kept_record :
      (d : ContextId) (r : Record Decimal) (body : EventBody Decimal)
      → (s : Record Decimal) × (step_record d (some r) body ≡ some s)
  kept_record d r (authorized_event m c k) = (authorized_record d m.body.id c, refl)
  kept_record d r body = (update_record body r, refl)

  never_forgets :
      (d : ContextId) (r : Record Decimal) (es : List (Event Decimal))
      → project d (some r) es ≡ none
      → ⊥
  never_forgets d r [] h = cc
  never_forgets d r (e ∷ es) h =
      let next = kept_record d r e.body in never_forgets d next.0 es (rw next.1 at h)

  first_step :
      (d : ContextId) (body : EventBody Decimal)
      → ((mandate_of body ≡ none) × (step_record d none body ≡ none))
        ⊎ ((r : Record Decimal) × (step_record d none body ≡ some r))
  first_step d (authorized_event m c k) = inr (authorized_record d m.body.id c, refl)
  first_step d body = inl (refl, refl)

  skip_event :
      (e : Event Decimal) (es : List (Event Decimal))
      → mandate_of e.body ≡ none
      → authorized_mandate es ≡ none
      → authorized_mandate (e ∷ es) ≡ none
  unfolding authorized_mandate
  skip_event e es h k = ground arith

  no_mandate :
      (d : ContextId) (es : List (Event Decimal))
      → project d none es ≡ none
      → authorized_mandate es ≡ none
  unfolding authorized_mandate
  no_mandate d [] h = refl
  no_mandate d (e ∷ es) h = elim (first_step d e.body) [
    | inl still ↦ skip_event e es still.0 (no_mandate d es (rw still.1 at h))
    | inr (r, begun) ↦ absurd (never_forgets d r es (rw begun at h))
  ]

  chain_without_mandate :
      (d : ContextId) (rec : Option (Record Decimal)) (es : List (Event Decimal))
      → rec ≡ none
      → Tracks d rec es
      → authorized_mandate es ≡ none
  chain_without_mandate d rec es missing (inl (folded, at, path)) =
      no_mandate d es (sym folded ∙ missing)
  chain_without_mandate d rec es missing (inr (r, found, over, silent)) =
      absurd (some-ne-none (sym found ∙ missing))

module _ {Decimal : Type 0} ⦃ops : DecimalOps Decimal⦄ ⦃sha : Sha256⦄
    ⦃json : CanonicalJson (Preimage Decimal)⦄ where
  authorized_last :
      (es : List (Event Decimal)) (e : Event Decimal) (mandate : Mandate Decimal)
      (cart : CartSnapshot Decimal) (key : Text)
      → authorized_mandate es ≡ none
      → e.body ≡ authorized_event mandate cart key
      → authorized_mandate (es ++ e ∷ []) ≡ some mandate
  unfolding authorized_mandate
  authorized_last es e mandate cart key h k =
      find_map-snoc (λ x. mandate_of x.body) es e mandate h (ap mandate_of k)

  -- After an append has authorized a context, the store finds the mandate that it did so under.
  pub stored_mandate-append :
      {ctx : ContextId} {at : Timestamp} {g : Inner Decimal} {mandate : Mandate Decimal}
      {cart : CartSnapshot Decimal} {key : Text}
      (c : Committed ctx at (authorized_event mandate cart key) g)
      → Reach empty_store g
      → get g.records ctx ≡ none
      → stored_mandate (append ctx at (authorized_event mandate cart key) g).1 ctx ≡ some mandate
  stored_mandate-append {ctx = ctx} {at = at} {g = g} {mandate = mandate} {cart = cart} {key = key}
        c t missing =
      let h = (append ctx at (authorized_event mandate cart key) g).1 in
      let before =
        chain_without_mandate ctx (get g.records ctx) (chain_of ctx g.events) missing
          (Reach-IsTracked t ctx) in
      stored_mandate-events h ctx
      ∙ (ap (λ (es : List (Event Decimal)). authorized_mandate es)
            (events_of-eq-chain h ctx (IsIndexed-append c (Reach-IsAuditable t).indexed)
              ∙ (chain_of-append c ctx ∙ rw (==_refl ctx) refl))
          ∙ authorized_last (chain_of ctx g.events) c.event mandate cart key before (body-made c))
