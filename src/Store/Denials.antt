-- ===== src/Store/Denials.antt =====
-- A chain holds at most `DENIAL_CAP` refusals.
use mandate_ledger.Prelude.{
  ℕ, ◌+◌, ◌≤◌, ◌<◌, ◌≡◌, true, List, [], ◌∷◌, ◌++◌, arith, inl, inr, ok, keep, any, length,
  if◌then◌else◌, keep-append, length-append, Bool-cases, ◌==◌, list_eq, nat_eq, ap, ◌∙◌, ==_eq,
}
use mandate_ledger.Hash.{Sha256, CanonicalJson}
use mandate_ledger.Time.{Timestamp}
use mandate_ledger.Ids.{ContextId, MandateId}
use mandate_ledger.Money.{DecimalOps}
use mandate_ledger.Event.{Event, EventBody, Preimage, denied_event}
use mandate_ledger.Store.Interface.{denial_cap}
use mandate_ledger.Store.Inner.{Inner, Effects, proceed, is_denied, denial_count, events_of}
use mandate_ledger.Store.Validate.{check_body}
use mandate_ledger.Store.Commit.{append}
use mandate_ledger.Store.Memory.{empty_store, prune, revoke_id}
use mandate_ledger.Store.Chain.{IsIndexed, chain_of, events_of-eq-chain}
use mandate_ledger.Store.Append.{append-cases, Committed}
use mandate_ledger.Store.Log.{body-made}
use mandate_ledger.Store.Audit.{
  HasRoom, IsAuditable, IsAuditable-empty, IsAuditable-append, IsAuditable-revoke,
  IsAuditable-prune, chain_of-append,
}
use mandate_ledger.Store.Reach.{Reach, Reach-induction}
use mandate_ledger.Store.Prune.{is_forgotten, chain_of-prune}

module _ {Decimal : Type 0} where
  abbrev pub denials : List (Event Decimal) → ℕ
  denials es = length (keep (λ e. is_denied e.body) es)

  abbrev pub IsCapped : Inner Decimal → Type 0
  IsCapped g = (d : ContextId) → denials (chain_of d g.events) ≤ denial_cap

  pub denials-snoc :
      (es : List (Event Decimal)) (e : Event Decimal)
      → denials (es ++ e ∷ []) ≡ denials es + (if is_denied e.body then 1 else 0)
  denials-snoc es e = rw keep-append (
      length-append (keep (λ x. is_denied x.body) es) (keep (λ x. is_denied x.body) (e ∷ []))
      ∙ ground arith)

module _ {Decimal : Type 0} ⦃ops : DecimalOps Decimal⦄ ⦃sha : Sha256⦄
    ⦃json : CanonicalJson (Preimage Decimal)⦄ where
  below_cap :
      (g : Inner Decimal) (ctx : ContextId) (at : Timestamp) (body : EventBody Decimal)
      (fx : Effects Decimal)
      → check_body g ctx at body ≡ ok (proceed fx)
      → is_denied body ≡ true
      → denial_count g ctx < denial_cap
  unfolding check_body
  below_cap g ctx at (denied_event s r d) fx h k = ground arith
  below_cap g ctx at body fx h k = cc

  IsCapped-committed :
      {ctx : ContextId} {at : Timestamp} {body : EventBody Decimal} {g : Inner Decimal}
      (c : Committed ctx at body g)
      → IsIndexed g
      → IsCapped g
      → IsCapped (append ctx at body g).1
  unfolding denial_count
  IsCapped-committed {ctx = ctx} {at = at} {body = body} {g = g} c ix h d =
      rw (chain_of-append c d) (elim (Bool-cases (ctx == d)) [
        | inr other ↦ rw other (h d)
        | inl same ↦ rw same (
            rw (denials-snoc (chain_of d g.events) c.event)
              (elim (Bool-cases (is_denied c.event.body)) [
                | inr quiet ↦ rw quiet (omega (arith, h d))
                | inl refused ↦ rw refused (
                    let room : denials (events_of g ctx) < denial_cap =
                      below_cap g ctx at body c.fx c.checked (rw (body-made c) at refused) in
                    let here : denials (events_of g ctx) ≡ denials (chain_of d g.events) =
                      ap denials (
                        events_of-eq-chain g ctx ix
                        ∙ ap (λ (k : ContextId). chain_of k g.events) (==_eq ctx d same)) in
                    omega arith)
              ]))
      ])

  abbrev pub IsBounded : Inner Decimal → Type 0
  IsBounded g = IsAuditable g × IsCapped g

  IsBounded-append :
      (ctx : ContextId) (at : Timestamp) (body : EventBody Decimal) (g : Inner Decimal)
      → HasRoom g
      → IsBounded g
      → IsBounded (append ctx at body g).1
  IsBounded-append ctx at body g room h = elim (append-cases ctx at body g) [
    | inl alone ↦ rw alone.1 h
    | inr c ↦ (IsAuditable-append ctx at body g room h.0, IsCapped-committed c h.0.indexed h.1)
  ]

  IsCapped-prune : (before : Timestamp) (g : Inner Decimal) → IsCapped g → IsCapped (prune g before)
  IsCapped-prune before g h d = rw chain_of-prune (elim (Bool-cases (is_forgotten g before d)) [
    | inl gone ↦ rw gone (omega arith)
    | inr stays ↦ rw stays (h d)
  ])

  IsCapped-revoke : (m : MandateId) (g : Inner Decimal) → IsCapped g → IsCapped (revoke_id g m)
  unfolding revoke_id
  IsCapped-revoke m g h = elim (Bool-cases (any (λ k. k == m) g.revoked_ids)) [
    | inl known ↦ rw known h
    | inr new ↦ rw new h
  ]

  -- In any store that can be reached, whatever the order of the calls, the chain of every context
  -- holds at most `denial_cap` refusals.
  pub Reach-IsCapped : {g : Inner Decimal} → Reach empty_store g → IsCapped g
  Reach-IsCapped t =
      (Reach-induction IsBounded IsBounded-append
        (λ m g h. (IsAuditable-revoke m g h.0, IsCapped-revoke m g h.1))
        (λ before g h. (IsAuditable-prune before g h.0, IsCapped-prune before g h.1)) t
        (IsAuditable-empty, λ d. omega arith)).1
