-- ===== src/Store/Audit.antt =====
-- Every chain that the in-memory store holds verifies: the invariant of the log, kept by every method.
use native.Mathlib.Nat.{mod-eq_of_lt}
use mandate_ledger.Prelude.{
  ◌+◌, ◌^◌, ◌≤◌, ◌<◌, ◌≡◌, refl, Bool, not, List, [], ◌∷◌, ◌++◌, arith, append-nil, inl, inr, ok,
  keep, map, keep-append, any, is_empty, if◌then◌else◌, Bool-cases, ◌==◌, ==_eq, list_eq, nat_eq,
  sym, ◌∙◌, ap,
}
use mandate_ledger.Hash.{Sha256, CanonicalJson, zero_hash}
use mandate_ledger.Time.{Timestamp}
use mandate_ledger.Prelude.Map.{get}
use mandate_ledger.Ids.{ContextId, MandateId}
use mandate_ledger.Money.{DecimalOps}
use mandate_ledger.Event.{Event, EventBody, Preimage}
use mandate_ledger.Evidence.{verify_events}
use mandate_ledger.Evidence.Extend.{
  Ascending, Ascending-snoc, Ascending-keep, end_seq, end_seq-snoc, end_hash, end_hash-last,
  verify_events-snoc,
}
use mandate_ledger.Store.Inner.{Inner}
use mandate_ledger.Store.Commit.{append, last_hash}
use mandate_ledger.Store.Memory.{empty_store, is_gone, prune, revoke_id, rebuild_index}
use mandate_ledger.Store.Chain.{IsIndexed, chain_of, events_of-eq-chain, rebuild_index-positions}
use mandate_ledger.Store.Append.{append-cases, Committed}
use mandate_ledger.Store.Log.{
  ctx-made, seq-made, prev_hash-made, verify_hash-made, events-append, last_seq-append,
  IsIndexed-append,
}

-- A sequence number is left for one more event.
abbrev pub HasRoom : {Decimal : Type 0} → Inner Decimal → Type 0
HasRoom g = g.last_seq + 1 < 2 ^ 64

module _ {Decimal : Type 0} where
  pub chain_of-snoc :
      (d : ContextId) (es : List (Event Decimal)) (e : Event Decimal)
      → chain_of d (es ++ e ∷ []) ≡ (if e.ctx == d then chain_of d es ++ e ∷ [] else chain_of d es)
  chain_of-snoc d es e =
      keep-append (λ x. x.ctx == d) es (e ∷ [])
      ∙ elim (Bool-cases (e.ctx == d)) [ inl same ↦ rw same | inr other ↦ rw other (append-nil _) ]

  -- What is kept by context is a whole chain, or nothing of it.
  pub chain_of-keep :
      (q : ContextId → Bool) (d : ContextId) (es : List (Event Decimal))
      → chain_of d (keep (λ e. q e.ctx) es) ≡ (if q d then chain_of d es else [])
  chain_of-keep q d [] = ground arith
  chain_of-keep q d (e ∷ es) = elim (Bool-cases (e.ctx == d)) [
    | inl same ↦ ground (arith, ap q (==_eq e.ctx d same), chain_of-keep q d es)
    | inr other ↦ ground (arith, chain_of-keep q d es)
  ]

module _ {Decimal : Type 0} ⦃sha : Sha256⦄ ⦃json : CanonicalJson (Preimage Decimal)⦄ where
  pub record IsAuditable (g : Inner Decimal) : Type 0 where
    pub indexed : IsIndexed g
    pub ascending : Ascending 0 g.events
    pub counted : end_seq 0 g.events ≤ g.last_seq
    pub verified : (d : ContextId) → verify_events d zero_hash 0 (chain_of d g.events) ≡ ok tt

  pub IsAuditable-empty : IsAuditable (empty_store {Decimal = Decimal})
  unfolding verify_events
  IsAuditable-empty = record {
    indexed = λ c. unfold get in refl;
    ascending = tt;
    counted = omega arith;
    verified = λ d. refl;
  }

  -- A chain is as far as its log, at most.
  end_seq-chain :
      (g : Inner Decimal) (d : ContextId)
      → IsAuditable g
      → end_seq 0 (chain_of d g.events) ≤ g.last_seq
  end_seq-chain g d h = omega (
    arith,
    (Ascending-keep (λ e. e.ctx == d) 0 0 g.events (omega arith) h.ascending).1,
    h.counted,
  )

  module _ ⦃ops : DecimalOps Decimal⦄ {ctx : ContextId} {at : Timestamp} {body : EventBody Decimal}
      {g : Inner Decimal} (c : Committed ctx at body g) (room : HasRoom g) (h : IsAuditable g) where
    seq-next : c.event.seq ≡ g.last_seq + 1
    seq-next = seq-made c ∙ mod-eq_of_lt room

    prev_hash-end : c.event.prev_hash ≡ end_hash zero_hash (chain_of ctx g.events)
    unfolding last_hash
    prev_hash-end =
        prev_hash-made c
        ∙ (ap last_hash (events_of-eq-chain g ctx h.indexed)
            ∙ sym (end_hash-last zero_hash (chain_of ctx g.events)))

    verified-append :
        (d : ContextId)
        → verify_events d zero_hash 0 (chain_of d (g.events ++ c.event ∷ [])) ≡ ok tt
    verified-append d = rw chain_of-snoc (elim (Bool-cases (c.event.ctx == d)) [
      | inl same ↦ rw same (
          let here : d ≡ ctx = sym (==_eq c.event.ctx d same) ∙ ctx-made c in
          verify_events-snoc d zero_hash 0 (chain_of d g.events) c.event (h.verified d)
            (==_eq c.event.ctx d same) (omega (arith, seq-next, end_seq-chain g d h))
            (prev_hash-end
              ∙ ap (λ (k : ContextId). end_hash zero_hash (chain_of k g.events)) (sym here))
            (verify_hash-made c))
      | inr other ↦ rw other (h.verified d)
    ])

    IsAuditable-committed : IsAuditable (append ctx at body g).1
    IsAuditable-committed = record {
      indexed = IsIndexed-append c h.indexed;
      ascending =
          rw (events-append c)
            (Ascending-snoc 0 g.events c.event h.ascending (omega (arith, seq-next, h.counted)));
      counted = rw (events-append c, last_seq-append c, end_seq-snoc) (omega arith);
      verified = λ d. rw (events-append c) (verified-append d);
    }

  pub IsAuditable-append :
      ⦃ops : DecimalOps Decimal⦄ (ctx : ContextId) (at : Timestamp) (body : EventBody Decimal)
      (g : Inner Decimal)
      → HasRoom g
      → IsAuditable g
      → IsAuditable (append ctx at body g).1
  IsAuditable-append ctx at body g room h = elim (append-cases ctx at body g) [
    | inl alone ↦ rw alone.1 h
    | inr c ↦ IsAuditable-committed c room h
  ]

  pub IsAuditable-revoke :
      (m : MandateId) (g : Inner Decimal) → IsAuditable g → IsAuditable (revoke_id g m)
  unfolding revoke_id
  IsAuditable-revoke m g h = elim (Bool-cases (any (λ k. k == m) g.revoked_ids)) [
    | inl known ↦ rw known h
    | inr new ↦ rw new (record {
      indexed = h.indexed;
      ascending = h.ascending;
      counted = h.counted;
      verified = h.verified;
    })
  ]

  -- A log from which whole chains have been taken, with its index rebuilt.
  forget-IsAuditable :
      (q : ContextId → Bool) (g g' : Inner Decimal)
      → IsAuditable g
      → g'.events ≡ keep (λ e. q e.ctx) g.events
      → g'.by_ctx ≡ rebuild_index 0 [] g'.events
      → g'.last_seq ≡ g.last_seq
      → IsAuditable g'
  forget-IsAuditable q g g' h ev ix sq =
      let k = Ascending-keep (λ e. q e.ctx) 0 0 g.events (omega arith) h.ascending in
      record {
        indexed = λ c. rw ix (unfold get in rebuild_index-positions 0 [] g'.events c);
        ascending = rw ev k.0;
        counted = rw (ev, sq) (omega (arith, k.1, h.counted));
        verified = λ d.
            rw (ev, chain_of-keep q d g.events)
              (elim (Bool-cases (q d)) [
                | inl kept ↦ rw kept (h.verified d)
                | inr gone ↦ rw gone (unfold verify_events in refl)
              ]);
      }

  pub IsAuditable-prune :
      (before : Timestamp) (g : Inner Decimal) → IsAuditable g → IsAuditable (prune g before)
  unfolding prune
  IsAuditable-prune before g h =
      let gone = map (λ e. e.0) (keep (is_gone g before) g.by_ctx) in
      elim (Bool-cases (is_empty gone)) [
        | inl nothing ↦ rw nothing (record {
          indexed = h.indexed;
          ascending = h.ascending;
          counted = h.counted;
          verified = h.verified;
        })
        | inr some_gone ↦
            rw some_gone
              (forget-IsAuditable (λ d. not (any (λ c. c == d) gone)) g _ h refl refl refl)
      ]

module _ {Decimal : Type 0} ⦃ops : DecimalOps Decimal⦄ ⦃sha : Sha256⦄
    ⦃json : CanonicalJson (Preimage Decimal)⦄ {ctx : ContextId} {at : Timestamp}
    {body : EventBody Decimal} {g : Inner Decimal} (c : Committed ctx at body g) where
  -- An append lengthens the chain of its context and no other.
  pub chain_of-append :
      (d : ContextId)
      → chain_of d (append ctx at body g).1.events
        ≡ (if ctx == d then chain_of d g.events ++ c.event ∷ [] else chain_of d g.events)
  chain_of-append d =
      ap (chain_of d) (events-append c)
      ∙ (chain_of-snoc d g.events c.event
          ∙ ap
              (λ (k : ContextId).
                if k == d then chain_of d g.events ++ c.event ∷ [] else chain_of d g.events)
              (ctx-made c))
