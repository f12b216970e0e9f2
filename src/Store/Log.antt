-- ===== src/Store/Log.antt =====
-- What an append does to the log: it pushes one event, built on the chain of its context.
use mandate_ledger.Prelude.{
  ◌+◌, ◌%◌, ◌^◌, ◌≡◌, refl, true, Option, List, [], ◌∷◌, ◌++◌, arith, inl, inr, ok, Bool-cases,
  length, ◌==◌, ==_eq, append-nil, ap, ==_refl, list_eq, nat_eq, sym, ◌∙◌,
}
use native.Mathlib.Nat.{zero-add}
use mandate_ledger.Prelude.Map.{insert, get-insert}
use mandate_ledger.Hash.{Sha256, CanonicalJson}
use mandate_ledger.Time.{Timestamp}
use mandate_ledger.Ids.{ContextId, MandateId}
use mandate_ledger.Money.{DecimalOps, Money}
use mandate_ledger.Event.{Event, EventBody, Preimage, new_event, verify_hash, compute_hash}
use mandate_ledger.Store.Inner.{Inner, Effects, index_of, events_of}
use mandate_ledger.Store.Commit.{
  apply_reserve, apply_release, apply_nonce, apply_new_record, apply_update, push_event, next_event,
  last_hash, append, release_reservation,
}
use mandate_ledger.Store.Append.{Committed}
use mandate_ledger.Store.Chain.{IsIndexed, positions-append}

-- The two states hold the same log.
pub record SameLog {Decimal : Type 0} (a b : Inner Decimal) : Type 0 where
  pub events : a.events ≡ b.events
  pub by_ctx : a.by_ctx ≡ b.by_ctx
  pub last_seq : a.last_seq ≡ b.last_seq
  pub revoked_ids : a.revoked_ids ≡ b.revoked_ids

module _ {Decimal : Type 0} where
  SameLog-reserve :
      (g : Inner Decimal) (at : Timestamp) (fx : Effects Decimal)
      → SameLog (apply_reserve g at fx.window fx.reserve) g
  unfolding apply_reserve
  SameLog-reserve g at fx = ground arith

  SameLog-committed :
      (g : Inner Decimal) (ctx : ContextId) (fx : Effects Decimal) (e : Event Decimal)
      → SameLog
          (apply_update
            (apply_new_record (apply_nonce g ctx fx.consume_nonce) ctx fx.new_record)
            ctx
            e.body)
          g
  unfolding apply_nonce apply_new_record apply_update
  SameLog-committed g ctx fx e = ground arith

module _ {Decimal : Type 0} ⦃ops : DecimalOps Decimal⦄ where
  SameLog-release :
      (g : Inner Decimal) (r : Option (MandateId × Money Decimal)) (g' : Inner Decimal)
      → apply_release g r ≡ ok g'
      → SameLog g' g
  unfolding apply_release release_reservation
  SameLog-release g r g' h = ground arith

module _ {Decimal : Type 0} ⦃ops : DecimalOps Decimal⦄ ⦃sha : Sha256⦄
    ⦃json : CanonicalJson (Preimage Decimal)⦄ {ctx : ContextId} {at : Timestamp}
    {body : EventBody Decimal} {g : Inner Decimal} (c : Committed ctx at body g) where
  pub SameLog-released : SameLog c.released g
  SameLog-released =
      let a =
        SameLog-release (apply_reserve g at c.fx.window c.fx.reserve) c.fx.release c.released
          c.freed in
      let b = SameLog-reserve g at c.fx in
      record {
        events = a.events ∙ b.events;
        by_ctx = a.by_ctx ∙ b.by_ctx;
        last_seq = a.last_seq ∙ b.last_seq;
        revoked_ids = a.revoked_ids ∙ b.revoked_ids;
      }

  -- The event of the append.
  pub ctx-made : c.event.ctx ≡ ctx
  unfolding next_event new_event
  ctx-made = ground (arith, c.made)

  pub body-made : c.event.body ≡ body
  unfolding next_event new_event
  body-made = ground (arith, c.made)

  pub at-made : c.event.at ≡ at
  unfolding next_event new_event
  at-made = ground (arith, c.made)

  pub seq-made : c.event.seq ≡ (g.last_seq + 1) % 2 ^ 64
  unfolding next_event new_event
  seq-made = ground (arith, c.made)

  pub prev_hash-made : c.event.prev_hash ≡ last_hash (events_of g ctx)
  unfolding next_event new_event
  prev_hash-made = ground (arith, c.made)

  hash-made :
      compute_hash c.event.prev_hash c.event.seq c.event.ctx c.event.at c.event.body
      ≡ ok c.event.hash
  unfolding next_event new_event
  hash-made = ground (arith, c.made)

  pub verify_hash-made : verify_hash c.event ≡ ok true
  unfolding verify_hash
  verify_hash-made = rw hash-made (rw (==_refl c.event.hash))

  -- The log after the append.
  pub events-append : (append ctx at body g).1.events ≡ g.events ++ c.event ∷ []
  unfolding push_event
  events-append = rw c.result (
      ap (λ (l : List (Event Decimal)). l ++ c.event ∷ [])
        ((SameLog-committed c.released ctx c.fx c.event).events ∙ SameLog-released.events))

  pub last_seq-append : (append ctx at body g).1.last_seq ≡ c.event.seq
  unfolding push_event
  last_seq-append = rw c.result

  pub revoked_ids-append : (append ctx at body g).1.revoked_ids ≡ g.revoked_ids
  unfolding push_event
  revoked_ids-append =
      rw c.result
        ((SameLog-committed c.released ctx c.fx c.event).revoked_ids ∙ SameLog-released.revoked_ids)

  by_ctx-append :
      (append ctx at body g).1.by_ctx
      ≡ insert g.by_ctx c.event.ctx (index_of g c.event.ctx ++ length g.events ∷ [])
  unfolding push_event
  by_ctx-append =
      let a = SameLog-released in
      let b = SameLog-committed c.released ctx c.fx c.event in
      rw (c.result, b.by_ctx, b.events, a.by_ctx, a.events) refl

  -- The index stays an index of the log.
  pub IsIndexed-append : IsIndexed g → IsIndexed (append ctx at body g).1
  IsIndexed-append h d =
      rw (by_ctx-append, events-append, get-insert)
        (elim (Bool-cases (c.event.ctx == d)) [
          | inl same ↦
              rw (positions-append, same) (rw (==_eq c.event.ctx d same, h d) (rw zero-add))
          | inr other ↦ rw (positions-append, other) (h d ∙ sym (append-nil _))
        ])
