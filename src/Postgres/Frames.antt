-- ===== src/Postgres/Frames.antt =====
-- What a query depends on, and what each stage of the two appends leaves alone.
use mandate_ledger.Prelude.{◌≡◌, refl, ◌∙◌, Option, none, some, ok, arith, list_eq, nat_eq, pair_eq}
use mandate_ledger.Prelude.Int.{ℤ}
use mandate_ledger.Text.{Text}
use mandate_ledger.Text.Codec.{HexDecode}
use mandate_ledger.Time.{Timestamp}
use mandate_ledger.Ids.{ContextId, MandateId}
use mandate_ledger.Money.{DecimalOps, Money}
use mandate_ledger.Event.{Event}
use mandate_ledger.Store.Inner.{Inner, Effects, window_count}
use mandate_ledger.Store.Commit.{
  apply_reserve, apply_release, apply_nonce, apply_new_record, apply_update, push_event,
  release_reservation,
}
use mandate_ledger.Store.Append.{committed}
use mandate_ledger.Postgres.Tables.{Tables, Sql}
use mandate_ledger.Postgres.Decide.{read_record, read_reserved, recent_count, denied_count}
use mandate_ledger.Postgres.Write.{previous_hash, write_reserve}
use mandate_ledger.Postgres.Stages.{Kept}

module _ {Decimal Json : Type 0} (a b : Tables Decimal Json) where
  pub read_record-contexts :
      ⦃dec : HexDecode⦄ (c : ContextId)
      → a.contexts ≡ b.contexts
      → read_record a c ≡ read_record b c
  unfolding read_record
  read_record-contexts c h = rw h refl

  pub read_reserved-reservations :
      (m : MandateId) → a.reservations ≡ b.reservations → read_reserved a m ≡ read_reserved b m
  unfolding read_reserved
  read_reserved-reservations m h = rw h refl

  pub recent_count-authorizations :
      (m : MandateId) (since : Timestamp)
      → a.authorizations ≡ b.authorizations
      → recent_count a m since ≡ recent_count b m since
  unfolding recent_count
  recent_count-authorizations m since h = rw h refl

  pub denied_count-events :
      ⦃sql : Sql Decimal Json⦄ (c : ContextId)
      → a.events ≡ b.events
      → denied_count a c ≡ denied_count b c
  unfolding denied_count
  denied_count-events c h = rw h refl

  pub previous_hash-events :
      ⦃dec : HexDecode⦄ (c : ContextId)
      → a.events ≡ b.events
      → previous_hash a c ≡ previous_hash b c
  unfolding previous_hash
  previous_hash-events c h = rw h refl

module _ {Decimal : Type 0} where
  pub window_count-auth_times :
      (a b : Inner Decimal) (m : MandateId) (since : Timestamp)
      → a.auth_times ≡ b.auth_times
      → window_count a m since ≡ window_count b m since
  unfolding window_count
  window_count-auth_times a b m since h = rw h refl

  -- What a reservation and a release leave alone in memory.
  pub reserve-frame :
      (g : Inner Decimal) (at : Timestamp) (window : Option ℤ)
      (reserve : Option (MandateId × Money Decimal))
      → ((apply_reserve g at window reserve).records ≡ g.records)
        × ((apply_reserve g at window reserve).nonces ≡ g.nonces)
  unfolding apply_reserve
  reserve-frame g at window none = (refl, refl)
  reserve-frame g at window (some r) = (refl, refl)

  pub release-frame :
      ⦃ops : DecimalOps Decimal⦄ (g g' : Inner Decimal)
      (release : Option (MandateId × Money Decimal))
      → apply_release g release ≡ ok g'
      → (g'.records ≡ g.records) × (g'.auth_times ≡ g.auth_times) × (g'.nonces ≡ g.nonces)
  unfolding apply_release release_reservation
  release-frame g g' release h = ground arith

  pub nonce-frame :
      (a b : Inner Decimal) (ctx : ContextId) (nonce : Option (Text × Text))
      → a.nonces ≡ b.nonces
      → (apply_nonce a ctx nonce).nonces ≡ (apply_nonce b ctx nonce).nonces
  unfolding apply_nonce
  nonce-frame a b ctx none h = h
  nonce-frame a b ctx (some k) h = rw h refl

  pub nonce-records :
      (g : Inner Decimal) (ctx : ContextId) (nonce : Option (Text × Text))
      → (apply_nonce g ctx nonce).records ≡ g.records
  unfolding apply_nonce
  nonce-records g ctx none = refl
  nonce-records g ctx (some k) = refl

  -- What the end of phase 2 leaves alone in memory.
  pub record Untouched (r : Inner Decimal) (ctx : ContextId) (fx : Effects Decimal)
      (e : Event Decimal) : Type 0 where
    pub reserved : (committed r ctx fx e).reserved ≡ r.reserved
    pub auth_times : (committed r ctx fx e).auth_times ≡ r.auth_times
    pub nonces : (committed r ctx fx e).nonces ≡ (apply_nonce r ctx fx.consume_nonce).nonces

  pub committed-Untouched :
      (r : Inner Decimal) (ctx : ContextId) (fx : Effects Decimal) (e : Event Decimal)
      → Untouched r ctx fx e
  unfolding apply_nonce apply_new_record apply_update push_event
  committed-Untouched r ctx fx e = ground arith

module _ {Decimal Json : Type 0} where
  -- What a reservation leaves alone in the tables.
  pub record ReservedOnly (a b : Tables Decimal Json) : Type 0 where
    pub event_seq : a.event_seq ≡ b.event_seq
    pub events : a.events ≡ b.events
    pub contexts : a.contexts ≡ b.contexts
    pub nonces : a.nonces ≡ b.nonces
    pub revocations : a.revocations ≡ b.revocations

  pub write_reserve-ReservedOnly :
      (t : Tables Decimal Json) (ctx : ContextId) (at : Timestamp)
      (reserve : Option (MandateId × Money Decimal))
      → ReservedOnly (write_reserve t ctx at reserve) t
  unfolding write_reserve
  write_reserve-ReservedOnly t ctx at reserve = ground arith

  pub Kept-trans : {a b c : Tables Decimal Json} → Kept a b → Kept b c → Kept a c
  Kept-trans h k = record {
    event_seq = h.event_seq ∙ k.event_seq;
    events = h.events ∙ k.events;
    authorizations = h.authorizations ∙ k.authorizations;
    nonces = h.nonces ∙ k.nonces;
    revocations = h.revocations ∙ k.revocations;
  }
