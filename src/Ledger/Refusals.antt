-- ===== src/Ledger/Refusals.antt =====
-- What a refusal of the engine writes: its event, where the cap lets it, and nothing else.
use mandate_ledger.Prelude.{
  ◌≡◌, refl, subst, [], ◌∷◌, ◌++◌, ◌⊎◌, inl, inr, ok, arith, list_eq, nat_eq,
}
use mandate_ledger.Prelude.Map.{get}
use mandate_ledger.Hash.{Sha256, CanonicalJson}
use mandate_ledger.Time.{Timestamp}
use mandate_ledger.Ids.{ContextId}
use mandate_ledger.Money.{DecimalOps}
use mandate_ledger.Reason.{Stage, DenyReason}
use mandate_ledger.Mandate.Errors.{Detail}
use mandate_ledger.Event.{Event, EventBody, Preimage, denied_event}
use mandate_ledger.Store.Inner.{Inner, Effects, proceed, no_effects}
use mandate_ledger.Store.Validate.{check_body}
use mandate_ledger.Store.Commit.{
  append, apply_reserve, apply_release, apply_nonce, apply_new_record, apply_update, push_event,
}
use mandate_ledger.Store.Memory.{memory_store}
use mandate_ledger.Store.Append.{append-cases, Committed, committed}
use mandate_ledger.Store.Log.{ctx-made, body-made, events-append, revoked_ids-append}
use mandate_ledger.Ledger.Engine.{Ledger, deny}
use mandate_ledger.Ledger.Replies.{deny-append, denied_append_keeps}

module _ {Decimal : Type 0} where
  -- The second store is the first with one event of the context and body more, or with none more.
  pub record OnlyLogged (ctx : ContextId) (body : EventBody Decimal) (g h : Inner Decimal)
      : Type 0 where
    pub records : (d : ContextId) → get h.records d ≡ get g.records d
    pub reserved : h.reserved ≡ g.reserved
    pub auth_times : h.auth_times ≡ g.auth_times
    pub velocity_windows : h.velocity_windows ≡ g.velocity_windows
    pub nonces : h.nonces ≡ g.nonces
    pub revoked_ids : h.revoked_ids ≡ g.revoked_ids
    pub events :
        (h.events ≡ g.events)
        ⊎ ((e : Event Decimal) × (h.events ≡ g.events ++ e ∷ []) × (e.ctx ≡ ctx) × (e.body ≡ body))

  -- What phase 2 does to the rest of the store where it has no effects.
  record Spared (g h : Inner Decimal) : Type 0 where
    pub reserved : h.reserved ≡ g.reserved
    pub auth_times : h.auth_times ≡ g.auth_times
    pub velocity_windows : h.velocity_windows ≡ g.velocity_windows
    pub nonces : h.nonces ≡ g.nonces

  Spared-committed :
      (g : Inner Decimal) (ctx : ContextId) (e : Event Decimal)
      → Spared g (committed g ctx no_effects e)
  unfolding apply_nonce apply_new_record apply_update push_event
  Spared-committed g ctx e = ground arith

module _ {Decimal : Type 0} ⦃ops : DecimalOps Decimal⦄ ⦃sha : Sha256⦄
    ⦃json : CanonicalJson (Preimage Decimal)⦄ where
  denied-no_effects :
      (g : Inner Decimal) (ctx : ContextId) (at : Timestamp) (stage : Stage) (reason : DenyReason)
      (detail : Detail Decimal) (fx : Effects Decimal)
      → check_body g ctx at (denied_event stage reason detail) ≡ ok (proceed fx)
      → no_effects ≡ fx
  unfolding check_body
  denied-no_effects g ctx at stage reason detail fx h = ground arith

  released_nothing :
      (g : Inner Decimal) (at : Timestamp) (fx : Effects Decimal) (released : Inner Decimal)
      → no_effects ≡ fx
      → apply_release (apply_reserve g at fx.window fx.reserve) fx.release ≡ ok released
      → g ≡ released
  unfolding apply_release apply_reserve
  released_nothing g at fx released none_of_them h = ground (arith, none_of_them, h)

  Spared-append :
      {ctx : ContextId} {at : Timestamp} {stage : Stage} {reason : DenyReason}
      {detail : Detail Decimal} {g : Inner Decimal}
      → Committed ctx at (denied_event stage reason detail) g
      → Spared g (append ctx at (denied_event stage reason detail) g).1
  Spared-append {ctx = ctx} {at = at} {stage = stage} {reason = reason} {detail = detail} {g = g}
        c =
      let quiet = denied-no_effects g ctx at stage reason detail c.fx c.checked in
      let same = released_nothing g at c.fx c.released quiet c.freed in
      rw c.result (
        subst (λ (x : Inner Decimal). Spared g (committed x ctx c.fx c.event)) same
          (subst (λ (x : Effects Decimal). Spared g (committed g ctx x c.event)) quiet
            (Spared-committed g ctx c.event)))

  denied_append_only_logs :
      (now : Timestamp) (ctx : ContextId) (stage : Stage) (reason : DenyReason)
      (detail : Detail Decimal) (g : Inner Decimal)
      → OnlyLogged ctx
          (denied_event stage reason detail)
          g
          (append ctx now (denied_event stage reason detail) g).1
  denied_append_only_logs now ctx stage reason detail g =
      elim (append-cases ctx now (denied_event stage reason detail) g) [
        | inl alone ↦ rw alone.1 (record {
          records = λ d. refl;
          reserved = refl;
          auth_times = refl;
          velocity_windows = refl;
          nonces = refl;
          revoked_ids = refl;
          events = inl refl;
        })
        | inr c ↦
            let spared = Spared-append c in
            record {
              records = λ d. denied_append_keeps now ctx d stage reason detail g;
              reserved = spared.reserved;
              auth_times = spared.auth_times;
              velocity_windows = spared.velocity_windows;
              nonces = spared.nonces;
              revoked_ids = revoked_ids-append c;
              events = inr (c.event, events-append c, ctx-made c, body-made c);
            }
      ]

  -- A refusal writes nothing but its event: whatever the engine refuses and why, the records, the
  -- reservations, the history of authorizations, the velocity windows, the nonces and the revocations
  -- stay as they were, and the log gains the refusal's event at its end, or nothing.
  pub refusal_only_logs :
      (A : Type 0) {Proof Finality : Type 0} (self : Ledger Decimal Proof Finality)
      (ctx : ContextId) (stage : Stage) (reason : DenyReason) (detail : Detail Decimal)
      (g : Inner Decimal)
      → OnlyLogged ctx
          (denied_event stage reason detail)
          g
          (deny {A = A} self.now ctx stage reason detail g).1
  refusal_only_logs A self ctx stage reason detail g =
      rw (deny-append A self.now ctx stage reason detail g)
        (denied_append_only_logs self.now ctx stage reason detail g)
