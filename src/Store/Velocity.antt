-- ===== src/Store/Velocity.antt =====
-- A velocity rule bounds the authorizations that its window counts.
use mandate_ledger.Prelude.{
  ◌+◌, ◌≤◌, ◌<◌, ◌≡◌, refl, Bool, true, false, [], ◌∷◌, ◌++◌, arith, Option, none, some, inl, inr,
  keep, length, length-keep-snoc, ◌∙◌, ==_refl, list_eq, nat_eq,
}
use mandate_ledger.Prelude.Int.{ℤ, pos, leb_ℤ, ◌≤ℤ◌, -ℤ_parts}
use mandate_ledger.Prelude.Map.{get, get_or, get-insert}
use mandate_ledger.Text.{Text}
use mandate_ledger.Hash.{Sha256, CanonicalJson}
use mandate_ledger.Time.{Timestamp, i64_min, saturating_sub_secs}
use mandate_ledger.Ids.{ContextId, MandateId}
use mandate_ledger.Money.{DecimalOps, Money}
use mandate_ledger.Mandate.Scope.{Velocity}
use mandate_ledger.Mandate.Body.{Mandate}
use mandate_ledger.Event.{Event, Preimage, CartSnapshot, authorized_event}
use mandate_ledger.Store.Inner.{Inner, Effects, u32_max, window_count, velocity_refusal}
use mandate_ledger.Store.Commit.{
  append, apply_reserve, apply_release, apply_nonce, apply_new_record, apply_update, push_event,
}
use mandate_ledger.Store.Append.{append-cases, was_appended, Committed, committed}
use mandate_ledger.Store.Reserve.{check-Reserved}

not_both : {b : Bool} → b ≡ true → b ≡ false → ⊥
not_both h k = cc

-- A window that does not run backwards reaches up to the moment itself.
since_earlier :
    (at secs : ℤ) → i64_min ≤ℤ at → pos 0 ≤ℤ secs → leb_ℤ (saturating_sub_secs at secs) at ≡ true
unfolding saturating_sub_secs
since_earlier at secs low forward = ground (arith, -ℤ_parts at secs)

module _ {Decimal : Type 0} where
  times_committed :
      (k : Inner Decimal) (ctx : ContextId) (fx : Effects Decimal) (e : Event Decimal)
      → (committed k ctx fx e).auth_times ≡ k.auth_times
  unfolding apply_nonce apply_new_record apply_update push_event
  times_committed k ctx fx e = ground arith

  times_reserved :
      (g : Inner Decimal) (at : Timestamp) (w : Option ℤ) (id : MandateId) (next : Money Decimal)
      → get (apply_reserve g at w (some (id, next))).auth_times id
        ≡ some (get_or [] (get g.auth_times id) ++ at ∷ [])
  unfolding apply_reserve
  times_reserved g at w id next = rw (get-insert, ==_refl id) refl

  below_rule :
      (g : Inner Decimal) (id : MandateId) (at : Timestamp) (v : Velocity)
      → v.max_count ≤ u32_max
      → velocity_refusal g id at (some v) ≡ none
      → length (
          keep
            (λ t. leb_ℤ (saturating_sub_secs at v.window_secs) t)
            (get_or [] (get g.auth_times id)))
        < v.max_count
  unfolding velocity_refusal window_count
  below_rule g id at v small timely = ground (arith, small)

module _ {Decimal : Type 0} ⦃ops : DecimalOps Decimal⦄ ⦃sha : Sha256⦄
    ⦃json : CanonicalJson (Preimage Decimal)⦄ where
  times-append :
      {ctx : ContextId} {at : Timestamp} {g : Inner Decimal} {mandate : Mandate Decimal}
      {cart : CartSnapshot Decimal} {key : Text}
      (c : Committed ctx at (authorized_event mandate cart key) g)
      → get (append ctx at (authorized_event mandate cart key) g).1.auth_times mandate.body.id
        ≡ some (get_or [] (get g.auth_times mandate.body.id) ++ at ∷ [])
  unfolding apply_release
  times-append {ctx = ctx} {at = at} {g = g} {mandate = mandate} {cart = cart} {key = key} c =
      let r = check-Reserved g ctx at mandate cart key c.fx c.checked in
      let same : c.released ≡ apply_reserve g at c.fx.window (some (mandate.body.id, r.next)) =
        ground (arith, c.freed, r.reserves, r.releases) in
      rw (c.result, times_committed c.released ctx c.fx c.event, same)
        (times_reserved g at c.fx.window mandate.body.id r.next)

  -- An append that authorizes a context under a mandate with a velocity rule adds one authorization to
  -- those that the rule's window counts at this moment, and the window then counts `max_count` at most.
  -- This is where `max_count` is a `u32`, the moment an `i64`, and the window's length not negative.
  pub velocity_respected :
      (g : Inner Decimal) (ctx : ContextId) (at : Timestamp) (mandate : Mandate Decimal)
      (cart : CartSnapshot Decimal) (key : Text) (v : Velocity)
      → v.max_count ≤ u32_max
      → pos 0 ≤ℤ v.window_secs
      → i64_min ≤ℤ at
      → was_appended (append ctx at (authorized_event mandate cart key) g).0 ≡ true
      → mandate.body.scope.velocity ≡ some v
      → (window_count
            (append ctx at (authorized_event mandate cart key) g).1
            mandate.body.id
            (saturating_sub_secs at v.window_secs)
          ≡ window_count g mandate.body.id (saturating_sub_secs at v.window_secs) + 1)
        × (window_count
              (append ctx at (authorized_event mandate cart key) g).1
              mandate.body.id
              (saturating_sub_secs at v.window_secs)
            ≤ v.max_count)
  unfolding window_count
  velocity_respected g ctx at mandate cart key v small forward low done ruled =
      elim (append-cases ctx at (authorized_event mandate cart key) g) [
        | inl alone ↦ absurd (not_both done alone.0)
        | inr c ↦
            let r = check-Reserved g ctx at mandate cart key c.fx c.checked in
            let since = saturating_sub_secs at v.window_secs in
            let times = get_or [] (get g.auth_times mandate.body.id) in
            let before = below_rule g mandate.body.id at v small (rw ruled at r.timely) in
            let counted = length-keep-snoc (λ t. leb_ℤ since t) times at in
            let here = since_earlier at v.window_secs low forward in
            let one_more : length (keep (λ t. leb_ℤ since t) (times ++ at ∷ []))
                ≡ length (keep (λ t. leb_ℤ since t) times) + 1 =
              counted ∙ rw here refl in
            rw (times-append c)
              (omega (arith, before, one_more, small), omega (arith, before, one_more))
      ]
