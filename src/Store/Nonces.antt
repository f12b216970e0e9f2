-- ===== src/Store/Nonces.antt =====
-- A payment nonce belongs to one context.
use mandate_ledger.Prelude.{
  ℕ, zero, suc, ◌≡◌, Bool, true, false, not, List, [], ◌∷◌, ◌++◌, arith, Option, none, some, inl,
  inr, ok, keep, get_elem?, is_empty, Bool-cases, ◌==◌, ==_eq, ==_refl, list_eq, nat_eq, pair_eq,
  ap, sym, ◌∙◌, subst,
}
use mandate_ledger.Prelude.Map.{Map, get, insert, get-insert}
use mandate_ledger.Text.{Text}
use mandate_ledger.Hash.{Sha256, CanonicalJson}
use mandate_ledger.Time.{Timestamp}
use mandate_ledger.Ids.{ContextId, MandateId}
use mandate_ledger.Money.{DecimalOps}
use mandate_ledger.Event.{
  Event, EventBody, Preimage, authorized_event, paid_event, denied_event, settled_event,
  failed_event, compensated_event, delivered_event, expired_event,
}
use mandate_ledger.Store.Inner.{Inner, Effects, proceed, nonce_taken}
use mandate_ledger.Store.Validate.{check_body}
use mandate_ledger.Store.Commit.{
  append, apply_reserve, apply_release, release_reservation, apply_nonce, apply_new_record,
  apply_update, push_event,
}
use mandate_ledger.Store.Memory.{empty_store, prune, revoke_id}
use mandate_ledger.Store.Append.{append-cases, Committed, committed}
use mandate_ledger.Store.Log.{ctx-made, body-made, events-append}
use mandate_ledger.Store.Audit.{HasRoom}
use mandate_ledger.Store.Reach.{Reach, Reach-induction}
use mandate_ledger.Store.Prune.{gone_ids, is_forgotten}

abbrev pub IsOwned : Map (Text × Text) ContextId → ContextId → Option (Text × Text) → Type 0
IsOwned n c none = Unit
IsOwned n c (some k) = get n k ≡ some c

abbrev consumed :
    Map (Text × Text) ContextId → ContextId → Option (Text × Text) → Map (Text × Text) ContextId
consumed n ctx none = n
consumed n ctx (some k) = insert n k ctx

abbrev IsFree : Map (Text × Text) ContextId → ContextId → Option (Text × Text) → Type 0
IsFree n ctx none = Unit
IsFree n ctx (some k) = nonce_taken (get n k) ctx ≡ false

free_owner :
    (n : Map (Text × Text) ContextId) (ctx c : ContextId) (k j : Text × Text)
    → IsFree n ctx (some k)
    → get n j ≡ some c
    → (k == j) ≡ true
    → ctx ≡ c
free_owner n ctx c k j free owned same =
    let here : get n k ≡ some c = rw (==_eq k j same) owned in
    let eq : (c == ctx) ≡ true = ground arith in sym (==_eq c ctx eq)

-- Consuming a free nonce takes no other context's.
IsOwned-consumed :
    (n : Map (Text × Text) ContextId) (ctx c : ContextId) (k j : Option (Text × Text))
    → IsFree n ctx k
    → IsOwned n c j
    → IsOwned (consumed n ctx k) c j
IsOwned-consumed n ctx c none j free h = h
IsOwned-consumed n ctx c (some k) none free h = tt
IsOwned-consumed n ctx c (some k) (some j) free h = rw get-insert (elim (Bool-cases (k == j)) [
  | inl same ↦ rw same (ap some (free_owner n ctx c k j free h same))
  | inr other ↦ rw other h
])

IsOwned-self :
    (n : Map (Text × Text) ContextId) (ctx : ContextId) (k : Option (Text × Text))
    → IsOwned (consumed n ctx k) ctx k
IsOwned-self n ctx none = tt
IsOwned-self n ctx (some k) = rw get-insert (rw (==_refl k))

module _ {Decimal : Type 0} where
  -- The key that a payment consumes: its rail and its nonce.
  abbrev pub nonce_of : EventBody Decimal → Option (Text × Text)
  nonce_of (paid_event rail reference nonce amount key) = some (rail, nonce)
  nonce_of _ = none

  -- Every payment in the log owns its nonce in the map of consumed nonces.
  abbrev AllOwned : Map (Text × Text) ContextId → List (Event Decimal) → Type 0
  AllOwned n [] = Unit
  AllOwned n (e ∷ es) = IsOwned n e.ctx (nonce_of e.body) × AllOwned n es

  AllOwned-consumed :
      (n : Map (Text × Text) ContextId) (ctx : ContextId) (k : Option (Text × Text))
      (es : List (Event Decimal))
      → IsFree n ctx k
      → AllOwned n es
      → AllOwned (consumed n ctx k) es
  AllOwned-consumed n ctx k [] free h = tt
  AllOwned-consumed n ctx k (e ∷ es) free h = (
    IsOwned-consumed n ctx e.ctx k (nonce_of e.body) free h.0,
    AllOwned-consumed n ctx k es free h.1,
  )

  AllOwned-snoc :
      (n : Map (Text × Text) ContextId) (es : List (Event Decimal)) (e : Event Decimal)
      → AllOwned n es
      → IsOwned n e.ctx (nonce_of e.body)
      → AllOwned n (es ++ e ∷ [])
  AllOwned-snoc n [] e h p = (p, tt)
  AllOwned-snoc n (x ∷ es) e h p = (h.0, AllOwned-snoc n es e h.1 p)

  AllOwned-keep :
      (n : Map (Text × Text) ContextId) (p : Event Decimal → Bool) (es : List (Event Decimal))
      → AllOwned n es
      → AllOwned n (keep p es)
  AllOwned-keep n p [] h = tt
  AllOwned-keep n p (e ∷ es) h = elim (Bool-cases (p e)) [
    | inl kept ↦ rw kept (h.0, AllOwned-keep n p es h.1)
    | inr gone ↦ rw gone (AllOwned-keep n p es h.1)
  ]

  abbrev OwnedBy : Map (Text × Text) ContextId → Option (Event Decimal) → Type 0
  OwnedBy n none = Unit
  OwnedBy n (some e) = IsOwned n e.ctx (nonce_of e.body)

  AllOwned-at :
      (n : Map (Text × Text) ContextId) (es : List (Event Decimal)) (i : ℕ) {e : Event Decimal}
      → AllOwned n es
      → get_elem? es i ≡ some e
      → IsOwned n e.ctx (nonce_of e.body)
  AllOwned-at n [] i h p = cc
  AllOwned-at n (x ∷ es) zero h p = subst (OwnedBy n) p h.0
  AllOwned-at n (x ∷ es) (suc i) h p = AllOwned-at n es i h.1 p

module _ {Decimal : Type 0} ⦃ops : DecimalOps Decimal⦄ where
  check-consumes :
      (g : Inner Decimal) (ctx : ContextId) (at : Timestamp) (body : EventBody Decimal)
      (fx : Effects Decimal)
      → check_body g ctx at body ≡ ok (proceed fx)
      → (fx.consume_nonce ≡ nonce_of body) × IsFree g.nonces ctx (nonce_of body)
  unfolding check_body
  check-consumes g ctx at (authorized_event m c k) fx h = (ground arith, tt)
  check-consumes g ctx at (paid_event rail reference nonce amount key) fx h =
      (ground arith, ground arith)
  check-consumes g ctx at (settled_event rail reference) fx h = (ground arith, tt)
  check-consumes g ctx at (failed_event rail reason) fx h = (ground arith, tt)
  check-consumes g ctx at (compensated_event reference) fx h = (ground arith, tt)
  check-consumes g ctx at (delivered_event receipt) fx h = (ground arith, tt)
  check-consumes g ctx at expired_event fx h = (ground arith, tt)
  check-consumes g ctx at (denied_event s r d) fx h = (ground arith, tt)

module _ {Decimal : Type 0} ⦃ops : DecimalOps Decimal⦄ ⦃sha : Sha256⦄
    ⦃json : CanonicalJson (Preimage Decimal)⦄ {ctx : ContextId} {at : Timestamp}
    {body : EventBody Decimal} {g : Inner Decimal} (c : Committed ctx at body g) where
  nonces-committed :
      (k : Inner Decimal) (fx : Effects Decimal) (e : Event Decimal)
      → (committed k ctx fx e).nonces ≡ consumed k.nonces ctx fx.consume_nonce
  unfolding apply_nonce apply_new_record apply_update push_event
  nonces-committed k fx e = ground arith

  nonces-released : c.released.nonces ≡ g.nonces
  unfolding apply_release apply_reserve release_reservation
  nonces-released = ground (arith, c.freed)

  nonces-append : (append ctx at body g).1.nonces ≡ consumed g.nonces ctx c.fx.consume_nonce
  nonces-append = rw c.result (
      nonces-committed c.released c.fx c.event
      ∙ ap (λ (n : Map (Text × Text) ContextId). consumed n ctx c.fx.consume_nonce) nonces-released)

  -- The event's nonce is the context's from then on.
  pub IsOwned-after : IsOwned (append ctx at body g).1.nonces ctx (nonce_of body)
  IsOwned-after =
      let found = check-consumes g ctx at body c.fx c.checked in
      rw (nonces-append, found.0) (IsOwned-self g.nonces ctx (nonce_of body))

  pub AllOwned-append :
      AllOwned g.nonces g.events
      → AllOwned (append ctx at body g).1.nonces (append ctx at body g).1.events
  AllOwned-append h =
      let found = check-consumes g ctx at body c.fx c.checked in
      rw (nonces-append, events-append c, found.0)
        (AllOwned-snoc (consumed g.nonces ctx (nonce_of body)) g.events c.event
          (AllOwned-consumed g.nonces ctx (nonce_of body) g.events found.1 h)
          (rw (ctx-made c, body-made c) (IsOwned-self g.nonces ctx (nonce_of body))))

module _ {Decimal : Type 0} ⦃ops : DecimalOps Decimal⦄ ⦃sha : Sha256⦄
    ⦃json : CanonicalJson (Preimage Decimal)⦄ where
  abbrev pub NoncesOwned : Inner Decimal → Type 0
  NoncesOwned g = AllOwned g.nonces g.events

  NoncesOwned-append :
      (ctx : ContextId) (at : Timestamp) (body : EventBody Decimal) (g : Inner Decimal)
      → HasRoom g
      → NoncesOwned g
      → NoncesOwned (append ctx at body g).1
  NoncesOwned-append ctx at body g room h = elim (append-cases ctx at body g) [
    | inl alone ↦ rw alone.1 h
    | inr c ↦ AllOwned-append c h
  ]

  NoncesOwned-prune :
      (before : Timestamp) (g : Inner Decimal) → NoncesOwned g → NoncesOwned (prune g before)
  unfolding prune
  NoncesOwned-prune before g h = elim (Bool-cases (is_empty (gone_ids g before))) [
    | inl nothing ↦ rw nothing h
    | inr something ↦
        rw something (AllOwned-keep g.nonces (λ e. not (is_forgotten g before e.ctx)) g.events h)
  ]

  NoncesOwned-revoke :
      (m : MandateId) (g : Inner Decimal) → NoncesOwned g → NoncesOwned (revoke_id g m)
  unfolding revoke_id
  NoncesOwned-revoke m g h = ground arith

  pub Reach-NoncesOwned : {g : Inner Decimal} → Reach empty_store g → NoncesOwned g
  Reach-NoncesOwned t =
      Reach-induction NoncesOwned NoncesOwned-append NoncesOwned-revoke NoncesOwned-prune t tt

  -- In any store that can be reached, two payments in the log with the same rail and nonce are
  -- payments of the same context.
  pub nonce_owner_unique :
      {g : Inner Decimal} (i j : ℕ) {d e : Event Decimal} {rail nonce : Text}
      → Reach empty_store g
      → get_elem? g.events i ≡ some d
      → get_elem? g.events j ≡ some e
      → nonce_of d.body ≡ some (rail, nonce)
      → nonce_of e.body ≡ some (rail, nonce)
      → d.ctx ≡ e.ctx
  nonce_owner_unique {g = g} i j {d} {e} {rail} {nonce} t hd he nd ne =
      let owned = Reach-NoncesOwned t in
      let of_d : get g.nonces (rail, nonce) ≡ some d.ctx =
        rw nd at (AllOwned-at g.nonces g.events i owned hd) in
      let of_e : get g.nonces (rail, nonce) ≡ some e.ctx =
        rw ne at (AllOwned-at g.nonces g.events j owned he) in
      cc
