-- ===== src/Postgres/Refinement.antt =====
-- The Postgres store refines the in-memory store: an append that ends on the tables ends alike there, and
-- the two agree again.
use mandate_ledger.Prelude.{
  ◌-◌, ◌^◌, ◌≡◌, ap, sym, ◌∙◌, subst, Option, Result, ok, arith, Result-cases, Bool-cases, inl, inr,
  list_eq, nat_eq, pair_eq, leb, ok->>=,
}
use mandate_ledger.Text.Codec.{HexDecode, HexLaws}
use mandate_ledger.Hash.{Sha256, CanonicalJson}
use mandate_ledger.Time.{Timestamp}
use mandate_ledger.Ids.{Hex, ContextId}
use mandate_ledger.Money.{DecimalOps}
use mandate_ledger.Event.{Event, EventBody, Preimage}
use mandate_ledger.Error.{StoreError}
use mandate_ledger.Store.Interface.{AppendOutcome, appended, Record}
use mandate_ledger.Store.Inner.{Inner, refuse}
use mandate_ledger.Store.Validate.{check_body}
use mandate_ledger.Store.Commit.{append_verdict, append}
use mandate_ledger.Postgres.Tables.{Tables, Sql, SqlLaws}
use mandate_ledger.Postgres.Decide.{refused, decided, read_record, decide}
use mandate_ledger.Postgres.Write.{write, drawn, finish, pg_append}
use mandate_ledger.Postgres.Agreement.{Agrees, verdicts_in, decide-agrees}
use mandate_ledger.Postgres.Rows.{IsTyped}
use mandate_ledger.Postgres.Logged.{Sha256Laws}
use mandate_ledger.Postgres.Success.{write-Wrote, Success, result}
use mandate_ledger.Postgres.Preserved.{Agrees-after}

module _ {Decimal Json : Type 0} ⦃ops : DecimalOps Decimal⦄ ⦃sql : Sql Decimal Json⦄ ⦃hex : Hex⦄
    ⦃dec : HexDecode⦄ ⦃sha : Sha256⦄ ⦃json : CanonicalJson (Preimage Decimal)⦄ ⦃hex_laws : HexLaws⦄
    ⦃sql_laws : SqlLaws Decimal Json⦄ ⦃sha_laws : Sha256Laws⦄ where
  refused-append :
      (t t' : Tables Decimal Json) (g : Inner Decimal) (ctx : ContextId) (at : Timestamp)
      (body : EventBody Decimal) (out : AppendOutcome Decimal) (existing : Option (Record Decimal))
      (o : AppendOutcome Decimal)
      → Agrees t g
      → read_record t ctx ≡ ok existing
      → decide t existing ctx at body ≡ ok (refused o)
      → (o ≡ out) × (t ≡ t')
      → ((append ctx at body g).0 ≡ ok out) × Agrees t' (append ctx at body g).1
  unfolding append
  refused-append t t' g ctx at body out existing o a read chosen (same_out, same_t) =
      let checked : check_body g ctx at body ≡ ok (refuse o) =
        sym (decide-agrees a ctx at body)
        ∙ ap (verdicts_in ctx body)
            (ok->>= (read_record t ctx) (λ x. decide t x ctx at body) existing read chosen) in
      rw (checked, append_verdict)
        (ap ok same_out, subst (λ (x : Tables Decimal Json). Agrees x g) same_t a)

  appended-append :
      (t t' : Tables Decimal Json) (g : Inner Decimal) (ctx : ContextId) (at : Timestamp)
      (body : EventBody Decimal) (out : AppendOutcome Decimal) (e : Event Decimal)
      (written : Tables Decimal Json)
      → Success t g ctx at body e written
      → (appended e ≡ out) × (written ≡ t')
      → ((append ctx at body g).0 ≡ ok out) × Agrees t' (append ctx at body g).1
  appended-append t t' g ctx at body out e written s (same_out, same_t) = (
    ap (λ (p : Result StoreError (AppendOutcome Decimal) × Inner Decimal). p.0) (result s)
        ∙ ap ok same_out,
    subst (λ (x : Tables Decimal Json). Agrees x (append ctx at body g).1) same_t (Agrees-after s),
  )

  -- An append of the Postgres store that ends without an error ends in the in-memory store with the same
  -- outcome, refusals included, when the two stores agree and the values are what their types say; and the
  -- two stores then agree again: on the records, reservations, velocity counts, nonces, revocations,
  -- refusals and chains.
  pub pg_append-append :
      (t t' : Tables Decimal Json) (g : Inner Decimal) (ctx : ContextId) (at : Timestamp)
      (body : EventBody Decimal) (out : AppendOutcome Decimal)
      → Agrees t g
      → IsTyped ctx body
      → pg_append ctx at body t ≡ (ok out, t')
      → ((append ctx at body g).0 ≡ ok out) × Agrees t' (append ctx at body g).1
  unfolding pg_append finish append
  pg_append-append t t' g ctx at body out a typed h = elim (Result-cases (read_record t ctx)) [
    | inr (failure, stuck) ↦ absurd (ground (arith, h, stuck))
    | inl (existing, read) ↦ elim (Result-cases (decide t existing ctx at body)) [
      | inr (failure, stuck) ↦ absurd (ground (arith, h, read, stuck))
      | inl (refused o, chosen) ↦
          refused-append t t' g ctx at body out existing o a read chosen
            (ground (arith, h, read, chosen))
      | inl (decided fx claimed, chosen) ↦ elim (Bool-cases (leb (2 ^ 63 - 1) t.event_seq)) [
        | inl full ↦ absurd (ground (arith, h, read, chosen, full))
        | inr room ↦ elim (Result-cases (write fx ctx at body (drawn claimed))) [
          | inr (failure, stuck) ↦ absurd (ground (arith, h, read, chosen, room, stuck))
          | inl ((e, written), wrote) ↦
              let s : Success t g ctx at body e written = record {
                agrees = a;
                typed = typed;
                existing = existing;
                fx = fx;
                claimed = claimed;
                read = read;
                chosen = chosen;
                room = room;
                wrote = write-Wrote fx ctx at body (drawn claimed) e written wrote;
              } in
              appended-append t t' g ctx at body out e written s
                (ground (arith, h, read, chosen, room, wrote))
        ]
      ]
    ]
  ]
