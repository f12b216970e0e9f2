-- ===== src/Tests/Tables.antt =====
-- A purchase on the database: the Postgres store and the in-memory store, call by call.
use mandate_ledger.Prelude.{
  ℕ, ◌+◌, ◌%◌, ◌≡◌, refl, [], ◌∷◌, ok, err, Result, Option, some, none, arith, ap, sym,
  ok_injective, list_eq, nat_eq, pair_eq,
}
use mandate_ledger.Prelude.Int.{ℤ, pos}
use mandate_ledger.Text.{Bytes}
use mandate_ledger.Text.Codec.{HexLaws}
use mandate_ledger.Hash.{Sha256, zeros, zero_hash}
use mandate_ledger.Hash.Display.{IsHash}
use mandate_ledger.Cart.{unsigned}
use mandate_ledger.Event.{
  Event, EventBody, CartSnapshot, authorized_event, paid_event, expired_event,
}
use mandate_ledger.Store.Interface.{appended}
use mandate_ledger.Store.Inner.{Inner}
use mandate_ledger.Store.Commit.{append}
use mandate_ledger.Store.Memory.{empty_store}
use mandate_ledger.Postgres.Decide.{PgEffects, decided, decide, read_reserved}
use mandate_ledger.Postgres.Races.{row_of, late_write_overwrites}
use mandate_ledger.Postgres.Tables.{Tables, Sql, SqlLaws, body_tag, no_rows}
use mandate_ledger.Postgres.Write.{pg_append, write, drawn}
use mandate_ledger.Postgres.Agreement.{Agrees}
use mandate_ledger.Postgres.Rows.{IsTyped}
use mandate_ledger.Postgres.Logged.{Sha256Laws}
use mandate_ledger.Postgres.Runs.{fresh, appends, postgres_refines_memory}
use mandate_ledger.Event.{compute_hash}
use mandate_ledger.Hash.{chain}
use mandate_ledger.Text.{trim_start, trim_end, len, encode, lower, is_space}
use mandate_ledger.Ids.{ContextId, new_id, lowercase_trimmed}
use mandate_ledger.Money.{
  Money, money_zero, new_currency, money_add, cmp_same_currency, money_sub, is_negative,
}
use mandate_ledger.Prelude.Map.{get, get_or, insert}
use mandate_ledger.State.{can_transition_to}
use mandate_ledger.Prelude.Int.{◌+ℤ◌, ◌-ℤ◌}
use mandate_ledger.Time.{saturating_sub_secs}
use mandate_ledger.Cart.Messages.{display_id_error, display_money_error}
use mandate_ledger.Tests.Sample.{cents, preimage_json, mandate, claims, ctx, usd, request_key}
use mandate_ledger.Tests.Wire.{real_hex, real_decode, real_hex_laws}

abbrev total : Bytes → ℕ
total [] = 0
total (b ∷ bs) = b + total bs

-- A digest of 32 bytes.
instance abbrev padded_digest : Sha256
padded_digest = record { digest = λ bs. (total bs % 256) ∷ zeros 31 }

padded_size : (n : ℕ) → IsHash ((n % 256) ∷ zeros 31)
padded_size n = (refl, ground arith)

instance abbrev padded_digest_laws : Sha256Laws
padded_digest_laws = record { digest-IsHash = λ bs. padded_size (total bs) }

instance abbrev wire_laws : HexLaws
wire_laws = real_hex_laws

-- A body's JSON is the body.
instance abbrev body_as_json : Sql ℤ (EventBody ℤ)
body_as_json = record {
  to_value = λ b. ok b;
  from_value = λ b. ok b;
  type_tag = body_tag;
  violation = λ t. t;
  exhausted = [];
}

instance abbrev body_as_json_laws : SqlLaws ℤ (EventBody ℤ)
body_as_json_laws = record { tagged = λ b j h. ap body_tag (sym (ok_injective h)) }

abbrev wide_cart : CartSnapshot ℤ
wide_cart = record { hash = zeros 32; claims = claims; attestation = unsigned; raw = [] }

abbrev authorization : EventBody ℤ
authorization = authorized_event mandate wide_cart request_key

abbrev payment : EventBody ℤ
payment = paid_event (8 ∷ []) (11 ∷ []) (12 ∷ []) (usd 40) (zeros 32)

abbrev event_1 : Event ℤ
event_1 = record {
  seq = 1;
  ctx = ctx;
  at = pos 10;
  prev_hash = zero_hash;
  hash = 247 ∷ zeros 31;
  body = authorization;
}

abbrev event_2 : Event ℤ
event_2 = record {
  seq = 2;
  ctx = ctx;
  at = pos 20;
  prev_hash = 247 ∷ zeros 31;
  hash = 239 ∷ zeros 31;
  body = payment;
}

abbrev tables_1 : Tables ℤ (EventBody ℤ)
tables_1 = (pg_append ctx (pos 10) authorization no_rows).1

abbrev tables_2 : Tables ℤ (EventBody ℤ)
tables_2 = (pg_append ctx (pos 20) payment tables_1).1

abbrev state_1 : Inner ℤ
state_1 = (append ctx (pos 10) authorization empty_store).1

authorizes : pg_append ctx (pos 10) authorization no_rows ≡ (ok (appended event_1), tables_1)
unfolding pg_append compute_hash chain lowercase_trimmed trim_start trim_end len lower get insert
    zero_hash can_transition_to money_add cmp_same_currency ◌+ℤ◌ display_id_error
    display_money_error
authorizes = refl

pays : pg_append ctx (pos 20) payment tables_1 ≡ (ok (appended event_2), tables_2)
unfolding pg_append compute_hash chain lowercase_trimmed trim_start trim_end len lower get insert
    zero_hash can_transition_to money_add cmp_same_currency ◌+ℤ◌ display_id_error
    display_money_error
pays = refl

authorization-IsTyped : IsTyped ctx authorization
unfolding new_id lowercase_trimmed new_currency trim_start trim_end len encode lower is_space
authorization-IsTyped = (refl, refl, (refl, refl), refl, refl)

postgres_refines_memory_example :
    ((append ctx (pos 20) payment state_1).0 ≡ ok (appended event_2))
    × Agrees tables_2 (append ctx (pos 20) payment state_1).1
postgres_refines_memory_example =
    postgres_refines_memory tables_1 tables_2 state_1 ctx (pos 20) payment (appended event_2)
      (appends no_rows tables_1 empty_store ctx (pos 10) authorization (appended event_1) fresh
        authorization-IsTyped authorizes)
      (refl, refl) pays

-- Another context, whose authorization under the same mandate reads the first one's reservation, and
-- writes when that has been released.
abbrev other_ctx : ContextId
other_ctx = 13 ∷ []

abbrev tables_freed : Tables ℤ (EventBody ℤ)
tables_freed = (pg_append ctx (pos 15) expired_event tables_1).1

freed_first : get tables_freed.reservations (5 ∷ []) ≡ some (row_of (usd 0))
unfolding pg_append compute_hash chain lowercase_trimmed trim_start trim_end len lower get insert
    zero_hash can_transition_to money_add cmp_same_currency ◌+ℤ◌ display_id_error
    display_money_error money_sub is_negative ◌-ℤ◌
freed_first = refl

abbrev late_effects : PgEffects ℤ
late_effects = record {
  reserve = some (5 ∷ [], usd 80);
  release = none;
  create = some (5 ∷ [], zeros 32, 1 ∷ [], usd 40);
}

abbrev result_or : {A B : Type 0} → A → Result B A → A
result_or a (ok b) = b
result_or a (err why) = a

abbrev late : Event ℤ × Tables ℤ (EventBody ℤ)
late =
    result_or (event_1, tables_freed)
      (write late_effects other_ctx (pos 15) authorization (drawn tables_freed))

late_decides :
    decide tables_1 none other_ctx (pos 15) authorization ≡ ok (decided late_effects tables_1)
unfolding pg_append decide compute_hash chain lowercase_trimmed trim_start trim_end len lower get
    insert zero_hash can_transition_to money_add cmp_same_currency ◌+ℤ◌ display_id_error
    display_money_error saturating_sub_secs ◌-ℤ◌
late_decides = refl

late_writes :
    write late_effects other_ctx (pos 15) authorization (drawn tables_freed) ≡ ok (late.0, late.1)
unfolding pg_append write compute_hash chain lowercase_trimmed trim_start trim_end len lower get
    insert zero_hash can_transition_to money_add cmp_same_currency ◌+ℤ◌ display_id_error
    display_money_error money_sub is_negative ◌-ℤ◌
late_writes = refl

late_write_overwrites_example :
    (reserved : Option (Money ℤ)) × (next : Money ℤ) × (read_reserved tables_1 (5 ∷ [])
      ≡ ok reserved)
    × (money_add (get_or (money_zero (usd 40).currency) reserved) (usd 40) ≡ ok next)
    × (get late.1.reservations (5 ∷ []) ≡ some (row_of next))
late_write_overwrites_example =
    late_write_overwrites tables_1 tables_freed late.1 none other_ctx (pos 15) mandate wide_cart
      request_key late_effects tables_1 late.0 late_decides late_writes
