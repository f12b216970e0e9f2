-- ===== src/Postgres/Stages.antt =====
-- The statements of phase 2 one by one, each beside what the in-memory store does in its place.
use mandate_ledger.Prelude.{
  ◌&&◌, Option-cases, ◌≡◌, refl, ap, sym, ◌∙◌, subst, Option, none, some, [], ◌∷◌, ◌++◌, ok, arith,
  ok_injective, Result-cases, Bool-cases, inl, inr, ◌==◌, ==_eq, list_eq, nat_eq, pair_eq,
  length-keep-snoc,
}
use mandate_ledger.Prelude.Int.{ℤ, leb_ℤ}
use mandate_ledger.Prelude.Map.{get, insert, get-insert, get_or}
use mandate_ledger.Text.{Text}
use mandate_ledger.Text.Codec.{HexDecode, HexLaws}
use mandate_ledger.Hash.{Hash32}
use mandate_ledger.Hash.Display.{IsHash}
use mandate_ledger.Time.{Timestamp}
use mandate_ledger.Ids.{Hex, ContextId, MandateId}
use mandate_ledger.Money.{DecimalOps, Money, money_sub, ensure_same_currency, is_negative}
use mandate_ledger.Event.{EventBody}
use mandate_ledger.Store.Interface.{Record}
use mandate_ledger.Store.Inner.{Inner, window_count}
use mandate_ledger.Store.Commit.{
  apply_reserve, apply_release, apply_new_record, apply_update, release_reservation, update_record,
}
use mandate_ledger.Postgres.Tables.{Tables, ContextRow, AuthorizationRow, ReservationRow, Sql}
use mandate_ledger.Postgres.Convert.{record_from_row, money_from_sql}
use mandate_ledger.Postgres.Decide.{read_record, read_reserved, recent_count}
use mandate_ledger.Postgres.Write.{
  write_reserve, write_release, write_create, write_update, update_row, new_row, set_amount,
}
use mandate_ledger.Postgres.Agreement.{created_record, record_for}
use mandate_ledger.Postgres.Rows.{
  IsTyped, IsId, IsMerchant, record_from_row-new_row, IsCurrency, money_from_sql-money,
  money_from_sql-ok, record_from_row-update_row,
}

-- What the release and the creation leave as it was.
pub record Kept {Decimal Json : Type 0} (a b : Tables Decimal Json) : Type 0 where
  pub event_seq : a.event_seq ≡ b.event_seq
  pub events : a.events ≡ b.events
  pub authorizations : a.authorizations ≡ b.authorizations
  pub nonces : a.nonces ≡ b.nonces
  pub revocations : a.revocations ≡ b.revocations

-- The values of a new context are what their types say.
abbrev pub CreatesTyped :
    {Decimal : Type 0} → ContextId → Option (MandateId × Hash32 × Text × Money Decimal) → Type 0
CreatesTyped ctx none = Unit {0}
CreatesTyped ctx (some (mandate, cart_hash, merchant, amount)) =
    IsId ctx × IsId mandate × IsHash cart_hash × IsMerchant merchant × IsCurrency amount.currency

-- The currency of a new reservation is one.
abbrev pub ReservesCurrency : {Decimal : Type 0} → Option (MandateId × Money Decimal) → Type 0
ReservesCurrency none = Unit {0}
ReservesCurrency (some (m, next)) = IsCurrency next.currency

module _ {Decimal Json : Type 0} where
  -- The two hold the same reservations.
  abbrev pub SameReserved : Tables Decimal Json → Inner Decimal → Type 0
  SameReserved t g = (m : MandateId) → read_reserved t m ≡ ok (get g.reserved m)

  -- The two hold the same records.
  abbrev pub SameRecords : ⦃dec : HexDecode⦄ → Tables Decimal Json → Inner Decimal → Type 0
  SameRecords t g = (c : ContextId) → read_record t c ≡ ok (get g.records c)

  pub reserve-SameReserved :
      (t : Tables Decimal Json) (g : Inner Decimal) (ctx : ContextId) (at : Timestamp)
      (window : Option ℤ) (reserve : Option (MandateId × Money Decimal))
      → ReservesCurrency reserve
      → SameReserved t g
      → SameReserved (write_reserve t ctx at reserve) (apply_reserve g at window reserve)
  unfolding write_reserve apply_reserve read_reserved
  reserve-SameReserved t g ctx at window none typed same m = same m
  reserve-SameReserved t g ctx at window (some (mandate, next)) typed same m = ground (
    arith,
    same m,
    money_from_sql-money next typed,
    get-insert t.reservations mandate m (record { amount = next.amount; currency = next.currency }),
    get-insert g.reserved mandate m next,
  )

  pub reserve-counts :
      (t : Tables Decimal Json) (g : Inner Decimal) (ctx : ContextId) (at : Timestamp)
      (window : Option ℤ) (reserve : Option (MandateId × Money Decimal)) (m : MandateId)
      (since : Timestamp)
      → recent_count t m since ≡ window_count g m since
      → recent_count (write_reserve t ctx at reserve) m since
        ≡ window_count (apply_reserve g at window reserve) m since
  unfolding write_reserve apply_reserve recent_count window_count
  reserve-counts t g ctx at window none m since same = same
  reserve-counts t g ctx at window (some (mandate, next)) m since same =
      let row : AuthorizationRow = record { mandate_id = mandate; ctx = ctx; at = at } in
      let times = get_or [] (get g.auth_times mandate) in
      elim (Bool-cases (mandate == m)) [
        | inl here ↦
            let eq = ==_eq mandate m here in
            ground (
              arith,
              same,
              here,
              eq,
              length-keep-snoc (λ a. a.mandate_id == m && leb_ℤ since a.at) t.authorizations row,
              length-keep-snoc (λ x. leb_ℤ since x) times at,
              get-insert g.auth_times mandate m (times ++ at ∷ []),
            )
        | inr other ↦ ground (
          arith,
          same,
          other,
          length-keep-snoc (λ a. a.mandate_id == m && leb_ℤ since a.at) t.authorizations row,
          get-insert g.auth_times mandate m (times ++ at ∷ []),
        )
      ]

  read_reserved-row :
      (t : Tables Decimal Json) (id : MandateId) (m : Money Decimal)
      → read_reserved t id ≡ ok (some m)
      → (row : ReservationRow Decimal) × (get t.reservations id ≡ some row)
        × (money_from_sql row.amount row.currency ≡ ok m)
  unfolding read_reserved
  read_reserved-row t id m h = elim (Option-cases (get t.reservations id)) [
    | inl missing ↦ absurd (ground (arith, h, missing))
    | inr (row, found) ↦ (row, found, ground (arith, h, found))
  ]

  set_amount-SameReserved :
      (t : Tables Decimal Json) (g : Inner Decimal) (id : MandateId) (m next : Money Decimal)
      → SameReserved t g
      → get g.reserved id ≡ some m
      → next.currency ≡ m.currency
      → SameReserved (set_amount t id next) (record g { reserved = insert g.reserved id next })
  unfolding set_amount read_reserved
  set_amount-SameReserved t g id m next same held currency k =
      let (row, found, read) = read_reserved-row t id m (same id ∙ ap ok held) in
      let (amounts, currencies, typed) = money_from_sql-ok row.amount row.currency m read in
      let kept : IsCurrency next.currency = subst IsCurrency (sym (currency ∙ currencies)) typed in
      ground (
        arith,
        same k,
        found,
        get-insert t.reservations id k (record row { amount = next.amount }),
        get-insert g.reserved id k next,
        money_from_sql-money next kept,
        currency,
        currencies,
      )

module _ {Decimal : Type 0} ⦃ops : DecimalOps Decimal⦄ where
  money_sub-currency : (a b c : Money Decimal) → money_sub a b ≡ ok c → c.currency ≡ a.currency
  unfolding money_sub ensure_same_currency
  money_sub-currency a b c h = ground arith

module _ {Decimal Json : Type 0} ⦃ops : DecimalOps Decimal⦄ where
  -- A release that succeeds on the tables succeeds on the in-memory store.
  pub release-SameReserved :
      (t t' : Tables Decimal Json) (g : Inner Decimal)
      (release : Option (MandateId × Money Decimal))
      → SameReserved t g
      → write_release t release ≡ ok t'
      → (g' : Inner Decimal) × (apply_release g release ≡ ok g') × SameReserved t' g'
  unfolding write_release apply_release release_reservation
  release-SameReserved t t' g none same h =
      (g, refl, subst (λ (x : Tables Decimal Json). SameReserved x g) (ok_injective h) same)
  release-SameReserved t t' g (some (id, amount)) same h = elim (Option-cases (get g.reserved id)) [
    | inl missing ↦ absurd (ground (arith, h, same id, missing))
    | inr (m, held) ↦ elim (Result-cases (money_sub m amount)) [
      | inr (failure, stuck) ↦ absurd (ground (arith, h, same id, held, stuck))
      | inl (next, left) ↦ elim (Bool-cases (is_negative next)) [
        | inl below ↦ absurd (ground (arith, h, same id, held, left, below))
        | inr above ↦
            let g' = record g { reserved = insert g.reserved id next } in
            let moved : set_amount t id next ≡ t' = ground (arith, h, same id, held, left, above) in
            (
              g',
              ground (arith, held, left, above),
              subst (λ (x : Tables Decimal Json). SameReserved x g') moved
                  (set_amount-SameReserved t g id m next same held
                    (money_sub-currency m amount next left)),
            )
      ]
    ]
  ]

  pub release-Kept :
      (t t' : Tables Decimal Json) (release : Option (MandateId × Money Decimal))
      → write_release t release ≡ ok t'
      → Kept t' t × (t'.contexts ≡ t.contexts)
  unfolding write_release set_amount
  release-Kept t t' release h = ground arith

module _ {Decimal Json : Type 0} ⦃sql : Sql Decimal Json⦄ ⦃hex : Hex⦄ where
  pub create-Kept :
      (t t' : Tables Decimal Json) (ctx : ContextId)
      (create : Option (MandateId × Hash32 × Text × Money Decimal))
      → write_create t ctx create ≡ ok t'
      → Kept t' t × (t'.reservations ≡ t.reservations)
  unfolding write_create
  create-Kept t t' ctx create h = ground arith

  pub update-Kept :
      (t : Tables Decimal Json) (ctx : ContextId) (body : EventBody Decimal)
      → Kept (write_update t ctx body) t × ((write_update t ctx body).reservations ≡ t.reservations)
  unfolding write_update
  update-Kept t ctx body = ground arith

  module _ ⦃dec : HexDecode⦄ ⦃laws : HexLaws⦄ where
    pub create-SameRecords :
        (t t' : Tables Decimal Json) (g : Inner Decimal) (ctx : ContextId)
        (create : Option (MandateId × Hash32 × Text × Money Decimal))
        → CreatesTyped ctx create
        → SameRecords t g
        → write_create t ctx create ≡ ok t'
        → SameRecords t' (apply_new_record g ctx (created_record ctx create))
    unfolding write_create apply_new_record read_record
    create-SameRecords t t' g ctx none typed same h c =
        subst (λ (x : Tables Decimal Json). read_record x c ≡ ok (get g.records c)) (ok_injective h)
          (same c)
    create-SameRecords t t' g ctx (some (mandate, cart_hash, merchant, amount)) (a, b, d, e, f) same
          h c =
        ground (
          arith,
          same c,
          get-insert t.contexts ctx c (new_row ctx (mandate, cart_hash, merchant, amount)),
          get-insert g.records ctx c (record_for ctx (mandate, cart_hash, merchant, amount)),
          record_from_row-new_row ctx mandate cart_hash merchant amount a b d e f,
        )

    read_record-none :
        (t : Tables Decimal Json) (c : ContextId)
        → read_record t c ≡ ok none
        → get t.contexts c ≡ none
    unfolding read_record
    read_record-none t c h = ground (arith, h)

    read_record-row :
        (t : Tables Decimal Json) (c : ContextId) (r : Record Decimal)
        → read_record t c ≡ ok (some r)
        → (row : ContextRow Decimal) × (get t.contexts c ≡ some row) × (record_from_row row ≡ ok r)
    unfolding read_record
    read_record-row t c r h = elim (Option-cases (get t.contexts c)) [
      | inl missing ↦ absurd (ground (arith, h, missing))
      | inr (row, found) ↦ (row, found, ground (arith, h, found))
    ]

    pub update-SameRecords :
        (t : Tables Decimal Json) (g : Inner Decimal) (ctx : ContextId) (body : EventBody Decimal)
        → IsTyped ctx body
        → SameRecords t g
        → SameRecords (write_update t ctx body) (apply_update g ctx body)
    unfolding write_update apply_update read_record
    update-SameRecords t g ctx body typed same c = elim (Option-cases (get g.records ctx)) [
      | inl missing ↦
          ground (arith, same c, missing, read_record-none t ctx (same ctx ∙ ap ok missing))
      | inr (r, held) ↦
          let (row, found, read) = read_record-row t ctx r (same ctx ∙ ap ok held) in
          ground (
            arith,
            same c,
            held,
            found,
            read,
            get-insert t.contexts ctx c (update_row body row),
            get-insert g.records ctx c (update_record body r),
            record_from_row-update_row ctx body row r typed read,
          )
    ]
