-- ===== src/X402/Registry.antt =====
-- A registry keeps one token for each symbol on a chain, and one entry for each contract.
use mandate_ledger.Prelude.{
  ◌≡◌, sym, ◌∙◌, Bool, false, ◌&&◌, [], ◌∷◌, Option, none, some, Result, ok, err, find_map,
  if◌then◌else◌, Bool-cases, Option-cases, inl, inr, ok_injective, ◌==◌, ==_eq, eq_==, list_eq,
  nat_eq, pair_eq, arith,
}
use mandate_ledger.Prelude.Map.{get, insert, get-insert}
use mandate_ledger.Money.{Currency}
use mandate_ledger.X402.Types.{ChainId, Address}
use mandate_ledger.X402.Assets.{
  Asset, AssetRegistry, RegistryError, get_asset, has_symbol, with_asset,
}

-- On one chain, one symbol is one token.
abbrev pub HasOneToken : AssetRegistry → Type 0
HasOneToken m =
    (chain : ChainId) (c d : Address) (a b : Asset)
    → get_asset m chain c ≡ some a
    → get_asset m chain d ≡ some b
    → a.symbol ≡ b.symbol
    → c ≡ d

same_asset : {a b : Asset} → some a ≡ some b → a ≡ b
same_asset h = cc

not_found : {A : Type 0} {a : A} → ◌≡◌ {A = Option A} none (some a) → ⊥
not_found h = cc

-- No entry on the chain has the symbol that was looked for in vain.
absent :
    (m : AssetRegistry) (chain : ChainId) (symbol : Currency) (c : Address) (a : Asset)
    → find_map (has_symbol chain symbol) m ≡ none
    → get m (chain, c) ≡ some a
    → (a.symbol == symbol) ≡ false
unfolding get has_symbol
absent [] chain symbol c a h k = cc
absent (((e, d), known) ∷ m) chain symbol c a h k = ground (arith, absent m chain symbol c a)

abbrev pub is_entry : ChainId → Address → ChainId → Address → Bool
is_entry chain contract c d = chain == c && contract == d

with_asset-insert :
    (self after : AssetRegistry) (chain : ChainId) (contract : Address) (asset : Asset)
    → with_asset self chain contract asset ≡ ok after
    → (find_map (has_symbol chain asset.symbol) self ≡ none)
      × (after ≡ insert self (chain, contract) asset)
unfolding with_asset
with_asset-insert self after chain contract asset h =
    elim (Option-cases (get self (chain, contract))) [
      | inr (known, taken) ↦ absurd (refused (rw (taken, with_asset) at h))
      | inl free ↦ elim (Option-cases (find_map (has_symbol chain asset.symbol) self)) [
        | inr (existing, named) ↦ absurd (refused (rw named at (rw (free, with_asset) at h)))
        | inl unnamed ↦ (unnamed, sym (ok_injective (rw unnamed at (rw (free, with_asset) at h))))
      ]
    ]
  where
    refused :
        {m : AssetRegistry} {e : RegistryError}
        → ◌≡◌ {A = Result RegistryError AssetRegistry} (err e) (ok m)
        → ⊥
    refused x = cc

get_asset-insert :
    (self : AssetRegistry) (chain c : ChainId) (contract d : Address) (asset : Asset)
    → get_asset (insert self (chain, contract) asset) c d
      ≡ (if is_entry chain contract c d then some asset else get_asset self c d)
unfolding get_asset
get_asset-insert self chain c contract d asset = get-insert self (chain, contract) (c, d) asset

-- An entry of the grown registry with the new symbol on that chain is the new one.
newest :
    (self : AssetRegistry) (chain : ChainId) (contract d : Address) (asset b : Asset)
    → find_map (has_symbol chain asset.symbol) self ≡ none
    → (if is_entry chain contract chain d then some asset else get_asset self chain d) ≡ some b
    → asset.symbol ≡ b.symbol
    → contract ≡ d
unfolding get_asset
newest self chain contract d asset b unnamed h same = ground (
  arith,
  absent self chain asset.symbol d b,
  ==_eq contract d,
  eq_== b.symbol asset.symbol (sym same),
)

one_after :
    (self : AssetRegistry) (chain : ChainId) (contract : Address) (asset : Asset) (chain' : ChainId)
    (c d : Address) (a b : Asset)
    → HasOneToken self
    → find_map (has_symbol chain asset.symbol) self ≡ none
    → (if is_entry chain contract chain' c then some asset else get_asset self chain' c) ≡ some a
    → (if is_entry chain contract chain' d then some asset else get_asset self chain' d) ≡ some b
    → a.symbol ≡ b.symbol
    → c ≡ d
one_after self chain contract asset chain' c d a b one unnamed ha hb same =
    elim (Bool-cases (chain == chain')) [
      | inr other ↦ one chain' c d a b (rw other at ha) (rw other at hb) same
      | inl here ↦
          let e : chain ≡ chain' = ==_eq chain chain' here in
          ground (
            arith,
            one chain' c d a b,
            newest self chain contract d asset b unnamed,
            newest self chain contract c asset a unnamed,
            ==_eq contract c,
            ==_eq contract d,
          )
    ]

-- A token that joins a registry is found under its contract, every other entry stays as it was, and
-- on each chain a symbol still names one token.
pub with_asset-HasOneToken :
    (self after : AssetRegistry) (chain : ChainId) (contract : Address) (asset : Asset)
    → HasOneToken self
    → with_asset self chain contract asset ≡ ok after
    → ((c : ChainId) (d : Address)
        → get_asset after c d
          ≡ (if is_entry chain contract c d then some asset else get_asset self c d))
      × HasOneToken after
with_asset-HasOneToken self after chain contract asset one h =
    let w = with_asset-insert self after chain contract asset h in
    rw w.1 (get_asset-insert_of, one_of w.0)
  where
    get_asset-insert_of :
        (c : ChainId) (d : Address)
        → get_asset (insert self (chain, contract) asset) c d
          ≡ (if is_entry chain contract c d then some asset else get_asset self c d)
    get_asset-insert_of c d = get_asset-insert self chain c contract d asset

    one_of :
        find_map (has_symbol chain asset.symbol) self ≡ none
        → HasOneToken (insert self (chain, contract) asset)
    one_of unnamed = λ chain' c d a b ha hb.
        one_after self chain contract asset chain' c d a b one unnamed
          (sym (get_asset-insert_of chain' c) ∙ ha) (sym (get_asset-insert_of chain' d) ∙ hb)
