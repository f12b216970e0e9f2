-- ===== src/X402/Assets.antt =====
-- The tokens that the adapter can price (crates/ml-adapters/src/x402/assets.rs).
use mandate_ledger.Prelude.{
  ℕ, ◌&&◌, [], Option, none, some, Result, ok, err, find_map, if◌then◌else◌, ◌==◌, list_eq, nat_eq,
  pair_eq,
}
use mandate_ledger.Prelude.Map.{Map, get, insert}
use mandate_ledger.Text.{Text, codes}
use mandate_ledger.Money.{Currency}
use mandate_ledger.X402.Types.{ChainId, Address}

pub record Asset : Type 0 where
  pub symbol : Currency
  pub decimals : ℕ
  pub domain_name : Text
  pub domain_version : Text

-- `HashMap<(ChainId, Address), Asset>`
abbrev pub AssetRegistry : Type 0
AssetRegistry = Map (ChainId × Address) Asset

pub data RegistryError : Type 0 where
  duplicate_contract : ChainId → Address → RegistryError
  duplicate_symbol : ChainId → Text → Address → RegistryError

-- `usdc`: six decimals, version 2 of the domain.
unfoldable pub usdc : Text → Asset
usdc domain_name = record {
  symbol = codes "USDC";
  decimals = 6;
  domain_name = domain_name;
  domain_version = codes "2";
}

-- `AssetRegistry::new`
abbrev pub no_assets : AssetRegistry
no_assets = []

-- `AssetRegistry::get`
unfoldable pub get_asset : AssetRegistry → ChainId → Address → Option Asset
unfolding get
get_asset self chain contract = get self (chain, contract)

-- The contract of an entry on that chain with that symbol: what `find` looks for.
unfoldable pub has_symbol : ChainId → Currency → (ChainId × Address) × Asset → Option Address
has_symbol chain symbol ((c, contract), known) =
    if c == chain && known.symbol == symbol then some contract else none

-- `AssetRegistry::with_asset`
unfoldable pub with_asset :
    AssetRegistry → ChainId → Address → Asset → Result RegistryError AssetRegistry
unfolding get insert has_symbol
with_asset self chain contract asset = elim (get self (chain, contract)) [
  | some known ↦ err (duplicate_contract chain contract)
  | none ↦ elim (find_map (has_symbol chain asset.symbol) self) [
    | some existing ↦ err (duplicate_symbol chain asset.symbol existing)
    | none ↦ ok (insert self (chain, contract) asset)
  ]
]
