-- ===== src/Tests/Wire.antt =====
-- Concrete parameters of the x402 adapter: hexadecimal, a hash, a curve and JSON; and a payment.
use mandate_ledger.Prelude.{
  ℕ, ◌+◌, ◌-◌, ◌*◌, ◌%◌, ◌≡◌, refl, ap, ◌∙◌, &&-true, true-&&, true, false, [], ◌∷◌, ◌++◌, arith,
  Option, none, some, ok, all, length, ltb, leb, if◌then◌else◌, ◌==◌, list_eq, nat_eq, ◌&&◌, ◌/◌,
}
use mandate_ledger.Prelude.Int.{ℤ, pos}
use mandate_ledger.Text.{Text, Bytes, codes}
use mandate_ledger.Text.Codec.{HexDecode, HexLaws, Keccak, is_byte, is_lower_hex}
use mandate_ledger.Hash.{zeros, CanonicalJson}
use mandate_ledger.Ids.{Hex}
use mandate_ledger.Money.{Money}
use mandate_ledger.Rail.{PaymentExpectation}
use mandate_ledger.X402.Types.{Address, PaymentRequirements, X402Cart}
use mandate_ledger.X402.Assets.{Asset, AssetRegistry}
use mandate_ledger.X402.Fields.{DecimalUnits}
use mandate_ledger.X402.Eip3009.{Secp256k1, Authorization}
use mandate_ledger.X402.Payment.{PaymentPayload}
use mandate_ledger.X402.CartTerms.{JsonOps}
use mandate_ledger.X402.Reference.{AuthorizationRef}
use mandate_ledger.X402.Judge.{X402Rail}

abbrev pub hex_char : ℕ → ℕ
hex_char n = if ltb n 10 then 48 + n else 87 + n

abbrev pub encode_bytes : Bytes → Text
encode_bytes [] = []
encode_bytes (b ∷ bytes) = hex_char (b / 16 % 16) ∷ hex_char (b % 16) ∷ encode_bytes bytes

abbrev pub pair_of : Option ℕ → Option ℕ → Option Bytes → Option Bytes
pair_of (some high) (some low) (some rest) = some ((high * 16 + low) ∷ rest)
pair_of _ _ _ = none

abbrev pub digit_of : ℕ → Option ℕ
digit_of c =
    if leb 48 c && leb c 57
    then some (c - 48)
    else if leb 97 c && leb c 102
    then some (c - 87)
    else if leb 65 c && leb c 70
    then some (c - 55)
    else none

abbrev pub decode_text : Text → Option Bytes
decode_text [] = some []
decode_text (c ∷ []) = none
decode_text (c ∷ d ∷ s) = pair_of (digit_of c) (digit_of d) (decode_text s)

instance abbrev pub real_hex : Hex
real_hex = record { encode_hex = encode_bytes }

instance abbrev pub real_decode : HexDecode
real_decode = record { decode_hex = decode_text }

digit_of_char : (n : ℕ) → ltb n 16 ≡ true → digit_of (hex_char n) ≡ some n
digit_of_char n h = ground arith

char_is_hex : (n : ℕ) → ltb n 16 ≡ true → is_lower_hex (hex_char n) ≡ true
unfolding is_lower_hex
char_is_hex n h = ground arith

pair_of-encode :
    (b : ℕ) (rest : Bytes)
    → is_byte b ≡ true
    → pair_of (digit_of (hex_char (b / 16 % 16))) (digit_of (hex_char (b % 16))) (some rest)
      ≡ some (b ∷ rest)
pair_of-encode b rest h =
    rw (digit_of_char (b / 16 % 16) (ground arith))
      (rw (digit_of_char (b % 16) (ground arith)) (ap (λ (x : ℕ). some (x ∷ rest)) (same_byte b h)))
  where
    same_byte : (x : ℕ) → is_byte x ≡ true → x / 16 % 16 * 16 + x % 16 ≡ x
    same_byte x k = ground arith

pub decode_encode :
    (bytes : Bytes) → all is_byte bytes ≡ true → decode_text (encode_bytes bytes) ≡ some bytes
decode_encode [] h = refl
decode_encode (b ∷ bytes) h =
    let both = &&-true (is_byte b) (all is_byte bytes) h in
    ap (pair_of (digit_of (hex_char (b / 16 % 16))) (digit_of (hex_char (b % 16))))
      (decode_encode bytes both.1)
    ∙ pair_of-encode b bytes both.0

pub encode_is_hex : (bytes : Bytes) → all is_lower_hex (encode_bytes bytes) ≡ true
encode_is_hex [] = refl
encode_is_hex (b ∷ bytes) =
    true-&& (is_lower_hex (hex_char (b / 16 % 16))) _ (char_is_hex (b / 16 % 16) (ground arith)) (
      true-&& (is_lower_hex (hex_char (b % 16))) _ (char_is_hex (b % 16) (ground arith))
        (encode_is_hex bytes))

pub encode_length : (bytes : Bytes) → length (encode_bytes bytes) ≡ 2 * length bytes
encode_length [] = refl
encode_length (b ∷ bytes) = omega (arith, encode_length bytes)

abbrev pub real_hex_laws : HexLaws
real_hex_laws = record {
  decode-encode = decode_encode;
  encode_digits = encode_is_hex;
  length-encode = encode_length;
}

abbrev sum : Bytes → ℕ
sum [] = 0
sum (b ∷ bytes) = b + sum bytes

instance abbrev pub sum_keccak : Keccak
sum_keccak = record { keccak = λ bytes. zeros 31 ++ (sum bytes % 256) ∷ [] }

-- A signature recovers to the address of its own bytes.
instance abbrev pub sample_curve : Secp256k1
sample_curve = record {
  is_signature = λ rs. true;
  is_high = λ rs. false;
  recovery_id = λ n. some n;
  recover_from_prehash = λ digest rs id. some (0 ∷ rs);
}

instance abbrev pub atomic_units : DecimalUnits ℤ
atomic_units = record { from_units = λ n scale. some n }

abbrev pub account : ℕ → Address
account n = zeros 19 ++ n ∷ []

abbrev pub address_text : ℕ → Text
address_text n = codes "0x" ++ encode_bytes (account n)

-- A value of JSON: a string, or the `extra` of USDC.
pub data Json : Type 0 where
  string : Text → Json
  usdc_extra : Json

abbrev pub extra_field : Text → Option Json
extra_field k =
    if k == codes "name"
    then some (string (codes "USDC"))
    else if k == codes "version"
    then some (string (codes "2"))
    else none

abbrev pub object_of : Json → Option (Text → Option Json)
object_of (string s) = none
object_of usdc_extra = some extra_field

abbrev pub text_of : Json → Option Text
text_of (string s) = some s
text_of usdc_extra = none

abbrev pub requirement : PaymentRequirements Json
requirement = record {
  scheme = codes "exact";
  network = codes "eip155:84532";
  amount = codes "10000";
  asset = address_text 3;
  pay_to = address_text 5;
  max_timeout_seconds = 60;
  extra = some usdc_extra;
}

abbrev pub x402_document : X402Cart Json
x402_document = record {
  x402_version = 2;
  resource = record {
    url = codes "https://api.example.com/data";
    description = none;
    mime_type = none;
    service_name = none;
    tags = none;
    icon_url = none;
  };
  accepted = requirement;
  extensions = none;
}

instance abbrev pub sample_json : JsonOps Json
sample_json = record {
  as_object = object_of;
  is_null = λ v. false;
  as_str = text_of;
  from_slice = λ bytes. ok (string bytes);
  deserialize_cart = λ v. ok x402_document;
}

instance abbrev pub json_bytes : CanonicalJson Json
json_bytes = record { canonical_json = λ v. ok [] }

abbrev pub usdc_asset : Asset
usdc_asset = record {
  symbol = codes "USDC";
  decimals = 6;
  domain_name = codes "USDC";
  domain_version = codes "2";
}

abbrev pub testnet : AssetRegistry
testnet = ((84532, account 3), usdc_asset) ∷ []

abbrev pub x402_at : ℕ → X402Rail
x402_at now = record {
  rail_id = codes "x402";
  registry = testnet;
  policy = record { confirmations = 3; trust_facilitator = true; expiry_grace = 30 };
  now = pos now;
}

-- The nonce that binds the context whose id is the one character 4.
abbrev pub shop_nonce : Bytes
shop_nonce = zeros 31 ++ 33 ∷ []

abbrev pub shop_auth : Authorization
shop_auth = record {
  from = account 7;
  to = account 5;
  value = 10000;
  valid_after = 0;
  valid_before = 1060;
  nonce = shop_nonce;
}

-- A payment that expires at 1060.
abbrev pub x402_payment : PaymentPayload Json
x402_payment = record {
  x402_version = 2;
  resource = none;
  accepted = requirement;
  payload = record {
    signature = codes "0x" ++ encode_bytes (zeros 63 ++ 7 ∷ 27 ∷ []);
    authorization = record {
      from = address_text 7;
      to = address_text 5;
      value = codes "10000";
      valid_after = codes "0";
      valid_before = codes "1060";
      nonce = codes "0x" ++ encode_bytes shop_nonce;
    };
  };
  extensions = none;
}

abbrev pub shop_reference : AuthorizationRef
shop_reference = record {
  chain = 84532;
  token = account 3;
  from = account 7;
  nonce = shop_nonce;
  valid_before = 1060;
}

abbrev pub usdc_amount : Money ℤ
usdc_amount = record { amount = pos 10000; currency = codes "USDC" }

abbrev pub shop_merchant : Text
shop_merchant = codes "eip155:84532:" ++ address_text 5

abbrev pub shop_expects : Option Text → PaymentExpectation ℤ
shop_expects recorded = record {
  ctx = 4 ∷ [];
  cart_hash = 3 ∷ [];
  amount = usdc_amount;
  merchant = shop_merchant;
  recorded_reference = recorded;
}
