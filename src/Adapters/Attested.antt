-- ===== src/Adapters/Attested.antt =====
-- What a native cart's attestation is worth.
use mandate_ledger.Prelude.{
  ◌≡◌, refl, sym, ap, subst, ◌∙◌, inl, inr, true, Option, none, some, Result, ok, err, length,
  Bool-cases, Option-cases, map_err, >>=-ok, ok->>=, map_err-ok, ok_injective, list_eq, nat_eq,
}
use mandate_ledger.Prelude.Map.{get}
use mandate_ledger.Text.{Text, Bytes}
use mandate_ledger.Hash.{Sha256, CanonicalJson, hash_of}
use mandate_ledger.Ids.{new_id, lowercase_trimmed}
use mandate_ledger.Mandate.Body.{Ed25519}
use mandate_ledger.Cart.{
  Cart, Attestation, signed_by, unsigned, new_cart, AdapterError, invalid_id, not_canonical,
}
use mandate_ledger.Adapters.Native.{
  NativeAttestation, NativeCart, NativeCartAdapter, unsigned_cart, new_category, line_count_of,
  cart_signing_bytes, canonical_bytes, sign_cart, check_attestation, normalize_cart,
}

no_attestation :
    {a : Attestation} {e : AdapterError}
    → ◌≡◌ {A = Result AdapterError Attestation} (err e) (ok a)
    → ⊥
no_attestation h = cc

module _ {Decimal Value : Type 0} ⦃json : CanonicalJson (NativeCart Decimal Value)⦄
    ⦃ed : Ed25519⦄ where
  -- The attestation of a cart, and what the adapter makes of it.
  pub data IsAttested (self : NativeCartAdapter) (cart : NativeCart Decimal Value)
      (given : Option NativeAttestation) (made : Attestation) : Type 0 where
    absent : given ≡ none → made ≡ unsigned → IsAttested self cart given made
    verified :
        (a : NativeAttestation) (key bytes : Bytes)
        → given ≡ some a
        → get self a.key_id ≡ some key
        → json.canonical_json (record {
          merchant = cart.merchant;
          total = cart.total;
          category = cart.category;
          items = cart.items;
          attestation = none;
        })
          ≡ ok bytes
        → ed.verify_strict key bytes a.signature ≡ true
        → made ≡ signed_by a.key_id
        → IsAttested self cart given made

  check_attestation-ok :
      (self : NativeCartAdapter) (cart : NativeCart Decimal Value)
      (given : Option NativeAttestation) (made : Attestation)
      → check_attestation self cart given ≡ ok made
      → IsAttested self cart given made
  unfolding check_attestation cart_signing_bytes canonical_bytes
  check_attestation-ok self cart none made h = absent refl (sym (ok_injective h))
  check_attestation-ok self cart (some a) made h = elim (Option-cases (get self a.key_id)) [
    | inl unknown ↦ absurd (no_attestation (rw (unknown, check_attestation) at h))
    | inr (key, known) ↦
        let b = >>=-ok (cart_signing_bytes cart) _ (rw (known, check_attestation) at h) in
        elim (Bool-cases (ed.verify_strict key b.0 a.signature)) [
          | inl good ↦
              verified a key b.0 refl known (map_err-ok not_canonical _ b.1) good
                (sym (ok_injective (rw good at b.2)))
          | inr bad ↦ absurd (no_attestation (rw bad at b.2))
        ]
  ]

  module _ ⦃sha : Sha256⦄ where
    -- A cart that the native adapter makes of a document.
    pub record IsNativeCart (self : NativeCartAdapter) (cart : NativeCart Decimal Value)
        (made : Cart Decimal) : Type 0 where
      pub attested : IsAttested self cart cart.attestation made.attestation
      pub merchant : new_id lowercase_trimmed cart.merchant ≡ ok made.claims.merchant
      pub total : made.claims.total ≡ cart.total
      pub category : new_category cart.category ≡ ok made.claims.category
      pub lines : made.claims.line_count ≡ line_count_of (length cart.items)
      pub raw : canonical_bytes cart ≡ ok made.raw
      pub hash : made.hash ≡ hash_of made.raw

    -- A cart that the native adapter accepts carries the claims and the hash of its document, and is
    -- merchant-signed exactly when it had an attestation, whose key is registered under its id and
    -- whose signature verifies over the merchant, total, category and items alone, which leaves out
    -- the key's id as well as the signature: a bad or unknown signature is never taken as no
    -- signature.
    pub normalize_cart-IsNativeCart :
        (self : NativeCartAdapter) (cart : NativeCart Decimal Value) (made : Cart Decimal)
        → normalize_cart self cart ≡ ok made
        → IsNativeCart self cart made
    unfolding normalize_cart new_cart
    normalize_cart-IsNativeCart self cart made h =
        let m = >>=-ok (map_err invalid_id (new_id lowercase_trimmed cart.merchant)) _ h in
        let a = >>=-ok (check_attestation self cart cart.attestation) _ m.2 in
        let c = >>=-ok (new_category cart.category) _ a.2 in
        let r = >>=-ok (canonical_bytes cart) _ c.2 in
        subst (λ x. IsNativeCart self cart x) (ok_injective r.2)
          (record {
            attested = check_attestation-ok self cart cart.attestation a.0 a.1;
            merchant = map_err-ok invalid_id _ m.1;
            total = refl;
            category = c.1;
            lines = refl;
            raw = r.1;
            hash = refl;
          })

    signed_attestation :
        (self : NativeCartAdapter) (cart signed : NativeCart Decimal Value) (key_id : Text)
        (seed : Bytes)
        → sign_cart cart key_id seed ≡ ok signed
        → get self key_id ≡ some (ed.verifying_key seed)
        → (check_attestation self signed signed.attestation ≡ ok (signed_by key_id))
          × (unsigned_cart signed ≡ unsigned_cart cart)
    unfolding sign_cart check_attestation cart_signing_bytes
    signed_attestation self cart signed key_id seed h known =
        let b = >>=-ok (cart_signing_bytes cart) _ h in
        subst
          (λ (x : NativeCart Decimal Value).
            (check_attestation self x x.attestation ≡ ok (signed_by key_id))
            × (unsigned_cart x ≡ unsigned_cart cart))
          (ok_injective b.2)
          (rw (known, check_attestation) (rw (b.1) (rw (ed.sign_verifies seed b.0) refl)), refl)

    -- A cart signed with a key that the adapter knows under the signature's id is accepted wherever
    -- the unsigned cart is, with the same claims, and as signed by that id.
    pub normalize_cart-sign_cart :
        (self : NativeCartAdapter) (cart signed : NativeCart Decimal Value) (key_id : Text)
        (seed raw : Bytes) (plain : Cart Decimal)
        → normalize_cart self (unsigned_cart cart) ≡ ok plain
        → sign_cart cart key_id seed ≡ ok signed
        → get self key_id ≡ some (ed.verifying_key seed)
        → json.canonical_json signed ≡ ok raw
        → normalize_cart self signed ≡ ok (new_cart raw plain.claims (signed_by key_id))
    unfolding normalize_cart new_cart canonical_bytes
    normalize_cart-sign_cart self cart signed key_id seed raw plain h s known printed =
        let a = signed_attestation self cart signed key_id seed s known in
        let p = normalize_cart-IsNativeCart self (unsigned_cart cart) plain h in
        let same : (C : NativeCart Decimal Value → Type 0)
            → C (unsigned_cart cart)
            → C (unsigned_cart signed) =
          λ C x. subst C (sym a.1) x in
        let total = p.total ∙ sym (ap (λ (x : NativeCart Decimal Value). x.total) a.1) in
        let lines =
          p.lines
          ∙ sym (ap (λ (x : NativeCart Decimal Value). line_count_of (length x.items)) a.1) in
        ok->>= (map_err invalid_id (new_id lowercase_trimmed signed.merchant)) _
          plain.claims.merchant
          (ap (map_err invalid_id)
            (same (λ x. new_id lowercase_trimmed x.merchant ≡ ok plain.claims.merchant) p.merchant))
          (ok->>= (check_attestation self signed signed.attestation) _ (signed_by key_id) a.0 (
            ok->>= (new_category signed.category) _ plain.claims.category
              (same (λ x. new_category x.category ≡ ok plain.claims.category) p.category)
              (ok->>= (canonical_bytes signed) _ raw (ap (map_err not_canonical) printed) (λ i. ok (
                new_cart raw (record plain.claims { total = sym total i; line_count = sym lines i })
                  (signed_by key_id))))))
