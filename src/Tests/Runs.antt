-- ===== src/Tests/Runs.antt =====
-- Runs of the model on the sample data.
use mandate_ledger.Prelude.{◌≡◌, refl}
use mandate_ledger.Ids.{derive}
use mandate_ledger.Tests.Sample.{sum_digest, plain_hex, ctx, mandate, cart, request_key}
use mandate_ledger.Text.{utf8}

derive_run : derive mandate.body.id cart.hash request_key ≡ ctx
unfolding derive utf8
derive_run = refl
