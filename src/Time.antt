-- ===== src/Time.antt =====
-- Time as an explicit dependency (crates/ml-core/src/time.rs): seconds as an `i64`.
use mandate_ledger.Prelude.{◌-◌, ◌^◌, if◌then◌else◌}
use mandate_ledger.Prelude.Int.{ℤ, pos, negsuc, ◌-ℤ◌, ltb_ℤ}

abbrev pub Timestamp : Type 0
Timestamp = ℤ

abbrev pub i64_max : ℤ
i64_max = pos (2 ^ 63 - 1)

abbrev pub i64_min : ℤ
i64_min = negsuc (2 ^ 63 - 1)

-- `i64::saturating_sub`
unfoldable pub saturating_sub : ℤ → ℤ → ℤ
saturating_sub a b =
    let d = a -ℤ b in if ltb_ℤ d i64_min then i64_min else if ltb_ℤ i64_max d then i64_max else d

-- `Timestamp::saturating_sub_secs`
unfoldable pub saturating_sub_secs : Timestamp → ℤ → Timestamp
unfolding saturating_sub
saturating_sub_secs at secs = saturating_sub at secs
