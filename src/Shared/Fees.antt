-- ===== src/Shared/Fees.antt =====
-- The fee schedule of rs-shared/src/models/execution.rs, in basis points.
use cex_rs.Base.{ℕ, ◌/◌, String, Option, none, some}
use cex_rs.Base.Text.{parse_u64}
use cex_rs.Base.Word.{mul64}

pub record FeeSchedule : Type 0 where
  pub maker_fee_bps : ℕ
  pub taker_fee_bps : ℕ

-- `std::env::var(..).ok()`, parsed, or 0.
unfoldable pub rate_from : Option String → ℕ
rate_from none = 0
rate_from (some s) = elim (parse_u64 s) [ none ↦ 0 | some n ↦ n ]

-- The values of MAKER_FEE_BPS and TAKER_FEE_BPS, where they are set.
unfoldable pub from_env : (maker taker : Option String) → FeeSchedule
from_env maker taker = record { maker_fee_bps = rate_from maker; taker_fee_bps = rate_from taker }

unfoldable pub calc_maker_fee : FeeSchedule → ℕ → ℕ
calc_maker_fee fees quote_amount = mul64 quote_amount fees.maker_fee_bps / 10000

unfoldable pub calc_taker_fee : FeeSchedule → ℕ → ℕ
calc_taker_fee fees quote_amount = mul64 quote_amount fees.taker_fee_bps / 10000
