-- ===== src/Shared/Balance.antt =====
-- rs-shared/src/models/balance.rs
use cex_rs.Base.{ℕ}

pub record Balance : Type 0 where
  pub available : ℕ
  pub locked : ℕ

-- `Balance::default()`
abbrev pub no_funds : Balance
no_funds = record { available = 0; locked = 0 }
