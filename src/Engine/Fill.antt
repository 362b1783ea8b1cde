-- ===== src/Engine/Fill.antt =====
-- The balances around a trade: locking, `apply_fill`, and giving back what is not used, of
-- rs-engine/src/handlers/order.rs.
pub mod Totals
pub mod Conserved
use cex_rs.Base.{ℕ, ◌-◌, String, Bool, true, false, ltb, if◌then◌else◌}
use cex_rs.Base.Word.{add64, sub64, mul64}
use cex_rs.Shared.Balance.{Balance}
use cex_rs.Shared.Fees.{FeeSchedule, calc_maker_fee, calc_taker_fee}
use cex_rs.Book.Types.{Side, bid, ask, Trade}
use cex_rs.Engine.State.{EngineState, usd_mut, asset_mut}

-- `available -= amount; locked += amount`
abbrev pub lock : ℕ → Balance → Balance
lock amount b = record { available = sub64 b.available amount; locked = add64 b.locked amount }

-- `locked -= amount; available += amount`
abbrev pub unlock : ℕ → Balance → Balance
unlock amount b = record { available = add64 b.available amount; locked = sub64 b.locked amount }

abbrev pub add_available : ℕ → Balance → Balance
add_available amount b = record b { available = add64 b.available amount }

abbrev pub sub_locked : ℕ → Balance → Balance
sub_locked amount b = record b { locked = sub64 b.locked amount }

-- (buyer_fee, seller_fee): the taker's side pays the taker fee.
unfoldable pub fill_fees : FeeSchedule → Side → ℕ → ℕ × ℕ
fill_fees fees bid value = (calc_taker_fee fees value, calc_maker_fee fees value)
fill_fees fees ask value = (calc_maker_fee fees value, calc_taker_fee fees value)

-- The new state and (buyer_fee, seller_fee).
unfoldable pub apply_fill : EngineState → String → Trade → EngineState × (ℕ × ℕ)
apply_fill s asset t =
    let value = mul64 t.price t.qty in
    let buyer_fee = (fill_fees s.fee_schedule t.taker_side value).0 in
    let seller_fee = (fill_fees s.fee_schedule t.taker_side value).1 in
    let s1 = usd_mut t.buyer (sub_locked (add64 value buyer_fee)) s in
    let s2 = asset_mut t.buyer asset (add_available t.qty) s1 in
    let s3 = asset_mut t.seller asset (sub_locked t.qty) s2 in
    let s4 = usd_mut t.seller (add_available (value - seller_fee)) s3 in
    let total_fee = add64 buyer_fee seller_fee in
    (
      if ltb 0 total_fee then usd_mut 0 (add_available total_fee) s4 else s4,
      (buyer_fee, seller_fee),
    )
