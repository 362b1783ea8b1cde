-- ===== src/Engine/Fill/Conserved.antt =====
-- A trade moves balances and makes or loses nothing.
use native.Mathlib.Nat.{mul-le-mul_left}
use cex_rs.Base.{
  ℕ, ◌+◌, ◌-◌, ◌*◌, ◌/◌, ◌≤◌, ◌≡◌, refl, String, arith, ltb, ◌==◌, nat_eq, string_eq, if◌then◌else◌,
}
use cex_rs.Base.Word.{add64, mul64}
use cex_rs.Base.Text.{to_lowercase}
use cex_rs.Shared.Balance.{Balance}
use cex_rs.Shared.Fees.{FeeSchedule, calc_maker_fee, calc_taker_fee}
use cex_rs.Book.Types.{Side, bid, ask, Trade}
use cex_rs.Engine.State.{EngineState, usd_mut, symbol_mut, asset_mut}
use cex_rs.Engine.Fill.{add_available, sub_locked, fill_fees, apply_fill}
use cex_rs.Engine.Fill.Totals.{
  usd_total, asset_total, Congruent, SameTotals, usd_mut_lem, asset_mut_lem,
}

-- No fee is above the amount it is taken from.
pub record FairFees (fees : FeeSchedule) : Type 0 where
  pub maker : fees.maker_fee_bps ≤ 10000
  pub taker : fees.taker_fee_bps ≤ 10000

-- Also where the product wraps.
fee-le : (value bps : ℕ) → bps ≤ 10000 → mul64 value bps / 10000 ≤ value
fee-le value bps h =
    let bound : value * bps ≤ value * 10000 = mul-le-mul_left value h in omega (arith, bound)

seller_fee-le :
    (fees : FeeSchedule) (side : Side) (value : ℕ)
    → FairFees fees
    → (fill_fees fees side value).1 ≤ value
unfolding fill_fees calc_maker_fee calc_taker_fee
seller_fee-le fees bid value f = fee-le value fees.maker_fee_bps f.maker
seller_fee-le fees ask value f = fee-le value fees.taker_fee_bps f.taker

module _ (user_id : ℕ) (amount : ℕ) (s : EngineState) where
  pub usd_total-added :
      Congruent (usd_total (usd_mut user_id (add_available amount) s)) (usd_total s + amount)
  usd_total-added = omega (arith, usd_mut_lem user_id (add_available amount) s)

  pub usd_total-taken :
      Congruent (usd_total (usd_mut user_id (sub_locked amount) s) + amount) (usd_total s)
  usd_total-taken = omega (arith, usd_mut_lem user_id (sub_locked amount) s)

  abbrev pub share : String → String → ℕ
  share symbol key = if symbol == key then amount else 0

  pub asset_total-added :
      (symbol key : String)
      → Congruent
          (asset_total symbol (symbol_mut user_id key (add_available amount) s))
          (asset_total symbol s + share symbol key)
  asset_total-added symbol key =
      ground (
        arith,
        asset_mut_lem symbol user_id key (add_available amount) s,
        string_eq.agree symbol key,
      )

  pub asset_total-taken :
      (symbol key : String)
      → Congruent
          (asset_total symbol (symbol_mut user_id key (sub_locked amount) s) + share symbol key)
          (asset_total symbol s)
  asset_total-taken symbol key =
      ground
        (arith, asset_mut_lem symbol user_id key (sub_locked amount) s, string_eq.agree symbol key)

-- USD and assets are apart.
pub usd_total-symbol_mut :
    (user_id : ℕ) (key : String) (f : Balance → Balance) (s : EngineState)
    → usd_total (symbol_mut user_id key f s) ≡ usd_total s
unfolding symbol_mut
usd_total-symbol_mut user_id key f s = refl

pub asset_total-usd_mut :
    (symbol : String) (user_id : ℕ) (f : Balance → Balance) (s : EngineState)
    → asset_total symbol (usd_mut user_id f s) ≡ asset_total symbol s
unfolding usd_mut
asset_total-usd_mut symbol user_id f s = refl

-- The steps of `apply_fill`.
module _ (s : EngineState) (buyer seller cost qty proceeds fees : ℕ) (key : String) where
  abbrev s1 : EngineState
  s1 = usd_mut buyer (sub_locked cost) s

  abbrev s2 : EngineState
  s2 = symbol_mut buyer key (add_available qty) s1

  abbrev s3 : EngineState
  s3 = symbol_mut seller key (sub_locked qty) s2

  abbrev s4 : EngineState
  s4 = usd_mut seller (add_available proceeds) s3

  abbrev moved : EngineState
  moved = if ltb 0 fees then usd_mut 0 (add_available fees) s4 else s4

  moved-usd : Congruent (proceeds + fees) cost → Congruent (usd_total moved) (usd_total s)
  moved-usd h =
      let before : Congruent (usd_total s4 + fees) (usd_total s) = omega (
        arith,
        usd_total-taken buyer cost s,
        usd_total-symbol_mut buyer key (add_available qty) s1,
        usd_total-symbol_mut seller key (sub_locked qty) s2,
        usd_total-added seller proceeds s3,
      ) in
      ground (arith, usd_total-added 0 fees s4)

  moved-asset : (symbol : String) → Congruent (asset_total symbol moved) (asset_total symbol s)
  moved-asset symbol =
      let before : Congruent (asset_total symbol s4) (asset_total symbol s) = omega (
        arith,
        asset_total-usd_mut symbol buyer (sub_locked cost) s,
        asset_total-added buyer qty s1 symbol key,
        asset_total-taken seller qty s2 symbol key,
        asset_total-usd_mut symbol seller (add_available proceeds) s3,
      ) in
      ground (arith, asset_total-usd_mut symbol 0 (add_available fees) s4)

-- When no fee is above 10,000 basis points, a trade changes neither the sum of all USD balances
-- nor that of any asset, up to the wrap-around of the arithmetic.
pub apply_fill-SameTotals :
    (s : EngineState) (asset : String) (t : Trade)
    → FairFees s.fee_schedule
    → SameTotals s (apply_fill s asset t).0
unfolding apply_fill asset_mut
apply_fill-SameTotals s asset t fair =
    let value = mul64 t.price t.qty in
    let bound = seller_fee-le s.fee_schedule t.taker_side value fair in
    let buyer_fee = (fill_fees s.fee_schedule t.taker_side value).0 in
    let seller_fee = (fill_fees s.fee_schedule t.taker_side value).1 in
    record {
      usd =
          moved-usd s t.buyer t.seller (add64 value buyer_fee) t.qty (value - seller_fee)
            (add64 buyer_fee seller_fee) (to_lowercase asset) (omega arith);
      asset =
          moved-asset s t.buyer t.seller (add64 value buyer_fee) t.qty (value - seller_fee)
            (add64 buyer_fee seller_fee) (to_lowercase asset);
    }
