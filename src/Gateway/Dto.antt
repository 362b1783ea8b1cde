-- ===== src/Gateway/Dto.antt =====
-- rs-gateway/src/dto/mod.rs: the bodies of the requests that fund an account or place an order, and
-- their validation.
use cex_rs.Base.{
  ℕ, String, Bool, false, not, ◌&&◌, ◌||◌, Option, none, some, if◌then◌else◌, ◌==◌, nat_eq,
  string_eq, Result, ok, err,
}
use cex_rs.Base.Int.{ℤ, is_pos}
use cex_rs.Base.Text.{to_lowercase, to_uppercase}

pub record OnrampBody : Type 0 where
  pub qty : ℕ

unfoldable pub validate_onramp : OnrampBody → Result (Unit {0}) String
validate_onramp body =
    if body.qty == 0 then err "Onramp quantity must be greater than zero" else ok tt

pub record DepositBody : Type 0 where
  pub qty : ℕ

unfoldable pub validate_deposit : DepositBody → Result (Unit {0}) String
validate_deposit body =
    if body.qty == 0 then err "Deposit quantity must be greater than zero" else ok tt

-- `matches!(asset, "sol" | "btc" | "eth")`
abbrev pub is_listed : String → Bool
is_listed asset = asset == "sol" || asset == "btc" || asset == "eth"

-- `F` is the type of `f64` values, and `out_of_range s` is `s <= 0.0 || s > 50.0`.
module _ (F : Type 0) where
  pub record OrderBody : Type 0 where
    pub asset : String
    pub side : String
    pub order_type : String
    pub price : ℤ
    pub qty : ℤ
    pub slippage_pct : Option F
    pub time_in_force : Option String

  module _ (out_of_range : F → Bool) where
    unfoldable pub slippage_fails : Option F → Bool
    slippage_fails none = false
    slippage_fails (some s) = out_of_range s

    unfoldable pub time_in_force_fails : Option String → Bool
    time_in_force_fails none = false
    time_in_force_fails (some tif) =
        let t = to_uppercase tif in not (t == "GTC") && not (t == "FOK") && not (t == "IOC")

    unfoldable pub validate_order : OrderBody → Result (Unit {0}) String
    validate_order body =
        let otype = to_lowercase body.order_type in
        if not (is_listed (to_lowercase body.asset))
        then err "Supported assets are SOL, BTC, ETH"
        else if not (body.side == "bid") && not (body.side == "ask")
        then err "Side must be 'bid' or 'ask'"
        else if not (otype == "limit") && not (otype == "market")
        then err "Order type must be 'limit' or 'market'"
        else if otype == "limit" && not (is_pos body.price)
        then err "Order price must be positive"
        else if not (is_pos body.qty)
        then err "Order quantity must be positive"
        else if slippage_fails body.slippage_pct
        then err "Slippage percentage must be between 0 and 50"
        else if time_in_force_fails body.time_in_force
        then err "Invalid time in force"
        else ok tt
