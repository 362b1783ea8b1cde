-- ===== src/Engine/Order/Next.antt =====
-- The steps of `handle_order` that give out no identifier.
use cex_rs.Base.{ℕ, ◌≡◌, refl, ◌∙◌, String, Bool, some, List, [], ◌∷◌, nat_eq, string_eq, arith}
use cex_rs.Base.Word.{sub64}
use cex_rs.Book.State.{Orderbook}
use cex_rs.Book.Types.{bid, ask, Trade, MatchResult, trade, order_accepted}
use cex_rs.Engine.State.{EngineState, set_orderbook, usd_mut, symbol_mut, asset_mut}
use cex_rs.Engine.Fill.{apply_fill}
use cex_rs.Engine.Order.Limit.{reconcile}
use cex_rs.Engine.Order.Settle.{
  Order, Settlement, settle_trade, settle_results, unlock_usd, unlock_asset,
}

pub set_orderbook-next :
    (asset : String) (b : Orderbook) (s : EngineState)
    → (set_orderbook asset b s).next_order_id ≡ s.next_order_id
unfolding set_orderbook
set_orderbook-next asset b s = ground arith

apply_fill-next :
    (s : EngineState) (asset : String) (t : Trade)
    → (apply_fill s asset t).0.next_order_id ≡ s.next_order_id
unfolding apply_fill asset_mut symbol_mut usd_mut
apply_fill-next s asset t = ground arith

pub settle_results-next :
    (publisher : Bool) (o : Order) (results : List MatchResult) (r : Settlement)
    → (settle_results publisher o results r).state.next_order_id ≡ r.state.next_order_id
unfolding settle_results settle_trade
settle_results-next publisher o [] r = refl
settle_results-next publisher o (trade t ∷ results) r =
    settle_results-next publisher o results (settle_trade publisher o t r)
    ∙ apply_fill-next r.state o.asset t
settle_results-next publisher o (order_accepted acc ∷ results) r =
    settle_results-next publisher o results (record r { resting_order = some acc })

pub unlock_usd-next :
    (user_id amount : ℕ) (s : EngineState)
    → (unlock_usd user_id amount s).next_order_id ≡ s.next_order_id
unfolding unlock_usd usd_mut
unlock_usd-next user_id amount s = ground arith

pub unlock_asset-next :
    (user_id amount : ℕ) (asset : String) (s : EngineState)
    → (unlock_asset user_id asset amount s).next_order_id ≡ s.next_order_id
unfolding unlock_asset asset_mut symbol_mut
unlock_asset-next user_id amount asset s = ground arith

pub reconcile-next :
    (o : Order) (amount : ℕ) (r : Settlement)
    → (reconcile o amount r).next_order_id ≡ r.state.next_order_id
unfolding reconcile
reconcile-next o amount r =
    elim o.side
      as (λ u. (reconcile (record o { side = u }) amount r).next_order_id ≡ r.state.next_order_id) [
        | bid ↦ unlock_usd-next o.user_id _ r.state
        | ask ↦
            ground (arith, unlock_asset-next o.user_id (sub64 o.qty r.filled_qty) o.asset r.state)
      ]
