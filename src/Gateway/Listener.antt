-- ===== src/Gateway/Listener.antt =====
-- rs-gateway/src/ws/listener.rs: what an execution event sends to the WebSocket clients.
pub mod Reaches
use cex_rs.Base.{ℕ, String, Option, none, some, List, [], ◌∷◌, if◌then◌else◌, ◌==◌, nat_eq}
use cex_rs.Base.Int.{ℤ}
use cex_rs.Base.Text.{to_uppercase, concat}
use cex_rs.Shared.Events.{
  ExecutionEvent, OrderCreated, TradeExecuted, CancelledOrder, DepthUpdated, order_created,
  trade_executed, order_cancelled, funding_executed, depth_updated,
}
use cex_rs.Shared.Ws.{WsServerMsg, TradeTick, OrderUpdate, trade, depth, order_update}
use cex_rs.Engine.Dispatch.{text_or_default}
use cex_rs.Gateway.Hub.{BroadcasterHub, broadcast_topic, send_private}
use cex_rs.Gateway.Ledger.Worker.{ExecutionRecord}

unfoldable pub trade_msg : ℤ → TradeExecuted → WsServerMsg
trade_msg timestamp e = trade (record {
  market = e.market;
  maker_order_id = e.maker_order_id;
  taker_order_id = e.taker_order_id;
  price = e.price;
  qty = e.qty;
  quote_amount = e.quote_amount;
  timestamp = timestamp;
})

unfoldable pub buyer_update : TradeExecuted → WsServerMsg
buyer_update e = order_update (record {
  order_id = e.taker_order_id;
  market = e.market;
  side = "bid";
  price = e.price;
  remaining_qty = e.taker_remaining_qty;
  status = if e.taker_remaining_qty == 0 then "filled" else "partially_filled";
})

unfoldable pub seller_update : TradeExecuted → WsServerMsg
seller_update e = order_update (record {
  order_id = e.maker_order_id;
  market = e.market;
  side = "ask";
  price = e.price;
  remaining_qty = e.maker_remaining_qty;
  status = if e.maker_remaining_qty == 0 then "filled" else "partially_filled";
})

unfoldable pub created_update : OrderCreated → WsServerMsg
created_update e = order_update (record {
  order_id = e.order_id;
  market = e.market;
  side = e.side;
  price = e.price;
  remaining_qty = e.remaining_qty;
  status = e.status;
})

unfoldable pub cancelled_update : CancelledOrder → WsServerMsg
cancelled_update e = order_update (record {
  order_id = e.order_id;
  market = "UNKNOWN";
  side = "unknown";
  price = 0;
  remaining_qty = e.remaining_qty;
  status = "cancelled";
})

-- `encode` is `serde_json::to_string`.
module _ (encode : WsServerMsg → Option String) where
  -- The `match` of the listener. `timestamp` is the clock's; metrics are left out.
  unfoldable pub forward : ℤ → ExecutionEvent → BroadcasterHub → BroadcasterHub
  forward timestamp (trade_executed e) hub = send_private encode e.seller_id (seller_update e) (
      send_private encode e.buyer_id (buyer_update e) (
        broadcast_topic encode (concat "trades:" (to_uppercase e.market)) (trade_msg timestamp e)
          hub))
  forward timestamp (order_created e) hub = send_private encode e.user_id (created_update e) hub
  forward timestamp (order_cancelled e) hub = send_private encode e.user_id (cancelled_update e) hub
  forward timestamp (funding_executed e) hub = hub
  forward timestamp (depth_updated e) hub =
      broadcast_topic encode (concat "depth:" (to_uppercase e.market))
        (depth (record { market = e.market; bids = e.bids; asks = e.asks })) hub

  unfoldable pub forward_decoded : ℤ → Option ExecutionEvent → BroadcasterHub → BroadcasterHub
  forward_decoded timestamp none hub = hub
  forward_decoded timestamp (some e) hub = forward timestamp e hub

  -- The loop over the records of a read, with the times at which they are handled: `last_id` and
  -- the hub. `decode` is `serde_json::from_str`.
  unfoldable pub forward_records :
      (String → Option ExecutionEvent)
      → List (ExecutionRecord × ℤ)
      → String × BroadcasterHub
      → String × BroadcasterHub
  forward_records decode [] (last_id, hub) = (last_id, hub)
  forward_records decode ((r, timestamp) ∷ rs) (last_id, hub) = forward_records decode rs (
    r.id,
    elim r.payload [
      | none ↦ hub
      | some t ↦ forward_decoded timestamp (decode (text_or_default t)) hub
    ],
  )
