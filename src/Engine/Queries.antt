-- ===== src/Engine/Queries.antt =====
-- The handlers that only read: rs-engine/src/handlers/market.rs and the queries of order.rs.
use cex_rs.Base.{
  ℕ, String, Bool, List, [], ◌++◌, Option, none, some, map, ◌==◌, nat_eq, if◌then◌else◌,
}
use cex_rs.Shared.Requests.{OrderbookQueryMsg, OpenOrdersQueryMsg, OrderStatusQueryMsg}
use cex_rs.Shared.Replies.{OpenOrderInfo, OrderbookLevel}
use cex_rs.Book.Types.{Side, bid, ask, Order, UserOrderSnapshot, LevelSnapshot}
use cex_rs.Book.State.{Orderbook, get_order, get_user_orders, get_state}
use cex_rs.Engine.State.{EngineState, get_orderbook}
use cex_rs.Engine.Outputs.{Output, reply, orderbook_reply, open_orders_reply, order_status_reply}

abbrev to_reply_level : LevelSnapshot → OrderbookLevel
to_reply_level l = record { price = l.price; qty = l.qty }

unfoldable pub handle_get_orderbook : Bool → OrderbookQueryMsg → EngineState → List Output
handle_get_orderbook publisher msg s = elim (get_orderbook msg.asset s) [
  | none ↦ reply publisher msg.queue_id (
      orderbook_reply
        (record { identifier = msg.identifier; orderbook = record { bids = []; asks = [] } }))
  | some ob ↦
      let snap = get_state ob in
      reply publisher msg.queue_id (
        orderbook_reply (record {
          identifier = msg.identifier;
          orderbook = record {
            bids = map to_reply_level snap.bids;
            asks = map to_reply_level snap.asks;
          };
        }))
]

abbrev pub side_text : Side → String
side_text bid = "bid"
side_text ask = "ask"

abbrev open_order : String → UserOrderSnapshot → OpenOrderInfo
open_order market o = record {
  order_id = o.order_id;
  user_id = o.user_id;
  side = side_text o.side;
  price = o.price;
  remaining_qty = o.remaining_qty;
  market = market;
}

abbrev open_orders_in : String → Orderbook → ℕ → List OpenOrderInfo
open_orders_in market ob user_id = map (open_order market) (get_user_orders ob user_id)

unfoldable pub handle_get_open_orders : Bool → OpenOrdersQueryMsg → EngineState → List Output
handle_get_open_orders publisher msg s = reply publisher msg.queue_id (
    open_orders_reply (record {
      identifier = msg.identifier;
      orders =
          open_orders_in "SOL_USD" s.sol_orderbook msg.user_id
          ++ open_orders_in "BTC_USD" s.btc_orderbook msg.user_id
          ++ open_orders_in "ETH_USD" s.eth_orderbook msg.user_id;
    }))

abbrev or_found : Option Order → String → Option (Order × String) → Option (Order × String)
or_found none market otherwise = otherwise
or_found (some o) market otherwise = some (o, market)

unfoldable pub find_order : EngineState → ℕ → Option (Order × String)
find_order s order_id = or_found (get_order s.sol_orderbook order_id) "SOL_USD" (
    or_found (get_order s.btc_orderbook order_id) "BTC_USD"
      (or_found (get_order s.eth_orderbook order_id) "ETH_USD" none))

abbrev not_in_book : Bool → OrderStatusQueryMsg → List Output
not_in_book publisher msg = reply publisher msg.queue_id (
    order_status_reply (record {
      identifier = msg.identifier;
      order = none;
      status = none;
      error = some "Order not found in open book";
    }))

unfoldable pub handle_get_order_status : Bool → OrderStatusQueryMsg → EngineState → List Output
handle_get_order_status publisher msg s = elim (find_order s msg.order_id) [
  | none ↦ not_in_book publisher msg
  | some (o, market) ↦
      if o.user_id == msg.user_id
      then reply publisher msg.queue_id (
          order_status_reply (record {
            identifier = msg.identifier;
            order = some (record {
              order_id = o.order_id;
              user_id = o.user_id;
              side = side_text o.side;
              price = o.price;
              remaining_qty = o.remaining_qty;
              market = market;
            });
            status = some "open";
            error = none;
          }))
      else not_in_book publisher msg
]
