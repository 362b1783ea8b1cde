-- ===== src/Shared/Ws.antt =====
-- rs-shared/src/models/ws.rs: the messages of the WebSocket.
use cex_rs.Base.{ℕ, String, Option, List}
use cex_rs.Base.Int.{ℤ}

pub data WsClientMsg : Type 0 where
  subscribe : (channel : String) (market : Option String) → WsClientMsg
  unsubscribe : (channel : String) (market : Option String) → WsClientMsg
  auth : (token : String) → WsClientMsg
  ping : WsClientMsg

pub record TradeTick : Type 0 where
  pub market : String
  pub maker_order_id : ℕ
  pub taker_order_id : ℕ
  pub price : ℕ
  pub qty : ℕ
  pub quote_amount : ℕ
  pub timestamp : ℤ

pub record DepthTick : Type 0 where
  pub market : String
  pub bids : List (ℕ × ℕ)
  pub asks : List (ℕ × ℕ)

pub record OrderUpdate : Type 0 where
  pub order_id : ℕ
  pub market : String
  pub side : String
  pub price : ℕ
  pub remaining_qty : ℕ
  pub status : String

pub data WsServerMsg : Type 0 where
  trade : TradeTick → WsServerMsg
  depth : DepthTick → WsServerMsg
  order_update : OrderUpdate → WsServerMsg
  subscribed : (channel : String) (market : Option String) → WsServerMsg
  unsubscribed : (channel : String) (market : Option String) → WsServerMsg
  authenticated : (user_id : ℕ) → WsServerMsg
  pong : WsServerMsg
  error : (message : String) → WsServerMsg
