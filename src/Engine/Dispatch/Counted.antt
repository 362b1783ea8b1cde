-- ===== src/Engine/Dispatch/Counted.antt =====
-- An event takes at most one identifier.
use cex_rs.Base.{
  ℕ, Bool, true, false, String, Option, none, some, arith, nat_eq, ◌==◌, string_eq, if◌then◌else◌,
  Outcome, done, panic, hang, Result, ok, err,
}
use cex_rs.Book.Types.{
  OrderCancelled, OrderbookError, order_not_found, not_order_owner, invalid_price, invalid_quantity,
}
use cex_rs.Book.State.{Orderbook}
use cex_rs.Book.Orders.{cancel_order}
use cex_rs.Shared.Requests.{CancelMsg}
use cex_rs.Engine.State.{EngineState, reset, usd_mut, symbol_mut, asset_mut}
use cex_rs.Engine.Account.{open_account, handle_signup, handle_onramp, handle_deposit, handle_reset}
use cex_rs.Engine.Cancel.{
  Found, or_cancel, cancel_error, cancel_eth, cancel_btc, find_and_cancel, refund_cancelled,
  finish_cancel, handle_cancel,
}
use cex_rs.Engine.Dispatch.{Decoder, Effect, on_message, dispatch_event}
use cex_rs.Engine.Order.Counted.{Counts, Counts-refl, handle_order-IsCounted}
use cex_rs.Engine.Order.Market.{Floats}
use cex_rs.Engine.Order.Placed.{OnDone, OnDone-bind}

module _ (s : EngineState) where
  abbrev pub IsCounted : Effect → Type 0
  IsCounted = OnDone (λ r. Counts s r.0)

  abbrev FoundCounted : Outcome Found → Type 0
  FoundCounted = OnDone (λ f. Counts s f.0)

  or_cancel-FoundCounted :
      (attempt : Outcome (Orderbook × Result OrderCancelled OrderbookError)) (asset : String)
      (write : Orderbook → EngineState) (otherwise : EngineState → Outcome Found)
      → ((b : Orderbook) → Counts s (write b))
      → ((s' : EngineState) → Counts s s' → FoundCounted (otherwise s'))
      → FoundCounted (or_cancel attempt asset write otherwise)
  or_cancel-FoundCounted (done (b, ok c)) asset write otherwise k h = k b
  or_cancel-FoundCounted (done (b, err e)) asset write otherwise k h = h (write b) (k b)
  or_cancel-FoundCounted panic asset write otherwise k h = tt
  or_cancel-FoundCounted hang asset write otherwise k h = tt

  module _ (order_id user_id : ℕ) where
    cancel_eth-FoundCounted :
        (s1 : EngineState) → Counts s s1 → FoundCounted (cancel_eth order_id user_id s1)
    unfolding cancel_eth
    cancel_eth-FoundCounted s1 k =
        or_cancel-FoundCounted (cancel_order order_id user_id s1.eth_orderbook) "eth"
          (λ b. record s1 { eth_orderbook = b }) (λ s'. done (s', err (cancel_error s' order_id)))
          (λ b. record { once = k.once }) (λ s' k'. k')

    cancel_btc-FoundCounted :
        (s1 : EngineState) → Counts s s1 → FoundCounted (cancel_btc order_id user_id s1)
    unfolding cancel_btc
    cancel_btc-FoundCounted s1 k =
        or_cancel-FoundCounted (cancel_order order_id user_id s1.btc_orderbook) "btc"
          (λ b. record s1 { btc_orderbook = b }) (cancel_eth order_id user_id)
          (λ b. record { once = k.once }) cancel_eth-FoundCounted

    find_and_cancel-FoundCounted : FoundCounted (find_and_cancel order_id user_id s)
    unfolding find_and_cancel
    find_and_cancel-FoundCounted =
        or_cancel-FoundCounted (cancel_order order_id user_id s.sol_orderbook) "sol"
          (λ b. record s { sol_orderbook = b }) (cancel_btc order_id user_id)
          (λ b. record { once = omega arith }) cancel_btc-FoundCounted

  refund-Counts :
      (c : OrderCancelled) (asset : String) (s1 : EngineState)
      → Counts s s1
      → Counts s (refund_cancelled c asset s1)
  unfolding refund_cancelled usd_mut asset_mut symbol_mut
  refund-Counts c asset s1 k = record { once = ground (arith, k.once) }

  finish_cancel-IsCounted :
      (publisher : Bool) (msg : CancelMsg) (f : Found)
      → Counts s f.0
      → IsCounted (finish_cancel publisher msg f)
  unfolding finish_cancel
  finish_cancel-IsCounted publisher msg (s1, ok (c, asset)) k = refund-Counts c asset s1 k
  finish_cancel-IsCounted publisher msg (s1, err order_not_found) k = k
  finish_cancel-IsCounted publisher msg (s1, err not_order_owner) k = k
  finish_cancel-IsCounted publisher msg (s1, err invalid_price) k = tt
  finish_cancel-IsCounted publisher msg (s1, err invalid_quantity) k = tt

  handle_cancel-IsCounted :
      (publisher : Bool) (msg : CancelMsg) → IsCounted (handle_cancel publisher msg s)
  unfolding handle_cancel
  handle_cancel-IsCounted publisher msg =
      OnDone-bind (λ f. Counts s f.0) (λ r. Counts s r.0)
        (find_and_cancel msg.order_id msg.user_id s) (finish_cancel publisher msg)
        (find_and_cancel-FoundCounted msg.order_id msg.user_id)
        (finish_cancel-IsCounted publisher msg)

  if-IsCounted :
      (c : Bool) (x y : Effect) → IsCounted x → IsCounted y → IsCounted (if c then x else y)
  if-IsCounted true x y a b = a
  if-IsCounted false x y a b = b

  on_message-IsCounted :
      {M : Type 0} (m : Option M) (handler : M → Effect)
      → ((msg : M) → IsCounted (handler msg))
      → IsCounted (on_message m s handler)
  on_message-IsCounted none handler h = Counts-refl s
  on_message-IsCounted (some msg) handler h = h msg

  pub dispatch_event-IsCounted :
      (floats : Floats) (decode : Decoder floats.F) (publisher : Bool) (channel payload : String)
      → IsCounted (dispatch_event floats decode s publisher channel payload)
  unfolding dispatch_event handle_signup open_account handle_onramp usd_mut handle_deposit
      symbol_mut handle_reset reset
  dispatch_event-IsCounted floats decode publisher channel payload =
      if-IsCounted (channel == "new-signup") _ _
        (on_message-IsCounted (decode.signup payload) _ (λ msg. record { once = omega arith }))
        (if-IsCounted (channel == "onramp") _ _
          (on_message-IsCounted (decode.onramp payload) _ (λ msg. record { once = omega arith }))
          (if-IsCounted (channel == "deposite") _ _
            (on_message-IsCounted (decode.deposit payload) _ (λ msg. record { once = omega arith }))
            (if-IsCounted (channel == "balance-request") _ _
              (on_message-IsCounted (decode.balance payload) _ (λ msg. Counts-refl s))
              (if-IsCounted (channel == "incoming-order") _ _
                (on_message-IsCounted (decode.order payload) _
                  (λ msg. handle_order-IsCounted floats publisher msg s))
                (if-IsCounted (channel == "cancel-order") _ _
                  (on_message-IsCounted (decode.cancel payload) _
                    (λ msg. handle_cancel-IsCounted publisher msg))
                  (if-IsCounted (channel == "get-orderbook") _ _
                    (on_message-IsCounted (decode.orderbook payload) _ (λ msg. Counts-refl s))
                    (if-IsCounted (channel == "get-open-orders") _ _
                      (on_message-IsCounted (decode.open_orders payload) _ (λ msg. Counts-refl s))
                      (if-IsCounted (channel == "order-status") _ _
                        (on_message-IsCounted (decode.order_status payload) _
                          (λ msg. Counts-refl s))
                        (if-IsCounted (channel == "reset") _ _
                          (on_message-IsCounted (decode.reset payload) _
                            (λ msg. record { once = omega arith }))
                          (Counts-refl s))))))))))
