-- ===== src/Engine/Outputs.antt =====
-- What the handlers send: the helpers of rs-engine/src/handlers/mod.rs. A send is recorded with its
-- payload before serialisation; without a publisher (in replay) nothing is sent.
use cex_rs.Base.{ℕ, String, Bool, true, false, none, some, List, [], ◌∷◌}
use cex_rs.Base.Text.{concat}
use cex_rs.Shared.Replies.{
  BalanceReply, OrderReply, CancelReply, OpenOrdersReply, OrderStatusReply, OrderbookReply,
  GenericReply,
}
use cex_rs.Shared.Events.{ExecutionEvent}

pub data Reply : Type 0 where
  balance_reply : BalanceReply → Reply
  order_reply : OrderReply → Reply
  cancel_reply : CancelReply → Reply
  open_orders_reply : OpenOrdersReply → Reply
  order_status_reply : OrderStatusReply → Reply
  orderbook_reply : OrderbookReply → Reply
  generic_reply : GenericReply → Reply

-- A push to a reply channel, or an entry of the stream of executions.
pub data Output : Type 0 where
  pushed : String → Reply → Output
  executed : ExecutionEvent → Output

abbrev pub reply : Bool → String → Reply → List Output
reply true queue_id payload = pushed (concat "response-queue" queue_id) payload ∷ []
reply false queue_id payload = []

abbrev pub emit_execution : Bool → ExecutionEvent → List Output
emit_execution true event = executed event ∷ []
emit_execution false event = []

abbrev pub reply_error : Bool → String → String → String → ℕ → List Output
reply_error publisher queue_id identifier error status_code = reply publisher queue_id (
    order_reply (record {
      identifier = identifier;
      order_id = none;
      status = none;
      error = some error;
      status_code = some status_code;
    }))

abbrev pub reply_cancel_error : Bool → String → String → String → List Output
reply_cancel_error publisher queue_id identifier error = reply publisher queue_id (
    cancel_reply (record {
      identifier = identifier;
      order_id = none;
      remaining_qty = none;
      message = none;
      error = some error;
    }))
