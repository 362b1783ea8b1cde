-- ===== src/Gateway/Routes/Private.antt =====
-- Whose order the route `get_order` shows.
use cex_rs.Base.{
  ℕ, ◌≡◌, refl, sym, ap, ◌∙◌, String, true, Option, none, some, List, [], ◌∷◌, arith, ◌==◌, nat_eq,
  string_eq, Result, ok, err, Bool-cases, Option-cases, inl, inr,
}
use cex_rs.Base.Int.{ℤ, pos, negsuc, to_i64}
use cex_rs.Shared.Requests.{OrderStatusQueryMsg}
use cex_rs.Shared.Replies.{OrderStatusReply}
use cex_rs.Engine.State.{EngineState}
use cex_rs.Engine.Outputs.{pushed, order_status_reply}
use cex_rs.Engine.Queries.{handle_get_order_status, find_order}
use cex_rs.Gateway.Ledger.{Database, OrderRow, TradeRow, find_row, same_id}
use cex_rs.Gateway.Routes.{
  Response, order_found, error_body, get_order_request, get_order_answer, order_row_answer,
  order_status_msg, fallback_order,
}

same_id-agrees : (a b : ℤ) → same_id a b ≡ true → a ≡ b
same_id-agrees (pos m) (pos n) h = ap pos (ground (arith, h))
same_id-agrees (pos m) (negsuc n) h = absurd (cc (h))
same_id-agrees (negsuc m) (pos n) h = absurd (cc (h))
same_id-agrees (negsuc m) (negsuc n) h = ap negsuc (ground (arith, h))

module _ (queue_id identifier : String) (user_id order_id : ℕ) (db later : Option Database)
    (s : EngineState) where
  -- The answers of the route: at once, or from the engine's reply.
  pub data Answer : Response → Type 0 where
    at_once :
        (r : Response)
        → get_order_request queue_id identifier user_id order_id db later ≡ err r
        → Answer r
    from_engine :
        (msg : OrderStatusQueryMsg) (channel : String) (reply : OrderStatusReply)
        → get_order_request queue_id identifier user_id order_id db later ≡ ok msg
        → handle_get_order_status true msg s ≡ pushed channel (order_status_reply reply) ∷ []
        → Answer (get_order_answer reply)

  row-private :
      (row o : OrderRow) (ts : List TradeRow)
      → (order_row_answer queue_id identifier user_id order_id row later).body ≡ order_found o ts
      → o.user_id ≡ to_i64 user_id
  unfolding order_row_answer
  row-private row o ts h = elim (Bool-cases (same_id row.user_id (to_i64 user_id))) [
    | inl own ↦
        let is_row : o ≡ row = ground (arith, own, h) in
        ap (λ (x : OrderRow). x.user_id) is_row ∙ same_id-agrees row.user_id (to_i64 user_id) own
    | inr other ↦ ground (arith, other, h)
  ]

  -- The cases of the route, on what the tables give.
  abbrev on_row : Option OrderRow → Result OrderStatusQueryMsg Response
  on_row (some row) = err (order_row_answer queue_id identifier user_id order_id row later)
  on_row none = ok (order_status_msg queue_id identifier user_id order_id)

  abbrev on_tables : Option Database → Result OrderStatusQueryMsg Response
  on_tables none = err (record { status = 500; body = error_body })
  on_tables (some d) = on_row (find_row (to_i64 order_id) d.orders)

  request-on_tables : get_order_request queue_id identifier user_id order_id db later ≡ on_tables db
  unfolding get_order_request
  request-on_tables = by_db db
    where
      by_row :
          (f : Option OrderRow)
          → (elim f as (λ x. Result OrderStatusQueryMsg Response) [
            | some row ↦ err (order_row_answer queue_id identifier user_id order_id row later)
            | none ↦ ok (order_status_msg queue_id identifier user_id order_id)
          ])
            ≡ on_row f
      by_row none = refl
      by_row (some row) = refl

      by_db :
          (d : Option Database)
          → get_order_request queue_id identifier user_id order_id d later ≡ on_tables d
      by_db none = refl
      by_db (some d) = by_row (find_row (to_i64 order_id) d.orders)

  module _ (o : OrderRow) (ts : List TradeRow) where
    on_row-private :
        (f : Option OrderRow) (r : Response)
        → on_row f ≡ err r
        → r.body ≡ order_found o ts
        → o.user_id ≡ to_i64 user_id
    on_row-private none r e h = absurd (cc (e))
    on_row-private (some row) r e h =
        let same : order_row_answer queue_id identifier user_id order_id row later ≡ r = cc (e) in
        row-private row o ts (ap (λ (x : Response). x.body) same ∙ h)

    on_tables-private :
        (d : Option Database) (r : Response)
        → on_tables d ≡ err r
        → r.body ≡ order_found o ts
        → o.user_id ≡ to_i64 user_id
    on_tables-private none r e h =
        let same : record { status = 500; body = error_body } ≡ r = cc (e) in
        absurd (ground (arith, same, h))
    on_tables-private (some d) r e h = on_row-private (find_row (to_i64 order_id) d.orders) r e h

  on_row-asks :
      (f : Option OrderRow) (msg : OrderStatusQueryMsg) → on_row f ≡ ok msg → msg.user_id ≡ user_id
  unfolding order_status_msg
  on_row-asks none msg e = cc (e)
  on_row-asks (some row) msg e = absurd (cc (e))

  on_tables-asks :
      (d : Option Database) (msg : OrderStatusQueryMsg)
      → on_tables d ≡ ok msg
      → msg.user_id ≡ user_id
  on_tables-asks none msg e = absurd (cc (e))
  on_tables-asks (some d) msg e = on_row-asks (find_row (to_i64 order_id) d.orders) msg e

  engine-private :
      (msg : OrderStatusQueryMsg) (channel : String) (reply : OrderStatusReply) (o : OrderRow)
      (ts : List TradeRow)
      → msg.user_id ≡ user_id
      → handle_get_order_status true msg s ≡ pushed channel (order_status_reply reply) ∷ []
      → (get_order_answer reply).body ≡ order_found o ts
      → o.user_id ≡ to_i64 user_id
  unfolding handle_get_order_status get_order_answer fallback_order
  engine-private msg channel reply o ts same e h = elim (Option-cases (find_order s msg.order_id)) [
    | inl absent ↦ ground (arith, absent, e, h)
    | inr ((order, market), found) ↦ elim (Bool-cases (order.user_id == msg.user_id)) [
      | inl own ↦ ground (arith, found, own, e, h, same)
      | inr other ↦ ground (arith, found, other, e, h)
    ]
  ]

  -- Whichever way the route takes, through the tables or to the engine, an order that it shows has
  -- the user of the request.
  pub get_order-private :
      (r : Response) (o : OrderRow) (ts : List TradeRow)
      → Answer r
      → r.body ≡ order_found o ts
      → o.user_id ≡ to_i64 user_id
  get_order-private r o ts (at_once r' e) h =
      on_tables-private o ts db r' (sym request-on_tables ∙ e) h
  get_order-private r o ts (from_engine msg channel answer e k) h =
      engine-private msg channel answer o ts (on_tables-asks db msg (sym request-on_tables ∙ e)) k h
