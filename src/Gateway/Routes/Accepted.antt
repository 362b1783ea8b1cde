-- ===== src/Gateway/Routes/Accepted.antt =====
-- The gateway's validation of an order against the engine's checks.
use cex_rs.Base.{
  ℕ, ◌≡◌, refl, subst, String, Bool, true, ◌||◌, arith, ◌==◌, string_eq, if◌then◌else◌, Result, ok,
  err, Bool-cases, inl, inr,
}
use cex_rs.Base.Int.{is_pos}
use cex_rs.Base.Text.{to_lowercase}
use cex_rs.Shared.Requests.{OrderMsg, limit}
use cex_rs.Book.Types.{Side, bid, ask}
use cex_rs.Engine.State.{EngineState}
use cex_rs.Engine.Order.{handle_order, place_order, parse_side, is_supported, request}
use cex_rs.Engine.Order.Market.{Floats}
use cex_rs.Gateway.Dto.{OrderBody, validate_order, is_listed}
use cex_rs.Gateway.Routes.{
  Response, place_order_request, order_type_of, time_in_force_of, turn_away,
}

module _ (floats : Floats) where
  -- The engine comes to its `match` on the type of the order, and a limit order has a price.
  pub record Accepted (msg : OrderMsg floats.F) : Type 0 where
    pub side : Side
    pub handled :
        (publisher : Bool) (s : EngineState)
        → handle_order floats publisher msg s
          ≡ place_order floats publisher msg (request floats (to_lowercase msg.asset) side msg) s
    pub priced : msg.order_type ≡ limit → is_pos msg.price ≡ true

  -- The conditions that a valid body meets.
  record Checked (body : OrderBody floats.F) : Type 0 where
    listed : is_listed (to_lowercase body.asset) ≡ true
    sided : (body.side == "bid" || body.side == "ask") ≡ true
    typed :
        (to_lowercase body.order_type == "limit" || to_lowercase body.order_type == "market") ≡ true
    priced : (to_lowercase body.order_type == "limit") ≡ true → is_pos body.price ≡ true
    positive : is_pos body.qty ≡ true

  module _ (out_of_range : floats.F → Bool) (body : OrderBody floats.F) where
    validate_order-Checked : validate_order floats.F out_of_range body ≡ ok tt → Checked body
    unfolding validate_order
    validate_order-Checked h = record {
      listed = ground (arith, h);
      sided = ground (arith, h);
      typed = ground (arith, h);
      priced = λ l. ground (arith, h, l);
      positive = ground (arith, h);
    }

  -- The message of a body.
  abbrev message_of : String → String → ℕ → OrderBody floats.F → OrderMsg floats.F
  message_of queue_id identifier user_id body = record {
    user_id = user_id;
    asset = body.asset;
    side = body.side;
    order_type = order_type_of body.order_type;
    price = body.price;
    qty = body.qty;
    slippage_pct = body.slippage_pct;
    time_in_force = time_in_force_of body.time_in_force;
    queue_id = queue_id;
    identifier = identifier;
  }

  Checked-Accepted :
      (queue_id identifier : String) (user_id : ℕ) (body : OrderBody floats.F)
      → Checked body
      → Accepted (message_of queue_id identifier user_id body)
  unfolding handle_order parse_side is_supported order_type_of
  Checked-Accepted queue_id identifier user_id body c = record {
    side = if body.side == "bid" then bid else ask;
    handled = λ publisher s. elim (Bool-cases (body.side == "bid")) [
      | inl is_bid ↦ ground (arith, c.listed, c.positive, is_bid)
      | inr other ↦ ground (arith, c.listed, c.positive, other, c.sided)
    ];
    priced = λ l. c.priced (ground (arith, l, c.typed));
  }

  module _ (queue_id identifier : String) (out_of_range : floats.F → Bool) (user_id : ℕ)
      (body : OrderBody floats.F) where
    -- An order that the gateway's validation lets through gets past the engine's checks of its asset,
    -- side and quantity to the match on its type, and a limit order has a positive price.
    pub place_order_request-Accepted :
        (msg : OrderMsg floats.F)
        → place_order_request queue_id identifier out_of_range user_id body ≡ ok msg
        → Accepted msg
    unfolding place_order_request
    place_order_request-Accepted msg = either (validate_order floats.F out_of_range body) refl
      where
        either :
            (v : Result (Unit {0}) String)
            → validate_order floats.F out_of_range body ≡ v
            → (elim v as (λ x. Result (OrderMsg floats.F) Response) [
              | err e ↦ err (turn_away 400 e)
              | ok t ↦ ok (message_of queue_id identifier user_id body)
            ])
              ≡ ok msg
            → Accepted msg
        either (err e) valid h = absurd (cc (h))
        either (ok t) valid h =
            let same : message_of queue_id identifier user_id body ≡ msg = cc (h) in
            subst Accepted same (
              Checked-Accepted queue_id identifier user_id body
                (validate_order-Checked out_of_range body valid))
