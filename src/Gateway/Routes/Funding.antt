-- ===== src/Gateway/Routes/Funding.antt =====
-- A funding request from the client to the engine and back.
use cex_rs.Base.{
  ℕ, ◌≡◌, ◌≢◌, refl, ap, ◌∙◌, subst, String, true, false, Option, none, some, List, [], ◌∷◌, map,
  arith, ◌==◌, nat_eq, string_eq, if◌then◌else◌, Result, ok, err, done,
}
use cex_rs.Base.HashMap
use cex_rs.Base.HashMap.{HashMap, get_or}
use cex_rs.Base.Text.{concat}
use cex_rs.Base.Word.{add64}
use cex_rs.Shared.Requests.{OnrampMsg}
use cex_rs.Shared.Replies.{BalanceReply}
use cex_rs.Engine.State.{EngineState, usd_of, stock_of}
use cex_rs.Engine.Outputs.{Output, pushed, executed, Reply, balance_reply}
use cex_rs.Engine.Fill.{add_available}
use cex_rs.Engine.Account.Totals.{usd_of-usd_mut}
use cex_rs.Engine.Account.{handle_onramp, reply_balance}
use cex_rs.Engine.Dispatch.{Decoder, dispatch_event, on_message}
use cex_rs.Engine.Order.Market.{Floats}
use cex_rs.Gateway.Dto.{OnrampBody, validate_onramp}
use cex_rs.Gateway.Replies.{Replies, begin_request, finish_request}
use cex_rs.Gateway.Replies.Correlated.{pop, happen_all, begin_request-first_reply}
use cex_rs.Gateway.Routes.{Response, onramp_request, balance_answer, balances, turn_away}

-- What is in a reply queue after some outputs of the engine.
abbrev pub queued : String → List Output → List Reply
queued queue [] = []
queued queue (pushed channel r ∷ outs) =
    let rest = queued queue outs in if channel == queue then r ∷ rest else rest
queued queue (executed e ∷ outs) = queued queue outs

-- `serde_json` on the two messages.
pub record Json : Type 0 where
  pub write_onramp : OnrampMsg → String
  pub write_reply : Reply → String
  pub read_reply : String → Option BalanceReply
  pub identifier_of : String → Option String

-- What is written is read back, and the text of a reply has its identifier.
pub record ReadsBack {F : Type 0} (decode : Decoder F) (json : Json) (msg : OnrampMsg)
    (b : BalanceReply) : Type 0 where
  pub onramp_read : decode.onramp (json.write_onramp msg) ≡ some msg
  pub reply_read : json.read_reply (json.write_reply (balance_reply b)) ≡ some b
  pub reply_named : json.identifier_of (json.write_reply (balance_reply b)) ≡ some b.identifier

-- The balances of the user after the message.
abbrev pub reply_to : OnrampMsg → EngineState → BalanceReply
reply_to msg s =
    let after = (handle_onramp true msg s).0 in
    record {
      identifier = msg.identifier;
      usd_balance = usd_of msg.user_id after;
      stock_balance = stock_of msg.user_id after;
    }

module _ (floats : Floats) (decode : Decoder floats.F) (json : Json) (queue_id identifier : String)
    (tx : ℕ) (r : Replies) (s : EngineState) (user_id : ℕ) where
  -- The engine's work on the message, and what comes through the channel of the request then.
  pub record Funded (msg : OnrampMsg) : Type 0 where
    pub after : EngineState
    pub outputs : List Output
    pub works :
        dispatch_event floats decode s true "onramp" (json.write_onramp msg) ≡ done (after, outputs)
    pub answer : BalanceReply
    pub receives :
        finish_request json.read_reply (
          HashMap.get tx
            (happen_all json.identifier_of
              (map
                (λ x. pop (ok (some (json.write_reply x))))
                (queued (concat "response-queue" queue_id) outputs))
              (begin_request "onramp" (some (json.write_onramp msg)) true identifier tx r).0).sent)
        ≡ ok answer
    pub responds : balance_answer "onramped successfully" answer ≡ record {
      status = 200;
      body = balances "onramped successfully" (usd_of user_id after) (stock_of user_id after);
    }
    pub credited :
        usd_of user_id after
        ≡ record (usd_of user_id s) { available = add64 (usd_of user_id s).available msg.qty }

  module _ (unused : HashMap.get tx r.sent ≡ none)
      (own : (i : String) (t : ℕ) → HashMap.get i r.pending ≡ some t → t ≢ tx) where
    -- The message of a valid body.
    abbrev message_of : OnrampBody → OnrampMsg
    message_of body = record {
      user_id = user_id;
      qty = body.qty;
      queue_id = queue_id;
      identifier = identifier;
    }

    -- The queue of a reply that is the only one.
    queued_one : (queue : String) (x : Reply) → queued queue (pushed queue x ∷ []) ≡ x ∷ []
    queued_one queue x = ap (λ b. if b then x ∷ [] else []) ((string_eq.agree queue queue).1 refl)

    answered :
        (channel written : String) (b : BalanceReply)
        → b.identifier ≡ identifier
        → json.read_reply (json.write_reply (balance_reply b)) ≡ some b
        → json.identifier_of (json.write_reply (balance_reply b)) ≡ some b.identifier
        → finish_request json.read_reply (
            HashMap.get tx
              (happen_all json.identifier_of
                (map
                  (λ x. pop (ok (some (json.write_reply x))))
                  (queued
                    (concat "response-queue" queue_id)
                    (pushed (concat "response-queue" queue_id) (balance_reply b) ∷ [])))
                (begin_request channel (some written) true identifier tx r).0).sent)
          ≡ ok b
    unfolding finish_request
    answered channel written b same_name read name_read =
        let p = json.write_reply (balance_reply b) in
        let queue = concat "response-queue" queue_id in
        let first =
          begin_request-first_reply json.identifier_of identifier tx channel (some written) true
            (pop (ok (some p)) ∷ []) r tt unused own in
        let name : json.identifier_of p ≡ some identifier =
          name_read ∙ ap (λ (i : String). some i) same_name in
        let mine : (if identifier == identifier then some p else none) ≡ some p =
          ap (λ c. if c then some p else none) ((string_eq.agree identifier identifier).1 refl) in
        ap
          (λ xs. finish_request json.read_reply (
            HashMap.get tx
              (happen_all json.identifier_of (map (λ x. pop (ok (some (json.write_reply x)))) xs)
                (begin_request channel (some written) true identifier tx r).0).sent))
          (queued_one queue (balance_reply b))
        ∙ ap (finish_request json.read_reply) (
            first
            ∙ ap
                (λ (o : Option String).
                  if elim o [ none ↦ false | some i ↦ i == identifier ] then some p else none)
                name
            ∙ mine)
        ∙ ap
            (λ (o : Option BalanceReply). elim o as (λ x. Result BalanceReply ℕ) [
              | none ↦ err 500
              | some t ↦ ok t
            ])
            read

    message_of-Funded :
        (body : OnrampBody)
        → ReadsBack decode json (message_of body) (reply_to (message_of body) s)
        → Funded (message_of body)
    unfolding dispatch_event handle_onramp reply_balance balance_answer
    message_of-Funded body back =
        let msg = message_of body in
        let after = (handle_onramp true msg s).0 in
        record {
          after = after;
          outputs = (handle_onramp true msg s).1;
          works = ap (λ o. on_message o s (λ m. done (handle_onramp true m s))) back.onramp_read;
          answer = reply_to msg s;
          receives =
              answered "onramp" (json.write_onramp msg) (reply_to msg s) refl back.reply_read
                back.reply_named;
          responds = refl;
          credited = ground (arith, usd_of-usd_mut user_id user_id (add_available body.qty) s);
        }

    -- A request for funds goes round. Where serde reads back what it writes of the message and its
    -- reply, and the channel of the request is a new one: the message that the gateway makes of a
    -- valid body is worked on by the engine, its reply comes through the channel of the request, and
    -- the answer is a 200 with the balances of the user, the USD being those before and the amount.
    pub onramp_request-roundtrip :
        (body : OnrampBody) (msg : OnrampMsg)
        → onramp_request queue_id identifier user_id body ≡ ok msg
        → ReadsBack decode json msg (reply_to msg s)
        → Funded msg
    unfolding onramp_request
    onramp_request-roundtrip body msg = either (validate_onramp body)
      where
        either :
            (v : Result (Unit {0}) String)
            → (elim v as (λ x. Result OnrampMsg Response) [
              | err e ↦ err (turn_away 400 e)
              | ok t ↦ ok (message_of body)
            ])
              ≡ ok msg
            → ReadsBack decode json msg (reply_to msg s)
            → Funded msg
        either (err e) h = absurd (cc (h))
        either (ok t) h =
            let same : message_of body ≡ msg = cc (h) in
            subst (λ (m : OnrampMsg). ReadsBack decode json m (reply_to m s) → Funded m) same
              (message_of-Funded body)
