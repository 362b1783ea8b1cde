-- ===== src/Gateway/Listener/Reaches.antt =====
-- A trade on its way to the clients of its market.
use mathlib.Core.List.{append_assoc as list_assoc}
use package.text.Mathlib.TextLemmas.{append_assoc}
use cex_rs.Base.{
  ℕ, ◌≡◌, ◌≢◌, refl, sym, ap, ◌∙◌, subst, String, Bool, true, false, Option, none, some, List, [],
  ◌∷◌, ◌++◌, arith, ◌==◌, nat_eq, string_eq, if◌then◌else◌, Result, ok,
}
use cex_rs.Base.Int.{ℤ}
use cex_rs.Base.HashMap
use cex_rs.Base.HashMap.{HashMap, get_or}
use cex_rs.Base.HashSet.{HashSet, contains}
use cex_rs.Base.Text.{to_lowercase, to_uppercase, concat}
use cex_rs.Shared.Events.{TradeExecuted, trade_executed}
use cex_rs.Shared.Ws.{WsClientMsg, WsServerMsg, subscribe, subscribed}
use cex_rs.Gateway.Hub as Hub
use cex_rs.Gateway.Hub.{
  ClientSession, BroadcasterHub, push, push_all, send_private, broadcast_topic, send_to_client,
}
use cex_rs.Gateway.Hub.Delivery.{get-push, sent, broadcast_topic-sent}
use cex_rs.Gateway.Hub.Members.{IsWellFormed, is_subscribed, is_subscribed-subscribe}
use cex_rs.Gateway.Hub.Quiet.{who, send_to_client-Quiet, Quiet-IsWellFormed}
use cex_rs.Gateway.Hub.WellFormed.{subscribe-IsWellFormed}
use cex_rs.Gateway.Hub.Valid.{is_connected}
use cex_rs.Gateway.Listener.{forward, trade_msg}
use cex_rs.Gateway.Session.{
  text, format_topic, handle_text, handle_msg, session_step, session_event,
}

-- The session is there, and the payload has been sent to it.
pub record Received (payload : String) (o : Option ClientSession) : Type 0 where
  pub session : ClientSession
  pub before : List String
  pub after : List String
  pub is_there : o ≡ some session
  pub queue : session.queue ≡ before ++ payload ∷ after

sent-Received :
    (payload : String) (o : Option ClientSession) → who o ≢ none → Received payload (sent payload o)
sent-Received payload none h = absurd (h refl)
sent-Received payload (some s) h = record {
  session = record s { queue = s.queue ++ payload ∷ [] };
  before = s.queue;
  after = [];
  is_there = refl;
  queue = refl;
}

-- It stays, whatever is sent then.
Received-sent :
    (payload other : String) (o : Option ClientSession)
    → Received payload o
    → Received payload (sent other o)
Received-sent payload other none r = absurd (cc (r.is_there))
Received-sent payload other (some s) r =
    let same : s ≡ r.session = cc (r.is_there) in
    record {
      session = record s { queue = s.queue ++ other ∷ [] };
      before = r.before;
      after = r.after ++ other ∷ [];
      is_there = refl;
      queue =
          ap (λ (x : ClientSession). x.queue ++ other ∷ []) same
          ∙ ap (λ (q : List String). q ++ other ∷ []) r.queue
          ∙ list_assoc r.before (payload ∷ r.after) (other ∷ []);
    }

Received-push :
    (payload other : String) (c cid : ℕ) (m : HashMap ℕ ClientSession)
    → Received payload (HashMap.get c m)
    → Received payload (HashMap.get c (push other cid m))
Received-push payload other c cid m r =
    subst (Received payload) (sym (get-push other c cid m)) (either (c == cid))
  where
    either :
        (b : Bool) → Received payload (if b then sent other (HashMap.get c m) else HashMap.get c m)
    either true = Received-sent payload other (HashMap.get c m) r
    either false = r

Received-push_all :
    (payload other : String) (c : ℕ) (cids : HashSet) (m : HashMap ℕ ClientSession)
    → Received payload (HashMap.get c m)
    → Received payload (HashMap.get c (push_all other cids m))
unfolding push_all
Received-push_all payload other c [] m r = r
Received-push_all payload other c (cid ∷ cids) m r =
    Received-push_all payload other c cids (push other cid m)
      (Received-push payload other c cid m r)

Received-send_private :
    (encode : WsServerMsg → Option String) (payload : String) (c user_id : ℕ) (msg : WsServerMsg)
    (hub : BroadcasterHub)
    → Received payload (HashMap.get c hub.clients)
    → Received payload (HashMap.get c (send_private encode user_id msg hub).clients)
unfolding send_private
Received-send_private encode payload c user_id msg hub r =
    to (encode msg) (HashMap.get user_id hub.user_clients)
  where
    to :
        (p : Option String) (o : Option HashSet)
        → Received payload (
            HashMap.get c
              (elim p as (λ x. BroadcasterHub) [
                | none ↦ hub
                | some q ↦ elim o as (λ x. BroadcasterHub) [
                  | none ↦ hub
                  | some subs ↦ record hub { clients = push_all q subs hub.clients }
                ]
              ]).clients)
    to none o = r
    to (some q) none = r
    to (some q) (some subs) = Received-push_all payload q c subs hub.clients r

module _ (decode : String → Result WsClientMsg String) (verify_token : String → Option ℕ)
    (encode : WsServerMsg → Option String) (hub : BroadcasterHub) (w : IsWellFormed hub) (c : ℕ)
    (t channel market : String) where
  -- The topic of a client that subscribes to the trades of a market, in whatever case it writes
  -- them, is the one of the trades.
  format_topic-trades :
      (m : String)
      → to_lowercase channel ≡ "trades"
      → to_uppercase market ≡ to_uppercase m
      → format_topic channel (some market) ≡ concat "trades:" (to_uppercase m)
  unfolding format_topic
  format_topic-trades m l u = rw (l, u) (sym (append_assoc "trades" ":" (to_uppercase m)))

  abbrev after_text : BroadcasterHub
  after_text = handle_text decode verify_token encode c (ok (subscribe channel (some market))) hub

  broadcast_Received :
      (timestamp : ℤ) (e : TradeExecuted) (payload : String)
      → is_connected c hub ≡ true
      → to_lowercase channel ≡ "trades"
      → to_uppercase market ≡ to_uppercase e.market
      → encode (trade_msg timestamp e) ≡ some payload
      → Received payload (
          HashMap.get c
            (broadcast_topic encode
              (concat "trades:" (to_uppercase e.market))
              (trade_msg timestamp e)
              after_text).clients)
  unfolding handle_text handle_msg Hub.subscribe
  broadcast_Received timestamp e payload k l u p =
      let topic = concat "trades:" (to_uppercase e.market) in
      let hub1 = Hub.subscribe c (format_topic channel (some market)) hub in
      let q = send_to_client-Quiet encode (subscribed channel (some market)) hub1 c in
      let in_topic : is_subscribed c topic hub1 ≡ true = ground (
        arith,
        format_topic-trades e.market l u,
        is_subscribed-subscribe c hub (format_topic channel (some market)) topic c,
        string_eq.agree topic (format_topic channel (some market)),
      ) in
      let wf = Quiet-IsWellFormed hub1 after_text q (subscribe-IsWellFormed hub w c _) in
      subst (Received payload)
        (sym (
          broadcast_topic-sent encode (trade_msg timestamp e) payload p after_text wf topic c
          ∙ rw (subst (λ m. contains c (get_or topic [] m) ≡ true) (sym q.topics) in_topic) refl))
        (sent-Received payload (HashMap.get c after_text.clients)
          (λ gone. absurd (ground (arith, gone, k, q.sessions c))))

  -- Once a connected client has sent a subscription to the trades of a market, in whatever case it
  -- writes them, a trade of the market is sent to it, where the maps and sets of the hub are ones and
  -- the message can be serialised.
  pub forward-Received :
      (timestamp : ℤ) (e : TradeExecuted) (payload : String)
      → is_connected c hub ≡ true
      → decode t ≡ ok (subscribe channel (some market))
      → to_lowercase channel ≡ "trades"
      → to_uppercase market ≡ to_uppercase e.market
      → encode (trade_msg timestamp e) ≡ some payload
      → Received payload (
          HashMap.get c
            (forward encode timestamp
              (trade_executed e)
              (session_event decode verify_token encode c (text t) hub)).clients)
  unfolding forward session_event session_step
  forward-Received timestamp e payload k d l u p =
      subst
        (λ r. Received payload (
          HashMap.get c
            (forward encode timestamp (trade_executed e)
              (handle_text decode verify_token encode c r hub)).clients))
        (sym d)
        (Received-send_private encode payload c e.seller_id _ _ (
          Received-send_private encode payload c e.buyer_id _ _
            (broadcast_Received timestamp e payload k l u p)))
