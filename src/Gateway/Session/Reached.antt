-- ===== src/Gateway/Session/Reached.antt =====
-- The hub through any interleaving of connections, and of events of the exchange.
use cex_rs.Base.{
  ℕ, ◌+◌, ◌<◌, ◌≡◌, refl, String, Bool, true, false, Option, none, some, ◌⊎◌, if◌then◌else◌, Result,
  ok, err,
}
use cex_rs.Base.Int.{ℤ}
use cex_rs.Base.Word.{u64_mod}
use cex_rs.Shared.Events.{
  ExecutionEvent, order_created, trade_executed, order_cancelled, funding_executed, depth_updated,
}
use cex_rs.Shared.Ws.{WsClientMsg, WsServerMsg, subscribe, unsubscribe, auth, ping}
use cex_rs.Gateway.Hub as Hub
use cex_rs.Gateway.Hub.{BroadcasterHub, new, register}
use cex_rs.Gateway.Hub.Quiet.{
  Quiet, Quiet-refl, Quiet-trans, send_to_client-Quiet, broadcast_topic-Quiet, send_private-Quiet,
}
use cex_rs.Gateway.Hub.Valid.{
  IsValid, new-IsValid, is_connected, session_of, Quiet-IsValid, register-IsValid,
  subscribe-IsValid, unsubscribe-IsValid, authenticate-IsValid, unregister-IsValid,
}
use cex_rs.Gateway.Listener.{forward}
use cex_rs.Gateway.Session.{
  SessionEvent, outgoing, text, ping_frame, close, no_more, failed, other, format_topic,
  handle_auth, handle_msg, handle_text, session_step, session_event,
}

pub forward-Quiet :
    (encode : WsServerMsg → Option String) (timestamp : ℤ) (e : ExecutionEvent)
    (hub : BroadcasterHub)
    → Quiet hub (forward encode timestamp e hub)
unfolding forward
forward-Quiet encode timestamp (trade_executed e) hub =
    Quiet-trans hub _ _ (broadcast_topic-Quiet encode _ hub _) (
      Quiet-trans _ _ _ (send_private-Quiet encode _ _ e.buyer_id)
        (send_private-Quiet encode _ _ e.seller_id))
forward-Quiet encode timestamp (order_created e) hub = send_private-Quiet encode _ hub e.user_id
forward-Quiet encode timestamp (order_cancelled e) hub = send_private-Quiet encode _ hub e.user_id
forward-Quiet encode timestamp (funding_executed e) hub = Quiet-refl hub
forward-Quiet encode timestamp (depth_updated e) hub = broadcast_topic-Quiet encode _ hub _

module _ (decode : String → Result WsClientMsg String) (verify_token : String → Option ℕ)
    (encode : WsServerMsg → Option String) where
  -- A valid token in the event is of the user that the session has, if it has one.
  abbrev pub OneUser : ℕ → SessionEvent → BroadcasterHub → Type 0
  OneUser c e hub =
      (t token : String) (u : ℕ)
      → e ≡ text t
      → decode t ≡ ok (auth token)
      → verify_token token ≡ some u
      → (session_of c hub ≡ some none) ⊎ (session_of c hub ≡ some (some u))

  pub data Step (hub : BroadcasterHub) : BroadcasterHub → Type 0 where
    connect : hub.next_client_id + 1 < u64_mod → Step hub (register hub).0
    event :
        (c : ℕ) (e : SessionEvent)
        → is_connected c hub ≡ true
        → OneUser c e hub
        → Step hub (session_event decode verify_token encode c e hub)
    publish : (timestamp : ℤ) (e : ExecutionEvent) → Step hub (forward encode timestamp e hub)

  pub data Reach : BroadcasterHub → Type 0 where
    start : Reach new
    next : {a b : BroadcasterHub} → Reach a → Step a b → Reach b

  module _ (c : ℕ) (hub : BroadcasterHub) (v : IsValid hub) (k : is_connected c hub ≡ true) where
    answered :
        (msg : WsServerMsg) (h : BroadcasterHub)
        → IsValid h
        → IsValid (Hub.send_to_client encode c msg h)
    answered msg h w = Quiet-IsValid h _ (send_to_client-Quiet encode msg h c) w

    auth-IsValid :
        (o : Option ℕ)
        → ((u : ℕ)
            → o ≡ some u
            → (session_of c hub ≡ some none) ⊎ (session_of c hub ≡ some (some u)))
        → IsValid (handle_auth decode verify_token encode c o hub)
    unfolding handle_auth
    auth-IsValid none h = answered _ hub v
    auth-IsValid (some u) h = answered _ _ (authenticate-IsValid hub v c u (h u refl))

    text-IsValid :
        (t : String) (r : Result WsClientMsg String)
        → decode t ≡ r
        → OneUser c (text t) hub
        → IsValid (handle_text decode verify_token encode c r hub)
    unfolding handle_text handle_msg
    text-IsValid t (err x) d one = answered _ hub v
    text-IsValid t (ok ping) d one = answered _ hub v
    text-IsValid t (ok (subscribe channel market)) d one =
        answered _ _ (subscribe-IsValid hub v c (format_topic channel market) k)
    text-IsValid t (ok (unsubscribe channel market)) d one =
        answered _ _ (unsubscribe-IsValid hub v c (format_topic channel market))
    text-IsValid t (ok (auth token)) d one =
        auth-IsValid (verify_token token) (λ u h. one t token u refl d h)

    step-IsValid :
        (e : SessionEvent)
        → OneUser c e hub
        → IsValid (session_step decode verify_token encode c e hub).0
    unfolding session_step
    step-IsValid (text t) one = text-IsValid t (decode t) refl one
    step-IsValid (outgoing delivered) one = v
    step-IsValid (ping_frame ponged) one = v
    step-IsValid close one = v
    step-IsValid no_more one = v
    step-IsValid failed one = v
    step-IsValid other one = v

  ended-IsValid :
      (c : ℕ) (goes_on : Bool) (hub : BroadcasterHub)
      → IsValid hub
      → IsValid (if goes_on then hub else Hub.unregister c hub)
  ended-IsValid c true hub v = v
  ended-IsValid c false hub v = unregister-IsValid hub v c

  Step-IsValid : {a b : BroadcasterHub} → Step a b → IsValid a → IsValid b
  unfolding session_event
  Step-IsValid {a} (connect room) v = register-IsValid a v room
  Step-IsValid {a} (event c e k one) v =
      ended-IsValid c (session_step decode verify_token encode c e a).1 _
        (step-IsValid c a v k e one)
  Step-IsValid {a} (publish timestamp e) v =
      Quiet-IsValid a _ (forward-Quiet encode timestamp e a) v

  -- Through any interleaving of connections and events in which no client shows valid tokens of two
  -- users and the counter of clients stays below 2 ^ 64: only connected clients are subscribed to anything, a client is in the set of a user only
  -- while it is connected with that user, no set holds a client twice, and no identifier is given
  -- out while it is in use.
  pub Reach-IsValid : {hub : BroadcasterHub} → Reach hub → IsValid hub
  Reach-IsValid start = new-IsValid
  Reach-IsValid (next r s) = Step-IsValid s (Reach-IsValid r)
