-- ===== src/Gateway/Session.antt =====
-- rs-gateway/src/ws/session.rs: what a WebSocket connection does with the hub.
pub mod Grants
pub mod Reached
pub mod Ended
use cex_rs.Base.{
  ℕ, String, Bool, true, false, Option, none, some, List, [], ◌∷◌, if◌then◌else◌, Result, ok, err,
}
use cex_rs.Base.Text.{to_lowercase, to_uppercase, concat}
use cex_rs.Shared.Ws.{
  WsClientMsg, WsServerMsg, subscribe, unsubscribe, auth, ping, subscribed, unsubscribed,
  authenticated, pong, error,
}
use cex_rs.Gateway.Hub as Hub
use cex_rs.Gateway.Hub.{BroadcasterHub}

unfoldable pub format_topic : String → Option String → String
format_topic channel none = to_lowercase channel
format_topic channel (some m) = concat (to_lowercase channel) (concat ":" (to_uppercase m))

-- What `select!` gives. A payload is forwarded, or a pong sent, with success or not. `no_more` is the
-- `else` of it.
pub data SessionEvent : Type 0 where
  outgoing : (delivered : Bool) → SessionEvent
  text : String → SessionEvent
  ping_frame : (ponged : Bool) → SessionEvent
  close : SessionEvent
  no_more : SessionEvent
  failed : SessionEvent
  other : SessionEvent

-- `decode` is `serde_json::from_str`, with the text of the error; `verify_token` gives the `sub` of
-- the claims of a valid token; `encode` is `serde_json::to_string`.
module _ (decode : String → Result WsClientMsg String) (verify_token : String → Option ℕ)
    (encode : WsServerMsg → Option String) where
  unfoldable pub handle_auth : ℕ → Option ℕ → BroadcasterHub → BroadcasterHub
  handle_auth client_id none hub =
      Hub.send_to_client encode client_id (error "Invalid or expired JWT token") hub
  handle_auth client_id (some user_id) hub =
      Hub.send_to_client encode client_id (authenticated user_id)
        (Hub.authenticate client_id user_id hub)

  unfoldable pub handle_msg : ℕ → WsClientMsg → BroadcasterHub → BroadcasterHub
  handle_msg client_id (subscribe channel market) hub =
      Hub.send_to_client encode client_id (subscribed channel market)
        (Hub.subscribe client_id (format_topic channel market) hub)
  handle_msg client_id (unsubscribe channel market) hub =
      Hub.send_to_client encode client_id (unsubscribed channel market)
        (Hub.unsubscribe client_id (format_topic channel market) hub)
  handle_msg client_id (auth token) hub = handle_auth client_id (verify_token token) hub
  handle_msg client_id ping hub = Hub.send_to_client encode client_id pong hub

  unfoldable pub handle_text : ℕ → Result WsClientMsg String → BroadcasterHub → BroadcasterHub
  handle_text client_id (ok msg) hub = handle_msg client_id msg hub
  handle_text client_id (err e) hub =
      Hub.send_to_client encode client_id (error (concat "Malformed JSON: " e)) hub

  -- One round of the loop: the hub, and whether the loop goes on.
  unfoldable pub session_step : ℕ → SessionEvent → BroadcasterHub → BroadcasterHub × Bool
  session_step client_id (outgoing delivered) hub = (hub, delivered)
  session_step client_id (text t) hub = (handle_text client_id (decode t) hub, true)
  session_step client_id (ping_frame ponged) hub = (hub, ponged)
  session_step client_id close hub = (hub, false)
  session_step client_id no_more hub = (hub, false)
  session_step client_id failed hub = (hub, false)
  session_step client_id other hub = (hub, true)

  -- The loop breaks into `unregister`.
  unfoldable pub session_event : ℕ → SessionEvent → BroadcasterHub → BroadcasterHub
  session_event client_id e hub =
      let (hub', goes_on) = session_step client_id e hub in
      if goes_on then hub' else Hub.unregister client_id hub'
