-- ===== src/Gateway/Session/Grants.antt =====
-- How a client of a connection comes into the set of a user.
use cex_rs.Base.{
  ℕ, [], Bool-cases, ap, ◌≡◌, refl, sym, subst, ◌∙◌, String, Bool, true, false, ◌&&◌, Option, none,
  some, ◌⊎◌, inl, inr, arith, ◌==◌, nat_eq, string_eq, if◌then◌else◌, Result, ok, err,
}
use cex_rs.Base.HashMap.{get_or}
use cex_rs.Base.HashSet.{contains}
use cex_rs.Shared.Ws.{WsClientMsg, WsServerMsg, subscribe, unsubscribe, auth, ping}
use cex_rs.Gateway.Hub as Hub
use cex_rs.Gateway.Hub.{BroadcasterHub}
use cex_rs.Gateway.Hub.Members.{
  is_of, is_of-authenticate, is_of-unregister, user_clients-unsubscribe,
}
use cex_rs.Gateway.Hub.Quiet.{Quiet, send_to_client-Quiet}
use cex_rs.Gateway.Session.{
  SessionEvent, outgoing, text, ping_frame, close, no_more, failed, other, handle_auth, handle_msg,
  handle_text, format_topic, session_step, session_event,
}

module _ (decode : String → Result WsClientMsg String) (verify_token : String → Option ℕ)
    (encode : WsServerMsg → Option String) where
  -- The event is a message of the client itself with a valid token of the user.
  pub record Shows (user_id : ℕ) (e : SessionEvent) : Type 0 where
    pub t : String
    pub token : String
    pub is_text : e ≡ text t
    pub is_auth : decode t ≡ ok (auth token)
    pub is_valid : verify_token token ≡ some user_id

  module _ (c user_id : ℕ) where
    -- What a step adds to the clients of the user.
    abbrev Adds : ℕ → SessionEvent → BroadcasterHub → BroadcasterHub → Type 0
    Adds client_id e hub hub' =
        is_of c user_id hub' ≡ true
        → (is_of c user_id hub ≡ true) ⊎ ((c ≡ client_id) × Shows user_id e)

    Quiet-Adds :
        (client_id : ℕ) (e : SessionEvent) (hub hub1 hub' : BroadcasterHub)
        → Quiet hub1 hub'
        → Adds client_id e hub hub1
        → Adds client_id e hub hub'
    Quiet-Adds client_id e hub hub1 hub' q a m =
        a (subst (λ u. contains c (get_or user_id [] u) ≡ true) q.user_clients m)

    module _ (client_id : ℕ) (e : SessionEvent) (hub : BroadcasterHub) where
      granted :
          (token t : String) (u : ℕ)
          → e ≡ text t
          → decode t ≡ ok (auth token)
          → verify_token token ≡ some u
          → is_of c user_id (Hub.authenticate client_id u hub) ≡ true
          → ((c == client_id && user_id == u) ≡ true) ⊎ ((c == client_id && user_id == u) ≡ false)
          → (is_of c user_id hub ≡ true) ⊎ ((c ≡ client_id) × Shows user_id e)
      granted token t u p q v m (inl both) =
          let is_u : user_id ≡ u = ground (arith, both) in
          inr (
            ground (arith, both),
            record {
              t = t;
              token = token;
              is_text = p;
              is_auth = q;
              is_valid = v ∙ ap (λ (i : ℕ). some i) (sym is_u);
            },
          )
      granted token t u p q v m (inr other_pair) =
          inl (ground (arith, m, other_pair, is_of-authenticate c hub u user_id client_id))

      auth-Adds :
          (token t : String) (o : Option ℕ)
          → e ≡ text t
          → decode t ≡ ok (auth token)
          → verify_token token ≡ o
          → Adds client_id e hub (handle_auth decode verify_token encode client_id o hub)
      unfolding handle_auth
      auth-Adds token t none p q v =
          Quiet-Adds client_id e hub hub _ (send_to_client-Quiet encode _ hub client_id) inl
      auth-Adds token t (some u) p q v =
          Quiet-Adds client_id e hub (Hub.authenticate client_id u hub) _
            (send_to_client-Quiet encode _ (Hub.authenticate client_id u hub) client_id)
            (λ m. granted token t u p q v m (Bool-cases (c == client_id && user_id == u)))

      msg-Adds :
          (t : String) (msg : WsClientMsg)
          → e ≡ text t
          → decode t ≡ ok msg
          → Adds client_id e hub (handle_msg decode verify_token encode client_id msg hub)
      unfolding handle_msg
      msg-Adds t (auth token) p q = auth-Adds token t (verify_token token) p q refl
      msg-Adds t ping p q =
          Quiet-Adds client_id e hub hub _ (send_to_client-Quiet encode _ hub client_id) inl
      msg-Adds t (subscribe channel market) p q =
          Quiet-Adds client_id e hub (Hub.subscribe client_id (format_topic channel market) hub) _
            (send_to_client-Quiet encode _ _ client_id) (unfold Hub.subscribe in inl)
      msg-Adds t (unsubscribe channel market) p q =
          Quiet-Adds client_id e hub (Hub.unsubscribe client_id (format_topic channel market) hub) _
            (send_to_client-Quiet encode _ _ client_id)
            (λ m. inl (
              subst (λ x. contains c (get_or user_id [] x) ≡ true)
                (user_clients-unsubscribe client_id (format_topic channel market) hub) m))

      text-Adds :
          (t : String) (r : Result WsClientMsg String)
          → e ≡ text t
          → decode t ≡ r
          → Adds client_id e hub (handle_text decode verify_token encode client_id r hub)
      unfolding handle_text
      text-Adds t (ok msg) p q = msg-Adds t msg p q
      text-Adds t (err x) p q =
          Quiet-Adds client_id e hub hub _ (send_to_client-Quiet encode _ hub client_id) inl

    step-Adds :
        (client_id : ℕ) (e : SessionEvent) (hub : BroadcasterHub)
        → Adds client_id e hub (session_step decode verify_token encode client_id e hub).0
    unfolding session_step
    step-Adds client_id (text t) hub = text-Adds client_id (text t) hub t (decode t) refl refl
    step-Adds client_id (outgoing delivered) hub = inl
    step-Adds client_id (ping_frame ponged) hub = inl
    step-Adds client_id close hub = inl
    step-Adds client_id no_more hub = inl
    step-Adds client_id failed hub = inl
    step-Adds client_id other hub = inl

    ends-Adds :
        (client_id : ℕ) (e : SessionEvent) (hub hub' : BroadcasterHub) (goes_on : Bool)
        → Adds client_id e hub hub'
        → Adds client_id e hub (if goes_on then hub' else Hub.unregister client_id hub')
    ends-Adds client_id e hub hub' true a = a
    ends-Adds client_id e hub hub' false a =
        λ m. a (ground (arith, m, is_of-unregister c hub' user_id client_id))

    -- Whatever happens on a connection, a client that gets the private messages of a user afterwards
    -- got them before, or it is the client of this connection, and what happened is that it sent a
    -- token that is valid for the user.
    pub session_event-grants :
        (client_id : ℕ) (e : SessionEvent) (hub : BroadcasterHub)
        → is_of c user_id (session_event decode verify_token encode client_id e hub) ≡ true
        → (is_of c user_id hub ≡ true) ⊎ ((c ≡ client_id) × Shows user_id e)
    unfolding session_event
    session_event-grants client_id e hub =
        ends-Adds client_id e hub _ (session_step decode verify_token encode client_id e hub).1
          (step-Adds client_id e hub)
