-- ===== src/Gateway/Session/Ended.antt =====
-- What is left of a client when its connection ends.
use cex_rs.Base.{ℕ, ◌≡◌, ◌≢◌, true, false, String, Option, none, some, arith, nat_eq, Result}
use cex_rs.Base.HashMap
use cex_rs.Shared.Ws.{WsClientMsg, WsServerMsg}
use cex_rs.Gateway.Hub as Hub
use cex_rs.Gateway.Hub.{BroadcasterHub, user_of}
use cex_rs.Gateway.Hub.Members.{
  is_subscribed, is_of, is_subscribed-unregister, is_of-unregister, is_of-authenticate,
}
use cex_rs.Gateway.Hub.Valid.{
  IsValid, session_of, is_connected, user_of-who, session_of-unregister, session_of-authenticate,
}
use cex_rs.Gateway.Hub.Quiet.{who}
use cex_rs.Gateway.Session.{
  SessionEvent, outgoing, text, ping_frame, close, no_more, failed, other, session_step,
  session_event,
}

-- The client is gone, and what there was of the others is there.
pub record Forgets (c : ℕ) (hub hub' : BroadcasterHub) : Type 0 where
  pub session : session_of c hub' ≡ none
  pub topics : (topic : String) → is_subscribed c topic hub' ≡ false
  pub users : (u : ℕ) → is_of c u hub' ≡ false
  pub other_sessions : (i : ℕ) → i ≢ c → session_of i hub' ≡ session_of i hub
  pub other_topics :
      (i : ℕ) (topic : String) → i ≢ c → is_subscribed i topic hub' ≡ is_subscribed i topic hub
  pub other_users : (i u : ℕ) → i ≢ c → is_of i u hub' ≡ is_of i u hub

unregister-Forgets :
    (c : ℕ) (hub : BroadcasterHub) → IsValid hub → Forgets c hub (Hub.unregister c hub)
unregister-Forgets c hub v = record {
  session = ground (arith, session_of-unregister c c hub);
  topics = λ t. ground (arith, is_subscribed-unregister c hub t c v.well_formed);
  users = λ u.
      ground
        (arith, is_of-unregister c hub u c, v.owned c u, user_of-who (HashMap.get c hub.clients) u);
  other_sessions = λ i ne. ground (arith, ne, session_of-unregister i c hub);
  other_topics = λ i t ne. ground (arith, ne, is_subscribed-unregister i hub t c v.well_formed);
  other_users = λ i u ne. ground (arith, ne, is_of-unregister i hub u c);
}

module _ (decode : String → Result WsClientMsg String) (verify_token : String → Option ℕ)
    (encode : WsServerMsg → Option String) (c : ℕ) (hub : BroadcasterHub) where
  -- Where only connected clients are subscribed and a client is only in the set of its session's
  -- user: an event that ends the loop of a connection takes the client out of the sessions, of all
  -- topics and of all users, and changes nothing for the others.
  pub session_event-Forgets :
      (e : SessionEvent)
      → IsValid hub
      → (session_step decode verify_token encode c e hub).1 ≡ false
      → Forgets c hub (session_event decode verify_token encode c e hub)
  unfolding session_event session_step
  session_event-Forgets (outgoing true) v h = absurd (cc)
  session_event-Forgets (outgoing false) v h = unregister-Forgets c hub v
  session_event-Forgets (ping_frame true) v h = absurd (cc)
  session_event-Forgets (ping_frame false) v h = unregister-Forgets c hub v
  session_event-Forgets (text t) v h = absurd (cc)
  session_event-Forgets close v h = unregister-Forgets c hub v
  session_event-Forgets no_more v h = unregister-Forgets c hub v
  session_event-Forgets failed v h = unregister-Forgets c hub v
  session_event-Forgets other v h = absurd (cc)

user_is : (o : Option Hub.ClientSession) (u : ℕ) → who o ≡ some (some u) → user_of o ≡ some u
user_is none u h = absurd (cc)
user_is (some s) u h = cc

-- A client that authenticates as a user and then as another one stays in the set of the first: it
-- still gets that user's private messages, and stays there when it has been unregistered.
pub unregister-keeps_first_user :
    (c first second : ℕ) (hub : BroadcasterHub)
    → is_connected c hub ≡ true
    → first ≢ second
    → let hub' = Hub.authenticate c second (Hub.authenticate c first hub) in
      (session_of c hub' ≡ some (some second))
      × (is_of c first hub' ≡ true)
      × (is_of c first (Hub.unregister c hub') ≡ true)
unregister-keeps_first_user c first second hub k ne =
    let hub1 = Hub.authenticate c first hub in
    let hub2 = Hub.authenticate c second hub1 in
    let session : session_of c hub2 ≡ some (some second) =
      ground (
        arith,
        k,
        session_of-authenticate c c first hub,
        session_of-authenticate c c second hub1,
      ) in
    let stays : is_of c first hub2 ≡ true =
      ground
        (arith, is_of-authenticate c hub first first c, is_of-authenticate c hub1 second first c) in
    (
      session,
      stays,
      ground (
        arith,
        ne,
        stays,
        is_of-unregister c hub2 first c,
        user_is (HashMap.get c hub2.clients) second session,
      ),
    )
