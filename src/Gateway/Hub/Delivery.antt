-- ===== src/Gateway/Hub/Delivery.antt =====
-- Who gets a message.
use cex_rs.Base.{
  ℕ, ◌≡◌, refl, String, Option, none, some, [], ◌∷◌, ◌++◌, arith, ◌==◌, nat_eq, string_eq,
  if◌then◌else◌, Option-cases, inl, inr,
}
use cex_rs.Base.HashMap
use cex_rs.Base.HashMap.{HashMap, get_or}
use cex_rs.Base.HashSet.{HashSet, contains, IsDistinct}
use cex_rs.Shared.Ws.{WsServerMsg}
use cex_rs.Gateway.Hub.{
  ClientSession, BroadcasterHub, push, push_all, send_to_client, broadcast_topic, send_private,
}
use cex_rs.Gateway.Hub.Members.{IsWellFormed, is_subscribed, is_of}

-- A client that has been sent the payload, if it is there.
abbrev pub sent : String → Option ClientSession → Option ClientSession
sent payload none = none
sent payload (some s) = some (record s { queue = s.queue ++ payload ∷ [] })

pub get-push :
    (payload : String) (c cid : ℕ) (m : HashMap ℕ ClientSession)
    → HashMap.get c (push payload cid m)
      ≡ (if c == cid then sent payload (HashMap.get c m) else HashMap.get c m)
unfolding push
get-push payload c cid m = elim (Option-cases (HashMap.get cid m)) [
  | inl absent ↦ ground (arith, absent, nat_eq.agree c cid)
  | inr (s, found) ↦ ground (
    arith,
    found,
    HashMap.get-insert c cid (record s { queue = s.queue ++ payload ∷ [] }) m,
    nat_eq.agree c cid,
  )
]

get-push_all :
    (payload : String) (c : ℕ) (cids : HashSet) (m : HashMap ℕ ClientSession)
    → IsDistinct cids
    → HashMap.get c (push_all payload cids m)
      ≡ (if contains c cids then sent payload (HashMap.get c m) else HashMap.get c m)
unfolding push_all contains
get-push_all payload c [] m h = refl
get-push_all payload c (cid ∷ cids) m h =
    ground (arith, get-push_all payload c cids (push payload cid m) h.1, get-push payload c cid m)

module _ (encode : WsServerMsg → Option String) (msg : WsServerMsg) (payload : String)
    (encodes : encode msg ≡ some payload) (hub : BroadcasterHub) where
  -- A message to a client is sent to it once, if it is connected, and to no other.
  pub send_to_client-sent :
      (c client_id : ℕ)
      → HashMap.get c (send_to_client encode client_id msg hub).clients ≡ (
          if c == client_id
          then sent payload (HashMap.get c hub.clients)
          else HashMap.get c hub.clients)
  unfolding send_to_client
  send_to_client-sent c client_id =
      ground (arith, encodes, get-push payload c client_id hub.clients)

  module _ (w : IsWellFormed hub) where
    -- A message on a topic is sent once to each connected client that is subscribed to the topic,
    -- and to no other, where the maps and sets of the hub are ones and it can be serialised.
    pub broadcast_topic-sent :
        (topic : String) (c : ℕ)
        → HashMap.get c (broadcast_topic encode topic msg hub).clients ≡ (
            if is_subscribed c topic hub
            then sent payload (HashMap.get c hub.clients)
            else HashMap.get c hub.clients)
    unfolding broadcast_topic contains
    broadcast_topic-sent topic c = elim (Option-cases (HashMap.get topic hub.topics)) [
      | inl absent ↦ ground (arith, encodes, absent)
      | inr (subs, found) ↦
          ground
            (arith, encodes, found, get-push_all payload c subs hub.clients, w.topic_sets topic)
    ]

    -- A message to a user is sent once to each connected client in the user's set, and to no other.
    pub send_private-sent :
        (user_id c : ℕ)
        → HashMap.get c (send_private encode user_id msg hub).clients ≡ (
            if is_of c user_id hub
            then sent payload (HashMap.get c hub.clients)
            else HashMap.get c hub.clients)
    unfolding send_private contains
    send_private-sent user_id c = elim (Option-cases (HashMap.get user_id hub.user_clients)) [
      | inl absent ↦ ground (arith, encodes, absent)
      | inr (subs, found) ↦
          ground
            (arith, encodes, found, get-push_all payload c subs hub.clients, w.user_sets user_id)
    ]
