-- ===== src/Gateway/Hub.antt =====
-- rs-gateway/src/ws/hub.rs: the registry of the WebSocket clients, their topics and their users. An
-- operation is one step here; the code takes one lock after the other in it.
pub mod Delivery
pub mod Members
pub mod WellFormed
pub mod Quiet
pub mod Valid
use cex_rs.Base.{
  ℕ, String, Bool, not, Option, none, some, List, [], ◌∷◌, ◌++◌, is_empty, if◌then◌else◌, nat_eq,
  string_eq, map, select,
}
use cex_rs.Base.HashMap
use cex_rs.Base.HashMap.{HashMap, get_or}
use cex_rs.Base.HashSet
use cex_rs.Base.HashSet.{HashSet}
use cex_rs.Base.Word.{add64}
use cex_rs.Shared.Ws.{WsServerMsg}

-- `queue` is what has been sent through `tx`.
pub record ClientSession : Type 0 where
  pub queue : List String
  pub user_id : Option ℕ

pub record BroadcasterHub : Type 0 where
  pub next_client_id : ℕ
  pub clients : HashMap ℕ ClientSession
  pub topics : HashMap String HashSet
  pub user_clients : HashMap ℕ HashSet

unfoldable pub new : BroadcasterHub
new = record { next_client_id = 1; clients = []; topics = []; user_clients = [] }

-- The hub and the identifier of the client.
unfoldable pub register : BroadcasterHub → BroadcasterHub × ℕ
register hub = (
  record hub {
    next_client_id = add64 hub.next_client_id 1;
    clients = HashMap.insert hub.next_client_id (record { queue = []; user_id = none }) hub.clients;
  },
  hub.next_client_id,
)

-- `for subs in topics.values_mut() { subs.remove(..) }`, then `retain` those that are not empty.
unfoldable pub forget_client : ℕ → HashMap String HashSet → HashMap String HashSet
forget_client client_id topics =
    select (λ e. not (is_empty e.1)) (map (λ e. (e.0, HashSet.remove client_id e.1)) topics)

unfoldable pub forget_user : ℕ → ℕ → HashMap ℕ HashSet → HashMap ℕ HashSet
forget_user client_id user_id m = elim (HashMap.get user_id m) [
  | none ↦ m
  | some subs ↦
      let rest = HashSet.remove client_id subs in
      if is_empty rest then HashMap.remove user_id m else HashMap.insert user_id rest m
]

abbrev pub user_of : Option ClientSession → Option ℕ
user_of none = none
user_of (some s) = s.user_id

unfoldable pub unregister : ℕ → BroadcasterHub → BroadcasterHub
unregister client_id hub = record hub {
  clients = HashMap.remove client_id hub.clients;
  topics = forget_client client_id hub.topics;
  user_clients = elim (user_of (HashMap.get client_id hub.clients)) [
    | none ↦ hub.user_clients
    | some uid ↦ forget_user client_id uid hub.user_clients
  ];
}

unfoldable pub subscribe : ℕ → String → BroadcasterHub → BroadcasterHub
subscribe client_id topic hub = record hub {
  topics = HashMap.insert topic (HashSet.insert client_id (get_or topic [] hub.topics)) hub.topics;
}

unfoldable pub unsubscribe : ℕ → String → BroadcasterHub → BroadcasterHub
unsubscribe client_id topic hub = elim (HashMap.get topic hub.topics) [
  | none ↦ hub
  | some subs ↦ record hub {
    topics = HashMap.insert topic (HashSet.remove client_id subs) hub.topics;
  }
]

-- The session gets the user, if it is there; the client goes into the user's set in any case.
unfoldable pub authenticate : ℕ → ℕ → BroadcasterHub → BroadcasterHub
authenticate client_id user_id hub = record hub {
  clients = elim (HashMap.get client_id hub.clients) [
    | none ↦ hub.clients
    | some session ↦
        HashMap.insert client_id (record session { user_id = some user_id }) hub.clients
  ];
  user_clients =
      HashMap.insert user_id (HashSet.insert client_id (get_or user_id [] hub.user_clients))
        hub.user_clients;
}

-- `if let Some(session) = clients.get(&cid) { session.tx.send(payload) }`
unfoldable pub push : String → ℕ → HashMap ℕ ClientSession → HashMap ℕ ClientSession
push payload cid clients = elim (HashMap.get cid clients) [
  | none ↦ clients
  | some session ↦
      HashMap.insert cid (record session { queue = session.queue ++ payload ∷ [] }) clients
]

-- The loop over the subscribers.
unfoldable pub push_all : String → HashSet → HashMap ℕ ClientSession → HashMap ℕ ClientSession
push_all payload [] clients = clients
push_all payload (cid ∷ cids) clients = push_all payload cids (push payload cid clients)

-- `encode` is `serde_json::to_string`.
module _ (encode : WsServerMsg → Option String) where
  unfoldable pub send_to_client : ℕ → WsServerMsg → BroadcasterHub → BroadcasterHub
  send_to_client client_id msg hub = elim (encode msg) [
    | none ↦ hub
    | some payload ↦ record hub { clients = push payload client_id hub.clients }
  ]

  unfoldable pub broadcast_topic : String → WsServerMsg → BroadcasterHub → BroadcasterHub
  broadcast_topic topic msg hub = elim (encode msg) [
    | none ↦ hub
    | some payload ↦ elim (HashMap.get topic hub.topics) [
      | none ↦ hub
      | some subs ↦ record hub { clients = push_all payload subs hub.clients }
    ]
  ]

  unfoldable pub send_private : ℕ → WsServerMsg → BroadcasterHub → BroadcasterHub
  send_private user_id msg hub = elim (encode msg) [
    | none ↦ hub
    | some payload ↦ elim (HashMap.get user_id hub.user_clients) [
      | none ↦ hub
      | some subs ↦ record hub { clients = push_all payload subs hub.clients }
    ]
  ]
