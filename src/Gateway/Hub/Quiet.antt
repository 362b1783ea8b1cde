-- ===== src/Gateway/Hub/Quiet.antt =====
-- What the sending operations of the hub leave as it is.
use cex_rs.Base.{
  ℕ, ◌≡◌, refl, sym, ◌∙◌, subst, String, Option, none, some, [], ◌∷◌, arith, nat_eq, string_eq,
  Option-cases, inl, inr,
}
use cex_rs.Base.HashMap
use cex_rs.Base.HashMap.{HashMap, get_or, IsMap}
use cex_rs.Base.HashSet.{HashSet, IsDistinct}
use cex_rs.Shared.Ws.{WsServerMsg}
use cex_rs.Gateway.Hub.{
  ClientSession, BroadcasterHub, push, push_all, send_to_client, broadcast_topic, send_private,
}
use cex_rs.Gateway.Hub.Delivery.{get-push}
use cex_rs.Gateway.Hub.Members.{IsWellFormed}

-- Is there a session, and which user does it have?
abbrev pub who : Option ClientSession → Option (Option ℕ)
who none = none
who (some s) = some s.user_id

pub record Quiet (hub hub' : BroadcasterHub) : Type 0 where
  pub topics : hub'.topics ≡ hub.topics
  pub user_clients : hub'.user_clients ≡ hub.user_clients
  pub next_client_id : hub'.next_client_id ≡ hub.next_client_id
  pub sessions : (c : ℕ) → who (HashMap.get c hub'.clients) ≡ who (HashMap.get c hub.clients)

pub Quiet-refl : (hub : BroadcasterHub) → Quiet hub hub
Quiet-refl hub = record {
  topics = refl;
  user_clients = refl;
  next_client_id = refl;
  sessions = λ c. refl;
}

pub Quiet-trans : (a b c : BroadcasterHub) → Quiet a b → Quiet b c → Quiet a c
Quiet-trans a b c p q = record {
  topics = q.topics ∙ p.topics;
  user_clients = q.user_clients ∙ p.user_clients;
  next_client_id = q.next_client_id ∙ p.next_client_id;
  sessions = λ i. q.sessions i ∙ p.sessions i;
}

pub Quiet-IsWellFormed : (a b : BroadcasterHub) → Quiet a b → IsWellFormed a → IsWellFormed b
Quiet-IsWellFormed a b q w = record {
  topics = subst IsMap (sym q.topics) w.topics;
  user_clients = subst IsMap (sym q.user_clients) w.user_clients;
  topic_sets = λ t. subst (λ m. IsDistinct (get_or t [] m)) (sym q.topics) (w.topic_sets t);
  user_sets = λ u. subst (λ m. IsDistinct (get_or u [] m)) (sym q.user_clients) (w.user_sets u);
}

who-push :
    (payload : String) (c cid : ℕ) (m : HashMap ℕ ClientSession)
    → who (HashMap.get c (push payload cid m)) ≡ who (HashMap.get c m)
who-push payload c cid m = elim (Option-cases (HashMap.get c m)) [
  | inl absent ↦ ground (arith, absent, get-push payload c cid m)
  | inr (s, found) ↦ ground (arith, found, get-push payload c cid m)
]

who-push_all :
    (payload : String) (c : ℕ) (cids : HashSet) (m : HashMap ℕ ClientSession)
    → who (HashMap.get c (push_all payload cids m)) ≡ who (HashMap.get c m)
unfolding push_all
who-push_all payload c [] m = refl
who-push_all payload c (cid ∷ cids) m =
    who-push_all payload c cids (push payload cid m) ∙ who-push payload c cid m

module _ (encode : WsServerMsg → Option String) (msg : WsServerMsg) (hub : BroadcasterHub) where
  with_clients :
      (m : HashMap ℕ ClientSession)
      → ((c : ℕ) → who (HashMap.get c m) ≡ who (HashMap.get c hub.clients))
      → Quiet hub (record hub { clients = m })
  with_clients m h = record {
    topics = refl;
    user_clients = refl;
    next_client_id = refl;
    sessions = h;
  }

  pub send_to_client-Quiet : (c : ℕ) → Quiet hub (send_to_client encode c msg hub)
  unfolding send_to_client
  send_to_client-Quiet cid =
      elim (encode msg)
        as (λ o. Quiet hub (elim o [
          | none ↦ hub
          | some payload ↦ record hub { clients = push payload cid hub.clients }
        ])) [
          | none ↦ Quiet-refl hub
          | some payload ↦ with_clients _ (λ c. who-push payload c cid hub.clients)
        ]

  abbrev sent_to : Option HashSet → Option String → BroadcasterHub
  sent_to o p = elim p [
    | none ↦ hub
    | some payload ↦ elim o [
      | none ↦ hub
      | some subs ↦ record hub { clients = push_all payload subs hub.clients }
    ]
  ]

  sent_to-Quiet : (o : Option HashSet) (p : Option String) → Quiet hub (sent_to o p)
  sent_to-Quiet o none = Quiet-refl hub
  sent_to-Quiet none (some payload) = Quiet-refl hub
  sent_to-Quiet (some subs) (some payload) =
      with_clients _ (λ c. who-push_all payload c subs hub.clients)

  pub broadcast_topic-Quiet : (topic : String) → Quiet hub (broadcast_topic encode topic msg hub)
  unfolding broadcast_topic
  broadcast_topic-Quiet topic = sent_to-Quiet (HashMap.get topic hub.topics) (encode msg)

  pub send_private-Quiet : (user_id : ℕ) → Quiet hub (send_private encode user_id msg hub)
  unfolding send_private
  send_private-Quiet user_id = sent_to-Quiet (HashMap.get user_id hub.user_clients) (encode msg)
