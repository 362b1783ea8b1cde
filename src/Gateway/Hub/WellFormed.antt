-- ===== src/Gateway/Hub/WellFormed.antt =====
-- The maps and sets of the hub through its operations.
use cex_rs.Base.{
  ℕ, ◌≡◌, refl, sym, subst, String, Bool, true, false, none, some, [], ◌∷◌, is_empty, arith, nat_eq,
  string_eq, if◌then◌else◌, Option-cases, inl, inr,
}
use cex_rs.Base.HashMap
use cex_rs.Base.HashMap.{HashMap, get_or, IsMap}
use cex_rs.Base.HashSet
use cex_rs.Base.HashSet.{HashSet, contains, IsDistinct}
use cex_rs.Gateway.Hub.{
  BroadcasterHub, new, unregister, subscribe, unsubscribe, authenticate, forget_client, forget_user,
  user_of,
}
use cex_rs.Gateway.Hub.Members.{
  IsWellFormed, get_or-insert, get_or-forget_client, get_or-forget_user,
}

pub new-IsWellFormed : IsWellFormed new
unfolding new HashMap.get
new-IsWellFormed = record {
  topics = tt;
  user_clients = tt;
  topic_sets = λ t. tt;
  user_sets = λ u. tt;
}

get-forget_client :
    (c : ℕ) (topic : String) (m : HashMap String HashSet)
    → HashMap.get topic m ≡ none
    → HashMap.get topic (forget_client c m) ≡ none
unfolding forget_client HashMap.get
get-forget_client c topic [] h = refl
get-forget_client c topic ((t, subs) ∷ m) h = ground (arith, get-forget_client c topic m)

forget_client-IsMap : (c : ℕ) (m : HashMap String HashSet) → IsMap m → IsMap (forget_client c m)
unfolding forget_client
forget_client-IsMap c [] h = tt
forget_client-IsMap c ((t, subs) ∷ m) h =
    ground (arith, get-forget_client c t m h.0, forget_client-IsMap c m h.1)

if-IsMap : (b : Bool) (x y : HashMap ℕ HashSet) → IsMap x → IsMap y → IsMap (if b then x else y)
if-IsMap true x y h k = h
if-IsMap false x y h k = k

forget_user-IsMap :
    (c user_id : ℕ) (m : HashMap ℕ HashSet) → IsMap m → IsMap (forget_user c user_id m)
unfolding forget_user
forget_user-IsMap c user_id m h =
    elim (HashMap.get user_id m)
      as (λ o. IsMap (elim o [
        | none ↦ m
        | some subs ↦
            let rest = HashSet.remove c subs in
            if is_empty rest then HashMap.remove user_id m else HashMap.insert user_id rest m
      ])) [
        | none ↦ h
        | some subs ↦
            if-IsMap (is_empty (HashSet.remove c subs)) _ _ (HashMap.remove-IsMap user_id m h)
              (HashMap.insert-IsMap user_id (HashSet.remove c subs) m h)
      ]

module _ (hub : BroadcasterHub) (w : IsWellFormed hub) where
  pub subscribe-IsWellFormed : (c : ℕ) (topic : String) → IsWellFormed (subscribe c topic hub)
  unfolding subscribe
  subscribe-IsWellFormed c topic = record {
    topics = HashMap.insert-IsMap topic _ hub.topics w.topics;
    user_clients = w.user_clients;
    topic_sets = λ t. ground (
      arith,
      get_or-insert [] (HashSet.insert c (get_or topic [] hub.topics)) t topic hub.topics,
      HashSet.insert-IsDistinct c (get_or topic [] hub.topics) (w.topic_sets topic),
      w.topic_sets t,
    );
    user_sets = w.user_sets;
  }

  without :
      (c : ℕ) (topic : String) (subs : HashSet)
      → HashMap.get topic hub.topics ≡ some subs
      → IsWellFormed
          (record hub { topics = HashMap.insert topic (HashSet.remove c subs) hub.topics })
  without c topic subs found = record {
    topics = HashMap.insert-IsMap topic (HashSet.remove c subs) hub.topics w.topics;
    user_clients = w.user_clients;
    topic_sets = λ t. ground (
      arith,
      found,
      get_or-insert [] (HashSet.remove c subs) t topic hub.topics,
      HashSet.remove-IsDistinct c subs,
      w.topic_sets topic,
      w.topic_sets t,
    );
    user_sets = w.user_sets;
  }

  pub unsubscribe-IsWellFormed : (c : ℕ) (topic : String) → IsWellFormed (unsubscribe c topic hub)
  unfolding unsubscribe
  unsubscribe-IsWellFormed c topic =
      let absent : HashMap.get topic hub.topics ≡ none → IsWellFormed (unsubscribe c topic hub) =
        λ e. rw (e, unsubscribe) w in
      let present : (subs : HashSet)
          → HashMap.get topic hub.topics ≡ some subs
          → IsWellFormed (unsubscribe c topic hub) =
        λ subs e. rw (e, unsubscribe) (without c topic subs e) in
      elim (Option-cases (HashMap.get topic hub.topics)) [
        | inl e ↦ absent e
        | inr (subs, e) ↦ present subs e
      ]

  pub authenticate-IsWellFormed : (c user_id : ℕ) → IsWellFormed (authenticate c user_id hub)
  unfolding authenticate
  authenticate-IsWellFormed c user_id = record {
    topics = w.topics;
    user_clients = HashMap.insert-IsMap user_id _ hub.user_clients w.user_clients;
    topic_sets = w.topic_sets;
    user_sets = λ u. ground (
      arith,
      get_or-insert [] (HashSet.insert c (get_or user_id [] hub.user_clients)) u user_id
          hub.user_clients,
      HashSet.insert-IsDistinct c (get_or user_id [] hub.user_clients) (w.user_sets user_id),
      w.user_sets u,
    );
  }

  pub unregister-IsWellFormed : (c : ℕ) → IsWellFormed (unregister c hub)
  unfolding unregister
  unregister-IsWellFormed c = record {
    topics = forget_client-IsMap c hub.topics w.topics;
    user_clients =
        elim (user_of (HashMap.get c hub.clients))
          as (λ o.
            IsMap (elim o [
              | none ↦ hub.user_clients
              | some uid ↦ forget_user c uid hub.user_clients
            ])) [
              | none ↦ w.user_clients
              | some uid ↦ forget_user-IsMap c uid hub.user_clients w.user_clients
            ];
    topic_sets = λ t.
        subst IsDistinct (sym (get_or-forget_client c t hub.topics w.topics))
          (HashSet.remove-IsDistinct c _ (w.topic_sets t));
    user_sets = λ u.
        elim (user_of (HashMap.get c hub.clients))
          as (λ o. IsDistinct (
            get_or u [] (elim o [
              | none ↦ hub.user_clients
              | some uid ↦ forget_user c uid hub.user_clients
            ]))) [
              | none ↦ w.user_sets u
              | some uid ↦ ground (
                arith,
                get_or-forget_user c uid u hub.user_clients,
                HashSet.remove-IsDistinct c (get_or u [] hub.user_clients) (w.user_sets u),
                w.user_sets u,
              )
            ];
  }
