-- ===== src/Gateway/Hub/Members.antt =====
-- Who is subscribed to a topic and who is a client of a user, through the operations of the hub.
use cex_rs.Base.{
  ℕ, ◌≡◌, refl, ap, ◌∙◌, String, Bool, true, false, not, ◌&&◌, ◌||◌, Option, none, some, [], ◌∷◌,
  is_empty, arith, ◌==◌, nat_eq, string_eq, Eq, if◌then◌else◌, Option-cases, inl, inr,
}
use cex_rs.Base.HashMap
use cex_rs.Base.HashMap.{HashMap, get_or, IsMap}
use cex_rs.Base.HashSet
use cex_rs.Base.HashSet.{HashSet, contains, IsDistinct}
use cex_rs.Gateway.Hub.{
  BroadcasterHub, unregister, subscribe, unsubscribe, authenticate, forget_client, forget_user,
  user_of,
}

-- Is the client subscribed to the topic? Does it get the private messages of the user?
abbrev pub is_subscribed : ℕ → String → BroadcasterHub → Bool
is_subscribed c topic hub = contains c (get_or topic [] hub.topics)

abbrev pub is_of : ℕ → ℕ → BroadcasterHub → Bool
is_of c user_id hub = contains c (get_or user_id [] hub.user_clients)

abbrev pub is_some_of : ℕ → Option ℕ → Bool
is_some_of u none = false
is_some_of u (some v) = u == v

-- The maps and sets are ones.
pub record IsWellFormed (hub : BroadcasterHub) : Type 0 where
  pub topics : IsMap hub.topics
  pub user_clients : IsMap hub.user_clients
  pub topic_sets : (topic : String) → IsDistinct (get_or topic [] hub.topics)
  pub user_sets : (user_id : ℕ) → IsDistinct (get_or user_id [] hub.user_clients)

pub get_or-insert :
    {K V : Type 0} ⦃e : Eq K⦄ (d v : V) (j k : K) (m : HashMap K V)
    → get_or j d (HashMap.insert k v m) ≡ (if j == k then v else get_or j d m)
get_or-insert d v j k m = ground (arith, HashMap.get-insert j k v m)

pub get_or-remove :
    {K V : Type 0} ⦃e : Eq K⦄ (d : V) (j k : K) (m : HashMap K V)
    → get_or j d (HashMap.remove k m) ≡ (if j == k then d else get_or j d m)
get_or-remove d j k m = ground (arith, HashMap.get-remove j k m)

nothing_left : (xs : HashSet) → is_empty xs ≡ true → xs ≡ []
nothing_left [] h = refl
nothing_left (x ∷ xs) h = absurd (cc)

-- Removing a client from all sets, and dropping those that it leaves empty.
pub get_or-forget_client :
    (c : ℕ) (topic : String) (m : HashMap String HashSet)
    → IsMap m
    → get_or topic [] (forget_client c m) ≡ HashSet.remove c (get_or topic [] m)
unfolding forget_client HashMap.get HashSet.remove
get_or-forget_client c topic [] h = refl
get_or-forget_client c topic ((t, subs) ∷ m) h = ground (
  arith,
  get_or-forget_client c topic m h.1,
  nothing_left (HashSet.remove c subs),
  string_eq.agree topic t,
  h.0,
)

pub get_or-forget_user :
    (c user_id u : ℕ) (m : HashMap ℕ HashSet)
    → get_or u [] (forget_user c user_id m)
      ≡ (if u == user_id then HashSet.remove c (get_or u [] m) else get_or u [] m)
unfolding forget_user HashSet.remove
get_or-forget_user c user_id u m = elim (Option-cases (HashMap.get user_id m)) [
  | inl absent ↦ ground (arith, absent, nat_eq.agree u user_id)
  | inr (subs, found) ↦ ground (
    arith,
    found,
    nothing_left (HashSet.remove c subs),
    get_or-remove [] u user_id m,
    get_or-insert [] (HashSet.remove c subs) u user_id m,
  )
]

module _ (c : ℕ) (hub : BroadcasterHub) where
  pub is_subscribed-subscribe :
      (topic t : String) (c' : ℕ)
      → is_subscribed c t (subscribe c' topic hub)
        ≡ (c == c' && t == topic) || is_subscribed c t hub
  unfolding subscribe
  is_subscribed-subscribe topic t c' = ground (
    arith,
    get_or-insert [] (HashSet.insert c' (get_or topic [] hub.topics)) t topic hub.topics,
    HashSet.contains-insert c c' (get_or topic [] hub.topics),
    string_eq.agree t topic,
  )

  pub is_subscribed-unsubscribe :
      (topic t : String) (c' : ℕ)
      → is_subscribed c t (unsubscribe c' topic hub)
        ≡ not (c == c' && t == topic) && is_subscribed c t hub
  unfolding unsubscribe contains
  is_subscribed-unsubscribe topic t c' = elim (Option-cases (HashMap.get topic hub.topics)) [
    | inl absent ↦ ground (arith, absent, string_eq.agree t topic)
    | inr (subs, found) ↦ ground (
      arith,
      found,
      get_or-insert [] (HashSet.remove c' subs) t topic hub.topics,
      HashSet.contains-remove c c' subs,
      string_eq.agree t topic,
    )
  ]

  pub is_subscribed-unregister :
      (t : String) (c' : ℕ)
      → IsWellFormed hub
      → is_subscribed c t (unregister c' hub) ≡ not (c == c') && is_subscribed c t hub
  unfolding unregister
  is_subscribed-unregister t c' w =
      ap (contains c) (get_or-forget_client c' t hub.topics w.topics)
      ∙ HashSet.contains-remove c c' (get_or t [] hub.topics)

  pub is_of-authenticate :
      (user_id u c' : ℕ)
      → is_of c u (authenticate c' user_id hub) ≡ (c == c' && u == user_id) || is_of c u hub
  unfolding authenticate
  is_of-authenticate user_id u c' = ground (
    arith,
    get_or-insert [] (HashSet.insert c' (get_or user_id [] hub.user_clients)) u user_id
        hub.user_clients,
    HashSet.contains-insert c c' (get_or user_id [] hub.user_clients),
  )

  -- The client leaves the set of the user that its session has.
  pub is_of-unregister :
      (u c' : ℕ)
      → is_of c u (unregister c' hub)
        ≡ not (c == c' && is_some_of u (user_of (HashMap.get c' hub.clients))) && is_of c u hub
  unfolding unregister
  is_of-unregister u c' = elim (Option-cases (user_of (HashMap.get c' hub.clients))) [
    | inl nobody ↦ ground (arith, nobody)
    | inr (user_id, known) ↦ ground (
      arith,
      known,
      get_or-forget_user c' user_id u hub.user_clients,
      HashSet.contains-remove c c' (get_or u [] hub.user_clients),
    )
  ]

-- Topics are apart from users and sessions.
pub user_clients-unsubscribe :
    (c : ℕ) (topic : String) (hub : BroadcasterHub)
    → (unsubscribe c topic hub).user_clients ≡ hub.user_clients
unfolding unsubscribe
user_clients-unsubscribe c topic hub = ground arith

pub clients-unsubscribe :
    (c : ℕ) (topic : String) (hub : BroadcasterHub)
    → (unsubscribe c topic hub).clients ≡ hub.clients
unfolding unsubscribe
clients-unsubscribe c topic hub = ground arith
