-- ===== src/Gateway/Hub/Valid.antt =====
-- The validity of the hub: connected clients in the topics, and clients of a session's user.
use cex_rs.Base.{
  ℕ, ◌+◌, ◌≤◌, ◌<◌, ◌≡◌, refl, ap, ◌∙◌, subst, String, Bool, true, false, ◌&&◌, Option, none, some,
  [], ◌⊎◌, inl, inr, arith, ◌==◌, nat_eq, string_eq, if◌then◌else◌, Option-cases,
}
use cex_rs.Base.HashMap
use cex_rs.Base.HashMap.{get_or}
use cex_rs.Base.HashSet.{contains}
use cex_rs.Base.Word.{u64_mod}
use cex_rs.Gateway.Hub.{
  ClientSession, BroadcasterHub, new, register, unregister, subscribe, unsubscribe, authenticate,
  user_of,
}
use cex_rs.Gateway.Hub.Members.{
  is_subscribed, is_of, is_some_of, IsWellFormed, is_subscribed-subscribe,
  is_subscribed-unsubscribe, is_subscribed-unregister, is_of-authenticate, is_of-unregister,
  user_clients-unsubscribe, clients-unsubscribe,
}
use cex_rs.Gateway.Hub.Quiet.{Quiet, Quiet-IsWellFormed, who}
use cex_rs.Gateway.Hub.WellFormed.{
  new-IsWellFormed, subscribe-IsWellFormed, unsubscribe-IsWellFormed, authenticate-IsWellFormed,
  unregister-IsWellFormed,
}

abbrev pub session_of : ℕ → BroadcasterHub → Option (Option ℕ)
session_of c hub = who (HashMap.get c hub.clients)

abbrev pub is_connected : ℕ → BroadcasterHub → Bool
is_connected c hub = elim (session_of c hub) [ none ↦ false | some o ↦ true ]

pub record IsValid (hub : BroadcasterHub) : Type 0 where
  pub well_formed : IsWellFormed hub
  pub connected :
      (c : ℕ) (topic : String) → is_subscribed c topic hub ≡ true → is_connected c hub ≡ true
  pub owned : (c u : ℕ) → is_of c u hub ≡ true → session_of c hub ≡ some (some u)
  pub fresh : (c : ℕ) → hub.next_client_id ≤ c → session_of c hub ≡ none

pub new-IsValid : IsValid new
unfolding new HashMap.get contains
new-IsValid = record {
  well_formed = new-IsWellFormed;
  connected = λ c t h. absurd (cc);
  owned = λ c u h. absurd (cc);
  fresh = λ c h. refl;
}

pub Quiet-IsValid : (a b : BroadcasterHub) → Quiet a b → IsValid a → IsValid b
Quiet-IsValid a b q v = record {
  well_formed = Quiet-IsWellFormed a b q v.well_formed;
  connected = λ c t h.
      let k = v.connected c t (subst (λ m. contains c (get_or t [] m) ≡ true) q.topics h) in
      ground (arith, k, q.sessions c);
  owned = λ c u h.
      q.sessions c ∙ v.owned c u (subst (λ m. contains c (get_or u [] m) ≡ true) q.user_clients h);
  fresh = λ c h. q.sessions c ∙ v.fresh c (rw (← q.next_client_id) h);
}

pub user_of-who :
    (o : Option ClientSession) (u : ℕ) → who o ≡ some (some u) → is_some_of u (user_of o) ≡ true
user_of-who none u h = absurd (cc)
user_of-who (some s) u h = ground (arith, h)

pub session_of-authenticate :
    (c' c user_id : ℕ) (hub : BroadcasterHub)
    → session_of c' (authenticate c user_id hub)
      ≡ (if c' == c && is_connected c hub then some (some user_id) else session_of c' hub)
unfolding authenticate
session_of-authenticate c' c user_id hub = elim (Option-cases (HashMap.get c hub.clients)) [
  | inl absent ↦ ground (arith, absent)
  | inr (s, found) ↦
      ground
        (arith, found, HashMap.get-insert c' c (record s { user_id = some user_id }) hub.clients)
]

pub session_of-unregister :
    (c' c : ℕ) (hub : BroadcasterHub)
    → session_of c' (unregister c hub) ≡ (if c' == c then none else session_of c' hub)
unfolding unregister
session_of-unregister c' c hub = ground (arith, HashMap.get-remove c' c hub.clients)

next-unsubscribe :
    (c : ℕ) (topic : String) (hub : BroadcasterHub)
    → (unsubscribe c topic hub).next_client_id ≡ hub.next_client_id
unfolding unsubscribe
next-unsubscribe c topic hub = ground arith

next-authenticate :
    (c u : ℕ) (hub : BroadcasterHub) → (authenticate c u hub).next_client_id ≡ hub.next_client_id
unfolding authenticate
next-authenticate c u hub = refl

next-unregister :
    (c : ℕ) (hub : BroadcasterHub) → (unregister c hub).next_client_id ≡ hub.next_client_id
unfolding unregister
next-unregister c hub = refl

topics-authenticate : (c u : ℕ) (hub : BroadcasterHub) → (authenticate c u hub).topics ≡ hub.topics
unfolding authenticate
topics-authenticate c u hub = refl

module _ (hub : BroadcasterHub) (v : IsValid hub) where
  pub register-IsValid : hub.next_client_id + 1 < u64_mod → IsValid (register hub).0
  unfolding register
  register-IsValid room =
      let got = λ (c : ℕ).
        HashMap.get-insert c hub.next_client_id (record { queue = []; user_id = none })
          hub.clients in
      record {
        well_formed = record {
          topics = v.well_formed.topics;
          user_clients = v.well_formed.user_clients;
          topic_sets = v.well_formed.topic_sets;
          user_sets = v.well_formed.user_sets;
        };
        connected = λ c t h. ground (arith, got c, v.connected c t h);
        owned = λ c u h. ground (arith, got c, v.owned c u h, v.fresh c);
        fresh = λ c h. ground (arith, got c, v.fresh c);
      }

  pub subscribe-IsValid :
      (c : ℕ) (topic : String) → is_connected c hub ≡ true → IsValid (subscribe c topic hub)
  unfolding subscribe
  subscribe-IsValid c topic k = record {
    well_formed = subscribe-IsWellFormed hub v.well_formed c topic;
    connected =
        λ c' t h. ground (arith, k, h, is_subscribed-subscribe c' hub topic t c, v.connected c' t);
    owned = v.owned;
    fresh = v.fresh;
  }

  pub unsubscribe-IsValid : (c : ℕ) (topic : String) → IsValid (unsubscribe c topic hub)
  unsubscribe-IsValid c topic =
      let same = λ (i : ℕ). ap (λ m. who (HashMap.get i m)) (clients-unsubscribe c topic hub) in
      record {
        well_formed = unsubscribe-IsWellFormed hub v.well_formed c topic;
        connected = λ c' t h.
            ground
              (arith, h, same c', is_subscribed-unsubscribe c' hub topic t c, v.connected c' t);
        owned = λ c' u h.
            same c'
            ∙ v.owned c' u (
                subst (λ m. contains c' (get_or u [] m) ≡ true)
                  (user_clients-unsubscribe c topic hub) h);
        fresh = λ c' h. same c' ∙ v.fresh c' (subst (λ n. n ≤ c') (next-unsubscribe c topic hub) h);
      }

  pub authenticate-IsValid :
      (c user_id : ℕ)
      → (session_of c hub ≡ some none) ⊎ (session_of c hub ≡ some (some user_id))
      → IsValid (authenticate c user_id hub)
  authenticate-IsValid c user_id k = record {
    well_formed = authenticate-IsWellFormed hub v.well_formed c user_id;
    connected = λ c' t h.
        let before =
          subst (λ m. contains c' (get_or t [] m) ≡ true) (topics-authenticate c user_id hub) h in
        ground (arith, session_of-authenticate c' c user_id hub, v.connected c' t before);
    owned = λ c' u h. ground (
      arith,
      h,
      k,
      is_of-authenticate c' hub user_id u c,
      session_of-authenticate c' c user_id hub,
      v.owned c' u,
    );
    fresh = λ c' h.
        let before = v.fresh c' (subst (λ n. n ≤ c') (next-authenticate c user_id hub) h) in
        ground (arith, before, session_of-authenticate c' c user_id hub);
  }

  pub unregister-IsValid : (c : ℕ) → IsValid (unregister c hub)
  unregister-IsValid c = record {
    well_formed = unregister-IsWellFormed hub v.well_formed c;
    connected = λ c' t h. ground (
      arith,
      h,
      is_subscribed-unregister c' hub t c v.well_formed,
      session_of-unregister c' c hub,
      v.connected c' t,
    );
    owned = λ c' u h. ground (
      arith,
      h,
      is_of-unregister c' hub u c,
      session_of-unregister c' c hub,
      v.owned c' u,
      user_of-who (HashMap.get c hub.clients) u,
    );
    fresh = λ c' h.
        let before = v.fresh c' (subst (λ n. n ≤ c') (next-unregister c hub) h) in
        ground (arith, before, session_of-unregister c' c hub);
  }
