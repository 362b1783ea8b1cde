-- ===== src/Gateway/Replies/Correlated.antt =====
-- Which reply of the queue a request of `send_and_wait` gets.
use cex_rs.Base.{
  ℕ, ◌≡◌, ◌≢◌, refl, sym, subst, String, Bool, false, Option, none, some, List, [], ◌∷◌, arith,
  ◌==◌, nat_eq, string_eq, if◌then◌else◌, Result, ok, err, Bool-cases, Option-cases, inl, inr,
}
use cex_rs.Base.HashMap
use cex_rs.Base.HashMap.{HashMap}
use cex_rs.Gateway.Replies.{Replies, deliver, on_pop, enter, begin_request}

-- What happens to the map: other requests, and pops.
pub data Happening : Type 0 where
  request :
      (channel : String) (encoded : Option String) (xadd : Bool) (identifier : String) (tx : ℕ)
      → Happening
  pop : Result (Option String) String → Happening

module _ (identifier_of : String → Option String) where
  abbrev pub happen : Happening → Replies → Replies
  happen (request channel encoded xadd identifier tx) r =
      (begin_request channel encoded xadd identifier tx r).0
  happen (pop result) r = on_pop identifier_of result r

  abbrev pub happen_all : List Happening → Replies → Replies
  happen_all [] r = r
  happen_all (h ∷ hs) r = happen_all hs (happen h r)

  module _ (id : String) (tx : ℕ) where
    -- The identifier and the sender are used for no other request, as with a uuid and a new channel.
    abbrev pub Unused : List Happening → Type 0
    Unused [] = Unit {0}
    Unused (request channel encoded xadd identifier tx' ∷ hs) =
        (identifier ≢ id) × (tx' ≢ tx) × Unused hs
    Unused (pop result ∷ hs) = Unused hs

    abbrev is_mine : String → Bool
    is_mine payload = elim (identifier_of payload) [ none ↦ false | some i ↦ i == id ]

    -- The first payload that names the identifier.
    abbrev pub first_reply : List Happening → Option String
    first_reply [] = none
    first_reply (request channel encoded xadd identifier tx' ∷ hs) = first_reply hs
    first_reply (pop (ok none) ∷ hs) = first_reply hs
    first_reply (pop (err e) ∷ hs) = first_reply hs
    first_reply (pop (ok (some payload)) ∷ hs) =
        let rest = first_reply hs in if is_mine payload then some payload else rest

    abbrev OwnSender : Replies → Type 0
    OwnSender r = (i : String) (t : ℕ) → i ≢ id → HashMap.get i r.pending ≡ some t → t ≢ tx

    record IsWaiting (r : Replies) : Type 0 where
      waits : HashMap.get id r.pending ≡ some tx
      own : OwnSender r
      nothing : HashMap.get tx r.sent ≡ none

    record IsAnswered (payload : String) (r : Replies) : Type 0 where
      gone : HashMap.get id r.pending ≡ none
      own : OwnSender r
      there : HashMap.get tx r.sent ≡ some payload

    request-IsWaiting :
        (i : String) (t : ℕ) (r : Replies) → i ≢ id → t ≢ tx → IsWaiting r → IsWaiting (enter i t r)
    unfolding enter
    request-IsWaiting i t r ne nt w = record {
      waits =
          ground (arith, ne, HashMap.get-insert id i t r.pending, string_eq.agree id i, w.waits);
      own = λ j u nj found.
          ground (arith, found, nt, HashMap.get-insert j i t r.pending, w.own j u nj);
      nothing = w.nothing;
    }

    request-IsAnswered :
        (payload i : String) (t : ℕ) (r : Replies)
        → i ≢ id
        → t ≢ tx
        → IsAnswered payload r
        → IsAnswered payload (enter i t r)
    unfolding enter
    request-IsAnswered payload i t r ne nt a = record {
      gone = ground (arith, ne, HashMap.get-insert id i t r.pending, string_eq.agree id i, a.gone);
      own = λ j u nj found.
          ground (arith, found, nt, HashMap.get-insert j i t r.pending, a.own j u nj);
      there = a.there;
    }

    answered : String → String → ℕ → Replies → Replies
    answered i payload t r = record {
      pending = HashMap.remove i r.pending;
      sent = HashMap.insert t payload r.sent;
    }

    -- A reply to another request.
    other-IsWaiting :
        (i payload : String) (t : ℕ) (r : Replies)
        → i ≢ id
        → HashMap.get i r.pending ≡ some t
        → IsWaiting r
        → IsWaiting (answered i payload t r)
    unfolding answered
    other-IsWaiting i payload t r ne found w = record {
      waits = ground (arith, ne, HashMap.get-remove id i r.pending, string_eq.agree id i, w.waits);
      own = λ j u nj f. ground (arith, f, HashMap.get-remove j i r.pending, w.own j u nj);
      nothing =
          ground (arith, HashMap.get-insert tx t payload r.sent, w.nothing, w.own i t ne found);
    }

    other-IsAnswered :
        (i payload mine : String) (t : ℕ) (r : Replies)
        → i ≢ id
        → HashMap.get i r.pending ≡ some t
        → IsAnswered mine r
        → IsAnswered mine (answered i payload t r)
    unfolding answered
    other-IsAnswered i payload mine t r ne found a = record {
      gone = ground (arith, ne, HashMap.get-remove id i r.pending, string_eq.agree id i, a.gone);
      own = λ j u nj f. ground (arith, f, HashMap.get-remove j i r.pending, a.own j u nj);
      there = ground (arith, HashMap.get-insert tx t payload r.sent, a.there, a.own i t ne found);
    }

    deliver-absent :
        (i payload : String) (r : Replies)
        → HashMap.get i r.pending ≡ none
        → deliver i payload r ≡ r
    unfolding deliver
    deliver-absent i payload r absent = rw (absent, deliver) refl

    deliver-found :
        (i payload : String) (t : ℕ) (r : Replies)
        → HashMap.get i r.pending ≡ some t
        → deliver i payload r ≡ answered i payload t r
    unfolding deliver answered
    deliver-found i payload t r found = rw (found, deliver) refl

    deliver-IsWaiting :
        (i payload : String) (r : Replies) → i ≢ id → IsWaiting r → IsWaiting (deliver i payload r)
    deliver-IsWaiting i payload r ne w = elim (Option-cases (HashMap.get i r.pending)) [
      | inl absent ↦ subst IsWaiting (sym (deliver-absent i payload r absent)) w
      | inr (t, found) ↦
          subst IsWaiting (sym (deliver-found i payload t r found))
            (other-IsWaiting i payload t r ne found w)
    ]

    deliver-IsAnswered :
        (i payload mine : String) (r : Replies)
        → IsAnswered mine r
        → IsAnswered mine (deliver i payload r)
    deliver-IsAnswered i payload mine r a = elim (Option-cases (HashMap.get i r.pending)) [
      | inl absent ↦ subst (IsAnswered mine) (sym (deliver-absent i payload r absent)) a
      | inr (t, found) ↦ subst (IsAnswered mine) (sym (deliver-found i payload t r found)) (
          other-IsAnswered i payload mine t r
            (λ same. ground (
              arith,
              found,
              subst (λ (x : String). HashMap.get x r.pending ≡ none) (sym same) a.gone,
            ))
            found a)
    ]

    own-deliver :
        (payload : String) (r : Replies) → IsWaiting r → IsAnswered payload (deliver id payload r)
    unfolding answered
    own-deliver payload r w =
        subst (IsAnswered payload) (sym (deliver-found id payload tx r w.waits)) (record {
          gone = ground (arith, HashMap.get-remove id id r.pending, string_eq.agree id id);
          own = λ j u nj f. ground (arith, f, HashMap.get-remove j id r.pending, w.own j u nj);
          there = ground (arith, HashMap.get-insert tx tx payload r.sent);
        })

    on_pop-IsAnswered :
        (result : Result (Option String) String) (mine : String) (r : Replies)
        → IsAnswered mine r
        → IsAnswered mine (on_pop identifier_of result r)
    unfolding on_pop
    on_pop-IsAnswered (ok none) mine r a = a
    on_pop-IsAnswered (err e) mine r a = a
    on_pop-IsAnswered (ok (some payload)) mine r a =
        elim (identifier_of payload)
          as (λ o. IsAnswered mine (elim o [ none ↦ r | some i ↦ deliver i payload r ])) [
            | none ↦ a
            | some i ↦ deliver-IsAnswered i payload mine r a
          ]

    happen_all-IsAnswered :
        (hs : List Happening) (mine : String) (r : Replies)
        → Unused hs
        → IsAnswered mine r
        → IsAnswered mine (happen_all hs r)
    unfolding begin_request
    happen_all-IsAnswered [] mine r u a = a
    happen_all-IsAnswered (request channel encoded xadd i t ∷ hs) mine r u a =
        happen_all-IsAnswered hs mine (enter i t r) u.2 (request-IsAnswered mine i t r u.0 u.1 a)
    happen_all-IsAnswered (pop result ∷ hs) mine r u a =
        happen_all-IsAnswered hs mine (on_pop identifier_of result r) u
          (on_pop-IsAnswered result mine r a)

    happen_all-IsWaiting :
        (hs : List Happening) (r : Replies)
        → Unused hs
        → IsWaiting r
        → HashMap.get tx (happen_all hs r).sent ≡ first_reply hs
    unfolding begin_request on_pop
    happen_all-IsWaiting [] r u w = w.nothing
    happen_all-IsWaiting (request channel encoded xadd i t ∷ hs) r u w =
        happen_all-IsWaiting hs (enter i t r) u.2 (request-IsWaiting i t r u.0 u.1 w)
    happen_all-IsWaiting (pop (ok none) ∷ hs) r u w = happen_all-IsWaiting hs r u w
    happen_all-IsWaiting (pop (err e) ∷ hs) r u w = happen_all-IsWaiting hs r u w
    happen_all-IsWaiting (pop (ok (some payload)) ∷ hs) r u w =
        elim (identifier_of payload)
          as (λ o.
            HashMap.get tx
              (happen_all hs
                (elim o as (λ x. Replies) [ none ↦ r | some i ↦ deliver i payload r ])).sent
            ≡ (if elim o as (λ x. Bool) [ none ↦ false | some i ↦ i == id ]
                then some payload
                else first_reply hs)) [
                  | none ↦ happen_all-IsWaiting hs r u w
                  | some i ↦ elim (Bool-cases (i == id)) [
                    | inl mine ↦
                        let same : i ≡ id = (string_eq.agree i id).0 mine in
                        rw (mine, same)
                          (happen_all-IsAnswered hs payload (deliver id payload r) u
                            (own-deliver payload r w)).there
                    | inr other ↦ rw other (
                        happen_all-IsWaiting hs (deliver i payload r) u (
                          deliver-IsWaiting i payload r
                            (λ same. ground (arith, same, other, string_eq.agree i id)) w))
                  ]
                ]

    -- Where nothing has been sent by the sender of a request, and neither its identifier nor its
    -- sender is used for another request before or after: whatever happens then, what comes through
    -- its channel is the first of the replies that names it, and nothing as long as there is none.
    pub begin_request-first_reply :
        (channel : String) (encoded : Option String) (xadd : Bool) (hs : List Happening)
        (r : Replies)
        → Unused hs
        → HashMap.get tx r.sent ≡ none
        → ((i : String) (t : ℕ) → HashMap.get i r.pending ≡ some t → t ≢ tx)
        → HashMap.get tx (happen_all hs (begin_request channel encoded xadd id tx r).0).sent
          ≡ first_reply hs
    unfolding begin_request enter
    begin_request-first_reply channel encoded xadd hs r u nothing own =
        happen_all-IsWaiting hs (enter id tx r) u (record {
          waits = ground (arith, HashMap.get-insert id id tx r.pending, string_eq.agree id id);
          own = λ i t ne found. own i t (
              ground
                (arith, ne, found, HashMap.get-insert i id tx r.pending, string_eq.agree i id));
          nothing = nothing;
        })
