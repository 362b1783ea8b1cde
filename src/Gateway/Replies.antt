-- ===== src/Gateway/Replies.antt =====
-- rs-gateway/src/redis/listener.rs: requests to the engine, and the replies that are matched with
-- them.
pub mod Correlated
use cex_rs.Base.{
  ℕ, String, Bool, true, false, Option, none, some, List, [], ◌∷◌, if◌then◌else◌, nat_eq, string_eq,
  Result, ok, err,
}
use cex_rs.Base.HashMap
use cex_rs.Base.HashMap.{HashMap}

-- `pending` with the senders as numbers, and what each has sent. A sender is made for one request.
pub record Replies : Type 0 where
  pub pending : HashMap String ℕ
  pub sent : HashMap ℕ String

-- `map.remove(id)` and `tx.send(data)`.
unfoldable pub deliver : String → String → Replies → Replies
deliver id payload r = elim (HashMap.get id r.pending) [
  | none ↦ r
  | some tx ↦ record {
    pending = HashMap.remove id r.pending;
    sent = HashMap.insert tx payload r.sent;
  }
]

-- What `BRPOP` gives: an error and a timeout change nothing. `identifier_of` reads the text of the
-- field `identifier`, where there is one.
module _ (identifier_of : String → Option String) where
  unfoldable pub on_pop : Result (Option String) String → Replies → Replies
  on_pop (ok none) r = r
  on_pop (err e) r = r
  on_pop (ok (some payload)) r = elim (identifier_of payload) [
    | none ↦ r
    | some id ↦ deliver id payload r
  ]

-- The first half of `send_and_wait`: the sender is entered, and the request goes to the stream, if
-- it can be serialised and `XADD` succeeds. The entry stays where they fail.
pub data Sending : Type 0 where
  added : (channel payload : String) → Sending
  failed : Sending

unfoldable pub enter : String → ℕ → Replies → Replies
enter identifier tx r = record r { pending = HashMap.insert identifier tx r.pending }

unfoldable pub add_request : String → Option String → Bool → Sending
add_request channel none xadd = failed
add_request channel (some payload) true = added channel payload
add_request channel (some payload) false = failed

unfoldable pub begin_request :
    String → Option String → Bool → String → ℕ → Replies → Replies × Sending
begin_request channel encoded xadd identifier tx r =
    (enter identifier tx r, add_request channel encoded xadd)

-- The second half: what has come through the oneshot channel, decoded. Each error is a 500.
unfoldable pub finish_request : {T : Type 0} → (String → Option T) → Option String → Result T ℕ
finish_request decode none = err 500
finish_request decode (some reply_str) = elim (decode reply_str) [ none ↦ err 500 | some t ↦ ok t ]
