-- ===== src/Engine/Dispatch/Replay.antt =====
-- Replaying the stream rebuilds the state of the live run.
use cex_rs.Base.{
  ◌≡◌, refl, ap, ◌∙◌, sym, Bool, true, false, String, Option, none, some, List, [], ◌∷◌, ◌++◌,
  arith, ◌==◌, string_eq, if◌then◌else◌, Outcome, done, panic, hang, ◌>>=◌, ok, err,
}
use cex_rs.Shared.Requests.{CancelMsg}
use cex_rs.Book.Types.{invalid_price, invalid_quantity, order_not_found, not_order_owner}
use cex_rs.Engine.State.{EngineState}
use cex_rs.Engine.Outputs.{Output}
use cex_rs.Engine.Account.{handle_signup, handle_onramp, handle_deposit, handle_reset}
use cex_rs.Engine.Cancel.{Found, find_and_cancel, finish_cancel, handle_cancel}
use cex_rs.Engine.Dispatch.{
  Decoder, Effect, on_message, dispatch_event, StreamRecord, text_or_default, replay_events,
  EngineLoop, count_event, restart_stream, run_records,
}
use cex_rs.Engine.Order.Market.{Floats}
use cex_rs.Engine.Order.Silent.{state_after, handle_order-silent}

finish_cancel-silent :
    (msg : CancelMsg) (f : Found)
    → state_after (finish_cancel true msg f) ≡ state_after (finish_cancel false msg f)
unfolding finish_cancel
finish_cancel-silent msg (s, ok (c, asset)) = refl
finish_cancel-silent msg (s, err order_not_found) = refl
finish_cancel-silent msg (s, err not_order_owner) = refl
finish_cancel-silent msg (s, err invalid_price) = refl
finish_cancel-silent msg (s, err invalid_quantity) = refl

handle_cancel-silent :
    (msg : CancelMsg) (s : EngineState)
    → state_after (handle_cancel true msg s) ≡ state_after (handle_cancel false msg s)
unfolding handle_cancel
handle_cancel-silent msg s = go (find_and_cancel msg.order_id msg.user_id s)
  where
    go :
        (x : Outcome Found)
        → state_after (x >>= finish_cancel true msg) ≡ state_after (x >>= finish_cancel false msg)
    go (done f) = finish_cancel-silent msg f
    go panic = refl
    go hang = refl

-- Two effects that leave the same state.
abbrev Silent : Effect → Effect → Type 0
Silent x y = state_after x ≡ state_after y

if-Silent :
    (c : Bool) (x y x' y' : Effect)
    → Silent x x'
    → Silent y y'
    → Silent (if c then x else y) (if c then x' else y')
if-Silent true x y x' y' a b = a
if-Silent false x y x' y' a b = b

on_message-Silent :
    {M : Type 0} (m : Option M) (s : EngineState) (h h' : M → Effect)
    → ((msg : M) → Silent (h msg) (h' msg))
    → Silent (on_message m s h) (on_message m s h')
on_message-Silent none s h h' e = refl
on_message-Silent (some msg) s h h' e = e msg

-- An event changes the state in the same way whether or not replies are sent.
pub dispatch_event-silent :
    (floats : Floats) (decode : Decoder floats.F) (s : EngineState) (channel payload : String)
    → state_after (dispatch_event floats decode s true channel payload)
      ≡ state_after (dispatch_event floats decode s false channel payload)
unfolding dispatch_event handle_signup handle_onramp handle_deposit handle_reset
dispatch_event-silent floats decode s channel payload =
    if-Silent (channel == "new-signup") _ _ _ _
      (on_message-Silent (decode.signup payload) s _ _ (λ msg. refl))
      (if-Silent (channel == "onramp") _ _ _ _
        (on_message-Silent (decode.onramp payload) s _ _ (λ msg. refl))
        (if-Silent (channel == "deposite") _ _ _ _
          (on_message-Silent (decode.deposit payload) s _ _ (λ msg. refl))
          (if-Silent (channel == "balance-request") _ _ _ _
            (on_message-Silent (decode.balance payload) s _ _ (λ msg. refl))
            (if-Silent (channel == "incoming-order") _ _ _ _
              (on_message-Silent (decode.order payload) s _ _
                (λ msg. handle_order-silent floats msg s))
              (if-Silent (channel == "cancel-order") _ _ _ _
                (on_message-Silent (decode.cancel payload) s _ _
                  (λ msg. handle_cancel-silent msg s))
                (if-Silent (channel == "get-orderbook") _ _ _ _
                  (on_message-Silent (decode.orderbook payload) s _ _ (λ msg. refl))
                  (if-Silent (channel == "get-open-orders") _ _ _ _
                    (on_message-Silent (decode.open_orders payload) s _ _ (λ msg. refl))
                    (if-Silent (channel == "order-status") _ _ _ _
                      (on_message-Silent (decode.order_status payload) s _ _ (λ msg. refl))
                      (if-Silent (channel == "reset") _ _ _ _
                        (on_message-Silent (decode.reset payload) s _ _ (λ msg. refl)) refl)))))))))

-- Two runs that go on alike after effects that leave the same state.
resume :
    {A B : Type 0} (x y : Effect) (p : A → EngineState) (q : B → EngineState)
    (f : EngineState × List Output → Outcome A) (g : EngineState × List Output → Outcome B)
    → Silent x y
    → ((s : EngineState) (out out' : List Output)
        → (f (s, out) >>= λ a. done (p a)) ≡ (g (s, out') >>= λ b. done (q b)))
    → (x >>= f >>= λ a. done (p a)) ≡ (y >>= g >>= λ b. done (q b))
resume (done (s, out)) (done (s', out')) p q f g e h =
    h s out out' ∙ ap (λ u. g (u, out') >>= λ b. done (q b)) cc
resume (done x) panic p q f g e h = absurd (cc)
resume (done x) hang p q f g e h = absurd (cc)
resume panic (done y) p q f g e h = absurd (cc)
resume panic panic p q f g e h = refl
resume panic hang p q f g e h = absurd (cc)
resume hang (done y) p q f g e h = absurd (cc)
resume hang panic p q f g e h = absurd (cc)
resume hang hang p q f g e h = refl

pub after_event-state :
    (db : Bool) (channel : String) (l : EngineLoop)
    → (if channel == "reset" then restart_stream db l else count_event db l).state ≡ l.state
unfolding restart_stream count_event
after_event-state db channel l = ground arith

module _ (floats : Floats) (decode : Decoder floats.F) (db : Bool) where
  abbrev Same : StreamRecord → List StreamRecord → String → EngineLoop → Type 0
  Same r rs id l =
      (replay_events floats decode (r ∷ rs) (l.state, id) >>= λ x. done x.0)
      ≡ (run_records floats decode db (r ∷ rs) l >>= λ l'. done l'.state)

  -- Replaying records from the state of the event loop comes to the state to which the event loop
  -- comes on them, with every reply sent and resets included; or neither returns.
  pub replay_events-run_records :
      (rs : List StreamRecord) (id : String) (l : EngineLoop)
      → (replay_events floats decode rs (l.state, id) >>= λ r. done r.0)
        ≡ (run_records floats decode db rs l >>= λ l'. done l'.state)
  unfolding replay_events run_records
  replay_events-run_records [] id l = refl
  replay_events-run_records (r ∷ rs) id l =
      let next = replay_events-run_records rs r.id in
      elim r.channel as (λ c. Same (record r { channel = c }) rs id l) [
        | none ↦ next (record l { last_id = r.id })
        | some channel ↦
            elim r.payload
              as (λ d. Same (record r { channel = some channel; payload = d }) rs id l) [
                | none ↦ next (record l { last_id = r.id })
                | some payload ↦
                    resume
                      (dispatch_event floats decode l.state false (text_or_default channel)
                        (text_or_default payload))
                      (dispatch_event floats decode l.state true (text_or_default channel)
                        (text_or_default payload))
                      _ _ _ _
                      (sym (
                        dispatch_event-silent floats decode l.state (text_or_default channel)
                          (text_or_default payload)))
                      (λ s out out'.
                        let l' : EngineLoop = record l {
                          state = s;
                          last_id = r.id;
                          outputs = l.outputs ++ out';
                        } in
                        ap (λ u. replay_events floats decode rs (u, r.id) >>= λ x. done x.0)
                          (sym (after_event-state db (text_or_default channel) l'))
                        ∙ next (
                            if text_or_default channel == "reset"
                            then restart_stream db l'
                            else count_event db l'))
              ]
      ]
