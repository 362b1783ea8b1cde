-- ===== src/Engine/Dispatch/Total.antt =====
-- The event loop and the replay get through any stream.
use cex_rs.Base.{
  ap, ℕ, suc, ◌+◌, ◌<◌, ◌≡◌, refl, ◌∙◌, sym, subst, Bool, false, String, none, some, List, [], ◌∷◌,
  length, arith, Outcome, done, panic, hang, ◌>>=◌,
}
use cex_rs.Base.Word.{u64_mod}
use cex_rs.Engine.State.{EngineState}
use cex_rs.Engine.Dispatch.{
  Decoder, Effect, dispatch_event, StreamRecord, text_or_default, replay_events, EngineLoop,
  run_records,
}
use cex_rs.Engine.Dispatch.Counted.{IsCounted, dispatch_event-IsCounted}
use cex_rs.Engine.Dispatch.Returns.{IsHandled, dispatch_event-returns}
use cex_rs.Engine.Dispatch.Replay.{replay_events-run_records}
use cex_rs.Engine.Order.Market.{Floats}
use cex_rs.Engine.Order.Ready.{IsReady}

-- The counter does not wrap within `n` events.
abbrev pub HasRoom : ℕ → EngineState → Type 0
HasRoom n s = s.next_order_id + n < u64_mod

-- The replay has come to a state in which the next event can be handled.
abbrev pub IsReplayed : Outcome (EngineState × String) → Type 0
IsReplayed x = (r : EngineState × String) × (x ≡ done r) × IsReady r.0

module _ (floats : Floats) (decode : Decoder floats.F) where
  after_event :
      (n : ℕ) (s : EngineState) (x : Effect) (id : String) (rs : List StreamRecord)
      → HasRoom (suc n) s
      → IsHandled x
      → IsCounted s x
      → ((s' : EngineState)
          → IsReady s'
          → HasRoom n s'
          → IsReplayed (replay_events floats decode rs (s', id)))
      → IsReplayed (x >>= λ r. replay_events floats decode rs (r.0, id))
  after_event n s x id rs room (s', outputs, e, r) k h =
      let counted = subst (IsCounted s) e k in
      let (end, e', r') = h s' r (omega (arith, room, counted.once)) in
      (end, ap (λ y. y >>= λ q. replay_events floats decode rs (q.0, id)) e ∙ e', r')

  abbrev Replays : StreamRecord → List StreamRecord → EngineState → String → Type 0
  Replays r rs s id = IsReplayed (replay_events floats decode (r ∷ rs) (s, id))

  pub replay_events-returns :
      (rs : List StreamRecord) (s : EngineState) (id : String)
      → IsReady s
      → HasRoom (length rs) s
      → IsReplayed (replay_events floats decode rs (s, id))
  unfolding replay_events
  replay_events-returns [] s id r room = ((s, id), refl, r)
  replay_events-returns (x ∷ rs) s id r room =
      elim x.channel as (λ c. Replays (record x { channel = c }) rs s id) [
        | none ↦ replay_events-returns rs s x.id r (omega arith)
        | some channel ↦
            elim x.payload
              as (λ d. Replays (record x { channel = some channel; payload = d }) rs s id) [
                | none ↦ replay_events-returns rs s x.id r (omega arith)
                | some payload ↦
                    after_event (length rs) s
                      (dispatch_event floats decode s false (text_or_default channel)
                        (text_or_default payload))
                      x.id rs room
                      (dispatch_event-returns floats decode s false _ _ r (omega arith))
                      (dispatch_event-IsCounted s floats decode false _ _)
                      (λ s' r' room'. replay_events-returns rs s' x.id r' room')
              ]
      ]

-- A run that ends in the state `s`.
ends :
    (x : Outcome EngineLoop) (s : EngineState)
    → (x >>= λ l. done l.state) ≡ done s
    → (l : EngineLoop) × (x ≡ done l) × (l.state ≡ s)
ends (done l) s e = (l, refl, cc)
ends panic s e = absurd cc
ends hang s e = absurd cc

-- From a state in which every book is consistent, does not cross and has none of the identifiers
-- that are yet to be given, and whose counter does not wrap within as many steps as there are
-- records, the event loop gets through any records, malformed ones included, without a panic. It
-- comes to such a state, and that is the state to which the replay of the records comes.
pub run_records-returns :
    (floats : Floats) (decode : Decoder floats.F) (db : Bool) (rs : List StreamRecord)
    (l : EngineLoop) (id : String)
    → IsReady l.state
    → HasRoom (length rs) l.state
    → (l' : EngineLoop) × (last_id : String) × (run_records floats decode db rs l ≡ done l')
      × (replay_events floats decode rs (l.state, id) ≡ done (l'.state, last_id))
      × IsReady l'.state
run_records-returns floats decode db rs l id r room =
    let ((s, last_id), e, r') = replay_events-returns floats decode rs l.state id r room in
    let (l', e', same) =
      ends (run_records floats decode db rs l) s
        (sym (replay_events-run_records floats decode db rs id l) ∙ rw e refl) in
    (l', last_id, e', e ∙ rw same refl, subst IsReady (sym same) r')
