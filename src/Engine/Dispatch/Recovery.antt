-- ===== src/Engine/Dispatch/Recovery.antt =====
-- A snapshot and the records after it give the state back.
use cex_rs.Base.{
  ℕ, zero, suc, ◌≡◌, refl, sym, subst, Bool, true, false, String, none, some, List, [], ◌∷◌, ◌++◌,
  take, leb, ap, ◌∙◌, length, Outcome, done, panic, hang, ◌>>=◌, if◌then◌else◌, ◌==◌, string_eq,
}
use cex_rs.Book.View.Priced.{All}
use cex_rs.Engine.State.{EngineState}
use cex_rs.Engine.Dispatch.{
  Decoder, Effect, dispatch_event, StreamRecord, text_or_default, replay_events, EngineLoop,
  run_records, count_event, restart_stream,
}
use cex_rs.Engine.Dispatch.Replay.{replay_events-run_records, after_event-state}
use cex_rs.Engine.Dispatch.Total.{HasRoom, run_records-returns}
use cex_rs.Engine.Order.Ready.{IsReady}
use cex_rs.Engine.Order.Market.{Floats}

abbrev pub Snapshot : Type 0
Snapshot = String × EngineState

All-take : (Q : Snapshot → Type 0) (n : ℕ) (xs : List Snapshot) → All Q xs → All Q (take n xs)
All-take Q zero xs a = tt
All-take Q (suc n) [] a = tt
All-take Q (suc n) (x ∷ xs) a = (a.0, All-take Q n xs a.1)

-- What an event leaves in the database: the snapshots before it, or the state it comes to.
after_event-All :
    (Q : Snapshot → Type 0) (db : Bool) (channel : String) (l : EngineLoop)
    → All Q l.snapshots
    → Q (l.last_id, l.state)
    → All Q (if channel == "reset" then restart_stream db l else count_event db l).snapshots
unfolding restart_stream count_event
after_event-All Q db channel l a q = on_reset (channel == "reset")
  where
    saved :
        (full d : Bool)
        → All Q
            (if full
              then record l {
                events_since_snapshot = 0;
                snapshots = if d then (l.last_id, l.state) ∷ take 2 l.snapshots else l.snapshots;
              }
              else record l { events_since_snapshot = suc l.events_since_snapshot }).snapshots
    saved true true = (q, All-take Q 2 l.snapshots a)
    saved true false = a
    saved false d = a

    cleared : (d : Bool) → All Q (if d then [] else l.snapshots)
    cleared true = tt
    cleared false = a

    on_reset : (c : Bool) → All Q (if c then restart_stream db l else count_event db l).snapshots
    on_reset true = cleared db
    on_reset false = saved (leb 1000 (suc l.events_since_snapshot)) db

from_event :
    {B : Type 0} (x : Effect) (f : EngineState × List _ → Outcome B) (b : B)
    → (x >>= f) ≡ done b
    → (r : EngineState × List _) × (f r ≡ done b)
from_event (done r) f b e = (r, e)
from_event panic f b e = absurd cc
from_event hang f b e = absurd cc

module _ (floats : Floats) (decode : Decoder floats.F) where
  -- A snapshot was taken at one of the records, has its identifier, and the replay of the records
  -- after that one comes to the state.
  pub record Recovers (rs : List StreamRecord) (s : EngineState) (snap : Snapshot) : Type 0 where
    pub before : List StreamRecord
    pub at : StreamRecord
    pub after : List StreamRecord
    pub split : rs ≡ before ++ at ∷ after
    pub id : snap.0 ≡ at.id
    pub replay : (replay_events floats decode after (snap.1, snap.0) >>= λ r. done r.0) ≡ done s

  later :
      (r : StreamRecord) (rs : List StreamRecord) (s : EngineState) (snap : Snapshot)
      → Recovers rs s snap
      → Recovers (r ∷ rs) s snap
  later r rs s snap k = record {
    before = r ∷ k.before;
    at = k.at;
    after = k.after;
    split = ap (λ xs. r ∷ xs) k.split;
    id = k.id;
    replay = k.replay;
  }

  module _ (db : Bool) (l' : EngineLoop) (Q : Snapshot → Type 0) where
    -- The snapshots of a run, if those at its start and those it takes have a property.
    abbrev Runs : List StreamRecord → EngineLoop → Type 0
    Runs rs l =
        All Q l.snapshots
        → ((snap : Snapshot) → Recovers rs l'.state snap → Q snap)
        → run_records floats decode db rs l ≡ done l'
        → All Q l'.snapshots

    skip :
        (r : StreamRecord) (rs : List StreamRecord) (l : EngineLoop)
        → Runs rs (record l { last_id = r.id })
        → All Q l.snapshots
        → ((snap : Snapshot) → Recovers (r ∷ rs) l'.state snap → Q snap)
        → run_records floats decode db rs (record l { last_id = r.id }) ≡ done l'
        → All Q l'.snapshots
    skip r rs l ih a q e = ih a (λ snap k. q snap (later r rs l'.state snap k)) e

    -- The snapshot at an event is good: the rest of the run comes from its state.
    taken :
        (r : StreamRecord) (rs : List StreamRecord) (l1 : EngineLoop) (s : EngineState)
        → l1.state ≡ s
        → run_records floats decode db rs l1 ≡ done l'
        → Recovers (r ∷ rs) l'.state (r.id, s)
    taken r rs l1 s same e = record {
      before = [];
      at = r;
      after = rs;
      split = refl;
      id = refl;
      replay =
          ap (λ u. replay_events floats decode rs (u, r.id) >>= λ x. done x.0) (sym same)
          ∙ replay_events-run_records floats decode db rs r.id l1
          ∙ ap (λ x. x >>= λ l. done l.state) e;
    }

    run_records-snapshots : (rs : List StreamRecord) (l : EngineLoop) → Runs rs l
    unfolding run_records
    run_records-snapshots [] l a q =
        λ e. let same : l ≡ l' = cc in subst (λ (x : EngineLoop). All Q x.snapshots) same a
    run_records-snapshots (r ∷ rs) l a q =
        let skipped = skip r rs l (run_records-snapshots rs (record l { last_id = r.id })) a q in
        elim r.channel
          as (λ c.
            run_records floats decode db (record r { channel = c } ∷ rs) l ≡ done l'
            → All Q l'.snapshots) [
              | none ↦ skipped
              | some channel ↦
                  elim r.payload
                    as (λ d.
                      run_records floats decode db
                          (record r { channel = some channel; payload = d } ∷ rs) l
                        ≡ done l'
                      → All Q l'.snapshots) [
                        | none ↦ skipped
                        | some payload ↦ λ e.
                            let ((s, outputs), e') =
                              from_event
                                (dispatch_event floats decode l.state true (text_or_default channel)
                                  (text_or_default payload))
                                _ l' e in
                            let l2 : EngineLoop = record l {
                              state = s;
                              last_id = r.id;
                              outputs = l.outputs ++ outputs;
                            } in
                            let l1 : EngineLoop =
                              if text_or_default channel == "reset"
                              then restart_stream db l2
                              else count_event db l2 in
                            run_records-snapshots rs l1
                              (after_event-All Q db (text_or_default channel) l2 a (
                                q (r.id, s)
                                  (taken r rs l1 s
                                    (after_event-state db (text_or_default channel) l2) e')))
                              (λ snap k. q snap (later r rs l'.state snap k)) e'
                      ]
            ]

-- From a state in which every book is consistent, does not cross and has none of the identifiers
-- that are yet to be given, and whose counter does not wrap within as many steps as there are
-- records, the event loop gets through any records. If there were no snapshots at first, then each
-- that is in the database in the end, with the resets and the limit of three in between, has the
-- identifier of one of the records, and replaying the records after that one from the snapshot
-- comes to the state of the event loop.
pub run_records-recovers :
    (floats : Floats) (decode : Decoder floats.F) (db : Bool) (rs : List StreamRecord)
    (l : EngineLoop)
    → IsReady l.state
    → HasRoom (length rs) l.state
    → l.snapshots ≡ []
    → (l' : EngineLoop) × (run_records floats decode db rs l ≡ done l')
      × All (Recovers floats decode rs l'.state) l'.snapshots
run_records-recovers floats decode db rs l r room none_yet =
    let (l', id, e, e', r') = run_records-returns floats decode db rs l l.last_id r room in
    let Good : Snapshot → Type 0 = Recovers floats decode rs l'.state in
    (
      l',
      e,
      run_records-snapshots floats decode db l' Good rs l (subst (All Good) (sym none_yet) tt)
          (λ snap k. k) e,
    )
