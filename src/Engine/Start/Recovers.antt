-- ===== src/Engine/Start/Recovers.antt =====
-- The state of an engine that starts against that of the one that stopped.
use cex_rs.Base.{
  ◌≡◌, refl, sym, ap, ◌∙◌, subst, String, true, Option, none, some, List, [], ◌∷◌, ◌++◌, take,
  length, string_eq, Outcome, done, ◌>>=◌,
}
use cex_rs.Book.View.Priced.{All}
use cex_rs.Engine.State.{EngineState}
use cex_rs.Engine.Dispatch.{Decoder, StreamRecord, replay_events, EngineLoop, run_records}
use cex_rs.Engine.Dispatch.Recovery.{Snapshot, Recovers, run_records-recovers}
use cex_rs.Engine.Dispatch.Replay.{replay_events-run_records}
use cex_rs.Engine.Dispatch.Total.{HasRoom}
use cex_rs.Engine.Order.Market.{Floats}
use cex_rs.Engine.Order.Ready.{IsReady}
use cex_rs.Engine.Start.{
  SnapshotRow, save_snapshot, load_latest_snapshot, restore, start_arg, catch_up, start_engine,
}

module _ {V : Type 0} (from_value : V → Option EngineState) where
  -- The rows hold the snapshots, and each is read back.
  abbrev pub Holds : List Snapshot → List (SnapshotRow V) → Type 0
  Holds [] [] = Unit {0}
  Holds [] (row ∷ rows) = ⊥
  Holds (snap ∷ snaps) [] = ⊥
  Holds ((id, s) ∷ snaps) (row ∷ rows) =
      (row.last_stream_id ≡ id) × (from_value row.state_data ≡ some s) × Holds snaps rows

  Holds-take :
      (snaps : List Snapshot) (rows : List (SnapshotRow V))
      → Holds snaps rows
      → Holds (take 2 snaps) (take 2 rows)
  Holds-take [] [] h = tt
  Holds-take [] (x ∷ rows) h = absurd h
  Holds-take (a ∷ snaps) [] h = absurd h
  Holds-take (a ∷ []) (x ∷ []) h = h
  Holds-take (a ∷ []) (x ∷ y ∷ rows) h = absurd h.2
  Holds-take (a ∷ b ∷ snaps) (x ∷ []) h = absurd h.2
  Holds-take (a ∷ b ∷ snaps) (x ∷ y ∷ rows) h = (h.0, h.1, (h.2.0, h.2.1, tt))

  -- `save_snapshot` does on the table what the event loop does on its snapshots.
  pub save_snapshot-Holds :
      (to_value : EngineState → Option V) (id : String) (s : EngineState) (snaps : List Snapshot)
      (rows : List (SnapshotRow V)) (v : V)
      → to_value s ≡ some v
      → from_value v ≡ some s
      → Holds snaps rows
      → Holds ((id, s) ∷ take 2 snaps) (save_snapshot to_value id s rows)
  unfolding save_snapshot
  save_snapshot-Holds to_value id s snaps rows v written read h =
      subst
        (λ o. Holds ((id, s) ∷ take 2 snaps) (elim o as (λ x. List (SnapshotRow V)) [
          | none ↦ rows
          | some json_data ↦ take 3 (record { last_stream_id = id; state_data = json_data } ∷ rows)
        ]))
        (sym written) (refl, read, Holds-take snaps rows h)

  module _ (floats : Floats) (decode : Decoder floats.F)
      (xrange : String → Option (List StreamRecord)) (rs : List StreamRecord) where
    -- The stream has all of the records: `XRANGE` from the start gives them, and from an identifier
    -- on, that one left out, those after it.
    pub record Ranges : Type 0 where
      pub all : xrange "-" ≡ some rs
      pub later :
          (before after : List StreamRecord) (at : StreamRecord)
          → rs ≡ before ++ at ∷ after
          → xrange (start_arg at.id) ≡ some after

    restore-latest :
        (s0 s : EngineState) (row : SnapshotRow V) (rows : List (SnapshotRow V))
        → from_value row.state_data ≡ some s
        → restore from_value (some (row ∷ rows)) (s0, "0-0") ≡ (s, row.last_stream_id)
    unfolding restore load_latest_snapshot
    restore-latest s0 s row rows read = rw (read, restore, load_latest_snapshot) refl

    catch_up-replays :
        (s : EngineState) (id : String) (after : List StreamRecord)
        → xrange (start_arg id) ≡ some after
        → catch_up floats decode xrange (s, id) ≡ replay_events floats decode after (s, id)
    unfolding catch_up
    catch_up-replays s id after found = rw (found, catch_up) refl

    -- The state that a start comes to.
    abbrev pub started : List (SnapshotRow V) → EngineState → Outcome EngineState
    started rows s0 =
        start_engine floats decode xrange from_value (some rows) (s0, "0-0") >>= λ r. done r.0

    from_snapshot :
        (s0 s : EngineState) (snap : Snapshot) (row : SnapshotRow V) (rows : List (SnapshotRow V))
        → Ranges
        → row.last_stream_id ≡ snap.0
        → from_value row.state_data ≡ some snap.1
        → Recovers floats decode rs s snap
        → started (row ∷ rows) s0 ≡ done s
    unfolding start_engine
    from_snapshot s0 s snap row rows ranges id read k =
        let found : xrange (start_arg snap.0) ≡ some k.after =
          ap (λ i. xrange (start_arg i)) k.id ∙ ranges.later k.before k.after k.at k.split in
        ap (λ x. catch_up floats decode xrange x >>= λ r. done r.0)
          (restore-latest s0 snap.1 row rows read ∙ ap (λ (i : String). (snap.1, i)) id)
        ∙ ap (λ x. x >>= λ r. done r.0) (catch_up-replays snap.1 snap.0 k.after found)
        ∙ k.replay

    from_scratch :
        (s0 : EngineState)
        → Ranges
        → started [] s0 ≡ (replay_events floats decode rs (s0, "0-0") >>= λ r. done r.0)
    unfolding start_engine restore load_latest_snapshot start_arg
    from_scratch s0 ranges = ap (λ x. x >>= λ r. done r.0) (catch_up-replays s0 "0-0" rs ranges.all)

    from_table :
        (s0 s : EngineState) (snaps : List Snapshot) (rows : List (SnapshotRow V))
        → Ranges
        → Holds snaps rows
        → All (Recovers floats decode rs s) snaps
        → (replay_events floats decode rs (s0, "0-0") >>= λ r. done r.0) ≡ done s
        → started rows s0 ≡ done s
    from_table s0 s [] [] ranges h a e = from_scratch s0 ranges ∙ e
    from_table s0 s [] (row ∷ rows) ranges h a e = absurd h
    from_table s0 s (snap ∷ snaps) [] ranges h a e = absurd h
    from_table s0 s (snap ∷ snaps) (row ∷ rows) ranges h a e =
        from_snapshot s0 s snap row rows ranges h.0 h.1 a.0

    -- The event loop has been through all the records of the stream, without snapshots at first,
    -- from a state in which every book is consistent, does not cross and has none of the identifiers
    -- that are yet to be given, and whose counter of identifiers plus the number of the records is
    -- below 2 ^ 64. The table holds the snapshots that the loop has left, and each is read back; what
    -- XRANGE gives from the start, or after the record of a snapshot, are all records there. Then an
    -- engine that starts anew from the first state, with the latest row, if there is one, and with
    -- what the stream gives after it, comes to the state of the loop.
    pub start_engine-recovers :
        (l l' : EngineLoop) (rows : List (SnapshotRow V))
        → Ranges
        → IsReady l.state
        → HasRoom (length rs) l.state
        → l.snapshots ≡ []
        → run_records floats decode true rs l ≡ done l'
        → Holds l'.snapshots rows
        → started rows l.state ≡ done l'.state
    start_engine-recovers l l' rows ranges ready room none_yet run h =
        let (l2, run2, recovers) =
          run_records-recovers floats decode true rs l ready room none_yet in
        let same : l2 ≡ l' = cc (run, run2) in
        from_table l.state l'.state l'.snapshots rows ranges h
          (subst (λ (x : EngineLoop). All (Recovers floats decode rs x.state) x.snapshots) same
            recovers)
          (replay_events-run_records floats decode true rs "0-0" l
            ∙ ap (λ x. x >>= λ y. done y.state) run)
