-- ===== src/Engine/Start.antt =====
-- rs-engine/src/snapshot.rs, and the start of `run_engine_with_db` in engine.rs: the latest snapshot
-- and the replay of the records after it.
pub mod Recovers
pub mod Tests
use cex_rs.Base.{
  String, Bool, true, false, ◌&&◌, ◌||◌, Option, none, some, List, [], ◌∷◌, take, ◌==◌, string_eq,
  if◌then◌else◌, Result, ok, err, Outcome, done,
}
use cex_rs.Base.Text.{concat}
use cex_rs.Engine.State.{EngineState}
use cex_rs.Engine.Dispatch.{Decoder, StreamRecord, replay_events}
use cex_rs.Engine.Order.Market.{Floats}

-- `V` is the type of JSON values. A table is the list of its rows, the latest (that of the greatest
-- number) first; statements succeed.
pub record SnapshotRow (V : Type 0) : Type 0 where
  pub last_stream_id : String
  pub state_data : V

-- `to_value` is that of serde_json.
unfoldable pub save_snapshot :
    {V : Type 0}
    → (EngineState → Option V)
    → String
    → EngineState
    → List (SnapshotRow V)
    → List (SnapshotRow V)
save_snapshot to_value last_stream_id state rows = elim (to_value state) [
  | none ↦ rows
  | some json_data ↦
      take 3 (record { last_stream_id = last_stream_id; state_data = json_data } ∷ rows)
]

unfoldable pub truncate_snapshots : {V : Type 0} → List (SnapshotRow V) → List (SnapshotRow V)
truncate_snapshots rows = []

-- `from_value` is that of serde_json.
module _ {V : Type 0} (from_value : V → Option EngineState) where
  unfoldable pub load_latest_snapshot :
      List (SnapshotRow V) → Result (Option (String × EngineState)) (Unit {0})
  load_latest_snapshot [] = ok none
  load_latest_snapshot (row ∷ rows) = elim (from_value row.state_data) [
    | none ↦ err tt
    | some state ↦ ok (some (row.last_stream_id, state))
  ]

  -- The state and `last_id` after the first step. `db` is the table, where there is a database.
  unfoldable pub restore :
      Option (List (SnapshotRow V)) → EngineState × String → EngineState × String
  restore none (s, last_id) = (s, last_id)
  restore (some rows) (s, last_id) =
      if last_id == "0-0"
      then (elim (load_latest_snapshot rows) [
        | ok none ↦ (s, last_id)
        | ok (some (snap_id, snap_state)) ↦ (snap_state, snap_id)
        | err e ↦ (s, last_id)
      ])
      else (s, last_id)

unfoldable pub start_arg : String → String
start_arg last_id = if last_id == "0-0" || last_id == "" then "-" else concat "(" last_id

-- The second step. `xrange` is what `XRANGE` returns from the argument on, if it succeeds.
module _ (floats : Floats) (decode : Decoder floats.F)
    (xrange : String → Option (List StreamRecord)) where
  unfoldable pub catch_up : EngineState × String → Outcome (EngineState × String)
  catch_up (s, last_id) = elim (xrange (start_arg last_id)) [
    | none ↦ done (s, last_id)
    | some rs ↦ replay_events floats decode rs (s, last_id)
  ]

  unfoldable pub start_engine :
      {V : Type 0}
      → (V → Option EngineState)
      → Option (List (SnapshotRow V))
      → EngineState × String
      → Outcome (EngineState × String)
  start_engine from_value db at = catch_up (restore from_value db at)
