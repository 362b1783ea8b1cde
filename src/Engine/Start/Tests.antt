-- ===== src/Engine/Start/Tests.antt =====
-- A start of the engine after a run.
use cex_rs.Base.{
  ◌≡◌, refl, subst, String, true, Option, none, some, List, [], ◌∷◌, ◌++◌, ◌==◌, string_eq,
  if◌then◌else◌, done,
}
use cex_rs.Engine.State.{EngineState}
use cex_rs.Engine.Dispatch.{StreamRecord, EngineLoop, run_records}
use cex_rs.Engine.Dispatch.Recovery.{Snapshot}
use cex_rs.Engine.Dispatch.Total.{run_records-returns}
use cex_rs.Engine.Start.{SnapshotRow, start_arg}
use cex_rs.Engine.Start.Recovers.{Holds, Ranges, started, start_engine-recovers}
use cex_rs.Engine.Tests.{
  percent, market_state, decode, record_of, stream, nearly_due, market_state-IsReady,
  stream-HasRoom,
}

abbrev second : StreamRecord
second = record_of "2-0" "cancel-order"

abbrev xrange : String → Option (List StreamRecord)
xrange arg =
    if arg == "-"
    then some stream
    else if arg == "(1-0"
    then some (second ∷ [])
    else if arg == "(2-0"
    then some []
    else none

-- Snapshots as rows, the states being their own JSON values.
abbrev rows_of : List Snapshot → List (SnapshotRow EngineState)
rows_of [] = []
rows_of (snap ∷ snaps) = record { last_stream_id = snap.0; state_data = snap.1 } ∷ rows_of snaps

rows_of-Holds : (snaps : List Snapshot) → Holds (λ s. some s) snaps (rows_of snaps)
rows_of-Holds [] = tt
rows_of-Holds (snap ∷ snaps) = (refl, refl, rows_of-Holds snaps)

stream-Ranges : Ranges {V = EngineState} (λ s. some s) percent decode xrange stream
unfolding start_arg
stream-Ranges = record { all = refl; later = later }
  where
    Later : List StreamRecord → StreamRecord → Type 0
    Later after at = xrange (start_arg at.id) ≡ some after

    later :
        (before after : List StreamRecord) (at : StreamRecord)
        → stream ≡ before ++ at ∷ after
        → Later after at
    later [] after at e =
        let first : record_of "1-0" "incoming-order" ≡ at = cc (e) in
        let rest : second ∷ [] ≡ after = cc (e) in
        subst (λ (x : StreamRecord). Later after x) first
          (subst (λ xs. Later xs (record_of "1-0" "incoming-order")) rest refl)
    later (a ∷ []) after at e =
        let first : second ≡ at = cc (e) in
        let rest : [] ≡ after = cc (e) in
        subst (λ (x : StreamRecord). Later after x) first (subst (λ xs. Later xs second) rest refl)
    later (a ∷ b ∷ []) after at e = absurd (cc (e))
    later (a ∷ b ∷ c ∷ before) after at e = absurd (cc (e))

-- The run comes to an end.
abbrev stopped : (l' : EngineLoop) × (run_records percent decode true stream nearly_due ≡ done l')
stopped =
    let (l', id, run, replayed, ready) =
      run_records-returns percent decode true stream nearly_due "0-0" market_state-IsReady
        stream-HasRoom in
    (l', run)

start_engine-recovers_example :
    started (λ s. some s) percent decode xrange stream (rows_of stopped.0.snapshots) market_state
    ≡ done stopped.0.state
start_engine-recovers_example =
    start_engine-recovers (λ s. some s) percent decode xrange stream nearly_due stopped.0
      (rows_of stopped.0.snapshots) stream-Ranges market_state-IsReady stream-HasRoom refl stopped.1
      (rows_of-Holds stopped.0.snapshots)
