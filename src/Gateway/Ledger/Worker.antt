-- ===== src/Gateway/Ledger/Worker.antt =====
-- rs-gateway/src/ledger/worker.rs, `run_worker`: the batches that it reads, one transaction each,
-- the checkpoint, and what can come between them.
pub mod Once
pub mod InOrder
use cex_rs.Base.{String, Bool, Option, none, some, List, [], ◌∷◌, is_empty, if◌then◌else◌}
use cex_rs.Shared.Events.{ExecutionEvent}
use cex_rs.Engine.Dispatch.{text_or_default}
use cex_rs.Gateway.Ledger.{Database, apply_event}

-- A record of the stream of executions. A `data` field that is no text reads as the empty one.
pub record ExecutionRecord : Type 0 where
  pub id : String
  -- the field `data`
  pub payload : Option (Option String)

-- The variables of the worker, and the database.
pub record Worker : Type 0 where
  pub db : Database
  pub last_id : String

-- `.fetch_one(..).await.unwrap_or_else(..)` on the checkpoint.
unfoldable pub load_checkpoint : Option String → String
load_checkpoint none = "0-0"
load_checkpoint (some id) = id

-- What is read from a record, with the uuid that is drawn for it. A payload that is no event is left
-- out.
unfoldable pub apply_decoded : Option ExecutionEvent → String → Database → Database
apply_decoded none uuid db = db
apply_decoded (some event) uuid db = apply_event uuid event db

-- How the transaction of a batch goes. A statement that fails aborts it: Postgres refuses those after
-- it and takes the COMMIT for a ROLLBACK, which is no error of `commit`, so that what the statements
-- before it wrote is gone. A commit that gives an error has been rolled back or, where only its
-- answer was lost, has not.
pub data Fate : Type 0 where
  not_begun : Fate
  aborted : Fate
  rolled_back : Fate
  committed : Fate
  unheard : Fate

-- `decode` is `serde_json::from_str`.
module _ (decode : String → Option ExecutionEvent) where
  unfoldable pub apply_record : ExecutionRecord × String → Database → Database
  apply_record (r, uuid) db = elim r.payload [
    | none ↦ db
    | some text ↦ apply_decoded (decode (text_or_default text)) uuid db
  ]

  -- The loop over the records: what the transaction holds where no statement fails, and
  -- `batch_last_id`.
  unfoldable pub apply_batch :
      List (ExecutionRecord × String) → Database × String → Database × String
  apply_batch [] (db, batch_last_id) = (db, batch_last_id)
  apply_batch (r ∷ rs) (db, batch_last_id) = apply_batch rs (apply_record r db, r.0.id)

  -- The work on one `stream_key`.
  unfoldable pub finish_read : Fate → List (ExecutionRecord × String) → Worker → Worker
  finish_read fate batch w =
      if is_empty batch
      then w
      else let (tx, batch_last_id) = apply_batch batch (w.db, w.last_id) in
        let written = record tx { last_stream_id = batch_last_id } in
        elim fate [
          | not_begun ↦ w
          | aborted ↦ record w { last_id = batch_last_id }
          | rolled_back ↦ w
          | committed ↦ record { db = written; last_id = batch_last_id }
          | unheard ↦ record w { db = written }
        ]
