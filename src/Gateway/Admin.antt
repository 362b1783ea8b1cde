-- ===== src/Gateway/Admin.antt =====
-- rs-gateway/src/routes/admin.rs: the reset of the tables and the engine.
use cex_rs.Base.{String, Bool, List, [], if◌then◌else◌}
use cex_rs.Engine.Start.{SnapshotRow}
use cex_rs.Shared.Requests.{ResetMsg}
use cex_rs.Shared.Replies.{GenericReply}
use cex_rs.Gateway.Auth.{User}
use cex_rs.Gateway.Ledger.{Database}
use cex_rs.Gateway.Routes.{Response, message}

-- All tables of the database. `V` is the type of JSON values.
module _ (V : Type 0) where
  pub record Tables : Type 0 where
    pub db : Database
    pub snapshots : List (SnapshotRow V)
    pub users : List User

-- Which of the statements come through: the errors are ignored.
pub record Executed : Type 0 where
  pub ledger_entries : Bool
  pub trades : Bool
  pub orders : Bool
  pub snapshots : Bool
  pub users : Bool
  pub checkpoint : Bool

unfoldable pub delete : {A : Type 0} → Bool → List A → List A
delete executed rows = if executed then [] else rows

unfoldable pub clear_tables : {V : Type 0} → Executed → Tables V → Tables V
clear_tables e t = record {
  db = record {
    orders = delete e.orders t.db.orders;
    trades = delete e.trades t.db.trades;
    ledger_entries = delete e.ledger_entries t.db.ledger_entries;
    last_stream_id = if e.checkpoint then "0-0" else t.db.last_stream_id;
  };
  snapshots = delete e.snapshots t.snapshots;
  users = delete e.users t.users;
}

-- The message for the engine, and the tables that are left.
unfoldable pub reset_request :
    {V : Type 0} (queue_id identifier : String) → Executed → Tables V → ResetMsg × Tables V
reset_request queue_id identifier e t =
    (record { queue_id = queue_id; identifier = identifier }, clear_tables e t)

unfoldable pub reset_answer : GenericReply → Response
reset_answer reply = record { status = 200; body = message "Reset successful" }
