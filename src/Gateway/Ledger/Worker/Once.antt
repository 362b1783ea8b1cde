-- ===== src/Gateway/Ledger/Worker/Once.antt =====
-- The tables after reads, failed transactions and restarts of the worker.
use cex_rs.Base.{
  ◌≡◌, refl, sym, ap, ◌∙◌, subst, String, Bool, true, false, Option, none, some, List, [], ◌∷◌,
  ◌++◌, map,
}
use cex_rs.Shared.Events.{ExecutionEvent}
use mathlib.Core.List.{append_assoc, map-append}
use cex_rs.Shared.Events.{
  order_created, trade_executed, order_cancelled, funding_executed, depth_updated,
}
use cex_rs.Engine.Dispatch.{text_or_default}
use cex_rs.Gateway.Ledger.{
  Database, apply_event, write_order, write_trade, write_cancel, insert_entries,
}
use cex_rs.Gateway.Ledger.Worker.{
  ExecutionRecord, Worker, load_checkpoint, apply_decoded, apply_record, apply_batch, finish_read,
  Fate, not_begun, aborted, rolled_back, committed, unheard,
}

-- `XREAD STREAMS key id`, on the history of the stream: the records with a greater identifier. `id`
-- of a record is followed by the records that stand after it.
pub record Stream : Type 0 where
  pub after : String → List ExecutionRecord
  pub after-id :
      (id : String) (before rest : List ExecutionRecord) (r : ExecutionRecord)
      → after id ≡ before ++ r ∷ rest
      → after r.id ≡ rest

-- The checkpoint plays no part in what an event writes.
apply_decoded-checkpoint :
    (o : Option ExecutionEvent) (uuid : String) (db : Database) (id : String)
    → apply_decoded o uuid (record db { last_stream_id = id })
      ≡ record (apply_decoded o uuid db) { last_stream_id = id }
unfolding apply_decoded apply_event write_order write_trade write_cancel insert_entries
apply_decoded-checkpoint none uuid db id = refl
apply_decoded-checkpoint (some (order_created e)) uuid db id = refl
apply_decoded-checkpoint (some (trade_executed e)) uuid db id = refl
apply_decoded-checkpoint (some (order_cancelled e)) uuid db id = refl
apply_decoded-checkpoint (some (funding_executed e)) uuid db id = refl
apply_decoded-checkpoint (some (depth_updated e)) uuid db id = refl

-- No statement fails, and no answer of a commit is lost.
abbrev pub is_clean : Fate → Bool
is_clean not_begun = true
is_clean aborted = false
is_clean rolled_back = true
is_clean committed = true
is_clean unheard = false

-- No answer of a commit is lost.
abbrev pub is_heard : Fate → Bool
is_heard not_begun = true
is_heard aborted = true
is_heard rolled_back = true
is_heard committed = true
is_heard unheard = false

module _ (stream : Stream) (decode : String → Option ExecutionEvent) where
  -- What can happen, where the transactions go in some ways only: a read returns the next records
  -- (those that have come by then, at most 100); the gateway is started again and finds the
  -- checkpoint.
  pub data Step (ways : Fate → Bool) (w : Worker) : Worker → Type 0 where
    read :
        (fate : Fate) (batch : List (ExecutionRecord × String)) (rest : List ExecutionRecord)
        → ways fate ≡ true
        → stream.after w.last_id ≡ map (λ r. r.0) batch ++ rest
        → Step ways w (finish_read decode fate batch w)
    restart : Step ways w (record w { last_id = load_checkpoint (some w.db.last_stream_id) })

  pub data Reach (ways : Fate → Bool) (w : Worker) : Worker → Type 0 where
    here : Reach ways w w
    next : {u v : Worker} → Reach ways w u → Step ways u v → Reach ways w v

  -- The tables after some records, with the uuids that were drawn for them.
  abbrev pub applied : List (ExecutionRecord × String) → Database → Database
  applied [] db = db
  applied (r ∷ rs) db = applied rs (apply_record decode r db)

  -- The tables hold each record of a prefix of the stream once, in order, and the worker and its
  -- checkpoint stand at the end of that prefix.
  pub record IsOnce (db : Database) (w : Worker) : Type 0 where
    pub used : List (ExecutionRecord × String)
    pub prefix : stream.after db.last_stream_id ≡ map (λ r. r.0) used ++ stream.after w.last_id
    pub tables : w.db ≡ record (applied used db) { last_stream_id = w.last_id }

  -- `batch_last_id` after some records.
  abbrev pub last_of : List (ExecutionRecord × String) → String → String
  last_of [] id = id
  last_of (r ∷ rs) id = last_of rs r.0.id

  pub last_of-after :
      (rs : List (ExecutionRecord × String)) (id : String) (rest : List ExecutionRecord)
      → stream.after id ≡ map (λ r. r.0) rs ++ rest
      → stream.after (last_of rs id) ≡ rest
  last_of-after [] id rest e = e
  last_of-after (r ∷ rs) id rest e =
      last_of-after rs r.0.id rest (stream.after-id id [] (map (λ r. r.0) rs ++ rest) r.0 e)

  pub apply_batch-applied :
      (rs : List (ExecutionRecord × String)) (db : Database) (id : String)
      → apply_batch decode rs (db, id) ≡ (applied rs db, last_of rs id)
  unfolding apply_batch
  apply_batch-applied [] db id = refl
  apply_batch-applied (r ∷ rs) db id = apply_batch-applied rs (apply_record decode r db) r.0.id

  apply_record-checkpoint :
      (r : ExecutionRecord × String) (db : Database) (id : String)
      → apply_record decode r (record db { last_stream_id = id })
        ≡ record (apply_record decode r db) { last_stream_id = id }
  unfolding apply_record
  apply_record-checkpoint r db id =
      elim r.0.payload
        as (λ p.
          apply_record decode (record r.0 { payload = p }, r.1) (record db { last_stream_id = id })
          ≡ record (apply_record decode (record r.0 { payload = p }, r.1) db) {
            last_stream_id = id;
          }) [
            | none ↦ refl
            | some text ↦ apply_decoded-checkpoint (decode (text_or_default text)) r.1 db id
          ]

  pub applied-checkpoint :
      (rs : List (ExecutionRecord × String)) (db : Database) (id : String)
      → applied rs (record db { last_stream_id = id })
        ≡ record (applied rs db) { last_stream_id = id }
  applied-checkpoint [] db id = refl
  applied-checkpoint (r ∷ rs) db id =
      ap (applied rs) (apply_record-checkpoint r db id)
      ∙ applied-checkpoint rs (apply_record decode r db) id

  pub applied-append :
      (xs ys : List (ExecutionRecord × String)) (db : Database)
      → applied (xs ++ ys) db ≡ applied ys (applied xs db)
  applied-append [] ys db = refl
  applied-append (x ∷ xs) ys db = applied-append xs ys (apply_record decode x db)

  module _ (db : Database) where
    committed_batch :
        (batch : List (ExecutionRecord × String)) (rest : List ExecutionRecord) (w : Worker)
        → stream.after w.last_id ≡ map (λ r. r.0) batch ++ rest
        → IsOnce db w
        → IsOnce db (record {
          db = record (applied batch w.db) { last_stream_id = last_of batch w.last_id };
          last_id = last_of batch w.last_id;
        })
    committed_batch batch rest w e k = record {
      used = k.used ++ batch;
      prefix =
          simp (map-append, append_assoc)
            (k.prefix
              ∙ ap (λ (xs : List ExecutionRecord). map (λ r. r.0) k.used ++ xs)
                  (e
                    ∙ ap (λ (xs : List ExecutionRecord). map (λ r. r.0) batch ++ xs)
                        (sym (last_of-after batch w.last_id rest e))));
      tables =
          ap (λ (d : Database). record d { last_stream_id = last_of batch w.last_id })
            (ap (applied batch) k.tables
              ∙ applied-checkpoint batch (applied k.used db) w.last_id
              ∙ ap (λ (d : Database). record d { last_stream_id = w.last_id })
                  (sym (applied-append k.used batch db)));
    }

    read-IsOnce :
        (fate : Fate) (batch : List (ExecutionRecord × String)) (rest : List ExecutionRecord)
        (w : Worker)
        → is_clean fate ≡ true
        → stream.after w.last_id ≡ map (λ r. r.0) batch ++ rest
        → IsOnce db w
        → IsOnce db (finish_read decode fate batch w)
    unfolding finish_read
    read-IsOnce fate [] rest w c e k = k
    read-IsOnce not_begun (r ∷ rs) rest w c e k = k
    read-IsOnce aborted (r ∷ rs) rest w c e k = absurd (cc (c))
    read-IsOnce rolled_back (r ∷ rs) rest w c e k = k
    read-IsOnce committed (r ∷ rs) rest w c e k =
        rw (apply_batch-applied (r ∷ rs) w.db w.last_id) (committed_batch (r ∷ rs) rest w e k)
    read-IsOnce unheard (r ∷ rs) rest w c e k = absurd (cc (c))

    Step-IsOnce : {w w' : Worker} → Step is_clean w w' → IsOnce db w → IsOnce db w'
    unfolding load_checkpoint
    Step-IsOnce {w} (read fate batch rest c e) k = read-IsOnce fate batch rest w c e k
    Step-IsOnce {w} restart k =
        let same : w.db.last_stream_id ≡ w.last_id =
          ap (λ (d : Database). d.last_stream_id) k.tables in
        subst (λ id. IsOnce db (record w { last_id = id })) (sym same) k

    -- Whatever reads, transactions that cannot be begun or fail at the commit, and restarts have
    -- come, where no statement in a transaction failed, no commit whose error was received had taken
    -- effect, and each restart found the checkpoint: the tables hold what the records of a prefix of
    -- the stream write, each once and in their order, and the worker and its checkpoint stand at the
    -- end of that prefix.
    pub Reach-IsOnce :
        {w : Worker}
        → Reach is_clean (record { db = db; last_id = db.last_stream_id }) w
        → IsOnce db w
    Reach-IsOnce here = record { used = []; prefix = refl; tables = refl }
    Reach-IsOnce (next r s) = Step-IsOnce s (Reach-IsOnce r)
