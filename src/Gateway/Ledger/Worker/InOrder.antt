-- ===== src/Gateway/Ledger/Worker/InOrder.antt =====
-- The tables after transactions in which statements of rs-gateway/src/ledger/worker.rs failed.
use cex_rs.Base.{
  ◌≡◌, refl, sym, ap, ◌∙◌, subst, String, true, Option, List, [], ◌∷◌, ◌++◌, map, ℕ, ◌+◌, ◌≤◌,
  arith, length, length-append,
}
use cex_rs.Shared.Events.{ExecutionEvent}
use mathlib.Core.List.Sublist
use mathlib.Core.List.{append_assoc, map-append, Sublist, nil-sublist}
use cex_rs.Gateway.Ledger.{Database}
use cex_rs.Gateway.Ledger.Worker.{
  ExecutionRecord, Worker, Fate, not_begun, aborted, rolled_back, committed, unheard,
  load_checkpoint, finish_read,
}
use cex_rs.Gateway.Ledger.Worker.Once.{
  Stream, is_heard, Step, read, restart, Reach, here, next, applied, last_of, last_of-after,
  apply_batch-applied, applied-checkpoint, applied-append,
}

abbrev records : List (ExecutionRecord × String) → List ExecutionRecord
records = map (λ r. r.0)

length-records : (xs : List (ExecutionRecord × String)) → length (records xs) ≡ length xs
length-records [] = refl
length-records (x ∷ xs) = omega (arith, length-records xs)

module _ (stream : Stream) (decode : String → Option ExecutionEvent) (db : Database) where
  -- How many records the batches had in whose transaction a statement failed.
  abbrev pub dropped_by : Fate → ℕ → ℕ
  dropped_by not_begun n = 0
  dropped_by aborted n = n
  dropped_by rolled_back n = 0
  dropped_by committed n = 0
  dropped_by unheard n = 0

  abbrev pub dropped_in : {u v : Worker} → Step stream decode is_heard u v → ℕ
  dropped_in (read fate batch rest c e) = dropped_by fate (length batch)
  dropped_in restart = 0

  abbrev pub dropped : {u v : Worker} → Reach stream decode is_heard u v → ℕ
  dropped here = 0
  dropped (next r s) = dropped r + dropped_in s

  -- The tables hold what some of the records up to their checkpoint write, each once and in their
  -- order, and the worker stands at the checkpoint or after it. At most `n` of the records up to
  -- there are missing.
  pub record IsInOrder (n : ℕ) (w : Worker) : Type 0 where
    pub used : List (ExecutionRecord × String)
    pub passed : List ExecutionRecord
    pub ahead : List ExecutionRecord
    pub kept : Sublist (map (λ r. r.0) used) passed
    pub prefix : stream.after db.last_stream_id ≡ passed ++ stream.after w.db.last_stream_id
    pub gap : stream.after w.db.last_stream_id ≡ ahead ++ stream.after w.last_id
    pub missing : length passed + length ahead ≤ length used + n
    pub tables :
        w.db ≡ record (applied stream decode used db) { last_stream_id = w.db.last_stream_id }

  module _ (batch : List (ExecutionRecord × String)) (rest : List ExecutionRecord) (w : Worker)
      (e : stream.after w.last_id ≡ map (λ r. r.0) batch ++ rest) (n : ℕ) (k : IsInOrder n w) where
    -- The stream from the checkpoint on, with the batch in front of what is left.
    left_of :
        stream.after w.db.last_stream_id
        ≡ (k.ahead ++ records batch) ++ stream.after (last_of stream decode batch w.last_id)
    left_of =
        k.gap
        ∙ ap (λ xs. k.ahead ++ xs)
            (e
              ∙ ap (λ xs. records batch ++ xs)
                  (sym (last_of-after stream decode batch w.last_id rest e)))
        ∙ sym (append_assoc k.ahead (records batch) _)

    aborted_batch :
        IsInOrder (n + length batch) (record w { last_id = last_of stream decode batch w.last_id })
    aborted_batch = record {
      used = k.used;
      passed = k.passed;
      ahead = k.ahead ++ records batch;
      kept = k.kept;
      prefix = k.prefix;
      gap = left_of;
      missing =
          omega (arith, k.missing, length-append k.ahead (records batch), length-records batch);
      tables = k.tables;
    }

    committed_batch : IsInOrder n (record {
      db = record (applied stream decode batch w.db) {
        last_stream_id = last_of stream decode batch w.last_id;
      };
      last_id = last_of stream decode batch w.last_id;
    })
    committed_batch = record {
      used = k.used ++ batch;
      passed = k.passed ++ (k.ahead ++ records batch);
      ahead = [];
      kept =
          subst (λ xs. Sublist xs (k.passed ++ (k.ahead ++ records batch)))
            (sym (map-append (λ (r : ExecutionRecord × String). r.0) k.used batch))
            (Sublist.append k.kept
              (Sublist.append (nil-sublist k.ahead) (Sublist.refl (records batch))));
      prefix =
          k.prefix
          ∙ ap (λ xs. k.passed ++ xs) left_of
          ∙ sym (append_assoc k.passed (k.ahead ++ records batch) _);
      gap = refl;
      missing = omega (
        arith,
        k.missing,
        length-append k.used batch,
        length-append k.passed (k.ahead ++ records batch),
        length-append k.ahead (records batch),
        length-records batch,
      );
      tables =
          ap (λ (d : Database). record d { last_stream_id = last_of stream decode batch w.last_id })
            (ap (applied stream decode batch) k.tables
              ∙ applied-checkpoint stream decode batch (applied stream decode k.used db)
                  w.db.last_stream_id
              ∙ ap (λ (d : Database). record d { last_stream_id = w.db.last_stream_id })
                  (sym (applied-append stream decode k.used batch db)));
    }

  -- The bound may be larger.
  more_missing : (n m : ℕ) (w : Worker) → IsInOrder n w → IsInOrder (n + m) w
  more_missing n m w k = record {
    used = k.used;
    passed = k.passed;
    ahead = k.ahead;
    kept = k.kept;
    prefix = k.prefix;
    gap = k.gap;
    missing = omega (arith, k.missing);
    tables = k.tables;
  }

  read-IsInOrder :
      (fate : Fate) (batch : List (ExecutionRecord × String)) (rest : List ExecutionRecord)
      (w : Worker) (n : ℕ)
      → is_heard fate ≡ true
      → stream.after w.last_id ≡ map (λ r. r.0) batch ++ rest
      → IsInOrder n w
      → IsInOrder (n + dropped_by fate (length batch)) (finish_read decode fate batch w)
  unfolding finish_read
  read-IsInOrder fate [] rest w n c e k = more_missing n _ w k
  read-IsInOrder not_begun (r ∷ rs) rest w n c e k = more_missing n 0 w k
  read-IsInOrder aborted (r ∷ rs) rest w n c e k =
      rw (apply_batch-applied stream decode (r ∷ rs) w.db w.last_id)
        (aborted_batch (r ∷ rs) rest w e n k)
  read-IsInOrder rolled_back (r ∷ rs) rest w n c e k = more_missing n 0 w k
  read-IsInOrder committed (r ∷ rs) rest w n c e k =
      rw (apply_batch-applied stream decode (r ∷ rs) w.db w.last_id)
        (more_missing n 0 _ (committed_batch (r ∷ rs) rest w e n k))
  read-IsInOrder unheard (r ∷ rs) rest w n c e k = absurd (cc (c))

  Step-IsInOrder :
      {u v : Worker} (n : ℕ) (s : Step stream decode is_heard u v)
      → IsInOrder n u
      → IsInOrder (n + dropped_in s) v
  unfolding load_checkpoint
  Step-IsInOrder {u} n (read fate batch rest c e) k = read-IsInOrder fate batch rest u n c e k
  Step-IsInOrder {u} n restart k = record {
    used = k.used;
    passed = k.passed;
    ahead = [];
    kept = k.kept;
    prefix = k.prefix;
    gap = refl;
    missing = omega (arith, k.missing);
    tables = k.tables;
  }

  -- Whatever reads, transactions and restarts have come, where no commit whose error was received
  -- had taken effect and each restart found the checkpoint, the tables hold what some of the records
  -- of a prefix of the stream write, none of them twice, and in their order. The checkpoint stands at
  -- the end of that prefix, and the worker stands there or after it. The records up to the worker
  -- that are missing are no more than those of the batches in whose transaction a statement failed:
  -- none, where none failed.
  pub Reach-IsInOrder :
      {w : Worker}
      (r : Reach stream decode is_heard (record { db = db; last_id = db.last_stream_id }) w)
      → IsInOrder (dropped r) w
  Reach-IsInOrder here = record {
    used = [];
    passed = [];
    ahead = [];
    kept = nil-sublist [];
    prefix = refl;
    gap = refl;
    missing = omega arith;
    tables = refl;
  }
  Reach-IsInOrder (next r s) = Step-IsInOrder (dropped r) s (Reach-IsInOrder r)
