-- ===== src/DbWriter/Thread.antt =====
-- `_process` and `_writer_loop`, over a database that the program reaches through SQLAlchemy.
use mo_ip_checker.Base.{ℕ, zero, suc, String, none, some, List, [], ◌∷◌, ◌++◌}
use mo_ip_checker.Base.Exec.{Result, ok, raised}
use mo_ip_checker.DbWriter.Queue.{
  Measurement, Event, Job, measurement, event, clear, Queue, enqueue_clear,
}

-- What a session does inside a transaction, from the state of the database as it began. What is not
-- committed is undone by `rollback`. The last two are the rows of the tables in the order of their ids.
pub record Database : Type 1 where
  pub Store : Type 0
  pub add_measurement : Measurement → Store → Result Store
  pub add_event : Event → Store → Result Store
  pub delete_measurements : Store → Result Store
  pub delete_events : Store → Result Store
  pub commit : Store → Result Store
  pub measurements : Store → List Measurement
  pub events : Store → List Event

infixl 10 ◌>=>◌
abbrev pub ◌>=>◌ : {S : Type 0} → Result S → (S → Result S) → Result S
ok s >=> f = f s
raised e >=> f = raised e

-- The database, and the `done_event`s that were set, the latest last.
pub record World (D : Database) : Type 0 where
  pub store : D.Store
  pub done : List ℕ

module _ (D : Database) where
  open D use {Store, add_measurement, add_event, delete_measurements, delete_events, commit}

  -- The body of the `try`
  unfoldable pub transaction : Job → Store → Result Store
  transaction (measurement m) s = add_measurement m s >=> commit
  transaction (event e) s = add_event e s >=> commit
  transaction (clear _) s = delete_measurements s >=> delete_events >=> commit

  -- `session.rollback()` gives back the state before the transaction.
  committed : Store → Result Store → Store
  committed before (ok after) = after
  committed before (raised e) = before

  signal : Job → List ℕ → List ℕ
  signal (clear id) done = done ++ id ∷ []
  signal _ done = done

  unfoldable pub process : Job → World D → World D
  unfolding transaction committed signal
  process job w = record {
    store = committed w.store (transaction job w.store);
    done = signal job w.done;
  }

  -- The loop over the jobs that are on the queue, with what stays on it behind a `None`.
  unfoldable pub writer_loop : Queue → World D → Queue × World D
  writer_loop [] w = ([], w)
  writer_loop (none ∷ q) w = (q, w)
  writer_loop (some job ∷ q) w = writer_loop q (process job w)

  -- `DELETE /api/ptp/log`: the clear job is queued, the writer gets through some jobs while the
  -- handler waits, at most five seconds, and the reply is the same in any case.
  unfoldable pub handled : ℕ → Queue → World D → Queue × World D
  handled zero q w = (q, w)
  handled (suc n) [] w = ([], w)
  handled (suc n) (none ∷ q) w = (none ∷ q, w)
  handled (suc n) (some job ∷ q) w = handled n q (process job w)

  unfoldable pub delete_ptp_log : ℕ → ℕ → Queue → World D → String × (Queue × World D)
  unfolding handled enqueue_clear
  delete_ptp_log id jobs q w = ("cleared", handled jobs (enqueue_clear id q) w)
