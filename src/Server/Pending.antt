-- ===== src/Server/Pending.antt =====
-- The log that the jobs of the queue make of the rows of the database, which the writer thread only
-- brings forward.
use mo_ip_checker.Base.{
  Option, ℕ, ◌≡◌, refl, ◌∙◌, ap, true, List, [], ◌∷◌, ◌++◌, String, none, some, Text, arith, All,
}
use mo_ip_checker.Base.Exec.{Result, ok, raised}
use mo_ip_checker.Json.{Json}
use mo_ip_checker.Numbers.{Numbers}
use mo_ip_checker.Pattern.Engine.{Unicode}
use mo_ip_checker.DbWriter.Queue.{Job, Queue, clear, enqueue_clear}
use mo_ip_checker.DbWriter.Thread.{Database, World, process, handled, transaction}
use mo_ip_checker.DbWriter.Rows.{Rows, rows_of, IsLawful, after_job, after_jobs, transaction-rows}
use mo_ip_checker.DbWriter.Schedules.{IsJob}
use mo_ip_checker.LogReader.State.{set_restarting}
use mo_ip_checker.LogReader.Run.{Input, line, second, minute}
use mo_ip_checker.Server.Reader.{is_loop}
use mo_ip_checker.SystemRouter.Netplan.{Yaml}
use mo_ip_checker.Lifespan.{WriterThread, started, not_started}
use mo_ip_checker.Server.{
  Server, ServerEvent, log_line, second_tick, minute_tick, write_job, put_ptp_config, upload_config,
  put_system_config, press, clear_log, begin_ptp_restart, end_ptp_restart, boot, answered,
  with_backend, work, begin_next, end_next, request_of, configured, carried_out, next_task,
  run_task, pressed, read, serve, serve_all,
}
use mo_ip_checker.SystemRouter.Tasks.{Task}
use mo_ip_checker.Server.Sound.{IsSound, old-Kept}
use mo_ip_checker.Server.Invariant.{serve-IsSound, boot-Fresh}
use mo_ip_checker.PtpRouter.Handlers.{Backend, update_ptp_config, import_config}
use mo_ip_checker.PtpRouter.Restarts.{begin_restart, end_restart}
use mo_ip_checker.PtpRouter.Frame.{ReaderKept, update_ptp_config-Kept, import_config-Kept}
use mo_ip_checker.SystemRouter.Handlers.{System, update_system_config}
use mo_ip_checker.Server.Growth.{added, Grows, read-Grows}
use mo_ip_checker.Server.Drained.{All-IsJob}

after_jobs-append :
    (D : Database) (p q : Queue) (rows : Rows)
    → All (IsJob D) p
    → after_jobs (p ++ q) rows ≡ after_jobs q (after_jobs p rows)
unfolding after_jobs
after_jobs-append D [] q rows js = refl
after_jobs-append D (none ∷ p) q rows js = absurd js.0
after_jobs-append D (some job ∷ p) q rows (j, js) = after_jobs-append D p q (after_job job rows) js

module _ (D : Database) where
  -- No transaction fails.
  abbrev pub Succeeds : Type 0
  Succeeds = (job : Job) (s : D.Store) → (t : D.Store) × (transaction D job s ≡ ok t)

  process-rows :
      (laws : IsLawful D) (succeeds : Succeeds) (job : Job) (w : World D)
      → rows_of D (process D job w).store ≡ after_job job (rows_of D w.store)
  unfolding process
  process-rows laws succeeds job w =
      let (t, fine) = succeeds job w.store in rw fine (transaction-rows D laws job w.store fine)

  handled-rows :
      (laws : IsLawful D) (succeeds : Succeeds) (q : Queue) (w : World D)
      → after_jobs (handled D 1 q w).0 (rows_of D (handled D 1 q w).1.store)
        ≡ after_jobs q (rows_of D w.store)
  unfolding handled after_jobs
  handled-rows laws succeeds [] w = refl
  handled-rows laws succeeds (none ∷ q) w = refl
  handled-rows laws succeeds (some job ∷ q) w = ap (after_jobs q) (process-rows laws succeeds job w)

module _ {Number : Type 0} (D : Database) {Document : Type 0} where
  -- The rows as they will be when the queue is done
  unfoldable pub pending : Server Number D Document → Rows
  pending s = after_jobs s.app.backend.reader.queue (rows_of D s.world.store)

  grown-pending :
      (s t : Server Number D Document)
      → IsSound s
      → Grows s.app.backend.reader.queue t.app.backend.reader.queue
      → t.world ≡ s.world
      → pending t
        ≡ after_jobs (added s.app.backend.reader.queue t.app.backend.reader.queue) (pending s)
  unfolding pending
  grown-pending s t sound grows same =
      let q = s.app.backend.reader.queue in
      ap (λ (w : World D). after_jobs t.app.backend.reader.queue (rows_of D w.store)) same
      ∙ ap (λ p. after_jobs p (rows_of D s.world.store)) grows
      ∙ after_jobs-append D q _ (rows_of D s.world.store) (All-IsJob D q sound.queued)

  work-pending :
      (laws : IsLawful D) (succeeds : Succeeds D) (writer : WriterThread)
      (s : Server Number D Document)
      → pending (work writer s) ≡ pending s
  unfolding work pending
  work-pending laws succeeds not_started s = refl
  work-pending laws succeeds started s =
      handled-rows D laws succeeds s.app.backend.reader.queue s.world

module _ (u : Unicode) (N : Numbers) (D : Database) (Y : Yaml) (repr : Json → Text) where
  open N use {Number}

  abbrev pub by_reader : Input Number → Server Number D Y.Document → Queue
  by_reader i s =
      added s.app.backend.reader.queue
        (read u N D Y repr s.app.ptp_task i s).app.backend.reader.queue

  -- The jobs that an event puts on the queue: those of the reader, and those that clear the log.
  unfoldable pub new_jobs : ServerEvent Number Y.Document → Server Number D Y.Document → Queue
  new_jobs (log_line mono now text) s = by_reader (line mono now text) s
  new_jobs (second_tick now) s = by_reader (second now) s
  new_jobs (minute_tick now) s = by_reader (minute now) s
  new_jobs (clear_log id) s = some (clear id) ∷ []
  new_jobs _ s = []

  -- The rows after an event, if its jobs are carried out at once. A new start finds the stored rows.
  unfoldable pub seen : ServerEvent Number Y.Document → Server Number D Y.Document → Rows → Rows
  seen (boot now init_db systemctl) s rows = rows_of D s.world.store
  seen e s rows = after_jobs (new_jobs e s) rows

  -- The rows after some events, one after the other
  unfoldable pub recorded :
      List (ServerEvent Number Y.Document) → Server Number D Y.Document → Rows → Rows
  recorded [] s rows = rows
  recorded (e ∷ events) s rows = recorded events (serve u N D Y repr e s) (seen e s rows)

  read-pending :
      (i : Input Number) (s : Server Number D Y.Document)
      → is_loop i ≡ true
      → IsSound s
      → pending D (read u N D Y repr s.app.ptp_task i s) ≡ after_jobs (by_reader i s) (pending D s)
  read-pending i s loop sound =
      let (grows, same) = read-Grows u N D Y repr s.app.ptp_task i s loop in
      grown-pending D s (read u N D Y repr s.app.ptp_task i s) sound grows same

  kept-pending :
      {A : Type 0} (o : Result A × Backend Number) (s : Server Number D Y.Document)
      → ReaderKept repr s.app.backend.reader.queue s.app.backend.reader.restarting o.1
      → pending D (with_backend (answered s.app.backend o) s) ≡ pending D s
  unfolding answered pending
  kept-pending (ok a, b) s kept = ap (λ q. after_jobs q (rows_of D s.world.store)) kept.same_queue
  kept-pending (raised e, b) s kept =
      ap (λ q. after_jobs q (rows_of D s.world.store)) kept.same_queue

  configured-pending :
      (o : Result (List String) × System Y.Document) (s : Server Number D Y.Document)
      → pending D (configured o s) ≡ pending D s
  unfolding configured pending
  configured-pending (ok actions, t) s = refl
  configured-pending (raised e, t) s = refl

  carried_out-pending :
      (next : Option (Task × List (List Task))) (s : Server Number D Y.Document)
      → pending D (carried_out next s) ≡ pending D s
  unfolding carried_out pending
  carried_out-pending next s = ground arith

  restart-pending :
      (n : ℕ) (outcome : Result (Unit {0})) (s : Server Number D Y.Document)
      → (pending D (begin_next n s) ≡ pending D s)
        × (pending D (end_next n outcome s) ≡ pending D s)
  unfolding begin_next end_next begin_restart end_restart set_restarting pending
  restart-pending n outcome s = ground arith

  module _ (laws : IsLawful D) (succeeds : Succeeds D) where
    serve-pending :
        (e : ServerEvent Number Y.Document) (s : Server Number D Y.Document)
        → IsSound s
        → pending D (serve u N D Y repr e s) ≡ seen e s (pending D s)
    unfolding serve seen new_jobs after_jobs
    serve-pending (log_line mono now text) s h = read-pending (line mono now text) s refl h
    serve-pending (second_tick now) s h = read-pending (second now) s refl h
    serve-pending (minute_tick now) s h = read-pending (minute now) s refl h
    serve-pending write_job s h = work-pending D laws succeeds s.app.writer s
    serve-pending (put_ptp_config patch) s h =
        let r = s.app.backend.reader in
        kept-pending (update_ptp_config repr patch s.app.backend) s
          (update_ptp_config-Kept repr r.queue r.restarting patch s.app.backend (old-Kept repr s h))
    serve-pending (upload_config imported) s h =
        let r = s.app.backend.reader in
        kept-pending (import_config repr imported s.app.backend) s
          (import_config-Kept repr r.queue r.restarting imported s.app.backend (old-Kept repr s h))
    serve-pending (put_system_config disk patch) s h =
        configured-pending (update_system_config repr Y disk patch (request_of s)) s
    serve-pending (press task) s h = configured-pending (ok [], (pressed task (request_of s)).1) s
    serve-pending (run_task n) s h = carried_out-pending (next_task n s.tasks) s
    serve-pending (clear_log id) s h =
        unfold pending enqueue_clear in
        after_jobs-append D s.app.backend.reader.queue (some (clear id) ∷ [])
          (rows_of D s.world.store) (All-IsJob D s.app.backend.reader.queue h.queued)
    serve-pending begin_ptp_restart s h = (restart-pending s.app.backend.restarts (ok tt) s).0
    serve-pending (end_ptp_restart outcome) s h = (restart-pending s.in_progress outcome s).1
    serve-pending (boot now init_db systemctl) s h =
        let (kept, _) = boot-Fresh u N D Y repr now init_db systemctl s.app h.held in
        unfold pending in ap (λ q. after_jobs q (rows_of D s.world.store)) kept.same_queue

    -- Over a lawful database on which no transaction fails, and from a sound state, whatever events
    -- come: the rows as they will be when the queue is done are those that the jobs of the events
    -- make, each carried out at once as its event comes, of the rows as they would have been
    -- before; a new start finds the rows that are stored by then, without the jobs of the queue.
    -- Neither a turn of the writer thread nor a change of settings shows in these rows, and a clear
    -- of the log empties them.
    pub serve_all-pending :
        (events : List (ServerEvent Number Y.Document)) (s : Server Number D Y.Document)
        → IsSound s
        → pending D (serve_all u N D Y repr events s) ≡ recorded events s (pending D s)
    unfolding serve_all recorded
    serve_all-pending [] s h = refl
    serve_all-pending (e ∷ events) s h =
        serve_all-pending events (serve u N D Y repr e s) (serve-IsSound u N D Y repr laws e s h)
        ∙ ap (recorded events (serve u N D Y repr e s)) (serve-pending e s h)
