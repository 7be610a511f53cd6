-- ===== src/Lifespan.antt =====
-- frontend/main.py: `lifespan`, with the start of the log reader's task, `run` of
-- frontend/services/ptp_log_reader.py and `start` of frontend/services/db_writer.py.
pub mod Outcome
use mo_ip_checker.Base.{ℕ, suc, String, List, [], ◌∷◌, ◌++◌, Text}
use mo_ip_checker.Base.Exec.{Exec, Result, ok, raised, Error, lift, modify, ◌>>=◌, ◌>>◌}
use mo_ip_checker.Json.{Json}
use mo_ip_checker.Monitor.Services.{Attempt, disable_ntp_client}
use mo_ip_checker.PtpRouter.Handlers.{Backend, reload_config}

-- `_ptp_task`: the exception of a task that failed is kept in the task.
pub data PtpTask : Type 0 where
  absent created running cancelled : PtpTask
  failed : Error → PtpTask

-- `_thread`: set once, and never reset
pub data WriterThread : Type 0 where
  not_started started : WriterThread

pub record App (Number : Type 0) : Type 0 where
  pub backend : Backend Number
  pub log_handlers : ℕ
  pub ntp_attempts : List Attempt
  pub ptp_task : PtpTask
  pub writer : WriterThread

-- `start`: a second call starts no second thread.
unfoldable pub start : WriterThread → WriterThread
start not_started = started
start started = started

module _ {Number : Type 0} where
  unfoldable pub install_log_capture : App Number → App Number
  install_log_capture app = record app { log_handlers = suc app.log_handlers }

  -- `init_db` and `systemctl` are what SQLAlchemy and the host answer.
  unfoldable pub startup : Result (Unit {0}) → (String → Result ℕ) → Exec (App Number) (Unit {0})
  startup init_db systemctl = do
    lift init_db
    modify install_log_capture
    modify (λ app. record app { ntp_attempts = app.ntp_attempts ++ disable_ntp_client systemctl })
    modify (λ app. record app { ptp_task = created })

  -- The first step of the task: `run` up to `gather`
  unfoldable pub begun : Result (Unit {0}) → App Number → App Number
  begun (ok _) app = record app { writer = start app.writer; ptp_task = running }
  begun (raised e) app = record app { ptp_task = failed e }

  unfoldable pub begin_task : (Json → Text) → App Number → App Number
  unfolding begun
  begin_task repr app =
      let (result, backend) = reload_config repr app.backend in
      begun result (record app { backend = backend })

  -- `cancel` does nothing to a task that has ended, and `await` raises its exception again; only a
  -- `CancelledError` is passed over.
  await_task : PtpTask → App Number → Result (Unit {0}) × App Number
  await_task absent app = (ok tt, app)
  await_task (failed e) app = (raised e, app)
  await_task _ app = (ok tt, record app { ptp_task = cancelled })

  unfoldable pub shutdown : Exec (App Number) (Unit {0})
  unfolding await_task
  shutdown app = await_task app.ptp_task app
