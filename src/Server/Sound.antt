-- ===== src/Server/Sound.antt =====
-- What holds of the running application, across the parts of its events.
use mo_ip_checker.Base.{Option, ℕ, ◌≤◌, ◌≡◌, refl, false, List, Text, String, arith, All, ◌⊎◌}
use mo_ip_checker.Base.Exec.{Result, ok, raised}
use mo_ip_checker.Json.{Json}
use mo_ip_checker.DbWriter.Thread.{Database}
use mo_ip_checker.DbWriter.Rows.{rows_of, IsLawful}
use mo_ip_checker.LogReader.State.{set_restarting}
use mo_ip_checker.LogReader.Invariant.{IsConsistent}
use mo_ip_checker.Recording.{IsRecord, IsRecording}
use mo_ip_checker.PtpRouter.Handlers.{Backend}
use mo_ip_checker.PtpRouter.Restarts.{begin_restart, end_restart}
use mo_ip_checker.PtpRouter.Frame.{ReaderKept}
use mo_ip_checker.SystemRouter.Tasks.{Task}
use mo_ip_checker.SystemRouter.Handlers.{System}
use mo_ip_checker.SystemRouter.Frame.{HasConfig}
use mo_ip_checker.Lifespan.{WriterThread, started, not_started}
use mo_ip_checker.Server.{
  Server, answered, with_backend, work, begin_next, end_next, configured, carried_out,
}
use mo_ip_checker.Server.Reader.{handled-IsRecording}

module _ {Number : Type 0} {D : Database} {Document : Type 0} where
  -- The reader is consistent, its queue holds records, the rows of the database are a reader's, a flag
  -- that is up has a restart that has not ended, and config.json holds a dict.
  pub record IsSound (s : Server Number D Document) : Type 0 where
    pub reading : IsConsistent s.app.backend.reader
    pub queued : All IsRecord s.app.backend.reader.queue
    pub recording : IsRecording (rows_of D s.world.store)
    pub flagged : (s.app.backend.reader.restarting ≡ false) ⊎ (1 ≤ s.in_progress)
    pub held : HasConfig s.app.backend.files

  -- A backend with the old queue and the old flag
  pub kept-IsSound :
      (repr : Json → Text) (b : Backend Number) (s : Server Number D Document)
      → ReaderKept repr s.app.backend.reader.queue s.app.backend.reader.restarting b
      → HasConfig b.files
      → IsSound s
      → IsSound (with_backend b s)
  kept-IsSound repr b s kept config h = record {
    reading = kept.consistent;
    queued = rw kept.same_queue h.queued;
    recording = h.recording;
    flagged = rw kept.same_flag h.flagged;
    held = config;
  }

  pub old-Kept :
      (repr : Json → Text) (s : Server Number D Document)
      → IsSound s
      → ReaderKept repr s.app.backend.reader.queue s.app.backend.reader.restarting s.app.backend
  old-Kept repr s h = record { consistent = h.reading; same_queue = refl; same_flag = refl }

  pub answered-IsSound :
      {A : Type 0} (repr : Json → Text) (o : Result A × Backend Number)
      (s : Server Number D Document)
      → ReaderKept repr s.app.backend.reader.queue s.app.backend.reader.restarting o.1
      → HasConfig o.1.files
      → IsSound s
      → IsSound (with_backend (answered s.app.backend o) s)
  unfolding answered
  answered-IsSound repr (ok a, b) s kept config h = kept-IsSound repr b s kept config h
  answered-IsSound repr (raised e, b) s kept config h =
      kept-IsSound repr (record b { restarts = s.app.backend.restarts }) s
        (record {
          consistent = kept.consistent;
          same_queue = kept.same_queue;
          same_flag = kept.same_flag;
        })
        config h

  pub work-IsSound :
      (laws : IsLawful D) (writer : WriterThread) (s : Server Number D Document)
      → IsSound s
      → IsSound (work writer s)
  unfolding work
  work-IsSound laws not_started s h = h
  work-IsSound laws started s h =
      let (js, rows) =
        handled-IsRecording D laws s.app.backend.reader.queue s.world h.queued h.recording in
      record {
        reading = record {
          sourced = h.reading.sourced;
          hysteresis = h.reading.hysteresis;
          above_min = h.reading.above_min;
          below_max = h.reading.below_max;
        };
        queued = js;
        recording = rows;
        flagged = h.flagged;
        held = h.held;
      }

  pub begin_next-IsSound :
      (n : ℕ) (s : Server Number D Document) → IsSound s → IsSound (begin_next n s)
  unfolding begin_next begin_restart set_restarting
  begin_next-IsSound n s h = ground arith

  pub end_next-IsSound :
      (n : ℕ) (outcome : Result (Unit {0})) (s : Server Number D Document)
      → IsSound s
      → IsSound (end_next n outcome s)
  unfolding end_next end_restart set_restarting
  end_next-IsSound n outcome s h = ground arith

  pub configured-IsSound :
      (o : Result (List String) × System Document) (s : Server Number D Document)
      → HasConfig o.1.files
      → IsSound s
      → IsSound (configured o s)
  unfolding configured
  configured-IsSound (ok actions, t) s config h = record {
    reading = h.reading;
    queued = h.queued;
    recording = h.recording;
    flagged = h.flagged;
    held = config;
  }
  configured-IsSound (raised e, t) s config h = record {
    reading = h.reading;
    queued = h.queued;
    recording = h.recording;
    flagged = h.flagged;
    held = config;
  }

  pub carried_out-IsSound :
      (next : Option (Task × List (List Task))) (s : Server Number D Document)
      → IsSound s
      → IsSound (carried_out next s)
  unfolding carried_out
  carried_out-IsSound next s h = ground arith
