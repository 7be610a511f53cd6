-- ===== src/Server/Growth.antt =====
-- The loops of the log reader put jobs at the end of the queue, and nothing else.
use mathlib.Core.List.{append-nil}
use mo_ip_checker.Base.{
  ◌≡◌, refl, sym, Bool, true, false, List, [], ◌∷◌, ◌++◌, String, Text, drop, drop-append, length,
  inl, inr, Bool-cases, if◌then◌else◌,
}
use mo_ip_checker.Base.Dict.{Dict}
use mo_ip_checker.Json.{Json}
use mo_ip_checker.Numbers.{Numbers}
use mo_ip_checker.Pattern.Engine.{Unicode}
use mo_ip_checker.DbWriter.Queue.{Queue, enqueue_event, enqueue_measurement}
use mo_ip_checker.DbWriter.Thread.{Database}
use mo_ip_checker.LogReader.State.{Reader}
use mo_ip_checker.LogReader.Line.{parse_line, take_gm_id}
use mo_ip_checker.LogReader.Line.Cases.{parse_line_cases}
use mo_ip_checker.LogReader.Tick.{tick_minute, minute_job}
use mo_ip_checker.LogReader.Edges.{tick_second-queue}
use mo_ip_checker.LogReader.Run.{Input, line, second, minute, reload, restarting, Service, step}
use mo_ip_checker.Server.Reader.{is_loop}
use mo_ip_checker.SystemRouter.Netplan.{Yaml}
use mo_ip_checker.Lifespan.{PtpTask, running, absent, created, cancelled, failed}
use mo_ip_checker.Server.{Server, with_service, read}
use mo_ip_checker.Recording.{take_sample-queue}

-- What one queue has behind another
abbrev pub added : Queue → Queue → Queue
added q after = drop (length q) after

abbrev pub Grows : Queue → Queue → Type 0
Grows q after = after ≡ q ++ added q after

pub grown : (q after js : Queue) → after ≡ q ++ js → Grows q after
grown q after js e = rw (e, drop-append (length q) q js refl) refl

pub unchanged : (q : Queue) → Grows q q
unchanged q = grown q q [] (sym (append-nil q))

change-Grows :
    (b : Bool) (now : Text) (detail : Dict String Json) (q : Queue)
    → Grows q (if b then enqueue_event now "GM_ID_CHANGED" detail q else q)
unfolding enqueue_event
change-Grows true now detail q = grown q _ _ refl
change-Grows false now detail q = unchanged q

module _ {Number : Type 0} where
  parse_line-Grows :
      (u : Unicode) (mono : Number) (now text : Text) (r : Reader Number)
      → Grows r.queue (parse_line u mono now text r).1.queue
  unfolding take_gm_id
  parse_line-Grows u mono now text r =
      parse_line_cases u mono now text r (λ (_, t). Grows r.queue t.queue)
        (λ caps _. rw (take_sample-queue u mono now caps.groups r) (unchanged r.queue))
        (λ caps _ _. change-Grows _ _ _ r.queue) (λ _. unchanged r.queue)

  minute_job-Grows :
      (samples : List _) (now : Text) (r : Reader Number) → Grows r.queue (minute_job samples now r)
  unfolding minute_job enqueue_measurement
  minute_job-Grows [] now r = grown r.queue _ _ refl
  minute_job-Grows (x ∷ xs) now r = grown r.queue _ _ refl

module _ (u : Unicode) (N : Numbers) where
  open N use {Number}

  step-Grows :
      (i : Input Number) (s : Service Number)
      → is_loop i ≡ true
      → Grows s.reader.queue (step u N i s).reader.queue
  unfolding step tick_minute
  step-Grows (line mono now text) s loop = elim (Bool-cases s.tailing) [
    | inl on ↦ rw on (parse_line-Grows u mono now text s.reader)
    | inr off ↦ rw off (unchanged s.reader.queue)
  ]
  step-Grows (second now) s loop = grown s.reader.queue _ _ (tick_second-queue N now s.reader)
  step-Grows (minute now) s loop = minute_job-Grows s.reader.minute_samples now s.reader
  step-Grows (reload ptp) s loop = absurd (cc (loop))
  step-Grows (restarting flag) s loop = absurd (cc (loop))

  module _ (D : Database) (Y : Yaml) (repr : Json → Text) where
    pub read-Grows :
        (task : PtpTask) (i : Input Number) (s : Server Number D Y.Document)
        → is_loop i ≡ true
        → Grows s.app.backend.reader.queue (read u N D Y repr task i s).app.backend.reader.queue
          × ((read u N D Y repr task i s).world ≡ s.world)
    unfolding read with_service
    read-Grows running i s loop =
        (step-Grows i (record { reader = s.app.backend.reader; tailing = s.tailing }) loop, refl)
    read-Grows absent i s loop = (unchanged s.app.backend.reader.queue, refl)
    read-Grows created i s loop = (unchanged s.app.backend.reader.queue, refl)
    read-Grows cancelled i s loop = (unchanged s.app.backend.reader.queue, refl)
    read-Grows (failed e) i s loop = (unchanged s.app.backend.reader.queue, refl)
