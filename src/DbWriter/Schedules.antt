-- ===== src/DbWriter/Schedules.antt =====
-- The writer thread while a request for a clear waits, for a number of jobs.
use mathlib.Core.Path.{subst}
use mathlib.Core.List.{append_assoc}
use mo_ip_checker.Base.{
  ℕ, zero, suc, ◌≤◌, ◌<◌, ◌≡◌, refl, sym, ap, ◌∙◌, Option, none, some, [], ◌∷◌, ◌++◌, arith, length,
  length-append, drop, All, inl, inr,
}
use mo_ip_checker.Base.Exec.{Result, ok, raised, Result-cases}
use mo_ip_checker.DbWriter.Queue.{Job, clear, Queue, enqueue_clear}
use mo_ip_checker.DbWriter.Thread.{
  Database, World, transaction, process, writer_loop, handled, delete_ptp_log,
}
use mo_ip_checker.DbWriter.Rows.{
  rows_of, IsLawful, clear_ids, transaction-rows, writer_loop_lem, after_job,
}

module _ (D : Database) where
  abbrev pub IsJob : Option Job → Type 0
  IsJob none = ⊥
  IsJob (some job) = Unit

  -- A wait that is long enough for every job is a run of the loop.
  pub handled-writer_loop :
      (n : ℕ) (q : Queue) (w : World D)
      → All IsJob q
      → length q ≤ n
      → handled D n q w ≡ writer_loop D q w
  unfolding handled writer_loop
  handled-writer_loop zero [] w js h = refl
  handled-writer_loop zero (x ∷ q) w js h = absurd (omega arith)
  handled-writer_loop (suc n) [] w js h = refl
  handled-writer_loop (suc n) (none ∷ q) w js h = absurd js.0
  handled-writer_loop (suc n) (some job ∷ q) w (j, js) h =
      handled-writer_loop n q (process D job w) js (omega arith)

  writer_loop-append :
      (q : Queue) (job : Job) (w : World D)
      → All IsJob q
      → writer_loop D (q ++ some job ∷ []) w ≡ ([], process D job (writer_loop D q w).1)
  unfolding writer_loop
  writer_loop-append [] job w js = refl
  writer_loop-append (none ∷ q) job w js = absurd js.0
  writer_loop-append (some first ∷ q) job w (j, js) =
      writer_loop-append q job (process D first w) js

  -- The rows after a clear job
  abbrev pub Cleared : D.Store → Result D.Store → D.Store → Type 0
  Cleared before (ok t) after = rows_of D after ≡ record { measurements = []; events = [] }
  Cleared before (raised e) after = after ≡ before

  process-Cleared :
      (laws : IsLawful D) (id : ℕ) (w : World D)
      → Cleared w.store (transaction D (clear id) w.store) (process D (clear id) w).store
  process-Cleared laws id w = elim (Result-cases (transaction D (clear id) w.store)) [
    | inl (t, good) ↦
        unfold process in
        rw good (unfold after_job in transaction-rows D laws (clear id) w.store good)
    | inr (e, bad) ↦ unfold process in rw bad refl
  ]

  All-IsJob_append : (q : Queue) (job : Job) → All IsJob q → All IsJob (q ++ some job ∷ [])
  All-IsJob_append [] job js = (tt, tt)
  All-IsJob_append (none ∷ q) job js = absurd js.0
  All-IsJob_append (some first ∷ q) job (j, js) = (tt, All-IsJob_append q job js)

  waited :
      (id jobs : ℕ) (q : Queue) (w : World D)
      → All IsJob q
      → length q < jobs
      → handled D jobs (enqueue_clear id q) w ≡ ([], process D (clear id) (writer_loop D q w).1)
  unfolding enqueue_clear
  waited id jobs q w js h =
      handled-writer_loop jobs (q ++ some (clear id) ∷ []) w (All-IsJob_append q (clear id) js)
        (omega (arith, length-append q (some (clear id) ∷ [])))
      ∙ writer_loop-append q (clear id) w js

  -- If no `None` is on the queue and the writer gets through more jobs than the queue has while
  -- `delete_ptp_log` waits, the reply is `cleared`, the queue is empty, the events of the clear
  -- jobs were set in order, the new one last, and both tables are empty if the transaction of the
  -- clear job did not raise; if it raised, the database is the one that the jobs before it made.
  pub delete_ptp_log-waited :
      (laws : IsLawful D) (id jobs : ℕ) (q : Queue) (w : World D)
      → All IsJob q
      → length q < jobs
      → let reply = delete_ptp_log D id jobs q w in
        let waiting = (writer_loop D q w).1 in
        (reply.0 ≡ "cleared")
        × (reply.1.0 ≡ [])
        × (reply.1.1.done ≡ w.done ++ (clear_ids q ++ id ∷ []))
        × Cleared waiting.store (transaction D (clear id) waiting.store) reply.1.1.store
  unfolding delete_ptp_log process
  delete_ptp_log-waited laws id jobs q w js h =
      let r =
        subst
          (λ (o : Queue × World D).
            (o.0 ≡ [])
            × (o.1.done ≡ w.done ++ (clear_ids q ++ id ∷ []))
            × Cleared (writer_loop D q w).1.store
                (transaction D (clear id) (writer_loop D q w).1.store) o.1.store)
          (sym (waited id jobs q w js h))
          (
            refl,
            ap (λ l. l ++ id ∷ []) (writer_loop_lem D laws q w).1
                ∙ append_assoc w.done (clear_ids q) (id ∷ []),
            process-Cleared laws id (writer_loop D q w).1,
          ) in
      (refl, r.0, r.1, r.2)

  handled-drop :
      (n : ℕ) (q : Queue) (job : Job) (w : World D)
      → All IsJob q
      → n ≤ length q
      → (handled D n (q ++ some job ∷ []) w).0 ≡ drop n q ++ some job ∷ []
  unfolding handled
  handled-drop zero q job w js h = refl
  handled-drop (suc n) [] job w js h = absurd (omega arith)
  handled-drop (suc n) (none ∷ q) job w js h = absurd js.0
  handled-drop (suc n) (some first ∷ q) job w (j, js) h =
      handled-drop n q job (process D first w) js (omega arith)

  -- If no `None` is on the queue and the writer gets through no more jobs than the queue had,
  -- `delete_ptp_log` replies `cleared` while the clear job is still on the queue, behind the jobs
  -- that are left.
  pub delete_ptp_log-pending :
      (id jobs : ℕ) (q : Queue) (w : World D)
      → All IsJob q
      → jobs ≤ length q
      → let reply = delete_ptp_log D id jobs q w in
        (reply.0 ≡ "cleared") × (reply.1.0 ≡ drop jobs q ++ some (clear id) ∷ [])
  unfolding delete_ptp_log
  delete_ptp_log-pending id jobs q w js h =
      (refl, unfold enqueue_clear in handled-drop jobs q (clear id) w js h)
