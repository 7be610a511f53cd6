-- ===== src/Server/Drained.antt =====
-- The writer thread in the running application, left to itself.
use mathlib.Core.Path.{subst}
use mo_ip_checker.Base.{
  ℕ, zero, suc, ◌≤◌, ◌≡◌, refl, sym, ◌∙◌, ap, List, [], ◌∷◌, ◌++◌, none, some, Text, arith, All,
  length,
}
use mo_ip_checker.Json.{Json}
use mo_ip_checker.Numbers.{Numbers}
use mo_ip_checker.Pattern.Engine.{Unicode}
use mo_ip_checker.DbWriter.Queue.{Queue}
use mo_ip_checker.DbWriter.Thread.{Database, World, process, handled, writer_loop}
use mo_ip_checker.DbWriter.Rows.{
  rows_of, IsLawful, after_jobs, successful, clear_ids, writer_loop_lem,
}
use mo_ip_checker.DbWriter.Schedules.{IsJob}
use mo_ip_checker.Recording.{IsRecord}
use mo_ip_checker.SystemRouter.Netplan.{Yaml}
use mo_ip_checker.Lifespan.{started}
use mo_ip_checker.Server.{Server, ServerEvent, write_job, with_queue, work, serve, serve_all}
use mo_ip_checker.Server.Sound.{IsSound}

pub All-IsJob : (D : Database) (q : Queue) → All IsRecord q → All (IsJob D) q
All-IsJob D [] js = js
All-IsJob D (none ∷ q) js = absurd js.0
All-IsJob D (some job ∷ q) (j, js) = (tt, All-IsJob D q js)

-- That many turns of the writer thread
unfoldable pub turns : {Number Document : Type 0} → ℕ → List (ServerEvent Number Document)
turns zero = []
turns (suc n) = write_job ∷ turns n

module _ (u : Unicode) (N : Numbers) (D : Database) (Y : Yaml) (repr : Json → Text) where
  open N use {Number}

  -- The writer has come to this queue and this world.
  abbrev pub written : Queue × World D → Server Number D Y.Document → Server Number D Y.Document
  written (q, w) s = record (with_queue q s) { world = w }

  next :
      (n : ℕ) (s : Server Number D Y.Document)
      → s.app.writer ≡ started
      → serve_all u N D Y repr (turns (suc n)) s ≡ serve_all u N D Y repr (turns n) (work started s)
  unfolding turns serve_all serve
  next n s on = ap (λ writer. serve_all u N D Y repr (turns n) (work writer s)) on

  turns-written :
      (n : ℕ) (q : Queue) (w : World D) (s : Server Number D Y.Document)
      → s.app.writer ≡ started
      → All (IsJob D) q
      → length q ≤ n
      → serve_all u N D Y repr (turns n) (written (q, w) s) ≡ written ([], (writer_loop D q w).1) s
  unfolding turns serve_all serve work handled writer_loop
  turns-written zero [] w s on js h = refl
  turns-written zero (x ∷ q) w s on js h = absurd (omega arith)
  turns-written (suc n) [] w s on js h =
      next n (written ([], w) s) on ∙ turns-written n [] w s on js (omega arith)
  turns-written (suc n) (none ∷ q) w s on js h = absurd js.0
  turns-written (suc n) (some job ∷ q) w s on (j, js) h =
      next n (written (some job ∷ q, w) s) on
      ∙ turns-written n q (process D job w) s on js (omega arith)

  -- Over a lawful database, in a sound state in which the writer thread runs, as many turns of the
  -- thread as the queue has jobs, or more, leave the queue empty and the rows that the jobs whose
  -- transaction did not raise make of the old rows, one after the other in the order of the queue;
  -- the `done_event` of every clear job of the queue was set in order; and beside the queue and the
  -- database nothing changes.
  pub turns-drained :
      (laws : IsLawful D) (s : Server Number D Y.Document) (n : ℕ)
      → IsSound s
      → s.app.writer ≡ started
      → length s.app.backend.reader.queue ≤ n
      → let q = s.app.backend.reader.queue in
        let after = serve_all u N D Y repr (turns n) s in
        (after ≡ written ([], after.world) s)
        × (rows_of D after.world.store
            ≡ after_jobs (successful D q s.world) (rows_of D s.world.store))
        × (after.world.done ≡ s.world.done ++ clear_ids q)
  turns-drained laws s n sound on enough =
      let q = s.app.backend.reader.queue in
      let stored = writer_loop_lem D laws q s.world in
      subst
        (λ (after : Server Number D Y.Document).
          (after ≡ written ([], after.world) s)
          × (rows_of D after.world.store
              ≡ after_jobs (successful D q s.world) (rows_of D s.world.store))
          × (after.world.done ≡ s.world.done ++ clear_ids q))
        (sym (turns-written n q s.world s on (All-IsJob D q sound.queued) enough))
        (refl, stored.0, stored.1)
