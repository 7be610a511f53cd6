-- ===== src/DbWriter/Rows.antt =====
-- What the rows of the database are after the writer has gone through its queue.
use mathlib.Core.List.{append_assoc, append-nil}
use mo_ip_checker.Base.{ℕ, ◌≡◌, refl, sym, ◌∙◌, ap, none, some, List, [], ◌∷◌, ◌++◌, inl, inr}
use mo_ip_checker.Base.Exec.{Result, ok, raised, Result-cases}
use mo_ip_checker.DbWriter.Queue.{Measurement, Event, Job, measurement, event, clear, Queue}
use mo_ip_checker.DbWriter.Thread.{◌>=>◌, Database, World, transaction, process, writer_loop}

-- The rows of both tables.
pub record Rows : Type 0 where
  pub measurements : List Measurement
  pub events : List Event

-- What a job means for the rows.
unfoldable pub after_job : Job → Rows → Rows
after_job (measurement m) rows = record rows { measurements = rows.measurements ++ m ∷ [] }
after_job (event e) rows = record rows { events = rows.events ++ e ∷ [] }
after_job (clear _) rows = record { measurements = []; events = [] }

-- The jobs in front of the first `None`, one after the other.
unfoldable pub after_jobs : Queue → Rows → Rows
after_jobs [] rows = rows
after_jobs (none ∷ q) rows = rows
after_jobs (some job ∷ q) rows = after_jobs q (after_job job rows)

-- The `done_event`s of the clear jobs in front of the first `None`.
unfoldable pub clear_ids : Queue → List ℕ
clear_ids [] = []
clear_ids (none ∷ q) = []
clear_ids (some (clear id) ∷ q) = id ∷ clear_ids q
clear_ids (some (measurement m) ∷ q) = clear_ids q
clear_ids (some (event e) ∷ q) = clear_ids q

>=>-ok :
    {S : Type 0} (r : Result S) (f : S → Result S) {t : S}
    → (r >=> f) ≡ ok t
    → (s : S) × (r ≡ ok s) × (f s ≡ ok t)
>=>-ok (ok s) f h = (s, refl, h)
>=>-ok (raised e) f h = absurd (cc)

module _ (D : Database) where
  open D use {Store}

  abbrev pub rows_of : Store → Rows
  rows_of s = record { measurements = D.measurements s; events = D.events s }

  -- What SQLite and SQLAlchemy do with the statements of the program when none of them fails: an
  -- insert adds a row behind the others of its table, a delete empties its table, neither touches the
  -- other table, and a commit changes no row.
  pub record IsLawful : Type 0 where
    pub add_measurement :
        (m : Measurement) (s : Store) {t : Store}
        → D.add_measurement m s ≡ ok t
        → rows_of t ≡ record { measurements = D.measurements s ++ m ∷ []; events = D.events s }
    pub add_event :
        (e : Event) (s : Store) {t : Store}
        → D.add_event e s ≡ ok t
        → rows_of t ≡ record { measurements = D.measurements s; events = D.events s ++ e ∷ [] }
    pub delete_measurements :
        (s : Store) {t : Store}
        → D.delete_measurements s ≡ ok t
        → rows_of t ≡ record { measurements = []; events = D.events s }
    pub delete_events :
        (s : Store) {t : Store}
        → D.delete_events s ≡ ok t
        → rows_of t ≡ record { measurements = D.measurements s; events = [] }
    pub commit : (s : Store) {t : Store} → D.commit s ≡ ok t → rows_of t ≡ rows_of s

  module _ (laws : IsLawful) where
    pub transaction-rows :
        (job : Job) (s : Store) {t : Store}
        → transaction D job s ≡ ok t
        → rows_of t ≡ after_job job (rows_of s)
    unfolding transaction after_job
    transaction-rows (measurement m) s {t} h =
        let (a, p, q) = >=>-ok (D.add_measurement m s) D.commit h in
        laws.commit a q ∙ laws.add_measurement m s p
    transaction-rows (event e) s {t} h =
        let (a, p, q) = >=>-ok (D.add_event e s) D.commit h in
        laws.commit a q ∙ laws.add_event e s p
    transaction-rows (clear id) s {t} h =
        let (b, p, q) = >=>-ok (D.delete_measurements s >=> D.delete_events) D.commit h in
        let (a, p₁, p₂) = >=>-ok (D.delete_measurements s) D.delete_events p in
        laws.commit b q
        ∙ laws.delete_events a p₂
        ∙ ap (λ (r : Rows). record r { events = [] }) (laws.delete_measurements s p₁)

  -- The jobs in front of the first `None` whose transaction does not raise when its turn comes.
  unfoldable pub successful : Queue → World D → Queue
  successful [] w = []
  successful (none ∷ q) w = []
  successful (some job ∷ q) w =
      let rest = successful q (process D job w) in
      elim (transaction D job w.store) [ ok s ↦ some job ∷ rest | raised e ↦ rest ]

  module _ (laws : IsLawful) where
    loop-rows :
        (q : Queue) (w : World D)
        → rows_of (writer_loop D q w).1.store ≡ after_jobs (successful q w) (rows_of w.store)
    unfolding writer_loop successful after_jobs
    loop-rows [] w = refl
    loop-rows (none ∷ q) w = refl
    loop-rows (some job ∷ q) w = elim (Result-cases (transaction D job w.store)) [
      | inl (t, fine) ↦
          loop-rows q (process D job w)
          ∙ rw (fine, successful)
              (ap (after_jobs (successful q (process D job w)))
                (unfold process in rw fine (transaction-rows laws job w.store fine)))
      | inr (e, bad) ↦
          loop-rows q (process D job w)
          ∙ rw (bad, successful)
              (ap (after_jobs (successful q (process D job w))) (unfold process in rw bad))
    ]

    loop-done : (q : Queue) (w : World D) → (writer_loop D q w).1.done ≡ w.done ++ clear_ids q
    unfolding writer_loop clear_ids process
    loop-done [] w = sym (append-nil w.done)
    loop-done (none ∷ q) w = sym (append-nil w.done)
    loop-done (some (clear id) ∷ q) w =
        loop-done q (process D (clear id) w) ∙ append_assoc w.done (id ∷ []) (clear_ids q)
    loop-done (some (measurement m) ∷ q) w = loop-done q (process D (measurement m) w)
    loop-done (some (event e) ∷ q) w = loop-done q (process D (event e) w)

    -- Over a lawful database, the writer carries out the jobs of its queue in order up to the first
    -- `None`: afterwards the rows of both tables are those that the jobs whose transaction did not
    -- raise make of the old rows, one after the other, a job that raises changes no row and does
    -- not end the loop, and the `done_event` of every clear job was set in order, also if its
    -- transaction raised.
    pub writer_loop_lem :
        (q : Queue) (w : World D)
        → (rows_of (writer_loop D q w).1.store ≡ after_jobs (successful q w) (rows_of w.store))
          × ((writer_loop D q w).1.done ≡ w.done ++ clear_ids q)
    writer_loop_lem q w = (loop-rows q w, loop-done q w)
