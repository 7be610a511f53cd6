-- ===== src/Tests/Writer.antt =====
-- The writer thread over a database that is two lists, and refuses the events of one type.
use mo_ip_checker.Base.{
  ℕ, String, ◌≡◌, refl, sym, ap, ◌∙◌, none, some, List, [], ◌∷◌, ◌++◌, map, codes, ◌==◌, string_eq,
  if◌then◌else◌, arith, length,
}
use mathlib.Core.List.{reverse}
use mo_ip_checker.Json.{Json}
use mo_ip_checker.DbWriter.Schedules.{Cleared, delete_ptp_log-waited, delete_ptp_log-pending}
use mo_ip_checker.PtpRouter.Log.{
  Queries, limited, selected, log_json, get_ptp_log, IsOrdered, Shows, get_ptp_log-writer_loop,
}
use mo_ip_checker.Base.Int.{pos, negsuc}
use mo_ip_checker.Base.Exec.{Result, ok, raised, os_error}
use mo_ip_checker.DbWriter.Queue.{Measurement, Event, Job, measurement, event, clear, Queue}
use mo_ip_checker.DbWriter.Thread.{
  Database, World, process, transaction, writer_loop, delete_ptp_log,
}
use mo_ip_checker.DbWriter.Rows.{
  Rows, rows_of, IsLawful, after_jobs, successful, clear_ids, writer_loop_lem,
}

pub insert_event : Event → Rows → Result Rows
insert_event e rows =
    if e.event_type == "refused"
    then raised os_error
    else ok (record rows { events = rows.events ++ e ∷ [] })

abbrev pub tables : Database
tables = record {
  Store = Rows;
  add_measurement = λ m rows. ok (record rows { measurements = rows.measurements ++ m ∷ [] });
  add_event = insert_event;
  delete_measurements = λ rows. ok (record rows { measurements = [] });
  delete_events = λ rows. ok (record rows { events = [] });
  commit = ok;
  measurements = λ rows. rows.measurements;
  events = λ rows. rows.events;
}

result_of : {A : Type 0} → A → Result A → A
result_of a (ok b) = b
result_of a (raised e) = a

pub ok-injective : {A : Type 0} {a b : A} → ok a ≡ ok b → b ≡ a
unfolding result_of
ok-injective {a = a} h = sym (ap (result_of a) h)

pub tables-IsLawful : IsLawful tables
unfolding insert_event
tables-IsLawful = record {
  add_measurement = λ m s h. ok-injective h;
  add_event = λ e s h. ground arith;
  delete_measurements = λ s h. ok-injective h;
  delete_events = λ s h. ok-injective h;
  commit = λ s h. ok-injective h;
}

abbrev sample : Measurement
sample = record {
  recorded_at = codes "2024-05-01T12:00:00";
  lock_status = 1;
  gm_id = codes "001b21.fffe.000001";
  source_id = codes "00:1b:21:00:00:01";
  offset_avg_ns = negsuc 3;
  offset_max_ns = pos 12;
  offset_min_ns = negsuc 19;
}

abbrev typed : String → Event
typed name = record { recorded_at = []; event_type = name; detail = codes "{}" }

abbrev jobs : Queue
jobs =
    some (event (typed "sync_lost"))
    ∷ some (clear 7)
    ∷ some (event (typed "refused"))
    ∷ some (measurement sample)
    ∷ none
    ∷ some (clear 8)
    ∷ []

abbrev pub empty : World tables
empty = record { store = record { measurements = []; events = [] }; done = [] }

loop_run : writer_loop tables jobs empty ≡ (
  some (clear 8) ∷ [],
  record { store = record { measurements = sample ∷ []; events = [] }; done = 7 ∷ [] },
)
unfolding writer_loop insert_event string_eq process
loop_run = refl

writer_loop_lem_example :
    (rows_of tables (writer_loop tables jobs empty).1.store
      ≡ after_jobs (successful tables jobs empty) (rows_of tables empty.store))
    × ((writer_loop tables jobs empty).1.done ≡ [] ++ clear_ids jobs)
writer_loop_lem_example = writer_loop_lem tables tables-IsLawful jobs empty

abbrev put_job : Job
put_job = event (typed "sync_lost")

abbrev waiting : Queue
waiting = some (measurement sample) ∷ some put_job ∷ []

abbrev before_clear : World tables
before_clear = (writer_loop tables waiting empty).1

delete_ptp_log-waited_example :
    let reply = delete_ptp_log tables 9 3 waiting empty in
    (reply.0 ≡ "cleared")
    × (reply.1.0 ≡ [])
    × (reply.1.1.done ≡ [] ++ (clear_ids waiting ++ 9 ∷ []))
    × Cleared tables before_clear.store
        (transaction tables (clear 9) before_clear.store)
        reply.1.1.store
delete_ptp_log-waited_example =
    delete_ptp_log-waited tables tables-IsLawful 9 3 waiting empty (tt, (tt, tt)) (omega arith)

delete_ptp_log-pending_example :
    let reply = delete_ptp_log tables 9 1 waiting empty in
    (reply.0 ≡ "cleared") × (reply.1.0 ≡ some put_job ∷ some (clear 9) ∷ [])
delete_ptp_log-pending_example =
    delete_ptp_log-pending tables 9 1 waiting empty (tt, (tt, tt)) (omega arith)

numbered : {A : Type 0} → List A → List (ℕ × A)
numbered [] = []
numbered (x ∷ xs) = (length xs, x) ∷ numbered xs

map-numbered : {A : Type 0} (xs : List A) → map (λ (id, x). x) (numbered xs) ≡ xs
unfolding numbered
map-numbered [] = refl
map-numbered (x ∷ xs) = ap (λ l. x ∷ l) (map-numbered xs)

abbrev queries : Queries tables
queries = record {
  measurements = λ q rows. ok (numbered (selected q rows.measurements));
  events = λ q rows. ok (numbered (selected q rows.events));
}

queries-IsOrdered : IsOrdered tables queries
queries-IsOrdered = record {
  measurements =
      λ q s h. ap (map (λ (id, m). m)) (ok-injective h) ∙ map-numbered (selected q s.measurements);
  events = λ q s h. ap (map (λ (id, e). e)) (ok-injective h) ∙ map-numbered (selected q s.events);
}

abbrev loop_rows : Rows
loop_rows = (writer_loop tables jobs empty).1.store

abbrev shown_log : Json
shown_log =
    log_json (numbered (limited (pos 5) (reverse loop_rows.measurements)))
      (numbered (limited (pos 5) (reverse loop_rows.events)))

log_run : get_ptp_log tables queries (pos 5) loop_rows ≡ ok shown_log
unfolding get_ptp_log
log_run = refl

get_ptp_log-writer_loop_example :
    Shows tables queries
      (pos 5)
      (after_jobs (successful tables jobs empty) (rows_of tables empty.store))
      shown_log
get_ptp_log-writer_loop_example =
    get_ptp_log-writer_loop tables queries tables-IsLawful queries-IsOrdered (pos 5) jobs empty
      log_run
