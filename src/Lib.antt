-- ===== src/Lib.antt =====
-- MoIP checker: a web application that watches the PTP synchronisation of a server. ptp4l writes its
-- log to a file; the log reader follows this file, keeps the current state, judges the lock every
-- second, and puts measurements and events on the queue of the database writer, a thread that stores
-- them. The routers answer the browser: they read the state, change the configuration file, write
-- ptp4l.conf and the netplan file, and schedule restarts.
--
-- Which file models what (paths from the repository's root):
-- - LogReader: frontend/services/ptp_log_reader.py. LogReader/State has the module's variables as the
--   record Reader; reload_from is `reload_config` after the file is read. LogReader/Line has
--   `_parse_line`, the patterns and `_derive_source_id`; LogReader/Tick has `_tick_second`, section by
--   section, `_tick_minute` and `get_status`; LogReader/Run has the loops of `run` and the calls that
--   handlers make, as a sequence of inputs; LogReader/Verdicts and LogReader/Misses say what the second
--   ticks of a run found, LogReader/Minutes what the minute ticks measured.
--   The bodies of the loops run under the module's lock and await nothing in it, a reload runs on the
--   event loop, and the restart flag is one assignment, so any interleaving is such a sequence.
-- - Pattern: the part of Python's `re` that the patterns use, as a backtracking matcher (Engine), with
--   the matches it should find as a relation (Relation, Complete).
-- - DbWriter: frontend/services/db_writer.py, with the tables of frontend/models/ptp_log.py and
--   `delete_ptp_log` of frontend/routers/ptp.py. A `threading.Event` is a number. DbWriter/Schedules has
--   the writer's jobs while a request for a clear waits.
-- - Recording: the log reader and the writer together, over the rows that are stored.
-- - Server: the parts that share state, composed as frontend/main.py does it: one state with the process
--   (Lifespan's App), the database, the netplan files and the calls of the host, and one function that
--   carries out an event: a body of the reader's loops, a turn of the writer thread, a request, the begin
--   or the end of a restart, a task that ends the process or reboots, a new start. A request whose
--   handler returns leaves its background tasks to be carried out later. The events stand for the
--   requests to the included routers; paths, methods and the validation of bodies are not modelled.
--   Server/Sound has the invariant of this state, Server/Roles what the system settings alone change,
--   Server/Drained and Server/Pending the writer's turns among other events.
-- - ConfigStore: frontend/services/config_store.py, over Files, the files by their paths. A file that
--   holds JSON stands for the value that `json.load` reads from it. Save says how a write of one
--   comes out; the handlers are modelled with completed writes. ConfigStore/Atomic has what any write
--   leaves. ConfigStore/Template is the substitution of `string.Template`.
-- - SystemRouter: frontend/routers/system.py. SystemRouter/Netplan has `_write_netplan` and what it
--   calls, over YAML values that are JSON values, SystemRouter/Disk the outcomes of its writes and what is
--   assumed of PyYAML, whose `safe_dump` sorts keys; SystemRouter/Handlers has
--   `update_system_config` and the handlers of the buttons; SystemRouter/Tasks the background tasks, as
--   the calls they make; SystemRouter/Current the current addresses, the configuration and the status;
--   SystemRouter/Netmask the prefix length of a netmask.
-- - PtpRouter: frontend/routers/ptp.py and frontend/routers/config.py: the public status and its stream,
--   the changes of the PTP settings, the export and import of the configuration, the log, and in
--   PtpRouter/Restarts the restart tasks, which run on threads, as a step relation. PtpRouter/Requested
--   and PtpRouter/Accepted follow a change of the settings to config.json, ptp4l.conf and the log reader.
-- - Monitor: frontend/services/system_monitor.py: the log buffer, the interfaces that `ip` lists, the
--   rates of the cards with the counters kept between calls, and the NTP services.
-- - Lifespan: the lifespan of frontend/main.py, with the start of the reader's task and of the writer.
-- - Json, Numbers and Base: JSON values and `json.dumps`; numbers of Python that may be floats; texts as
--   lists of code points, integers, `dict`s in insertion order, decimal numerals, code that may raise.
--
-- Code that raises gives back the state that it left beside the exception. What is not in the
-- repository is a parameter: the Unicode database (Unicode), float arithmetic (Numbers), the database
-- behind SQLAlchemy and its answers to queries (Database, Queries), PyYAML (Yaml), `repr` of floats,
-- lists and dicts; what the clocks, psutil, `ip` and `systemctl` answer are arguments. Of Python's
-- `re`, `string.Template`, `ipaddress`, `int` and `json` the part that the source uses is written
-- out; numerals are converted as `int` does, with its limit of 4300 digits. Every loop is structural
-- recursion: over the lines, the jobs, the characters, the files, the roles or the cards, without
-- fuel. The pattern matcher is structural over the pattern, and over the text in a repetition.
--
-- Not modelled: the process of `tail` and the decoding of its output, the start of threads and tasks
-- below what Lifespan has, logging beside the buffer, the HTTP framework, docker beside the
-- calls that are made of it, failing writes of config.json and ptp4l.conf in the handlers, and of the
-- database's file, the browser's pages.
pub mod Base
pub mod Pattern
pub mod Json
pub mod Numbers
pub mod DbWriter
pub mod Files
pub mod ConfigStore
pub mod SystemRouter
pub mod LogReader
pub mod PtpRouter
pub mod Monitor
pub mod Lifespan
pub mod Recording
pub mod Server
mod Tests
