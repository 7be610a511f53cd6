-- ===== src/Monitor/Logs.antt =====
-- `_log_buffer`, `MemoryLogHandler` and `get_recent_logs`.
use mo_ip_checker.Base.{
  ℕ, zero, suc, ◌-◌, List, [], ◌∷◌, ◌++◌, Text, length, drop, leb, if◌then◌else◌,
}
use mo_ip_checker.Base.Int.{ℤ, pos, negsuc}

pub record Entry : Type 0 where
  pub timestamp : Text
  pub level : Text
  pub logger : Text
  pub message : Text

abbrev pub max_log_entries : ℕ
max_log_entries = 500

-- `append` on a `deque` of this `maxlen` drops the entries at the other end that are too many.
unfoldable pub emit : Entry → List Entry → List Entry
emit e buffer = let entries = buffer ++ e ∷ [] in drop (length entries - max_log_entries) entries

unfoldable pub emit_all : List Entry → List Entry → List Entry
emit_all [] buffer = buffer
emit_all (e ∷ entries) buffer = emit_all entries (emit e buffer)

-- A record of the `logging` module: its `levelno`, and what `emit` makes of it.
pub record LogRecord : Type 0 where
  pub levelno : ℕ
  pub entry : Entry

abbrev pub warning : ℕ
warning = 30

-- The handler of `install_log_capture`, with its level
unfoldable pub handle : LogRecord → List Entry → List Entry
handle r buffer = if leb warning r.levelno then emit r.entry buffer else buffer

unfoldable pub handle_all : List LogRecord → List Entry → List Entry
handle_all [] buffer = buffer
handle_all (r ∷ records) buffer = handle_all records (handle r buffer)

-- `list(_log_buffer)[-limit:]`: a slice from a negative index counts from the end, and stops at the
-- first entry; `-0` is the index of the first entry.
unfoldable pub get_recent_logs : ℤ → List Entry → List Entry
get_recent_logs (pos zero) buffer = buffer
get_recent_logs (pos (suc n)) buffer = drop (length buffer - suc n) buffer
get_recent_logs (negsuc n) buffer = drop (suc n) buffer
