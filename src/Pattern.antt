-- ===== src/Pattern.antt =====
-- Regular expressions as `re` searches with them, for the constructs that the patterns of
-- frontend/services/ptp_log_reader.py use: literal characters, `\s`, `\d`, `\w`, `[0-9a-f]`, `+`,
-- `?`, repetition written out, and groups. Matching is greedy and goes back on failure.
pub mod Engine
pub mod Relation
pub mod Complete
pub mod Runs
