-- ===== src/LogReader/Run.antt =====
-- The tasks of `run`: the loop over the lines of the log and the two timer loops, with the calls that
-- request handlers make. A loop holds the lock over its whole body and awaits nothing in it, a reload
-- runs on the event loop, and the restart flag is one assignment, so a run is a sequence of such
-- bodies.
use mo_ip_checker.Base.{Bool, true, false, List, [], ◌∷◌, Text}
use mo_ip_checker.Base.Exec.{Result, ok, raised}
use mo_ip_checker.Json.{Json}
use mo_ip_checker.Numbers.{Numbers}
use mo_ip_checker.Pattern.Engine.{Unicode}
use mo_ip_checker.LogReader.State.{Reader, initial, reload_from, set_restarting}
use mo_ip_checker.LogReader.Line.{parse_line}
use mo_ip_checker.LogReader.Tick.{Now, tick_second, tick_minute}

pub data Input (Number : Type 0) : Type 0 where
  line : Number → Text → Text → Input Number
  second : Now Number → Input Number
  minute : Text → Input Number
  reload : Json → Input Number
  restarting : Bool → Input Number

-- The reader, and whether `_tail_loop` still runs: an exception in its body ends it.
pub record Service (Number : Type 0) : Type 0 where
  pub reader : Reader Number
  pub open reader use *
  pub tailing : Bool

abbrev pub started : {Number : Type 0} → Text → Service Number
started now = record { reader = initial now; tailing = true }

abbrev pub still_tailing : Result (Unit {0}) → Bool
still_tailing (ok _) = true
still_tailing (raised _) = false

module _ {Number : Type 0} where
  abbrev pub tail_step : Result (Unit {0}) × Reader Number → Service Number
  tail_step (result, r) = record { reader = r; tailing = still_tailing result }

module _ (u : Unicode) (N : Numbers) where
  open N use {Number}

  -- One body of `_tail_loop`
  unfoldable pub tail_line : Bool → Number → Text → Text → Service Number → Service Number
  tail_line true mono now text s = tail_step (parse_line u mono now text s.reader)
  tail_line false mono now text s = s

  -- The timer loops log an exception and go on from the state that it left.
  unfoldable pub step : Input Number → Service Number → Service Number
  unfolding tail_line
  step (line mono now text) s = tail_line s.tailing mono now text s
  step (second now) s = record s { reader = (tick_second N now s.reader).1 }
  step (minute now) s = record s { reader = tick_minute now s.reader }
  step (reload ptp) s = record s { reader = (reload_from ptp s.reader).1 }
  step (restarting flag) s = record s { reader = set_restarting flag s.reader }

  unfoldable pub run : List (Input Number) → Service Number → Service Number
  run [] s = s
  run (i ∷ inputs) s = run inputs (step i s)
