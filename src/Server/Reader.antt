-- ===== src/Server/Reader.antt =====
-- The restart flag and the queue across the steps of the log reader and of the writer thread.
use mo_ip_checker.Base.{
  ◌≡◌, refl, Bool, true, false, List, [], ◌∷◌, Text, arith, Bool-cases, inl, inr, All, none, some,
  nat_eq,
}
use mo_ip_checker.Numbers.{Numbers}
use mo_ip_checker.Pattern.Engine.{Unicode}
use mo_ip_checker.DbWriter.Queue.{Queue}
use mo_ip_checker.DbWriter.Thread.{Database, World, handled}
use mo_ip_checker.DbWriter.Rows.{rows_of, IsLawful}
use mo_ip_checker.LogReader.State.{Reader}
use mo_ip_checker.LogReader.Line.{parse_line, take_sample, take_gm_id}
use mo_ip_checker.LogReader.Line.Cases.{parse_line_cases}
use mo_ip_checker.LogReader.Tick.{
  Now, aggregate, aggregate_samples, judge_lock, check_offset, check_freq, tick_second, tick_minute,
}
use mo_ip_checker.LogReader.Run.{Input, line, second, minute, restarting, reload, Service, step}
use mo_ip_checker.Recording.{IsRecord, IsRecording, after_job-IsRecording, process-IsRecording}

module _ {Number : Type 0} where
  parse_line-restarting :
      (u : Unicode) (mono : Number) (now text : Text) (r : Reader Number)
      → (parse_line u mono now text r).1.restarting ≡ r.restarting
  unfolding take_sample take_gm_id
  parse_line-restarting u mono now text r =
      parse_line_cases u mono now text r (λ (_, t). t.restarting ≡ r.restarting)
        (λ caps _. ground arith) (λ caps _ _. refl) (λ _. refl)

  aggregate_samples-restarting :
      (samples : List _) (r : Reader Number)
      → (aggregate_samples samples r).restarting ≡ r.restarting
  unfolding aggregate_samples
  aggregate_samples-restarting [] r = refl
  aggregate_samples-restarting (x ∷ xs) r = refl

module _ (N : Numbers) where
  open N use {Number}

  judge_lock-restarting :
      (now : Text) (r : Reader Number) → (judge_lock N now r).1.restarting ≡ r.restarting
  unfolding judge_lock
  judge_lock-restarting now r = ground arith

  check_offset-restarting :
      (now : Text) (r : Reader Number) → (check_offset N now r).1.restarting ≡ r.restarting
  unfolding check_offset
  check_offset-restarting now r = ground arith

  check_freq-restarting :
      (mono : Number) (now : Text) (r : Reader Number)
      → (check_freq N mono now r).1.restarting ≡ r.restarting
  unfolding check_freq
  check_freq-restarting mono now r = ground arith

  tick_second-restarting :
      (now : Now Number) (r : Reader Number) → (tick_second N now r).1.restarting ≡ r.restarting
  unfolding tick_second
  tick_second-restarting now r =
      let a = aggregate r in
      let s₁ = (judge_lock N now.lost_at a).1 in
      let s₂ = (check_offset N now.breached_at s₁).1 in
      ground (
        arith,
        aggregate_samples-restarting r.second_samples r,
        judge_lock-restarting now.lost_at a,
        check_offset-restarting now.breached_at s₁,
        check_freq-restarting now.mono now.freq_at s₂,
      )

-- What neither reloads the configuration nor sets the flag.
abbrev pub is_loop : {Number : Type 0} → Input Number → Bool
is_loop (reload ptp) = false
is_loop (restarting flag) = false
is_loop _ = true

module _ (u : Unicode) (N : Numbers) where
  open N use {Number}

  pub step-restarting :
      (i : Input Number) (s : Service Number)
      → is_loop i ≡ true
      → (step u N i s).reader.restarting ≡ s.reader.restarting
  unfolding step tick_minute
  step-restarting (line mono now text) s h = elim (Bool-cases s.tailing) [
    | inl on ↦ rw on (parse_line-restarting u mono now text s.reader)
    | inr off ↦ rw off refl
  ]
  step-restarting (second now) s h = tick_second-restarting N now s.reader
  step-restarting (minute now) s h = refl
  step-restarting (reload ptp) s h = absurd (cc (h))
  step-restarting (restarting flag) s h = absurd (cc (h))

module _ (D : Database) (laws : IsLawful D) where
  -- One job of a queue of records keeps the rows recordings and leaves records.
  pub handled-IsRecording :
      (q : Queue) (w : World D)
      → All IsRecord q
      → IsRecording (rows_of D w.store)
      → All IsRecord (handled D 1 q w).0 × IsRecording (rows_of D (handled D 1 q w).1.store)
  unfolding handled
  handled-IsRecording [] w js h = (js, h)
  handled-IsRecording (none ∷ q) w js h = (js, h)
  handled-IsRecording (some job ∷ q) w (j, js) h =
      (js, process-IsRecording D laws job w (λ rows. after_job-IsRecording job rows j) h)
