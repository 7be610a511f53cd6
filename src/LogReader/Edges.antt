-- ===== src/LogReader/Edges.antt =====
-- What one `_tick_second` puts on the writer's queue.
use mathlib.Core.List.{append_assoc, append-nil}
use mo_ip_checker.Base.{
  ◌≡◌, Bool, not, ◌&&◌, some, [], ◌∷◌, ◌++◌, String, Text, codes, arith, if◌then◌else◌,
}
use mo_ip_checker.Base.Dict.{Dict}
use mo_ip_checker.Json.{Json, num, str, object}
use mo_ip_checker.Json.Dumps.{dumps}
use mo_ip_checker.Numbers.{Numbers}
use mo_ip_checker.DbWriter.Queue.{Queue, event, enqueue_event}
use mo_ip_checker.LogReader.State.{Reader}
use mo_ip_checker.LogReader.Tick.{
  Now, aggregate, aggregate_samples, judge_lock, check_offset, check_freq, tick_second,
}

-- A single event on the queue, or nothing.
abbrev pub event_if : Bool → Text → String → Dict String Json → Queue
event_if b now kind detail =
    if b
    then some
        (event (record { recorded_at = now; event_type = kind; detail = dumps (object detail) }))
      ∷ []
    else []

module _ {Number : Type 0} where
  -- The events that belong to the flags of `r` and `t`, before and after a tick at `now`.
  abbrev pub lost_event : Now Number → Reader Number → Reader Number → Queue
  lost_event now r t =
      event_if (r.lock_status && not t.lock_status) now.lost_at "PTP_LOCK_LOST"
        (("previous_offset_ns", num r.offset_current_ns) ∷ ("gm_id", str r.gm_id) ∷ [])

  abbrev pub breach_event : Now Number → Reader Number → Reader Number → Queue
  breach_event now r t =
      event_if (not r.offset_threshold_breached && t.offset_threshold_breached) now.breached_at
        "OFFSET_THRESHOLD"
        (("offset_ns", num r.offset_current_ns)
          ∷ ("threshold_ns", r.cfg.offset_alert_threshold_ns)
          ∷ [])

  abbrev pub freq_event : Now Number → Reader Number → Reader Number → Queue
  freq_event now r t =
      event_if (not r.freq_error_active && t.freq_error_active) now.freq_at "PACKET_FREQ_ERROR"
        (("packet_type", str (codes "sync")) ∷ [])

  -- What no section of a tick changes.
  pub record Keeps (r t : Reader Number) : Type 0 where
    pub gm_id : t.gm_id ≡ r.gm_id
    pub source_id : t.source_id ≡ r.source_id
    pub offset_current_ns : t.offset_current_ns ≡ r.offset_current_ns
    pub sync_state : t.sync_state ≡ r.sync_state
    pub last_sync_seen_at : t.last_sync_seen_at ≡ r.last_sync_seen_at
    pub second_samples : t.second_samples ≡ r.second_samples
    pub minute_samples : t.minute_samples ≡ r.minute_samples
    pub cfg : t.cfg ≡ r.cfg

module _ (N : Numbers) where
  open N use {Number}

  -- What one section of a tick does to the flags of the others, and to the queue.
  record Judged (now : Now Number) (r t : Reader Number) : Type 0 where
    kept : Keeps r t
    open kept use *
    breached : t.offset_threshold_breached ≡ r.offset_threshold_breached
    active : t.freq_error_active ≡ r.freq_error_active
    queue : t.queue ≡ r.queue ++ lost_event now r t

  judge_lock-Judged :
      (now : Now Number) (r : Reader Number) → Judged now r (judge_lock N now.lost_at r).1
  unfolding judge_lock enqueue_event
  judge_lock-Judged now r = ground (arith, append-nil r.queue)

  pub judge_lock-kept : (at : Text) (r : Reader Number) → Keeps r (judge_lock N at r).1
  unfolding judge_lock
  judge_lock-kept at r = ground arith

  pub check_offset-kept : (at : Text) (r : Reader Number) → Keeps r (check_offset N at r).1
  unfolding check_offset
  check_offset-kept at r = ground arith

  pub check_freq-kept :
      (mono : Number) (at : Text) (r : Reader Number) → Keeps r (check_freq N mono at r).1
  unfolding check_freq
  check_freq-kept mono at r = ground arith

  record Checked (now : Now Number) (r t : Reader Number) : Type 0 where
    kept : Keeps r t
    open kept use *
    lock_status : t.lock_status ≡ r.lock_status
    active : t.freq_error_active ≡ r.freq_error_active
    queue : t.queue ≡ r.queue ++ breach_event now r t

  check_offset-Checked :
      (now : Now Number) (r : Reader Number) → Checked now r (check_offset N now.breached_at r).1
  unfolding check_offset enqueue_event
  check_offset-Checked now r = ground (arith, append-nil r.queue)

  record Timed (now : Now Number) (r t : Reader Number) : Type 0 where
    kept : Keeps r t
    open kept use *
    lock_status : t.lock_status ≡ r.lock_status
    breached : t.offset_threshold_breached ≡ r.offset_threshold_breached
    queue : t.queue ≡ r.queue ++ freq_event now r t

  check_freq-Timed :
      (now : Now Number) (r : Reader Number) → Timed now r (check_freq N now.mono now.freq_at r).1
  unfolding check_freq enqueue_event
  check_freq-Timed now r = ground (arith, append-nil r.queue)

  aggregate-flags :
      (r : Reader Number)
      → ((aggregate r).queue ≡ r.queue)
        × ((aggregate r).lock_status ≡ r.lock_status)
        × ((aggregate r).offset_threshold_breached ≡ r.offset_threshold_breached)
        × ((aggregate r).freq_error_active ≡ r.freq_error_active)
        × ((aggregate r).offset_current_ns ≡ r.offset_current_ns)
        × ((aggregate r).gm_id ≡ r.gm_id)
        × ((aggregate r).cfg ≡ r.cfg)
  unfolding aggregate_samples
  aggregate-flags r = ground arith

  -- A tick appends to the queue an event for each flag that it changes, in this order, and nothing
  -- else: `PTP_LOCK_LOST` as the lock status falls, `OFFSET_THRESHOLD` as the threshold flag rises,
  -- `PACKET_FREQ_ERROR` as the frequency flag rises. It holds for a tick that raises, too.
  pub tick_second-queue :
      (now : Now Number) (r : Reader Number)
      → let t = (tick_second N now r).1 in
        t.queue ≡ r.queue ++ (lost_event now r t ++ (breach_event now r t ++ freq_event now r t))
  unfolding tick_second
  tick_second-queue now r =
      let a = aggregate r in
      let s₁ = (judge_lock N now.lost_at a).1 in
      let s₂ = (check_offset N now.breached_at s₁).1 in
      let s₃ = (check_freq N now.mono now.freq_at s₂).1 in
      ground (
        arith,
        append_assoc r.queue (lost_event now a s₁) (breach_event now s₁ s₂),
        append_assoc r.queue (lost_event now a s₁) (breach_event now s₁ s₂ ++ freq_event now s₂ s₃),
        append_assoc (r.queue ++ lost_event now a s₁) (breach_event now s₁ s₂)
            (freq_event now s₂ s₃),
        append-nil (lost_event now a s₁),
        append-nil (breach_event now s₁ s₂),
        append-nil r.queue,
        aggregate-flags r,
        judge_lock-Judged now a,
        check_offset-Checked now s₁,
        check_freq-Timed now s₂,
      )
