-- ===== src/PtpRouter/Restarts.antt =====
-- `restart_ptp_container` of frontend/routers/ptp.py. Background tasks that are not coroutines run on
-- threads, so several may be between their two assignments of the flag at once.
use mo_ip_checker.Base.{ℕ, suc, ◌≤◌, ◌≡◌, refl, Bool, true, false, ◌⊎◌, inl, inr, arith}
use mo_ip_checker.Base.Exec.{Result, ok, raised}
use mo_ip_checker.LogReader.State.{set_restarting}
use mo_ip_checker.PtpRouter.Handlers.{Backend}

pub same-flag : (a b : Bool) (n : ℕ) → a ≡ b → (b ≡ false) ⊎ (1 ≤ n) → (a ≡ false) ⊎ (1 ≤ n)
same-flag a b n e h = ground arith

module _ {Number : Type 0} where
  -- A scheduled task begins: the flag is set, and Docker is called.
  unfoldable pub begin_restart : ℕ → Backend Number → Backend Number
  begin_restart left b = record b { reader = set_restarting true b.reader; restarts = left }

  -- The call has ended, whether it raised or not.
  unfoldable pub end_restart : Result (Unit {0}) → Backend Number → Backend Number
  end_restart (ok _) b = record b { reader = set_restarting false b.reader }
  end_restart (raised e) b = record b { reader = set_restarting false b.reader }

  -- The backends that are reached, with the number of the tasks whose call of Docker has not ended.
  -- `other` is a step of a handler or of the log reader, none of which sets the flag.
  pub data Restarts (start : Backend Number) : Backend Number → ℕ → Type 0 where
    at_start : Restarts start start 0
    began :
        {b : Backend Number} {n left : ℕ}
        → Restarts start b n
        → b.restarts ≡ suc left
        → Restarts start (begin_restart left b) (suc n)
    ended :
        {b : Backend Number} {n : ℕ} (outcome : Result (Unit {0}))
        → Restarts start b (suc n)
        → Restarts start (end_restart outcome b) n
    other :
        {b t : Backend Number} {n : ℕ}
        → Restarts start b n
        → t.reader.restarting ≡ b.reader.restarting
        → Restarts start t n

  pub end_restart-flag :
      (outcome : Result (Unit {0})) (b : Backend Number)
      → (end_restart outcome b).reader.restarting ≡ false
  unfolding end_restart set_restarting
  end_restart-flag (ok _) b = refl
  end_restart-flag (raised e) b = refl

  -- From a state in which the flag is down, whatever restart tasks are scheduled, begin and end, in
  -- whatever order, and whether Docker's calls return or raise: the flag is down, or the call of at
  -- least one task has not ended.
  pub Restarts-flag :
      (start : Backend Number) {b : Backend Number} {n : ℕ}
      → start.reader.restarting ≡ false
      → Restarts start b n
      → (b.reader.restarting ≡ false) ⊎ (1 ≤ n)
  unfolding begin_restart
  Restarts-flag start off at_start = inl off
  Restarts-flag start off (began {n = n} s h) = inr (omega arith)
  Restarts-flag start off (ended {b = b} outcome s) = inl (end_restart-flag outcome b)
  Restarts-flag start off (other {b = b} {t = t} {n = n} s same) =
      same-flag t.reader.restarting b.reader.restarting n same (Restarts-flag start off s)

  -- If two restart tasks or more are scheduled, a state can be reached in which the call of one has
  -- not ended and the flag is down.
  pub Restarts-overlap :
      (start : Backend Number) (left : ℕ)
      → start.restarts ≡ suc (suc left)
      → (b : Backend Number) × Restarts start b 1 × (b.reader.restarting ≡ false)
  unfolding begin_restart
  Restarts-overlap start left two =
      let first = began at_start two in
      let both = began first refl in (_, ended (ok tt) both, end_restart-flag (ok tt) _)
