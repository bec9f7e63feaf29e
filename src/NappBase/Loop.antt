-- ===== src/NappBase/Loop.antt =====
-- When the loop of a NApp ends.
use kytos.Prelude.{
  ℕ, zero, suc, ◌+◌, ◌≤◌, ◌<◌, ◌≡◌, inl, inr, refl, Bool, true, false, arith, Bool-cases,
}
use kytos.Events.{ℤ, is_positive}
use kytos.NappBase.{
  Executed, done, exception, base_exception, Running, returned, raised, still, try_execute, run,
  run_loop, is_positive,
}

module _ {W : Type 0} (execute : W → Executed × W)
    (notify_loaded wait log_error shutdown set : W → W) (is_set : W → Bool) where
  -- What is documented of the event of the shutdown, seen from the thread of the NApp, with a number
  -- that says for how many waits more it is not set: each wait brings it nearer, and neither
  -- `execute` nor the log puts it off.
  pub record Nearer (distance : W → ℕ) : Type 0 where
    pub wait-nearer : (w : W) → is_set w ≡ false → distance (wait w) + 1 ≤ distance w
    pub execute-keeps : (w : W) → distance (execute w).1 ≤ distance w
    pub log_error-keeps : (w : W) → distance (log_error w) ≤ distance w

  -- It has returned in a state in which the event is set, or raised what a call of `execute` raised.
  abbrev pub HasEnded : Running × W → Type 0
  HasEnded (returned, w) = is_set w ≡ true
  HasEnded (raised, w) = (before : W) × (execute before ≡ (base_exception, w))
  HasEnded (still, w) = ⊥

  try_execute-HasEnded :
      (later : W → Running × W) (before : W) (out : Executed × W)
      → execute before ≡ out
      → (HasEnded (later out.1))
      → (HasEnded (later (log_error out.1)))
      → HasEnded (try_execute execute notify_loaded wait log_error shutdown set is_set later out)
  try_execute-HasEnded later before (done, w) e h k = h
  try_execute-HasEnded later before (exception, w) e h k = k
  try_execute-HasEnded later before (base_exception, w) e h k = (before, e)

  loop_run :
      (distance : W → ℕ) (fuel : ℕ) (interval : ℤ) (w : W)
      → Nearer distance
      → is_positive interval ≡ true
      → distance w < fuel
      → HasEnded (run_loop execute notify_loaded wait log_error shutdown set is_set fuel interval w)
  loop_run distance zero interval w near positive enough = absurd (omega arith)
  loop_run distance (suc fuel) interval w near positive enough = elim (Bool-cases (is_set w)) [
    | inl e ↦ rw positive (rw e e)
    | inr e ↦
        let nearer = near.wait-nearer w e in
        let kept = near.execute-keeps (wait w) in
        let logged = near.log_error-keeps (execute (wait w)).1 in
        rw positive (
          rw e (
            try_execute-HasEnded
              (run_loop execute notify_loaded wait log_error shutdown set is_set fuel interval)
              (wait w) (execute (wait w)) refl
              (loop_run distance fuel interval (execute (wait w)).1 near positive
                (omega (arith, enough, nearer, kept)))
              (loop_run distance fuel interval (log_error (execute (wait w)).1) near positive
                (omega (arith, enough, nearer, kept, logged)))))
  ]

  -- A NApp with an interval that is positive comes to the end of `run` if the event of its shutdown is
  -- set after so many waits: it returns, in a state in which the event is set, or a call of `execute`
  -- raised a BaseException that is no Exception, which is raised. An Exception of `execute` never ends
  -- it.
  pub run_lem :
      (distance : W → ℕ) (fuel : ℕ) (interval : ℤ) (w : W)
      → Nearer distance
      → is_positive interval ≡ true
      → distance (notify_loaded w) < fuel
      → HasEnded (run execute notify_loaded wait log_error shutdown set is_set fuel interval w)
  unfolding run
  run_lem distance fuel interval w near positive enough =
      let kept = near.execute-keeps (notify_loaded w) in
      let logged = near.log_error-keeps (execute (notify_loaded w)).1 in
      try_execute-HasEnded
        (run_loop execute notify_loaded wait log_error shutdown set is_set fuel interval)
        (notify_loaded w) (execute (notify_loaded w)) refl
        (loop_run distance fuel interval (execute (notify_loaded w)).1 near positive
          (omega (arith, enough, kept)))
        (loop_run distance fuel interval (log_error (execute (notify_loaded w)).1) near positive
          (omega (arith, enough, kept, logged)))
