-- ===== src/EventBase/Safety.antt =====
-- event_process_active of event.c, with callbacks that may activate events and stop the loop.
use practising.Base.{
  ℕ, zero, suc, ◌+◌, ◌≡◌, refl, Bool, true, false, Option, none, some, List, [], ◌∷◌, if◌then◌else◌,
}
use practising.EvMap.Backend.{Eventop}
use practising.EventBase.{Assigned, EventBase, Fired}
use practising.EventBase.Waits.{IsTime}
use practising.EventBase.Process.{
  Ran, running, stopped, counted, resume, process_queue, process_from, event_process_active,
}
use practising.EventBase.Ready.{IsProgram, Ready}
use practising.EventBase.Befores.{before_callback-Taken}
use practising.EventBase.Queues.{IsSafe}
use practising.EventBase.Priorities.{with_priority-Ready}

module _ (ev : ℕ → Assigned) (op : Eventop) (limit : ℕ) {W : Type 0}
    (callback : W × EventBase op.State → ℕ → Fired → W × EventBase op.State) where
  -- No assertion failed and no event_errx was met, and the base is fit for the loop, whether the callbacks
  -- are all run or not.
  abbrev pub IsRun : Option (Ran (W × EventBase op.State)) → Type 0
  IsRun none = ⊥
  IsRun (some (running s)) = Ready ev op limit s.1
  IsRun (some (stopped s)) = Ready ev op limit s.1
  IsRun (some (counted c s)) = Ready ev op limit s.1

  module _ (realloc : ℕ → Bool) (calloc debug : Bool) (program : IsProgram ev op limit)
      (safe : IsSafe ev op limit callback) where
    resume-IsRun :
        (s : W × EventBase op.State) (break continue : Bool) (count : ℕ)
        (rest : Option (Ran (W × EventBase op.State)))
        → Ready ev op limit s.1
        → IsRun rest
        → IsRun (resume break continue count s rest)
    unfolding resume
    resume-IsRun s true continue count rest k h = k
    resume-IsRun s false true count rest k h = k
    resume-IsRun s false false count rest k h = h

    process_queue-IsRun :
        (fuel : ℕ) (now : ℕ × ℕ) (pri count : ℕ) (w : W) (b : EventBase op.State)
        → IsTime now
        → Ready ev op limit b
        → IsRun (process_queue ev op realloc calloc debug callback fuel now pri count (w, b))
    unfolding process_queue
    process_queue-IsRun zero now pri count w b in_now k = k
    process_queue-IsRun (suc fuel) now pri count w b in_now k =
        at (b.activequeues pri) refl
          (λ c w1 b1 k1. process_queue-IsRun fuel now pri c w1 b1 in_now k1)
      where
        at :
            (q : List ℕ)
            → b.activequeues pri ≡ q
            → ((c : ℕ) (w1 : W) (b1 : EventBase op.State)
                → Ready ev op limit b1
                → IsRun (process_queue ev op realloc calloc debug callback fuel now pri c (w1, b1)))
            → IsRun
                (process_queue ev op realloc calloc debug callback (suc fuel) now pri count (w, b))
        at [] h later = rw (h, process_queue) k
        at (e ∷ q) h later =
            let (b1, taken, t) =
              before_callback-Taken ev op realloc calloc debug limit program now b pri e q in_now k
                h in
            let s = callback (w, b1) e (b1.ev_res e) in
            let k1 = safe w b1 e (b1.ev_res e) t.ready in
            let count' = if (ev e).internal then count else count + 1 in
            rw (h, process_queue, taken)
              (resume-IsRun s s.1.event_break s.1.event_continue count' _ k1
                (later count' s.0 s.1 k1))

    -- A round of the loop over the priorities, by what the queue of priority `i` came to.
    round-IsRun :
        (n fuel i e : ℕ) (now : ℕ × ℕ) (q : List ℕ) (w : W) (b : EventBase op.State)
        (o : Option (Ran (W × EventBase op.State)))
        → b.activequeues i ≡ e ∷ q
        → process_queue ev op realloc calloc debug callback fuel now i 0
            (w, record b { event_running_priority = some i })
          ≡ o
        → IsRun o
        → ((w1 : W) (b1 : EventBase op.State)
            → Ready ev op limit b1
            → IsRun (process_from ev op realloc calloc debug callback n fuel now (i + 1) (w1, b1)))
        → IsRun (process_from ev op realloc calloc debug callback (suc n) fuel now i (w, b))
    unfolding process_from
    round-IsRun n fuel i e now q w b none h ran k later = absurd k
    round-IsRun n fuel i e now q w b (some (running s)) h ran k later = rw (h, process_from, ran) k
    round-IsRun n fuel i e now q w b (some (stopped s)) h ran k later =
        rw (h, process_from, ran) (with_priority-Ready ev op limit callback s.1 none k)
    round-IsRun n fuel i e now q w b (some (counted zero s)) h ran k later =
        rw (h, process_from, ran) (later s.0 s.1 k)
    round-IsRun n fuel i e now q w b (some (counted (suc c) s)) h ran k later =
        rw (h, process_from, ran) (with_priority-Ready ev op limit callback s.1 none k)

    process_from-IsRun :
        (n fuel i : ℕ) (now : ℕ × ℕ) (w : W) (b : EventBase op.State)
        → IsTime now
        → Ready ev op limit b
        → IsRun (process_from ev op realloc calloc debug callback n fuel now i (w, b))
    unfolding process_from
    process_from-IsRun zero fuel i now w b in_now k =
        with_priority-Ready ev op limit callback b none k
    process_from-IsRun (suc n) fuel i now w b in_now k =
        at (b.activequeues i) refl
          (λ w1 b1 k1. process_from-IsRun n fuel (i + 1) now w1 b1 in_now k1)
      where
        at :
            (q : List ℕ)
            → b.activequeues i ≡ q
            → ((w1 : W) (b1 : EventBase op.State)
                → Ready ev op limit b1
                → IsRun
                    (process_from ev op realloc calloc debug callback n fuel now (i + 1) (w1, b1)))
            → IsRun (process_from ev op realloc calloc debug callback (suc n) fuel now i (w, b))
        at [] h later = rw (h, process_from) (later w b k)
        at (e ∷ q) h later =
            round-IsRun n fuel i e now q w b _ h refl
              (process_queue-IsRun fuel now i 0 w (record b { event_running_priority = some i })
                in_now (with_priority-Ready ev op limit callback b (some i) k))
              later

    -- event_process_active from a base fit for the loop, with callbacks that keep it so, which may add and
    -- delete events, activate them and stop the loop: whatever number of callbacks is run, no assertion
    -- fails, event_errx is not called, and the base stays fit.
    pub event_process_active-IsRun :
        (n fuel : ℕ) (now : ℕ × ℕ) (w : W) (b : EventBase op.State)
        → IsTime now
        → Ready ev op limit b
        → IsRun (event_process_active ev op realloc calloc debug callback n fuel now (w, b))
    unfolding event_process_active
    event_process_active-IsRun n fuel now w b in_now k =
        process_from-IsRun n fuel 0 now w b in_now k
