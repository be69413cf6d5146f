-- ===== src/EventBase/Queues.antt =====
-- event_process_active_single_queue of event.c runs the callbacks of a queue in its order.
use mathlib.Core.Path.{fun_ext}
use practising.Base.{
  ℕ, zero, suc, ◌+◌, ◌<◌, ◌≡◌, refl, sym, ap, ap₂, ◌∙◌, Bool, true, false, some, List, [], ◌∷◌,
  length, ◌==◌, if◌then◌else◌, arith, Bool-cases, inl, inr,
}
use practising.MinHeap.{put}
use practising.EvMap.Backend.{Eventop}
use practising.EventBase.{Assigned, EventBase, Fired}
use practising.EventBase.State.{put-same}
use practising.EventBase.Waits.{IsTime}
use practising.EventBase.Process.{counted, resume, process_queue}
use practising.EventBase.Ready.{IsProgram, Ready}
use practising.EventBase.Befores.{before_callback-Taken}

put_twice : {A : Type 0} (f : ℕ → A) (p : ℕ) (x y : A) → put (put f p x) p y ≡ put f p y
put_twice f p x y =
    fun_ext (λ j. elim (Bool-cases (p == j)) [ inl s ↦ rw s refl | inr n ↦ rw n refl ])

put_at : {A : Type 0} (f : ℕ → A) (p : ℕ) (x : A) → put f p x p ≡ x
put_at f p x = let s : (p == p) ≡ true = ground arith in rw s refl

-- The events of a list that are not internal.
abbrev pub outer : (ℕ → Assigned) → List ℕ → ℕ
outer ev [] = 0
outer ev (e ∷ q) = if (ev e).internal then outer ev q else suc (outer ev q)

module _ (ev : ℕ → Assigned) (op : Eventop) (limit : ℕ) {W : Type 0}
    (callback : W × EventBase op.State → ℕ → Fired → W × EventBase op.State) where
  -- Callbacks keep the base fit for the loop.
  abbrev pub IsSafe : Type 0
  IsSafe =
      (w : W) (b : EventBase op.State) (e : ℕ) (res : Fired)
      → Ready ev op limit b
      → Ready ev op limit (callback (w, b) e res).1

  -- On a base fit for the loop, callbacks leave the active queues as they are, and do not ask the loop to
  -- stop.
  abbrev pub IsCalm : Type 0
  IsCalm =
      (w : W) (b : EventBase op.State) (e : ℕ) (res : Fired)
      → Ready ev op limit b
      → let r = (callback (w, b) e res).1 in
        (r.activequeues ≡ b.activequeues)
        × (r.event_break ≡ b.event_break)
        × (r.event_continue ≡ b.event_continue)

  -- From the program's state `w`, the callbacks of the events of a list run in its order, and leave `w'`.
  -- Each sees a base fit for the loop, where its event is not active.
  pub data Calls (w' : W) : W → List ℕ → Type 0 where
    done : (w : W) → w ≡ w' → Calls w' w []
    call :
        (w : W) (b : EventBase op.State) (e : ℕ) (q : List ℕ)
        → Ready ev op limit b
        → b.active e ≡ false
        → Calls w' (callback (w, b) e (b.ev_res e)).0 q
        → Calls w' w (e ∷ q)

  module _ (realloc : ℕ → Bool) (calloc debug : Bool) (program : IsProgram ev op limit)
      (safe : IsSafe) (calm : IsCalm) where
    -- event_process_active_single_queue of a queue `q`, with callbacks that leave the active queues as
    -- they are and stop nothing: it ends, after a round for each event. The callbacks were run in the order of the queue,
    -- each once, with its event active no longer. The queue is empty, the others are as before, and the
    -- count is that of the events that are not internal.
    pub process_queue-Calls :
        (q : List ℕ) (fuel : ℕ) (now : ℕ × ℕ) (pri count : ℕ) (w : W) (b : EventBase op.State)
        → length q < fuel
        → IsTime now
        → Ready ev op limit b
        → b.activequeues pri ≡ q
        → b.event_break ≡ false
        → b.event_continue ≡ false
        → (w' : W) × (r : EventBase op.State) × (process_queue ev op realloc calloc debug callback
              fuel now pri count
              (w, b)
            ≡ some (counted (count + outer ev q) (w', r)))
          × Calls w' w q
          × Ready ev op limit r
          × (r.activequeues ≡ put b.activequeues pri [])
          × (r.event_break ≡ false)
          × (r.event_continue ≡ false)
    unfolding process_queue resume
    process_queue-Calls q zero now pri count w b enough in_now k h b0 c0 = absurd (omega arith)
    process_queue-Calls [] (suc fuel) now pri count w b enough in_now k h b0 c0 =
        let e : count + 0 ≡ count = omega arith in
        (
          w,
          b,
          rw (h, process_queue, e) refl,
          done w refl,
          k,
          sym (put-same b.activequeues pri h),
          b0,
          c0,
        )
    process_queue-Calls (e ∷ q) (suc fuel) now pri count w b enough in_now k h b0 c0 =
        let (b1, taken, t) =
          before_callback-Taken ev op realloc calloc debug limit program now b pri e q in_now k h in
        let s = callback (w, b1) e (b1.ev_res e) in
        let (same_queues, same_break, same_continue) = calm w b1 e (b1.ev_res e) t.ready in
        let b2 : s.1.event_break ≡ false = same_break ∙ t.flags.0 ∙ b0 in
        let c2 : s.1.event_continue ≡ false = same_continue ∙ t.flags.1 ∙ c0 in
        let queues = same_queues ∙ t.queues in
        let count' = if (ev e).internal then count else count + 1 in
        let (w', r, ran, calls, ready, emptied, b3, c3) =
          process_queue-Calls q fuel now pri count' s.0 s.1 (omega (arith, enough)) in_now
            (safe w b1 e (b1.ev_res e) t.ready)
            (ap (λ f. f pri) queues ∙ put_at b.activequeues pri q) b2 c2 in
        let sum : count' + outer ev q ≡ count + outer ev (e ∷ q) = ground arith in
        (
          w',
          r,
          rw (h, process_queue, taken)
              (ap₂
                  (λ x y.
                    resume x y count' s
                      (process_queue ev op realloc calloc debug callback fuel now pri count' s))
                  b2 c2
                ∙ ran
                ∙ ap (λ (n : ℕ). some (counted n (w', r))) sum),
          call w b1 e q t.ready t.inactive calls,
          ready,
          emptied ∙ ap (λ f. put f pri []) queues ∙ put_twice b.activequeues pri q [],
          b3,
          c3,
        )
