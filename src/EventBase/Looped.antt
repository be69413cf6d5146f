-- ===== src/EventBase/Looped.antt =====
-- event_base_loop of event.c fails no assertion, and keeps its base consistent.
use practising.Base.{
  ℕ, zero, suc, ◌≡◌, refl, Bool, true, false, not, ◌&&◌, ◌||◌, Option, none, some, List, ◌==◌,
  if◌then◌else◌,
}
use practising.Base.Int.{pos, negsuc}
use practising.EvMap.Backend.{Events, Eventop}
use practising.EventBase.{Assigned, EventBase, Fired, ◌>>=◌}
use practising.EventBase.Waits.{IsTime}
use practising.EventBase.Process.{Ran, running, stopped, counted, event_process_active}
use practising.EventBase.Ready.{IsProgram, Ready}
use practising.EventBase.Queues.{IsSafe}
use practising.EventBase.Safety.{IsRun, event_process_active-IsRun}
use practising.EventBase.Loop.{
  LoopFlags, LoopRound, next, within, done, Looped, looping, returned, event_haveevents,
  has_active_callbacks, after, ran_callbacks, processed, dispatched, loop_round, loop_rounds, leave,
  event_base_loop,
}
use practising.EventBase.Rounds.{
  with_flags-Ready, WaitsAlike, with_backend-Ready, AllWaited, activate_reports-Ready,
  timeout_process-Ready, IsPolling, IsRound, IsLooped, IsCached, wait_time-some,
}

module _ (ev : ℕ → Assigned) (op : Eventop) (limit : ℕ) where
  module _ (realloc : ℕ → Bool) (calloc debug : Bool) {W : Type 0}
      (callback : W × EventBase op.State → ℕ → Fired → W × EventBase op.State) (clock : W → ℕ × ℕ)
      (dispatch : W → op.State → Option (ℕ × ℕ) → W × op.State × Option (List (ℕ × Events)))
      (program : IsProgram ev op limit) (safe : IsSafe ev op limit callback)
      (polling : IsPolling ev op limit clock dispatch) where
    either-IsRound :
        (c : Bool) (x y : Option (LoopRound (W × EventBase op.State)))
        → IsRound ev op limit x
        → IsRound ev op limit y
        → IsRound ev op limit (if c then x else y)
    either-IsRound true x y h k = h
    either-IsRound false x y h k = k

    after-IsRound :
        (flags : LoopFlags) (ran : Bool) (now : ℕ × ℕ) (s : W × EventBase op.State)
        → IsTime now
        → Ready ev op limit s.1
        → IsRound ev op limit
            (some (after ev op realloc calloc debug callback clock dispatch flags ran now s))
    unfolding after
    after-IsRound flags ran now s in_now k =
        at (flags.once && not (has_active_callbacks s.1) && ran)
      where
        at : (c : Bool) → IsRound ev op limit (some (if c then done (pos 0) s else next now s))
        at true = k
        at false = (in_now, k)

    ran_callbacks-IsRound :
        (flags : LoopFlags) (now : ℕ × ℕ) (o : Option (Ran (W × EventBase op.State)))
        → IsTime now
        → IsRun ev op limit callback o
        → IsRound ev op limit (
            o >>= λ r.
            some (ran_callbacks ev op realloc calloc debug callback clock dispatch flags now r))
    unfolding ran_callbacks
    ran_callbacks-IsRound flags now none in_now k = k
    ran_callbacks-IsRound flags now (some (running s)) in_now k = k
    ran_callbacks-IsRound flags now (some (stopped s)) in_now k =
        after-IsRound flags true now s in_now k
    ran_callbacks-IsRound flags now (some (counted c s)) in_now k =
        after-IsRound flags (not (c == 0)) now s in_now k

    processed-IsRound :
        (n most : ℕ) (flags : LoopFlags) (now : ℕ × ℕ) (w : W) (b : EventBase op.State)
        → IsTime now
        → Ready ev op limit b
        → IsRound ev op limit
            (processed ev op realloc calloc debug callback clock dispatch n most flags now (w, b))
    unfolding processed
    processed-IsRound n most flags now w b in_now k =
        either-IsRound (has_active_callbacks b) _ _
          (ran_callbacks-IsRound flags now
            (event_process_active ev op realloc calloc debug callback n most now (w, b)) in_now
            (event_process_active-IsRun ev op limit callback realloc calloc debug program safe n
              most now w b in_now k))
          (either-IsRound flags.nonblock _ _ k (in_now, k))

    dispatched-IsRound :
        (n most : ℕ) (flags : LoopFlags) (b : EventBase op.State) (w : W) (s : op.State)
        (o : Option (List (ℕ × Events)))
        → WaitsAlike ev op limit b.io.backend s
        → AllWaited ev op limit s o
        → Ready ev op limit b
        → IsRound ev op limit
            (dispatched ev op realloc calloc debug callback clock dispatch n most flags b (w, s, o))
    unfolding dispatched
    dispatched-IsRound n most flags b w s none alike waited k =
        with_backend-Ready ev op limit b s alike k
    dispatched-IsRound n most flags b w s (some reports) alike waited k =
        let (m, active, ready) =
          activate_reports-Ready ev op limit realloc reports
            (record b { io = record b.io { backend = s } }) waited
            (with_backend-Ready ev op limit b s alike k) in
        let (r, timed, ready') =
          timeout_process-Ready ev op limit realloc (clock w) m program ready in
        rw (active, timed) (processed-IsRound n most flags (clock w) w r (polling.times w) ready')

    loop_round-IsRound :
        (n most : ℕ) (flags : LoopFlags) (tv_cache : Option (ℕ × ℕ)) (w : W)
        (b0 : EventBase op.State)
        → IsCached ev op limit realloc calloc debug callback clock dispatch program safe polling
            tv_cache
        → Ready ev op limit b0
        → IsRound ev op limit (
            loop_round ev op realloc calloc debug callback clock dispatch n most flags tv_cache
              (w, b0))
    unfolding loop_round
    loop_round-IsRound n most flags tv_cache w b0 cached k0 =
        let b = record b0 { event_continue = false } in
        let k : Ready ev op limit b =
          with_flags-Ready ev op limit b0 false b0.event_break b0.event_gotterm b0.running_loop
            k0 in
        let (tv, known) =
          wait_time-some ev op limit realloc calloc debug callback clock dispatch program safe
            polling flags tv_cache w b cached k in
        either-IsRound (b.event_gotterm || b.event_break) _ _ k (
          rw known (
            either-IsRound (not (event_haveevents b) && not (has_active_callbacks b)) _ _ k (
              dispatched-IsRound n most flags b (dispatch w b.io.backend tv).0
                (dispatch w b.io.backend tv).1 (dispatch w b.io.backend tv).2
                (polling.waits w b.io.backend tv k.valid.maps.ready)
                (polling.reports w b.io.backend tv k.valid.maps.ready) k)))

    abbrev IsLoop : Option (Looped (W × EventBase op.State)) → Type 0
    IsLoop none = ⊥
    IsLoop (some (looping s)) = Ready ev op limit s.1
    IsLoop (some (returned result s)) = Ready ev op limit s.1

    loop_rounds-IsLoop :
        (fuel n most : ℕ) (flags : LoopFlags) (tv_cache : Option (ℕ × ℕ)) (w : W)
        (b : EventBase op.State)
        → IsCached ev op limit realloc calloc debug callback clock dispatch program safe polling
            tv_cache
        → Ready ev op limit b
        → IsLoop (
            loop_rounds ev op realloc calloc debug callback clock dispatch fuel n most flags
              tv_cache
              (w, b))
    unfolding loop_rounds
    loop_rounds-IsLoop zero n most flags tv_cache w b cached k = k
    loop_rounds-IsLoop (suc fuel) n most flags tv_cache w b cached k =
        at
          (loop_round ev op realloc calloc debug callback clock dispatch n most flags tv_cache
            (w, b))
          (loop_round-IsRound n most flags tv_cache w b cached k)
          (λ now w1 b1 in_now k1. loop_rounds-IsLoop fuel n most flags (some now) w1 b1 in_now k1)
      where
        at :
            (o : Option (LoopRound (W × EventBase op.State)))
            → IsRound ev op limit o
            → ((now : ℕ × ℕ) (w1 : W) (b1 : EventBase op.State)
                → IsTime now
                → Ready ev op limit b1
                → IsLoop (
                    loop_rounds ev op realloc calloc debug callback clock dispatch fuel n most flags
                      (some now)
                      (w1, b1)))
            → IsLoop (
                o >>= elim [
                  | next now s1 ↦
                      loop_rounds ev op realloc calloc debug callback clock dispatch fuel n most
                        flags
                        (some now)
                        s1
                  | within s1 ↦ some (looping s1)
                  | done result s1 ↦ some (returned result s1)
                ])
        at none h later = h
        at (some (next now s)) h later = later now s.0 s.1 h.0 h.1
        at (some (within s)) h later = h
        at (some (done result s)) h later = h

    -- event_base_loop from a base fit for the loop, for any flags and numbers of rounds, with descriptors
    -- below 2 ^ 27, a back end that refuses no delete, callbacks that keep a base fit and a dispatch that
    -- reports what the back end waits for: whether it returns within its rounds or not, with whatever
    -- result, no assertion fails, event_errx is not called, no event is put in a list of the io map that
    -- has it, and the base is fit for the loop: its io map lists just the inserted events, each once. Once it has returned, running_loop is as before.
    pub event_base_loop-IsLooped :
        (fuel n most : ℕ) (flags : LoopFlags) (w : W) (b : EventBase op.State)
        → Ready ev op limit b
        → IsLooped ev op limit b.running_loop (
            event_base_loop ev op realloc calloc debug callback clock dispatch fuel n most flags
              (w, b))
    unfolding event_base_loop leave
    event_base_loop-IsLooped fuel n most flags w b k = entered b.running_loop refl
      where
        at :
            (o : Option (Looped (W × EventBase op.State)))
            → IsLoop o
            → IsLooped ev op limit false
                (o >>= λ r. some (leave ev op realloc calloc debug callback clock dispatch r))
        at none h = h
        at (some (looping s)) h = h
        at (some (returned result (w1, b1))) h = (
          with_flags-Ready ev op limit b1 b1.event_continue b1.event_break b1.event_gotterm false h,
          refl,
        )

        entered :
            (c : Bool)
            → b.running_loop ≡ c
            → IsLooped ev op limit c (
                if c
                then some (returned (negsuc 0) (w, b))
                else (loop_rounds ev op realloc calloc debug callback clock dispatch fuel n most
                      flags none
                      (
                        w,
                        record b {
                          running_loop = true;
                          event_gotterm = false;
                          event_break = false;
                        },
                      )
                    >>= λ r. some (leave ev op realloc calloc debug callback clock dispatch r)))
        entered true h = (k, h)
        entered false h = at _ (
            loop_rounds-IsLoop fuel n most flags none w _ tt
              (with_flags-Ready ev op limit b b.event_continue false false true k))
