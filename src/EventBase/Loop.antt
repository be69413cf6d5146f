-- ===== src/EventBase/Loop.antt =====
-- event_base_loop of event.c, with a clock that does not run backwards or fail and is past its first
-- second, whose times are cached, no signals and no virtual events. The clock and the dispatch of the back end are functions of the state `W` of the program and
-- its surroundings.
use practising.Base.{
  ℕ, zero, suc, Bool, true, false, not, ◌&&◌, ◌||◌, Option, none, some, List, [], ◌∷◌, ◌==◌,
  if◌then◌else◌,
}
use practising.Base.Int.{ℤ, pos, negsuc, ltb_ℤ}
use practising.EvMap.Backend.{Events, Eventop}
use practising.EventBase.{Assigned, EventBase, Fired, ◌>>=◌}
use practising.EventBase.Calls.{timeout_process}
use practising.EventBase.Waits.{Next, unknown, forever, wait, timeout_next}
use practising.EventBase.Process.{Ran, running, stopped, counted, event_process_active}
use practising.EventBase.Polls.{evmap_io_active}

-- EVLOOP_ONCE and EVLOOP_NONBLOCK.
pub record LoopFlags : Type 0 where
  pub once : Bool
  pub nonblock : Bool

-- How a round of the loop ends: the loop goes on, with the time in tv_cache, or is over with a result, or callbacks are still run
-- after the rounds given for them.
pub data LoopRound (A : Type 0) : Type 0 where
  next : ℕ × ℕ → A → LoopRound A
  within : A → LoopRound A
  done : ℤ → A → LoopRound A

-- How a call of event_base_loop ends: it is still at it after the rounds given, or it returns.
pub data Looped (A : Type 0) : Type 0 where
  looping : A → Looped A
  returned : ℤ → A → Looped A

module _ {S : Type 0} where
  -- event_haveevents
  abbrev pub event_haveevents : EventBase S → Bool
  event_haveevents b = ltb_ℤ (pos 0) b.event_count

  -- N_ACTIVE_CALLBACKS is not 0.
  abbrev pub has_active_callbacks : EventBase S → Bool
  has_active_callbacks b = ltb_ℤ (pos 0) b.event_count_active || ltb_ℤ b.event_count_active (pos 0)

-- What tv_p becomes: NULL lets the back end wait for ever. There is no value where the time is not known.
unfoldable pub tv_p : Next → Option (Option (ℕ × ℕ))
tv_p unknown = none
tv_p forever = some none
tv_p (wait tv) = some (some tv)

module _ (ev : ℕ → Assigned) (op : Eventop) (realloc : ℕ → Bool) where
  -- The calls of evmap_io_active for what dispatch reports.
  unfoldable pub activate_reports :
      List (ℕ × Events) → EventBase op.State → Option (EventBase op.State)
  activate_reports [] b = some b
  activate_reports ((fd, events) ∷ reports) b =
      evmap_io_active ev realloc events b fd >>= activate_reports reports

  module _ (calloc debug : Bool) {W : Type 0}
      (callback : W × EventBase op.State → ℕ → Fired → W × EventBase op.State) (clock : W → ℕ × ℕ)
      (dispatch : W → op.State → Option (ℕ × ℕ) → W × op.State × Option (List (ℕ × Events))) where
    -- gettime, with tv_cache; `none` is a cache that was cleared.
    unfoldable pub gettime : Option (ℕ × ℕ) → W → ℕ × ℕ
    gettime none w = clock w
    gettime (some cached) w = cached

    -- How long dispatch may wait.
    unfoldable pub wait_time :
        LoopFlags → Option (ℕ × ℕ) → W → EventBase op.State → Option (Option (ℕ × ℕ))
    wait_time flags tv_cache w b =
        if not (has_active_callbacks b) && not flags.nonblock
        then timeout_next (some (gettime tv_cache w)) b >>= tv_p
        else some (some (0, 0))

    -- Whether the loop goes on once callbacks were run, with a count that is not 0 if `ran`.
    unfoldable pub after :
        LoopFlags → Bool → ℕ × ℕ → W × EventBase op.State → LoopRound (W × EventBase op.State)
    after flags ran now s =
        if flags.once && not (has_active_callbacks s.1) && ran then done (pos 0) s else next now s

    unfoldable pub ran_callbacks :
        LoopFlags → ℕ × ℕ → Ran (W × EventBase op.State) → LoopRound (W × EventBase op.State)
    ran_callbacks flags now (running s) = within s
    ran_callbacks flags now (stopped s) = after flags true now s
    ran_callbacks flags now (counted c s) = after flags (not (c == 0)) now s

    -- The end of a round whose cached time is `now`, with `n` priorities, and `most` rounds for the callbacks of one.
    unfoldable pub processed :
        ℕ
        → ℕ
        → LoopFlags
        → ℕ × ℕ
        → W × EventBase op.State
        → Option (LoopRound (W × EventBase op.State))
    processed n most flags now (w, b) =
        if has_active_callbacks b
        then (event_process_active ev op realloc calloc debug callback n most now (w, b) >>= λ r.
            some (ran_callbacks flags now r))
        else if flags.nonblock
        then some (done (pos 0) (w, b))
        else some (next now (w, b))

    -- A round from the result of dispatch on.
    unfoldable pub dispatched :
        ℕ
        → ℕ
        → LoopFlags
        → EventBase op.State
        → W × op.State × Option (List (ℕ × Events))
        → Option (LoopRound (W × EventBase op.State))
    dispatched n most flags b (w, s, none) =
        some (done (negsuc 0) (w, record b { io = record b.io { backend = s } }))
    dispatched n most flags b (w, s, some reports) =
        activate_reports reports (record b { io = record b.io { backend = s } })
        >>= timeout_process ev op realloc (clock w)
        >>= λ r. processed n most flags (clock w) (w, r)

    unfoldable pub loop_round :
        ℕ
        → ℕ
        → LoopFlags
        → Option (ℕ × ℕ)
        → W × EventBase op.State
        → Option (LoopRound (W × EventBase op.State))
    loop_round n most flags tv_cache (w, b0) =
        let b = record b0 { event_continue = false } in
        if b.event_gotterm || b.event_break
        then some (done (pos 0) (w, b))
        else (wait_time flags tv_cache w b >>= λ tv.
            if not (event_haveevents b) && not (has_active_callbacks b)
            then some (done (pos 1) (w, b))
            else dispatched n most flags b (dispatch w b.io.backend tv))

    -- The loop, for a number of rounds.
    unfoldable pub loop_rounds :
        ℕ
        → ℕ
        → ℕ
        → LoopFlags
        → Option (ℕ × ℕ)
        → W × EventBase op.State
        → Option (Looped (W × EventBase op.State))
    loop_rounds zero n most flags tv_cache s = some (looping s)
    loop_rounds (suc fuel) n most flags tv_cache s = loop_round n most flags tv_cache s >>= elim [
      | next now s1 ↦ loop_rounds fuel n most flags (some now) s1
      | within s1 ↦ some (looping s1)
      | done result s1 ↦ some (returned result s1)
    ]

    unfoldable pub leave : Looped (W × EventBase op.State) → Looped (W × EventBase op.State)
    leave (looping s) = looping s
    leave (returned result (w, b)) = returned result (w, record b { running_loop = false })

    unfoldable pub event_base_loop :
        ℕ → ℕ → ℕ → LoopFlags → W × EventBase op.State → Option (Looped (W × EventBase op.State))
    event_base_loop fuel n most flags (w, b) =
        if b.running_loop
        then some (returned (negsuc 0) (w, b))
        else (loop_rounds fuel n most flags none
              (w, record b { running_loop = true; event_gotterm = false; event_break = false })
            >>= λ r. some (leave r))
