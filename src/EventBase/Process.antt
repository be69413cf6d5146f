-- ===== src/EventBase/Process.antt =====
-- How event.c runs the callbacks of active events: event_persist_closure,
-- event_process_active_single_queue and event_process_active, where no deferred callback is queued. A
-- callback is a function on the base and on a state `W` of the program's own.
use practising.Base.{
  ℕ, zero, suc, ◌+◌, Bool, true, false, ◌&&◌, Option, none, some, [], ◌∷◌, ◌==◌, if◌then◌else◌,
}
use practising.EvMap.Backend.{Eventop}
use practising.EventBase.{
  Assigned, EventBase, Fired, on_active, ◌>>=◌, timeradd, timer_gt, event_queue_remove,
}
use practising.EventBase.Calls.{event_del_internal, event_add_internal}

-- How a call that runs callbacks ends: it is still at it after the rounds given, or it returns -1, or a
-- count.
pub data Ran {ℓ} (A : Type ℓ) : Type ℓ where
  running stopped : A → Ran A
  counted : ℕ → A → Ran A

-- The tests behind a callback, and the rest of the loop.
unfoldable pub resume : {A : Type 0} → Bool → Bool → ℕ → A → Option (Ran A) → Option (Ran A)
resume true continue count s rest = some (stopped s)
resume false true count s rest = some (counted count s)
resume false false count s rest = rest

module _ (ev : ℕ → Assigned) (op : Eventop) (realloc : ℕ → Bool) (calloc debug : Bool) where
  -- event_persist_closure up to the callback: the next timeout of a persistent event that has one.
  unfoldable pub event_persist_closure :
      ℕ × ℕ → EventBase op.State → ℕ → Option (EventBase op.State)
  event_persist_closure now b e =
      let delay = b.ev_io_timeout e in
      let relative_to = if (b.ev_res e).timed_out then b.ev_timeout e else now in
      let run_at = timeradd relative_to delay in
      let not_missed = if timer_gt now run_at then timeradd now delay else run_at in
      if delay.0 == 0 && delay.1 == 0
      then some b
      else (event_add_internal ev op realloc calloc debug true now b e (some not_missed) >>= λ r.
          some r.1)

  -- The base that the callback of event `e` sees.
  unfoldable pub before_callback : ℕ × ℕ → EventBase op.State → ℕ → Option (EventBase op.State)
  before_callback now b e =
      if (ev e).ev_persist
      then (event_queue_remove ev b e on_active >>= λ b1. event_persist_closure now b1 e)
      else (event_del_internal ev op b e >>= λ r. some r.1)

  module _ {W : Type 0}
      (callback : W × EventBase op.State → ℕ → Fired → W × EventBase op.State) where
    -- event_process_active_single_queue, a round for each callback.
    unfoldable pub process_queue :
        ℕ → ℕ × ℕ → ℕ → ℕ → W × EventBase op.State → Option (Ran (W × EventBase op.State))
    process_queue zero now pri count (w, b) = some (running (w, b))
    process_queue (suc fuel) now pri count (w, b) = elim (b.activequeues pri) [
      | [] ↦ some (counted count (w, b))
      | e ∷ _ ↦ before_callback now b e >>= λ b1.
          let s = callback (w, b1) e (b1.ev_res e) in
          let count' = if (ev e).internal then count else count + 1 in
          let rest = process_queue fuel now pri count' s in
          resume s.1.event_break s.1.event_continue count' s rest
    ]

    -- The loop over the priorities from `i` on, of which `n` are left.
    unfoldable pub process_from :
        ℕ → ℕ → ℕ × ℕ → ℕ → W × EventBase op.State → Option (Ran (W × EventBase op.State))
    process_from zero fuel now i (w, b) =
        some (counted 0 (w, record b { event_running_priority = none }))
    process_from (suc n) fuel now i (w, b) = elim (b.activequeues i) [
      | [] ↦ process_from n fuel now (i + 1) (w, b)
      | _ ∷ _ ↦
          process_queue fuel now i 0 (w, record b { event_running_priority = some i }) >>= elim [
            | running s ↦ some (running s)
            | stopped (w', b') ↦ some (stopped (w', record b' { event_running_priority = none }))
            | counted (suc c) (w', b') ↦
                some (counted (suc c) (w', record b' { event_running_priority = none }))
            | counted zero s ↦ process_from n fuel now (i + 1) s
          ]
    ]

    -- event_process_active, with `n` priorities.
    unfoldable pub event_process_active :
        ℕ → ℕ → ℕ × ℕ → W × EventBase op.State → Option (Ran (W × EventBase op.State))
    event_process_active n fuel now s = process_from n fuel now 0 s
