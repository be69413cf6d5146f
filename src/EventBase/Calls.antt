-- ===== src/EventBase/Calls.antt =====
-- event_del_internal, event_add_internal and timeout_process of LibEvent/Source/event.c, over any back
-- end.
use practising.Base.{
  ℕ, zero, suc, ◌+◌, ◌%◌, ◌^◌, Bool, true, false, not, ◌&&◌, ◌||◌, Option, none, some,
  if◌then◌else◌,
}
use practising.MinHeap.{put, min_heap_top, min_heap_reserve}
use practising.EvMap.Backend.{Eventop}
use practising.EvMap.{Maps, Status, failed, same, changed, corrupt, evmap_io_add, evmap_io_del}
use practising.EventBase.{
  Assigned, EventBase, on_inserted, on_active, on_timeout, ◌>>=◌, timeradd, timer_gt, event_of,
  wants_io, event_queue_insert, dequeue, event_active_nolock,
}

module _ (ev : ℕ → Assigned) (op : Eventop) where
  -- The end of event_del_internal: the result of evmap_io_del, which is never `corrupt`, and of which 1
  -- becomes 0.
  unfoldable pub deleted :
      EventBase op.State → Option (Status × Maps op.State) → Option (Bool × EventBase op.State)
  deleted b none = none
  deleted b (some (failed, m)) = some (false, record b { io = m })
  deleted b (some (same, m)) = some (true, record b { io = m })
  deleted b (some (corrupt, m)) = some (false, record b { io = m })
  deleted b (some (changed, m)) = some (true, record b { io = m })

  -- Take an event out of the io map; its removal from the signal map does not come here.
  unfoldable pub del_io : EventBase op.State → ℕ → Option (Bool × EventBase op.State)
  del_io b e = if wants_io ev e then deleted b (evmap_io_del op b.io (event_of ev e)) else none

  -- event_del_internal; the Boolean is true for its 0.
  unfoldable pub event_del_internal : EventBase op.State → ℕ → Option (Bool × EventBase op.State)
  event_del_internal b0 e = do
    b1 ← dequeue ev b0 e on_timeout
    b2 ← dequeue ev b1 e on_active
    b3 ← dequeue ev b2 e on_inserted
    if b2.inserted e then del_io b3 e else some (true, b2)

  -- The test of timeout_process's loop, and its body.
  unfoldable pub timeout_step : (ℕ → Bool) → EventBase op.State → ℕ → Option (EventBase op.State)
  timeout_step realloc b e = do
    r ← event_del_internal b e
    event_active_nolock ev realloc r.1 e
        (record { events = record { read = false; write = false; et = false }; timed_out = true })

  -- The loop of timeout_process; a round for each event in the heap, and one to stop, are enough.
  unfoldable pub timeout_loop :
      ℕ → (ℕ → Bool) → ℕ × ℕ → EventBase op.State → Option (EventBase op.State)
  timeout_loop zero realloc now b = none
  timeout_loop (suc fuel) realloc now b = elim (min_heap_top b.timeheap) [
    | none ↦ some b
    | some e ↦
        let rest = timeout_step realloc b e >>= timeout_loop fuel realloc now in
        if timer_gt (b.ev_timeout e) now then some b else rest
  ]

  unfoldable pub timeout_process :
      (ℕ → Bool) → ℕ × ℕ → EventBase op.State → Option (EventBase op.State)
  timeout_process realloc now b = timeout_loop (b.timeheap.n + 1) realloc now b

  module _ (realloc : ℕ → Bool) (calloc debug : Bool) where
    -- min_heap_reserve where a timeout is to be set that is not set yet; `none` is the -1.
    unfoldable pub reserved : EventBase op.State → ℕ → Option (ℕ × ℕ) → Option (EventBase op.State)
    reserved b e none = some b
    reserved b e (some tv) =
        if b.timeout e
        then some b
        else min_heap_reserve realloc b.timeheap ((1 + b.timeheap.n) % 2 ^ 32) >>= λ h.
            some (record b { timeheap = h })

    unfoldable pub map_added :
        EventBase op.State → ℕ → Status × Maps op.State → Option (Bool × EventBase op.State)
    map_added b e (failed, m) = some (false, record b { io = m })
    map_added b e (same, m) =
        event_queue_insert ev realloc (record b { io = m }) e on_inserted >>= λ r. some (true, r)
    map_added b e (corrupt, m) = none
    map_added b e (changed, m) =
        event_queue_insert ev realloc (record b { io = m }) e on_inserted >>= λ r. some (true, r)

    -- The part of event_add_internal about the io map.
    unfoldable pub add_io : EventBase op.State → ℕ → Option (Bool × EventBase op.State)
    add_io b e =
        if wants_io ev e && not (b.inserted e || b.active e)
        then map_added b e (evmap_io_add op realloc calloc debug b.io (event_of ev e))
        else some (true, b)

    -- The part of event_add_internal about the timeout.
    unfoldable pub add_timeout :
        Bool → ℕ × ℕ → EventBase op.State → ℕ → ℕ × ℕ → Option (EventBase op.State)
    add_timeout absolute now b0 e tv = do
      let io_timeout =
          if (ev e).ev_persist && not absolute then put b0.ev_io_timeout e tv else b0.ev_io_timeout
      let b1 = record b0 { ev_io_timeout = io_timeout }
      b2 ← dequeue ev b1 e on_timeout
      b3 ← if (b2.ev_res e).timed_out then dequeue ev b2 e on_active else some b2
      event_queue_insert ev realloc
          (record b3 {
            ev_timeout = put b3.ev_timeout e (if absolute then tv else timeradd now tv);
          })
          e on_timeout

    unfoldable pub add_timeout_if :
        Bool
        → ℕ × ℕ
        → ℕ
        → Option (ℕ × ℕ)
        → Bool × EventBase op.State
        → Option (Bool × EventBase op.State)
    add_timeout_if absolute now e none r = some r
    add_timeout_if absolute now e (some tv) (false, b) = some (false, b)
    add_timeout_if absolute now e (some tv) (true, b) =
        add_timeout absolute now b e tv >>= λ r. some (true, r)

    unfoldable pub add_reserved :
        Bool
        → ℕ × ℕ
        → EventBase op.State
        → ℕ
        → Option (ℕ × ℕ)
        → Option (EventBase op.State)
        → Option (Bool × EventBase op.State)
    add_reserved absolute now b0 e tv none = some (false, b0)
    add_reserved absolute now b0 e tv (some b1) = add_io b1 e >>= add_timeout_if absolute now e tv

    -- event_add_internal; the Boolean is true for its 0.
    unfoldable pub event_add_internal :
        Bool → ℕ × ℕ → EventBase op.State → ℕ → Option (ℕ × ℕ) → Option (Bool × EventBase op.State)
    event_add_internal absolute now b e tv = add_reserved absolute now b e tv (reserved b e tv)
