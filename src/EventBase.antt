-- ===== src/EventBase.antt =====
-- LibEvent/Source/event.c: an event base with its queues, timeouts and descriptor map. The struct
-- event of each address is spread over functions of the address. The base has one thread, no common
-- timeouts, and events without EV_SIGNAL.
pub mod Calls
pub mod State
pub mod Linked
pub mod Registered
pub mod Dels
pub mod Inserts
pub mod Timeouts
pub mod Adds
pub mod Joins
pub mod Schedules
pub mod Waits
pub mod Process
pub mod Ready
pub mod Keeps
pub mod Befores
pub mod Queues
pub mod Priorities
pub mod Served
pub mod Polls
pub mod Reports
pub mod Actives
pub mod Safety
pub mod Loop
pub mod Rounds
pub mod Looped
pub mod Progress
mod Tests
use practising.Base.{
  ℕ, zero, suc, ◌+◌, ◌-◌, ◌%◌, ◌^◌, Bool, true, false, not, ◌&&◌, ◌||◌, Option, none, some, List,
  [], ◌∷◌, ◌++◌, ◌==◌, ltb, leb, if◌then◌else◌,
}
use practising.Base.Int.{ℤ, pos, negsuc, ◌+ℤ◌, ltb_ℤ}
use practising.MinHeap.{MinHeap, put, min_heap_top, min_heap_reserve, min_heap_push, min_heap_erase}
use practising.EvMap.Backend.{Events, Eventop}
use practising.EvMap.{Event, Maps, Status, failed, same, changed, evmap_io_add, evmap_io_del}

-- What event_assign and event_priority_set give an event. `internal` is EVLIST_INTERNAL.
pub record Assigned : Type 0 where
  pub ev_fd : ℤ
  pub ev_events : Events
  pub ev_persist : Bool
  pub ev_pri : ℕ
  pub internal : Bool

-- An ev_res: descriptor events, and EV_TIMEOUT.
pub record Fired : Type 0 where
  pub events : Events
  pub timed_out : Bool

-- struct event_base with the fields of its events that change; a running priority `none` is -1.
pub record EventBase (S : Type 0) : Type 0 where
  pub io : Maps S
  pub timeheap : MinHeap
  pub eventqueue : List ℕ
  pub activequeues : ℕ → List ℕ
  pub event_count : ℤ
  pub event_count_active : ℤ
  pub event_running_priority : Option ℕ
  pub event_continue : Bool
  pub event_break : Bool
  pub event_gotterm : Bool
  pub running_loop : Bool
  pub inserted : ℕ → Bool
  pub active : ℕ → Bool
  pub timeout : ℕ → Bool
  pub ev_res : ℕ → Fired
  pub ev_timeout : ℕ → ℕ × ℕ
  pub ev_io_timeout : ℕ → ℕ × ℕ

-- EVLIST_INSERTED, EVLIST_ACTIVE and EVLIST_TIMEOUT as arguments.
pub data Queue : Type 0 where
  on_inserted on_active on_timeout : Queue

infixl 5 ◌>>=◌
abbrev pub ◌>>=◌ {ℓ κ} : {A : Type ℓ} {B : Type κ} → Option A → (A → Option B) → Option B
some a >>= f = f a
none >>= f = none

-- evutil_timeradd. The seconds are a long, which has 32 bits on Windows; a sum from 2 ^ 31 on overflows,
-- which C leaves undefined, and starts again at 0 here.
pub timeradd : ℕ × ℕ → ℕ × ℕ → ℕ × ℕ
timeradd a b =
    let usec = a.1 + b.1 in
    if leb 1000000 usec
    then ((a.0 + b.0 + 1) % 2 ^ 31, usec - 1000000)
    else ((a.0 + b.0) % 2 ^ 31, usec)

-- evutil_timercmp with >
pub timer_gt : ℕ × ℕ → ℕ × ℕ → Bool
timer_gt a b = if a.0 == b.0 then ltb b.1 a.1 else ltb b.0 a.0

-- TAILQ_REMOVE
pub unlink : ℕ → List ℕ → List ℕ
unlink e [] = []
unlink e (x ∷ xs) = if x == e then xs else x ∷ unlink e xs

-- ev->ev_res |= res
pub join : Fired → Fired → Fired
join a b = record {
  events = record {
    read = a.events.read || b.events.read;
    write = a.events.write || b.events.write;
    et = a.events.et || b.events.et;
  };
  timed_out = a.timed_out || b.timed_out;
}

abbrev pub is_before : ℕ → Option ℕ → Bool
is_before pri none = false
is_before pri (some running) = ltb pri running

module _ (ev : ℕ → Assigned) where
  abbrev pub event_of : ℕ → Event
  event_of e = record { address = e; ev_fd = (ev e).ev_fd; ev_events = (ev e).ev_events }

  abbrev pub wants_io : ℕ → Bool
  wants_io e = (ev e).ev_events.read || (ev e).ev_events.write

  module _ {S : Type 0} where
    -- event_queue_insert; `none` is event_errx, which ends the program.
    pub event_queue_insert : (ℕ → Bool) → EventBase S → ℕ → Queue → Option (EventBase S)
    event_queue_insert realloc b e on_inserted =
        let event_count = if (ev e).internal then b.event_count else b.event_count +ℤ pos 1 in
        if b.inserted e
        then none
        else some (record b {
          event_count = event_count;
          inserted = put b.inserted e true;
          eventqueue = b.eventqueue ++ e ∷ [];
        })
    event_queue_insert realloc b e on_active =
        let event_count = if (ev e).internal then b.event_count else b.event_count +ℤ pos 1 in
        let pri = (ev e).ev_pri in
        if b.active e
        then some b
        else some (record b {
          event_count = event_count;
          active = put b.active e true;
          event_count_active = b.event_count_active +ℤ pos 1;
          activequeues = put b.activequeues pri (b.activequeues pri ++ e ∷ []);
        })
    event_queue_insert realloc b e on_timeout =
        let event_count = if (ev e).internal then b.event_count else b.event_count +ℤ pos 1 in
        if b.timeout e
        then none
        else some (record b {
          event_count = event_count;
          timeout = put b.timeout e true;
          timeheap = (min_heap_push b.ev_timeout realloc b.timeheap e).1;
        })

    -- event_queue_remove; `none` is event_errx.
    pub event_queue_remove : EventBase S → ℕ → Queue → Option (EventBase S)
    event_queue_remove b e on_inserted =
        let event_count = if (ev e).internal then b.event_count else b.event_count +ℤ negsuc 0 in
        if b.inserted e
        then some (record b {
          event_count = event_count;
          inserted = put b.inserted e false;
          eventqueue = unlink e b.eventqueue;
        })
        else none
    event_queue_remove b e on_active =
        let event_count = if (ev e).internal then b.event_count else b.event_count +ℤ negsuc 0 in
        let pri = (ev e).ev_pri in
        if b.active e
        then some (record b {
          event_count = event_count;
          active = put b.active e false;
          event_count_active = b.event_count_active +ℤ negsuc 0;
          activequeues = put b.activequeues pri (unlink e (b.activequeues pri));
        })
        else none
    event_queue_remove b e on_timeout =
        let event_count = if (ev e).internal then b.event_count else b.event_count +ℤ negsuc 0 in
        if b.timeout e
        then some (record b {
          event_count = event_count;
          timeout = put b.timeout e false;
          timeheap = (min_heap_erase b.ev_timeout b.timeheap e).1;
        })
        else none

    -- Whether an event's ev_flags have the flag of a queue.
    abbrev pub is_on : EventBase S → ℕ → Queue → Bool
    is_on b e on_inserted = b.inserted e
    is_on b e on_active = b.active e
    is_on b e on_timeout = b.timeout e

    -- event_queue_remove behind a test of the flag.
    pub dequeue : EventBase S → ℕ → Queue → Option (EventBase S)
    dequeue b e q = if is_on b e q then event_queue_remove b e q else some b

    -- event_active_nolock
    pub event_active_nolock : (ℕ → Bool) → EventBase S → ℕ → Fired → Option (EventBase S)
    event_active_nolock realloc b e res =
        let continue =
          if is_before (ev e).ev_pri b.event_running_priority then true else b.event_continue in
        if b.active e
        then some (record b { ev_res = put b.ev_res e (join (b.ev_res e) res) })
        else event_queue_insert realloc
            (record b { ev_res = put b.ev_res e res; event_continue = continue }) e on_active
