-- ===== src/EventBase/Tests.antt =====
-- Concrete runs of event.c, over the changelist as a back end.
mod Loops
mod Willing
use practising.Base.{
  ℕ, ◌≡◌, refl, sym, ap, Bool, true, false, ◌&&◌, Option, none, some, [], ◌∷◌, ◌==◌, if◌then◌else◌,
  arith,
}
use mathlib.Core.Path.{subst}
use practising.Base.Int.{pos, ◌+ℤ◌}
use practising.MinHeap.{
  min_heap_ctor, min_heap_top, min_heap_push, push_reserved, min_heap_reserve, shift_up, greater,
  place,
}
use practising.EvMap.{
  evmap_io_add, add_fd, add_at, evmap_make_space, double_space, enter_slot, slot_and_ctor,
  add_to_slot, store_slot, mixes_et, insert_tail, remove,
}
use practising.MinHeap.Heap.{min_heap_ctor-IsHeap}
use practising.EvMap.Backend.{Eventop}
use practising.EvMap.Runs.{evmap_io_initmap, initmap-Valid}
use practising.EvMap.Changelist.{
  Changelist, event_changelist_add, get_or_construct, found_at, event_changelist_grow, construct,
  stored, added as change_added,
}
use practising.EvMap.Changelist.Implements.{
  changelist_op, event_changelist_init, event_changelist_init-Consistent,
}
use practising.EventBase.{
  Assigned, EventBase, Fired, dequeue, event_queue_insert, event_queue_remove, timeradd,
}
use practising.EventBase.Calls.{
  event_add_internal, event_del_internal, timeout_process, add_reserved, reserved, add_io,
  map_added, add_timeout, add_timeout_if,
}
use practising.EventBase.State.{Valid}
use practising.EventBase.Dels.{Deleted, event_del_internal_removes}
use practising.EventBase.Timeouts.{Fires, is_due, timeout_process-Fires}
use practising.EventBase.Waits.{
  Next, wait, timersub, timer_le, wait_for, timeout_next, IsTime, Ends, timeout_next-Ends,
}
use practising.EventBase.Joins.{Added}
use practising.EventBase.Schedules.{event_add_internal-Added, event_add_internal_adds}
use practising.EventBase.Linked.{IsLinked, Lists-IsUnlinked}
use practising.EvMap.Slots.{registered}
use practising.EvMap.Refusals.{RefusesNoDel}

abbrev plenty : ℕ → Bool
plenty _ = true

abbrev op : Eventop
op = changelist_op plenty

-- Every event waits to read on the descriptor 3.
abbrev ev : ℕ → Assigned
ev _ = record {
  ev_fd = pos 3;
  ev_events = record { read = true; write = false; et = false };
  ev_persist = true;
  ev_pri = 0;
  internal = false;
}

abbrev no_result : Fired
no_result = record {
  events = record { read = false; write = false; et = false };
  timed_out = false;
}

abbrev fresh : EventBase Changelist
fresh = record {
  io = evmap_io_initmap event_changelist_init;
  timeheap = min_heap_ctor (λ _. 0) (λ _. none);
  eventqueue = [];
  activequeues = λ _. [];
  event_count = pos 0;
  event_count_active = pos 0;
  event_running_priority = none;
  event_continue = false;
  event_break = false;
  event_gotterm = false;
  running_loop = false;
  inserted = λ _. false;
  active = λ _. false;
  timeout = λ _. false;
  ev_res = λ _. no_result;
  ev_timeout = λ _. (0, 0);
  ev_io_timeout = λ _. (0, 0);
}

fresh-Valid : (ev : ℕ → Assigned) → Valid ev op fresh
unfolding min_heap_ctor
fresh-Valid ev = record {
  heap = min_heap_ctor-IsHeap _ (λ _. 0);
  timed = λ _. refl;
  activated = λ p e. refl;
  listed = λ _. refl;
  maps =
      initmap-Valid op event_changelist_init event_changelist_init-Consistent (λ j. (refl, refl));
  genuine = λ _. tt;
  wants = λ e h. absurd (cc);
  waits = λ e h. absurd (cc);
}

-- No event waits in the base that event_base_new makes.
fresh-IsLinked : (ev : ℕ → Assigned) → IsLinked ev fresh
fresh-IsLinked ev j x = refl

event_add_internal_adds_example :
    (ok : Bool) × (r : EventBase Changelist) × (event_add_internal ev op plenty true false false
        (7, 900000)
        fresh
        1
        (some (2, 300000))
      ≡ some (ok, r))
    × Added ev op ok fresh r 1 false (7, 900000) (some (2, 300000))
    × ((x : ℕ) → r.ev_timeout x ≡ (if 1 == x && ok then (10, 200000) else (0, 0)))
unfolding min_heap_ctor
event_add_internal_adds_example =
    event_add_internal_adds ev op plenty true false false (7, 900000) fresh 1 (some (2, 300000))
      (fresh-Valid ev) (omega arith) (λ fd h. ground (arith, h))
      (Lists-IsUnlinked ev fresh.inserted fresh.io 1 (fresh-IsLinked ev)) (omega arith)

abbrev result : Option (Bool × EventBase Changelist) → EventBase Changelist
result none = fresh
result (some r) = r.1

-- Two events, of which one has a timeout at 10.2 and the other at 9.0.
abbrev one_waits : EventBase Changelist
one_waits =
    result (event_add_internal ev op plenty true false false (7, 900000) fresh 1 (some (2, 300000)))

abbrev two_wait : EventBase Changelist
two_wait =
    result (event_add_internal ev op plenty true false true (7, 900000) one_waits 2 (some (9, 0)))

adds_run :
    (one_waits.inserted 1 ≡ true)
    × (one_waits.timeout 1 ≡ true)
    × (one_waits.ev_timeout 1 ≡ (10, 200000))
    × (one_waits.timeheap.n ≡ 1)
    × (two_wait.timeheap.p 0 ≡ 2)
    × (two_wait.eventqueue ≡ 1 ∷ 2 ∷ [])
    × (two_wait.event_count ≡ pos 4)
unfolding event_add_internal add_reserved reserved add_io map_added add_timeout add_timeout_if
    dequeue event_queue_insert event_queue_remove timeradd ◌+ℤ◌ evmap_io_add add_fd add_at
    evmap_make_space double_space enter_slot slot_and_ctor add_to_slot store_slot
    event_changelist_add get_or_construct found_at event_changelist_grow construct stored
    change_added mixes_et insert_tail min_heap_push push_reserved min_heap_reserve min_heap_ctor
    shift_up greater place
adds_run = (refl, refl, refl, refl, refl, refl, refl)

one_waits-IsSound : Valid ev op one_waits × IsLinked ev one_waits
unfolding min_heap_ctor
one_waits-IsSound =
    let (ok, r, done, k) =
      event_add_internal-Added ev op plenty true false false (7, 900000) fresh 1 (some (2, 300000))
        (fresh-Valid ev) (omega arith) (λ fd h. ground (arith, h))
        (Lists-IsUnlinked ev fresh.inserted fresh.io 1 (fresh-IsLinked ev)) in
    subst (λ b. Valid ev op b × IsLinked ev b) (sym (ap result done))
      (k.valid, k.linked (fresh-IsLinked ev))

two_wait-Valid : Valid ev op two_wait
two_wait-Valid =
    let (ok, r, done, k) =
      event_add_internal-Added ev op plenty true false true (7, 900000) one_waits 2 (some (9, 0))
        one_waits-IsSound.0 (omega (arith, adds_run.3)) (λ fd h. ground (arith, h))
        (Lists-IsUnlinked ev one_waits.inserted one_waits.io 2 one_waits-IsSound.1) in
    subst (Valid ev op) (sym (ap result done)) k.valid

event_del_internal_removes_example :
    (ok : Bool) × (r : EventBase Changelist) × (event_del_internal ev op two_wait 1 ≡ some (ok, r))
    × Deleted ev op two_wait r 1
    × (two_wait.inserted 1 ≡ false → (ok ≡ true) × (r.io ≡ two_wait.io))
    × (two_wait.inserted 1 ≡ true
        → (j : ℕ)
        → registered r.io j ≡ (
            if ok && 3 == j then remove 1 (registered two_wait.io j) else registered two_wait.io j))
    × (RefusesNoDel op → ok ≡ true)
event_del_internal_removes_example = event_del_internal_removes ev op two_wait 1 two_wait-Valid

timeout_process-Fires_example :
    (r : EventBase Changelist) × (timeout_process ev op plenty (9, 500000) two_wait ≡ some r)
    × Fires ev op two_wait r (is_due two_wait (9, 500000))
timeout_process-Fires_example =
    timeout_process-Fires ev op plenty (9, 500000) two_wait two_wait-Valid

-- From 8.5 to 9.0, the first of the two timeouts.
waits_half : timeout_next (some (8, 500000)) two_wait ≡ some (wait (0, 500000))
unfolding timeout_next timer_le timersub wait_for min_heap_top event_add_internal add_reserved
    reserved add_io map_added add_timeout add_timeout_if dequeue event_queue_insert
    event_queue_remove timeradd ◌+ℤ◌ evmap_io_add add_fd add_at evmap_make_space double_space
    enter_slot slot_and_ctor add_to_slot store_slot event_changelist_add get_or_construct found_at
    event_changelist_grow construct stored change_added mixes_et insert_tail min_heap_push
    push_reserved min_heap_reserve min_heap_ctor shift_up greater place
waits_half = refl

first_time : two_wait.ev_timeout (two_wait.timeheap.p 0) ≡ (9, 0)
unfolding event_add_internal add_reserved reserved add_io map_added add_timeout add_timeout_if
    dequeue event_queue_insert event_queue_remove timeradd ◌+ℤ◌ evmap_io_add add_fd add_at
    evmap_make_space double_space enter_slot slot_and_ctor add_to_slot store_slot
    event_changelist_add get_or_construct found_at event_changelist_grow construct stored
    change_added mixes_et insert_tail min_heap_push push_reserved min_heap_reserve min_heap_ctor
    shift_up greater place
first_time = refl

timeout_next-Ends_example :
    (r : Next) × (timeout_next (some (8, 500000)) two_wait ≡ some r) × Ends two_wait (8, 500000) r
timeout_next-Ends_example =
    timeout_next-Ends ev op two_wait (8, 500000) two_wait-Valid (omega arith)
      (subst IsTime (sym first_time) (omega arith))
