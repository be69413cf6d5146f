-- ===== src/EventBase/Tests/Loops.antt =====
-- Concrete runs of the loop of event.c, over the changelist as a back end.
use practising.Base.{
  ℕ, ◌<◌, ◌≡◌, refl, sym, ap, ◌∙◌, Bool, true, false, Option, none, some, List, [], ◌∷◌, ◌++◌,
  length, ◌==◌, ltb, if◌then◌else◌, arith,
}
use mathlib.Core.Path.{subst}
use practising.Base.Int.{ℤ, pos, ◌+ℤ◌}
use practising.MinHeap.{
  put, min_heap_ctor, min_heap_top, min_heap_push, push_reserved, min_heap_reserve, shift_up,
  greater, place, min_heap_erase, erase_slot, erase_at, shift_down, pick_child, forget,
}
use practising.EvMap.{
  evmap_io_add, add_fd, add_at, evmap_make_space, double_space, enter_slot, slot_and_ctor,
  add_to_slot, store_slot, mixes_et, insert_tail, evmap_io_del, del_fd, del_found, del_from_slot,
  remove,
}
use practising.EvMap.Changelist.{
  Changelist, event_changelist_add, get_or_construct, found_at, event_changelist_grow, construct,
  stored, added as change_added, event_changelist_del,
}
use practising.EventBase.{
  Assigned, EventBase, Fired, dequeue, event_queue_insert, event_queue_remove, event_active_nolock,
  timeradd, timer_gt, unlink, event_of,
}
use practising.EventBase.Calls.{
  event_add_internal, event_del_internal, timeout_process, timeout_loop, timeout_step, add_reserved,
  reserved, add_io, map_added, add_timeout, add_timeout_if, deleted, del_io,
}
use practising.EventBase.State.{Valid}
use practising.EventBase.Schedules.{event_add_internal-Added}
use practising.EventBase.Linked.{IsLinked, Lists-IsUnlinked}
use practising.EventBase.Waits.{wait, time_sum, timersub, timer_le, wait_for, timeout_next}
use practising.EventBase.Timeouts.{is_until}
use practising.EventBase.Ready.{IsProgram, Ready}
use practising.EventBase.Queues.{IsSafe, IsCalm, Calls}
use practising.EventBase.Keeps.{event_add_internal-Ready}
use practising.EventBase.Process.{
  Ran, running, stopped, counted, resume, event_persist_closure, before_callback, process_queue,
  process_from, event_process_active,
}
use practising.EventBase.Priorities.{up_to, Served}
use practising.EventBase.Served.{event_process_active-Served}
use practising.EventBase.Polls.{is_any, meet, evmap_io_active, active_slot, active_all}
use practising.EventBase.Reports.{Reports}
use practising.EventBase.Actives.{evmap_io_active-Reports}
use practising.EventBase.Loop.{
  Looped, looping, returned, event_base_loop, loop_rounds, loop_round, wait_time, gettime, tv_p,
  dispatched, processed, ran_callbacks, after, leave, activate_reports,
}
use practising.EventBase.Rounds.{AllWaited, timeout_process-Ready, IsPolling, IsLooped}
use practising.EventBase.Looped.{event_base_loop-IsLooped}
use practising.EventBase.Progress.{wait_ends_in_callback}
use practising.EvMap.Backend.{Events}
use practising.EvMap.Slots.{registered, reading}
use practising.EventBase.Tests.Willing.{changelist_op-RefusesNoDel}
use practising.EventBase.Tests.{plenty, op, fresh, fresh-Valid, fresh-IsLinked, result}

-- The event 1 is persistent. Every event waits to read on the descriptor 3.
abbrev ev : ℕ → Assigned
ev x = record {
  ev_fd = pos 3;
  ev_events = record { read = true; write = false; et = false };
  ev_persist = x == 1;
  ev_pri = 0;
  internal = false;
}

ev-IsProgram : IsProgram ev op 3
ev-IsProgram = record {
  persists = λ x h. ground (arith, h);
  descriptors = λ x fd h. ground (arith, h);
  few = omega arith;
  dels = changelist_op-RefusesNoDel;
}

-- The persistent event has a timeout at 10.2, and event 2 one at 9.0.
abbrev one_waits : EventBase Changelist
one_waits =
    result (event_add_internal ev op plenty true false false (7, 900000) fresh 1 (some (2, 300000)))

abbrev two_wait : EventBase Changelist
two_wait =
    result (event_add_internal ev op plenty true false true (7, 900000) one_waits 2 (some (9, 0)))

one_waits-IsSound : Valid ev op one_waits × IsLinked ev one_waits
unfolding min_heap_ctor
one_waits-IsSound =
    let (ok, r, done, k) =
      event_add_internal-Added ev op plenty true false false (7, 900000) fresh 1 (some (2, 300000))
        (fresh-Valid ev) (omega arith) (λ fd h. ground (arith, h))
        (Lists-IsUnlinked ev fresh.inserted fresh.io 1 (fresh-IsLinked ev)) in
    subst (λ b. Valid ev op b × IsLinked ev b) (sym (ap result done))
      (k.valid, k.linked (fresh-IsLinked ev))

two_wait_fields :
    (one_waits.timeheap.n ≡ 1)
    × (two_wait.timeout ≡ put (put (λ _. false) 1 true) 2 true)
    × (two_wait.ev_timeout ≡ put (put (λ _. (0, 0)) 1 (10, 200000)) 2 (9, 0))
    × (two_wait.ev_io_timeout ≡ put (λ _. (0, 0)) 1 (2, 300000))
    × (timeout_next (some (8, 500000)) two_wait ≡ some (wait (0, 500000)))
    × (registered two_wait.io 3 ≡ event_of ev 1 ∷ event_of ev 2 ∷ [])
unfolding event_add_internal add_reserved reserved add_io map_added add_timeout add_timeout_if
    dequeue event_queue_insert event_queue_remove timeradd ◌+ℤ◌ evmap_io_add add_fd add_at
    evmap_make_space double_space enter_slot slot_and_ctor add_to_slot store_slot
    event_changelist_add get_or_construct found_at event_changelist_grow construct stored
    change_added mixes_et insert_tail min_heap_push push_reserved min_heap_reserve min_heap_ctor
    shift_up greater place timeout_next timer_le timersub wait_for min_heap_top
two_wait_fields = (refl, refl, refl, refl, refl, refl)

two_wait-Ready : Ready ev op 3 two_wait
two_wait-Ready =
    let (ok, r, done, k) =
      event_add_internal-Added ev op plenty true false true (7, 900000) one_waits 2 (some (9, 0))
        one_waits-IsSound.0 (omega (arith, two_wait_fields.0)) (λ fd h. ground (arith, h))
        (Lists-IsUnlinked ev one_waits.inserted one_waits.io 2 one_waits-IsSound.1) in
    record {
      valid = subst (Valid ev op) (sym (ap result done)) k.valid;
      known = λ x h. ground (arith, ap (λ f. f x) two_wait_fields.1, h);
      times = λ x. rw two_wait_fields.2 (ground arith);
      gaps = λ x. rw two_wait_fields.3 (ground arith);
      linked = subst (IsLinked ev) (sym (ap result done)) (k.linked one_waits-IsSound.1);
    }

-- At 9.5, event 2 has become active.
abbrev after_wait : Option (EventBase Changelist) → EventBase Changelist
after_wait none = fresh
after_wait (some b) = b

abbrev one_due : EventBase Changelist
one_due = after_wait (timeout_process ev op plenty (9, 500000) two_wait)

one_due_fields :
    (timeout_process ev op plenty (9, 500000) two_wait ≡ some one_due)
    × (one_due.activequeues ≡ put (λ _. []) 0 (2 ∷ []))
    × (one_due.event_break ≡ false)
    × (one_due.event_continue ≡ false)
unfolding event_add_internal add_reserved reserved add_io map_added add_timeout add_timeout_if
    dequeue event_queue_insert event_queue_remove timeradd ◌+ℤ◌ evmap_io_add add_fd add_at
    evmap_make_space double_space enter_slot slot_and_ctor add_to_slot store_slot
    event_changelist_add get_or_construct found_at event_changelist_grow construct stored
    change_added mixes_et insert_tail min_heap_push push_reserved min_heap_reserve min_heap_ctor
    shift_up greater place min_heap_top min_heap_erase erase_slot erase_at shift_down pick_child
    forget timeout_process timeout_loop timeout_step event_del_internal event_active_nolock timer_gt
    unlink deleted del_io evmap_io_del del_fd del_found del_from_slot remove event_changelist_del
one_due_fields = (refl, refl, refl, refl)

one_due-Ready : Ready ev op 3 one_due
one_due-Ready =
    let (r, ran, k) =
      timeout_process-Ready ev op 3 plenty (9, 500000) two_wait ev-IsProgram two_wait-Ready in
    subst (Ready ev op 3) (sym (ap after_wait ran)) k

few_active : (p : ℕ) → length (one_due.activequeues p) < 5
few_active p = ground (arith, ap (λ f. length (f p)) one_due_fields.1)

-- A callback notes its event.
abbrev note : List ℕ × EventBase Changelist → ℕ → Fired → List ℕ × EventBase Changelist
note (w, b) e res = (w ++ e ∷ [], b)

note-IsSafe : IsSafe ev op 3 note
note-IsSafe w b e res k = k

note-IsCalm : IsCalm ev op 3 note
note-IsCalm w b e res k = (refl, refl, refl)

event_process_active-Served_example :
    (c : ℕ) × (w' : List ℕ) × (r : EventBase Changelist) × (event_process_active ev op plenty true
        false note 2 5
        (9, 500000)
        ([], one_due)
      ≡ some (counted c (w', r)))
    × Served ev op 3 note [] one_due 0 2 c w' r
event_process_active-Served_example =
    event_process_active-Served ev op 3 note plenty true false ev-IsProgram note-IsSafe note-IsCalm
      2 5 (9, 500000) [] one_due few_active (omega arith) one_due-Ready one_due_fields.2
      one_due_fields.3

half_second_later : is_until (time_sum (8, 500000) (0, 500000)) (9, 500000) ≡ true
half_second_later = refl

wait_ends_in_callback_example :
    (c k : ℕ) × (w' : List ℕ) × (r' : EventBase Changelist) × (event_process_active ev op plenty
        true false note 1 5
        (9, 500000)
        ([], one_due)
      ≡ some (counted c (w', r')))
    × Calls ev op 3 note w' [] (up_to one_due.activequeues 0 k)
    × (0 < length (up_to one_due.activequeues 0 k))
wait_ends_in_callback_example =
    wait_ends_in_callback ev op 3 plenty true false note ev-IsProgram note-IsSafe note-IsCalm
      two_wait one_due (8, 500000) (9, 500000) (0, 500000) 1 5 [] (λ x. omega arith) two_wait-Ready
      (omega arith) (omega arith) two_wait_fields.4 half_second_later one_due_fields.0 few_active
      one_due_fields.2 one_due_fields.3

abbrev to_read : Events
to_read = record { read = true; write = false; et = true }

reads_three : op.reads two_wait.io.backend 3 ≡ true
reads_three = two_wait-Ready.valid.maps.reads 3 ∙ ap (λ l. ltb 0 (reading l)) two_wait_fields.5

evmap_io_active-Reports_example :
    (r : EventBase Changelist) × (evmap_io_active ev plenty to_read two_wait 3 ≡ some r)
    × Reports ev op plenty to_read two_wait r (registered two_wait.io 3)
evmap_io_active-Reports_example =
    evmap_io_active-Reports ev op plenty to_read two_wait 3 two_wait-Ready.valid
      (rw reads_three refl)

-- A back end whose descriptor 3 can be read, at 9.5.
abbrev clock : List ℕ → ℕ × ℕ
clock _ = (9, 500000)

abbrev dispatch :
    List ℕ → Changelist → Option (ℕ × ℕ) → List ℕ × Changelist × Option (List (ℕ × Events))
dispatch w s tv = (w, s, some (if op.reads s 3 then (3, to_read) ∷ [] else []))

reported :
    (s : Changelist) (c : Bool)
    → op.reads s 3 ≡ c
    → AllWaited ev op 3 s (some (if c then (3, to_read) ∷ [] else []))
reported s true h = (rw h refl, tt)
reported s false h = tt

dispatch-IsPolling : IsPolling ev op 3 clock dispatch
dispatch-IsPolling = record {
  times = λ w. omega arith;
  waits = λ w s tv ready. (ready, λ j. (refl, refl));
  reports = λ w s tv ready. reported s (op.reads s 3) refl;
}

-- A callback that notes its event and gives event 2 a timeout in a second.
abbrev or_else : EventBase Changelist → Option (Bool × EventBase Changelist) → EventBase Changelist
or_else b none = b
or_else b (some (ok, r)) = r

abbrev rearm : List ℕ × EventBase Changelist → ℕ → Fired → List ℕ × EventBase Changelist
rearm (w, b) e res = (
  w ++ e ∷ [],
  or_else b (event_add_internal ev op plenty true false false (9, 500000) b 2 (some (1, 0))),
)

rearm-IsSafe : IsSafe ev op 3 rearm
rearm-IsSafe w b e res k =
    let (ok, r, done, ready) =
      event_add_internal-Ready ev op 3 plenty true false false (9, 500000) b 2 (some (1, 0))
        ev-IsProgram (omega arith) (omega arith) (omega arith) k in
    subst (Ready ev op 3) (sym (ap (or_else b) done)) ready

event_base_loop-IsLooped_example : IsLooped ev op 3 two_wait.running_loop (
    event_base_loop ev op plenty true false rearm clock dispatch 4 1 5
      (record { once = false; nonblock = false })
      ([], two_wait))
event_base_loop-IsLooped_example =
    event_base_loop-IsLooped ev op 3 plenty true false rearm clock dispatch ev-IsProgram
      rearm-IsSafe dispatch-IsPolling 4 1 5 (record { once = false; nonblock = false }) [] two_wait
      two_wait-Ready

-- The program's state once event_process_active or the loop is over.
abbrev log_of : Option (Ran (List ℕ × EventBase Changelist)) → List ℕ
log_of none = []
log_of (some (running s)) = s.0
log_of (some (stopped s)) = s.0
log_of (some (counted c s)) = s.0

one_callback :
    log_of (event_process_active ev op plenty true false note 2 5 (9, 500000) ([], one_due))
    ≡ 2 ∷ []
unfolding event_process_active process_from process_queue before_callback resume event_add_internal
    add_reserved reserved add_io map_added add_timeout add_timeout_if dequeue event_queue_insert
    event_queue_remove timeradd ◌+ℤ◌ evmap_io_add add_fd add_at evmap_make_space double_space
    enter_slot slot_and_ctor add_to_slot store_slot event_changelist_add get_or_construct found_at
    event_changelist_grow construct stored change_added mixes_et insert_tail min_heap_push
    push_reserved min_heap_reserve min_heap_ctor shift_up greater place min_heap_top min_heap_erase
    erase_slot erase_at shift_down pick_child forget timeout_process timeout_loop timeout_step
    event_del_internal event_active_nolock timer_gt unlink deleted del_io evmap_io_del del_fd
    del_found del_from_slot remove event_changelist_del
one_callback = refl

abbrev left_with : Option (Looped (List ℕ × EventBase Changelist)) → List ℕ × Option ℤ
left_with none = ([], none)
left_with (some (looping s)) = (s.0, none)
left_with (some (returned result s)) = (s.0, some result)

-- Both events read from descriptor 3; event 2 is over its time besides. The loop with EVLOOP_ONCE
-- calls each back once and returns 0.
once_around :
    left_with (
      event_base_loop ev op plenty true false note clock dispatch 1 1 5
        (record { once = true; nonblock = false })
        ([], two_wait))
    ≡ (1 ∷ 2 ∷ [], some (pos 0))
unfolding event_base_loop loop_rounds loop_round wait_time gettime tv_p dispatched processed
    ran_callbacks after leave activate_reports evmap_io_active active_slot active_all timeout_next
    timer_le timersub wait_for event_persist_closure event_process_active process_from process_queue
    before_callback resume event_add_internal add_reserved reserved add_io map_added add_timeout
    add_timeout_if dequeue event_queue_insert event_queue_remove timeradd ◌+ℤ◌ evmap_io_add add_fd
    add_at evmap_make_space double_space enter_slot slot_and_ctor add_to_slot store_slot
    event_changelist_add get_or_construct found_at event_changelist_grow construct stored
    change_added mixes_et insert_tail min_heap_push push_reserved min_heap_reserve min_heap_ctor
    shift_up greater place min_heap_top min_heap_erase erase_slot erase_at shift_down pick_child
    forget timeout_process timeout_loop timeout_step event_del_internal event_active_nolock timer_gt
    unlink deleted del_io evmap_io_del del_fd del_found del_from_slot remove event_changelist_del
once_around = refl

-- What epoll reports of a descriptor that can only be written counts, by EV_ET, as wanted by an
-- edge-triggered event that waits only to read.
edge_counts :
    is_any (
      meet
        (record { read = true; write = false; et = true })
        (record { read = false; write = true; et = true }))
    ≡ true
edge_counts = refl
