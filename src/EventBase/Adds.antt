-- ===== src/EventBase/Adds.antt =====
-- event_add_internal of event.c: an event that is added waits in the io map and in the heap.

use practising.Base.{
  ℕ, ◌+◌, ◌^◌, ◌≤◌, ◌<◌, ◌≡◌, refl, sym, ap, ◌∙◌, Bool, true, false, not, ◌&&◌, some, ◌==◌,
  if◌then◌else◌, arith, Bool-cases, inl, inr, ==→≡,
}
use practising.Base.Int.{ℤ}
use practising.MinHeap.{put, min_heap_erase}
use practising.MinHeap.Heap.{retimed-IsHeap}
use practising.MinHeap.Removes.{min_heap_erase_removes}
use practising.EvMap.Backend.{Eventop}
use practising.EventBase.{Assigned, EventBase, on_active, on_timeout, timeradd, event_queue_insert}
use practising.EventBase.Calls.{add_timeout}
use practising.EventBase.State.{Valid, without, without-Valid, same_without, dequeue-without}
use practising.EventBase.Inserts.{queued, queued-Valid, event_queue_insert-queued}

module _ (ev : ℕ → Assigned) (op : Eventop) where
  -- Other times, of events that are not in the heap.
  retimed-Valid :
      (b : EventBase op.State) (times : ℕ → ℕ × ℕ)
      → Valid ev op b
      → ((x : ℕ) → b.timeout x ≡ true → times x ≡ b.ev_timeout x)
      → Valid ev op (record b { ev_timeout = times })
  retimed-Valid b times v alike = record {
    heap =
        retimed-IsHeap b.ev_timeout times b.timeheap v.heap (λ x h. alike x (sym (v.timed x) ∙ h));
    timed = v.timed;
    activated = v.activated;
    listed = v.listed;
    maps = v.maps;
    genuine = v.genuine;
    wants = v.wants;
    waits = v.waits;
  }

  -- An event's timeout is set for `tv`: then it is not active for an older one.
  pub record Timed (b r : EventBase op.State) (e : ℕ) (at : ℕ × ℕ) (gaps : ℕ → ℕ × ℕ) : Type 0 where
    pub valid : Valid ev op r
    pub inserted : r.inserted ≡ b.inserted
    pub io : r.io ≡ b.io
    pub timeout : (x : ℕ) → r.timeout x ≡ (if e == x then true else b.timeout x)
    pub active :
        (x : ℕ) → r.active x ≡ (if e == x && (b.ev_res e).timed_out then false else b.active x)
    pub times : (x : ℕ) → r.ev_timeout x ≡ (if e == x then at else b.ev_timeout x)
    pub results : r.ev_res ≡ b.ev_res
    pub new_gaps : r.ev_io_timeout ≡ gaps
    pub flags : (r.event_break ≡ b.event_break) × (r.event_continue ≡ b.event_continue)
    pub queues : b.active e ≡ false → r.activequeues ≡ b.activequeues

  -- The room that the heap has once the event's old timeout is out.
  erased_room :
      (b : EventBase op.State) (e : ℕ)
      → Valid ev op b
      → (b.timeout e ≡ false → b.timeheap.n < b.timeheap.a)
      → let h = (min_heap_erase b.ev_timeout b.timeheap e).1 in (h.n < h.a) × (h.n ≤ b.timeheap.n)
  erased_room b e v free = elim (min_heap_erase_removes b.ev_timeout b.timeheap e v.heap) [
    | inl (_, _, out) ↦ (omega (arith, out.size, out.space, v.heap.room), omega (arith, out.size))
    | inr (away, same) ↦ rw same (free (sym (v.timed e) ∙ away), omega arith)
  ]

  module _ (realloc : ℕ → Bool) (calloc debug : Bool) where
    noted_times-Valid :
        (b : EventBase op.State) (times : ℕ → ℕ × ℕ)
        → Valid ev op b
        → Valid ev op (record b { ev_io_timeout = times })
    noted_times-Valid b times v = record {
      heap = v.heap;
      timed = v.timed;
      activated = v.activated;
      listed = v.listed;
      maps = v.maps;
      genuine = v.genuine;
      wants = v.wants;
      waits = v.waits;
    }

    -- The last step: the new time, and into the heap.
    set_timeout :
        (b : EventBase op.State) (e : ℕ) (at : ℕ × ℕ)
        → Valid ev op b
        → b.timeout e ≡ false
        → (b.timeheap.n < b.timeheap.a) × (b.timeheap.n + 1 < 2 ^ 32)
        → let b1 = record b { ev_timeout = put b.ev_timeout e at } in
          (c : ℤ) × (d : ℤ) × (event_queue_insert ev realloc b1 e on_timeout
            ≡ some (queued ev op realloc c d b1 e on_timeout))
          × Valid ev op (queued ev op realloc c d b1 e on_timeout)
    set_timeout b e at v out fit =
        let b1 = record b { ev_timeout = put b.ev_timeout e at } in
        let v1 = retimed-Valid b (put b.ev_timeout e at) v (λ x h. elim (Bool-cases (e == x)) [
          | inl s ↦ absurd (cc (ap b.timeout (==→≡ e x s)))
          | inr n ↦ rw n refl
        ]) in
        let (c, d, done) = event_queue_insert-queued ev op realloc b1 e on_timeout out in
        (c, d, done, queued-Valid ev op realloc c d b1 e on_timeout v1 out fit)

    pub add_timeout-Timed :
        (absolute : Bool) (now : ℕ × ℕ) (b : EventBase op.State) (e : ℕ) (tv : ℕ × ℕ)
        → Valid ev op b
        → (b.timeout e ≡ false → b.timeheap.n < b.timeheap.a)
        → b.timeheap.n + 1 < 2 ^ 32
        → (r : EventBase op.State) × (add_timeout ev op realloc calloc debug absolute now b e tv
            ≡ some r)
          × Timed b r e (if absolute then tv else timeradd now tv) (
              if (ev e).ev_persist && not absolute
              then put b.ev_io_timeout e tv
              else b.ev_io_timeout)
    unfolding add_timeout
    add_timeout-Timed absolute now b e tv v free small =
        let at = if absolute then tv else timeradd now tv in
        let io_timeout =
          if (ev e).ev_persist && not absolute then put b.ev_io_timeout e tv else b.ev_io_timeout in
        let b1 = record b { ev_io_timeout = io_timeout } in
        let v1 : Valid ev op b1 = noted_times-Valid b io_timeout v in
        let (c2, d2, q2) = dequeue-without ev op b1 e on_timeout v1 in
        let b2 = without ev op c2 d2 b1 e on_timeout in
        let v2 = without-Valid ev op c2 d2 b1 e on_timeout v1 in
        let (room, fewer) = erased_room b e v free in
        let fit : (b2.timeheap.n < b2.timeheap.a) × (b2.timeheap.n + 1 < 2 ^ 32) =
          (room, omega (arith, fewer)) in
        elim (Bool-cases ((b.ev_res e).timed_out)) [
          | inr fresh ↦
              let (c, d, done, v4) = set_timeout b2 e at v2 (ground arith) fit in
              (
                queued ev op realloc c d (record b2 { ev_timeout = put b2.ev_timeout e at }) e
                    on_timeout,
                rw (q2, fresh) done,
                record {
                  valid = v4;
                  inserted = refl;
                  io = refl;
                  timeout = λ x. ground arith;
                  active = λ x. rw fresh (ground arith);
                  times = λ x. refl;
                  results = refl;
                  new_gaps = refl;
                  flags = (refl, refl);
                  queues = λ _. refl;
                },
              )
          | inl old ↦
              let (c3, d3, q3) = dequeue-without ev op b2 e on_active v2 in
              let b3 = without ev op c3 d3 b2 e on_active in
              let v3 = without-Valid ev op c3 d3 b2 e on_active v2 in
              let (c, d, done, v4) = set_timeout b3 e at v3 (ground arith) fit in
              (
                queued ev op realloc c d (record b3 { ev_timeout = put b3.ev_timeout e at }) e
                    on_timeout,
                rw (q2, old, q3) done,
                record {
                  valid = v4;
                  inserted = refl;
                  io = refl;
                  timeout = λ x. ground arith;
                  active = λ x. rw old (ground arith);
                  times = λ x. refl;
                  results = refl;
                  new_gaps = refl;
                  flags = (refl, refl);
                  queues =
                      λ out. ap (λ f. f.activequeues) (same_without ev op b2 e on_active v2 out);
                },
              )
        ]
