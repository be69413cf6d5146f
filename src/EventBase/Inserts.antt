-- ===== src/EventBase/Inserts.antt =====
-- event_queue_insert and event_active_nolock of event.c keep an event base consistent.
use practising.Base.{
  ℕ, ◌+◌, ◌^◌, ◌<◌, ◌≡◌, refl, sym, ap, ◌∙◌, Bool, true, false, ◌&&◌, some, [], ◌∷◌, ◌++◌, ◌==◌,
  if◌then◌else◌, arith, Bool-cases, inl, inr, ==→≡,
}
use mathlib.Core.Path.{subst}
use practising.Base.Int.{ℤ, pos, ◌+ℤ◌}
use practising.MinHeap.{put, min_heap_push}
use practising.MinHeap.Inserts.{min_heap_push_inserts}
use practising.EvMap.Backend.{Eventop}
use practising.EventBase.{
  Assigned, EventBase, Fired, Queue, on_inserted, on_active, on_timeout, join, is_before, wants_io,
  is_on, event_queue_insert, event_active_nolock,
}
use practising.EventBase.State.{Valid, IsWaitingAt, count-append, one_if, count}

module _ (ev : ℕ → Assigned) (op : Eventop) (realloc : ℕ → Bool) where
  -- The base once event `e` is in a queue, with other counts.
  abbrev pub queued : ℤ → ℤ → EventBase op.State → ℕ → Queue → EventBase op.State
  queued c d b e on_inserted = record b {
    event_count = c;
    event_count_active = d;
    inserted = put b.inserted e true;
    eventqueue = b.eventqueue ++ e ∷ [];
  }
  queued c d b e on_active = record b {
    event_count = c;
    event_count_active = d;
    active = put b.active e true;
    activequeues = put b.activequeues (ev e).ev_pri (b.activequeues (ev e).ev_pri ++ e ∷ []);
  }
  queued c d b e on_timeout = record b {
    event_count = c;
    event_count_active = d;
    timeout = put b.timeout e true;
    timeheap = (min_heap_push b.ev_timeout realloc b.timeheap e).1;
  }

  -- What an event must have to be put in a queue: its place in the io map, or a slot of the heap.
  abbrev pub HasPlace : EventBase op.State → ℕ → Queue → Type 0
  HasPlace b e on_inserted = (wants_io ev e ≡ true) × IsWaitingAt ev b.io e (ev e).ev_fd
  HasPlace b e on_active = Unit
  HasPlace b e on_timeout = (b.timeheap.n < b.timeheap.a) × (b.timeheap.n + 1 < 2 ^ 32)

  pub event_queue_insert-queued :
      (b : EventBase op.State) (e : ℕ) (q : Queue)
      → is_on ev b e q ≡ false
      → (c : ℤ) × (d : ℤ) × (event_queue_insert ev realloc b e q ≡ some (queued c d b e q))
  unfolding event_queue_insert
  event_queue_insert-queued b e q out = at q out
    where
      counted : ℤ
      counted = if (ev e).internal then b.event_count else b.event_count +ℤ pos 1

      at :
          (q : Queue)
          → is_on ev b e q ≡ false
          → (c : ℤ) × (d : ℤ) × (event_queue_insert ev realloc b e q ≡ some (queued c d b e q))
      at on_inserted h = (counted, b.event_count_active, rw h refl)
      at on_active h = (counted, b.event_count_active +ℤ pos 1, rw h refl)
      at on_timeout h = (counted, b.event_count_active, rw h refl)

  pub queued-Valid :
      (c d : ℤ) (b : EventBase op.State) (e : ℕ) (q : Queue)
      → Valid ev op b
      → is_on ev b e q ≡ false
      → HasPlace b e q
      → Valid ev op (queued c d b e q)
  queued-Valid c d b e on_inserted v out (want, wait) = record {
    heap = v.heap;
    timed = v.timed;
    activated = v.activated;
    listed = λ x. count-append x e b.eventqueue ∙ elim (Bool-cases (e == x)) [
      | inl s ↦
          let at : count x b.eventqueue ≡ 0 =
            v.listed x ∙ ap one_if (ap b.inserted (sym (==→≡ e x s)) ∙ out) in
          rw (s, at) refl
      | inr n ↦ rw n (v.listed x)
    ];
    maps = v.maps;
    genuine = v.genuine;
    wants = λ x h. elim (Bool-cases (e == x)) [
      | inl s ↦ ap (wants_io ev) (sym (==→≡ e x s)) ∙ want
      | inr n ↦ v.wants x (rw n at h)
    ];
    waits = λ x h. elim (Bool-cases (e == x)) [
      | inl s ↦ subst (λ y. IsWaitingAt ev b.io y (ev y).ev_fd) (==→≡ e x s) wait
      | inr n ↦ v.waits x (rw n at h)
    ];
  }
  queued-Valid c d b e on_active v out _ = record {
    heap = v.heap;
    timed = v.timed;
    activated = λ p x. elim (Bool-cases ((ev e).ev_pri == p)) [
      | inl s ↦
          let same_pri = ==→≡ _ p s in
          let at : count x (b.activequeues (ev e).ev_pri)
              ≡ one_if (b.active x && (ev x).ev_pri == p) =
            ap (λ z. count x (b.activequeues z)) same_pri ∙ v.activated p x in
          rw (s, count-append x e (b.activequeues (ev e).ev_pri))
            (elim (Bool-cases (e == x)) [
              | inl y ↦
                  let off = ap b.active (sym (==→≡ e x y)) ∙ out in
                  let pri = ap (λ z. (ev z).ev_pri == p) (sym (==→≡ e x y)) ∙ s in
                  ground (arith, at, y, off, pri)
              | inr m ↦ ground (arith, at, m)
            ])
      | inr n ↦ rw n (elim (Bool-cases (e == x)) [
        | inl y ↦
            let pri = ap (λ z. (ev z).ev_pri == p) (sym (==→≡ e x y)) ∙ n in
            ground (arith, v.activated p x, pri, y)
        | inr m ↦ ground (arith, v.activated p x, m)
      ])
    ];
    listed = v.listed;
    maps = v.maps;
    genuine = v.genuine;
    wants = v.wants;
    waits = v.waits;
  }
  queued-Valid c d b e on_timeout v out (room, small) =
      elim (min_heap_push_inserts b.ev_timeout realloc b.timeheap e v.heap (v.timed e ∙ out)
        small) [
          | inl (done, heap, size, others) ↦ record {
            heap = heap;
            timed = λ x. others x ∙ ground (arith, v.timed x);
            activated = v.activated;
            listed = v.listed;
            maps = v.maps;
            genuine = v.genuine;
            wants = v.wants;
            waits = v.waits;
          }
          | inr (_, full, _) ↦ absurd (omega arith)
        ]

  -- Whether an event is active, and what for, once it was made active for `res`.
  pub record Activated (b r : EventBase op.State) (e : ℕ) (res : Fired) : Type 0 where
    pub valid : Valid ev op r
    pub active : (x : ℕ) → r.active x ≡ (if e == x then true else b.active x)
    pub results :
        (x : ℕ)
        → r.ev_res x
          ≡ (if e == x then (if b.active e then join (b.ev_res e) res else res) else b.ev_res x)
    pub inserted : r.inserted ≡ b.inserted
    pub timeout : r.timeout ≡ b.timeout
    pub times : r.ev_timeout ≡ b.ev_timeout
    pub heap : r.timeheap ≡ b.timeheap
    pub gaps : r.ev_io_timeout ≡ b.ev_io_timeout
    pub io : r.io ≡ b.io
    pub stopped : r.event_break ≡ b.event_break
    pub term : r.event_gotterm ≡ b.event_gotterm

  noted-Valid :
      (b : EventBase op.State) (results : ℕ → Fired) (continue : Bool)
      → Valid ev op b
      → Valid ev op (record b { ev_res = results; event_continue = continue })
  noted-Valid b results continue v = record {
    heap = v.heap;
    timed = v.timed;
    activated = v.activated;
    listed = v.listed;
    maps = v.maps;
    genuine = v.genuine;
    wants = v.wants;
    waits = v.waits;
  }

  pub event_active_nolock_activates :
      (b : EventBase op.State) (e : ℕ) (res : Fired)
      → Valid ev op b
      → (r : EventBase op.State) × (event_active_nolock ev realloc b e res ≡ some r)
        × Activated b r e res
  unfolding event_active_nolock
  event_active_nolock_activates b e res v = elim (Bool-cases (b.active e)) [
    | inl on_now ↦ (
      record b { ev_res = put b.ev_res e (join (b.ev_res e) res) },
      rw on_now refl,
      record {
        valid = noted-Valid b _ b.event_continue v;
        active = λ x. elim (Bool-cases (e == x)) [
          | inl s ↦ rw s (ap b.active (sym (==→≡ e x s)) ∙ on_now)
          | inr n ↦ rw n refl
        ];
        results = λ x. rw on_now refl;
        inserted = refl;
        timeout = refl;
        times = refl;
        heap = refl;
        gaps = refl;
        io = refl;
        stopped = refl;
        term = refl;
      },
    )
    | inr out ↦
        let continue =
          if is_before (ev e).ev_pri b.event_running_priority then true else b.event_continue in
        let b1 = record b { ev_res = put b.ev_res e res; event_continue = continue } in
        let (c, d, done) = event_queue_insert-queued b1 e on_active out in
        (
          queued c d b1 e on_active,
          rw (out, done) refl,
          record {
            valid = queued-Valid c d b1 e on_active (noted-Valid b _ continue v) out tt;
            active = λ x. refl;
            results = λ x. rw out refl;
            inserted = refl;
            timeout = refl;
            times = refl;
            heap = refl;
            gaps = refl;
            io = refl;
            stopped = refl;
            term = refl;
          },
        )
  ]
