-- ===== src/EventBase/Schedules.antt =====
-- event_add_internal of event.c: an event that is added waits in the io map and in the heap.
use practising.Base.{
  if◌then◌else◌, not, ℕ, ◌+◌, ◌%◌, ◌^◌, ◌≤◌, ◌<◌, ◌≡◌, ◌⊎◌, refl, sym, ap, ◌∙◌, Bool, true, false,
  ◌&&◌, Option, none, some, ◌==◌, arith, Bool-cases, inl, inr, ==→≡,
}
use native.Mathlib.Nat.{mod-eq_of_lt}
use practising.Base.Int.{pos}
use practising.MinHeap.Inserts.{min_heap_reserve_room}
use practising.MinHeap.{put}
use practising.EvMap.Backend.{Eventop}
use practising.EventBase.{Assigned, EventBase, timeradd}
use practising.EventBase.Waits.{time_sum}
use practising.EventBase.Linked.{IsUnlinked, IsLinked-same}
use practising.EventBase.Calls.{reserved, add_timeout_if, add_reserved, event_add_internal}
use practising.EventBase.State.{Valid}
use practising.EventBase.Adds.{add_timeout-Timed}
use practising.EventBase.Joins.{gaps_unset, is_set, time_of, Added, Asked, add_io-Asked}

module _ (ev : ℕ → Assigned) (op : Eventop) (realloc : ℕ → Bool) (calloc debug : Bool) where
  -- The base with a heap of size `a`.
  abbrev with_room : EventBase op.State → ℕ → EventBase op.State
  with_room b a = record b { timeheap = record (b.timeheap) { a = a } }

  -- min_heap_reserve leaves room where the event has no timeout yet.
  reserved-cases :
      (b : EventBase op.State) (e : ℕ) (tv : Option (ℕ × ℕ))
      → Valid ev op b
      → b.timeheap.n + 1 < 2 ^ 32
      → (reserved ev op realloc calloc debug b e tv ≡ none)
        ⊎ ((a : ℕ) × (reserved ev op realloc calloc debug b e tv ≡ some (with_room b a))
            × (b.timeheap.n ≤ a)
            × (is_set tv ≡ true → b.timeout e ≡ false → b.timeheap.n < a))
  unfolding reserved
  reserved-cases b e none v small = inr (b.timeheap.a, refl, v.heap.room, λ h. absurd (cc))
  reserved-cases b e (some tv) v small = elim (Bool-cases (b.timeout e)) [
    | inl on_now ↦ inr (b.timeheap.a, rw on_now refl, v.heap.room, λ h k. absurd (cc))
    | inr out ↦
        let whole : (1 + b.timeheap.n) % 2 ^ 32 ≡ b.timeheap.n + 1 =
          ap (λ (n : ℕ). n % 2 ^ 32) (omega arith) ∙ mod-eq_of_lt small in
        elim (min_heap_reserve_room b.ev_timeout realloc b.timeheap (b.timeheap.n + 1)) [
          | inl (lost, _, _) ↦ inl (rw (out, whole, lost) refl)
          | inr (a, got, room) ↦ inr (a, rw (out, whole, got) refl, omega arith, λ h k. omega arith)
        ]
  ]

  with_room-Valid :
      (b : EventBase op.State) (a : ℕ)
      → Valid ev op b
      → b.timeheap.n ≤ a
      → Valid ev op (with_room b a)
  with_room-Valid b a v enough = record {
    heap = record {
      ordered = v.heap.ordered;
      known = v.heap.known;
      back = v.heap.back;
      room = enough;
    };
    timed = v.timed;
    activated = v.activated;
    listed = v.listed;
    maps = v.maps;
    genuine = v.genuine;
    wants = v.wants;
    waits = v.waits;
  }

  -- The timeout, once the io map was asked.
  add_timeout_if-Added :
      (absolute : Bool) (now : ℕ × ℕ) (b : EventBase op.State) (a e : ℕ) (tv : Option (ℕ × ℕ))
      (ok : Bool) (r : EventBase op.State)
      → Asked ev op realloc calloc debug ok (with_room b a) r e
      → (is_set tv ≡ true → b.timeout e ≡ false → b.timeheap.n < a)
      → b.timeheap.n + 1 < 2 ^ 32
      → (done : Bool) × (s : EventBase op.State) × (add_timeout_if ev op realloc calloc debug
            absolute now e tv
            (ok, r)
          ≡ some (done, s))
        × Added ev op done b s e absolute now tv
  unfolding add_timeout_if
  add_timeout_if-Added absolute now b a e none ok r k free small = (
    ok,
    r,
    refl,
    record {
      valid = k.valid;
      inserted = k.inserted;
      timeout = λ x. ap (λ f. f x) k.timeout ∙ ground arith;
      active = λ x. ap (λ f. f x) k.active ∙ ground arith;
      times = λ x. ap (λ f. f x) k.times ∙ elim (Bool-cases (e == x && ok)) [
        | inl s ↦ rw s (sym (ap b.ev_timeout (==→≡ e x (ground (arith, s)))))
        | inr n ↦ rw n refl
      ];
      results = k.results;
      gaps = k.gaps;
      flags = k.flags;
      queues = λ _. k.queues;
      linked = k.linked;
    },
  )
  add_timeout_if-Added absolute now b a e (some tv) false r k free small = (
    false,
    r,
    refl,
    record {
      valid = k.valid;
      inserted = k.inserted;
      timeout = λ x. ap (λ f. f x) k.timeout ∙ ground arith;
      active = λ x. ap (λ f. f x) k.active ∙ ground arith;
      times = λ x. ap (λ f. f x) k.times ∙ ground arith;
      results = k.results;
      gaps = k.gaps;
      flags = k.flags;
      queues = λ _. k.queues;
      linked = k.linked;
    },
  )
  add_timeout_if-Added absolute now b a e (some tv) true r k free small =
      let (s, done, t) =
        add_timeout-Timed ev op realloc calloc debug absolute now r e tv k.valid
          (λ out. rw k.heap (free refl (sym (ap (λ f. f e) k.timeout) ∙ out))) (rw k.heap small) in
      (
        true,
        s,
        rw done refl,
        record {
          valid = t.valid;
          inserted = λ x. ap (λ f. f x) t.inserted ∙ k.inserted x;
          timeout = λ x. t.timeout x ∙ rw k.timeout (ground arith);
          active = λ x. t.active x ∙ rw (k.active, k.results) (ground arith);
          times = λ x. t.times x ∙ rw k.times (ground arith);
          results = t.results ∙ k.results;
          gaps =
              t.new_gaps
              ∙ ap (λ (g : ℕ → ℕ × ℕ). if (ev e).ev_persist && not absolute then put g e tv else g)
                  k.gaps;
          flags = (t.flags.0 ∙ k.flags.0, t.flags.1 ∙ k.flags.1);
          queues = λ out. t.queues (ap (λ f. f e) k.active ∙ out) ∙ k.queues;
          linked = λ l. IsLinked-same ev r s t.inserted t.io (k.linked l);
        },
      )

  pub event_add_internal-Added :
      (absolute : Bool) (now : ℕ × ℕ) (b : EventBase op.State) (e : ℕ) (tv : Option (ℕ × ℕ))
      → Valid ev op b
      → b.timeheap.n + 1 < 2 ^ 32
      → ((fd : ℕ) → (ev e).ev_fd ≡ pos fd → fd < 2 ^ 27)
      → (b.inserted e ≡ false → IsUnlinked ev b.io e)
      → (ok : Bool) × (r : EventBase op.State) × (event_add_internal ev op realloc calloc debug
            absolute now b e tv
          ≡ some (ok, r))
        × Added ev op ok b r e absolute now tv
  unfolding event_add_internal add_reserved
  event_add_internal-Added absolute now b e tv v small fds unlinked =
      elim (reserved-cases b e tv v small) [
        | inl lost ↦ (
          false,
          b,
          rw lost refl,
          record {
            valid = v;
            inserted = λ x. ground arith;
            timeout = λ x. ground arith;
            active = λ x. ground arith;
            times = λ x. ground arith;
            results = refl;
            gaps = sym (gaps_unset b.ev_io_timeout e tv);
            flags = (refl, refl);
            queues = λ _. refl;
            linked = λ l. l;
          },
        )
        | inr (a, got, enough, free) ↦
            let (ok, m, asked, k) =
              add_io-Asked ev op realloc calloc debug (with_room b a) e
                (with_room-Valid b a v enough) fds unlinked in
            let (done, r, timed, out) =
              add_timeout_if-Added absolute now b a e tv ok m k free small in
            (done, r, rw (got, asked) timed, out)
      ]

  timeradd-time_sum :
      (now tv : ℕ × ℕ) → now.0 + tv.0 + 1 < 2 ^ 31 → timeradd now tv ≡ time_sum now tv
  unfolding timeradd
  timeradd-time_sum now tv small =
      let more : (now.0 + tv.0 + 1) % 2 ^ 31 ≡ now.0 + tv.0 + 1 = mod-eq_of_lt small in
      let less : (now.0 + tv.0) % 2 ^ 31 ≡ now.0 + tv.0 = mod-eq_of_lt (omega (arith, small)) in
      rw (more, less) refl

  -- The time `tv` from `now` is one that a struct timeval holds.
  abbrev pub FitsSeconds : Bool → ℕ × ℕ → Option (ℕ × ℕ) → Type 0
  FitsSeconds absolute now none = Unit
  FitsSeconds true now (some tv) = Unit
  FitsSeconds false now (some tv) = now.0 + tv.0 + 1 < 2 ^ 31

  -- The time at which a timeout is over that is asked for by `tv`, without bounds.
  abbrev pub due_at : Bool → ℕ × ℕ → Option (ℕ × ℕ) → ℕ × ℕ → ℕ × ℕ
  due_at absolute now none old = old
  due_at absolute now (some tv) old = if absolute then tv else time_sum now tv

  time_of-due_at :
      (absolute : Bool) (now : ℕ × ℕ) (tv : Option (ℕ × ℕ)) (old : ℕ × ℕ)
      → FitsSeconds absolute now tv
      → time_of absolute now tv old ≡ due_at absolute now tv old
  time_of-due_at absolute now none old fits = refl
  time_of-due_at true now (some tv) old fits = refl
  time_of-due_at false now (some tv) old fits = timeradd-time_sum now tv fits

  -- event_add_internal on a consistent base with fewer than 2 ^ 32 - 1 timeouts, of an event on a
  -- descriptor below 2 ^ 27, if it has one, that is not in the io map's list unless it is inserted: no
  -- queue refuses. On success the event is inserted, if it wants to read or write and was neither inserted
  -- nor active. With a `tv` it has the timeout asked for, where `now` and a `tv` that is not absolute have
  -- a sum with seconds below 2 ^ 31, and is no longer active if it was for an older timeout; a `tv` that is
  -- not absolute becomes the gap between the timeouts of a persistent event. On failure no flag and no time
  -- changes. Other events keep their flags and times, the base is consistent either way, and an io map that
  -- lists just the inserted events, each once, still does.
  pub event_add_internal_adds :
      (absolute : Bool) (now : ℕ × ℕ) (b : EventBase op.State) (e : ℕ) (tv : Option (ℕ × ℕ))
      → Valid ev op b
      → b.timeheap.n + 1 < 2 ^ 32
      → ((fd : ℕ) → (ev e).ev_fd ≡ pos fd → fd < 2 ^ 27)
      → (b.inserted e ≡ false → IsUnlinked ev b.io e)
      → FitsSeconds absolute now tv
      → (ok : Bool) × (r : EventBase op.State) × (event_add_internal ev op realloc calloc debug
            absolute now b e tv
          ≡ some (ok, r))
        × Added ev op ok b r e absolute now tv
        × ((x : ℕ)
            → r.ev_timeout x
              ≡ (if e == x && ok then due_at absolute now tv (b.ev_timeout e) else b.ev_timeout x))
  event_add_internal_adds absolute now b e tv v small fds unlinked fits =
      let (ok, r, done, out) = event_add_internal-Added absolute now b e tv v small fds unlinked in
      (
        ok,
        r,
        done,
        out,
        λ x.
            out.times x
            ∙ ap (λ t. if e == x && ok then t else b.ev_timeout x)
                (time_of-due_at absolute now tv (b.ev_timeout e) fits),
      )
