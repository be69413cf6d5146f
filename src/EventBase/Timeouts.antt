-- ===== src/EventBase/Timeouts.antt =====
-- timeout_process of event.c activates the events whose timeouts have passed, and no others.
use practising.Base.{
  ℕ, zero, suc, ◌+◌, ◌<◌, ◌≡◌, refl, sym, ap, ◌∙◌, Bool, true, false, not, ◌&&◌, ◌||◌, ltb, leb,
  Option, none, some, ◌==◌, if◌then◌else◌, arith, Bool-cases, inl, inr, ==→≡,
}
use practising.MinHeap.{MinHeap, min_heap_top, greater}
use practising.MinHeap.Holes.{is_in}
use practising.MinHeap.Heap.{top_least}
use practising.MinHeap.Removes.{min_heap_erase_removes}
use practising.EvMap.Backend.{Eventop}
use practising.EventBase.{Assigned, EventBase, Fired, timer_gt}
use practising.EventBase.Calls.{timeout_step, timeout_loop, timeout_process}
use practising.EventBase.State.{Valid}
use practising.EventBase.Dels.{event_del_internal_removes, event_del_internal-IsLinked}
use practising.EventBase.Linked.{IsLinked, IsLinked-same}
use practising.EvMap.Refusals.{RefusesNoDel}
use practising.EventBase.Inserts.{event_active_nolock_activates}

-- What timeout_process makes events active for: EV_TIMEOUT.
abbrev pub only_timeout : Fired
only_timeout = record {
  events = record { read = false; write = false; et = false };
  timed_out = true;
}

-- A time that is no later than another.
abbrev pub is_until : ℕ × ℕ → ℕ × ℕ → Bool
is_until a b = ltb a.0 b.0 || (a.0 == b.0 && leb a.1 b.1)

not-timer_gt : (a b : ℕ × ℕ) → not (timer_gt a b) ≡ is_until a b
unfolding timer_gt
not-timer_gt a b = ground arith

module _ {S : Type 0} where
  -- The event has a timeout, which is not after `now`.
  abbrev pub is_due : EventBase S → ℕ × ℕ → ℕ → Bool
  is_due b now x = b.timeout x && is_until (b.ev_timeout x) now

pub min_heap_top_lem : (s : MinHeap) → min_heap_top s ≡ (if s.n == 0 then none else some (s.p 0))
unfolding min_heap_top
min_heap_top_lem s = refl

-- A value set for one and then for the others is set for all.
twice_changed :
    {A : Type 0} {x y : A} (one others all : Bool) (new old : A)
    → all ≡ (if one then true else others)
    → y ≡ (if one then new else old)
    → x ≡ (if others then new else y)
    → x ≡ (if all then new else old)
twice_changed true true all new old h k l = rw h l
twice_changed true false all new old h k l = rw h (l ∙ k)
twice_changed false true all new old h k l = rw h l
twice_changed false false all new old h k l = rw h (l ∙ k)

module _ (ev : ℕ → Assigned) (op : Eventop) where
  -- The base `r` is `b` with the events of a set taken out of all queues and made active.
  pub record Fires (b r : EventBase op.State) (due : ℕ → Bool) : Type 0 where
    pub valid : Valid ev op r
    pub timeout : (x : ℕ) → r.timeout x ≡ (if due x then false else b.timeout x)
    pub inserted : (x : ℕ) → r.inserted x ≡ (if due x then false else b.inserted x)
    pub active : (x : ℕ) → r.active x ≡ (if due x then true else b.active x)
    pub results : (x : ℕ) → r.ev_res x ≡ (if due x then only_timeout else b.ev_res x)
    pub times : r.ev_timeout ≡ b.ev_timeout
    pub gaps : r.ev_io_timeout ≡ b.ev_io_timeout
    pub linked : RefusesNoDel op → IsLinked ev b → IsLinked ev r

  pub timeout_step-Fires :
      (realloc : ℕ → Bool) (b : EventBase op.State) (e : ℕ)
      → Valid ev op b
      → b.timeout e ≡ true
      → (r : EventBase op.State) × (timeout_step ev op realloc b e ≡ some r)
        × Fires b r (λ x. e == x)
        × (r.timeheap.n + 1 ≡ b.timeheap.n)
  unfolding timeout_step
  timeout_step-Fires realloc b e v on =
      let (ok, d, deleted, out, io, lists, willing) = event_del_internal_removes ev op b e v in
      let (r, done, a) = event_active_nolock_activates ev op realloc d e only_timeout out.valid in
      let gone : d.active e ≡ false = out.active e ∙ ground arith in
      (
        r,
        rw deleted done,
        record {
          valid = a.valid;
          timeout = λ x. ap (λ f. f x) a.timeout ∙ out.timeout x;
          inserted = λ x. ap (λ f. f x) a.inserted ∙ out.inserted x;
          active = λ x. ground (arith, a.active x, out.active x);
          results = λ x. a.results x ∙ rw (gone, out.results) refl;
          times = a.times ∙ out.times;
          gaps = a.gaps ∙ out.gaps;
          linked = λ all l.
              IsLinked-same ev d r a.inserted a.io
                (event_del_internal-IsLinked ev op b e ok d out io lists (willing all) l);
        },
        elim (min_heap_erase_removes b.ev_timeout b.timeheap e v.heap) [
          | inl (_, _, removed) ↦ ap (λ h. h.n + 1) (a.heap ∙ out.erased) ∙ removed.size
          | inr (away, _) ↦ absurd (cc (sym away ∙ v.timed e ∙ on))
        ],
      )

  -- Where the top of the heap is not due, no event is.
  none_due :
      (b : EventBase op.State) (now : ℕ × ℕ)
      → Valid ev op b
      → (0 < b.timeheap.n → timer_gt (b.ev_timeout (b.timeheap.p 0)) now ≡ true)
      → (x : ℕ) → is_due b now x ≡ false
  unfolding timer_gt greater
  none_due b now v late x = at (b.timeheap.idx x) refl
    where
      at : (o : Option ℕ) → b.timeheap.idx x ≡ o → is_due b now x ≡ false
      at none h = let off = sym (v.timed x) ∙ ap is_in h in rw off refl
      at (some i) h =
          let (inside, here) = v.heap.back x i h in
          let least =
            rw here at (top_least b.ev_timeout b.timeheap i i v.heap (omega arith) inside) in
          ground (arith, late (omega arith), least)

  none_due-Fires :
      (b : EventBase op.State) (due : ℕ → Bool)
      → Valid ev op b
      → ((x : ℕ) → due x ≡ false)
      → Fires b b due
  none_due-Fires b due v no_one = record {
    valid = v;
    timeout = λ x. rw (no_one x) refl;
    inserted = λ x. rw (no_one x) refl;
    active = λ x. rw (no_one x) refl;
    results = λ x. rw (no_one x) refl;
    times = refl;
    gaps = refl;
    linked = λ _ l. l;
  }

  -- First one event that is due, and then all the others.
  then-Fires :
      (b m r : EventBase op.State) (now : ℕ × ℕ) (e : ℕ)
      → is_due b now e ≡ true
      → Fires b m (λ x. e == x)
      → Fires m r (is_due m now)
      → Fires b r (is_due b now)
  then-Fires b m r now e due f g = record {
    valid = g.valid;
    timeout =
        λ x. twice_changed (e == x) (is_due m now x) _ _ _ (split x) (f.timeout x) (g.timeout x);
    inserted =
        λ x. twice_changed (e == x) (is_due m now x) _ _ _ (split x) (f.inserted x) (g.inserted x);
    active = λ x. twice_changed (e == x) (is_due m now x) _ _ _ (split x) (f.active x) (g.active x);
    results =
        λ x. twice_changed (e == x) (is_due m now x) _ _ _ (split x) (f.results x) (g.results x);
    times = g.times ∙ f.times;
    gaps = g.gaps ∙ f.gaps;
    linked = λ all l. g.linked all (f.linked all l);
  }
    where
      split : (x : ℕ) → is_due b now x ≡ (if e == x then true else is_due m now x)
      split x = elim (Bool-cases (e == x)) [
        | inl s ↦ rw s (ap (is_due b now) (sym (==→≡ e x s)) ∙ due)
        | inr n ↦ rw (n, f.times, f.timeout x, n) refl
      ]

  timeout_loop-Fires :
      (fuel : ℕ) (realloc : ℕ → Bool) (now : ℕ × ℕ) (b : EventBase op.State)
      → Valid ev op b
      → b.timeheap.n < fuel
      → (r : EventBase op.State) × (timeout_loop ev op fuel realloc now b ≡ some r)
        × Fires b r (is_due b now)
  unfolding timeout_loop
  timeout_loop-Fires zero realloc now b v enough = absurd (omega arith)
  timeout_loop-Fires (suc fuel) realloc now b v enough = elim (Bool-cases (b.timeheap.n == 0)) [
    | inl empty ↦ (
      b,
      rw (min_heap_top_lem b.timeheap, empty, timeout_loop) refl,
      none_due-Fires b _ v (none_due b now v (λ some_there. absurd (ground (arith, empty)))),
    )
    | inr there ↦
        let e = b.timeheap.p 0 in
        let inside : 0 < b.timeheap.n = ground (arith, there) in
        elim (Bool-cases (timer_gt (b.ev_timeout e) now)) [
          | inl late ↦ (
            b,
            rw (min_heap_top_lem b.timeheap, there, late, timeout_loop) refl,
            none_due-Fires b _ v (none_due b now v (λ _. late)),
          )
          | inr due ↦
              let on : b.timeout e ≡ true = sym (v.timed e) ∙ ap is_in (v.heap.known 0 inside) in
              let (m, stepped, f, fewer) = timeout_step-Fires realloc b e v on in
              let (r, looped, g) = timeout_loop-Fires fuel realloc now m f.valid (omega arith) in
              (
                r,
                rw (min_heap_top_lem b.timeheap, there, due, stepped, timeout_loop) looped,
                then-Fires b m r now e
                    (rw on (sym (not-timer_gt (b.ev_timeout e) now) ∙ ap not due)) f g,
              )
        ]
  ]

  -- timeout_process on a consistent base: it ends, with as many rounds as the heap has events and one
  -- more. It leaves a consistent base, where each event whose timeout is not after `now` is active for
  -- EV_TIMEOUT alone and in no other queue. All other events are as before.
  -- Where the back end refuses no delete, an io map that lists just the inserted events still does.
  pub timeout_process-Fires :
      (realloc : ℕ → Bool) (now : ℕ × ℕ) (b : EventBase op.State)
      → Valid ev op b
      → (r : EventBase op.State) × (timeout_process ev op realloc now b ≡ some r)
        × Fires b r (is_due b now)
  unfolding timeout_process
  timeout_process-Fires realloc now b v =
      timeout_loop-Fires (b.timeheap.n + 1) realloc now b v (omega arith)
