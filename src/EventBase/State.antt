-- ===== src/EventBase/State.antt =====
-- What an event base of event.c is between two calls, and that its queues keep it.
use mathlib.Core.Path.{ap₂, fun_ext}
use practising.Base.{
  ℕ, suc, ◌-◌, ◌≡◌, refl, sym, ap, ◌∙◌, Bool, true, false, ◌&&◌, some, List, [], ◌∷◌, ◌++◌, ◌==◌,
  if◌then◌else◌, arith, Bool-cases, inl, inr, ==→≡, All,
}
use practising.Base.Int.{ℤ, pos, negsuc, ◌+ℤ◌}
use practising.MinHeap.{put, min_heap_erase}
use practising.MinHeap.Holes.{is_in}
use practising.MinHeap.Heap.{IsHeap}
use practising.MinHeap.Removes.{min_heap_erase_removes}
use practising.EvMap.Backend.{Eventop}
use practising.EvMap.{Event, Maps}
use practising.EvMap.Slots.{registered}
use practising.EvMap.Dels.{first_at}
use practising.EventBase.{
  Assigned, EventBase, Queue, on_inserted, on_active, on_timeout, unlink, event_of, wants_io, is_on,
  dequeue, event_queue_remove,
}

abbrev pub count : ℕ → List ℕ → ℕ
count e [] = 0
count e (x ∷ xs) = if x == e then suc (count e xs) else count e xs

pub count-append :
    (e x : ℕ) (xs : List ℕ)
    → count e (xs ++ x ∷ []) ≡ (if x == e then suc (count e xs) else count e xs)
count-append e x [] = refl
count-append e x (y ∷ xs) = ground (arith, count-append e x xs)

pub count-unlink :
    (e x : ℕ) (xs : List ℕ)
    → count x (unlink e xs) ≡ (if e == x then count x xs - 1 else count x xs)
unfolding unlink
count-unlink e x [] = ground arith
count-unlink e x (y ∷ xs) = ground (arith, count-unlink e x xs)

pub unlink_absent : (e : ℕ) (xs : List ℕ) → count e xs ≡ 0 → unlink e xs ≡ xs
unfolding unlink
unlink_absent e [] h = refl
unlink_absent e (y ∷ xs) h = elim (Bool-cases (y == e)) [
  | inl s ↦ absurd (ground (arith, h, s))
  | inr n ↦ rw n (ap (◌∷◌ y) (unlink_absent e xs (rw n at h)))
]

pub put-same : {A : Type 0} {a : A} (f : ℕ → A) (e : ℕ) → f e ≡ a → put f e a ≡ f
put-same {A} {a} f e h = fun_ext (λ j. elim (Bool-cases (e == j)) [
  | inl y ↦ rw y (sym h ∙ ap f (==→≡ e j y))
  | inr n ↦ rw n refl
])

abbrev pub one_if : Bool → ℕ
one_if true = 1
one_if false = 0

module _ (ev : ℕ → Assigned) where
  -- What the io map has to hold of an inserted event: nothing if it has no descriptor.
  abbrev pub IsWaitingAt : {S : Type 0} → Maps S → ℕ → ℤ → Type 0
  IsWaitingAt m e (negsuc _) = Unit
  IsWaitingAt m e (pos fd) = first_at e (registered m fd) ≡ some (event_of ev e)

  abbrev pub IsGenuine : Event → Type 0
  IsGenuine x = x ≡ event_of ev x.address

  module _ (op : Eventop) where
    -- Each flag says that the event is in its queue, once, and an active event is in the queue of its
    -- priority. Inserted events wait in the io map, for their descriptors.
    pub record Valid (b : EventBase op.State) : Type 0 where
      pub heap : IsHeap b.ev_timeout b.timeheap
      pub timed : (e : ℕ) → is_in (b.timeheap.idx e) ≡ b.timeout e
      pub activated :
          (p e : ℕ) → count e (b.activequeues p) ≡ one_if (b.active e && (ev e).ev_pri == p)
      pub listed : (e : ℕ) → count e b.eventqueue ≡ one_if (b.inserted e)
      pub maps : practising.EvMap.Slots.Valid op b.io
      pub genuine : (j : ℕ) → All IsGenuine (registered b.io j)
      pub wants : (e : ℕ) → b.inserted e ≡ true → wants_io ev e ≡ true
      pub waits : (e : ℕ) → b.inserted e ≡ true → IsWaitingAt b.io e (ev e).ev_fd

    -- The base once event `e` is in a queue no longer, with other counts.
    abbrev pub without : ℤ → ℤ → EventBase op.State → ℕ → Queue → EventBase op.State
    without c d b e on_inserted = record b {
      event_count = c;
      event_count_active = d;
      inserted = put b.inserted e false;
      eventqueue = unlink e b.eventqueue;
    }
    without c d b e on_active = record b {
      event_count = c;
      event_count_active = d;
      active = put b.active e false;
      activequeues = put b.activequeues (ev e).ev_pri (unlink e (b.activequeues (ev e).ev_pri));
    }
    without c d b e on_timeout = record b {
      event_count = c;
      event_count_active = d;
      timeout = put b.timeout e false;
      timeheap = (min_heap_erase b.ev_timeout b.timeheap e).1;
    }

    pub without-Valid :
        (c d : ℤ) (b : EventBase op.State) (e : ℕ) (q : Queue) → Valid b → Valid (without c d b e q)
    without-Valid c d b e on_inserted v = record {
      heap = v.heap;
      timed = v.timed;
      activated = v.activated;
      listed = λ x. count-unlink e x b.eventqueue ∙ ground (arith, v.listed x);
      maps = v.maps;
      genuine = v.genuine;
      wants = λ x h. v.wants x (ground (arith, h));
      waits = λ x h. v.waits x (ground (arith, h));
    }
    without-Valid c d b e on_active v = record {
      heap = v.heap;
      timed = v.timed;
      activated = λ p x. elim (Bool-cases ((ev e).ev_pri == p)) [
        | inl s ↦
            let at : count x (b.activequeues (ev e).ev_pri)
                ≡ one_if (b.active x && (ev x).ev_pri == p) =
              ap (λ z. count x (b.activequeues z)) (==→≡ _ p s) ∙ v.activated p x in
            rw (s, count-unlink e x (b.activequeues (ev e).ev_pri))
              (elim (Bool-cases (e == x)) [
                | inl y ↦ ground (arith, at, y)
                | inr m ↦ ground (arith, at, m)
              ])
        | inr n ↦ rw n (elim (Bool-cases (e == x)) [
          | inl y ↦
              let other_pri = ap (λ z. (ev z).ev_pri == p) (==→≡ e x y) in
              ground (arith, v.activated p x, other_pri, n, y)
          | inr m ↦ ground (arith, v.activated p x, m)
        ])
      ];
      listed = v.listed;
      maps = v.maps;
      genuine = v.genuine;
      wants = v.wants;
      waits = v.waits;
    }
    without-Valid c d b e on_timeout v =
        elim (min_heap_erase_removes b.ev_timeout b.timeheap e v.heap) [
          | inl (there, done, out) ↦ record {
            heap = out.heap;
            timed = λ x. out.others x ∙ ground (arith, v.timed x);
            activated = v.activated;
            listed = v.listed;
            maps = v.maps;
            genuine = v.genuine;
            wants = v.wants;
            waits = v.waits;
          }
          | inr (away, same_heap) ↦ record {
            heap = rw same_heap v.heap;
            timed = λ x. rw same_heap (
                v.timed x ∙ elim (Bool-cases (e == x)) [
                  | inl y ↦
                      let out = sym (v.timed e) ∙ away in
                      let at = ap b.timeout (==→≡ e x y) in ground (arith, y, out, at)
                  | inr m ↦ ground (arith, m)
                ]);
            activated = v.activated;
            listed = v.listed;
            maps = v.maps;
            genuine = v.genuine;
            wants = v.wants;
            waits = v.waits;
          }
        ]

    pub same_without :
        (b : EventBase op.State) (e : ℕ) (q : Queue)
        → Valid b
        → is_on ev b e q ≡ false
        → without b.event_count b.event_count_active b e q ≡ b
    same_without b e on_inserted v h =
        ap₂ (λ f l. record b { inserted = f; eventqueue = l }) (put-same b.inserted e h)
          (unlink_absent e b.eventqueue (v.listed e ∙ ap one_if h))
    same_without b e on_active v h =
        let pri = (ev e).ev_pri in
        ap₂ (λ f l. record b { active = f; activequeues = l }) (put-same b.active e h)
          (put-same b.activequeues pri
            (sym (unlink_absent e (b.activequeues pri) (v.activated pri e ∙ ground (arith, h)))))
    same_without b e on_timeout v h =
        ap₂ (λ f t. record b { timeout = f; timeheap = t }) (put-same b.timeout e h)
          (elim (min_heap_erase_removes b.ev_timeout b.timeheap e v.heap) [
            | inl (there, _, _) ↦ absurd (cc (sym there ∙ v.timed e ∙ h))
            | inr (_, same_heap) ↦ ap (λ r. r.1) same_heap
          ])

    pub dequeue-without :
        (b : EventBase op.State) (e : ℕ) (q : Queue)
        → Valid b
        → (c : ℤ) × (d : ℤ) × (dequeue ev b e q ≡ some (without c d b e q))
    unfolding dequeue event_queue_remove
    dequeue-without b e q v = elim (Bool-cases (is_on ev b e q)) [
      | inr out ↦
          (b.event_count, b.event_count_active, rw out (ap some (sym (same_without b e q v out))))
      | inl on ↦ rw on (removed b e q on)
    ]
      where
        counted : EventBase op.State → ℕ → ℤ
        counted b e = if (ev e).internal then b.event_count else b.event_count +ℤ negsuc 0

        removed :
            (b : EventBase op.State) (e : ℕ) (q : Queue)
            → is_on ev b e q ≡ true
            → (c : ℤ) × (d : ℤ) × (event_queue_remove ev b e q ≡ some (without c d b e q))
        removed b e on_inserted on = (counted b e, b.event_count_active, rw on refl)
        removed b e on_active on = (counted b e, b.event_count_active +ℤ negsuc 0, rw on refl)
        removed b e on_timeout on = (counted b e, b.event_count_active, rw on refl)
