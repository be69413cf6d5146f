-- ===== src/EventBase/Ready.antt =====
-- Bases that the loop of event.c works on: consistent, with times of fewer than 1000000 microseconds, with
-- timeouts of a limited number of events, and with just the inserted events in the lists of the io map.
use practising.Base.{
  ℕ, zero, suc, ◌+◌, ◌^◌, ◌≤◌, ◌<◌, ◌≡◌, sym, ap, ◌∙◌, true, false, ◌==◌, if◌then◌else◌, arith, leb,
  Bool-cases, inl, inr, ==→≡,
}
use practising.Base.Int.{pos}
use practising.MinHeap.{MinHeap, min_heap_erase}
use practising.MinHeap.Holes.{is_in}
use practising.MinHeap.Heap.{IsHeap}
use practising.MinHeap.Removes.{min_heap_erase_removes}
use practising.EvMap.Backend.{Eventop}
use practising.EventBase.{Assigned, EventBase, timeradd}
use practising.EventBase.State.{Valid}
use practising.EventBase.Waits.{IsTime}
use practising.EventBase.Linked.{IsLinked}
use practising.EvMap.Refusals.{RefusesNoDel}

-- A heap of events below `limit` has no more than `limit`.
heap-le-limit :
    (ev_timeout : ℕ → ℕ × ℕ) (limit : ℕ) (s : MinHeap)
    → IsHeap ev_timeout s
    → ((x : ℕ) → is_in (s.idx x) ≡ true → x < limit)
    → s.n ≤ limit
heap-le-limit ev_timeout zero s k below = elim (Bool-cases (leb s.n 0)) [
  | inl none_there ↦ ground (arith, none_there)
  | inr there ↦ absurd (omega (arith, below (s.p 0) (ap is_in (k.known 0 (ground (arith, there))))))
]
heap-le-limit ev_timeout (suc limit) s k below =
    elim (min_heap_erase_removes ev_timeout s limit k) [
      | inl (_, _, out) ↦ omega (
        arith,
        out.size,
        heap-le-limit ev_timeout limit _ out.heap (λ x h. at x (out.others x) h),
      )
      | inr (away, _) ↦ omega (
        arith,
        heap-le-limit ev_timeout limit s k (λ x h. elim (Bool-cases (limit == x)) [
          | inl s' ↦ absurd (cc (sym away ∙ ap (λ (y : ℕ). is_in (s.idx y)) (==→≡ limit x s') ∙ h))
          | inr n ↦ ground (arith, n, below x h)
        ]),
      )
    ]
  where
    at :
        (x : ℕ)
        → is_in ((min_heap_erase ev_timeout s limit).1.idx x)
          ≡ (if limit == x then false else is_in (s.idx x))
        → is_in ((min_heap_erase ev_timeout s limit).1.idx x) ≡ true
        → x < limit
    at x e h = elim (Bool-cases (limit == x)) [
      | inl s' ↦ let off = rw s' at e in absurd (cc (sym h ∙ off))
      | inr n ↦ ground (arith, n, below x (sym (rw n at e) ∙ h))
    ]

pub timeradd-IsTime : (a b : ℕ × ℕ) → IsTime a → IsTime b → IsTime (timeradd a b)
unfolding timeradd
timeradd-IsTime a b in_a in_b = ground arith

-- The events of a program that bears on the loop: the persistent ones are below a limit, no descriptor is
-- too large for evmap.c, and the back end refuses no delete.
pub record IsProgram (ev : ℕ → Assigned) (op : Eventop) (limit : ℕ) : Type 0 where
  pub persists : (x : ℕ) → (ev x).ev_persist ≡ true → x < limit
  pub descriptors : (x fd : ℕ) → (ev x).ev_fd ≡ pos fd → fd < 2 ^ 27
  pub few : limit + 1 < 2 ^ 32
  pub dels : RefusesNoDel op

module _ (ev : ℕ → Assigned) (op : Eventop) (limit : ℕ) where
  pub record Ready (b : EventBase op.State) : Type 0 where
    pub valid : Valid ev op b
    pub known : (x : ℕ) → b.timeout x ≡ true → x < limit
    pub times : (x : ℕ) → IsTime (b.ev_timeout x)
    pub gaps : (x : ℕ) → IsTime (b.ev_io_timeout x)
    pub linked : IsLinked ev b

  pub Ready-few : (b : EventBase op.State) → Ready b → b.timeheap.n ≤ limit
  Ready-few b r =
      heap-le-limit b.ev_timeout limit b.timeheap r.valid.heap
        (λ x h. r.known x (sym (r.valid.timed x) ∙ h))
