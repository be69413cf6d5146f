-- ===== src/EventBase/Waits.antt =====
-- timeout_next of event.c, how long the loop may wait for the back end.
use practising.Base.{
  ℕ, ◌+◌, ◌*◌, ◌-◌, ◌<◌, ◌≡◌, ◌⊎◌, refl, sym, ap, ap₂, ◌∙◌, Bool, true, false, ltb, leb, Option,
  none, some, ◌==◌, if◌then◌else◌, arith, Bool-cases, inl, inr,
}
use practising.MinHeap.{min_heap_top, greater}
use practising.MinHeap.Holes.{is_in}
use practising.MinHeap.Heap.{top_least}
use practising.EvMap.Backend.{Eventop}
use practising.EventBase.{Assigned, EventBase}
use practising.EventBase.State.{Valid}
use practising.EventBase.Timeouts.{is_until, min_heap_top_lem}

-- evutil_timersub; `none` is a result below zero.
unfoldable pub timersub : ℕ × ℕ → ℕ × ℕ → Option (ℕ × ℕ)
timersub a b =
    let borrow = if ltb a.1 b.1 then 1 else 0 in
    if ltb a.0 (b.0 + borrow)
    then none
    else some (a.0 - (b.0 + borrow), (a.1 + 1000000 * borrow) - b.1)

-- evutil_timercmp with <=
unfoldable pub timer_le : ℕ × ℕ → ℕ × ℕ → Bool
timer_le a b = if a.0 == b.0 then leb a.1 b.1 else ltb a.0 b.0

-- What timeout_next gives: -1, no timeout, or the time to wait.
pub data Next : Type 0 where
  unknown forever : Next
  wait : ℕ × ℕ → Next

-- The time until an event.
unfoldable pub wait_for : Option (ℕ × ℕ) → Option Next
wait_for none = none
wait_for (some tv) = some (wait tv)

-- timeout_next, for what gettime gives; an outer `none` is a failed assertion.
unfoldable pub timeout_next : {S : Type 0} → Option (ℕ × ℕ) → EventBase S → Option Next
timeout_next gettime b = elim (min_heap_top b.timeheap) [
  | none ↦ some forever
  | some e ↦ elim gettime [
    | none ↦ some unknown
    | some now ↦
        if timer_le (b.ev_timeout e) now
        then some (wait (0, 0))
        else wait_for (timersub (b.ev_timeout e) now)
  ]
]

-- Microseconds below a second.
abbrev pub IsTime : ℕ × ℕ → Type 0
IsTime t = t.1 < 1000000

-- The time `tv` after `now`, without bounds.
abbrev pub time_sum : ℕ × ℕ → ℕ × ℕ → ℕ × ℕ
time_sum now tv =
    if leb 1000000 (now.1 + tv.1)
    then (now.0 + tv.0 + 1, now.1 + tv.1 - 1000000)
    else (now.0 + tv.0, now.1 + tv.1)

-- The wait ends when the first timeout is over.
abbrev pub Ends : {S : Type 0} → EventBase S → ℕ × ℕ → Next → Type 0
Ends b now unknown = ⊥
Ends b now forever = (x : ℕ) → b.timeout x ≡ false
Ends b now (wait tv) =
    IsTime tv
    × ((x : ℕ) × (b.timeout x ≡ true) × (is_until (b.ev_timeout x) (time_sum now tv) ≡ true))
    × ((tv ≡ (0, 0))
        ⊎ ((x : ℕ) → b.timeout x ≡ true → is_until (time_sum now tv) (b.ev_timeout x) ≡ true))

sub_later :
    (a b : ℕ × ℕ)
    → IsTime a
    → IsTime b
    → timer_le a b ≡ false
    → (tv : ℕ × ℕ) × (timersub a b ≡ some tv) × IsTime tv × (time_sum b tv ≡ a)
unfolding timersub timer_le
sub_later (s, u) (s', u') in_a in_b later = elim (Bool-cases (ltb u u')) [
  | inl less ↦
      let whole : ltb s (s' + 1) ≡ false = ground (arith, later, less) in
      let carry : leb 1000000 (u' + (u + 1000000 * 1 - u')) ≡ true = ground (arith, in_b) in
      (
        (s - (s' + 1), u + 1000000 * 1 - u'),
        rw (less, whole) refl,
        ground (arith, less, in_b),
        rw carry (ap₂ (λ (x y : ℕ). (x, y)) (ground (arith, whole)) (ground (arith, in_b))),
      )
  | inr more ↦
      let whole : ltb s (s' + 0) ≡ false = ground (arith, later, more) in
      let none_over : leb 1000000 (u' + (u + 1000000 * 0 - u')) ≡ false =
        ground (arith, in_a, more) in
      (
        (s - (s' + 0), u + 1000000 * 0 - u'),
        rw (more, whole) refl,
        ground (arith, more, in_a),
        rw none_over (ap₂ (λ (x y : ℕ). (x, y)) (ground (arith, whole)) (ground (arith, more))),
      )
]

add_zero : (b : ℕ × ℕ) → IsTime b → time_sum b (0, 0) ≡ b
add_zero (s, u) h =
    let below : leb 1000000 (u + 0) ≡ false = ground (arith, h) in
    rw below (ap₂ (λ (a b : ℕ). (a, b)) (omega arith) (omega arith))

le-is_until : (a b : ℕ × ℕ) → timer_le a b ≡ is_until a b
unfolding timer_le
le-is_until a b = ground arith

module _ (ev : ℕ → Assigned) (op : Eventop) where
  -- No event of the heap is before its top.
  top-is_until :
      (b : EventBase op.State)
      → Valid ev op b
      → (x : ℕ) → b.timeout x ≡ true
      → (0 < b.timeheap.n) × (is_until (b.ev_timeout (b.timeheap.p 0)) (b.ev_timeout x) ≡ true)
  unfolding greater
  top-is_until b v x on = at (b.timeheap.idx x) refl
    where
      at :
          (o : Option ℕ)
          → b.timeheap.idx x ≡ o
          → (0 < b.timeheap.n) × (is_until (b.ev_timeout (b.timeheap.p 0)) (b.ev_timeout x) ≡ true)
      at none h = let off = sym (v.timed x) ∙ ap is_in h in absurd (cc)
      at (some i) h =
          let (inside, here) = v.heap.back x i h in
          let least =
            rw here at (top_least b.ev_timeout b.timeheap i i v.heap (omega arith) inside) in
          (omega arith, ground (arith, least))

  -- timeout_next on a consistent base, where gettime gives `now`, whose first timeout is a time, with
  -- fewer than 1000000 microseconds like `now`: no assertion fails. Without timeouts it lets the loop wait
  -- for ever. Else, when the time that it gives is over, some timeout is, and before that none is, unless
  -- the time is zero.
  pub timeout_next-Ends :
      (b : EventBase op.State) (now : ℕ × ℕ)
      → Valid ev op b
      → IsTime now
      → IsTime (b.ev_timeout (b.timeheap.p 0))
      → (r : Next) × (timeout_next (some now) b ≡ some r) × Ends b now r
  unfolding timeout_next wait_for
  timeout_next-Ends b now v in_now in_top = elim (Bool-cases (b.timeheap.n == 0)) [
    | inl empty ↦ (
      forever,
      rw (min_heap_top_lem b.timeheap, empty, timeout_next) refl,
      λ x. elim (Bool-cases (b.timeout x)) [
        | inl on ↦ absurd (ground (arith, empty, (top-is_until b v x on).0))
        | inr off ↦ off
      ],
    )
    | inr there ↦
        let e = b.timeheap.p 0 in
        let on : b.timeout e ≡ true =
          sym (v.timed e) ∙ ap is_in (v.heap.known 0 (ground (arith, there))) in
        elim (Bool-cases (timer_le (b.ev_timeout e) now)) [
          | inl due ↦ (
            wait (0, 0),
            rw (min_heap_top_lem b.timeheap, there, timeout_next, due) refl,
            (
              omega arith,
              (e, on, rw (add_zero now in_now) (sym (le-is_until (b.ev_timeout e) now) ∙ due)),
              inl refl,
            ),
          )
          | inr later ↦
              let (tv, sub, in_tv, sum) = sub_later (b.ev_timeout e) now in_top in_now later in
              (
                wait tv,
                rw (min_heap_top_lem b.timeheap, there, timeout_next, later, sub, wait_for) refl,
                (
                  in_tv,
                  (e, on, rw sum (ground arith)),
                  inr (λ x x_on. rw sum (top-is_until b v x x_on).1),
                ),
              )
        ]
  ]
