-- ===== src/EventBase/Progress.antt =====
-- The loop of event.c: a wait as long as timeout_next says leads to a callback.
use mathlib.Core.Path.{subst}
use practising.Base.{
  ℕ, zero, suc, ◌+◌, ◌≤◌, ◌<◌, ◌≡◌, refl, sym, ap, ◌∙◌, Bool, true, false, some, List, [], ◌∷◌,
  length, length-append, ◌==◌, arith, Bool-cases, inl, inr, ==→≡,
}
use practising.EvMap.Backend.{Eventop}
use practising.EventBase.{Assigned, EventBase, Fired}
use practising.EventBase.Calls.{timeout_process}
use practising.EventBase.State.{count}
use practising.EventBase.Timeouts.{is_until, is_due, timeout_process-Fires}
use practising.EventBase.Waits.{IsTime, time_sum, wait, Ends, timeout_next, timeout_next-Ends}
use practising.EventBase.Process.{counted, event_process_active}
use practising.EventBase.Ready.{IsProgram, Ready}
use practising.EventBase.Queues.{outer, IsSafe, IsCalm, Calls}
use practising.EventBase.Priorities.{up_to}
use practising.EventBase.Served.{event_process_active-Served}
use practising.EventBase.Rounds.{timeout_process-Ready}

is_until_trans : (a b c : ℕ × ℕ) → is_until a b ≡ true → is_until b c ≡ true → is_until a c ≡ true
is_until_trans a b c h k = ground (arith, h, k)

count-le-length : (x : ℕ) (xs : List ℕ) → count x xs ≤ length xs
count-le-length x [] = omega arith
count-le-length x (y ∷ xs) = ground (arith, count-le-length x xs)

outer-le-length : (ev : ℕ → Assigned) (xs : List ℕ) → outer ev xs ≤ length xs
outer-le-length ev [] = omega arith
outer-le-length ev (y ∷ xs) = ground (arith, outer-le-length ev xs)

-- A queue among those of the priorities is no longer than them all.
up_to-long :
    (queues : ℕ → List ℕ) (i n p : ℕ)
    → i ≤ p
    → p < i + n
    → length (queues p) ≤ length (up_to queues i n)
up_to-long queues i zero p low high = absurd (omega (arith, low, high))
up_to-long queues i (suc n) p low high = elim (Bool-cases (i == p)) [
  | inl here ↦
      let at : length (queues i) ≡ length (queues p) =
        ap (λ (z : ℕ). length (queues z)) (==→≡ i p here) in
      omega (arith, at, length-append (queues i) (up_to queues (i + 1) n))
  | inr there ↦
      let above : i + 1 ≤ p = ground (arith, low, there) in
      omega (
        arith,
        up_to-long queues (i + 1) n p above (omega (arith, high)),
        length-append (queues i) (up_to queues (i + 1) n),
      )
]

same : {A : Type 0} {x y : A} → some x ≡ some y → x ≡ y
same h = cc

module _ (ev : ℕ → Assigned) (op : Eventop) (limit : ℕ) (realloc : ℕ → Bool) where
  -- After the wait, some event has become active.
  some_fires :
      (b r : EventBase op.State) (now later tv : ℕ × ℕ)
      → Ready ev op limit b
      → IsTime now
      → timeout_next (some now) b ≡ some (wait tv)
      → is_until (time_sum now tv) later ≡ true
      → timeout_process ev op realloc later b ≡ some r
      → (x : ℕ) × (0 < length (r.activequeues (ev x).ev_pri))
  some_fires b r now later tv k in_now asked over ran =
      let (n, next, ends) =
        timeout_next-Ends ev op b now k.valid in_now (k.times (b.timeheap.p 0)) in
      let (_, (x, on, first), _) = subst (Ends b now) (same (sym next ∙ asked)) ends in
      let (r1, ran1, f) = timeout_process-Fires ev op realloc later b k.valid in
      let due : is_due b later x ≡ true =
        ground (arith, on, is_until_trans (b.ev_timeout x) (time_sum now tv) later first over) in
      let on_now : r1.active x ≡ true = f.active x ∙ rw due refl in
      let at : count x (r1.activequeues (ev x).ev_pri) ≡ 1 =
        f.valid.activated (ev x).ev_pri x ∙ ground (arith, on_now) in
      (
        x,
        subst (λ (z : EventBase op.State). 0 < length (z.activequeues (ev x).ev_pri))
            (same (sym ran1 ∙ ran))
            (omega (arith, at, count-le-length x (r1.activequeues (ev x).ev_pri))),
      )

  module _ (calloc debug : Bool) {W : Type 0}
      (callback : W × EventBase op.State → ℕ → Fired → W × EventBase op.State)
      (program : IsProgram ev op limit) (safe : IsSafe ev op limit callback)
      (calm : IsCalm ev op limit callback) where
    -- From a base fit for the loop, timeout_next at `now` gives a time to wait, and once that is over, at
    -- `later`, timeout_process and event_process_active are called. With priorities below `n`, a back end
    -- that refuses no delete, callbacks that keep a base fit, leave the active queues as they are and stop
    -- nothing, no stop asked for before, and rounds for all the events in a queue, they run some callback: event_process_active ends, and has served `k` priorities that have an active event.
    pub wait_ends_in_callback :
        (b r : EventBase op.State) (now later tv : ℕ × ℕ) (n most : ℕ) (w : W)
        → ((x : ℕ) → (ev x).ev_pri < n)
        → Ready ev op limit b
        → IsTime now
        → IsTime later
        → timeout_next (some now) b ≡ some (wait tv)
        → is_until (time_sum now tv) later ≡ true
        → timeout_process ev op realloc later b ≡ some r
        → ((p : ℕ) → length (r.activequeues p) < most)
        → r.event_break ≡ false
        → r.event_continue ≡ false
        → (c k : ℕ) × (w' : W) × (r' : EventBase op.State) × (event_process_active ev op realloc
              calloc debug callback n most later
              (w, r)
            ≡ some (counted c (w', r')))
          × Calls ev op limit callback w' w (up_to r.activequeues 0 k)
          × (0 < length (up_to r.activequeues 0 k))
    wait_ends_in_callback b r now later tv n most w below k in_now in_later asked over ran enough b0
          c0 =
        let (x, there) = some_fires b r now later tv k in_now asked over ran in
        let (r1, ran1, ready1) = timeout_process-Ready ev op limit realloc later b program k in
        let ready = subst (Ready ev op limit) (same (sym ran1 ∙ ran)) ready1 in
        let (c, w', r', done, s) =
          event_process_active-Served ev op limit callback realloc calloc debug program safe calm n
            most later w r enough in_later ready b0 c0 in
        (
          c,
          s.k,
          w',
          r',
          done,
          s.calls,
          elim (Bool-cases (c == 0)) [
            | inl zero_count ↦
                let all : s.k ≡ n = s.all (==→≡ c 0 zero_count) in
                let long =
                  up_to-long r.activequeues 0 s.k (ev x).ev_pri (omega arith)
                    (omega (arith, all, below x)) in
                omega (arith, long, there)
            | inr some_count ↦
                let positive : 0 < c = ground (arith, some_count) in
                omega (arith, positive, s.count, outer-le-length ev (up_to r.activequeues 0 s.k))
          ],
        )
