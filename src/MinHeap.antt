-- ===== src/MinHeap.antt =====
-- LibEvent/Source/minheap-internal.h: the timeouts in a binary heap. An event is a number, `p` the
-- array of events, `idx` the field min_heap_idx of each event, and `none` its -1. Entries of `p`
-- from `n` on are what was last written there.
pub mod Holes
pub mod Shifts
pub mod Heap
pub mod Removes
pub mod Inserts
mod Tests
use practising.Base.{
  ℕ, zero, suc, ◌+◌, ◌-◌, ◌*◌, ◌/◌, ◌%◌, ◌^◌, Bool, true, false, not, ◌&&◌, ◌||◌, Option, none,
  some, ◌==◌, ltb, leb, if◌then◌else◌,
}

-- struct min_heap with the events' indices.
pub record MinHeap : Type 0 where
  pub p : ℕ → ℕ
  pub n : ℕ
  pub a : ℕ
  pub idx : ℕ → Option ℕ

abbrev pub put {ℓ} : {A : Type ℓ} → (ℕ → A) → ℕ → A → ℕ → A
put f i v j = if i == j then v else f j

-- `(s->p[i] = e)->ev_timeout_pos.min_heap_idx = i`
unfoldable pub place : MinHeap → ℕ → ℕ → MinHeap
place s i e = record s { p = put s.p i e; idx = put s.idx e (some i) }

unfoldable pub forget : MinHeap → ℕ → MinHeap
forget s e = record s { idx = put s.idx e none }

unfoldable pub min_heap_ctor : (ℕ → ℕ) → (ℕ → Option ℕ) → MinHeap
min_heap_ctor p idx = record { p = p; n = 0; a = 0; idx = idx }

unfoldable pub min_heap_top : MinHeap → Option ℕ
min_heap_top s = if s.n == 0 then none else some (s.p 0)

-- min_heap_reserve; `none` is its -1.
unfoldable pub min_heap_reserve : (ℕ → Bool) → MinHeap → ℕ → Option MinHeap
min_heap_reserve realloc s n =
    let doubled = if s.a == 0 then 8 else s.a * 2 % 2 ^ 32 in
    let a = if ltb doubled n then n else doubled in
    if ltb s.a n then (if realloc (a * 8) then some (record s { a = a }) else none) else some s

-- Seconds and microseconds of each event's ev_timeout.
module _ (ev_timeout : ℕ → ℕ × ℕ) where
  -- min_heap_elem_greater, by evutil_timercmp.
  unfoldable pub greater : ℕ → ℕ → Bool
  greater a b =
      if (ev_timeout a).0 == (ev_timeout b).0
      then ltb (ev_timeout b).1 (ev_timeout a).1
      else ltb (ev_timeout b).0 (ev_timeout a).0

  -- min_heap_shift_up_; the hole's index is fuel enough.
  unfoldable pub shift_up : ℕ → MinHeap → ℕ → ℕ → MinHeap
  shift_up zero s hole e = place s hole e
  shift_up (suc fuel) s hole e =
      let parent = (hole - 1) / 2 in
      let rest = shift_up fuel (place s hole (s.p parent)) parent e in
      if not (hole == 0) && greater (s.p parent) e then rest else place s hole e

  -- The child to compare with, from `min_child`, the right one.
  unfoldable pub pick_child : MinHeap → ℕ → ℕ
  pick_child s min_child =
      if min_child == s.n || greater (s.p min_child) (s.p (min_child - 1))
      then min_child - 1
      else min_child

  -- min_heap_shift_down_; `n` is fuel enough.
  unfoldable pub shift_down : ℕ → MinHeap → ℕ → ℕ → MinHeap
  shift_down zero s hole e = place s hole e
  shift_down (suc fuel) s hole e =
      let child = pick_child s (2 * (hole + 1)) in
      let rest = shift_down fuel (place s hole (s.p child)) child e in
      if leb (2 * (hole + 1)) s.n && greater e (s.p child) then rest else place s hole e

  -- min_heap_push from the result of min_heap_reserve on.
  unfoldable pub push_reserved : Option MinHeap → MinHeap → ℕ → Bool × MinHeap
  push_reserved none s e = (false, s)
  push_reserved (some r) s e = (true, shift_up r.n (record r { n = (r.n + 1) % 2 ^ 32 }) r.n e)

  -- min_heap_push; the Boolean is true for its 0.
  unfoldable pub min_heap_push : (ℕ → Bool) → MinHeap → ℕ → Bool × MinHeap
  min_heap_push realloc s e = push_reserved (min_heap_reserve realloc s ((s.n + 1) % 2 ^ 32)) s e

  pub min_heap_pop : MinHeap → Option ℕ × MinHeap
  min_heap_pop s =
      let fewer = record s { n = s.n - 1 } in
      if s.n == 0
      then (none, s)
      else (some (s.p 0), forget (shift_down fewer.n fewer 0 (s.p fewer.n)) (s.p 0))

  -- The heap without its last slot, the element of which takes the place `i`.
  unfoldable pub erase_at : MinHeap → ℕ → MinHeap
  erase_at s i =
      let fewer = record s { n = s.n - 1 } in
      let last = s.p fewer.n in
      if ltb 0 i && greater (s.p ((i - 1) / 2)) last
      then shift_up i fewer i last
      else shift_down fewer.n fewer i last

  -- min_heap_erase by the index of the event.
  unfoldable pub erase_slot : Option ℕ → MinHeap → ℕ → Bool × MinHeap
  erase_slot none s e = (false, s)
  erase_slot (some i) s e = (true, forget (erase_at s i) e)

  -- min_heap_erase; the Boolean is true for its 0.
  unfoldable pub min_heap_erase : MinHeap → ℕ → Bool × MinHeap
  min_heap_erase s e = erase_slot (s.idx e) s e
