-- ===== src/MinHeap/Heap.antt =====
-- What the heap of minheap-internal.h is between two operations.
use practising.Base.{
  ℕ, zero, suc, ◌≤◌, ◌<◌, ◌≡◌, ap, true, false, none, some, ◌==◌, arith, Bool-cases, inl, inr, ==→≡,
  ==→≢,
}
use practising.MinHeap.{MinHeap, min_heap_ctor, greater}
use practising.MinHeap.Holes.{up, is_in, gt, greater_trans, greater_irrefl}

module _ (ev_timeout : ℕ → ℕ × ℕ) where
  -- No event is earlier than its parent, the events of the heap are just those with an index, which
  -- is their slot, and the array is long enough.
  pub record IsHeap (s : MinHeap) : Type 0 where
    pub ordered : (i : ℕ) → 0 < i → i < s.n → gt ev_timeout (s.p (up i)) (s.p i) ≡ false
    pub known : (i : ℕ) → i < s.n → s.idx (s.p i) ≡ some i
    pub back : (x i : ℕ) → s.idx x ≡ some i → (i < s.n) × (s.p i ≡ x)
    pub room : s.n ≤ s.a

  pub top_least :
      (s : MinHeap) (fuel i : ℕ)
      → IsHeap s
      → i ≤ fuel
      → i < s.n
      → gt ev_timeout (s.p 0) (s.p i) ≡ false
  top_least s zero i k f l = let z : i ≡ 0 = omega arith in rw z (greater_irrefl ev_timeout (s.p 0))
  top_least s (suc fuel) i k f l = elim (Bool-cases (i == 0)) [
    | inl z ↦ rw (==→≡ i 0 z) (greater_irrefl ev_timeout (s.p 0))
    | inr n ↦
        greater_trans ev_timeout (s.p 0) (s.p (up i)) (s.p i)
          (top_least s fuel (up i) k (omega (arith, ==→≢ i 0 n)) (omega arith))
          (k.ordered i (omega (arith, ==→≢ i 0 n)) l)
  ]

  -- An empty heap, where every event has been through min_heap_elem_init.
  pub min_heap_ctor-IsHeap : (p : ℕ → ℕ) → IsHeap (min_heap_ctor p (λ _. none))
  unfolding min_heap_ctor
  min_heap_ctor-IsHeap p = record {
    ordered = λ i z k. absurd (omega arith);
    known = λ i k. absurd (omega arith);
    back = λ x i q. absurd (cc);
    room = omega arith;
  }

-- The times of events that are not in the heap do not matter.
pub retimed-IsHeap :
    (old new : ℕ → ℕ × ℕ) (s : MinHeap)
    → IsHeap old s
    → ((x : ℕ) → is_in (s.idx x) ≡ true → new x ≡ old x)
    → IsHeap new s
unfolding greater
retimed-IsHeap old new s k alike = record {
  ordered = λ i pos inside.
      let above = alike (s.p (up i)) (ap is_in (k.known (up i) (omega arith))) in
      let here = alike (s.p i) (ap is_in (k.known i inside)) in
      rw (above, here) (k.ordered i pos inside);
  known = k.known;
  back = k.back;
  room = k.room;
}
