-- ===== src/MinHeap/Removes.antt =====
-- min_heap_pop and min_heap_erase of minheap-internal.h take one event out of a heap.
use practising.Base.{
  ℕ, ◌+◌, ◌-◌, ◌≤◌, ◌<◌, ◌≡◌, ◌≢◌, refl, sym, ap, ◌∙◌, true, false, ◌&&◌, Option, none, some, ◌==◌,
  ltb, if◌then◌else◌, arith, Bool-cases, inl, inr, ==→≡, ==→≢, ◌⊎◌,
}
use practising.MinHeap.{
  MinHeap, forget, min_heap_pop, min_heap_top, erase_at, min_heap_erase, erase_slot,
}
use practising.MinHeap.Holes.{
  up, is_in, some_inj, Indexed, gt, greater_trans, greater_asym, Around, Below,
}
use practising.MinHeap.Shifts.{Shifted, shift_up-Shifted, shift_down-Shifted}
use practising.MinHeap.Heap.{IsHeap, top_least}

module _ (ev_timeout : ℕ → ℕ × ℕ) where
  -- The heap without its last slot.
  fewer : MinHeap → MinHeap
  fewer s = record s { n = s.n - 1 }

  one_slot :
      (s : MinHeap) (i j : ℕ) → IsHeap ev_timeout s → i < s.n → j < s.n → s.p i ≡ s.p j → i ≡ j
  one_slot s i j k l m e = ground (arith, k.known i l, k.known j m, some_inj i j)

  fewer-Indexed :
      (s : MinHeap) (i : ℕ)
      → IsHeap ev_timeout s
      → i < s.n
      → Indexed (fewer s) i (s.p (s.n - 1)) (s.p i)
  unfolding fewer
  fewer-Indexed s i k l = record {
    known = λ j m n. k.known j (omega arith);
    other =
        λ j m n e. absurd (omega (arith, one_slot s j (s.n - 1) k (omega arith) (omega arith) e));
    gone = λ j m n e. n (one_slot s j i k (omega arith) l e);
    back = λ x j nl ng e.
        let (inside, here) = k.back x j e in
        let not_last : j ≢ s.n - 1 = λ q. nl (sym here ∙ ap s.p q) in
        (omega arith, (λ q. ng (sym here ∙ ap s.p q)), here);
  }

  fewer-Around :
      (s : MinHeap) (i : ℕ) → IsHeap ev_timeout s → i < s.n → Around ev_timeout (fewer s) i
  unfolding fewer
  fewer-Around s i k l = record {
    apart = λ j z m n u. k.ordered j z (omega arith);
    across = λ j z m pos u.
        greater_trans ev_timeout (s.p (up i)) (s.p i) (s.p j) (k.ordered i pos l)
          (ground (arith, u, k.ordered j z));
  }

  -- The last event, where it is earlier than the parent of slot `i`.
  fewer-Below :
      (s : MinHeap) (i : ℕ)
      → IsHeap ev_timeout s
      → 0 < i
      → i < s.n
      → gt ev_timeout (s.p (up i)) (s.p (s.n - 1)) ≡ true
      → Below ev_timeout (fewer s) i (s.p (s.n - 1))
  unfolding fewer
  fewer-Below s i k pos l early j z m u =
      greater_trans ev_timeout (s.p (s.n - 1)) (s.p (up i)) (s.p j)
        (greater_asym ev_timeout (s.p (up i)) (s.p (s.n - 1)) early)
        ((fewer-Around s i k l).across j z m pos u)

  -- Slot `i` is not the last one, where the last event is earlier than the parent of slot `i`.
  early_inside :
      (s : MinHeap) (i : ℕ)
      → IsHeap ev_timeout s
      → 0 < i
      → i < s.n
      → gt ev_timeout (s.p (up i)) (s.p (s.n - 1)) ≡ true
      → i < s.n - 1
  early_inside s i k pos l early = ground (arith, k.ordered i pos l, early)

  erase_at-Shifted :
      (s : MinHeap) (i : ℕ)
      → IsHeap ev_timeout s
      → i < s.n
      → Shifted ev_timeout (fewer s) (erase_at ev_timeout s i) i (s.p (s.n - 1)) (s.p i)
  unfolding fewer erase_at
  erase_at-Shifted s i k l =
      let last = s.p (s.n - 1) in
      let around = fewer-Around s i k l in
      let indexed = fewer-Indexed s i k l in
      elim (Bool-cases (ltb 0 i && gt ev_timeout (s.p (up i)) last)) [
        | inl go ↦
            let pos : 0 < i = ground (arith, go) in
            let early : gt ev_timeout (s.p (up i)) last ≡ true = ground (arith, go) in
            rw go (
              shift_up-Shifted ev_timeout i (fewer s) i last (s.p i) (omega arith)
                (early_inside s i k pos l early) around (fewer-Below s i k pos l early) indexed)
        | inr stop ↦ rw stop (
            shift_down-Shifted ev_timeout (s.n - 1) (fewer s) i last (s.p i) (omega arith) around
              (λ pos. ground (arith, stop, pos)) indexed (λ n. ground (arith, n)))
      ]

  -- What taking the event `e` out leaves.
  pub record Removed (s r : MinHeap) (e : ℕ) : Type 0 where
    pub heap : IsHeap ev_timeout r
    pub size : r.n + 1 ≡ s.n
    pub space : r.a ≡ s.a
    pub others : (x : ℕ) → is_in (r.idx x) ≡ (if e == x then false else is_in (s.idx x))

  last_out :
      (s : MinHeap) (i : ℕ) → IsHeap ev_timeout s → i < s.n → s.p (s.n - 1) ≡ s.p i → s.n - 1 ≤ i
  last_out s i k l e = omega (arith, one_slot s (s.n - 1) i k (omega arith) l e)

  forgotten-Removed :
      (s r : MinHeap) (i : ℕ)
      → IsHeap ev_timeout s
      → i < s.n
      → Shifted ev_timeout (fewer s) r i (s.p (s.n - 1)) (s.p i)
      → Removed s (forget r (s.p i)) (s.p i)
  unfolding fewer forget
  forgotten-Removed s r i k l x = record {
    heap = record {
      ordered = x.ordered;
      known = λ j m. ground (arith, x.gone (last_out s i k l) j, x.linked.known j, x.size);
      back = λ y j e. ground (arith, x.linked.back y j, x.size);
      room = omega (arith, x.size, x.space, k.room);
    };
    size = omega (arith, x.size);
    space = x.space;
    others = λ y. elim (Bool-cases (s.p i == y)) [
      | inl e ↦ rw e refl
      | inr n ↦ rw n (elim (Bool-cases (s.p (s.n - 1) == y)) [
        | inl e ↦
            let q = ==→≡ (s.p (s.n - 1)) y e in
            ap (λ (t : ℕ). is_in (r.idx t)) (sym q)
            ∙ x.placed
            ∙ sym (ap is_in (k.known (s.n - 1) (omega arith)))
            ∙ ap (λ (t : ℕ). is_in (s.idx t)) q
        | inr m ↦ x.same_in y (λ q. ==→≢ (s.p (s.n - 1)) y m (sym q))
      ])
    ];
  }

  -- min_heap_erase on a heap: of an event in it, it succeeds, and the heap without that event is
  -- left, which is a heap again. Of any other event it fails, with no change.
  pub min_heap_erase_removes :
      (s : MinHeap) (e : ℕ)
      → IsHeap ev_timeout s
      → ((is_in (s.idx e) ≡ true)
          × ((min_heap_erase ev_timeout s e).0 ≡ true)
          × Removed s (min_heap_erase ev_timeout s e).1 e)
        ⊎ ((is_in (s.idx e) ≡ false) × (min_heap_erase ev_timeout s e ≡ (false, s)))
  unfolding min_heap_erase erase_slot
  min_heap_erase_removes s e k = at (s.idx e) refl
    where
      at :
          (o : Option ℕ)
          → s.idx e ≡ o
          → ((is_in (s.idx e) ≡ true)
              × ((min_heap_erase ev_timeout s e).0 ≡ true)
              × Removed s (min_heap_erase ev_timeout s e).1 e)
            ⊎ ((is_in (s.idx e) ≡ false) × (min_heap_erase ev_timeout s e ≡ (false, s)))
      at none o = rw o (inr (refl, refl))
      at (some i) o =
          let (inside, here) = k.back e i o in
          let out = forgotten-Removed s _ i k inside (erase_at-Shifted s i k inside) in
          rw o (inl (refl, refl, rw (sym here) out))

  -- min_heap_pop on a heap that is not empty gives an event that no event of the heap is earlier
  -- than, the one of min_heap_top, and leaves the heap without it, which is a heap again.
  pub min_heap_pop_earliest :
      (s : MinHeap)
      → IsHeap ev_timeout s
      → 0 < s.n
      → (e : ℕ) × (min_heap_top s ≡ some e)
        × ((min_heap_pop ev_timeout s).0 ≡ some e)
        × (is_in (s.idx e) ≡ true)
        × ((x : ℕ) → is_in (s.idx x) ≡ true → gt ev_timeout e x ≡ false)
        × Removed s (min_heap_pop ev_timeout s).1 e
  unfolding min_heap_pop min_heap_top fewer erase_at
  min_heap_pop_earliest s k pos = (
    s.p 0,
    ground (arith, pos),
    ground (arith, pos),
    ap is_in (k.known 0 pos),
    (λ x m. earliest x m (s.idx x) refl),
    rw (notempty) (forgotten-Removed s _ 0 k pos (erase_at-Shifted s 0 k pos)),
  )
    where
      earliest :
          (x : ℕ)
          → is_in (s.idx x) ≡ true
          → (o : Option ℕ) → s.idx x ≡ o
          → gt ev_timeout (s.p 0) x ≡ false
      earliest x m none o = absurd (ground (arith, m, o))
      earliest x m (some i) o =
          let (inside, here) = k.back x i o in
          ground (arith, here, top_least ev_timeout s i i k (omega arith) inside)

      notempty : (s.n == 0) ≡ false
      notempty = ground (arith, pos)
