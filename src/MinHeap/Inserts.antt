-- ===== src/MinHeap/Inserts.antt =====
-- min_heap_push of minheap-internal.h puts one event into a heap.
use practising.Base.{
  ℕ, ◌+◌, ◌*◌, ◌%◌, ◌^◌, ◌≤◌, ◌<◌, ◌≡◌, ◌≢◌, refl, sym, ap, ◌∙◌, Bool, true, false, none, some,
  ◌==◌, ltb, if◌then◌else◌, arith, Bool-cases, inl, inr, ==→≡, ==→≢, ◌⊎◌,
}
use native.Mathlib.Nat.{mod-eq_of_lt}
use practising.MinHeap.{MinHeap, shift_up, min_heap_reserve, min_heap_push, push_reserved}
use practising.MinHeap.Holes.{is_in}
use practising.MinHeap.Shifts.{Shifted, shift_up-Shifted}
use practising.MinHeap.Heap.{IsHeap}

module _ (ev_timeout : ℕ → ℕ × ℕ) where
  -- min_heap_reserve makes room or fails with mm_realloc, and changes nothing else.
  pub min_heap_reserve_room :
      (realloc : ℕ → Bool) (s : MinHeap) (n : ℕ)
      → ((min_heap_reserve realloc s n ≡ none)
          × (s.a < n)
          × ((bytes : ℕ) × (realloc bytes ≡ false)))
        ⊎ ((a : ℕ) × (min_heap_reserve realloc s n ≡ some (record s { a = a })) × (n ≤ a))
  unfolding min_heap_reserve
  min_heap_reserve_room realloc s n =
      let doubled = if s.a == 0 then 8 else s.a * 2 % 2 ^ 32 in
      let a = if ltb doubled n then n else doubled in
      elim (Bool-cases (ltb s.a n)) [
        | inl small ↦ elim (Bool-cases (realloc (a * 8))) [
          | inl got ↦ rw (small, got) (inr (a, refl, ground arith))
          | inr lost ↦ rw (small, lost) (inl (refl, ground (arith, small), (a * 8, lost)))
        ]
        | inr large ↦ rw large (inr (s.a, refl, ground (arith, large)))
      ]

  pushed :
      (s : MinHeap) (a e : ℕ)
      → IsHeap ev_timeout s
      → is_in (s.idx e) ≡ false
      → s.n + 1 ≤ a
      → Shifted ev_timeout
          (record s { n = s.n + 1; a = a })
          (shift_up ev_timeout s.n (record s { n = s.n + 1; a = a }) s.n e)
          s.n
          e
          e
  pushed s a e k new room =
      shift_up-Shifted ev_timeout s.n _ s.n e e (omega arith) (omega arith)
        (record {
          apart = λ i z m n u. k.ordered i z (omega arith);
          across = λ i z m pos u. absurd (omega (arith, u));
        })
        (λ i z m u. absurd (omega (arith, u)))
        (record {
          known = λ i m n. k.known i (omega arith);
          other = λ i m n. not_in i (omega arith);
          gone = λ i m n. not_in i (omega arith);
          back = λ x i n m q. ground (arith, k.back x i);
        })
    where
      not_in : (i : ℕ) → i < s.n → s.p i ≢ e
      not_in i m q = ground (arith, new, k.known i m, q)

  pushed-IsHeap :
      (s r : MinHeap) (a e : ℕ)
      → IsHeap ev_timeout s
      → s.n + 1 ≤ a
      → Shifted ev_timeout (record s { n = s.n + 1; a = a }) r s.n e e
      → IsHeap ev_timeout r
  pushed-IsHeap s r a e k room x = record {
    ordered = x.ordered;
    known = x.linked.known;
    back = λ y i q. elim (Bool-cases (y == e)) [
      | inl same ↦
          let is_e = ==→≡ y e same in
          let (inside, here) = x.found i (omega arith) (ap r.idx (sym is_e) ∙ q) in
          (inside, here ∙ sym is_e)
      | inr n ↦ x.linked.back y i (==→≢ y e n) q
    ];
    room = omega (arith, x.size, x.space, room);
  }

  pushed_others :
      (s r : MinHeap) (a e : ℕ)
      → s.n + 1 ≤ a
      → Shifted ev_timeout (record s { n = s.n + 1; a = a }) r s.n e e
      → (y : ℕ) → is_in (r.idx y) ≡ (if e == y then true else is_in (s.idx y))
  pushed_others s r a e room x y = elim (Bool-cases (e == y)) [
    | inl same ↦ rw same (ap (λ (t : ℕ). is_in (r.idx t)) (sym (==→≡ e y same)) ∙ x.placed)
    | inr n ↦ rw n (x.same_in y (λ q. ==→≢ e y n (sym q)))
  ]

  -- min_heap_push on a heap, of an event that is not in it, with fewer than 2 ^ 32 events after it:
  -- either it succeeds, and leaves a heap of the old events and the new one, or there was no room,
  -- mm_realloc fails for some size, and the call fails and changes nothing.
  pub min_heap_push_inserts :
      (realloc : ℕ → Bool) (s : MinHeap) (e : ℕ)
      → IsHeap ev_timeout s
      → is_in (s.idx e) ≡ false
      → s.n + 1 < 2 ^ 32
      → (((min_heap_push ev_timeout realloc s e).0 ≡ true)
          × IsHeap ev_timeout (min_heap_push ev_timeout realloc s e).1
          × ((min_heap_push ev_timeout realloc s e).1.n ≡ s.n + 1)
          × ((x : ℕ)
              → is_in ((min_heap_push ev_timeout realloc s e).1.idx x)
                ≡ (if e == x then true else is_in (s.idx x))))
        ⊎ ((min_heap_push ev_timeout realloc s e ≡ (false, s))
            × (s.a ≤ s.n)
            × ((bytes : ℕ) × (realloc bytes ≡ false)))
  unfolding min_heap_push push_reserved
  min_heap_push_inserts realloc s e k new small =
      let same : (s.n + 1) % 2 ^ 32 ≡ s.n + 1 = mod-eq_of_lt small in
      elim (min_heap_reserve_room realloc s (s.n + 1)) [
        | inl (none_left, full, lost) ↦ rw (same, none_left) (inr (refl, omega arith, lost))
        | inr (a, got, room) ↦
            let x = pushed s a e k new room in
            rw (same, got, same)
              (inl (refl, pushed-IsHeap s _ a e k room x, x.size, pushed_others s _ a e room x))
      ]
