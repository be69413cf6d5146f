-- ===== src/MinHeap/Tests.antt =====
-- Runs of the functions of minheap-internal.h, and the theorems at concrete inputs.
use practising.Base.{
  ℕ, ◌*◌, ◌%◌, ◌≤◌, ◌≡◌, refl, Bool, true, false, Option, none, some, ◌⊎◌, ◌==◌, if◌then◌else◌,
  arith, [], ◌∷◌,
}
use practising.MinHeap.{
  MinHeap, put, place, forget, greater, pick_child, shift_up, shift_down, min_heap_reserve,
  push_reserved, min_heap_push, min_heap_pop, min_heap_top, erase_at, erase_slot, min_heap_erase,
  min_heap_ctor,
}
use practising.MinHeap.Holes.{is_in, some_inj, gt}
use practising.MinHeap.Heap.{IsHeap}
use practising.MinHeap.Removes.{Removed, min_heap_erase_removes, min_heap_pop_earliest}
use practising.MinHeap.Inserts.{min_heap_push_inserts}

-- Event `e` is due after (e * 7) % 10 seconds.
abbrev due : ℕ → ℕ × ℕ
due e = (e * 7 % 10, 0)

abbrev push : MinHeap → ℕ → MinHeap
push s e = (min_heap_push due (λ _. true) s e).1

abbrev pop : MinHeap → MinHeap
pop s = (min_heap_pop due s).1

-- Due after 7, 4, 1, 8 and 5 seconds.
abbrev five : MinHeap
five = push (push (push (push (push (min_heap_ctor (λ _. 0) (λ _. none)) 1) 2) 3) 4) 5

abbrev first : MinHeap → Option ℕ
first s = (min_heap_pop due s).0

pops_in_order :
    first five ∷ first (pop five) ∷ first (pop (pop five)) ∷ first (pop (pop (pop five))) ∷ []
    ≡ some 3 ∷ some 2 ∷ some 5 ∷ some 1 ∷ []
unfolding min_heap_ctor min_heap_push push_reserved min_heap_reserve shift_up place greater
    min_heap_pop forget shift_down pick_child min_heap_erase erase_slot erase_at
pops_in_order = refl

pops_after_erase : first (min_heap_erase due (pop five) 2).1 ≡ some 5
unfolding min_heap_ctor min_heap_push push_reserved min_heap_reserve shift_up place greater
    min_heap_pop forget shift_down pick_child min_heap_erase erase_slot erase_at
pops_after_erase = refl

-- Events 2 and 1, due after 4 and 7 seconds.
abbrev pair : MinHeap
pair = record {
  p = put (put (λ _. 0) 0 2) 1 1;
  n = 2;
  a = 8;
  idx = put (put (λ _. none) 2 (some 0)) 1 (some 1);
}

pair-IsHeap : IsHeap due pair
unfolding greater
pair-IsHeap = record {
  ordered = λ i z k. ground arith;
  known = λ i k. ground arith;
  back = λ x i q. ground (arith, q, some_inj 0 i, some_inj 1 i);
  room = omega arith;
}

min_heap_push_inserts_example :
    (((min_heap_push due (λ _. true) pair 3).0 ≡ true)
      × IsHeap due (min_heap_push due (λ _. true) pair 3).1
      × ((min_heap_push due (λ _. true) pair 3).1.n ≡ 3)
      × ((x : ℕ)
          → is_in ((min_heap_push due (λ _. true) pair 3).1.idx x)
            ≡ (if 3 == x then true else is_in (pair.idx x))))
    ⊎ ((min_heap_push due (λ _. true) pair 3 ≡ (false, pair))
        × (8 ≤ 2)
        × ((bytes : ℕ) × (◌≡◌ {A = Bool} true false)))
min_heap_push_inserts_example =
    min_heap_push_inserts due (λ _. true) pair 3 pair-IsHeap refl (omega arith)

min_heap_erase_removes_example :
    ((◌≡◌ {A = Bool} true true)
      × ((min_heap_erase due pair 2).0 ≡ true)
      × Removed due pair (min_heap_erase due pair 2).1 2)
    ⊎ ((◌≡◌ {A = Bool} true false) × (min_heap_erase due pair 2 ≡ (false, pair)))
min_heap_erase_removes_example = min_heap_erase_removes due pair 2 pair-IsHeap

min_heap_pop_earliest_example :
    (e : ℕ) × (min_heap_top pair ≡ some e)
    × ((min_heap_pop due pair).0 ≡ some e)
    × (is_in (pair.idx e) ≡ true)
    × ((x : ℕ) → is_in (pair.idx x) ≡ true → gt due e x ≡ false)
    × Removed due pair (min_heap_pop due pair).1 e
min_heap_pop_earliest_example = min_heap_pop_earliest due pair pair-IsHeap (omega arith)
