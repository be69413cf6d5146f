-- ===== src/MinHeap/Shifts.antt =====
-- What min_heap_shift_up_ and min_heap_shift_down_ of minheap-internal.h leave behind.
use practising.Base.{
  ℕ, zero, suc, ◌+◌, ◌-◌, ◌*◌, ◌≤◌, ◌<◌, ◌≡◌, ◌≢◌, refl, ◌∙◌, true, false, not, ◌&&◌, some, ◌==◌,
  leb, arith, Bool-cases, inl, inr, ==→≡, ==→≢,
}
use practising.MinHeap.{MinHeap, place, pick_child, shift_up, shift_down}
use practising.MinHeap.Holes.{
  up, is_in, some_inj, Indexed, moved-Indexed, moved-is_in, Linked, filled-Linked, filled_gone, gt,
  greater_irrefl, greater_trans, greater_asym, Ordered, Around, Below, filled-Ordered, moved_up,
  moved_down,
}

module _ (ev_timeout : ℕ → ℕ × ℕ) where
  -- `s` with the hole `h` has become the heap `r` with `e` in it.
  pub record Shifted (s r : MinHeap) (h e g : ℕ) : Type 0 where
    pub size : r.n ≡ s.n
    pub space : r.a ≡ s.a
    pub ordered : Ordered ev_timeout r
    pub linked : Linked r g
    pub gone : (e ≡ g → s.n ≤ h) → (i : ℕ) → i < s.n → r.p i ≢ g
    pub same_in : (x : ℕ) → x ≢ e → is_in (r.idx x) ≡ is_in (s.idx x)
    pub found : (i : ℕ) → h < s.n → r.idx e ≡ some i → (i < r.n) × (r.p i ≡ e)
    pub placed : is_in (r.idx e) ≡ true

  filled-Shifted :
      (s : MinHeap) (h e g : ℕ)
      → Around ev_timeout s h
      → (0 < h → gt ev_timeout (s.p (up h)) e ≡ false)
      → Below ev_timeout s h e
      → Indexed s h e g
      → (e ≢ g → h < s.n)
      → Shifted s (place s h e) h e g
  unfolding place
  filled-Shifted s h e g x above below k slot = record {
    size = refl;
    space = refl;
    ordered = filled-Ordered ev_timeout s h e x above below;
    linked = filled-Linked s h e g k slot;
    gone = filled_gone s h e g k;
    same_in = λ y n. ground arith;
    found = λ i m q. ground (arith, q, some_inj h i);
    placed = ground arith;
  }

  moved-Shifted :
      (s r : MinHeap) (h q e g : ℕ)
      → h < s.n
      → q < s.n
      → q ≢ h
      → Indexed s h e g
      → Shifted (place s h (s.p q)) r q e g
      → Shifted s r h e g
  unfolding place
  moved-Shifted s r h q e g m l d k x = record {
    size = x.size;
    space = x.space;
    ordered = x.ordered;
    linked = x.linked;
    gone = λ out. x.gone (λ same. absurd (omega (arith, out same)));
    same_in = λ y n. x.same_in y n ∙ moved-is_in s h q e g y l d k;
    found = λ i _ q. x.found i l q;
    placed = x.placed;
  }

  same_size : (s : MinHeap) (i e : ℕ) → (place s i e).n ≡ s.n
  unfolding place
  same_size s i e = refl

  pub shift_up-Shifted :
      (fuel : ℕ) (s : MinHeap) (h e g : ℕ)
      → h ≤ fuel
      → h < s.n
      → Around ev_timeout s h
      → Below ev_timeout s h e
      → Indexed s h e g
      → Shifted s (shift_up ev_timeout fuel s h e) h e g
  unfolding shift_up
  shift_up-Shifted zero s h e g f l x below k =
      filled-Shifted s h e g x (λ pos. absurd (omega arith)) below k (λ _. l)
  shift_up-Shifted (suc fuel) s h e g f l x below k =
      elim (Bool-cases (not (h == 0) && gt ev_timeout (s.p (up h)) e)) [
        | inl go ↦
            let pos : 0 < h = ground (arith, go) in
            let later : gt ev_timeout (s.p (up h)) e ≡ true = ground (arith, go) in
            let apart : up h ≢ h = omega arith in
            let (around, under) = moved_up ev_timeout s h e pos l later x below in
            let there = moved-Indexed s h (up h) e g l (omega arith) apart k in
            let size : (place s h (s.p (up h))).n ≡ s.n = same_size s h (s.p (up h)) in
            rw go (
              moved-Shifted s _ h (up h) e g l (omega arith) apart k (
                shift_up-Shifted fuel _ (up h) e g (omega arith) (omega (arith, size)) around under
                  there))
        | inr stop ↦
            rw stop (filled-Shifted s h e g x (λ pos. ground (arith, stop)) below k (λ _. l))
      ]

  -- The child that the loop goes by is one, and no child is earlier.
  pick_child-Below :
      (s : MinHeap) (h : ℕ)
      → 2 * (h + 1) ≤ s.n
      → (0 < pick_child ev_timeout s (2 * (h + 1)))
        × (pick_child ev_timeout s (2 * (h + 1)) < s.n)
        × (up (pick_child ev_timeout s (2 * (h + 1))) ≡ h)
        × Below ev_timeout s h (s.p (pick_child ev_timeout s (2 * (h + 1))))
  unfolding pick_child
  pick_child-Below s h l = (ground arith, ground arith, ground arith, λ i pos k u. least i pos k u)
    where
      least :
          (i : ℕ)
          → 0 < i
          → i < s.n
          → up i ≡ h
          → gt ev_timeout (s.p (pick_child ev_timeout s (2 * (h + 1)))) (s.p i) ≡ false
      least i pos k u =
          let a = s.p (2 * (h + 1)) in
          let b = s.p (2 * (h + 1) - 1) in
          let both = greater_asym ev_timeout a b in
          elim (Bool-cases (i == 2 * (h + 1))) [
            | inl e ↦
                rw (==→≡ i (2 * (h + 1)) e)
                  (ground (arith, both, ==→≡ i (2 * (h + 1)) e, greater_irrefl ev_timeout a))
            | inr n ↦
                let left : i ≡ 2 * (h + 1) - 1 = omega (arith, ==→≢ i (2 * (h + 1)) n) in
                rw left (ground (arith, greater_irrefl ev_timeout b))
          ]

  -- Where the loop ends, no child is earlier than `e`.
  stopped-Below :
      (s : MinHeap) (h e : ℕ)
      → (leb (2 * (h + 1)) s.n && gt ev_timeout e (s.p (pick_child ev_timeout s (2 * (h + 1)))))
        ≡ false
      → Below ev_timeout s h e
  stopped-Below s h e stop i pos k u =
      let c = s.p (pick_child ev_timeout s (2 * (h + 1))) in
      let room : 2 * (h + 1) ≤ s.n = omega (arith, u) in
      let (_, _, _, least) = pick_child-Below s h room in
      let first : gt ev_timeout e c ≡ false = ground (arith, stop, room) in
      greater_trans ev_timeout e c (s.p i) first (least i pos k u)

  pub shift_down-Shifted :
      (fuel : ℕ) (s : MinHeap) (h e g : ℕ)
      → s.n ≤ h + fuel
      → Around ev_timeout s h
      → (0 < h → gt ev_timeout (s.p (up h)) e ≡ false)
      → Indexed s h e g
      → (e ≢ g → h < s.n)
      → Shifted s (shift_down ev_timeout fuel s h e) h e g
  unfolding shift_down
  shift_down-Shifted zero s h e g f x above k slot =
      filled-Shifted s h e g x above (λ i pos m u. absurd (omega arith)) k slot
  shift_down-Shifted (suc fuel) s h e g f x above k slot =
      let c = pick_child ev_timeout s (2 * (h + 1)) in
      elim (Bool-cases (leb (2 * (h + 1)) s.n && gt ev_timeout e (s.p c))) [
        | inl go ↦
            let room : 2 * (h + 1) ≤ s.n = ground (arith, go) in
            let (pos, inside, child, least) = pick_child-Below s h room in
            let later : gt ev_timeout e (s.p c) ≡ true = ground (arith, go) in
            let (around, over) = moved_down ev_timeout s h c e pos inside child least later x in
            let there = moved-Indexed s h c e g (omega arith) inside (omega arith) k in
            let size : (place s h (s.p c)).n ≡ s.n = same_size s h (s.p c) in
            rw go (
              moved-Shifted s _ h c e g (omega arith) inside (omega arith) k (
                shift_down-Shifted fuel _ c e g (omega (arith, size)) around (λ _. over) there
                  (λ _. omega (arith, size))))
        | inr stop ↦ rw stop (filled-Shifted s h e g x above (stopped-Below s h e stop) k slot)
      ]
