-- ===== src/MinHeap/Holes.antt =====
-- What holds of the heap of minheap-internal.h while one of its slots is a hole.
use practising.Base.{
  ℕ, ◌-◌, ◌/◌, ◌≤◌, ◌<◌, ◌≡◌, ◌≢◌, refl, sym, Bool, true, false, Option, none, some, ◌==◌, arith,
  Bool-cases, inl, inr, ==→≡,
}
use practising.MinHeap.{MinHeap, place, greater}

pub some_inj : (i j : ℕ) → ◌≡◌ {A = Option ℕ} (some i) (some j) → i ≡ j
some_inj i j e = cc

-- The parent's slot.
abbrev pub up : ℕ → ℕ
up i = (i - 1) / 2

abbrev pub is_in : Option ℕ → Bool
is_in none = false
is_in (some i) = true

-- Every event in a slot but the hole knows its slot, and no event but `e` and `g` knows another. `e`
-- is on its way into the hole, and `g` is not in the heap.
pub record Indexed (s : MinHeap) (h e g : ℕ) : Type 0 where
  pub known : (i : ℕ) → i < s.n → i ≢ h → s.idx (s.p i) ≡ some i
  pub other : (i : ℕ) → i < s.n → i ≢ h → s.p i ≢ e
  pub gone : (i : ℕ) → i < s.n → i ≢ h → s.p i ≢ g
  pub back : (x i : ℕ) → x ≢ e → x ≢ g → s.idx x ≡ some i → (i < s.n) × (i ≢ h) × (s.p i ≡ x)

-- Moving the event of slot `q` into the hole makes `q` the hole, and no event comes or goes.
pub moved-Indexed :
    (s : MinHeap) (h q e g : ℕ)
    → h < s.n
    → q < s.n
    → q ≢ h
    → Indexed s h e g
    → Indexed (place s h (s.p q)) q e g
unfolding place
moved-Indexed s h q e g m l d x = record {
  known = λ i k m. ground (arith, x.known i k, x.known q l d, some_inj i q);
  other = λ i k m. ground (arith, x.other i k, x.other q l d);
  gone = λ i k m. ground (arith, x.gone i k, x.gone q l d);
  back = λ y i ne ng k. ground (arith, x.back y i ne ng, some_inj h i);
}

pub moved-is_in :
    (s : MinHeap) (h q e g x : ℕ)
    → q < s.n
    → q ≢ h
    → Indexed s h e g
    → is_in ((place s h (s.p q)).idx x) ≡ is_in (s.idx x)
unfolding place
moved-is_in s h q e g x l d k = elim (Bool-cases (s.p q == x)) [
  | inl same ↦ rw (same, sym (==→≡ (s.p q) x same), k.known q l d) refl
  | inr n ↦ rw n refl
]

-- Every event in a slot knows its slot, and no event but `g` knows another.
pub record Linked (s : MinHeap) (g : ℕ) : Type 0 where
  pub known : (i : ℕ) → i < s.n → s.idx (s.p i) ≡ some i
  pub back : (x i : ℕ) → x ≢ g → s.idx x ≡ some i → (i < s.n) × (s.p i ≡ x)

pub filled-Linked :
    (s : MinHeap) (h e g : ℕ) → Indexed s h e g → (e ≢ g → h < s.n) → Linked (place s h e) g
unfolding place
filled-Linked s h e g x slot = record {
  known = λ i k. ground (arith, x.known i k, x.other i k);
  back = λ y i ng k. ground (arith, x.back y i, slot, some_inj h i);
}

-- An event that is not the one put in the hole is still out of the heap.
pub filled_gone :
    (s : MinHeap) (h e g : ℕ)
    → Indexed s h e g
    → (e ≡ g → s.n ≤ h)
    → (i : ℕ) → i < s.n
    → (place s h e).p i ≢ g
unfolding place
filled_gone s h e g x out i k = ground (arith, x.gone i k, out)

module _ (ev_timeout : ℕ → ℕ × ℕ) where
  abbrev pub gt : ℕ → ℕ → Bool
  gt a b = greater ev_timeout a b

  pub greater_trans : (a b c : ℕ) → gt a b ≡ false → gt b c ≡ false → gt a c ≡ false
  unfolding greater
  greater_trans a b c h k = ground arith

  pub greater_irrefl : (a : ℕ) → gt a a ≡ false
  unfolding greater
  greater_irrefl a = ground arith

  pub greater_asym : (a b : ℕ) → gt a b ≡ true → gt b a ≡ false
  unfolding greater
  greater_asym a b h = ground arith

  abbrev pub Ordered : MinHeap → Type 0
  Ordered s = (i : ℕ) → 0 < i → i < s.n → gt (s.p (up i)) (s.p i) ≡ false

  -- The heap's order without the hole `h`, and across it.
  pub record Around (s : MinHeap) (h : ℕ) : Type 0 where
    pub apart : (i : ℕ) → 0 < i → i < s.n → i ≢ h → up i ≢ h → gt (s.p (up i)) (s.p i) ≡ false
    pub across : (i : ℕ) → 0 < i → i < s.n → 0 < h → up i ≡ h → gt (s.p (up h)) (s.p i) ≡ false

  abbrev pub Below : MinHeap → ℕ → ℕ → Type 0
  Below s h e = (i : ℕ) → 0 < i → i < s.n → up i ≡ h → gt e (s.p i) ≡ false

  pub filled-Ordered :
      (s : MinHeap) (h e : ℕ)
      → Around s h
      → (0 < h → gt (s.p (up h)) e ≡ false)
      → Below s h e
      → Ordered (place s h e)
  unfolding place
  filled-Ordered s h e x above below i pos k = ground (arith, x.apart i pos k, above, below i pos k)

  -- The event above the hole moves into it, where it is later than `e`.
  pub moved_up :
      (s : MinHeap) (h e : ℕ)
      → 0 < h
      → h < s.n
      → gt (s.p (up h)) e ≡ true
      → Around s h
      → Below s h e
      → Around (place s h (s.p (up h))) (up h) × Below (place s h (s.p (up h))) (up h) e
  unfolding place
  moved_up s h e pos l g x below =
      let early = greater_asym (s.p (up h)) e g in
      let top = x.apart (up h) in
      (
        record {
          apart = λ i z k m u. ground (arith, x.apart i z k, x.across i z k pos);
          across = λ i z k z' u.
              ground (
                arith,
                x.apart i z k,
                top z',
                greater_trans (s.p (up (up h))) (s.p (up h)) (s.p i),
              );
        },
        λ i z k u. ground (arith, early, x.apart i z k, greater_trans e (s.p (up h)) (s.p i)),
      )

  -- The earlier child `c` of the hole moves into it, where it is earlier than `e`.
  pub moved_down :
      (s : MinHeap) (h c e : ℕ)
      → 0 < c
      → c < s.n
      → up c ≡ h
      → Below s h (s.p c)
      → gt e (s.p c) ≡ true
      → Around s h
      → Around (place s h (s.p c)) c × (gt ((place s h (s.p c)).p (up c)) e ≡ false)
  unfolding place
  moved_down s h c e pos l u least g x = (
    record {
      apart = λ i z k m v. ground (arith, u, x.apart i z k, x.across c pos l, least i z k);
      across = λ i z k z' v. ground (arith, u, x.apart i z k);
    },
    ground (arith, u, greater_asym e (s.p c) g),
  )
