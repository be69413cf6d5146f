-- ===== src/EventBase/Linked.antt =====
-- When the io map of an event base lists just the inserted events of event.c, each once.
use practising.Base.{
  ℕ, suc, ◌-◌, ◌≡◌, refl, sym, ap, ◌∙◌, Bool, true, false, ◌&&◌, List, [], ◌∷◌, ◌++◌, ◌==◌,
  if◌then◌else◌, arith, Bool-cases, inl, inr, ==→≡,
}
use practising.Base.Int.{ℤ, pos, negsuc}
use practising.MinHeap.{put}
use practising.EvMap.{Event, Maps, is_listed, remove}
use practising.EvMap.Slots.{registered}
use practising.EventBase.{Assigned, EventBase, event_of}
use practising.EventBase.State.{one_if}

-- How often an event is in a list.
abbrev pub times_in : ℕ → List Event → ℕ
times_in x [] = 0
times_in x (e ∷ es) = if e.address == x then suc (times_in x es) else times_in x es

times_in-append :
    (x : ℕ) (es : List Event) (e : Event)
    → times_in x (es ++ e ∷ []) ≡ (if e.address == x then suc (times_in x es) else times_in x es)
times_in-append x [] e = refl
times_in-append x (y ∷ es) e = ground (arith, times_in-append x es e)

times_in-remove :
    (a x : ℕ) (es : List Event)
    → times_in x (remove a es) ≡ (if a == x then times_in x es - 1 else times_in x es)
unfolding remove
times_in-remove a x [] = ground arith
times_in-remove a x (y ∷ es) = elim (Bool-cases (y.address == a)) [
  | inl s ↦
      let same : (y.address == x) ≡ (a == x) = ap (λ (z : ℕ). z == x) (==→≡ y.address a s) in
      rw (s, same) (cut (a == x) (times_in x es))
  | inr n ↦ elim (Bool-cases (y.address == x)) [
    | inl t ↦
        let other : (a == x) ≡ false = ground (arith, n, t) in
        let rest = rw other at (times_in-remove a x es) in rw (n, t, other) (ap suc rest)
    | inr u ↦ rw (n, u) (times_in-remove a x es)
  ]
]
  where
    cut :
        (c : Bool) (t : ℕ)
        → t ≡ (if c then (if c then suc t else t) - 1 else (if c then suc t else t))
    cut c t = ground arith

none_in-unlisted : (x : ℕ) (es : List Event) → times_in x es ≡ 0 → is_listed x es ≡ false
none_in-unlisted x [] h = refl
none_in-unlisted x (y ∷ es) h = ground (arith, h, none_in-unlisted x es)

-- Whether an ev_fd is descriptor `j`.
abbrev pub is_fd : ℤ → ℕ → Bool
is_fd (negsuc _) j = false
is_fd (pos fd) j = fd == j

module _ (ev : ℕ → Assigned) {S : Type 0} where
  -- The io map lists the events of a set, each once and for its descriptor, and no others.
  abbrev pub Lists : (ℕ → Bool) → Maps S → Type 0
  Lists ins m = (j x : ℕ) → times_in x (registered m j) ≡ one_if (ins x && is_fd (ev x).ev_fd j)

  abbrev pub IsLinked : EventBase S → Type 0
  IsLinked b = Lists b.inserted b.io

  -- The event is in no list of the map for its descriptor.
  abbrev pub IsUnlinked : Maps S → ℕ → Type 0
  IsUnlinked m e = (fd : ℕ) → (ev e).ev_fd ≡ pos fd → is_listed e (registered m fd) ≡ false

  pub Lists-same :
      (ins : ℕ → Bool) (m r : Maps S)
      → ((j : ℕ) → registered r j ≡ registered m j)
      → Lists ins m
      → Lists ins r
  Lists-same ins m r same l j x = ap (times_in x) (same j) ∙ l j x

  pub Lists-alike :
      (ins new : ℕ → Bool) (m : Maps S) → ((x : ℕ) → new x ≡ ins x) → Lists ins m → Lists new m
  Lists-alike ins new m alike l j x =
      l j x ∙ ap (λ c. one_if (c && is_fd (ev x).ev_fd j)) (sym (alike x))

  pub IsLinked-same :
      (b r : EventBase S) → r.inserted ≡ b.inserted → r.io ≡ b.io → IsLinked b → IsLinked r
  IsLinked-same b r same_events same_io l =
      Lists-alike b.inserted r.inserted r.io (λ x. ap (λ f. f x) same_events)
        (Lists-same b.inserted b.io r.io (λ j. ap (λ m. registered m j) same_io) l)

  pub Lists-IsUnlinked :
      (ins : ℕ → Bool) (m : Maps S) (e : ℕ) → Lists ins m → ins e ≡ false → IsUnlinked m e
  Lists-IsUnlinked ins m e l out fd own =
      none_in-unlisted e (registered m fd) (l fd e ∙ rw out refl)

  -- The lists of a map where event `e` is put behind the others or removed.
  pub Lists-append :
      (ins : ℕ → Bool) (m r : Maps S) (e : ℕ)
      → Lists ins m
      → ins e ≡ false
      → ((j : ℕ)
          → registered r j ≡ (
              if is_fd (ev e).ev_fd j
              then registered m j ++ event_of ev e ∷ []
              else registered m j))
      → Lists (put ins e true) r
  Lists-append ins m r e l out lists j x = elim (Bool-cases (is_fd (ev e).ev_fd j)) [
    | inl here ↦
        let new : times_in x (registered r j)
            ≡ (if e == x then suc (times_in x (registered m j)) else times_in x (registered m j)) =
          ap (times_in x) (lists j)
          ∙ rw here (times_in-append x (registered m j) (event_of ev e)) in
        new ∙ elim (Bool-cases (e == x)) [
          | inl s ↦ rw (s, ← ==→≡ e x s, here, l j e, out) refl
          | inr n ↦ rw n (l j x)
        ]
    | inr away ↦
        let old : times_in x (registered r j) ≡ times_in x (registered m j) =
          ap (times_in x) (lists j) ∙ rw away refl in
        old ∙ elim (Bool-cases (e == x)) [
          | inl s ↦ rw (s, ← ==→≡ e x s, away, l j e, out) refl
          | inr n ↦ rw n (l j x)
        ]
  ]

  pub Lists-remove :
      (ins : ℕ → Bool) (m r : Maps S) (e : ℕ)
      → Lists ins m
      → ins e ≡ true
      → ((j : ℕ)
          → registered r j
            ≡ (if is_fd (ev e).ev_fd j then remove e (registered m j) else registered m j))
      → Lists (put ins e false) r
  Lists-remove ins m r e l on lists j x = elim (Bool-cases (is_fd (ev e).ev_fd j)) [
    | inl here ↦
        let new : times_in x (registered r j)
            ≡ (if e == x then times_in x (registered m j) - 1 else times_in x (registered m j)) =
          ap (times_in x) (lists j) ∙ rw here (times_in-remove e x (registered m j)) in
        new ∙ elim (Bool-cases (e == x)) [
          | inl s ↦ rw (s, ← ==→≡ e x s, l j e, on, here) refl
          | inr n ↦ rw n (l j x)
        ]
    | inr away ↦
        let old : times_in x (registered r j) ≡ times_in x (registered m j) =
          ap (times_in x) (lists j) ∙ rw away refl in
        old ∙ elim (Bool-cases (e == x)) [
          | inl s ↦ rw (s, ← ==→≡ e x s, l j e, on, away) refl
          | inr n ↦ rw n (l j x)
        ]
  ]
