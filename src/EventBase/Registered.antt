-- ===== src/EventBase/Registered.antt =====
-- What evmap_io_add and evmap_io_del keep of the events that wait in an io map, as event.c calls them.
use mathlib.Core.Path.{subst}
use practising.Base.{
  ℕ, ◌^◌, ◌<◌, ◌≡◌, ◌≢◌, refl, sym, ap, ◌∙◌, Bool, true, false, ◌&&◌, some, List, [], ◌∷◌, ◌++◌,
  ◌==◌, arith, Bool-cases, Option-cases, none, length, get_or, if◌then◌else◌, inl, inr, ==→≡, All,
  All-append,
}
use practising.Base.Int.{ℤ, pos, negsuc}
use practising.EvMap.Backend.{Eventop}
use practising.EvMap.{
  Event, Maps, Status, failed, same, changed, corrupt, remove, add_fd, del_fd, evmap_io_add,
  evmap_io_del,
}
use practising.EvMap.Slots.{registered, is_ok, Outcome}
use practising.EvMap.Registers.{evmap_io_add_registers}
use practising.EvMap.Dels.{first_at, get_or_inside, evmap_io_del_removes}
use practising.EventBase.{Assigned, event_of}
use practising.EvMap.Adds.{Tells}
use practising.EvMap.Refusals.{RefusesNoDel, evmap_io_del-IsDone}
use practising.EventBase.Linked.{is_fd, IsUnlinked}
use practising.EventBase.State.{IsWaitingAt, IsGenuine}

first_at-remove : (l : List Event) (a x : ℕ) → a ≢ x → first_at x (remove a l) ≡ first_at x l
unfolding remove
first_at-remove [] a x n = refl
first_at-remove (y ∷ l) a x n = elim (Bool-cases (y.address == a)) [
  | inl s ↦
      let other : (y.address == x) ≡ false = ground (arith, ==→≡ y.address a s, n) in
      rw (s, other) refl
  | inr m ↦ rw m (elim (Bool-cases (y.address == x)) [
    | inl s ↦ rw s refl
    | inr k ↦ rw k (first_at-remove l a x n)
  ])
]

first_at-append :
    (l : List Event) (x : ℕ) (y z : Event)
    → first_at x l ≡ some z
    → first_at x (l ++ y ∷ []) ≡ some z
first_at-append [] x y z h = absurd (cc)
first_at-append (w ∷ l) x y z h = elim (Bool-cases (w.address == x)) [
  | inl s ↦ rw s (rw s at h)
  | inr m ↦ rw m (first_at-append l x y z (rw m at h))
]

swap : (b c : Bool) (x y : List Event) → (if b && c then x else y) ≡ (if c && b then x else y)
swap true true x y = refl
swap true false x y = refl
swap false true x y = refl
swap false false x y = refl

off : (c : Bool) (x y : List Event) → y ≡ (if c && false then x else y)
off true x y = refl
off false x y = refl

listed_at :
    (l : ℕ → List Event) (fd j : ℕ) (ok : Bool) (f : List Event → List Event)
    → (if fd == j && ok then f (l fd) else l j) ≡ (if ok && fd == j then f (l j) else l j)
listed_at l fd j ok f = elim (Bool-cases (fd == j)) [
  | inl s ↦ rw (← ==→≡ fd j s) (swap (fd == fd) ok (f (l fd)) (l fd))
  | inr n ↦ rw n (off ok (f (l j)) (l j))
]

abbrev pub is_corrupt : Status → Bool
is_corrupt corrupt = true
is_corrupt _ = false

module _ (ev : ℕ → Assigned) where
  -- Where only the events themselves are listed, one that is put behind is found.
  first_at-own :
      (l : List Event) (e : ℕ)
      → All (IsGenuine ev) l
      → first_at e (l ++ event_of ev e ∷ []) ≡ some (event_of ev e)
  first_at-own [] e g = ground arith
  first_at-own (w ∷ l) e (k, g) = elim (Bool-cases (w.address == e)) [
    | inl s ↦ rw s (ap some (k ∙ ap (event_of ev) (==→≡ w.address e s)))
    | inr m ↦ rw m (first_at-own l e g)
  ]

  All-remove : (l : List Event) (a : ℕ) → All (IsGenuine ev) l → All (IsGenuine ev) (remove a l)
  unfolding remove
  All-remove [] a g = g
  All-remove (w ∷ l) a (k, g) = elim (Bool-cases (w.address == a)) [
    | inl s ↦ rw s g
    | inr m ↦ rw m (k, All-remove l a g)
  ]

  module _ (op : Eventop) where
    pub record Kept (m r : Maps op.State) (e : ℕ) : Type 0 where
      pub maps : practising.EvMap.Slots.Valid op r
      pub genuine : (j : ℕ) → All (IsGenuine ev) (registered r j)
      pub others : (x : ℕ) (z : ℤ) → e ≢ x → IsWaitingAt ev m x z → IsWaitingAt ev r x z

    kept :
        (m : Maps op.State) (e : ℕ)
        → practising.EvMap.Slots.Valid op m
        → ((j : ℕ) → All (IsGenuine ev) (registered m j))
        → Kept m m e
    kept m e v g = record { maps = v; genuine = g; others = λ x z n h. h }

    -- Of an outcome that gives descriptor `fd` a list that keeps the other events.
    Outcome-Kept :
        (m r : Maps op.State) (st : Status) (fd e : ℕ) (es : List Event)
        → ((j : ℕ) → All (IsGenuine ev) (registered m j))
        → Outcome op m r st fd es
        → All (IsGenuine ev) es
        → ((x : ℕ) (y : Event)
            → e ≢ x
            → first_at x (registered m fd) ≡ some y
            → first_at x es ≡ some y)
        → Kept m r e
    Outcome-Kept m r st fd e es g o ges keeps = record {
      maps = o.valid;
      genuine = λ j. elim (Bool-cases (fd == j && is_ok st)) [
        | inl s ↦ subst (All (IsGenuine ev)) (sym (o.events j ∙ rw s refl)) ges
        | inr n ↦ subst (All (IsGenuine ev)) (sym (o.events j ∙ rw n refl)) (g j)
      ];
      others = still;
    }
      where
        still : (x : ℕ) (z : ℤ) → e ≢ x → IsWaitingAt ev m x z → IsWaitingAt ev r x z
        still x (negsuc _) n h = tt
        still x (pos j) n h = elim (Bool-cases (fd == j && is_ok st)) [
          | inl s ↦
              let here : fd ≡ j = ==→≡ fd j (ground (arith, s)) in
              rw (o.events j, s) (keeps x _ n (rw (sym here) at h))
          | inr k ↦ rw (o.events j, k) h
        ]

    module _ (m : Maps op.State) (e : ℕ) (v : practising.EvMap.Slots.Valid op m)
        (g : (j : ℕ) → All (IsGenuine ev) (registered m j)) where
      room : (fd : ℕ) → IsWaitingAt ev m e (pos fd) → fd < length m.io
      room fd w = elim (Option-cases (get_or m.io fd none)) [
        | inl empty ↦ absurd (cc (rw empty at w))
        | inr (ctx, there) ↦ get_or_inside m.io fd ctx there
      ]

      pub evmap_io_del-Kept :
          IsWaitingAt ev m e (ev e).ev_fd
          → (st : Status) × (r : Maps op.State) × (evmap_io_del op m (event_of ev e) ≡ some (st, r))
            × Kept m r e
            × ((j : ℕ)
                → registered r j ≡ (
                    if is_ok st && is_fd (ev e).ev_fd j
                    then remove e (registered m j)
                    else registered m j))
            × (RefusesNoDel op → is_ok st ≡ true)
      unfolding evmap_io_del del_fd
      evmap_io_del-Kept waits = at (ev e).ev_fd refl waits
        where
          at :
              (z : ℤ)
              → (ev e).ev_fd ≡ z
              → IsWaitingAt ev m e z
              → (st : Status) × (r : Maps op.State) × (evmap_io_del op m (event_of ev e)
                  ≡ some (st, r))
                × Kept m r e
                × ((j : ℕ)
                    → registered r j ≡ (
                        if is_ok st && is_fd (ev e).ev_fd j
                        then remove e (registered m j)
                        else registered m j))
                × (RefusesNoDel op → is_ok st ≡ true)
          at (negsuc n) h w =
              (same, m, ap (del_fd op m (event_of ev e)) h, kept m e v g, λ j. rw h refl, λ _. refl)
          at (pos fd) h w =
              let (st, r, done, o) = evmap_io_del_removes op m (event_of ev e) fd v h w in
              (
                st,
                r,
                done,
                Outcome-Kept m r st fd e _ g o (All-remove (registered m fd) e (g fd))
                    (λ x y n k. first_at-remove (registered m fd) e x n ∙ k),
                λ j. o.events j ∙ rw h (listed_at (registered m) fd j (is_ok st) (remove e)),
                λ willing.
                    evmap_io_del-IsDone op willing m fd (event_of ev e) st r v h (room fd w) done,
              )

      -- What evmap_io_add keeps: all that waited, and on success the event itself.
      pub record Joined (st : Status) (r : Maps op.State) : Type 0 where
        pub rest : Kept m r e
        pub all : (x : ℕ) (z : ℤ) → IsWaitingAt ev m x z → IsWaitingAt ev r x z
        pub itself : is_ok st ≡ true → IsWaitingAt ev r e (ev e).ev_fd
        pub sound : is_corrupt st ≡ false
        pub lists :
            (j : ℕ)
            → registered r j ≡ (
                if is_ok st && is_fd (ev e).ev_fd j
                then registered m j ++ event_of ev e ∷ []
                else registered m j)

      pub evmap_io_add-Joined :
          (realloc : ℕ → Bool) (calloc debug : Bool)
          → ((fd : ℕ) → (ev e).ev_fd ≡ pos fd → fd < 2 ^ 27)
          → IsUnlinked ev m e
          → let r = evmap_io_add op realloc calloc debug m (event_of ev e) in Joined r.0 r.1
      unfolding evmap_io_add add_fd
      evmap_io_add-Joined realloc calloc debug small unlinked = at (ev e).ev_fd refl
        where
          r : Status × Maps op.State
          r = evmap_io_add op realloc calloc debug m (event_of ev e)

          at : (z : ℤ) → (ev e).ev_fd ≡ z → Joined r.0 r.1
          at (negsuc n) h =
              subst (λ (s : Status × Maps op.State). Joined s.0 s.1)
                (sym (ap (add_fd op realloc calloc debug m (event_of ev e)) h))
                (record {
                  rest = kept m e v g;
                  all = λ x z w. w;
                  itself = λ _. subst (IsWaitingAt ev m e) (sym h) tt;
                  sound = refl;
                  lists = λ j. rw h refl;
                })
          at (pos fd) h =
              let (o, tells) =
                evmap_io_add_registers op realloc calloc debug m (event_of ev e) fd v h (small fd h)
                  (unlinked fd h) in
              let more =
                All-append (IsGenuine ev) (registered m fd) (event_of ev e ∷ []) (g fd)
                  (refl, tt) in
              record {
                rest =
                    Outcome-Kept m r.1 r.0 fd e _ g o more
                      (λ x y n k. first_at-append (registered m fd) x (event_of ev e) y k);
                all = λ x z w. still fd o x z w;
                itself = λ ok. subst (IsWaitingAt ev r.1 e) (sym h) (
                    ap (first_at e) (o.events fd ∙ ground (arith, ok))
                    ∙ (first_at-own (registered m fd) e (g fd)));
                sound = not_corrupt r.0 fd tells;
                lists = λ j.
                    o.events j
                    ∙ listed_at (registered m) fd j (is_ok r.0) (λ l. l ++ event_of ev e ∷ [])
                    ∙ ap
                        (λ (z : ℤ).
                          if is_ok r.0 && is_fd z j
                          then registered m j ++ event_of ev e ∷ []
                          else registered m j)
                        (sym h);
              }
            where
              not_corrupt :
                  (st : Status) (fd : ℕ)
                  → Tells op m.backend r.1.backend st fd (registered m fd) (event_of ev e)
                  → is_corrupt st ≡ false
              not_corrupt failed fd t = refl
              not_corrupt same fd t = refl
              not_corrupt changed fd t = refl
              not_corrupt corrupt fd t = absurd t

              still :
                  (fd : ℕ)
                  → Outcome op m r.1 r.0 fd (registered m fd ++ event_of ev e ∷ [])
                  → (x : ℕ) (z : ℤ) → IsWaitingAt ev m x z
                  → IsWaitingAt ev r.1 x z
              still fd o x (negsuc _) w = tt
              still fd o x (pos j) w = elim (Bool-cases (fd == j && is_ok r.0)) [
                | inl s ↦
                    let here : fd ≡ j = ==→≡ fd j (ground (arith, s)) in
                    ap (first_at x) (o.events j ∙ rw s refl)
                    ∙ first_at-append (registered m fd) x (event_of ev e) (event_of ev x)
                        (rw (sym here) at w)
                | inr n ↦ ap (first_at x) (o.events j ∙ rw n refl) ∙ w
              ]
