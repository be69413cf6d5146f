-- ===== src/EvMap/Registers.antt =====
-- evmap_io_add of evmap.c registers an event and keeps the maps consistent.
use practising.Base.{
  ℕ, ◌^◌, ◌<◌, ◌≡◌, refl, sym, ap, ◌∙◌, Bool, true, false, ◌&&◌, Option, none, some, List, [], ◌∷◌,
  ◌++◌, length, length-set, get_or, set, ◌==◌, if◌then◌else◌, arith, get_or-set, ==→≡, Bool-cases,
  Option-cases, inl, inr,
}
use mathlib.Core.Path.{subst, subst⁻¹}
use practising.Base.Int.{pos}
use practising.EvMap.Backend.{Eventop}
use practising.EvMap.{
  Event, EvmapIo, Maps, Status, failed, is_listed, evmap_make_space, slot_and_ctor, add_to_slot,
  enter_slot, add_at, add_fd, evmap_io_add,
}
use practising.EvMap.Slots.{
  events_of, IsSlot, registered, is_ok, Valid, Outcome, grown-Valid, failed-Outcome,
}
use practising.EvMap.Adds.{Tells, add_to_slot-Outcome}
use practising.EvMap.Space.{evmap_make_space_room}

same_ctx : (a b : EvmapIo) → some a ≡ some b → a ≡ b
same_ctx a b e = cc

-- What GET_IO_SLOT_AND_CTOR finds or makes has the events that the slot had.
slot_and_ctor_kept :
    (calloc : Bool) (o : Option EvmapIo) (ctx : EvmapIo)
    → slot_and_ctor calloc o ≡ some ctx
    → IsSlot o
    → IsSlot (some ctx) × (ctx.events ≡ events_of o)
unfolding slot_and_ctor
slot_and_ctor_kept calloc (some c) ctx e s =
    subst (λ d. IsSlot (some d) × (d.events ≡ c.events)) (same_ctx c ctx e) (s, refl)
slot_and_ctor_kept true none ctx e s =
    subst (λ d. IsSlot (some d) × (d.events ≡ [])) (same_ctx _ ctx e) (omega arith, refl)
slot_and_ctor_kept false none ctx e s = absurd (cc)

module _ (op : Eventop) where
  -- An outcome may be told from a map with the same events and the same back end.
  regrown :
      (m m' r : Maps op.State) (st : Status) (fd : ℕ) (es : List Event)
      → ((j : ℕ) → registered m' j ≡ registered m j)
      → m'.backend ≡ m.backend
      → Outcome op m' r st fd es
      → Outcome op m r st fd es
  regrown m m' r st fd es same_events same_backend o = record {
    valid = o.valid;
    events = λ j.
        o.events j ∙ ap (λ (l : List Event). if fd == j && is_ok st then es else l) (same_events j);
    untold = λ e. o.untold e ∙ same_backend;
  }

  abbrev Registers : Maps op.State → Maps op.State → Status → ℕ → Event → Type 0
  Registers m r st fd ev =
      Outcome op m r st fd (registered m fd ++ ev ∷ [])
      × Tells op m.backend r.backend st fd (registered m fd) ev

  enter_slot-Outcome :
      (debug : Bool) (m : Maps op.State) (fd : ℕ) (ev : Event) (ctx : EvmapIo)
      → Valid op m
      → fd < length m.io
      → IsSlot (some ctx)
      → ctx.events ≡ registered m fd
      → is_listed ev.address (registered m fd) ≡ false
      → let r = enter_slot op debug m fd ev (some ctx) in Registers m r.1 r.0 fd ev
  unfolding enter_slot
  enter_slot-Outcome debug m fd ev ctx v room slot e unlisted =
      let (o, tells) =
        add_to_slot-Outcome op m' fd ctx ev valid
          (omega (arith, length-set {0} m.io fd (some ctx), room)) here debug
          (ap (is_listed ev.address) e ∙ unlisted) in
      subst
        (λ es.
          Outcome op m r.1 r.0 fd (es ++ ev ∷ []) × Tells op m.backend r.1.backend r.0 fd es ev)
        e (regrown m m' r.1 r.0 fd _ same_events refl o, tells)
    where
      m' : Maps op.State
      m' = record m { io = set m.io fd (some ctx) }

      r : Status × Maps op.State
      r = add_to_slot op debug m' fd ctx ev

      at : (j : ℕ) → get_or m'.io j none ≡ (if fd == j then some ctx else get_or m.io j none)
      at j = get_or-set m.io fd j (some ctx) none room

      here : get_or m'.io fd none ≡ some ctx
      here = at fd ∙ ground arith

      same_events : (j : ℕ) → registered m' j ≡ registered m j
      same_events j = elim (Bool-cases (fd == j)) [
        | inl i ↦ rw (at j, i) (e ∙ ap (registered m) (==→≡ fd j i))
        | inr n ↦ rw (at j, n) refl
      ]

      valid : Valid op m'
      valid =
          grown-Valid op m m'.io v
            (λ j. elim (Bool-cases (fd == j)) [
              | inl i ↦ rw (at j, i) slot
              | inr n ↦ rw (at j, n) (v.slots j)
            ])
            same_events

  add_at-Outcome :
      (calloc debug : Bool) (m : Maps op.State) (fd : ℕ) (ev : Event) (io : List (Option EvmapIo))
      → Valid op m
      → fd < length io
      → ((j : ℕ) → get_or io j none ≡ get_or m.io j none)
      → is_listed ev.address (registered m fd) ≡ false
      → let r = add_at op calloc debug m fd ev (some io) in Registers m r.1 r.0 fd ev
  unfolding add_at enter_slot
  add_at-Outcome calloc debug m fd ev io v room alike unlisted =
      let m1 : Maps op.State = record m { io = io } in
      let same_events = λ (j : ℕ). ap events_of (alike j) in
      let v1 : Valid op m1 =
        grown-Valid op m io v (λ j. subst IsSlot (sym (alike j)) (v.slots j)) same_events in
      elim (Option-cases (slot_and_ctor calloc (get_or io fd none))) [
        | inl e ↦ rw e (
          regrown m m1 m1 failed fd (registered m fd ++ ev ∷ []) same_events refl
              (failed-Outcome op m1 fd _ v1),
          tt,
        )
        | inr (ctx, e) ↦
            let (slot, kept) = slot_and_ctor_kept calloc (get_or io fd none) ctx e (v1.slots fd) in
            rw e (
              let r = enter_slot op debug m1 fd ev (some ctx) in
              let (o, tells) =
                enter_slot-Outcome debug m1 fd ev ctx v1 room slot kept
                  (ap (is_listed ev.address) (same_events fd) ∙ unlisted) in
              subst
                (λ es.
                  Outcome op m r.1 r.0 fd (es ++ ev ∷ [])
                  × Tells op m.backend r.1.backend r.0 fd es ev)
                (same_events fd)
                (regrown m m1 r.1 r.0 fd (registered m1 fd ++ ev ∷ []) same_events refl o, tells))
      ]

  pub evmap_io_add_registers :
      (realloc : ℕ → Bool) (calloc debug : Bool) (m : Maps op.State) (ev : Event) (fd : ℕ)
      → Valid op m
      → ev.ev_fd ≡ pos fd
      → fd < 2 ^ 27
      → is_listed ev.address (registered m fd) ≡ false
      → let r = evmap_io_add op realloc calloc debug m ev in
        Outcome op m r.1 r.0 fd (registered m fd ++ ev ∷ [])
        × Tells op m.backend r.1.backend r.0 fd (registered m fd) ev
  unfolding evmap_io_add add_fd add_at
  evmap_io_add_registers realloc calloc debug m ev fd v e small unlisted =
      subst⁻¹ (λ z. let r = add_fd op realloc calloc debug m ev z in Registers m r.1 r.0 fd ev) e
        (elim (Option-cases (evmap_make_space realloc m.io fd)) [
          | inl f ↦ rw f (failed-Outcome op m fd _ v, tt)
          | inr (io, f) ↦
              let (room, alike) =
                evmap_make_space_room realloc m.io io fd (omega (arith, small)) f in
              rw f (add_at-Outcome calloc debug m fd ev io v room alike unlisted)
        ])
