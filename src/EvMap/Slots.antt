-- ===== src/EvMap/Slots.antt =====
-- When an io map of evmap.c is consistent: the counts are those of the events in each slot, and the
-- back end waits for what some event of the descriptor wants.
use practising.Base.{
  ℕ, suc, ◌≤◌, ◌<◌, ◌≡◌, refl, sym, ap, ◌∙◌, Bool, true, false, ◌&&◌, ◌||◌, Option, none, some,
  List, [], ◌∷◌, length, get_or, set, ◌==◌, ltb, if◌then◌else◌, arith, get_or-set, Bool-cases, inl,
  inr, ==→≡,
}
use practising.EvMap.Backend.{Eventop}
use practising.EvMap.{Event, EvmapIo, Maps, Status, failed, same, changed, corrupt, store_slot}

-- The events that want to read, and those that want to write.
abbrev pub reading : List Event → ℕ
reading [] = 0
reading (e ∷ es) = if e.ev_events.read then suc (reading es) else reading es

abbrev pub writing : List Event → ℕ
writing [] = 0
writing (e ∷ es) = if e.ev_events.write then suc (writing es) else writing es

abbrev pub events_of : Option EvmapIo → List Event
events_of none = []
events_of (some ctx) = ctx.events

abbrev pub IsSlot : Option EvmapIo → Type 0
IsSlot none = Unit
IsSlot (some ctx) =
    (ctx.nread ≡ reading ctx.events)
    × (ctx.nwrite ≡ writing ctx.events)
    × (ctx.nread ≤ 65535)
    × (ctx.nwrite ≤ 65535)

module _ {S : Type 0} where
  -- The events that wait for descriptor `j`.
  abbrev pub registered : Maps S → ℕ → List Event
  registered m j = events_of (get_or m.io j none)

abbrev pub is_ok : Status → Bool
is_ok failed = false
is_ok same = true
is_ok changed = true
is_ok corrupt = false

abbrev pub is_changed : Status → Bool
is_changed changed = true
is_changed _ = false

module _ (op : Eventop) where
  pub record Valid (m : Maps op.State) : Type 0 where
    pub slots : (j : ℕ) → IsSlot (get_or m.io j none)
    pub ready : op.IsReady m.backend
    pub reads : (j : ℕ) → op.reads m.backend j ≡ ltb 0 (reading (registered m j))
    pub writes : (j : ℕ) → op.writes m.backend j ≡ ltb 0 (writing (registered m j))

  -- What a call on descriptor `fd` has done, if it makes `es` of the events that wait for it: a call
  -- that fails changes no events, and the back end hears of no other call than one that says so.
  pub record Outcome (m r : Maps op.State) (st : Status) (fd : ℕ) (es : List Event) : Type 0 where
    pub valid : Valid r
    pub events : (j : ℕ) → registered r j ≡ (if fd == j && is_ok st then es else registered m j)
    pub untold : is_changed st ≡ false → r.backend ≡ m.backend

  -- Slots may come to be there, with no events in them.
  pub grown-Valid :
      (m : Maps op.State) (io : List (Option EvmapIo))
      → Valid m
      → ((j : ℕ) → IsSlot (get_or io j none))
      → ((j : ℕ) → events_of (get_or io j none) ≡ registered m j)
      → Valid (record m { io = io })
  grown-Valid m io v slots same_events = record {
    slots = slots;
    ready = v.ready;
    reads = λ j. v.reads j ∙ ap (λ (es : List Event). ltb 0 (reading es)) (sym (same_events j));
    writes = λ j. v.writes j ∙ ap (λ (es : List Event). ltb 0 (writing es)) (sym (same_events j));
  }

  -- A slot gets other events, and the back end is told.
  pub stored :
      (m : Maps op.State) (fd : ℕ) (ctx : EvmapIo) (s : op.State)
      → Valid m
      → fd < length m.io
      → IsSlot (some ctx)
      → op.IsReady s
      → ((j : ℕ)
          → (op.reads s j ≡ (if fd == j then ltb 0 (reading ctx.events) else op.reads m.backend j))
            × (op.writes s j
                ≡ (if fd == j then ltb 0 (writing ctx.events) else op.writes m.backend j)))
      → let r : Maps op.State = record { io = set m.io fd (some ctx); backend = s } in
        Valid r × ((j : ℕ) → registered r j ≡ (if fd == j then ctx.events else registered m j))
  stored m fd ctx s v room slot ready waits =
      (record { slots = slots; ready = ready; reads = reads; writes = writes }, events)
    where
      at :
          (j : ℕ)
          → get_or (set m.io fd (some ctx)) j none
            ≡ (if fd == j then some ctx else get_or m.io j none)
      at j = get_or-set m.io fd j (some ctx) none room

      slots : (j : ℕ) → IsSlot (get_or (set m.io fd (some ctx)) j none)
      slots j = elim (Bool-cases (fd == j)) [
        | inl e ↦ rw (at j, e) slot
        | inr n ↦ rw (at j, n) (v.slots j)
      ]

      events :
          (j : ℕ)
          → events_of (get_or (set m.io fd (some ctx)) j none)
            ≡ (if fd == j then ctx.events else registered m j)
      events j = elim (Bool-cases (fd == j)) [
        | inl e ↦ rw (at j, e) refl
        | inr n ↦ rw (at j, n) refl
      ]

      reads :
          (j : ℕ)
          → op.reads s j ≡ ltb 0 (reading (events_of (get_or (set m.io fd (some ctx)) j none)))
      reads j = elim (Bool-cases (fd == j)) [
        | inl e ↦ rw (events j, (waits j).0, e) refl
        | inr n ↦ rw (events j, (waits j).0, n) (v.reads j)
      ]

      writes :
          (j : ℕ)
          → op.writes s j ≡ ltb 0 (writing (events_of (get_or (set m.io fd (some ctx)) j none)))
      writes j = elim (Bool-cases (fd == j)) [
        | inl e ↦ rw (events j, (waits j).1, e) refl
        | inr n ↦ rw (events j, (waits j).1, n) (v.writes j)
      ]

pub or_false : (a b : Bool) → (a || b) ≡ false → (a ≡ false) × (b ≡ false)
or_false a b h = (ground arith, ground arith)

-- A back end that changes its mind about one descriptor.
spread :
    (f g : ℕ → Bool) (fd : ℕ) (new to wanted : Bool)
    → ((j : ℕ) → f j ≡ (if fd == j && new then to else g j))
    → (if new then to else g fd) ≡ wanted
    → (j : ℕ) → f j ≡ (if fd == j then wanted else g j)
spread f g fd new to wanted h e j = elim (Bool-cases (fd == j)) [
  | inl here ↦
      let at : f fd ≡ wanted = h fd ∙ ground (arith, e) in
      rw here (ap f (sym (==→≡ fd j here)) ∙ at)
  | inr n ↦ rw n (h j ∙ rw n refl)
]

module _ (op : Eventop) where
  pub failed-Outcome :
      (m : Maps op.State) (fd : ℕ) (es : List Event) → Valid op m → Outcome op m m failed fd es
  failed-Outcome m fd es v = record { valid = v; events = λ j. ground arith; untold = λ _. refl }

  -- The back end is asked for `to` in the directions `new_read` and `new_write`.
  pub told-Outcome :
      (m : Maps op.State) (fd : ℕ) (ctx : EvmapIo) (o : Option op.State)
      (new_read new_write to : Bool)
      → Valid op m
      → fd < length m.io
      → IsSlot (some ctx)
      → ((t : op.State)
          → o ≡ some t
          → op.IsReady t
            × ((j : ℕ)
                → (op.reads t j ≡ (if fd == j && new_read then to else op.reads m.backend j))
                  × (op.writes t j ≡ (if fd == j && new_write then to else op.writes m.backend j))))
      → (if new_read then to else op.reads m.backend fd) ≡ ltb 0 (reading ctx.events)
      → (if new_write then to else op.writes m.backend fd) ≡ ltb 0 (writing ctx.events)
      → Outcome op m (store_slot op m fd ctx o).1 (store_slot op m fd ctx o).0 fd ctx.events
  unfolding store_slot
  told-Outcome m fd ctx none new_read new_write to v room slot waits r w = failed-Outcome m fd _ v
  told-Outcome m fd ctx (some t) new_read new_write to v room slot waits r w =
      let (ready, asked) = waits t refl in
      let (valid, events) = stored op m fd ctx t v room slot ready (λ j. (
        spread (op.reads t) (op.reads m.backend) fd new_read to _ (λ i. (asked i).0) r j,
        spread (op.writes t) (op.writes m.backend) fd new_write to _ (λ i. (asked i).1) w j,
      )) in
      record { valid = valid; events = λ j. events j ∙ ground arith; untold = λ e. absurd (cc) }

  pub untold-Outcome :
      (m : Maps op.State) (fd : ℕ) (ctx : EvmapIo)
      → Valid op m
      → fd < length m.io
      → IsSlot (some ctx)
      → op.reads m.backend fd ≡ ltb 0 (reading ctx.events)
      → op.writes m.backend fd ≡ ltb 0 (writing ctx.events)
      → Outcome op m (record m { io = set m.io fd (some ctx) }) same fd ctx.events
  untold-Outcome m fd ctx v room slot r w =
      let (valid, events) = stored op m fd ctx m.backend v room slot v.ready (λ j. (
        spread (op.reads m.backend) (op.reads m.backend) fd false true _ (λ i. ground arith) r j,
        spread (op.writes m.backend) (op.writes m.backend) fd false true _ (λ i. ground arith) w j,
      )) in
      record { valid = valid; events = λ j. events j ∙ ground arith; untold = λ _. refl }
