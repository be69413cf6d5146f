-- ===== src/EventBase/Actives.antt =====
-- evmap_io_active of evmap.c activates the events that want what is reported, and no others.
use practising.Base.{
  ℕ, zero, suc, ◌≡◌, refl, sym, ap, ◌∙◌, Bool, true, false, ◌||◌, Option, none, some, List, [], ◌∷◌,
  length, get_or, ltb, leb, arith, Bool-cases, Option-cases, inl, inr, All,
}
use practising.EvMap.Backend.{Events, Eventop}
use practising.EvMap.{Event, EvmapIo}
use practising.EvMap.Slots.{registered, reading, writing, events_of}
use practising.EventBase.{Assigned, EventBase}
use practising.EventBase.State.{Valid, IsGenuine}
use practising.EventBase.Inserts.{event_active_nolock_activates}
use practising.EventBase.Polls.{is_any, meet, met, active_all, active_slot, evmap_io_active}
use practising.EventBase.Reports.{Reports, then-Reports, past-Reports}

module _ (ev : ℕ → Assigned) (op : Eventop) (realloc : ℕ → Bool) (events : Events) where
  active_all-Reports :
      (es : List Event) (b : EventBase op.State)
      → All (IsGenuine ev) es
      → Valid ev op b
      → (r : EventBase op.State) × (active_all ev realloc events es b ≡ some r)
        × Reports ev op realloc events b r es
  unfolding active_all
  active_all-Reports [] b own v = (
    b,
    refl,
    record {
      valid = v;
      active = λ x. refl;
      results = λ x. refl;
      inserted = refl;
      timeout = refl;
      times = refl;
      heap = refl;
      gaps = refl;
      io = refl;
      stopped = refl;
      term = refl;
    },
  )
  active_all-Reports (e ∷ es) b (own, others) v =
      elim (Bool-cases (is_any (meet e.ev_events events))) [
        | inl wants ↦
            let (m, done, a) =
              event_active_nolock_activates ev op realloc b e.address (met e.ev_events events) v in
            let (r, looped, s) = active_all-Reports es m others a.valid in
            (r, rw (wants, done) looped, then-Reports ev op realloc events b m r e es own wants a s)
        | inr unwanted ↦
            let (r, looped, s) = active_all-Reports es b others v in
            (r, rw unwanted looped, past-Reports ev op realloc events b r e es own unwanted s)
      ]

  slot_there :
      (b : EventBase op.State) (fd : ℕ)
      → Valid ev op b
      → (op.reads b.io.backend fd || op.writes b.io.backend fd) ≡ true
      → (ctx : EvmapIo) × (get_or b.io.io fd none ≡ some ctx) × (leb (length b.io.io) fd ≡ false)
  slot_there b fd v waits = elim (Option-cases (get_or b.io.io fd none)) [
    | inl empty ↦
        let none_reads : op.reads b.io.backend fd ≡ false =
          v.maps.reads fd ∙ ap (λ (o : Option EvmapIo). ltb 0 (reading (events_of o))) empty in
        let none_writes : op.writes b.io.backend fd ≡ false =
          v.maps.writes fd ∙ ap (λ (o : Option EvmapIo). ltb 0 (writing (events_of o))) empty in
        absurd (ground (arith, waits, none_reads, none_writes))
    | inr (ctx, there) ↦ (ctx, there, inside b.io.io fd ctx there)
  ]
    where
      inside :
          (xs : List (Option EvmapIo)) (i : ℕ) (x : EvmapIo)
          → get_or xs i none ≡ some x
          → leb (length xs) i ≡ false
      inside [] i x h = absurd (cc)
      inside (y ∷ xs) zero x h = ground arith
      inside (y ∷ xs) (suc i) x h = ground (arith, inside xs i x h)

  -- evmap_io_active on a consistent base, for a descriptor that the back end waits for: it ends, with no
  -- assertion failed. Active become the events listed for the descriptor that want any of what is
  -- reported, EV_ET included. Each has in its ev_res what it wants of the report, besides what it was
  -- active for already. No other event changes, and no queue but the active ones.
  pub evmap_io_active-Reports :
      (b : EventBase op.State) (fd : ℕ)
      → Valid ev op b
      → (op.reads b.io.backend fd || op.writes b.io.backend fd) ≡ true
      → (r : EventBase op.State) × (evmap_io_active ev realloc events b fd ≡ some r)
        × Reports ev op realloc events b r (registered b.io fd)
  unfolding evmap_io_active active_slot
  evmap_io_active-Reports b fd v waits =
      let (ctx, there, inside) = slot_there b fd v waits in
      let (r, done, s) = active_all-Reports (registered b.io fd) b (v.genuine fd) v in
      (
        r,
        rw (inside, there)
            (ap (λ l. active_all ev realloc events l b) (sym (ap events_of there)) ∙ done),
        s,
      )
