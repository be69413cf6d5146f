-- ===== src/EvMap/Dels.antt =====
-- evmap_io_del of evmap.c takes an event out and keeps the maps consistent.
use practising.Base.{
  ℕ, zero, suc, ◌+◌, ◌-◌, ◌<◌, ◌≡◌, refl, sym, ap, ◌∙◌, Bool, true, false, ◌&&◌, ◌||◌, Option, none,
  some, List, [], ◌∷◌, length, get_or, set, ◌==◌, ltb, leb, if◌then◌else◌, arith, Bool-cases,
  Option-cases, inl, inr,
}
use mathlib.Core.Path.{subst}
use practising.Base.Int.{pos}
use practising.EvMap.Backend.{Eventop}
use practising.EvMap.{
  Event, EvmapIo, Maps, Status, same, old_events, store_slot, remove, del_from_slot, del_found,
  del_fd, evmap_io_del,
}
use practising.EvMap.Slots.{
  or_false, reading, writing, events_of, IsSlot, registered, Valid, Outcome, told-Outcome,
  untold-Outcome,
}

-- The first event at an address.
abbrev pub first_at : ℕ → List Event → Option Event
first_at address [] = none
first_at address (e ∷ es) = if e.address == address then some e else first_at address es

same_event : (a b : Event) → some a ≡ some b → a ≡ b
same_event a b e = cc

reading-remove :
    (es : List Event) (ev : Event)
    → first_at ev.address es ≡ some ev
    → reading es ≡ (
        if ev.ev_events.read
        then reading (remove ev.address es) + 1
        else reading (remove ev.address es))
unfolding remove
reading-remove [] ev h = absurd (cc)
reading-remove (x ∷ es) ev h = elim (Bool-cases (x.address == ev.address)) [
  | inl e ↦ rw e (ground (arith, ap (λ y. y.ev_events.read) (same_event x ev (rw e at h))))
  | inr n ↦ rw n (ground (arith, reading-remove es ev (rw n at h)))
]

writing-remove :
    (es : List Event) (ev : Event)
    → first_at ev.address es ≡ some ev
    → writing es ≡ (
        if ev.ev_events.write
        then writing (remove ev.address es) + 1
        else writing (remove ev.address es))
unfolding remove
writing-remove [] ev h = absurd (cc)
writing-remove (x ∷ es) ev h = elim (Bool-cases (x.address == ev.address)) [
  | inl e ↦ rw e (ground (arith, ap (λ y. y.ev_events.write) (same_event x ev (rw e at h))))
  | inr n ↦ rw n (ground (arith, writing-remove es ev (rw n at h)))
]

-- One fewer that wants a direction, if `b`: the back end waits for it while some event does.
one_fewer :
    (b g : Bool) (n now : ℕ)
    → g ≡ ltb 0 n
    → n ≡ (if b then now + 1 else now)
    → (if b && (if b then n - 1 else n) == 0 then false else g) ≡ ltb 0 now
one_fewer true g n now e f = ground (arith, e, f)
one_fewer false g n now e f = ground (arith, e, f)

fewer : (b : Bool) (n now : ℕ) → n ≡ (if b then now + 1 else now) → (if b then n - 1 else n) ≡ now
fewer b n now e = ground (arith, e)

module _ (op : Eventop) (m : Maps op.State) (fd : ℕ) (ctx : EvmapIo) (ev : Event) (v : Valid op m)
    (room : fd < length m.io) (here : get_or m.io fd none ≡ some ctx)
    (waits : first_at ev.address ctx.events ≡ some ev) where
  nread : ℕ
  nread = if ev.ev_events.read then ctx.nread - 1 else ctx.nread

  nwrite : ℕ
  nwrite = if ev.ev_events.write then ctx.nwrite - 1 else ctx.nwrite

  new_ctx : EvmapIo
  new_ctx = record { events = remove ev.address ctx.events; nread = nread; nwrite = nwrite }

  counted : IsSlot (some ctx)
  counted = subst (λ o. IsSlot o) here (v.slots fd)

  old_read : op.reads m.backend fd ≡ ltb 0 ctx.nread
  old_read = v.reads fd ∙ ap (λ o. ltb 0 (reading (events_of o))) here ∙ ap (ltb 0) (sym counted.0)

  old_write : op.writes m.backend fd ≡ ltb 0 ctx.nwrite
  old_write =
      v.writes fd ∙ ap (λ o. ltb 0 (writing (events_of o))) here ∙ ap (ltb 0) (sym counted.1)

  was_read : ctx.nread ≡ (
      if ev.ev_events.read
      then reading (remove ev.address ctx.events) + 1
      else reading (remove ev.address ctx.events))
  was_read = counted.0 ∙ reading-remove ctx.events ev waits

  was_write : ctx.nwrite ≡ (
      if ev.ev_events.write
      then writing (remove ev.address ctx.events) + 1
      else writing (remove ev.address ctx.events))
  was_write = counted.1 ∙ writing-remove ctx.events ev waits

  now_read :
      (if ev.ev_events.read && nread == 0 then false else op.reads m.backend fd)
      ≡ ltb 0 (reading (remove ev.address ctx.events))
  unfolding nread
  now_read = one_fewer ev.ev_events.read (op.reads m.backend fd) ctx.nread _ old_read was_read

  now_write :
      (if ev.ev_events.write && nwrite == 0 then false else op.writes m.backend fd)
      ≡ ltb 0 (writing (remove ev.address ctx.events))
  unfolding nwrite
  now_write = one_fewer ev.ev_events.write (op.writes m.backend fd) ctx.nwrite _ old_write was_write

  new_ctx-IsSlot : IsSlot (some new_ctx)
  unfolding nread nwrite new_ctx
  new_ctx-IsSlot = (
    fewer ev.ev_events.read ctx.nread _ was_read,
    fewer ev.ev_events.write ctx.nwrite _ was_write,
    ground (arith, counted.2),
    ground (arith, counted.3),
  )

  no_underflow :
      ((ev.ev_events.read && ctx.nread == 0) || (ev.ev_events.write && ctx.nwrite == 0)) ≡ false
  no_underflow = ground (arith, was_read, was_write)

  del_from_slot-Outcome :
      (st : Status) × (r : Maps op.State) × (del_from_slot op m fd ctx ev ≡ some (st, r))
      × Outcome op m r st fd (remove ev.address ctx.events)
  unfolding del_from_slot nread nwrite new_ctx
  del_from_slot-Outcome =
      rw no_underflow
        (elim (Bool-cases
          ((ev.ev_events.read && nread == 0) || (ev.ev_events.write && nwrite == 0))) [
            | inl gone ↦
                let r = store_slot op m fd new_ctx (
                  op.del m.backend fd (old_events ctx) (record {
                    read = ev.ev_events.read && nread == 0;
                    write = ev.ev_events.write && nwrite == 0;
                    et = false;
                  })) in
                (
                  r.0,
                  r.1,
                  rw gone refl,
                  told-Outcome op m fd new_ctx _ _ _ false v room new_ctx-IsSlot
                      (λ t e.
                        op.del_waits m.backend t fd (old_events ctx) _ v.ready (sym old_read)
                          (sym old_write) e)
                      now_read now_write,
                )
            | inr kept ↦
                let (no_read, no_write) =
                  or_false (ev.ev_events.read && nread == 0) (ev.ev_events.write && nwrite == 0)
                    kept in
                (
                  same,
                  record m { io = set m.io fd (some new_ctx) },
                  rw kept refl,
                  untold-Outcome op m fd new_ctx v room new_ctx-IsSlot (rw no_read at now_read)
                      (rw no_write at now_write),
                )
          ])

pub get_or_inside {ℓ} :
    {A : Type ℓ} (xs : List (Option A)) (i : ℕ) (a : A) → get_or xs i none ≡ some a → i < length xs
get_or_inside [] i a e = absurd (cc)
get_or_inside (x ∷ xs) zero a e = omega arith
get_or_inside (x ∷ xs) (suc i) a e = omega (arith, get_or_inside xs i a e)

-- evmap_io_del of an event that waits for descriptor `fd`, on maps that are consistent: no assertion
-- fails and no missing entry is read. On success the event waits no longer, on failure the same
-- events wait as before. The maps are consistent either way, and the back end hears of nothing
-- unless the result says so.
pub evmap_io_del_removes :
    (op : Eventop) (m : Maps op.State) (ev : Event) (fd : ℕ)
    → Valid op m
    → ev.ev_fd ≡ pos fd
    → first_at ev.address (registered m fd) ≡ some ev
    → (st : Status) × (r : Maps op.State) × (evmap_io_del op m ev ≡ some (st, r))
      × Outcome op m r st fd (remove ev.address (registered m fd))
unfolding evmap_io_del del_fd del_found
evmap_io_del_removes op m ev fd v e waits = elim (Option-cases (get_or m.io fd none)) [
  | inl none_there ↦ absurd (cc (rw none_there at waits))
  | inr (ctx, here) ↦
      let room = get_or_inside m.io fd ctx here in
      let waits' = rw here at waits in
      let (st, r, found, o) = del_from_slot-Outcome op m fd ctx ev v room here waits' in
      let inside : leb (length m.io) fd ≡ false = ground (arith, room) in
      (st, r, ap (del_fd op m ev) e ∙ rw (inside, here) found, rw here o)
]
