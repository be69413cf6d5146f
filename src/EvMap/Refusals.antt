-- ===== src/EvMap/Refusals.antt =====
-- Back ends that refuse no delete, as evmap.c calls them: evmap_io_del succeeds on them.
use practising.Base.{
  ℕ, ◌<◌, ◌-◌, ◌==◌, ◌≡◌, refl, sym, ap, ◌∙◌, true, false, ◌&&◌, ◌||◌, Option, none, some, length,
  get_or, leb, ltb, if◌then◌else◌, arith, Bool-cases, inl, inr,
}
use practising.Base.Int.{pos}
use practising.EvMap.Backend.{Events, Eventop}
use practising.EvMap.{
  Event, EvmapIo, Maps, Status, old_events, store_slot, del_from_slot, del_found, del_fd,
  evmap_io_del,
}
use practising.EvMap.Slots.{events_of, IsSlot, reading, writing, is_ok, Valid}
use mathlib.Core.Path.{subst}

-- A ready back end that is told what it waits for does not refuse a delete.
abbrev pub RefusesNoDel : Eventop → Type 0
RefusesNoDel op =
    (s : op.State) (fd : ℕ) (old events : Events)
    → op.IsReady s
    → old.read ≡ op.reads s fd
    → old.write ≡ op.writes s fd
    → (t : op.State) × (op.del s fd old events ≡ some t)

module _ (op : Eventop) (willing : RefusesNoDel op) where
  abbrev IsDone : Option (Status × Maps op.State) → Type 0
  IsDone none = Unit
  IsDone (some r) = is_ok r.0 ≡ true

  store_slot-IsDone :
      (m : Maps op.State) (fd : ℕ) (ctx : EvmapIo) (o : Option op.State)
      → (t : op.State) × (o ≡ some t)
      → IsDone (some (store_slot op m fd ctx o))
  unfolding store_slot
  store_slot-IsDone m fd ctx o (t, h) = rw h refl

  del_from_slot-IsDone :
      (m : Maps op.State) (fd : ℕ) (ctx : EvmapIo) (ev : Event)
      → Valid op m
      → get_or m.io fd none ≡ some ctx
      → IsDone (del_from_slot op m fd ctx ev)
  unfolding del_from_slot
  del_from_slot-IsDone m fd ctx ev v here =
      let slot = subst (λ o. IsSlot o) here (v.slots fd) in
      let old_read : ltb 0 ctx.nread ≡ op.reads m.backend fd =
        ap (ltb 0) slot.0 ∙ sym (v.reads fd ∙ ap (λ o. ltb 0 (reading (events_of o))) here) in
      let old_write : ltb 0 ctx.nwrite ≡ op.writes m.backend fd =
        ap (ltb 0) slot.1 ∙ sym (v.writes fd ∙ ap (λ o. ltb 0 (writing (events_of o))) here) in
      let nread = if ev.ev_events.read then ctx.nread - 1 else ctx.nread in
      let nwrite = if ev.ev_events.write then ctx.nwrite - 1 else ctx.nwrite in
      elim (Bool-cases
        ((ev.ev_events.read && ctx.nread == 0) || (ev.ev_events.write && ctx.nwrite == 0))) [
          | inl bad ↦ rw bad tt
          | inr good ↦
              elim (Bool-cases
                ((ev.ev_events.read && nread == 0) || (ev.ev_events.write && nwrite == 0))) [
                  | inl gone ↦
                      rw (good, gone)
                        (store_slot-IsDone m fd _ _
                          (willing m.backend fd (old_events ctx) _ v.ready old_read old_write))
                  | inr kept ↦ rw (good, kept) refl
                ]
        ]

  del_found-IsDone :
      (m : Maps op.State) (fd : ℕ) (ev : Event)
      → Valid op m
      → IsDone (del_found op m fd ev (get_or m.io fd none))
  unfolding del_found
  del_found-IsDone m fd ev v = at (get_or m.io fd none) refl
    where
      at : (o : Option EvmapIo) → get_or m.io fd none ≡ o → IsDone (del_found op m fd ev o)
      at none h = tt
      at (some ctx) h = del_from_slot-IsDone m fd ctx ev v h

  -- On a descriptor that has an entry, evmap_io_del does not fail.
  pub evmap_io_del-IsDone :
      (m : Maps op.State) (fd : ℕ) (ev : Event) (st : Status) (r : Maps op.State)
      → Valid op m
      → ev.ev_fd ≡ pos fd
      → fd < length m.io
      → evmap_io_del op m ev ≡ some (st, r)
      → is_ok st ≡ true
  unfolding evmap_io_del del_fd
  evmap_io_del-IsDone m fd ev st r v own room done =
      let inside : leb (length m.io) fd ≡ false = ground (arith, room) in
      let found : del_found op m fd ev (get_or m.io fd none) ≡ some (st, r) =
        sym (ap (del_fd op m ev) own ∙ rw inside refl) ∙ done in
      subst IsDone found (del_found-IsDone m fd ev v)
