-- ===== src/EvMap/Adds.antt =====
-- evmap_io_add of evmap.c once the slot of the descriptor has an entry.
use practising.Base.{
  ℕ, ◌+◌, ◌<◌, ◌≡◌, refl, sym, ap, ap₂, ◌∙◌, Bool, true, false, ◌&&◌, ◌||◌, Option, none, some,
  List, [], ◌∷◌, ◌++◌, length, get_or, ◌==◌, ltb, if◌then◌else◌, arith, Bool-cases, inl, inr,
}
use mathlib.Core.Path.{subst}
use practising.EvMap.Backend.{Events, Eventop}
use practising.EvMap.{
  Event, EvmapIo, Maps, Status, failed, same, changed, corrupt, is_listed, insert_tail, store_slot,
  old_events, mixes_et, add_to_slot,
}
use practising.EvMap.Slots.{
  or_false, reading, writing, events_of, IsSlot, Valid, Outcome, failed-Outcome, told-Outcome,
  untold-Outcome,
}

reading-append :
    (es : List Event) (e : Event)
    → reading (es ++ e ∷ []) ≡ (if e.ev_events.read then reading es + 1 else reading es)
reading-append [] e = ground arith
reading-append (x ∷ es) e = ground (arith, reading-append es e)

writing-append :
    (es : List Event) (e : Event)
    → writing (es ++ e ∷ []) ≡ (if e.ev_events.write then writing es + 1 else writing es)
writing-append [] e = ground arith
writing-append (x ∷ es) e = ground (arith, writing-append es e)

-- One more that wants a direction, if `b`: the back end waits for it then, told so or not.
one_more :
    (b g : Bool) (n now : ℕ)
    → g ≡ ltb 0 n
    → now ≡ (if b then n + 1 else n)
    → (if b && (if b then n + 1 else n) == 1 then true else g) ≡ ltb 0 now
one_more true g n now e f = ground (arith, e, f)
one_more false g n now e f = ground (arith, e, f)

abbrev bits : Bool → Bool → Bool → Events
bits r w et = record { read = r; write = w; et = et }

-- What the back end is told of an event behind others: the directions that none of them wants, and
-- those that it waits for so far.
abbrev pub news : List Event → Event → Events
news es e = record {
  read = e.ev_events.read && reading es == 0;
  write = e.ev_events.write && writing es == 0;
  et = e.ev_events.et;
}

abbrev pub waited : List Event → Events
waited es = record { read = ltb 0 (reading es); write = ltb 0 (writing es); et = false }

-- How evmap_io_add tells the back end, of state `s` and then `t`, of an event behind the list `es`: of
-- what is new, and only if something is.
abbrev pub Tells : (op : Eventop) → op.State → op.State → Status → ℕ → List Event → Event → Type 0
Tells op s t failed fd es e = Unit
Tells op s t same fd es e = (((news es e).read || (news es e).write) ≡ false) × (t ≡ s)
Tells op s t changed fd es e =
    (((news es e).read || (news es e).write) ≡ true)
    × (op.add s fd (waited es) (news es e) ≡ some t)
Tells op s t corrupt fd es e = ⊥

module _ (op : Eventop) (m : Maps op.State) (fd : ℕ) (ctx : EvmapIo) (ev : Event) (v : Valid op m)
    (room : fd < length m.io) (here : get_or m.io fd none ≡ some ctx) where
  nread : ℕ
  nread = if ev.ev_events.read then ctx.nread + 1 else ctx.nread

  nwrite : ℕ
  nwrite = if ev.ev_events.write then ctx.nwrite + 1 else ctx.nwrite

  new_ctx : EvmapIo
  new_ctx = record { events = ctx.events ++ ev ∷ []; nread = nread; nwrite = nwrite }

  counted : IsSlot (some ctx)
  counted = subst (λ o. IsSlot o) here (v.slots fd)

  old_read : op.reads m.backend fd ≡ ltb 0 ctx.nread
  old_read = v.reads fd ∙ ap (λ o. ltb 0 (reading (events_of o))) here ∙ ap (ltb 0) (sym counted.0)

  old_write : op.writes m.backend fd ≡ ltb 0 ctx.nwrite
  old_write =
      v.writes fd ∙ ap (λ o. ltb 0 (writing (events_of o))) here ∙ ap (ltb 0) (sym counted.1)

  now_read :
      (if ev.ev_events.read && nread == 1 then true else op.reads m.backend fd)
      ≡ ltb 0 (reading (ctx.events ++ ev ∷ []))
  unfolding nread
  now_read = one_more ev.ev_events.read (op.reads m.backend fd) ctx.nread _ old_read (
      reading-append ctx.events ev
      ∙ ap (λ (k : ℕ). if ev.ev_events.read then k + 1 else k) (sym counted.0))

  now_write :
      (if ev.ev_events.write && nwrite == 1 then true else op.writes m.backend fd)
      ≡ ltb 0 (writing (ctx.events ++ ev ∷ []))
  unfolding nwrite
  now_write = one_more ev.ev_events.write (op.writes m.backend fd) ctx.nwrite _ old_write (
      writing-append ctx.events ev
      ∙ ap (λ (k : ℕ). if ev.ev_events.write then k + 1 else k) (sym counted.1))

  new_ctx-IsSlot : (ltb 65535 nread || ltb 65535 nwrite) ≡ false → IsSlot (some new_ctx)
  unfolding nread nwrite new_ctx
  new_ctx-IsSlot few = (
    ground (arith, counted.0, reading-append ctx.events ev),
    ground (arith, counted.1, writing-append ctx.events ev),
    ground (arith, few),
    ground (arith, few),
  )

  asked_read : (ev.ev_events.read && nread == 1) ≡ (ev.ev_events.read && reading ctx.events == 0)
  unfolding nread
  asked_read = ground (arith, counted.0)

  asked_write :
      (ev.ev_events.write && nwrite == 1) ≡ (ev.ev_events.write && writing ctx.events == 0)
  unfolding nwrite
  asked_write = ground (arith, counted.1)

  asked :
      bits (ev.ev_events.read && nread == 1) (ev.ev_events.write && nwrite == 1) ev.ev_events.et
      ≡ news ctx.events ev
  asked = ap₂ (λ (r w : Bool). bits r w ev.ev_events.et) asked_read asked_write

  old_waited : old_events ctx ≡ waited ctx.events
  old_waited = ap₂ (λ (r w : Bool). bits r w false) (ap (ltb 0) counted.0) (ap (ltb 0) counted.1)

  tells :
      (c : EvmapIo) (res : Events)
      → res ≡ news ctx.events ev
      → ((news ctx.events ev).read || (news ctx.events ev).write) ≡ true
      → let r = store_slot op m fd c (op.add m.backend fd (old_events ctx) res) in
        Tells op m.backend r.1.backend r.0 fd ctx.events ev
  unfolding store_slot
  tells c res e new = at (op.add m.backend fd (old_events ctx) res) refl
    where
      at :
          (o : Option op.State)
          → op.add m.backend fd (old_events ctx) res ≡ o
          → let r = store_slot op m fd c o in Tells op m.backend r.1.backend r.0 fd ctx.events ev
      at none h = tt
      at (some s) h = (new, ap₂ (op.add m.backend fd) (sym old_waited) (sym e) ∙ h)

  pub add_to_slot-Outcome :
      (debug : Bool)
      → is_listed ev.address ctx.events ≡ false
      → let r = add_to_slot op debug m fd ctx ev in
        Outcome op m r.1 r.0 fd (ctx.events ++ ev ∷ [])
        × Tells op m.backend r.1.backend r.0 fd ctx.events ev
  unfolding add_to_slot nread nwrite new_ctx insert_tail
  add_to_slot-Outcome debug unlisted = elim (Bool-cases (ltb 65535 nread || ltb 65535 nwrite)) [
    | inl many ↦ rw many (failed-Outcome op m fd _ v, tt)
    | inr few ↦ elim (Bool-cases (debug && mixes_et ctx.events ev)) [
      | inl mixed ↦ rw (few, mixed) (failed-Outcome op m fd _ v, tt)
      | inr pure ↦
          elim (Bool-cases
            ((ev.ev_events.read && nread == 1) || (ev.ev_events.write && nwrite == 1))) [
              | inl new ↦
                  rw (few, pure, unlisted, new)
                    (
                      told-Outcome op m fd new_ctx _ _ _ true v room (new_ctx-IsSlot few)
                          (λ t e.
                            op.add_waits m.backend t fd (old_events ctx) _ v.ready (sym old_read)
                              (sym old_write) e)
                          now_read now_write,
                      tells new_ctx _ asked (sym (ap₂ ◌||◌ asked_read asked_write) ∙ new),
                    )
              | inr old ↦
                  let (no_read, no_write) =
                    or_false (ev.ev_events.read && nread == 1) (ev.ev_events.write && nwrite == 1)
                      old in
                  rw (few, pure, unlisted, old)
                    (
                      untold-Outcome op m fd new_ctx v room (new_ctx-IsSlot few)
                          (rw no_read at now_read) (rw no_write at now_write),
                      (sym (ap₂ ◌||◌ asked_read asked_write) ∙ old, refl),
                    )
            ]
    ]
  ]
