-- ===== src/EventBase/Dels.antt =====
-- event_del_internal of event.c takes an event out of every queue and leaves the base consistent.
use practising.Base.{
  ℕ, ◌≡◌, refl, sym, ap, ◌∙◌, Bool, true, false, some, ◌&&◌, ◌==◌, if◌then◌else◌, arith, Bool-cases,
  inl, inr, ==→≡,
}
use practising.MinHeap.{put, min_heap_erase}
use practising.EvMap.Backend.{Eventop}
use practising.EvMap.{Maps, Status, failed, same, changed, corrupt, remove}
use practising.EvMap.Slots.{is_ok, registered}
use practising.EvMap.Refusals.{RefusesNoDel}
use practising.EventBase.{Assigned, EventBase, on_inserted, on_active, on_timeout, unlink}
use practising.EventBase.Calls.{deleted, del_io, event_del_internal}
use practising.EventBase.State.{Valid, without, without-Valid, dequeue-without}
use practising.EventBase.Registered.{Kept, evmap_io_del-Kept}
use practising.EventBase.Linked.{IsLinked, is_fd, Lists-alike, Lists-same, Lists-remove}

module _ (ev : ℕ → Assigned) (op : Eventop) where
  -- What a call on event `e` leaves of the base, if it clears that event's flags.
  pub record Deleted (b r : EventBase op.State) (e : ℕ) : Type 0 where
    pub valid : Valid ev op r
    pub inserted : (x : ℕ) → r.inserted x ≡ (if e == x then false else b.inserted x)
    pub active : (x : ℕ) → r.active x ≡ (if e == x then false else b.active x)
    pub timeout : (x : ℕ) → r.timeout x ≡ (if e == x then false else b.timeout x)
    pub times : r.ev_timeout ≡ b.ev_timeout
    pub results : r.ev_res ≡ b.ev_res
    pub gaps : r.ev_io_timeout ≡ b.ev_io_timeout
    pub flags : (r.event_break ≡ b.event_break) × (r.event_continue ≡ b.event_continue)
    pub queues :
        r.activequeues ≡ put b.activequeues (ev e).ev_pri (unlink e (b.activequeues (ev e).ev_pri))
    pub erased : r.timeheap ≡ (min_heap_erase b.ev_timeout b.timeheap e).1

  -- Other maps, in which the inserted events still wait.
  pub with_maps-Valid :
      (b : EventBase op.State) (m : Maps op.State) (e : ℕ)
      → Valid ev op b
      → Kept ev op b.io m e
      → b.inserted e ≡ false
      → Valid ev op (record b { io = m })
  with_maps-Valid b m e v k out = record {
    heap = v.heap;
    timed = v.timed;
    activated = v.activated;
    listed = v.listed;
    maps = k.maps;
    genuine = k.genuine;
    wants = v.wants;
    waits = λ x h. k.others x (ev x).ev_fd (λ s. cc (ap b.inserted s)) (v.waits x h);
  }

  deleted_lem :
      (b : EventBase op.State) (st : Status) (m : Maps op.State)
      → deleted ev op b (some (st, m)) ≡ some (is_ok st, record b { io = m })
  unfolding deleted
  deleted_lem b failed m = refl
  deleted_lem b same m = refl
  deleted_lem b corrupt m = refl
  deleted_lem b changed m = refl

  -- event_del_internal on a consistent base: no queue and no assertion refuses. The event is in no
  -- queue any more, whatever the result, other events keep their flags, all times and results stay, and
  -- the base is consistent. Of an event that is not inserted the call succeeds, and the io map stays. An
  -- inserted event is taken out of the io map's list of its descriptor on success, and stays there on
  -- failure; all other lists stay. The call succeeds where the back end refuses no delete.
  pub event_del_internal_removes :
      (b : EventBase op.State) (e : ℕ)
      → Valid ev op b
      → (ok : Bool) × (r : EventBase op.State) × (event_del_internal ev op b e ≡ some (ok, r))
        × Deleted b r e
        × (b.inserted e ≡ false → (ok ≡ true) × (r.io ≡ b.io))
        × (b.inserted e ≡ true
            → (j : ℕ)
            → registered r.io j ≡ (
                if ok && is_fd (ev e).ev_fd j
                then remove e (registered b.io j)
                else registered b.io j))
        × (RefusesNoDel op → ok ≡ true)
  unfolding event_del_internal del_io
  event_del_internal_removes b e v =
      let (c1, d1, q1) = dequeue-without ev op b e on_timeout v in
      let b1 = without ev op c1 d1 b e on_timeout in
      let v1 = without-Valid ev op c1 d1 b e on_timeout v in
      let (c2, d2, q2) = dequeue-without ev op b1 e on_active v1 in
      let b2 = without ev op c2 d2 b1 e on_active in
      let v2 = without-Valid ev op c2 d2 b1 e on_active v1 in
      let (c3, d3, q3) = dequeue-without ev op b2 e on_inserted v2 in
      let b3 = without ev op c3 d3 b2 e on_inserted in
      let v3 = without-Valid ev op c3 d3 b2 e on_inserted v2 in
      elim (Bool-cases (b.inserted e)) [
        | inr out ↦ (
          true,
          b2,
          rw (q1, q2, q3, out) refl,
          record {
            valid = v2;
            inserted = λ x. elim (Bool-cases (e == x)) [
              | inl s ↦ rw s (sym (ap b.inserted (==→≡ e x s)) ∙ out)
              | inr n ↦ rw n refl
            ];
            active = λ x. refl;
            timeout = λ x. refl;
            times = refl;
            results = refl;
            gaps = refl;
            flags = (refl, refl);
            queues = refl;
            erased = refl;
          },
          λ _. (refl, refl),
          λ on. absurd (cc),
          λ _. refl,
        )
        | inl on ↦
            let (st, m, done, k, lists, willing) =
              evmap_io_del-Kept ev op b.io e v.maps v.genuine (v.waits e on) in
            (
              is_ok st,
              record b3 { io = m },
              rw (q1, q2, q3, on, v.wants e on, done) (deleted_lem b3 st m),
              record {
                valid = with_maps-Valid b3 m e v3 k (ground arith);
                inserted = λ x. refl;
                active = λ x. refl;
                timeout = λ x. refl;
                times = refl;
                results = refl;
                gaps = refl;
                flags = (refl, refl);
                queues = refl;
                erased = refl;
              },
              λ without. absurd (cc),
              λ _. lists,
              willing,
            )
      ]

  -- A successful event_del_internal keeps the io map's lists just those of the inserted events.
  pub event_del_internal-IsLinked :
      (b : EventBase op.State) (e : ℕ) (ok : Bool) (r : EventBase op.State)
      → Deleted b r e
      → (b.inserted e ≡ false → (ok ≡ true) × (r.io ≡ b.io))
      → (b.inserted e ≡ true
          → (j : ℕ)
          → registered r.io j ≡ (
              if ok && is_fd (ev e).ev_fd j
              then remove e (registered b.io j)
              else registered b.io j))
      → ok ≡ true
      → IsLinked ev b
      → IsLinked ev r
  event_del_internal-IsLinked b e ok r out same_io lists done l =
      Lists-alike ev (put b.inserted e false) r.inserted r.io out.inserted
        (elim (Bool-cases (b.inserted e)) [
          | inl on ↦ Lists-remove ev b.inserted b.io r.io e l on (λ j. lists on j ∙ rw done refl)
          | inr off ↦
              Lists-same ev (put b.inserted e false) b.io r.io
                (λ j. ap (λ m. registered m j) (same_io off).1)
                (Lists-alike ev b.inserted (put b.inserted e false) b.io
                  (λ x. elim (Bool-cases (e == x)) [
                    | inl s ↦ rw s (sym (ap b.inserted (sym (==→≡ e x s)) ∙ off))
                    | inr n ↦ rw n refl
                  ])
                  l)
        ])
