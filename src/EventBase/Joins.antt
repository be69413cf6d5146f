-- ===== src/EventBase/Joins.antt =====
-- The part of event_add_internal of event.c about the io map, and what the whole is to do.
use practising.Base.{
  ℕ, ◌^◌, ◌<◌, ◌≡◌, refl, ◌∙◌, Bool, true, false, not, ◌&&◌, ◌||◌, Option, none, some, ◌==◌,
  if◌then◌else◌, arith, Bool-cases, inl, inr,
}
use practising.Base.Int.{ℤ, pos}
use practising.MinHeap.{put}
use practising.EvMap.Backend.{Eventop}
use practising.EvMap.{Maps, Status, failed, same, changed, corrupt, evmap_io_add}
use practising.EvMap.Slots.{is_ok}
use practising.EventBase.{
  Assigned, EventBase, on_inserted, timeradd, event_of, wants_io, event_queue_insert,
}
use practising.EventBase.Calls.{map_added, add_io}
use practising.EventBase.State.{Valid}
use practising.EventBase.Registered.{is_corrupt, Joined, evmap_io_add-Joined}
use practising.EventBase.Linked.{IsLinked, IsUnlinked, Lists-same, Lists-append}
use practising.EventBase.Inserts.{queued, queued-Valid, event_queue_insert-queued}

abbrev pub is_set : Option (ℕ × ℕ) → Bool
is_set none = false
is_set (some _) = true

-- The time at which a timeout is over that is asked for by `tv`.
abbrev pub time_of : Bool → ℕ × ℕ → Option (ℕ × ℕ) → ℕ × ℕ → ℕ × ℕ
time_of absolute now none old = old
time_of absolute now (some tv) old = if absolute then tv else timeradd now tv

-- The gaps between the timeouts of persistent events, where that of `e` is set to `tv` or not.
abbrev pub gaps_of : Bool → (ℕ → ℕ × ℕ) → ℕ → Option (ℕ × ℕ) → ℕ → ℕ × ℕ
gaps_of set old e none = old
gaps_of set old e (some tv) = if set then put old e tv else old

pub gaps_unset : (old : ℕ → ℕ × ℕ) (e : ℕ) (tv : Option (ℕ × ℕ)) → gaps_of false old e tv ≡ old
gaps_unset old e none = refl
gaps_unset old e (some tv) = refl

pub gaps_absolute :
    (ok persist : Bool) (old : ℕ → ℕ × ℕ) (e : ℕ) (tv : Option (ℕ × ℕ))
    → gaps_of (ok && (is_set tv && (persist && not true))) old e tv ≡ old
gaps_absolute ok persist old e none = refl
gaps_absolute ok persist old e (some tv) =
    let never : (ok && (persist && not true)) ≡ false = ground arith in rw never refl

module _ (ev : ℕ → Assigned) (op : Eventop) where
  -- Whether event_add_internal has something to do in the io map.
  abbrev pub joins : EventBase op.State → ℕ → Bool
  joins b e = wants_io ev e && not (b.inserted e || b.active e)

  -- What adding event `e` makes of the flags and times, where the call says `ok`.
  pub record Added (ok : Bool) (b r : EventBase op.State) (e : ℕ) (absolute : Bool) (now : ℕ × ℕ)
      (tv : Option (ℕ × ℕ)) : Type 0 where
    pub valid : Valid ev op r
    pub inserted :
        (x : ℕ) → r.inserted x ≡ (if e == x && (ok && joins b e) then true else b.inserted x)
    pub timeout :
        (x : ℕ) → r.timeout x ≡ (if e == x && (ok && is_set tv) then true else b.timeout x)
    pub active :
        (x : ℕ)
        → r.active x
          ≡ (if e == x && (ok && (is_set tv && (b.ev_res e).timed_out)) then false else b.active x)
    pub times :
        (x : ℕ)
        → r.ev_timeout x
          ≡ (if e == x && ok then time_of absolute now tv (b.ev_timeout e) else b.ev_timeout x)
    pub results : r.ev_res ≡ b.ev_res
    pub gaps :
        r.ev_io_timeout
        ≡ gaps_of (ok && (is_set tv && ((ev e).ev_persist && not absolute))) b.ev_io_timeout e tv
    pub flags : (r.event_break ≡ b.event_break) × (r.event_continue ≡ b.event_continue)
    pub queues : b.active e ≡ false → r.activequeues ≡ b.activequeues
    pub linked : IsLinked ev b → IsLinked ev r

  module _ (realloc : ℕ → Bool) (calloc debug : Bool) where
    map_added_lem :
        (b : EventBase op.State) (e : ℕ) (st : Status) (m : Maps op.State) (c d : ℤ)
        → is_corrupt st ≡ false
        → event_queue_insert ev realloc (record b { io = m }) e on_inserted
          ≡ some (queued ev op realloc c d (record b { io = m }) e on_inserted)
        → map_added ev op realloc calloc debug b e (st, m)
          ≡ some (
            is_ok st,
            if is_ok st
                then queued ev op realloc c d (record b { io = m }) e on_inserted
                else record b { io = m },
          )
    unfolding map_added
    map_added_lem b e failed m c d sound h = refl
    map_added_lem b e same m c d sound h = rw h refl
    map_added_lem b e corrupt m c d sound h = absurd (cc)
    map_added_lem b e changed m c d sound h = rw h refl

    -- The base once the io map was asked, with or without a timeout to follow.
    pub record Asked (ok : Bool) (b r : EventBase op.State) (e : ℕ) : Type 0 where
      pub valid : Valid ev op r
      pub inserted :
          (x : ℕ) → r.inserted x ≡ (if e == x && (ok && joins b e) then true else b.inserted x)
      pub timeout : r.timeout ≡ b.timeout
      pub active : r.active ≡ b.active
      pub times : r.ev_timeout ≡ b.ev_timeout
      pub results : r.ev_res ≡ b.ev_res
      pub heap : r.timeheap ≡ b.timeheap
      pub gaps : r.ev_io_timeout ≡ b.ev_io_timeout
      pub flags : (r.event_break ≡ b.event_break) × (r.event_continue ≡ b.event_continue)
      pub queues : r.activequeues ≡ b.activequeues
      pub linked : IsLinked ev b → IsLinked ev r

    maps-Valid :
        (b : EventBase op.State) (e : ℕ) (st : Status) (m : Maps op.State)
        → (v : Valid ev op b) → Joined ev op b.io e v.maps v.genuine st m
        → Valid ev op (record b { io = m })
    maps-Valid b e st m v j = record {
      heap = v.heap;
      timed = v.timed;
      activated = v.activated;
      listed = v.listed;
      maps = j.rest.maps;
      genuine = j.rest.genuine;
      wants = v.wants;
      waits = λ x h. j.all x (ev x).ev_fd (v.waits x h);
    }

    pub add_io-Asked :
        (b : EventBase op.State) (e : ℕ)
        → Valid ev op b
        → ((fd : ℕ) → (ev e).ev_fd ≡ pos fd → fd < 2 ^ 27)
        → (b.inserted e ≡ false → IsUnlinked ev b.io e)
        → (ok : Bool) × (r : EventBase op.State) × (add_io ev op realloc calloc debug b e
            ≡ some (ok, r))
          × Asked ok b r e
    unfolding add_io
    add_io-Asked b e v small unlinked = elim (Bool-cases (joins b e)) [
      | inr no_need ↦ (
        true,
        b,
        rw no_need refl,
        record {
          valid = v;
          inserted = λ x. rw no_need (ground arith);
          timeout = refl;
          active = refl;
          times = refl;
          results = refl;
          heap = refl;
          gaps = refl;
          flags = (refl, refl);
          queues = refl;
          linked = λ l. l;
        },
      )
      | inl need ↦
          let s = evmap_io_add op realloc calloc debug b.io (event_of ev e) in
          let out : b.inserted e ≡ false = ground (arith, need) in
          let j =
            evmap_io_add-Joined ev op b.io e v.maps v.genuine realloc calloc debug small
              (unlinked out) in
          let b1 = record b { io = s.1 } in
          let v1 = maps-Valid b e s.0 s.1 v j in
          let want : wants_io ev e ≡ true = ground (arith, need) in
          let (c, d, done) = event_queue_insert-queued ev op realloc b1 e on_inserted out in
          elim (Bool-cases (is_ok s.0)) [
            | inl ok ↦ (
              true,
              queued ev op realloc c d b1 e on_inserted,
              rw need (map_added_lem b e s.0 s.1 c d j.sound done ∙ rw ok refl),
              record {
                valid = queued-Valid ev op realloc c d b1 e on_inserted v1 out (want, j.itself ok);
                inserted = λ x. rw need (ground arith);
                timeout = refl;
                active = refl;
                times = refl;
                results = refl;
                heap = refl;
                gaps = refl;
                flags = (refl, refl);
                queues = refl;
                linked =
                    λ l. Lists-append ev b.inserted b.io s.1 e l out (λ i. j.lists i ∙ rw ok refl);
              },
            )
            | inr bad ↦ (
              false,
              b1,
              rw need (map_added_lem b e s.0 s.1 c d j.sound done ∙ rw bad refl),
              record {
                valid = v1;
                inserted = λ x. ground arith;
                timeout = refl;
                active = refl;
                times = refl;
                results = refl;
                heap = refl;
                gaps = refl;
                flags = (refl, refl);
                queues = refl;
                linked = Lists-same ev b.inserted b.io s.1 (λ i. j.lists i ∙ rw bad refl);
              },
            )
          ]
    ]
