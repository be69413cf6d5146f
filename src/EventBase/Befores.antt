-- ===== src/EventBase/Befores.antt =====
-- What event.c does to an active event before its callback is run.
use practising.Base.{
  ℕ, ◌≡◌, refl, sym, ap, ◌∙◌, Bool, true, false, ◌&&◌, some, List, ◌∷◌, ◌==◌, if◌then◌else◌, arith,
  Bool-cases, inl, inr, ==→≡,
}
use practising.MinHeap.{put}
use practising.EvMap.Backend.{Eventop}
use practising.EventBase.{
  Assigned, EventBase, on_active, timeradd, timer_gt, event_queue_remove, dequeue, unlink,
}
use practising.EventBase.State.{Valid, without, without-Valid, dequeue-without, one_if, count}
use practising.EventBase.Dels.{event_del_internal_removes, event_del_internal-IsLinked}
use practising.EventBase.Schedules.{event_add_internal-Added}
use practising.EventBase.Linked.{Lists-IsUnlinked}
use practising.EventBase.Waits.{IsTime}
use practising.EventBase.Joins.{gaps_absolute}
use practising.EventBase.Keeps.{choose}
use practising.EventBase.Process.{event_persist_closure, before_callback}
use practising.EventBase.Ready.{IsProgram, Ready, Ready-few, timeradd-IsTime}

module _ (ev : ℕ → Assigned) (op : Eventop) (realloc : ℕ → Bool) (calloc debug : Bool) (limit : ℕ)
    (program : IsProgram ev op limit) where
  -- The first event `e` of a queue is taken from it, and is active no longer.
  pub record Taken (b r : EventBase op.State) (pri e : ℕ) (q : List ℕ) : Type 0 where
    pub ready : Ready ev op limit r
    pub inactive : r.active e ≡ false
    pub queues : r.activequeues ≡ put b.activequeues pri q
    pub flags : (r.event_break ≡ b.event_break) × (r.event_continue ≡ b.event_continue)

  head-active :
      (b : EventBase op.State) (pri e : ℕ) (q : List ℕ)
      → Valid ev op b
      → b.activequeues pri ≡ e ∷ q
      → (b.active e ≡ true) × ((ev e).ev_pri ≡ pri)
  head-active b pri e q v h =
      let counted : count e (e ∷ q) ≡ one_if (b.active e && (ev e).ev_pri == pri) =
        ap (count e) (sym h) ∙ v.activated pri e in
      ground (arith, counted)

  -- The queue of its priority, without its head.
  unlinked :
      (b : EventBase op.State) (pri e : ℕ) (q : List ℕ)
      → b.activequeues pri ≡ e ∷ q
      → (ev e).ev_pri ≡ pri
      → put b.activequeues (ev e).ev_pri (unlink e (b.activequeues (ev e).ev_pri))
        ≡ put b.activequeues pri q
  unfolding unlink
  unlinked b pri e q h own =
      let found : (e == e) ≡ true = ground arith in
      let rest : unlink e (b.activequeues pri) ≡ q = rw (h, found) refl in
      ap (λ (p : ℕ). put b.activequeues p (unlink e (b.activequeues p))) own
      ∙ ap (put b.activequeues pri) rest

  persist-Taken :
      (now : ℕ × ℕ) (b r : EventBase op.State) (pri e : ℕ) (q : List ℕ)
      → IsTime now
      → (ev e).ev_persist ≡ true
      → Taken b r pri e q
      → (s : EventBase op.State) × (event_persist_closure ev op realloc calloc debug now r e
          ≡ some s)
        × Taken b s pri e q
  unfolding event_persist_closure
  persist-Taken now b r pri e q in_now lasting t =
      let delay = r.ev_io_timeout e in
      let relative_to = if (r.ev_res e).timed_out then r.ev_timeout e else now in
      let run_at = timeradd relative_to delay in
      let at = if timer_gt now run_at then timeradd now delay else run_at in
      elim (Bool-cases (delay.0 == 0 && delay.1 == 0)) [
        | inl none_set ↦ (r, rw none_set refl, t)
        | inr set ↦
            let (ok, s, done, out) =
              event_add_internal-Added ev op realloc calloc debug true now r e (some at)
                t.ready.valid (omega (arith, Ready-few ev op limit r t.ready, program.few))
                (program.descriptors e) (Lists-IsUnlinked ev r.inserted r.io e t.ready.linked) in
            (
              s,
              rw (set, done) refl,
              record {
                ready = record {
                  valid = out.valid;
                  known = λ x on. elim (Bool-cases (e == x)) [
                    | inl y ↦ rw (← ==→≡ e x y) (program.persists e lasting)
                    | inr n ↦ t.ready.known x (ground (arith, out.timeout x, on, n))
                  ];
                  times = λ x. rw (out.times x) (
                      choose (e == x && ok) at (r.ev_timeout x)
                        (in_at relative_to (chosen (r.ev_res e).timed_out)) (t.ready.times x));
                  gaps = λ x.
                      rw (out.gaps ∙ gaps_absolute ok (ev e).ev_persist r.ev_io_timeout e (some at))
                        (t.ready.gaps x);
                  linked = out.linked t.ready.linked;
                };
                inactive = out.active e ∙ ground (arith, t.inactive);
                queues = out.queues t.inactive ∙ t.queues;
                flags = (out.flags.0 ∙ t.flags.0, out.flags.1 ∙ t.flags.1);
              },
            )
      ]
    where
      chosen : (c : Bool) → IsTime (if c then r.ev_timeout e else now)
      chosen c = choose c (r.ev_timeout e) now (t.ready.times e) in_now

      in_at :
          (from : ℕ × ℕ)
          → IsTime from
          → IsTime (
              if timer_gt now (timeradd from (r.ev_io_timeout e))
              then timeradd now (r.ev_io_timeout e)
              else timeradd from (r.ev_io_timeout e))
      in_at from h =
          choose _ _ _ (timeradd-IsTime now (r.ev_io_timeout e) in_now (t.ready.gaps e))
            (timeradd-IsTime from (r.ev_io_timeout e) h (t.ready.gaps e))

  pub before_callback-Taken :
      (now : ℕ × ℕ) (b : EventBase op.State) (pri e : ℕ) (q : List ℕ)
      → IsTime now
      → Ready ev op limit b
      → b.activequeues pri ≡ e ∷ q
      → (r : EventBase op.State) × (before_callback ev op realloc calloc debug now b e ≡ some r)
        × Taken b r pri e q
  unfolding before_callback dequeue
  before_callback-Taken now b pri e q in_now k h =
      let (on, own) = head-active b pri e q k.valid h in
      elim (Bool-cases (ev e).ev_persist) [
        | inr once ↦
            let (ok, r, done, out, io, lists, willing) =
              event_del_internal_removes ev op b e k.valid in
            (
              r,
              rw (once, done) refl,
              record {
                ready = record {
                  valid = out.valid;
                  known = λ x on_x. k.known x (ground (arith, out.timeout x, on_x));
                  times = λ x. rw out.times (k.times x);
                  gaps = λ x. rw out.gaps (k.gaps x);
                  linked =
                      event_del_internal-IsLinked ev op b e ok r out io lists (willing program.dels)
                        k.linked;
                };
                inactive = out.active e ∙ ground arith;
                queues = out.queues ∙ unlinked b pri e q h own;
                flags = out.flags;
              },
            )
        | inl lasting ↦
            let (c, d, done) = dequeue-without ev op b e on_active k.valid in
            let removed : event_queue_remove ev b e on_active
                ≡ some (without ev op c d b e on_active) =
              rw on at done in
            let r = without ev op c d b e on_active in
            let (s, closed, t) = persist-Taken now b r pri e q in_now lasting (record {
              ready = record {
                valid = without-Valid ev op c d b e on_active k.valid;
                known = k.known;
                times = k.times;
                gaps = k.gaps;
                linked = k.linked;
              };
              inactive = ground arith;
              queues = unlinked b pri e q h own;
              flags = (refl, refl);
            }) in
            (s, rw (lasting, removed) closed, t)
      ]
