-- ===== src/EventBase/Reports.antt =====
-- What evmap_io_active of evmap.c does to the events of a descriptor, one by one.
use practising.Base.{
  ℕ, ◌≡◌, refl, sym, ap, ap₂, ◌∙◌, Bool, true, false, ◌&&◌, ◌||◌, List, ◌∷◌, ◌==◌, if◌then◌else◌,
  arith, Bool-cases, inl, inr, ==→≡,
}
use practising.EvMap.Backend.{Events, Eventop}
use practising.EvMap.{Event, is_listed}
use practising.EventBase.{Assigned, EventBase, Fired, join}
use practising.EventBase.State.{Valid, IsGenuine}
use practising.EventBase.Inserts.{Activated}
use practising.EventBase.Polls.{is_any, meet, met}

abbrev pub fired : Bool → Bool → Bool → Bool → Fired
fired r w et t = record { events = record { read = r; write = w; et = et }; timed_out = t }

pub same_fired :
    {r r' w w' e e' t t' : Bool}
    → r ≡ r'
    → w ≡ w'
    → e ≡ e'
    → t ≡ t'
    → fired r w e t ≡ fired r' w' e' t'
same_fired a b c d =
    ap₂ (λ (f : Bool → Fired) (x : Bool). f x)
      (ap₂ (λ (f : Bool → Bool → Fired) (x : Bool). f x) (ap₂ fired a b) c) d

pub again : (x y : Bool) → (x || y) || y ≡ x || y
again x y = ground arith

-- To be active for the same a second time changes nothing.
pub joined_again :
    (c t : Bool) (old res now y : Fired)
    → now ≡ (if t then join old res else res)
    → y ≡ (if c then join now res else now)
    → y ≡ (if t then join old res else res)
unfolding join
joined_again false t old res now y h k = k ∙ h
joined_again true true old res now y h k =
    k
    ∙ ap (λ f. join f res) h
    ∙ same_fired (again old.events.read res.events.read) (again old.events.write res.events.write)
        (again old.events.et res.events.et) (again old.timed_out res.timed_out)
joined_again true false old res now y h k =
    k
    ∙ ap (λ f. join f res) h
    ∙ same_fired (again false res.events.read) (again false res.events.write)
        (again false res.events.et) (again false res.timed_out)

pub active_still : (c y x : Bool) → y ≡ true → x ≡ (if c then true else y) → x ≡ true
active_still true y x h k = k
active_still false y x h k = k ∙ h

module _ (ev : ℕ → Assigned) (op : Eventop) (realloc : ℕ → Bool) (events : Events) where
  -- The base `r` is `b` with each event of a list that wants a reported event active for it.
  pub record Reports (b r : EventBase op.State) (es : List Event) : Type 0 where
    pub valid : Valid ev op r
    pub active :
        (x : ℕ)
        → r.active x
          ≡ (if is_listed x es && is_any (meet (ev x).ev_events events) then true else b.active x)
    pub results :
        (x : ℕ)
        → r.ev_res x ≡ (
            if is_listed x es && is_any (meet (ev x).ev_events events)
            then (if b.active x
                then join (b.ev_res x) (met (ev x).ev_events events)
                else met (ev x).ev_events events)
            else b.ev_res x)
    pub inserted : r.inserted ≡ b.inserted
    pub timeout : r.timeout ≡ b.timeout
    pub times : r.ev_timeout ≡ b.ev_timeout
    pub heap : r.timeheap ≡ b.timeheap
    pub gaps : r.ev_io_timeout ≡ b.ev_io_timeout
    pub io : r.io ≡ b.io
    pub stopped : r.event_break ≡ b.event_break
    pub term : r.event_gotterm ≡ b.event_gotterm

  -- An event that is made active, and then those of the rest of the list.
  pub then-Reports :
      (b m r : EventBase op.State) (e : Event) (es : List Event)
      → IsGenuine ev e
      → is_any (meet e.ev_events events) ≡ true
      → Activated ev op realloc b m e.address (met e.ev_events events)
      → Reports m r es
      → Reports b r (e ∷ es)
  then-Reports b m r e es own wants a s = record {
    valid = s.valid;
    active = λ x. elim (Bool-cases (e.address == x)) [
      | inl y ↦ rw (y, wanted x y) (active_still _ _ _ (a.active x ∙ rw y refl) (s.active x))
      | inr n ↦ rw n (
          s.active x
          ∙ ap
              (λ (z : Bool).
                if is_listed x es && is_any (meet (ev x).ev_events events) then true else z)
              (a.active x ∙ rw n refl))
    ];
    results = λ x. elim (Bool-cases (e.address == x)) [
      | inl y ↦
          let here = ==→≡ e.address x y in
          let first : m.ev_res x ≡ (
              if b.active x
              then join (b.ev_res x) (met (ev x).ev_events events)
              else met (ev x).ev_events events) =
            a.results x ∙ rw (y, here, same_events x y) refl in
          rw (y, wanted x y)
            (joined_again (is_listed x es && is_any (meet (ev x).ev_events events)) (b.active x) _ _
              _ _ first (s.results x ∙ rw (a.active x, y) refl))
      | inr n ↦ rw n (s.results x ∙ rw (a.active x, a.results x, n) refl)
    ];
    inserted = s.inserted ∙ a.inserted;
    timeout = s.timeout ∙ a.timeout;
    times = s.times ∙ a.times;
    heap = s.heap ∙ a.heap;
    gaps = s.gaps ∙ a.gaps;
    io = s.io ∙ a.io;
    stopped = s.stopped ∙ a.stopped;
    term = s.term ∙ a.term;
  }
    where
      same_events : (x : ℕ) → (e.address == x) ≡ true → e.ev_events ≡ (ev x).ev_events
      same_events x y =
          ap (λ (z : Event). z.ev_events) own
          ∙ ap (λ (z : ℕ). (ev z).ev_events) (==→≡ e.address x y)

      wanted : (x : ℕ) → (e.address == x) ≡ true → is_any (meet (ev x).ev_events events) ≡ true
      wanted x y = ap (λ (z : Events). is_any (meet z events)) (sym (same_events x y)) ∙ wants

  pub past-Reports :
      (b r : EventBase op.State) (e : Event) (es : List Event)
      → IsGenuine ev e
      → is_any (meet e.ev_events events) ≡ false
      → Reports b r es
      → Reports b r (e ∷ es)
  past-Reports b r e es own wants s = record {
    valid = s.valid;
    active = λ x. s.active x ∙ ap (λ (c : Bool). if c then true else b.active x) (sym (unwanted x));
    results = λ x.
        s.results x
        ∙ ap
            (λ (c : Bool).
              if c
              then (if b.active x
                  then join (b.ev_res x) (met (ev x).ev_events events)
                  else met (ev x).ev_events events)
              else b.ev_res x)
            (sym (unwanted x));
    inserted = s.inserted;
    timeout = s.timeout;
    times = s.times;
    heap = s.heap;
    gaps = s.gaps;
    io = s.io;
    stopped = s.stopped;
    term = s.term;
  }
    where
      unwanted :
          (x : ℕ)
          → (is_listed x (e ∷ es) && is_any (meet (ev x).ev_events events))
            ≡ (is_listed x es && is_any (meet (ev x).ev_events events))
      unwanted x = elim (Bool-cases (e.address == x)) [
        | inl y ↦
            let none_met : is_any (meet (ev x).ev_events events) ≡ false =
              ap (λ (z : Events). is_any (meet z events))
                (sym (
                  ap (λ (z : Event). z.ev_events) own
                  ∙ ap (λ (z : ℕ). (ev z).ev_events) (==→≡ e.address x y)))
              ∙ wants in
            rw (none_met, y) (and_false (is_listed x es))
        | inr n ↦ rw n refl
      ]
        where
          and_false : (c : Bool) → false ≡ (c && false)
          and_false c = ground arith
