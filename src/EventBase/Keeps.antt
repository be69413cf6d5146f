-- ===== src/EventBase/Keeps.antt =====
-- Calls of event.c that callbacks may make: they keep a base fit for the loop.
use practising.Base.{
  ℕ, ◌<◌, ◌≡◌, sym, ap, ◌∙◌, Bool, true, false, ◌&&◌, Option, none, some, ◌==◌, if◌then◌else◌,
  arith, Bool-cases, inl, inr, ==→≡,
}
use practising.EvMap.Backend.{Eventop}
use practising.EventBase.{Assigned, EventBase, Fired, timeradd, event_active_nolock}
use practising.EventBase.Calls.{event_del_internal, event_add_internal}
use practising.EventBase.Dels.{event_del_internal_removes, event_del_internal-IsLinked}
use practising.EventBase.Inserts.{event_active_nolock_activates}
use practising.EventBase.Joins.{time_of, gaps_of}
use practising.EventBase.Schedules.{event_add_internal-Added}
use practising.EventBase.Linked.{IsLinked-same, Lists-IsUnlinked}
use practising.EventBase.Waits.{IsTime}
use practising.EventBase.Ready.{IsProgram, Ready, Ready-few, timeradd-IsTime}

-- A time that a call is given, if any.
abbrev pub IsAsked : Option (ℕ × ℕ) → Type 0
IsAsked none = Unit
IsAsked (some tv) = IsTime tv

pub choose : (c : Bool) (x y : ℕ × ℕ) → IsTime x → IsTime y → IsTime (if c then x else y)
choose true x y h k = h
choose false x y h k = k

time_of-IsTime :
    (absolute : Bool) (now old : ℕ × ℕ) (tv : Option (ℕ × ℕ))
    → IsTime now
    → IsTime old
    → IsAsked tv
    → IsTime (time_of absolute now tv old)
time_of-IsTime absolute now old none in_now h k = h
time_of-IsTime absolute now old (some tv) in_now h k =
    choose absolute tv (timeradd now tv) k (timeradd-IsTime now tv in_now k)

gaps_of-IsTime :
    (set : Bool) (old : ℕ → ℕ × ℕ) (e x : ℕ) (tv : Option (ℕ × ℕ))
    → ((y : ℕ) → IsTime (old y))
    → IsAsked tv
    → IsTime (gaps_of set old e tv x)
gaps_of-IsTime set old e x none h k = h x
gaps_of-IsTime true old e x (some tv) h k = choose (e == x) tv (old x) k (h x)
gaps_of-IsTime false old e x (some tv) h k = h x

module _ (ev : ℕ → Assigned) (op : Eventop) (limit : ℕ) where
  pub event_del_internal-Ready :
      (b : EventBase op.State) (e : ℕ)
      → IsProgram ev op limit
      → Ready ev op limit b
      → (ok : Bool) × (r : EventBase op.State) × (event_del_internal ev op b e ≡ some (ok, r))
        × Ready ev op limit r
  event_del_internal-Ready b e program k =
      let (ok, r, done, out, io, lists, willing) = event_del_internal_removes ev op b e k.valid in
      (
        ok,
        r,
        done,
        record {
          valid = out.valid;
          known = λ x on. k.known x (ground (arith, out.timeout x, on));
          times = λ x. rw out.times (k.times x);
          gaps = λ x. rw out.gaps (k.gaps x);
          linked =
              event_del_internal-IsLinked ev op b e ok r out io lists (willing program.dels)
                k.linked;
        },
      )

  pub event_active_nolock-Ready :
      (realloc : ℕ → Bool) (b : EventBase op.State) (e : ℕ) (res : Fired)
      → Ready ev op limit b
      → (r : EventBase op.State) × (event_active_nolock ev realloc b e res ≡ some r)
        × Ready ev op limit r
  event_active_nolock-Ready realloc b e res k =
      let (r, done, out) = event_active_nolock_activates ev op realloc b e res k.valid in
      (
        r,
        done,
        record {
          valid = out.valid;
          known = λ x on. k.known x (ap (λ f. f x) (sym out.timeout) ∙ on);
          times = λ x. rw out.times (k.times x);
          gaps = λ x. rw out.gaps (k.gaps x);
          linked = IsLinked-same ev b r out.inserted out.io k.linked;
        },
      )

  pub event_add_internal-Ready :
      (realloc : ℕ → Bool) (calloc debug absolute : Bool) (now : ℕ × ℕ) (b : EventBase op.State)
      (e : ℕ) (tv : Option (ℕ × ℕ))
      → IsProgram ev op limit
      → e < limit
      → IsTime now
      → IsAsked tv
      → Ready ev op limit b
      → (ok : Bool) × (r : EventBase op.State) × (event_add_internal ev op realloc calloc debug
            absolute now b e tv
          ≡ some (ok, r))
        × Ready ev op limit r
  event_add_internal-Ready realloc calloc debug absolute now b e tv program below in_now asked k =
      let (ok, r, done, out) =
        event_add_internal-Added ev op realloc calloc debug absolute now b e tv k.valid
          (omega (arith, Ready-few ev op limit b k, program.few)) (program.descriptors e)
          (Lists-IsUnlinked ev b.inserted b.io e k.linked) in
      (
        ok,
        r,
        done,
        record {
          valid = out.valid;
          known = λ x on. elim (Bool-cases (e == x)) [
            | inl y ↦ rw (← ==→≡ e x y) below
            | inr n ↦ k.known x (ground (arith, out.timeout x, on, n))
          ];
          times = λ x. rw (out.times x) (
              choose (e == x && ok) _ _
                (time_of-IsTime absolute now (b.ev_timeout e) tv in_now (k.times e) asked)
                (k.times x));
          gaps = λ x. rw out.gaps (gaps_of-IsTime _ b.ev_io_timeout e x tv k.gaps asked);
          linked = out.linked k.linked;
        },
      )
