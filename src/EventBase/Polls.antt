-- ===== src/EventBase/Polls.antt =====
-- evmap_io_active of evmap.c: what a back end reports of a descriptor makes events active.
use practising.Base.{
  ℕ, Bool, false, ◌&&◌, ◌||◌, Option, none, some, List, [], ◌∷◌, length, get_or, leb, if◌then◌else◌,
}
use practising.EvMap.Backend.{Events}
use practising.EvMap.{Event, EvmapIo}
use practising.EventBase.{Assigned, EventBase, Fired, ◌>>=◌, event_active_nolock}

-- ev_events & events, and whether that is not 0.
abbrev pub meet : Events → Events → Events
meet a b = record { read = a.read && b.read; write = a.write && b.write; et = a.et && b.et }

abbrev pub is_any : Events → Bool
is_any a = a.read || a.write || a.et

abbrev pub met : Events → Events → Fired
met a b = record { events = meet a b; timed_out = false }

module _ (ev : ℕ → Assigned) {S : Type 0} (realloc : ℕ → Bool) (events : Events) where
  -- The loop over the events of a descriptor.
  unfoldable pub active_all : List Event → EventBase S → Option (EventBase S)
  active_all [] b = some b
  active_all (e ∷ es) b =
      let with_it =
        event_active_nolock ev realloc b e.address (met e.ev_events events) >>= active_all es in
      let without_it = active_all es b in
      if is_any (meet e.ev_events events) then with_it else without_it

  -- The list of the slot; `none` is a failed assertion.
  unfoldable pub active_slot : EventBase S → Option EvmapIo → Option (EventBase S)
  active_slot b none = none
  active_slot b (some ctx) = active_all ctx.events b

  unfoldable pub evmap_io_active : EventBase S → ℕ → Option (EventBase S)
  evmap_io_active b fd =
      if leb (length b.io.io) fd then none else active_slot b (get_or b.io.io fd none)
