-- ===== src/EvMap/Backend.antt =====
-- What evmap.c asks of the back end of an event base: struct eventop of
-- LibEvent/Source/event-internal.h, with what its add and del promise.
use practising.Base.{ℕ, ◌≡◌, Bool, true, false, ◌&&◌, Option, some, ◌==◌, if◌then◌else◌}

-- A short of EV_READ, EV_WRITE and EV_ET.
pub record Events : Type 0 where
  pub read : Bool
  pub write : Bool
  pub et : Bool

-- A back end: its calls, of which `none` is a -1 that changes nothing, and what it waits for. A call
-- is told what the back end waited for before.
pub record Eventop : Type 1 where
  pub State : Type 0
  pub add : State → ℕ → Events → Events → Option State
  pub del : State → ℕ → Events → Events → Option State
  pub reads : State → ℕ → Bool
  pub writes : State → ℕ → Bool
  pub IsReady : State → Type 0
  pub add_waits :
      (s t : State) (fd : ℕ) (old events : Events)
      → IsReady s
      → old.read ≡ reads s fd
      → old.write ≡ writes s fd
      → add s fd old events ≡ some t
      → IsReady t
        × ((j : ℕ)
            → (reads t j ≡ (if fd == j && events.read then true else reads s j))
              × (writes t j ≡ (if fd == j && events.write then true else writes s j)))
  pub del_waits :
      (s t : State) (fd : ℕ) (old events : Events)
      → IsReady s
      → old.read ≡ reads s fd
      → old.write ≡ writes s fd
      → del s fd old events ≡ some t
      → IsReady t
        × ((j : ℕ)
            → (reads t j ≡ (if fd == j && events.read then false else reads s j))
              × (writes t j ≡ (if fd == j && events.write then false else writes s j)))
