-- ===== src/EvMap/Changelist.antt =====
-- The changelist of LibEvent/Source/evmap.c and changelist-internal.h: a back end's add and del that
-- only note what to tell the kernel at the next dispatch. Signals have a back end of their own, and
-- EV_PERSIST, EV_SIGNAL and EV_CHANGE_SIGNAL do not come here.
pub mod Pending
pub mod Finds
pub mod Waits
pub mod Dispatch
pub mod Implements
use practising.Base.{
  ℕ, zero, suc, ◌+◌, ◌-◌, ◌*◌, Bool, true, false, ◌&&◌, not, Option, none, some, List, [], ◌∷◌,
  ◌++◌, length, get_elem?, set, ◌==◌, ltb, leb, if◌then◌else◌,
}
use practising.EvMap.Backend.{Events}

-- A read_change or write_change: 0, EV_CHANGE_ADD with or without EV_CHANGE_ET, EV_CHANGE_DEL.
pub data Wish : Type 0 where
  unchanged : Wish
  change_add : Bool → Wish
  change_del : Wish

-- struct event_change
pub record Change : Type 0 where
  pub fd : ℕ
  pub old_read : Bool
  pub old_write : Bool
  pub read_change : Wish
  pub write_change : Wish

-- struct event_changelist with the idxplus1 of each descriptor, and what the kernel was told.
pub record Changelist : Type 0 where
  pub changes : List Change
  pub changes_size : ℕ
  pub idxplus1 : ℕ → ℕ
  pub told_read : ℕ → Bool
  pub told_write : ℕ → Bool

-- How a call ends.
pub data Result {ℓ} (A : Type ℓ) : Type ℓ where
  ok : A → Result A
  no_memory : Result A
  assertion_failed : Result A

-- event_changelist_grow
unfoldable pub event_changelist_grow : (ℕ → Bool) → Changelist → Result Changelist
event_changelist_grow realloc cl =
    let new_size = if ltb cl.changes_size 64 then 64 else cl.changes_size * 2 in
    if realloc (new_size * 8) then ok (record cl { changes_size = new_size }) else no_memory

-- A new change behind the others.
unfoldable pub construct : ℕ → Events → Result Changelist → Result (Changelist × ℕ × Change)
construct fd old no_memory = no_memory
construct fd old assertion_failed = assertion_failed
construct fd old (ok cl) =
    let idx = length cl.changes in
    let change : Change = record {
      fd = fd;
      old_read = old.read;
      old_write = old.write;
      read_change = unchanged;
      write_change = unchanged;
    } in
    ok (
      record cl {
        changes = cl.changes ++ change ∷ [];
        idxplus1 = λ j. if fd == j then idx + 1 else cl.idxplus1 j;
      },
      idx,
      change,
    )

-- The change that is there at an index, which has to be about `fd`.
unfoldable pub found_at : Changelist → ℕ → ℕ → Option Change → Result (Changelist × ℕ × Change)
found_at cl fd idx none = assertion_failed
found_at cl fd idx (some change) =
    if change.fd == fd then ok (cl, idx, change) else assertion_failed

-- event_changelist_get_or_construct: the changelist, and the change with its index.
unfoldable pub get_or_construct :
    (ℕ → Bool) → Changelist → ℕ → Events → Result (Changelist × ℕ × Change)
get_or_construct realloc cl fd old =
    let n_changes = length cl.changes in
    let idx = cl.idxplus1 fd - 1 in
    if cl.idxplus1 fd == 0
    then (if ltb cl.changes_size n_changes
        then assertion_failed
        else construct fd old
            (if n_changes == cl.changes_size then event_changelist_grow realloc cl else ok cl))
    else found_at cl fd idx (get_elem? cl.changes idx)

-- Write a change back.
unfoldable pub stored : (Change → Change) → Result (Changelist × ℕ × Change) → Result Changelist
stored update no_memory = no_memory
stored update assertion_failed = assertion_failed
stored update (ok (cl, idx, change)) =
    ok (record cl { changes = set cl.changes idx (update change) })

-- An add replaces what was noted.
unfoldable pub added : Events → Change → Change
added events change = record change {
  read_change = if events.read then change_add events.et else change.read_change;
  write_change = if events.write then change_add events.et else change.write_change;
}

-- event_changelist_add
unfoldable pub event_changelist_add :
    (ℕ → Bool) → Changelist → ℕ → Events → Events → Result Changelist
event_changelist_add realloc cl fd old events =
    stored (added events) (get_or_construct realloc cl fd old)

pub is_add : Wish → Bool
is_add (change_add et) = true
is_add unchanged = false
is_add change_del = false

-- A delete of what is there only by a noted add takes the add back.
pub taken_back : Bool → Wish → Wish
taken_back old wish = if not old && is_add wish then unchanged else change_del

pub deleted : Events → Change → Change
deleted events change = record change {
  read_change =
      if events.read then taken_back change.old_read change.read_change else change.read_change;
  write_change =
      if events.write then taken_back change.old_write change.write_change else change.write_change;
}

-- event_changelist_del
unfoldable pub event_changelist_del :
    (ℕ → Bool) → Changelist → ℕ → Events → Events → Result Changelist
event_changelist_del realloc cl fd old events =
    stored (deleted events) (get_or_construct realloc cl fd old)

-- The loop of event_changelist_remove_all, from index `i` on.
pub clear_indices : ℕ → List Change → (ℕ → ℕ) → Result (ℕ → ℕ)
clear_indices i [] idxplus1 = ok idxplus1
clear_indices i (ch ∷ changes) idxplus1 =
    let rest = clear_indices (i + 1) changes (λ j. if ch.fd == j then 0 else idxplus1 j) in
    if idxplus1 ch.fd == i + 1 then rest else assertion_failed

pub emptied : Changelist → Result (ℕ → ℕ) → Result Changelist
emptied cl no_memory = no_memory
emptied cl assertion_failed = assertion_failed
emptied cl (ok idxplus1) = ok (record cl { changes = []; idxplus1 = idxplus1 })

pub event_changelist_remove_all : Changelist → Result Changelist
event_changelist_remove_all cl = emptied cl (clear_indices 0 cl.changes cl.idxplus1)
