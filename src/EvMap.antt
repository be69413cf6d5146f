-- ===== src/EvMap.antt =====
-- LibEvent/Source/evmap.c, the events that wait for each descriptor, in the form for platforms with
-- small consecutive descriptors: an array of pointers, where `none` is NULL.
pub mod Backend
pub mod Slots
pub mod Adds
pub mod Space
pub mod Registers
pub mod Dels
pub mod Refusals
pub mod Runs
pub mod Changelist
mod Tests
use practising.Base.{
  ℕ, zero, suc, ◌+◌, ◌-◌, ◌*◌, ◌^◌, Bool, true, false, ◌&&◌, ◌||◌, not, Option, none, some, List,
  [], ◌∷◌, ◌++◌, length, get_or, set, replicate, ◌==◌, ltb, leb, if◌then◌else◌,
}
use practising.Base.Int.{ℤ, pos, negsuc}
use practising.EvMap.Backend.{Events, Eventop}

-- What evmap.c reads of a struct event, and a number for its address.
pub record Event : Type 0 where
  pub address : ℕ
  pub ev_fd : ℤ
  pub ev_events : Events

-- struct evmap_io
pub record EvmapIo : Type 0 where
  pub events : List Event
  pub nread : ℕ
  pub nwrite : ℕ

-- The io map of a struct event_base and the state of its back end.
pub record Maps (S : Type 0) : Type 0 where
  pub io : List (Option EvmapIo)
  pub backend : S

-- The results -1, 0 and 1, and `corrupt`, where an event that is in a list is put in it once more: its
-- links are then lost, and what the list holds is not known.
pub data Status : Type 0 where
  failed same changed corrupt : Status

-- The loop of evmap_make_space. An int holds the results for slots below 2 ^ 30, and eight times them,
-- the size in bytes, for slots below 2 ^ 27.
unfoldable pub double_space : ℕ → ℕ → ℕ → ℕ
double_space zero nentries slot = nentries
double_space (suc fuel) nentries slot =
    let rest = double_space fuel (nentries * 2) slot in if leb nentries slot then rest else nentries

-- evmap_make_space, with entries of the size of a pointer; `none` is its -1.
unfoldable pub evmap_make_space :
    (ℕ → Bool) → List (Option EvmapIo) → ℕ → Option (List (Option EvmapIo))
evmap_make_space realloc entries slot =
    let nentries = length entries in
    let grown = double_space 30 (if nentries == 0 then 32 else nentries) slot in
    if leb nentries slot
    then (if realloc (grown * 8) then some (entries ++ replicate (grown - nentries) none) else none)
    else some entries

-- evmap_io_init
abbrev pub evmap_io_init : EvmapIo
evmap_io_init = record { events = []; nread = 0; nwrite = 0 }

-- GET_IO_SLOT_AND_CTOR: the entry, which mm_calloc may fail to make.
unfoldable pub slot_and_ctor : Bool → Option EvmapIo → Option EvmapIo
slot_and_ctor calloc (some ctx) = some ctx
slot_and_ctor calloc none = if calloc then some evmap_io_init else none

unfoldable pub remove : ℕ → List Event → List Event
remove address [] = []
remove address (e ∷ es) = if e.address == address then es else e ∷ remove address es

-- Whether an event is in a list.
abbrev pub is_listed : ℕ → List Event → Bool
is_listed x [] = false
is_listed x (e ∷ es) = if e.address == x then true else is_listed x es

-- TAILQ_INSERT_TAIL of an event that is in the list or not, with what the call comes to if it is not.
unfoldable pub insert_tail : {S : Type 0} → Bool → Maps S → Status × Maps S → Status × Maps S
insert_tail false m r = r
insert_tail true m (failed, r) = (failed, r)
insert_tail true m (same, r) = (corrupt, m)
insert_tail true m (changed, r) = (corrupt, m)
insert_tail true m (corrupt, r) = (corrupt, m)

-- `old`: what the back end was asked for before.
abbrev pub old_events : EvmapIo → Events
old_events ctx = record { read = ltb 0 ctx.nread; write = ltb 0 ctx.nwrite; et = false }

-- The test of the debug mode: another event on the descriptor has another EV_ET.
unfoldable pub mixes_et : List Event → Event → Bool
mixes_et [] ev = false
mixes_et (old_ev ∷ es) ev = if old_ev.ev_events.et then not ev.ev_events.et else ev.ev_events.et

module _ (op : Eventop) where
  -- The end of evmap_io_add and evmap_io_del: a back end that refused, or the new entry.
  unfoldable pub store_slot : Maps op.State → ℕ → EvmapIo → Option op.State → Status × Maps op.State
  store_slot m fd ctx none = (failed, m)
  store_slot m fd ctx (some s) = (changed, record { io = set m.io fd (some ctx); backend = s })

  -- evmap_io_add once the slot has the entry `ctx`.
  unfoldable pub add_to_slot : Bool → Maps op.State → ℕ → EvmapIo → Event → Status × Maps op.State
  add_to_slot debug m fd ctx ev =
      let read = ev.ev_events.read in
      let write = ev.ev_events.write in
      let nread = if read then ctx.nread + 1 else ctx.nread in
      let nwrite = if write then ctx.nwrite + 1 else ctx.nwrite in
      let new_read = read && nread == 1 in
      let new_write = write && nwrite == 1 in
      let res : Events = record { read = new_read; write = new_write; et = ev.ev_events.et } in
      let ctx' : EvmapIo = record {
        events = ctx.events ++ ev ∷ [];
        nread = nread;
        nwrite = nwrite;
      } in
      if ltb 65535 nread || ltb 65535 nwrite
      then (failed, m)
      else if debug && mixes_et ctx.events ev
      then (failed, m)
      else insert_tail (is_listed ev.address ctx.events) m (
          if new_read || new_write
          then store_slot m fd ctx' (op.add m.backend fd (old_events ctx) res)
          else (same, record m { io = set m.io fd (some ctx') }))

  -- evmap_io_add from the point where the array has the slot.
  unfoldable pub enter_slot :
      Bool → Maps op.State → ℕ → Event → Option EvmapIo → Status × Maps op.State
  enter_slot debug m fd ev none = (failed, m)
  enter_slot debug m fd ev (some ctx) =
      add_to_slot debug (record m { io = set m.io fd (some ctx) }) fd ctx ev

  unfoldable pub add_at :
      Bool
      → Bool
      → Maps op.State
      → ℕ
      → Event
      → Option (List (Option EvmapIo))
      → Status × Maps op.State
  add_at calloc debug m fd ev none = (failed, m)
  add_at calloc debug m fd ev (some io) =
      enter_slot debug (record m { io = io }) fd ev (slot_and_ctor calloc (get_or io fd none))

  unfoldable pub add_fd :
      (ℕ → Bool) → Bool → Bool → Maps op.State → Event → ℤ → Status × Maps op.State
  add_fd realloc calloc debug m ev (negsuc _) = (same, m)
  add_fd realloc calloc debug m ev (pos fd) =
      add_at calloc debug m fd ev (evmap_make_space realloc m.io fd)

  -- evmap_io_add(base, ev->ev_fd, ev), as its callers call it. `debug` is EVENT_DEBUG_MODE_IS_ON.
  unfoldable pub evmap_io_add :
      (ℕ → Bool) → Bool → Bool → Maps op.State → Event → Status × Maps op.State
  evmap_io_add realloc calloc debug m ev = add_fd realloc calloc debug m ev ev.ev_fd

  -- evmap_io_del from the point where the entry is found; `none` is a failed assertion.
  unfoldable pub del_from_slot :
      Maps op.State → ℕ → EvmapIo → Event → Option (Status × Maps op.State)
  del_from_slot m fd ctx ev =
      let read = ev.ev_events.read in
      let write = ev.ev_events.write in
      let nread = if read then ctx.nread - 1 else ctx.nread in
      let nwrite = if write then ctx.nwrite - 1 else ctx.nwrite in
      let gone_read = read && nread == 0 in
      let gone_write = write && nwrite == 0 in
      let res : Events = record { read = gone_read; write = gone_write; et = false } in
      let ctx' : EvmapIo = record {
        events = remove ev.address ctx.events;
        nread = nread;
        nwrite = nwrite;
      } in
      if (read && ctx.nread == 0) || (write && ctx.nwrite == 0)
      then none
      else if gone_read || gone_write
      then some (store_slot m fd ctx' (op.del m.backend fd (old_events ctx) res))
      else some (same, record m { io = set m.io fd (some ctx') })

  -- A missing entry is a read through NULL.
  unfoldable pub del_found :
      Maps op.State → ℕ → Event → Option EvmapIo → Option (Status × Maps op.State)
  del_found m fd ev none = none
  del_found m fd ev (some ctx) = del_from_slot m fd ctx ev

  unfoldable pub del_fd : Maps op.State → Event → ℤ → Option (Status × Maps op.State)
  del_fd m ev (negsuc _) = some (same, m)
  del_fd m ev (pos fd) =
      if leb (length m.io) fd then some (failed, m) else del_found m fd ev (get_or m.io fd none)

  -- evmap_io_del(base, ev->ev_fd, ev)
  unfoldable pub evmap_io_del : Maps op.State → Event → Option (Status × Maps op.State)
  evmap_io_del m ev = del_fd m ev ev.ev_fd
