-- ===== src/EvMap/Tests.antt =====
-- Concrete runs of evmap.c and of its changelist.
use practising.Base.{
  ℕ, ◌≡◌, refl, Bool, true, false, ◌⊎◌, some, [], ◌∷◌, ap, ◌∙◌, ◌&&◌, ◌==◌, Bool-cases, inl, inr,
  arith,
}
use practising.Base.Int.{pos}
use practising.EvMap.Backend.{Events, Eventop}
use practising.EvMap.{
  Event, Maps, Status, failed, is_listed, remove, add_fd, add_at, evmap_make_space, double_space,
  enter_slot, slot_and_ctor, add_to_slot, store_slot, mixes_et, insert_tail, evmap_io_add,
  evmap_io_del,
}
use practising.EvMap.Slots.{registered, is_ok, Valid, Outcome}
use practising.EvMap.Registers.{evmap_io_add_registers}
use practising.EvMap.Dels.{first_at, evmap_io_del_removes}
use practising.EvMap.Runs.{evmap_io_initmap, initmap-Valid, adds, here, next, evmap_runs-Valid}
use practising.EvMap.Changelist.{
  change_add, Changelist, ok, no_memory, event_changelist_add, event_changelist_del,
  get_or_construct, found_at, event_changelist_grow, construct, stored, added,
  event_changelist_remove_all,
}
use practising.EvMap.Changelist.Pending.{waits_read, waits_write, Consistent}
use practising.EvMap.Changelist.Waits.{Noted, event_changelist_waits}
use practising.EvMap.Changelist.Dispatch.{told, event_changelist_remove_all_dispatches}
use practising.EvMap.Changelist.Implements.{
  changelist_op, event_changelist_init, event_changelist_init-Consistent,
}

abbrev plenty : ℕ → Bool
plenty _ = true

abbrev op : Eventop
op = changelist_op plenty

abbrev to_read : Events
to_read = record { read = true; write = false; et = false }

abbrev to_write : Events
to_write = record { read = false; write = true; et = false }

abbrev nothing : Events
nothing = record { read = false; write = false; et = false }

abbrev reader : Event
reader = record { address = 1; ev_fd = pos 3; ev_events = to_read }

abbrev writer : Event
writer = record { address = 2; ev_fd = pos 3; ev_events = to_write }

abbrev fresh : Maps Changelist
fresh = evmap_io_initmap event_changelist_init

abbrev one_reader : Maps Changelist
one_reader = (evmap_io_add op plenty true false fresh reader).1

abbrev reader_and_writer : Maps Changelist
reader_and_writer = (evmap_io_add op plenty true false one_reader writer).1

fresh-Valid : Valid op fresh
fresh-Valid =
    initmap-Valid op event_changelist_init event_changelist_init-Consistent (λ j. (refl, refl))

abbrev short_of_memory : Status
short_of_memory = (evmap_io_add op (λ _. false) true false fresh reader).0

abbrev mixed : Status
mixed =
    (evmap_io_add op plenty true true one_reader
      (record writer { ev_events = record to_write { et = true } })).0

adds_run :
    (registered reader_and_writer 3 ≡ reader ∷ writer ∷ [])
    × (reader_and_writer.backend.changes
        ≡ record {
          fd = 3;
          old_read = false;
          old_write = false;
          read_change = change_add false;
          write_change = change_add false;
        }
          ∷ [])
    × (short_of_memory ≡ failed)
    × (mixed ≡ failed)
unfolding evmap_io_add add_fd add_at evmap_make_space double_space enter_slot slot_and_ctor
    add_to_slot store_slot event_changelist_add get_or_construct found_at event_changelist_grow
    construct stored added mixes_et insert_tail
adds_run = (refl, refl, refl, refl)

reader_waits : first_at 1 (registered one_reader 3) ≡ some reader
unfolding evmap_io_add add_fd add_at evmap_make_space double_space enter_slot slot_and_ctor
    add_to_slot store_slot event_changelist_add get_or_construct found_at event_changelist_grow
    construct stored added mixes_et insert_tail
reader_waits = refl

one_reader-Outcome :
    Outcome op fresh one_reader (evmap_io_add op plenty true false fresh reader).0 3 (reader ∷ [])
one_reader-Outcome =
    (evmap_io_add_registers op plenty true false fresh reader 3 fresh-Valid refl (omega arith)
      refl).0

-- The writer waits for no descriptor yet.
writer_unlisted : (j : ℕ) → is_listed 2 (registered one_reader j) ≡ false
writer_unlisted j =
    elim (Bool-cases (3 == j && is_ok (evmap_io_add op plenty true false fresh reader).0)) [
      | inl s ↦ ap (is_listed 2) (one_reader-Outcome.events j) ∙ rw s refl
      | inr n ↦ ap (is_listed 2) (one_reader-Outcome.events j) ∙ rw n refl
    ]

evmap_io_del_removes_example :
    (st : Status) × (r : Maps Changelist) × (evmap_io_del op one_reader reader ≡ some (st, r))
    × Outcome op one_reader r st 3 (remove 1 (registered one_reader 3))
evmap_io_del_removes_example =
    evmap_io_del_removes op one_reader reader 3 one_reader-Outcome.valid refl reader_waits

evmap_runs-Valid_example : Valid op reader_and_writer
evmap_runs-Valid_example =
    evmap_runs-Valid op event_changelist_init reader_and_writer event_changelist_init-Consistent
      (λ j. (refl, refl))
      (next (next here (adds plenty true false reader 3 refl (omega arith) (λ j. refl)))
        (adds plenty true false writer 3 refl (omega arith) writer_unlisted))

abbrev listed : Changelist
listed = one_reader.backend

event_changelist_waits_example :
    ((event_changelist_add plenty event_changelist_init 3 nothing to_read ≡ no_memory)
      ⊎ ((r : Changelist) × (event_changelist_add plenty event_changelist_init 3 nothing to_read
            ≡ ok r)
          × Noted event_changelist_init r 3 to_read true))
    × ((event_changelist_del plenty event_changelist_init 3 nothing to_read ≡ no_memory)
        ⊎ ((r : Changelist) × (event_changelist_del plenty event_changelist_init 3 nothing to_read
              ≡ ok r)
            × Noted event_changelist_init r 3 to_read false))
event_changelist_waits_example =
    event_changelist_waits plenty event_changelist_init 3 nothing to_read
      event_changelist_init-Consistent refl refl

event_changelist_remove_all_dispatches_example :
    (r : Changelist) × (event_changelist_remove_all listed ≡ ok r)
    × (r.changes ≡ [])
    × ((j : ℕ) → r.idxplus1 j ≡ 0)
    × Consistent (told r listed)
    × ((j : ℕ)
        → (waits_read (told r listed) j ≡ waits_read listed j)
          × (waits_write (told r listed) j ≡ waits_write listed j))
event_changelist_remove_all_dispatches_example =
    event_changelist_remove_all_dispatches listed one_reader-Outcome.valid.ready
