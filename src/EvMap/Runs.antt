-- ===== src/EvMap/Runs.antt =====
-- Runs of calls on an io map of evmap.c, from evmap_io_initmap on.
use practising.Base.{ℕ, ◌^◌, ◌<◌, ◌≡◌, sym, ap, ◌∙◌, Bool, false, some, [], arith}
use mathlib.Core.Path.{subst}
use practising.Base.Int.{pos}
use practising.EvMap.Backend.{Eventop}
use practising.EvMap.{Event, Maps, Status, is_listed, evmap_io_add, evmap_io_del}
use practising.EvMap.Slots.{registered, Valid}
use practising.EvMap.Registers.{evmap_io_add_registers}
use practising.EvMap.Dels.{first_at, evmap_io_del_removes}

-- evmap_io_initmap, with a back end that has just been made.
abbrev pub evmap_io_initmap : {S : Type 0} → S → Maps S
evmap_io_initmap s = record { io = []; backend = s }

module _ (op : Eventop) where
  pub initmap-Valid :
      (s : op.State)
      → op.IsReady s
      → ((j : ℕ) → (op.reads s j ≡ false) × (op.writes s j ≡ false))
      → Valid op (evmap_io_initmap s)
  initmap-Valid s ready silent = record {
    slots = λ j. ground arith;
    ready = ready;
    reads = λ j. (silent j).0;
    writes = λ j. (silent j).1;
  }

  -- One call, or what the back end does of its own: its dispatch.
  pub data Step (m : Maps op.State) : Maps op.State → Type 0 where
    adds :
        (realloc : ℕ → Bool) (calloc debug : Bool) (ev : Event) (fd : ℕ)
        → ev.ev_fd ≡ pos fd
        → fd < 2 ^ 27
        → ((j : ℕ) → is_listed ev.address (registered m j) ≡ false)
        → Step m (evmap_io_add op realloc calloc debug m ev).1
    dels :
        (ev : Event) (fd : ℕ) (st : Status) (r : Maps op.State)
        → ev.ev_fd ≡ pos fd
        → first_at ev.address (registered m fd) ≡ some ev
        → evmap_io_del op m ev ≡ some (st, r)
        → Step m r
    dispatches :
        (t : op.State)
        → op.IsReady t
        → ((j : ℕ)
            → (op.reads t j ≡ op.reads m.backend j) × (op.writes t j ≡ op.writes m.backend j))
        → Step m (record m { backend = t })

  pub data Reach (s : Maps op.State) : Maps op.State → Type 0 where
    here : Reach s s
    next : {m r : Maps op.State} → Reach s m → Step m r → Reach s r

  same_result : (p q : Status × Maps op.State) → some p ≡ some q → p ≡ q
  same_result p q e = cc

  Step-Valid : {m r : Maps op.State} → Valid op m → Step m r → Valid op r
  Step-Valid {m} v (adds realloc calloc debug ev fd e small unlisted) =
      (evmap_io_add_registers op realloc calloc debug m ev fd v e small (unlisted fd)).0.valid
  Step-Valid {m} v (dels ev fd st r e waits d) =
      let (st', r', d', o) = evmap_io_del_removes op m ev fd v e waits in
      subst (Valid op) (ap (λ p. p.1) (same_result (st', r') (st, r) (sym d' ∙ d))) o.valid
  Step-Valid {m} v (dispatches t ready same) = record {
    slots = v.slots;
    ready = ready;
    reads = λ j. (same j).0 ∙ v.reads j;
    writes = λ j. (same j).1 ∙ v.writes j;
  }

  -- After any run of evmap_io_add, on descriptors below 2 ^ 27, of events that wait for none, of
  -- evmap_io_del of events that wait, whether the back end refuses or not, and of dispatches, from the
  -- empty map and a ready back end that waits for nothing: the counts of every slot are those of its
  -- events, none above 65535, and the back end is ready and waits for exactly the directions in which
  -- some event of the descriptor waits.
  pub evmap_runs-Valid :
      (s : op.State) (m : Maps op.State)
      → op.IsReady s
      → ((j : ℕ) → (op.reads s j ≡ false) × (op.writes s j ≡ false))
      → Reach (evmap_io_initmap s) m
      → Valid op m
  evmap_runs-Valid s m ready silent here = initmap-Valid s ready silent
  evmap_runs-Valid s m ready silent (next r st) =
      Step-Valid (evmap_runs-Valid s _ ready silent r) st
