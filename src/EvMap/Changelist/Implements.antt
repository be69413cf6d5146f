-- ===== src/EvMap/Changelist/Implements.antt =====
-- The changelist as the back end that evmap.c asks for.
use mathlib.Core.Path.{subst}
use practising.Base.{ℕ, ◌≡◌, ◌⊎◌, arith, refl, Bool, true, false, Option, none, some, [], inl, inr}
use practising.EvMap.Backend.{Events, Eventop}
use practising.EvMap.Changelist.{
  Changelist, Result, ok, no_memory, assertion_failed, event_changelist_add, event_changelist_del,
}
use practising.EvMap.Changelist.Pending.{waits_read, waits_write, Consistent}
use practising.EvMap.Changelist.Waits.{Noted, event_changelist_waits}

-- evmap.c sees a -1 where memory is short.
abbrev pub answer : Result Changelist → Option Changelist
answer (ok cl) = some cl
answer no_memory = none
answer assertion_failed = none

same_list : (a b : Changelist) → some a ≡ some b → a ≡ b
same_list a b e = cc

pub told_list :
    (cl t : Changelist) (fd : ℕ) (events : Events) (to : Bool) (o : Result Changelist)
    → (o ≡ no_memory) ⊎ ((r : Changelist) × (o ≡ ok r) × Noted cl r fd events to)
    → answer o ≡ some t
    → Noted cl t fd events to
told_list cl t fd events to o (inl e) h = absurd (cc (rw e at h))
told_list cl t fd events to o (inr (r, e, n)) h =
    subst (λ x. Noted cl x fd events to) (same_list r t (rw e at h)) n

abbrev pub changelist_op : (ℕ → Bool) → Eventop
changelist_op realloc = record {
  State = Changelist;
  add = λ cl fd old events. answer (event_changelist_add realloc cl fd old events);
  del = λ cl fd old events. answer (event_changelist_del realloc cl fd old events);
  reads = waits_read;
  writes = waits_write;
  IsReady = Consistent;
  add_waits = λ cl t fd old events v r w e.
      let n =
        told_list cl t fd events true _ (event_changelist_waits realloc cl fd old events v r w).0
          e in
      (n.consistent, n.waits);
  del_waits = λ cl t fd old events v r w e.
      let n =
        told_list cl t fd events false _ (event_changelist_waits realloc cl fd old events v r w).1
          e in
      (n.consistent, n.waits);
}

-- event_changelist_init, on a kernel that waits for nothing.
abbrev pub event_changelist_init : Changelist
event_changelist_init = record {
  changes = [];
  changes_size = 0;
  idxplus1 = λ _. 0;
  told_read = λ _. false;
  told_write = λ _. false;
}

pub event_changelist_init-Consistent : Consistent event_changelist_init
event_changelist_init-Consistent = record {
  indexed = λ j n. absurd (n refl);
  owned = λ i c e. absurd (cc);
  room = omega arith;
}
