-- ===== src/EventBase/Tests/Willing.antt =====
-- The changelist of evmap.c as a back end that refuses no delete, for the runs of event.c.
use practising.Base.{
  ℕ, ◌-◌, ◌==◌, ◌≡◌, refl, sym, ap, ◌∙◌, Bool, true, false, Option, none, some, length, ltb,
  get_elem?, if◌then◌else◌, Bool-cases, inl, inr,
}
use practising.EvMap.Backend.{Events}
use practising.EvMap.Changelist.{
  Changelist, get_or_construct, found_at, event_changelist_grow, construct, stored,
  event_changelist_del, Change, Result, ok, no_memory, assertion_failed, deleted as deleted_change,
}
use practising.EvMap.Refusals.{RefusesNoDel}
use practising.EvMap.Changelist.Waits.{event_changelist_waits}
use practising.EvMap.Changelist.Implements.{answer}
use practising.EventBase.Tests.{plenty, op}

-- With memory for every change, the changelist refuses no delete.
abbrev is_lost : {A : Type 0} → Result A → Bool
is_lost no_memory = true
is_lost _ = false

stored-kept :
    (f : Change → Change) (r : Result (Changelist × ℕ × Change))
    → is_lost r ≡ false
    → is_lost (stored f r) ≡ false
unfolding stored
stored-kept f no_memory h = h
stored-kept f assertion_failed h = refl
stored-kept f (ok (cl, idx, change)) h = refl

construct-kept :
    (fd : ℕ) (old : Events) (r : Result Changelist)
    → is_lost r ≡ false
    → is_lost (construct fd old r) ≡ false
unfolding construct
construct-kept fd old no_memory h = h
construct-kept fd old assertion_failed h = refl
construct-kept fd old (ok cl) h = refl

found_at-kept :
    (cl : Changelist) (fd idx : ℕ) (o : Option Change) → is_lost (found_at cl fd idx o) ≡ false
unfolding found_at
found_at-kept cl fd idx none = refl
found_at-kept cl fd idx (some change) = elim (Bool-cases (change.fd == fd)) [
  | inl s ↦ rw s refl
  | inr n ↦ rw n refl
]

either-kept :
    {A : Type 0} (c : Bool) (x y : Result A)
    → is_lost x ≡ false
    → is_lost y ≡ false
    → is_lost (if c then x else y) ≡ false
either-kept true x y h k = h
either-kept false x y h k = k

grow-kept : (cl : Changelist) → is_lost (event_changelist_grow plenty cl) ≡ false
unfolding event_changelist_grow
grow-kept cl = refl

del-kept :
    (cl : Changelist) (fd : ℕ) (old events : Events)
    → is_lost (event_changelist_del plenty cl fd old events) ≡ false
unfolding event_changelist_del get_or_construct
del-kept cl fd old events =
    stored-kept (deleted_change events) (get_or_construct plenty cl fd old) found
  where
    n : ℕ
    n = length cl.changes

    idx : ℕ
    idx = cl.idxplus1 fd - 1

    room : Result Changelist
    room = if n == cl.changes_size then event_changelist_grow plenty cl else ok cl

    new : Result (Changelist × ℕ × Change)
    new = if ltb cl.changes_size n then assertion_failed else construct fd old room

    found : is_lost (get_or_construct plenty cl fd old) ≡ false
    found =
        either-kept (cl.idxplus1 fd == 0) new (found_at cl fd idx (get_elem? cl.changes idx))
          (either-kept (ltb cl.changes_size n) assertion_failed (construct fd old room) refl (
            construct-kept fd old room (
              either-kept (n == cl.changes_size) (event_changelist_grow plenty cl) (ok cl)
                (grow-kept cl) refl)))
          (found_at-kept cl fd idx (get_elem? cl.changes idx))

pub changelist_op-RefusesNoDel : RefusesNoDel op
changelist_op-RefusesNoDel cl fd old events consistent reads writes =
    elim (event_changelist_waits plenty cl fd old events consistent reads writes).1 [
      | inl lost ↦ absurd (cc (sym (ap is_lost lost) ∙ del-kept cl fd old events))
      | inr (r, done, _) ↦ (r, ap answer done)
    ]
