-- ===== src/EvMap/Changelist/Waits.antt =====
-- The changelist of evmap.c does what evmap.c asks of a back end.
use mathlib.Core.Path.{subst}
use practising.Base.{
  ℕ, ◌+◌, ◌≡◌, refl, sym, ap, ◌∙◌, Bool, true, false, ◌&&◌, ◌⊎◌, some, set, ◌==◌, if◌then◌else◌,
  arith, Bool-cases, inl, inr, ==→≡,
}
use practising.EvMap.Backend.{Events}
use practising.EvMap.Changelist.{
  Wish, unchanged, change_add, change_del, Change, Changelist, ok, no_memory, stored, added,
  deleted, is_add, taken_back, event_changelist_add, event_changelist_del,
}
use practising.EvMap.Changelist.Pending.{
  apply, read_of, write_of, noted, waits_read, waits_write, Consistent, noted_at,
  replaced-Consistent, noted-replaced,
}
use practising.EvMap.Changelist.Finds.{Found, get_or_construct-Found}

-- The back end of `r` waits for what that of `cl` waits for, but for `to` in the directions of
-- `events` on `fd`, and the kernel has not been told.
pub record Noted (cl r : Changelist) (fd : ℕ) (events : Events) (to : Bool) : Type 0 where
  pub consistent : Consistent r
  pub told : (r.told_read ≡ cl.told_read) × (r.told_write ≡ cl.told_write)
  pub waits :
      (j : ℕ)
      → (waits_read r j ≡ (if fd == j && events.read then to else waits_read cl j))
        × (waits_write r j ≡ (if fd == j && events.write then to else waits_write cl j))

module _ (cl : Changelist) (fd : ℕ) (events : Events) (to : Bool) (update : Change → Change)
    (r : Changelist) (idx : ℕ) (c : Change) (f : Found cl fd (r, idx, c))
    (same_fd : (update c).fd ≡ c.fd) (same_read : (update c).old_read ≡ c.old_read)
    (same_write : (update c).old_write ≡ c.old_write)
    (new_read : c.old_read ≡ r.told_read fd
      → apply (update c).read_change (r.told_read fd)
        ≡ (if events.read then to else apply c.read_change (r.told_read fd)))
    (new_write : c.old_write ≡ r.told_write fd
      → apply (update c).write_change (r.told_write fd)
        ≡ (if events.write then to else apply c.write_change (r.told_write fd))) where
  result : Changelist
  result = record r { changes = set r.changes idx (update c) }

  own :
      (r.idxplus1 c.fd ≡ idx + 1)
      × (c.old_read ≡ r.told_read c.fd)
      × (c.old_write ≡ r.told_write c.fd)
  own = f.consistent.owned idx c f.here

  noted-result : (j : ℕ) → noted result j ≡ (if c.fd == j then some (update c) else noted r j)
  unfolding result
  noted-result = noted-replaced r idx c (update c) f.consistent f.here same_fd same_read same_write

  noted_c : noted r fd ≡ some c
  noted_c = noted_at r fd idx (ap r.idxplus1 (sym f.about) ∙ own.0) ∙ f.here

  waits_here :
      (waits_read result fd ≡ (if events.read then to else waits_read cl fd))
      × (waits_write result fd ≡ (if events.write then to else waits_write cl fd))
  unfolding result
  waits_here =
      let now : noted result fd ≡ some (update c) = noted-result fd ∙ ground (arith, f.about) in
      (
        ap (λ o. read_of o (r.told_read fd)) now
            ∙ new_read (own.1 ∙ ap r.told_read f.about)
            ∙ ap (λ (b : Bool). if events.read then to else b)
                (sym (ap (λ o. read_of o (r.told_read fd)) noted_c) ∙ (f.same_waits fd).0),
        ap (λ o. write_of o (r.told_write fd)) now
            ∙ new_write (own.2 ∙ ap r.told_write f.about)
            ∙ ap (λ (b : Bool). if events.write then to else b)
                (sym (ap (λ o. write_of o (r.told_write fd)) noted_c) ∙ (f.same_waits fd).1),
      )

  result-Noted : Noted cl result fd events to
  unfolding result
  result-Noted = record {
    consistent =
        replaced-Consistent r idx c (update c) f.consistent f.here same_fd same_read same_write;
    told = f.told;
    waits = λ j. elim (Bool-cases (fd == j)) [
      | inl y ↦
          subst
            (λ (k : ℕ).
              (waits_read result k ≡ (if fd == k && events.read then to else waits_read cl k))
              × (waits_write result k ≡ (if fd == k && events.write then to else waits_write cl k)))
            (==→≡ fd j y) (let at_fd : (fd == fd) ≡ true = ground arith in rw at_fd waits_here)
      | inr n ↦
          let kept : noted result j ≡ noted r j = noted-result j ∙ ground (arith, f.about, n) in
          (
            rw n (ap (λ o. read_of o (r.told_read j)) kept ∙ (f.same_waits j).0),
            rw n (ap (λ o. write_of o (r.told_write j)) kept ∙ (f.same_waits j).1),
          )
    ];
  }

added_wish :
    (asked et : Bool) (w : Wish) (told : Bool)
    → apply (if asked then change_add et else w) told ≡ (if asked then true else apply w told)
added_wish true et w told = refl
added_wish false et w told = refl

deleted_wish :
    (asked old : Bool) (w : Wish) (told : Bool)
    → old ≡ told
    → apply (if asked then taken_back old w else w) told ≡ (if asked then false else apply w told)
unfolding taken_back is_add
deleted_wish true old unchanged told e = ground (arith, e)
deleted_wish true old (change_add et) told e = ground (arith, e)
deleted_wish true old change_del told e = ground (arith, e)
deleted_wish false old w told e = refl

-- event_changelist_add and event_changelist_del on a consistent changelist, told what the back end
-- waits for on the descriptor: no assertion fails. Either there is no memory, or the changelist is
-- consistent and stands for a back end that waits for the events added besides, or for all but the
-- events deleted, with the kernel told nothing yet.
pub event_changelist_waits :
    (realloc : ℕ → Bool) (cl : Changelist) (fd : ℕ) (old events : Events)
    → Consistent cl
    → old.read ≡ waits_read cl fd
    → old.write ≡ waits_write cl fd
    → ((event_changelist_add realloc cl fd old events ≡ no_memory)
        ⊎ ((r : Changelist) × (event_changelist_add realloc cl fd old events ≡ ok r)
            × Noted cl r fd events true))
      × ((event_changelist_del realloc cl fd old events ≡ no_memory)
          ⊎ ((r : Changelist) × (event_changelist_del realloc cl fd old events ≡ ok r)
              × Noted cl r fd events false))
unfolding event_changelist_add event_changelist_del stored added deleted result
event_changelist_waits realloc cl fd old events v old_r old_w =
    elim (get_or_construct-Found realloc cl fd old v old_r old_w) [
      | inl lost ↦ (inl (rw lost refl), inl (rw lost refl))
      | inr ((r, idx, c), got, f) ↦ (
        inr (
          _,
          rw got refl,
          result-Noted cl fd events true (added events) r idx c f refl refl refl
              (λ _. added_wish events.read events.et c.read_change _)
              (λ _. added_wish events.write events.et c.write_change _),
        ),
        inr (
          _,
          rw got refl,
          result-Noted cl fd events false (deleted events) r idx c f refl refl refl
              (λ e. deleted_wish events.read c.old_read c.read_change _ e)
              (λ e. deleted_wish events.write c.old_write c.write_change _ e),
        ),
      )
    ]
