-- ===== src/EvMap/Changelist/Finds.antt =====
-- event_changelist_get_or_construct of evmap.c.
use mathlib.Core.Path.{subst}
use practising.Base.{
  ℕ, ◌+◌, ◌-◌, ◌*◌, ◌<◌, ◌≡◌, refl, sym, ap, ◌∙◌, Bool, true, false, ◌⊎◌, some, [], ◌∷◌, ◌++◌,
  length, length-append, get_elem?, ◌==◌, ltb, if◌then◌else◌, arith, Bool-cases, inl, inr, ==→≡,
  ==→≢,
}
use practising.EvMap.Backend.{Events}
use practising.EvMap.Changelist.{
  unchanged, Change, Changelist, ok, no_memory, event_changelist_grow, construct, found_at,
  get_or_construct,
}
use practising.EvMap.Changelist.Pending.{
  read_of, write_of, noted, waits_read, waits_write, Consistent, get_elem?-append, get_elem?_inside,
  noted_at, noted-none, same_change,
}

-- A change for descriptor `fd` has been found or made, and nothing else has changed.
pub record Found (cl : Changelist) (fd : ℕ) (r : Changelist × ℕ × Change) : Type 0 where
  pub consistent : Consistent r.0
  pub here : get_elem? r.0.changes r.1 ≡ some r.2
  pub about : r.2.fd ≡ fd
  pub told : (r.0.told_read ≡ cl.told_read) × (r.0.told_write ≡ cl.told_write)
  pub same_waits :
      (j : ℕ) → (waits_read r.0 j ≡ waits_read cl j) × (waits_write r.0 j ≡ waits_write cl j)

module _ (cl : Changelist) (fd : ℕ) (old : Events) (size : ℕ) (v : Consistent cl)
    (first : cl.idxplus1 fd ≡ 0) (room : length cl.changes < size)
    (old_read : old.read ≡ cl.told_read fd) (old_write : old.write ≡ cl.told_write fd) where
  new_change : Change
  new_change = record {
    fd = fd;
    old_read = old.read;
    old_write = old.write;
    read_change = unchanged;
    write_change = unchanged;
  }

  longer : Changelist
  longer = record cl {
    changes = cl.changes ++ new_change ∷ [];
    changes_size = size;
    idxplus1 = λ j. if fd == j then length cl.changes + 1 else cl.idxplus1 j;
  }

  at :
      (i : ℕ)
      → get_elem? (cl.changes ++ new_change ∷ []) i
        ≡ (if length cl.changes == i then some new_change else get_elem? cl.changes i)
  at i = get_elem?-append cl.changes i new_change

  at_end : get_elem? (cl.changes ++ new_change ∷ []) (length cl.changes + 1 - 1) ≡ some new_change
  at_end = at (length cl.changes + 1 - 1) ∙ ground arith

  other_fd : (e : Change) (i : ℕ) → cl.idxplus1 e.fd ≡ i + 1 → (fd == e.fd) ≡ false
  other_fd e i o = elim (Bool-cases (fd == e.fd)) [
    | inl y ↦ absurd (omega (arith, o, first, ap cl.idxplus1 (==→≡ fd e.fd y)))
    | inr n ↦ n
  ]

  longer-Consistent : Consistent longer
  unfolding longer new_change
  longer-Consistent = record {
    indexed = λ j n. elim (Bool-cases (fd == j)) [
      | inl y ↦ (
        new_change,
        ap (λ (k : ℕ). get_elem? (cl.changes ++ new_change ∷ []) (k - 1)) (rw y refl) ∙ at_end,
        ==→≡ fd j y,
      )
      | inr m ↦
          let (x, hx, fx) = v.indexed j (λ z. n (rw m z)) in
          let inside = get_elem?_inside cl.changes (cl.idxplus1 j - 1) x hx in
          (x, rw m (at (cl.idxplus1 j - 1) ∙ ground (arith, inside, hx)), fx)
    ];
    owned = λ i e h. elim (Bool-cases (length cl.changes == i)) [
      | inl y ↦
          let is_new : new_change ≡ e = same_change new_change e (sym (at i ∙ rw y refl) ∙ h) in
          subst
            (λ z.
              ((if fd == z.fd then length cl.changes + 1 else cl.idxplus1 z.fd) ≡ i + 1)
              × (z.old_read ≡ cl.told_read z.fd)
              × (z.old_write ≡ cl.told_write z.fd))
            is_new (ground (arith, ==→≡ (length cl.changes) i y), old_read, old_write)
      | inr n ↦
          let (o, r, w) = v.owned i e (sym (at i ∙ rw n refl) ∙ h) in
          let other : (fd == e.fd) ≡ false = other_fd e i o in (rw other o, r, w)
    ];
    room = omega (arith, length-append {0} cl.changes (new_change ∷ []), room);
  }

  noted_kept : (j : ℕ) → (fd == j) ≡ false → noted longer j ≡ noted cl j
  unfolding longer
  noted_kept j n = elim (Bool-cases (cl.idxplus1 j == 0)) [
    | inl z ↦
        let zero_index = ==→≡ (cl.idxplus1 j) 0 z in
        noted-none longer j (rw n zero_index) ∙ sym (noted-none cl j zero_index)
    | inr some_index ↦
        let i = cl.idxplus1 j - 1 in
        let (x, hx, fx) = v.indexed j (==→≢ (cl.idxplus1 j) 0 some_index) in
        let inside = get_elem?_inside cl.changes i x hx in
        let index : cl.idxplus1 j ≡ i + 1 = omega (arith, ==→≢ (cl.idxplus1 j) 0 some_index) in
        noted_at longer j i (rw n index)
        ∙ at i
        ∙ ground (arith, inside)
        ∙ sym (noted_at cl j i index)
  ]

  noted-longer : (j : ℕ) → noted longer j ≡ (if fd == j then some new_change else noted cl j)
  unfolding longer new_change
  noted-longer j = elim (Bool-cases (fd == j)) [
    | inl y ↦
        let chosen : (if fd == j then some new_change else noted cl j) ≡ some new_change =
          rw y refl in
        noted_at longer j (length cl.changes) (rw y refl)
        ∙ at (length cl.changes)
        ∙ ground arith
        ∙ sym chosen
    | inr n ↦
        let chosen : (if fd == j then some new_change else noted cl j) ≡ noted cl j = rw n refl in
        noted_kept j n ∙ sym chosen
  ]

  longer-Found : Found cl fd (longer, length cl.changes, new_change)
  unfolding longer new_change
  longer-Found = record {
    consistent = longer-Consistent;
    here = at (length cl.changes) ∙ ground arith;
    about = refl;
    told = (refl, refl);
    same_waits = λ j. elim (Bool-cases (fd == j)) [
      | inl y ↦
          let none_yet = noted-none cl j (ap cl.idxplus1 (sym (==→≡ fd j y)) ∙ first) in
          let new_one : noted longer j ≡ some new_change = noted-longer j ∙ rw y refl in
          (
            ap (λ o. read_of o (cl.told_read j)) new_one
                ∙ sym (ap (λ o. read_of o (cl.told_read j)) none_yet),
            ap (λ o. write_of o (cl.told_write j)) new_one
                ∙ sym (ap (λ o. write_of o (cl.told_write j)) none_yet),
          )
      | inr n ↦ (
        ap (λ o. read_of o (cl.told_read j)) (noted_kept j n),
        ap (λ o. write_of o (cl.told_write j)) (noted_kept j n),
      )
    ];
  }

same_result : {A : Type 0} (a b : A) → ok a ≡ ok b → a ≡ b
same_result a b e = cc

-- event_changelist_get_or_construct on a consistent changelist: no assertion fails, and what it
-- finds or makes changes nothing that the back end waits for.
pub get_or_construct-Found :
    (realloc : ℕ → Bool) (cl : Changelist) (fd : ℕ) (old : Events)
    → Consistent cl
    → old.read ≡ waits_read cl fd
    → old.write ≡ waits_write cl fd
    → (get_or_construct realloc cl fd old ≡ no_memory)
      ⊎ ((r : Changelist × ℕ × Change) × (get_or_construct realloc cl fd old ≡ ok r)
          × Found cl fd r)
unfolding get_or_construct construct found_at event_changelist_grow longer new_change
get_or_construct-Found realloc cl fd old v old_r old_w = elim (Bool-cases (cl.idxplus1 fd == 0)) [
  | inl z ↦
      let first = ==→≡ (cl.idxplus1 fd) 0 z in
      let none_yet = noted-none cl fd first in
      let old_read = old_r ∙ ap (λ o. read_of o (cl.told_read fd)) none_yet in
      let old_write = old_w ∙ ap (λ o. write_of o (cl.told_write fd)) none_yet in
      let enough : ltb cl.changes_size (length cl.changes) ≡ false = ground (arith, v.room) in
      let new_size = if ltb cl.changes_size 64 then 64 else cl.changes_size * 2 in
      elim (Bool-cases (length cl.changes == cl.changes_size)) [
        | inl full ↦ elim (Bool-cases (realloc (new_size * 8))) [
          | inl got ↦
              rw (z, enough, full, got)
                (inr (
                  _,
                  refl,
                  longer-Found cl fd old new_size v first (ground (arith, v.room)) old_read
                      old_write,
                ))
          | inr lost ↦ rw (z, enough, full, lost) (inl refl)
        ]
        | inr free ↦
            rw (z, enough, free)
              (inr (
                _,
                refl,
                longer-Found cl fd old cl.changes_size v first
                    (omega (arith, v.room, ==→≢ (length cl.changes) cl.changes_size free)) old_read
                    old_write,
              ))
      ]
  | inr n ↦
      let (c, here, about) = v.indexed fd (==→≢ (cl.idxplus1 fd) 0 n) in
      let same_fd : (c.fd == fd) ≡ true = ground (arith, about) in
      rw (n, here, same_fd)
        (inr (
          _,
          refl,
          record {
            consistent = v;
            here = here;
            about = about;
            told = (refl, refl);
            same_waits = λ j. (refl, refl);
          },
        ))
]
