-- ===== src/EvMap/Changelist/Dispatch.antt =====
-- event_changelist_remove_all of evmap.c, which a back end calls when it has told the kernel.
use practising.Base.{
  ℕ, zero, suc, ◌+◌, ◌-◌, ◌≡◌, refl, sym, ap, ◌∙◌, true, ◌⊎◌, some, List, [], ◌∷◌, get_elem?, ◌==◌,
  if◌then◌else◌, arith, Bool-cases, inl, inr, ==→≡, ==→≢,
}
use practising.EvMap.Changelist.{
  Change, Changelist, ok, clear_indices, emptied, event_changelist_remove_all,
}
use practising.EvMap.Changelist.Pending.{
  waits_read, waits_write, read_of, write_of, noted-none, Consistent, same_change,
}

-- What clearing leaves of the indices.
record Cleared (changes : List Change) (before after : ℕ → ℕ) : Type 0 where
  gone : (k : ℕ) (c : Change) → get_elem? changes k ≡ some c → after c.fd ≡ 0
  kept : (j : ℕ) → (after j ≡ 0) ⊎ (after j ≡ before j)

-- A descriptor that is cleared stays so, and the others are as the remaining loop leaves them.
step-Cleared :
    (ch : Change) (changes : List Change) (before after : ℕ → ℕ)
    → Cleared changes (λ j. if ch.fd == j then 0 else before j) after
    → Cleared (ch ∷ changes) before after
step-Cleared ch changes before after c =
    let own : after ch.fd ≡ 0 = elim (c.kept ch.fd) [ inl z ↦ z | inr s ↦ ground (arith, s) ] in
    record {
      gone = λ k d g.
          elim k as (λ k. get_elem? (ch ∷ changes) k ≡ some d → after d.fd ≡ 0) [
            | zero ↦ λ g. ap (λ x. after x.fd) (sym (same_change ch d g)) ∙ own
            | suc k ↦ λ g. c.gone k d g
          ]
            g;
      kept = λ j. elim (c.kept j) [
        | inl z ↦ inl z
        | inr s ↦ elim (Bool-cases (ch.fd == j)) [
          | inl y ↦ inl (s ∙ rw y refl)
          | inr n ↦ inr (s ∙ rw n refl)
        ]
      ];
    }

-- A changelist once the kernel waits for what another asked.
abbrev pub told : Changelist → Changelist → Changelist
told r cl = record r { told_read = waits_read cl; told_write = waits_write cl }

clear_indices-Cleared :
    (i : ℕ) (changes : List Change) (idxplus1 : ℕ → ℕ)
    → ((k : ℕ) (c : Change) → get_elem? changes k ≡ some c → idxplus1 c.fd ≡ i + k + 1)
    → (after : ℕ → ℕ) × (clear_indices i changes idxplus1 ≡ ok after)
      × Cleared changes idxplus1 after
unfolding clear_indices
clear_indices-Cleared i [] idxplus1 h =
    (idxplus1, refl, record { gone = λ k c e. absurd (cc); kept = λ j. inr refl })
clear_indices-Cleared i (ch ∷ changes) idxplus1 h =
    let next = λ (j : ℕ). if ch.fd == j then 0 else idxplus1 j in
    let first : idxplus1 ch.fd ≡ i + 1 = omega (arith, h 0 ch refl) in
    let passed : (idxplus1 ch.fd == i + 1) ≡ true = ground (arith, first) in
    let (after, e, c) =
      clear_indices-Cleared (i + 1) changes next
        (λ k c g. let later = h (suc k) c g in ground (arith, later, first, ap idxplus1)) in
    (after, rw passed e, step-Cleared ch changes idxplus1 after c)

-- With a consistent changelist, once the kernel was told what the changes ask for,
-- event_changelist_remove_all meets none of its assertions. It leaves no change and no index, and
-- the back end waits for what it waited for before.
pub event_changelist_remove_all_dispatches :
    (cl : Changelist)
    → Consistent cl
    → (r : Changelist) × (event_changelist_remove_all cl ≡ ok r)
      × (r.changes ≡ [])
      × ((j : ℕ) → r.idxplus1 j ≡ 0)
      × Consistent (told r cl)
      × ((j : ℕ)
          → (waits_read (told r cl) j ≡ waits_read cl j)
            × (waits_write (told r cl) j ≡ waits_write cl j))
unfolding event_changelist_remove_all emptied
event_changelist_remove_all_dispatches cl v =
    let (after, e, c) =
      clear_indices-Cleared 0 cl.changes cl.idxplus1
        (λ k ch g. omega (arith, (v.owned k ch g).0)) in
    let r = record cl { changes = []; idxplus1 = after } in
    let empty : (j : ℕ) → after j ≡ 0 = λ j. elim (c.kept j) [
      | inl z ↦ z
      | inr s ↦ elim (Bool-cases (cl.idxplus1 j == 0)) [
        | inl z ↦ s ∙ ==→≡ (cl.idxplus1 j) 0 z
        | inr n ↦
            let (ch, g, f) = v.indexed j (==→≢ (cl.idxplus1 j) 0 n) in
            ap after (sym f) ∙ c.gone (cl.idxplus1 j - 1) ch g
      ]
    ] in
    (
      r,
      rw e refl,
      refl,
      empty,
      record {
        indexed = λ j n. absurd (n (empty j));
        owned = λ i ch g. absurd (cc);
        room = omega arith;
      },
      λ j. (
        ap (λ n. read_of n (waits_read cl j)) (noted-none (told r cl) j (empty j)),
        ap (λ n. write_of n (waits_write cl j)) (noted-none (told r cl) j (empty j)),
      ),
    )
