-- ===== src/EvMap/Changelist/Pending.antt =====
-- What a changelist of evmap.c stands for, and when it is consistent.
use practising.Base.{
  ℕ, zero, suc, ◌+◌, ◌-◌, ◌≤◌, ◌<◌, ◌≡◌, ◌≢◌, refl, sym, ap, ◌∙◌, Bool, true, false, Option, none,
  some, List, [], ◌∷◌, ◌++◌, length, length-set, get_elem?, set, ◌==◌, if◌then◌else◌, arith,
  Bool-cases, inl, inr, ==→≡, ==→≢,
}
use mathlib.Core.Path.{subst}
use practising.EvMap.Changelist.{Wish, unchanged, change_add, change_del, Change, Changelist}

-- What the kernel will have been told in one direction.
abbrev pub apply : Wish → Bool → Bool
apply unchanged told = told
apply (change_add et) told = true
apply change_del told = false

abbrev pub read_of : Option Change → Bool → Bool
read_of none told = told
read_of (some c) told = apply c.read_change told

abbrev pub write_of : Option Change → Bool → Bool
write_of none told = told
write_of (some c) told = apply c.write_change told

-- The change that is noted for a descriptor.
abbrev pub noted : Changelist → ℕ → Option Change
noted cl j = if cl.idxplus1 j == 0 then none else get_elem? cl.changes (cl.idxplus1 j - 1)

-- What the back end waits for, once the changes are made.
abbrev pub waits_read : Changelist → ℕ → Bool
waits_read cl j = read_of (noted cl j) (cl.told_read j)

abbrev pub waits_write : Changelist → ℕ → Bool
waits_write cl j = write_of (noted cl j) (cl.told_write j)

-- Every change knows the descriptor that knows its index, and what the kernel was told before it.
pub record Consistent (cl : Changelist) : Type 0 where
  pub indexed :
      (j : ℕ)
      → cl.idxplus1 j ≢ 0
      → (c : Change) × (get_elem? cl.changes (cl.idxplus1 j - 1) ≡ some c) × (c.fd ≡ j)
  pub owned :
      (i : ℕ) (c : Change)
      → get_elem? cl.changes i ≡ some c
      → (cl.idxplus1 c.fd ≡ i + 1)
        × (c.old_read ≡ cl.told_read c.fd)
        × (c.old_write ≡ cl.told_write c.fd)
  pub room : length cl.changes ≤ cl.changes_size

get_elem?-set :
    {A : Type 0} (xs : List A) (i j : ℕ) (a b : A)
    → get_elem? xs i ≡ some a
    → get_elem? (set xs i b) j ≡ (if i == j then some b else get_elem? xs j)
get_elem?-set [] i j a b h = absurd (cc)
get_elem?-set (x ∷ xs) zero zero a b h = refl
get_elem?-set (x ∷ xs) zero (suc j) a b h = ground arith
get_elem?-set (x ∷ xs) (suc i) zero a b h = ground arith
get_elem?-set (x ∷ xs) (suc i) (suc j) a b h = ground (arith, get_elem?-set xs i j a b h)

pub get_elem?-append :
    {A : Type 0} (xs : List A) (j : ℕ) (b : A)
    → get_elem? (xs ++ b ∷ []) j ≡ (if length xs == j then some b else get_elem? xs j)
get_elem?-append [] zero b = refl
get_elem?-append [] (suc j) b = ground arith
get_elem?-append (x ∷ xs) zero b = ground arith
get_elem?-append (x ∷ xs) (suc j) b = ground (arith, get_elem?-append xs j b)

pub get_elem?_inside :
    {A : Type 0} (xs : List A) (i : ℕ) (a : A) → get_elem? xs i ≡ some a → i < length xs
get_elem?_inside [] i a e = absurd (cc)
get_elem?_inside (x ∷ xs) zero a e = omega arith
get_elem?_inside (x ∷ xs) (suc i) a e = omega (arith, get_elem?_inside xs i a e)

pub noted_at :
    (cl : Changelist) (j i : ℕ) → cl.idxplus1 j ≡ i + 1 → noted cl j ≡ get_elem? cl.changes i
noted_at cl j i e =
    let some_index : (cl.idxplus1 j == 0) ≡ false = ground (arith, e) in
    rw some_index (ap (get_elem? cl.changes) (omega (arith, e)))

pub noted-none : (cl : Changelist) (j : ℕ) → cl.idxplus1 j ≡ 0 → noted cl j ≡ none
noted-none cl j e = rw e refl

pub same_change : (a b : Change) → some a ≡ some b → a ≡ b
same_change a b e = cc

-- Writing a change back, about the same descriptor and what was told.
module _ (cl : Changelist) (idx : ℕ) (c d : Change) (v : Consistent cl)
    (here : get_elem? cl.changes idx ≡ some c) (same_fd : d.fd ≡ c.fd)
    (same_read : d.old_read ≡ c.old_read) (same_write : d.old_write ≡ c.old_write) where
  at :
      (i : ℕ)
      → get_elem? (set cl.changes idx d) i ≡ (if idx == i then some d else get_elem? cl.changes i)
  at i = get_elem?-set cl.changes idx i c d here

  pub replaced-Consistent : Consistent (record cl { changes = set cl.changes idx d })
  replaced-Consistent = record {
    indexed = λ j n.
        let (x, hx, fx) = v.indexed j n in
        elim (Bool-cases (idx == cl.idxplus1 j - 1)) [
          | inl e ↦
              let is_c : c ≡ x =
                same_change c x
                  (sym here ∙ ap (get_elem? cl.changes) (==→≡ idx (cl.idxplus1 j - 1) e) ∙ hx) in
              (d, at (cl.idxplus1 j - 1) ∙ rw e refl, same_fd ∙ ap (λ y. y.fd) is_c ∙ fx)
          | inr m ↦ (x, at (cl.idxplus1 j - 1) ∙ rw m hx, fx)
        ];
    owned = λ i e h. elim (Bool-cases (idx == i)) [
      | inl y ↦
          let is_d : d ≡ e = same_change d e (sym (at i ∙ rw y refl) ∙ h) in
          let (o, r, w) = v.owned idx c here in
          subst
            (λ z.
              (cl.idxplus1 z.fd ≡ i + 1)
              × (z.old_read ≡ cl.told_read z.fd)
              × (z.old_write ≡ cl.told_write z.fd))
            is_d
            (
              ap cl.idxplus1 same_fd ∙ o ∙ omega (arith, ==→≡ idx i y),
              same_read ∙ r ∙ ap cl.told_read (sym same_fd),
              same_write ∙ w ∙ ap cl.told_write (sym same_fd),
            )
      | inr n ↦ v.owned i e (sym (at i ∙ rw n refl) ∙ h)
    ];
    room = omega (arith, length-set {0} cl.changes idx d, v.room);
  }

  pub noted-replaced :
      (j : ℕ)
      → noted (record cl { changes = set cl.changes idx d }) j
        ≡ (if c.fd == j then some d else noted cl j)
  noted-replaced j =
      let cl' = record cl { changes = set cl.changes idx d } in
      elim (Bool-cases (c.fd == j)) [
        | inl y ↦
            let index : cl.idxplus1 j ≡ idx + 1 =
              ap cl.idxplus1 (sym (==→≡ c.fd j y)) ∙ (v.owned idx c here).0 in
            rw y (noted_at cl' j idx index ∙ at idx ∙ ground arith)
        | inr n ↦ rw n (elim (Bool-cases (cl.idxplus1 j == 0)) [
          | inl z ↦
              let zero_index = ==→≡ (cl.idxplus1 j) 0 z in
              noted-none cl' j zero_index ∙ sym (noted-none cl j zero_index)
          | inr some_index ↦
              let i = cl.idxplus1 j - 1 in
              let (x, hx, fx) = v.indexed j (==→≢ (cl.idxplus1 j) 0 some_index) in
              let index : cl.idxplus1 j ≡ i + 1 =
                omega (arith, ==→≢ (cl.idxplus1 j) 0 some_index) in
              let other : idx ≢ i = λ same. ==→≢ c.fd j n (
                ap (λ y. y.fd) (same_change c x (sym here ∙ ap (get_elem? cl.changes) same ∙ hx))
                ∙ fx) in
              noted_at cl' j i index ∙ at i ∙ ground (arith, other) ∙ sym (noted_at cl j i index)
        ])
      ]
