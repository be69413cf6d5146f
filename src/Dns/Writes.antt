-- ===== src/Dns/Writes.antt =====
-- The loop of dnsname_to_labels of evdns.c: what all of its rounds write.
use mathlib.Core.Path.{subst}
use practising.Base.{
  ℕ, zero, suc, ◌+◌, ◌%◌, ◌≤◌, ◌<◌, ◌≡◌, ◌⊎◌, refl, sym, ap, ◌∙◌, Bool, false, Option, some, List,
  [], ◌∷◌, ◌++◌, append_assoc, length, last?, ltb, arith, Bool-cases, Option-cases, inl, inr, All,
  length-append,
}
use practising.Dns.Labels.{
  Table, Written, overrun, too_long, no_room, written, get_pos, dnslabel_table_add, bytes16,
  terminated, put_labels,
}
use practising.Dns.Names.{dotted, IsLabel, Names}
use practising.Dns.Entries.{Reads, AreTrue, map-AreTrue, later-IsTrue, add-AreTrue, get_pos-IsTrue}
use practising.Dns.Compress.{
  cut_dot-label, cut_dot-last, label-Reads, Outcome, found-Puts, settled, last-Puts,
}

dotted_cons :
    (l m : List ℕ) (labels ls : List (List ℕ))
    → IsLabel m
    → dotted labels ≡ dotted (m ∷ ls)
    → dotted (l ∷ labels) ≡ dotted (l ∷ m ∷ ls)
dotted_cons l m [] [] good h = absurd (omega (arith, good.0, ap length h))
dotted_cons l m [] (n ∷ ls) good h =
    absurd (omega (arith, good.0, ap length h, length-append m (b'.' ∷ dotted (n ∷ ls))))
dotted_cons l m (x ∷ labels) ls good h = ap (λ t. l ++ b'.' ∷ t) h

pub length-dotted :
    (l : List ℕ) (ls : List (List ℕ))
    → All IsLabel (l ∷ ls)
    → length ls < length (dotted (l ∷ ls)) + 1
length-dotted l [] good = omega arith
length-dotted l (m ∷ ls) (good, rest) =
    omega (arith, length-append l (b'.' ∷ dotted (m ∷ ls)), length-dotted m ls rest)

module _ (strdup : List ℕ → Bool) (buf_len : ℕ) where
  -- A label, and what was written behind it.
  after_label :
      (out l m : List ℕ) (ls : List (List ℕ)) (start : ℕ) (P : List ℕ × ℕ → Type 0) (w : Written)
      → start ≤ length out
      → All IsLabel (l ∷ m ∷ ls)
      → Outcome strdup buf_len
          (out ++ length l ∷ l)
          (m ∷ ls)
          start
          (λ x. P x ⊎ (x ≡ (dotted (l ∷ m ∷ ls), length out)))
          w
      → Outcome strdup buf_len out (l ∷ m ∷ ls) start P w
  after_label out l m ls start P w early (good, rest_good) h = at w h
    where
      size : length (out ++ length l ∷ l) ≡ length out + suc (length l)
      size = length-append out (length l ∷ l)

      spelled : length (dotted (l ∷ m ∷ ls)) ≡ length l + suc (length (dotted (m ∷ ls)))
      spelled = length-append l (b'.' ∷ dotted (m ∷ ls))

      at :
          (w : Written)
          → Outcome strdup buf_len
              (out ++ length l ∷ l)
              (m ∷ ls)
              start
              (λ x. P x ⊎ (x ≡ (dotted (l ∷ m ∷ ls), length out)))
              w
          → Outcome strdup buf_len out (l ∷ m ∷ ls) start P w
      at overrun h = omega (arith, size, spelled)
      at too_long h = h
      at no_room h = omega (arith, size, spelled)
      at (written out' table) h = record {
        rest = (length l ∷ l) ++ h.rest;
        extends = h.extends ∙ append_assoc out (length l ∷ l) h.rest;
        short = omega (arith, h.short, size, spelled);
        reads = reads start (omega arith);
        entries =
            settled strdup buf_len out' (dotted (l ∷ m ∷ ls)) (length out) P table
              (
                omega
                    (arith, size, ap length h.extends, length-append (out ++ length l ∷ l) h.rest),
                (length out', reads (length out) early),
              )
              h.entries;
      }
        where
          reads :
              (most : ℕ)
              → start ≤ most
              → Reads out' (length out) (length out') most (dotted (l ∷ m ∷ ls))
          reads most le =
              let r = h.reads in
              subst (λ o. Reads o (length out) (length out') most (dotted (l ∷ m ∷ ls)))
                (sym h.extends)
                (label-Reads out l h.rest (dotted (l ∷ m ∷ ls)) (length out') most good r.labels
                  r.pointers (dotted_cons l m r.labels ls rest_good.0 r.spelled) r.good
                  (subst
                    (λ o. Names o (length (out ++ length l ∷ l)) r.pointers r.labels (length out'))
                    h.extends r.names)
                  (omega (arith, r.few)))

  -- The name is in the table.
  found-Outcome :
      (fuel : ℕ) (out : List ℕ) (ls : List (List ℕ)) (start ref : ℕ) (P : List ℕ × ℕ → Type 0)
      (table : Option Table)
      → start ≤ length out
      → start ≤ 16384
      → AreTrue out start P table
      → ((x : List ℕ × ℕ) → P x → length (dotted ls) < length x.0)
      → get_pos table (dotted ls) ≡ some ref
      → (w : Written) × (put_labels strdup buf_len (suc fuel) out (dotted ls) table ≡ some w)
        × Outcome strdup buf_len out ls start P w
  unfolding put_labels
  found-Outcome fuel out ls start ref P table early small h long got =
      let there =
        get_pos-IsTrue out start P table (dotted ls) ref h
          (λ p w. omega (arith, long (dotted ls, p) w)) got in
      elim (Bool-cases (ltb buf_len (length out + 2))) [
        | inl full ↦ (no_room, rw (got, put_labels, full) refl, ground (arith, full))
        | inr room ↦ (
          written (out ++ bytes16 (ref % 16384 + 49152)) table,
          rw (got, put_labels, room) refl,
          found-Puts strdup buf_len out ls start ref P table early small h there,
        )
      ]

  kept_true :
      (out l : List ℕ) (start : ℕ) (P : List ℕ × ℕ → Type 0) (table : Option Table)
      → AreTrue out start P table
      → AreTrue (out ++ length l ∷ l) start P table
  kept_true out l start P table h =
      map-AreTrue out (out ++ length l ∷ l) start start P P table
        (λ x. elim [
          | inl t ↦ inl (later-IsTrue out (length l ∷ l) start start x (omega arith) t)
          | inr w ↦ inr w
        ])
        h

  pub put_labels-Outcome :
      (fuel : ℕ) (out l : List ℕ) (ls : List (List ℕ)) (start : ℕ) (P : List ℕ × ℕ → Type 0)
      (table : Option Table)
      → All IsLabel (l ∷ ls)
      → length ls < fuel
      → start ≤ length out
      → start ≤ 16384
      → AreTrue out start P table
      → ((x : List ℕ × ℕ) → P x → length (dotted (l ∷ ls)) < length x.0)
      → (w : Written) × (put_labels strdup buf_len fuel out (dotted (l ∷ ls)) table ≡ some w)
        × Outcome strdup buf_len out (l ∷ ls) start P w
  unfolding put_labels
  put_labels-Outcome zero out l ls start P table good enough early small h long =
      absurd (omega arith)
  put_labels-Outcome (suc fuel) out l [] start P table (good, _) enough early small h long =
      let cut = cut_dot-last l good.2 in
      let short : ltb 63 (length l) ≡ false = ground (arith, good.1) in
      elim (Option-cases (get_pos table l)) [
        | inr (ref, got) ↦ found-Outcome fuel out (l ∷ []) start ref P table early small h long got
        | inl lost ↦ elim (Bool-cases (ltb buf_len (length out + length l + 1))) [
          | inl full ↦ (no_room, rw (lost, put_labels, cut, short, full) refl, ground (arith, full))
          | inr room ↦ (
            terminated buf_len (out ++ length l ∷ l)
                (dnslabel_table_add strdup table l (length out)) (last? (out ++ length l ∷ l)),
            rw (lost, put_labels, cut, short, room, cut) refl,
            last-Puts strdup buf_len out l start P _ early good
                (add-AreTrue strdup out start P table l (length out) h),
          )
        ]
      ]
  put_labels-Outcome (suc fuel) out l (m ∷ ls) start P table (good, rest_good) enough early small h
        long =
      let name = dotted (l ∷ m ∷ ls) in
      let cut = cut_dot-label l (dotted (m ∷ ls)) good.2 in
      let short : ltb 63 (length l) ≡ false = ground (arith, good.1) in
      let total = length-append l (b'.' ∷ dotted (m ∷ ls)) in
      let out1 = out ++ length l ∷ l in
      let size = length-append out (length l ∷ l) in
      let table1 = dnslabel_table_add strdup table name (length out) in
      elim (Option-cases (get_pos table name)) [
        | inr (ref, got) ↦
            found-Outcome fuel out (l ∷ m ∷ ls) start ref P table early small h long got
        | inl lost ↦ elim (Bool-cases (ltb buf_len (length out + length l + 1))) [
          | inl full ↦
              (no_room, rw (lost, put_labels, cut, short, full) refl, ground (arith, full, total))
          | inr room ↦
              let (w, done, result) =
                put_labels-Outcome fuel out1 m ls start (λ x. P x ⊎ (x ≡ (name, length out))) table1
                  rest_good (omega (arith, enough)) (omega (arith, size, early)) small
                  (add-AreTrue strdup out1 start P table name (length out)
                    (kept_true out l start P table h))
                  (λ x. elim [
                    | inl w ↦ omega (arith, long x w, total)
                    | inr e ↦ omega (arith, ap (λ (y : List ℕ × ℕ). length y.0) e, total)
                  ]) in
              (
                w,
                rw (lost, put_labels, cut, short, room, cut) done,
                after_label out l m ls start P w early (good, rest_good) result,
              )
        ]
      ]
