-- ===== src/Dns/Compress.antt =====
-- dnsname_to_labels of evdns.c writes what name_parse reads, with compression and without.
use mathlib.Core.Path.{subst}
use practising.Base.{
  ℕ, suc, ◌+◌, ◌/◌, ◌%◌, ◌≤◌, ◌<◌, ◌≡◌, ◌≢◌, ◌⊎◌, refl, sym, ap, ◌∙◌, Bool, false, Option, none,
  some, List, [], ◌∷◌, ◌++◌, append_assoc, length, last?, take, drop, ◌==◌, leb, arith, Bool-cases,
  inl, inr, All, length-append, take-length,
}
use practising.Dns.Labels.{
  Table, Written, overrun, too_long, no_room, written, cut_dot, bytes16, terminated,
}
use practising.Dns.Names.{dotted, IsLabel, Names, stop, label, pointer}
use practising.Dns.Entries.{
  get_elem?-append, get_elem?-length, get_elem?-second, append-Names, Reads, IsTrue, AreTrue,
  map-AreTrue, later-IsTrue,
}

pub cut_dot-label :
    (l name : List ℕ)
    → All (λ c. (c ≢ b'.') × (c ≢ 0)) l
    → cut_dot (l ++ b'.' ∷ name) ≡ (l, some name)
unfolding cut_dot
cut_dot-label [] name h = refl
cut_dot-label (c ∷ l) name ((no_dot, _), h) =
    let other : (c == b'.') ≡ false = ground (arith, no_dot) in
    rw (cut_dot-label l name h, other) refl

pub cut_dot-last : (l : List ℕ) → All (λ c. (c ≢ b'.') × (c ≢ 0)) l → cut_dot l ≡ (l, none)
unfolding cut_dot
cut_dot-last [] h = refl
cut_dot-last (c ∷ l) ((no_dot, _), h) =
    let other : (c == b'.') ≡ false = ground (arith, no_dot) in rw (cut_dot-last l h, other) refl

-- The last byte of a label is not zero.
last-label :
    (out l : List ℕ) (n : ℕ)
    → 0 < length l
    → All (λ c. (c ≢ b'.') × (c ≢ 0)) l
    → (c : ℕ) × (last? (out ++ n ∷ l) ≡ some c) × (c ≢ 0)
last-label [] [] n some_there h = absurd (omega arith)
last-label [] (c ∷ []) n some_there ((_, no_zero), h) = (c, refl, no_zero)
last-label [] (c ∷ d ∷ l) n some_there (_, h) = last-label [] (d ∷ l) c (omega arith) h
last-label (x ∷ []) l n some_there h = last-label [] l n some_there h
last-label (x ∷ y ∷ out) l n some_there h = last-label (y ∷ out) l n some_there h

take-drop-label :
    (out l rest : List ℕ) (n : ℕ)
    → take (length l) (drop (length out + 1) ((out ++ n ∷ l) ++ rest)) ≡ l
take-drop-label [] l rest n = take-length l rest
take-drop-label (x ∷ out) l rest n =
    ap (λ i. take (length l) (drop i (((x ∷ out) ++ n ∷ l) ++ rest))) (step (length out))
    ∙ take-drop-label out l rest n
  where
    step : (n : ℕ) → suc n + 1 ≡ suc (n + 1)
    step n = omega arith

-- A label that was written, and labels behind it.
pub label-Reads :
    (out l rest text : List ℕ) (e most : ℕ)
    → IsLabel l
    → (labels : List (List ℕ)) (pointers : ℕ) → dotted (l ∷ labels) ≡ text
    → All IsLabel labels
    → Names ((out ++ length l ∷ l) ++ rest) (length (out ++ length l ∷ l)) pointers labels e
    → pointers ≤ most
    → Reads ((out ++ length l ∷ l) ++ rest) (length out) e most text
label-Reads out l rest text e most good labels pointers spelled all names few = record {
  labels = l ∷ labels;
  pointers = pointers;
  spelled = spelled;
  good = (good, all);
  names =
      label (length out) pointers e l labels
        (get_elem?-append _ rest (length out) (length l) (get_elem?-length out l (length l))) good
        (take-drop-label out l rest (length l))
        (omega (arith, length-append (out ++ length l ∷ l) rest, size))
        (subst (λ i. Names ((out ++ length l ∷ l) ++ rest) i pointers labels e)
          (omega (arith, size)) names);
  few = few;
}
  where
    size : length (out ++ length l ∷ l) ≡ length out + suc (length l)
    size = length-append out (length l ∷ l)

module _ (strdup : List ℕ → Bool) (buf_len : ℕ) where
  -- What put_labels gives for the labels `ls` from the end of `out` on, where the entries of the table
  -- are true of what stands before `start`, or pending.
  pub record Puts (out out' : List ℕ) (ls : List (List ℕ)) (start : ℕ)
      (Pending : List ℕ × ℕ → Type 0) (table : Option Table) : Type 0 where
    pub rest : List ℕ
    pub extends : out' ≡ out ++ rest
    pub short : length out' ≤ length out + length (dotted ls) + 2
    pub reads : Reads out' (length out) (length out') start (dotted ls)
    pub entries : AreTrue out' (length out') Pending table

  -- How the bytes come about from `out`.
  abbrev pub Outcome : List ℕ → List (List ℕ) → ℕ → (List ℕ × ℕ → Type 0) → Written → Type 0
  Outcome out ls start Pending overrun = buf_len < length out + length (dotted ls) + 2
  Outcome out ls start Pending too_long = ⊥
  Outcome out ls start Pending no_room = buf_len < length out + length (dotted ls) + 2
  Outcome out ls start Pending (written out' table) = Puts out out' ls start Pending table

  -- A pointer to the name where the table has it.
  pub found-Puts :
      (out : List ℕ) (ls : List (List ℕ)) (start ref : ℕ) (Pending : List ℕ × ℕ → Type 0)
      (table : Option Table)
      → start ≤ length out
      → start ≤ 16384
      → AreTrue out start Pending table
      → IsTrue out start (dotted ls, ref)
      → Puts out (out ++ bytes16 (ref % 16384 + 49152)) ls start Pending table
  found-Puts out ls start ref Pending table early small all_true (before, (e, r)) =
      let x = ref % 16384 + 49152 in
      let out' = out ++ bytes16 x in
      let size : length out' ≡ length out + 2 = length-append out (bytes16 x) in
      record {
        rest = bytes16 x;
        extends = refl;
        short = omega (arith, size);
        reads = record {
          labels = r.labels;
          pointers = suc r.pointers;
          spelled = r.spelled;
          good = r.good;
          names =
              pointer (length out) (suc r.pointers) (length out') ref r.pointers e (x / 256 % 256)
                (x % 256) r.labels (get_elem?-length out (x % 256 ∷ []) (x / 256 % 256))
                (omega arith) (get_elem?-second out (x / 256 % 256) (x % 256))
                (omega (arith, before, small)) (omega (arith, size, before, early)) size refl
                (append-Names out (bytes16 x) r.names);
          few = omega (arith, r.few, before);
        };
        entries =
            map-AreTrue out out' start (length out') Pending Pending table
              (λ y. elim [
                | inl t ↦ inl (
                    later-IsTrue out (bytes16 x) start (length out') y (omega (arith, early, size))
                      t)
                | inr w ↦ inr w
              ])
              all_true;
      }

  -- The bytes that a label starts with keep what is true of those before them.
  pub grown-AreTrue :
      (out xs ys : List ℕ) (start : ℕ) (P : List ℕ × ℕ → Type 0) (table : Option Table)
      → start ≤ length out
      → AreTrue out start P table
      → AreTrue ((out ++ xs) ++ ys) (length ((out ++ xs) ++ ys)) P table
  grown-AreTrue out xs ys start P table early h =
      let size = length-append (out ++ xs) ys in
      map-AreTrue out ((out ++ xs) ++ ys) start (length ((out ++ xs) ++ ys)) P P table
        (λ x. elim [
          | inl t ↦ inl (
              later-IsTrue (out ++ xs) ys start (length ((out ++ xs) ++ ys)) x
                (omega (arith, size, length-append out xs))
                (later-IsTrue out xs start start x (omega arith) t))
          | inr w ↦ inr w
        ])
        h

  -- An entry that was pending, and is written out.
  pub settled :
      (packet text : List ℕ) (pos : ℕ) (P : List ℕ × ℕ → Type 0) (table : Option Table)
      → IsTrue packet (length packet) (text, pos)
      → AreTrue packet (length packet) (λ x. P x ⊎ (x ≡ (text, pos))) table
      → AreTrue packet (length packet) P table
  settled packet text pos P table new h =
      map-AreTrue packet packet (length packet) (length packet) _ P table
        (λ x. elim [
          | inl t ↦ inl t
          | inr (inl w) ↦ inr w
          | inr (inr same) ↦ inl (subst (IsTrue packet (length packet)) (sym same) new)
        ])
        h

  -- The last label and the zero behind it.
  pub last-Puts :
      (out l : List ℕ) (start : ℕ) (Pending : List ℕ × ℕ → Type 0) (table : Option Table)
      → start ≤ length out
      → IsLabel l
      → AreTrue out start (λ x. Pending x ⊎ (x ≡ (l, length out))) table
      → let out' = out ++ length l ∷ l in
        Outcome out (l ∷ []) start Pending (terminated buf_len out' table (last? out'))
  unfolding terminated
  last-Puts out l start Pending table early good all_true =
      let out' = out ++ length l ∷ l in
      let size : length out' ≡ length out + suc (length l) = length-append out (length l ∷ l) in
      let (c, last, no_zero) = last-label out l (length l) good.0 good.2 in
      let not_there : (c == 0) ≡ false = ground (arith, no_zero) in
      rw (last, not_there)
        (elim (Bool-cases (leb buf_len (length out'))) [
          | inl full ↦ rw full (ground (arith, full, size))
          | inr room ↦ rw room (record {
            rest = (length l ∷ l) ++ 0 ∷ [];
            extends = append_assoc out (length l ∷ l) (0 ∷ []);
            short = omega (arith, size, more);
            reads = reads start;
            entries =
                settled (out' ++ 0 ∷ []) l (length out) Pending table
                  (omega (arith, size, more), (length (out' ++ 0 ∷ []), reads (length out)))
                  (grown-AreTrue out (length l ∷ l) (0 ∷ []) start _ table early all_true);
          })
        ])
    where
      more : length ((out ++ length l ∷ l) ++ 0 ∷ []) ≡ length (out ++ length l ∷ l) + 1
      more = length-append (out ++ length l ∷ l) (0 ∷ [])

      reads :
          (most : ℕ)
          → let all = (out ++ length l ∷ l) ++ 0 ∷ [] in Reads all (length out) (length all) most l
      reads most =
          label-Reads out l (0 ∷ []) l (length ((out ++ length l ∷ l) ++ 0 ∷ [])) most good [] 0
            refl tt
            (stop (length (out ++ length l ∷ l)) 0 _ (get_elem?-length (out ++ length l ∷ l) [] 0)
              refl more)
            (omega arith)
