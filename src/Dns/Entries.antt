-- ===== src/Dns/Entries.antt =====
-- What the table of names and the bytes of a packet are to each other, in evdns.c's compression.
use mathlib.Core.Path.{subst}
use practising.Base.{
  ℕ, zero, suc, ◌+◌, ◌≤◌, ◌<◌, ◌≡◌, ◌⊎◌, refl, sym, ap, ◌∙◌, Bool, true, Option, none, some, List,
  [], ◌∷◌, ◌++◌, length, get_elem?, take, drop, ◌==◌, arith, Bool-cases, inl, inr, ==→≡, All,
  All-append, length-append, drop-append_near, take-append_near, length-drop, ap₂,
}
use practising.Dns.Labels.{Table, same_string, dnslabel_table_get_pos, get_pos, dnslabel_table_add}
use practising.Dns.Names.{dotted, IsLabel, Names, stop, label, pointer}

pub get_elem?-append :
    (xs ys : List ℕ) (i x : ℕ) → get_elem? xs i ≡ some x → get_elem? (xs ++ ys) i ≡ some x
get_elem?-append [] ys i x h = absurd (cc)
get_elem?-append (y ∷ xs) ys zero x h = h
get_elem?-append (y ∷ xs) ys (suc i) x h = get_elem?-append xs ys i x h

pub get_elem?-length : (xs ys : List ℕ) (x : ℕ) → get_elem? (xs ++ x ∷ ys) (length xs) ≡ some x
get_elem?-length [] ys x = refl
get_elem?-length (y ∷ xs) ys x = get_elem?-length xs ys x

pub get_elem?-second :
    (xs : List ℕ) (a b : ℕ) → get_elem? (xs ++ a ∷ b ∷ []) (length xs + 1) ≡ some b
get_elem?-second [] a b = refl
get_elem?-second (x ∷ xs) a b =
    ap (get_elem? (x ∷ xs ++ a ∷ b ∷ [])) (step (length xs)) ∙ get_elem?-second xs a b
  where
    step : (n : ℕ) → suc n + 1 ≡ suc (n + 1)
    step n = omega arith

take-drop-append :
    (n m : ℕ) (xs ys : List ℕ) → m + n ≤ length xs → take n (drop m (xs ++ ys)) ≡ take n (drop m xs)
take-drop-append n m xs ys h =
    ap (take n) (drop-append_near m xs ys (omega arith))
    ∙ take-append_near n (drop m xs) ys (omega (arith, length-drop m xs))

-- Bytes behind those that a name was read from change nothing.
pub append-Names :
    (packet more : List ℕ) {p k e : ℕ} {ls : List (List ℕ)}
    → Names packet p k ls e
    → Names (packet ++ more) p k ls e
append-Names packet more (stop p k e there h end) =
    stop p k e (get_elem?-append packet more p 0 there) h end
append-Names packet more (label p k e l ls there good text inside rest) =
    label p k e l ls (get_elem?-append packet more p _ there) good
      (take-drop-append (length l) (p + 1) packet more inside ∙ text)
      (omega (arith, length-append packet more, inside)) (append-Names packet more rest)
append-Names packet more
      (pointer p k e q k' e' hi lo ls first high second target inside end one rest) =
    pointer p k e q k' e' hi lo ls (get_elem?-append packet more p _ first) high
      (get_elem?-append packet more (p + 1) _ second) target
      (omega (arith, length-append packet more, inside)) end one (append-Names packet more rest)

-- Labels of the text stand at `p`, up to `e`, by way of at most `most` pointers.
pub record Reads (packet : List ℕ) (p e most : ℕ) (text : List ℕ) : Type 0 where
  pub labels : List (List ℕ)
  pub pointers : ℕ
  pub spelled : dotted labels ≡ text
  pub good : All IsLabel labels
  pub names : Names packet p pointers labels e
  pub few : pointers ≤ most

pub append-Reads :
    (packet more : List ℕ) (p e most : ℕ) (text : List ℕ)
    → Reads packet p e most text
    → Reads (packet ++ more) p e most text
append-Reads packet more p e most text r = record {
  labels = r.labels;
  pointers = r.pointers;
  spelled = r.spelled;
  good = r.good;
  names = append-Names packet more r.names;
  few = r.few;
}

-- An entry of the table says truly where its name stands, before `bound`.
abbrev pub IsTrue : List ℕ → ℕ → List ℕ × ℕ → Type 0
IsTrue packet bound (v, pos) = (pos < bound) × ((e : ℕ) × Reads packet pos e pos v)

-- All entries are true, but those of a name that is not written out yet.
abbrev pub AreTrue : List ℕ → ℕ → (List ℕ × ℕ → Type 0) → Option Table → Type 0
AreTrue packet bound Pending none = Unit
AreTrue packet bound Pending (some t) = All (λ x. IsTrue packet bound x ⊎ Pending x) t

All-map :
    {P Q : List ℕ × ℕ → Type 0} (t : Table) → ((x : List ℕ × ℕ) → P x → Q x) → All P t → All Q t
All-map [] f h = tt
All-map (x ∷ t) f (p, h) = (f x p, All-map t f h)

pub map-AreTrue :
    (packet packet' : List ℕ) (bound bound' : ℕ) (P Q : List ℕ × ℕ → Type 0) (table : Option Table)
    → ((x : List ℕ × ℕ) → IsTrue packet bound x ⊎ P x → IsTrue packet' bound' x ⊎ Q x)
    → AreTrue packet bound P table
    → AreTrue packet' bound' Q table
map-AreTrue packet packet' bound bound' P Q none f h = tt
map-AreTrue packet packet' bound bound' P Q (some t) f h = All-map t f h

pub later-IsTrue :
    (packet more : List ℕ) (bound later : ℕ) (x : List ℕ × ℕ)
    → bound ≤ later
    → IsTrue packet bound x
    → IsTrue (packet ++ more) later x
later-IsTrue packet more bound later (v, pos) le (h, (e, r)) =
    (omega arith, (e, append-Reads packet more pos e pos v r))

pub add-AreTrue :
    (strdup : List ℕ → Bool) (packet : List ℕ) (bound : ℕ) (P : List ℕ × ℕ → Type 0)
    (table : Option Table) (name : List ℕ) (pos : ℕ)
    → AreTrue packet bound P table
    → AreTrue packet bound (λ x. P x ⊎ (x ≡ (name, pos))) (dnslabel_table_add strdup table name pos)
unfolding dnslabel_table_add
add-AreTrue strdup packet bound P none name pos h = tt
add-AreTrue strdup packet bound P (some t) name pos h = elim (Bool-cases (length t == 128)) [
  | inl full ↦ rw full kept
  | inr room ↦ elim (Bool-cases (strdup name)) [
    | inl got ↦ rw (room, got) (All-append _ t ((name, pos) ∷ []) kept (inr (inr refl), tt))
    | inr lost ↦ rw (room, lost) kept
  ]
]
  where
    kept : All (λ x. IsTrue packet bound x ⊎ (P x ⊎ (x ≡ (name, pos)))) t
    kept = All-map t (λ x. elim [ inl y ↦ inl y | inr z ↦ inr (inl z) ]) h

same_string→≡ : (xs ys : List ℕ) → same_string xs ys ≡ true → xs ≡ ys
unfolding same_string
same_string→≡ [] [] h = refl
same_string→≡ [] (y ∷ ys) h = absurd (cc)
same_string→≡ (x ∷ xs) [] h = absurd (cc)
same_string→≡ (x ∷ xs) (y ∷ ys) h =
    ap₂ (◌∷◌) (==→≡ x y (ground (arith, h))) (same_string→≡ xs ys (ground (arith, h)))

some_inj : (i j : ℕ) → ◌≡◌ {A = Option ℕ} (some i) (some j) → i ≡ j
some_inj i j e = cc

-- What the table finds is true, if nothing pending has the name.
pub get_pos-IsTrue :
    (packet : List ℕ) (bound : ℕ) (P : List ℕ × ℕ → Type 0) (table : Option Table) (name : List ℕ)
    (pos : ℕ)
    → AreTrue packet bound P table
    → ((p : ℕ) → ¬ P (name, p))
    → get_pos table name ≡ some pos
    → IsTrue packet bound (name, pos)
unfolding get_pos dnslabel_table_get_pos
get_pos-IsTrue packet bound P none name pos h out found = absurd (cc)
get_pos-IsTrue packet bound P (some t) name pos h out found = at t h found
  where
    at :
        (t : Table)
        → All (λ x. IsTrue packet bound x ⊎ P x) t
        → dnslabel_table_get_pos t name ≡ some pos
        → IsTrue packet bound (name, pos)
    at [] h found = absurd (cc)
    at ((v, q) ∷ t) (x, h) found = elim (Bool-cases (same_string name v)) [
      | inr other ↦ at t h (rw other at found)
      | inl same ↦
          let e : ◌≡◌ {A = List ℕ × ℕ} (v, q) (name, pos) =
            ap₂ (λ a b. (a, b)) (sym (same_string→≡ name v same))
              (some_inj q pos (rw same at found)) in
          elim x [
            | inl true_there ↦ subst (IsTrue packet bound) e true_there
            | inr pending ↦ absurd (out pos (subst P e pending))
          ]
    ]
