-- ===== src/Dns/Fills.antt =====
-- The parts of a response of evdns.c, where there is room for them.
use mathlib.Core.Path.{subst}
use practising.Base.{
  ℕ, suc, ◌+◌, ◌*◌, ◌≤◌, ◌≡◌, refl, ap, ap₂, ◌∙◌, Bool, false, Option, none, some, List, [], ◌∷◌,
  ◌++◌, append_assoc, length, get_elem?, take, drop, ltb, arith, inl, inr, All, length-append,
}
use practising.Dns.{parsed, name_parse}
use practising.Dns.Labels.{Table, Written, overrun, too_long, no_room, written, dnsname_to_labels}
use practising.Dns.Names.{dotted, IsLabel}
use practising.Dns.Entries.{map-AreTrue, later-IsTrue}
use practising.Dns.Rereads.{IsTable, Reread, name_parse-dnsname_to_labels}
use practising.Dns.Requests.{get16}
use practising.Dns.Responses.{filled, put}

pub put-fits :
    (bytes out : List ℕ) (table : Option Table)
    → length out + length bytes ≤ 1500
    → put bytes out table ≡ filled (out ++ bytes) table
unfolding put
put-fits bytes out table fits =
    let room : ltb 1500 (length out + length bytes) ≡ false = ground (arith, fits) in rw room refl

pub put-behind :
    (out xs bytes : List ℕ) (table : Option Table)
    → length out + length xs + length bytes ≤ 1500
    → put bytes (out ++ xs) table ≡ filled (out ++ (xs ++ bytes)) table
put-behind out xs bytes table fits =
    put-fits bytes (out ++ xs) table (omega (arith, fits, length-append out xs))
    ∙ ap (λ o. filled o table) (append_assoc out xs bytes)

pub get_elem?-behind :
    (xs ys : List ℕ) (k : ℕ) → get_elem? (xs ++ ys) (length xs + k) ≡ get_elem? ys k
get_elem?-behind [] ys k = ap (get_elem? ys) (omega arith)
get_elem?-behind (x ∷ xs) ys k =
    let e : suc (length xs) + k ≡ suc (length xs + k) = omega arith in
    ap (get_elem? ((x ∷ xs) ++ ys)) e ∙ get_elem?-behind xs ys k

abbrev both : Option ℕ → Option ℕ → Option ℕ
both o p = elim o as (λ _. Option ℕ) [
  | none ↦ none
  | some hi ↦ elim p as (λ _. Option ℕ) [ none ↦ none | some lo ↦ some (hi * 256 + lo) ]
]

pub get16-behind : (xs ys : List ℕ) (k : ℕ) → get16 (xs ++ ys) (length xs + k) ≡ get16 ys k
unfolding get16
get16-behind xs ys k =
    let e : length xs + k + 1 ≡ length xs + (k + 1) = omega arith in
    ap₂ both (get_elem?-behind xs ys k)
      (ap (get_elem? (xs ++ ys)) e ∙ get_elem?-behind xs ys (k + 1))

pub drop-behind : (xs ys : List ℕ) (k : ℕ) → drop (length xs + k) (xs ++ ys) ≡ drop k ys
drop-behind [] ys k = let e : 0 + k ≡ k = omega arith in ap (λ (i : ℕ). drop i ys) e
drop-behind (x ∷ xs) ys k =
    let e : suc (length xs) + k ≡ suc (length xs + k) = omega arith in
    ap (λ (i : ℕ). drop i ((x ∷ xs) ++ ys)) e ∙ drop-behind xs ys k

pub take-all : (xs : List ℕ) → take (length xs) xs ≡ xs
take-all [] = refl
take-all (x ∷ xs) = ap (◌∷◌ x) (take-all xs)

module _ (strdup : List ℕ → Bool) where
  pub grown-IsTable :
      (out more : List ℕ) (table : Option Table)
      → IsTable strdup 1500 out table
      → IsTable strdup 1500 (out ++ more) table
  grown-IsTable out more table h =
      map-AreTrue out (out ++ more) (length out) (length (out ++ more)) (λ _. ⊥) (λ _. ⊥) table
        (λ x. elim [
          | inl t ↦ inl (
              later-IsTrue out more (length out) (length (out ++ more)) x
                (omega (arith, length-append out more)) t)
          | inr w ↦ inr w
        ])
        h

  -- A name that is written behind `out`, and is read again whatever follows.
  pub record Named (out name : List ℕ) (table : Option Table) : Type 0 where
    pub out' : List ℕ
    pub table' : Option Table
    pub done : dnsname_to_labels strdup 1500 out name table ≡ some (written out' table')
    pub rest : List ℕ
    pub extends : out' ≡ out ++ rest
    pub reads :
        (more : List ℕ)
        → name_parse (out' ++ more) (length out) 256 ≡ some (parsed (length out') name)
    pub is_table : IsTable strdup 1500 out' table'
    pub short : length out' ≤ length out + length name + 2

  pub write_name :
      (out l : List ℕ) (ls : List (List ℕ)) (table : Option Table)
      → All IsLabel (l ∷ ls)
      → length (dotted (l ∷ ls)) ≤ 255
      → length out + length (dotted (l ∷ ls)) + 2 ≤ 1500
      → IsTable strdup 1500 out table
      → Named out (dotted (l ∷ ls)) table
  write_name out l ls table good short room true_table = at (run [])
    where
      name : List ℕ
      name = dotted (l ∷ ls)

      run :
          (more : List ℕ)
          → (w : Written) × (dnsname_to_labels strdup 1500 out (dotted (l ∷ ls)) table ≡ some w)
            × Reread strdup 1500 out more (dotted (l ∷ ls)) 256 w
      run more =
          name_parse-dnsname_to_labels strdup 1500 out more l ls table 256 good short (omega arith)
            (omega arith) true_table

      again :
          (w : Written) (more : List ℕ)
          → dnsname_to_labels strdup 1500 out (dotted (l ∷ ls)) table ≡ some w
          → Reread strdup 1500 out more (dotted (l ∷ ls)) 256 w
      again w more e =
          let (w', e', r) = run more in
          let same : w' ≡ w = cc in
          subst (λ v. Reread strdup 1500 out more (dotted (l ∷ ls)) 256 v) same r

      at :
          (w : Written) × (dnsname_to_labels strdup 1500 out (dotted (l ∷ ls)) table ≡ some w)
            × Reread strdup 1500 out [] (dotted (l ∷ ls)) 256 w
          → Named out (dotted (l ∷ ls)) table
      at (overrun, e, r) = absurd (omega arith)
      at (too_long, e, r) = absurd r
      at (no_room, e, r) = absurd (omega arith)
      at (written out' table', e, (read, is_table, (rest, extends), few)) = record {
        out' = out';
        table' = table';
        done = e;
        rest = rest;
        extends = extends;
        reads = λ more. (again (written out' table') more e).0;
        is_table = is_table;
        short = few;
      }
