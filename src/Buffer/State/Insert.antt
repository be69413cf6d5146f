-- ===== src/Buffer/State/Insert.antt =====
-- evbuffer_chain_insert on a buffer with no spare chunk behind the last one with data.
use practising.Base.{
  ℕ, ◌+◌, ◌≡◌, ◌≢◌, refl, sym, ap, ◌∙◌, true, false, none, some, List, [], ◌∷◌, ◌++◌, append-nil,
  append_assoc, length, length-append, take, drop, last?, All-append, All-of_append, arith,
  Bool-cases, inl, inr, ◌⊎◌,
}
use practising.Buffer.Chain.{Chain, off, ChainFits}
use practising.Buffer.Chain.Alloc.{Fresh}
use practising.Buffer.State.{
  Evbuffer, chain_insert, is_kept, bytes_of, contents, LastWithData, IsLaid,
}

pub bytes_of-append : (cs ds : List Chain) → bytes_of (cs ++ ds) ≡ bytes_of cs ++ bytes_of ds
bytes_of-append [] ds = refl
bytes_of-append (c ∷ cs) ds = rw (bytes_of-append cs ds) (sym (append_assoc c.bytes _ _))

-- A list is empty or ends in its last chunk.
pub snoc-cases :
    (cs : List Chain)
    → ((cs ≡ []) × (last? cs ≡ none))
      ⊎ ((front : List Chain) × (c : Chain) × (cs ≡ front ++ (c ∷ [])) × (last? cs ≡ some c))
snoc-cases [] = inl (refl, refl)
snoc-cases (x ∷ []) = inr ([], x, refl, refl)
snoc-cases (x ∷ y ∷ cs) = elim (snoc-cases (y ∷ cs)) [
  | inl (e, n) ↦ absurd (cc)
  | inr (front, c, e, l) ↦ inr (x ∷ front, c, ap (◌∷◌ x) e, l)
]

pub drop-length {ℓ} : {A : Type ℓ} (xs ys : List A) → drop (length xs) (xs ++ ys) ≡ ys
drop-length [] ys = refl
drop-length (x ∷ xs) ys = drop-length xs ys

pub take-length {ℓ} : {A : Type ℓ} (xs ys : List A) → take (length xs) (xs ++ ys) ≡ xs
take-length [] ys = refl
take-length (x ∷ xs) ys = ap (◌∷◌ x) (take-length xs ys)

pub tight_snoc :
    (lwd : ℕ) (front : List Chain) (c : Chain)
    → (LastWithData lwd (front ++ (c ∷ [])) → lwd ≡ length front)
      × (lwd ≡ length front → LastWithData lwd (front ++ (c ∷ [])))
tight_snoc lwd [] c = (λ h. h, λ h. h)
tight_snoc lwd (x ∷ front) c = (
  λ h. omega (arith, length-append front (c ∷ [])),
  λ h. omega (arith, length-append front (c ∷ [])),
)

pub last?-snoc : (front : List Chain) (c : Chain) → last? (front ++ (c ∷ [])) ≡ some c
last?-snoc [] c = refl
last?-snoc (x ∷ []) c = refl
last?-snoc (x ∷ y ∷ front) c = last?-snoc (y ∷ front) c

-- Where there is no chunk, the new one becomes the only one.
pub chain_insert-nil :
    (b : Evbuffer) (d : Chain)
    → b.chains ≡ []
    → b.lwd ≡ 0
    → chain_insert b d ≡ record b { chains = d ∷ []; total_len = b.total_len + off d }
unfolding chain_insert
chain_insert-nil b d e z = rw (z, e)

module _ (b : Evbuffer) (front : List Chain) (c d : Chain) (e : b.chains ≡ front ++ (c ∷ []))
    (l : b.lwd ≡ length front) where
  at_last : drop b.lwd b.chains ≡ c ∷ []
  at_last = rw (l, e) (drop-length front (c ∷ []))

  before_last : take b.lwd b.chains ≡ front
  before_last = rw (l, e) (take-length front (c ∷ []))

  -- A last chunk that holds data, or is pinned, stays.
  pub chain_insert-kept :
      is_kept c ≡ true
      → off d ≢ 0
      → chain_insert b d ≡ record b {
        chains = b.chains ++ (d ∷ []);
        lwd = length b.chains;
        total_len = b.total_len + off d;
      }
  unfolding chain_insert
  chain_insert-kept k h = ground (arith, at_last)

  -- An empty one makes room for the new chunk.
  pub chain_insert-victim :
      is_kept c ≡ false
      → chain_insert b d ≡ record b { chains = front ++ (d ∷ []); total_len = b.total_len + off d }
  unfolding chain_insert
  chain_insert-victim k = ground (arith, at_last, before_last)

is_kept-false : (c : Chain) → is_kept c ≡ false → c.bytes ≡ []
is_kept-false c e = grind arith

-- The rest of the record does not matter.
pub same-IsLaid :
    (b b' : Evbuffer) (bytes : List ℕ)
    → b'.chains ≡ b.chains
    → b'.lwd ≡ b.lwd
    → b'.total_len ≡ b.total_len
    → IsLaid b bytes
    → IsLaid b' bytes
same-IsLaid b b' bytes e l t v = record {
  holds = rw e v.holds;
  counted = t ∙ v.counted;
  fits = rw e v.fits;
  tight = rw (e, l) v.tight;
}

-- The last chunk gives way to one that holds `extra` more.
pub replace_last-IsLaid :
    (b b' : Evbuffer) (front : List Chain) (c c' : Chain) (extra bytes : List ℕ)
    → IsLaid b bytes
    → b.chains ≡ front ++ (c ∷ [])
    → b'.chains ≡ front ++ (c' ∷ [])
    → b'.lwd ≡ b.lwd
    → b'.total_len ≡ b.total_len + length extra
    → c'.bytes ≡ c.bytes ++ extra
    → ChainFits c'
    → IsLaid b' (bytes ++ extra)
replace_last-IsLaid b b' front c c' extra bytes v e e' l t x f = record {
  holds =
      rw (e', bytes_of-append front (c' ∷ []), append-nil, x, ← append_assoc)
        (ap (λ k. k ++ extra) (rw (e, bytes_of-append front (c ∷ []), append-nil) at v.holds));
  counted = omega (arith, t, v.counted, length-append bytes extra);
  fits = rw e' (
      All-append ChainFits front (c' ∷ [])
        (All-of_append ChainFits front (c ∷ []) (rw e at v.fits)).0 (f, tt));
  tight =
      rw (e', l) ((tight_snoc b.lwd front c').1 ((tight_snoc b.lwd front c).0 (rw e at v.tight)));
}

-- chain_insert puts a chunk with data behind what the buffer holds.
pub chain_insert-IsLaid :
    (b : Evbuffer) (d : Chain) (bytes : List ℕ)
    → IsLaid b bytes
    → ChainFits d
    → off d ≢ 0
    → IsLaid (chain_insert b d) (bytes ++ d.bytes)
chain_insert-IsLaid b d bytes v f h = elim (snoc-cases b.chains) [
  | inl (e, _) ↦
      let z : b.lwd ≡ 0 = rw e at v.tight in
      rw (chain_insert-nil b d e z) (
        let holds : [] ≡ bytes = rw e at v.holds in
        record {
          holds = rw (← holds) (append-nil d.bytes);
          counted = rw (← holds) (ground (arith, ap length holds));
          fits = (f, tt);
          tight = z;
        })
  | inr (front, c, e, _) ↦
      let l : b.lwd ≡ length front = (tight_snoc b.lwd front c).0 (rw e at v.tight) in
      elim (Bool-cases (is_kept c)) [
        | inl k ↦ rw (chain_insert-kept b front c d e l k h) (record {
          holds = rw (bytes_of-append b.chains (d ∷ []), v.holds, append-nil);
          counted = omega (arith, length-append bytes d.bytes, v.counted);
          fits = All-append ChainFits b.chains (d ∷ []) v.fits (f, tt);
          tight = (tight_snoc _ b.chains d).1 refl;
        })
        | inr k ↦ rw (chain_insert-victim b front c d e l k) (
            replace_last-IsLaid b _ front c d d.bytes bytes v e refl refl refl
              (rw (is_kept-false c k)) f)
      ]
]

-- The first chunk of a buffer that had none.
pub first_chunk-IsLaid :
    (b : Evbuffer) (size : ℕ) (c : Chain)
    → IsLaid b (contents b)
    → b.chains ≡ []
    → Fresh size c
    → (chain_insert b c ≡ record b { chains = c ∷ []; total_len = b.total_len + off c })
      × IsLaid (chain_insert b c) (contents b)
first_chunk-IsLaid b size c v e f =
    let z : b.lwd ≡ 0 = rw e at v.tight in
    let inserted = chain_insert-nil b c e z in
    (
      inserted,
      rw inserted (record {
        holds = rw (f.nothing, e);
        counted = omega (arith, ap length f.nothing, v.counted);
        fits = (record { fits = omega (arith, f.start, ap length f.nothing) }, tt);
        tight = z;
      }),
    )
