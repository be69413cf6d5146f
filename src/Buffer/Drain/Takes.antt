-- ===== src/Buffer/Drain/Takes.antt =====
-- Draining and reading take bytes from the front of what a valid buffer holds, with no fault.
use practising.Base.{
  ℕ, zero, suc, ◌+◌, ◌-◌, ◌≤◌, ◌<◌, ◌≡◌, ◌≢◌, refl, sym, ap, ◌∙◌, Bool, true, false, Option, some,
  List, [], ◌∷◌, ◌++◌, ◌⊎◌, inl, inr, length, length-append, drop, drop-append_far,
  drop-append_near, drop-all, All, arith, ◌==◌, leb, ltb, not, ◌&&◌, leb→le, leb→lt, ltb→lt, ltb→le,
  Bool-cases, if◌then◌else◌, length-drop,
}
use practising.Buffer.Chain.{Chain, off, ChainFits}
use practising.Buffer.State.{Evbuffer, bytes_of, contents, LastWithData, IsLaid, IsValid}
use practising.Buffer.Callbacks.{invoke_callbacks}
use practising.Buffer.Callbacks.Frame.{invoke-IsLaid}
use practising.Buffer.Drain.{
  has_pinned_r, drop_lwd, drain_loop, drain_first, drained, evbuffer_drain,
}

-- Only the last chunk may be pinned by a read in progress.
abbrev pub PinsLast : List Chain → Type 0
PinsLast [] = Unit
PinsLast (c ∷ []) = Unit
PinsLast (c ∷ d ∷ cs) = (c.pinned_r ≡ false) × PinsLast (d ∷ cs)

-- The chunks hold more than `remaining` bytes, or as many with the last one pinned.
abbrev Enough : ℕ → List Chain → Type 0
Enough remaining cs =
    (remaining ≤ length (bytes_of cs))
    × ((remaining < length (bytes_of cs)) ⊎ (has_pinned_r cs ≡ true))

-- What drain_loop hands on.
record Split (bytes : List ℕ) (remaining : ℕ) (r : Option (ℕ × ℕ × List Chain)) : Type 0 where
  left : ℕ
  lwd : ℕ
  first : Chain
  others : List Chain
  ends : r ≡ some (left, lwd, first ∷ others)
  inside : left ≤ off first
  fits : All ChainFits (first ∷ others)
  tight : LastWithData lwd (first ∷ others)
  same : drop left (bytes_of (first ∷ others)) ≡ drop remaining bytes
  count : length (bytes_of (first ∷ others)) + remaining ≡ length bytes + left

-- The loop stops in front of a chunk that holds more than what remains.
drain_loop_stops :
    (c : Chain) (cs : List Chain) (remaining lwd : ℕ)
    → All ChainFits (c ∷ cs)
    → LastWithData lwd (c ∷ cs)
    → ltb remaining (off c) ≡ true
    → Split (bytes_of (c ∷ cs)) remaining (drain_loop remaining lwd (c ∷ cs))
unfolding drain_loop
drain_loop_stops c cs remaining lwd f t small = record {
  left = remaining;
  lwd = lwd;
  first = c;
  others = cs;
  ends = rw small;
  inside = omega (arith, ltb→lt _ _ small);
  fits = f;
  tight = t;
  same = refl;
  count = refl;
}

-- It empties a last chunk that is pinned.
drain_loop_pinned :
    (c : Chain) (remaining lwd : ℕ)
    → ChainFits c
    → lwd ≡ 0
    → remaining ≡ off c
    → ltb remaining (off c) ≡ false
    → c.pinned_r ≡ true
    → Split (bytes_of (c ∷ [])) remaining (drain_loop remaining lwd (c ∷ []))
unfolding drain_loop
drain_loop_pinned c remaining lwd f t e whole pin = record {
  left = 0;
  lwd = 0;
  first = record c { misalign = c.misalign + off c; bytes = [] };
  others = [];
  ends = ground arith;
  inside = omega arith;
  fits = (record { fits = omega (arith, f.fits) }, tt);
  tight = refl;
  same = sym (drop-all remaining (c.bytes ++ []) (omega (arith, length-append c.bytes [])));
  count = omega (arith, length-append c.bytes []);
}

-- It frees a chunk that is not pinned.
drain_loop_frees :
    (c : Chain) (cs : List Chain) (remaining lwd : ℕ)
    → ltb remaining (off c) ≡ false
    → c.pinned_r ≡ false
    → Split (bytes_of cs) (remaining - off c) (drain_loop (remaining - off c) (drop_lwd lwd) cs)
    → Split (bytes_of (c ∷ cs)) remaining (drain_loop remaining lwd (c ∷ cs))
unfolding drain_loop
drain_loop_frees c cs remaining lwd whole free s = record {
  left = s.left;
  lwd = s.lwd;
  first = s.first;
  others = s.others;
  ends = ground (arith, s.ends);
  inside = s.inside;
  fits = s.fits;
  tight = s.tight;
  same = s.same ∙ sym (drop-append_far remaining c.bytes (bytes_of cs) (ltb→le _ _ whole));
  count = omega (arith, s.count, length-append c.bytes (bytes_of cs), ltb→le _ _ whole);
}

drain_loop-Split :
    (cs : List Chain) (remaining lwd : ℕ)
    → cs ≢ []
    → All ChainFits cs
    → LastWithData lwd cs
    → PinsLast cs
    → Enough remaining cs
    → Split (bytes_of cs) remaining (drain_loop remaining lwd cs)
drain_loop-Split [] remaining lwd ne f t p k = absurd (ne refl)
drain_loop-Split (c ∷ []) remaining lwd ne f t p k = elim (Bool-cases (ltb remaining (off c))) [
  | inl small ↦ drain_loop_stops c [] remaining lwd f t small
  | inr whole ↦
      let exact = length-append c.bytes [] in
      drain_loop_pinned c remaining lwd f.0 t (omega (arith, ltb→le _ _ whole, k.0, exact)) whole
        (elim k.1 [ inl less ↦ absurd (omega (arith, ltb→le _ _ whole, exact)) | inr pin ↦ pin ])
]
drain_loop-Split (c ∷ d ∷ cs) remaining lwd ne f t p k = elim (Bool-cases (ltb remaining (off c))) [
  | inl small ↦ drain_loop_stops c (d ∷ cs) remaining lwd f t small
  | inr whole ↦
      let sizes = length-append c.bytes (bytes_of (d ∷ cs)) in
      let large = ltb→le _ _ whole in
      drain_loop_frees c (d ∷ cs) remaining lwd whole p.0 (
        drain_loop-Split (d ∷ cs) (remaining - off c) (drop_lwd lwd) (λ z. cc) f.1 (ground arith)
          p.1
          (
            omega (arith, k.0, sizes, large),
            elim k.1 [ inl less ↦ inl (omega (arith, sizes, large)) | inr pin ↦ inr pin ],
          ))
]

-- The buffer after the loop.
Split-IsLaid :
    (b : Evbuffer) (part : ℕ)
    → IsLaid b (contents b)
    → (s : Split (contents b) part (drain_loop part b.lwd b.chains))
    → IsLaid
        (drained b s.lwd (drain_first s.left (s.first ∷ s.others)) part)
        (drop part (contents b))
unfolding drained drain_first
Split-IsLaid b part v s = record {
  holds = sym (drop-append_near s.left s.first.bytes (bytes_of s.others) s.inside) ∙ s.same;
  counted = omega (arith, v.counted, length-drop part (contents b));
  fits = (
    record { fits = omega (arith, s.fits.0.fits, s.inside, length-drop s.left s.first.bytes) },
    s.fits.1,
  );
  tight = s.tight;
}

drain_empty :
    (b : Evbuffer) (len : ℕ) → b.total_len == 0 ≡ true → evbuffer_drain b len ≡ some (true, b)
unfolding evbuffer_drain
drain_empty b len e = ground arith

module _ (b : Evbuffer) (len : ℕ) (free : b.freeze_start ≡ false)
    (some_left : b.total_len == 0 ≡ false) where
  drain_all :
      leb b.total_len len && not (has_pinned_r b.chains) ≡ true
      → evbuffer_drain b len ≡ some (true, invoke_callbacks (drained b 0 [] b.total_len))
  unfolding evbuffer_drain
  drain_all all = ground arith

  drain_part :
      (part left lwd : ℕ) (chains : List Chain)
      → leb b.total_len len && not (has_pinned_r b.chains) ≡ false
      → part ≡ (if leb b.total_len len then b.total_len else len)
      → drain_loop part b.lwd b.chains ≡ some (left, lwd, chains)
      → evbuffer_drain b len
        ≡ some (true, invoke_callbacks (drained b lwd (drain_first left chains) part))
  unfolding evbuffer_drain
  drain_part part left lwd chains not_all e s = ground arith

drop_of_none : (n : ℕ) (xs : List ℕ) → length xs ≡ 0 → drop n xs ≡ xs
drop_of_none zero xs e = refl
drop_of_none (suc n) [] e = refl
drop_of_none (suc n) (x ∷ xs) e = absurd (omega arith)

drop_of_min :
    (n len : ℕ) (xs : List ℕ) → n ≡ length xs → drop (if leb n len then n else len) xs ≡ drop len xs
drop_of_min n len xs e = elim (Bool-cases (leb n len)) [
  | inl more ↦
      rw more (drop-all n xs (omega arith) ∙ sym (drop-all len xs (omega (arith, leb→le _ _ more))))
  | inr less ↦ rw less
]

drained_to_zero : (b : Evbuffer) → b.total_len == 0 ≡ true → b.total_len ≡ 0
drained_to_zero b e = ground arith

abbrev pub Drains : Evbuffer → ℕ → Type 0
Drains b len =
    (b' : Evbuffer) × (evbuffer_drain b len ≡ some (true, b'))
    × IsValid b'
    × (contents b' ≡ drop len (contents b))

Drains-of :
    (b : Evbuffer) (len : ℕ) (b' : Evbuffer)
    → IsValid b
    → evbuffer_drain b len ≡ some (true, b')
    → IsLaid b' (drop len (contents b))
    → Drains b len
Drains-of b len b' v e l = (
  b',
  e,
  record {
    laid = rw l.holds l;
    bounded = omega (arith, l.counted, v.bounded, v.laid.counted, length-drop len (contents b));
  },
  l.holds,
)

nothing-IsLaid : (b : Evbuffer) → IsLaid (drained b 0 [] b.total_len) []
unfolding drained
nothing-IsLaid b = record { holds = refl; counted = omega arith; fits = tt; tight = refl }

not_empty : (b : Evbuffer) → IsLaid b (contents b) → b.total_len == 0 ≡ false → b.chains ≢ []
not_empty b v some_left e =
    ground (arith, v.counted, ap (λ (cs : List Chain). length (bytes_of cs)) e)

pinned_of : {p q : Bool} → p ≡ true → p && not q ≡ false → q ≡ true
pinned_of h k = ground arith

enough :
    (b : Evbuffer) (len : ℕ)
    → IsLaid b (contents b)
    → leb b.total_len len && not (has_pinned_r b.chains) ≡ false
    → Enough (if leb b.total_len len then b.total_len else len) b.chains
enough b len v not_all = elim (Bool-cases (leb b.total_len len)) [
  | inl more ↦ rw more (omega (arith, v.counted), inr (pinned_of more not_all))
  | inr less ↦
      rw less
        (omega (arith, v.counted, leb→lt _ _ less), inl (omega (arith, v.counted, leb→lt _ _ less)))
]

Drains-part :
    (b : Evbuffer) (len : ℕ)
    → IsValid b
    → PinsLast b.chains
    → b.freeze_start ≡ false
    → b.total_len == 0 ≡ false
    → leb b.total_len len && not (has_pinned_r b.chains) ≡ false
    → Drains b len
Drains-part b len v p free some_left not_all =
    let counted = v.laid.counted in
    let part : ℕ = if leb b.total_len len then b.total_len else len in
    let split =
      drain_loop-Split b.chains part b.lwd (not_empty b v.laid some_left) v.laid.fits v.laid.tight p
        (enough b len v.laid not_all) in
    let laid = Split-IsLaid b part v.laid split in
    Drains-of b len _ v (drain_part b len free some_left part _ _ _ not_all refl split.ends)
      (invoke-IsLaid _ _ (rw (drop_of_min b.total_len len (contents b) counted) at laid))

-- evbuffer_drain on a valid buffer that is not frozen at its start: it succeeds and takes away the
-- first `len` bytes, all of them if there are fewer. A read may have the last chunk pinned.
pub evbuffer_drain_takes :
    (b : Evbuffer) (len : ℕ)
    → IsValid b
    → PinsLast b.chains
    → b.freeze_start ≡ false
    → (b' : Evbuffer) × (evbuffer_drain b len ≡ some (true, b'))
      × IsValid b'
      × (contents b' ≡ drop len (contents b))
evbuffer_drain_takes b len v p free = elim (Bool-cases (b.total_len == 0)) [
  | inl empty ↦
      let none_left =
        drop_of_none len (contents b) (omega (arith, v.laid.counted, drained_to_zero b empty)) in
      Drains-of b len b v (drain_empty b len empty) (rw none_left v.laid)
  | inr some_left ↦ elim (Bool-cases (leb b.total_len len && not (has_pinned_r b.chains))) [
    | inl all ↦
        let none_left = drop-all len (contents b) (ground (arith, v.laid.counted)) in
        Drains-of b len _ v (drain_all b len free some_left all)
          (invoke-IsLaid _ _ (rw none_left (nothing-IsLaid b)))
    | inr not_all ↦ Drains-part b len v p free some_left not_all
  ]
]
