-- ===== src/Buffer/Drain/Reads.antt =====
-- Copying out of a valid buffer reads the front of what it holds and changes nothing.
use practising.Base.{
  ℕ, zero, suc, ◌-◌, ◌%◌, ◌^◌, ◌≤◌, ◌<◌, ◌≡◌, refl, sym, ap, ◌∙◌, true, false, none, some, List, [],
  ◌∷◌, inl, inr, length, length-append, take, take-append_far, take-append_near, take-all, drop,
  arith, ◌==◌, ==→≡, leb, ltb, leb→le, Bool-cases, if◌then◌else◌,
}
use native.Mathlib.Nat.{mod-eq_of_lt}
use practising.Base.Int.{ℤ, pos}
use practising.Buffer.Chain.{Chain, off}
use practising.Buffer.State.{Evbuffer, bytes_of, contents, IsValid}
use practising.Buffer.Drain.{copy_loop, evbuffer_drain, evbuffer_copyout, to_int, evbuffer_remove}
use practising.Buffer.Drain.Takes.{PinsLast, evbuffer_drain_takes}

copy_loop-take :
    (n : ℕ) (cs : List Chain)
    → n ≤ length (bytes_of cs)
    → copy_loop n cs ≡ some (take n (bytes_of cs))
unfolding copy_loop
copy_loop-take n [] h = let z : n ≡ 0 = omega arith in rw z
copy_loop-take n (c ∷ cs) h = elim (Bool-cases (leb (off c) n)) [
  | inl whole ↦ ground (
    arith,
    take-append_far n c.bytes (bytes_of cs),
    length-append c.bytes (bytes_of cs),
    copy_loop-take (n - off c) cs,
  )
  | inr part ↦ ground (arith, take-append_near n c.bytes (bytes_of cs))
]

take_of_min :
    (n len : ℕ) (xs : List ℕ) → n ≡ length xs → take (if leb n len then n else len) xs ≡ take len xs
take_of_min n len xs e = elim (Bool-cases (leb n len)) [
  | inl more ↦
      rw more (take-all n xs (omega arith) ∙ sym (take-all len xs (omega (arith, leb→le _ _ more))))
  | inr less ↦ rw less
]

finish :
    (b : Evbuffer) (n : ℕ)
    → b.freeze_start ≡ false
    → copy_loop n b.chains ≡ some (take n (contents b))
    → (if n == 0
        then some (some [])
        else if b.freeze_start
        then some none
        else (elim (copy_loop n b.chains) [ none ↦ none | some bytes ↦ some (some bytes) ]))
      ≡ some (some (take n (contents b)))
finish b zero free e = refl
finish b (suc n) free e = ground arith

-- evbuffer_copyout on a valid buffer that is not frozen at its start gives its first `datlen` bytes,
-- or all of them if there are fewer.
pub evbuffer_copyout_reads :
    (b : Evbuffer) (datlen : ℕ)
    → IsValid b
    → b.freeze_start ≡ false
    → evbuffer_copyout b datlen ≡ some (some (take datlen (contents b)))
unfolding evbuffer_copyout
evbuffer_copyout_reads b datlen v free =
    let n : ℕ = if leb b.total_len datlen then b.total_len else datlen in
    finish b n free (copy_loop-take n b.chains (ground (arith, v.laid.counted)))
    ∙ ap (λ (bytes : List ℕ). some (some bytes))
        (take_of_min b.total_len datlen (contents b) v.laid.counted)

take-drop_of_take :
    (n : ℕ) (xs : List ℕ)
    → (drop (length (take n xs)) xs ≡ drop n xs) × ((length (take n xs) ≡ 0 → xs ≡ drop n xs))
take-drop_of_take zero xs = (refl, λ _. refl)
take-drop_of_take (suc n) [] = (refl, λ _. refl)
take-drop_of_take (suc n) (x ∷ xs) = ((take-drop_of_take n xs).0, λ e. absurd (omega arith))

remove_some :
    (b : Evbuffer) (datlen : ℕ) (bytes : List ℕ) (b' : Evbuffer)
    → evbuffer_copyout b datlen ≡ some (some bytes)
    → length bytes == 0 ≡ false
    → evbuffer_drain b (length bytes) ≡ some (true, b')
    → evbuffer_remove b datlen ≡ some (to_int (length bytes), bytes, b')
unfolding evbuffer_remove
remove_some b datlen bytes b' c n d = ground arith

remove_none :
    (b : Evbuffer) (datlen : ℕ) (bytes : List ℕ)
    → evbuffer_copyout b datlen ≡ some (some bytes)
    → length bytes == 0 ≡ true
    → evbuffer_remove b datlen ≡ some (pos 0, bytes, b)
unfolding evbuffer_remove
remove_none b datlen bytes c n = ground arith

to_int_small : (n : ℕ) → n < 2 ^ 31 → to_int n ≡ pos n
unfolding to_int
to_int_small n h =
    let low : n % 2 ^ 32 ≡ n = mod-eq_of_lt (omega (arith, h)) in
    let small : ltb n (2 ^ 31) ≡ true = ground (arith, h) in rw (low, small) refl

to_int_none : (n : ℕ) → n == 0 ≡ true → to_int n ≡ pos 0
unfolding to_int
to_int_none n h = rw (==→≡ n 0 h) refl

-- evbuffer_remove on a valid buffer that is not frozen at its start, where a read may have the last chunk
-- pinned and no other: it writes the first `datlen` bytes, or all of them if there are fewer, and leaves
-- a valid buffer of the others. Its result is the number of these bytes, cast to an int: that number
-- itself if it is below 2 ^ 31.
pub evbuffer_remove_splits :
    (b : Evbuffer) (datlen : ℕ)
    → IsValid b
    → PinsLast b.chains
    → b.freeze_start ≡ false
    → let bytes = take datlen (contents b) in
      (b' : Evbuffer) × (evbuffer_remove b datlen ≡ some (to_int (length bytes), bytes, b'))
      × (length bytes < 2 ^ 31 → to_int (length bytes) ≡ pos (length bytes))
      × IsValid b'
      × (contents b' ≡ drop datlen (contents b))
evbuffer_remove_splits b datlen v p free =
    let bytes = take datlen (contents b) in
    let read = evbuffer_copyout_reads b datlen v free in
    let cut = take-drop_of_take datlen (contents b) in
    elim (Bool-cases (length bytes == 0)) [
      | inl nothing ↦ (
        b,
        remove_none b datlen bytes read nothing
            ∙ ap (λ (n : ℤ). some (n, bytes, b)) (sym (to_int_none (length bytes) nothing)),
        to_int_small (length bytes),
        v,
        cut.1 (ground arith),
      )
      | inr more ↦
          let (b', e, v', rest) = evbuffer_drain_takes b (length bytes) v p free in
          (
            b',
            remove_some b datlen bytes b' read more e,
            to_int_small (length bytes),
            v',
            rest ∙ cut.0,
          )
    ]
