-- ===== src/Tagging/RoundTrip.antt =====
-- The integer codes of event_tagging.c are read back, whatever stands before and behind them.
use practising.Base.{
  ℕ, zero, suc, ◌+◌, ◌-◌, ◌*◌, ◌/◌, ◌%◌, ◌^◌, ◌≤◌, ◌<◌, ◌≡◌, refl, sym, ap, ◌∙◌, List, [], ◌++◌,
  length, length-append, length-take, length-drop, get_or, take, drop, replicate, arith, ◌==◌, ltb,
  if◌then◌else◌, drop-length,
}
use practising.Tagging.{
  done, get_nibble, set_nibble, encode_internal, decode_loop, decode_internal, drain_decoded,
  evtag_encode_int, evtag_decode_int, evtag_encode_int64, evtag_decode_int64,
}
use practising.Tagging.Ints.{
  get_nibble-set_nibble, length-set_nibble, value, value_one, value-cong, get_nibble-append,
  Encoded, encode_loop-Encoded, decode_loop-value,
}

abbrev blank : ℕ → List ℕ
blank n = replicate n 0

length-blank : (n : ℕ) → length (blank n) ≡ n
length-blank zero = refl
length-blank (suc n) = ap suc (length-blank n)

get_or-blank : (n i : ℕ) → get_or (blank n) i 0 ≡ 0
get_or-blank zero i = refl
get_or-blank (suc n) zero = refl
get_or-blank (suc n) (suc i) = get_or-blank n i

get_nibble-blank : (n i : ℕ) → get_nibble (blank n) i ≡ 0
unfolding get_nibble
get_nibble-blank n i = ground (arith, get_or-blank n (i / 2))

-- What an integer's code is: `c` nibbles behind one that says c - 1, in as many bytes as they fill.
record IsCode (size number : ℕ) (code : List ℕ) : Type 0 where
  c : ℕ
  bounded : c ≤ 2 * size
  long : length code ≡ c / 2 + 1
  header : (rest : List ℕ) → get_nibble (code ++ rest) 0 ≡ c - 1
  spelt : (rest : List ℕ) → value (code ++ rest) 1 (c - 1 + 1) ≡ number

-- The header and the cut that ENCODE_INT_INTERNAL makes after its loop.
abbrev header_nibble : ℕ → ℕ
header_nibble off = (if ltb 2 off then off - 2 else 0) % 16

abbrev finished : List ℕ × ℕ → List ℕ
finished (bytes, off) = take ((off + 1) / 2) (set_nibble bytes 0 (header_nibble off))

module _ (size number : ℕ) (small : size ≤ 8) (r : List ℕ × ℕ)
    (e : Encoded (2 * size) (blank (size + 1)) 1 number r) where
  sized : length (set_nibble r.0 0 (header_nibble r.1)) ≡ size + 1
  sized = length-set_nibble r.0 0 _ ∙ e.sized ∙ length-blank (size + 1)

  cut : (r.1 + 1) / 2 ≡ e.c / 2 + 1
  cut = omega (arith, e.stops)

  read_back :
      (rest : List ℕ) (j : ℕ)
      → j < 2 + e.c
      → j / 2 < e.c / 2 + 1
      → get_nibble (finished r ++ rest) j ≡ (if 0 == j then header_nibble r.1 else get_nibble r.0 j)
  read_back rest j h k =
      get_nibble-append _ rest _ j (omega (arith, cut)) (omega (arith, cut, sized, e.bounded))
      ∙ get_nibble-set_nibble r.0 0 j _ (omega (arith, e.sized, length-blank (size + 1)))
          (omega arith)

  spelt_back : (rest : List ℕ) (c : ℕ) → c ≡ e.c → value (finished r ++ rest) 1 (c - 1 + 1) ≡ number
  spelt_back rest zero z =
      ap (value (finished r ++ rest) 1) (omega arith)
      ∙ value_one (finished r ++ rest)
      ∙ read_back rest 1 (omega arith) (omega arith)
      ∙ e.above 1 (omega (arith, z))
      ∙ get_nibble-blank (size + 1) 1
      ∙ sym (e.least (sym z))
  spelt_back rest (suc k) s =
      ap (value (finished r ++ rest) 1) (omega (arith, s))
      ∙ value-cong _ r.0 1 e.c
          (λ j l u. read_back rest j (omega arith) (omega arith) ∙ ground arith)
      ∙ e.spelt

  finished-IsCode : IsCode size number (finished r)
  finished-IsCode = record {
    c = e.c;
    bounded = e.bounded;
    long = length-take _ _ ∙ omega (arith, cut, sized, e.bounded);
    header =
        λ rest. ground (arith, read_back rest 0 (omega arith) (omega arith), e.stops, e.bounded);
    spelt = λ rest. spelt_back rest e.c refl;
  }

encode_internal-IsCode :
    (size number : ℕ)
    → number < 16 ^ (2 * size)
    → size ≤ 8
    → IsCode size number (encode_internal size number)
unfolding encode_internal
encode_internal-IsCode size number fits small =
    finished-IsCode size number small _
      (encode_loop-Encoded (2 * size) _ 1 number fits (omega (arith, length-blank (size + 1))))

-- A code has at most one byte more than its integer.
pub length-encode_internal :
    (size number : ℕ)
    → number < 16 ^ (2 * size)
    → size ≤ 8
    → length (encode_internal size number) ≤ size + 1
length-encode_internal size number fits small =
    let k = encode_internal-IsCode size number fits small in omega (arith, k.long, k.bounded)

decode_internal-IsCode :
    (bits size number : ℕ) (evbuf code rest : List ℕ) (offset : ℕ)
    → IsCode size number code
    → 1 ≤ size
    → number < 2 ^ bits
    → drop offset evbuf ≡ code ++ rest
    → decode_internal bits (2 * size) evbuf offset ≡ done (number, length code)
unfolding decode_internal
decode_internal-IsCode bits size number evbuf code rest offset k some_size fits e =
    let nibbles : get_nibble (code ++ rest) 0 + 1 ≡ k.c - 1 + 1 =
      ap (λ (t : ℕ). t + 1) (k.header rest) in
    let there : length evbuf - offset ≡ length code + length rest =
      sym (length-drop offset evbuf) ∙ ap length e ∙ length-append code rest in
    let decoded : decode_loop bits (k.c - 1 + 1) 0 (code ++ rest) ≡ number =
      decode_loop-value bits (k.c - 1 + 1) 0 (code ++ rest) (omega (arith, k.spelt rest))
      ∙ omega (arith, k.spelt rest) in
    rw (e, nibbles) (ground (arith, there, decoded, k.long, k.bounded))

-- An integer's code at an offset of an evbuffer.
pub decode_internal-encode :
    (bits size number : ℕ) (evbuf rest : List ℕ) (offset : ℕ)
    → 2 ^ bits ≡ 16 ^ (2 * size)
    → 1 ≤ size
    → size ≤ 8
    → number < 2 ^ bits
    → drop offset evbuf ≡ encode_internal size number ++ rest
    → decode_internal bits (2 * size) evbuf offset
      ≡ done (number, length (encode_internal size number))
decode_internal-encode bits size number evbuf rest offset same some_size small fits e =
    decode_internal-IsCode bits size number evbuf _ rest offset
      (encode_internal-IsCode size number (omega (arith, same, fits)) small) some_size fits e

-- evtag_decode_int gives back the 32-bit integer that evtag_encode_int wrote, and drains just the
-- bytes of its code.
pub evtag_decode_int-encode :
    (number : ℕ) (rest : List ℕ)
    → number < 2 ^ 32
    → evtag_decode_int (evtag_encode_int [] number ++ rest) ≡ (done number, rest)
unfolding evtag_decode_int evtag_encode_int drain_decoded
evtag_decode_int-encode number rest h =
    let code = encode_internal 4 number in
    rw
      (decode_internal-encode 32 4 number (code ++ rest) rest 0 refl (omega arith) (omega arith) h
        refl)
      (ap (λ (l : List ℕ). (done number, l)) (drop-length code rest))

-- evtag_decode_int64 gives back the 64-bit integer that evtag_encode_int64 wrote, and drains just
-- the bytes of its code.
pub evtag_decode_int64-encode :
    (number : ℕ) (rest : List ℕ)
    → number < 2 ^ 64
    → evtag_decode_int64 (evtag_encode_int64 [] number ++ rest) ≡ (done number, rest)
unfolding evtag_decode_int64 evtag_encode_int64 drain_decoded
evtag_decode_int64-encode number rest h =
    let code = encode_internal 8 number in
    rw
      (decode_internal-encode 64 8 number (code ++ rest) rest 0 refl (omega arith) (omega arith) h
        refl)
      (ap (λ (l : List ℕ). (done number, l)) (drop-length code rest))
