-- ===== src/Tagging/Marshal/Numbers.antt =====
-- Marshalled integers and times of event_tagging.c are read back.
use practising.Base.{
  ℕ, ◌*◌, ◌^◌, ◌≤◌, ◌<◌, ◌≡◌, refl, List, [], ◌++◌, length, length-append, append_assoc, arith,
  ◌==◌, Bool-cases, inl, inr, if◌then◌else◌, drop-length,
}
use practising.Tagging.{done, fail, evtag_encode_int, encode_internal, decode_internal}
use practising.Tagging.Tags.{evtag_decode_tag-encode}
use practising.Tagging.RoundTrip.{
  evtag_decode_int-encode, decode_internal-encode, length-encode_internal,
}
use practising.Tagging.Marshal.Messages.{evtag_marshal-parts, header_lem}
use practising.Tagging.Marshal.{
  and_then, evtag_marshal, evtag_marshal_int, evtag_marshal_int64, evtag_marshal_timeval, Timeval,
  on_reply, within, unmarshal_integer, evtag_unmarshal_int, evtag_unmarshal_int64, decode_timeval,
  evtag_unmarshal_timeval,
}

-- Any reader that takes a length's code and then an integer's code as the payload.
unmarshal_integer-marshal :
    (bits size tag integer : ℕ) (rest : List ℕ)
    → 2 ^ bits ≡ 16 ^ (2 * size)
    → 1 ≤ size
    → size ≤ 8
    → tag < 2 ^ 32
    → integer < 2 ^ bits
    → (need_tag : ℕ)
    → unmarshal_integer
        (decode_internal bits (2 * size))
        (evtag_marshal [] tag (encode_internal size integer) ++ rest)
        need_tag
      ≡ (if need_tag == tag
          then (done (integer, length (encode_internal size integer)), rest)
          else (
            fail,
            evtag_encode_int [] (length (encode_internal size integer))
                ++ (encode_internal size integer ++ rest),
          ))
unfolding unmarshal_integer and_then within
unmarshal_integer-marshal bits size tag integer rest same some_size small tag_fits fits need_tag =
    let code = encode_internal size integer in
    let body = code ++ rest in
    let short = length-encode_internal size integer (omega (arith, same, fits)) small in
    let found =
      decode_internal-encode bits size integer body rest 0 same some_size small fits refl in
    let gone = drop-length code rest in
    let room = length-append {0} code rest in
    rw
      (
        evtag_marshal-parts tag code rest,
        evtag_decode_tag-encode tag (evtag_encode_int [] (length code) ++ body) tag_fits,
      )
      (elim (Bool-cases (need_tag == tag)) [
        | inl e ↦
            rw (e, evtag_decode_int-encode (length code) body (omega (arith, short)), found, gone)
              (ground (arith, room))
        | inr n ↦ rw n refl
      ])

-- evtag_unmarshal_int of a message that evtag_marshal_int wrote, and the same for 64 bits: where the
-- tag is the one needed, the integer, with the length of its code, and what follows the message.
-- With another tag they fail, and only the tag is gone.
pub evtag_unmarshal_int-marshal :
    (tag need_tag integer integer64 : ℕ) (rest : List ℕ)
    → tag < 2 ^ 32
    → integer < 2 ^ 32
    → integer64 < 2 ^ 64
    → (evtag_unmarshal_int (evtag_marshal_int [] tag integer ++ rest) need_tag ≡ (
        if need_tag == tag then (done (integer, length (encode_internal 4 integer)), rest) else (
          fail,
          evtag_encode_int [] (length (encode_internal 4 integer))
              ++ (encode_internal 4 integer ++ rest),
        )))
      × (evtag_unmarshal_int64 (evtag_marshal_int64 [] tag integer64 ++ rest) need_tag ≡ (
          if need_tag == tag
          then (done (integer64, length (encode_internal 8 integer64)), rest)
          else (
            fail,
            evtag_encode_int [] (length (encode_internal 8 integer64))
                ++ (encode_internal 8 integer64 ++ rest),
          )))
unfolding evtag_unmarshal_int evtag_unmarshal_int64 evtag_marshal_int evtag_marshal_int64
    evtag_marshal
evtag_unmarshal_int-marshal tag need_tag integer integer64 rest tag_fits fits fits64 = (
  unmarshal_integer-marshal 32 4 tag integer rest refl (omega arith) (omega arith) tag_fits fits
      need_tag,
  unmarshal_integer-marshal 64 8 tag integer64 rest refl (omega arith) (omega arith) tag_fits fits64
      need_tag,
)

decode_timeval-codes :
    (sec usec : ℕ) (rest : List ℕ)
    → sec < 2 ^ 32
    → usec < 2 ^ 32
    → decode_timeval
        ((encode_internal 4 sec ++ encode_internal 4 usec) ++ rest)
        (length (encode_internal 4 sec ++ encode_internal 4 usec))
      ≡ done (record { tv_sec = sec; tv_usec = usec })
unfolding decode_timeval on_reply
decode_timeval-codes sec usec rest h k =
    let first = encode_internal 4 sec in
    let second = encode_internal 4 usec in
    let body = first ++ (second ++ rest) in
    rw
      (
        append_assoc first second rest,
        decode_internal-encode 32 4 sec body (second ++ rest) 0 refl (omega arith) (omega arith) h
            refl,
        decode_internal-encode 32 4 usec body rest (length first) refl (omega arith) (omega arith) k
            (drop-length first (second ++ rest)),
      )
      (ground (arith, length-append first second))

-- evtag_unmarshal_timeval of a message that evtag_marshal_timeval wrote: the time where the tag is
-- the one needed, else failure, and the message is gone either way.
pub evtag_unmarshal_timeval-marshal :
    (tag need_tag : ℕ) (tv : Timeval) (rest : List ℕ)
    → tag < 2 ^ 32
    → tv.tv_sec < 2 ^ 32
    → tv.tv_usec < 2 ^ 32
    → evtag_unmarshal_timeval (evtag_marshal_timeval [] tag tv ++ rest) need_tag
      ≡ (if tag == need_tag then done tv else fail, rest)
unfolding evtag_unmarshal_timeval evtag_marshal_timeval and_then
evtag_unmarshal_timeval-marshal tag need_tag tv rest tag_fits h k =
    let first = encode_internal 4 tv.tv_sec in
    let second = encode_internal 4 tv.tv_usec in
    let short = length-encode_internal 4 tv.tv_sec (omega (arith, h)) (omega arith) in
    let short2 = length-encode_internal 4 tv.tv_usec (omega (arith, k)) (omega arith) in
    rw
      (
        header_lem tag (first ++ second) rest tag_fits
            (omega (arith, short, short2, length-append {0} first second)),
        decode_timeval-codes tv.tv_sec tv.tv_usec rest h k,
        drop-length (first ++ second) rest,
      )
      refl
