-- ===== src/Tagging.antt =====
-- LibEvent/Source/event_tagging.c: tagged data in an evbuffer. The evbuffer is the list of bytes
-- that it holds: evbuffer_add appends to it, evbuffer_drain drops from it, and evbuffer_pullup lets
-- its front be read. Memory for these calls is taken to be there. A function that drains returns
-- the bytes that are left, also where it fails.
pub mod Ints
pub mod Tags
pub mod Marshal
pub mod RoundTrip
use practising.Base.{
  ℕ, zero, suc, ◌+◌, ◌-◌, ◌*◌, ◌/◌, ◌%◌, ◌^◌, Bool, true, false, ◌||◌, List, [], ◌∷◌, ◌++◌, length,
  get_or, set, take, drop, replicate, ◌==◌, ltb, leb, if◌then◌else◌,
}

-- How a call ends: with a result, with -1, or outside of what C defines or an int holds.
pub data Reply {ℓ} (A : Type ℓ) : Type ℓ where
  done : A → Reply A
  fail : Reply A
  undefined : Reply A

-- Nibble `i` of the bytes: byte i / 2, its low half where `i` is odd and its high half where even.
pub get_nibble : List ℕ → ℕ → ℕ
get_nibble bytes i =
    if i % 2 == 1 then get_or bytes (i / 2) 0 % 16 else get_or bytes (i / 2) 0 / 16 % 16

-- `(data[off/2] & 0xf0) | v`, and `(data[off/2] & 0x0f) | (v << 4)` where `off` is even.
pub set_nibble : List ℕ → ℕ → ℕ → List ℕ
set_nibble bytes i v =
    let old = get_or bytes (i / 2) 0 in
    set bytes (i / 2) (if i % 2 == 1 then old / 16 % 16 * 16 + v else old % 16 + v * 16)

-- The loop of ENCODE_INT_INTERNAL: the bytes written so far and `off`.
pub encode_loop : ℕ → List ℕ → ℕ → ℕ → List ℕ × ℕ
encode_loop zero bytes off number = (bytes, off)
encode_loop (suc fuel) bytes off number =
    let rest = encode_loop fuel (set_nibble bytes off (number % 16)) (off + 1) (number / 16) in
    if number == 0 then (bytes, off) else rest

-- ENCODE_INT_INTERNAL for an integer of `size` bytes: the bytes that the caller adds.
pub encode_internal : ℕ → ℕ → List ℕ
encode_internal size number =
    let (bytes, off) = encode_loop (2 * size) (replicate (size + 1) 0) 1 number in
    let nibbles = if ltb 2 off then off - 2 else 0 in
    take ((off + 1) / 2) (set_nibble bytes 0 (nibbles % 16))

-- encode_int_internal and encode_int64_internal
abbrev pub encode_int_internal : ℕ → List ℕ
encode_int_internal number = encode_internal 4 number

abbrev pub encode_int64_internal : ℕ → List ℕ
encode_int64_internal number = encode_internal 8 number

-- evtag_encode_int and evtag_encode_int64
pub evtag_encode_int : List ℕ → ℕ → List ℕ
evtag_encode_int evbuf number = evbuf ++ encode_int_internal number

pub evtag_encode_int64 : List ℕ → ℕ → List ℕ
evtag_encode_int64 evbuf number = evbuf ++ encode_int64_internal number

-- The loop of evtag_encode_tag: 7 bits a byte, lowest first.
pub tag_bytes : ℕ → ℕ → List ℕ
tag_bytes zero tag = []
tag_bytes (suc fuel) tag =
    let rest = (tag % 128 + 128) ∷ tag_bytes fuel (tag / 128) in
    if tag / 128 == 0 then tag % 128 ∷ [] else rest

pub evtag_encode_tag : List ℕ → ℕ → List ℕ
evtag_encode_tag evbuf tag = evbuf ++ tag_bytes 5 tag

-- The loop of decode_tag_internal over the bytes from `count` on. It has no bound but the length: at
-- the sixth byte the shift is 35, which is undefined on an int, and the byte is past those that
-- were pulled up. The shift by 28 wraps. The bits of `number |= …` do not overlap: it is a sum.
pub decode_tag_loop : List ℕ → ℕ → ℕ → Reply (ℕ × ℕ)
decode_tag_loop [] count number = fail
decode_tag_loop (lower ∷ bytes) count number =
    let number' = (number + lower % 128 * 2 ^ (7 * count)) % 2 ^ 32 in
    let rest = decode_tag_loop bytes (count + 1) number' in
    if leb 5 count then undefined else if ltb lower 128 then done (number', count + 1) else rest

-- decode_tag_internal: the tag and the number of bytes of its code.
pub decode_tag_internal : List ℕ → Reply (ℕ × ℕ)
decode_tag_internal evbuf = decode_tag_loop evbuf 0 0

abbrev pub evtag_peek : List ℕ → Reply (ℕ × ℕ)
evtag_peek evbuf = decode_tag_internal evbuf

-- The drain of decode_tag_internal: nothing goes on failure.
pub drain_read : {A : Type 0} → (A → ℕ) → Reply A → List ℕ → Reply A × List ℕ
drain_read count (done a) evbuf = (done a, drop (count a) evbuf)
drain_read count fail evbuf = (fail, evbuf)
drain_read count undefined evbuf = (undefined, evbuf)

pub evtag_decode_tag : List ℕ → Reply (ℕ × ℕ) × List ℕ
evtag_decode_tag evbuf = drain_read (λ r. r.1) (decode_tag_internal evbuf) evbuf

-- The loop of DECODE_INT_INTERNAL for an unsigned integer of `bits` bits.
pub decode_loop : ℕ → ℕ → ℕ → List ℕ → ℕ
decode_loop bits zero number bytes = number
decode_loop bits (suc nibbles) number bytes =
    decode_loop bits nibbles (number * 16 % 2 ^ bits + get_nibble bytes (suc nibbles)) bytes

-- DECODE_INT_INTERNAL on the bytes from `offset` on: the integer and the length of its code.
pub decode_internal : ℕ → ℕ → List ℕ → ℕ → Reply (ℕ × ℕ)
decode_internal bits maxnibbles evbuf offset =
    let bytes = drop offset evbuf in
    let nibbles = get_nibble bytes 0 + 1 in
    let len = nibbles / 2 + 1 in
    if leb (length evbuf) offset
    then fail
    else if ltb maxnibbles nibbles || ltb (length evbuf - offset) len
    then fail
    else done (decode_loop bits nibbles 0 bytes, len)

-- decode_int_internal and decode_int64_internal
abbrev pub decode_int_internal : List ℕ → ℕ → Reply (ℕ × ℕ)
decode_int_internal evbuf offset = decode_internal 32 8 evbuf offset

abbrev pub decode_int64_internal : List ℕ → ℕ → Reply (ℕ × ℕ)
decode_int64_internal evbuf offset = decode_internal 64 16 evbuf offset

pub drain_decoded : Reply (ℕ × ℕ) → List ℕ → Reply ℕ × List ℕ
drain_decoded (done (number, len)) evbuf = (done number, drop len evbuf)
drain_decoded fail evbuf = (fail, evbuf)
drain_decoded undefined evbuf = (undefined, evbuf)

-- evtag_decode_int and evtag_decode_int64
pub evtag_decode_int : List ℕ → Reply ℕ × List ℕ
evtag_decode_int evbuf = drain_decoded (decode_int_internal evbuf 0) evbuf

pub evtag_decode_int64 : List ℕ → Reply ℕ × List ℕ
evtag_decode_int64 evbuf = drain_decoded (decode_int64_internal evbuf 0) evbuf
