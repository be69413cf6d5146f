-- ===== src/Tagging/Marshal.antt =====
-- LibEvent/Source/event_tagging.c: the messages, each a tag, the length of its payload and the
-- payload. A length is an unsigned integer of 32 bits that is returned as an int.
pub mod Messages
pub mod Numbers
mod Tests
use practising.Base.{
  ℕ, ◌+◌, ◌*◌, ◌%◌, ◌^◌, Bool, true, false, List, [], ◌∷◌, ◌++◌, length, take, drop, ◌==◌, ltb, leb,
  if◌then◌else◌,
}
use practising.Tagging.{
  Reply, done, fail, undefined, encode_int_internal, encode_int64_internal, evtag_encode_int,
  evtag_encode_tag, decode_tag_internal, decode_int_internal, decode_int64_internal,
  evtag_decode_tag, evtag_decode_int,
}

-- Go on with the result of a call, unless it failed.
pub on_reply : {A B : Type 0} → Reply A → (A → Reply B) → Reply B
on_reply (done a) f = f a
on_reply fail f = fail
on_reply undefined f = undefined

-- Go on with the result of a call and the bytes it left, unless it failed.
pub and_then :
    {A B : Type 0} → Reply A × List ℕ → (A → List ℕ → Reply B × List ℕ) → Reply B × List ℕ
and_then (done a, evbuf) f = f a evbuf
and_then (fail, evbuf) f = (fail, evbuf)
and_then (undefined, evbuf) f = (undefined, evbuf)

-- `data` has `len` bytes, fewer than 2 ^ 32 by the type of `len`.
pub evtag_marshal : List ℕ → ℕ → List ℕ → List ℕ
evtag_marshal evbuf tag bytes =
    evtag_encode_int (evtag_encode_tag evbuf tag) (length bytes) ++ bytes

-- evtag_marshal_buffer: both buffers. evbuffer_add_buffer moves all bytes of the second.
pub evtag_marshal_buffer : List ℕ → ℕ → List ℕ → List ℕ × List ℕ
evtag_marshal_buffer evbuf tag bytes =
    (evtag_encode_int (evtag_encode_tag evbuf tag) (length bytes % 2 ^ 32) ++ bytes, [])

pub evtag_marshal_int : List ℕ → ℕ → ℕ → List ℕ
evtag_marshal_int evbuf tag integer =
    let code = encode_int_internal integer in
    evtag_encode_int (evtag_encode_tag evbuf tag) (length code) ++ code

pub evtag_marshal_int64 : List ℕ → ℕ → ℕ → List ℕ
evtag_marshal_int64 evbuf tag integer =
    let code = encode_int64_internal integer in
    evtag_encode_int (evtag_encode_tag evbuf tag) (length code) ++ code

pub evtag_marshal_string : List ℕ → ℕ → List ℕ → List ℕ
evtag_marshal_string buf tag string = evtag_marshal buf tag (take (length string % 2 ^ 32) string)

-- struct timeval, its fields as the unsigned integers that they are encoded as.
pub record Timeval : Type 0 where
  pub tv_sec : ℕ
  pub tv_usec : ℕ

pub evtag_marshal_timeval : List ℕ → ℕ → Timeval → List ℕ
evtag_marshal_timeval evbuf tag tv =
    evtag_marshal evbuf tag (encode_int_internal tv.tv_sec ++ encode_int_internal tv.tv_usec)

-- What evtag_peek_length and evtag_payload_length read: the payload's length, and that of the
-- codes before it.
pub peek_header : List ℕ → Reply (ℕ × ℕ)
peek_header evbuf = on_reply (decode_tag_internal evbuf) (λ tag.
    on_reply (decode_int_internal evbuf tag.1) (λ length. done (length.0, length.1 + tag.1)))

pub evtag_peek_length : List ℕ → Reply ℕ
evtag_peek_length evbuf =
    on_reply (peek_header evbuf) (λ found. done ((found.0 + found.1) % 2 ^ 32))

pub evtag_payload_length : List ℕ → Reply ℕ
evtag_payload_length evbuf = on_reply (peek_header evbuf) (λ found. done found.0)

-- The tag and the length of the payload that follows.
pub evtag_unmarshal_header : List ℕ → Reply (ℕ × ℕ) × List ℕ
evtag_unmarshal_header evbuf = and_then (evtag_decode_tag evbuf) (λ tag evbuf.
    and_then (evtag_decode_int evbuf) (λ len evbuf.
      if ltb (length evbuf) len
      then (fail, evbuf)
      else if leb (2 ^ 31) len
      then (undefined, evbuf)
      else (done (tag.0, len), evbuf)))

pub evtag_consume : List ℕ → Reply ℕ × List ℕ
evtag_consume evbuf =
    and_then (evtag_unmarshal_header evbuf) (λ found evbuf. (done 0, drop found.1 evbuf))

-- evtag_unmarshal: the tag, the length and what `dst` then holds.
pub evtag_unmarshal : List ℕ → List ℕ → Reply (ℕ × ℕ × List ℕ) × List ℕ
evtag_unmarshal src dst =
    and_then (evtag_unmarshal_header src)
      (λ found src. (done (found.0, found.1, dst ++ take found.1 src), drop found.1 src))

-- The integer and its code's length, where the code is within the payload.
pub within : ℕ → Reply (ℕ × ℕ) → Reply (ℕ × ℕ)
within len (done (integer, result)) = if ltb len result then fail else done (integer, result)
within len fail = fail
within len undefined = undefined

-- evtag_unmarshal_int and evtag_unmarshal_int64, by the decoder that they use.
pub unmarshal_integer : (List ℕ → ℕ → Reply (ℕ × ℕ)) → List ℕ → ℕ → Reply (ℕ × ℕ) × List ℕ
unmarshal_integer decode evbuf need_tag = and_then (evtag_decode_tag evbuf) (λ tag evbuf.
    if need_tag == tag.0
    then and_then (evtag_decode_int evbuf) (λ len evbuf.
      if ltb (length evbuf) len
      then (fail, evbuf)
      else (within len (decode evbuf 0), drop len evbuf))
    else (fail, evbuf))

pub evtag_unmarshal_int : List ℕ → ℕ → Reply (ℕ × ℕ) × List ℕ
evtag_unmarshal_int evbuf need_tag = unmarshal_integer decode_int_internal evbuf need_tag

pub evtag_unmarshal_int64 : List ℕ → ℕ → Reply (ℕ × ℕ) × List ℕ
evtag_unmarshal_int64 evbuf need_tag = unmarshal_integer decode_int64_internal evbuf need_tag

pub evtag_unmarshal_fixed : List ℕ → ℕ → ℕ → Reply (List ℕ) × List ℕ
evtag_unmarshal_fixed src need_tag len = and_then (evtag_unmarshal_header src) (λ found src.
    if found.0 == need_tag
    then (if found.1 == len then (done (take len src), drop len src) else (fail, src))
    else (fail, src))

-- The string ends with a zero byte. Its size is an int.
pub evtag_unmarshal_string : List ℕ → ℕ → Reply (List ℕ) × List ℕ
evtag_unmarshal_string evbuf need_tag = and_then (evtag_unmarshal_header evbuf) (λ found evbuf.
    if found.0 == need_tag
    then (if leb (2 ^ 31) (found.1 + 1)
        then (undefined, evbuf)
        else (done (take found.1 evbuf ++ 0 ∷ []), drop found.1 evbuf))
    else (fail, evbuf))

-- What evtag_unmarshal_timeval reads from a payload of `len` bytes.
pub decode_timeval : List ℕ → ℕ → Reply Timeval
decode_timeval evbuf len = on_reply (decode_int_internal evbuf 0) (λ sec.
    on_reply (decode_int_internal evbuf sec.1) (λ usec.
      if ltb len (sec.1 + usec.1)
      then fail
      else done (record { tv_sec = sec.0; tv_usec = usec.0 })))

pub evtag_unmarshal_timeval : List ℕ → ℕ → Reply Timeval × List ℕ
evtag_unmarshal_timeval evbuf need_tag = and_then (evtag_unmarshal_header evbuf) (λ found evbuf.
    (if found.0 == need_tag then decode_timeval evbuf found.1 else fail, drop found.1 evbuf))
