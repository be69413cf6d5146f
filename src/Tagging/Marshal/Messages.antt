-- ===== src/Tagging/Marshal/Messages.antt =====
-- A marshalled message of event_tagging.c is read back, whatever follows it in the evbuffer.
use practising.Base.{
  ℕ, ◌+◌, ◌^◌, ◌<◌, ◌≡◌, refl, sym, ap, ap₂, ◌∙◌, List, [], ◌∷◌, ◌++◌, length, length-append,
  append_assoc, arith, ◌==◌, ==→≡, Bool-cases, inl, inr, if◌then◌else◌, drop-length, take-length,
}
use native.Mathlib.Nat.{mod-eq_of_lt}
use practising.Tagging.{done, fail, tag_bytes, evtag_encode_tag, evtag_encode_int, encode_internal}
use practising.Tagging.Tags.{
  evtag_decode_tag-encode, decode_tag_internal-tag_bytes, length-tag_bytes,
}
use practising.Tagging.RoundTrip.{
  evtag_decode_int-encode, decode_internal-encode, length-encode_internal,
}
use practising.Tagging.Marshal.{
  and_then, evtag_marshal, peek_header, on_reply, evtag_peek_length, evtag_payload_length,
  evtag_unmarshal_header, evtag_consume, evtag_unmarshal, evtag_unmarshal_fixed,
  evtag_unmarshal_string,
}

codes-parts :
    (tag len : ℕ) (rest : List ℕ)
    → evtag_encode_int (evtag_encode_tag [] tag) len ++ rest
      ≡ evtag_encode_tag [] tag ++ (evtag_encode_int [] len ++ rest)
unfolding evtag_encode_tag evtag_encode_int
codes-parts tag len rest = simp append_assoc refl

-- A message is its tag's code, its length's code and its payload.
pub evtag_marshal-parts :
    (tag : ℕ) (payload rest : List ℕ)
    → evtag_marshal [] tag payload ++ rest
      ≡ evtag_encode_tag [] tag ++ (evtag_encode_int [] (length payload) ++ (payload ++ rest))
unfolding evtag_marshal evtag_encode_tag evtag_encode_int
evtag_marshal-parts tag payload rest = simp append_assoc refl

module _ (tag : ℕ) (payload rest : List ℕ) (tag_fits : tag < 2 ^ 32)
    (fits : length payload < 2 ^ 31) where
  pub header_lem :
      evtag_unmarshal_header (evtag_marshal [] tag payload ++ rest)
      ≡ (done (tag, length payload), payload ++ rest)
  unfolding evtag_unmarshal_header and_then
  header_lem =
      let body = payload ++ rest in
      rw
        (
          evtag_marshal-parts tag payload rest,
          evtag_decode_tag-encode tag (evtag_encode_int [] (length payload) ++ body) tag_fits,
          evtag_decode_int-encode (length payload) body (omega (arith, fits)),
        )
        (ground (arith, fits, length-append payload rest))

  -- evtag_unmarshal of a message that evtag_marshal wrote, with a tag below 2 ^ 32 and a payload of fewer
  -- than 2 ^ 31 bytes, gives the tag and the length and appends the payload to `dst`, evtag_consume
  -- passes over the message, and both leave what follows it.
  pub evtag_unmarshal-marshal :
      (dst : List ℕ)
      → (evtag_unmarshal (evtag_marshal [] tag payload ++ rest) dst
          ≡ (done (tag, length payload, dst ++ payload), rest))
        × (evtag_consume (evtag_marshal [] tag payload ++ rest) ≡ (done 0, rest))
  unfolding evtag_unmarshal evtag_consume and_then
  evtag_unmarshal-marshal dst = (
    rw header_lem (
        ap₂ (λ (a b : List ℕ). (done (tag, length payload, dst ++ a), b)) (take-length payload rest)
          (drop-length payload rest)),
    rw header_lem (ap (λ (b : List ℕ). (done 0, b)) (drop-length payload rest)),
  )

  -- Of a message that evtag_marshal wrote, with a tag below 2 ^ 32 and a payload of fewer than 2 ^ 31 - 1
  -- bytes: evtag_unmarshal_fixed and evtag_unmarshal_string, if it has the tag that they need, give its
  -- payload, the string with a zero byte behind it. With another tag they fail, and with another
  -- length evtag_unmarshal_fixed does: then the header is gone, and the payload is still there.
  pub evtag_unmarshal_fixed-marshal :
      (need_tag len : ℕ)
      → length payload + 1 < 2 ^ 31
      → (evtag_unmarshal_fixed (evtag_marshal [] tag payload ++ rest) need_tag len ≡ (
          if tag == need_tag
          then (if length payload == len then (done payload, rest) else (fail, payload ++ rest))
          else (fail, payload ++ rest)))
        × (evtag_unmarshal_string (evtag_marshal [] tag payload ++ rest) need_tag ≡ (
            if tag == need_tag then (done (payload ++ 0 ∷ []), rest) else (fail, payload ++ rest)))
  unfolding evtag_unmarshal_fixed evtag_unmarshal_string and_then
  evtag_unmarshal_fixed-marshal need_tag len h = (
    elim (Bool-cases (length payload == len)) [
      | inl e ↦
          let same : len ≡ length payload = sym (==→≡ (length payload) len e) in
          rw (header_lem, e, same)
            (ground (arith, take-length payload rest, drop-length payload rest))
      | inr n ↦ rw (header_lem, n) (ground arith)
    ],
    rw header_lem (ground (arith, take-length payload rest, drop-length payload rest)),
  )

  peek_header-marshal :
      peek_header (evtag_marshal [] tag payload ++ rest)
      ≡ done
          (length payload, length (encode_internal 4 (length payload)) + length (tag_bytes 5 tag))
  unfolding evtag_encode_tag evtag_encode_int peek_header on_reply
  peek_header-marshal =
      let behind = encode_internal 4 (length payload) ++ (payload ++ rest) in
      rw
        (
          evtag_marshal-parts tag payload rest,
          decode_tag_internal-tag_bytes tag behind tag_fits,
          decode_internal-encode 32 4 (length payload) (tag_bytes 5 tag ++ behind) (payload ++ rest)
              (length (tag_bytes 5 tag)) refl (omega arith) (omega arith) (omega (arith, fits))
              (drop-length (tag_bytes 5 tag) behind),
        )
        refl

  -- evtag_peek_length of a marshalled message gives the length of all of it, and
  -- evtag_payload_length that of its payload.
  pub evtag_peek_length-marshal :
      (evtag_peek_length (evtag_marshal [] tag payload ++ rest)
        ≡ done (length (evtag_marshal [] tag payload)))
      × (evtag_payload_length (evtag_marshal [] tag payload ++ rest) ≡ done (length payload))
  unfolding evtag_peek_length evtag_payload_length on_reply evtag_marshal evtag_encode_tag
      evtag_encode_int
  evtag_peek_length-marshal =
      let code = encode_internal 4 (length payload) in
      let front = tag_bytes 5 tag in
      let long : length ((front ++ code) ++ payload) ≡ length front + length code + length payload =
        omega (arith, length-append {0} (front ++ code) payload, length-append {0} front code) in
      let small : length payload + (length code + length front) < 2 ^ 32 = omega (
        arith,
        length-encode_internal 4 (length payload) (omega (arith, fits)) (omega arith),
        length-tag_bytes 5 tag,
        fits,
      ) in
      (
        rw peek_header-marshal (ap done (mod-eq_of_lt small ∙ omega (arith, long))),
        rw peek_header-marshal refl,
      )

truncated_header :
    (tag len : ℕ) (payload : List ℕ)
    → tag < 2 ^ 32
    → len < 2 ^ 32
    → length payload < len
    → evtag_unmarshal_header (evtag_encode_int (evtag_encode_tag [] tag) len ++ payload)
      ≡ (fail, payload)
unfolding evtag_unmarshal_header and_then
truncated_header tag len payload tag_fits fits short =
    rw
      (
        codes-parts tag len payload,
        evtag_decode_tag-encode tag (evtag_encode_int [] len ++ payload) tag_fits,
        evtag_decode_int-encode len payload fits,
      )
      (ground (arith, short))

-- Where fewer bytes follow a message's codes than its length, below 2 ^ 32, says, and its tag is below
-- 2 ^ 32: evtag_unmarshal, evtag_consume, evtag_unmarshal_fixed and evtag_unmarshal_string all fail, the
-- codes are gone and the bytes behind them are still there.
pub evtag_unmarshal_truncated :
    (tag len : ℕ) (payload dst : List ℕ) (need_tag need_len : ℕ)
    → tag < 2 ^ 32
    → len < 2 ^ 32
    → length payload < len
    → (evtag_unmarshal (evtag_encode_int (evtag_encode_tag [] tag) len ++ payload) dst
        ≡ (fail, payload))
      × (evtag_consume (evtag_encode_int (evtag_encode_tag [] tag) len ++ payload)
          ≡ (fail, payload))
      × (evtag_unmarshal_fixed
            (evtag_encode_int (evtag_encode_tag [] tag) len ++ payload)
            need_tag
            need_len
          ≡ (fail, payload))
      × (evtag_unmarshal_string (evtag_encode_int (evtag_encode_tag [] tag) len ++ payload) need_tag
          ≡ (fail, payload))
unfolding evtag_unmarshal evtag_consume evtag_unmarshal_fixed evtag_unmarshal_string and_then
evtag_unmarshal_truncated tag len payload dst need_tag need_len tag_fits fits short =
    let header = truncated_header tag len payload tag_fits fits short in
    (rw header refl, rw header refl, rw header refl, rw header refl)
