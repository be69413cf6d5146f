-- ===== src/Tagging/Marshal/Tests.antt =====
-- Runs of the functions of event_tagging.c, and the theorems at concrete inputs.
use practising.Base.{◌≡◌, ◌^◌, ◌-◌, ◌++◌, refl, List, [], ◌∷◌, ℕ, arith}
use practising.Tagging.{
  done, fail, undefined, set_nibble, encode_loop, encode_internal, evtag_encode_int,
  evtag_encode_int64, evtag_decode_int, evtag_decode_int64, tag_bytes, evtag_encode_tag,
  evtag_decode_tag,
}
use practising.Tagging.Tags.{evtag_decode_tag-encode, evtag_decode_tag_overrun}
use practising.Tagging.RoundTrip.{evtag_decode_int-encode, evtag_decode_int64-encode}
use practising.Tagging.Marshal.{
  evtag_marshal, evtag_marshal_int, evtag_marshal_int64, evtag_marshal_timeval, Timeval,
  evtag_peek_length, evtag_payload_length, evtag_consume, evtag_unmarshal, evtag_unmarshal_int,
  evtag_unmarshal_int64, evtag_unmarshal_fixed, evtag_unmarshal_string, evtag_unmarshal_timeval,
}
use practising.Tagging.Marshal.Messages.{
  evtag_unmarshal-marshal, evtag_unmarshal_fixed-marshal, evtag_peek_length-marshal,
  evtag_unmarshal_truncated,
}
use practising.Tagging.Marshal.Numbers.{
  evtag_unmarshal_int-marshal, evtag_unmarshal_timeval-marshal,
}

-- 4660 is 0x1234: four nibbles behind the nibble 3, the lowest first.
encodes_1234 : encode_internal 4 4660 ≡ 52 ∷ 50 ∷ 16 ∷ []
unfolding encode_internal encode_loop set_nibble
encodes_1234 = refl

encodes_300 : tag_bytes 5 300 ≡ 172 ∷ 2 ∷ []
unfolding tag_bytes
encodes_300 = refl

abbrev three : List ℕ
three = 5 ∷ 6 ∷ 7 ∷ []

abbrev noon : Timeval
noon = record { tv_sec = 43200; tv_usec = 999999 }

marshals_three : evtag_marshal [] 300 three ≡ 172 ∷ 2 ∷ 3 ∷ three
unfolding evtag_marshal evtag_encode_int evtag_encode_tag encode_internal encode_loop set_nibble
    tag_bytes
marshals_three = refl

evtag_decode_int-encode_example :
    evtag_decode_int (evtag_encode_int [] 4660 ++ three) ≡ (done 4660, three)
evtag_decode_int-encode_example = evtag_decode_int-encode 4660 three (omega arith)

evtag_decode_int64-encode_example :
    evtag_decode_int64 (evtag_encode_int64 [] (2 ^ 64 - 1) ++ three) ≡ (done (2 ^ 64 - 1), three)
evtag_decode_int64-encode_example = evtag_decode_int64-encode (2 ^ 64 - 1) three (omega arith)

evtag_decode_tag-encode_example :
    evtag_decode_tag (evtag_encode_tag [] 300 ++ three) ≡ (done (300, 2), three)
unfolding tag_bytes
evtag_decode_tag-encode_example = evtag_decode_tag-encode 300 three (omega arith)

evtag_decode_tag_overrun_example :
    (evtag_decode_tag ((128 ∷ 129 ∷ 255 ∷ 128 ∷ 200 ∷ []) ++ 1 ∷ three)).0 ≡ undefined
evtag_decode_tag_overrun_example =
    evtag_decode_tag_overrun (128 ∷ 129 ∷ 255 ∷ 128 ∷ 200 ∷ []) 1 three (omega arith) refl

evtag_unmarshal-marshal_example :
    (evtag_unmarshal (evtag_marshal [] 300 three ++ 9 ∷ []) (1 ∷ [])
      ≡ (done (300, 3, (1 ∷ []) ++ three), 9 ∷ []))
    × (evtag_consume (evtag_marshal [] 300 three ++ 9 ∷ []) ≡ (done 0, 9 ∷ []))
evtag_unmarshal-marshal_example =
    evtag_unmarshal-marshal 300 three (9 ∷ []) (omega arith) (omega arith) (1 ∷ [])

evtag_unmarshal_fixed-marshal_example :
    (evtag_unmarshal_fixed (evtag_marshal [] 300 three ++ 9 ∷ []) 300 4 ≡ (fail, three ++ 9 ∷ []))
    × (evtag_unmarshal_string (evtag_marshal [] 300 three ++ 9 ∷ []) 300
        ≡ (done (three ++ 0 ∷ []), 9 ∷ []))
evtag_unmarshal_fixed-marshal_example =
    evtag_unmarshal_fixed-marshal 300 three (9 ∷ []) (omega arith) (omega arith) 300 4 (omega arith)

peeks_three :
    (evtag_peek_length (evtag_marshal [] 300 three ++ 9 ∷ []) ≡ done 6)
    × (evtag_payload_length (evtag_marshal [] 300 three ++ 9 ∷ []) ≡ done 3)
unfolding evtag_marshal evtag_encode_int evtag_encode_tag encode_internal encode_loop set_nibble
    tag_bytes
peeks_three = evtag_peek_length-marshal 300 three (9 ∷ []) (omega arith) (omega arith)

evtag_unmarshal_truncated_example :
    (evtag_unmarshal (evtag_encode_int (evtag_encode_tag [] 300) 4 ++ three) [] ≡ (fail, three))
    × (evtag_consume (evtag_encode_int (evtag_encode_tag [] 300) 4 ++ three) ≡ (fail, three))
    × (evtag_unmarshal_fixed (evtag_encode_int (evtag_encode_tag [] 300) 4 ++ three) 300 4
        ≡ (fail, three))
    × (evtag_unmarshal_string (evtag_encode_int (evtag_encode_tag [] 300) 4 ++ three) 300
        ≡ (fail, three))
evtag_unmarshal_truncated_example =
    evtag_unmarshal_truncated 300 4 three [] 300 4 (omega arith) (omega arith) (omega arith)

evtag_unmarshal_int-marshal_example :
    (evtag_unmarshal_int (evtag_marshal_int [] 300 4660 ++ three) 300 ≡ (done (4660, 3), three))
    × (evtag_unmarshal_int64 (evtag_marshal_int64 [] 300 17 ++ three) 300 ≡ (done (17, 2), three))
unfolding encode_internal encode_loop set_nibble
evtag_unmarshal_int-marshal_example =
    evtag_unmarshal_int-marshal 300 300 4660 17 three (omega arith) (omega arith) (omega arith)

evtag_unmarshal_timeval-marshal_example :
    evtag_unmarshal_timeval (evtag_marshal_timeval [] 300 noon ++ three) 301 ≡ (fail, three)
evtag_unmarshal_timeval-marshal_example =
    evtag_unmarshal_timeval-marshal 300 301 noon three (omega arith) (omega arith) (omega arith)
