-- ===== src/Uri/Tests.antt =====
-- Runs of the functions that escape for a URI, and the theorems at concrete inputs.
use practising.Base.{ℕ, ◌≡◌, ◌≤◌, refl, true, false, List, [], ◌∷◌, length, All, arith}
use practising.Uri.{
  is_unreserved, is_xdigit, xdigit_value, xdigit, encode_char, evhttp_uriencode, is_escape,
  escape_value, decode_char, decode_uri, evhttp_uridecode, evhttp_decode_uri,
}
use practising.Uri.Escapes.{
  evhttp_uridecode-uriencode, length-decode_uri, is_safe, evhttp_uriencode_safe,
}

-- `a b+%`
abbrev text : List ℕ
text = 97 ∷ 32 ∷ 98 ∷ 43 ∷ 37 ∷ []

encodes : evhttp_uriencode true text ≡ 97 ∷ 43 ∷ 98 ∷ 37 ∷ 50 ∷ 66 ∷ 37 ∷ 50 ∷ 53 ∷ []
unfolding evhttp_uriencode encode_char is_unreserved xdigit
encodes = refl

-- `+?+%4` and `%41`: a plus sign before the question mark stays, and so does half an escape.
decodes :
    evhttp_decode_uri (43 ∷ 63 ∷ 43 ∷ 37 ∷ 52 ∷ 37 ∷ 52 ∷ 49 ∷ [])
    ≡ 43 ∷ 63 ∷ 32 ∷ 37 ∷ 52 ∷ 65 ∷ []
unfolding evhttp_decode_uri decode_uri decode_char is_escape escape_value is_xdigit xdigit_value
decodes = refl

evhttp_uridecode-uriencode_example :
    (evhttp_uridecode (evhttp_uriencode true text) true ≡ text)
    × (evhttp_decode_uri (evhttp_uriencode false text) ≡ text)
evhttp_uridecode-uriencode_example =
    evhttp_uridecode-uriencode text true true (omega arith) (λ e. e)

decoded_no_longer : length (decode_uri true false 1 text) ≤ 5
decoded_no_longer = length-decode_uri true false 1 text

evhttp_uriencode_safe_example : All (λ d. is_safe d ≡ true) (evhttp_uriencode true text)
evhttp_uriencode_safe_example = evhttp_uriencode_safe true text (omega arith)
